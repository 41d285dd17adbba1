-- ===== src/Contest/Access.antt =====
-- Who may see, enter and manage a contest: the guards of `ContestService` and the windows that
-- `get_detail`, `submit_problem` and the endpoints on problems and submissions compute. A viewer who has
-- not logged in is `none`.
pub mod Windows
use pigeon_oj.Base.{
  ℕ, Bool, true, false, not, ◌&&◌, ◌||◌, Option, none, some, List, [], ◌∷◌, ◌++◌, filter, find?,
  is_some, ltb, leb, ◌==◌, if◌then◌else◌, Code, Result, ok, err, ◌>>=◌, ◌>>◌, refuse_if,
}
use pigeon_oj.Model.{
  Submission, ContestType, RegistrationStatus, Contest, ContestProblem, Registration, RoleCode,
  RoleGrant, Problem, is_public_problem, global_role_codes, team_role_codes, has_code, is_admin,
}
use Prim.Native.String.{String}
use pigeon_oj.Problems.{ProblemDb}
use pigeon_oj.Space.Submitting.{create_contest_submission}
use pigeon_oj.Contest.{ContestDb, get_contest, get_problem}

pub data Level : Type 0 where
  member admin_level : Level

abbrev pub is_team : ContestType → Bool
is_team ContestType.team = true
is_team ContestType.public = false

-- ContestService._is_contest_manager
unfoldable pub is_contest_manager : List RoleGrant → Option ℕ → Bool
is_contest_manager grants none = false
is_contest_manager grants (some u) =
    let codes = global_role_codes grants u in
    has_code RoleCode.admin codes || has_code RoleCode.tutor codes

-- ContestService._has_team_role
unfoldable pub has_team_role : List RoleGrant → Option ℕ → Option ℕ → Level → Bool
has_team_role grants none t level = false
has_team_role grants (some u) none level = false
has_team_role grants (some u) (some t) Level.admin_level =
    let codes = team_role_codes grants u t in
    has_code RoleCode.team_creator codes || has_code RoleCode.team_admin codes
has_team_role grants (some u) (some t) Level.member =
    let codes = team_role_codes grants u t in
    has_code RoleCode.team_creator codes
    || (has_code RoleCode.team_admin codes || has_code RoleCode.team_member codes)

-- ContestService._can_manage, for a contest
unfoldable pub can_manage : List RoleGrant → Option ℕ → Contest → Bool
unfolding has_team_role
can_manage grants none c = false
can_manage grants (some u) c =
    if is_admin grants u
    then true
    else if is_team c.contest_type && is_some c.team_id
    then has_team_role grants (some u) c.team_id Level.admin_level
    else (u == c.owner_id)

-- ContestService.require_manage and _get_contest
unfoldable pub find_contest : ℕ → ContestDb → Result Contest
find_contest cid db = elim (get_contest cid db) [
  | none ↦ err Code.resource_not_found
  | some c ↦ ok c
]

unfoldable pub require_manage : ℕ → ℕ → ContestDb → Result Contest
unfolding find_contest can_manage
require_manage cid u db = find_contest cid db >>= λ c.
    refuse_if (not (can_manage db.grants (some u) c)) Code.auth_forbidden >> ok c

abbrev pub is_registered_status : Option Registration → Bool
is_registered_status none = false
is_registered_status (some r) = elim r.status [
  | RegistrationStatus.registered ↦ true
  | RegistrationStatus.cancelled ↦ false
]

-- ContestRepository.get_registration
unfoldable pub get_registration : ℕ → ℕ → List Registration → Option Registration
get_registration cid u rs = find? (λ r. (r.contest_id == cid) && (r.user_id == u)) rs

-- ContestService._is_registered
unfoldable pub is_registered : ContestDb → Contest → ℕ → Bool
unfolding get_registration
is_registered db c u = is_registered_status (get_registration c.id u db.registrations)

-- ContestService._ensure_team_view
abbrev pub viewer_is_admin : List RoleGrant → Option ℕ → Bool
viewer_is_admin grants none = false
viewer_is_admin grants (some u) = is_admin grants u

unfoldable pub ensure_team_view : ContestDb → Contest → Option ℕ → Result (Unit {0})
unfolding has_team_role
ensure_team_view db c viewer =
    if not (is_team c.contest_type) || not (is_some c.team_id)
    then ok tt
    else if viewer_is_admin db.grants viewer
    then ok tt
    else refuse_if (not (has_team_role db.grants viewer c.team_id Level.member)) Code.auth_forbidden

-- ContestService._ensure_submissions_visible
unfoldable pub ensure_submissions_visible : ContestDb → ℕ → Contest → ℕ → Result (Unit {0})
unfolding can_manage ensure_team_view
ensure_submissions_visible db now c u =
    if can_manage db.grants (some u) c
    then ok tt
    else ensure_team_view db c (some u) >> refuse_if (ltb now c.end_time) Code.auth_forbidden

-- ContestService._ensure_problems_visible
unfoldable pub ensure_problems_visible : ContestDb → ℕ → Contest → ℕ → Result (Unit {0})
unfolding can_manage ensure_team_view is_registered
ensure_problems_visible db now c u =
    ensure_team_view db c (some u)
    >> (if can_manage db.grants (some u) c
        then ok tt
        else refuse_if (ltb now c.start_time) Code.auth_forbidden
          >> refuse_if (leb now c.end_time && not (is_registered db c u)) Code.auth_forbidden)

-- ContestService._has_full_problem_access
unfoldable pub has_full_problem_access : ContestDb → Contest → ℕ → Bool
unfolding is_registered can_manage
has_full_problem_access db c u = is_registered db c u || can_manage db.grants (some u) c

-- `problem is not None and problem.visibility == PUBLIC`
abbrev pub open_problem : Option Problem → Bool
open_problem none = false
open_problem (some p) = is_public_problem p.visibility

-- ContestService._visible_problem_rows
unfoldable pub visible_problem_rows : ContestDb → Contest → Bool → List ContestProblem
unfolding get_problem
visible_problem_rows db c full =
    let rows = filter (λ cp. cp.contest_id == c.id) db.contest_problems in
    if full then rows else filter (λ cp. open_problem (get_problem cp.problem_id db)) rows

-- the flags of ContestDetail
pub record Detail : Type 0 where
  pub can_register : Bool
  pub can_view_problems : Bool
  pub can_submit : Bool
  pub can_manage_it : Bool
  pub problems : List ContestProblem

abbrev pub viewer_registered : ContestDb → Contest → Option ℕ → Bool
viewer_registered db c none = false
viewer_registered db c (some u) = is_registered db c u

-- ContestService.get_detail
unfoldable pub get_detail : ContestDb → ℕ → ℕ → Option ℕ → Result Detail
unfolding find_contest has_team_role can_manage visible_problem_rows
get_detail db now cid viewer = find_contest cid db >>= λ c.
    refuse_if
      (is_team c.contest_type && not (has_team_role db.grants viewer c.team_id Level.member))
      Code.auth_forbidden
    >> (let registered = viewer_registered db c viewer in
        let manage = can_manage db.grants viewer c in
        let view = (leb c.start_time now && (registered || leb c.end_time now)) || manage in
        ok (record {
          can_register =
              (leb c.register_start_time now && leb now c.register_end_time) && not registered;
          can_view_problems = view;
          can_submit = leb c.start_time now && (registered || ltb c.end_time now);
          can_manage_it = manage;
          problems = if view then visible_problem_rows db c (registered || manage) else [];
        }))

-- the rows of problems and grants that a submission reads
abbrev pub problem_tables : ContestDb → ProblemDb
problem_tables db = record {
  problems = db.problems;
  grants = db.grants;
  verifications = [];
  invites = [];
}

-- ContestService.submit_problem, for a submission with the id `sid`: its row, and whether it is one made
-- after the contest
unfoldable pub submit_problem :
    ContestDb → ℕ → ℕ → ℕ → ℕ → ℕ → String → String → Result (Submission × Bool)
unfolding find_contest is_registered has_full_problem_access get_problem
submit_problem db sid now cid u pid language code = find_contest cid db >>= λ c.
    refuse_if (ltb now c.start_time) Code.auth_forbidden
    >> refuse_if (leb now c.end_time && not (is_registered db c u)) Code.auth_forbidden
    >> refuse_if
        (not (
          is_some
            (find? (λ cp. (cp.contest_id == c.id) && (cp.problem_id == pid)) db.contest_problems)))
        Code.resource_not_found
    >> refuse_if (not (has_full_problem_access db c u) && not (open_problem (get_problem pid db)))
        Code.resource_not_found
    >> (create_contest_submission (problem_tables db) sid now u c.id pid language code
          (ltb c.end_time now) c.rule_type
        >>= λ s. ok (s, ltb c.end_time now))

-- the row of a registration that exists becomes registered again
set_registered : ℕ → ℕ → List Registration → List Registration
set_registered cid u [] = []
set_registered cid u (r ∷ rs) =
    if (r.contest_id == cid) && (r.user_id == u)
    then record r { status = RegistrationStatus.registered } ∷ rs
    else r ∷ set_registered cid u rs

write_registration : Option Registration → ContestDb → ℕ → ℕ → Result ContestDb
unfolding set_registered
write_registration none db cid u = ok (record db {
  registrations =
      db.registrations
      ++ record { contest_id = cid; user_id = u; status = RegistrationStatus.registered } ∷ [];
})
write_registration (some r) db cid u =
    if is_registered_status (some r)
    then err Code.resource_duplicate
    else ok (record db { registrations = set_registered cid u db.registrations })

-- ContestService.register
unfoldable pub register : ContestDb → ℕ → ℕ → ℕ → Result ContestDb
unfolding find_contest has_team_role get_registration write_registration
register db now u cid = find_contest cid db >>= λ c.
    refuse_if
      (is_team c.contest_type
        && (not (is_some c.team_id)
            || not (has_team_role db.grants (some u) c.team_id Level.member)))
      Code.auth_forbidden
    >> refuse_if (ltb now c.register_start_time) Code.resource_state_conflict
    >> refuse_if (ltb c.register_end_time now) Code.resource_state_conflict
    >> write_registration (get_registration c.id u db.registrations) db c.id u
