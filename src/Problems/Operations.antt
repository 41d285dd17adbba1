-- ===== src/Problems/Operations.antt =====
-- The requests of `ProblemService` on a problem, and what ends a verification.
use pigeon_oj.Base.{
  ℕ, ◌+◌, Bool, true, false, not, ◌&&◌, ◌||◌, Option, none, some, List, [], ◌∷◌, ◌++◌, find?,
  is_some, ◌==◌, discard, if◌then◌else◌, Code, Result, ok, err, ◌>>=◌, ◌>>◌, refuse_if,
}
use pigeon_oj.Model.{
  ProblemStatus, ProblemVisibility, CaseStatus, Problem, RoleCode, RoleGrant, is_archived, is_admin,
  global_role_codes, team_role_codes, has_code, SubmissionStatus, Submission, is_verify,
  is_accepted,
}
use pigeon_oj.Problems.{
  VerificationStatus, Verification, ProblemDb, is_nil, derive_case_status, key_or_none,
  samples_newer, find_problem, can_manage_problem, set_problem,
}

-- the cached status is computed again
abbrev pub with_status : Problem → Problem
with_status p = record p { case_status = derive_case_status p }

-- TestCaseItem: whether its two sides hold text, and the id of the row made from it
pub record CaseItem : Type 0 where
  pub has_input : Bool
  pub has_output : Bool
  pub row_id : ℕ

-- the uploads of `replace_cases`, in order, with the storage's answers
unfoldable pub upload_cases : (ℕ → Bool) → List CaseItem → Result (List ℕ)
upload_cases put [] = ok []
upload_cases put (i ∷ items) =
    let rest = upload_cases put items in
    if not i.has_input && not i.has_output
    then err Code.param_format_invalid
    else if put i.row_id
    then rest >>= (λ ids. ok (i.row_id ∷ ids))
    else err Code.system_upstream_failure

-- ProblemService.replace_cases
unfoldable pub replace_cases : (ℕ → Bool) → List CaseItem → Problem → Result Problem
unfolding upload_cases derive_case_status
replace_cases put items p =
    refuse_if (is_archived p.status) Code.resource_state_conflict
    >> (upload_cases put items >>= λ ids. ok (
        with_status (record p {
          pending_case_ids = some ids;
          pending_verified = false;
          cases_revision = p.cases_revision + 1;
        })))

-- ProblemService.replace_spj
unfoldable pub replace_spj : Bool → ℕ → Problem → Result Problem
replace_spj stored key p =
    refuse_if (is_archived p.status) Code.resource_state_conflict
    >> refuse_if (not stored) Code.system_upstream_failure
    >> ok (record p { pending_spj_oss_id = some key; pending_verified = false })

-- ProblemService.remove_spj
abbrev staged_removal : Option ℕ → Bool
staged_removal none = false
staged_removal (some k) = k == 0

unfoldable pub remove_spj : Problem → Result Problem
remove_spj p =
    refuse_if (is_archived p.status) Code.resource_state_conflict
    >> refuse_if (not (is_some p.spj_oss_id) && not (is_some p.pending_spj_oss_id))
        Code.resource_state_conflict
    >> ok (
        if staged_removal p.pending_spj_oss_id
        then p
        else record p { pending_spj_oss_id = some 0; pending_verified = false })

-- ProblemService.apply_pending_cases
abbrev promote_cases : Option (List ℕ) → Problem → Problem
promote_cases none p = p
promote_cases (some ids) p = record p { active_case_ids = ids; pending_case_ids = none }

abbrev promote_spj : Option ℕ → Problem → Problem
promote_spj none p = p
promote_spj (some k) p = record p { spj_oss_id = key_or_none (some k); pending_spj_oss_id = none }

unfoldable pub apply_pending_cases : Problem → Result Problem
unfolding derive_case_status
apply_pending_cases p =
    refuse_if (is_archived p.status) Code.resource_state_conflict
    >> refuse_if (not (is_some p.pending_case_ids) && not (is_some p.pending_spj_oss_id))
        Code.resource_state_conflict
    >> refuse_if (not p.pending_verified) Code.resource_state_conflict
    >> (let promoted = promote_spj p.pending_spj_oss_id (promote_cases p.pending_case_ids p) in
        ok (
          with_status (record promoted {
            pending_verified = false;
            cases_revision = promoted.cases_revision + 1;
          })))

-- ProblemService.replace_samples, whose texts are left out
unfoldable pub replace_samples : ℕ → Problem → Result Problem
replace_samples now p =
    refuse_if (is_archived p.status) Code.resource_state_conflict
    >> ok (record p { samples_updated_at = now })

-- ProblemService.publish
unfoldable pub publish : ℕ → Problem → Result Problem
publish now p =
    refuse_if (is_archived p.status) Code.resource_state_conflict
    >> refuse_if (not (is_some p.verified_at)) Code.resource_state_conflict
    >> refuse_if (is_nil p.active_case_ids) Code.resource_state_conflict
    >> refuse_if (is_some p.pending_case_ids) Code.resource_state_conflict
    >> refuse_if (is_some p.pending_spj_oss_id) Code.resource_state_conflict
    >> refuse_if (samples_newer p) Code.resource_state_conflict
    >> ok (record p { status = ProblemStatus.published; published_at = some now })

-- ProblemService.archive
unfoldable pub archive : Problem → Result Problem
archive p =
    refuse_if (is_archived p.status) Code.resource_state_conflict
    >> ok (record p { status = ProblemStatus.archived })

abbrev pub team_branch : ProblemVisibility → Bool
team_branch ProblemVisibility.admin_visible = true
team_branch ProblemVisibility.team_visible = true
team_branch _ = false

abbrev pub same_bool : Bool → Bool → Bool
same_bool true b = b
same_bool false b = not b

-- ProblemService.update: the visibility and the limits; the texts and tags are left out
wrong_branch : Option ProblemVisibility → Problem → Bool
wrong_branch none p = false
wrong_branch (some v) p = not (same_bool (is_some p.team_id) (team_branch v))

abbrev or_current {ℓ} : {A : Type ℓ} → Option A → A → A
or_current none a = a
or_current (some b) a = b

unfoldable pub update : Option ProblemVisibility → Option ℕ → Option ℕ → Problem → Result Problem
unfolding wrong_branch
update visibility time_limit memory_limit p =
    refuse_if (is_archived p.status) Code.resource_state_conflict
    >> refuse_if (wrong_branch visibility p) Code.param_format_invalid
    >> ok (record p {
      visibility = or_current visibility p.visibility;
      time_limit_ms = or_current time_limit p.time_limit_ms;
      memory_limit_mb = or_current memory_limit p.memory_limit_mb;
    })

-- core/dependency.py is_manager: a global role of the managers, or a managing role in any team
holds_team_role : ℕ → List RoleGrant → Bool
holds_team_role u [] = false
holds_team_role u (g ∷ gs) =
    ((g.user_id == u)
      && (is_some g.team_id && has_code g.code (RoleCode.team_creator ∷ RoleCode.team_admin ∷ [])))
    || holds_team_role u gs

unfoldable pub is_manager : List RoleGrant → ℕ → Bool
unfolding holds_team_role
is_manager grants u =
    let codes = global_role_codes grants u in
    (has_code RoleCode.admin codes
      || (has_code RoleCode.tutor codes || has_code RoleCode.team_creator codes))
    || holds_team_role u grants

-- ProblemService.create; `teams` are the ids of the teams that exist
check_team : List RoleGrant → (ℕ → Bool) → ℕ → Option ℕ → Result (Unit {0})
check_team grants teams u none = ok tt
check_team grants teams u (some t) =
    let codes = team_role_codes grants u t in
    refuse_if (not (teams t)) Code.resource_not_found
    >> refuse_if
        (not (
          (has_code RoleCode.team_creator codes || has_code RoleCode.team_admin codes)
          || is_admin grants u))
        Code.auth_forbidden

unfoldable pub create :
    ProblemDb → (ℕ → Bool) → ℕ → ℕ → Option ℕ → ProblemVisibility → ℕ → ℕ → ℕ → Result ProblemDb
unfolding is_manager check_team
create db teams now u team visibility pid time_limit memory_limit =
    refuse_if (not (is_manager db.grants u)) Code.auth_forbidden
    >> refuse_if (not (same_bool (is_some team) (team_branch visibility))) Code.param_format_invalid
    >> check_team db.grants teams u team
    >> ok (record db {
      problems =
          db.problems
          ++ record {
            id = pid;
            owner_id = u;
            team_id = team;
            visibility = visibility;
            status = ProblemStatus.draft;
            time_limit_ms = time_limit;
            memory_limit_mb = memory_limit;
            active_case_ids = [];
            pending_case_ids = none;
            spj_oss_id = none;
            pending_spj_oss_id = none;
            case_status = CaseStatus.empty;
            cases_revision = 0;
            pending_verified = false;
            samples_updated_at = now;
            verified_by = none;
            verified_at = none;
            published_at = none;
            source_problem_id = none;
          }
            ∷ [];
    })

abbrev pub is_pending : VerificationStatus → Bool
is_pending VerificationStatus.pending = true
is_pending _ = false

-- the pending verification of a problem, made where there is none
ensure_pending : ℕ → ℕ → ProblemDb → ProblemDb
ensure_pending pid fresh db =
    if is_some (find? (λ v. (v.problem_id == pid) && is_pending v.status) db.verifications)
    then db
    else record db {
      verifications =
          db.verifications
          ++ record {
            id = fresh;
            problem_id = pid;
            status = VerificationStatus.pending;
            verifier_id = none;
          }
            ∷ [];
    }

-- ProblemService.init_verification; `invite`: a link is asked for
unfoldable pub init_verification : ProblemDb → ℕ → ℕ → ℕ → Bool → Result ProblemDb
unfolding find_problem can_manage_problem ensure_pending
init_verification db u pid fresh invite = find_problem pid db >>= λ p.
    refuse_if (not (can_manage_problem db.grants u p)) Code.auth_forbidden
    >> (let ready = ensure_pending pid fresh db in
        ok (if invite then record ready { invites = pid ∷ discard pid ready.invites } else ready))

-- complete_verification
unfoldable pub passed_problem : ℕ → ℕ → Problem → Problem
unfolding derive_case_status
passed_problem now verifier p =
    let marked = record p { pending_verified = true } in
    record marked {
      case_status = derive_case_status marked;
      verified_by = some verifier;
      verified_at = some now;
    }

write_passed : Result Problem → ℕ → ℕ → ℕ → List Problem → List Problem
unfolding passed_problem set_problem
write_passed (err e) now verifier pid ps = ps
write_passed (ok p) now verifier pid ps = set_problem pid (passed_problem now verifier p) ps

end_verification : ℕ → VerificationStatus → ℕ → List Verification → List Verification
end_verification vid status verifier [] = []
end_verification vid status verifier (v ∷ vs) =
    if v.id == vid
    then record v { status = status; verifier_id = some verifier } ∷ vs
    else v ∷ end_verification vid status verifier vs

unfoldable pub complete_found : Option Verification → ProblemDb → ℕ → Bool → ℕ → Result ProblemDb
unfolding end_verification write_passed find_problem
complete_found none db now passed verifier = err Code.resource_not_found
complete_found (some v) db now passed verifier = ok (record db {
  verifications =
      end_verification v.id
        (if passed then VerificationStatus.passed else VerificationStatus.failed) verifier
        db.verifications;
  problems =
      if passed
      then write_passed (find_problem v.problem_id db) now verifier v.problem_id db.problems
      else db.problems;
  invites = discard v.problem_id db.invites;
})

unfoldable pub complete_verification : ProblemDb → ℕ → ℕ → Bool → ℕ → Result ProblemDb
unfolding complete_found
complete_verification db now vid passed verifier =
    complete_found (find? (λ v. v.id == vid) db.verifications) db now passed verifier

-- ProblemService.on_submission_finalized, without the counters of accepted submissions
finish_verification : Option ℕ → ProblemDb → ℕ → Bool → ℕ → Result ProblemDb
unfolding complete_verification
finish_verification none db now passed verifier = ok db
finish_verification (some vid) db now passed verifier =
    complete_verification db now vid passed verifier

unfoldable pub on_submission_finalized :
    ProblemDb → ℕ → Submission → SubmissionStatus → Result ProblemDb
unfolding finish_verification
on_submission_finalized db now s status =
    if is_verify s.submit_type
    then finish_verification s.verification_id db now (is_accepted status) s.user_id
    else ok db
