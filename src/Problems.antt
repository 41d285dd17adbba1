-- ===== src/Problems.antt =====
-- Problems and their verification: src/backend/app/services/problem.py. A request is a function on the row
-- of its problem, `edit` finds the row, asks for the right to manage it, and writes it back. The clock, the
-- keys and ids of new objects, and whether the object storage takes an upload are arguments.
pub mod Operations
pub mod Patching
pub mod History
pub mod Staging
use pigeon_oj.Base.{
  ℕ, Bool, true, false, not, ◌&&◌, ◌||◌, Option, none, some, List, [], ◌∷◌, map, filter, find?, any,
  is_some, ltb, ◌==◌, if◌then◌else◌, Code, Result, ok, err, ◌>>=◌, ◌>>◌, refuse_if,
}
use pigeon_oj.Model.{CaseStatus, Problem, RoleGrant, is_admin}

-- enums/problem.py VerificationStatus
pub data VerificationStatus : Type 0 where
  pending passed failed : VerificationStatus

pub record Verification : Type 0 where
  pub id : ℕ
  pub problem_id : ℕ
  pub status : VerificationStatus
  pub verifier_id : Option ℕ

-- `invites` are the problems with a live invitation link in Redis
pub record ProblemDb : Type 0 where
  pub problems : List Problem
  pub verifications : List Verification
  pub grants : List RoleGrant
  pub invites : List ℕ

abbrev pub is_nil {ℓ} : {A : Type ℓ} → List A → Bool
is_nil [] = true
is_nil (x ∷ xs) = false

-- derive_case_status
abbrev derived : Option (List ℕ) → Bool → List ℕ → CaseStatus
derived none verified active = if is_nil active then CaseStatus.empty else CaseStatus.ok_
derived (some ids) verified active =
    if verified
    then CaseStatus.verified
    else if is_nil active
    then CaseStatus.to_verify
    else CaseStatus.to_reverify

unfoldable pub derive_case_status : Problem → CaseStatus
derive_case_status p = derived p.pending_case_ids p.pending_verified p.active_case_ids

-- staged_target
unfoldable pub staged_target : Problem → List ℕ × Bool
staged_target p = elim p.pending_case_ids [
  | some ids ↦ (ids, true)
  | none ↦ (p.active_case_ids, false)
]

-- judged_case_ids
abbrev or_active : Option (List ℕ) → List ℕ → List ℕ
or_active none active = active
or_active (some ids) active = ids

unfoldable pub judged_case_ids : Problem → Bool → List ℕ
judged_case_ids p true = or_active p.pending_case_ids p.active_case_ids
judged_case_ids p false = p.active_case_ids

-- `key or None`, where the empty key is 0
abbrev pub key_or_none : Option ℕ → Option ℕ
key_or_none none = none
key_or_none (some k) = if k == 0 then none else some k

-- judged_spj_key
abbrev or_current_key : Option ℕ → Option ℕ → Option ℕ
or_current_key none current = key_or_none current
or_current_key (some k) current = key_or_none (some k)

unfoldable pub judged_spj_key : Problem → Bool → Option ℕ
judged_spj_key p true = or_current_key p.pending_spj_oss_id p.spj_oss_id
judged_spj_key p false = key_or_none p.spj_oss_id

-- `samples_updated_at > verified_at`
abbrev pub samples_newer : Problem → Bool
samples_newer p = elim p.verified_at [ none ↦ false | some t ↦ ltb t p.samples_updated_at ]

-- needs_reverification
unfoldable pub needs_reverification : Problem → Bool
needs_reverification p =
    if not (is_some p.verified_at)
    then true
    else if is_some p.pending_case_ids
    then true
    else if is_some p.pending_spj_oss_id
    then true
    else samples_newer p

-- get_by_id
unfoldable pub find_problem : ℕ → ProblemDb → Result Problem
find_problem pid db = elim (find? (λ p. p.id == pid) db.problems) [
  | none ↦ err Code.resource_not_found
  | some p ↦ ok p
]

-- _can_manage
unfoldable pub can_manage_problem : List RoleGrant → ℕ → Problem → Bool
can_manage_problem grants u p = if is_admin grants u then true else (p.owner_id == u)

-- ProblemService._require_manage
unfoldable pub require_manage : ProblemDb → ℕ → ℕ → Result Problem
unfolding find_problem can_manage_problem
require_manage db u pid = find_problem pid db >>= λ p.
    refuse_if (not (can_manage_problem db.grants u p)) Code.auth_forbidden >> ok p

-- writes the row of a problem
unfoldable pub set_problem : ℕ → Problem → List Problem → List Problem
set_problem pid new [] = []
set_problem pid new (p ∷ ps) = if p.id == pid then new ∷ ps else p ∷ set_problem pid new ps

-- a request on one problem
unfoldable pub edit : ProblemDb → ℕ → ℕ → (Problem → Result Problem) → Result ProblemDb
unfolding require_manage set_problem
edit db u pid f = require_manage db u pid >>= λ p.
    f p >>= λ new. ok (record db { problems = set_problem pid new db.problems })
