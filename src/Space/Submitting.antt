-- ===== src/Space/Submitting.antt =====
-- Who may see a problem on its own, submit to it and test on it, and whose submissions one may read:
-- services/judge.py and `ProblemService.get_detail`.
use pigeon_oj.Base.{
  ℕ, Bool, true, false, not, ◌&&◌, ◌||◌, Option, none, some, List, [], ◌∷◌, ◌++◌, ◌+◌, map, filter,
  find?, elem, ltb, is_some, ◌==◌, if◌then◌else◌, Code, Result, ok, err, ◌>>=◌, ◌>>◌, refuse_if,
}
use Prim.Native.String.{String}
use pigeon_oj.Base.Sorting.{sort_by}
use pigeon_oj.Model.{
  Problem, Submission, SubmitType, SubmissionStatus, RuleType, RoleGrant, is_admin,
  is_public_problem,
}
use pigeon_oj.Problems.{ProblemDb, Verification, find_problem, can_manage_problem, judged_case_ids}
use pigeon_oj.Problems.Operations.{is_pending}
use pigeon_oj.Judge.{SandboxConfig, find_submission, disabled}
use pigeon_oj.Space.{is_published_status}

-- a viewer who has not logged in is none
abbrev pub manages : List RoleGrant → Option ℕ → Problem → Bool
manages grants none p = false
manages grants (some u) p = can_manage_problem grants u p

abbrev pub is_admin_viewer : List RoleGrant → Option ℕ → Bool
is_admin_viewer grants none = false
is_admin_viewer grants (some u) = is_admin grants u

-- ProblemService.get_detail, up to what it shows
unfoldable pub get_problem_detail : ProblemDb → Option ℕ → ℕ → Bool → Result Problem
unfolding find_problem can_manage_problem
get_problem_detail db viewer pid bypass = find_problem pid db >>= λ p.
    refuse_if
      (is_some p.source_problem_id && (not bypass && not (is_admin_viewer db.grants viewer)))
      Code.auth_forbidden
    >> (refuse_if (not (manages db.grants viewer p) && not (is_published_status p.status))
          Code.auth_forbidden
        >> (refuse_if
              (not bypass
                && (not (manages db.grants viewer p) && not (is_public_problem p.visibility)))
              Code.auth_forbidden
            >> ok p))

-- the row of a new submission, but for what a contest or a verification adds
abbrev pub new_submission : ℕ → ℕ → ℕ → ℕ → String → String → SubmitType → Submission
new_submission sid now u pid language code submit_type = record {
  id = sid;
  user_id = u;
  problem_id = pid;
  contest_id = none;
  verification_id = none;
  language = language;
  code = code;
  submit_type = submit_type;
  rule_type = none;
  status = SubmissionStatus.pending;
  score = 0;
  time_used_ms = none;
  memory_used_kb = none;
  error_message = none;
  is_after_contest = false;
  created_at = now;
  updated_at = now;
}

-- SubmissionService.create, for a submission with the id `sid`
unfoldable pub create : ProblemDb → ℕ → ℕ → ℕ → ℕ → String → String → Bool → Result Submission
unfolding find_problem can_manage_problem
create db sid now u pid language code bypass = find_problem pid db >>= λ p.
    refuse_if (not (is_published_status p.status)) Code.auth_forbidden
    >> (refuse_if
          (not bypass
            && (not (is_public_problem p.visibility) && not (can_manage_problem db.grants u p)))
          Code.auth_forbidden
        >> ok (new_submission sid now u pid language code SubmitType.practice))

-- create_contest_submission
unfoldable pub create_contest_submission :
    ProblemDb → ℕ → ℕ → ℕ → ℕ → ℕ → String → String → Bool → RuleType → Result Submission
unfolding find_problem
create_contest_submission db sid now u cid pid language code after_contest rule_type =
    find_problem pid db >>= λ p.
    refuse_if (not (is_published_status p.status)) Code.auth_forbidden
    >> ok (record (new_submission sid now u pid language code SubmitType.contest) {
      contest_id = some cid;
      rule_type = some rule_type;
      is_after_contest = after_contest;
    })

-- SelfTestService.create_order; `config` is the row of the language
unfoldable pub create_order : ProblemDb → Option SandboxConfig → ℕ → ℕ → Bool → Result Problem
unfolding find_problem can_manage_problem
create_order db config u pid bypass = find_problem pid db >>= λ p.
    refuse_if (not (is_published_status p.status) && not (can_manage_problem db.grants u p))
      Code.auth_forbidden
    >> (refuse_if
          (not bypass
            && (not (is_public_problem p.visibility) && not (can_manage_problem db.grants u p)))
          Code.auth_forbidden
        >> (refuse_if (not (is_some config) || disabled config) Code.param_format_invalid >> ok p))

-- the submission that SubmissionService.get_detail shows
unfoldable pub get_detail : List Submission → ℕ → ℕ → Result Submission
unfolding find_submission
get_detail rows u sid = elim (find_submission sid rows) [
  | none ↦ err Code.resource_not_found
  | some s ↦ if s.user_id == u then ok s else err Code.resource_not_found
]

-- and the one that get_problem_submission_detail shows
unfoldable pub get_problem_submission_detail :
    ProblemDb → List Submission → ℕ → ℕ → ℕ → Result Submission
unfolding find_problem can_manage_problem find_submission
get_problem_submission_detail db rows u pid sid = find_problem pid db >>= λ p.
    refuse_if (not (can_manage_problem db.grants u p)) Code.auth_forbidden
    >> elim (find_submission sid rows) [
      | none ↦ err Code.resource_not_found
      | some s ↦ if s.problem_id == pid then ok s else err Code.resource_not_found
    ]

-- create_verify_submission with attach_verification_code: the submission, and the verification with its verifier
abbrev pub pending_for : ℕ → Verification → Bool
pending_for pid v = (v.problem_id == pid) && is_pending v.status

unfoldable pub create_verify_submission :
    ProblemDb → ℕ → ℕ → ℕ → ℕ → String → String → Result (ProblemDb × Submission)
create_verify_submission db sid now u pid language code =
    elim (find? (pending_for pid) db.verifications) [
      | none ↦ err Code.resource_not_found
      | some v ↦ ok (
        record db {
          verifications =
              map (λ x. if x.id == v.id then record x { verifier_id = some u } else x)
                db.verifications;
        },
        record (new_submission sid now u v.problem_id language code SubmitType.verify) {
          verification_id = some v.id;
        },
      )
    ]

-- SubmissionTestCaseResult, by its case
pub record CaseResult : Type 0 where
  pub id : ℕ
  pub test_case_id : Option ℕ

-- `enumerate(ids)` as a dict: the last position of an id
unfoldable pub position_from : ℕ → ℕ → List ℕ → Option ℕ
position_from i c [] = none
position_from i c (x ∷ xs) =
    let later = position_from (i + 1) c xs in
    if is_some later then later else if x == c then some i else none

-- the ids of _judged_case_position
unfoldable pub judged_ids : Problem → Bool → List ℕ
unfolding judged_case_ids
judged_ids p verify =
    if verify
    then judged_case_ids p true
      ++ filter (λ c. not (elem c (judged_case_ids p true))) (judged_case_ids p false)
    else judged_case_ids p false

-- `len(position_by_case)`
unfoldable pub distinct_count : List ℕ → ℕ
distinct_count [] = 0
distinct_count (x ∷ xs) = let rest = distinct_count xs in if elem x xs then rest else rest + 1

-- `position_by_case.get(test_case_id, len(position_by_case))`
abbrev pub or_last : ℕ → Option ℕ → ℕ
or_last n none = n
or_last n (some i) = i

unfoldable pub position_of : List ℕ → CaseResult → ℕ
unfolding position_from distinct_count
position_of ids r = elim r.test_case_id [
  | none ↦ distinct_count ids
  | some c ↦ or_last (distinct_count ids) (position_from 0 c ids)
]

-- the results of build_detail, in the order in which it shows them; `rows` is in the order of the query
unfoldable pub shown_results : Problem → Bool → List CaseResult → List CaseResult
unfolding judged_ids position_of sort_by
shown_results p verify rows =
    sort_by (λ a b. ltb (position_of (judged_ids p verify) a) (position_of (judged_ids p verify) b))
      rows
