-- ===== src/Examples/Judging.antt =====
-- A judged submission with three test cases, and a problem on its way through verifications.
use pigeon_oj.Base.{ℕ, ◌≤◌, ◌≡◌, refl, Bool, true, false, none, some, List, [], ◌∷◌, Result, ok}
use pigeon_oj.Base.Integers.{pos}
use pigeon_oj.Model.{
  SubmitType, SubmissionStatus, Submission, Problem, ProblemVisibility, ProblemStatus, CaseStatus,
}
use pigeon_oj.Problems.Operations.{CaseItem, replace_cases, apply_pending_cases}
use pigeon_oj.Problems.History.{Change, Changes, has_cases, published_has_cases}
use pigeon_oj.Judge.{JudgeDb, submissions_of, find_submission, reset_to_pending}
use pigeon_oj.Judge.Results.{
  CaseOutcome, JudgeOutcome, stored_total, tally_outcome, apply_job_result,
}
use pigeon_oj.Judge.Scores.{score_within_full, accepted_scores_full}
use pigeon_oj.Judge.Statuses.{Event, Events, result_is_final}

abbrev case_outcome : ℕ → SubmissionStatus → CaseOutcome
case_outcome i status = record {
  test_case_id = i;
  status = status;
  time_used_ms = 10;
  memory_used_kb = some 1000;
}

abbrev accepted_outcome : JudgeOutcome
accepted_outcome = record {
  submission_id = 4;
  status = some SubmissionStatus.accepted;
  cases =
      case_outcome 1 SubmissionStatus.accepted
      ∷ case_outcome 2 SubmissionStatus.accepted
      ∷ case_outcome 3 SubmissionStatus.accepted
      ∷ [];
}

abbrev every_case : ℕ → Bool
every_case i = true

score_within_full_example :
    stored_total false 100 accepted_outcome
      (tally_outcome every_case false 100 accepted_outcome.cases)
    ≤ 100
score_within_full_example = score_within_full every_case false 100 accepted_outcome

accepted_scores_full_example :
    stored_total false 100 accepted_outcome
      (tally_outcome every_case false 100 accepted_outcome.cases)
    ≡ 100
accepted_scores_full_example =
    accepted_scores_full every_case 100 accepted_outcome (case_outcome 1 SubmissionStatus.accepted)
      (case_outcome 2 SubmissionStatus.accepted ∷ case_outcome 3 SubmissionStatus.accepted ∷ [])
      refl (refl, refl, refl, (refl, refl, refl, (refl, refl, refl, tt)))

abbrev judged_submission : Submission
judged_submission = record {
  id = 4;
  user_id = 5;
  problem_id = 7;
  contest_id = none;
  verification_id = none;
  language = "cpp17";
  code = "int main() {}";
  submit_type = SubmitType.practice;
  rule_type = none;
  status = SubmissionStatus.accepted;
  score = 100;
  time_used_ms = some 10;
  memory_used_kb = some 1000;
  error_message = none;
  is_after_contest = false;
  created_at = 1;
  updated_at = 2;
}

abbrev no_attempts : ℕ → ℕ
no_attempts i = 0

abbrev judge_tables : JudgeDb
judge_tables = record {
  contest = record {
    contests = [];
    problems = [];
    grants = [];
    registrations = [];
    contest_problems = [];
    rankings = [];
    submissions = judged_submission ∷ [];
    cached_boards = [];
  };
  problems = record { problems = []; verifications = []; grants = []; invites = [] };
  test_cases = [];
  attempts = no_attempts;
}

-- the result arrives a second time, then the submission is recalled
abbrev second_result : JudgeDb
second_result = (apply_job_result judge_tables (pos 20) 9 accepted_outcome).0

result_is_final_example :
    find_submission 4 (submissions_of (reset_to_pending second_result 10 4))
    ≡ some judged_submission
unfolding find_submission
result_is_final_example =
    result_is_final 4 judged_submission judge_tables (reset_to_pending second_result 10 4) refl
      (Events.more judge_tables second_result (reset_to_pending second_result 10 4)
        (Events.more judge_tables judge_tables second_result (Events.done judge_tables)
          (Event.reported judge_tables (pos 20) 9 accepted_outcome))
        (Event.recalled second_result 10 4))
      refl

-- two cases in effect, two staged ones that have passed a verification
abbrev staged_problem : Problem
staged_problem = record {
  id = 7;
  owner_id = 9;
  team_id = none;
  visibility = ProblemVisibility.public_;
  status = ProblemStatus.published;
  time_limit_ms = 1000;
  memory_limit_mb = 256;
  active_case_ids = 1 ∷ 2 ∷ [];
  pending_case_ids = some (3 ∷ 4 ∷ []);
  spj_oss_id = some 11;
  pending_spj_oss_id = none;
  case_status = CaseStatus.verified;
  cases_revision = 1;
  pending_verified = true;
  samples_updated_at = 0;
  verified_by = some 9;
  verified_at = some 1;
  published_at = some 2;
  source_problem_id = none;
}

abbrev problem_or : Result Problem → Problem
problem_or (ok p) = p
problem_or _ = staged_problem

abbrev applied_problem : Problem
unfolding apply_pending_cases
applied_problem = problem_or (apply_pending_cases staged_problem)

published_has_cases_example : has_cases applied_problem ≡ true
unfolding apply_pending_cases
published_has_cases_example =
    published_has_cases staged_problem applied_problem
      (Changes.more staged_problem staged_problem applied_problem (Changes.done staged_problem)
        (Change.applied staged_problem applied_problem refl))
      refl

abbrev new_items : List CaseItem
new_items = record { has_input = true; has_output = true; row_id = 8 } ∷ []

abbrev always : ℕ → Bool
always i = true

abbrev replaced_problem : Problem
unfolding replace_cases
replaced_problem = problem_or (replace_cases always new_items staged_problem)
