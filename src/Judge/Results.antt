-- ===== src/Judge/Results.antt =====
-- A judge result is stored: `apply_job_result` of src/backend/app/rpc/judge_jobs.py. `factor` is the
-- configured penalty, the uploads of outputs and the texts are left out.
use pigeon_oj.Base.{
  ℕ, zero, suc, ◌+◌, ◌/◌, ◌%◌, max, Bool, true, false, not, ◌&&◌, ◌||◌, Option, none, some, List,
  [], ◌∷◌, length, find?, any, elem, ltb, ◌==◌, if◌then◌else◌, Result, ok, err,
}
use pigeon_oj.Base.Integers.{ℤ}
use pigeon_oj.Model.{SubmissionStatus, Submission, ContestProblem, is_contest, is_accepted}
use pigeon_oj.Contest.{ContestDb, invalidate_board_cache}
use pigeon_oj.Contest.Scoring.{update_ranking_on_result}
use pigeon_oj.Problems.{ProblemDb}
use pigeon_oj.Problems.Operations.{on_submission_finalized}
use pigeon_oj.Judge.{
  JudgeDb, TestCase, acm_rule, is_judging, find_submission, submissions_of, finish_submission,
}

-- CaseOutcome and JudgeOutcome
pub record CaseOutcome : Type 0 where
  pub test_case_id : ℕ
  pub status : SubmissionStatus
  pub time_used_ms : ℕ
  pub memory_used_kb : Option ℕ

pub record JudgeOutcome : Type 0 where
  pub submission_id : ℕ
  pub status : Option SubmissionStatus
  pub cases : List CaseOutcome

-- a row of results
pub record CaseResult : Type 0 where
  pub test_case_id : ℕ
  pub status : SubmissionStatus
  pub score : ℕ

-- what the loop over the cases has gathered
pub record Tally : Type 0 where
  pub total_score : ℕ
  pub max_time : ℕ
  pub max_memory : Option ℕ
  pub rows : List CaseResult
  pub seen : List ℕ

-- `if case.memory_used_kb: max_memory = max(max_memory or 0, case.memory_used_kb)`
abbrev pub max_opt : Option ℕ → Option ℕ → Option ℕ
max_opt m none = m
max_opt none (some k) = if k == 0 then none else some k
max_opt (some m) (some k) = if k == 0 then some m else some (max m k)

-- the score of one case
unfoldable pub case_score : Bool → ℕ → ℕ → ℕ → CaseOutcome → ℕ
case_score acm base extra index c =
    if acm then 0 else if is_accepted c.status then base + (if ltb index extra then 1 else 0) else 0

-- the body of the loop
unfoldable pub tally_case : (ℕ → Bool) → Bool → ℕ → ℕ → ℕ → CaseOutcome → Tally → Tally
unfolding case_score
tally_case known acm base extra index c t =
    if not (known c.test_case_id) || elem c.test_case_id t.seen then t else record {
      total_score = t.total_score + case_score acm base extra index c;
      max_time = max t.max_time c.time_used_ms;
      max_memory = max_opt t.max_memory c.memory_used_kb;
      rows =
          record {
            test_case_id = c.test_case_id;
            status = c.status;
            score = case_score acm base extra index c;
          }
          ∷ t.rows;
      seen = c.test_case_id ∷ t.seen;
    }

unfoldable pub tally : (ℕ → Bool) → Bool → ℕ → ℕ → ℕ → List CaseOutcome → Tally → Tally
unfolding tally_case
tally known acm base extra index [] t = t
tally known acm base extra index (c ∷ cs) t =
    tally known acm base extra (suc index) cs (tally_case known acm base extra index c t)

abbrev pub empty_tally : Tally
empty_tally = record { total_score = 0; max_time = 0; max_memory = none; rows = []; seen = [] }

-- `divmod(full, case_count) if case_count else (0, 0)`
unfoldable pub base_and_extra : ℕ → ℕ → ℕ × ℕ
base_and_extra full zero = (0, 0)
base_and_extra full (suc n) = (full / suc n, full % suc n)

unfoldable pub tally_outcome : (ℕ → Bool) → Bool → ℕ → List CaseOutcome → Tally
unfolding base_and_extra tally
tally_outcome known acm full cases =
    let share = base_and_extra full (length cases) in
    tally known acm share.0 share.1 0 cases empty_tally

-- the practice score, also that of a contest's problem without a score
abbrev pub full_score : ℕ
full_score = 100

-- ContestService.full_score_for, `or _FULL_SCORE`
abbrev positive_score : Option ContestProblem → ℕ
positive_score none = full_score
positive_score (some cp) = if ltb 0 cp.score then cp.score else full_score

unfoldable pub full_score_for : ContestDb → Submission → ℕ
full_score_for db s = elim s.contest_id [
  | none ↦ full_score
  | some c ↦
      if is_contest s.submit_type
      then positive_score (
          find? (λ cp. (cp.contest_id == c) && (cp.problem_id == s.problem_id)) db.contest_problems)
      else full_score
]

-- `outcome.status or SYSTEM_ERROR`
abbrev pub final_status : Option SubmissionStatus → SubmissionStatus
final_status none = SubmissionStatus.system_error
final_status (some st) = st

-- the score that is stored: all or nothing by ACM rules, else the sum over the cases
abbrev outcome_accepted : Option SubmissionStatus → Bool
outcome_accepted none = false
outcome_accepted (some st) = is_accepted st

unfoldable pub stored_total : Bool → ℕ → JudgeOutcome → Tally → ℕ
stored_total acm full o t =
    if acm then (if outcome_accepted o.status then full else 0) else t.total_score

-- the scoreboard's part of the final write, and the cache after the commit
unfoldable pub finish_contest_part : JudgeDb → ℤ → ℕ → Submission → SubmissionStatus → JudgeDb
unfolding update_ranking_on_result invalidate_board_cache
finish_contest_part db factor now s st =
    let ranked = update_ranking_on_result db.contest factor now s st in
    record db {
      contest = elim s.contest_id [
        | none ↦ ranked
        | some c ↦ if is_contest s.submit_type then invalidate_board_cache c ranked else ranked
      ];
    }

unfoldable pub finish_parts :
    JudgeDb → JudgeDb → Result ProblemDb → ℤ → ℕ → Submission → SubmissionStatus → JudgeDb × Bool
unfolding finish_contest_part
finish_parts before db (err e) factor now s st = (before, false)
finish_parts before db (ok p) factor now s st =
    (finish_contest_part (record db { problems = p }) factor now s st, true)

abbrev pub is_known : List TestCase → ℕ → Bool
is_known rows i = any (λ r. r.id == i) rows

abbrev pub time_of : Option ℕ → ℕ
time_of none = 0
time_of (some t) = t

-- the scores and the final write, for a submission that is being judged
unfoldable pub final_row : JudgeDb → JudgeOutcome → Submission → Submission
unfolding tally_outcome full_score_for stored_total
final_row db o s =
    let acm = acm_rule s.rule_type in
    let full = full_score_for db.contest s in
    let t = tally_outcome (is_known db.test_cases) acm full o.cases in
    record s {
      status = final_status o.status;
      score = stored_total acm full o t;
      time_used_ms = some t.max_time;
      memory_used_kb = t.max_memory;
    }

unfoldable pub store_result : JudgeDb → ℤ → ℕ → JudgeOutcome → Submission → JudgeDb × Bool
unfolding final_row finish_submission finish_parts on_submission_finalized
store_result db factor now o s =
    let final = final_row db o s in
    let done =
      finish_submission s.id final.status final.score (time_of final.time_used_ms)
        final.memory_used_kb db in
    finish_parts db done (on_submission_finalized done.problems now s final.status) factor now final
      final.status

unfoldable pub apply_found : JudgeDb → ℤ → ℕ → JudgeOutcome → Option Submission → JudgeDb × Bool
unfolding store_result
apply_found db factor now o none = (db, false)
apply_found db factor now o (some s) =
    if is_judging s.status then store_result db factor now o s else (db, false)

-- apply_job_result
unfoldable pub apply_job_result : JudgeDb → ℤ → ℕ → JudgeOutcome → JudgeDb × Bool
unfolding apply_found find_submission
apply_job_result db factor now o =
    apply_found db factor now o (find_submission o.submission_id (submissions_of db))
