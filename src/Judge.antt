-- ===== src/Judge.antt =====
-- What the server does with a submission until its result is stored: src/backend/app/rpc/judge_jobs.py, and
-- the retries of src/backend/app/rpc/judge_gateway.py. An exception rolls the transaction back, so that the
-- state stays as it was. The fingerprint of a problem's data, the source code and the texts of errors are
-- left out; `now` is the clock.
pub mod Results
pub mod Scores
pub mod Rows
pub mod Statuses
pub mod Recalls
pub mod Retries
use pigeon_oj.Base.{
  ℕ, zero, suc, ◌+◌, ◌*◌, max, Bool, true, false, not, ◌&&◌, ◌||◌, Option, none, some, List, [],
  ◌∷◌, map, find?, any, is_some, ltb, leb, ◌==◌, if◌then◌else◌, Result, ok, err,
}
use pigeon_oj.Model.{
  RuleType, SubmitType, SubmissionStatus, Submission, Problem, is_acm, is_contest, is_verify,
}
use pigeon_oj.Contest.{ContestDb}
use pigeon_oj.Problems.{ProblemDb, is_nil, judged_case_ids, judged_spj_key, find_problem}
use pigeon_oj.Problems.Operations.{on_submission_finalized}

-- SandboxConfig of a language; the ratios are the functions that scale a limit by them, rounded down
pub record SandboxConfig : Type 0 where
  pub is_enabled : Bool
  pub scale_time : ℕ → ℕ
  pub scale_memory : ℕ → ℕ
  pub memory_min_mb : ℕ
  pub output_limit_kb : Option ℕ
  pub cpu_cores : Option ℕ
  pub process_limit : Option ℕ

pub record ResourceLimits : Type 0 where
  pub time_limit_ms : ℕ
  pub memory_limit_mb : ℕ
  pub output_limit_kb : ℕ
  pub cpu_cores : ℕ
  pub process_limit : ℕ

-- `value or default`
abbrev pub or_default : Option ℕ → ℕ → ℕ
or_default none d = d
or_default (some v) d = if v == 0 then d else v

limits_of : ℕ → ℕ → ℕ → ℕ → ℕ → ResourceLimits × ResourceLimits
limits_of time memory output cores procs =
    let eff_time = max 1 time in
    (
      record {
        time_limit_ms = eff_time;
        memory_limit_mb = memory;
        output_limit_kb = output;
        cpu_cores = cores;
        process_limit = procs;
      },
      record {
        time_limit_ms = max 10000 (eff_time * 10);
        memory_limit_mb = memory;
        output_limit_kb = output;
        cpu_cores = cores;
        process_limit = procs;
      },
    )

-- resolve_limits
unfoldable pub resolve_limits : Problem → Option SandboxConfig → ResourceLimits × ResourceLimits
unfolding limits_of
resolve_limits p none = limits_of p.time_limit_ms p.memory_limit_mb 1024 1 32
resolve_limits p (some c) =
    limits_of (c.scale_time p.time_limit_ms)
      (max (c.scale_memory p.memory_limit_mb) c.memory_min_mb) (or_default c.output_limit_kb 1024)
      (or_default c.cpu_cores 1) (or_default c.process_limit 32)

-- TestCase of models/problem.py; whether both of its objects are named
pub record TestCase : Type 0 where
  pub id : ℕ
  pub has_objects : Bool

-- the submissions are those of the contests' state; `attempts` are the counters in Redis
pub record JudgeDb : Type 0 where
  pub contest : ContestDb
  pub problems : ProblemDb
  pub test_cases : List TestCase
  pub attempts : ℕ → ℕ

abbrev pub is_pending : SubmissionStatus → Bool
is_pending SubmissionStatus.pending = true
is_pending _ = false

abbrev pub is_judging : SubmissionStatus → Bool
is_judging SubmissionStatus.judging = true
is_judging _ = false

-- `db.get(Submission, id)`
unfoldable pub find_submission : ℕ → List Submission → Option Submission
find_submission sid [] = none
find_submission sid (s ∷ ss) = if s.id == sid then some s else find_submission sid ss

-- UPDATE of the submission with the id, where its status passes the test
unfoldable pub update_submission :
    ℕ → (SubmissionStatus → Bool) → (Submission → Submission) → List Submission → List Submission
update_submission sid q f [] = []
update_submission sid q f (s ∷ ss) =
    if s.id == sid then (if q s.status then f s else s) ∷ ss else s ∷ update_submission sid q f ss

abbrev pub submissions_of : JudgeDb → List Submission
submissions_of db = db.contest.submissions

unfoldable pub with_submissions : List Submission → JudgeDb → JudgeDb
with_submissions ss db = record db { contest = record db.contest { submissions = ss } }

abbrev pub any_status : SubmissionStatus → Bool
any_status st = true

-- JudgeRepository.finish_submission
unfoldable pub finish_submission : ℕ → SubmissionStatus → ℕ → ℕ → Option ℕ → JudgeDb → JudgeDb
unfolding update_submission with_submissions
finish_submission sid status score time memory db =
    with_submissions
      (update_submission sid any_status
        (λ s. record s {
          status = status;
          score = score;
          time_used_ms = some time;
          memory_used_kb = memory;
        })
        (submissions_of db))
      db

-- the state after the problem's part of the final write, or an exception that rolls back to `before`
unfoldable pub finish_problem_part : JudgeDb → JudgeDb → Result ProblemDb → JudgeDb
finish_problem_part before db (ok p) = record db { problems = p }
finish_problem_part before db (err e) = before

-- _finish_with_error
unfoldable pub finish_with_error : JudgeDb → ℕ → Submission → JudgeDb → JudgeDb
unfolding finish_submission finish_problem_part on_submission_finalized
finish_with_error before now s db =
    let done = finish_submission s.id SubmissionStatus.system_error 0 0 none db in
    finish_problem_part before done
      (on_submission_finalized done.problems now s SubmissionStatus.system_error)

-- the claim: pending becomes judging, the moment of the claim is stored
unfoldable pub claimed : ℕ → ℕ → (SubmissionStatus → Bool) → JudgeDb → JudgeDb
unfolding update_submission with_submissions
claimed now sid q db =
    with_submissions
      (update_submission sid q
        (λ s. record s { status = SubmissionStatus.judging; updated_at = now }) (submissions_of db))
      db

-- JobBundle
pub record JobBundle : Type 0 where
  pub submission_id : ℕ
  pub problem_id : ℕ
  pub limits : ResourceLimits
  pub compile_limits : ResourceLimits
  pub cases : List ℕ
  pub stop_on_failure : Bool
  pub spj : Bool

-- TestCaseRepository.list_by_ids, in the order of the ids
unfoldable pub list_by_ids : List TestCase → List ℕ → List TestCase
list_by_ids rows [] = []
list_by_ids rows (i ∷ ids) = elim (find? (λ r. r.id == i) rows) [
  | none ↦ list_by_ids rows ids
  | some r ↦ r ∷ list_by_ids rows ids
]

abbrev pub acm_rule : Option RuleType → Bool
acm_rule none = false
acm_rule (some r) = is_acm r

abbrev pub disabled : Option SandboxConfig → Bool
disabled none = false
disabled (some c) = not c.is_enabled

unfoldable pub bundle_for : Submission → Problem → Option SandboxConfig → List TestCase → JobBundle
unfolding resolve_limits judged_spj_key
bundle_for s p config cases =
    let limits = resolve_limits p config in
    record {
      submission_id = s.id;
      problem_id = s.problem_id;
      limits = limits.0;
      compile_limits = limits.1;
      cases = map (λ c. c.id) cases;
      stop_on_failure = is_contest s.submit_type && (is_some s.contest_id && acm_rule s.rule_type);
      spj = is_some (judged_spj_key p (is_verify s.submit_type));
    }

unfoldable pub build_claimed :
    JudgeDb
    → ℕ
    → Option SandboxConfig
    → Submission
    → Result Problem
    → JudgeDb
    → JudgeDb × Option JobBundle
unfolding finish_with_error bundle_for judged_case_ids list_by_ids
build_claimed before now config s (err e) db = (before, none)
build_claimed before now config s (ok p) db =
    let cases = list_by_ids db.test_cases (judged_case_ids p (is_verify s.submit_type)) in
    if disabled config
    then (finish_with_error before now s db, none)
    else if is_nil cases
    then (finish_with_error before now s db, none)
    else if any (λ c. not c.has_objects) cases
    then (finish_with_error before now s db, none)
    else (db, some (bundle_for s p config cases))

unfoldable pub build_found :
    JudgeDb → ℕ → Option SandboxConfig → Option Submission → JudgeDb × Option JobBundle
unfolding build_claimed claimed find_problem
build_found db now config none = (db, none)
build_found db now config (some s) =
    if is_pending s.status
    then build_claimed db now config s (find_problem s.problem_id db.problems)
        (claimed now s.id is_pending db)
    else (db, none)

-- build_job_bundle; `config` is the row of the submission's language
unfoldable pub build_job_bundle :
    JudgeDb → ℕ → Option SandboxConfig → ℕ → JudgeDb × Option JobBundle
unfolding build_found find_submission
build_job_bundle db now config sid =
    build_found db now config (find_submission sid (submissions_of db))

unfoldable pub fail_found : (SubmissionStatus → Bool) → JudgeDb → ℕ → Option Submission → JudgeDb
unfolding claimed finish_with_error
fail_found q db now none = db
fail_found q db now (some s) =
    if q s.status then finish_with_error db now s (claimed now s.id q db) else db

-- fail_no_spj_node
unfoldable pub fail_no_spj_node : JudgeDb → ℕ → ℕ → JudgeDb
unfolding fail_found find_submission
fail_no_spj_node db now sid = fail_found is_pending db now (find_submission sid (submissions_of db))

abbrev pub is_waiting : SubmissionStatus → Bool
is_waiting st = is_pending st || is_judging st

-- fail_retry_exhausted
unfoldable pub fail_retry_exhausted : JudgeDb → ℕ → ℕ → JudgeDb
unfolding fail_found find_submission
fail_retry_exhausted db now sid =
    fail_found is_waiting db now (find_submission sid (submissions_of db))

-- the retries after which a submission fails
abbrev pub max_requeue_attempts : ℕ
max_requeue_attempts = 3

-- the key of the attempts lapses, an hour after the last recall
unfoldable pub lapse_attempts : ℕ → JudgeDb → JudgeDb
lapse_attempts sid db = record db { attempts = λ i. if i == sid then 0 else db.attempts i }

-- _reset_to_pending, of one submission; its `expire` is lapse_attempts, at some later moment
unfoldable pub reset_to_pending : JudgeDb → ℕ → ℕ → JudgeDb
unfolding fail_retry_exhausted update_submission with_submissions
reset_to_pending db now sid =
    let n = suc (db.attempts sid) in
    let counted = record db { attempts = λ i. if i == sid then n else db.attempts i } in
    if leb max_requeue_attempts n
    then fail_retry_exhausted counted now sid
    else with_submissions
        (update_submission sid is_judging
          (λ s. record s { status = SubmissionStatus.pending; updated_at = now })
          (submissions_of counted))
        counted
