-- ===== src/Examples/Servers.antt =====
-- Two judge nodes, a submission that waits and one that has been judged for too long.
use pigeon_oj.Base.{ℕ, ◌≡◌, refl, ◌⊎◌, Bool, true, false, Option, none, some, List, [], ◌∷◌, arith}
use pigeon_oj.Base.Integers.{pos}
use pigeon_oj.Model.{
  SubmitType, SubmissionStatus, Submission, Problem, ProblemVisibility, ProblemStatus, CaseStatus,
}
use pigeon_oj.Judge.{
  SandboxConfig, JudgeDb, JobBundle, submissions_of, find_submission, build_job_bundle,
  reset_to_pending, is_waiting,
}
use pigeon_oj.Judge.Results.{JudgeOutcome}
use pigeon_oj.Judge.Statuses.{Event, Events}
use pigeon_oj.Judge.Retries.{recalls, three_recalls_end}
use pigeon_oj.Gateway.{task_count, registered_as, Connection, dispatch}
use pigeon_oj.Gateway.Server.{needs_spj, Server, rescan, recall_stale, handle_result, list_nodes}
use pigeon_oj.Gateway.Server.Sending.{InOrder}
use pigeon_oj.Gateway.Server.Recalls.{Holds, recall_leaves_slot}

abbrev submission : SubmissionStatus → Submission
submission status = record {
  id = 4;
  user_id = 5;
  problem_id = 7;
  contest_id = none;
  verification_id = none;
  language = "cpp17";
  code = "int main() {}";
  submit_type = SubmitType.practice;
  rule_type = none;
  status = status;
  score = 0;
  time_used_ms = none;
  memory_used_kb = none;
  error_message = none;
  is_after_contest = false;
  created_at = 1;
  updated_at = 2;
}

abbrev problem : Problem
problem = record {
  id = 7;
  owner_id = 9;
  team_id = none;
  visibility = ProblemVisibility.public_;
  status = ProblemStatus.published;
  time_limit_ms = 1000;
  memory_limit_mb = 256;
  active_case_ids = 1 ∷ [];
  pending_case_ids = none;
  spj_oss_id = none;
  pending_spj_oss_id = none;
  case_status = CaseStatus.verified;
  cases_revision = 1;
  pending_verified = false;
  samples_updated_at = 0;
  verified_by = some 9;
  verified_at = some 1;
  published_at = some 1;
  source_problem_id = none;
}

abbrev never_recalled : ℕ → ℕ
never_recalled i = 0

abbrev tables : SubmissionStatus → JudgeDb
tables status = record {
  contest = record {
    contests = [];
    problems = [];
    grants = [];
    registrations = [];
    contest_problems = [];
    rankings = [];
    submissions = submission status ∷ [];
    cached_boards = [];
  };
  problems = record { problems = problem ∷ []; verifications = []; grants = []; invites = [] };
  test_cases = record { id = 1; has_objects = true } ∷ [];
  attempts = never_recalled;
}

abbrev connection : ℕ → List ℕ → Connection
connection o jobs = record {
  object = o;
  node_id = o;
  capacity = 2;
  supports_spj = true;
  inflight = jobs;
  pending_runs = 0;
  stale = false;
}

abbrev unlocked : ℕ → Bool
unlocked i = false

abbrev any_language : Submission → Option SandboxConfig
any_language s = none

-- node 1 has the jobs 4 and 8, node 2 has none
abbrev server : SubmissionStatus → Server
server status = record {
  judge = tables status;
  registry = record {
    objects = connection 1 (4 ∷ 8 ∷ []) ∷ connection 2 [] ∷ [];
    registered = (1, 1) ∷ (2, 2) ∷ [];
  };
  locks = unlocked;
}

server-InOrder : (status : SubmissionStatus) → InOrder (server status).registry
unfolding list_nodes task_count registered_as
server-InOrder status = (
  (omega arith, (omega arith, tt)),
  ((refl, connection 1 (4 ∷ 8 ∷ []), refl, refl), ((refl, connection 2 [], refl, refl), tt)),
)

-- the clock, an hour later
abbrev late : ℕ
late = 3600000000

-- the result of node 2
abbrev outcome : JudgeOutcome
outcome = record { submission_id = 4; status = some SubmissionStatus.accepted; cases = [] }

abbrev built_job : JudgeDb × Option JobBundle
built_job =
    build_job_bundle
      (recall_stale late (submission SubmissionStatus.judging) (tables SubmissionStatus.judging))
      late none 4

abbrev rescanned : Server
rescanned =
    rescan late any_language (server SubmissionStatus.judging) (submission SubmissionStatus.judging)

abbrev handled : Server
handled = handle_result rescanned (pos 20) late outcome

abbrev example_job : JobBundle
example_job = record {
  submission_id = 4;
  problem_id = 7;
  limits = record {
    time_limit_ms = 1000;
    memory_limit_mb = 256;
    output_limit_kb = 1024;
    cpu_cores = 1;
    process_limit = 32;
  };
  compile_limits = record {
    time_limit_ms = 10000;
    memory_limit_mb = 256;
    output_limit_kb = 1024;
    cpu_cores = 1;
    process_limit = 32;
  };
  cases = 1 ∷ [];
  stop_on_failure = false;
  spj = false;
}

recall_leaves_slot_example :
    Holds rescanned.registry 1 4
    × Holds rescanned.registry 2 4
    × (Holds handled.registry 1 4 ⊎ Holds handled.registry 2 4)
unfolding dispatch build_job_bundle recall_stale reset_to_pending list_nodes needs_spj
recall_leaves_slot_example =
    recall_leaves_slot late any_language (server SubmissionStatus.judging)
      (submission SubmissionStatus.judging) 1 (connection 2 []) built_job.0 example_job (pos 20)
      late outcome refl refl (server-InOrder SubmissionStatus.judging) refl refl
      (connection 1 (4 ∷ 8 ∷ []), refl, refl) refl

abbrev once : JudgeDb
once = reset_to_pending (tables SubmissionStatus.judging) 10 4

abbrev twice : JudgeDb
twice = reset_to_pending once 11 4

abbrev thrice : JudgeDb
thrice = reset_to_pending twice 12 4

abbrev three_events : Events (tables SubmissionStatus.judging) thrice
three_events =
    Events.more (tables SubmissionStatus.judging) twice thrice
      (Events.more (tables SubmissionStatus.judging) once twice
        (Events.more (tables SubmissionStatus.judging) (tables SubmissionStatus.judging) once
          (Events.done (tables SubmissionStatus.judging))
          (Event.recalled (tables SubmissionStatus.judging) 10 4))
        (Event.recalled once 11 4))
      (Event.recalled twice 12 4)

three_recalls_end_example :
    (t : Submission) × (find_submission 4 (submissions_of thrice) ≡ some t)
    × (is_waiting t.status ≡ false)
unfolding find_submission recalls
three_recalls_end_example =
    three_recalls_end 4 (submission SubmissionStatus.judging) (tables SubmissionStatus.judging)
      thrice three_events refl refl refl (omega arith)
