-- ===== src/Gateway/Server.antt =====
-- The gateway at work: the registry of src/backend/app/rpc/judge_gateway.py together with the submissions that
-- its handlers read and write. `locks` are the requeue locks in Redis, which the environment lets expire.
-- The configuration of a language is an argument, and so is the clock; a message to a node is left out. A handler
-- runs to its end before the next begins: the source's `dispatch_submission` awaits between the choice of a node and
-- the entry of the job there, where another one can choose the same node.
pub mod Sending
pub mod Capacity
pub mod Recalls
pub mod Rescans
pub mod Connects
pub mod Runs
pub mod Steps
use pigeon_oj.Base.{
  ℕ, suc, ◌+◌, ◌-◌, ◌*◌, Bool, true, false, not, ◌&&◌, ◌||◌, Option, none, some, List, [], ◌∷◌,
  ◌++◌, filter, discard, elem, is_some, sum_by, length, ltb, leb, ◌==◌, if◌then◌else◌, Result, ok,
  err, succeeds,
}
use pigeon_oj.Base.Integers.{ℤ}
use pigeon_oj.Model.{Submission, Problem, is_verify}
use pigeon_oj.Problems.{judged_spj_key, find_problem}
use pigeon_oj.Judge.{
  SandboxConfig, JudgeDb, JobBundle, is_judging, is_waiting, find_submission, submissions_of,
  build_job_bundle, fail_no_spj_node, reset_to_pending,
}
use pigeon_oj.Judge.Results.{JudgeOutcome, final_status, apply_job_result}
use pigeon_oj.Problems.Operations.{on_submission_finalized}
use pigeon_oj.Gateway.{
  Connection, Registry, task_count, find_object, set_inflight, registered_as, unregister,
  available_nodes, live_nodes, least, Choice, choose, dispatch,
}

pub record Server : Type 0 where
  pub judge : JudgeDb
  pub registry : Registry
  pub locks : ℕ → Bool

-- GatewayRegistry.list_nodes
abbrev pub cons_found : Option Connection → List Connection → List Connection
cons_found none cs = cs
cons_found (some c) cs = c ∷ cs

unfoldable pub connections_of : List Connection → List (ℕ × ℕ) → List Connection
unfolding find_object
connections_of objects [] = []
connections_of objects ((n, o) ∷ rest) =
    cons_found (find_object o objects) (connections_of objects rest)

unfoldable pub list_nodes : Registry → List Connection
unfolding connections_of
list_nodes r = connections_of r.objects r.registered

-- GatewayRegistry.get
abbrev pub object_or_none : Option ℕ → List Connection → Option Connection
object_or_none none objects = none
object_or_none (some o) objects = find_object o objects

unfoldable pub get_node : ℕ → Registry → Option Connection
unfolding registered_as find_object
get_node n r = object_or_none (registered_as n r.registered) r.objects

-- `conn.inflight = ids`
unfoldable pub with_inflight : Connection → List ℕ → Registry → Registry
unfolding set_inflight
with_inflight c ids r = record r { objects = set_inflight c.object ids r.objects }

-- the end of send_job: a job that was built is sent, and stands in flight
unfoldable pub sent :
    Registry → Connection → ℕ → JudgeDb × Option JobBundle → Server → Server × Bool
unfolding with_inflight
sent r c sid (judge, none) s = (record s { judge = judge; registry = r }, false)
sent r c sid (judge, some bundle) s = (
  record s { judge = judge; registry = with_inflight c (discard sid c.inflight ++ sid ∷ []) r },
  true,
)

unfoldable pub send_found :
    Server → ℕ → Option SandboxConfig → ℕ → Option Connection → Server × Bool
unfolding sent with_inflight
send_found s now config sid none = (s, false)
send_found s now config sid (some c) =
    sent (with_inflight c (discard sid c.inflight) s.registry) c sid
      (build_job_bundle s.judge now config sid) s

-- send_job
unfoldable pub send_job : Server → ℕ → Option SandboxConfig → ℕ → ℕ → Server × Bool
unfolding get_node send_found
send_job s now config n sid = send_found s now config sid (get_node n s.registry)

-- submission_needs_spj
abbrev spj_of : Submission → Result Problem → Bool
spj_of s (err e) = false
spj_of s (ok p) = is_some (judged_spj_key p (is_verify s.submit_type))

unfoldable pub needs_spj : JudgeDb → ℕ → Bool
unfolding judged_spj_key find_problem find_submission
needs_spj db sid = elim (find_submission sid (submissions_of db)) [
  | none ↦ false
  | some s ↦ spj_of s (find_problem s.problem_id db.problems)
]

-- what dispatch_submission does with its choice
unfoldable pub dispatch_to : Server → ℕ → Option SandboxConfig → ℕ → Choice → Server × Bool
unfolding send_job
dispatch_to s now config sid Choice.wait = (s, false)
dispatch_to s now config sid Choice.no_spj_node =
    (record s { judge = fail_no_spj_node s.judge now sid }, false)
dispatch_to s now config sid (Choice.chosen c) = send_job s now config c.node_id sid

-- dispatch_submission
unfoldable pub dispatch_submission : Server → ℕ → Option SandboxConfig → ℕ → Server × Bool
unfolding dispatch_to needs_spj list_nodes
dispatch_submission s now config sid =
    dispatch_to s now config sid (dispatch (needs_spj s.judge sid) (list_nodes s.registry))

-- _find_conn_by_submission
unfoldable pub find_conn : ℕ → List Connection → Option Connection
find_conn sid [] = none
find_conn sid (c ∷ cs) = if elem sid c.inflight then some c else find_conn sid cs

unfoldable pub release_from : ℕ → Registry → Option Connection → Registry
unfolding with_inflight
release_from sid r none = r
release_from sid r (some c) = with_inflight c (discard sid c.inflight) r

unfoldable pub release : ℕ → Registry → Registry
unfolding find_conn list_nodes release_from
release sid r = release_from sid r (find_conn sid (list_nodes r))

-- apply_job_result raises: the problem's part of the final write does
unfoldable pub apply_raises : JudgeDb → ℕ → JudgeOutcome → Bool
unfolding find_submission
apply_raises db now o = elim (find_submission o.submission_id (submissions_of db)) [
  | none ↦ false
  | some x ↦
      is_judging x.status
      && not (succeeds (on_submission_finalized db.problems now x (final_status o.status)))
]

-- _handle_result; where it raises, the connection keeps the job
unfoldable pub handle_result : Server → ℤ → ℕ → JudgeOutcome → Server
unfolding release apply_raises
handle_result s factor now o = record s {
  judge = (apply_job_result s.judge factor now o).0;
  registry = if apply_raises s.judge now o then s.registry else release o.submission_id s.registry;
}

-- one second of the clock, _JUDGING_STALE_SECONDS
abbrev pub second : ℕ
second = 1000000

abbrev pub judging_stale : ℕ
judging_stale = 300 * second

-- the recall of a submission that has been judged for too long; the cancellation is a message
unfoldable pub recall_stale : ℕ → Submission → JudgeDb → JudgeDb
recall_stale now x db =
    if is_judging x.status && ltb (x.updated_at + judging_stale) now
    then reset_to_pending db now x.id
    else db

-- the body of the loop of maintenance_once
unfoldable pub rescan : ℕ → (Submission → Option SandboxConfig) → Server → Submission → Server
unfolding recall_stale dispatch_submission
rescan now config s x =
    if s.locks x.id
    then s
    else (dispatch_submission
        (record s { judge = recall_stale now x s.judge; locks = λ i. (i == x.id) || s.locks i }) now
        (config x) x.id).0

unfoldable pub rescan_all :
    ℕ → (Submission → Option SandboxConfig) → Server → List Submission → Server
unfolding rescan
rescan_all now config s [] = s
rescan_all now config s (x ∷ xs) = rescan_all now config (rescan now config s x) xs

-- maintenance_once; `stale_after` is the interval of the scan times _STALE_SCAN_MULTIPLIER
unfoldable pub maintenance_once : ℕ → ℕ → (Submission → Option SandboxConfig) → Server → Server
unfolding rescan_all
maintenance_once stale_after now config s = rescan_all now config s (
    filter (λ x. is_waiting x.status && ltb (x.updated_at + stale_after) now)
      (submissions_of s.judge))

-- what becomes of a self test
pub data RunAnswer : Type 0 where
  unavailable busy : RunAnswer
  running_on : Connection → RunAnswer

-- active_judge_count
unfoldable pub active_judge_count : Registry → ℕ
unfolding live_nodes list_nodes task_count
active_judge_count r = sum_by task_count (live_nodes (list_nodes r))

-- the count of waiting self tests of a connection
unfoldable pub set_runs : ℕ → (ℕ → ℕ) → List Connection → List Connection
set_runs o f [] = []
set_runs o f (c ∷ cs) =
    if c.object == o then record c { pending_runs = f c.pending_runs } ∷ cs else c ∷ set_runs o f cs

unfoldable pub start_run : Registry → Choice → Registry × RunAnswer
unfolding set_runs
start_run r (Choice.chosen c) =
    (record r { objects = set_runs c.object suc r.objects }, running_on c)
start_run r _ = (r, busy)

-- dispatch_run_code, up to the wait for the result
unfoldable pub dispatch_run_code : ℕ → Registry → Registry × RunAnswer
unfolding start_run active_judge_count choose available_nodes live_nodes list_nodes
dispatch_run_code max_concurrent r =
    let live = live_nodes (list_nodes r) in
    if length live == 0
    then (r, unavailable)
    else if leb max_concurrent (active_judge_count r)
    then (r, busy)
    else start_run r (choose (available_nodes live))

-- the end of dispatch_run_code, whether a result came or not
unfoldable pub end_run : ℕ → Registry → Registry
unfolding set_runs
end_run o r = record r { objects = set_runs o (λ n. n - 1) r.objects }

unfoldable pub reset_all : JudgeDb → ℕ → List ℕ → JudgeDb
reset_all db now [] = db
reset_all db now (i ∷ ids) = reset_all (reset_to_pending db now i) now ids

-- the end of Connect: the connection leaves the registry, its self tests fail, its jobs are recovered
unfoldable pub disconnect : Server → ℕ → ℕ → ℕ → Server
unfolding unregister set_runs reset_all
disconnect s now n o =
    let gone = unregister n o s.registry in
    record s {
      judge = reset_all s.judge now gone.1;
      registry = record gone.0 { objects = set_runs o (λ k. 0) gone.0.objects };
    }
