-- ===== src/Gateway/Server/Steps.antt =====
-- Histories of the gateway: nodes connect and go, submissions are dispatched, results arrive, the periodic scan
-- runs, and self tests begin and end, in any order.
use pigeon_oj.Base.{filter, ℕ, ◌+◌, ◌≡◌, Bool, ◌&&◌, Option, none, arith, ltb, Bool-cases, inl, inr}
use pigeon_oj.Base.Integers.{ℤ}
use pigeon_oj.Model.{Submission}
use pigeon_oj.Judge.{SandboxConfig, is_waiting, submissions_of}
use pigeon_oj.Judge.Results.{JudgeOutcome}
use pigeon_oj.Gateway.{Registry, find_object, registered_as, same_object, unregister}
use pigeon_oj.Gateway.Server.{
  Server, dispatch_submission, handle_result, maintenance_once, dispatch_run_code, end_run,
  disconnect,
}
use pigeon_oj.Gateway.Server.Capacity.{
  handle_result-InOrder, dispatch_submission-InOrder, rescan_all-InOrder,
}
use pigeon_oj.Gateway.Server.Sending.{InOrder}
use pigeon_oj.Gateway.Server.Connects.{Leads-unmap, connect, connect-InOrder}
use pigeon_oj.Gateway.Server.Runs.{
  Within-set_runs, dispatch_run_code-InOrder, end_run-InOrder, runs-InOrder,
}

-- one thing that happens to the gateway; a node connects when its id is not registered
pub data Step : Server → Server → Type 0 where
  connected :
      (s : Server) (o n capacity : ℕ) (spj : Bool)
      → registered_as n s.registry.registered ≡ none
      → find_object o s.registry.objects ≡ none
      → Step s (record s { registry = connect s.registry o n capacity spj })
  disconnected : (s : Server) (now n o : ℕ) → Step s (disconnect s now n o)
  dispatched :
      (s : Server) (now sid : ℕ) (config : Option SandboxConfig)
      → Step s (dispatch_submission s now config sid).0
  reported :
      (s : Server) (factor : ℤ) (now : ℕ) (o : JudgeOutcome) → Step s (handle_result s factor now o)
  scanned :
      (s : Server) (stale_after now : ℕ) (config : Submission → Option SandboxConfig)
      → Step s (maintenance_once stale_after now config s)
  run_begun :
      (s : Server) (max_concurrent : ℕ)
      → Step s (record s { registry = (dispatch_run_code max_concurrent s.registry).0 })
  run_ended : (s : Server) (o : ℕ) → Step s (record s { registry = end_run o s.registry })
  lock_expired : (s : Server) (locks : ℕ → Bool) → Step s (record s { locks = locks })

pub data Steps : Server → Server → Type 0 where
  done : (s : Server) → Steps s s
  more : (a b c : Server) → Steps a b → Step b c → Steps a c

unregister-InOrder : (n o : ℕ) (r : Registry) → InOrder r → InOrder (unregister n o r).0
unfolding unregister
unregister-InOrder n o r h = elim (Bool-cases (same_object (registered_as n r.registered) o)) [
  | inl e ↦ rw e (h.0, Leads-unmap r n r.registered h.1)
  | inr e ↦ rw e h
]

disconnect-InOrder :
    (s : Server) (now n o : ℕ) → InOrder s.registry → InOrder (disconnect s now n o).registry
unfolding disconnect
disconnect-InOrder s now n o h =
    let left = (unregister n o s.registry).0 in
    let kept = unregister-InOrder n o s.registry h in
    runs-InOrder left o (λ k. 0) (Within-set_runs o (λ k. 0) left.objects (λ k. omega arith) kept.0)
      kept

maintenance_once-InOrder :
    (stale_after now : ℕ) (config : Submission → Option SandboxConfig) (s : Server)
    → InOrder s.registry
    → InOrder (maintenance_once stale_after now config s).registry
unfolding maintenance_once
maintenance_once-InOrder stale_after now config s h =
    rescan_all-InOrder now config s
      (filter (λ x. is_waiting x.status && ltb (x.updated_at + stale_after) now)
        (submissions_of s.judge))
      h

step-InOrder : (s t : Server) → Step s t → InOrder s.registry → InOrder t.registry
step-InOrder _ _ (Step.connected s o n capacity spj hn ho) h =
    connect-InOrder s.registry o n capacity spj h hn ho
step-InOrder _ _ (Step.disconnected s now n o) h = disconnect-InOrder s now n o h
step-InOrder _ _ (Step.dispatched s now sid config) h =
    dispatch_submission-InOrder s now sid config h
step-InOrder _ _ (Step.reported s factor now o) h = handle_result-InOrder s factor now o h
step-InOrder _ _ (Step.scanned s stale_after now config) h =
    maintenance_once-InOrder stale_after now config s h
step-InOrder _ _ (Step.run_begun s max_concurrent) h =
    dispatch_run_code-InOrder max_concurrent s.registry h
step-InOrder _ _ (Step.run_ended s o) h = end_run-InOrder o s.registry h
step-InOrder _ _ (Step.lock_expired s locks) h = h

-- In every history of handlers that each run to their end before the next begins, in which no node
-- connects under an id that is still registered, that begins with an empty
-- registry or with any other in order: no connection has more jobs and self tests than its capacity, and each
-- node's entry leads to a connection of that node.
pub capacity_kept : (s t : Server) → Steps s t → InOrder s.registry → InOrder t.registry
capacity_kept _ _ (Steps.done s) h = h
capacity_kept _ _ (Steps.more a b c past last) h = step-InOrder b c last (capacity_kept a b past h)
