-- ===== src/Gateway/Server/Capacity.antt =====
-- No node is given more tasks than it takes.
use pigeon_oj.Base.{
  elem, ℕ, ◌≡◌, refl, sym, subst, Bool, true, false, Option, some, List, [], ◌∷◌, All, All-filter,
  arith, if◌then◌else◌, Bool-cases, Option-cases, inl, inr,
}
use pigeon_oj.Base.Integers.{ℤ}
use pigeon_oj.Model.{Submission}
use pigeon_oj.Judge.{SandboxConfig}
use pigeon_oj.Judge.Results.{JudgeOutcome}
use pigeon_oj.Gateway.{
  Connection, Registry, registered_as, available_nodes, live_nodes, Choice, dispatch,
}
use pigeon_oj.Gateway.Dispatch.{eligible, dispatch_chooses_least, choose-least, choose-eligible}
use pigeon_oj.Gateway.Server.{
  apply_raises, Server, connections_of, list_nodes, get_node, dispatch_to, dispatch_submission,
  needs_spj, find_conn, release, handle_result, rescan, rescan_all, object_or_none, cons_found,
  release_from,
}
use pigeon_oj.Gateway.Server.Sending.{
  InOrder, Leads, discard-InOrder, get_node-found, send_job-InOrder,
}

-- a connection that is listed is the one of its node, and takes no more than its capacity
abbrev pub Listed : Registry → Connection → Type 0
Listed r c = get_node c.node_id r ≡ some c

connections_of-Listed :
    (r : Registry) (es : List (ℕ × ℕ))
    → All (Leads r) es
    → All (Listed r) (connections_of r.objects es)
unfolding connections_of get_node
connections_of-Listed r [] h = tt
connections_of-Listed r ((n, o) ∷ es) h =
    let lead = h.0 in
    subst (λ x. All (Listed r) (cons_found x (connections_of r.objects es))) (sym lead.2)
      (
        subst (λ m. object_or_none (registered_as m r.registered) r.objects ≡ some lead.1)
            (sym lead.3) (rw lead.0 lead.2),
        connections_of-Listed r es h.1,
      )

pub list_nodes-Listed : (r : Registry) → InOrder r → All (Listed r) (list_nodes r)
unfolding list_nodes
list_nodes-Listed r h = connections_of-Listed r r.registered h.1

find_conn-All :
    (P : Connection → Type 0) (sid : ℕ) (cs : List Connection) (c : Connection)
    → All P cs
    → find_conn sid cs ≡ some c
    → P c
unfolding find_conn
find_conn-All P sid [] c h k = ground (arith, k)
find_conn-All P sid (d ∷ cs) c h k = elim (Bool-cases (elem sid d.inflight)) [
  | inl e ↦ let same : d ≡ c = ground (arith, k, e) in subst P same h.0
  | inr e ↦ find_conn-All P sid cs c h.1 (ground (arith, k, e))
]

release-InOrder : (sid : ℕ) (r : Registry) → InOrder r → InOrder (release sid r)
unfolding release release_from
release-InOrder sid r h = elim (Option-cases (find_conn sid (list_nodes r))) [
  | inl e ↦ subst (λ x. InOrder (release_from sid r x)) (sym e) h
  | inr (c, e) ↦
      let listed = find_conn-All (Listed r) sid (list_nodes r) c (list_nodes-Listed r h) e in
      subst (λ x. InOrder (release_from sid r x)) (sym e)
        (discard-InOrder r c sid h (get_node-found c.node_id r c listed))
]

pub handle_result-InOrder :
    (s : Server) (factor : ℤ) (now : ℕ) (o : JudgeOutcome)
    → InOrder s.registry
    → InOrder (handle_result s factor now o).registry
unfolding handle_result
handle_result-InOrder s factor now o h = elim (Bool-cases (apply_raises s.judge now o)) [
  | inl e ↦
      subst (λ b. InOrder (if b then s.registry else release o.submission_id s.registry)) (sym e) h
  | inr e ↦
      subst (λ b. InOrder (if b then s.registry else release o.submission_id s.registry)) (sym e)
        (release-InOrder o.submission_id s.registry h)
]

All-eligible :
    (P : Connection → Type 0) (needs_spj : Bool) (cs : List Connection)
    → All P cs
    → All P (eligible needs_spj cs)
unfolding available_nodes live_nodes
All-eligible P false cs h = All-filter P _ _ (All-filter P _ cs h)
All-eligible P true cs h =
    All-filter P _ _ (All-filter P _ _ (All-filter P _ _ (All-filter P _ cs h)))

-- the node that is chosen is registered under its id
pub chosen-Listed :
    (r : Registry) (needs : Bool) (c : Connection)
    → InOrder r
    → dispatch needs (list_nodes r) ≡ Choice.chosen c
    → Listed r c
chosen-Listed r needs c h e =
    let cs = list_nodes r in
    (choose-least (Listed r) (eligible needs cs) c (choose-eligible needs cs c e)
      (All-eligible (Listed r) needs cs (list_nodes-Listed r h))).0

dispatch_to-InOrder :
    (s : Server) (now sid : ℕ) (config : Option SandboxConfig) (needs : Bool) (x : Choice)
    → InOrder s.registry
    → dispatch needs (list_nodes s.registry) ≡ x
    → InOrder (dispatch_to s now config sid x).0.registry
unfolding dispatch_to
dispatch_to-InOrder s now sid config needs Choice.wait h e = h
dispatch_to-InOrder s now sid config needs Choice.no_spj_node h e = h
dispatch_to-InOrder s now sid config needs (Choice.chosen c) h e =
    let cs = list_nodes s.registry in
    let least = dispatch_chooses_least needs cs c e in
    send_job-InOrder s now c.node_id sid config c h (chosen-Listed s.registry needs c h e) least.0.0

pub dispatch_submission-InOrder :
    (s : Server) (now sid : ℕ) (config : Option SandboxConfig)
    → InOrder s.registry
    → InOrder (dispatch_submission s now config sid).0.registry
unfolding dispatch_submission
dispatch_submission-InOrder s now sid config h =
    dispatch_to-InOrder s now sid config (needs_spj s.judge sid)
      (dispatch (needs_spj s.judge sid) (list_nodes s.registry)) h refl

rescan-InOrder :
    (now : ℕ) (config : Submission → Option SandboxConfig) (s : Server) (x : Submission)
    → InOrder s.registry
    → InOrder (rescan now config s x).registry
unfolding rescan
rescan-InOrder now config s x h = elim (Bool-cases (s.locks x.id)) [
  | inl e ↦ rw e h
  | inr e ↦ rw e (dispatch_submission-InOrder _ now x.id (config x) h)
]

pub rescan_all-InOrder :
    (now : ℕ) (config : Submission → Option SandboxConfig) (s : Server) (xs : List Submission)
    → InOrder s.registry
    → InOrder (rescan_all now config s xs).registry
unfolding rescan_all
rescan_all-InOrder now config s [] h = h
rescan_all-InOrder now config s (x ∷ xs) h =
    rescan_all-InOrder now config (rescan now config s x) xs (rescan-InOrder now config s x h)
