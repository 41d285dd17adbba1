-- ===== src/Gateway/Server/Runs.antt =====
-- The capacity of the nodes, when self tests start and end.
use pigeon_oj.Base.{
  ℕ, suc, ◌-◌, ◌≤◌, ◌<◌, ◌≡◌, refl, subst, some, List, [], ◌∷◌, length, All, All-map, All-filter,
  All-filter_self, ltb→lt, arith, leb, ◌==◌, Bool-cases, inl, inr,
}
use pigeon_oj.Gateway.{
  Connection, Registry, task_count, find_object, available_nodes, live_nodes, Choice, choose,
}
use pigeon_oj.Gateway.Dispatch.{choose-least}
use pigeon_oj.Gateway.Server.{
  list_nodes, set_runs, start_run, active_judge_count, dispatch_run_code, end_run,
}
use pigeon_oj.Gateway.Server.Capacity.{Listed, list_nodes-Listed}
use pigeon_oj.Gateway.Server.Sending.{
  Within, InOrder, node_of-set_runs, Leads-same_nodes, get_node-found,
}

pub Within-set_runs :
    (o : ℕ) (f : ℕ → ℕ) (cs : List Connection)
    → ((k : ℕ) → f k ≤ k)
    → All Within cs
    → All Within (set_runs o f cs)
unfolding set_runs task_count
Within-set_runs o f [] hf h = tt
Within-set_runs o f (d ∷ cs) hf h = elim (Bool-cases (d.object == o)) [
  | inl e ↦ rw e (omega (arith, hf d.pending_runs, h.0), h.1)
  | inr e ↦ rw e (h.0, Within-set_runs o f cs hf h.1)
]

Within-more_runs :
    (o : ℕ) (cs : List Connection) (c : Connection)
    → All Within cs
    → find_object o cs ≡ some c
    → task_count c < c.capacity
    → All Within (set_runs o suc cs)
unfolding set_runs find_object task_count
Within-more_runs o [] c h f k = tt
Within-more_runs o (d ∷ cs) c h f k = elim (Bool-cases (d.object == o)) [
  | inl e ↦
      let same : c ≡ d = ground (arith, f, e) in
      let room : task_count d < d.capacity = subst (λ x. task_count x < x.capacity) same k in
      rw e (omega (arith, room), h.1)
  | inr e ↦ rw e (h.0, Within-more_runs o cs c h.1 (ground (arith, f, e)) k)
]

pub runs-InOrder :
    (r : Registry) (o : ℕ) (f : ℕ → ℕ)
    → All Within (set_runs o f r.objects)
    → InOrder r
    → InOrder (record r { objects = set_runs o f r.objects })
runs-InOrder r o f w h =
    (w, Leads-same_nodes r (set_runs o f r.objects) (λ p. node_of-set_runs p o f r.objects) h.1)

start_run-InOrder :
    (r : Registry) (x : Choice) (cs : List Connection)
    → InOrder r
    → All (Listed r) cs
    → All (λ c. task_count c < c.capacity) cs
    → choose cs ≡ x
    → InOrder (start_run r x).0
unfolding start_run
start_run-InOrder r Choice.wait cs h l k e = h
start_run-InOrder r Choice.no_spj_node cs h l k e = h
start_run-InOrder r (Choice.chosen c) cs h l k e =
    let listed = choose-least (Listed r) cs c e l in
    let room = choose-least (λ d. task_count d < d.capacity) cs c e k in
    runs-InOrder r c.object suc
      (Within-more_runs c.object r.objects c h.0 (get_node-found c.node_id r c listed.0) room.0) h

available-room : (cs : List Connection) → All (λ c. task_count c < c.capacity) (available_nodes cs)
unfolding available_nodes
available-room cs = All-map (λ c h. ltb→lt (task_count c) c.capacity h) _ (All-filter_self _ cs)

pub dispatch_run_code-InOrder :
    (max_concurrent : ℕ) (r : Registry) → InOrder r → InOrder (dispatch_run_code max_concurrent r).0
unfolding dispatch_run_code
dispatch_run_code-InOrder max_concurrent r h =
    let live = live_nodes (list_nodes r) in
    elim (Bool-cases (length live == 0)) [
      | inl e ↦ rw e h
      | inr e ↦ rw e (elim (Bool-cases (leb max_concurrent (active_judge_count r))) [
        | inl e1 ↦ rw e1 h
        | inr e1 ↦ rw e1 (
            start_run-InOrder r (choose (available_nodes live)) (available_nodes live) h
              (unfold available_nodes live_nodes in
                All-filter (Listed r) _ _
                  (All-filter (Listed r) _ (list_nodes r) (list_nodes-Listed r h)))
              (available-room live) refl)
      ])
    ]

pub end_run-InOrder : (o : ℕ) (r : Registry) → InOrder r → InOrder (end_run o r)
unfolding end_run
end_run-InOrder o r h =
    runs-InOrder r o (λ n. n - 1) (Within-set_runs o (λ n. n - 1) r.objects (λ k. omega arith) h.0)
      h
