-- ===== src/Gateway/Server/Sending.antt =====
-- The capacity of the nodes, when a job is sent.
use pigeon_oj.Base.{
  ℕ, suc, ◌+◌, ◌≤◌, ◌<◌, ◌≡◌, refl, sym, ap, ◌∙◌, subst, Option, none, some, List, [], ◌∷◌, ◌++◌,
  discard, length, length-append, All, All-map, arith, ◌==◌, ==→eq, Bool-cases, Option-cases, inl,
  inr,
}
use pigeon_oj.Judge.{SandboxConfig, JudgeDb, JobBundle, build_job_bundle}
use pigeon_oj.Gateway.{Connection, Registry, task_count, find_object, set_inflight, registered_as}
use pigeon_oj.Gateway.Server.{Server, get_node, with_inflight, sent, send_job, set_runs, send_found}

-- a connection has no more tasks than it takes
abbrev pub Within : Connection → Type 0
Within c = task_count c ≤ c.capacity

-- an entry of the dictionary is found under its key, and leads to a connection of that node
abbrev pub Leads : Registry → ℕ × ℕ → Type 0
Leads r e =
    (registered_as e.0 r.registered ≡ some e.1)
    × (c : Connection) × (find_object e.1 r.objects ≡ some c)
    × (c.node_id ≡ e.0)

abbrev pub InOrder : Registry → Type 0
InOrder r = All Within r.objects × All (Leads r) r.registered

pub object-found :
    (o : ℕ) (cs : List Connection) (c : Connection) → find_object o cs ≡ some c → c.object ≡ o
unfolding find_object
object-found o [] c h = ground (arith, h)
object-found o (d ∷ cs) c h = ground (arith, h, object-found o cs c, ==→eq d.object o)

Within-found :
    (o : ℕ) (cs : List Connection) (c : Connection)
    → All Within cs
    → find_object o cs ≡ some c
    → Within c
unfolding find_object
Within-found o [] c w h = ground (arith, h)
Within-found o (d ∷ cs) c w h = elim (Bool-cases (d.object == o)) [
  | inl e ↦ let same : d ≡ c = ground (arith, h, e) in subst Within same w.0
  | inr e ↦ Within-found o cs c w.1 (ground (arith, h, e))
]

Within-set_inflight :
    (o : ℕ) (ids : List ℕ) (cs : List Connection) (c : Connection)
    → All Within cs
    → find_object o cs ≡ some c
    → length ids + c.pending_runs ≤ c.capacity
    → All Within (set_inflight o ids cs)
unfolding find_object set_inflight task_count
Within-set_inflight o ids [] c w h k = tt
Within-set_inflight o ids (d ∷ cs) c w h k = elim (Bool-cases (d.object == o)) [
  | inl e ↦
      let same : d ≡ c = ground (arith, h, e) in
      rw e (subst (λ x. length ids + x.pending_runs ≤ x.capacity) (sym same) k, w.1)
  | inr e ↦ rw e (w.0, Within-set_inflight o ids cs c w.1 (ground (arith, h, e)) k)
]

-- the node of a connection under a key
abbrev pub node_of : Option Connection → Option ℕ
node_of none = none
node_of (some c) = some c.node_id

node_of-set_inflight :
    (p o : ℕ) (ids : List ℕ) (cs : List Connection)
    → node_of (find_object p (set_inflight o ids cs)) ≡ node_of (find_object p cs)
unfolding find_object set_inflight
node_of-set_inflight p o ids [] = refl
node_of-set_inflight p o ids (d ∷ cs) =
    ground (arith, node_of-set_inflight p o ids cs, ==→eq d.object o, ==→eq d.object p)

pub node_of-set_runs :
    (p o : ℕ) (f : ℕ → ℕ) (cs : List Connection)
    → node_of (find_object p (set_runs o f cs)) ≡ node_of (find_object p cs)
unfolding find_object set_runs
node_of-set_runs p o f [] = refl
node_of-set_runs p o f (d ∷ cs) =
    ground (arith, node_of-set_runs p o f cs, ==→eq d.object o, ==→eq d.object p)

node_of-some :
    (x : Option Connection) (n : ℕ)
    → node_of x ≡ some n
    → (c : Connection) × (x ≡ some c) × (c.node_id ≡ n)
node_of-some none n h = cc
node_of-some (some c) n h = (c, refl, ground (arith, h))

-- connections that keep their nodes leave the dictionary in order
pub Leads-same_nodes :
    (r : Registry) (objects : List Connection)
    → ((p : ℕ) → node_of (find_object p objects) ≡ node_of (find_object p r.objects))
    → All (Leads r) r.registered
    → All (Leads (record r { objects = objects })) r.registered
Leads-same_nodes r objects same h =
    All-map
      (λ e k.
        let found =
          node_of-some (find_object e.1 objects) e.0 (same e.1 ∙ ap node_of k.2 ∙ ap some k.3) in
        (k.0, found.0, found.1, found.2))
      r.registered h

with_inflight-InOrder :
    (r : Registry) (c : Connection) (ids : List ℕ)
    → InOrder r
    → find_object c.object r.objects ≡ some c
    → length ids + c.pending_runs ≤ c.capacity
    → InOrder (with_inflight c ids r)
unfolding with_inflight
with_inflight-InOrder r c ids h found k = (
  Within-set_inflight c.object ids r.objects c h.0 found k,
  Leads-same_nodes r (set_inflight c.object ids r.objects)
      (λ p. node_of-set_inflight p c.object ids r.objects) h.1,
)

set_inflight-twice :
    (o : ℕ) (a b : List ℕ) (cs : List Connection)
    → set_inflight o b (set_inflight o a cs) ≡ set_inflight o b cs
unfolding set_inflight
set_inflight-twice o a b [] = refl
set_inflight-twice o a b (d ∷ cs) = elim (Bool-cases (d.object == o)) [
  | inl e ↦ rw (e, e) refl
  | inr e ↦ rw (e, e) (ap (λ l. d ∷ l) (set_inflight-twice o a b cs))
]

pub with_inflight-twice :
    (r : Registry) (c : Connection) (a b : List ℕ)
    → with_inflight c b (with_inflight c a r) ≡ with_inflight c b r
unfolding with_inflight
with_inflight-twice r c a b =
    ap (λ (l : List Connection). record r { objects = l })
      (set_inflight-twice c.object a b r.objects)

pub get_node-found :
    (n : ℕ) (r : Registry) (c : Connection)
    → get_node n r ≡ some c
    → find_object c.object r.objects ≡ some c
unfolding get_node
get_node-found n r c h = elim (Option-cases (registered_as n r.registered)) [
  | inl e ↦ ground (arith, h, e)
  | inr (o, e) ↦
      let found : find_object o r.objects ≡ some c = rw e at h in
      subst (λ x. find_object x r.objects ≡ some c) (sym (object-found o r.objects c found)) found
]

length-discard : (j : ℕ) (ids : List ℕ) → length (discard j ids) ≤ length ids
length-discard j [] = omega arith
length-discard j (i ∷ ids) = ground (arith, length-discard j ids)

length-sent : (j : ℕ) (ids : List ℕ) → length (discard j ids ++ j ∷ []) ≤ suc (length ids)
length-sent j ids = omega (arith, length-append (discard j ids) (j ∷ []), length-discard j ids)

pub discard-InOrder :
    (r : Registry) (c : Connection) (sid : ℕ)
    → InOrder r
    → find_object c.object r.objects ≡ some c
    → InOrder (with_inflight c (discard sid c.inflight) r)
discard-InOrder r c sid h found =
    let within : task_count c ≤ c.capacity = Within-found c.object r.objects c h.0 found in
    with_inflight-InOrder r c (discard sid c.inflight) h found
      (unfold task_count in omega (arith, within, length-discard sid c.inflight))

sent-InOrder :
    (r : Registry) (c : Connection) (sid : ℕ) (built : JudgeDb × Option JobBundle) (s : Server)
    → InOrder r
    → find_object c.object r.objects ≡ some c
    → task_count c < c.capacity
    → InOrder (sent (with_inflight c (discard sid c.inflight) r) c sid built s).0.registry
unfolding sent
sent-InOrder r c sid (judge, none) s h found room = discard-InOrder r c sid h found
sent-InOrder r c sid (judge, some b) s h found room =
    subst InOrder
      (sym (with_inflight-twice r c (discard sid c.inflight) (discard sid c.inflight ++ sid ∷ [])))
      (with_inflight-InOrder r c (discard sid c.inflight ++ sid ∷ []) h found
        (unfold task_count in omega (arith, room, length-sent sid c.inflight)))

pub send_job-InOrder :
    (s : Server) (now n sid : ℕ) (config : Option SandboxConfig) (c : Connection)
    → InOrder s.registry
    → get_node n s.registry ≡ some c
    → task_count c < c.capacity
    → InOrder (send_job s now config n sid).0.registry
unfolding send_job send_found
send_job-InOrder s now n sid config c h found room =
    subst (λ x. InOrder (send_found s now config sid x).0.registry) (sym found)
      (sent-InOrder s.registry c sid (build_job_bundle s.judge now config sid) s h
        (get_node-found n s.registry c found) room)
