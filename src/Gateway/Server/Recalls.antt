-- ===== src/Gateway/Server/Recalls.antt =====
-- The slot that a recalled submission leaves behind: the recall of `maintenance_once` sends a cancellation, after
-- which a node reports no result, and does not take the submission off the connection.
use pigeon_oj.Base.{
  ◌⊎◌, ℕ, ◌≡◌, refl, sym, ap, ◌∙◌, subst, Bool, true, false, Option, some, List, [], ◌∷◌, ◌++◌,
  discard, elem, arith, ◌==◌, if◌then◌else◌, ==→eq, Bool-cases, Option-cases, inl, inr,
}
use pigeon_oj.Base.Integers.{ℤ}
use pigeon_oj.Model.{Submission}
use pigeon_oj.Judge.Results.{JudgeOutcome}
use pigeon_oj.Gateway.Reconnects.{elem-append}
use pigeon_oj.Gateway.Server.Capacity.{chosen-Listed}
use pigeon_oj.Gateway.Server.Sending.{InOrder, get_node-found, with_inflight-twice}
use pigeon_oj.Judge.{SandboxConfig, JudgeDb, JobBundle, build_job_bundle}
use pigeon_oj.Gateway.{Connection, Registry, find_object, set_inflight, Choice, dispatch}
use pigeon_oj.Gateway.Server.{
  Server, find_conn, release, release_from, handle_result, apply_raises, with_inflight, sent,
  send_found, send_job, dispatch_to, dispatch_submission, needs_spj, list_nodes, rescan,
  recall_stale,
}

find_object-other :
    (p o : ℕ) (ids : List ℕ) (cs : List Connection)
    → (p == o) ≡ false
    → find_object p (set_inflight o ids cs) ≡ find_object p cs
unfolding find_object set_inflight
find_object-other p o ids [] h = refl
find_object-other p o ids (d ∷ cs) h =
    ground (arith, h, find_object-other p o ids cs h, ==→eq d.object o, ==→eq d.object p)

find_object-set_inflight :
    (o : ℕ) (ids : List ℕ) (cs : List Connection) (c : Connection)
    → find_object o cs ≡ some c
    → find_object o (set_inflight o ids cs) ≡ some (record c { inflight = ids })
unfolding find_object set_inflight
find_object-set_inflight o ids [] c h = cc
find_object-set_inflight o ids (d ∷ cs) c h = elim (Bool-cases (d.object == o)) [
  | inl e ↦
      let same : d ≡ c = ground (arith, h, e) in
      rw (e, e) (ap (λ (x : Connection). some (record x { inflight = ids })) same)
  | inr e ↦ rw (e, e) (find_object-set_inflight o ids cs c (ground (arith, h, e)))
]

-- a connection holds a job
abbrev pub Holds : Registry → ℕ → ℕ → Type 0
Holds r o sid = (c : Connection) × (find_object o r.objects ≡ some c) × (elem sid c.inflight ≡ true)

other-Holds :
    (r : Registry) (p sid : ℕ) (c : Connection) (ids : List ℕ)
    → (p == c.object) ≡ false
    → Holds r p sid
    → Holds (with_inflight c ids r) p sid
unfolding with_inflight
other-Holds r p sid c ids h (a, found, holds) =
    (a, find_object-other p c.object ids r.objects h ∙ found, holds)

pub sent-Holds :
    (r : Registry) (c : Connection) (sid : ℕ)
    → find_object c.object r.objects ≡ some c
    → Holds (with_inflight c (discard sid c.inflight ++ sid ∷ []) r) c.object sid
unfolding with_inflight
sent-Holds r c sid found = (
  record c { inflight = discard sid c.inflight ++ sid ∷ [] },
  find_object-set_inflight c.object (discard sid c.inflight ++ sid ∷ []) r.objects c found,
  elem-append sid (discard sid c.inflight) (sid ∷ []) ∙ ground arith,
)

-- where two connections hold a job, freeing it frees one of them
release-one :
    (r : Registry) (sid p q : ℕ)
    → (p == q) ≡ false
    → Holds r p sid
    → Holds r q sid
    → Holds (release sid r) p sid ⊎ Holds (release sid r) q sid
unfolding release release_from
release-one r sid p q h hp hq = elim (Option-cases (find_conn sid (list_nodes r))) [
  | inl e ↦
      subst (λ x. Holds (release_from sid r x) p sid ⊎ Holds (release_from sid r x) q sid) (sym e)
        (inl hp)
  | inr (c, e) ↦
      subst (λ x. Holds (release_from sid r x) p sid ⊎ Holds (release_from sid r x) q sid) (sym e)
        (elim (Bool-cases (p == c.object)) [
          | inr k ↦ inl (other-Holds r p sid c (discard sid c.inflight) k hp)
          | inl k ↦ inr (
              other-Holds r q sid c (discard sid c.inflight)
                (ground (arith, h, k, ==→eq p c.object)) hq)
        ])
]

release-one_if :
    (b : Bool) (r : Registry) (sid p q : ℕ)
    → (p == q) ≡ false
    → Holds r p sid
    → Holds r q sid
    → Holds (if b then r else release sid r) p sid ⊎ Holds (if b then r else release sid r) q sid
release-one_if true r sid p q h hp hq = inl hp
release-one_if false r sid p q h hp hq = release-one r sid p q h hp hq

-- Where every node's entry leads to a connection of that node and no connection has more tasks than
-- its capacity: a submission that stands in flight on one connection is recalled by the periodic
-- scan, since it has been judged for too long and its requeue lock is free, and given to another
-- connection, for which its job can be built. Then both hold it, and once a result for it has been
-- handled, one of both still does.
pub recall_leaves_slot :
    (now : ℕ) (config : Submission → Option SandboxConfig) (s : Server) (x : Submission) (p : ℕ)
    (d : Connection) (judge : JudgeDb) (job : JobBundle) (factor : ℤ) (later : ℕ) (o : JudgeOutcome)
    → s.locks x.id ≡ false
    → dispatch (needs_spj (recall_stale now x s.judge) x.id) (list_nodes s.registry)
      ≡ Choice.chosen d
    → InOrder s.registry
    → build_job_bundle (recall_stale now x s.judge) now (config x) x.id ≡ (judge, some job)
    → (p == d.object) ≡ false
    → Holds s.registry p x.id
    → o.submission_id ≡ x.id
    → let after = rescan now config s x in
      let end = (handle_result after factor later o).registry in
      Holds after.registry p x.id
      × Holds after.registry d.object x.id
      × (Holds end p x.id ⊎ Holds end d.object x.id)
unfolding rescan dispatch_submission handle_result
recall_leaves_slot now config s x p d judge job factor later o hl hd order hb hp held ho =
    let hn = chosen-Listed s.registry (needs_spj (recall_stale now x s.judge) x.id) d order hd in
    let kept = discard x.id d.inflight in
    let after = with_inflight d (kept ++ x.id ∷ []) s.registry in
    let same : (rescan now config s x).registry ≡ after =
      rw (hl, hd)
        (unfold dispatch_to send_job in rw hn (unfold send_found in rw hb (unfold sent in refl)))
      ∙ with_inflight-twice s.registry d kept (kept ++ x.id ∷ []) in
    let old : Holds (rescan now config s x).registry p x.id =
      subst (λ r. Holds r p x.id) (sym same)
        (other-Holds s.registry p x.id d (kept ++ x.id ∷ []) hp held) in
    let new : Holds (rescan now config s x).registry d.object x.id =
      subst (λ r. Holds r d.object x.id) (sym same)
        (sent-Holds s.registry d x.id (get_node-found d.node_id s.registry d hn)) in
    let raised = apply_raises (rescan now config s x).judge later o in
    let reg = (rescan now config s x).registry in
    (
      old,
      new,
      subst
          (λ i.
            Holds (if raised then reg else release i reg) p x.id
            ⊎ Holds (if raised then reg else release i reg) d.object x.id)
          (sym ho) (release-one_if raised reg x.id p d.object hp old new),
    )
