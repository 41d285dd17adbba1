-- ===== src/Gateway/Reconnects.antt =====
-- A node that connects again before its old connection has been noticed to be dead.
use pigeon_oj.Base.{
  ℕ, ◌≡◌, refl, false, ◌||◌, some, List, [], ◌∷◌, ◌++◌, elem, arith, ◌==◌, if◌then◌else◌, ==→eq,
  ==-refl, Bool-cases, inl, inr,
}
use pigeon_oj.Gateway.{
  Connection, Registry, find_object, set_inflight, registered_as, union, inflight_of, take_over,
  register, unregister,
}

pub elem-append : (j : ℕ) (xs ys : List ℕ) → elem j (xs ++ ys) ≡ (elem j xs || elem j ys)
elem-append j [] ys = refl
elem-append j (x ∷ xs) ys = ground (arith, elem-append j xs ys)

elem-union : (j : ℕ) (xs ys : List ℕ) → elem j (union xs ys) ≡ (elem j xs || elem j ys)
unfolding union
elem-union j xs [] = ground arith
elem-union j xs (y ∷ ys) = elim (Bool-cases (elem y xs)) [
  | inl e ↦ rw e (ground (arith, elem-union j xs ys, e, ==→eq j y))
  | inr e ↦ rw e (ground (arith, elem-union j (xs ++ y ∷ []) ys, elem-append j xs (y ∷ [])))
]

find_object-set_inflight :
    (o p : ℕ) (ids : List ℕ) (cs : List Connection) (c : Connection)
    → find_object o cs ≡ some c
    → inflight_of (find_object o (set_inflight p ids cs)) ≡ (if o == p then ids else c.inflight)
unfolding find_object set_inflight
find_object-set_inflight o p ids [] c h = ground (arith, h)
find_object-set_inflight o p ids (d ∷ cs) c h =
    ground (arith, h, find_object-set_inflight o p ids cs c, ==→eq d.object o, ==→eq d.object p)

still_there :
    (o p : ℕ) (ids : List ℕ) (cs : List Connection) (c : Connection)
    → find_object o cs ≡ some c
    → (d : Connection) × (find_object o (set_inflight p ids cs) ≡ some d)
unfolding find_object set_inflight
still_there o p ids [] c h = ground (arith, h)
still_there o p ids (x ∷ cs) c h = elim (Bool-cases (x.object == p)) [
  | inl e ↦ elim (Bool-cases (x.object == o)) [
    | inl e1 ↦ (record x { inflight = ids }, rw (e, e1) refl)
    | inr e1 ↦ (c, ground (arith, h, e, e1))
  ]
  | inr e ↦ elim (Bool-cases (x.object == o)) [
    | inl e1 ↦ (x, rw (e, e1) refl)
    | inr e1 ↦
        let rest = still_there o p ids cs c (ground (arith, h, e1)) in (rest.0, rw (e, e1) rest.1)
  ]
]

registered_now :
    (r : Registry) (n new : ℕ) → registered_as n (register n new r).registered ≡ some new
unfolding register registered_as
registered_now r n new = rw (==-refl n) refl

old_ends :
    (r : Registry) (n old new : ℕ)
    → (old == new) ≡ false
    → unregister n old (register n new r) ≡ (register n new r, [])
unfolding unregister
old_ends r n old new hd =
    let other : (new == old) ≡ false = ground (arith, hd) in rw (registered_now r n new, other) refl

objects_now :
    (r : Registry) (n old new : ℕ) (a b : Connection)
    → registered_as n r.registered ≡ some old
    → (old == new) ≡ false
    → find_object old r.objects ≡ some a
    → find_object new r.objects ≡ some b
    → (register n new r).objects
      ≡ set_inflight old [] (set_inflight new (union b.inflight a.inflight) r.objects)
unfolding register take_over
objects_now r n old new a b hr hd ha hb = rw (hr, hd, ha, hb) refl

new_ends :
    (r : Registry) (n old new j : ℕ) (a b : Connection)
    → registered_as n r.registered ≡ some old
    → (old == new) ≡ false
    → find_object old r.objects ≡ some a
    → find_object new r.objects ≡ some b
    → elem j (unregister n new (register n new r)).1 ≡ (elem j b.inflight || elem j a.inflight)
unfolding unregister
new_ends r n old new j a b hr hd ha hb =
    let other : (new == old) ≡ false = ground (arith, hd) in
    let jobs = union b.inflight a.inflight in
    let (d, found) = still_there new new jobs r.objects b hb in
    let filled = find_object-set_inflight new new jobs r.objects b hb in
    let kept = find_object-set_inflight new old [] (set_inflight new jobs r.objects) d found in
    let both : inflight_of (some d) ≡ (if new == new then jobs else b.inflight) =
      rw found at filled in
    rw
      (
        registered_now r n new,
        ==-refl new,
        objects_now r n old new a b hr hd ha hb,
        kept,
        other,
        both,
        ==-refl new,
      )
      (elem-union j b.inflight a.inflight)

-- A node is registered with an old connection, and connects again with a new one: when the old connection
-- ends at last, its end changes nothing and recovers no job; and when the new connection ends, the jobs
-- recovered are those that were in flight on either.
pub reconnect_keeps_jobs :
    (r : Registry) (n old new j : ℕ) (a b : Connection)
    → registered_as n r.registered ≡ some old
    → (old == new) ≡ false
    → find_object old r.objects ≡ some a
    → find_object new r.objects ≡ some b
    → (unregister n old (register n new r) ≡ (register n new r, []))
      × (elem j (unregister n new (register n new r)).1 ≡ (elem j b.inflight || elem j a.inflight))
reconnect_keeps_jobs r n old new j a b hr hd ha hb =
    (old_ends r n old new hd, new_ends r n old new j a b hr hd ha hb)
