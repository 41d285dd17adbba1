-- ===== src/Gateway/Dispatch.antt =====
-- The node that a submission is given to.
use pigeon_oj.Base.{
  ◌≤◌, ◌<◌, ◌≡◌, refl, sym, subst, Bool, true, false, not, ◌||◌, List, [], ◌∷◌, filter, All,
  All-filter_self, All-filter_both, All-map, arith, ltb, Bool-cases, inl, inr, ltb→lt,
}
use pigeon_oj.Gateway.{
  Connection, task_count, available_nodes, live_nodes, lighter, least, Choice, choose, dispatch,
}

All-least :
    (P : Connection → Type 0) (c : Connection) (ds : List Connection)
    → P c
    → All P ds
    → P (least c ds)
unfolding least
All-least P c [] hc hs = hc
All-least P c (d ∷ ds) hc hs = elim (Bool-cases (lighter d c)) [
  | inl e ↦ rw e (All-least P d ds hs.0 hs.1)
  | inr e ↦ rw e (All-least P c ds hc hs.1)
]

lighter-le : (a b : Connection) → lighter a b ≡ true → task_count a ≤ task_count b
unfolding lighter
lighter-le a b h = ground (arith, h)

not_lighter-le : (a b : Connection) → lighter a b ≡ false → task_count b ≤ task_count a
unfolding lighter
not_lighter-le a b h = ground (arith, h)

least-le : (c : Connection) (ds : List Connection) → task_count (least c ds) ≤ task_count c
unfolding least
least-le c [] = omega arith
least-le c (d ∷ ds) = elim (Bool-cases (lighter d c)) [
  | inl e ↦ rw e (omega (arith, least-le d ds, lighter-le d c e))
  | inr e ↦ rw e (least-le c ds)
]

least-lighter :
    (c d : Connection) (ds : List Connection) → lighter d c ≡ true → least c (d ∷ ds) ≡ least d ds
unfolding least
least-lighter c d ds e = rw e refl

least-not_lighter :
    (c d : Connection) (ds : List Connection) → lighter d c ≡ false → least c (d ∷ ds) ≡ least c ds
unfolding least
least-not_lighter c d ds e = rw e refl

least-All :
    (c : Connection) (ds : List Connection)
    → All (λ d. task_count (least c ds) ≤ task_count d) (c ∷ ds)
least-All c [] = (least-le c [], tt)
least-All c (d ∷ ds) = elim (Bool-cases (lighter d c)) [
  | inl e ↦
      let rest = least-All d ds in
      subst (λ x. All (λ y. task_count x ≤ task_count y) (c ∷ d ∷ ds))
        (sym (least-lighter c d ds e)) (omega (arith, rest.0, lighter-le d c e), (rest.0, rest.1))
  | inr e ↦
      let rest = least-All c ds in
      subst (λ x. All (λ y. task_count x ≤ task_count y) (c ∷ d ∷ ds))
        (sym (least-not_lighter c d ds e))
        (rest.0, (omega (arith, rest.0, not_lighter-le d c e), rest.1))
]

-- the nodes that a submission may go to
abbrev pub eligible : Bool → List Connection → List Connection
eligible false cs = available_nodes (live_nodes cs)
eligible true cs = available_nodes (filter (λ c. c.supports_spj) (available_nodes (live_nodes cs)))

-- the node takes one more job, is alive, and runs checkers where one is needed
abbrev pub Fits : Bool → Connection → Type 0
Fits needs_spj c =
    (task_count c < c.capacity) × (c.stale ≡ false) × ((not needs_spj || c.supports_spj) ≡ true)

not-true : (b : Bool) → not b ≡ true → b ≡ false
not-true true h = ground (arith, h)
not-true false h = refl

eligible-Fits :
    (needs_spj : Bool) (cs : List Connection) → All (Fits needs_spj) (eligible needs_spj cs)
unfolding available_nodes live_nodes
eligible-Fits false cs =
    All-map (λ c h. (ltb→lt (task_count c) c.capacity h.1, not-true c.stale h.0, refl)) _
      (All-filter_both (λ c. not c.stale ≡ true) (λ c. ltb (task_count c) c.capacity) _
        (All-filter_self (λ c. not c.stale) cs))
eligible-Fits true cs =
    All-map (λ c h. (ltb→lt (task_count c) c.capacity h.1, not-true c.stale h.0.0.0, h.0.1)) _
      (All-filter_both
        (λ c.
          ((not c.stale ≡ true) × (ltb (task_count c) c.capacity ≡ true)) × (c.supports_spj ≡ true))
        (λ c. ltb (task_count c) c.capacity) _
        (All-filter_both (λ c. (not c.stale ≡ true) × (ltb (task_count c) c.capacity ≡ true))
          (λ c. c.supports_spj) _
          (All-filter_both (λ c. not c.stale ≡ true) (λ c. ltb (task_count c) c.capacity) _
            (All-filter_self (λ c. not c.stale) cs))))

pub choose-eligible :
    (needs_spj : Bool) (cs : List Connection) (c : Connection)
    → dispatch needs_spj cs ≡ Choice.chosen c
    → choose (eligible needs_spj cs) ≡ Choice.chosen c
unfolding dispatch
choose-eligible false cs c h = ground (arith, h)
choose-eligible true cs c h = ground (arith, h)

pub choose-least :
    (P : Connection → Type 0) (cs : List Connection) (c : Connection)
    → choose cs ≡ Choice.chosen c
    → All P cs
    → P c × All (λ d. task_count c ≤ task_count d) cs
unfolding choose
choose-least P [] c h hp = ground (arith, h)
choose-least P (x ∷ xs) c h hp =
    let same : least x xs ≡ c = ground (arith, h) in
    subst (λ y. P y × All (λ d. task_count y ≤ task_count d) (x ∷ xs)) same
      (All-least P x xs hp.0 hp.1, least-All x xs)

-- The node that a submission is given to has room for one more task, is alive, supports checkers where the
-- submission needs one, and none of the nodes that could have been chosen has fewer tasks.
pub dispatch_chooses_least :
    (needs_spj : Bool) (cs : List Connection) (c : Connection)
    → dispatch needs_spj cs ≡ Choice.chosen c
    → Fits needs_spj c × All (λ d. task_count c ≤ task_count d) (eligible needs_spj cs)
dispatch_chooses_least needs_spj cs c h =
    choose-least (Fits needs_spj) (eligible needs_spj cs) c (choose-eligible needs_spj cs c h)
      (eligible-Fits needs_spj cs)
