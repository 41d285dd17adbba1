-- ===== src/Node/Cache.antt =====
-- The eviction of cached problem data.
use pigeon_oj.Base.{
  ℕ, ◌+◌, ◌-◌, ◌≤◌, ◌<◌, ◌≡◌, refl, ap, ◌∙◌, ◌⊎◌, Bool, true, false, ◌||◌, List, [], ◌∷◌, sum_by,
  All, arith, ltb, leb, ◌==◌, Bool-cases, inl, inr, leb→le,
}
use pigeon_oj.Base.Sorting.{insert_sorted, sort_by}
use pigeon_oj.Node.{Entry, Collected, evict, collect}

abbrev pub bytes : List Entry → ℕ
bytes es = sum_by (λ e. e.size) es

-- what an eviction has to have done, when the entries hold `total` bytes with `other` bytes beside them
Evicted : ℕ → (ℕ → Bool) → ℕ → Collected → Type 0
Evicted max_bytes in_use other r =
    ((bytes r.kept + other ≤ max_bytes) ⊎ All (λ e. in_use e.name ≡ true) r.kept)
    × All (λ e. in_use e.name ≡ false) r.removed

evict-Evicted :
    (max_bytes : ℕ) (in_use : ℕ → Bool) (other : ℕ) (es : List Entry)
    → Evicted max_bytes in_use other (evict max_bytes in_use (bytes es + other) es)
unfolding Evicted evict
evict-Evicted max_bytes in_use other [] = (inr tt, tt)
evict-Evicted max_bytes in_use other (e ∷ es) =
    elim (Bool-cases (leb (e.size + bytes es + other) max_bytes)) [
      | inl h ↦ rw h (inl (leb→le (e.size + bytes es + other) max_bytes h), tt)
      | inr h ↦ rw h (elim (Bool-cases (in_use e.name)) [
        | inl u ↦
            let total : e.size + bytes es + other ≡ bytes es + (e.size + other) = omega arith in
            let rest = evict-Evicted max_bytes in_use (e.size + other) es in
            rw (u, total)
              (elim rest.0 [
                | inl k ↦ (inl (omega (arith, k)), rest.1)
                | inr k ↦ (inr (u, k), rest.1)
              ])
        | inr u ↦
            let total : e.size + bytes es + other - e.size ≡ bytes es + other = omega arith in
            let rest = evict-Evicted max_bytes in_use other es in
            rw (u, total) (rest.0, (u, rest.1))
      ])
    ]

bytes-insert_sorted :
    (e : Entry) (es : List Entry)
    → bytes (insert_sorted (λ a b. ltb a.modified b.modified) e es) ≡ e.size + bytes es
unfolding insert_sorted
bytes-insert_sorted e [] = refl
bytes-insert_sorted e (x ∷ es) = elim (Bool-cases (ltb x.modified e.modified)) [
  | inl h ↦ rw h (omega (arith, bytes-insert_sorted e es))
  | inr h ↦ rw h refl
]

bytes-sort_by : (es : List Entry) → bytes (sort_by (λ a b. ltb a.modified b.modified) es) ≡ bytes es
unfolding sort_by
bytes-sort_by [] = refl
bytes-sort_by (e ∷ es) =
    bytes-insert_sorted e (sort_by (λ a b. ltb a.modified b.modified) es)
    ∙ ap (λ n. e.size + n) (bytes-sort_by es)

-- For every positive limit: what a collection leaves takes no more bytes than the limit, or is in use
-- entirely; and no directory in use is removed.
pub collect_frees :
    (max_bytes : ℕ) (in_use : ℕ → Bool) (entries : List Entry)
    → 0 < max_bytes
    → ((bytes (collect max_bytes in_use entries).kept ≤ max_bytes)
        ⊎ All (λ e. in_use e.name ≡ true) (collect max_bytes in_use entries).kept)
      × All (λ e. in_use e.name ≡ false) (collect max_bytes in_use entries).removed
unfolding collect Evicted
collect_frees max_bytes in_use entries hp =
    let sorted = sort_by (λ a b. ltb a.modified b.modified) entries in
    elim (Bool-cases ((max_bytes == 0) || leb (bytes entries) max_bytes)) [
      | inl h ↦ rw h (inl (ground (arith, h, hp)), tt)
      | inr h ↦
          let total : bytes sorted + 0 ≡ bytes entries = omega (arith, bytes-sort_by entries) in
          rw (h, ← total)
            (let done = evict-Evicted max_bytes in_use 0 sorted in
              elim done.0 [ inl k ↦ (inl (omega (arith, k)), done.1) | inr k ↦ (inr k, done.1) ])
    ]
