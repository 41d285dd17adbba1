-- ===== src/Node/Completions.antt =====
-- The results of a batch, which complete in any order, in the list of results.
use mathlib.Core.List.{Permᴰ}
use pigeon_oj.Base.{
  ℕ, zero, suc, ◌≤◌, ◌≡◌, refl, ap, sym, ◌∙◌, Bool, true, ◌||◌, Option, none, some, List, [], ◌∷◌,
  ◌++◌, length, map, any, All, All-map, arith, ◌==◌, ==-refl, ==→eq, if◌then◌else◌, append_assoc,
  length-append,
}
use pigeon_oj.Base.Sorting.{All-Permᴰ}
use pigeon_oj.Node.{
  RunStatus, is_fatal, run_batch, enumerate, write_at, blank, present, store_results, stops,
}

write_at_comm :
    (i j : ℕ) (x y : RunStatus) (os : List (Option RunStatus))
    → ((i == j) ≡ true → x ≡ y)
    → write_at i x (write_at j y os) ≡ write_at j y (write_at i x os)
unfolding write_at
write_at_comm i j x y [] h = (unfold write_at in refl)
write_at_comm zero zero x y (o ∷ os) h = ap (λ z. some z ∷ os) (h refl)
write_at_comm zero (suc j) x y (o ∷ os) h = refl
write_at_comm (suc i) zero x y (o ∷ os) h = refl
write_at_comm (suc i) (suc j) x y (o ∷ os) h =
    ap (λ l. o ∷ l) (write_at_comm i j x y os (λ e. h (ground (arith, e))))

write_at-prefix :
    (x : RunStatus) (pre : List (Option RunStatus)) (o : Option RunStatus)
    (os : List (Option RunStatus)) (i : ℕ)
    → length pre ≡ i
    → write_at i x (pre ++ o ∷ os) ≡ pre ++ some x ∷ os
unfolding write_at
write_at-prefix x [] o os zero h = refl
write_at-prefix x [] o os (suc i) h = absurd (omega (arith, h))
write_at-prefix x (p ∷ pre) o os zero h = absurd (omega (arith, h))
write_at-prefix x (p ∷ pre) o os (suc i) h =
    ap (λ l. p ∷ l) (write_at-prefix x pre o os i (omega (arith, h)))

any-Permᴰ {ℓ} : {A : Type ℓ} (q : A → Bool) {xs ys : List A} → Permᴰ xs ys → any q xs ≡ any q ys
any-Permᴰ q Permᴰ.nil = refl
any-Permᴰ q (Permᴰ.cons {a} {b} {l₁} {l₂} e d) =
    ap (λ x. q x || any q l₁) e ∙ ap (λ t. q b || t) (any-Permᴰ q d)
any-Permᴰ q (Permᴰ.swap {a} {b} {a'} {b'} {l} e f) =
    ap (λ x. q x || (q b || any q l)) e
    ∙ (ap (λ x. q b' || (q x || any q l)) f ∙ either (q b') (q a') (any q l))
  where
    either : (s t u : Bool) → (s || (t || u)) ≡ (t || (s || u))
    either s t u = ground arith
any-Permᴰ q (Permᴰ.trans d e) = any-Permᴰ q d ∙ any-Permᴰ q e

-- the result of a case, by its number, among those of the cases from a number on
result_at : ℕ → List RunStatus → ℕ → RunStatus
result_at s [] i = RunStatus.ok
result_at s (r ∷ rs) i = if i == s then r else result_at (suc s) rs i

module _ {C : Type 0} (run : ℕ → C → RunStatus) where
  stops-enumerate :
      (i : ℕ) (cs : List C)
      → any (λ e. is_fatal (run e.0 e.1)) (enumerate i cs) ≡ any is_fatal (run_batch run i cs)
  unfolding enumerate run_batch
  stops-enumerate i [] = refl
  stops-enumerate i (c ∷ cs) = ap (λ t. is_fatal (run i c) || t) (stops-enumerate (suc i) cs)

  -- the result of a numbered case is a function of its number
  abbrev Numbered : (ℕ → RunStatus) → ℕ × C → Type 0
  Numbered value e = run e.0 e.1 ≡ value e.0

  enumerate-Numbered :
      (s : ℕ) (cs : List C)
      → All
          (λ e. (_ : s ≤ e.0) × (run e.0 e.1 ≡ result_at s (run_batch run s cs) e.0))
          (enumerate s cs)
  unfolding enumerate run_batch result_at
  enumerate-Numbered s [] = tt
  enumerate-Numbered s (c ∷ cs) = (
    (omega arith, rw (==-refl s) refl),
    All-map (λ e h. (omega (arith, h.0), ground (arith, h.0, h.1))) (enumerate (suc s) cs)
        (enumerate-Numbered (suc s) cs),
  )

  -- The order in which the cases complete does not matter.
  store_results-Permᴰ :
      (value : ℕ → RunStatus) {xs ys : List (ℕ × C)} (os : List (Option RunStatus))
      → Permᴰ xs ys
      → All (Numbered value) xs
      → store_results run xs os ≡ store_results run ys os
  unfolding store_results
  store_results-Permᴰ value os Permᴰ.nil h = refl
  store_results-Permᴰ value os (Permᴰ.cons {a} {b} {l₁} {l₂} e d) h =
      ap (λ x. store_results run l₁ (write_at x.0 (run x.0 x.1) os)) e
      ∙ store_results-Permᴰ value (write_at b.0 (run b.0 b.1) os) d h.1
  store_results-Permᴰ value os (Permᴰ.swap {a} {b} {a'} {b'} {l} e f) h =
      ap (store_results run l) (
        write_at_comm b.0 a.0 (run b.0 b.1) (run a.0 a.1) os
          (λ same. h.1.0 ∙ (ap value (==→eq b.0 a.0 same) ∙ sym h.0)))
      ∙ (ap (λ x. store_results run l (write_at x.0 (run x.0 x.1) (write_at b.0 (run b.0 b.1) os)))
            e
          ∙ ap
              (λ x.
                store_results run l (write_at b'.0 (run b'.0 b'.1) (write_at x.0 (run x.0 x.1) os)))
              f)
  store_results-Permᴰ value os (Permᴰ.trans d e) h =
      store_results-Permᴰ value os d h
      ∙ store_results-Permᴰ value os e (All-Permᴰ (Numbered value) d h)

  -- the results of the cases in their order
  store_results-in_order :
      (pre : List (Option RunStatus)) (i : ℕ) (cs : List C) (os : List (Option RunStatus))
      → length pre ≡ i
      → store_results run (enumerate i cs) (pre ++ (blank cs ++ os))
        ≡ pre ++ (map (λ r. some r) (run_batch run i cs) ++ os)
  unfolding store_results enumerate run_batch
  store_results-in_order pre i [] os h = refl
  store_results-in_order pre i (c ∷ cs) os h =
      let x = run i c in
      let rest = map (λ r. some r) (run_batch run (suc i) cs) ++ os in
      ap (store_results run (enumerate (suc i) cs)) (
        write_at-prefix x pre none (blank cs ++ os) i h
        ∙ sym (append_assoc pre (some x ∷ []) (blank cs ++ os)))
      ∙ (store_results-in_order (pre ++ some x ∷ []) (suc i) cs os
            (length-append pre (some x ∷ []) ∙ omega (arith, h))
          ∙ append_assoc pre (some x ∷ []) rest)

  -- The results of a batch, in whatever order its cases complete.
  pub store_results-completed :
      (pre : List (Option RunStatus)) (i : ℕ) (cs : List C) (os : List (Option RunStatus))
      (done : List (ℕ × C))
      → length pre ≡ i
      → Permᴰ (enumerate i cs) done
      → store_results run done (pre ++ (blank cs ++ os))
        ≡ pre ++ (map (λ r. some r) (run_batch run i cs) ++ os)
  store_results-completed pre i cs os done h perm =
      sym (
        store_results-Permᴰ (result_at i (run_batch run i cs)) (pre ++ (blank cs ++ os)) perm
          (All-map (λ e k. k.1) (enumerate i cs) (enumerate-Numbered i cs)))
      ∙ store_results-in_order pre i cs os h

  -- a batch stops the job where one of its results is fatal
  pub stops-completed :
      (i : ℕ) (cs : List C) (done : List (ℕ × C))
      → Permᴰ (enumerate i cs) done
      → stops run done ≡ any is_fatal (run_batch run i cs)
  stops-completed i cs done perm =
      sym (any-Permᴰ (λ e. is_fatal (run e.0 e.1)) perm) ∙ stops-enumerate i cs

pub present-map : (rs : List RunStatus) → present (map (λ r. some r) rs) ≡ rs
unfolding present
present-map [] = refl
present-map (r ∷ rs) = ap (λ l. r ∷ l) (present-map rs)
