-- ===== src/Node/Runs.antt =====
-- The cases of a job, run one after the other and in batches.
use pigeon_oj.Base.{
  ℕ, zero, suc, ◌+◌, ◌≤◌, ◌≡◌, refl, ap, sym, ◌∙◌, Bool, true, false, not, ◌||◌, List, [], ◌∷◌,
  ◌++◌, length, take, drop, any, count, any-append, length-drop_lt, arith, ◌==◌, Bool-cases, inl,
  inr, ◌⊎◌, Option, none, some, map, append_assoc, length-append,
}
use mathlib.Core.List.{Permᴰ}
use pigeon_oj.Node.{
  RunStatus, is_accepted, is_fatal, run_cases_serial, run_batch, run_batches, run_cases_parallel,
  enumerate, blank, present, store_results, stops,
}
use pigeon_oj.Node.Completions.{store_results-completed, stops-completed, present-map}

abbrev pub never : ℕ → Bool
never i = false

suc-ne_zero : (n : ℕ) → (suc n == 0) ≡ false
suc-ne_zero n = ground arith

cons-ne_nil {ℓ} : {A : Type ℓ} {x : A} {xs : List A} → x ∷ xs ≡ [] → ⊥
cons-ne_nil h = cc

blank-split : {C : Type 0} (n : ℕ) (cs : List C) → blank cs ≡ blank (take n cs) ++ blank (drop n cs)
blank-split zero cs = refl
blank-split (suc n) [] = refl
blank-split (suc n) (c ∷ cs) = ap (λ l. none ∷ l) (blank-split n cs)

map-append_lem :
    (f : RunStatus → Option RunStatus) (xs ys : List RunStatus)
    → map f (xs ++ ys) ≡ map f xs ++ map f ys
map-append_lem f [] ys = refl
map-append_lem f (x ∷ xs) ys = ap (λ l. f x ∷ l) (map-append_lem f xs ys)

-- a batch is full, or the last one
full_or_last : {C : Type 0} (n : ℕ) (cs : List C) → (length (take n cs) ≡ n) ⊎ (drop n cs ≡ [])
full_or_last zero cs = inl refl
full_or_last (suc n) [] = inr refl
full_or_last (suc n) (c ∷ cs) = elim (full_or_last n cs) [ inl e ↦ inl (ap suc e) | inr e ↦ inr e ]

module _ {C : Type 0} (run : ℕ → C → RunStatus) where
  run_batch-take :
      (n i : ℕ) (cs : List C)
      → run_batch run i (take n cs) ++ run_batch run (i + n) (drop n cs) ≡ run_batch run i cs
  unfolding run_batch
  run_batch-take zero i cs = ap (λ j. run_batch run j cs) (plus_zero i)
    where
      plus_zero : (i : ℕ) → i + 0 ≡ i
      plus_zero i = omega arith
  run_batch-take (suc n) i [] = refl
  run_batch-take (suc n) i (c ∷ cs) =
      ap (λ l. run i c ∷ l)
        (ap (λ j. run_batch run (suc i) (take n cs) ++ run_batch run j (drop n cs)) (shift i n)
          ∙ run_batch-take n (suc i) cs)
    where
      shift : (i n : ℕ) → i + suc n ≡ suc i + n
      shift i n = omega arith

  serial-run_batch :
      (i : ℕ) (cs : List C)
      → any is_fatal (run_batch run i cs) ≡ false
      → run_cases_serial run never false i cs ≡ run_batch run i cs
  unfolding run_cases_serial run_batch
  serial-run_batch i [] h = refl
  serial-run_batch i (c ∷ cs) h = ground (arith, h, serial-run_batch (suc i) cs)

  length-run_batch :
      (i : ℕ) (cs : List C) → length (map (λ r. some r) (run_batch run i cs)) ≡ length cs
  unfolding run_batch
  length-run_batch i [] = refl
  length-run_batch i (c ∷ cs) = ap suc (length-run_batch (suc i) cs)

  -- where the next batch begins
  next_place :
      (workers i : ℕ) (cs : List C) (pre : List (Option RunStatus))
      → length pre ≡ i
      → (length (pre ++ map (λ r. some r) (run_batch run i (take workers cs))) ≡ i + workers)
        ⊎ (drop workers cs ≡ [])
  next_place workers i cs pre at = elim (full_or_last workers cs) [
    | inl e ↦ inl (
        length-append pre (map (λ r. some r) (run_batch run i (take workers cs)))
        ∙ omega (arith, at, e, length-run_batch i (take workers cs)))
    | inr e ↦ inr e
  ]

  -- one batch without a fatal result
  run_step :
      (completed : ℕ → List (ℕ × C) → List (ℕ × C)) (fuel workers i : ℕ) (c : C) (cs : List C)
      (ordered : List (Option RunStatus))
      → stops run (completed i (enumerate i (take workers (c ∷ cs)))) ≡ false
      → run_batches run never completed (suc fuel) workers i (c ∷ cs) ordered
        ≡ run_batches run never completed fuel workers
            (i + workers)
            (drop workers (c ∷ cs))
            (store_results run (completed i (enumerate i (take workers (c ∷ cs)))) ordered)
  unfolding run_batches
  run_step completed fuel workers i c cs ordered first = rw (suc-ne_zero (length cs), first) refl

  -- The batches add the results of their cases to those that are there.
  batches-run_batch :
      (completed : ℕ → List (ℕ × C) → List (ℕ × C)) (fuel workers i : ℕ) (cs : List C)
      (pre : List (Option RunStatus))
      → ((j : ℕ) (es : List (ℕ × C)) → Permᴰ es (completed j es))
      → 1 ≤ workers
      → length cs ≤ fuel
      → (length pre ≡ i) ⊎ (cs ≡ [])
      → any is_fatal (run_batch run i cs) ≡ false
      → run_batches run never completed fuel workers i cs (pre ++ blank cs)
        ≡ pre ++ map (λ r. some r) (run_batch run i cs)
  unfolding run_batches
  batches-run_batch completed zero workers i [] pre perm hw hl hp h = (unfold run_batch in refl)
  batches-run_batch completed zero workers i (c ∷ cs) pre perm hw hl hp h = ground (arith, hl)
  batches-run_batch completed (suc fuel) workers i [] pre perm hw hl hp h =
      (unfold run_batch in refl)
  batches-run_batch completed (suc fuel) workers i (c ∷ cs) pre perm hw hl (inr e) h =
      absurd (cons-ne_nil e)
  batches-run_batch completed (suc fuel) workers i (c ∷ cs) pre perm hw hl (inl at) h =
      let now = take workers (c ∷ cs) in
      let left = drop workers (c ∷ cs) in
      let batch = run_batch run i now in
      let later = run_batch run (i + workers) left in
      let done = completed i (enumerate i now) in
      let split = run_batch-take workers i (c ∷ cs) in
      let parts : (any is_fatal batch || any is_fatal later) ≡ false =
        sym (any-append is_fatal batch later) ∙ ap (any is_fatal) split ∙ h in
      let first : stops run done ≡ false =
        stops-completed run i now done (perm i (enumerate i now)) ∙ ground (arith, parts) in
      let second : any is_fatal later ≡ false = ground (arith, parts) in
      let halves : pre ++ blank (c ∷ cs) ≡ pre ++ (blank now ++ blank left) =
        ap (λ l. pre ++ l) (blank-split workers (c ∷ cs)) in
      let stored : store_results run done (pre ++ blank (c ∷ cs))
          ≡ (pre ++ map (λ r. some r) batch) ++ blank left =
        ap (store_results run done) halves
        ∙ (store_results-completed run pre i now (blank left) done at (perm i (enumerate i now))
            ∙ sym (append_assoc pre (map (λ r. some r) batch) (blank left))) in
      run_step completed fuel workers i c cs (pre ++ blank (c ∷ cs)) first
      ∙ (ap (run_batches run never completed fuel workers (i + workers) left) stored
          ∙ (batches-run_batch completed fuel workers (i + workers) left
                (pre ++ map (λ r. some r) batch) perm hw
                (length-drop_lt workers (c ∷ cs) fuel hw hl) (next_place workers i (c ∷ cs) pre at)
                second
              ∙ (append_assoc pre (map (λ r. some r) batch) (map (λ r. some r) later)
                  ∙ ap (λ l. pre ++ l)
                      (sym (map-append_lem (λ r. some r) batch later)
                        ∙ ap (map (λ r. some r)) split))))

  -- Whatever the number of workers, if it is not 0, and in whatever order the cases of a batch complete: where
  -- no case ends in a fatal status and the job is not cancelled, the batches give the results that running the
  -- cases one after the other gives, in the same order.
  pub parallel_equals_serial :
      (completed : ℕ → List (ℕ × C) → List (ℕ × C)) (workers : ℕ) (cs : List C)
      → ((j : ℕ) (es : List (ℕ × C)) → Permᴰ es (completed j es))
      → 1 ≤ workers
      → any is_fatal (run_batch run 0 cs) ≡ false
      → run_cases_parallel run never completed workers cs ≡ run_cases_serial run never false 0 cs
  unfolding run_cases_parallel
  parallel_equals_serial completed workers cs perm hw h =
      ap present
        (batches-run_batch completed (length cs) workers 0 cs [] perm hw (omega arith) (inl refl) h)
      ∙ (present-map (run_batch run 0 cs) ∙ sym (serial-run_batch 0 cs h))

  -- With the short cut of ACM rules, whenever the job is cancelled: the results are those of the first
  -- cases, and at most one of them, the last, is not accepted.
  pub serial_stops_at_failure :
      (cancelled : ℕ → Bool) (i : ℕ) (cs : List C)
      → (run_cases_serial run cancelled true i cs
          ≡ take (length (run_cases_serial run cancelled true i cs)) (run_batch run i cs))
        × (count (λ r. not (is_accepted r)) (run_cases_serial run cancelled true i cs) ≤ 1)
  unfolding run_cases_serial run_batch
  serial_stops_at_failure cancelled i [] = (refl, omega arith)
  serial_stops_at_failure cancelled i (c ∷ cs) =
      let rest = serial_stops_at_failure cancelled (suc i) cs in
      elim (Bool-cases (cancelled i)) [
        | inl e ↦ rw e (refl, omega arith)
        | inr e ↦ rw e (elim (Bool-cases (is_fatal (run i c) || not (is_accepted (run i c)))) [
          | inl e1 ↦ rw e1 (refl, ground arith)
          | inr e1 ↦ rw e1 (ap (λ l. run i c ∷ l) rest.0, ground (arith, e1, rest.1))
        ])
      ]
