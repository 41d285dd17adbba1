-- ===== src/Import/Kept.antt =====
-- The cases that have been committed keep their objects.
use pigeon_oj.Base.{
  ℕ, zero, suc, ◌<◌, sym, ap, ◌∙◌, subst, not, ◌||◌, Option, List, [], ◌∷◌, ◌++◌, elem, All,
  All-map, All-append, All-filter, arith, Bool-cases, inl, inr,
}
use pigeon_oj.Import.{Parsed}
use pigeon_oj.Import.Cases.{Storage, Loop}
use pigeon_oj.Import.Entering.{Entry, World, Status, entry, delete_all, finish_import, import_one}
use pigeon_oj.Import.Batches.{
  SpjMode, is_imported, has_title, skips_spj, after_import, attempt, import_parsed_problems,
}
use pigeon_oj.Import.Stores.{Between, HasObjects, Facts, import_one_by}
use pigeon_oj.Import.Objects.{delete_all-older, delete_all-append, elem-head, elem-tail, new_keys}

-- the keys in use are older than the next one, and each case has its two objects in the store
abbrev pub Kept : World → Type 0
Kept w =
    (_ : All (λ k. k < w.next) w.objects) × All (λ e. All (HasObjects w.objects) e.cases) w.problems

more_objects :
    (keys objects : List ℕ) (es : List Entry)
    → All (λ e. All (HasObjects objects) e.cases) es
    → All (λ e. All (HasObjects (keys ++ objects)) e.cases) es
more_objects keys objects es h =
    All-map
      (λ e rows.
        All-map
          (λ r b. (
            elem-tail keys objects r.input_oss_id b.0,
            elem-tail keys objects r.expected_output_oss_id b.1,
          ))
          e.cases rows)
      es h

below : (n m : ℕ) (keys : List ℕ) → Between n m keys → All (λ k. k < m) keys
unfolding Between
below n m keys h = All-map (λ k b. b.1) keys h

finish-Kept :
    (storage : Storage) (owner now : ℕ) (p : Parsed) (w : World)
    → Kept w
    → (pid : ℕ) (checker : Option ℕ) (first : List ℕ) (l : Loop) → Facts storage p w checker first l
    → Kept (finish_import storage owner now pid checker first p w l).0
unfolding entry
finish-Kept storage owner now p w kept pid checker first (Loop.done rows uploaded next) facts =
    let keys =
      new_keys storage w first uploaded (facts.0, facts.1, facts.2, facts.3.0, facts.3.1) in
    (
      All-append (λ k. k < next) (first ++ uploaded) w.objects
          (below w.next next (first ++ uploaded) keys)
          (All-map (λ k b. omega (arith, b, facts.1, facts.3.0)) w.objects kept.0),
      All-append (λ e. All (HasObjects ((first ++ uploaded) ++ w.objects)) e.cases) w.problems _
          (more_objects (first ++ uploaded) w.objects w.problems kept.1)
          (
            All-map
                (λ r b. (
                  elem-head (first ++ uploaded) w.objects r.input_oss_id
                      (elem-tail first uploaded r.input_oss_id b.0),
                  elem-head (first ++ uploaded) w.objects r.expected_output_oss_id
                      (elem-tail first uploaded r.expected_output_oss_id b.1),
                ))
                rows facts.3.2,
            tt,
          ),
    )
finish-Kept storage owner now p w kept pid checker first (Loop.raised written uploaded next) facts =
    let keys =
      new_keys storage w first uploaded (facts.0, facts.1, facts.2, facts.3.0, facts.3.1) in
    let wrote =
      new_keys storage w first written (facts.0, facts.1, facts.2, facts.3.0, facts.3.2) in
    (
      unfold delete_all in
          All-filter (λ k. k < next)
            (λ k. not (elem k (first ++ uploaded)) || storage.delete_raises k)
            ((first ++ written) ++ w.objects)
            (All-append (λ k. k < next) (first ++ written) w.objects
              (below w.next next (first ++ written) wrote)
              (All-map (λ k b. omega (arith, b, facts.1, facts.3.0)) w.objects kept.0)),
      subst (λ objects. All (λ e. All (HasObjects objects) e.cases) w.problems)
          (sym (
            delete_all-append storage (first ++ uploaded) (first ++ written) w.objects
            ∙ ap (λ l. delete_all storage (first ++ uploaded) (first ++ written) ++ l)
                (delete_all-older storage w.next next (first ++ uploaded) w.objects keys kept.0)))
          (more_objects (delete_all storage (first ++ uploaded) (first ++ written)) w.objects
            w.problems kept.1),
    )

import_one-Kept :
    (storage : Storage) (owner now : ℕ) (p : Parsed) (w : World)
    → Kept w
    → Kept (import_one storage owner now p w).0
import_one-Kept storage owner now p w kept =
    import_one_by storage owner now p w (λ r. Kept r.0) (finish-Kept storage owner now p w kept)

after_import-Kept :
    (p : Parsed) (known : List (List ℕ)) (pid : ℕ) (r : (_ : World) × Status)
    → Kept r.0
    → Kept (after_import p known pid r).world
after_import-Kept p known pid r kept = elim (Bool-cases (is_imported r.1)) [
  | inl e ↦ rw e kept
  | inr e ↦ rw e kept
]

attempt-Kept :
    (storage : Storage) (owner now : ℕ) (mode : SpjMode) (p : Parsed) (known : List (List ℕ))
    (w : World)
    → Kept w
    → Kept (attempt storage owner now mode p known w).world
unfolding attempt
attempt-Kept storage owner now mode p known w kept = elim (Bool-cases (has_title p.title known)) [
  | inl e ↦ rw e kept
  | inr e ↦ rw e (elim (Bool-cases (skips_spj mode p)) [
    | inl s ↦ rw s kept
    | inr s ↦ rw s (
        after_import-Kept p known w.next (import_one storage owner now p w)
          (import_one-Kept storage owner now p w kept))
  ])
]

-- Where the keys of the store are older than the next one and every case of every problem has its two objects in
-- the store, this is so after a batch of imports, whichever of its objects cannot be stored or deleted: an import
-- that fails deletes no object of a committed case.
pub import_parsed_problems-Kept :
    (storage : Storage) (owner now : ℕ) (mode : SpjMode) (limit : ℕ) (items : List Parsed)
    (known : List (List ℕ)) (w : World)
    → Kept w
    → Kept (import_parsed_problems storage owner now mode limit items known w).world
unfolding import_parsed_problems
import_parsed_problems-Kept storage owner now mode zero [] known w kept = kept
import_parsed_problems-Kept storage owner now mode (suc left) [] known w kept = kept
import_parsed_problems-Kept storage owner now mode zero (p ∷ ps) known w kept = kept
import_parsed_problems-Kept storage owner now mode (suc left) (p ∷ ps) known w kept =
    import_parsed_problems-Kept storage owner now mode left ps
      (attempt storage owner now mode p known w).known
      (attempt storage owner now mode p known w).world
      (attempt-Kept storage owner now mode p known w kept)
