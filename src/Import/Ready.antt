-- ===== src/Import/Ready.antt =====
-- The problems that a batch adds are published with cases and verified, or drafts that are not.
use pigeon_oj.Base.{
  append_assoc, append_nil, ℕ, zero, suc, ◌<◌, ◌≡◌, refl, sym, ap, ◌∙◌, ◌⊎◌, true, false, Option,
  none, List, [], ◌∷◌, ◌++◌, length, length-map, All, All-append, arith, Bool-cases, inl, inr,
}
use pigeon_oj.Model.{Problem, ProblemStatus}
use pigeon_oj.Problems.{needs_reverification}
use pigeon_oj.Import.{Pair, Parsed}
use pigeon_oj.Import.Cases.{Storage, CaseRow, Loop}
use pigeon_oj.Import.Entering.{
  Entry, World, Status, entry, problem_row, has_checker, is_published, finish_import, import_one,
}
use pigeon_oj.Import.Batches.{
  SpjMode, is_imported, has_title, skips_spj, after_import, attempt, import_parsed_problems,
}
use pigeon_oj.Import.Stores.{Facts, import_one_by}

-- a checker comes with its mark
abbrev pub Marked : Parsed → Type 0
Marked p = has_checker p ≡ true → p.has_spj ≡ true

abbrev pub Published : Problem → Type 0
Published r =
    (r.status ≡ ProblemStatus.published)
    × (needs_reverification r ≡ false)
    × (0 < length r.active_case_ids)

abbrev pub Draft : Problem → Type 0
Draft r = (r.status ≡ ProblemStatus.draft) × (needs_reverification r ≡ true)

abbrev pub Ready : Entry → Type 0
Ready e = Published e.row ⊎ Draft e.row

-- only such problems are added
abbrev pub AddsReady : World → World → Type 0
AddsReady w w' = (news : List Entry) × (w'.problems ≡ w.problems ++ news) × All Ready news

no_tests-false : (ts : List Pair) → (elim ts [ [] ↦ true | t ∷ us ↦ false ]) ≡ false → 0 < length ts
no_tests-false [] h = cc
no_tests-false (t ∷ us) h = omega arith

unmarked : (p : Parsed) → Marked p → p.has_spj ≡ false → has_checker p ≡ false
unmarked p marked h = elim (Bool-cases (has_checker p)) [
  | inl e ↦ let k = marked e in cc
  | inr e ↦ e
]

row-Ready :
    (pid owner now : ℕ) (rows : List CaseRow) (checker : Option ℕ) (p : Parsed)
    → Marked p
    → length rows ≡ length p.tests
    → (has_checker p ≡ false → checker ≡ none)
    → Ready (entry pid owner now rows checker p)
unfolding entry problem_row needs_reverification
row-Ready pid owner now rows checker p marked count key = elim (Bool-cases (is_published p)) [
  | inl e ↦
      let free : checker ≡ none = key (unmarked p marked (ground (arith, e))) in
      let some_tests : 0 < length p.tests = no_tests-false p.tests (ground (arith, e)) in
      inl (
        rw (e, free)
          (
            refl,
            ground arith,
            rw (length-map (λ (r : CaseRow). r.id) rows) (omega (arith, count, some_tests)),
          ))
  | inr e ↦ inr (rw e (refl, refl))
]

AddsReady-none : (w : World) → AddsReady w w
AddsReady-none w = ([], sym (append_nil w.problems), tt)

AddsReady-both : (u v w : World) → AddsReady u v → AddsReady v w → AddsReady u w
AddsReady-both u v w h k = (
  h.0 ++ k.0,
  k.1 ∙ (ap (λ l. l ++ k.0) h.1 ∙ append_assoc u.problems h.0 k.0),
  All-append Ready h.0 k.0 h.2 k.2,
)

finish-AddsReady :
    (storage : Storage) (owner now : ℕ) (p : Parsed) (w : World)
    → Marked p
    → (pid : ℕ) (checker : Option ℕ) (first : List ℕ) (l : Loop) → Facts storage p w checker first l
    → AddsReady w (finish_import storage owner now pid checker first p w l).0
finish-AddsReady storage owner now p w marked pid checker first (Loop.done rows uploaded next)
      facts =
    (
      entry pid owner now rows checker p ∷ [],
      refl,
      (row-Ready pid owner now rows checker p marked facts.3.3 facts.4, tt),
    )
finish-AddsReady storage owner now p w marked pid checker first (Loop.raised written uploaded next)
      facts =
    ([], sym (append_nil w.problems), tt)

after_import-AddsReady :
    (p : Parsed) (known : List (List ℕ)) (w : World) (r : (_ : World) × Status)
    → AddsReady w r.0
    → AddsReady w (after_import p known w.next r).world
after_import-AddsReady p known w r h = elim (Bool-cases (is_imported r.1)) [
  | inl e ↦ rw e h
  | inr e ↦ rw e h
]

attempt-AddsReady :
    (storage : Storage) (owner now : ℕ) (mode : SpjMode) (p : Parsed) (known : List (List ℕ))
    (w : World)
    → Marked p
    → AddsReady w (attempt storage owner now mode p known w).world
unfolding attempt
attempt-AddsReady storage owner now mode p known w marked =
    elim (Bool-cases (has_title p.title known)) [
      | inl e ↦ rw e (AddsReady-none w)
      | inr e ↦ rw e (elim (Bool-cases (skips_spj mode p)) [
        | inl s ↦ rw s (AddsReady-none w)
        | inr s ↦ rw s (
            after_import-AddsReady p known w (import_one storage owner now p w) (
              import_one_by storage owner now p w (λ r. AddsReady w r.0)
                (finish-AddsReady storage owner now p w marked)))
      ])
    ]

pub batch-AddsReady :
    (storage : Storage) (owner now : ℕ) (mode : SpjMode) (limit : ℕ) (items : List Parsed)
    (known : List (List ℕ)) (w : World)
    → All Marked items
    → AddsReady w (import_parsed_problems storage owner now mode limit items known w).world
unfolding import_parsed_problems
batch-AddsReady storage owner now mode zero [] known w marked = AddsReady-none w
batch-AddsReady storage owner now mode (suc left) [] known w marked = AddsReady-none w
batch-AddsReady storage owner now mode zero (p ∷ ps) known w marked = AddsReady-none w
batch-AddsReady storage owner now mode (suc left) (p ∷ ps) known w marked =
    let a = attempt storage owner now mode p known w in
    AddsReady-both w a.world
      (import_parsed_problems storage owner now mode left ps a.known a.world).world
      (attempt-AddsReady storage owner now mode p known w marked.0)
      (batch-AddsReady storage owner now mode left ps a.known a.world marked.1)
