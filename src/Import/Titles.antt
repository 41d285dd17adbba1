-- ===== src/Import/Titles.antt =====
-- No title is imported twice.
use pigeon_oj.Base.{
  ℕ, zero, suc, ◌≡◌, refl, ap, Bool, true, false, not, ◌&&◌, ◌||◌, Option, List, [], ◌∷◌, ◌++◌, map,
  arith, Bool-cases, inl, inr,
}
use pigeon_oj.Import.{Parsed}
use pigeon_oj.Import.Texts.{same_text}
use pigeon_oj.Import.Cases.{Storage, Loop}
use pigeon_oj.Import.Entering.{Entry, World, entry, status_of, finish_import}
use pigeon_oj.Import.Stores.{import_one_by}
use pigeon_oj.Import.Batches.{
  SpjMode, is_imported, has_title, skips_spj, after_import, attempt, import_parsed_problems,
  known_titles,
}

pub status_of-imported : (p : Parsed) → is_imported (status_of p) ≡ true
status_of-imported p = ground arith

unfoldable pub distinct : List (List ℕ) → Bool
unfolding has_title
distinct [] = true
distinct (t ∷ ts) = not (has_title t ts) && distinct ts

has_title-append :
    (t u : List ℕ) (ts : List (List ℕ))
    → has_title t (ts ++ u ∷ []) ≡ (has_title t ts || same_text t u)
unfolding has_title
has_title-append t u [] = ground arith
has_title-append t u (k ∷ ks) = ground (arith, has_title-append t u ks)

same_text-sym : (s t : List ℕ) → same_text s t ≡ same_text t s
unfolding same_text
same_text-sym [] [] = refl
same_text-sym [] (d ∷ ds) = refl
same_text-sym (c ∷ cs) [] = refl
same_text-sym (c ∷ cs) (d ∷ ds) = ground (arith, same_text-sym cs ds)

distinct-append :
    (u : List ℕ) (ts : List (List ℕ))
    → distinct ts ≡ true
    → has_title u ts ≡ false
    → distinct (ts ++ u ∷ []) ≡ true
unfolding distinct has_title
distinct-append u [] h k = refl
distinct-append u (t ∷ ts) h k =
    rw (has_title-append t u ts, same_text-sym t u)
      (ground (arith, distinct-append u ts (ground (arith, h)) (ground (arith, k)), h, k))

known_titles-append :
    (es : List Entry) (e : Entry)
    → map (λ x. x.title) (es ++ e ∷ []) ≡ map (λ x. x.title) es ++ e.title ∷ []
known_titles-append [] e = refl
known_titles-append (x ∷ es) e = ap (λ l. x.title ∷ l) (known_titles-append es e)

-- the titles of the rows are known, and no two are the same
abbrev Apart : List (List ℕ) → World → Type 0
Apart known w =
    (_ : (t : List ℕ) → has_title t (known_titles w) ≡ true → has_title t known ≡ true) × (distinct
        (known_titles w)
      ≡ true)

covers :
    (t u : List ℕ) (ts known : List (List ℕ))
    → (has_title t ts ≡ true → has_title t known ≡ true)
    → has_title t (ts ++ u ∷ []) ≡ true
    → has_title t (u ∷ known) ≡ true
unfolding has_title
covers t u ts known h k = elim (Bool-cases (has_title t ts)) [
  | inl e ↦ ground (arith, h e)
  | inr e ↦ ground (arith, has_title-append t u ts, e, k)
]

unknown :
    (t : List ℕ) (known : List (List ℕ)) (w : World)
    → has_title t known ≡ false
    → ((u : List ℕ) → has_title u (known_titles w) ≡ true → has_title u known ≡ true)
    → has_title t (known_titles w) ≡ false
unknown t known w new h = elim (Bool-cases (has_title t (known_titles w))) [
  | inl e ↦ let k = h t e in cc
  | inr e ↦ e
]

finish-Apart :
    (storage : Storage) (owner now : ℕ) (p : Parsed) (known : List (List ℕ)) (w : World)
    → has_title p.title known ≡ false
    → Apart known w
    → (pid : ℕ) (checker : Option ℕ) (first : List ℕ) (l : Loop)
    → Apart
        (after_import p known w.next
          (finish_import storage owner now pid checker first p w l)).known
        (after_import p known w.next
          (finish_import storage owner now pid checker first p w l)).world
unfolding entry
finish-Apart storage owner now p known w new apart pid checker first
      (Loop.raised written uploaded next) =
    apart
finish-Apart storage owner now p known w new apart pid checker first
      (Loop.done rows uploaded next) =
    rw (status_of-imported p, known_titles-append w.problems (entry pid owner now rows checker p))
      (
        λ t. covers t p.title (known_titles w) known (apart.0 t),
        distinct-append p.title (known_titles w) apart.1 (unknown p.title known w new apart.0),
      )

attempt-Apart :
    (storage : Storage) (owner now : ℕ) (mode : SpjMode) (p : Parsed) (known : List (List ℕ))
    (w : World)
    → Apart known w
    → Apart
        (attempt storage owner now mode p known w).known
        (attempt storage owner now mode p known w).world
unfolding attempt
attempt-Apart storage owner now mode p known w apart = elim (Bool-cases (has_title p.title known)) [
  | inl e ↦ rw e apart
  | inr e ↦ rw e (elim (Bool-cases (skips_spj mode p)) [
    | inl s ↦ rw s apart
    | inr s ↦ rw s (
        import_one_by storage owner now p w
          (λ r. Apart (after_import p known w.next r).known (after_import p known w.next r).world)
          (λ pid checker first l facts.
            finish-Apart storage owner now p known w e apart pid checker first l))
  ])
]

batch-Apart :
    (storage : Storage) (owner now : ℕ) (mode : SpjMode) (limit : ℕ) (items : List Parsed)
    (known : List (List ℕ)) (w : World)
    → Apart known w
    → distinct
        (known_titles (import_parsed_problems storage owner now mode limit items known w).world)
      ≡ true
unfolding import_parsed_problems
batch-Apart storage owner now mode zero [] known w apart = apart.1
batch-Apart storage owner now mode (suc left) [] known w apart = apart.1
batch-Apart storage owner now mode zero (p ∷ ps) known w apart = apart.1
batch-Apart storage owner now mode (suc left) (p ∷ ps) known w apart =
    batch-Apart storage owner now mode left ps (attempt storage owner now mode p known w).known
      (attempt storage owner now mode p known w).world
      (attempt-Apart storage owner now mode p known w apart)

-- Where no two problems have the same title, a batch that is imported with their titles as the known ones leaves
-- no two problems with the same title, whatever its own titles are and whatever the object store does.
pub distinct-import_parsed_problems :
    (storage : Storage) (owner now : ℕ) (mode : SpjMode) (limit : ℕ) (items : List Parsed)
    (w : World)
    → distinct (known_titles w) ≡ true
    → distinct (
        known_titles
          (import_parsed_problems storage owner now mode limit items (known_titles w) w).world)
      ≡ true
distinct-import_parsed_problems storage owner now mode limit items w h =
    batch-Apart storage owner now mode limit items (known_titles w) w (λ t e. e, h)
