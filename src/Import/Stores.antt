-- ===== src/Import/Stores.antt =====
-- What an import writes to the object store.
use pigeon_oj.Base.{
  ℕ, suc, ◌+◌, ◌≤◌, ◌<◌, ◌≡◌, refl, ap, ◌⊎◌, true, false, Option, none, some, List, [], ◌∷◌, ◌++◌,
  length, elem, All, All-map, arith, Bool-cases, inl, inr,
}
use pigeon_oj.Import.{Pair, Parsed}
use pigeon_oj.Import.Cases.{Storage, CaseRow, Loop, after_case, put_cases}
use pigeon_oj.Import.Entering.{World, Status, has_checker, finish_import, import_one}

-- keys of an interval
unfoldable pub Between : ℕ → ℕ → List ℕ → Type 0
Between n m ks = All (λ k. (_ : n ≤ k) × (k < m)) ks

-- a case whose two objects are among these
abbrev pub HasObjects : List ℕ → CaseRow → Type 0
HasObjects keys r =
    (_ : elem r.input_oss_id keys ≡ true) × (elem r.expected_output_oss_id keys ≡ true)

-- What is written is noted for the clean-up, but for the input of a test whose output cannot be stored.
abbrev pub Noted : Storage → List ℕ → List ℕ → Type 0
Noted storage written uploaded =
    (written ≡ uploaded)
    ⊎ ((k : ℕ) × (storage.put_raises k ≡ false)
        × (storage.put_raises (k + 1) ≡ true)
        × (written ≡ uploaded ++ k ∷ []))

-- what the loop over some tests has done, from a first key
abbrev pub Sound : Storage → ℕ → ℕ → Loop → Type 0
Sound storage n count (Loop.done rows uploaded next) =
    (_ : n ≤ next) × Between n next uploaded
    × All (HasObjects uploaded) rows
    × (length rows ≡ count)
Sound storage n count (Loop.raised written uploaded next) =
    (_ : n ≤ next) × Between n next uploaded
    × Between n next written
    × Noted storage written uploaded

Between-wider : (n m : ℕ) (ks : List ℕ) → Between (n + 3) m ks → Between n m ks
unfolding Between
Between-wider n m ks h = All-map (λ k b. (omega (arith, b.0), b.1)) ks h

HasObjects-more :
    (n : ℕ) (keys : List ℕ) (rows : List CaseRow)
    → All (HasObjects keys) rows
    → All (HasObjects (n ∷ (n + 1) ∷ keys)) rows
HasObjects-more n keys rows h = All-map (λ r b. (ground (arith, b.0), ground (arith, b.1))) rows h

Noted-more :
    (storage : Storage) (n : ℕ) (written uploaded : List ℕ)
    → Noted storage written uploaded
    → Noted storage (n ∷ (n + 1) ∷ written) (n ∷ (n + 1) ∷ uploaded)
Noted-more storage n written uploaded (inl h) = inl (ap (λ l. n ∷ (n + 1) ∷ l) h)
Noted-more storage n written uploaded (inr h) = inr (h.0, h.1, h.2, ap (λ l. n ∷ (n + 1) ∷ l) h.3)

after_case-Sound :
    (storage : Storage) (n count : ℕ) (row : CaseRow) (l : Loop)
    → row.input_oss_id ≡ n
    → row.expected_output_oss_id ≡ n + 1
    → Sound storage (n + 3) count l
    → Sound storage n (suc count) (after_case row (n ∷ (n + 1) ∷ []) l)
unfolding Between
after_case-Sound storage n count row (Loop.done rows uploaded next) i o h = (
  omega (arith, h.0),
  (
    (omega arith, omega (arith, h.0)),
    ((omega arith, omega (arith, h.0)), Between-wider n next uploaded h.1),
  ),
  ((ground (arith, i), ground (arith, o)), HasObjects-more n uploaded rows h.2),
  ap suc h.3,
)
after_case-Sound storage n count row (Loop.raised written uploaded next) i o h = (
  omega (arith, h.0),
  (
    (omega arith, omega (arith, h.0)),
    ((omega arith, omega (arith, h.0)), Between-wider n next uploaded h.1),
  ),
  (
    (omega arith, omega (arith, h.0)),
    ((omega arith, omega (arith, h.0)), Between-wider n next written h.2),
  ),
  Noted-more storage n written uploaded h.3,
)

put_cases-Sound :
    (storage : Storage) (pid n index : ℕ) (cs : List Pair)
    → Sound storage n (length cs) (put_cases storage pid n index cs)
unfolding put_cases Between
put_cases-Sound storage pid n index [] = (omega arith, tt, tt, refl)
put_cases-Sound storage pid n index (c ∷ cs) = elim (Bool-cases (storage.put_raises n)) [
  | inl e ↦ rw e (omega arith, tt, tt, inl refl)
  | inr e ↦ rw e (elim (Bool-cases (storage.put_raises (n + 1))) [
    | inl r ↦ rw r (omega arith, tt, ((omega arith, omega arith), tt), inr (n, e, r, refl))
    | inr r ↦ rw r (
        after_case-Sound storage n _ _ _ refl refl
          (put_cases-Sound storage pid (n + 3) (index + 1) cs))
  ])
]

-- what is known at the end of an import
abbrev pub Facts : Storage → Parsed → World → Option ℕ → List ℕ → Loop → Type 0
Facts storage p w checker first l =
    (n : ℕ) × (w.next ≤ n)
    × Between w.next n first
    × Sound storage n (length p.tests) l
    × (has_checker p ≡ false → checker ≡ none)

-- What holds of every end of an import, given what its loop has done, holds of an import.
pub import_one_by :
    (storage : Storage) (owner now : ℕ) (p : Parsed) (w : World) (P : (_ : World) × Status → Type 0)
    → ((pid : ℕ) (checker : Option ℕ) (first : List ℕ) (l : Loop)
        → Facts storage p w checker first l
        → P (finish_import storage owner now pid checker first p w l))
    → P (import_one storage owner now p w)
unfolding import_one Between
import_one_by storage owner now p w P h = elim (Bool-cases (has_checker p)) [
  | inl e ↦ rw e (elim (Bool-cases (storage.put_raises (w.next + 1))) [
    | inl r ↦ rw r (
        h w.next none [] (Loop.raised [] [] (w.next + 2))
          (w.next + 2, omega arith, tt, (omega arith, tt, tt, inl refl), λ h. refl))
    | inr r ↦ rw r (
        h w.next (some (w.next + 1)) ((w.next + 1) ∷ [])
          (put_cases storage w.next (w.next + 2) 0 p.tests)
          (
            w.next + 2,
            omega arith,
            ((omega arith, omega arith), tt),
            put_cases-Sound storage w.next (w.next + 2) 0 p.tests,
            λ h. cc,
          ))
  ])
  | inr e ↦ rw e (
      h w.next none [] (put_cases storage w.next (w.next + 1) 0 p.tests) (
        w.next + 1,
        omega arith,
        tt,
        put_cases-Sound storage w.next (w.next + 1) 0 p.tests,
        λ h. refl,
      ))
]
