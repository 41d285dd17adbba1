-- ===== src/Import/Objects.antt =====
-- The objects that are in the store after an import, and after a batch.
use pigeon_oj.Base.{
  append_assoc, ℕ, ◌+◌, ◌≤◌, ◌<◌, ◌≡◌, refl, sym, ap, ◌∙◌, ◌⊎◌, true, false, not, ◌||◌, Option,
  List, [], ◌∷◌, ◌++◌, filter-append, elem, All, All-map, All-append, arith, ◌==◌, Bool-cases, inl,
  inr,
}
use pigeon_oj.Import.{Parsed}
use pigeon_oj.Import.Cases.{Storage, Loop}
use pigeon_oj.Import.Entering.{
  World, Status, without_pictures, delete_all, finish_import, import_one,
}
use pigeon_oj.Import.Batches.{is_imported}
use pigeon_oj.Import.Titles.{status_of-imported}
use pigeon_oj.Import.Stores.{Between, Noted, Facts, import_one_by}

-- a key below an interval is not in it
elem-below : (n m k : ℕ) (keys : List ℕ) → Between n m keys → k < n → elem k keys ≡ false
unfolding Between
elem-below n m k [] h b = refl
elem-below n m k (x ∷ xs) h b = ground (arith, h.0, b, elem-below n m k xs h.1 b)

-- deleting new keys leaves the older objects
pub delete_all-older :
    (storage : Storage) (n m : ℕ) (keys objects : List ℕ)
    → Between n m keys
    → All (λ k. k < n) objects
    → delete_all storage keys objects ≡ objects
unfolding delete_all
delete_all-older storage n m keys [] h b = refl
delete_all-older storage n m keys (o ∷ os) h b =
    rw (elem-below n m o keys h b.0) (ap (λ l. o ∷ l) (delete_all-older storage n m keys os h b.1))

-- deleting succeeds
delete_all-in :
    (storage : Storage) (keys objects : List ℕ)
    → ((k : ℕ) → storage.delete_raises k ≡ false)
    → All (λ k. elem k keys ≡ true) objects
    → delete_all storage keys objects ≡ []
unfolding delete_all
delete_all-in storage keys [] d h = refl
delete_all-in storage keys (o ∷ os) d h = rw (h.0, d o) (delete_all-in storage keys os d h.1)

pub delete_all-append :
    (storage : Storage) (keys xs ys : List ℕ)
    → delete_all storage keys (xs ++ ys) ≡ delete_all storage keys xs ++ delete_all storage keys ys
unfolding delete_all
delete_all-append storage keys xs ys =
    filter-append (λ k. not (elem k keys) || storage.delete_raises k) xs ys

pub elem-head : (xs ys : List ℕ) (k : ℕ) → elem k xs ≡ true → elem k (xs ++ ys) ≡ true
elem-head [] ys k h = cc
elem-head (x ∷ xs) ys k h = elim (Bool-cases (k == x)) [
  | inl e ↦ ground (arith, e)
  | inr e ↦ ground (arith, e, elem-head xs ys k (ground (arith, h, e)))
]

pub elem-tail : (xs ys : List ℕ) (k : ℕ) → elem k ys ≡ true → elem k (xs ++ ys) ≡ true
elem-tail [] ys k h = h
elem-tail (x ∷ xs) ys k h = ground (arith, elem-tail xs ys k h)

elem-All : (xs : List ℕ) → All (λ k. elem k xs ≡ true) xs
elem-All [] = tt
elem-All (x ∷ xs) = (ground arith, All-map (λ k h. ground (arith, h)) xs (elem-All xs))

-- a single object is kept or not
delete_all-one :
    (storage : Storage) (keys : List ℕ) (k : ℕ)
    → (delete_all storage keys (k ∷ []) ≡ []) ⊎ (delete_all storage keys (k ∷ []) ≡ k ∷ [])
unfolding delete_all
delete_all-one storage keys k = elim (Bool-cases (not (elem k keys) || storage.delete_raises k)) [
  | inl e ↦ inr (rw e refl)
  | inr e ↦ inl (rw e refl)
]

-- what a failed import leaves in the store, by what it left before
abbrev pub LeavesOne : Storage → List ℕ → List ℕ → Type 0
LeavesOne storage before after =
    (after ≡ before)
    ⊎ ((k : ℕ) × (storage.put_raises k ≡ false)
        × (storage.put_raises (k + 1) ≡ true)
        × (after ≡ k ∷ before))

delete_written :
    (storage : Storage) (first written uploaded objects : List ℕ)
    → ((k : ℕ) → storage.delete_raises k ≡ false)
    → delete_all storage (first ++ uploaded) objects ≡ objects
    → Noted storage written uploaded
    → LeavesOne storage objects
        (delete_all storage (first ++ uploaded) ((first ++ written) ++ objects))
delete_written storage first written uploaded objects d old (inl same) = inl (
    delete_all-append storage (first ++ uploaded) (first ++ written) objects
    ∙ (ap (λ l. l ++ delete_all storage (first ++ uploaded) objects)
          (ap (λ l. delete_all storage (first ++ uploaded) (first ++ l)) same
            ∙ delete_all-in storage (first ++ uploaded) (first ++ uploaded) d
                (elem-All (first ++ uploaded)))
        ∙ old))
delete_written storage first written uploaded objects d old (inr left) =
    let cleared : delete_all storage (first ++ uploaded) (first ++ written)
        ≡ delete_all storage (first ++ uploaded) (left.0 ∷ []) =
      ap (λ l. delete_all storage (first ++ uploaded) (first ++ l)) left.3
      ∙ (ap (delete_all storage (first ++ uploaded))
            (sym (append_assoc first uploaded (left.0 ∷ [])))
          ∙ (delete_all-append storage (first ++ uploaded) (first ++ uploaded) (left.0 ∷ [])
              ∙ ap (λ l. l ++ delete_all storage (first ++ uploaded) (left.0 ∷ []))
                  (delete_all-in storage (first ++ uploaded) (first ++ uploaded) d
                    (elem-All (first ++ uploaded))))) in
    let all : delete_all storage (first ++ uploaded) ((first ++ written) ++ objects)
        ≡ delete_all storage (first ++ uploaded) (left.0 ∷ []) ++ objects =
      delete_all-append storage (first ++ uploaded) (first ++ written) objects
      ∙ (ap (λ l. l ++ delete_all storage (first ++ uploaded) objects) cleared
          ∙ ap (λ l. delete_all storage (first ++ uploaded) (left.0 ∷ []) ++ l) old) in
    elim (delete_all-one storage (first ++ uploaded) left.0) [
      | inl e ↦ inl (all ∙ ap (λ l. l ++ objects) e)
      | inr e ↦ inr (left.0, left.1, left.2, all ∙ ap (λ l. l ++ objects) e)
    ]

-- the failed imports
abbrev pub FailsCleanly : Storage → World → (_ : World) × Status → Type 0
FailsCleanly storage w r =
    is_imported r.1 ≡ false
    → (_ : r.0.problems ≡ w.problems) × LeavesOne storage w.objects r.0.objects

pub Between-append :
    (n m m' : ℕ) (xs ys : List ℕ)
    → Between n m xs
    → m ≤ m'
    → Between n m' ys
    → Between n m' (xs ++ ys)
unfolding Between
Between-append n m m' xs ys h b k =
    All-append (λ x. (_ : n ≤ x) × (x < m')) xs ys
      (All-map (λ x i. (i.0, omega (arith, i.1, b))) xs h) k

pub Between-from : (n n' m : ℕ) (ks : List ℕ) → n ≤ n' → Between n' m ks → Between n m ks
unfolding Between
Between-from n n' m ks b h = All-map (λ k i. (omega (arith, b, i.0), i.1)) ks h

-- the keys of an import are new
pub new_keys :
    (storage : Storage) (w : World) (first : List ℕ) {next : ℕ} (uploaded : List ℕ)
    → (n : ℕ) × (w.next ≤ n) × Between w.next n first × (n ≤ next) × Between n next uploaded
    → Between w.next next (first ++ uploaded)
new_keys storage w first {next} uploaded h =
    Between-append w.next h.0 next first uploaded h.2 h.3
      (Between-from w.next h.0 next uploaded h.1 h.4)

finish-FailsCleanly :
    (storage : Storage) (owner now : ℕ) (p : Parsed) (w : World)
    → ((k : ℕ) → storage.delete_raises k ≡ false)
    → All (λ k. k < w.next) w.objects
    → (pid : ℕ) (checker : Option ℕ) (first : List ℕ) (l : Loop) → Facts storage p w checker first l
    → FailsCleanly storage w (finish_import storage owner now pid checker first p w l)
finish-FailsCleanly storage owner now p w d old pid checker first (Loop.done rows uploaded next)
      facts fails =
    let h = status_of-imported p in cc
finish-FailsCleanly storage owner now p w d old pid checker first
      (Loop.raised written uploaded next) facts fails =
    (
      refl,
      delete_written storage first written uploaded w.objects d
          (delete_all-older storage w.next next (first ++ uploaded) w.objects
            (new_keys storage w first uploaded (facts.0, facts.1, facts.2, facts.3.0, facts.3.1))
            old)
          facts.3.3,
    )

-- An import of a problem whose texts hold no inlined picture, where the objects of the store have older keys than the
-- next one and objects can be deleted: if it raises an exception, it leaves the problems as they were, and the store
-- too, or with a single object more, one that could be stored where the object with the next key could not.
pub import_one-rolls_back :
    (storage : Storage) (owner now : ℕ) (p : Parsed) (w : World)
    → without_pictures p ≡ true
    → ((k : ℕ) → storage.delete_raises k ≡ false)
    → All (λ k. k < w.next) w.objects
    → is_imported (import_one storage owner now p w).1 ≡ false
    → (_ : (import_one storage owner now p w).0.problems ≡ w.problems) × LeavesOne storage w.objects
        (import_one storage owner now p w).0.objects
import_one-rolls_back storage owner now p w plain d old =
    import_one_by storage owner now p w (FailsCleanly storage w)
      (finish-FailsCleanly storage owner now p w d old)
