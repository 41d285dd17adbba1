-- ===== src/Base/Sorting.antt =====
-- Python's stable `list.sort` by a strict test on keys, as an insertion sort.
use mathlib.Core.Path.{◌≡◌, refl, sym, ap, subst, ◌∙◌}
use mathlib.Core.Bool.{Bool, true, false}
use mathlib.Core.List.{List, [], ◌∷◌, Perm, Permᴰ}
use mathlib.Core.List.Perm
use mathlib.Core.Logic.{◌⊎◌, inl, inr}
use pigeon_oj.Base.Tests.{if◌then◌else◌, Bool-cases}
use pigeon_oj.Base.Lists.{All, Pairs, All-map}

-- What holds of every element holds of every element in any other order.
pub All-Permᴰ {ℓ κ} :
    {A : Type ℓ} (P : A → Type κ) {xs ys : List A} → Permᴰ xs ys → All P xs → All P ys
All-Permᴰ P Permᴰ.nil h = tt
All-Permᴰ P (Permᴰ.cons e d) h = (subst P e h.0, All-Permᴰ P d h.1)
All-Permᴰ P (Permᴰ.swap e f) h = (subst P f h.1.0, (subst P e h.0, h.1.1))
All-Permᴰ P (Permᴰ.trans d e) h = All-Permᴰ P e (All-Permᴰ P d h)

module _ {ℓ} {A : Type ℓ} (lt : A → A → Bool) where
  -- `x` stood before the elements of the list: it stays before those whose key is equal.
  unfoldable pub insert_sorted : A → List A → List A
  insert_sorted x [] = x ∷ []
  insert_sorted x (y ∷ ys) = if lt y x then y ∷ insert_sorted x ys else x ∷ y ∷ ys

  unfoldable pub sort_by : List A → List A
  unfolding insert_sorted
  sort_by [] = []
  sort_by (x ∷ xs) = insert_sorted x (sort_by xs)

  -- `x` may stand before `y`
  abbrev pub NotAfter : A → A → Type 0
  NotAfter x y = lt y x ≡ false

  pub insert_sorted-perm : (x : A) (ys : List A) → Perm (insert_sorted x ys) (x ∷ ys)
  unfolding insert_sorted
  insert_sorted-perm x [] = Perm.refl (x ∷ [])
  insert_sorted-perm x (y ∷ ys) = elim (Bool-cases (lt y x)) [
    | inl e ↦ rw e (Perm.trans (Perm.cons y (insert_sorted-perm x ys)) (Perm.swap x y ys))
    | inr e ↦ rw e (Perm.refl (x ∷ y ∷ ys))
  ]

  -- A stable sort loses and adds nothing.
  pub sort_by-perm : (xs : List A) → Perm (sort_by xs) xs
  unfolding sort_by
  sort_by-perm [] = Perm.refl []
  sort_by-perm (x ∷ xs) =
      Perm.trans (insert_sorted-perm x (sort_by xs)) (Perm.cons x (sort_by-perm xs))

  -- Sorting a sorted list changes nothing.
  pub sort_by-id : (xs : List A) → Pairs NotAfter xs → sort_by xs ≡ xs
  unfolding sort_by
  sort_by-id [] h = refl
  sort_by-id (x ∷ []) h = refl
  sort_by-id (x ∷ y ∷ ys) h = rw (sort_by-id (y ∷ ys) h.1, h.0.0)

  All-insert_sorted {κ} :
      (P : A → Type κ) (x : A) (ys : List A) → P x → All P ys → All P (insert_sorted x ys)
  unfolding insert_sorted
  All-insert_sorted P x [] px h = (px, tt)
  All-insert_sorted P x (y ∷ ys) px h = elim (Bool-cases (lt y x)) [
    | inl e ↦ rw e (h.0, All-insert_sorted P x ys px h.1)
    | inr e ↦ rw e (px, h)
  ]

  pub All-sort_by {κ} : (P : A → Type κ) (xs : List A) → All P xs → All P (sort_by xs)
  unfolding sort_by
  All-sort_by P [] h = tt
  All-sort_by P (x ∷ xs) h = All-insert_sorted P x (sort_by xs) h.0 (All-sort_by P xs h.1)

  module _ (asym : (x y : A) → lt x y ≡ true → lt y x ≡ false)
      (trans : (x y z : A) → lt y x ≡ false → lt z y ≡ false → lt z x ≡ false) where
    insert_sorted-Pairs :
        (x : A) (ys : List A) → Pairs NotAfter ys → Pairs NotAfter (insert_sorted x ys)
    unfolding insert_sorted
    insert_sorted-Pairs x [] h = (tt, tt)
    insert_sorted-Pairs x (y ∷ ys) h = elim (Bool-cases (lt y x)) [
      | inl e ↦
          rw e (All-insert_sorted (NotAfter y) x ys (asym y x e) h.0, insert_sorted-Pairs x ys h.1)
      | inr e ↦ rw e ((e, All-map (λ z hz. trans x y z e hz) ys h.0), h)
    ]

    -- By an asymmetric test whose negation is transitive, the result is in order.
    pub sort_by-Pairs : (xs : List A) → Pairs NotAfter (sort_by xs)
    unfolding sort_by
    sort_by-Pairs [] = tt
    sort_by-Pairs (x ∷ xs) = insert_sorted-Pairs x (sort_by xs) (sort_by-Pairs xs)

    insert_past :
        (x z : A) (zs : List A) → lt z x ≡ true → insert_sorted x (z ∷ zs) ≡ z ∷ insert_sorted x zs
    unfolding insert_sorted
    insert_past x z zs e = rw e refl

    insert_sorted-insert_sorted :
        (x y : A) (zs : List A)
        → lt x y ≡ true
        → insert_sorted x (insert_sorted y zs) ≡ insert_sorted y (insert_sorted x zs)
    unfolding insert_sorted
    insert_sorted-insert_sorted x y [] h = rw (h, asym x y h) refl
    insert_sorted-insert_sorted x y (z ∷ zs) h = elim (Bool-cases (lt z x)) [
      | inl e ↦ elim (Bool-cases (lt z y)) [
        | inl f ↦
            ap (insert_sorted x) (insert_past y z zs f)
            ∙ (insert_past x z (insert_sorted y zs) e
                ∙ (ap (λ l. z ∷ l) (insert_sorted-insert_sorted x y zs h)
                    ∙ (sym (insert_past y z (insert_sorted x zs) f)
                        ∙ sym (ap (insert_sorted y) (insert_past x z zs e)))))
        | inr f ↦ cc (trans y z x f (asym z x e))
      ]
      | inr e ↦ elim (Bool-cases (lt z y)) [
        | inl f ↦ rw (e, f, e, h) refl
        | inr f ↦ rw (e, f, asym x y h, h) refl
      ]
    ]

    -- two elements are the same, or one stands before the other
    abbrev pub Apart : A → A → Type ℓ
    Apart x y = (x ≡ y) ⊎ ((lt x y ≡ true) ⊎ (lt y x ≡ true))

    insert_sorted_comm :
        (x y : A) (zs : List A)
        → Apart x y
        → insert_sorted x (insert_sorted y zs) ≡ insert_sorted y (insert_sorted x zs)
    insert_sorted_comm x y zs (inl e) = rw e refl
    insert_sorted_comm x y zs (inr (inl h)) = insert_sorted-insert_sorted x y zs h
    insert_sorted_comm x y zs (inr (inr h)) = sym (insert_sorted-insert_sorted y x zs h)

    module _ {κ} (P : A → Type κ) (apart : (x y : A) → P x → P y → Apart x y) where
      -- Where all differ by the test, the order before the sort does not matter.
      pub sort_by-Permᴰ : {xs ys : List A} → Permᴰ xs ys → All P xs → sort_by xs ≡ sort_by ys
      unfolding sort_by
      sort_by-Permᴰ Permᴰ.nil h = refl
      sort_by-Permᴰ (Permᴰ.cons {a} {b} {l₁} {l₂} e d) h =
          ap (λ x. insert_sorted x (sort_by l₁)) e ∙ ap (insert_sorted b) (sort_by-Permᴰ d h.1)
      sort_by-Permᴰ (Permᴰ.swap {a} {b} {a'} {b'} {l} e f) h =
          insert_sorted_comm a b (sort_by l) (apart a b h.0 h.1.0)
          ∙ (ap (λ x. insert_sorted x (insert_sorted a (sort_by l))) f
              ∙ ap (λ x. insert_sorted a' (insert_sorted x (sort_by l))) e)
      sort_by-Permᴰ (Permᴰ.trans d e) h = sort_by-Permᴰ d h ∙ sort_by-Permᴰ e (All-Permᴰ P d h)
