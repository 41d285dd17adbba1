-- ===== src/Import/Numerals.antt =====
-- A number that is written is read as it stands: its digits hold no space.
use pigeon_oj.Base.{
  ℕ, zero, suc, ◌+◌, ◌/◌, ◌%◌, ◌≤◌, ◌≡◌, refl, false, List, [], ◌∷◌, ◌++◌, All, All-append, arith,
  ltb, Bool-cases, inl, inr, ltb→lt,
}
use pigeon_oj.Contest.Edit.{str, digits}
use pigeon_oj.Import.Texts.{is_space, strip_left, strip_right, strip, or_text}

abbrev NoSpaces : List ℕ → Type 0
NoSpaces s = All (λ c. is_space c ≡ false) s

digit-not_space : (d : ℕ) → d ≤ 9 → is_space (48 + d) ≡ false
digit-not_space d h = ground (arith, h)

digits-NoSpaces : (fuel n : ℕ) → NoSpaces (digits fuel n)
unfolding digits
digits-NoSpaces zero n = (digit-not_space (n % 10) (omega arith), tt)
digits-NoSpaces (suc fuel) n = elim (Bool-cases (ltb n 10)) [
  | inl e ↦ rw e (digit-not_space n (omega (arith, ltb→lt n 10 e)), tt)
  | inr e ↦ rw e (
      All-append (λ c. is_space c ≡ false) (digits fuel (n / 10)) _ (digits-NoSpaces fuel (n / 10))
        (digit-not_space (n % 10) (omega arith), tt))
]

strip_right-NoSpaces : (s : List ℕ) → NoSpaces s → strip_right s ≡ s
unfolding strip_right
strip_right-NoSpaces [] h = refl
strip_right-NoSpaces (c ∷ cs) h = rw (h.0, strip_right-NoSpaces cs h.1) refl

strip-NoSpaces : (s : List ℕ) → NoSpaces s → strip s ≡ s
unfolding strip strip_left
strip-NoSpaces [] h = strip_right-NoSpaces [] h
strip-NoSpaces (c ∷ cs) h = rw h.0 (strip_right-NoSpaces (c ∷ cs) h)

pub strip-str : (n : ℕ) → strip (str n) ≡ str n
unfolding str
strip-str n = strip-NoSpaces (digits n n) (digits-NoSpaces n n)

or_text-append : (s t : List ℕ) (c : ℕ) → or_text (s ++ c ∷ []) t ≡ s ++ c ∷ []
or_text-append [] t c = refl
or_text-append (d ∷ ds) t c = refl

pub or_text-str : (n : ℕ) (t : List ℕ) → or_text (str n) t ≡ str n
unfolding str digits
or_text-str zero t = refl
or_text-str (suc n) t = elim (Bool-cases (ltb (suc n) 10)) [
  | inl e ↦ rw e refl
  | inr e ↦ rw e (or_text-append (digits n (suc n / 10)) t (48 + suc n % 10))
]
