-- ===== src/Contest/Edit/Letters.antt =====
-- The letters of a contest's problems (`_letter`) tell the problems apart.
use pigeon_oj.Base.{
  ℕ, zero, suc, ◌+◌, ◌-◌, ◌*◌, ◌/◌, ◌%◌, ◌≤◌, ◌≡◌, refl, sym, ap, ◌∙◌, List, [], ◌∷◌, ◌++◌, arith,
  ltb, leb, Bool-cases, inl, inr, ltb→lt,
}
use pigeon_oj.Contest.Edit.{digits, str, letter}

-- the number that a decimal numeral names, from the digits read so far
unfoldable pub value : ℕ → List ℕ → ℕ
value acc [] = acc
value acc (d ∷ ds) = value (acc * 10 + (d - 48)) ds

value-append : (acc d : ℕ) (ds : List ℕ) → value acc (ds ++ d ∷ []) ≡ value acc ds * 10 + (d - 48)
unfolding value
value-append acc d [] = refl
value-append acc d (x ∷ xs) = value-append (acc * 10 + (x - 48)) d xs

pub value-digits : (fuel n : ℕ) → n ≤ fuel → value 0 (digits fuel n) ≡ n
unfolding value digits
value-digits zero n h = omega arith
value-digits (suc fuel) n h = elim (Bool-cases (ltb n 10)) [
  | inl e ↦ rw e (omega (arith, ltb→lt n 10 e))
  | inr e ↦
      rw
        (
          e,
          value-append 0 (48 + n % 10) (digits fuel (n / 10)),
          value-digits fuel (n / 10) (ground (arith, h, e)),
        )
        (omega arith)
]

index_of : List ℕ → ℕ
index_of [] = 0
index_of (l ∷ ds) = (l - 65) + 26 * value 0 ds

index_of-letter : (i : ℕ) → index_of (letter i) ≡ i
unfolding index_of letter str
index_of-letter i = elim (Bool-cases (leb 26 i)) [
  | inl e ↦ rw (e, value-digits (i / 26) (i / 26) (omega arith)) (omega arith)
  | inr e ↦ rw e (unfold value in ground (arith, e))
]

-- Two problems of a contest with the same letter have the same index: the letter, with the number that
-- follows it from the 27th problem on, determines the index.
pub letter-injective : (i j : ℕ) → letter i ≡ letter j → i ≡ j
letter-injective i j h = sym (index_of-letter i) ∙ ap index_of h ∙ index_of-letter j

-- a number that is written names itself
pub value-str : (n : ℕ) → value 0 (str n) ≡ n
unfolding value str digits
value-str n = value-digits n n (omega arith)
