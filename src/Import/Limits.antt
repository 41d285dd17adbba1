-- ===== src/Import/Limits.antt =====
-- The limits and the difficulty of an item that has been written, as they are read.
use pigeon_oj.Base.{ℕ, ◌^◌, ◌<◌, ◌≡◌, refl, ap, ◌∙◌, Option, none, some, List, head?}
use pigeon_oj.Base.Integers.{pos}
use pigeon_oj.Contest.Edit.{str}
use pigeon_oj.Import.{text, Tag}
use pigeon_oj.Import.Texts.{strip_left, strip_right, strip, same_text, lower, or_text}
use pigeon_oj.Import.Reading.{
  Whole, Floats, clamp, clamp_whole, text_of, find_tag, or_zero, number_of, parse_time,
  parse_memory, parse_difficulty, difficulty_of, difficulty_from,
}
use pigeon_oj.Import.Writing.{ExportItem, difficulty_elements, build_item}
use pigeon_oj.Import.Numerals.{strip-str, or_text-str}
use pigeon_oj.Import.Fields.{find_difficulty}

-- whole numbers that are written out are read and rounded exactly
unfoldable pub Exact : Floats → Type 0
unfolding str
Exact floats =
    (n : ℕ)
    → n < 2 ^ 53
    → (x : floats.Float) × (floats.parse (str n) ≡ some x)
      × ((floats.round_int x ≡ Whole.whole (pos n)) × (floats.trunc_int x ≡ Whole.whole (pos n)))

abbrev pub number : Option ℕ → ℕ
number none = 0
number (some n) = n

-- the numbers
number_of-parse :
    (floats : Floats) (s : List ℕ) {x : floats.Float}
    → floats.parse (or_text s (text "0")) ≡ some x
    → number_of floats s ≡ x
unfolding number_of
number_of-parse floats s h = ap (or_zero floats) h

number_of-str :
    (floats : Floats) (n : ℕ) {x : floats.Float}
    → floats.parse (str n) ≡ some x
    → number_of floats (strip (str n)) ≡ x
number_of-str floats n h =
    ap (number_of floats) (strip-str n)
    ∙ number_of-parse floats (str n) (ap floats.parse (or_text-str n (text "0")) ∙ h)

pub read_time :
    (floats : Floats) (it : ExportItem)
    → Exact floats
    → it.time_limit_ms < 2 ^ 53
    → parse_time floats (find_tag Tag.time_limit (build_item it))
      ≡ some (clamp 3600000 (pos it.time_limit_ms))
unfolding Exact find_tag build_item parse_time text_of same_text lower strip strip_left strip_right
read_time floats it exact h =
    let e = exact it.time_limit_ms h in
    ap (λ x. clamp_whole 3600000 (floats.round_int x)) (number_of-str floats it.time_limit_ms e.1)
    ∙ ap (clamp_whole 3600000) e.2.0

pub read_memory :
    (floats : Floats) (it : ExportItem)
    → Exact floats
    → it.memory_limit_mb < 2 ^ 53
    → parse_memory floats (find_tag Tag.memory_limit (build_item it))
      ≡ some (clamp 4096 (pos it.memory_limit_mb))
unfolding Exact find_tag build_item parse_memory text_of same_text lower strip strip_left
    strip_right
read_memory floats it exact h =
    let e = exact it.memory_limit_mb h in
    ap (λ x. clamp_whole 4096 (floats.round_int x)) (number_of-str floats it.memory_limit_mb e.1)
    ∙ ap (clamp_whole 4096) e.2.0

read_number :
    (floats : Floats) (d : Option ℕ)
    → Exact floats
    → number d < 2 ^ 53
    → parse_difficulty floats (head? (difficulty_elements d)) ≡ some d
unfolding Exact parse_difficulty text_of
read_number floats none exact h = refl
read_number floats (some n) exact h =
    let e = exact n h in
    ap (λ s. difficulty_from floats (floats.parse (or_text s (text "0")))) (strip-str n)
    ∙ (ap (λ s. difficulty_from floats (floats.parse s)) (or_text-str n (text "0"))
        ∙ (ap (difficulty_from floats) e.1 ∙ ap (difficulty_of floats) e.2.1))

pub read_difficulty :
    (floats : Floats) (it : ExportItem)
    → Exact floats
    → number it.difficulty < 2 ^ 53
    → parse_difficulty floats (find_tag Tag.difficulty (build_item it)) ≡ some it.difficulty
read_difficulty floats it exact h =
    ap (parse_difficulty floats) (find_difficulty it) ∙ read_number floats it.difficulty exact h
