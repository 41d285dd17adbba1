-- ===== src/Import/Reading.antt =====
-- From the elements of an item to a problem: `parse_item` and what it calls. `none` is an exception that is
-- not caught.
use pigeon_oj.Base.{
  ℕ, ◌*◌, max, min, Bool, not, ◌&&◌, ◌||◌, Option, none, some, List, [], ◌∷◌, map, filter, find?,
  is_some, take, ltb, leb, if◌then◌else◌,
}
use pigeon_oj.Base.Integers.{ℤ, pos, negsuc}
use pigeon_oj.Import.{text, Tag, same_tag, Element, Pair, Solution, Parsed}
use pigeon_oj.Import.Texts.{is_empty, strip, utf8_length, same_text, lower, or_text}

-- `int(x)` and `int(round(x))` give a whole number, or raise for what is no number or has no bound
pub data Whole : Type 0 where
  whole : ℤ → Whole
  no_number no_bound : Whole

-- Python's floats, as far as they are used
pub record Floats : Type 1 where
  pub Float : Type 0
  pub zero_float : Float
  pub parse : List ℕ → Option Float
  pub times_1000 : Float → Float
  pub times_1024 : Float → Float
  pub div_1024 : Float → Float
  pub round_int : Float → Whole
  pub trunc_int : Float → Whole

abbrev pub max_case_bytes : ℕ
max_case_bytes = 8 * 1024 * 1024

abbrev pub max_sample_bytes : ℕ
max_sample_bytes = 64 * 1024

-- text_of
unfoldable pub text_of : Option Element → List ℕ
unfolding strip
text_of none = []
text_of (some e) = strip e.content

-- `item.find(tag)`, `item.findall(tag)`
unfoldable pub find_tag : Tag → List Element → Option Element
find_tag t es = find? (λ e. same_tag t e.tag) es

unfoldable pub find_all : Tag → List Element → List Element
find_all t es = filter (λ e. same_tag t e.tag) es

-- `max(1, min(value, bound))`
unfoldable pub clamp : ℕ → ℤ → ℕ
clamp bound (pos n) = max 1 (min n bound)
clamp bound (negsuc n) = 1

abbrev pub clamp_whole : ℕ → Whole → Option ℕ
clamp_whole bound (Whole.whole z) = some (clamp bound z)
clamp_whole bound Whole.no_number = none
clamp_whole bound Whole.no_bound = none

module _ (floats : Floats) where
  open floats use {Float, zero_float, parse, times_1000, times_1024, div_1024, round_int, trunc_int}

  -- `except ValueError: value = 0.0`
  abbrev pub or_zero : Option Float → Float
  or_zero none = zero_float
  or_zero (some x) = x

  -- the value of a limit: `float(text or "0")`, or 0 where that is no number
  unfoldable pub number_of : List ℕ → Float
  number_of s = or_zero (parse (or_text s (text "0")))

  abbrev pub unit_of : Element → List ℕ → List ℕ
  unit_of e default = lower (strip (or_text e.unit default))

  -- parse_limits with to_ms
  unfoldable pub parse_time : Option Element → Option ℕ
  unfolding number_of text_of clamp same_text lower
  parse_time none = some 1000
  parse_time (some e) =
      let unit = unit_of e (text "s") in
      let value = number_of (text_of (some e)) in
      let ms =
        if same_text unit (text "s") || same_text unit (text "sec")
        then times_1000 value
        else value in
      clamp_whole 3600000 (round_int ms)

  -- parse_limits without
  unfoldable pub parse_memory : Option Element → Option ℕ
  unfolding number_of text_of clamp same_text lower
  parse_memory none = some 256
  parse_memory (some e) =
      let unit = unit_of e (text "mb") in
      let value = number_of (text_of (some e)) in
      let mb =
        if same_text unit (text "kb") || same_text unit (text "k")
        then div_1024 value
        else if same_text unit (text "gb")
        then times_1024 value
        else value in
      clamp_whole 4096 (round_int mb)

  abbrev pub positive : ℤ → Option ℕ
  positive (pos n) = some n
  positive (negsuc n) = none

  abbrev pub difficulty_of : Whole → Option (Option ℕ)
  difficulty_of (Whole.whole z) = some (positive z)
  difficulty_of Whole.no_number = some none
  difficulty_of Whole.no_bound = none

  abbrev pub difficulty_from : Option Float → Option (Option ℕ)
  difficulty_from none = some none
  difficulty_from (some x) = difficulty_of (trunc_int x)

  -- _parse_difficulty
  unfoldable pub parse_difficulty : Option Element → Option (Option ℕ)
  unfolding text_of
  parse_difficulty none = some none
  parse_difficulty (some e) = difficulty_from (parse (or_text (text_of (some e)) (text "0")))

-- the body of the loop of pair_nodes
unfoldable pub keep_pair : Pair → Bool
unfolding utf8_length
keep_pair p =
    not (is_empty p.input && is_empty p.expected_output)
    && (not (ltb max_case_bytes (utf8_length p.input))
        && not (ltb max_case_bytes (utf8_length p.expected_output)))

abbrev pub pair_of : Element → Element → Pair
pair_of a b = record {
  name = or_text a.name b.name;
  input = text_of (some a);
  expected_output = text_of (some b);
}

-- `zip(inputs, outputs)`
unfoldable pub zip_pairs : List Element → List Element → List Pair
unfolding text_of
zip_pairs [] bs = []
zip_pairs (a ∷ as') [] = []
zip_pairs (a ∷ as') (b ∷ bs) = pair_of a b ∷ zip_pairs as' bs

-- pair_nodes
unfoldable pub pair_nodes : List Element → List Element → List Pair
unfolding keep_pair zip_pairs
pair_nodes inputs outputs = filter keep_pair (zip_pairs inputs outputs)

abbrev pub small_sample : Pair → Bool
small_sample p =
    leb (utf8_length p.input) max_sample_bytes
    && leb (utf8_length p.expected_output) max_sample_bytes

abbrev pub solution_of : Element → Solution
solution_of e = record { language = e.language; code = text_of (some e) }

-- 未命名题目
abbrev pub no_title : List ℕ
no_title = 26410 ∷ 21629 ∷ 21517 ∷ 39064 ∷ 30446 ∷ []

-- parse_item, with the limits and the difficulty that were read
unfoldable pub parsed_with : List Element → ℕ → ℕ → Option ℕ → Parsed
unfolding find_tag find_all text_of pair_nodes utf8_length
parsed_with es time memory difficulty = record {
  title = take 255 (or_text (text_of (find_tag Tag.title es)) no_title);
  time_limit_ms = time;
  memory_limit_mb = memory;
  description = text_of (find_tag Tag.description es);
  input_description = text_of (find_tag Tag.input es);
  output_description = text_of (find_tag Tag.output es);
  hint = text_of (find_tag Tag.hint es);
  source = text_of (find_tag Tag.source es);
  has_spj = is_some (find_tag Tag.spj es);
  spj_code = text_of (find_tag Tag.spj es);
  difficulty = difficulty;
  samples = take 10 (
      filter small_sample
        (pair_nodes (find_all Tag.sample_input es) (find_all Tag.sample_output es)));
  tests = pair_nodes (find_all Tag.test_input es) (find_all Tag.test_output es);
  solutions = map solution_of (find_all Tag.solution es);
}

-- the chain of what may raise
abbrev pub with_numbers : List Element → Option ℕ → Option ℕ → Option (Option ℕ) → Option Parsed
with_numbers es (some time) (some memory) (some difficulty) =
    some (parsed_with es time memory difficulty)
with_numbers es none memory difficulty = none
with_numbers es (some time) none difficulty = none
with_numbers es (some time) (some memory) none = none

-- parse_item
unfoldable pub parse_item : Floats → List Element → Option Parsed
unfolding find_tag parse_time parse_memory parse_difficulty parsed_with
parse_item floats es =
    with_numbers es (parse_time floats (find_tag Tag.time_limit es))
      (parse_memory floats (find_tag Tag.memory_limit es))
      (parse_difficulty floats (find_tag Tag.difficulty es))
