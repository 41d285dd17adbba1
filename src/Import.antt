-- ===== src/Import.antt =====
-- The exchange of problems as FPS files: src/backend/app/services/problem_import.py, between the tree of XML
-- elements, which the standard library reads and writes, and the rows of a problem. A text is the list of its
-- code points. Floating-point numbers are a parameter, `Floats`; inlined pictures are left out.
pub mod Texts
pub mod Reading
pub mod Writing
pub mod Cases
pub mod Entering
pub mod Batches
pub mod Stores
pub mod Objects
pub mod Kept
pub mod Ready
pub mod Samples
pub mod Archives
pub mod Attempts
pub mod Titles
pub mod Numerals
pub mod RoundTrip
pub mod Pairs
pub mod Fields
pub mod Limits
pub mod ReadBack
use Prim.Native.Char.{code}
use Prim.Native.String.{String}
use pigeon_oj.Base.{
  ℕ, zero, suc, ◌+◌, Bool, true, false, not, ◌&&◌, ◌||◌, Option, none, some, List, [], ◌∷◌, ltb,
  leb, ◌==◌, if◌then◌else◌,
}

-- the code points of a literal
abbrev pub text : String → List ℕ
text String.[] = []
text (String.◌∷◌ c s) = code c ∷ text s

-- the tags of the format
pub data Tag : Type 0 where
  title time_limit memory_limit description input output hint source : Tag
  sample_input sample_output test_input test_output solution spj difficulty other : Tag

abbrev pub tag_code : Tag → ℕ
tag_code Tag.title = 0
tag_code Tag.time_limit = 1
tag_code Tag.memory_limit = 2
tag_code Tag.description = 3
tag_code Tag.input = 4
tag_code Tag.output = 5
tag_code Tag.hint = 6
tag_code Tag.source = 7
tag_code Tag.sample_input = 8
tag_code Tag.sample_output = 9
tag_code Tag.test_input = 10
tag_code Tag.test_output = 11
tag_code Tag.solution = 12
tag_code Tag.spj = 13
tag_code Tag.difficulty = 14
tag_code Tag.other = 15

abbrev pub same_tag : Tag → Tag → Bool
same_tag a b = tag_code a == tag_code b

-- an element of an item, with those attributes that the format has
pub record Element : Type 0 where
  pub tag : Tag
  pub name : List ℕ
  pub unit : List ℕ
  pub language : List ℕ
  pub content : List ℕ

-- a test case or a sample, as a pair of texts
pub record Pair : Type 0 where
  pub name : List ℕ
  pub input : List ℕ
  pub expected_output : List ℕ

-- a sample as it is shown
pub record Sample : Type 0 where
  pub input : List ℕ
  pub output : List ℕ

pub record Solution : Type 0 where
  pub language : List ℕ
  pub code : List ℕ

-- the result of parse_item
pub record Parsed : Type 0 where
  pub title : List ℕ
  pub time_limit_ms : ℕ
  pub memory_limit_mb : ℕ
  pub description : List ℕ
  pub input_description : List ℕ
  pub output_description : List ℕ
  pub hint : List ℕ
  pub source : List ℕ
  pub has_spj : Bool
  pub spj_code : List ℕ
  pub difficulty : Option ℕ
  pub samples : List Pair
  pub tests : List Pair
  pub solutions : List Solution
