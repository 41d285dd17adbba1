-- ===== src/Import/Writing.antt =====
-- From a problem to the elements of an item: the loop of `build_fps_xml`.
use pigeon_oj.Base.{ℕ, Option, none, some, List, [], ◌∷◌, ◌++◌, if◌then◌else◌}
use pigeon_oj.Contest.Edit.{str}
use pigeon_oj.Import.{text, Tag, Element, Pair, Sample}
use pigeon_oj.Import.Texts.{same_text}

-- ExportItem; a missing text is an empty one, which `if text:` treats alike, and the bytes of the cases are
-- decoded already
pub record ExportItem : Type 0 where
  pub title : List ℕ
  pub time_limit_ms : ℕ
  pub memory_limit_mb : ℕ
  pub description : List ℕ
  pub input_description : List ℕ
  pub output_description : List ℕ
  pub note : List ℕ
  pub background : List ℕ
  pub solution : List ℕ
  pub samples : List Sample
  pub tests : List Pair
  pub spj_code : List ℕ
  pub difficulty : Option ℕ

abbrev pub plain : Tag → List ℕ → Element
plain t s = record { tag = t; name = []; unit = []; language = []; content = s }

abbrev pub named : Tag → List ℕ → List ℕ → Element
named t n s = record { tag = t; name = n; unit = []; language = []; content = s }

abbrev pub in_unit : Tag → List ℕ → List ℕ → Element
in_unit t u s = record { tag = t; name = []; unit = u; language = []; content = s }

abbrev pub in_language : Tag → List ℕ → List ℕ → Element
in_language t l s = record { tag = t; name = []; unit = []; language = l; content = s }

-- `if text: ...`
abbrev pub if_text : List ℕ → Element → List Element
if_text [] e = []
if_text (c ∷ cs) e = e ∷ []

-- 无
abbrev pub no_background : List ℕ
no_background = 26080 ∷ []

-- `if it.background and it.background != 无`
unfoldable pub source_elements : List ℕ → List Element
source_elements s = if same_text s no_background then [] else if_text s (plain Tag.source s)

-- the loop over the samples
unfoldable pub sample_elements : List Sample → List Element
sample_elements [] = []
sample_elements (p ∷ ps) =
    plain Tag.sample_input p.input ∷ plain Tag.sample_output p.output ∷ sample_elements ps

-- the loop over the tests
unfoldable pub test_elements : List Pair → List Element
test_elements [] = []
test_elements (p ∷ ps) =
    named Tag.test_input p.name p.input
    ∷ named Tag.test_output p.name p.expected_output
    ∷ test_elements ps

abbrev pub difficulty_elements : Option ℕ → List Element
difficulty_elements none = []
difficulty_elements (some n) = plain Tag.difficulty (str n) ∷ []

-- the elements of one item of build_fps_xml
unfoldable pub build_item : ExportItem → List Element
unfolding source_elements sample_elements test_elements str
build_item it =
    plain Tag.title it.title
    ∷ in_unit Tag.time_limit (text "ms") (str it.time_limit_ms)
    ∷ in_unit Tag.memory_limit (text "mb") (str it.memory_limit_mb)
    ∷ plain Tag.description it.description
    ∷ (if_text it.input_description (plain Tag.input it.input_description)
        ++ (if_text it.output_description (plain Tag.output it.output_description)
            ++ (if_text it.note (plain Tag.hint it.note)
                ++ (source_elements it.background
                    ++ (sample_elements it.samples
                        ++ (test_elements it.tests
                            ++ (if_text it.solution
                                  (in_language Tag.solution (text "markdown") it.solution)
                                ++ (if_text it.spj_code (plain Tag.spj it.spj_code)
                                    ++ difficulty_elements it.difficulty))))))))
