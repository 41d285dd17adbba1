-- ===== src/Import/Fields.antt =====
-- The texts of an item that has been written, as they are read.
use pigeon_oj.Base.{
  ℕ, ◌≡◌, refl, ap, ◌∙◌, false, not, List, [], ◌∷◌, ◌++◌, map, head?, is_some, if◌then◌else◌,
  Bool-cases, inl, inr,
}
use pigeon_oj.Import.{text, Tag, same_tag, Element}
use pigeon_oj.Import.Texts.{is_empty, strip_left, strip_right, strip, same_text}
use pigeon_oj.Import.Reading.{text_of, find_tag, find_all, solution_of}
use pigeon_oj.Import.Writing.{
  ExportItem, plain, in_language, if_text, no_background, source_elements, difficulty_elements,
  build_item,
}
use pigeon_oj.Import.RoundTrip.{find-head, pick, heading, find_all-build_item, no_samples, no_tests}

text_of-block : (t : Tag) (s : List ℕ) → text_of (head? (if_text s (plain t s) ++ [])) ≡ strip s
unfolding text_of
text_of-block t [] = unfold strip strip_left strip_right in refl
text_of-block t (c ∷ cs) = refl

is_some-block :
    (t : Tag) (s : List ℕ) → is_some (head? (if_text s (plain t s) ++ [])) ≡ not (is_empty s)
is_some-block t [] = refl
is_some-block t (c ∷ cs) = refl

text_of-source :
    (s : List ℕ)
    → text_of (head? (source_elements s ++ []))
      ≡ (if same_text s no_background then [] else strip s)
unfolding source_elements
text_of-source s = elim (Bool-cases (same_text s no_background)) [
  | inl e ↦ rw e (unfold text_of in refl)
  | inr e ↦ rw e (text_of-block Tag.source s)
]

-- an element that is neither a sample's nor a test's
find_other :
    (t : Tag) (it : ExportItem)
    → same_tag t Tag.sample_input ≡ false
    → same_tag t Tag.sample_output ≡ false
    → same_tag t Tag.test_input ≡ false
    → same_tag t Tag.test_output ≡ false
    → find_all t (build_item it)
      ≡ find_all t (heading it)
        ++ (pick t Tag.input (if_text it.input_description (plain Tag.input it.input_description))
            ++ (pick t Tag.output
                  (if_text it.output_description (plain Tag.output it.output_description))
                ++ (pick t Tag.hint (if_text it.note (plain Tag.hint it.note))
                    ++ (pick t Tag.source (source_elements it.background)
                        ++ (pick t Tag.solution (
                              if_text it.solution
                                (in_language Tag.solution (text "markdown") it.solution))
                            ++ (pick t Tag.spj (if_text it.spj_code (plain Tag.spj it.spj_code))
                                ++ pick t Tag.difficulty (difficulty_elements it.difficulty)))))))
find_other t it a b c d =
    find_all-build_item t it (no_samples t it.samples a b) (no_tests t it.tests c d)

find_tag-head : (t : Tag) (es : List Element) → find_tag t es ≡ head? (find_all t es)
unfolding find_tag find_all
find_tag-head t es = find-head (λ e. same_tag t e.tag) es

-- an element of a text
read_text :
    (t : Tag) (it : ExportItem) {es : List Element} {s : List ℕ}
    → find_all t (build_item it) ≡ es
    → text_of (head? es) ≡ s
    → text_of (find_tag t (build_item it)) ≡ s
read_text t it h k = ap text_of (find_tag-head t (build_item it) ∙ ap head? h) ∙ k

pub read_input :
    (it : ExportItem) → text_of (find_tag Tag.input (build_item it)) ≡ strip it.input_description
unfolding find_all strip
read_input it =
    read_text Tag.input it (find_other Tag.input it refl refl refl refl)
      (text_of-block Tag.input it.input_description)

pub read_output :
    (it : ExportItem) → text_of (find_tag Tag.output (build_item it)) ≡ strip it.output_description
unfolding find_all strip
read_output it =
    read_text Tag.output it (find_other Tag.output it refl refl refl refl)
      (text_of-block Tag.output it.output_description)

pub read_hint : (it : ExportItem) → text_of (find_tag Tag.hint (build_item it)) ≡ strip it.note
unfolding find_all strip
read_hint it =
    read_text Tag.hint it (find_other Tag.hint it refl refl refl refl)
      (text_of-block Tag.hint it.note)

pub read_source :
    (it : ExportItem)
    → text_of (find_tag Tag.source (build_item it))
      ≡ (if same_text it.background no_background then [] else strip it.background)
unfolding find_all source_elements
read_source it =
    read_text Tag.source it (find_other Tag.source it refl refl refl refl)
      (text_of-source it.background)

pub read_spj : (it : ExportItem) → text_of (find_tag Tag.spj (build_item it)) ≡ strip it.spj_code
unfolding find_all strip
read_spj it =
    read_text Tag.spj it (find_other Tag.spj it refl refl refl refl)
      (text_of-block Tag.spj it.spj_code)

pub read_has_spj :
    (it : ExportItem) → is_some (find_tag Tag.spj (build_item it)) ≡ not (is_empty it.spj_code)
unfolding find_all
read_has_spj it =
    ap is_some
      (find_tag-head Tag.spj (build_item it) ∙ ap head? (find_other Tag.spj it refl refl refl refl))
    ∙ is_some-block Tag.spj it.spj_code

pub find_difficulty :
    (it : ExportItem)
    → find_tag Tag.difficulty (build_item it) ≡ head? (difficulty_elements it.difficulty)
unfolding find_all
find_difficulty it =
    find_tag-head Tag.difficulty (build_item it)
    ∙ ap head? (find_other Tag.difficulty it refl refl refl refl)

solutions-block :
    (s : List ℕ)
    → map solution_of (if_text s (in_language Tag.solution (text "markdown") s) ++ [])
      ≡ (if is_empty s then [] else record { language = text "markdown"; code = strip s } ∷ [])
unfolding strip text_of
solutions-block [] = refl
solutions-block (c ∷ cs) = refl

pub read_solutions :
    (it : ExportItem)
    → map solution_of (find_all Tag.solution (build_item it)) ≡ (
        if is_empty it.solution
        then []
        else record { language = text "markdown"; code = strip it.solution } ∷ [])
unfolding find_all
read_solutions it =
    ap (map solution_of) (find_other Tag.solution it refl refl refl refl)
    ∙ solutions-block it.solution
