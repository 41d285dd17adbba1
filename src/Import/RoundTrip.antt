-- ===== src/Import/RoundTrip.antt =====
-- What is read back from an item that has been written.
use pigeon_oj.Base.{
  ℕ, ◌≡◌, refl, ap, Bool, false, Option, none, some, List, [], ◌∷◌, ◌++◌, map, filter,
  filter-append, find?, head?, arith, if◌then◌else◌, Bool-cases, inl, inr,
}
use pigeon_oj.Contest.Edit.{str}
use pigeon_oj.Import.{text, Tag, same_tag, Element, Pair, Sample}
use pigeon_oj.Import.Texts.{same_text}
use pigeon_oj.Import.Reading.{find_all}
use pigeon_oj.Import.Writing.{
  ExportItem, plain, named, in_unit, in_language, if_text, no_background, source_elements,
  sample_elements, test_elements, difficulty_elements, build_item,
}

pub find-head : (p : Element → Bool) (es : List Element) → find? p es ≡ head? (filter p es)
find-head p [] = refl
find-head p (e ∷ es) = ground (arith, find-head p es)

-- a block of elements of one tag
abbrev pub pick : Tag → Tag → List Element → List Element
pick t u block = if same_tag t u then block else []

find_all-if_text :
    (t : Tag) (s : List ℕ) (e : Element) → find_all t (if_text s e) ≡ pick t e.tag (if_text s e)
unfolding find_all
find_all-if_text t [] e = ground arith
find_all-if_text t (c ∷ cs) e = refl

find_all-source :
    (t : Tag) (s : List ℕ) → find_all t (source_elements s) ≡ pick t Tag.source (source_elements s)
unfolding source_elements
find_all-source t s = elim (Bool-cases (same_text s no_background)) [
  | inl h ↦ rw h (unfold find_all in ground arith)
  | inr h ↦ rw h (find_all-if_text t s (plain Tag.source s))
]

find_all-difficulty :
    (t : Tag) (d : Option ℕ)
    → find_all t (difficulty_elements d) ≡ pick t Tag.difficulty (difficulty_elements d)
unfolding find_all
find_all-difficulty t none = ground arith
find_all-difficulty t (some n) = refl

-- the elements that are always written
abbrev pub heading : ExportItem → List Element
heading it =
    plain Tag.title it.title
    ∷ in_unit Tag.time_limit (text "ms") (str it.time_limit_ms)
    ∷ in_unit Tag.memory_limit (text "mb") (str it.memory_limit_mb)
    ∷ plain Tag.description it.description
    ∷ []

find_all-append :
    (t : Tag) (xs ys : List Element) → find_all t (xs ++ ys) ≡ find_all t xs ++ find_all t ys
unfolding find_all
find_all-append t xs ys = filter-append (λ e. same_tag t e.tag) xs ys

-- a block before others
grow :
    (t : Tag) (xs ys : List Element) {us vs : List Element}
    → find_all t xs ≡ us
    → find_all t ys ≡ vs
    → find_all t (xs ++ ys) ≡ us ++ vs
grow t xs ys h k = rw (find_all-append t xs ys, h, k) refl

-- the elements of a tag in an item that has been written, by those in its samples and tests
pub find_all-build_item :
    (t : Tag) (it : ExportItem) {us vs : List Element}
    → find_all t (sample_elements it.samples) ≡ us
    → find_all t (test_elements it.tests) ≡ vs
    → find_all t (build_item it)
      ≡ find_all t (heading it)
        ++ (pick t Tag.input (if_text it.input_description (plain Tag.input it.input_description))
            ++ (pick t Tag.output
                  (if_text it.output_description (plain Tag.output it.output_description))
                ++ (pick t Tag.hint (if_text it.note (plain Tag.hint it.note))
                    ++ (pick t Tag.source (source_elements it.background)
                        ++ (us
                            ++ (vs
                                ++ (pick t Tag.solution (
                                      if_text it.solution
                                        (in_language Tag.solution (text "markdown") it.solution))
                                    ++ (pick t Tag.spj
                                          (if_text it.spj_code (plain Tag.spj it.spj_code))
                                        ++ pick t Tag.difficulty
                                            (difficulty_elements it.difficulty)))))))))
unfolding build_item
find_all-build_item t it in_samples in_tests = grow t (heading it) _ refl (
    grow t _ _ (find_all-if_text t it.input_description (plain Tag.input it.input_description)) (
      grow t _ _ (find_all-if_text t it.output_description (plain Tag.output it.output_description))
        (grow t _ _ (find_all-if_text t it.note (plain Tag.hint it.note)) (
          grow t _ _ (find_all-source t it.background) (
            grow t (sample_elements it.samples) _ in_samples (
              grow t (test_elements it.tests) _ in_tests (
                grow t _ _
                  (find_all-if_text t it.solution
                    (in_language Tag.solution (text "markdown") it.solution))
                  (grow t _ _ (find_all-if_text t it.spj_code (plain Tag.spj it.spj_code))
                    (find_all-difficulty t it.difficulty)))))))))

-- the elements of the samples and the tests
pub sample_inputs :
    (ss : List Sample)
    → find_all Tag.sample_input (sample_elements ss) ≡ map (λ s. plain Tag.sample_input s.input) ss
unfolding find_all sample_elements
sample_inputs [] = refl
sample_inputs (s ∷ ss) = ap (λ l. plain Tag.sample_input s.input ∷ l) (sample_inputs ss)

pub sample_outputs :
    (ss : List Sample)
    → find_all Tag.sample_output (sample_elements ss)
      ≡ map (λ s. plain Tag.sample_output s.output) ss
unfolding find_all sample_elements
sample_outputs [] = refl
sample_outputs (s ∷ ss) = ap (λ l. plain Tag.sample_output s.output ∷ l) (sample_outputs ss)

pub no_samples :
    (t : Tag) (ss : List Sample)
    → same_tag t Tag.sample_input ≡ false
    → same_tag t Tag.sample_output ≡ false
    → find_all t (sample_elements ss) ≡ []
unfolding find_all sample_elements
no_samples t [] h k = refl
no_samples t (s ∷ ss) h k = rw (h, k) (no_samples t ss h k)

pub test_inputs :
    (ts : List Pair)
    → find_all Tag.test_input (test_elements ts) ≡ map (λ p. named Tag.test_input p.name p.input) ts
unfolding find_all test_elements
test_inputs [] = refl
test_inputs (p ∷ ts) = ap (λ l. named Tag.test_input p.name p.input ∷ l) (test_inputs ts)

pub test_outputs :
    (ts : List Pair)
    → find_all Tag.test_output (test_elements ts)
      ≡ map (λ p. named Tag.test_output p.name p.expected_output) ts
unfolding find_all test_elements
test_outputs [] = refl
test_outputs (p ∷ ts) =
    ap (λ l. named Tag.test_output p.name p.expected_output ∷ l) (test_outputs ts)

pub no_tests :
    (t : Tag) (ts : List Pair)
    → same_tag t Tag.test_input ≡ false
    → same_tag t Tag.test_output ≡ false
    → find_all t (test_elements ts) ≡ []
unfolding find_all test_elements
no_tests t [] h k = refl
no_tests t (p ∷ ts) h k = rw (h, k) (no_tests t ts h k)
