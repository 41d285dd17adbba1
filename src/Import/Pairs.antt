-- ===== src/Import/Pairs.antt =====
-- The samples and the tests of an item that has been written, as they are read.
use pigeon_oj.Base.{append_nil, ℕ, ◌≡◌, refl, ap, ◌∙◌, List, [], ◌∷◌, map, filter}
use pigeon_oj.Import.{Tag, Pair, Sample}
use pigeon_oj.Import.Texts.{strip, or_text}
use pigeon_oj.Import.Reading.{text_of, find_all, keep_pair, zip_pairs, pair_nodes}
use pigeon_oj.Import.Writing.{ExportItem, plain, named, build_item}
use pigeon_oj.Import.RoundTrip.{
  find_all-build_item, sample_inputs, sample_outputs, no_samples, test_inputs, test_outputs,
  no_tests,
}

abbrev pub read_test : Pair → Pair
read_test p = record {
  name = p.name;
  input = strip p.input;
  expected_output = strip p.expected_output;
}

abbrev pub read_sample : Sample → Pair
read_sample s = record { name = []; input = strip s.input; expected_output = strip s.output }

-- the pairs
zip_samples :
    (ss : List Sample)
    → zip_pairs
        (map (λ s. plain Tag.sample_input s.input) ss)
        (map (λ s. plain Tag.sample_output s.output) ss)
      ≡ map read_sample ss
unfolding zip_pairs text_of
zip_samples [] = refl
zip_samples (s ∷ ss) = ap (λ l. read_sample s ∷ l) (zip_samples ss)

or_text-same : (s : List ℕ) → or_text s s ≡ s
or_text-same [] = refl
or_text-same (c ∷ cs) = refl

zip_tests :
    (ts : List Pair)
    → zip_pairs
        (map (λ p. named Tag.test_input p.name p.input) ts)
        (map (λ p. named Tag.test_output p.name p.expected_output) ts)
      ≡ map read_test ts
unfolding zip_pairs text_of
zip_tests [] = refl
zip_tests (p ∷ ts) = rw (or_text-same p.name, zip_tests ts) refl

pub read_samples :
    (it : ExportItem)
    → pair_nodes
        (find_all Tag.sample_input (build_item it))
        (find_all Tag.sample_output (build_item it))
      ≡ filter keep_pair (map read_sample it.samples)
unfolding pair_nodes find_all
read_samples it =
    rw
      (
        find_all-build_item Tag.sample_input it (sample_inputs it.samples)
              (no_tests Tag.sample_input it.tests refl refl)
            ∙ append_nil _,
        find_all-build_item Tag.sample_output it (sample_outputs it.samples)
              (no_tests Tag.sample_output it.tests refl refl)
            ∙ append_nil _,
        zip_samples it.samples,
      )
      refl

pub read_tests :
    (it : ExportItem)
    → pair_nodes
        (find_all Tag.test_input (build_item it))
        (find_all Tag.test_output (build_item it))
      ≡ filter keep_pair (map read_test it.tests)
unfolding pair_nodes find_all
read_tests it =
    rw
      (
        find_all-build_item Tag.test_input it (no_samples Tag.test_input it.samples refl refl)
              (test_inputs it.tests)
            ∙ append_nil _,
        find_all-build_item Tag.test_output it (no_samples Tag.test_output it.samples refl refl)
              (test_outputs it.tests)
            ∙ append_nil _,
        zip_tests it.tests,
      )
      refl
