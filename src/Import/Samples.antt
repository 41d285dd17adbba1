-- ===== src/Import/Samples.antt =====
-- The samples of an imported problem, as they are shown and as they are written again.
use pigeon_oj.Base.{
  ℕ, ◌+◌, ◌≡◌, refl, ap, ◌∙◌, List, [], ◌∷◌, map, Option, none, some, if◌then◌else◌,
}
use pigeon_oj.Import.{Pair, Sample, Parsed}
use pigeon_oj.Import.Texts.{is_empty}
use pigeon_oj.Import.Cases.{CaseRow}
use pigeon_oj.Import.Entering.{
  SampleItem, SampleOut, or_blank, parsed_sample, entered_sample, view_from, samples_view,
  exported_samples, entry,
}

-- what is shown, but for the numbered name
abbrev pub shown_item : SampleOut → SampleItem
shown_item s = record { input = s.input; output = s.output; explanation = s.explanation }

-- what an export keeps of a sample
abbrev pub plain_sample : SampleItem → Sample
plain_sample s = record { input = s.input; output = s.output }

-- a sample of a file without its output
abbrev pub without_output : Pair → SampleItem
without_output p = record { input = p.input; output = []; explanation = [] }

view-parsed :
    (i : ℕ) (ps : List Pair)
    → map shown_item (view_from i (map parsed_sample ps)) ≡ map without_output ps
unfolding view_from
view-parsed i [] = refl
view-parsed i (p ∷ ps) = ap (λ l. without_output p ∷ l) (view-parsed (i + 1) ps)

exported-parsed :
    (ps : List Pair)
    → exported_samples (map parsed_sample ps) ≡ map plain_sample (map without_output ps)
unfolding exported_samples
exported-parsed [] = refl
exported-parsed (p ∷ ps) = ap (λ l. plain_sample (without_output p) ∷ l) (exported-parsed ps)

-- no explanation is stored for a blank one, and shown as a blank one again
blank_again : (t : List ℕ) → or_blank (if is_empty t then none else some t) ≡ t
blank_again [] = refl
blank_again (c ∷ cs) = refl

abbrev again : SampleItem → SampleItem
again s = record {
  input = s.input;
  output = s.output;
  explanation = or_blank (if is_empty s.explanation then none else some s.explanation);
}

shown_again : (s : SampleItem) → again s ≡ s
shown_again s =
    ap (λ t. record { input = s.input; output = s.output; explanation = t })
      (blank_again s.explanation)

entered-view :
    (i : ℕ) (ss : List SampleItem) → map shown_item (view_from i (map entered_sample ss)) ≡ ss
unfolding view_from
entered-view i [] = refl
entered-view i (s ∷ ss) =
    ap (λ l. again s ∷ l) (entered-view (i + 1) ss) ∙ ap (λ x. x ∷ ss) (shown_again s)

entered-exported :
    (ss : List SampleItem) → exported_samples (map entered_sample ss) ≡ map plain_sample ss
unfolding exported_samples
entered-exported [] = refl
entered-exported (s ∷ ss) = ap (λ l. plain_sample s ∷ l) (entered-exported ss)

-- The samples that an author enters are shown with their inputs, outputs and explanations, and exported with their
-- inputs and outputs. Those of an imported problem are shown and exported with their inputs and with an empty output,
-- whatever the output in the file is.
pub samples-lose_output :
    (pid owner now : ℕ) (rows : List CaseRow) (checker : Option ℕ) (p : Parsed)
    (ss : List SampleItem)
    → (map shown_item (samples_view (map entered_sample ss)) ≡ ss)
      × (exported_samples (map entered_sample ss) ≡ map plain_sample ss)
      × (map shown_item (samples_view (entry pid owner now rows checker p).samples)
          ≡ map without_output p.samples)
      × (exported_samples (entry pid owner now rows checker p).samples
          ≡ map plain_sample (map without_output p.samples))
unfolding entry samples_view
samples-lose_output pid owner now rows checker p ss =
    (entered-view 1 ss, entered-exported ss, view-parsed 1 p.samples, exported-parsed p.samples)
