-- ===== src/Examples/Imports.antt =====
-- Problems that are written, read and imported, with a store that refuses an object.
use pigeon_oj.Base.{
  ◌≡◌, refl, ap, true, false, Option, none, some, List, [], ◌∷◌, map, arith, ltb, ◌==◌, Result, ok,
}
use pigeon_oj.Base.Integers.{ℤ, pos}
use pigeon_oj.Contest.Edit.Letters.{value, value-str}
use pigeon_oj.Import.{text, Parsed}
use pigeon_oj.Import.Reading.{Whole, Floats, parse_item}
use pigeon_oj.Import.Writing.{ExportItem, build_item}
use pigeon_oj.Import.ReadBack.{read_back, parse_item-build_item}
use pigeon_oj.Import.Limits.{Exact}
use pigeon_oj.Import.Cases.{Storage}
use pigeon_oj.Import.Entering.{
  SampleItem, without_pictures, World, import_one, samples_view, exported_samples, entered_sample,
  entry,
}
use pigeon_oj.Import.Batches.{
  SpjMode, File, ParsedFiles, parse_files, Summary, import_parsed_problems, import_archive,
  known_titles,
}
use pigeon_oj.Import.Objects.{LeavesOne, import_one-rolls_back}
use pigeon_oj.Import.Kept.{Kept, import_parsed_problems-Kept}
use pigeon_oj.Import.Samples.{shown_item, plain_sample, without_output, samples-lose_output}
use pigeon_oj.Import.Ready.{AddsReady}
use pigeon_oj.Import.Titles.{distinct}
use pigeon_oj.Import.Archives.{import_archive-Imported}

-- numerals without a point, read exactly
abbrev floats : Floats
floats = record {
  Float = ℤ;
  zero_float = pos 0;
  parse = λ s. some (pos (value 0 s));
  times_1000 = λ x. x;
  times_1024 = λ x. x;
  div_1024 = λ x. x;
  round_int = λ x. Whole.whole x;
  trunc_int = λ x. Whole.whole x;
}

floats-Exact : Exact floats
unfolding Exact
floats-Exact n h = (pos n, ap (λ k. some (pos k)) (value-str n), (refl, refl))

abbrev sum_problem : ExportItem
sum_problem = record {
  title = text " A + B ";
  time_limit_ms = 1500;
  memory_limit_mb = 8192;
  description = text "Add.";
  input_description = [];
  output_description = text "One number.";
  note = [];
  background = 26080 ∷ [];
  solution = text "a+b";
  samples = record { input = text "1 2"; output = text "3" } ∷ [];
  tests =
      record { name = text "a.in"; input = text "1 2\n"; expected_output = text "3\n" }
      ∷ record { name = text "b"; input = text " "; expected_output = text "" }
      ∷ [];
  spj_code = [];
  difficulty = some 800;
}

parse_item-build_item_example :
    parse_item floats (build_item sum_problem) ≡ some (read_back sum_problem)
parse_item-build_item_example =
    parse_item-build_item floats sum_problem floats-Exact (omega arith) (omega arith) (omega arith)

abbrev parsed : Parsed
unfolding read_back
parsed = read_back sum_problem

-- the second object of the first test is refused
abbrev refusing : Storage
refusing = record { put_raises = λ k. k == 8; delete_raises = λ k. false }

abbrev before : World
before = record { problems = []; objects = 3 ∷ []; next = 6 }

import_one-rolls_back_example :
    (_ : (import_one refusing 5 100 parsed before).0.problems ≡ before.problems) × LeavesOne
      refusing before.objects
      (import_one refusing 5 100 parsed before).0.objects
unfolding import_one parsed without_pictures
import_one-rolls_back_example =
    import_one-rolls_back refusing 5 100 parsed before refl (λ k. refl) (omega arith, tt) refl

import_parsed_problems-Kept_example :
    Kept
      (import_parsed_problems refusing 5 100 SpjMode.staged 20
        (parsed ∷ parsed ∷ [])
        (known_titles before)
        before).world
import_parsed_problems-Kept_example =
    import_parsed_problems-Kept refusing 5 100 SpjMode.staged 20 (parsed ∷ parsed ∷ [])
      (known_titles before) before ((omega arith, tt), tt)

abbrev entered : List SampleItem
entered = record { input = text "1"; output = text "2"; explanation = text "3" } ∷ []

samples-lose_output_example :
    (map shown_item (samples_view (map entered_sample entered)) ≡ entered)
    × (exported_samples (map entered_sample entered) ≡ map plain_sample entered)
    × (map shown_item (samples_view (entry 6 5 100 [] none parsed).samples)
        ≡ map without_output parsed.samples)
    × (exported_samples (entry 6 5 100 [] none parsed).samples
        ≡ map plain_sample (map without_output parsed.samples))
unfolding samples_view exported_samples entry
samples-lose_output_example = samples-lose_output 6 5 100 [] none parsed entered

abbrev reliable : Storage
reliable = record { put_raises = λ k. false; delete_raises = λ k. false }

abbrev files : List File
files =
    record {
      name = text "a.xml";
      items = some (build_item sum_problem ∷ build_item sum_problem ∷ []);
    }
    ∷ record { name = text "b.xml"; items = none }
    ∷ []

-- what the files hold, if they can be read
abbrev read_or : ParsedFiles → Option ParsedFiles → ParsedFiles
read_or d none = d
read_or d (some r) = r

abbrev read : ParsedFiles
unfolding parse_files build_item
read = read_or (record { failures = []; parsed = [] }) (parse_files floats files)

-- what an answer holds, if there is one
abbrev answered :
    (_ : World) × Summary → Option (Result ((_ : World) × Summary)) → (_ : World) × Summary
answered d (some (ok r)) = r
answered d _ = d

abbrev answer : (_ : World) × Summary
unfolding import_archive build_item
answer =
    answered (before, record { total_parsed = 0; results = []; truncated = false })
      (import_archive floats reliable 5 100 (some files) before)

import_archive-Imported_example :
    AddsReady before answer.0
    × (distinct (known_titles before) ≡ true → distinct (known_titles answer.0) ≡ true)
    × (answer.1.truncated ≡ ltb 20 answer.1.total_parsed)
unfolding import_archive build_item parse_files without_pictures
import_archive-Imported_example =
    import_archive-Imported floats reliable 5 100 files read before answer.0 answer.1 refl
      (refl, (refl, tt)) refl
