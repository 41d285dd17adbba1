-- ===== src/Import/ReadBack.antt =====
-- An item that has been written is read back.
use pigeon_oj.Base.{◌^◌, ◌<◌, ◌≡◌, refl, ap, not, some, [], ◌∷◌, map, filter, take, if◌then◌else◌}
use pigeon_oj.Base.Integers.{pos}
use pigeon_oj.Import.{text, Parsed}
use pigeon_oj.Import.Texts.{is_empty, strip, utf8_length, same_text, or_text}
use pigeon_oj.Import.Reading.{
  Floats, clamp, text_of, find_tag, keep_pair, small_sample, no_title, parsed_with, parse_item,
}
use pigeon_oj.Import.Writing.{ExportItem, no_background, build_item}
use pigeon_oj.Import.Pairs.{read_sample, read_samples, read_test, read_tests}
use pigeon_oj.Import.Fields.{
  read_has_spj, read_hint, read_input, read_output, read_solutions, read_source, read_spj,
}
use pigeon_oj.Import.Limits.{Exact, number, read_difficulty, read_memory, read_time}

-- what is kept of an item
unfoldable pub read_back : ExportItem → Parsed
unfolding strip clamp same_text keep_pair utf8_length
read_back it = record {
  title = take 255 (or_text (strip it.title) no_title);
  time_limit_ms = clamp 3600000 (pos it.time_limit_ms);
  memory_limit_mb = clamp 4096 (pos it.memory_limit_mb);
  description = strip it.description;
  input_description = strip it.input_description;
  output_description = strip it.output_description;
  hint = strip it.note;
  source = if same_text it.background no_background then [] else strip it.background;
  has_spj = not (is_empty it.spj_code);
  spj_code = strip it.spj_code;
  difficulty = it.difficulty;
  samples = take 10 (filter small_sample (filter keep_pair (map read_sample it.samples)));
  tests = filter keep_pair (map read_test it.tests);
  solutions =
      if is_empty it.solution
      then []
      else record { language = text "markdown"; code = strip it.solution } ∷ [];
}

parsed_with-build_item :
    (it : ExportItem)
    → parsed_with
        (build_item it)
        (clamp 3600000 (pos it.time_limit_ms))
        (clamp 4096 (pos it.memory_limit_mb))
        it.difficulty
      ≡ read_back it
unfolding parsed_with read_back
parsed_with-build_item it =
    rw
      (
        read_input it,
        read_output it,
        read_hint it,
        read_source it,
        read_has_spj it,
        read_spj it,
        read_samples it,
        read_tests it,
        read_solutions it,
      )
      (unfold find_tag text_of build_item in refl)

-- Where whole numbers below 2^53 are written and read exactly, the item that is written for a problem whose limits
-- and difficulty are below 2^53 is read without an exception, and as follows: the limits within their bounds, the
-- difficulty as it was, the texts without the white space at their ends (the background 无 as no text), the tests
-- and samples in their order and stripped likewise but for those that are then blank or too large, ten samples at
-- most, and a checker exactly where there was one.
pub parse_item-build_item :
    (floats : Floats) (it : ExportItem)
    → Exact floats
    → it.time_limit_ms < 2 ^ 53
    → it.memory_limit_mb < 2 ^ 53
    → number it.difficulty < 2 ^ 53
    → parse_item floats (build_item it) ≡ some (read_back it)
unfolding parse_item
parse_item-build_item floats it exact t m d =
    rw
      (
        read_time floats it exact t,
        read_memory floats it exact m,
        read_difficulty floats it exact d,
      )
      (ap some (parsed_with-build_item it))
