-- ===== src/Import/Batches.antt =====
-- A batch of imported problems: `import_parsed_problems` and `ProblemImportService._import`.
use pigeon_oj.Base.{
  ℕ, zero, suc, ◌*◌, Bool, true, false, not, ◌&&◌, ◌||◌, Option, none, some, List, [], ◌∷◌, ◌++◌,
  map, length, ltb, if◌then◌else◌, Result, ok, err, Code,
}
use pigeon_oj.Import.{Element, Parsed}
use pigeon_oj.Import.Texts.{strip, utf8_length, same_text}
use pigeon_oj.Import.Reading.{Floats, parse_item}
use pigeon_oj.Import.Cases.{Storage}
use pigeon_oj.Import.Entering.{World, Status, has_checker, import_one}

pub data SpjMode : Type 0 where
  skip staged : SpjMode

-- ImportOutcome, without the message
pub record Outcome : Type 0 where
  pub title : List ℕ
  pub status : Status
  pub problem_id : Option ℕ

abbrev pub is_imported : Status → Bool
is_imported Status.published = true
is_imported Status.draft = true
is_imported Status.draft_spj = true
is_imported Status.duplicate = false
is_imported Status.skipped_spj = false
is_imported Status.failed = false

-- `title in known`
unfoldable pub has_title : List ℕ → List (List ℕ) → Bool
unfolding same_text
has_title t [] = false
has_title t (k ∷ ks) = same_text t k || has_title t ks

abbrev pub is_skip : SpjMode → Bool
is_skip SpjMode.skip = true
is_skip SpjMode.staged = false

-- the tests on a checker that cannot be rebuilt
unfoldable pub skips_spj : SpjMode → Parsed → Bool
unfolding strip utf8_length
skips_spj mode p =
    p.has_spj
    && (is_skip mode || (not (has_checker p) || ltb (256 * 1024) (utf8_length p.spj_code)))

-- what an attempt leaves: its outcome, the known titles, and the world
pub record Attempt : Type 0 where
  pub outcome : Outcome
  pub known : List (List ℕ)
  pub world : World

abbrev pub after_import : Parsed → List (List ℕ) → ℕ → (_ : World) × Status → Attempt
after_import p known pid r =
    if is_imported r.1
    then record {
      outcome = record { title = p.title; status = r.1; problem_id = some pid };
      known = p.title ∷ known;
      world = r.0;
    }
    else record {
      outcome = record { title = p.title; status = r.1; problem_id = none };
      known = known;
      world = r.0;
    }

-- the body of the loop
unfoldable pub attempt : Storage → ℕ → ℕ → SpjMode → Parsed → List (List ℕ) → World → Attempt
unfolding has_title skips_spj import_one
attempt storage owner now mode p known w =
    if has_title p.title known
    then record {
      outcome = record { title = p.title; status = Status.duplicate; problem_id = none };
      known = known;
      world = w;
    }
    else if skips_spj mode p
    then record {
      outcome = record { title = p.title; status = Status.skipped_spj; problem_id = none };
      known = known;
      world = w;
    }
    else after_import p known w.next (import_one storage owner now p w)

pub record Batch : Type 0 where
  pub outcomes : List Outcome
  pub truncated : Bool
  pub world : World

abbrev pub with_outcome : Outcome → Batch → Batch
with_outcome o b = record b { outcomes = o ∷ b.outcomes }

-- import_parsed_problems, by the attempts that are left
unfoldable pub import_parsed_problems :
    Storage → ℕ → ℕ → SpjMode → ℕ → List Parsed → List (List ℕ) → World → Batch
unfolding attempt
import_parsed_problems storage owner now mode left [] known w = record {
  outcomes = [];
  truncated = false;
  world = w;
}
import_parsed_problems storage owner now mode zero (p ∷ ps) known w = record {
  outcomes = [];
  truncated = true;
  world = w;
}
import_parsed_problems storage owner now mode (suc left) (p ∷ ps) known w =
    let a = attempt storage owner now mode p known w in
    with_outcome a.outcome (import_parsed_problems storage owner now mode left ps a.known a.world)

-- A file of an upload: its name, and the items of its XML, or none where it is no XML or no FPS file.
pub record File : Type 0 where
  pub name : List ℕ
  pub items : Option (List (List Element))

-- the comprehension at the end of parse_fps; `none` is an exception that is not caught
unfoldable pub parse_items : Floats → List (List Element) → Option (List Parsed)
unfolding parse_item
parse_items floats [] = some []
parse_items floats (i ∷ is) = elim (parse_item floats i) [
  | none ↦ none
  | some p ↦ elim (parse_items floats is) [ none ↦ none | some ps ↦ some (p ∷ ps) ]
]

-- the files that failed, and the problems of the others
pub record ParsedFiles : Type 0 where
  pub failures : List Outcome
  pub parsed : List Parsed

abbrev pub failed_file : List ℕ → ParsedFiles → ParsedFiles
failed_file name r = record r {
  failures = record { title = name; status = Status.failed; problem_id = none } ∷ r.failures;
}

abbrev pub failed_with : List ℕ → Option ParsedFiles → Option ParsedFiles
failed_with name none = none
failed_with name (some r) = some (failed_file name r)

abbrev pub with_items : Option (List Parsed) → Option ParsedFiles → Option ParsedFiles
with_items none rest = none
with_items (some ps) none = none
with_items (some ps) (some r) = some (record r { parsed = ps ++ r.parsed })

-- the loop of _import over the files
unfoldable pub parse_files : Floats → List File → Option ParsedFiles
unfolding parse_items
parse_files floats [] = some (record { failures = []; parsed = [] })
parse_files floats (f ∷ fs) =
    let rest = parse_files floats fs in
    elim f.items [
      | none ↦ failed_with f.name rest
      | some is ↦ with_items (parse_items floats is) rest
    ]

-- ImportSummary
pub record Summary : Type 0 where
  pub total_parsed : ℕ
  pub results : List Outcome
  pub truncated : Bool

abbrev pub known_titles : World → List (List ℕ)
known_titles w = map (λ e. e.title) w.problems

abbrev pub max_import_attempts : ℕ
max_import_attempts = 20

abbrev pub summary_of : ℕ → List Outcome → Batch → (_ : World) × Summary
summary_of total failures b = (
  b.world,
  record { total_parsed = total; results = failures ++ b.outcomes; truncated = b.truncated },
)

abbrev pub import_parsed : Storage → ℕ → ℕ → World → ParsedFiles → Result ((_ : World) × Summary)
import_parsed storage owner now w r = elim r.parsed [
  | [] ↦ err Code.param_format_invalid
  | p ∷ ps ↦ ok (
      summary_of (length r.parsed) r.failures (
        import_parsed_problems storage owner now SpjMode.staged max_import_attempts r.parsed
          (known_titles w) w))
]

abbrev pub import_files :
    Floats → Storage → ℕ → ℕ → World → Option (List File) → Option (Result ((_ : World) × Summary))
import_files floats storage owner now w none = some (err Code.param_format_invalid)
import_files floats storage owner now w (some files) = elim (parse_files floats files) [
  | none ↦ none
  | some r ↦ some (import_parsed storage owner now w r)
]

-- import_archive with _import, on what read_archive makes of the upload, `none` where that refuses it; the
-- result `none` is an exception that is not caught
unfoldable pub import_archive :
    Floats → Storage → ℕ → ℕ → Option (List File) → World → Option (Result ((_ : World) × Summary))
unfolding parse_files import_parsed_problems
import_archive floats storage owner now upload w = import_files floats storage owner now w upload
