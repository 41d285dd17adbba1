-- ===== src/Import/Entering.antt =====
-- The rows of an imported problem: `import_one` and `build_solution`, and the samples as they are shown and
-- written (`_samples_view`, `load_export_items`).
use pigeon_oj.Base.{
  ℕ, ◌+◌, ◌*◌, Bool, true, false, not, ◌&&◌, ◌||◌, Option, none, some, List, [], ◌∷◌, ◌++◌, map,
  filter, elem, ltb, ◌==◌, if◌then◌else◌,
}
use pigeon_oj.Model.{Problem, ProblemStatus, ProblemVisibility, CaseStatus}
use pigeon_oj.Contest.Edit.{str}
use pigeon_oj.Import.{text, Pair, Sample, Solution, Parsed}
use pigeon_oj.Import.Texts.{is_empty, strip, utf8_length, lower, or_text}
use pigeon_oj.Import.Writing.{no_background}
use pigeon_oj.Import.Cases.{Storage, CaseRow, Loop, put_cases}

-- an object of the JSON list problems.samples, by the keys that the code writes and reads
pub record JsonSample : Type 0 where
  pub name : Option (List ℕ)
  pub input : Option (List ℕ)
  pub output : Option (List ℕ)
  pub expected_output : Option (List ℕ)
  pub explanation : Option (List ℕ)

-- `s.get(key) or ""`
abbrev pub or_blank : Option (List ℕ) → List ℕ
or_blank none = []
or_blank (some s) = s

-- a sample as parse_item returns it
abbrev pub parsed_sample : Pair → JsonSample
parsed_sample p = record {
  name = some p.name;
  input = some p.input;
  output = none;
  expected_output = some p.expected_output;
  explanation = none;
}

-- SampleItem: a sample as an author enters it
pub record SampleItem : Type 0 where
  pub input : List ℕ
  pub output : List ℕ
  pub explanation : List ℕ

-- a sample as replace_samples stores it
abbrev pub entered_sample : SampleItem → JsonSample
entered_sample s = record {
  name = none;
  input = some s.input;
  output = some s.output;
  expected_output = none;
  explanation = if is_empty s.explanation then none else some s.explanation;
}

-- SampleOut
pub record SampleOut : Type 0 where
  pub name : List ℕ
  pub input : List ℕ
  pub output : List ℕ
  pub explanation : List ℕ

-- _samples_view, from a number on
unfoldable pub view_from : ℕ → List JsonSample → List SampleOut
unfolding str
view_from index [] = []
view_from index (i ∷ is) =
    record {
      name = text "sample" ++ str index;
      input = or_blank i.input;
      output = or_blank i.output;
      explanation = or_blank i.explanation;
    }
    ∷ view_from (index + 1) is

unfoldable pub samples_view : List JsonSample → List SampleOut
unfolding view_from
samples_view items = view_from 1 items

-- the samples of load_export_items
unfoldable pub exported_samples : List JsonSample → List Sample
exported_samples items =
    map (λ i. record { input = or_blank i.input; output = or_blank i.output }) items

-- a problem with its texts and its cases
pub record Entry : Type 0 where
  pub row : Problem
  pub title : List ℕ
  pub background : List ℕ
  pub description : List ℕ
  pub input_description : List ℕ
  pub output_description : List ℕ
  pub note : Option (List ℕ)
  pub solution : Option (List ℕ)
  pub samples : List JsonSample
  pub difficulty : Option ℕ
  pub cases : List CaseRow

-- the problems that are committed, the objects in the store, and the next id or key
pub record World : Type 0 where
  pub problems : List Entry
  pub objects : List ℕ
  pub next : ℕ

abbrev pub or_none : List ℕ → Option (List ℕ)
or_none [] = none
or_none (c ∷ cs) = some (c ∷ cs)

-- 标程（lang）, the fence and the code
abbrev pub solution_block : Solution → List ℕ
solution_block s =
    let lang = or_text s.language (text "text") in
    26631
    ∷ 31243
    ∷ 65288
    ∷ (lang
        ++ (65289
            ∷ 10
            ∷ 10
            ∷ 96
            ∷ 96
            ∷ 96
            ∷ (lower lang ++ (10 ∷ (s.code ++ (10 ∷ 96 ∷ 96 ∷ 96 ∷ []))))))

-- `"\n\n".join(blocks)`
abbrev pub join_blocks : List Solution → List ℕ
join_blocks [] = []
join_blocks (s ∷ []) = solution_block s
join_blocks (s ∷ t ∷ ss) = solution_block s ++ (10 ∷ 10 ∷ join_blocks (t ∷ ss))

unfoldable pub build_solution : List Solution → Option (List ℕ)
unfolding utf8_length lower
build_solution solutions =
    let joined = join_blocks solutions in
    if ltb (256 * 1024) (utf8_length joined) then none else or_none joined

abbrev pub has_checker : Parsed → Bool
has_checker p = not (is_empty (strip p.spj_code))

abbrev pub no_tests : Parsed → Bool
no_tests p = elim p.tests [ [] ↦ true | t ∷ ts ↦ false ]

abbrev pub is_published : Parsed → Bool
is_published p = not (no_tests p) && not p.has_spj

-- the row of the problem, with the cases that were stored
unfoldable pub problem_row : ℕ → ℕ → ℕ → List ℕ → Option ℕ → Parsed → Problem
problem_row pid owner now case_ids checker p = record {
  id = pid;
  owner_id = owner;
  team_id = none;
  visibility = ProblemVisibility.public_;
  status = if is_published p then ProblemStatus.published else ProblemStatus.draft;
  time_limit_ms = p.time_limit_ms;
  memory_limit_mb = p.memory_limit_mb;
  active_case_ids = case_ids;
  pending_case_ids = none;
  spj_oss_id = none;
  pending_spj_oss_id = checker;
  case_status = if no_tests p then CaseStatus.empty else CaseStatus.ok_;
  cases_revision = 0;
  pending_verified = false;
  samples_updated_at = now;
  verified_by = if is_published p then some owner else none;
  verified_at = if is_published p then some now else none;
  published_at = if is_published p then some now else none;
  source_problem_id = none;
}

-- the whole entry, of a problem without inlined pictures
unfoldable pub entry : ℕ → ℕ → ℕ → List CaseRow → Option ℕ → Parsed → Entry
unfolding problem_row build_solution
entry pid owner now rows checker p = record {
  row = problem_row pid owner now (map (λ r. r.id) rows) checker p;
  title = p.title;
  background = or_text p.source no_background;
  description = or_text p.description p.title;
  input_description = or_text p.input_description no_background;
  output_description = or_text p.output_description no_background;
  note = or_none p.hint;
  solution = build_solution p.solutions;
  samples = map parsed_sample p.samples;
  difficulty = p.difficulty;
  cases = rows;
}

-- the clean-up after an exception
unfoldable pub delete_all : Storage → List ℕ → List ℕ → List ℕ
delete_all storage keys objects = filter (λ k. not (elem k keys) || storage.delete_raises k) objects

pub data Status : Type 0 where
  published draft draft_spj duplicate skipped_spj failed : Status

abbrev pub status_of : Parsed → Status
status_of p =
    if has_checker p
    then Status.draft_spj
    else if no_tests p
    then Status.draft
    else Status.published

-- the end of import_one: a commit, or a rollback and the clean-up
abbrev pub finish_import :
    Storage → ℕ → ℕ → ℕ → Option ℕ → List ℕ → Parsed → World → Loop → (_ : World) × Status
finish_import storage owner now pid checker first p w (Loop.done rows uploaded next) = (
  record {
    problems = w.problems ++ (entry pid owner now rows checker p ∷ []);
    objects = (first ++ uploaded) ++ w.objects;
    next = next;
  },
  status_of p,
)
finish_import storage owner now pid checker first p w (Loop.raised written uploaded next) = (
  record {
    problems = w.problems;
    objects = delete_all storage (first ++ uploaded) ((first ++ written) ++ w.objects);
    next = next;
  },
  Status.failed,
)

-- Python's `needle in text`
unfoldable pub starts_with : List ℕ → List ℕ → Bool
starts_with [] s = true
starts_with (c ∷ cs) [] = false
starts_with (c ∷ cs) (d ∷ ds) = (c == d) && starts_with cs ds

unfoldable pub contains : List ℕ → List ℕ → Bool
unfolding starts_with
contains needle [] = is_empty needle
contains needle (c ∷ cs) = starts_with needle (c ∷ cs) || contains needle cs

-- a text in which convert_import_images looks for pictures
abbrev pub has_picture : List ℕ → Bool
has_picture t = contains (text "data:image") t

-- none of the texts of a problem: convert_import_images returns them as they are and stores nothing
unfoldable pub without_pictures : Parsed → Bool
unfolding contains
without_pictures p = not (
    has_picture p.description
    || (has_picture p.input_description
        || (has_picture p.output_description || (has_picture p.hint || has_picture p.source))))

-- import_one, of a problem without pictures; `failed` is an exception
unfoldable pub import_one : Storage → ℕ → ℕ → Parsed → World → (_ : World) × Status
unfolding put_cases entry delete_all strip
import_one storage owner now p w =
    let pid = w.next in
    let spj_key = w.next + 1 in
    if has_checker p
    then if storage.put_raises spj_key
      then finish_import storage owner now pid none [] p w (Loop.raised [] [] (w.next + 2))
      else finish_import storage owner now pid (some spj_key) (spj_key ∷ []) p w
          (put_cases storage pid (w.next + 2) 0 p.tests)
    else finish_import storage owner now pid none [] p w
        (put_cases storage pid (w.next + 1) 0 p.tests)
