-- ===== src/Import/Archives.antt =====
-- An upload, from its files to the problems that are added.
use pigeon_oj.Base.{
  ℕ, ◌≡◌, refl, subst, true, not, Option, none, some, is_some, List, [], ◌∷◌, All, All-append, ltb,
  Result, ok, err,
}
use pigeon_oj.Import.{Element, Tag, Parsed}
use pigeon_oj.Import.Texts.{is_empty, strip, strip_left, strip_right}
use pigeon_oj.Import.Reading.{
  Floats, text_of, find_tag, parsed_with, with_numbers, parse_item, parse_time, parse_memory,
  parse_difficulty,
}
use pigeon_oj.Import.Cases.{Storage}
use pigeon_oj.Import.Entering.{World, without_pictures}
use pigeon_oj.Import.Batches.{
  File, ParsedFiles, failed_with, with_items, parse_items, parse_files, SpjMode, Summary,
  known_titles, max_import_attempts, import_parsed, import_archive,
}
use pigeon_oj.Import.Attempts.{length-import_parsed_problems}
use pigeon_oj.Import.Titles.{distinct, distinct-import_parsed_problems}
use pigeon_oj.Import.Ready.{Marked, AddsReady, batch-AddsReady}

checker_needs_mark :
    (e : Option Element) → not (is_empty (strip (text_of e))) ≡ true → is_some e ≡ true
unfolding text_of strip strip_left strip_right
checker_needs_mark none h = cc
checker_needs_mark (some e) h = refl

parsed_with-Marked : (es : List Element) (t m : ℕ) (d : Option ℕ) → Marked (parsed_with es t m d)
unfolding parsed_with
parsed_with-Marked es t m d = checker_needs_mark (find_tag Tag.spj es)

-- what is read satisfies a predicate
abbrev Reads : {A : Type 0} → (A → Type 0) → Option A → Type 0
Reads P none = Unit
Reads P (some a) = P a

with_numbers-Marked :
    (es : List Element) (t m : Option ℕ) (d : Option (Option ℕ))
    → Reads Marked (with_numbers es t m d)
with_numbers-Marked es none m d = tt
with_numbers-Marked es (some t) none d = tt
with_numbers-Marked es (some t) (some m) none = tt
with_numbers-Marked es (some t) (some m) (some d) = parsed_with-Marked es t m d

parse_item-Marked : (floats : Floats) (es : List Element) → Reads Marked (parse_item floats es)
unfolding parse_item
parse_item-Marked floats es =
    with_numbers-Marked es (parse_time floats (find_tag Tag.time_limit es))
      (parse_memory floats (find_tag Tag.memory_limit es))
      (parse_difficulty floats (find_tag Tag.difficulty es))

cons-Marked :
    (a : Option Parsed) (b : Option (List Parsed))
    → Reads Marked a
    → Reads (All Marked) b
    → Reads
        (All Marked)
        (elim a [ none ↦ none | some p ↦ elim b [ none ↦ none | some ps ↦ some (p ∷ ps) ] ])
cons-Marked none b h k = tt
cons-Marked (some p) none h k = tt
cons-Marked (some p) (some ps) h k = (h, k)

parse_items-Marked :
    (floats : Floats) (is : List (List Element)) → Reads (All Marked) (parse_items floats is)
unfolding parse_items
parse_items-Marked floats [] = tt
parse_items-Marked floats (i ∷ is) =
    cons-Marked (parse_item floats i) (parse_items floats is) (parse_item-Marked floats i)
      (parse_items-Marked floats is)

abbrev FilesMarked : ParsedFiles → Type 0
FilesMarked r = All Marked r.parsed

failed_with-Marked :
    (name : List ℕ) (r : Option ParsedFiles)
    → Reads FilesMarked r
    → Reads FilesMarked (failed_with name r)
failed_with-Marked name none h = tt
failed_with-Marked name (some r) h = h

with_items-Marked :
    (a : Option (List Parsed)) (r : Option ParsedFiles)
    → Reads (All Marked) a
    → Reads FilesMarked r
    → Reads FilesMarked (with_items a r)
with_items-Marked none r h k = tt
with_items-Marked (some ps) none h k = tt
with_items-Marked (some ps) (some r) h k = All-append Marked ps r.parsed h k

file-Marked :
    (floats : Floats) (name : List ℕ) (items : Option (List (List Element)))
    (r : Option ParsedFiles)
    → Reads FilesMarked r
    → Reads FilesMarked
        (elim items [ none ↦ failed_with name r | some is ↦ with_items (parse_items floats is) r ])
file-Marked floats name none r h = failed_with-Marked name r h
file-Marked floats name (some is) r h =
    with_items-Marked (parse_items floats is) r (parse_items-Marked floats is) h

parse_files-Marked : (floats : Floats) (fs : List File) → Reads FilesMarked (parse_files floats fs)
unfolding parse_files
parse_files-Marked floats [] = tt
parse_files-Marked floats (f ∷ fs) =
    file-Marked floats f.name f.items (parse_files floats fs) (parse_files-Marked floats fs)

-- what an answer of an import says
abbrev pub Imported : World → (_ : World) × Summary → Type 0
Imported w r =
    AddsReady w r.0
    × (distinct (known_titles w) ≡ true → distinct (known_titles r.0) ≡ true)
    × (r.1.truncated ≡ ltb max_import_attempts r.1.total_parsed)

abbrev Answers : {A : Type 0} → (A → Type 0) → Result A → Type 0
Answers P (ok a) = P a
Answers P (err c) = Unit

items-Imported :
    (storage : Storage) (owner now : ℕ) (w : World) (failures : List _) (items : List Parsed)
    → All Marked items
    → Answers
        (Imported w)
        (import_parsed storage owner now w (record { failures = failures; parsed = items }))
items-Imported storage owner now w failures [] h = tt
items-Imported storage owner now w failures (p ∷ ps) h = (
  batch-AddsReady storage owner now SpjMode.staged max_import_attempts (p ∷ ps) (known_titles w) w
      h,
  distinct-import_parsed_problems storage owner now SpjMode.staged max_import_attempts (p ∷ ps) w,
  (length-import_parsed_problems storage owner now SpjMode.staged max_import_attempts (p ∷ ps)
      (known_titles w) w).1,
)

files-Imported :
    (storage : Storage) (owner now : ℕ) (w : World) (read : Option ParsedFiles)
    → Reads FilesMarked read
    → Reads
        (Answers (Imported w))
        (elim read [ none ↦ none | some r ↦ some (import_parsed storage owner now w r) ])
files-Imported storage owner now w none h = tt
files-Imported storage owner now w (some r) h =
    items-Imported storage owner now w r.failures r.parsed h

upload-Imported :
    (floats : Floats) (storage : Storage) (owner now : ℕ) (upload : Option (List File)) (w : World)
    → Reads (Answers (Imported w)) (import_archive floats storage owner now upload w)
unfolding import_archive
upload-Imported floats storage owner now none w = tt
upload-Imported floats storage owner now (some fs) w =
    files-Imported storage owner now w (parse_files floats fs) (parse_files-Marked floats fs)

-- An upload whose problems hold no inlined picture in their texts: the problems that it adds, after those that are
-- there, are each published with at least one case and in no need of a verification, or drafts that need one; where no
-- two problems had the same title, none have then; and the answer says that problems were left out exactly where more
-- than 20 were read.
pub import_archive-Imported :
    (floats : Floats) (storage : Storage) (owner now : ℕ) (files : List File) (read : ParsedFiles)
    (w w' : World) (summary : Summary)
    → parse_files floats files ≡ some read
    → All (λ p. without_pictures p ≡ true) read.parsed
    → import_archive floats storage owner now (some files) w ≡ some (ok (w', summary))
    → AddsReady w w'
      × (distinct (known_titles w) ≡ true → distinct (known_titles w') ≡ true)
      × (summary.truncated ≡ ltb 20 summary.total_parsed)
import_archive-Imported floats storage owner now files read w w' summary reads plain h =
    subst (Reads (Answers (Imported w))) h (upload-Imported floats storage owner now (some files) w)
