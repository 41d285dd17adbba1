-- ===== src/Import/Cases.antt =====
-- The test cases of an imported problem: the loop of `import_one` over the tests, with the object store.
use pigeon_oj.Base.{
  ℕ, ◌+◌, ◌-◌, Bool, ◌&&◌, List, [], ◌∷◌, ◌++◌, length, take, drop, ltb, leb, if◌then◌else◌,
}
use pigeon_oj.Contest.Edit.{str}
use pigeon_oj.Import.{text, Pair}
use pigeon_oj.Import.Texts.{strip, same_text, lower, or_text}

-- The object store: `put_raises k` where the object with the key k cannot be stored, `delete_raises k` where it
-- cannot be deleted.
pub record Storage : Type 0 where
  pub put_raises : ℕ → Bool
  pub delete_raises : ℕ → Bool

-- TestCase
pub record CaseRow : Type 0 where
  pub id : ℕ
  pub problem_id : ℕ
  pub name : List ℕ
  pub input_oss_id : ℕ
  pub expected_output_oss_id : ℕ
  pub sort_order : ℕ

-- `name.lower().endswith(suffix)`, then the name without it
unfoldable pub without_suffix : List ℕ → List ℕ → List ℕ
unfolding same_text lower
without_suffix suffix name =
    let k = length suffix in
    let n = length name in
    if leb k n && same_text (drop (n - k) (lower name)) suffix then take (n - k) name else name

-- `f"case{n:02d}"`
abbrev pub default_name : ℕ → List ℕ
default_name n = text "case" ++ (if ltb n 10 then 48 ∷ str n else str n)

unfoldable pub case_name : ℕ → List ℕ → List ℕ
unfolding strip without_suffix str
case_name index name =
    let short =
      without_suffix (text ".txt")
        (without_suffix (text ".out") (without_suffix (text ".in") (strip name))) in
    take 64 (or_text short (default_name (index + 1)))

-- What the loop ends with. The objects that it stored, `written`, are more than those it notes for a
-- clean-up, `uploaded`, where the second object of a test cannot be stored.
pub data Loop : Type 0 where
  done : List CaseRow → List ℕ → ℕ → Loop
  raised : List ℕ → List ℕ → ℕ → Loop

-- the rest of the loop after a test, which came first
abbrev pub after_case : CaseRow → List ℕ → Loop → Loop
after_case row keys (Loop.done rows uploaded next) = Loop.done (row ∷ rows) (keys ++ uploaded) next
after_case row keys (Loop.raised written uploaded next) =
    Loop.raised (keys ++ written) (keys ++ uploaded) next

-- `for idx, case in enumerate(tests)`: two new keys and the id of a new row for a test
unfoldable pub put_cases : Storage → ℕ → ℕ → ℕ → List Pair → Loop
unfolding case_name
put_cases storage pid next index [] = Loop.done [] [] next
put_cases storage pid next index (c ∷ cs) =
    let rest = put_cases storage pid (next + 3) (index + 1) cs in
    let row : CaseRow = record {
      id = next + 2;
      problem_id = pid;
      name = case_name index c.name;
      input_oss_id = next;
      expected_output_oss_id = next + 1;
      sort_order = index;
    } in
    if storage.put_raises next
    then Loop.raised [] [] (next + 2)
    else if storage.put_raises (next + 1)
    then Loop.raised (next ∷ []) [] (next + 2)
    else after_case row (next ∷ (next + 1) ∷ []) rest
