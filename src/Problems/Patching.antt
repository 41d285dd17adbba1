-- ===== src/Problems/Patching.antt =====
-- `ProblemService.patch_cases`: the incremental update of the staged test cases.
use pigeon_oj.Base.{
  ℕ, suc, ◌+◌, ◌≡◌, refl, Bool, false, not, ◌&&◌, ◌||◌, Option, none, some, List, [], ◌∷◌, ◌++◌,
  map, any, find?, elem, ltb, ◌==◌, if◌then◌else◌, Code, Result, ok, err, ◌>>=◌, ◌>>◌, refuse_if,
  ◌⊎◌, inl, inr, Bool-cases, Gives, refuse_if-Gives, bind-Gives, ok-Gives,
}
use pigeon_oj.Base.Sorting.{sort_by}
use pigeon_oj.Model.{Problem, is_archived}
use pigeon_oj.Contest.Edit.{str}
use pigeon_oj.Import.Texts.{is_empty, strip, same_text}
use pigeon_oj.Problems.{is_nil, staged_target, derive_case_status}
use pigeon_oj.Problems.Operations.{with_status}

-- TestCaseItem
pub record CaseUpsert : Type 0 where
  pub id : Option ℕ
  pub name : Option (List ℕ)
  pub input : Option (List ℕ)
  pub expected_output : Option (List ℕ)
  pub sort_order : ℕ

-- a row of test_cases of the problem; keys are numbers
pub record TestRow : Type 0 where
  pub id : ℕ
  pub origin_id : Option ℕ
  pub name : List ℕ
  pub input_oss_id : ℕ
  pub expected_output_oss_id : ℕ
  pub sort_order : ℕ

-- the object storage: whether it is there, whether it takes an object, and the decoded content of one that can be read
pub record CaseStore : Type 0 where
  pub available : Bool
  pub put : ℕ → Bool
  pub get : ℕ → Option (List ℕ)

-- what the loop over the upserts has done: the next id or key, the new version of a case, the new cases
-- with their places, and the rows that were added
pub record Patch : Type 0 where
  pub next : ℕ
  pub id_map : List (ℕ × ℕ)
  pub brand_new : List (ℕ × ℕ)
  pub added : List TestRow

-- `_upload`: the key, and the next one
abbrev pub upload : CaseStore → ℕ → Result (ℕ × ℕ)
upload store next = if store.put next then ok (next, suc next) else err Code.system_upstream_failure

-- `_resolve_side`
unfoldable pub resolve_side : CaseStore → ℕ → ℕ → Option (List ℕ) → Result (ℕ × ℕ)
unfolding same_text
resolve_side store next current none = ok (current, next)
resolve_side store next current (some content) = elim (store.get current) [
  | none ↦ err Code.system_upstream_failure
  | some raw ↦ if same_text raw content then ok (current, next) else upload store next
]

abbrev or_given : Option (List ℕ) → List ℕ → List ℕ
or_given none d = d
or_given (some t) d = t

-- `a or b`, of texts and of numbers
abbrev or_if_empty : List ℕ → List ℕ → List ℕ
or_if_empty t d = if is_empty t then d else t

abbrev or_if_zero : ℕ → ℕ → ℕ
or_if_zero n d = if n == 0 then d else n

-- a given text is blank
abbrev given_blank : Option (List ℕ) → Bool
given_blank none = false
given_blank (some t) = is_empty (strip t)

-- an upsert without an id
unfoldable pub add_case : CaseStore → ℕ → CaseUpsert → Patch → Result Patch
unfolding str strip
add_case store index item s =
    let input = or_given item.input [] in
    let output = or_given item.expected_output [] in
    let place = or_if_zero item.sort_order (index + 1) in
    refuse_if (is_empty (strip input) && is_empty (strip output)) Code.param_format_invalid
    >> (upload store s.next >>= λ i. upload store i.1 >>= λ o. ok (record s {
      next = suc o.1;
      brand_new = s.brand_new ++ (place, o.1) ∷ [];
      added =
          s.added
          ++ record {
            id = o.1;
            origin_id = none;
            name = or_if_empty (or_given item.name []) (str (index + 1));
            input_oss_id = i.0;
            expected_output_oss_id = o.0;
            sort_order = place;
          }
            ∷ [];
    }))

-- an upsert of a row
unfoldable pub change_case : CaseStore → TestRow → CaseUpsert → Patch → Result Patch
unfolding resolve_side strip same_text
change_case store row item s =
    refuse_if (given_blank item.input && given_blank item.expected_output) Code.param_format_invalid
    >> (resolve_side store s.next row.input_oss_id item.input >>= λ i.
        resolve_side store i.1 row.expected_output_oss_id item.expected_output >>= λ o.
        let name = or_given item.name row.name in
        if not (i.0 == row.input_oss_id)
          || (not (o.0 == row.expected_output_oss_id) || not (same_text name row.name))
        then ok (record s {
          next = suc o.1;
          id_map = (row.id, o.1) ∷ s.id_map;
          added =
              s.added
              ++ record {
                id = o.1;
                origin_id = some row.id;
                name = name;
                input_oss_id = i.0;
                expected_output_oss_id = o.0;
                sort_order = row.sort_order;
              }
                ∷ [];
        })
        else ok (record s { next = o.1 }))

-- the loop over the upserts; a row that is missing is a KeyError
unfoldable pub apply_upserts : CaseStore → List TestRow → ℕ → List CaseUpsert → Patch → Result Patch
unfolding add_case change_case
apply_upserts store rows index [] s = ok s
apply_upserts store rows index (item ∷ items) s =
    elim item.id [
      | none ↦ add_case store index item s
      | some i ↦ elim (find? (λ r. r.id == i) rows) [
        | none ↦ err Code.system_upstream_failure
        | some row ↦ change_case store row item s
      ]
    ]
    >>= apply_upserts store rows (suc index) items

-- the ids of the upserts that have one
unfoldable pub upsert_ids : List CaseUpsert → List ℕ
upsert_ids [] = []
upsert_ids (item ∷ items) =
    let rest = upsert_ids items in elim item.id [ none ↦ rest | some i ↦ i ∷ rest ]

abbrev repeated : List ℕ → Bool
repeated [] = false
repeated (i ∷ is) = elem i is || repeated is

-- `sort_overrides.get(cid)`, where 0 is no override
unfoldable pub sort_override : ℕ → List CaseUpsert → ℕ
sort_override c [] = 0
sort_override c (item ∷ items) =
    let rest = sort_override c items in
    elim item.id [ none ↦ rest | some i ↦ if i == c then item.sort_order else rest ]

-- `id_map.get(cid, cid)`
unfoldable pub renewed : ℕ → List (ℕ × ℕ) → ℕ
renewed c [] = c
renewed c ((old, new) ∷ ks) = if old == c then new else renewed c ks

-- the cases that stay, with their places
unfoldable pub kept_entries : List ℕ → List CaseUpsert → List (ℕ × ℕ) → ℕ → List ℕ → List (ℕ × ℕ)
unfolding sort_override renewed
kept_entries deleted upserts id_map position [] = []
kept_entries deleted upserts id_map position (c ∷ cs) =
    let rest = kept_entries deleted upserts id_map (suc position) cs in
    if elem c deleted
    then rest
    else (or_if_zero (sort_override c upserts) position, renewed c id_map) ∷ rest

-- the target, in the order of the places
unfoldable pub patched_ids : List ℕ → List ℕ → List CaseUpsert → Patch → List ℕ
unfolding kept_entries sort_by
patched_ids base deleted upserts s =
    map (λ e. e.1)
      (sort_by (λ a b. ltb a.0 b.0) (kept_entries deleted upserts s.id_map 1 base ++ s.brand_new))

-- the target is staged
unfoldable pub staged_with : List ℕ → Problem → Problem
unfolding derive_case_status
staged_with ids p = with_status (record p {
  pending_case_ids = some ids;
  pending_verified = false;
  cases_revision = p.cases_revision + 1;
})

-- a patch of a target that has an upsert or a deletion
unfoldable pub patch_target :
    CaseStore
    → List TestRow
    → ℕ
    → List CaseUpsert
    → List ℕ
    → List ℕ
    → Problem
    → Result (Problem × List TestRow)
unfolding upsert_ids apply_upserts patched_ids staged_with
patch_target store rows next upserts deleted base p =
    refuse_if (repeated (upsert_ids upserts)) Code.param_format_invalid
    >> (refuse_if (any (λ i. elem i deleted) (upsert_ids upserts)) Code.param_format_invalid
        >> (refuse_if (any (λ i. not (elem i base)) (upsert_ids upserts ++ deleted))
              Code.resource_not_found
            >> (refuse_if (not store.available) Code.system_upstream_failure
                >> (apply_upserts store rows 0 upserts
                      (record { next = next; id_map = []; brand_new = []; added = [] })
                    >>= λ s.
                        refuse_if (is_nil (patched_ids base deleted upserts s))
                          Code.param_format_invalid
                        >> ok (staged_with (patched_ids base deleted upserts s) p, s.added)))))

-- ProblemService.patch_cases: the row of the problem, and the rows that were added
unfoldable pub patch_cases :
    CaseStore
    → List TestRow
    → ℕ
    → List CaseUpsert
    → List ℕ
    → Problem
    → Result (Problem × List TestRow)
unfolding staged_target patch_target
patch_cases store rows next upserts deleted p =
    refuse_if (is_archived p.status) Code.resource_state_conflict
    >> (if is_nil upserts && is_nil deleted
        then ok (p, [])
        else patch_target store rows next upserts deleted (staged_target p).0 p)

-- a patch changes nothing, or stages some cases
abbrev pub Patched : Problem → Problem → Type 0
Patched p q = (q ≡ p) ⊎ ((ids : List ℕ) × (is_nil ids ≡ false) × (q ≡ staged_with ids p))

abbrev PatchedRow : Problem → Problem × List TestRow → Type 0
PatchedRow p r = Patched p r.0

patch_target-Patched :
    (store : CaseStore) (rows : List TestRow) (next : ℕ) (upserts : List CaseUpsert)
    (deleted base : List ℕ) (p : Problem)
    → Gives (PatchedRow p) (patch_target store rows next upserts deleted base p)
unfolding patch_target
patch_target-Patched store rows next upserts deleted base p =
    refuse_if-Gives (PatchedRow p) (repeated (upsert_ids upserts)) Code.param_format_invalid _ λ a.
      refuse_if-Gives (PatchedRow p) (any (λ i. elem i deleted) (upsert_ids upserts))
        Code.param_format_invalid _
        λ b.
          refuse_if-Gives (PatchedRow p)
            (any (λ i. not (elem i base)) (upsert_ids upserts ++ deleted)) Code.resource_not_found _
            λ c.
              refuse_if-Gives (PatchedRow p) (not store.available) Code.system_upstream_failure _
                λ d. bind-Gives (PatchedRow p) (apply_upserts store rows 0 upserts _) _ λ s f.
                  refuse_if-Gives (PatchedRow p) (is_nil (patched_ids base deleted upserts s))
                    Code.param_format_invalid _
                    λ some_left.
                      ok-Gives (PatchedRow p) _
                        (inr (patched_ids base deleted upserts s, some_left, refl))

pub patch_cases-Patched :
    (store : CaseStore) (rows : List TestRow) (next : ℕ) (upserts : List CaseUpsert)
    (deleted : List ℕ) (p : Problem)
    → Gives (λ r. Patched p r.0) (patch_cases store rows next upserts deleted p)
unfolding patch_cases
patch_cases-Patched store rows next upserts deleted p =
    refuse_if-Gives (PatchedRow p) (is_archived p.status) Code.resource_state_conflict _ λ a.
      elim (Bool-cases (is_nil upserts && is_nil deleted)) [
        | inl e ↦ rw e (ok-Gives (PatchedRow p) (p, []) (inl refl))
        | inr e ↦ rw e (patch_target-Patched store rows next upserts deleted (staged_target p).0 p)
      ]
