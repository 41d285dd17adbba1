-- ===== src/Problems/History.antt =====
-- A history of one problem, as the changes that accepted requests and ended verifications make to its row.
use pigeon_oj.Base.{
  ℕ, ◌≡◌, inl, inr, Bool, true, false, not, ◌&&◌, ◌||◌, Option, none, some, List, [], ◌∷◌, arith,
  sym, subst, given, Result-cases, ok,
}
use pigeon_oj.Model.{ProblemVisibility, Problem, is_published}
use pigeon_oj.Problems.{is_nil}
use pigeon_oj.Problems.Patching.{
  CaseUpsert, TestRow, CaseStore, staged_with, patch_cases, Patched, patch_cases-Patched,
}
use pigeon_oj.Problems.Operations.{
  CaseItem, upload_cases, replace_cases, replace_spj, remove_spj, apply_pending_cases,
  replace_samples, publish, archive, update, passed_problem,
}

-- the request of `replace_cases` holds a case at least
pub data Change : Problem → Problem → Type 0 where
  cases_replaced :
      (p q : Problem) (put : ℕ → Bool) (items : List CaseItem)
      → is_nil items ≡ false
      → replace_cases put items p ≡ ok q
      → Change p q
  cases_patched :
      (p q : Problem) (store : CaseStore) (rows added : List TestRow) (next : ℕ)
      (upserts : List CaseUpsert) (deleted : List ℕ)
      → patch_cases store rows next upserts deleted p ≡ ok (q, added)
      → Change p q
  spj_replaced :
      (p q : Problem) (stored : Bool) (key : ℕ) → replace_spj stored key p ≡ ok q → Change p q
  spj_removed : (p q : Problem) → remove_spj p ≡ ok q → Change p q
  applied : (p q : Problem) → apply_pending_cases p ≡ ok q → Change p q
  samples_replaced : (p q : Problem) (now : ℕ) → replace_samples now p ≡ ok q → Change p q
  published_at_ : (p q : Problem) (now : ℕ) → publish now p ≡ ok q → Change p q
  archived_ : (p q : Problem) → archive p ≡ ok q → Change p q
  updated :
      (p q : Problem) (v : Option ProblemVisibility) (time memory : Option ℕ)
      → update v time memory p ≡ ok q
      → Change p q
  verified_by_ : (p : Problem) (now verifier : ℕ) → Change p (passed_problem now verifier p)

pub data Changes : Problem → Problem → Type 0 where
  done : (p : Problem) → Changes p p
  more : (p q r : Problem) → Changes p q → Change q r → Changes p r

-- staged cases are never none at all, and a published problem has cases in effect
abbrev pub staged_ok : Option (List ℕ) → Bool
staged_ok none = true
staged_ok (some ids) = not (is_nil ids)

abbrev pub has_cases : Problem → Bool
has_cases p =
    staged_ok p.pending_case_ids && (not (is_published p.status) || not (is_nil p.active_case_ids))

upload-some :
    (put : ℕ → Bool) (items : List CaseItem) (ids : List ℕ)
    → is_nil items ≡ false
    → upload_cases put items ≡ ok ids
    → is_nil ids ≡ false
unfolding upload_cases
upload-some put [] ids hn h = ground (arith, hn)
upload-some put (i ∷ items) ids hn h = ground (arith, h)

replace_cases-has_cases :
    (p q : Problem) (put : ℕ → Bool) (items : List CaseItem)
    → is_nil items ≡ false
    → replace_cases put items p ≡ ok q
    → has_cases p ≡ true
    → has_cases q ≡ true
unfolding replace_cases
replace_cases-has_cases p q put items hn h k = elim (Result-cases (upload_cases put items)) [
  | inl (e, f) ↦ ground (arith, h, f)
  | inr (ids, f) ↦ ground (arith, h, f, k, upload-some put items ids hn f)
]

apply-has_cases :
    (p q : Problem) → apply_pending_cases p ≡ ok q → has_cases p ≡ true → has_cases q ≡ true
unfolding apply_pending_cases
apply-has_cases p q h k = ground (arith, h, k)

Patched-has_cases : (p q : Problem) → Patched p q → has_cases p ≡ true → has_cases q ≡ true
unfolding staged_with
Patched-has_cases p q (inl same) k = subst (λ x. has_cases x ≡ true) (sym same) k
Patched-has_cases p q (inr (ids, some_left, same)) k =
    subst (λ x. has_cases x ≡ true) (sym same) (ground (arith, some_left, k))

has_cases_step : (p q : Problem) → Change p q → has_cases p ≡ true → has_cases q ≡ true
has_cases_step _ _ (Change.cases_replaced p q put items hn h) k =
    replace_cases-has_cases p q put items hn h k
has_cases_step _ _ (Change.cases_patched p q store rows added next upserts deleted h) k =
    Patched-has_cases p q
      (given (λ r. Patched p r.0) (patch_cases store rows next upserts deleted p) (q, added)
        (patch_cases-Patched store rows next upserts deleted p) h)
      k
has_cases_step _ _ (Change.spj_replaced p q stored key h) k =
    (unfold replace_spj in ground (arith, h, k))
has_cases_step _ _ (Change.spj_removed p q h) k = (unfold remove_spj in ground (arith, h, k))
has_cases_step _ _ (Change.applied p q h) k = apply-has_cases p q h k
has_cases_step _ _ (Change.samples_replaced p q now h) k =
    (unfold replace_samples in ground (arith, h, k))
has_cases_step _ _ (Change.published_at_ p q now h) k = (unfold publish in ground (arith, h, k))
has_cases_step _ _ (Change.archived_ p q h) k = (unfold archive in ground (arith, h, k))
has_cases_step _ _ (Change.updated p q v time memory h) k = (unfold update in ground (arith, h, k))
has_cases_step _ _ (Change.verified_by_ p now verifier) k = (unfold passed_problem in k)

-- In every history of a problem that begins with the problem not published, or published with cases in
-- effect, and with no empty set of cases staged: it is never published without cases in effect.
pub published_has_cases : (p q : Problem) → Changes p q → has_cases p ≡ true → has_cases q ≡ true
published_has_cases _ _ (Changes.done p) k = k
published_has_cases _ _ (Changes.more p q r past c) k =
    has_cases_step q r c (published_has_cases p q past k)
