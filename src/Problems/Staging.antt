-- ===== src/Problems/Staging.antt =====
-- The two sets of test cases of a problem: what judges a submission, and when that changes.
use pigeon_oj.Base.{
  ℕ, ◌≡◌, ◌≢◌, inl, inr, Bool, true, false, not, ◌&&◌, List, arith, is_some, ok, succeeds,
  Result-cases,
}
use pigeon_oj.Model.{CaseStatus, Problem, is_archived}
use pigeon_oj.Problems.{
  is_nil, derive_case_status, judged_case_ids, judged_spj_key, needs_reverification,
}
use pigeon_oj.Problems.Operations.{
  CaseItem, upload_cases, replace_cases, replace_spj, apply_pending_cases, publish, passed_problem,
}

-- contest and practice submissions are judged as before
abbrev pub SameLive : Problem → Problem → Type 0
SameLive p q =
    (judged_case_ids q false ≡ judged_case_ids p false)
    × (judged_spj_key q false ≡ judged_spj_key p false)

-- they are judged by what a verification of the problem was judged by, and that had passed
abbrev pub Promoted : Problem → Problem → Type 0
Promoted p q =
    (p.pending_verified ≡ true)
    × (judged_case_ids q false ≡ judged_case_ids p true)
    × (judged_spj_key q false ≡ judged_spj_key p true)

-- A request to publish a problem is accepted exactly when the problem is not archived, has cases in effect,
-- and does not need to be verified again.
pub publish_needs_no_verification :
    (now : ℕ) (p : Problem)
    → succeeds (publish now p) ≡ (
        not (is_archived p.status)
        && (not (is_nil p.active_case_ids) && not (needs_reverification p)))
unfolding publish needs_reverification
publish_needs_no_verification now p = ground arith

-- Where a verification passes after the test cases of a problem have been replaced, the staged
-- changes can be applied, and once they are, the replaced cases judge the practice and contest
-- submissions.
pub late_verification_promotes :
    (p q : Problem) (put : ℕ → Bool) (items : List CaseItem) (ids : List ℕ) (now verifier : ℕ)
    → upload_cases put items ≡ ok ids
    → replace_cases put items p ≡ ok q
    → (r : Problem) × (apply_pending_cases (passed_problem now verifier q) ≡ ok r)
      × (judged_case_ids r false ≡ ids)
unfolding replace_cases apply_pending_cases passed_problem judged_case_ids
late_verification_promotes p q put items ids now verifier hu h =
    elim (Result-cases (apply_pending_cases (passed_problem now verifier q))) [
      | inl (e, f) ↦ ground (arith, hu, h, f)
      | inr (r, f) ↦ (r, f, ground (arith, hu, h, f))
    ]

-- A problem whose staged test cases have passed a verification, as its stored status says: after its
-- checker is replaced, the stored status still says so, while the status that its columns determine does
-- not.
pub replaced_checker_leaves_status :
    (p q : Problem) (stored : Bool) (key : ℕ)
    → is_some p.pending_case_ids ≡ true
    → p.pending_verified ≡ true
    → p.case_status ≡ derive_case_status p
    → replace_spj stored key p ≡ ok q
    → (q.case_status ≡ CaseStatus.verified) × (derive_case_status q ≢ CaseStatus.verified)
unfolding replace_spj derive_case_status
replaced_checker_leaves_status p q stored key hp hv hs h =
    (ground (arith, hp, hv, hs, h), λ e. ground (arith, hp, hv, hs, h, e))
