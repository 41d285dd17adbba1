-- ===== src/Space/Shown.antt =====
-- The results of a submission's cases, in the order in which its detail shows them.
use mathlib.Core.List.{Perm}
use pigeon_oj.Base.{◌≡◌, Bool, false, List, Pairs, arith, ltb}
use pigeon_oj.Base.Sorting.{sort_by-perm, sort_by-Pairs}
use pigeon_oj.Model.{Problem}
use pigeon_oj.Space.Submitting.{CaseResult, judged_ids, position_of, shown_results}

-- The detail of a submission shows each result once, by the positions of the cases in the judged set, and results
-- of cases that are no longer in it last.
pub shown_in_order :
    (p : Problem) (verify : Bool) (rows : List CaseResult)
    → Perm (shown_results p verify rows) rows
      × Pairs
          (λ a b.
            ltb (position_of (judged_ids p verify) b) (position_of (judged_ids p verify) a) ≡ false)
          (shown_results p verify rows)
unfolding shown_results
shown_in_order p verify rows = (
  sort_by-perm
      (λ a b. ltb (position_of (judged_ids p verify) a) (position_of (judged_ids p verify) b)) rows,
  sort_by-Pairs
      (λ a b. ltb (position_of (judged_ids p verify) a) (position_of (judged_ids p verify) b))
      (λ x y h. ground (arith, h)) (λ x y z h k. ground (arith, h, k)) rows,
)
