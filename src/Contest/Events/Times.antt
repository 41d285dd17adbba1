-- ===== src/Contest/Events/Times.antt =====
-- The times of every contest stay consistent in every history.
use pigeon_oj.Base.{ℕ, ◌≡◌, false, arith, ok}
use pigeon_oj.Contest.{ContestDb}
use pigeon_oj.Contest.Scoring.Rows.{contests-update_ranking_on_result}
use pigeon_oj.Contest.Access.{find_contest, register}
use pigeon_oj.Contest.Edit.{patched}
use pigeon_oj.Contest.Lifecycle.{extended}
use pigeon_oj.Contest.Events.{Step, Steps}
use pigeon_oj.Contest.Events.Edits.{
  Edited-TimesOk, extend-Edited, freeze-TimesOk, unfreeze-Edited, update-Edited,
}
use pigeon_oj.Contest.Events.Ranges.{
  TimesOk, create-TimesOk, create_team_contest-TimesOk, transition-TimesOk,
}

register-contests :
    (db after : ContestDb) (now u cid : ℕ)
    → register db now u cid ≡ ok after
    → after.contests ≡ db.contests
unfolding register find_contest
register-contests db after now u cid h = ground (arith, h)

step-TimesOk : (db after : ContestDb) → Step db after → TimesOk db → TimesOk after
step-TimesOk _ _ (Step.created db after u cid b h) t = create-TimesOk db after u cid b h t
step-TimesOk _ _ (Step.created_in_team db after u team cid b h) t =
    create_team_contest-TimesOk db after u team cid b h t
step-TimesOk _ _ (Step.updated db after u cid b h) t =
    Edited-TimesOk db after cid (patched b) (update-Edited db after u cid b h) t
step-TimesOk _ _ (Step.extended_to db after now u cid n h) t =
    Edited-TimesOk db after cid (extended n) (extend-Edited db after now u cid n h) t
step-TimesOk _ _ (Step.freeze_set db after now u cid at h) t =
    freeze-TimesOk db after now u cid at h t
step-TimesOk _ _ (Step.unfrozen db after factor u cid h) t =
    Edited-TimesOk db after cid (λ x. record x { board_frozen = false })
      (unfreeze-Edited db after factor u cid h) t
step-TimesOk _ _ (Step.registered_by db after now u cid h) t =
    rw (register-contests db after now u cid h) t
step-TimesOk _ _ (Step.judged db factor now s status) t =
    rw (contests-update_ranking_on_result db factor now s status) t
step-TimesOk _ _ (Step.ticked db now) t = transition-TimesOk now db t

-- In every history of requests, judge results and ticks that begins with contests whose times are
-- consistent, the times of every contest stay consistent: the start is before the end, registration does
-- not close before it opens nor after the end, and a freezing moment lies after the start and not after
-- the end.
pub times_stay_consistent : (db after : ContestDb) → Steps db after → TimesOk db → TimesOk after
times_stay_consistent _ _ (Steps.done db) t = t
times_stay_consistent _ _ (Steps.more a b c past s) t =
    step-TimesOk b c s (times_stay_consistent a b past t)
