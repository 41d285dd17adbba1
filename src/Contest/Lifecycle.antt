-- ===== src/Contest/Lifecycle.antt =====
-- The life of a contest: the periodic `ContestService.transition` with the updates of ContestRepository
-- that it runs, and the managers' operations during a contest, `extend`, `update_freeze_time` and
-- `unfreeze`. `now` is the clock.
pub mod Transition
use pigeon_oj.Base.{
  ℕ, Bool, true, false, not, ◌&&◌, Option, none, some, List, [], ◌∷◌, map, filter, elem, is_some,
  ltb, leb, ◌==◌, if◌then◌else◌, Code, Result, ok, err, ◌>>=◌, ◌>>◌, refuse_if,
}
use pigeon_oj.Base.Integers.{ℤ}
use pigeon_oj.Model.{ContestStatus, Contest}
use pigeon_oj.Ranking.{RankingRow, freeze_rows}
use pigeon_oj.Contest.{ContestDb, invalidate_board_cache}
use pigeon_oj.Contest.Recompute.{recompute_rankings}
use pigeon_oj.Contest.Access.{require_manage}
use pigeon_oj.Contest.Edit.{set_contest, bad_freeze, is_scheduled}

abbrev pub is_running : ContestStatus → Bool
is_running ContestStatus.running = true
is_running _ = false

abbrev pub is_finished : ContestStatus → Bool
is_finished ContestStatus.finished = true
is_finished _ = false

-- `freeze_time is not None and freeze_time <= now`
abbrev pub freeze_due : Option ℕ → ℕ → Bool
freeze_due none now = false
freeze_due (some f) now = leb f now

-- ContestRepository.start_due_contests
unfoldable pub start_due : ℕ → Contest → Contest
start_due now c =
    if is_scheduled c.status && leb c.start_time now
    then record c { status = ContestStatus.running }
    else c

-- the WHERE clause of ContestRepository.list_freeze_candidates
unfoldable pub freeze_candidate : ℕ → Contest → Bool
freeze_candidate now c = is_running c.status && (not c.board_frozen && freeze_due c.freeze_time now)

-- ContestRepository.freeze_contests
unfoldable pub freeze_listed : List ℕ → ℕ → Contest → Contest
freeze_listed ids at c =
    if elem c.id ids then record c { board_frozen = true; frozen_at = some at } else c

-- ContestRepository.finish_due_contests
unfoldable pub finish_due : ℕ → Contest → Contest
finish_due now c =
    if is_running c.status && leb c.end_time now
    then record c { status = ContestStatus.finished }
    else c

unfoldable pub freeze_all : List ℕ → List RankingRow → List RankingRow
freeze_all [] rows = rows
freeze_all (c ∷ cs) rows = freeze_all cs (freeze_rows c rows)

unfoldable pub invalidate_all : List ℕ → ContestDb → ContestDb
unfolding invalidate_board_cache
invalidate_all [] db = db
invalidate_all (c ∷ cs) db = invalidate_all cs (invalidate_board_cache c db)

-- the ids of the contests that this tick freezes
unfoldable pub freezing : ℕ → List Contest → List ℕ
unfolding start_due freeze_candidate
freezing now cs = map (λ c. c.id) (filter (freeze_candidate now) (map (start_due now) cs))

-- ContestService.transition
unfoldable pub transition : ℕ → ContestDb → ContestDb
unfolding freezing freeze_all invalidate_all freeze_listed finish_due start_due
transition now db =
    let ids = freezing now db.contests in
    invalidate_all ids (record db {
      contests =
          map (finish_due now) (map (freeze_listed ids now) (map (start_due now) db.contests));
      rankings = freeze_all ids db.rankings;
    })

-- ContestService.extend
unfoldable pub extended : ℕ → Contest → Contest
extended new_end c = record c {
  end_time = new_end;
  status = if is_finished c.status then ContestStatus.running else c.status;
}

unfoldable pub extend : ContestDb → ℕ → ℕ → ℕ → ℕ → Result ContestDb
unfolding require_manage set_contest extended
extend db now u cid new_end = require_manage cid u db >>= λ c.
    refuse_if (is_scheduled c.status) Code.resource_state_conflict
    >> refuse_if (leb new_end c.end_time) Code.param_format_invalid
    >> refuse_if (leb new_end now) Code.param_format_invalid
    >> refuse_if (leb new_end c.start_time) Code.param_format_invalid
    >> ok (set_contest cid (extended new_end) db)

unfoldable pub freeze_now : ℕ → ℕ → ContestDb → ContestDb
unfolding set_contest invalidate_board_cache
freeze_now cid now db =
    let frozen = set_contest cid (λ c. record c { board_frozen = true; frozen_at = some now }) db in
    invalidate_board_cache cid (record frozen { rankings = freeze_rows cid frozen.rankings })

-- ContestService.update_freeze_time
unfoldable pub update_freeze_time : ContestDb → ℕ → ℕ → ℕ → Option ℕ → Result ContestDb
unfolding require_manage set_contest freeze_now
update_freeze_time db now u cid freeze_at = require_manage cid u db >>= λ c.
    refuse_if (is_finished c.status) Code.resource_state_conflict
    >> refuse_if c.board_frozen Code.resource_state_conflict
    >> refuse_if (bad_freeze c.start_time c.end_time freeze_at) Code.param_format_invalid
    >> (let timed = set_contest cid (λ x. record x { freeze_time = freeze_at }) db in
        ok (
          if is_running c.status && freeze_due freeze_at now
          then freeze_now cid now timed
          else timed))

-- ContestService.unfreeze
unfoldable pub unfreeze : ContestDb → ℤ → ℕ → ℕ → Result ContestDb
unfolding require_manage set_contest recompute_rankings invalidate_board_cache
unfreeze db factor u cid = require_manage cid u db >>= λ c.
    refuse_if (is_running c.status) Code.resource_state_conflict
    >> refuse_if (not c.board_frozen) Code.resource_state_conflict
    >> ok (
        invalidate_board_cache cid (
          set_contest cid (λ x. record x { board_frozen = false })
            (recompute_rankings c factor db)))
