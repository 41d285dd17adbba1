-- ===== src/Contest/Scoring.antt =====
-- The scoreboard during a contest: `ContestService.update_ranking_on_result`, which a judge result
-- calls. `now` is the clock, `factor` the configured penalty of a wrong attempt in minutes.
pub mod Rows
use pigeon_oj.Base.{ℕ, false, not, ◌||◌, Option, none, some, is_some, if◌then◌else◌}
use pigeon_oj.Base.Integers.{ℤ, pos, ◌+ℤ◌, ◌*ℤ◌, floor_div_sub}
use pigeon_oj.Model.{
  RuleType, SubmissionStatus, Submission, Contest, is_contest, is_accepted, is_system_error,
}
use pigeon_oj.Ranking.{
  RankingRow, get_row, ensure_row, increment_attempts, mark_accepted, bump_score,
}
use pigeon_oj.Contest.{ContestDb, get_contest, invalidate_board_cache}

-- microseconds of a minute
abbrev pub minute : ℕ
minute = 60000000

-- `int((t - start).total_seconds() // 60) + attempts * factor`
unfoldable pub penalty_of : ℕ → ℕ → ℕ → ℤ → ℤ
penalty_of start t attempts factor = floor_div_sub t start minute +ℤ pos attempts *ℤ factor

-- the first accepted result of a problem; a row that is accepted already stays as it is
accept_first : Option RankingRow → ContestDb → Contest → ℤ → ℕ → Submission → ContestDb
accept_first none db c factor now s = db
accept_first (some row) db c factor now s =
    if row.accepted
    then db
    else invalidate_board_cache c.id (record db {
      rankings =
          mark_accepted c.id s.user_id s.problem_id now
            (penalty_of c.start_time now row.attempts factor) db.rankings;
    })

count_attempt : ContestDb → Contest → Submission → ContestDb
count_attempt db c s = record db {
  rankings = increment_attempts c.id s.user_id s.problem_id db.rankings;
}

unfoldable pub score_result :
    RuleType → ContestDb → Contest → ℤ → ℕ → Submission → SubmissionStatus → ContestDb
unfolding accept_first count_attempt
score_result RuleType.acm db c factor now s status =
    if is_accepted status
    then accept_first (get_row c.id s.user_id s.problem_id db.rankings) db c factor now s
    else invalidate_board_cache c.id (count_attempt db c s)
score_result RuleType.ioi db c factor now s status =
    let bumped = record db {
      rankings = bump_score c.id s.user_id s.problem_id s.score db.rankings;
    } in
    invalidate_board_cache c.id (if is_accepted status then bumped else count_attempt bumped c s)

update_in : Option Contest → ContestDb → ℤ → ℕ → Submission → SubmissionStatus → ContestDb
update_in none db factor now s status = db
update_in (some c) db factor now s status =
    if c.board_frozen
    then db
    else score_result c.rule_type
        (record db { rankings = ensure_row c.id s.user_id s.problem_id false db.rankings }) c factor
        now s status

contest_of : Option ℕ → ContestDb → Option Contest
contest_of none db = none
contest_of (some c) db = get_contest c db

unfoldable pub update_ranking_on_result :
    ContestDb → ℤ → ℕ → Submission → SubmissionStatus → ContestDb
unfolding update_in contest_of
update_ranking_on_result db factor now s status =
    if not (is_contest s.submit_type) || not (is_some s.contest_id)
    then db
    else if s.is_after_contest || is_system_error status
    then db
    else update_in (contest_of s.contest_id db) db factor now s status
