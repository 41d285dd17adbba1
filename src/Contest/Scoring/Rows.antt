-- ===== src/Contest/Scoring/Rows.antt =====
-- What one judge result does to the scoreboard row of each key.
use pigeon_oj.Base.{
  ℕ, ◌+◌, max, ◌≡◌, Bool, true, false, not, ◌&&◌, some, arith, ◌==◌, if◌then◌else◌,
}
use pigeon_oj.Base.Integers.{ℤ}
use pigeon_oj.Model.{
  RuleType, SubmissionStatus, Submission, Contest, is_contest, is_accepted, is_system_error,
}
use pigeon_oj.Ranking.{RankingRow, get_row, ensure_row, bump_score}
use pigeon_oj.Ranking.Lookup.{
  if_open, or_fresh, get_row-ensure_row, get_row-increment_attempts, get_row-mark_accepted,
  get_row-bump_score,
}
use pigeon_oj.Contest.{ContestDb, get_contest, invalidate_board_cache}
use pigeon_oj.Contest.Scoring.{penalty_of, score_result, update_ranking_on_result}

-- the row of the result's own key afterwards
abbrev pub next_row : RuleType → ℕ → ℤ → ℕ → Submission → SubmissionStatus → RankingRow → RankingRow
next_row RuleType.acm start factor now s status row =
    if is_accepted status
    then if_open
        (λ r. record r {
          accepted = true;
          accepted_at = some now;
          penalty = penalty_of start now r.attempts factor;
        })
        row
    else if_open (λ r. record r { attempts = r.attempts + 1 }) row
next_row RuleType.ioi start factor now s status row =
    let bumped = if not row.is_frozen then record row { score = max row.score s.score } else row in
    if is_accepted status
    then bumped
    else if_open (λ r. record r { attempts = r.attempts + 1 }) bumped

abbrev pub mine : ℕ → ℕ → Submission → Bool
mine u p s = (s.user_id == u) && (s.problem_id == p)

module _ (db : ContestDb) (c : Contest) (factor : ℤ) (now : ℕ) (s : Submission) (u p : ℕ) where
  get_row-score_result :
      (rule : RuleType) (status : SubmissionStatus)
      → get_row c.id u p
          (score_result rule
            (record db { rankings = ensure_row c.id s.user_id s.problem_id false db.rankings })
            c
            factor
            now
            s
            status).rankings
        ≡ (if mine u p s
            then some (
                next_row rule c.start_time factor now s status
                  (or_fresh c.id u p (get_row c.id u p db.rankings)))
            else get_row c.id u p db.rankings)
  unfolding score_result invalidate_board_cache
  get_row-score_result RuleType.acm status =
      let rows = ensure_row c.id s.user_id s.problem_id false db.rankings in
      ground (
        arith,
        get_row-ensure_row c.id u p c.id s.user_id s.problem_id db.rankings,
        get_row-ensure_row c.id s.user_id s.problem_id c.id s.user_id s.problem_id db.rankings,
        get_row-increment_attempts c.id u p c.id s.user_id s.problem_id rows,
        get_row-mark_accepted c.id u p c.id s.user_id s.problem_id rows now (
            penalty_of c.start_time now
              (or_fresh c.id s.user_id s.problem_id
                (get_row c.id s.user_id s.problem_id db.rankings)).attempts
              factor),
      )
  get_row-score_result RuleType.ioi status =
      let rows = ensure_row c.id s.user_id s.problem_id false db.rankings in
      ground (
        arith,
        get_row-ensure_row c.id u p c.id s.user_id s.problem_id db.rankings,
        get_row-bump_score c.id u p c.id s.user_id s.problem_id rows s.score,
        get_row-increment_attempts c.id u p c.id s.user_id s.problem_id
            (bump_score c.id s.user_id s.problem_id s.score rows),
      )

-- a submission that the scoreboard of the contest counts
pub record Counts (c : Contest) (s : Submission) : Type 0 where
  pub of_contest : is_contest s.submit_type ≡ true
  pub to_contest : s.contest_id ≡ some c.id
  pub in_time : s.is_after_contest ≡ false

module _ (c : Contest) (open_board : c.board_frozen ≡ false) (factor : ℤ) where
  update_counted :
      (db : ContestDb) (now : ℕ) (s : Submission)
      → get_contest c.id db ≡ some c
      → Counts c s
      → is_system_error s.status ≡ false
      → update_ranking_on_result db factor now s s.status
        ≡ score_result c.rule_type
            (record db { rankings = ensure_row c.id s.user_id s.problem_id false db.rankings })
            c
            factor
            now
            s
            s.status
  unfolding update_ranking_on_result
  update_counted db now s there counts fine =
      simp (counts.of_contest, counts.to_contest, counts.in_time, fine, there, open_board)

  -- The row of every key after a counted result, where the contest is there and not frozen.
  pub get_row-update_ranking_on_result :
      (db : ContestDb) (now : ℕ) (s : Submission) (u p : ℕ)
      → get_contest c.id db ≡ some c
      → Counts c s
      → is_system_error s.status ≡ false
      → get_row c.id u p (update_ranking_on_result db factor now s s.status).rankings ≡ (
          if mine u p s
          then some (
              next_row c.rule_type c.start_time factor now s s.status
                (or_fresh c.id u p (get_row c.id u p db.rankings)))
          else get_row c.id u p db.rankings)
  get_row-update_ranking_on_result db now s u p there counts fine =
      rw (update_counted db now s there counts fine)
        (get_row-score_result db c factor now s u p c.rule_type s.status)

-- A result changes neither the contests nor the submissions.
pub contests-update_ranking_on_result :
    (db : ContestDb) (factor : ℤ) (now : ℕ) (s : Submission) (status : SubmissionStatus)
    → (update_ranking_on_result db factor now s status).contests ≡ db.contests
unfolding update_ranking_on_result score_result invalidate_board_cache
contests-update_ranking_on_result db factor now s status = ground arith
