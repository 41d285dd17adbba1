-- ===== src/Contest/Recompute.antt =====
-- The scoreboard from the submissions alone: `ContestService._recompute_rankings`, which the manual
-- unfreezing calls, and the cells of `_aggregate_final_rows`, which are computed the same way.
pub mod Cells
pub mod Lookup
use pigeon_oj.Base.{
  ℕ, max, Bool, true, false, not, ◌&&◌, Option, none, some, List, [], ◌∷◌, map, filter, count,
  head?, length, ltb, ◌==◌, if◌then◌else◌, opt_eq,
}
use pigeon_oj.Base.Integers.{ℤ, pos}
use pigeon_oj.Base.Sorting.{sort_by}
use pigeon_oj.Model.{RuleType, Submission, Contest, is_contest, is_acm, is_accepted, is_counted}
use pigeon_oj.Ranking.{RankingRow, delete_rows, add_rows}
use pigeon_oj.Contest.{ContestDb}
use pigeon_oj.Contest.Scoring.{penalty_of}

-- ContestSubmissionQueryRepository.list_contest_submissions
unfoldable pub list_contest_submissions : ℕ → List Submission → List Submission
list_contest_submissions c subs =
    sort_by (λ a b. ltb a.created_at b.created_at)
      (filter
        (λ s. opt_eq s.contest_id (some c) && (is_contest s.submit_type && not s.is_after_contest))
        subs)

abbrev pub counted : Submission → Bool
counted s = is_counted s.status

abbrev pub solved : Submission → Bool
solved s = is_accepted s.status

abbrev pub earlier : Submission → Submission → Bool
earlier a b = ltb a.created_at b.created_at

-- the submissions of one user for one problem
abbrev pub belongs : ℕ → ℕ → Submission → Bool
belongs u p s = (s.user_id == u) && (s.problem_id == p)

-- the keys of `grouped`, in the order of their first submission
unfoldable pub group_keys : List Submission → List (ℕ × ℕ)
group_keys [] = []
group_keys (s ∷ ss) =
    (s.user_id, s.problem_id)
    ∷ filter (λ k. not ((k.0 == s.user_id) && (k.1 == s.problem_id))) (group_keys ss)

-- `max((int(s.score or 0) for s in group), default=0)`
unfoldable pub best_score : List Submission → ℕ
best_score [] = 0
best_score (s ∷ ss) = max s.score (best_score ss)

-- the values of one cell
pub record Cell : Type 0 where
  pub accepted : Bool
  pub accepted_at : Option ℕ
  pub attempts : ℕ
  pub penalty : ℤ
  pub score : ℕ

unfoldable pub cell_from : RuleType → ℕ → ℤ → List Submission → Option Submission → Cell
cell_from rule start factor group none = record {
  accepted = false;
  accepted_at = none;
  attempts = length group;
  penalty = pos 0;
  score = best_score group;
}
cell_from rule start factor group (some first) =
    let tries = count (λ s. not (solved s) && ltb s.created_at first.created_at) group in
    record {
      accepted = true;
      accepted_at = some first.created_at;
      attempts = tries;
      penalty = if is_acm rule then penalty_of start first.created_at tries factor else pos 0;
      score = best_score group;
    }

-- the cell of a group that is sorted by submission time
unfoldable pub sorted_cell : RuleType → ℕ → ℤ → List Submission → Cell
unfolding cell_from
sorted_cell rule start factor group =
    cell_from rule start factor group (head? (filter solved group))

unfoldable pub cell_of : RuleType → ℕ → ℤ → List Submission → Cell
cell_of rule start factor group = sorted_cell rule start factor (sort_by earlier group)

unfoldable pub row_of_cell : ℕ → ℕ → ℕ → Cell → RankingRow
row_of_cell c u p x = record {
  contest_id = c;
  user_id = u;
  problem_id = p;
  accepted = x.accepted;
  accepted_at = x.accepted_at;
  attempts = x.attempts;
  penalty = x.penalty;
  score = x.score;
  is_frozen = false;
}

-- the fresh rows, one for each group
unfoldable pub fresh_rows : Contest → ℤ → List Submission → List RankingRow
fresh_rows c factor terminal =
    map
      (λ k.
        row_of_cell c.id k.0 k.1
          (cell_of c.rule_type c.start_time factor (filter (belongs k.0 k.1) terminal)))
      (group_keys terminal)

unfoldable pub recompute_rankings : Contest → ℤ → ContestDb → ContestDb
unfolding fresh_rows
recompute_rankings c factor db =
    let terminal = filter counted (list_contest_submissions c.id db.submissions) in
    record db { rankings = add_rows (fresh_rows c factor terminal) (delete_rows c.id db.rankings) }
