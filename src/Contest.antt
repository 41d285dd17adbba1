-- ===== src/Contest.antt =====
-- The state that src/backend/app/services/contest.py works on: the contests, the scoreboard rows, the submissions, which
-- contests have a scoreboard in the Redis cache, and the problems, role grants and registrations it reads.
pub mod Scoring
pub mod Recompute
pub mod Agreement
pub mod Board
pub mod Reveal
pub mod Access
pub mod Edit
pub mod Lifecycle
pub mod Events
use pigeon_oj.Base.{ℕ, Option, none, some, List, find?, discard, ◌==◌}
use pigeon_oj.Model.{Contest, ContestProblem, Registration, RoleGrant, Problem, Submission}
use pigeon_oj.Ranking.{RankingRow}

pub record ContestDb : Type 0 where
  pub contests : List Contest
  pub problems : List Problem
  pub grants : List RoleGrant
  pub registrations : List Registration
  pub contest_problems : List ContestProblem
  pub rankings : List RankingRow
  pub submissions : List Submission
  pub cached_boards : List ℕ

-- ContestRepository.get_by_id
unfoldable pub get_contest : ℕ → ContestDb → Option Contest
get_contest c db = find? (λ x. x.id == c) db.contests

-- `db.get(Problem, id)`
unfoldable pub get_problem : ℕ → ContestDb → Option Problem
get_problem p db = find? (λ x. x.id == p) db.problems

-- ContestService._invalidate_board_cache, where Redis answers
unfoldable pub invalidate_board_cache : ℕ → ContestDb → ContestDb
invalidate_board_cache c db = record db { cached_boards = discard c db.cached_boards }
