-- ===== src/Ranking.antt =====
-- The scoreboard table: `ContestRankingRepository` of src/backend/app/repositories/contest.py. A table
-- is a list of rows, an UPDATE rewrites the rows that its WHERE clause selects.
pub mod Lookup
use pigeon_oj.Base.{
  ℕ, ◌+◌, max, Bool, true, false, not, ◌&&◌, Option, none, some, List, [], ◌∷◌, ◌++◌, filter, find?,
  is_some, ◌==◌, if◌then◌else◌,
}
use pigeon_oj.Base.Integers.{ℤ, pos}

-- ContestRanking of models/contest.py
pub record RankingRow : Type 0 where
  pub contest_id : ℕ
  pub user_id : ℕ
  pub problem_id : ℕ
  pub accepted : Bool
  pub accepted_at : Option ℕ
  pub attempts : ℕ
  pub penalty : ℤ
  pub score : ℕ
  pub is_frozen : Bool

-- the WHERE clause on (contest, user, problem)
abbrev pub key_is : ℕ → ℕ → ℕ → RankingRow → Bool
key_is c u p r = (r.contest_id == c) && ((r.user_id == u) && (r.problem_id == p))

-- UPDATE ... SET f WHERE q
unfoldable pub update_where :
    (RankingRow → Bool) → (RankingRow → RankingRow) → List RankingRow → List RankingRow
update_where q f [] = []
update_where q f (r ∷ rs) = (if q r then f r else r) ∷ update_where q f rs

unfoldable pub get_row : ℕ → ℕ → ℕ → List RankingRow → Option RankingRow
get_row c u p rows = find? (key_is c u p) rows

-- the column defaults of the table
abbrev pub fresh_row : ℕ → ℕ → ℕ → Bool → RankingRow
fresh_row c u p frozen = record {
  contest_id = c;
  user_id = u;
  problem_id = p;
  accepted = false;
  accepted_at = none;
  attempts = 0;
  penalty = pos 0;
  score = 0;
  is_frozen = frozen;
}

-- INSERT ... ON CONFLICT DO NOTHING
unfoldable pub ensure_row : ℕ → ℕ → ℕ → Bool → List RankingRow → List RankingRow
unfolding get_row
ensure_row c u p frozen rows =
    if is_some (get_row c u p rows) then rows else rows ++ fresh_row c u p frozen ∷ []

unfoldable pub increment_attempts : ℕ → ℕ → ℕ → List RankingRow → List RankingRow
unfolding update_where
increment_attempts c u p =
    update_where (λ r. key_is c u p r && (not r.accepted && not r.is_frozen))
      (λ r. record r { attempts = r.attempts + 1 })

unfoldable pub mark_accepted : ℕ → ℕ → ℕ → ℕ → ℤ → List RankingRow → List RankingRow
unfolding update_where
mark_accepted c u p at pen =
    update_where (λ r. key_is c u p r && (not r.accepted && not r.is_frozen))
      (λ r. record r { accepted = true; accepted_at = some at; penalty = pen })

unfoldable pub bump_score : ℕ → ℕ → ℕ → ℕ → List RankingRow → List RankingRow
unfolding update_where
bump_score c u p value =
    update_where (λ r. key_is c u p r && not r.is_frozen)
      (λ r. record r { score = max r.score value })

unfoldable pub freeze_rows : ℕ → List RankingRow → List RankingRow
unfolding update_where
freeze_rows c = update_where (λ r. r.contest_id == c) (λ r. record r { is_frozen = true })

unfoldable pub delete_rows : ℕ → List RankingRow → List RankingRow
delete_rows c = filter (λ r. not (r.contest_id == c))

unfoldable pub add_rows : List RankingRow → List RankingRow → List RankingRow
add_rows fresh rows = rows ++ fresh
