-- ===== src/Contest/Recompute/Lookup.antt =====
-- What a lookup by key finds in the recomputed scoreboard.
use pigeon_oj.Base.{
  ℕ, ◌≡◌, refl, Bool, not, ◌&&◌, none, some, List, [], ◌∷◌, map, arith, filter, any, ◌==◌,
  if◌then◌else◌,
}
use pigeon_oj.Base.Integers.{ℤ}
use pigeon_oj.Model.{Submission, Contest}
use pigeon_oj.Ranking.{RankingRow, get_row}
use pigeon_oj.Ranking.Lookup.{get_row-add_rows}
use pigeon_oj.Contest.{ContestDb}
use pigeon_oj.Contest.Recompute.{
  list_contest_submissions, counted, belongs, group_keys, cell_of, row_of_cell, fresh_rows,
  recompute_rankings,
}

abbrev has_key : ℕ → ℕ → List (ℕ × ℕ) → Bool
has_key u p = any (λ k. (k.0 == u) && (k.1 == p))

has_key-filter :
    (u p u' p' : ℕ) (ks : List (ℕ × ℕ))
    → ((u' == u) && (p' == p)) ≡ Bool.false
    → has_key u p (filter (λ k. not ((k.0 == u') && (k.1 == p'))) ks) ≡ has_key u p ks
has_key-filter u p u' p' [] h = refl
has_key-filter u p u' p' ((a, b) ∷ ks) h = ground (arith, has_key-filter u p u' p' ks h)

-- A user and a problem are a key exactly when one of the submissions is theirs.
has_key-group_keys :
    (u p : ℕ) (ss : List Submission) → has_key u p (group_keys ss) ≡ any (belongs u p) ss
unfolding group_keys
has_key-group_keys u p [] = refl
has_key-group_keys u p (s ∷ ss) =
    ground
      (arith, has_key-group_keys u p ss, has_key-filter u p s.user_id s.problem_id (group_keys ss))

module _ (c : ℕ) (make : ℕ → ℕ → RankingRow)
    (keyed : (u p : ℕ)
      → ((make u p).contest_id ≡ c) × ((make u p).user_id ≡ u) × ((make u p).problem_id ≡ p)) where
  get_row-map :
      (u p : ℕ) (ks : List (ℕ × ℕ))
      → get_row c u p (map (λ k. make k.0 k.1) ks)
        ≡ (if has_key u p ks then some (make u p) else none)
  unfolding get_row
  get_row-map u p [] = refl
  get_row-map u p ((a, b) ∷ ks) = ground (arith, keyed a b, get_row-map u p ks)

-- the submissions that the recomputation groups
abbrev pub terminal : Contest → ContestDb → List Submission
terminal c db = filter counted (list_contest_submissions c.id db.submissions)

-- the submissions that make up one cell
abbrev pub group : Contest → ContestDb → ℕ → ℕ → List Submission
group c db u p = filter (belongs u p) (terminal c db)

-- The recomputed table has a row for exactly the users and problems with a counted submission, made
-- from the cell of their submissions.
pub get_row-recompute_rankings :
    (c : Contest) (factor : ℤ) (db : ContestDb) (u p : ℕ)
    → get_row c.id u p (recompute_rankings c factor db).rankings ≡ (
        if any (belongs u p) (terminal c db)
        then some (row_of_cell c.id u p (cell_of c.rule_type c.start_time factor (group c db u p)))
        else none)
unfolding recompute_rankings
get_row-recompute_rankings c factor db u p =
    let make : ℕ → ℕ → RankingRow = λ v q.
      row_of_cell c.id v q
        (cell_of c.rule_type c.start_time factor (filter (belongs v q) (terminal c db))) in
    rw
      (
        get_row-add_rows c.id u p (fresh_rows c factor (terminal c db)) db.rankings,
        ← has_key-group_keys u p (terminal c db),
      )
      (unfold row_of_cell in
        get_row-map c.id make (λ v q. (refl, refl, refl)) u p (group_keys (terminal c db)))
