-- ===== src/Contest/Agreement/Rules.antt =====
-- The agreement of the two ways to the scoreboard, for each rule, and where it ends.
use pigeon_oj.Base.{
  ℕ, ◌<◌, ◌≡◌, refl, Bool, false, Option, none, some, List, [], ◌∷◌, ◌++◌, arith, All, All-of_each,
  Pairs,
}
use pigeon_oj.Base.Integers.{ℤ}
use pigeon_oj.Model.{RuleType, Submission, Contest}
use pigeon_oj.Ranking.{RankingRow, get_row, fresh_row}
use pigeon_oj.Contest.{ContestDb, get_contest}
use pigeon_oj.Contest.Scoring.Rows.{next_row}
use pigeon_oj.Contest.Recompute.{best_score, sorted_cell, row_of_cell, recompute_rankings}
use pigeon_oj.Contest.Recompute.Cells.{Before, sorted_cell-append, best_score-append}
use pigeon_oj.Contest.Recompute.Lookup.{terminal}
use pigeon_oj.Contest.Agreement.Fold.{live, seen, cell_row, live-recompute}

-- what an ACM scoreboard shows of a row
pub record Standing : Type 0 where
  pub accepted : Bool
  pub accepted_at : Option ℕ
  pub attempts : ℕ
  pub penalty : ℤ
  pub is_frozen : Bool

abbrev pub standing : RankingRow → Standing
standing r = record {
  accepted = r.accepted;
  accepted_at = r.accepted_at;
  attempts = r.attempts;
  penalty = r.penalty;
  is_frozen = r.is_frozen;
}

-- what both rules need of the start: the contest is there and not frozen, its table is empty
pub record Fresh (c : Contest) (db : ContestDb) : Type 0 where
  pub there : get_contest c.id db ≡ some c
  pub open_board : c.board_frozen ≡ false
  pub empty : (u p : ℕ) → get_row c.id u p db.rankings ≡ none

module _ (c : Contest) (factor : ℤ) (acm : c.rule_type ≡ RuleType.acm) where
  standing-blank :
      (u p : ℕ) → standing (fresh_row c.id u p false) ≡ standing (cell_row c factor u p [])
  unfolding row_of_cell sorted_cell
  standing-blank u p = refl

  standing-next :
      (s : Submission) (u p : ℕ) (g : List Submission) (r : RankingRow)
      → All (Before s.created_at) g
      → standing r ≡ standing (cell_row c factor u p g)
      → standing (next_row c.rule_type c.start_time factor s.created_at s s.status r)
        ≡ standing (cell_row c factor u p (g ++ s ∷ []))
  unfolding row_of_cell
  standing-next s u p g r before h =
      ground (arith, acm, sorted_cell-append c.rule_type c.start_time factor g s before)

-- In an ACM contest whose results arrive in the order of their submissions, each at the time of its
-- submission, and whose submission times differ, the table that the single results leave shows for every
-- user and problem the same as the recomputation: accepted or not, when, the wrong attempts and the
-- penalty. At the start the contest is stored, not frozen, and has no rows.
pub acm_live_agrees :
    (c : Contest) (factor : ℤ) (db : ContestDb)
    → c.rule_type ≡ RuleType.acm
    → Fresh c db
    → Pairs (λ a b. a.created_at < b.created_at) (terminal c db)
    → (u p : ℕ)
    → seen standing (get_row c.id u p (live (λ s. s.created_at) factor db (terminal c db)).rankings)
      ≡ seen standing (get_row c.id u p (recompute_rankings c factor db).rankings)
acm_live_agrees c factor db acm fresh order u p =
    live-recompute c factor (λ s. s.created_at) (λ s x. Before s.created_at x) standing
      fresh.open_board (standing-blank c factor acm) (standing-next c factor acm) db fresh.there
      fresh.empty order u p

Pairs-of_each : (xs : List Submission) → Pairs (λ a b. Unit {0}) xs
Pairs-of_each [] = tt
Pairs-of_each (x ∷ xs) = (All-of_each (λ b. Unit {0}) (λ b. tt) xs, Pairs-of_each xs)

-- what an IOI scoreboard ranks by, of one row
pub record Points : Type 0 where
  pub score : ℕ
  pub is_frozen : Bool

abbrev pub points : RankingRow → Points
points r = record { score = r.score; is_frozen = r.is_frozen }

-- the score of a cell does not depend on its other values
score-sorted_cell :
    (rule : RuleType) (start : ℕ) (factor : ℤ) (g : List Submission)
    → (sorted_cell rule start factor g).score ≡ best_score g
unfolding sorted_cell
score-sorted_cell rule start factor g = ground arith

module _ (c : Contest) (factor : ℤ) (ioi : c.rule_type ≡ RuleType.ioi) where
  points-blank : (u p : ℕ) → points (fresh_row c.id u p false) ≡ points (cell_row c factor u p [])
  unfolding row_of_cell sorted_cell best_score
  points-blank u p = refl

  points-next :
      (at : Submission → ℕ) (s : Submission) (u p : ℕ) (g : List Submission) (r : RankingRow)
      → All (λ x. Unit {0}) g
      → points r ≡ points (cell_row c factor u p g)
      → points (next_row c.rule_type c.start_time factor (at s) s s.status r)
        ≡ points (cell_row c factor u p (g ++ s ∷ []))
  unfolding row_of_cell
  points-next at s u p g r any_time h = ground (
    arith,
    ioi,
    score-sorted_cell c.rule_type c.start_time factor g,
    score-sorted_cell c.rule_type c.start_time factor (g ++ s ∷ []),
    best_score-append g s,
  )

-- In an IOI contest that is stored, not frozen, and has no rows at the start, and whose results
-- arrive in the order of their submissions, each with any delay: the single results leave for every
-- user and problem the score that the recomputation gives.
pub ioi_live_agrees :
    (c : Contest) (factor : ℤ) (db : ContestDb) (at : Submission → ℕ)
    → c.rule_type ≡ RuleType.ioi
    → Fresh c db
    → (u p : ℕ)
    → seen points (get_row c.id u p (live at factor db (terminal c db)).rankings)
      ≡ seen points (get_row c.id u p (recompute_rankings c factor db).rankings)
ioi_live_agrees c factor db at ioi fresh u p =
    live-recompute c factor at (λ s x. Unit {0}) points fresh.open_board (points-blank c factor ioi)
      (points-next c factor ioi at) db fresh.there fresh.empty (Pairs-of_each (terminal c db)) u p
