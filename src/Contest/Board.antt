-- ===== src/Contest/Board.antt =====
-- The scoreboard that is shown: `_row_key`, `ContestService._compute_board` and `_aggregate_final_rows`.
-- A nickname is the list of its code points. `nickname` stands for the join with the users' table, the
-- order of the table's rows is the order of the list.
pub mod Order
pub mod Users
pub mod Plain
pub mod Unfrozen
use pigeon_oj.Base.{
  ℕ, suc, ◌+◌, Bool, true, false, not, ◌&&◌, Option, none, some, List, [], ◌∷◌, map, filter, count,
  sum_by, ltb, ◌==◌, if◌then◌else◌,
}
use pigeon_oj.Base.Integers.{ℤ, pos, ◌+ℤ◌, ltb_ℤ}
use pigeon_oj.Base.Sorting.{sort_by}
use pigeon_oj.Model.{RuleType, Submission, Contest, ContestProblem, is_acm}
use pigeon_oj.Ranking.{RankingRow, get_row}
use pigeon_oj.Contest.{ContestDb}
use pigeon_oj.Contest.Recompute.{Cell, belongs, counted, group_keys, cell_of}

-- BoardCell and BoardRow of schemas/contest.py
pub record BoardCell : Type 0 where
  pub problem_id : ℕ
  pub letter : List ℕ
  pub problem_score : ℕ
  pub accepted : Bool
  pub attempts : ℕ
  pub penalty : ℤ
  pub score : ℕ
  pub is_frozen : Bool
  pub accepted_at : Option ℕ

pub record BoardRow : Type 0 where
  pub rank : ℕ
  pub user_id : ℕ
  pub nickname : List ℕ
  pub solved : ℕ
  pub total_penalty : ℤ
  pub total_score : ℕ
  pub cells : List BoardCell

-- Python's `<` on strings
unfoldable pub text_before : List ℕ → List ℕ → Bool
text_before [] [] = false
text_before [] (b ∷ bs) = true
text_before (a ∷ as') [] = false
text_before (a ∷ as') (b ∷ bs) =
    if ltb a b then true else if ltb b a then false else text_before as' bs

-- `_row_key(rule, a) < _row_key(rule, b)`
unfoldable pub row_before : RuleType → BoardRow → BoardRow → Bool
row_before RuleType.acm a b =
    if ltb b.solved a.solved
    then true
    else if ltb a.solved b.solved
    then false
    else if ltb_ℤ a.total_penalty b.total_penalty
    then true
    else if ltb_ℤ b.total_penalty a.total_penalty
    then false
    else text_before a.nickname b.nickname
row_before RuleType.ioi a b =
    if ltb b.total_score a.total_score
    then true
    else if ltb a.total_score b.total_score
    then false
    else if ltb b.solved a.solved
    then true
    else if ltb a.solved b.solved
    then false
    else text_before a.nickname b.nickname

-- `sum(c.penalty for c in cells)`
unfoldable pub sum_penalty : List BoardCell → ℤ
sum_penalty [] = pos 0
sum_penalty (x ∷ xs) = x.penalty +ℤ sum_penalty xs

unfoldable pub board_row : ℕ → List ℕ → List BoardCell → BoardRow
unfolding sum_penalty
board_row u name cells = record {
  rank = 0;
  user_id = u;
  nickname = name;
  solved = count (λ x. x.accepted) cells;
  total_penalty = sum_penalty cells;
  total_score = sum_by (λ x. x.score) cells;
  cells = cells;
}

-- `row.rank = index + 1`
unfoldable pub number_rows : ℕ → List BoardRow → List BoardRow
number_rows i [] = []
number_rows i (r ∷ rs) = record r { rank = suc i } ∷ number_rows (suc i) rs

unfoldable pub rank_rows : RuleType → List BoardRow → List BoardRow
unfolding number_rows row_before
rank_rows rule rows = number_rows 0 (sort_by (row_before rule) rows)

-- the users in the order of their first row
unfoldable pub distinct : List ℕ → List ℕ
distinct [] = []
distinct (x ∷ xs) = x ∷ filter (λ y. not (x == y)) (distinct xs)

-- one cell of `_compute_board`
unfoldable pub stored_cell : Contest → ContestProblem → Option RankingRow → BoardCell
stored_cell c cp none = record {
  problem_id = cp.problem_id;
  letter = cp.letter;
  problem_score = cp.score;
  accepted = false;
  attempts = 0;
  penalty = pos 0;
  score = 0;
  is_frozen = c.board_frozen;
  accepted_at = none;
}
stored_cell c cp (some r) = record {
  problem_id = cp.problem_id;
  letter = cp.letter;
  problem_score = cp.score;
  accepted = r.accepted;
  attempts = r.attempts;
  penalty = r.penalty;
  score = r.score;
  is_frozen = r.is_frozen;
  accepted_at = r.accepted_at;
}

-- the row of one user, from the table
unfoldable pub stored_row :
    Contest → List ContestProblem → (ℕ → List ℕ) → List RankingRow → ℕ → BoardRow
unfolding board_row stored_cell
stored_row c problems nickname rows u =
    board_row u (nickname u)
      (map (λ cp. stored_cell c cp (get_row c.id u cp.problem_id rows)) problems)

unfoldable pub compute_board :
    Contest → List ContestProblem → (ℕ → List ℕ) → ContestDb → List BoardRow
unfolding rank_rows distinct stored_row
compute_board c problems nickname db =
    let mine = filter (λ r. r.contest_id == c.id) db.rankings in
    rank_rows c.rule_type
      (map (stored_row c problems nickname mine) (distinct (map (λ r. r.user_id) mine)))

-- one cell of `_aggregate_final_rows`, from the submissions of its group
unfoldable pub final_cell : Contest → ℤ → List Submission → ℕ → ContestProblem → BoardCell
final_cell c factor terminal u cp =
    let x = cell_of c.rule_type c.start_time factor (filter (belongs u cp.problem_id) terminal) in
    record {
      problem_id = cp.problem_id;
      letter = cp.letter;
      problem_score = cp.score;
      accepted = x.accepted;
      attempts = x.attempts;
      penalty = x.penalty;
      score = x.score;
      is_frozen = false;
      accepted_at = none;
    }

unfoldable pub final_row :
    Contest → ℤ → List Submission → List ContestProblem → (ℕ → List ℕ) → ℕ → BoardRow
unfolding board_row final_cell
final_row c factor terminal problems nickname u =
    board_row u (nickname u) (map (final_cell c factor terminal u) problems)

-- `set_order` lists a set of users, given as the list of its members, in the order of its iteration
unfoldable pub aggregate_final_rows :
    Contest
    → List Submission
    → List ContestProblem
    → ℤ
    → (ℕ → List ℕ)
    → (List ℕ → List ℕ)
    → List BoardRow
unfolding rank_rows distinct final_row
aggregate_final_rows c subs problems factor nickname set_order =
    let terminal = filter counted subs in
    rank_rows c.rule_type (
      map (final_row c factor terminal problems nickname)
        (set_order (distinct (map (λ s. s.user_id) terminal))))
