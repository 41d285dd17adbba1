-- ===== src/Contest/Board/Plain.antt =====
-- Scoreboards without the columns in which the stored and the computed rows differ.
use pigeon_oj.Base.{
  ℕ, suc, ◌+◌, ◌≡◌, refl, ap, sym, ◌∙◌, inl, inr, false, none, List, [], ◌∷◌, map, count, sum_by,
  Bool-cases,
}
use pigeon_oj.Base.Integers.{◌+ℤ◌}
use pigeon_oj.Base.Sorting.{sort_by, insert_sorted}
use pigeon_oj.Model.{RuleType}
use pigeon_oj.Contest.Board.{
  BoardCell, BoardRow, row_before, sum_penalty, board_row, number_rows, rank_rows,
}

-- a cell without the mark of the freeze and the time of acceptance, which the final board does not carry
abbrev pub plain_cell : BoardCell → BoardCell
plain_cell x = record x { is_frozen = false; accepted_at = none }

abbrev pub plain_row : BoardRow → BoardRow
plain_row r = record r { cells = map plain_cell r.cells }

row_before-plain :
    (rule : RuleType) (a b : BoardRow)
    → row_before rule (plain_row a) (plain_row b) ≡ row_before rule a b
unfolding row_before
row_before-plain RuleType.acm a b = refl
row_before-plain RuleType.ioi a b = refl

insert-plain :
    (rule : RuleType) (r : BoardRow) (rows : List BoardRow)
    → insert_sorted (row_before rule) (plain_row r) (map plain_row rows)
      ≡ map plain_row (insert_sorted (row_before rule) r rows)
unfolding insert_sorted
insert-plain rule r [] = refl
insert-plain rule r (x ∷ rows) = elim (Bool-cases (row_before rule x r)) [
  | inl e ↦ rw (row_before-plain rule x r, e, insert-plain rule r rows) refl
  | inr e ↦ rw (row_before-plain rule x r, e) refl
]

sort_by-plain :
    (rule : RuleType) (rows : List BoardRow)
    → sort_by (row_before rule) (map plain_row rows)
      ≡ map plain_row (sort_by (row_before rule) rows)
unfolding sort_by
sort_by-plain rule [] = refl
sort_by-plain rule (r ∷ rows) =
    rw (sort_by-plain rule rows) (insert-plain rule r (sort_by (row_before rule) rows))

number_rows-plain :
    (i : ℕ) (rows : List BoardRow)
    → number_rows i (map plain_row rows) ≡ map plain_row (number_rows i rows)
unfolding number_rows
number_rows-plain i [] = refl
number_rows-plain i (r ∷ rows) =
    ap (λ l. record (plain_row r) { rank = suc i } ∷ l) (number_rows-plain (suc i) rows)

pub rank_rows-plain :
    (rule : RuleType) (rows : List BoardRow)
    → map plain_row (rank_rows rule rows) ≡ rank_rows rule (map plain_row rows)
unfolding rank_rows
rank_rows-plain rule rows = sym (
    ap (number_rows 0) (sort_by-plain rule rows)
    ∙ number_rows-plain 0 (sort_by (row_before rule) rows))

sum_penalty-plain : (xs : List BoardCell) → sum_penalty (map plain_cell xs) ≡ sum_penalty xs
unfolding sum_penalty
sum_penalty-plain [] = refl
sum_penalty-plain (x ∷ xs) = ap (λ z. x.penalty +ℤ z) (sum_penalty-plain xs)

score-plain :
    (xs : List BoardCell) → sum_by (λ x. x.score) (map plain_cell xs) ≡ sum_by (λ x. x.score) xs
score-plain [] = refl
score-plain (x ∷ xs) = ap (λ z. x.score + z) (score-plain xs)

solved-plain :
    (xs : List BoardCell) → count (λ x. x.accepted) (map plain_cell xs) ≡ count (λ x. x.accepted) xs
solved-plain [] = refl
solved-plain (x ∷ xs) = rw (solved-plain xs) refl

pub board_row-plain :
    (u : ℕ) (name : List ℕ) (cells : List BoardCell)
    → plain_row (board_row u name cells) ≡ board_row u name (map plain_cell cells)
unfolding board_row
board_row-plain u name cells =
    rw (sum_penalty-plain cells, score-plain cells, solved-plain cells) refl
