-- ===== src/Contest/Board/Unfrozen.antt =====
-- The scoreboard after the manual unfreezing is the final board of the scroll show, which is computed
-- from the submissions without writing the table.
use pigeon_oj.Base.{
  ℕ, ◌≡◌, refl, ap, ◌∙◌, inl, inr, List, [], ◌∷◌, map, arith, filter, any, ◌==◌, Bool-cases,
  filter-none, ==-refl, ==→eq, ◌≢◌, ◌⊎◌, sym, true, elem, All, All-map,
}
use pigeon_oj.Base.Integers.{ℤ}
use pigeon_oj.Base.Sorting.{sort_by, sort_by-Permᴰ}
use pigeon_oj.Model.{RuleType, Contest, ContestProblem}
use pigeon_oj.Ranking.{RankingRow, get_row, delete_rows, add_rows}
use pigeon_oj.Contest.{ContestDb}
use pigeon_oj.Contest.Recompute.{
  Cell, cell_from, belongs, group_keys, cell_of, sorted_cell, best_score, row_of_cell, fresh_rows,
  list_contest_submissions, recompute_rankings,
}
use pigeon_oj.Contest.Recompute.Lookup.{terminal, get_row-recompute_rankings}
use pigeon_oj.Contest.Board.{
  BoardRow, board_row, row_before, number_rows, rank_rows, distinct, stored_cell, stored_row,
  compute_board, final_cell, final_row, aggregate_final_rows,
}
use mathlib.Core.List.{Permᴰ}
use mathlib.Core.List.Permᴰ
use pigeon_oj.Contest.Board.Order.{row_before-asym, row_before_trans, row_before-Apart}
use pigeon_oj.Contest.Board.Plain.{board_row-plain, plain_cell, plain_row, rank_rows-plain}
use pigeon_oj.Contest.Board.Users.{distinct-group_keys}

get_row-of_contest :
    (c u p : ℕ) (rows : List RankingRow)
    → get_row c u p (filter (λ r. r.contest_id == c) rows) ≡ get_row c u p rows
unfolding get_row
get_row-of_contest c u p [] = refl
get_row-of_contest c u p (r ∷ rows) = ground (arith, get_row-of_contest c u p rows)

filter-recomputed :
    (c : ℕ) (fresh rows : List RankingRow)
    → filter (λ r. r.contest_id == c) (add_rows fresh (delete_rows c rows))
      ≡ filter (λ r. r.contest_id == c) fresh
unfolding add_rows delete_rows
filter-recomputed c fresh [] = refl
filter-recomputed c fresh (r ∷ rows) = ground (arith, filter-recomputed c fresh rows)

users-fresh :
    (c : ℕ) (make : ℕ → ℕ → Cell) (ks : List (ℕ × ℕ))
    → map
        (λ r. r.user_id)
        (filter (λ r. r.contest_id == c) (map (λ k. row_of_cell c k.0 k.1 (make k.0 k.1)) ks))
      ≡ map (λ k. k.0) ks
unfolding row_of_cell
users-fresh c make [] = refl
users-fresh c make ((a, b) ∷ ks) = rw (==-refl c) (ap (λ l. a ∷ l) (users-fresh c make ks))

-- The cell that the recomputed table gives is the cell of the final board.
cell-recomputed :
    (c : Contest) (factor : ℤ) (db : ContestDb) (u : ℕ) (cp : ContestProblem)
    → plain_cell
        (stored_cell c cp (get_row c.id u cp.problem_id (recompute_rankings c factor db).rankings))
      ≡ final_cell c factor (terminal c db) u cp
unfolding stored_cell final_cell
cell-recomputed c factor db u cp =
    rw (get_row-recompute_rankings c factor db u cp.problem_id)
      (elim (Bool-cases (any (belongs u cp.problem_id) (terminal c db))) [
        | inl e ↦ rw e (unfold row_of_cell in refl)
        | inr e ↦
            rw (e, filter-none (belongs u cp.problem_id) (terminal c db) e)
              (unfold cell_of sorted_cell cell_from best_score sort_by in refl)
      ])

map-ap {ℓ κ} :
    {A : Type ℓ} {B : Type κ} (f g : A → B)
    → ((a : A) → f a ≡ g a)
    → (xs : List A) → map f xs ≡ map g xs
map-ap f g h [] = refl
map-ap f g h (x ∷ xs) = rw (h x, map-ap f g h xs) refl

cells-recomputed :
    (c : Contest) (factor : ℤ) (db : ContestDb) (u : ℕ) (problems : List ContestProblem)
    → map plain_cell (
        map
          (λ cp. stored_cell c cp (
            get_row c.id u cp.problem_id
              (filter (λ r. r.contest_id == c.id) (recompute_rankings c factor db).rankings)))
          problems)
      ≡ map (final_cell c factor (terminal c db) u) problems
cells-recomputed c factor db u [] = refl
cells-recomputed c factor db u (cp ∷ problems) =
    rw
      (
        get_row-of_contest c.id u cp.problem_id (recompute_rankings c factor db).rankings,
        cell-recomputed c factor db u cp,
        cells-recomputed c factor db u problems,
      )
      refl

rows-recomputed :
    (c : Contest) (factor : ℤ) (db : ContestDb) (problems : List ContestProblem)
    (nickname : ℕ → List ℕ) (us : List ℕ)
    → map plain_row (
        map
          (stored_row c problems nickname
            (filter (λ r. r.contest_id == c.id) (recompute_rankings c factor db).rankings))
          us)
      ≡ map (final_row c factor (terminal c db) problems nickname) us
unfolding stored_row final_row
rows-recomputed c factor db problems nickname [] = refl
rows-recomputed c factor db problems nickname (u ∷ us) =
    rw
      (
        board_row-plain u (nickname u) _,
        cells-recomputed c factor db u problems,
        rows-recomputed c factor db problems nickname us,
      )
      refl

users-recomputed :
    (c : Contest) (factor : ℤ) (db : ContestDb)
    → distinct (
        map
          (λ r. r.user_id)
          (filter (λ r. r.contest_id == c.id) (recompute_rankings c factor db).rankings))
      ≡ distinct (map (λ s. s.user_id) (terminal c db))
unfolding recompute_rankings fresh_rows
users-recomputed c factor db =
    rw
      (
        filter-recomputed c.id (fresh_rows c factor (terminal c db)) db.rankings,
        users-fresh c.id
            (λ v q. cell_of c.rule_type c.start_time factor (filter (belongs v q) (terminal c db)))
            (group_keys (terminal c db)),
      )
      (distinct-group_keys (terminal c db))

-- the nicknames of these users differ
abbrev pub NamesDiffer : (ℕ → List ℕ) → List ℕ → Type 0
NamesDiffer nickname us =
    (u v : ℕ) → elem u us ≡ true → elem v us ≡ true → u ≢ v → nickname u ≢ nickname v

-- the users with a counted submission
abbrev pub counted_users : Contest → ContestDb → List ℕ
counted_users c db = distinct (map (λ s. s.user_id) (terminal c db))

-- the row of one of some users
abbrev RowOf : (ℕ → BoardRow) → List ℕ → BoardRow → Type 0
RowOf row us r = (u : ℕ) × (elem u us ≡ true) × (r ≡ row u)

All-RowOf :
    (row : ℕ → BoardRow) (us vs : List ℕ)
    → All (λ u. elem u us ≡ true) vs
    → All (RowOf row us) (map row vs)
All-RowOf row us [] h = tt
All-RowOf row us (v ∷ vs) h = ((v, h.0, refl), All-RowOf row us vs h.1)

elem_self : (us : List ℕ) → All (λ u. elem u us ≡ true) us
elem_self [] = tt
elem_self (u ∷ us) = (ground arith, All-map (λ v h. ground (arith, h)) us (elem_self us))

rows-Apart :
    (rule : RuleType) (row : ℕ → BoardRow) (nickname : ℕ → List ℕ) (us : List ℕ)
    → ((u : ℕ) → (row u).nickname ≡ nickname u)
    → NamesDiffer nickname us
    → (a b : BoardRow) → RowOf row us a
    → RowOf row us b
    → (a ≡ b) ⊎ ((row_before rule a b ≡ true) ⊎ (row_before rule b a ≡ true))
rows-Apart rule row nickname us named differ a b (u, hu, ea) (v, hv, eb) =
    elim (Bool-cases (u == v)) [
      | inl e ↦ inl (ea ∙ (ap row (==→eq u v e) ∙ sym eb))
      | inr e ↦ inr (
          row_before-Apart rule a b λ same. differ u v hu hv (ground (arith, e)) (
            sym (named u)
            ∙ (ap (λ (r : BoardRow). r.nickname) (sym ea)
                ∙ (same ∙ (ap (λ (r : BoardRow). r.nickname) eb ∙ named v)))))
    ]

-- rows of users with different names are ranked alike, whatever the order of the users
ranked_in_any_order :
    (rule : RuleType) (row : ℕ → BoardRow) (nickname : ℕ → List ℕ) (us vs : List ℕ)
    → ((u : ℕ) → (row u).nickname ≡ nickname u)
    → NamesDiffer nickname us
    → Permᴰ us vs
    → rank_rows rule (map row us) ≡ rank_rows rule (map row vs)
unfolding rank_rows
ranked_in_any_order rule row nickname us vs named differ perm = ap (number_rows 0) (
    sort_by-Permᴰ (row_before rule) (row_before-asym rule) (row_before_trans rule) (RowOf row us)
      (rows-Apart rule row nickname us named differ) (Permᴰ.map row perm)
      (All-RowOf row us us (elem_self us)))

-- For every contest, list of problems and database, and where Python iterates over the set of the
-- users with a counted submission in any order: if their nicknames differ, the scoreboard that
-- `_compute_board` reads from the table after the manual unfreezing has recomputed it (rows, their
-- order, their ranks and their cells) is the final board that the scroll show computes from the
-- submissions, but for the mark of the freeze and the time of acceptance, which the final board does
-- not carry.
pub unfrozen_board_is_final :
    (c : Contest) (factor : ℤ) (db : ContestDb) (problems : List ContestProblem)
    (nickname : ℕ → List ℕ) (set_order : List ℕ → List ℕ)
    → Permᴰ (counted_users c db) (set_order (counted_users c db))
    → NamesDiffer nickname (counted_users c db)
    → map plain_row (compute_board c problems nickname (recompute_rankings c factor db))
      ≡ aggregate_final_rows c
          (list_contest_submissions c.id db.submissions)
          problems
          factor
          nickname
          set_order
unfolding compute_board aggregate_final_rows final_row board_row
unfrozen_board_is_final c factor db problems nickname set_order perm differ =
    rank_rows-plain c.rule_type _
    ∙ (ap (rank_rows c.rule_type) (
          rows-recomputed c factor db problems nickname _
          ∙ ap (map (final_row c factor (terminal c db) problems nickname))
              (users-recomputed c factor db))
        ∙ ranked_in_any_order c.rule_type (final_row c factor (terminal c db) problems nickname)
            nickname (counted_users c db) (set_order (counted_users c db)) (λ u. refl) differ perm)
