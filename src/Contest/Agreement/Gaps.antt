-- ===== src/Contest/Agreement/Gaps.antt =====
-- Where the scoreboard of the single results differs from the recomputed one.
use pigeon_oj.Base.{
  ℕ, ◌+◌, ◌*◌, ◌≤◌, ◌≡◌, refl, ap, ◌∙◌, true, false, Option, none, some, List, [], ◌∷◌, arith, All,
  any, Option-cases, inl, inr, head?, filter, Bool-cases,
}
use pigeon_oj.Base.Integers.{ℤ, pos, ◌+ℤ◌, floor_div_sub}
use pigeon_oj.Model.{RuleType, Submission, Contest, is_counted, is_system_error}
use pigeon_oj.Ranking.{RankingRow, get_row}
use pigeon_oj.Contest.{ContestDb, get_contest}
use pigeon_oj.Contest.Scoring.{penalty_of, minute, update_ranking_on_result}
use pigeon_oj.Contest.Scoring.Rows.{Counts, get_row-update_ranking_on_result}
use pigeon_oj.Contest.Recompute.{
  Cell, belongs, solved, sorted_cell, cell_of, row_of_cell, recompute_rankings,
}
use pigeon_oj.Contest.Recompute.Lookup.{terminal, group, get_row-recompute_rankings}
use pigeon_oj.Contest.Agreement.Fold.{live, seen, terminal-Ready, cell_of-group, still, fine}
use pigeon_oj.Contest.Agreement.Rules.{Fresh, points, ioi_live_agrees}

-- no row of the contest is marked as accepted
abbrev NoneAccepted : Contest → ContestDb → Type 0
NoneAccepted c db =
    (u p : ℕ) (r : RankingRow) → get_row c.id u p db.rankings ≡ some r → r.accepted ≡ false

module _ (c : Contest) (factor : ℤ) (at : Submission → ℕ) (ioi : c.rule_type ≡ RuleType.ioi)
    (open_board : c.board_frozen ≡ false) where
  NoneAccepted-step :
      (db : ContestDb) (s : Submission)
      → get_contest c.id db ≡ some c
      → Counts c s
      → is_system_error s.status ≡ false
      → NoneAccepted c db
      → NoneAccepted c (update_ranking_on_result db factor (at s) s s.status)
  NoneAccepted-step db s there counts ok h u p r found =
      elim (Option-cases (get_row c.id u p db.rankings)) [
        | inl e ↦ ground (
          arith,
          e,
          ioi,
          get_row-update_ranking_on_result c open_board factor db (at s) s u p there counts ok,
        )
        | inr (x, e) ↦ ground (
          arith,
          e,
          ioi,
          h u p x e,
          get_row-update_ranking_on_result c open_board factor db (at s) s u p there counts ok,
        )
      ]

  NoneAccepted-live :
      (subs : List Submission) (db : ContestDb)
      → get_contest c.id db ≡ some c
      → All (λ s. Counts c s × (is_counted s.status ≡ true)) subs
      → NoneAccepted c db
      → NoneAccepted c (live at factor db subs)
  unfolding live
  NoneAccepted-live [] db there ready h = h
  NoneAccepted-live (s ∷ subs) db there ready h =
      NoneAccepted-live subs (update_ranking_on_result db factor (at s) s s.status)
        (still c.id db factor (at s) s s.status ∙ there) ready.1
        (NoneAccepted-step db s there ready.0.0 (fine s.status ready.0.1) h)

head?-any :
    (g : List Submission)
    → any solved g ≡ true
    → (f : Submission) × (head? (filter solved g) ≡ some f)
head?-any [] h = cc
head?-any (x ∷ g) h = elim (Bool-cases (solved x)) [
  | inl e ↦ (x, rw e refl)
  | inr e ↦ rw e (head?-any g (ground arith))
]

accepted-sorted_cell :
    (rule : RuleType) (start : ℕ) (factor : ℤ) (g : List Submission)
    → any solved g ≡ true
    → (sorted_cell rule start factor g).accepted ≡ true
unfolding sorted_cell
accepted-sorted_cell rule start factor g h = let (f, e) = head?-any g h in rw e refl

any-belongs :
    (u p : ℕ) (xs : List Submission)
    → any solved (filter (belongs u p) xs) ≡ true
    → any (belongs u p) xs ≡ true
any-belongs u p [] h = cc
any-belongs u p (x ∷ xs) h = elim (Bool-cases (belongs u p x)) [
  | inl e ↦ rw e refl
  | inr e ↦ rw e (any-belongs u p xs (rw e at h))
]

-- a row that shows points is there
row_of_points :
    (o o' : Option RankingRow) (r : RankingRow)
    → seen points o ≡ seen points o'
    → o' ≡ some r
    → (x : RankingRow) × (o ≡ some x)
row_of_points none o' r h e = ground arith
row_of_points (some x) o' r h e = (x, refl)

-- In an IOI contest that is stored, not frozen, and has no rows at the start, and whose results
-- arrive in the order of their submissions, each with any delay: a problem that a user has solved
-- is not marked as accepted by the single results, and is marked as accepted by the recomputation.
pub ioi_accepted_only_recomputed :
    (c : Contest) (factor : ℤ) (db : ContestDb) (at : Submission → ℕ) (u p : ℕ)
    → c.rule_type ≡ RuleType.ioi
    → Fresh c db
    → any solved (group c db u p) ≡ true
    → (seen (λ r. r.accepted) (get_row c.id u p (live at factor db (terminal c db)).rankings)
        ≡ some false)
      × (seen (λ r. r.accepted) (get_row c.id u p (recompute_rankings c factor db).rankings)
          ≡ some true)
ioi_accepted_only_recomputed c factor db at u p ioi fresh solves =
    let there = any-belongs u p (terminal c db) solves in
    let cell = cell_of c.rule_type c.start_time factor (group c db u p) in
    let recomputed : get_row c.id u p (recompute_rankings c factor db).rankings
        ≡ some (row_of_cell c.id u p cell) =
      rw (get_row-recompute_rankings c factor db u p, there) refl in
    let (x, found) =
      row_of_points (get_row c.id u p (live at factor db (terminal c db)).rankings)
        (get_row c.id u p (recompute_rankings c factor db).rankings) (row_of_cell c.id u p cell)
        (ioi_live_agrees c factor db at ioi fresh u p) recomputed in
    let never =
      NoneAccepted-live c factor at ioi fresh.open_board (terminal c db) db fresh.there
        (terminal-Ready c db) (λ v q r e. ground (arith, fresh.empty v q)) u p x found in
    (
      rw found (ap some never),
      rw recomputed (ap some (marked cell (cell_solved c factor db u p solves))),
    )
  where
    marked : (x : Cell) → x.accepted ≡ true → (row_of_cell c.id u p x).accepted ≡ true
    marked x h = unfold row_of_cell in h

    cell_solved :
        (c : Contest) (factor : ℤ) (db : ContestDb) (u p : ℕ)
        → any solved (group c db u p) ≡ true
        → (cell_of c.rule_type c.start_time factor (group c db u p)).accepted ≡ true
    cell_solved c factor db u p h =
        rw (cell_of-group c factor db u p)
          (accepted-sorted_cell c.rule_type c.start_time factor (group c db u p) h)

-- Each minute between the submission and its result is a minute of penalty.
penalty_of-later :
    (start t k n : ℕ) (factor : ℤ)
    → start ≤ t
    → penalty_of start (t + k * minute) n factor ≡ penalty_of start t n factor +ℤ pos k
unfolding penalty_of floor_div_sub ◌+ℤ◌
penalty_of-later start t k n factor h = ground arith

-- In an ACM contest that is stored, not frozen, and has no rows at the start, with one counted
-- submission, an accepted one, made after the start of the contest, whose result arrives k minutes
-- after the submission: the single results give k minutes more of penalty than the recomputation.
pub acm_delay_is_penalty :
    (c : Contest) (factor : ℤ) (db : ContestDb) (at : Submission → ℕ) (s : Submission) (k : ℕ)
    → c.rule_type ≡ RuleType.acm
    → Fresh c db
    → terminal c db ≡ s ∷ []
    → solved s ≡ true
    → c.start_time ≤ s.created_at
    → at s ≡ s.created_at + k * minute
    → (pen : ℤ) × (seen
          (λ r. r.penalty)
          (get_row c.id s.user_id s.problem_id (recompute_rankings c factor db).rankings)
        ≡ some pen)
      × (seen
            (λ r. r.penalty)
            (get_row c.id s.user_id s.problem_id (live at factor db (terminal c db)).rankings)
          ≡ some (pen +ℤ pos k))
unfolding live row_of_cell sorted_cell
acm_delay_is_penalty c factor db at s k acm fresh only solves started delay =
    let u = s.user_id in
    let p = s.problem_id in
    let ready : All (λ x. Counts c x × (is_counted x.status ≡ true)) (s ∷ []) =
      rw only at (terminal-Ready c db) in
    (
      penalty_of c.start_time s.created_at 0 factor,
      rw (get_row-recompute_rankings c factor db u p, cell_of-group c factor db u p, only)
          (ground (arith, acm, solves)),
      rw only (
          ground (
            arith,
            acm,
            solves,
            fresh.empty u p,
            delay,
            penalty_of-later c.start_time s.created_at k 0 factor started,
            get_row-update_ranking_on_result c fresh.open_board factor db (at s) s u p fresh.there
                ready.0.0 (fine s.status ready.0.1),
          )),
    )
