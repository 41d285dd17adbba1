-- ===== src/Contest/Agreement/Fold.antt =====
-- Results that arrive one after the other, and an induction over them that both rules use.
use pigeon_oj.Base.{
  ℕ, ◌≡◌, refl, ap, ◌∙◌, inl, inr, true, false, not, ◌&&◌, Option, none, some, List, [], ◌∷◌, ◌++◌,
  arith, filter, any, find?, All, Pairs, ◌==◌, if◌then◌else◌, Bool-cases, filter-append, any-append,
  filter-none, All-append, All-map, All-filter, All-filter_self, All-filter_both, All-of_each,
  Pairs-filter, opt_eq,
}
use pigeon_oj.Base.Integers.{ℤ}
use pigeon_oj.Base.Sorting.{sort_by-id, NotAfter, sort_by-Pairs, All-sort_by}
use mathlib.Core.List.{append-nil, append_assoc}
use pigeon_oj.Model.{SubmissionStatus, Submission, Contest, is_contest, is_counted, is_system_error}
use pigeon_oj.Ranking.{RankingRow, get_row, fresh_row}
use pigeon_oj.Ranking.Lookup.{or_fresh}
use pigeon_oj.Contest.{ContestDb, get_contest}
use pigeon_oj.Contest.Scoring.{update_ranking_on_result}
use pigeon_oj.Contest.Scoring.Rows.{
  next_row, Counts, get_row-update_ranking_on_result, contests-update_ranking_on_result,
}
use pigeon_oj.Contest.Recompute.{
  list_contest_submissions, counted, belongs, earlier, sorted_cell, cell_of, row_of_cell,
  recompute_rankings,
}
use pigeon_oj.Contest.Recompute.Lookup.{terminal, group, get_row-recompute_rankings}

-- the results of these submissions, in this order, each at its own time
unfoldable pub live : (Submission → ℕ) → ℤ → ContestDb → List Submission → ContestDb
live at factor db [] = db
live at factor db (s ∷ rest) =
    live at factor (update_ranking_on_result db factor (at s) s s.status) rest

-- a view of the row, if there is one
abbrev pub seen {ℓ} : {V : Type ℓ} → (RankingRow → V) → Option RankingRow → Option V
seen view none = none
seen view (some r) = some (view r)

-- A status that is counted is no platform error.
pub fine : (st : SubmissionStatus) → is_counted st ≡ true → is_system_error st ≡ false
fine st h = ground arith

-- A result leaves the contests alone.
pub still :
    (c : ℕ) (db : ContestDb) (factor : ℤ) (now : ℕ) (s : Submission) (status : SubmissionStatus)
    → get_contest c (update_ranking_on_result db factor now s status) ≡ get_contest c db
unfolding get_contest
still c db factor now s status =
    ap (find? (λ x. x.id == c)) (contests-update_ranking_on_result db factor now s status)

-- the submissions come in the order of their times
terminal-Pairs : (c : Contest) (db : ContestDb) → Pairs (NotAfter earlier) (terminal c db)
unfolding list_contest_submissions
terminal-Pairs c db =
    Pairs-filter (NotAfter earlier) counted _
      (sort_by-Pairs earlier (λ x y h. ground arith) (λ x y z h k. ground arith) _)

of_query :
    (c : Contest) (s : Submission)
    → (opt_eq s.contest_id (some c.id) && (is_contest s.submit_type && not s.is_after_contest))
      ≡ true
    → Counts c s
of_query c s h = record {
  of_contest = ground arith;
  to_contest = ground arith;
  in_time = ground arith;
}

-- what the query and the filter of statuses let through is counted
pub terminal-Ready :
    (c : Contest) (db : ContestDb)
    → All (λ s. Counts c s × (is_counted s.status ≡ true)) (terminal c db)
unfolding list_contest_submissions
terminal-Ready c db = All-filter_both (Counts c) counted _ (
    All-sort_by earlier (Counts c) _ (
      All-map (λ s h. of_query c s h) _
        (All-filter_self
          (λ s.
            opt_eq s.contest_id (some c.id) && (is_contest s.submit_type && not s.is_after_contest))
          db.submissions)))

-- The recomputation sorts a group again, which changes nothing.
pub cell_of-group :
    (c : Contest) (factor : ℤ) (db : ContestDb) (u p : ℕ)
    → cell_of c.rule_type c.start_time factor (group c db u p)
      ≡ sorted_cell c.rule_type c.start_time factor (group c db u p)
unfolding cell_of
cell_of-group c factor db u p = ap (sorted_cell c.rule_type c.start_time factor) (
    sort_by-id earlier (group c db u p)
      (Pairs-filter (NotAfter earlier) (belongs u p) (terminal c db) (terminal-Pairs c db)))

module _ (c : Contest) (factor : ℤ) where
  abbrev pub cell_row : ℕ → ℕ → List Submission → RankingRow
  cell_row u p g = row_of_cell c.id u p (sorted_cell c.rule_type c.start_time factor g)

  -- a submission that the contest counts, with a result
  abbrev Ready : Submission → Type 0
  Ready s = Counts c s × (is_counted s.status ≡ true)

  module _ {V : Type 0} (at : Submission → ℕ) (R : Submission → Submission → Type 0)
      (view : RankingRow → V) (open_board : c.board_frozen ≡ false)
      (blank : (u p : ℕ) → view (fresh_row c.id u p false) ≡ view (cell_row u p []))
      (agree : (s : Submission) (u p : ℕ) (g : List Submission) (r : RankingRow)
        → All (R s) g
        → view r ≡ view (cell_row u p g)
        → view (next_row c.rule_type c.start_time factor (at s) s s.status r)
          ≡ view (cell_row u p (g ++ s ∷ []))) where
    -- what the table shows of a key after the submissions `done`
    abbrev expected : ℕ → ℕ → List Submission → Option V
    expected u p done =
        if any (belongs u p) done
        then some (view (cell_row u p (filter (belongs u p) done)))
        else none

    abbrev Matches : List Submission → ContestDb → Type 0
    Matches done db = (u p : ℕ) → seen view (get_row c.id u p db.rankings) ≡ expected u p done

    or_fresh-view :
        (u p : ℕ) (done : List Submission) (o : Option RankingRow)
        → seen view o ≡ expected u p done
        → view (or_fresh c.id u p o) ≡ view (cell_row u p (filter (belongs u p) done))
    or_fresh-view u p done none h = elim (Bool-cases (any (belongs u p) done)) [
      | inl e ↦
          let h' : none ≡ some (view (cell_row u p (filter (belongs u p) done))) = rw e at h in
          cc h'
      | inr e ↦ rw (filter-none (belongs u p) done e) (blank u p)
    ]
    or_fresh-view u p done (some r) h = elim (Bool-cases (any (belongs u p) done)) [
      | inl e ↦
          let h' : some (view r) ≡ some (view (cell_row u p (filter (belongs u p) done))) =
            rw e at h in
          cc h'
      | inr e ↦ let h' : some (view r) ≡ none = rw e at h in cc h'
    ]

    Matches-step :
        (done : List Submission) (db : ContestDb) (s : Submission)
        → get_contest c.id db ≡ some c
        → Ready s
        → All (R s) done
        → Matches done db
        → Matches (done ++ s ∷ []) (update_ranking_on_result db factor (at s) s s.status)
    Matches-step done db s there ready later h u p = elim (Bool-cases (belongs u p s)) [
      | inl e ↦
          let found : any (belongs u p) (done ++ s ∷ []) ≡ true =
            ground (arith, any-append (belongs u p) done (s ∷ []), e) in
          let longer : filter (belongs u p) (done ++ s ∷ []) ≡ filter (belongs u p) done ++ s ∷ [] =
            rw (filter-append (belongs u p) done (s ∷ []), e) refl in
          rw (row u p, e, found, longer)
            (ap some (
              agree s u p (filter (belongs u p) done)
                (or_fresh c.id u p (get_row c.id u p db.rankings))
                (All-filter (R s) (belongs u p) done later)
                (or_fresh-view u p done (get_row c.id u p db.rankings) (h u p))))
      | inr e ↦
          let same : any (belongs u p) (done ++ s ∷ []) ≡ any (belongs u p) done =
            ground (arith, any-append (belongs u p) done (s ∷ []), e) in
          let kept : filter (belongs u p) (done ++ s ∷ []) ≡ filter (belongs u p) done =
            rw (filter-append (belongs u p) done (s ∷ []), e)
              (append-nil (filter (belongs u p) done)) in
          rw (row u p, e, same, kept) (h u p)
    ]
      where
        row :
            (u p : ℕ)
            → get_row c.id u p (update_ranking_on_result db factor (at s) s s.status).rankings ≡ (
                if belongs u p s
                then some (
                    next_row c.rule_type c.start_time factor
                      (at s)
                      s
                      s.status
                      (or_fresh c.id u p (get_row c.id u p db.rankings)))
                else get_row c.id u p db.rankings)
        row u p =
            get_row-update_ranking_on_result c open_board factor db (at s) s u p there ready.0
              (fine s.status ready.1)

    All-extend :
        (done rest : List Submission) (x : Submission)
        → All (λ s. All (R s) done) rest
        → All (λ s. R s x) rest
        → All (λ s. All (R s) (done ++ x ∷ [])) rest
    All-extend done [] x h k = tt
    All-extend done (s ∷ rest) x h k =
        (All-append (R s) done (x ∷ []) h.0 (k.0, tt), All-extend done rest x h.1 k.1)

    live-Matches :
        (done rest : List Submission) (db : ContestDb)
        → get_contest c.id db ≡ some c
        → All Ready rest
        → All (λ s. All (R s) done) rest
        → Pairs (λ a b. R b a) rest
        → Matches done db
        → Matches (done ++ rest) (live at factor db rest)
    unfolding live
    live-Matches done [] db there ready later order h = rw (append-nil done) h
    live-Matches done (s ∷ rest) db there ready later order h =
        rw (← append_assoc done (s ∷ []) rest) (
          live-Matches (done ++ s ∷ []) rest (update_ranking_on_result db factor (at s) s s.status)
            (still c.id db factor (at s) s s.status ∙ there) ready.1
            (All-extend done rest s later.1 order.0) order.1
            (Matches-step done db s there ready.0 later.0 h))

    -- The row of every user and problem looks the same after the single results and after the
    -- recomputation, from a table without rows of the contest.
    pub live-recompute :
        (db : ContestDb)
        → get_contest c.id db ≡ some c
        → ((u p : ℕ) → get_row c.id u p db.rankings ≡ none)
        → Pairs (λ a b. R b a) (terminal c db)
        → (u p : ℕ)
        → seen view (get_row c.id u p (live at factor db (terminal c db)).rankings)
          ≡ seen view (get_row c.id u p (recompute_rankings c factor db).rankings)
    live-recompute db there empty order u p =
        rw (get_row-recompute_rankings c factor db u p, cell_of-group c factor db u p)
          (live-Matches [] (terminal c db) db there (terminal-Ready c db)
              (All-of_each (λ s. All (R s) []) (λ s. tt) (terminal c db)) order
              (λ v q. rw (empty v q)) u p
            ∙ shown u p)
      where
        shown :
            (u p : ℕ)
            → expected u p (terminal c db)
              ≡ seen view (
                  if any (belongs u p) (terminal c db)
                  then some (cell_row u p (group c db u p))
                  else none)
        shown u p = elim (Bool-cases (any (belongs u p) (terminal c db))) [
          | inl e ↦ rw e refl
          | inr e ↦ rw e refl
        ]
