-- ===== src/Contest/Reveal/Shows.antt =====
-- What a manager is shown: the steps and the final rows of `scoreboard_show`.
use pigeon_oj.Base.{
  ℕ, ◌≡◌, sym, ap, ◌∙◌, true, some, List, map, filter, Pairs-filter, arith, ◌==◌, ok,
}
use mathlib.Core.List.{Permᴰ}
use pigeon_oj.Base.Integers.{ℤ}
use pigeon_oj.Base.Sorting.{sort_by, sort_by-id, sort_by-Pairs, NotAfter}
use pigeon_oj.Model.{Submission, Contest, ContestProblem}
use pigeon_oj.Contest.{ContestDb, get_contest}
use pigeon_oj.Contest.Access.{can_manage, find_contest, require_manage}
use pigeon_oj.Contest.Recompute.{list_contest_submissions, earlier, recompute_rankings}
use pigeon_oj.Contest.Board.{BoardRow, aggregate_final_rows, compute_board}
use pigeon_oj.Contest.Board.Plain.{plain_row}
use pigeon_oj.Contest.Board.Unfrozen.{NamesDiffer, counted_users, unfrozen_board_is_final}
use pigeon_oj.Contest.Reveal.{Show, pending_of, build_reveal_steps, scoreboard_show}
use pigeon_oj.Contest.Reveal.Sequence.{submission_of, key_of, reveal_shows_pending}

pending_of-earlier :
    (c : Contest) (subs : List Submission)
    → sort_by earlier (pending_of c (list_contest_submissions c.id subs))
      ≡ pending_of c (list_contest_submissions c.id subs)
unfolding pending_of list_contest_submissions
pending_of-earlier c subs = sort_by-id earlier _ (
    Pairs-filter (NotAfter earlier) _ _
      (sort_by-Pairs earlier (λ a b h. ground (arith, h)) (λ a b d h k. ground (arith, h, k)) _))

shown_parts :
    (db : ContestDb) (cid u : ℕ) (base_rows : List BoardRow) (problems : List ContestProblem)
    (factor : ℤ) (nickname : ℕ → List ℕ) (set_order : List ℕ → List ℕ) (r : Show) (c : Contest)
    → get_contest cid db ≡ some c
    → scoreboard_show db cid u base_rows problems factor nickname set_order ≡ ok r
    → let subs = list_contest_submissions c.id db.submissions in
      let rows = aggregate_final_rows c subs problems factor nickname set_order in
      (can_manage db.grants (some u) c ≡ true)
      × (r.final_rows ≡ rows)
      × (r.steps ≡ build_reveal_steps c.rule_type (pending_of c subs) rows base_rows nickname)
unfolding scoreboard_show require_manage find_contest
shown_parts db cid u base_rows problems factor nickname set_order r c e h = ground (arith, h, e)

-- Where Python iterates over the set of the users with a counted submission in any order, and their
-- nicknames differ: whoever is shown the reveal of a contest may manage it; the steps reveal of
-- each user exactly the judged submissions made from the freeze on, in the order in which they were
-- made; and the final rows are the scoreboard after the rows have been recomputed, less the moments
-- of acceptance.
pub show_ends_unfrozen :
    (db : ContestDb) (cid u : ℕ) (base_rows : List BoardRow) (problems : List ContestProblem)
    (factor : ℤ) (nickname : ℕ → List ℕ) (set_order : List ℕ → List ℕ) (r : Show) (c : Contest)
    (v : ℕ)
    → get_contest cid db ≡ some c
    → scoreboard_show db cid u base_rows problems factor nickname set_order ≡ ok r
    → Permᴰ (counted_users c db) (set_order (counted_users c db))
    → NamesDiffer nickname (counted_users c db)
    → (can_manage db.grants (some u) c ≡ true)
      × (filter (λ k. v == k.0) (map submission_of r.steps)
          ≡ map key_of (
              filter
                (λ s. v == s.user_id)
                (pending_of c (list_contest_submissions c.id db.submissions))))
      × (r.final_rows
          ≡ map plain_row (compute_board c problems nickname (recompute_rankings c factor db)))
show_ends_unfrozen db cid u base_rows problems factor nickname set_order r c v e h perm differ =
    let parts = shown_parts db cid u base_rows problems factor nickname set_order r c e h in
    let subs = list_contest_submissions c.id db.submissions in
    let rows = aggregate_final_rows c subs problems factor nickname set_order in
    let steps = reveal_shows_pending c.rule_type (pending_of c subs) rows base_rows nickname v in
    (
      parts.0,
      ap (λ l. filter (λ k. v == k.0) (map submission_of l)) parts.2
          ∙ steps.0
          ∙ ap (λ l. map key_of (filter (λ s. v == s.user_id) l))
              (pending_of-earlier c db.submissions),
      parts.1 ∙ sym (unfrozen_board_is_final c factor db problems nickname set_order perm differ),
    )
