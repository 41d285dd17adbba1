-- ===== src/Contest/Reveal.antt =====
-- The steps by which a frozen scoreboard is revealed: `build_reveal_steps` and `scoreboard_show`, in src/backend/app/services/contest.py.
pub mod Sequence
pub mod Attempts
pub mod Shows
use pigeon_oj.Base.{
  ℕ, suc, max, Bool, true, false, not, ◌&&◌, Option, none, some, List, [], ◌∷◌, ◌++◌, map, filter,
  length, ltb, ◌==◌, if◌then◌else◌, Result, ok, ◌>>=◌,
}
use pigeon_oj.Base.Integers.{ℤ, pos}
use pigeon_oj.Base.Sorting.{sort_by}
use pigeon_oj.Model.{RuleType, Submission, Contest, ContestProblem, is_acm}
use pigeon_oj.Contest.Recompute.{list_contest_submissions, counted, solved, earlier}
use pigeon_oj.Contest.Board.{BoardCell, BoardRow, distinct, aggregate_final_rows}
use pigeon_oj.Contest.{ContestDb}
use pigeon_oj.Contest.Access.{require_manage}

-- RevealStep of schemas/contest.py
pub record RevealStep : Type 0 where
  pub user_id : ℕ
  pub nickname : List ℕ
  pub problem_id : ℕ
  pub letter : Option (List ℕ)
  pub submission_id : ℕ
  pub created_at : ℕ
  pub accepted : Bool
  pub score : ℕ
  pub penalty : ℤ
  pub attempts : ℕ

-- a value of the dictionaries `state` and `final_state`
pub record Shown : Type 0 where
  pub accepted : Bool
  pub attempts : ℕ
  pub penalty : ℤ
  pub score : ℕ

abbrev pub nothing_shown : Shown
nothing_shown = record { accepted = false; attempts = 0; penalty = pos 0; score = 0 }

-- a dictionary by user and problem, with what `get` gives for a missing key
abbrev pub State : Type 0
State = ℕ → ℕ → Shown

unfoldable pub put : ℕ → ℕ → Shown → State → State
put u p x state v q = if (u == v) && (p == q) then x else state v q

unfoldable pub load_cells : ℕ → List BoardCell → State → State
unfolding put
load_cells u [] state = state
load_cells u (x ∷ xs) state =
    let shown : Shown = record {
      accepted = x.accepted;
      attempts = x.attempts;
      penalty = x.penalty;
      score = x.score;
    } in
    load_cells u xs (put u x.problem_id shown state)

-- the dictionary of the cells of a scoreboard
unfoldable pub load_rows : List BoardRow → State → State
unfolding load_cells
load_rows [] state = state
load_rows (r ∷ rs) state = load_rows rs (load_cells r.user_id r.cells state)

unfoldable pub letter_in : ℕ → List BoardCell → Option (List ℕ)
letter_in p [] = none
letter_in p (x ∷ xs) = if x.problem_id == p then some x.letter else letter_in p xs

-- `letters.get(p)`: the first cell of the problem has set it
unfoldable pub letter_of : ℕ → List BoardRow → Option (List ℕ)
unfolding letter_in
letter_of p [] = none
letter_of p (r ∷ rs) = elim (letter_in p r.cells) [ none ↦ letter_of p rs | some l ↦ some l ]

-- `final_rank_of.get(u, 0)`: the last row of the user has set it
unfoldable pub final_rank : ℕ → ℕ → List BoardRow → ℕ
final_rank found u [] = found
final_rank found u (r ∷ rs) = final_rank (if r.user_id == u then r.rank else found) u rs

-- `[s for uid in users for s in queue[uid]]`
unfoldable pub queued : List ℕ → List Submission → List Submission
queued [] subs = []
queued (u ∷ us) subs = filter (λ s. u == s.user_id) subs ++ queued us subs

-- the users of `queue`, the worst final rank first
unfoldable pub reveal_order : List BoardRow → List Submission → List ℕ
unfolding final_rank distinct
reveal_order final_rows subs =
    sort_by (λ u v. ltb (final_rank 0 v final_rows) (final_rank 0 u final_rows))
      (distinct (map (λ s. s.user_id) subs))

-- the cell after one step
unfoldable pub evolve : Shown → Shown → Submission → Shown
evolve fin st s =
    let best = max st.score s.score in
    if solved s
    then record st { accepted = true; penalty = fin.penalty; score = best }
    else record st { attempts = suc st.attempts; score = best }

unfoldable pub reveal_step :
    RuleType → List BoardRow → (ℕ → List ℕ) → Shown → Submission → RevealStep
unfolding letter_of
reveal_step rule final_rows nickname shown s = record {
  user_id = s.user_id;
  nickname = nickname s.user_id;
  problem_id = s.problem_id;
  letter = letter_of s.problem_id final_rows;
  submission_id = s.id;
  created_at = s.created_at;
  accepted = solved s;
  score = if is_acm rule then 0 else shown.score;
  penalty = if is_acm rule then shown.penalty else pos 0;
  attempts = shown.attempts;
}

-- the loop over the submissions, in the order of the reveal
unfoldable pub reveal :
    RuleType → List BoardRow → (ℕ → List ℕ) → State → State → List Submission → List RevealStep
unfolding put evolve reveal_step
reveal rule final_rows nickname fin state [] = []
reveal rule final_rows nickname fin state (s ∷ ss) =
    let shown = evolve (fin s.user_id s.problem_id) (state s.user_id s.problem_id) s in
    reveal_step rule final_rows nickname shown s
    ∷ reveal rule final_rows nickname fin (put s.user_id s.problem_id shown state) ss

unfoldable pub build_reveal_steps :
    RuleType → List Submission → List BoardRow → List BoardRow → (ℕ → List ℕ) → List RevealStep
unfolding load_rows queued reveal_order reveal
build_reveal_steps rule pending final_rows base_rows nickname =
    let subs = sort_by earlier pending in
    reveal rule final_rows nickname (load_rows final_rows (λ u p. nothing_shown))
      (load_rows base_rows (λ u p. nothing_shown)) (queued (reveal_order final_rows subs) subs)

-- `freeze_moment` of `scoreboard_show`
unfoldable pub freeze_moment : Contest → ℕ
freeze_moment c = elim c.frozen_at [
  | some t ↦ t
  | none ↦ elim c.freeze_time [ some t ↦ t | none ↦ c.start_time ]
]

-- `pending` of `scoreboard_show`
unfoldable pub pending_of : Contest → List Submission → List Submission
unfolding freeze_moment
pending_of c subs = filter (λ s. counted s && not (ltb s.created_at (freeze_moment c))) subs

-- ScoreboardShowOut, less the contest and its problems
pub record Show : Type 0 where
  pub base_rows : List BoardRow
  pub final_rows : List BoardRow
  pub steps : List RevealStep

-- ContestService.scoreboard_show; `base_rows` is the answer of `board`
unfoldable pub scoreboard_show :
    ContestDb
    → ℕ
    → ℕ
    → List BoardRow
    → List ContestProblem
    → ℤ
    → (ℕ → List ℕ)
    → (List ℕ → List ℕ)
    → Result Show
unfolding pending_of build_reveal_steps
scoreboard_show db cid u base_rows problems factor nickname set_order =
    require_manage cid u db >>= λ c.
    let subs = list_contest_submissions c.id db.submissions in
    let final_rows = aggregate_final_rows c subs problems factor nickname set_order in
    ok (record {
      base_rows = base_rows;
      final_rows = final_rows;
      steps = build_reveal_steps c.rule_type (pending_of c subs) final_rows base_rows nickname;
    })
