-- ===== src/Contest/Reveal/Attempts.antt =====
-- The attempts and the scores that the steps of a reveal show.
use pigeon_oj.Base.{
  ℕ, suc, ◌≡◌, refl, sym, ap, ◌∙◌, Bool, true, false, ◌&&◌, List, [], ◌∷◌, map, filter, arith, ◌==◌,
  if◌then◌else◌, Bool-cases, inl, inr, ==→eq,
}
use pigeon_oj.Base.Sorting.{sort_by}
use pigeon_oj.Model.{RuleType, Submission}
use pigeon_oj.Contest.Recompute.{earlier, solved}
use pigeon_oj.Contest.Board.{BoardRow}
use pigeon_oj.Contest.Reveal.{
  RevealStep, State, Shown, queued, reveal_order, reveal_step, evolve, put, reveal,
  build_reveal_steps, load_rows, nothing_shown,
}
use pigeon_oj.Contest.Reveal.Sequence.{of_user, of_user-reveal_order}

-- the submissions and the steps of one cell
abbrev pub of_cell : ℕ → ℕ → Submission → Bool
of_cell u p s = (u == s.user_id) && (p == s.problem_id)

abbrev pub shows_cell : ℕ → ℕ → RevealStep → Bool
shows_cell u p x = (u == x.user_id) && (p == x.problem_id)

-- the number of attempts after each submission, those without success counted
abbrev pub running : ℕ → List Submission → List ℕ
running n [] = []
running n (s ∷ ss) = let now : ℕ = if solved s then n else suc n in now ∷ running now ss

of_cell-of_user :
    (u p : ℕ) (ss : List Submission)
    → filter (of_cell u p) ss ≡ filter (λ s. p == s.problem_id) (of_user u ss)
of_cell-of_user u p [] = refl
of_cell-of_user u p (s ∷ ss) = ground (arith, of_cell-of_user u p ss)

of_cell-reveal_order :
    (u p : ℕ) (final_rows : List BoardRow) (subs : List Submission)
    → filter (of_cell u p) (queued (reveal_order final_rows subs) subs) ≡ filter (of_cell u p) subs
of_cell-reveal_order u p final_rows subs =
    of_cell-of_user u p (queued (reveal_order final_rows subs) subs)
    ∙ ap (filter (λ s. p == s.problem_id)) (of_user-reveal_order u final_rows subs)
    ∙ sym (of_cell-of_user u p subs)

attempts-evolve :
    (fin st : Shown) (s : Submission)
    → (evolve fin st s).attempts ≡ (if solved s then st.attempts else suc st.attempts)
unfolding evolve
attempts-evolve fin st s = elim (Bool-cases (solved s)) [ inl e ↦ rw e refl | inr e ↦ rw e refl ]

put-hit :
    (u p : ℕ) (s : Submission) (x : Shown) (state : State)
    → of_cell u p s ≡ true
    → put s.user_id s.problem_id x state u p ≡ x
unfolding put
put-hit u p s x state e = ground (arith, e)

put-miss :
    (u p : ℕ) (s : Submission) (x : Shown) (state : State)
    → of_cell u p s ≡ false
    → put s.user_id s.problem_id x state u p ≡ state u p
unfolding put
put-miss u p s x state e = ground (arith, e)

at_cell :
    (u p : ℕ) (s : Submission) (state : State)
    → of_cell u p s ≡ true
    → state s.user_id s.problem_id ≡ state u p
at_cell u p s state e =
    let user : u ≡ s.user_id = ==→eq u s.user_id (ground (arith, e)) in
    let problem : p ≡ s.problem_id = ==→eq p s.problem_id (ground (arith, e)) in
    sym (ap (λ v. state v p) user ∙ ap (λ q. state s.user_id q) problem)

module _ (rule : RuleType) (final_rows : List BoardRow) (nickname : ℕ → List ℕ) (fin : State)
    (u p : ℕ) where
  reveal-attempts :
      (state : State) (ss : List Submission)
      → map
          (λ x. x.attempts)
          (filter (shows_cell u p) (reveal rule final_rows nickname fin state ss))
        ≡ running (state u p).attempts (filter (of_cell u p) ss)
  unfolding reveal reveal_step
  reveal-attempts state [] = refl
  reveal-attempts state (s ∷ ss) =
      let shown = evolve (fin s.user_id s.problem_id) (state s.user_id s.problem_id) s in
      let rest = reveal-attempts (put s.user_id s.problem_id shown state) ss in
      let later = filter (of_cell u p) ss in
      elim (Bool-cases (of_cell u p s)) [
        | inl e ↦
            let now =
              attempts-evolve (fin s.user_id s.problem_id) (state s.user_id s.problem_id) s
              ∙ ap (λ st. if solved s then st.attempts else suc st.attempts)
                  (at_cell u p s state e) in
            rw e (
              ap (λ l. shown.attempts ∷ l)
                (rest ∙ ap (λ st. running st.attempts later) (put-hit u p s shown state e))
              ∙ ap (λ n. n ∷ running n later) now)
        | inr e ↦ rw e (rest ∙ ap (λ st. running st.attempts later) (put-miss u p s shown state e))
      ]

-- In every cell, the attempts that its steps show are those of the scoreboard from which the reveal starts,
-- and one more for every pending submission of the cell without success up to that step, those after its
-- accepted submission included.
pub reveal_counts_attempts :
    (rule : RuleType) (pending : List Submission) (final_rows base_rows : List BoardRow)
    (nickname : ℕ → List ℕ) (u p : ℕ)
    → map
        (λ x. x.attempts)
        (filter (shows_cell u p) (build_reveal_steps rule pending final_rows base_rows nickname))
      ≡ running
          (load_rows base_rows (λ u p. nothing_shown) u p).attempts
          (filter (of_cell u p) (sort_by earlier pending))
unfolding build_reveal_steps
reveal_counts_attempts rule pending final_rows base_rows nickname u p =
    let subs = sort_by earlier pending in
    let base = load_rows base_rows (λ u p. nothing_shown) in
    reveal-attempts rule final_rows nickname (load_rows final_rows (λ u p. nothing_shown)) u p base
      (queued (reveal_order final_rows subs) subs)
    ∙ ap (running (base u p).attempts) (of_cell-reveal_order u p final_rows subs)
