-- ===== src/Contest/Board/Users.antt =====
-- The users of a scoreboard, from the submissions and from the groups of submissions.
use pigeon_oj.Base.{
  ℕ, ◌≡◌, refl, ap, sym, ◌∙◌, Bool, false, not, ◌&&◌, List, [], ◌∷◌, map, arith, filter, ◌==◌,
}
use pigeon_oj.Model.{Submission}
use pigeon_oj.Contest.Recompute.{group_keys}
use pigeon_oj.Contest.Board.{distinct}

filter-filter_ne :
    (q : ℕ → Bool) (x : ℕ) (ys : List ℕ)
    → q x ≡ false
    → filter q (filter (λ y. not (x == y)) ys) ≡ filter q ys
filter-filter_ne q x [] h = refl
filter-filter_ne q x (y ∷ ys) h = ground (arith, filter-filter_ne q x ys h)

filter_comm : (q r : ℕ → Bool) (ys : List ℕ) → filter q (filter r ys) ≡ filter r (filter q ys)
filter_comm q r [] = refl
filter_comm q r (y ∷ ys) = ground (arith, filter_comm q r ys)

distinct-filter : (q : ℕ → Bool) (xs : List ℕ) → distinct (filter q xs) ≡ filter q (distinct xs)
unfolding distinct
distinct-filter q [] = refl
distinct-filter q (x ∷ xs) = ground (
  arith,
  distinct-filter q xs,
  filter_comm q (λ y. not (x == y)) (distinct xs),
  filter-filter_ne q x (distinct xs),
)

other_users :
    (u p : ℕ) (ks : List (ℕ × ℕ))
    → filter (λ y. not (u == y)) (map (λ k. k.0) (filter (λ k. not ((k.0 == u) && (k.1 == p))) ks))
      ≡ filter (λ y. not (u == y)) (map (λ k. k.0) ks)
other_users u p [] = refl
other_users u p ((a, b) ∷ ks) = ground (arith, other_users u p ks)

-- The users of the groups are the users of the submissions.
pub distinct-group_keys :
    (ss : List Submission)
    → distinct (map (λ k. k.0) (group_keys ss)) ≡ distinct (map (λ s. s.user_id) ss)
unfolding distinct group_keys
distinct-group_keys [] = refl
distinct-group_keys (s ∷ ss) =
    let u = s.user_id in
    let ks = group_keys ss in
    let rest = filter (λ k. not ((k.0 == u) && (k.1 == s.problem_id))) ks in
    ap (λ l. u ∷ l)
      (sym (distinct-filter (λ y. not (u == y)) (map (λ k. k.0) rest))
        ∙ ap distinct (other_users u s.problem_id ks)
        ∙ distinct-filter (λ y. not (u == y)) (map (λ k. k.0) ks)
        ∙ ap (filter (λ y. not (u == y))) (distinct-group_keys ss))
