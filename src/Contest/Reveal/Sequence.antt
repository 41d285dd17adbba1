-- ===== src/Contest/Reveal/Sequence.antt =====
-- Which submissions the steps of a reveal show, and in which order.
use pigeon_oj.Base.{
  append_nil, ℕ, zero, suc, ◌≤◌, ◌≡◌, refl, sym, ap, ◌∙◌, subst, Bool, false, not, List, [], ◌∷◌,
  ◌++◌, map, filter, filter-append, count, elem, All, All-map, All-append, All-filter_self, Pairs,
  Pairs-map, arith, ltb, ◌==◌, if◌then◌else◌, Bool-cases, inl, inr, ==→eq,
}
use pigeon_oj.Base.Sorting.{insert_sorted, sort_by, sort_by-Pairs}
use pigeon_oj.Model.{RuleType, Submission}
use pigeon_oj.Contest.Recompute.{earlier}
use pigeon_oj.Contest.Board.{BoardRow, distinct}
use pigeon_oj.Contest.Reveal.{
  RevealStep, State, final_rank, queued, reveal_order, reveal_step, evolve, put, reveal,
  build_reveal_steps, load_rows, nothing_shown,
}

count-insert_sorted :
    (lt : ℕ → ℕ → Bool) (p : ℕ → Bool) (x : ℕ) (ys : List ℕ)
    → count p (insert_sorted lt x ys) ≡ count p (x ∷ ys)
unfolding insert_sorted
count-insert_sorted lt p x [] = refl
count-insert_sorted lt p x (y ∷ ys) = ground (arith, count-insert_sorted lt p x ys)

count-sort_by :
    (lt : ℕ → ℕ → Bool) (p : ℕ → Bool) (xs : List ℕ) → count p (sort_by lt xs) ≡ count p xs
unfolding sort_by
count-sort_by lt p [] = refl
count-sort_by lt p (x ∷ xs) =
    count-insert_sorted lt p x (sort_by lt xs) ∙ ground (arith, count-sort_by lt p xs)

count-filter_ne :
    (u x : ℕ) (ys : List ℕ)
    → count (λ y. u == y) (filter (λ y. not (x == y)) ys)
      ≡ (if u == x then 0 else count (λ y. u == y) ys)
count-filter_ne u x [] = ground arith
count-filter_ne u x (y ∷ ys) =
    ground (arith, count-filter_ne u x ys, ==→eq u x, ==→eq u y, ==→eq x y)

count-distinct :
    (u : ℕ) (ys : List ℕ) → count (λ y. u == y) (distinct ys) ≡ (if elem u ys then 1 else 0)
unfolding distinct
count-distinct u [] = refl
count-distinct u (y ∷ ys) = ground (arith, count-distinct u ys, count-filter_ne u y (distinct ys))

-- the submissions of a user
abbrev pub of_user : ℕ → List Submission → List Submission
of_user u subs = filter (λ s. u == s.user_id) subs

of_user-of_user :
    (u v : ℕ) (subs : List Submission)
    → of_user u (of_user v subs) ≡ (if u == v then of_user u subs else [])
of_user-of_user u v [] = ground arith
of_user-of_user u v (s ∷ ss) =
    ground (arith, of_user-of_user u v ss, ==→eq u v, ==→eq u s.user_id, ==→eq v s.user_id)

-- n times the same list
copies : ℕ → List Submission → List Submission
copies zero xs = []
copies (suc n) xs = xs ++ copies n xs

of_user-queued :
    (u : ℕ) (us : List ℕ) (subs : List Submission)
    → of_user u (queued us subs) ≡ copies (count (λ v. u == v) us) (of_user u subs)
unfolding queued copies
of_user-queued u [] subs = refl
of_user-queued u (v ∷ us) subs =
    filter-append (λ s. u == s.user_id) (of_user v subs) (queued us subs)
    ∙ ground (arith, of_user-of_user u v subs, of_user-queued u us subs)

no_submission :
    (u : ℕ) (subs : List Submission)
    → elem u (map (λ s. s.user_id) subs) ≡ false
    → of_user u subs ≡ []
no_submission u [] h = refl
no_submission u (s ∷ ss) h = ground (arith, h, no_submission u ss)

-- Every user with a submission is in the order once.
pub of_user-reveal_order :
    (u : ℕ) (final_rows : List BoardRow) (subs : List Submission)
    → of_user u (queued (reveal_order final_rows subs) subs) ≡ of_user u subs
unfolding reveal_order copies
of_user-reveal_order u final_rows subs =
    let users = distinct (map (λ s. s.user_id) subs) in
    let worse : ℕ → ℕ → Bool = λ v w. ltb (final_rank 0 w final_rows) (final_rank 0 v final_rows) in
    of_user-queued u (sort_by worse users) subs
    ∙ rw (count-sort_by worse (λ v. u == v) users, count-distinct u (map (λ s. s.user_id) subs))
        (elim (Bool-cases (elem u (map (λ s. s.user_id) subs))) [
          | inl e ↦ rw e (append_nil (of_user u subs))
          | inr e ↦ rw e (sym (no_submission u subs e))
        ])

-- the user whose final rank is the worse comes first
abbrev pub WorseFirst : List BoardRow → ℕ → ℕ → Type 0
WorseFirst final_rows u v = final_rank 0 v final_rows ≤ final_rank 0 u final_rows

not_before-le : (a b : ℕ) → ltb a b ≡ false → b ≤ a
not_before-le a b h = ground (arith, h)

reveal_order-WorseFirst :
    (final_rows : List BoardRow) (subs : List Submission)
    → Pairs (WorseFirst final_rows) (reveal_order final_rows subs)
unfolding reveal_order
reveal_order-WorseFirst final_rows subs =
    let rank : ℕ → ℕ = λ u. final_rank 0 u final_rows in
    Pairs-map (λ u v h. not_before-le (rank u) (rank v) h) _
      (sort_by-Pairs (λ u v. ltb (rank v) (rank u)) (λ u v h. ground (arith, h))
        (λ u v w h k. ground (arith, h, k)) (distinct (map (λ s. s.user_id) subs)))

All-of_user :
    (P : ℕ → Type 0) (u : ℕ) (subs : List Submission)
    → P u
    → All (λ s. P s.user_id) (of_user u subs)
All-of_user P u subs h =
    All-map (λ s e. subst P (==→eq u s.user_id e) h) _ (All-filter_self (λ s. u == s.user_id) subs)

All-queued :
    (P : ℕ → Type 0) (us : List ℕ) (subs : List Submission)
    → All P us
    → All (λ s. P s.user_id) (queued us subs)
unfolding queued
All-queued P [] subs h = tt
All-queued P (u ∷ us) subs h =
    All-append (λ s. P s.user_id) (of_user u subs) (queued us subs) (All-of_user P u subs h.0)
      (All-queued P us subs h.1)

Pairs-append :
    (R : Submission → Submission → Type 0) (xs ys : List Submission)
    → Pairs R xs
    → All (λ x. All (R x) ys) xs
    → Pairs R ys
    → Pairs R (xs ++ ys)
Pairs-append R [] ys hx h hy = hy
Pairs-append R (x ∷ xs) ys hx h hy =
    (All-append (R x) xs ys hx.0 h.0, Pairs-append R xs ys hx.1 h.1 hy)

same_user-Pairs :
    (R : ℕ → ℕ → Type 0) (u : ℕ) (subs : List Submission)
    → R u u
    → All (λ s. s.user_id ≡ u) subs
    → Pairs (λ s t. R s.user_id t.user_id) subs
same_user-Pairs R u [] r h = tt
same_user-Pairs R u (s ∷ ss) r h = (
  All-map (λ t e. subst (λ v. R v t.user_id) (sym h.0) (subst (λ v. R u v) (sym e) r)) ss h.1,
  same_user-Pairs R u ss r h.1,
)

queued-Pairs :
    (R : ℕ → ℕ → Type 0) (us : List ℕ) (subs : List Submission)
    → ((u : ℕ) → R u u)
    → Pairs R us
    → Pairs (λ s t. R s.user_id t.user_id) (queued us subs)
unfolding queued
queued-Pairs R [] subs r h = tt
queued-Pairs R (u ∷ us) subs r h =
    Pairs-append (λ s t. R s.user_id t.user_id) (of_user u subs) (queued us subs)
      (same_user-Pairs R u (of_user u subs) (r u) (All-of_user (λ v. v ≡ u) u subs refl))
      (All-of_user (λ v. All (λ t. R v t.user_id) (queued us subs)) u subs
        (All-queued (λ v. R u v) us subs h.0))
      (queued-Pairs R us subs r h.1)

-- what a step shows of its submission
abbrev pub submission_of : RevealStep → ℕ × ℕ
submission_of x = (x.user_id, x.submission_id)

abbrev pub key_of : Submission → ℕ × ℕ
key_of s = (s.user_id, s.id)

module _ (rule : RuleType) (final_rows : List BoardRow) (nickname : ℕ → List ℕ) (fin : State) where
  reveal-submissions :
      (state : State) (ss : List Submission)
      → map submission_of (reveal rule final_rows nickname fin state ss) ≡ map key_of ss
  unfolding reveal reveal_step
  reveal-submissions state [] = refl
  reveal-submissions state (s ∷ ss) =
      ap (λ l. key_of s ∷ l)
        (reveal-submissions
          (put s.user_id s.problem_id
            (evolve (fin s.user_id s.problem_id) (state s.user_id s.problem_id) s) state)
          ss)

map-filter_user :
    (u : ℕ) (ss : List Submission)
    → filter (λ k. u == k.0) (map key_of ss) ≡ map key_of (of_user u ss)
map-filter_user u [] = refl
map-filter_user u (s ∷ ss) = ground (arith, map-filter_user u ss)

Pairs-keys :
    (R : ℕ → ℕ → Type 0) (ss : List Submission)
    → Pairs (λ s t. R s.user_id t.user_id) ss
    → Pairs (λ j k. R j.0 k.0) (map key_of ss)
Pairs-keys R [] h = tt
Pairs-keys R (s ∷ ss) h = (each ss h.0, Pairs-keys R ss h.1)
  where
    each :
        (ts : List Submission)
        → All (λ t. R s.user_id t.user_id) ts
        → All (λ k. R s.user_id k.0) (map key_of ts)
    each [] h = tt
    each (t ∷ ts) h = (h.0, each ts h.1)

-- The steps reveal of each user exactly the pending submissions, in the order in which they were made; and
-- of two steps the later one is never of a user with a worse final rank.
pub reveal_shows_pending :
    (rule : RuleType) (pending : List Submission) (final_rows base_rows : List BoardRow)
    (nickname : ℕ → List ℕ) (u : ℕ)
    → (filter
          (λ k. u == k.0)
          (map submission_of (build_reveal_steps rule pending final_rows base_rows nickname))
        ≡ map key_of (filter (λ s. u == s.user_id) (sort_by earlier pending)))
      × Pairs
          (λ j k. WorseFirst final_rows j.0 k.0)
          (map submission_of (build_reveal_steps rule pending final_rows base_rows nickname))
unfolding build_reveal_steps
reveal_shows_pending rule pending final_rows base_rows nickname u =
    let subs = sort_by earlier pending in
    let order = reveal_order final_rows subs in
    rw
      (reveal-submissions rule final_rows nickname (load_rows final_rows (λ u p. nothing_shown))
        (load_rows base_rows (λ u p. nothing_shown)) (queued order subs))
      (
        map-filter_user u (queued order subs)
            ∙ ap (map key_of) (of_user-reveal_order u final_rows subs),
        Pairs-keys (WorseFirst final_rows) (queued order subs) (
            queued-Pairs (WorseFirst final_rows) order subs (λ v. omega arith)
              (reveal_order-WorseFirst final_rows subs)),
      )
