-- ===== src/Contest/Recompute/Cells.antt =====
-- How a cell changes when one more, later submission joins its group.
use pigeon_oj.Base.{
  ℕ, ◌+◌, max, ◌<◌, ◌≡◌, refl, Bool, true, not, ◌&&◌, none, some, List, [], ◌∷◌, ◌++◌, arith,
  filter, count, head?, length, All, ltb, if◌then◌else◌, filter-append, Option-cases, inl, inr,
  length-append, count-append,
}
use pigeon_oj.Base.Integers.{ℤ, pos}
use pigeon_oj.Model.{RuleType, Submission, is_acm}
use pigeon_oj.Contest.Scoring.{penalty_of}
use pigeon_oj.Contest.Recompute.{solved, best_score, Cell, sorted_cell}

abbrev pub Before : ℕ → Submission → Type 0
Before t s = s.created_at < t

pub best_score-append :
    (g : List Submission) (s : Submission) → best_score (g ++ s ∷ []) ≡ max (best_score g) s.score
unfolding best_score
best_score-append [] s = omega arith
best_score-append (x ∷ g) s = omega (arith, best_score-append g s)

abbrev missed_before : ℕ → Submission → Bool
missed_before t s = not (solved s) && ltb s.created_at t

head?-Before :
    (t : ℕ) (g : List Submission) (f : Submission)
    → All (Before t) g
    → head? (filter solved g) ≡ some f
    → f.created_at < t
head?-Before t [] f h e = ground arith
head?-Before t (x ∷ g) f h e = ground (arith, head?-Before t g f h.1)

-- Where nothing is accepted, every earlier submission is a miss.
count-missed :
    (t : ℕ) (g : List Submission)
    → All (Before t) g
    → head? (filter solved g) ≡ none
    → count (missed_before t) g ≡ length g
count-missed t [] h e = refl
count-missed t (x ∷ g) h e = ground (arith, count-missed t g h.1)

head?-append_some :
    (xs ys : List Submission) {f : Submission} → head? xs ≡ some f → head? (xs ++ ys) ≡ some f
head?-append_some [] ys h = ground arith
head?-append_some (x ∷ xs) ys h = h

head?-append_none : (xs ys : List Submission) → head? xs ≡ none → head? (xs ++ ys) ≡ head? ys
head?-append_none [] ys h = refl
head?-append_none (x ∷ xs) ys h = ground arith

module _ (rule : RuleType) (start : ℕ) (factor : ℤ) where
  -- the values of a cell after one more submission
  abbrev pub next_cell : Cell → Submission → Cell
  next_cell x s =
      if x.accepted
      then record x { score = max x.score s.score }
      else if solved s
      then record {
        accepted = true;
        accepted_at = some s.created_at;
        attempts = x.attempts;
        penalty = if is_acm rule then penalty_of start s.created_at x.attempts factor else pos 0;
        score = max x.score s.score;
      }
      else record x { attempts = x.attempts + 1; score = max x.score s.score }

  pub sorted_cell-append :
      (g : List Submission) (s : Submission)
      → All (Before s.created_at) g
      → sorted_cell rule start factor (g ++ s ∷ []) ≡ next_cell (sorted_cell rule start factor g) s
  unfolding sorted_cell
  sorted_cell-append g s h = elim (Option-cases (head? (filter solved g))) [
    | inl e ↦ ground (
      arith,
      e,
      filter-append solved g (s ∷ []),
      head?-append_none (filter solved g) (filter solved (s ∷ [])) e,
      count-append (missed_before s.created_at) g (s ∷ []),
      count-missed s.created_at g h e,
      length-append g (s ∷ []),
      best_score-append g s,
    )
    | inr (f, e) ↦ ground (
      arith,
      e,
      filter-append solved g (s ∷ []),
      head?-append_some (filter solved g) (filter solved (s ∷ [])) e,
      count-append (missed_before f.created_at) g (s ∷ []),
      head?-Before s.created_at g f h e,
      best_score-append g s,
    )
  ]
