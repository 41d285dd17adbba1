-- ===== src/Ranking/Lookup.antt =====
-- What a lookup by key finds after each operation on the scoreboard table.
use pigeon_oj.Base.{
  ℕ, ◌+◌, max, ◌≡◌, refl, Bool, true, false, not, ◌&&◌, Option, none, some, List, [], ◌∷◌, ◌++◌,
  arith, ◌==◌, if◌then◌else◌, Option-cases, inl, inr,
}
use pigeon_oj.Base.Integers.{ℤ}
use pigeon_oj.Ranking.{
  RankingRow, key_is, update_where, get_row, fresh_row, ensure_row, increment_attempts,
  mark_accepted, bump_score, delete_rows, add_rows,
}

-- the three ids are the same
abbrev pub same_key : ℕ → ℕ → ℕ → ℕ → ℕ → ℕ → Bool
same_key c u p c' u' p' = (c == c') && ((u == u') && (p == p'))

abbrev map_row : (RankingRow → RankingRow) → Option RankingRow → Option RankingRow
map_row f none = none
map_row f (some r) = some (f r)

module _ (c u p c' u' p' : ℕ) (guard : RankingRow → Bool) (f : RankingRow → RankingRow)
    (keeps : (r : RankingRow)
      → ((f r).contest_id ≡ r.contest_id)
        × ((f r).user_id ≡ r.user_id)
        × ((f r).problem_id ≡ r.problem_id)) where
  get_row-update_where :
      (rows : List RankingRow)
      → get_row c u p (update_where (λ r. key_is c' u' p' r && guard r) f rows) ≡ (
          if same_key c u p c' u' p'
          then map_row (λ r. if guard r then f r else r) (get_row c u p rows)
          else get_row c u p rows)
  unfolding get_row update_where
  get_row-update_where [] = ground arith
  get_row-update_where (r ∷ rs) = ground (arith, keeps r, get_row-update_where rs)

-- the rows of a key after one of the conditional updates
abbrev pub if_open : (RankingRow → RankingRow) → RankingRow → RankingRow
if_open f r = if not r.accepted && not r.is_frozen then f r else r

module _ (c u p c' u' p' : ℕ) (rows : List RankingRow) where
  pub get_row-increment_attempts : get_row c u p (increment_attempts c' u' p' rows) ≡ (
      if same_key c u p c' u' p'
      then map_row (if_open (λ r. record r { attempts = r.attempts + 1 })) (get_row c u p rows)
      else get_row c u p rows)
  unfolding increment_attempts
  get_row-increment_attempts =
      get_row-update_where c u p c' u' p' (λ r. not r.accepted && not r.is_frozen) _
        (λ r. (refl, refl, refl)) rows

  pub get_row-mark_accepted :
      (at : ℕ) (pen : ℤ)
      → get_row c u p (mark_accepted c' u' p' at pen rows) ≡ (
          if same_key c u p c' u' p'
          then map_row
              (if_open (λ r. record r { accepted = true; accepted_at = some at; penalty = pen }))
              (get_row c u p rows)
          else get_row c u p rows)
  unfolding mark_accepted
  get_row-mark_accepted at pen =
      get_row-update_where c u p c' u' p' (λ r. not r.accepted && not r.is_frozen) _
        (λ r. (refl, refl, refl)) rows

  pub get_row-bump_score :
      (value : ℕ)
      → get_row c u p (bump_score c' u' p' value rows) ≡ (
          if same_key c u p c' u' p'
          then map_row
              (λ r. if not r.is_frozen then record r { score = max r.score value } else r)
              (get_row c u p rows)
          else get_row c u p rows)
  unfolding bump_score
  get_row-bump_score value =
      get_row-update_where c u p c' u' p' (λ r. not r.is_frozen) _ (λ r. (refl, refl, refl)) rows

abbrev or_else : Option RankingRow → Option RankingRow → Option RankingRow
or_else none o = o
or_else (some r) o = some r

get_row-append :
    (c u p : ℕ) (rows more : List RankingRow)
    → get_row c u p (rows ++ more) ≡ or_else (get_row c u p rows) (get_row c u p more)
unfolding get_row
get_row-append c u p [] more = refl
get_row-append c u p (r ∷ rs) more = ground (arith, get_row-append c u p rs more)

-- the row that `ensure_row` leaves under the key
abbrev pub or_fresh : ℕ → ℕ → ℕ → Option RankingRow → RankingRow
or_fresh c u p none = fresh_row c u p false
or_fresh c u p (some r) = r

pub get_row-ensure_row :
    (c u p c' u' p' : ℕ) (rows : List RankingRow)
    → get_row c u p (ensure_row c' u' p' false rows) ≡ (
        if same_key c u p c' u' p'
        then some (or_fresh c u p (get_row c u p rows))
        else get_row c u p rows)
unfolding ensure_row get_row
get_row-ensure_row c u p c' u' p' rows = elim (Option-cases (get_row c' u' p' rows)) [
  | inl e ↦ ground (arith, e, get_row-append c u p rows (fresh_row c' u' p' false ∷ []))
  | inr (r, e) ↦ ground (arith, e)
]

pub get_row-delete_rows :
    (c u p : ℕ) (rows : List RankingRow) → get_row c u p (delete_rows c rows) ≡ none
unfolding get_row delete_rows
get_row-delete_rows c u p [] = refl
get_row-delete_rows c u p (r ∷ rs) = ground (arith, get_row-delete_rows c u p rs)

pub get_row-add_rows :
    (c u p : ℕ) (fresh rows : List RankingRow)
    → get_row c u p (add_rows fresh (delete_rows c rows)) ≡ get_row c u p fresh
unfolding add_rows
get_row-add_rows c u p fresh rows =
    rw (get_row-append c u p (delete_rows c rows) fresh, get_row-delete_rows c u p rows) refl
