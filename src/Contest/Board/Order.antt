-- ===== src/Contest/Board/Order.antt =====
-- The order and the ranks of a scoreboard.
use mathlib.Core.List.{Perm}
use mathlib.Core.List.Perm
use pigeon_oj.Base.{
  ℕ, zero, suc, ◌+◌, ◌<◌, ◌≡◌, ◌≢◌, refl, ap, ◌⊎◌, true, false, List, [], ◌∷◌, map, arith, length,
  All, Pairs, Pairs-map,
}
use pigeon_oj.Base.Integers.{pos_part, neg_part}
use pigeon_oj.Base.Sorting.{sort_by, sort_by-perm, sort_by-Pairs}
use pigeon_oj.Model.{RuleType}
use pigeon_oj.Contest.Board.{BoardRow, text_before, row_before, number_rows, rank_rows}

text_before-asym : (a b : List ℕ) → text_before a b ≡ true → text_before b a ≡ false
unfolding text_before
text_before-asym [] [] h = cc
text_before-asym [] (y ∷ ys) h = refl
text_before-asym (x ∷ xs) [] h = cc
text_before-asym (x ∷ xs) (y ∷ ys) h = ground (arith, text_before-asym xs ys)

-- not before is transitive
text_before_trans :
    (a b c : List ℕ) → text_before b a ≡ false → text_before c b ≡ false → text_before c a ≡ false
unfolding text_before
text_before_trans [] [] c h k = k
text_before_trans [] (y ∷ ys) [] h k = refl
text_before_trans [] (y ∷ ys) (z ∷ zs) h k = refl
text_before_trans (x ∷ xs) [] c h k = cc
text_before_trans (x ∷ xs) (y ∷ ys) [] h k = cc
text_before_trans (x ∷ xs) (y ∷ ys) (z ∷ zs) h k = ground (arith, text_before_trans xs ys zs)

pub row_before-asym :
    (rule : RuleType) (a b : BoardRow) → row_before rule a b ≡ true → row_before rule b a ≡ false
unfolding row_before
row_before-asym RuleType.acm a b h = ground (arith, text_before-asym a.nickname b.nickname)
row_before-asym RuleType.ioi a b h = ground (arith, text_before-asym a.nickname b.nickname)

pub row_before_trans :
    (rule : RuleType) (a b c : BoardRow)
    → row_before rule b a ≡ false
    → row_before rule c b ≡ false
    → row_before rule c a ≡ false
unfolding row_before
row_before_trans RuleType.acm a b c h k =
    ground (arith, text_before_trans a.nickname b.nickname c.nickname)
row_before_trans RuleType.ioi a b c h k =
    ground (arith, text_before_trans a.nickname b.nickname c.nickname)

-- two texts are the same, or one stands before the other
text_before-Apart : (a b : List ℕ) → text_before a b ≡ false → text_before b a ≡ false → a ≡ b
unfolding text_before
text_before-Apart [] [] h k = refl
text_before-Apart [] (y ∷ ys) h k = cc
text_before-Apart (x ∷ xs) [] h k = cc
text_before-Apart (x ∷ xs) (y ∷ ys) h k = ground (arith, text_before-Apart xs ys)

pub row_before-Apart :
    (rule : RuleType) (a b : BoardRow)
    → a.nickname ≢ b.nickname
    → (row_before rule a b ≡ true) ⊎ (row_before rule b a ≡ true)
unfolding row_before
row_before-Apart RuleType.acm a b n = ground (arith, text_before-Apart a.nickname b.nickname, n)
row_before-Apart RuleType.ioi a b n = ground (arith, text_before-Apart a.nickname b.nickname, n)

-- `a` may stand above `b` on a scoreboard of the rule
abbrev pub Outranks : RuleType → BoardRow → BoardRow → Type 0
Outranks RuleType.acm a b =
    (b.solved < a.solved)
    ⊎ (a.solved ≡ b.solved)
      × ((pos_part a.total_penalty + neg_part b.total_penalty
            < pos_part b.total_penalty + neg_part a.total_penalty)
          ⊎ (a.total_penalty ≡ b.total_penalty) × (text_before b.nickname a.nickname ≡ false))
Outranks RuleType.ioi a b =
    (b.total_score < a.total_score)
    ⊎ (a.total_score ≡ b.total_score)
      × ((b.solved < a.solved)
          ⊎ (a.solved ≡ b.solved) × (text_before b.nickname a.nickname ≡ false))

Outranks-of_key :
    (rule : RuleType) (a b : BoardRow) → row_before rule b a ≡ false → Outranks rule a b
unfolding row_before
Outranks-of_key RuleType.acm a b h = ground arith
Outranks-of_key RuleType.ioi a b h = ground arith

All-number :
    (rule : RuleType) (a : BoardRow) (i k : ℕ) (rows : List BoardRow)
    → All (Outranks rule a) rows
    → All (Outranks rule (record a { rank = k })) (number_rows i rows)
unfolding number_rows
All-number rule a i k [] h = tt
All-number RuleType.acm a i k (r ∷ rs) h = (h.0, All-number RuleType.acm a (suc i) k rs h.1)
All-number RuleType.ioi a i k (r ∷ rs) h = (h.0, All-number RuleType.ioi a (suc i) k rs h.1)

Pairs-number :
    (rule : RuleType) (i : ℕ) (rows : List BoardRow)
    → Pairs (Outranks rule) rows
    → Pairs (Outranks rule) (number_rows i rows)
unfolding number_rows
Pairs-number rule i [] h = tt
Pairs-number rule i (r ∷ rs) h =
    (All-number rule r (suc i) (suc i) rs h.0, Pairs-number rule (suc i) rs h.1)

-- the numbers from `i` on
abbrev pub from : ℕ → ℕ → List ℕ
from i zero = []
from i (suc n) = i ∷ from (suc i) n

ranks-number :
    (i : ℕ) (rows : List BoardRow)
    → map (λ r. r.rank) (number_rows i rows) ≡ from (suc i) (length (number_rows i rows))
unfolding number_rows
ranks-number i [] = refl
ranks-number i (r ∷ rs) = ap (λ l. suc i ∷ l) (ranks-number (suc i) rs)

users-number :
    (i : ℕ) (rows : List BoardRow)
    → map (λ r. r.user_id) (number_rows i rows) ≡ map (λ r. r.user_id) rows
unfolding number_rows
users-number i [] = refl
users-number i (r ∷ rs) = ap (λ l. r.user_id ∷ l) (users-number (suc i) rs)

-- On a scoreboard of ranked rows every row may stand above the rows below it (ACM: more problems solved,
-- then less penalty, then the nickname; IOI: more points, then more problems, then the nickname), the
-- ranks are 1, 2, 3 and so on, and the users are those of the given rows, each as often as there.
pub rank_rows_ranked :
    (rule : RuleType) (rows : List BoardRow)
    → Pairs (Outranks rule) (rank_rows rule rows)
      × (map (λ r. r.rank) (rank_rows rule rows) ≡ from 1 (length (rank_rows rule rows)))
      × Perm (map (λ r. r.user_id) (rank_rows rule rows)) (map (λ r. r.user_id) rows)
unfolding rank_rows
rank_rows_ranked rule rows =
    let sorted = sort_by (row_before rule) rows in
    (
      Pairs-number rule 0 sorted (
          Pairs-map (Outranks-of_key rule) sorted
            (sort_by-Pairs (row_before rule) (row_before-asym rule) (row_before_trans rule) rows)),
      ranks-number 0 sorted,
      rw (users-number 0 sorted) (Perm.map (λ r. r.user_id) (sort_by-perm (row_before rule) rows)),
    )
