-- ===== src/Judge/Scores.antt =====
-- The scores of judged submissions stay within the problem's score.
use pigeon_oj.Base.{
  ℕ, zero, suc, ◌+◌, ◌-◌, ◌*◌, ◌/◌, ◌%◌, ◌≤◌, ◌<◌, ◌≡◌, refl, Bool, true, false, not, ◌||◌, List,
  [], ◌∷◌, length, elem, arith, ltb, if◌then◌else◌, Bool-cases, inl, inr, ltb→lt,
}
use pigeon_oj.Model.{is_accepted}
use pigeon_oj.Judge.Results.{
  CaseOutcome, Tally, JudgeOutcome, case_score, tally_case, tally, empty_tally, base_and_extra,
  tally_outcome, stored_total,
}

-- the shares of the cases from an index on
shares : ℕ → ℕ → ℕ → ℕ → ℕ
shares base extra index zero = 0
shares base extra index (suc k) =
    (base + (if ltb index extra then 1 else 0)) + shares base extra (suc index) k

case_score-le :
    (acm : Bool) (base extra index : ℕ) (c : CaseOutcome)
    → case_score acm base extra index c ≤ base + (if ltb index extra then 1 else 0)
unfolding case_score
case_score-le acm base extra index c = ground arith

tally_case-le :
    (known : ℕ → Bool) (acm : Bool) (base extra index : ℕ) (c : CaseOutcome) (t : Tally)
    → (tally_case known acm base extra index c t).total_score
      ≤ t.total_score + (base + (if ltb index extra then 1 else 0))
unfolding tally_case
tally_case-le known acm base extra index c t =
    elim (Bool-cases (not (known c.test_case_id) || elem c.test_case_id t.seen)) [
      | inl e ↦ rw e (omega arith)
      | inr e ↦ rw e (omega (arith, case_score-le acm base extra index c))
    ]

tally-le :
    (known : ℕ → Bool) (acm : Bool) (base extra index : ℕ) (cs : List CaseOutcome) (t : Tally)
    → (tally known acm base extra index cs t).total_score
      ≤ t.total_score + shares base extra index (length cs)
unfolding tally shares
tally-le known acm base extra index [] t = omega arith
tally-le known acm base extra index (c ∷ cs) t = omega (
  arith,
  tally_case-le known acm base extra index c t,
  tally-le known acm base extra (suc index) cs (tally_case known acm base extra index c t),
)

suc-times : (k b : ℕ) → suc k * b ≡ b + k * b
suc-times k b = grind arith

shares-value :
    (base extra index k : ℕ)
    → extra ≤ index + k
    → shares base extra index k ≡ k * base + (extra - index)
unfolding shares
shares-value base extra index zero h = omega (arith, h)
shares-value base extra index (suc k) h =
    let rest = shares-value base extra (suc index) k (omega (arith, h)) in
    elim (Bool-cases (ltb index extra)) [
      | inl e ↦ rw e (omega (arith, rest, suc-times k base, ltb→lt index extra e))
      | inr e ↦ rw e (ground (arith, rest, suc-times k base, e))
    ]

division : (full n : ℕ) → suc n * (full / suc n) + full % suc n ≡ full
division full n = grind arith

mod-lt : (full n : ℕ) → full % suc n < suc n
mod-lt full n = grind arith

shares-full : (full n : ℕ) → shares (full / suc n) (full % suc n) 0 (suc n) ≡ full
shares-full full n =
    let all = shares-value (full / suc n) (full % suc n) 0 (suc n) (omega (arith, mod-lt full n)) in
    omega (arith, all, division full n)

-- For every outcome that a node reports, whatever cases it names, repeats or leaves out, and either kind of
-- rules: the score that is stored for the submission is at most the score of its problem.
pub score_within_full :
    (known : ℕ → Bool) (acm : Bool) (full : ℕ) (o : JudgeOutcome)
    → stored_total acm full o (tally_outcome known acm full o.cases) ≤ full
unfolding stored_total tally_outcome base_and_extra
score_within_full known true full o = ground arith
score_within_full known false full o = sum o.cases
  where
    sum :
        (cs : List CaseOutcome)
        → (tally known false
            (base_and_extra full (length cs)).0
            (base_and_extra full (length cs)).1
            0
            cs
            empty_tally).total_score
          ≤ full
    sum [] = (unfold tally in omega arith)
    sum (c ∷ cs) = omega (
      arith,
      tally-le known false (full / suc (length cs)) (full % suc (length cs)) 0 (c ∷ cs) empty_tally,
      shares-full full (length cs),
    )

-- every case is one of the problem's table, is reported once and has been accepted
abbrev pub AllAccepted : (ℕ → Bool) → List ℕ → List CaseOutcome → Type 0
AllAccepted known seen [] = Unit
AllAccepted known seen (c ∷ cs) =
    (known c.test_case_id ≡ true)
    × (elem c.test_case_id seen ≡ false)
    × (is_accepted c.status ≡ true)
    × AllAccepted known (c.test_case_id ∷ seen) cs

tally_case-accepted :
    (known : ℕ → Bool) (base extra index : ℕ) (c : CaseOutcome) (t : Tally)
    → known c.test_case_id ≡ true
    → elem c.test_case_id t.seen ≡ false
    → is_accepted c.status ≡ true
    → ((tally_case known false base extra index c t).total_score
        ≡ t.total_score + (base + (if ltb index extra then 1 else 0)))
      × ((tally_case known false base extra index c t).seen ≡ c.test_case_id ∷ t.seen)
unfolding tally_case case_score
tally_case-accepted known base extra index c t hk he ha = rw (hk, he, ha) (refl, refl)

tally-accepted :
    (known : ℕ → Bool) (base extra index : ℕ) (cs : List CaseOutcome) (t : Tally)
    → AllAccepted known t.seen cs
    → (tally known false base extra index cs t).total_score
      ≡ t.total_score + shares base extra index (length cs)
unfolding tally shares
tally-accepted known base extra index [] t h = omega arith
tally-accepted known base extra index (c ∷ cs) t h =
    let step = tally_case-accepted known base extra index c t h.0 h.1 h.2 in
    omega (
      arith,
      step.0,
      tally-accepted known base extra (suc index) cs (tally_case known false base extra index c t)
          (rw step.1 h.3),
    )

-- By IOI rules, in practice and in a verification: where the node reports one case at least, every reported
-- case is in the table and reported once, and all are accepted, the stored score is the problem's score
-- exactly, also where it is no multiple of the number of cases.
pub accepted_scores_full :
    (known : ℕ → Bool) (full : ℕ) (o : JudgeOutcome) (c : CaseOutcome) (cs : List CaseOutcome)
    → o.cases ≡ c ∷ cs
    → AllAccepted known [] (c ∷ cs)
    → stored_total false full o (tally_outcome known false full o.cases) ≡ full
unfolding stored_total tally_outcome base_and_extra
accepted_scores_full known full o c cs hc h = rw hc (
    omega (
      arith,
      tally-accepted known (full / suc (length cs)) (full % suc (length cs)) 0 (c ∷ cs) empty_tally
          h,
      shares-full full (length cs),
    ))
