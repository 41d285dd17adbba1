-- ===== src/Judge/Retries.antt =====
-- Retries come to an end: how often a submission is recalled before it fails for good.
use pigeon_oj.Base.{
  ℕ, suc, ◌≤◌, ◌≡◌, refl, sym, ap, ◌∙◌, subst, Bool, true, false, none, some, List, [], ◌∷◌, arith,
  leb, leb→le, ◌==◌, if◌then◌else◌, ==→eq, Bool-cases, inl, inr,
}
use pigeon_oj.Model.{SubmissionStatus, Submission, is_verify}
use pigeon_oj.Problems.Operations.{on_submission_finalized}
use pigeon_oj.Judge.{
  JudgeDb, is_pending, is_waiting, any_status, find_submission, update_submission, submissions_of,
  with_submissions, finish_submission, finish_problem_part, finish_with_error, claimed, fail_found,
  fail_no_spj_node, fail_retry_exhausted, reset_to_pending, lapse_attempts, max_requeue_attempts,
}
use pigeon_oj.Judge.Rows.{Row, found-id}
use pigeon_oj.Judge.Statuses.{Event, Events, kept_after}
use pigeon_oj.Judge.Recalls.{
  Plain, Recalled, apply-Recalled, build-Recalled, fail-Recalled, reset-Recalled,
}

-- the submission has its result
abbrev pub Settled : ℕ → JudgeDb → Type 0
Settled i db =
    (s : Submission) × (find_submission i (submissions_of db) ≡ some s)
    × (is_waiting s.status ≡ false)

pub find-update :
    (i : ℕ) (q : SubmissionStatus → Bool) (f : Submission → Submission) (s : Submission)
    (ss : List Submission)
    → ((x : Submission) → (f x).id ≡ x.id)
    → find_submission i ss ≡ some s
    → q s.status ≡ true
    → find_submission i (update_submission i q f ss) ≡ some (f s)
unfolding find_submission update_submission
find-update i q f s [] hf h k = cc
find-update i q f s (x ∷ ss) hf h k = elim (Bool-cases (x.id == i)) [
  | inl e ↦
      let same : x ≡ s = ground (arith, h, e) in
      let passes : q x.status ≡ true = subst (λ (y : Submission). q y.status ≡ true) (sym same) k in
      let key : ((f x).id == i) ≡ true = ap (λ n. n == i) (hf x) ∙ e in
      rw (e, passes, key) (ap (λ y. some (f y)) same)
  | inr e ↦ rw (e, e) (find-update i q f s ss hf (rw e at h) k)
]

-- a plain submission whose retries are exhausted has its result
exhausted-Settled :
    (i now : ℕ) (db : JudgeDb)
    → Plain i (submissions_of db)
    → Settled i (fail_retry_exhausted db now i)
unfolding fail_retry_exhausted fail_found
exhausted-Settled i now db (s, found, plain) = rw found (elim (Bool-cases (is_waiting s.status)) [
  | inr e ↦ rw e (s, found, e)
  | inl e ↦
      let id : s.id ≡ i = found-id i s (submissions_of db) found in
      let failed : Submission → Submission = λ (x : Submission). record x {
        status = SubmissionStatus.system_error;
        score = 0;
        time_used_ms = some 0;
        memory_used_kb = none;
      } in
      let taken : Submission → Submission =
        λ (x : Submission). record x { status = SubmissionStatus.judging; updated_at = now } in
      let once : find_submission i (update_submission i is_waiting taken (submissions_of db))
          ≡ some (taken s) =
        find-update i is_waiting taken s (submissions_of db) (λ x. refl) found e in
      let twice : find_submission i (
            update_submission i any_status failed
              (update_submission i is_waiting taken (submissions_of db)))
          ≡ some (failed (taken s)) =
        find-update i any_status failed (taken s) _ (λ x. refl) once refl in
      rw e (
        unfold finish_with_error finish_submission claimed with_submissions on_submission_finalized
          finish_problem_part in
        rw plain (
          failed (taken s),
          subst
              (λ j.
                find_submission i (
                  update_submission j any_status failed
                    (update_submission j is_waiting taken (submissions_of db)))
                ≡ some (failed (taken s)))
              (sym id) twice,
          refl,
        ))
])

-- the submission is there, has been recalled so many times, and has its result if they are too many
abbrev Bounded : ℕ → ℕ → JudgeDb → Type 0
Bounded i n db = Recalled i n db × (max_requeue_attempts ≤ n → Settled i db)

-- the recalls of a submission since its count lapsed last: what an event makes of them
unfoldable pub recalls_after : ℕ → ℕ → (db after : JudgeDb) → Event db after → ℕ
recalls_after i n _ _ (Event.built db now sid config) = n
recalls_after i n _ _ (Event.reported db factor now o) = n
recalls_after i n _ _ (Event.no_spj_node db now sid) = n
recalls_after i n _ _ (Event.exhausted db now sid) = n
recalls_after i n _ _ (Event.recalled db now sid) = if i == sid then suc n else n
recalls_after i n _ _ (Event.lapsed db sid) = if i == sid then 0 else n

-- and what a history makes of none
unfoldable pub recalls : ℕ → (db after : JudgeDb) → Events db after → ℕ
unfolding recalls_after
recalls i _ _ (Events.done db) = 0
recalls i _ _ (Events.more a b c past e) = recalls_after i (recalls i a b past) b c e

Settled-after : (i : ℕ) (db after : JudgeDb) → Event db after → Settled i db → Settled i after
unfolding Row
Settled-after i db after e (s, found, waits) = (s, kept_after i s db after e waits found, waits)

-- an event that recalls nothing
no_recall :
    (i n : ℕ) (db after : JudgeDb)
    → Event db after
    → Bounded i n db
    → Recalled i n after
    → Bounded i n after
no_recall i n db after e h k = (k, λ m. Settled-after i db after e (h.1 m))

recall_bounds :
    (i n now sid : ℕ) (db : JudgeDb)
    → Bounded i n db
    → max_requeue_attempts ≤ (if i == sid then suc n else n)
    → Settled i (reset_to_pending db now sid)
recall_bounds i n now sid db h k = elim (Bool-cases (i == sid)) [
  | inr e ↦ Settled-after i db _ (Event.recalled db now sid) (h.1 (ground (arith, k, e)))
  | inl e ↦ elim (Bool-cases (leb max_requeue_attempts n)) [
    | inl m ↦
        Settled-after i db _ (Event.recalled db now sid) (h.1 (leb→le max_requeue_attempts n m))
    | inr m ↦
        let same : i ≡ sid = ==→eq i sid e in
        let last : leb max_requeue_attempts (suc (db.attempts i)) ≡ true =
          ground (arith, k, e, h.0.1) in
        subst (λ j. Settled i (reset_to_pending db now j)) same
          (unfold reset_to_pending in rw last (exhausted-Settled i now _ h.0.0))
  ]
]

lapsed-Bounded :
    (i n sid : ℕ) (db : JudgeDb)
    → Bounded i n db
    → (Settled i db → Settled i (lapse_attempts sid db))
    → Bounded i (if i == sid then 0 else n) (lapse_attempts sid db)
unfolding lapse_attempts
lapsed-Bounded i n sid db h keep =
    ((h.0.0, ground (arith, h.0.1)), λ m. keep (h.1 (ground (arith, m))))

event-Bounded :
    (i n : ℕ) (db after : JudgeDb) (e : Event db after)
    → Bounded i n db
    → Bounded i (recalls_after i n db after e) after
unfolding recalls_after
event-Bounded i n _ _ (Event.built db now sid config) h =
    no_recall i n db _ (Event.built db now sid config) h (build-Recalled i n now sid config db h.0)
event-Bounded i n _ _ (Event.reported db factor now o) h =
    no_recall i n db _ (Event.reported db factor now o) h (apply-Recalled i n now factor o db h.0)
event-Bounded i n _ _ (Event.no_spj_node db now sid) h =
    no_recall i n db (fail_no_spj_node db now sid) (Event.no_spj_node db now sid) h
      (unfold fail_no_spj_node in fail-Recalled i n now sid is_pending db h.0)
event-Bounded i n _ _ (Event.exhausted db now sid) h =
    no_recall i n db (fail_retry_exhausted db now sid) (Event.exhausted db now sid) h
      (unfold fail_retry_exhausted in fail-Recalled i n now sid is_waiting db h.0)
event-Bounded i n _ _ (Event.recalled db now sid) h =
    (reset-Recalled i n now sid db h.0, recall_bounds i n now sid db h)
event-Bounded i n _ _ (Event.lapsed db sid) h =
    lapsed-Bounded i n sid db h (Settled-after i db _ (Event.lapsed db sid))

history-Bounded :
    (i : ℕ) (db after : JudgeDb) (e : Events db after)
    → Bounded i 0 db
    → Bounded i (recalls i db after e) after
unfolding recalls
history-Bounded i _ _ (Events.done db) h = h
history-Bounded i _ _ (Events.more a b c past e) h =
    event-Bounded i (recalls i a b past) b c e (history-Bounded i a b past h)

-- A submission that belongs to no verification and has no count of recalls yet: after every history
-- of jobs, results, failures, recalls and lapses of counts, in any order, that has recalled it
-- three times or more since its count lapsed last, it has its result and waits no longer.
pub three_recalls_end :
    (i : ℕ) (s : Submission) (db after : JudgeDb) (e : Events db after)
    → find_submission i (submissions_of db) ≡ some s
    → is_verify s.submit_type ≡ false
    → db.attempts i ≡ 0
    → max_requeue_attempts ≤ recalls i db after e
    → (t : Submission) × (find_submission i (submissions_of after) ≡ some t)
      × (is_waiting t.status ≡ false)
three_recalls_end i s db after e found plain zero_yet many =
    (history-Bounded i db after e (((s, found, plain), zero_yet), λ k. absurd (omega (arith, k)))).1
      many
