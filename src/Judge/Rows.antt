-- ===== src/Judge/Rows.antt =====
-- What the operations of a job leave of the rows of the other submissions, and of those that are judged.
use pigeon_oj.Base.{
  ℕ, suc, ◌≡◌, refl, ◌∙◌, Bool, true, false, not, ◌&&◌, Option, none, some, List, [], ◌∷◌, arith,
  any, leb, ◌==◌, if◌then◌else◌, ==→eq, Bool-cases, Option-cases, Result-cases, inl, inr, Result,
  ok, err,
}
use pigeon_oj.Model.{SubmissionStatus, Submission, Problem, is_verify}
use pigeon_oj.Problems.{is_nil, find_problem, judged_case_ids}
use pigeon_oj.Problems.Operations.{on_submission_finalized}
use pigeon_oj.Judge.{
  SandboxConfig, JudgeDb, is_pending, is_judging, is_waiting, any_status, find_submission,
  update_submission, submissions_of, with_submissions, finish_submission, finish_problem_part,
  finish_with_error, claimed, disabled, list_by_ids, build_job_bundle, build_found, build_claimed,
  fail_found, fail_retry_exhausted, reset_to_pending, max_requeue_attempts,
}

-- the row under the id is this one
unfoldable pub Row : ℕ → Submission → JudgeDb → Type 0
Row i s db = find_submission i (submissions_of db) ≡ some s

kept :
    (i sid : ℕ) (q : SubmissionStatus → Bool) (f : Submission → Submission) (s : Submission)
    (ss : List Submission)
    → ((x : Submission) → (f x).id ≡ x.id)
    → find_submission i ss ≡ some s
    → ((i == sid) && q s.status) ≡ false
    → find_submission i (update_submission sid q f ss) ≡ some s
unfolding find_submission update_submission
kept i sid q f s [] hf h k = h
kept i sid q f s (x ∷ ss) hf h k =
    ground (arith, h, k, hf x, kept i sid q f s ss hf, ==→eq x.id i, ==→eq x.id sid)

pub found-id :
    (i : ℕ) (s : Submission) (ss : List Submission) → find_submission i ss ≡ some s → s.id ≡ i
unfolding find_submission
found-id i s [] h = ground (arith, h)
found-id i s (x ∷ ss) h = ground (arith, h, found-id i s ss, ==→eq x.id i)

pub finish_submission-kept :
    (db : JudgeDb) (i sid score time : ℕ) (status : SubmissionStatus) (memory : Option ℕ)
    (s : Submission)
    → Row i s db
    → (i == sid) ≡ false
    → Row i s (finish_submission sid status score time memory db)
unfolding Row finish_submission with_submissions
finish_submission-kept db i sid score time status memory s h k =
    kept i sid any_status _ s (submissions_of db) (λ y. refl) h (rw k refl)

finish_with_error-kept :
    (before db : JudgeDb) (now i : ℕ) (x s : Submission)
    → Row i s before
    → Row i s db
    → (i == x.id) ≡ false
    → Row i s (finish_with_error before now x db)
unfolding Row finish_with_error
finish_with_error-kept before db now i x s hb h k =
    let done = finish_submission x.id SubmissionStatus.system_error 0 0 none db in
    elim (Result-cases
      (on_submission_finalized done.problems now x SubmissionStatus.system_error)) [
        | inl (e, r) ↦ rw r (unfold finish_problem_part in hb)
        | inr (p, r) ↦ rw r (
            unfold finish_problem_part in
            finish_submission-kept db i x.id 0 0 SubmissionStatus.system_error none s h k)
      ]

claimed-kept :
    (db : JudgeDb) (now sid i : ℕ) (q : SubmissionStatus → Bool) (s : Submission)
    → Row i s db
    → (i == sid) ≡ false
    → Row i s (claimed now sid q db)
unfolding Row claimed with_submissions
claimed-kept db now sid i q s h k = kept i sid q _ s (submissions_of db) (λ y. refl) h (rw k refl)

-- a submission that waits is not one whose result is stored
pub different :
    (i sid : ℕ) (s x : Submission) (ss : List Submission)
    → find_submission i ss ≡ some s
    → find_submission sid ss ≡ some x
    → is_waiting s.status ≡ false
    → is_waiting x.status ≡ true
    → (i == x.id) ≡ false
different i sid s x ss hi hx hs hw = elim (Bool-cases (i == x.id)) [
  | inr e ↦ e
  | inl e ↦
      let same : i ≡ sid = ==→eq i x.id e ∙ found-id sid x ss hx in
      let hi' : find_submission sid ss ≡ some s = rw same at hi in ground (arith, hi', hx, hs, hw)
]

pub waits-pending : (st : SubmissionStatus) → is_pending st ≡ true → is_waiting st ≡ true
waits-pending st h = ground (arith, h)

pub waits-judging : (st : SubmissionStatus) → is_judging st ≡ true → is_waiting st ≡ true
waits-judging st h = ground (arith, h)

build_claimed-kept :
    (before db : JudgeDb) (now i : ℕ) (config : Option SandboxConfig) (x s : Submission)
    (p : Result Problem)
    → Row i s before
    → Row i s db
    → (i == x.id) ≡ false
    → Row i s (build_claimed before now config x p db).0
unfolding build_claimed
build_claimed-kept before db now i config x s (err e) hb h k = hb
build_claimed-kept before db now i config x s (ok p) hb h k =
    let error = finish_with_error-kept before db now i x s hb h k in
    let cases = list_by_ids db.test_cases (judged_case_ids p (is_verify x.submit_type)) in
    elim (Bool-cases (disabled config)) [
      | inl e ↦ rw e error
      | inr e ↦ rw e (elim (Bool-cases (is_nil cases)) [
        | inl e1 ↦ rw e1 error
        | inr e1 ↦ rw e1 (elim (Bool-cases (any (λ c. not c.has_objects) cases)) [
          | inl e2 ↦ rw e2 error
          | inr e2 ↦ rw e2 h
        ])
      ])
    ]

pub build-kept :
    (db : JudgeDb) (now sid i : ℕ) (config : Option SandboxConfig) (s : Submission)
    → Row i s db
    → is_waiting s.status ≡ false
    → Row i s (build_job_bundle db now config sid).0
unfolding build_job_bundle build_found
build-kept db now sid i config s h hs =
    elim (Option-cases (find_submission sid (submissions_of db))) [
      | inl e ↦ rw e h
      | inr (x, e) ↦ rw e (elim (Bool-cases (is_pending x.status)) [
        | inr e1 ↦ rw e1 h
        | inl e1 ↦
            let k =
              different i sid s x (submissions_of db) (unfold Row in h) e hs
                (waits-pending x.status e1) in
            rw e1 (
              build_claimed-kept db (claimed now x.id is_pending db) now i config x s
                (find_problem x.problem_id db.problems) h
                (claimed-kept db now x.id i is_pending s h k) k)
      ])
    ]

pub fail-kept :
    (q : SubmissionStatus → Bool)
    → ((st : SubmissionStatus) → q st ≡ true → is_waiting st ≡ true)
    → (db : JudgeDb) (now sid i : ℕ) (s : Submission) → Row i s db
    → is_waiting s.status ≡ false
    → Row i s (fail_found q db now (find_submission sid (submissions_of db)))
unfolding fail_found
fail-kept q hq db now sid i s h hs = elim (Option-cases (find_submission sid (submissions_of db))) [
  | inl e ↦ rw e h
  | inr (x, e) ↦ rw e (elim (Bool-cases (q x.status)) [
    | inr e1 ↦ rw e1 h
    | inl e1 ↦
        let k = different i sid s x (submissions_of db) (unfold Row in h) e hs (hq x.status e1) in
        rw e1 (
          finish_with_error-kept db (claimed now x.id q db) now i x s h
            (claimed-kept db now x.id i q s h k) k)
  ])
]

pub reset-kept :
    (db : JudgeDb) (now sid i : ℕ) (s : Submission)
    → Row i s db
    → is_waiting s.status ≡ false
    → Row i s (reset_to_pending db now sid)
unfolding reset_to_pending fail_retry_exhausted
reset-kept db now sid i s h hs =
    let counted : JudgeDb = record db {
      attempts = λ j. if j == sid then suc (db.attempts sid) else db.attempts j;
    } in
    elim (Bool-cases (leb max_requeue_attempts (suc (db.attempts sid)))) [
      | inl e ↦ rw e (fail-kept is_waiting (λ st k. k) counted now sid i s (unfold Row in h) hs)
      | inr e ↦ rw e (
          unfold Row with_submissions in
          kept i sid is_judging _ s (submissions_of db) (λ y. refl) h (ground (arith, hs)))
    ]
