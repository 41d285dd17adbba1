-- ===== src/Judge/Recalls.antt =====
-- How often a submission has been recalled, and what the operations of a job leave of that count.
use pigeon_oj.Base.{
  ℕ, suc, ◌≡◌, refl, sym, ap, ◌∙◌, subst, Bool, true, false, not, Option, none, some, List, [], ◌∷◌,
  any, arith, leb, ◌==◌, if◌then◌else◌, ==→eq, Bool-cases, Option-cases, Result-cases, inl, inr,
  Result, ok, err,
}
use pigeon_oj.Base.Integers.{ℤ}
use pigeon_oj.Model.{SubmissionStatus, Submission, Problem, is_verify}
use pigeon_oj.Problems.{ProblemDb, is_nil, find_problem, judged_case_ids}
use pigeon_oj.Problems.Operations.{on_submission_finalized}
use pigeon_oj.Judge.{
  SandboxConfig, JudgeDb, is_pending, is_judging, is_waiting, any_status, find_submission,
  update_submission, submissions_of, with_submissions, finish_submission, finish_problem_part,
  finish_with_error, claimed, disabled, list_by_ids, build_job_bundle, build_found, build_claimed,
  fail_found, fail_retry_exhausted, reset_to_pending, max_requeue_attempts,
}
use pigeon_oj.Judge.Results.{
  JudgeOutcome, apply_job_result, apply_found, final_row, store_result, time_of, finish_parts,
  finish_contest_part,
}
use pigeon_oj.Judge.Statuses.{submissions-contest_part}

-- the submission is there, and is not one of a verification
abbrev pub Plain : ℕ → List Submission → Type 0
Plain i ss = (s : Submission) × (find_submission i ss ≡ some s) × (is_verify s.submit_type ≡ false)

-- and it has been recalled so many times
abbrev pub Recalled : ℕ → ℕ → JudgeDb → Type 0
Recalled i n db = Plain i (submissions_of db) × (db.attempts i ≡ n)

Plain-update :
    (i sid : ℕ) (q : SubmissionStatus → Bool) (f : Submission → Submission) (ss : List Submission)
    → ((x : Submission) → (f x).id ≡ x.id)
    → ((x : Submission) → (f x).submit_type ≡ x.submit_type)
    → Plain i ss
    → Plain i (update_submission sid q f ss)
unfolding find_submission update_submission
Plain-update i sid q f [] hf ht h = h
Plain-update i sid q f (x ∷ ss) hf ht (s, found, plain) = elim (Bool-cases (x.id == sid)) [
  | inl e ↦ elim (Bool-cases (x.id == i)) [
    | inl k ↦
        let same : x ≡ s = ground (arith, found, k) in
        let kind : is_verify x.submit_type ≡ false =
          subst (λ (y : Submission). is_verify y.submit_type ≡ false) (sym same) plain in
        rw e (elim (Bool-cases (q x.status)) [
          | inl a ↦
              let key : ((f x).id == i) ≡ true = ap (λ n. n == i) (hf x) ∙ k in
              rw (a, key) (f x, refl, ap is_verify (ht x) ∙ kind)
          | inr a ↦ rw (a, k) (x, refl, kind)
        ])
    | inr k ↦ rw e (elim (Bool-cases (q x.status)) [
      | inl a ↦
          let key : ((f x).id == i) ≡ false = ap (λ n. n == i) (hf x) ∙ k in
          rw (a, key) (s, rw k at found, plain)
      | inr a ↦ rw (a, k) (s, rw k at found, plain)
    ])
  ]
  | inr e ↦ elim (Bool-cases (x.id == i)) [
    | inl k ↦
        let same : x ≡ s = ground (arith, found, k) in
        rw (e, k)
          (x, refl, subst (λ (y : Submission). is_verify y.submit_type ≡ false) (sym same) plain)
    | inr k ↦ rw (e, k) (Plain-update i sid q f ss hf ht (s, rw k at found, plain))
  ]
]

finish_submission-Recalled :
    (i n sid score time : ℕ) (st : SubmissionStatus) (memory : Option ℕ) (db : JudgeDb)
    → Recalled i n db
    → Recalled i n (finish_submission sid st score time memory db)
unfolding finish_submission with_submissions
finish_submission-Recalled i n sid score time st memory db h =
    (Plain-update i sid any_status _ (submissions_of db) (λ x. refl) (λ x. refl) h.0, h.1)

finish_with_error-Recalled :
    (i n now : ℕ) (before db : JudgeDb) (x : Submission)
    → Recalled i n before
    → Recalled i n db
    → Recalled i n (finish_with_error before now x db)
unfolding finish_with_error
finish_with_error-Recalled i n now before db x hb h =
    let done = finish_submission x.id SubmissionStatus.system_error 0 0 none db in
    elim (Result-cases
      (on_submission_finalized done.problems now x SubmissionStatus.system_error)) [
        | inl (e, r) ↦ rw r (unfold finish_problem_part in hb)
        | inr (p, r) ↦ rw r (
            unfold finish_problem_part in
            finish_submission-Recalled i n x.id 0 0 SubmissionStatus.system_error none db h)
      ]

claimed-Recalled :
    (i n now sid : ℕ) (q : SubmissionStatus → Bool) (db : JudgeDb)
    → Recalled i n db
    → Recalled i n (claimed now sid q db)
unfolding claimed with_submissions
claimed-Recalled i n now sid q db h =
    (Plain-update i sid q _ (submissions_of db) (λ x. refl) (λ x. refl) h.0, h.1)

build_claimed-Recalled :
    (i n now : ℕ) (before db : JudgeDb) (config : Option SandboxConfig) (x : Submission)
    (p : Result Problem)
    → Recalled i n before
    → Recalled i n db
    → Recalled i n (build_claimed before now config x p db).0
unfolding build_claimed
build_claimed-Recalled i n now before db config x (err e) hb h = hb
build_claimed-Recalled i n now before db config x (ok p) hb h =
    let error = finish_with_error-Recalled i n now before db x hb h in
    let cases = list_by_ids db.test_cases (judged_case_ids p (is_verify x.submit_type)) in
    elim (Bool-cases (disabled config)) [
      | inl e ↦ rw e error
      | inr e ↦ rw e (elim (Bool-cases (is_nil cases)) [
        | inl e1 ↦ rw e1 error
        | inr e1 ↦ rw e1 (elim (Bool-cases (any (λ c. not c.has_objects) cases)) [
          | inl e2 ↦ rw e2 error
          | inr e2 ↦ rw e2 h
        ])
      ])
    ]

pub build-Recalled :
    (i n now sid : ℕ) (config : Option SandboxConfig) (db : JudgeDb)
    → Recalled i n db
    → Recalled i n (build_job_bundle db now config sid).0
unfolding build_job_bundle build_found
build-Recalled i n now sid config db h =
    elim (Option-cases (find_submission sid (submissions_of db))) [
      | inl e ↦ rw e h
      | inr (x, e) ↦ rw e (elim (Bool-cases (is_pending x.status)) [
        | inr e1 ↦ rw e1 h
        | inl e1 ↦ rw e1 (
            build_claimed-Recalled i n now db (claimed now x.id is_pending db) config x
              (find_problem x.problem_id db.problems) h
              (claimed-Recalled i n now x.id is_pending db h))
      ])
    ]

pub fail-Recalled :
    (i n now sid : ℕ) (q : SubmissionStatus → Bool) (db : JudgeDb)
    → Recalled i n db
    → Recalled i n (fail_found q db now (find_submission sid (submissions_of db)))
unfolding fail_found
fail-Recalled i n now sid q db h = elim (Option-cases (find_submission sid (submissions_of db))) [
  | inl e ↦ rw e h
  | inr (x, e) ↦ rw e (elim (Bool-cases (q x.status)) [
    | inr e1 ↦ rw e1 h
    | inl e1 ↦ rw e1 (
        finish_with_error-Recalled i n now db (claimed now x.id q db) x h
          (claimed-Recalled i n now x.id q db h))
  ])
]

parts-Recalled :
    (i n now : ℕ) (before db : JudgeDb) (p : Result ProblemDb) (factor : ℤ) (x : Submission)
    (st : SubmissionStatus)
    → Recalled i n before
    → Recalled i n db
    → Recalled i n (finish_parts before db p factor now x st).0
unfolding finish_parts
parts-Recalled i n now before db (err e) factor x st hb h = hb
parts-Recalled i n now before db (ok p) factor x st hb h = (
  subst (Plain i) (sym (submissions-contest_part (record db { problems = p }) factor now x st)) h.0,
  (unfold finish_contest_part in h.1),
)

pub apply-Recalled :
    (i n now : ℕ) (factor : ℤ) (o : JudgeOutcome) (db : JudgeDb)
    → Recalled i n db
    → Recalled i n (apply_job_result db factor now o).0
unfolding apply_job_result apply_found store_result
apply-Recalled i n now factor o db h =
    elim (Option-cases (find_submission o.submission_id (submissions_of db))) [
      | inl e ↦ rw e h
      | inr (x, e) ↦ rw e (elim (Bool-cases (is_judging x.status)) [
        | inr e1 ↦ rw e1 h
        | inl e1 ↦
            let final = final_row db o x in
            let done =
              finish_submission x.id final.status final.score (time_of final.time_used_ms)
                final.memory_used_kb db in
            rw e1 (
              parts-Recalled i n now db done
                (on_submission_finalized done.problems now x final.status) factor final final.status
                h
                (finish_submission-Recalled i n x.id final.score (time_of final.time_used_ms)
                  final.status final.memory_used_kb db h))
      ])
    ]

-- a recall counts for its own submission alone
pub reset-Recalled :
    (i n now sid : ℕ) (db : JudgeDb)
    → Recalled i n db
    → Recalled i (if i == sid then suc n else n) (reset_to_pending db now sid)
unfolding reset_to_pending fail_retry_exhausted
reset-Recalled i n now sid db h =
    let counted : JudgeDb = record db {
      attempts = λ j. if j == sid then suc (db.attempts sid) else db.attempts j;
    } in
    let counts : Recalled i (if i == sid then suc n else n) counted =
      (h.0, ground (arith, h.1, ==→eq i sid)) in
    elim (Bool-cases (leb max_requeue_attempts (suc (db.attempts sid)))) [
      | inl e ↦
          rw e (fail-Recalled i (if i == sid then suc n else n) now sid is_waiting counted counts)
      | inr e ↦ rw e (
          unfold with_submissions in
          (
            Plain-update i sid is_judging _ (submissions_of db) (λ x. refl) (λ x. refl) h.0,
            counts.1,
          ))
    ]
