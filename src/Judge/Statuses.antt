-- ===== src/Judge/Statuses.antt =====
-- The states of a submission: pending, judging, and then its result for good, whatever messages arrive in
-- which order.
use pigeon_oj.Base.{
  ℕ, ◌≡◌, false, Option, some, arith, ◌==◌, Bool-cases, Option-cases, inl, inr, Result, ok, err,
}
use pigeon_oj.Base.Integers.{ℤ}
use pigeon_oj.Model.{SubmissionStatus, Submission}
use pigeon_oj.Contest.{ContestDb, invalidate_board_cache}
use pigeon_oj.Contest.Scoring.{update_ranking_on_result, score_result}
use pigeon_oj.Problems.{ProblemDb}
use pigeon_oj.Problems.Operations.{on_submission_finalized}
use pigeon_oj.Judge.{
  SandboxConfig, JudgeDb, is_pending, is_judging, is_waiting, find_submission, submissions_of,
  finish_submission, build_job_bundle, fail_no_spj_node, fail_retry_exhausted, reset_to_pending,
  lapse_attempts,
}
use pigeon_oj.Judge.Results.{
  JudgeOutcome, apply_job_result, apply_found, final_row, store_result, time_of, finish_parts,
  finish_contest_part,
}
use pigeon_oj.Judge.Rows.{
  Row, build-kept, different, fail-kept, finish_submission-kept, reset-kept, waits-judging,
  waits-pending,
}

-- one thing that happens to the submissions: a node is given a job, reports a result, a retry fails, or a count of retries lapses
pub data Event : JudgeDb → JudgeDb → Type 0 where
  built :
      (db : JudgeDb) (now sid : ℕ) (config : Option SandboxConfig)
      → Event db (build_job_bundle db now config sid).0
  reported :
      (db : JudgeDb) (factor : ℤ) (now : ℕ) (o : JudgeOutcome)
      → Event db (apply_job_result db factor now o).0
  no_spj_node : (db : JudgeDb) (now sid : ℕ) → Event db (fail_no_spj_node db now sid)
  exhausted : (db : JudgeDb) (now sid : ℕ) → Event db (fail_retry_exhausted db now sid)
  recalled : (db : JudgeDb) (now sid : ℕ) → Event db (reset_to_pending db now sid)
  lapsed : (db : JudgeDb) (sid : ℕ) → Event db (lapse_attempts sid db)

pub data Events : JudgeDb → JudgeDb → Type 0 where
  done : (db : JudgeDb) → Events db db
  more : (a b c : JudgeDb) → Events a b → Event b c → Events a c

submissions-update_ranking_on_result :
    (db : ContestDb) (factor : ℤ) (now : ℕ) (s : Submission) (status : SubmissionStatus)
    → (update_ranking_on_result db factor now s status).submissions ≡ db.submissions
unfolding update_ranking_on_result score_result invalidate_board_cache
submissions-update_ranking_on_result db factor now s status = ground arith

pub submissions-contest_part :
    (db : JudgeDb) (factor : ℤ) (now : ℕ) (s : Submission) (st : SubmissionStatus)
    → submissions_of (finish_contest_part db factor now s st) ≡ submissions_of db
unfolding finish_contest_part
submissions-contest_part db factor now s st =
    (unfold invalidate_board_cache in
      ground (arith, submissions-update_ranking_on_result db.contest factor now s st))

parts-kept :
    (before db : JudgeDb) (p : Result ProblemDb) (factor : ℤ) (now i : ℕ) (x s : Submission)
    (st : SubmissionStatus)
    → Row i s before
    → Row i s db
    → Row i s (finish_parts before db p factor now x st).0
unfolding finish_parts Row
parts-kept before db (err e) factor now i x s st hb h = hb
parts-kept before db (ok p) factor now i x s st hb h =
    rw (submissions-contest_part (record db { problems = p }) factor now x st) h

store_result-kept :
    (db : JudgeDb) (factor : ℤ) (now i : ℕ) (o : JudgeOutcome) (x s : Submission)
    → Row i s db
    → (i == x.id) ≡ false
    → Row i s (store_result db factor now o x).0
unfolding store_result
store_result-kept db factor now i o x s h k =
    let final = final_row db o x in
    let done =
      finish_submission x.id final.status final.score (time_of final.time_used_ms)
        final.memory_used_kb db in
    parts-kept db done (on_submission_finalized done.problems now x final.status) factor now i final
      s final.status h
      (finish_submission-kept db i x.id final.score (time_of final.time_used_ms) final.status
        final.memory_used_kb s h k)

apply-kept :
    (db : JudgeDb) (factor : ℤ) (now i : ℕ) (o : JudgeOutcome) (s : Submission)
    → Row i s db
    → is_waiting s.status ≡ false
    → Row i s (apply_job_result db factor now o).0
unfolding apply_job_result apply_found
apply-kept db factor now i o s h hs =
    elim (Option-cases (find_submission o.submission_id (submissions_of db))) [
      | inl e ↦ rw e h
      | inr (x, e) ↦ rw e (elim (Bool-cases (is_judging x.status)) [
        | inr e1 ↦ rw e1 h
        | inl e1 ↦
            let k =
              different i o.submission_id s x (submissions_of db) (unfold Row in h) e hs
                (waits-judging x.status e1) in
            rw e1 (store_result-kept db factor now i o x s h k)
      ])
    ]

pub kept_after :
    (i : ℕ) (s : Submission) (db after : JudgeDb)
    → Event db after
    → is_waiting s.status ≡ false
    → Row i s db
    → Row i s after
kept_after i s _ _ (Event.built db now sid config) hs h = build-kept db now sid i config s h hs
kept_after i s _ _ (Event.reported db factor now o) hs h = apply-kept db factor now i o s h hs
kept_after i s _ _ (Event.no_spj_node db now sid) hs h =
    (unfold fail_no_spj_node in fail-kept is_pending waits-pending db now sid i s h hs)
kept_after i s _ _ (Event.exhausted db now sid) hs h =
    (unfold fail_retry_exhausted in fail-kept is_waiting (λ st k. k) db now sid i s h hs)
kept_after i s _ _ (Event.recalled db now sid) hs h = reset-kept db now sid i s h hs
kept_after i s _ _ (Event.lapsed db sid) hs h = (unfold lapse_attempts Row in h)

-- A submission whose result is stored (its status is neither pending nor judging) is never changed by
-- what happens later, in any order: jobs built for it, results that arrive late or twice, recalls and
-- exhausted retries.
pub result_is_final :
    (i : ℕ) (s : Submission) (db after : JudgeDb)
    → is_waiting s.status ≡ false
    → Events db after
    → find_submission i (submissions_of db) ≡ some s
    → find_submission i (submissions_of after) ≡ some s
unfolding Row
result_is_final i s _ _ hs (Events.done db) h = h
result_is_final i s _ _ hs (Events.more a b c past e) h =
    kept_after i s b c e hs (result_is_final i s a b hs past h)
