-- ===== src/Gateway/Server/Rescans.antt =====
-- A submission that has waited too long is given to a node by the periodic scan.
use pigeon_oj.Base.{
  ℕ, ◌≡◌, refl, sym, subst, true, false, not, ◌||◌, Option, some, [], ◌∷◌, ◌++◌, any, discard,
  arith, ◌==◌, ok,
}
use pigeon_oj.Model.{Submission, SubmissionStatus, Problem, is_verify}
use pigeon_oj.Problems.{is_nil, find_problem, judged_case_ids}
use pigeon_oj.Judge.{
  SandboxConfig, JudgeDb, JobBundle, is_pending, find_submission, update_submission, submissions_of,
  with_submissions, claimed, disabled, list_by_ids, bundle_for, build_claimed, build_found,
  build_job_bundle,
}
use pigeon_oj.Judge.Rows.{found-id}
use pigeon_oj.Judge.Retries.{find-update}
use pigeon_oj.Gateway.{Connection, Choice, dispatch}
use pigeon_oj.Gateway.Server.{
  Server, with_inflight, sent, send_found, send_job, dispatch_to, dispatch_submission, needs_spj,
  list_nodes, rescan, recall_stale,
}
use pigeon_oj.Gateway.Server.Capacity.{chosen-Listed}
use pigeon_oj.Gateway.Server.Sending.{InOrder, get_node-found, with_inflight-twice}
use pigeon_oj.Gateway.Server.Recalls.{Holds, sent-Holds}

-- what a job is built from is there: the problem, a language that is allowed, cases that name their objects
abbrev pub Buildable : JudgeDb → Option SandboxConfig → Submission → Type 0
Buildable db config x =
    (p : Problem) × (find_problem x.problem_id db.problems ≡ ok p)
    × (disabled config ≡ false)
    × (is_nil (list_by_ids db.test_cases (judged_case_ids p (is_verify x.submit_type))) ≡ false)
    × (any (λ c. not c.has_objects)
          (list_by_ids db.test_cases (judged_case_ids p (is_verify x.submit_type)))
        ≡ false)

built :
    (db : JudgeDb) (now sid : ℕ) (config : Option SandboxConfig) (x : Submission)
    → find_submission sid (submissions_of db) ≡ some x
    → is_pending x.status ≡ true
    → Buildable db config x
    → (job : JobBundle) × (build_job_bundle db now config sid
        ≡ (claimed now x.id is_pending db, some job))
unfolding build_job_bundle build_found
built db now sid config x found waits (p, hp, enabled, some_case, objects) = (
  bundle_for x p config (list_by_ids db.test_cases (judged_case_ids p (is_verify x.submit_type))),
  rw (found, waits, hp)
      (unfold build_claimed claimed with_submissions in rw (enabled, some_case, objects) refl),
)

claimed-judging :
    (db : JudgeDb) (now sid : ℕ) (x : Submission)
    → find_submission sid (submissions_of db) ≡ some x
    → is_pending x.status ≡ true
    → find_submission sid (submissions_of (claimed now x.id is_pending db))
      ≡ some (record x { status = SubmissionStatus.judging; updated_at = now })
unfolding claimed with_submissions
claimed-judging db now sid x found waits =
    subst
      (λ i.
        find_submission sid (
          update_submission i is_pending
            (λ s. record s { status = SubmissionStatus.judging; updated_at = now })
            (submissions_of db))
        ≡ some (record x { status = SubmissionStatus.judging; updated_at = now }))
      (sym (found-id sid x (submissions_of db) found))
      (find-update sid is_pending _ x (submissions_of db) (λ y. refl) found waits)

not_recalled :
    (now : ℕ) (x : Submission) (db : JudgeDb)
    → is_pending x.status ≡ true
    → recall_stale now x db ≡ db
unfolding recall_stale
not_recalled now x db h = ground (arith, h)

-- The periodic scan comes to a submission that waits, whose requeue lock is free and whose job can be built, and
-- some node can be chosen for it: then it is being judged afterwards, and the chosen connection holds it.
pub overdue_reaches_node :
    (now : ℕ) (config : Submission → Option SandboxConfig) (s : Server) (x : Submission)
    (d : Connection)
    → InOrder s.registry
    → find_submission x.id (submissions_of s.judge) ≡ some x
    → is_pending x.status ≡ true
    → s.locks x.id ≡ false
    → Buildable s.judge (config x) x
    → dispatch (needs_spj s.judge x.id) (list_nodes s.registry) ≡ Choice.chosen d
    → (find_submission x.id (submissions_of (rescan now config s x).judge)
        ≡ some (record x { status = SubmissionStatus.judging; updated_at = now }))
      × Holds (rescan now config s x).registry d.object x.id
unfolding rescan dispatch_submission
overdue_reaches_node now config s x d order found waits free ready chosen =
    let listed = chosen-Listed s.registry (needs_spj s.judge x.id) d order chosen in
    let (job, made) = built s.judge now x.id (config x) x found waits ready in
    let kept = discard x.id d.inflight in
    let judge = claimed now x.id is_pending s.judge in
    let last =
      sent (with_inflight d kept s.registry) d x.id (judge, some job)
        (record s { locks = λ i. (i == x.id) || s.locks i }) in
    let same : rescan now config s x ≡ last.0 =
      rw (free, not_recalled now x s.judge waits, chosen)
        (unfold dispatch_to send_job in rw listed (unfold send_found in rw made refl)) in
    let there : Holds last.0.registry d.object x.id =
      (unfold sent in
        subst (λ r. Holds r d.object x.id)
          (sym (with_inflight-twice s.registry d kept (kept ++ x.id ∷ [])))
          (sent-Holds s.registry d x.id (get_node-found d.node_id s.registry d listed))) in
    (
      subst
          (λ t.
            find_submission x.id (submissions_of t.judge)
            ≡ some (record x { status = SubmissionStatus.judging; updated_at = now }))
          (sym same) (unfold sent in claimed-judging s.judge now x.id x found waits),
      subst (λ t. Holds t.registry d.object x.id) (sym same) there,
    )
