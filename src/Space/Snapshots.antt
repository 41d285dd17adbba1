-- ===== src/Space/Snapshots.antt =====
-- A problem that is referenced into a team.
use pigeon_oj.Base.{
  ℕ, ◌≡◌, refl, ap, ◌∙◌, Bool, true, false, not, ◌||◌, Option, none, some, List, [], ◌∷◌, ◌++◌, map,
  find?, is_some, ◌==◌, ==-refl, arith, Bool-cases, inl, inr, Code, ok, Gives, refuse_if-Gives,
  bind-Gives, ok-Gives, given,
}
use pigeon_oj.Model.{Problem, ProblemVisibility, Submission, is_verify, is_admin}
use pigeon_oj.Problems.{ProblemDb, find_problem, is_nil, judged_case_ids}
use pigeon_oj.Judge.{
  SandboxConfig, JudgeDb, is_pending, find_submission, submissions_of, disabled, claimed,
  build_claimed, build_found, build_job_bundle,
}
use pigeon_oj.Team.{TeamLevel}
use pigeon_oj.Space.{SpaceDb, grants_of, is_published_status, has_team_roles, require_level}
use pigeon_oj.Space.References.{
  CaseKey, row_of, copy_row, copy_ids, copy_test_cases, snapshot, has_team_source,
  is_team_visibility, with_problem, reference_problem,
}

row_of-text : (rows : List ℕ) (k : ℕ) → row_of (CaseKey.text k) rows ≡ none
unfolding row_of
row_of-text [] k = refl
row_of-text (r ∷ rows) k = row_of-text rows k

copy_ids-text :
    (rows : List ℕ) (ids : List ℕ) (next : ℕ) → copy_ids rows (map CaseKey.text ids) next ≡ []
unfolding copy_ids
copy_ids-text rows [] next = refl
copy_ids-text rows (i ∷ ids) next =
    ap (λ o. copy_row o next (copy_ids rows (map CaseKey.text ids))) (row_of-text rows i)
    ∙ copy_ids-text rows ids next

nil-id : (ids : List ℕ) → is_nil ids ≡ true → ids ≡ []
nil-id [] h = refl
nil-id (i ∷ ids) h = cc

-- what the new row is
abbrev pub Bare : Problem → Type 0
Bare p =
    (p.active_case_ids ≡ [])
    × (p.pending_case_ids ≡ none)
    × (p.spj_oss_id ≡ none)
    × (is_published_status p.status ≡ true)

copied-Bare :
    (rows : List ℕ) (next new u t : ℕ) (visibility : ProblemVisibility) (source : Problem)
    → is_published_status source.status ≡ true
    → Bare (copy_test_cases rows next source (snapshot new u t visibility source))
unfolding copy_test_cases snapshot
copied-Bare rows next new u t visibility source live =
    elim (Bool-cases (is_nil source.active_case_ids)) [
      | inl e ↦ rw e (nil-id source.active_case_ids e, refl, refl, live)
      | inr e ↦ rw e (copy_ids-text rows source.active_case_ids next, refl, refl, live)
    ]

copied-id :
    (rows : List ℕ) (next new u t : ℕ) (visibility : ProblemVisibility) (source : Problem)
    → (copy_test_cases rows next source (snapshot new u t visibility source)).id ≡ new
unfolding copy_test_cases snapshot
copied-id rows next new u t visibility source = elim (Bool-cases (is_nil source.active_case_ids)) [
  | inl e ↦ rw e refl
  | inr e ↦ rw e refl
]

-- the problem that a reference adds
abbrev pub Adds : SpaceDb → ℕ → SpaceDb → Type 0
Adds db new after =
    (p : Problem) × (after.problems.problems ≡ db.problems.problems ++ p ∷ [])
    × (p.id ≡ new)
    × Bare p

published : {b : Bool} → not b ≡ false → b ≡ true
published {b} h = ground arith

-- What holds of every snapshot of a published problem that is added holds of a reference.
reference_problem-Gives :
    (P : SpaceDb → Type 0) (db : SpaceDb) (rows : List ℕ) (new next u t pid : ℕ)
    (visibility : ProblemVisibility)
    → ((source : Problem)
        → is_published_status source.status ≡ true
        → P (
            with_problem
              (copy_test_cases rows next source (snapshot new u t visibility source))
              db))
    → Gives P (reference_problem db rows new next u t pid visibility)
unfolding reference_problem require_level
reference_problem-Gives P db rows new next u t pid visibility h =
    refuse_if-Gives P (not (is_team_visibility visibility)) Code.param_format_invalid _ λ a.
      refuse_if-Gives P (not (has_team_roles (grants_of db) u t TeamLevel.admin))
        Code.auth_forbidden _
        λ b. bind-Gives P (find_problem pid db.problems) _ λ source c.
          refuse_if-Gives P (is_some source.team_id) Code.param_format_invalid _ λ d.
            refuse_if-Gives P (not (is_published_status source.status)) Code.resource_state_conflict
              _
              λ live.
                refuse_if-Gives P (not (is_admin (grants_of db) u || (source.owner_id == u)))
                  Code.auth_forbidden _
                  λ e.
                    refuse_if-Gives P (has_team_source t source.id db.problems)
                      Code.resource_duplicate _ λ f. ok-Gives P _ (h source (published live))

reference_problem-Adds :
    (db after : SpaceDb) (rows : List ℕ) (new next u t pid : ℕ) (visibility : ProblemVisibility)
    → reference_problem db rows new next u t pid visibility ≡ ok after
    → Adds db new after
reference_problem-Adds db after rows new next u t pid visibility =
    given (Adds db new) (reference_problem db rows new next u t pid visibility) after (
      reference_problem-Gives (Adds db new) db rows new next u t pid visibility λ source live. (
        copy_test_cases rows next source (snapshot new u t visibility source),
        refl,
        copied-id rows next new u t visibility source,
        copied-Bare rows next new u t visibility source live,
      ))

judged-Bare : (p : Problem) (verify : Bool) → Bare p → judged_case_ids p verify ≡ []
unfolding judged_case_ids
judged-Bare p true h = rw h.1 h.0
judged-Bare p false h = h.0

claimed-none :
    (before db : JudgeDb) (now : ℕ) (config : Option SandboxConfig) (s : Submission) (p : Problem)
    → Bare p
    → (build_claimed before now config s (ok p) db).1 ≡ none
unfolding build_claimed
claimed-none before db now config s p h =
    rw (judged-Bare p (is_verify s.submit_type) h)
      (elim (Bool-cases (disabled config)) [ inl e ↦ rw e refl | inr e ↦ rw e refl ])

found-none :
    (judge : JudgeDb) (now : ℕ) (config : Option SandboxConfig) (s : Submission) (p : Problem)
    → find_problem s.problem_id judge.problems ≡ ok p
    → Bare p
    → (build_found judge now config (some s)).1 ≡ none
unfolding build_found
found-none judge now config s p f h = elim (Bool-cases (is_pending s.status)) [
  | inl e ↦ rw (e, f) (claimed-none judge (claimed now s.id is_pending judge) now config s p h)
  | inr e ↦ rw e refl
]

find-new :
    (new : ℕ) (ps : List Problem) (p : Problem)
    → find? (λ x. x.id == new) ps ≡ none
    → p.id ≡ new
    → find? (λ x. x.id == new) (ps ++ p ∷ []) ≡ some p
find-new new [] p h e = ground (arith, e, ==-refl new)
find-new new (x ∷ ps) p h e = ground (arith, h, find-new new ps p (ground (arith, h)) e)

pub found-new :
    (new : ℕ) (problems : ProblemDb) (p : Problem)
    → find? (λ x. x.id == new) problems.problems ≡ some p
    → find_problem new problems ≡ ok p
unfolding find_problem
found-new new problems p h = rw (h, find_problem) refl

-- A problem that is referenced into a team is published there, without a checker and without a
-- single case, whatever its source has and whatever rows the query for the source's cases answers;
-- and from the tables of problems as the request leaves them, where the id of the new row is new,
-- no job is built for a submission to it.
pub referenced_has_no_cases :
    (db after : SpaceDb) (rows : List ℕ) (new next u t pid : ℕ) (visibility : ProblemVisibility)
    (judge : JudgeDb) (now sid : ℕ) (config : Option SandboxConfig) (s : Submission)
    → reference_problem db rows new next u t pid visibility ≡ ok after
    → find? (λ p. p.id == new) db.problems.problems ≡ none
    → judge.problems ≡ after.problems
    → find_submission sid (submissions_of judge) ≡ some s
    → s.problem_id ≡ new
    → ((p : Problem) × (find_problem new after.problems ≡ ok p) × Bare p)
      × ((build_job_bundle judge now config sid).1 ≡ none)
unfolding build_job_bundle
referenced_has_no_cases db after rows new next u t pid visibility judge now sid config s h fresh
      same found to_new =
    let adds = reference_problem-Adds db after rows new next u t pid visibility h in
    let p : Problem = adds.0 in
    let there : find? (λ x. x.id == new) after.problems.problems ≡ some p =
      ap (find? (λ (x : Problem). x.id == new)) adds.1
      ∙ find-new new db.problems.problems p fresh adds.2 in
    let known : find_problem new after.problems ≡ ok p = found-new new after.problems p there in
    (
      (p, known, adds.3),
      rw found (
          found-none judge now config s p
            (ap (λ i. find_problem i judge.problems) to_new ∙ (ap (find_problem new) same ∙ known))
            adds.3),
    )

-- a reference leaves the problem sets as they are
abbrev pub SameSets : SpaceDb → SpaceDb → Type 0
SameSets db after = (_ : after.sets ≡ db.sets) × (after.items ≡ db.items)

pub reference_problem-SameSets :
    (db : SpaceDb) (rows : List ℕ) (new next u t pid : ℕ) (visibility : ProblemVisibility)
    → Gives (SameSets db) (reference_problem db rows new next u t pid visibility)
reference_problem-SameSets db rows new next u t pid visibility =
    reference_problem-Gives (SameSets db) db rows new next u t pid visibility
      λ source live. (refl, refl)
