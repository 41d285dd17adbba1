-- ===== src/Contest/Edit/Scores.antt =====
-- The scores that an edit stores for the problems of a contest.
use pigeon_oj.Base.{
  ℕ, suc, ◌<◌, ◌≡◌, refl, not, Option, none, some, List, [], ◌∷◌, ◌++◌, filter, arith, ◌==◌, All,
  ok, ==-refl,
}
use pigeon_oj.Model.{ContestType, RuleType, ContestProblem}
use pigeon_oj.Contest.{ContestDb}
use pigeon_oj.Contest.Edit.{
  ProblemIn, ContestPatch, sent_value, stored_score, problem_rows, replace_problems, update, create,
  add_contest, new_contest, ContestBody, patched, set_contest,
}

-- the problems of a contest
abbrev pub problems_of : ℕ → ContestDb → List ContestProblem
problems_of cid db = filter (λ cp. cp.contest_id == cid) db.contest_problems

others-dropped :
    (cid : ℕ) (rows more : List ContestProblem)
    → filter (λ cp. cp.contest_id == cid) (filter (λ cp. not (cp.contest_id == cid)) rows ++ more)
      ≡ filter (λ cp. cp.contest_id == cid) more
others-dropped cid [] more = refl
others-dropped cid (r ∷ rows) more = ground (arith, others-dropped cid rows more)

all-kept :
    (cid : ℕ) (rule : Option RuleType) (i : ℕ) (items : List ProblemIn)
    → filter (λ cp. cp.contest_id == cid) (problem_rows cid rule i items)
      ≡ problem_rows cid rule i items
unfolding problem_rows
all-kept cid rule i [] = refl
all-kept cid rule i (x ∷ items) = rw (==-refl cid, all-kept cid rule (suc i) items) refl

-- the problems after a replacement are the rows made from the list sent
pub problems_of-replace_problems :
    (cid : ℕ) (items : List ProblemIn) (rule : Option RuleType) (db : ContestDb)
    → problems_of cid (replace_problems cid items rule db) ≡ problem_rows cid rule 0 items
unfolding replace_problems
problems_of-replace_problems cid items rule db =
    rw (others-dropped cid db.contest_problems (problem_rows cid rule 0 items))
      (all-kept cid rule 0 items)

score-zero :
    (cid : ℕ) (i : ℕ) (items : List ProblemIn)
    → All (λ cp. cp.score ≡ 0) (problem_rows cid none i items)
unfolding problem_rows stored_score
score-zero cid i [] = tt
score-zero cid i (x ∷ items) = (refl, score-zero cid (suc i) items)

score-ioi :
    (cid : ℕ) (i : ℕ) (items : List ProblemIn)
    → All (λ cp. 0 < cp.score) (problem_rows cid (some RuleType.ioi) i items)
unfolding problem_rows stored_score
score-ioi cid i [] = tt
score-ioi cid i (x ∷ items) = (ground arith, score-ioi cid (suc i) items)

update-problems_of :
    (db after : ContestDb) (u cid : ℕ) (b : ContestPatch) (items : List ProblemIn)
    → sent_value b.problems ≡ some items
    → update db u cid b ≡ ok after
    → problems_of cid after ≡ problem_rows cid (sent_value b.rule_type) 0 items
unfolding update
update-problems_of db after u cid b items hi h = ground (
  arith,
  hi,
  h,
  problems_of-replace_problems cid items (sent_value b.rule_type) (set_contest cid (patched b) db),
)

create-problems_of :
    (db after : ContestDb) (u cid : ℕ) (b : ContestBody)
    → create db u cid b ≡ ok after
    → problems_of cid after ≡ problem_rows cid (some b.rule_type) 0 b.problems
unfolding create
create-problems_of db after u cid b h = ground (
  arith,
  h,
  problems_of-replace_problems cid b.problems (some b.rule_type)
      (add_contest (new_contest cid u ContestType.public none b) db),
)

-- Creating an IOI contest, when it succeeds, leaves every problem of the contest with a positive score,
-- also those that the request scored 0.
pub created_scores_positive :
    (db after : ContestDb) (u cid : ℕ) (b : ContestBody)
    → b.rule_type ≡ RuleType.ioi
    → create db u cid b ≡ ok after
    → All (λ cp. 0 < cp.score) (problems_of cid after)
created_scores_positive db after u cid b hr h =
    rw (create-problems_of db after u cid b h, hr) (score-ioi cid 0 b.problems)

-- An edit that sends the problems of a contest without its rule type (left out, or null), when it
-- succeeds, stores the score 0 for every problem, whatever the rule type of the contest and the scores sent.
pub edited_scores_zero :
    (db after : ContestDb) (u cid : ℕ) (b : ContestPatch) (items : List ProblemIn)
    → sent_value b.problems ≡ some items
    → sent_value b.rule_type ≡ none
    → update db u cid b ≡ ok after
    → All (λ cp. cp.score ≡ 0) (problems_of cid after)
edited_scores_zero db after u cid b items hi hr h =
    rw (update-problems_of db after u cid b items hi h, hr) (score-zero cid 0 items)
