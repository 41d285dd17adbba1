-- ===== src/Contest/Events.antt =====
-- A history of contests as a sequence of steps: the requests, judge results and ticks that
-- src/backend/app/services/contest.py handles, in any order, each at its own moment. A refused request
-- changes nothing, and is no step.
pub mod Ranges
pub mod Edits
pub mod Times
use pigeon_oj.Base.{ℕ, ◌≡◌, Option, Result, ok}
use pigeon_oj.Base.Integers.{ℤ}
use pigeon_oj.Model.{Submission, SubmissionStatus}
use pigeon_oj.Contest.{ContestDb}
use pigeon_oj.Contest.Scoring.{update_ranking_on_result}
use pigeon_oj.Contest.Access.{register}
use pigeon_oj.Contest.Edit.{ContestBody, ContestPatch, create, create_team_contest, update}
use pigeon_oj.Contest.Lifecycle.{transition, extend, update_freeze_time, unfreeze}

pub data Step : ContestDb → ContestDb → Type 0 where
  created :
      (db after : ContestDb) (u cid : ℕ) (b : ContestBody)
      → create db u cid b ≡ ok after
      → Step db after
  created_in_team :
      (db after : ContestDb) (u t cid : ℕ) (b : ContestBody)
      → create_team_contest db u t cid b ≡ ok after
      → Step db after
  updated :
      (db after : ContestDb) (u cid : ℕ) (b : ContestPatch)
      → update db u cid b ≡ ok after
      → Step db after
  extended_to :
      (db after : ContestDb) (now u cid new_end : ℕ)
      → extend db now u cid new_end ≡ ok after
      → Step db after
  freeze_set :
      (db after : ContestDb) (now u cid : ℕ) (at : Option ℕ)
      → update_freeze_time db now u cid at ≡ ok after
      → Step db after
  unfrozen :
      (db after : ContestDb) (factor : ℤ) (u cid : ℕ)
      → unfreeze db factor u cid ≡ ok after
      → Step db after
  registered_by :
      (db after : ContestDb) (now u cid : ℕ) → register db now u cid ≡ ok after → Step db after
  judged :
      (db : ContestDb) (factor : ℤ) (now : ℕ) (s : Submission) (status : SubmissionStatus)
      → Step db (update_ranking_on_result db factor now s status)
  ticked : (db : ContestDb) (now : ℕ) → Step db (transition now db)

pub data Steps : ContestDb → ContestDb → Type 0 where
  done : (db : ContestDb) → Steps db db
  more : (a b c : ContestDb) → Steps a b → Step b c → Steps a c
