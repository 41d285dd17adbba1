-- ===== src/Examples/Contests.antt =====
-- A contest of three submissions for its scoreboard, its times and its edits.
use mathlib.Core.List.{Perm, reverse}
use mathlib.Core.List.Permᴰ
use pigeon_oj.Base.{
  ℕ, ◌+◌, ◌*◌, ◌<◌, ◌≡◌, refl, ap, true, false, none, some, List, [], ◌∷◌, map, arith, All, Pairs,
  length, Result, ok,
}
use pigeon_oj.Base.Integers.{ℤ, pos, ◌+ℤ◌}
use pigeon_oj.Base.Sorting.{sort_by}
use pigeon_oj.Model.{
  RuleType, ContestType, ContestStatus, RegistrationStatus, SubmitType, SubmissionStatus,
  Submission, Contest, ContestProblem, Problem, RoleCode, ProblemVisibility, ProblemStatus,
  CaseStatus, is_admin, global_role_codes,
}
use pigeon_oj.Ranking.{get_row}
use pigeon_oj.Contest.{ContestDb, get_contest}
use pigeon_oj.Contest.Scoring.{minute}
use pigeon_oj.Contest.Recompute.{list_contest_submissions, recompute_rankings}
use pigeon_oj.Contest.Recompute.Lookup.{terminal}
use pigeon_oj.Contest.Agreement.Fold.{live, seen}
use pigeon_oj.Contest.Agreement.Rules.{Fresh, standing, points, acm_live_agrees, ioi_live_agrees}
use pigeon_oj.Contest.Agreement.Gaps.{ioi_accepted_only_recomputed, acm_delay_is_penalty}
use pigeon_oj.Contest.Board.{BoardRow, rank_rows, compute_board, aggregate_final_rows}
use pigeon_oj.Contest.Board.Order.{Outranks, from, rank_rows_ranked}
use pigeon_oj.Contest.Board.Plain.{plain_row}
use pigeon_oj.Contest.Board.Unfrozen.{counted_users, unfrozen_board_is_final}
use pigeon_oj.Contest.Access.{is_contest_manager}
use pigeon_oj.Contest.Edit.{ContestBody, ContestPatch, create, update}
use pigeon_oj.Contest.Edit.Scores.{problems_of, edited_scores_zero}
use pigeon_oj.Contest.Lifecycle.{transition}
use pigeon_oj.Contest.Lifecycle.Transition.{is_settled, transition_settles}
use pigeon_oj.Contest.Events.{Step, Steps}
use pigeon_oj.Contest.Events.Ranges.{TimesOk}
use pigeon_oj.Contest.Events.Times.{times_stay_consistent}

abbrev contest_of : RuleType → Contest
contest_of rule = record {
  id = 1;
  contest_type = ContestType.public;
  team_id = none;
  owner_id = 9;
  rule_type = rule;
  start_time = 0;
  end_time = 18000000000;
  register_start_time = 0;
  register_end_time = 18000000000;
  freeze_time = some 14400000000;
  board_frozen = false;
  frozen_at = none;
  status = ContestStatus.running;
}

abbrev submission : ℕ → SubmissionStatus → ℕ → ℕ → Submission
submission i status score at = record {
  id = i;
  user_id = 5;
  problem_id = 7;
  contest_id = some 1;
  verification_id = none;
  language = "cpp17";
  code = "int main() {}";
  submit_type = SubmitType.contest;
  rule_type = none;
  status = status;
  score = score;
  time_used_ms = none;
  memory_used_kb = none;
  error_message = none;
  is_after_contest = false;
  created_at = at;
  updated_at = at;
}

abbrev arranged_problem : ContestProblem
arranged_problem = record {
  contest_id = 1;
  problem_id = 7;
  letter = 65 ∷ [];
  sort_order = 0;
  score = 100;
}

abbrev public_problem : Problem
public_problem = record {
  id = 7;
  owner_id = 9;
  team_id = none;
  visibility = ProblemVisibility.public_;
  status = ProblemStatus.published;
  time_limit_ms = 1000;
  memory_limit_mb = 256;
  active_case_ids = 1 ∷ 2 ∷ [];
  pending_case_ids = none;
  spj_oss_id = none;
  pending_spj_oss_id = none;
  case_status = CaseStatus.ok_;
  cases_revision = 1;
  pending_verified = false;
  samples_updated_at = 0;
  verified_by = some 9;
  verified_at = some 1;
  published_at = some 2;
  source_problem_id = none;
}

abbrev database : RuleType → List Submission → ContestDb
database rule subs = record {
  contests = contest_of rule ∷ [];
  problems = public_problem ∷ [];
  grants = record { user_id = 9; code = RoleCode.tutor; team_id = none } ∷ [];
  registrations =
      record { contest_id = 1; user_id = 5; status = RegistrationStatus.registered } ∷ [];
  contest_problems = arranged_problem ∷ [];
  rankings = [];
  submissions = subs;
  cached_boards = [];
}

-- wrong at the first minute, accepted at the second
abbrev two_submissions : List Submission
two_submissions =
    submission 1 SubmissionStatus.wrong_answer 40 60000000
    ∷ submission 2 SubmissionStatus.accepted 100 120000000
    ∷ []

contest-Fresh :
    (rule : RuleType) (subs : List Submission) → Fresh (contest_of rule) (database rule subs)
unfolding get_contest get_row
contest-Fresh rule subs = record { there = refl; open_board = refl; empty = λ u p. refl }

abbrev at_once : Submission → ℕ
at_once s = s.created_at

in_order :
    Pairs
      (λ a b. a.created_at < b.created_at)
      (terminal (contest_of RuleType.acm) (database RuleType.acm two_submissions))
unfolding list_contest_submissions sort_by
in_order = ((omega arith, tt), (tt, tt))

acm_live_agrees_example :
    seen standing (
      get_row 1 5 7
        (live at_once
          (pos 20)
          (database RuleType.acm two_submissions)
          (terminal (contest_of RuleType.acm) (database RuleType.acm two_submissions))).rankings)
    ≡ seen standing (
        get_row 1 5 7
          (recompute_rankings
            (contest_of RuleType.acm)
            (pos 20)
            (database RuleType.acm two_submissions)).rankings)
acm_live_agrees_example =
    acm_live_agrees (contest_of RuleType.acm) (pos 20) (database RuleType.acm two_submissions) refl
      (contest-Fresh RuleType.acm two_submissions) in_order 5 7

ioi_live_agrees_example :
    seen points (
      get_row 1 5 7
        (live at_once
          (pos 20)
          (database RuleType.ioi two_submissions)
          (terminal (contest_of RuleType.ioi) (database RuleType.ioi two_submissions))).rankings)
    ≡ seen points (
        get_row 1 5 7
          (recompute_rankings
            (contest_of RuleType.ioi)
            (pos 20)
            (database RuleType.ioi two_submissions)).rankings)
ioi_live_agrees_example =
    ioi_live_agrees (contest_of RuleType.ioi) (pos 20) (database RuleType.ioi two_submissions)
      at_once refl (contest-Fresh RuleType.ioi two_submissions) 5 7

ioi_accepted_only_recomputed_example :
    (seen
        (λ r. r.accepted)
        (get_row 1 5 7
          (live at_once
            (pos 20)
            (database RuleType.ioi two_submissions)
            (terminal (contest_of RuleType.ioi) (database RuleType.ioi two_submissions))).rankings)
      ≡ some false)
    × (seen
          (λ r. r.accepted)
          (get_row 1 5 7
            (recompute_rankings
              (contest_of RuleType.ioi)
              (pos 20)
              (database RuleType.ioi two_submissions)).rankings)
        ≡ some true)
unfolding list_contest_submissions sort_by
ioi_accepted_only_recomputed_example =
    ioi_accepted_only_recomputed (contest_of RuleType.ioi) (pos 20)
      (database RuleType.ioi two_submissions) at_once 5 7 refl
      (contest-Fresh RuleType.ioi two_submissions) refl

-- accepted at the second minute
abbrev one_submission : List Submission
one_submission = submission 2 SubmissionStatus.accepted 100 120000000 ∷ []

-- results that arrive three minutes after the submissions
abbrev delayed : Submission → ℕ
delayed s = s.created_at + 3 * minute

acm_delay_is_penalty_example :
    (pen : ℤ) × (seen
        (λ r. r.penalty)
        (get_row 1 5 7
          (recompute_rankings
            (contest_of RuleType.acm)
            (pos 20)
            (database RuleType.acm one_submission)).rankings)
      ≡ some pen)
    × (seen
          (λ r. r.penalty)
          (get_row 1 5 7
            (live delayed
              (pos 20)
              (database RuleType.acm one_submission)
              (terminal (contest_of RuleType.acm) (database RuleType.acm one_submission))).rankings)
        ≡ some (pen +ℤ pos 3))
unfolding list_contest_submissions sort_by
acm_delay_is_penalty_example =
    acm_delay_is_penalty (contest_of RuleType.acm) (pos 20) (database RuleType.acm one_submission)
      delayed (submission 2 SubmissionStatus.accepted 100 120000000) 3 refl
      (contest-Fresh RuleType.acm one_submission) refl refl (omega arith) refl

abbrev nickname : ℕ → List ℕ
nickname u = u ∷ []

-- a set that is iterated over backwards
abbrev backwards : List ℕ → List ℕ
backwards us = reverse us

abbrev first_of : List ℕ → ℕ
first_of [] = 0
first_of (x ∷ xs) = x

unfrozen_board_is_final_example :
    map plain_row (
      compute_board (contest_of RuleType.acm) (arranged_problem ∷ []) nickname (
        recompute_rankings
          (contest_of RuleType.acm)
          (pos 20)
          (database RuleType.acm two_submissions)))
    ≡ aggregate_final_rows
        (contest_of RuleType.acm)
        (list_contest_submissions 1 two_submissions)
        (arranged_problem ∷ [])
        (pos 20)
        nickname
        backwards
unfrozen_board_is_final_example =
    unfrozen_board_is_final (contest_of RuleType.acm) (pos 20)
      (database RuleType.acm two_submissions) (arranged_problem ∷ []) nickname backwards
      (Permᴰ.symm (
        Permᴰ.reverse
          (counted_users (contest_of RuleType.acm) (database RuleType.acm two_submissions))))
      (λ u v _ _ differ same. differ (ap first_of same))

abbrev board_row_of : ℕ → ℕ → ℤ → BoardRow
board_row_of u solved penalty = record {
  rank = 0;
  user_id = u;
  nickname = u ∷ [];
  solved = solved;
  total_penalty = penalty;
  total_score = 0;
  cells = [];
}

abbrev two_rows : List BoardRow
two_rows = board_row_of 1 1 (pos 50) ∷ board_row_of 2 2 (pos 70) ∷ []

rank_rows_ranked_example :
    Pairs (Outranks RuleType.acm) (rank_rows RuleType.acm two_rows)
    × (map (λ r. r.rank) (rank_rows RuleType.acm two_rows)
        ≡ from 1 (length (rank_rows RuleType.acm two_rows)))
    × Perm (map (λ r. r.user_id) (rank_rows RuleType.acm two_rows)) (map (λ r. r.user_id) two_rows)
rank_rows_ranked_example = rank_rows_ranked RuleType.acm two_rows

transition_settles_example :
    All
      (λ c. is_settled 15000000000 c ≡ true)
      (transition 15000000000 (database RuleType.acm two_submissions)).contests
transition_settles_example = transition_settles 15000000000 (database RuleType.acm two_submissions)

times_stay_consistent_example :
    TimesOk (transition 15000000000 (database RuleType.acm two_submissions))
times_stay_consistent_example =
    times_stay_consistent (database RuleType.acm two_submissions)
      (transition 15000000000 (database RuleType.acm two_submissions))
      (Steps.more (database RuleType.acm two_submissions) (database RuleType.acm two_submissions)
        (transition 15000000000 (database RuleType.acm two_submissions))
        (Steps.done (database RuleType.acm two_submissions))
        (Step.ticked (database RuleType.acm two_submissions) 15000000000))
      (refl, tt)

abbrev new_body : ContestBody
new_body = record {
  rule_type = RuleType.ioi;
  start_time = 10;
  end_time = 20;
  register_start_time = 1;
  register_end_time = 15;
  freeze_time = none;
  problems = record { problem_id = 7; score = 0 } ∷ [];
}

abbrev created : Result ContestDb → ContestDb → ContestDb
created (ok db) d = db
created _ d = d

abbrev after_create : ContestDb
unfolding create
after_create = created (create (database RuleType.acm []) 9 2 new_body) (database RuleType.acm [])

abbrev patch : ContestPatch
patch = record {
  texts_sent = false;
  rule_type = none;
  start_time = none;
  end_time = none;
  register_start_time = none;
  register_end_time = none;
  freeze_time = none;
  problems = some (some (record { problem_id = 7; score = 60 } ∷ []));
}

-- the created IOI contest, whose problems are sent again with a score of 60
abbrev after_update : ContestDb
unfolding create update
after_update = created (update after_create 9 2 patch) after_create

edited_scores_zero_example : All (λ cp. cp.score ≡ 0) (problems_of 2 after_update)
unfolding create update get_contest is_contest_manager global_role_codes is_admin
edited_scores_zero_example =
    edited_scores_zero after_create after_update 9 2 patch
      (record { problem_id = 7; score = 60 } ∷ []) refl refl refl
