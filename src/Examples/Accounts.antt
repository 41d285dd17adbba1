-- ===== src/Examples/Accounts.antt =====
-- A team with two members, and who gets into its contest.
use pigeon_oj.Base.{
  ℕ, ◌≡◌, refl, true, false, ◌&&◌, ◌||◌, Option, none, some, [], ◌∷◌, arith, Result, ok, succeeds,
}
use pigeon_oj.Model.{
  Submission, RuleType, ContestType, ContestStatus, RegistrationStatus, Contest, Problem, RoleCode,
  ProblemVisibility, ProblemStatus, CaseStatus, is_admin, team_role_codes,
}
use pigeon_oj.Contest.{ContestDb, get_contest, get_problem}
use pigeon_oj.Contest.Access.{
  Level, Detail, has_team_role, get_detail, submit_problem, ensure_problems_visible,
  ensure_submissions_visible, has_full_problem_access,
}
use pigeon_oj.Contest.Access.Windows.{
  published_problem, can_submit_agrees, team_contest_is_closed, anyone_submits_after_end,
}
use pigeon_oj.Team.{TeamDb, TeamStatus, MemberStatus, get_team, has_active_member}
use pigeon_oj.Team.Operations.{kick}
use pigeon_oj.Team.Roles.{RolesBacked}
use pigeon_oj.Team.History.{Step, Steps, roles_stay_backed}

abbrev timed_contest : ContestType → Option ℕ → Contest
timed_contest kind team = record {
  id = 1;
  contest_type = kind;
  team_id = team;
  owner_id = 9;
  rule_type = RuleType.acm;
  start_time = 10;
  end_time = 20;
  register_start_time = 1;
  register_end_time = 20;
  freeze_time = none;
  board_frozen = false;
  frozen_at = none;
  status = ContestStatus.running;
}

abbrev open_problem_7 : Problem
open_problem_7 = record {
  id = 7;
  owner_id = 9;
  team_id = none;
  visibility = ProblemVisibility.public_;
  status = ProblemStatus.published;
  time_limit_ms = 1000;
  memory_limit_mb = 256;
  active_case_ids = 1 ∷ [];
  pending_case_ids = none;
  spj_oss_id = none;
  pending_spj_oss_id = none;
  case_status = CaseStatus.ok_;
  cases_revision = 1;
  pending_verified = false;
  samples_updated_at = 0;
  verified_by = none;
  verified_at = none;
  published_at = none;
  source_problem_id = none;
}

-- user 5 is registered and a member of team 3
abbrev site : ContestType → Option ℕ → ContestDb
site kind team = record {
  contests = timed_contest kind team ∷ [];
  problems = open_problem_7 ∷ [];
  grants = record { user_id = 5; code = RoleCode.team_member; team_id = some 3 } ∷ [];
  registrations =
      record { contest_id = 1; user_id = 5; status = RegistrationStatus.registered } ∷ [];
  contest_problems =
      record { contest_id = 1; problem_id = 7; letter = 65 ∷ []; sort_order = 0; score = 0 } ∷ [];
  rankings = [];
  submissions = [];
  cached_boards = [];
}

abbrev detail_or : Result Detail → Detail
detail_or (ok d) = d
detail_or _ = record {
  can_register = false;
  can_view_problems = false;
  can_submit = false;
  can_manage_it = false;
  problems = [];
}

-- what user 5 is shown at moment 12, and user 6 at the end
abbrev detail_of_5 : Detail
unfolding get_detail
detail_of_5 = detail_or (get_detail (site ContestType.public none) 12 1 (some 5))

can_submit_agrees_example :
    succeeds (submit_problem (site ContestType.public none) 30 12 1 5 7 "cpp" "main")
    ≡ (detail_of_5.can_submit && published_problem (some open_problem_7))
unfolding get_contest get_detail has_full_problem_access get_problem
can_submit_agrees_example =
    can_submit_agrees (site ContestType.public none) 30 12 1 5 7 "cpp" "main"
      (timed_contest ContestType.public none) detail_of_5 refl refl refl refl

team_contest_is_closed_example :
    (is_admin (site ContestType.team (some 3)).grants 5
      || has_team_role (site ContestType.team (some 3)).grants (some 5) (some 3) Level.member)
    ≡ true
unfolding ensure_problems_visible ensure_submissions_visible is_admin team_role_codes
team_contest_is_closed_example =
    team_contest_is_closed (site ContestType.team (some 3)) 12 5 3
      (timed_contest ContestType.team (some 3)) refl refl refl

-- user 8 has no role at all
anyone_submits_after_end_example :
    (s : Submission) × (submit_problem (site ContestType.team (some 3)) 30 21 1 8 7 "cpp" "main"
      ≡ ok (s, true))
    × (s.contest_id ≡ some 1)
    × (s.user_id ≡ 8)
    × (s.is_after_contest ≡ true)
unfolding get_contest get_problem
anyone_submits_after_end_example =
    anyone_submits_after_end (site ContestType.team (some 3)) 30 21 1 8 7 "cpp" "main"
      (timed_contest ContestType.team (some 3)) open_problem_7 refl (omega arith) (omega arith) refl
      refl refl refl

-- user 1 has created team 3, user 2 is its administrator
abbrev team_tables : TeamDb
team_tables = record {
  teams =
      record {
        id = 3;
        creator_id = 1;
        status = TeamStatus.active;
        is_private = false;
        disbanded_at = none;
      }
      ∷ [];
  members =
      record { team_id = 3; user_id = 1; status = MemberStatus.active; left_at = none }
      ∷ record { team_id = 3; user_id = 2; status = MemberStatus.active; left_at = none }
      ∷ [];
  applications = [];
  grants =
      record { user_id = 1; code = RoleCode.team_creator; team_id = some 3 }
      ∷ record { user_id = 2; code = RoleCode.team_admin; team_id = some 3 }
      ∷ [];
}

abbrev tables_or : Result TeamDb → TeamDb
tables_or (ok db) = db
tables_or _ = team_tables

-- user 1 removes user 2
abbrev after_kick : TeamDb
unfolding kick
after_kick = tables_or (kick team_tables 50 1 3 2)

roles_stay_backed_example : RolesBacked after_kick
unfolding kick get_team has_active_member team_role_codes
roles_stay_backed_example =
    roles_stay_backed team_tables after_kick
      (Steps.more team_tables team_tables after_kick (Steps.done team_tables)
        (Step.kicked_out team_tables after_kick 50 1 3 2 refl))
      (refl, (refl, tt))
