-- ===== src/Examples/Spaces.antt =====
-- A team with a manager and a member, a problem of the site and one of another team, and a set of the team.
use pigeon_oj.Base.{ℕ, ◌≡◌, refl, true, false, Option, none, some, [], ◌∷◌, Code, Result, ok, err}
use pigeon_oj.Model.{
  team_role_codes, RoleCode, Problem, ProblemVisibility, ProblemStatus, CaseStatus, Submission,
  SubmitType, is_admin,
}
use pigeon_oj.Problems.{find_problem}
use pigeon_oj.Judge.{JudgeDb, find_submission, build_job_bundle}
use pigeon_oj.Space.{SetStatus, SetVisibility, SpaceDb}
use pigeon_oj.Space.Submitting.{get_problem_detail, create, new_submission}
use pigeon_oj.Space.Teams.{team_problem_detail}
use pigeon_oj.Space.References.{reference_problem}
use pigeon_oj.Space.TeamSets.{create_problem_set, replace_team_items, team_set_problem_detail}
use pigeon_oj.Space.Closed.{Reach, allowed, closed_to_others}
use pigeon_oj.Space.Snapshots.{Bare, referenced_has_no_cases}
use pigeon_oj.Space.Constraints.{Request, Requests, sets_stay_sound}
use pigeon_oj.Space.Items.{Constraints}
use pigeon_oj.Space.Shared.{one_item, owner_submits_unseen, set_shares_problem}

abbrev problem : ℕ → Option ℕ → ProblemVisibility → Option ℕ → Problem
problem pid team visibility source = record {
  id = pid;
  owner_id = 1;
  team_id = team;
  visibility = visibility;
  status = ProblemStatus.published;
  time_limit_ms = 1000;
  memory_limit_mb = 256;
  active_case_ids = 1 ∷ 2 ∷ [];
  pending_case_ids = none;
  spj_oss_id = some 5;
  pending_spj_oss_id = none;
  case_status = CaseStatus.ok_;
  cases_revision = 1;
  pending_verified = false;
  samples_updated_at = 0;
  verified_by = some 1;
  verified_at = some 1;
  published_at = some 1;
  source_problem_id = source;
}

-- user 1 owns everything and is the creator of team 3, user 2 its member
abbrev space : SpaceDb
space = record {
  problems = record {
    problems =
        problem 7 none ProblemVisibility.public_ none
        ∷ problem 8 (some 4) ProblemVisibility.team_visible (some 6)
        ∷ problem 9 (some 3) ProblemVisibility.team_visible none
        ∷ [];
    verifications = [];
    grants =
        record { user_id = 1; code = RoleCode.team_creator; team_id = some 3 }
        ∷ record { user_id = 2; code = RoleCode.team_member; team_id = some 3 }
        ∷ [];
    invites = [];
  };
  sets =
      record {
        id = 30;
        team_id = some 3;
        owner_id = 1;
        visibility = SetVisibility.team_visible;
        status = SetStatus.active;
        referenced_at = none;
      }
      ∷ record {
        id = 31;
        team_id = none;
        owner_id = 1;
        visibility = SetVisibility.public_;
        status = SetStatus.active;
        referenced_at = none;
      }
      ∷ [];
  items = record { problem_set_id = 31; problem_id = 7; sort_order = 0; added_by = 1 } ∷ [];
}

abbrev space_or : Result SpaceDb → SpaceDb
space_or (ok db) = db
space_or (err c) = space

-- user 2 sees problem 9 in the team
closed_to_others_example :
    allowed space 2 (problem 9 (some 3) ProblemVisibility.team_visible none) ≡ true
unfolding is_admin team_problem_detail team_role_codes
closed_to_others_example =
    closed_to_others space 2 (problem 9 (some 3) ProblemVisibility.team_visible none)
      (Reach.sees_in_team (problem 9 (some 3) ProblemVisibility.team_visible none) 3 9 refl) refl

-- problem 7 becomes problem 10 of the team
abbrev referenced : SpaceDb
unfolding reference_problem
referenced =
    space_or (reference_problem space (1 ∷ 2 ∷ []) 10 20 1 3 7 ProblemVisibility.team_visible)

abbrev attempt : Submission
attempt = new_submission 40 5 2 10 "cpp17" "int main() {}" SubmitType.practice

abbrev never : ℕ → ℕ
never i = 0

abbrev judge : JudgeDb
unfolding reference_problem
judge = record {
  contest = record {
    contests = [];
    problems = [];
    grants = [];
    registrations = [];
    contest_problems = [];
    rankings = [];
    submissions = attempt ∷ [];
    cached_boards = [];
  };
  problems = referenced.problems;
  test_cases = record { id = 1; has_objects = true } ∷ [];
  attempts = never;
}

referenced_has_no_cases_example :
    ((p : Problem) × (find_problem 10 referenced.problems ≡ ok p) × Bare p)
    × ((build_job_bundle judge 6 none 40).1 ≡ none)
unfolding reference_problem team_role_codes is_admin find_submission
referenced_has_no_cases_example =
    referenced_has_no_cases space referenced (1 ∷ 2 ∷ []) 10 20 1 3 7 ProblemVisibility.team_visible
      judge 6 40 none attempt refl refl refl refl refl

-- set 31 is copied into the team
abbrev copied : SpaceDb
unfolding create_problem_set
copied = space_or (create_problem_set space 32 50 1 3 SetVisibility.admin_visible (some 31))

sets_stay_sound_example : Constraints copied
unfolding create_problem_set team_role_codes is_admin
sets_stay_sound_example =
    sets_stay_sound space copied
      (Requests.then space space copied (Requests.none_yet space)
        (Request.creates_in_team 32 50 1 3 SetVisibility.admin_visible (some 31) refl))
      ((refl, (refl, tt)), (tt, tt))

-- user 1 has referenced problem 8 into team 4
owner_submits_unseen_example :
    (get_problem_detail space.problems (some 1) 8 false ≡ err Code.auth_forbidden)
    × (create space.problems 41 6 1 8 "cpp17" "int main() {}" false
        ≡ ok (new_submission 41 6 1 8 "cpp17" "int main() {}" SubmitType.practice))
unfolding get_problem_detail create is_admin
owner_submits_unseen_example =
    owner_submits_unseen space.problems 41 6 1 8 "cpp17" "int main() {}"
      (problem 8 (some 4) ProblemVisibility.team_visible (some 6)) refl refl refl refl refl

-- problem 8 of team 4 in a set of team 3
set_shares_problem_example :
    (after : SpaceDb) × (replace_team_items space 1 3 30 (one_item 8) ≡ ok after)
    × (team_set_problem_detail after 2 3 30 8
        ≡ ok (problem 8 (some 4) ProblemVisibility.team_visible (some 6)))
unfolding replace_team_items team_set_problem_detail team_role_codes
set_shares_problem_example =
    set_shares_problem space 1 2 3 30 8
      (record {
        id = 30;
        team_id = some 3;
        owner_id = 1;
        visibility = SetVisibility.team_visible;
        status = SetStatus.active;
        referenced_at = none;
      })
      (problem 8 (some 4) ProblemVisibility.team_visible (some 6)) refl refl refl refl refl refl
      refl refl
