-- ===== src/Space/Teams.antt =====
-- The problems of a team: the gates of services/team_space.py for their pages and for submissions to them.
use Prim.Native.String.{String}
use pigeon_oj.Base.{
  ℕ, Bool, true, not, ◌&&◌, ◌||◌, some, opt_eq, ◌==◌, if◌then◌else◌, Code, Result, ok, ◌>>=◌, ◌>>◌,
  refuse_if,
}
use pigeon_oj.Model.{Problem, Submission, is_admin}
use pigeon_oj.Problems.{find_problem}
use pigeon_oj.Team.{TeamLevel}
use pigeon_oj.Space.{
  SpaceDb, grants_of, is_published_status, is_admin_visible, has_team_roles, require_level,
}
use pigeon_oj.Space.Submitting.{get_problem_detail, create}

-- _team_problem_or_404
unfoldable pub team_problem_or_404 : SpaceDb → ℕ → ℕ → Result Problem
unfolding find_problem
team_problem_or_404 db t pid = find_problem pid db.problems >>= λ p.
    refuse_if (not (opt_eq p.team_id (some t))) Code.resource_not_found >> ok p

-- a problem that only the managers of the team see
abbrev pub hidden_from : SpaceDb → ℕ → ℕ → Problem → Bool
hidden_from db u t p =
    is_admin_visible p.visibility && not (has_team_roles (grants_of db) u t TeamLevel.admin)

-- get_problem_detail
unfoldable pub team_problem_detail : SpaceDb → ℕ → ℕ → ℕ → Result Problem
unfolding require_level team_problem_or_404 get_problem_detail has_team_roles
team_problem_detail db u t pid =
    require_level TeamLevel.member db u t
    >> (team_problem_or_404 db t pid >>= λ p.
        refuse_if
          (if is_published_status p.status
            then hidden_from db u t p
            else not (is_admin (grants_of db) u || (p.owner_id == u)))
          Code.auth_forbidden
        >> get_problem_detail db.problems (some u) pid true)

-- create_problem_submission
unfoldable pub create_problem_submission :
    SpaceDb → ℕ → ℕ → ℕ → ℕ → ℕ → String → String → Result Submission
unfolding require_level team_problem_or_404 create has_team_roles
create_problem_submission db sid now u t pid language code =
    require_level TeamLevel.member db u t
    >> (team_problem_or_404 db t pid >>= λ p.
        refuse_if (not (is_published_status p.status)) Code.auth_forbidden
        >> (refuse_if (hidden_from db u t p) Code.auth_forbidden
            >> create db.problems sid now u pid language code true))
