-- ===== src/Space.antt =====
-- Submissions, problem sets and the space of a team: src/backend/app/services/judge.py, problem_set.py and
-- team_space.py with the repositories of problems and problem sets. A request is a function from the tables
-- to the tables or to what it returns, or to the code of its error.
pub mod Submitting
pub mod Sets
pub mod References
pub mod TeamSets
pub mod Teams
pub mod Closed
pub mod Snapshots
pub mod Items
pub mod Changes
pub mod Constraints
pub mod Shown
pub mod Shared
use pigeon_oj.Base.{
  ℕ, Bool, true, false, not, ◌&&◌, ◌||◌, Option, none, some, List, [], ◌∷◌, find?, ◌==◌,
  if◌then◌else◌, Code, Result, ok, err, ◌>>=◌, ◌>>◌, refuse_if,
}
use pigeon_oj.Model.{Problem, ProblemStatus, ProblemVisibility, RoleGrant, team_role_codes}
use pigeon_oj.Problems.{ProblemDb}
use pigeon_oj.Team.{TeamLevel, level_allows}

-- enums of problem sets
pub data SetStatus : Type 0 where
  active archived : SetStatus

pub data SetVisibility : Type 0 where
  public_ private_ team_visible admin_visible : SetVisibility

-- models/problem_set.py
pub record ProblemSet : Type 0 where
  pub id : ℕ
  pub team_id : Option ℕ
  pub owner_id : ℕ
  pub visibility : SetVisibility
  pub status : SetStatus
  pub referenced_at : Option ℕ

pub record SetItem : Type 0 where
  pub problem_set_id : ℕ
  pub problem_id : ℕ
  pub sort_order : ℕ
  pub added_by : ℕ

-- `problems` holds the grants of roles
pub record SpaceDb : Type 0 where
  pub problems : ProblemDb
  pub sets : List ProblemSet
  pub items : List SetItem

abbrev pub grants_of : SpaceDb → List RoleGrant
grants_of db = db.problems.grants

abbrev pub is_published_status : ProblemStatus → Bool
is_published_status ProblemStatus.published = true
is_published_status _ = false

abbrev pub is_admin_visible : ProblemVisibility → Bool
is_admin_visible ProblemVisibility.admin_visible = true
is_admin_visible _ = false

abbrev pub is_active_set : SetStatus → Bool
is_active_set SetStatus.active = true
is_active_set SetStatus.archived = false

abbrev pub is_public_set : SetVisibility → Bool
is_public_set SetVisibility.public_ = true
is_public_set _ = false

abbrev pub is_admin_visible_set : SetVisibility → Bool
is_admin_visible_set SetVisibility.admin_visible = true
is_admin_visible_set _ = false

-- TeamService.has_team_roles
unfoldable pub has_team_roles : List RoleGrant → ℕ → ℕ → TeamLevel → Bool
unfolding level_allows
has_team_roles grants u t level = level_allows level (team_role_codes grants u t)

-- TeamSpaceService.require_member and require_manager
unfoldable pub require_level : TeamLevel → SpaceDb → ℕ → ℕ → Result (Unit {0})
unfolding has_team_roles
require_level level db u t =
    refuse_if (not (has_team_roles (grants_of db) u t level)) Code.auth_forbidden
