-- ===== src/Team.antt =====
-- Teams: the operations of src/backend/app/services/team.py that change state, on the rows that they
-- write: teams, members, applications, and the role grants of src/backend/app/repositories/user.py. The
-- id of a new row and the clock are arguments; `invite` is what Redis holds under an invitation's token,
-- the id of its team.
pub mod Operations
pub mod Roles
pub mod Leaving
pub mod Joining
pub mod History
use pigeon_oj.Base.{
  ℕ, Bool, true, false, not, ◌&&◌, ◌||◌, Option, none, some, List, [], ◌∷◌, ◌++◌, map, filter,
  find?, any, is_some, opt_eq, ◌==◌, if◌then◌else◌, Code, Result, ok, err, ◌>>=◌, ◌>>◌, refuse_if,
}
use pigeon_oj.Model.{RoleCode, RoleGrant, same_code, team_role_codes, has_code}

pub data TeamStatus : Type 0 where
  active disbanded : TeamStatus

pub data MemberStatus : Type 0 where
  active exited kicked : MemberStatus

pub data ApplicationStatus : Type 0 where
  pending approved rejected : ApplicationStatus

-- models/team.py
pub record Team : Type 0 where
  pub id : ℕ
  pub creator_id : ℕ
  pub status : TeamStatus
  pub is_private : Bool
  pub disbanded_at : Option ℕ

pub record TeamMember : Type 0 where
  pub team_id : ℕ
  pub user_id : ℕ
  pub status : MemberStatus
  pub left_at : Option ℕ

pub record Application : Type 0 where
  pub id : ℕ
  pub team_id : ℕ
  pub user_id : ℕ
  pub status : ApplicationStatus
  pub reviewed_by : Option ℕ
  pub reviewed_at : Option ℕ

pub record TeamDb : Type 0 where
  pub teams : List Team
  pub members : List TeamMember
  pub applications : List Application
  pub grants : List RoleGrant

abbrev pub is_active_team : TeamStatus → Bool
is_active_team TeamStatus.active = true
is_active_team TeamStatus.disbanded = false

abbrev pub is_active_member : MemberStatus → Bool
is_active_member MemberStatus.active = true
is_active_member _ = false

abbrev pub is_pending : ApplicationStatus → Bool
is_pending ApplicationStatus.pending = true
is_pending _ = false

-- TeamRepository.get_by_id
unfoldable pub get_team : ℕ → TeamDb → Option Team
get_team t db = find? (λ x. x.id == t) db.teams

-- the WHERE clause of TeamRepository.get_active_member
abbrev pub member_of : ℕ → ℕ → TeamMember → Bool
member_of t u m = (m.team_id == t) && ((m.user_id == u) && is_active_member m.status)

-- `get_active_member(...) is not None`
unfoldable pub has_active_member : ℕ → ℕ → TeamDb → Bool
has_active_member t u db = any (member_of t u) db.members

-- `get_pending_application(...) is not None`
unfoldable pub has_pending_application : ℕ → ℕ → TeamDb → Bool
has_pending_application t u db =
    any (λ a. (a.team_id == t) && ((a.user_id == u) && is_pending a.status)) db.applications

-- TeamService._team_or_404
unfoldable pub team_or_404 : ℕ → TeamDb → Result Team
unfolding get_team
team_or_404 t db = elim (get_team t db) [ none ↦ err Code.resource_not_found | some x ↦ ok x ]

-- TeamService._active_team_or_error
unfoldable pub active_team_or_error : ℕ → TeamDb → Result Team
unfolding team_or_404
active_team_or_error t db = team_or_404 t db >>= λ x.
    refuse_if (not (is_active_team x.status)) Code.resource_state_conflict >> ok x

pub data TeamLevel : Type 0 where
  creator admin member : TeamLevel

-- the role codes that a level accepts
unfoldable pub level_allows : TeamLevel → List RoleCode → Bool
level_allows TeamLevel.creator codes = has_code RoleCode.team_creator codes
level_allows TeamLevel.admin codes =
    has_code RoleCode.team_creator codes || has_code RoleCode.team_admin codes
level_allows TeamLevel.member codes =
    has_code RoleCode.team_creator codes
    || (has_code RoleCode.team_admin codes || has_code RoleCode.team_member codes)

-- TeamService._require_team_roles
unfoldable pub require_team_roles : TeamDb → ℕ → ℕ → TeamLevel → Result (Unit {0})
unfolding level_allows
require_team_roles db u t level =
    refuse_if (not (level_allows level (team_role_codes db.grants u t))) Code.auth_forbidden

-- a grant of one code to one user in one team
abbrev pub grant_is : ℕ → ℕ → RoleCode → RoleGrant → Bool
grant_is u t code g = (g.user_id == u) && (opt_eq g.team_id (some t) && same_code code g.code)

-- RoleRepository.grant_team_role, where the role exists
unfoldable pub grant_team_role : ℕ → ℕ → RoleCode → TeamDb → TeamDb
grant_team_role u t code db = if any (grant_is u t code) db.grants then db else record db {
  grants = db.grants ++ record { user_id = u; code = code; team_id = some t } ∷ [];
}

-- RoleRepository.revoke_team_roles
unfoldable pub revoke_team_roles : ℕ → ℕ → List RoleCode → TeamDb → TeamDb
revoke_team_roles u t codes db = record db {
  grants =
      filter (λ g. not ((g.user_id == u) && (opt_eq g.team_id (some t) && has_code g.code codes)))
        db.grants;
}

-- RoleRepository.revoke_all_team_roles
unfoldable pub revoke_all_team_roles : ℕ → TeamDb → TeamDb
revoke_all_team_roles t db = record db {
  grants = filter (λ g. not (opt_eq g.team_id (some t))) db.grants;
}
