-- ===== src/Team/Operations.antt =====
-- The requests of `TeamService` that change state.
use pigeon_oj.Base.{
  ℕ, Bool, not, ◌&&◌, ◌||◌, Option, none, some, List, [], ◌∷◌, ◌++◌, map, find?, opt_eq, ◌==◌,
  if◌then◌else◌, Code, Result, ok, err, ◌>>=◌, ◌>>◌, refuse_if,
}
use pigeon_oj.Model.{RoleCode, global_role_codes, has_code}
use pigeon_oj.Team.{
  TeamStatus, MemberStatus, ApplicationStatus, Team, TeamMember, Application, TeamDb,
  is_active_team, is_active_member, is_pending, member_of, has_active_member,
  has_pending_application, team_or_404, active_team_or_error, TeamLevel, require_team_roles,
  grant_team_role, revoke_team_roles, revoke_all_team_roles,
}

unfoldable pub add_member : ℕ → ℕ → TeamDb → TeamDb
add_member t u db = record db {
  members =
      db.members
      ++ record { team_id = t; user_id = u; status = MemberStatus.active; left_at = none } ∷ [];
}

-- TeamService.create
unfoldable pub create : TeamDb → ℕ → ℕ → Bool → Result TeamDb
unfolding add_member grant_team_role
create db u t private_ =
    let codes = global_role_codes db.grants u in
    refuse_if (not (has_code RoleCode.admin codes || has_code RoleCode.tutor codes))
      Code.auth_forbidden
    >> ok (
        grant_team_role u t RoleCode.team_creator (
          add_member t u (record db {
            teams =
                db.teams
                ++ record {
                  id = t;
                  creator_id = u;
                  status = TeamStatus.active;
                  is_private = private_;
                  disbanded_at = none;
                }
                  ∷ [];
          })))

-- TeamService.submit_application; the request's token, and what Redis has under it
unfoldable pub submit_application : TeamDb → ℕ → ℕ → ℕ → Bool → Option ℕ → Result TeamDb
unfolding active_team_or_error has_active_member has_pending_application
submit_application db u t fresh has_token invite = active_team_or_error t db >>= λ team.
    refuse_if (has_active_member team.id u db) Code.resource_duplicate
    >> refuse_if (has_pending_application team.id u db) Code.resource_duplicate
    >> refuse_if (team.is_private && not has_token) Code.auth_forbidden
    >> refuse_if (has_token && not (opt_eq invite (some team.id))) Code.resource_not_found
    >> ok (record db {
      applications =
          db.applications
          ++ record {
            id = fresh;
            team_id = team.id;
            user_id = u;
            status = ApplicationStatus.pending;
            reviewed_by = none;
            reviewed_at = none;
          }
            ∷ [];
    })

-- an UPDATE of one application
unfoldable pub set_application :
    ℕ → (Application → Application) → List Application → List Application
set_application a f [] = []
set_application a f (x ∷ xs) = if x.id == a then f x ∷ xs else x ∷ set_application a f xs

unfoldable pub reviewed : ℕ → ℕ → Bool → Application → Application
reviewed u now approve a = record a {
  status = if approve then ApplicationStatus.approved else ApplicationStatus.rejected;
  reviewed_by = some u;
  reviewed_at = some now;
}

-- `TeamMember` and `team_member` for an approved applicant
unfoldable pub admit : ℕ → ℕ → TeamDb → TeamDb
unfolding has_active_member add_member grant_team_role
admit t u db =
    grant_team_role u t RoleCode.team_member
      (if has_active_member t u db then db else add_member t u db)

unfoldable pub review_found : Option Application → TeamDb → ℕ → ℕ → ℕ → Bool → Result TeamDb
unfolding set_application reviewed admit
review_found none db now u t approve = err Code.resource_not_found
review_found (some a) db now u t approve =
    refuse_if (not (a.team_id == t)) Code.resource_not_found
    >> refuse_if (not (is_pending a.status)) Code.resource_state_conflict
    >> (let marked = record db {
      applications = set_application a.id (reviewed u now approve) db.applications;
    } in
        ok (if approve then admit t a.user_id marked else marked))

-- TeamService.review_application
unfoldable pub review_application : TeamDb → ℕ → ℕ → ℕ → ℕ → Bool → Result TeamDb
unfolding team_or_404 require_team_roles review_found
review_application db now u t app approve = team_or_404 t db >>= λ team.
    require_team_roles db u team.id TeamLevel.admin
    >> review_found (find? (λ a. a.id == app) db.applications) db now u team.id approve

-- TeamService.set_admin
unfoldable pub set_admin : TeamDb → ℕ → ℕ → ℕ → Bool → Result TeamDb
unfolding team_or_404 require_team_roles has_active_member grant_team_role revoke_team_roles
set_admin db u t target flag = team_or_404 t db >>= λ team.
    require_team_roles db u team.id TeamLevel.creator
    >> refuse_if (target == team.creator_id) Code.auth_forbidden
    >> refuse_if (not (has_active_member team.id target db)) Code.resource_not_found
    >> ok (
        if flag
        then grant_team_role target team.id RoleCode.team_admin db
        else revoke_team_roles target team.id (RoleCode.team_admin ∷ []) db)

-- the active row of a member leaves
unfoldable pub leave : ℕ → ℕ → MemberStatus → ℕ → List TeamMember → List TeamMember
leave t u status now [] = []
leave t u status now (m ∷ ms) =
    if member_of t u m
    then record m { status = status; left_at = some now } ∷ ms
    else m ∷ leave t u status now ms

unfoldable pub remove_member : ℕ → ℕ → MemberStatus → ℕ → TeamDb → TeamDb
unfolding leave revoke_team_roles
remove_member t u status now db =
    revoke_team_roles u t (RoleCode.team_admin ∷ RoleCode.team_member ∷ [])
      (record db { members = leave t u status now db.members })

-- TeamService.kick
unfoldable pub kick : TeamDb → ℕ → ℕ → ℕ → ℕ → Result TeamDb
unfolding team_or_404 require_team_roles has_active_member remove_member
kick db now u t target = team_or_404 t db >>= λ team.
    require_team_roles db u team.id TeamLevel.admin
    >> refuse_if (target == u) Code.auth_forbidden
    >> refuse_if (target == team.creator_id) Code.auth_forbidden
    >> refuse_if (not (has_active_member team.id target db)) Code.resource_not_found
    >> ok (remove_member team.id target MemberStatus.kicked now db)

-- TeamService.exit
unfoldable pub exit : TeamDb → ℕ → ℕ → ℕ → Result TeamDb
unfolding team_or_404 has_active_member remove_member
exit db now u t = team_or_404 t db >>= λ team.
    refuse_if (team.creator_id == u) Code.auth_forbidden
    >> refuse_if (not (has_active_member team.id u db)) Code.auth_forbidden
    >> ok (remove_member team.id u MemberStatus.exited now db)

-- every active member of a team leaves
unfoldable pub leave_all : ℕ → ℕ → TeamMember → TeamMember
leave_all t now m =
    if (m.team_id == t) && is_active_member m.status
    then record m { status = MemberStatus.exited; left_at = some now }
    else m

unfoldable pub set_team : ℕ → (Team → Team) → List Team → List Team
set_team t f [] = []
set_team t f (x ∷ xs) = if x.id == t then f x ∷ xs else x ∷ set_team t f xs

-- TeamService.disband
unfoldable pub disband : TeamDb → ℕ → ℕ → ℕ → Result TeamDb
unfolding team_or_404 require_team_roles revoke_all_team_roles leave_all set_team
disband db now u t = team_or_404 t db >>= λ team.
    require_team_roles db u team.id TeamLevel.creator
    >> refuse_if (not (is_active_team team.status)) Code.resource_state_conflict
    >> (let closed = revoke_all_team_roles team.id (record db {
      teams =
          set_team team.id
            (λ x. record x { status = TeamStatus.disbanded; disbanded_at = some now }) db.teams;
    }) in
        ok (record closed { members = map (leave_all team.id now) closed.members }))
