-- ===== src/Team/Joining.antt =====
-- The roles in a team when it is created, when members join and when its administrators change.
use pigeon_oj.Base.{
  ℕ, ◌≡◌, refl, inl, inr, Bool, true, false, Option, none, some, List, [], ◌∷◌, ◌++◌, find?, any,
  arith, ◌==◌, if◌then◌else◌, ==-refl, Bool-cases, Option-cases, All-filter, ok,
}
use pigeon_oj.Model.{RoleCode, team_role_codes}
use pigeon_oj.Team.{
  TeamStatus, MemberStatus, Team, TeamMember, Application, TeamDb, get_team, is_active_team,
  member_of, has_active_member, team_or_404, active_team_or_error, TeamLevel, level_allows,
  require_team_roles, grant_team_role, revoke_team_roles,
}
use pigeon_oj.Team.Operations.{
  add_member, set_application, reviewed, create, submit_application, review_application,
  review_found, admit, set_admin,
}
use pigeon_oj.Team.Roles.{
  backed, Backed, RolesBacked, Backed-append, Backed-members, grant_team_role-RolesBacked,
  level_allows-some, active_by_role, find-append_none,
}
use pigeon_oj.Team.Leaving.{get_team-id}

backed-member :
    (t u : ℕ) (ms : List TeamMember) (ts : List Team) (x : Team)
    → find? (λ y. y.id == t) ts ≡ some x
    → is_active_team x.status ≡ true
    → any (member_of t u) ms ≡ true
    → backed ms ts u RoleCode.team_member (some t) ≡ true
backed-member t u ms ts x hx ha hm = rw (hx, ha, hm) refl

any-new :
    (t u : ℕ) (ms : List TeamMember)
    → any (member_of t u) (
        ms
        ++ record { team_id = t; user_id = u; status = MemberStatus.active; left_at = none } ∷ [])
      ≡ true
any-new t u [] = ground (arith, ==-refl t, ==-refl u)
any-new t u (m ∷ ms) = ground (arith, any-new t u ms)

add-RolesBacked : (t u : ℕ) (db : TeamDb) → RolesBacked db → RolesBacked (add_member t u db)
unfolding add_member
add-RolesBacked t u db h = Backed-members db.members _ db.teams db.grants h

admit-RolesBacked :
    (t u : ℕ) (db : TeamDb) (x : Team)
    → find? (λ y. y.id == t) db.teams ≡ some x
    → is_active_team x.status ≡ true
    → RolesBacked db
    → RolesBacked (admit t u db)
unfolding admit has_active_member
admit-RolesBacked t u db x hx ha h = elim (Bool-cases (any (member_of t u) db.members)) [
  | inl e ↦ rw e (
      grant_team_role-RolesBacked u t RoleCode.team_member db
        (backed-member t u db.members db.teams x hx ha e) h)
  | inr e ↦ rw e (
      grant_team_role-RolesBacked u t RoleCode.team_member (add_member t u db)
        (unfold add_member in
          backed-member t u (add_member t u db).members db.teams x hx ha (any-new t u db.members))
        (add-RolesBacked t u db h))
]

pub apply-RolesBacked :
    (db after : TeamDb) (u t fresh : ℕ) (has_token : Bool) (invite : Option ℕ)
    → submit_application db u t fresh has_token invite ≡ ok after
    → RolesBacked db
    → RolesBacked after
unfolding submit_application active_team_or_error team_or_404
apply-RolesBacked db after u t fresh has_token invite h hb =
    let same : (after.grants ≡ db.grants)
        × (after.members ≡ db.members)
        × (after.teams ≡ db.teams) =
      ground (arith, h) in
    rw (same.0, same.1, same.2) hb

-- whoever has a level in a team shows that the team is active
role-active :
    (db : TeamDb) (u t : ℕ) (level : TeamLevel) (x : Team)
    → get_team t db ≡ some x
    → level_allows level (team_role_codes db.grants u t) ≡ true
    → RolesBacked db
    → is_active_team x.status ≡ true
unfolding get_team
role-active db u t level x hx hl h =
    active_by_role db.members db.teams u t x db.grants hx h
      (level_allows-some level (team_role_codes db.grants u t) hl)

revoke-RolesBacked :
    (u t : ℕ) (codes : List RoleCode) (db : TeamDb)
    → RolesBacked db
    → RolesBacked (revoke_team_roles u t codes db)
unfolding revoke_team_roles
revoke-RolesBacked u t codes db h = All-filter (Backed db.members db.teams) _ db.grants h

backed-admin :
    (t u : ℕ) (db : TeamDb) (x : Team)
    → get_team t db ≡ some x
    → is_active_team x.status ≡ true
    → has_active_member t u db ≡ true
    → backed db.members db.teams u RoleCode.team_admin (some t) ≡ true
unfolding get_team has_active_member
backed-admin t u db x hx ha hm = rw (hx, ha, hm) refl

set_admin-parts :
    (db after : TeamDb) (u t target : ℕ) (flag : Bool) (x : Team)
    → get_team t db ≡ some x
    → x.id ≡ t
    → set_admin db u t target flag ≡ ok after
    → (level_allows TeamLevel.creator (team_role_codes db.grants u t) ≡ true)
      × (has_active_member t target db ≡ true)
      × (after ≡ (
          if flag
          then grant_team_role target t RoleCode.team_admin db
          else revoke_team_roles target t (RoleCode.team_admin ∷ []) db))
unfolding set_admin team_or_404 require_team_roles
set_admin-parts db after u t target flag x e i h = ground (arith, h, e, i)

pub set_admin-RolesBacked :
    (db after : TeamDb) (u t target : ℕ) (flag : Bool)
    → set_admin db u t target flag ≡ ok after
    → RolesBacked db
    → RolesBacked after
set_admin-RolesBacked db after u t target flag h hb = elim (Option-cases (get_team t db)) [
  | inl e ↦ (unfold set_admin team_or_404 in ground (arith, h, e))
  | inr (x, e) ↦
      let parts = set_admin-parts db after u t target flag x e (get_team-id t db x e) h in
      let active = role-active db u t TeamLevel.creator x e parts.0 hb in
      rw parts.2 (either flag (backed-admin t target db x e active parts.1))
]
  where
    either :
        (b : Bool)
        → backed db.members db.teams target RoleCode.team_admin (some t) ≡ true
        → RolesBacked (
            if b
            then grant_team_role target t RoleCode.team_admin db
            else revoke_team_roles target t (RoleCode.team_admin ∷ []) db)
    either true k = grant_team_role-RolesBacked target t RoleCode.team_admin db k hb
    either false k = revoke-RolesBacked target t (RoleCode.team_admin ∷ []) db hb

with_applications : TeamDb → List Application → TeamDb
with_applications db as' = record db { applications = as' }

review-parts :
    (db after : TeamDb) (now u t app : ℕ) (approve : Bool) (x : Team)
    → get_team t db ≡ some x
    → x.id ≡ t
    → review_application db now u t app approve ≡ ok after
    → (level_allows TeamLevel.admin (team_role_codes db.grants u t) ≡ true)
      × (as' : List Application) × (v : ℕ) × (after
          ≡ (if approve then admit t v (with_applications db as') else with_applications db as'))
unfolding review_application team_or_404 require_team_roles with_applications
review-parts db after now u t app approve x e i h =
    elim (Option-cases (find? (λ a. a.id == app) db.applications)) [
      | inl f ↦ (unfold review_found in ground (arith, h, e, i, f))
      | inr (a, f) ↦ (
        ground (arith, h, e, i, f),
        set_application a.id (reviewed u now approve) db.applications,
        a.user_id,
        (unfold review_found in ground (arith, h, e, i, f)),
      )
    ]

marked-RolesBacked :
    (db : TeamDb) (t : ℕ) (x : Team)
    → get_team t db ≡ some x
    → is_active_team x.status ≡ true
    → RolesBacked db
    → (b : Bool) (as' : List Application) (v : ℕ)
    → RolesBacked (if b then admit t v (with_applications db as') else with_applications db as')
unfolding with_applications get_team
marked-RolesBacked db t x e active hb true as' v =
    admit-RolesBacked t v (with_applications db as') x e active hb
marked-RolesBacked db t x e active hb false as' v = hb

pub review-RolesBacked :
    (db after : TeamDb) (now u t app : ℕ) (approve : Bool)
    → review_application db now u t app approve ≡ ok after
    → RolesBacked db
    → RolesBacked after
review-RolesBacked db after now u t app approve h hb = elim (Option-cases (get_team t db)) [
  | inl e ↦ (unfold review_application team_or_404 in ground (arith, h, e))
  | inr (x, e) ↦
      let parts = review-parts db after now u t app approve x e (get_team-id t db x e) h in
      let active = role-active db u t TeamLevel.admin x e parts.0 hb in
      rw parts.3 (marked-RolesBacked db t x e active hb approve parts.1 parts.2)
]

backed-new :
    (t u : ℕ) (ms : List TeamMember) (ts : List Team) (private_ : Bool)
    → find? (λ y. y.id == t) ts ≡ none
    → backed
        (ms
          ++ record { team_id = t; user_id = u; status = MemberStatus.active; left_at = none } ∷ [])
        (ts
          ++ record {
            id = t;
            creator_id = u;
            status = TeamStatus.active;
            is_private = private_;
            disbanded_at = none;
          }
            ∷ [])
        u
        RoleCode.team_creator
        (some t)
      ≡ true
backed-new t u ms ts private_ h =
    rw (find-append_none t ts _ h, any-new t u ms, ==-refl t, ==-refl u) refl

pub create-RolesBacked :
    (db after : TeamDb) (u t : ℕ) (private_ : Bool)
    → get_team t db ≡ none
    → create db u t private_ ≡ ok after
    → RolesBacked db
    → RolesBacked after
unfolding create get_team
create-RolesBacked db after u t private_ hn h hb =
    let new : Team = record {
      id = t;
      creator_id = u;
      status = TeamStatus.active;
      is_private = private_;
      disbanded_at = none;
    } in
    let joined : TeamDb = add_member t u (record db { teams = db.teams ++ new ∷ [] }) in
    let same : after ≡ grant_team_role u t RoleCode.team_creator joined =
      (unfold add_member in ground (arith, h)) in
    rw same (
      grant_team_role-RolesBacked u t RoleCode.team_creator joined
        (unfold add_member in backed-new t u db.members db.teams private_ hn)
        (unfold add_member in Backed-append db.members _ db.teams _ db.grants hb))
