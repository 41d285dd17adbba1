-- ===== src/Team/Leaving.antt =====
-- The roles in a team when members leave and when the team is disbanded.
use pigeon_oj.Base.{
  ℕ, ◌≡◌, refl, inl, inr, true, false, not, ◌&&◌, Option, none, some, List, [], ◌∷◌, map, filter,
  find?, any, arith, opt_eq, ◌==◌, ==→eq, &&-left, &&-right, Bool-cases, Option-cases, All-map,
  All-filter_both, ok,
}
use pigeon_oj.Model.{RoleCode, has_code}
use pigeon_oj.Team.{
  TeamStatus, MemberStatus, Team, TeamMember, TeamDb, get_team, is_active_team, member_of,
  team_or_404, revoke_team_roles, revoke_all_team_roles,
}
use pigeon_oj.Team.Operations.{leave, remove_member, kick, exit, leave_all, set_team, disband}
use pigeon_oj.Team.Roles.{
  role_fits, team_backs, backed, Backed, RolesBacked, any-leave, any-leave_all, find-set_team,
}

-- a role that is not the creator's is revoked
revoked :
    (code : RoleCode)
    → role_fits code false ≡ true
    → has_code code (RoleCode.team_admin ∷ RoleCode.team_member ∷ []) ≡ true
revoked RoleCode.team_admin h = refl
revoked RoleCode.team_member h = refl
revoked RoleCode.team_creator h = ground (arith, h)
revoked RoleCode.admin h = ground (arith, h)
revoked RoleCode.tutor h = ground (arith, h)
revoked RoleCode.other_role h = ground (arith, h)

-- a role that the removal of a member leaves is backed without the member
backed-leave :
    (ms : List TeamMember) (ts : List Team) (u : ℕ) (code : RoleCode) (o : Option ℕ)
    (t target now : ℕ) (status : MemberStatus) (x : Team)
    → find? (λ y. y.id == t) ts ≡ some x
    → (x.creator_id == target) ≡ false
    → backed ms ts u code o ≡ true
    → not (
        (u == target)
        && (opt_eq o (some t) && has_code code (RoleCode.team_admin ∷ RoleCode.team_member ∷ [])))
      ≡ true
    → backed (leave t target status now ms) ts u code o ≡ true
backed-leave ms ts u code none t target now status x hx hc hb hk = refl
backed-leave ms ts u code (some s) t target now status x hx hc hb hk =
    elim (Bool-cases ((s == t) && (u == target))) [
      | inl e ↦ gone (==→eq s t (&&-left (s == t) _ e)) (==→eq u target (&&-right (s == t) _ e))
      | inr e ↦ rw (any-leave s u t target now status ms e) hb
    ]
  where
    gone : s ≡ t → u ≡ target → backed (leave t target status now ms) ts u code (some s) ≡ true
    gone es eu =
        let hb' : team_backs (find? (λ y. y.id == s) ts) u code ≡ true =
          &&-right (any (member_of s u) ms) (team_backs (find? (λ y. y.id == s) ts) u code) hb in
        let hb'' : team_backs (find? (λ y. y.id == t) ts) target code ≡ true = rw (es, eu) at hb' in
        let fits : is_active_team x.status && role_fits code false ≡ true = rw (hx, hc) at hb'' in
        ground (
          arith,
          hk,
          es,
          eu,
          revoked code (&&-right (is_active_team x.status) (role_fits code false) fits),
        )

remove_member-RolesBacked :
    (t u now : ℕ) (status : MemberStatus) (db : TeamDb) (x : Team)
    → find? (λ y. y.id == t) db.teams ≡ some x
    → (x.creator_id == u) ≡ false
    → RolesBacked db
    → RolesBacked (remove_member t u status now db)
unfolding remove_member revoke_team_roles
remove_member-RolesBacked t u now status db x hx hc h =
    All-map
      (λ g k.
        backed-leave db.members db.teams g.user_id g.code g.team_id t u now status x hx hc k.0 k.1)
      (filter _ db.grants) (All-filter_both (Backed db.members db.teams) _ db.grants h)

-- the row of a team that a lookup finds has the id that was looked up
pub get_team-id : (t : ℕ) (db : TeamDb) (x : Team) → get_team t db ≡ some x → x.id ≡ t
unfolding get_team
get_team-id t db x h = found t db.teams x h
  where
    found : (t : ℕ) (ts : List Team) (x : Team) → find? (λ y. y.id == t) ts ≡ some x → x.id ≡ t
    found t [] x h = ground (arith, h)
    found t (y ∷ ts) x h = ground (arith, h, found t ts x, ==→eq y.id t)

pub kick-RolesBacked :
    (db after : TeamDb) (now u t target : ℕ)
    → kick db now u t target ≡ ok after
    → RolesBacked db
    → RolesBacked after
unfolding kick team_or_404
kick-RolesBacked db after now u t target h hb = elim (Option-cases (get_team t db)) [
  | inl e ↦ ground (arith, h, e)
  | inr (x, e) ↦
      let same : after ≡ remove_member x.id target MemberStatus.kicked now db =
        (unfold remove_member in ground (arith, h, e)) in
      let other : (x.creator_id == target) ≡ false = ground (arith, h, e) in
      rw (same, get_team-id t db x e)
        (remove_member-RolesBacked t target now MemberStatus.kicked db x (unfold get_team in e)
          other hb)
]

pub exit-RolesBacked :
    (db after : TeamDb) (now u t : ℕ)
    → exit db now u t ≡ ok after
    → RolesBacked db
    → RolesBacked after
unfolding exit team_or_404
exit-RolesBacked db after now u t h hb = elim (Option-cases (get_team t db)) [
  | inl e ↦ ground (arith, h, e)
  | inr (x, e) ↦
      let same : after ≡ remove_member x.id u MemberStatus.exited now db =
        (unfold remove_member in ground (arith, h, e)) in
      let other : (x.creator_id == u) ≡ false = ground (arith, h, e) in
      rw (same, get_team-id t db x e)
        (remove_member-RolesBacked t u now MemberStatus.exited db x (unfold get_team in e) other hb)
]

-- a role in another team is backed after a team is disbanded
backed-disband :
    (ms : List TeamMember) (ts : List Team) (u : ℕ) (code : RoleCode) (o : Option ℕ) (t now : ℕ)
    → backed ms ts u code o ≡ true
    → not (opt_eq o (some t)) ≡ true
    → backed
        (map (leave_all t now) ms)
        (set_team t (λ x. record x { status = TeamStatus.disbanded; disbanded_at = some now }) ts)
        u
        code
        o
      ≡ true
backed-disband ms ts u code none t now h k = refl
backed-disband ms ts u code (some s) t now h k =
    let other : (s == t) ≡ false = ground (arith, k) in
    rw (any-leave_all s u t now ms other, find-set_team s t now ts other) h

pub disband-RolesBacked :
    (db after : TeamDb) (now u t : ℕ)
    → disband db now u t ≡ ok after
    → RolesBacked db
    → RolesBacked after
unfolding disband team_or_404 revoke_all_team_roles
disband-RolesBacked db after now u t h hb = elim (Option-cases (get_team t db)) [
  | inl e ↦ ground (arith, h, e)
  | inr (x, e) ↦
      let same : (after.grants ≡ filter (λ g. not (opt_eq g.team_id (some x.id))) db.grants)
          × (after.members ≡ map (leave_all x.id now) db.members)
          × (after.teams
              ≡ set_team x.id
                  (λ y. record y { status = TeamStatus.disbanded; disbanded_at = some now })
                  db.teams) =
        (unfold set_team leave_all in ground (arith, h, e)) in
      rw (same.0, same.1, same.2)
        (All-map
          (λ g k. backed-disband db.members db.teams g.user_id g.code g.team_id x.id now k.0 k.1)
          (filter _ db.grants) (All-filter_both (Backed db.members db.teams) _ db.grants hb))
]
