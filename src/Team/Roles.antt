-- ===== src/Team/Roles.antt =====
-- What stands behind a role in a team: an active member, and a team that is not disbanded.
use pigeon_oj.Base.{
  ℕ, ◌≡◌, refl, inl, inr, Bool, true, false, ◌&&◌, Option, none, some, List, [], ◌∷◌, ◌++◌, map,
  filter, find?, any, arith, opt_eq, ◌==◌, ==→eq, &&-left, &&-right, Bool-cases, Option-cases, All,
  All-map, All-append, any-append,
}
use pigeon_oj.Model.{RoleCode, RoleGrant, team_role_codes}
use pigeon_oj.Team.{
  TeamStatus, MemberStatus, Team, TeamMember, TeamDb, is_active_team, member_of, TeamLevel,
  level_allows, grant_is, grant_team_role,
}
use pigeon_oj.Team.Operations.{leave, leave_all, set_team}

-- the creator's role is the creator's alone
abbrev pub role_fits : RoleCode → Bool → Bool
role_fits RoleCode.team_creator is_creator = is_creator
role_fits RoleCode.team_admin is_creator = true
role_fits RoleCode.team_member is_creator = true
role_fits _ is_creator = false

abbrev pub team_backs : Option Team → ℕ → RoleCode → Bool
team_backs none u code = false
team_backs (some x) u code = is_active_team x.status && role_fits code (x.creator_id == u)

-- a role of the global scope needs nothing; one in a team belongs to an active member of a team that is
-- active, and the creator's role to the creator of the team
abbrev pub backed : List TeamMember → List Team → ℕ → RoleCode → Option ℕ → Bool
backed ms ts u code none = true
backed ms ts u code (some t) =
    any (member_of t u) ms && team_backs (find? (λ x. x.id == t) ts) u code

abbrev pub Backed : List TeamMember → List Team → RoleGrant → Type 0
Backed ms ts g = backed ms ts g.user_id g.code g.team_id ≡ true

-- The invariant of the tables.
abbrev pub RolesBacked : TeamDb → Type 0
RolesBacked db = All (Backed db.members db.teams) db.grants

find-append :
    (t : ℕ) (ts more : List Team) (x : Team)
    → find? (λ y. y.id == t) ts ≡ some x
    → find? (λ y. y.id == t) (ts ++ more) ≡ some x
find-append t [] more x h = ground (arith, h)
find-append t (y ∷ ts) more x h = ground (arith, h, find-append t ts more x)

pub find-append_none :
    (t : ℕ) (ts more : List Team)
    → find? (λ y. y.id == t) ts ≡ none
    → find? (λ y. y.id == t) (ts ++ more) ≡ find? (λ y. y.id == t) more
find-append_none t [] more h = refl
find-append_none t (y ∷ ts) more h = ground (arith, h, find-append_none t ts more)

-- More members and more teams back what was backed.
pub backed-append :
    (ms ms' : List TeamMember) (ts ts' : List Team) (u : ℕ) (code : RoleCode) (o : Option ℕ)
    → backed ms ts u code o ≡ true
    → backed (ms ++ ms') (ts ++ ts') u code o ≡ true
backed-append ms ms' ts ts' u code none h = refl
backed-append ms ms' ts ts' u code (some t) h = elim (Option-cases (find? (λ x. x.id == t) ts)) [
  | inl e ↦ ground (arith, h, e)
  | inr (x, e) ↦ ground (arith, h, e, any-append (member_of t u) ms ms', find-append t ts ts' x e)
]

pub Backed-append :
    (ms ms' : List TeamMember) (ts ts' : List Team) (gs : List RoleGrant)
    → All (Backed ms ts) gs
    → All (Backed (ms ++ ms') (ts ++ ts')) gs
Backed-append ms ms' ts ts' =
    All-map (λ g h. backed-append ms ms' ts ts' g.user_id g.code g.team_id h)

backed-members :
    (ms ms' : List TeamMember) (ts : List Team) (u : ℕ) (code : RoleCode) (o : Option ℕ)
    → backed ms ts u code o ≡ true
    → backed (ms ++ ms') ts u code o ≡ true
backed-members ms ms' ts u code none h = refl
backed-members ms ms' ts u code (some t) h = ground (arith, h, any-append (member_of t u) ms ms')

pub Backed-members :
    (ms ms' : List TeamMember) (ts : List Team) (gs : List RoleGrant)
    → All (Backed ms ts) gs
    → All (Backed (ms ++ ms') ts) gs
Backed-members ms ms' ts = All-map (λ g h. backed-members ms ms' ts g.user_id g.code g.team_id h)

-- Granting a role that is backed keeps every role backed.
pub grant_team_role-RolesBacked :
    (u t : ℕ) (code : RoleCode) (db : TeamDb)
    → backed db.members db.teams u code (some t) ≡ true
    → RolesBacked db
    → RolesBacked (grant_team_role u t code db)
unfolding grant_team_role
grant_team_role-RolesBacked u t code db hb h =
    elim (Bool-cases (any (grant_is u t code) db.grants)) [
      | inl e ↦ rw e h
      | inr e ↦ rw e (All-append (Backed db.members db.teams) db.grants _ h (hb, tt))
    ]

abbrev pub has_none : List RoleCode → Bool
has_none [] = true
has_none (c ∷ cs) = false

pub level_allows-some :
    (level : TeamLevel) (codes : List RoleCode)
    → level_allows level codes ≡ true
    → has_none codes ≡ false
unfolding level_allows
level_allows-some level (c ∷ cs) h = refl
level_allows-some TeamLevel.creator [] h = ground (arith, h)
level_allows-some TeamLevel.admin [] h = ground (arith, h)
level_allows-some TeamLevel.member [] h = ground (arith, h)

backed-active :
    (ms : List TeamMember) (ts : List Team) (u : ℕ) (code : RoleCode) (o : Option ℕ) (t : ℕ)
    (x : Team)
    → backed ms ts u code o ≡ true
    → opt_eq o (some t) ≡ true
    → find? (λ y. y.id == t) ts ≡ some x
    → is_active_team x.status ≡ true
backed-active ms ts u code none t x h ho hx = ground (arith, ho)
backed-active ms ts u code (some t') t x h ho hx =
    active (==→eq t' t ho) (&&-right (any (member_of t' u) ms) _ h)
  where
    active :
        t' ≡ t
        → team_backs (find? (λ y. y.id == t') ts) u code ≡ true
        → is_active_team x.status ≡ true
    active e hb =
        let hb' : team_backs (find? (λ y. y.id == t) ts) u code ≡ true = rw e at hb in
        let hb'' : team_backs (some x) u code ≡ true = rw hx at hb' in
        &&-left (is_active_team x.status) (role_fits code (x.creator_id == u)) hb''

-- A team in which someone has a role is active.
pub active_by_role :
    (ms : List TeamMember) (ts : List Team) (u t : ℕ) (x : Team) (gs : List RoleGrant)
    → find? (λ y. y.id == t) ts ≡ some x
    → All (Backed ms ts) gs
    → has_none (team_role_codes gs u t) ≡ false
    → is_active_team x.status ≡ true
unfolding team_role_codes
active_by_role ms ts u t x [] hx h hn = ground (arith, hn)
active_by_role ms ts u t x (g ∷ gs) hx h hn =
    elim (Bool-cases ((g.user_id == u) && opt_eq g.team_id (some t))) [
      | inl e ↦
          backed-active ms ts g.user_id g.code g.team_id t x h.0 (&&-right (g.user_id == u) _ e) hx
      | inr e ↦
          let rest : has_none
                (map (λ k. k.code) (filter (λ k. (k.user_id == u) && opt_eq k.team_id (some t)) gs))
              ≡ false =
            rw e at hn in
          active_by_role ms ts u t x gs hx h.1 rest
    ]

pub any-leave :
    (t u t' u' now : ℕ) (status : MemberStatus) (ms : List TeamMember)
    → ((t == t') && (u == u')) ≡ false
    → any (member_of t u) (leave t' u' status now ms) ≡ any (member_of t u) ms
unfolding leave
any-leave t u t' u' now status [] h = refl
any-leave t u t' u' now status (m ∷ ms) h = elim (Bool-cases (member_of t' u' m)) [
  | inl e ↦ rw e (ground (arith, h, e))
  | inr e ↦ rw e (ground (arith, any-leave t u t' u' now status ms h))
]

pub any-leave_all :
    (t u t' now : ℕ) (ms : List TeamMember)
    → (t == t') ≡ false
    → any (member_of t u) (map (leave_all t' now) ms) ≡ any (member_of t u) ms
unfolding leave_all
any-leave_all t u t' now [] h = refl
any-leave_all t u t' now (m ∷ ms) h = ground (arith, h, any-leave_all t u t' now ms h)

pub find-set_team :
    (t t' now : ℕ) (ts : List Team)
    → (t == t') ≡ false
    → find?
        (λ x. x.id == t)
        (set_team t' (λ x. record x { status = TeamStatus.disbanded; disbanded_at = some now }) ts)
      ≡ find? (λ x. x.id == t) ts
unfolding set_team
find-set_team t t' now [] h = refl
find-set_team t t' now (x ∷ ts) h = ground (arith, h, find-set_team t t' now ts h)
