-- ===== src/Space/Changes.antt =====
-- Each request on a problem set keeps the constraints of the tables.
use pigeon_oj.Base.{
  ℕ, ◌≡◌, refl, sym, ap, ◌∙◌, Bool, true, false, not, ◌||◌, Option, none, some, List, [], ◌∷◌,
  find?, All, All-append, is_some, ◌==◌, if◌then◌else◌, arith, Bool-cases, inl, inr, Code, ok, err,
  refuse_if, ◌>>◌, Gives, refuse_if-Gives, bind-Gives, ok-Gives, err-Gives, given,
}
use pigeon_oj.Model.{is_admin}
use pigeon_oj.Team.{TeamLevel}
use pigeon_oj.Space.{
  SetStatus, SetVisibility, ProblemSet, SpaceDb, grants_of, is_active_set, has_team_roles,
  require_level,
}
use pigeon_oj.Space.Sets.{
  find_set, set_in, replace_items, is_set_manager, can_manage_set, is_site_visibility,
  same_visibility, create_set, change_visibility, update_set, archive_set, require_set_manage,
  ItemIn, has_duplicates, all_found, rows_of, arrange, is_accessible, replace_set_items,
}
use pigeon_oj.Space.TeamSets.{
  is_team_set_visibility, team_set, with_set, copied_items, create_problem_set, team_set_or_404,
  replace_team_items, archive_team_set,
}
use pigeon_oj.Space.Items.{
  fits_owner, Constraints, replace_items-Apart, rows_of-Apart, rows_of-OfSet, copied_items-OfSet,
  copied_items-Apart,
}

abbrev Fits : ProblemSet → Type 0
Fits s = fits_owner s ≡ true

set_in-Fits :
    (sid : ℕ) (f : ProblemSet → ProblemSet) (ss : List ProblemSet)
    → ((s : ProblemSet) → find? (λ x. x.id == sid) ss ≡ some s → Fits s → Fits (f s))
    → All Fits ss
    → All Fits (set_in sid f ss)
unfolding set_in
set_in-Fits sid f [] h k = tt
set_in-Fits sid f (s ∷ ss) h k = elim (Bool-cases (s.id == sid)) [
  | inl e ↦ rw e (h s (rw e refl) k.0, k.1)
  | inr e ↦ rw e (k.0, set_in-Fits sid f ss (λ x found fits. h x (rw e found) fits) k.1)
]

-- the set that a request manages
abbrev Found : SpaceDb → ℕ → ProblemSet → Type 0
Found db sid s = find? (λ x. x.id == sid) db.sets ≡ some s

managed :
    (m : Option ProblemSet) (q : ProblemSet → Bool)
    → Gives
        (λ s. m ≡ some s)
        (elim m [
          | none ↦ err Code.resource_not_found
          | some s ↦ if q s then ok s else err Code.auth_forbidden
        ])
managed none q = err-Gives _ _
managed (some s) q = elim (Bool-cases (q s)) [
  | inl e ↦ rw e (ok-Gives _ s refl)
  | inr e ↦ rw e (err-Gives _ _)
]

require_set_manage-Found :
    (db : SpaceDb) (sid u : ℕ) → Gives (Found db sid) (require_set_manage db sid u)
unfolding require_set_manage find_set
require_set_manage-Found db sid u =
    managed (find_set sid db) (λ s. can_manage_set (grants_of db) (some u) s)

has_team : Option ProblemSet → Bool
has_team none = false
has_team (some s) = is_some s.team_id

same_team : (s x : ProblemSet) → some s ≡ some x → is_some s.team_id ≡ is_some x.team_id
unfolding has_team
same_team s x h = ap has_team h

visibility-Constraints :
    (db : SpaceDb) (sid : ℕ) (s : ProblemSet) (v : SetVisibility)
    → Constraints db
    → Found db sid s
    → Gives Constraints (change_visibility db sid s v)
unfolding change_visibility
visibility-Constraints db sid s v c found = elim (Bool-cases (same_visibility v s.visibility)) [
  | inl e ↦ rw e (ok-Gives _ db c)
  | inr e ↦ rw e (
      refuse_if-Gives _ (is_some s.team_id) Code.param_format_invalid _ λ site.
        refuse_if-Gives _ (not (is_site_visibility v)) Code.param_format_invalid _ λ good.
          ok-Gives _ _ (
            set_in-Fits sid (λ x. record x { visibility = v }) db.sets
                (λ x found' fits. ground (arith, same_team s x (sym found ∙ found'), site, good))
                c.0,
            c.1,
          ))
]

archived-Fits :
    (sid : ℕ) (ss : List ProblemSet)
    → All Fits ss
    → All Fits (set_in sid (λ x. record x { status = SetStatus.archived }) ss)
archived-Fits sid ss c =
    set_in-Fits sid (λ x. record x { status = SetStatus.archived }) ss (λ s found fits. fits) c

pub create_set-Constraints :
    (db : SpaceDb) (new u : ℕ) (v : SetVisibility)
    → Constraints db
    → Gives Constraints (create_set db new u v)
unfolding create_set
create_set-Constraints db new u v c =
    refuse_if-Gives _ (not (is_site_visibility v)) Code.param_format_invalid _ λ good.
      refuse_if-Gives _ (not (is_set_manager (grants_of db) u)) Code.auth_forbidden _
        λ a. ok-Gives _ _ (All-append Fits db.sets _ c.0 (ground (arith, good), tt), c.1)

pub update_set-Constraints :
    (db : SpaceDb) (sid u : ℕ) (v : Option SetVisibility)
    → Constraints db
    → Gives Constraints (update_set db sid u v)
unfolding update_set
update_set-Constraints db sid u none c =
    bind-Gives _ (require_set_manage db sid u) _ λ s found. ok-Gives _ db c
update_set-Constraints db sid u (some v) c =
    refuse_if-Gives _ (not (is_site_visibility v)) Code.param_format_invalid _ λ good.
      bind-Gives _ (require_set_manage db sid u) _ λ s found. visibility-Constraints db sid s v c (
        given (Found db sid) (require_set_manage db sid u) s (require_set_manage-Found db sid u)
          found)

pub archive_set-Constraints :
    (db : SpaceDb) (sid u : ℕ) → Constraints db → Gives Constraints (archive_set db sid u)
unfolding archive_set
archive_set-Constraints db sid u c =
    bind-Gives _ (require_set_manage db sid u) _
      λ s found. ok-Gives _ _ (archived-Fits sid db.sets c.0, c.1)

arrange-Constraints :
    (q : _) (db : SpaceDb) (s : ProblemSet) (u : ℕ) (items : List ItemIn)
    → Constraints db
    → Gives Constraints (arrange q db s u items)
unfolding arrange
arrange-Constraints q db s u items c =
    refuse_if-Gives _ (has_duplicates [] items) Code.resource_duplicate _ λ once.
      refuse_if-Gives _ (not (all_found q db.problems.problems items)) Code.param_format_invalid _
        λ found. ok-Gives _ _ (
          unfold replace_items in c.0,
          replace_items-Apart s.id u (rows_of s.id u items) db c.1
              (rows_of-Apart s.id u [] items once) (rows_of-OfSet s.id u items),
        )

pub replace_set_items-Constraints :
    (db : SpaceDb) (sid u : ℕ) (items : List ItemIn)
    → Constraints db
    → Gives Constraints (replace_set_items db sid u items)
unfolding replace_set_items
replace_set_items-Constraints db sid u items c =
    bind-Gives _ (require_set_manage db sid u) _ λ s found.
      arrange-Constraints (is_accessible u (is_admin (grants_of db) u) s.team_id) db s u items c

added_set :
    (db : SpaceDb) (new u t : ℕ) (v : SetVisibility) (r : Option ℕ)
    → not (is_team_set_visibility v) ≡ false
    → All Fits db.sets
    → All Fits (with_set (team_set new u t v r) db).sets
added_set db new u t v r good c = All-append Fits db.sets _ c (ground (arith, good), tt)

copy-Constraints :
    (db : SpaceDb) (new now u t : ℕ) (v : SetVisibility) (source : Option ProblemSet)
    → not (is_team_set_visibility v) ≡ false
    → Constraints db
    → Gives Constraints (elim source [
      | none ↦ err Code.resource_not_found
      | some s ↦
          refuse_if (is_some s.team_id) Code.param_format_invalid
          >> (refuse_if (not (is_active_set s.status)) Code.resource_state_conflict
              >> (refuse_if
                    (not (is_admin (grants_of db) u || (s.owner_id == u)))
                    Code.auth_forbidden
                  >> ok (
                      replace_items new
                        (copied_items db s.id new u db.items)
                        u
                        (with_set (team_set new u t v (some now)) db))))
    ])
copy-Constraints db new now u t v none good c = err-Gives _ _
copy-Constraints db new now u t v (some s) good c =
    refuse_if-Gives _ (is_some s.team_id) Code.param_format_invalid _ λ a.
      refuse_if-Gives _ (not (is_active_set s.status)) Code.resource_state_conflict _ λ b.
        refuse_if-Gives _ (not (is_admin (grants_of db) u || (s.owner_id == u))) Code.auth_forbidden
          _
          λ d. ok-Gives _ _ (
            unfold replace_items in added_set db new u t v (some now) good c.0,
            replace_items-Apart new u (copied_items db s.id new u db.items)
                (with_set (team_set new u t v (some now)) db) c.1
                (copied_items-Apart db s.id new u db.items c.1)
                (copied_items-OfSet db s.id new u db.items),
          )

pub create_problem_set-Constraints :
    (db : SpaceDb) (new now u t : ℕ) (v : SetVisibility) (from : Option ℕ)
    → Constraints db
    → Gives Constraints (create_problem_set db new now u t v from)
unfolding create_problem_set require_level
create_problem_set-Constraints db new now u t v none c =
    refuse_if-Gives _ (not (is_team_set_visibility v)) Code.param_format_invalid _ λ good.
      refuse_if-Gives _ (not (has_team_roles (grants_of db) u t TeamLevel.admin))
        Code.auth_forbidden _ λ a. ok-Gives _ _ (added_set db new u t v none good c.0, c.1)
create_problem_set-Constraints db new now u t v (some from) c =
    refuse_if-Gives _ (not (is_team_set_visibility v)) Code.param_format_invalid _ λ good.
      refuse_if-Gives _ (not (has_team_roles (grants_of db) u t TeamLevel.admin))
        Code.auth_forbidden _ λ a. copy-Constraints db new now u t v (find_set from db) good c

pub replace_team_items-Constraints :
    (db : SpaceDb) (u t sid : ℕ) (items : List ItemIn)
    → Constraints db
    → Gives Constraints (replace_team_items db u t sid items)
unfolding replace_team_items require_level
replace_team_items-Constraints db u t sid items c =
    refuse_if-Gives _ (not (has_team_roles (grants_of db) u t TeamLevel.admin)) Code.auth_forbidden
      _
      λ a.
        bind-Gives _ (team_set_or_404 db t sid) _
          λ s found. arrange-Constraints (is_accessible u false (some t)) db s u items c

pub archive_team_set-Constraints :
    (db : SpaceDb) (u t sid : ℕ) → Constraints db → Gives Constraints (archive_team_set db u t sid)
unfolding archive_team_set require_level
archive_team_set-Constraints db u t sid c =
    refuse_if-Gives _ (not (has_team_roles (grants_of db) u t TeamLevel.admin)) Code.auth_forbidden
      _
      λ a.
        bind-Gives _ (team_set_or_404 db t sid) _
          λ s found. ok-Gives _ _ (archived-Fits sid db.sets c.0, c.1)
