-- ===== src/Space/Sets.antt =====
-- Problem sets: services/problem_set.py and repositories/problem_set.py. The titles and descriptions are left
-- out.
use pigeon_oj.Base.{
  ℕ, Bool, true, false, not, ◌&&◌, ◌||◌, Option, none, some, List, [], ◌∷◌, ◌++◌, map, filter,
  find?, any, elem, is_some, opt_eq, ◌==◌, if◌then◌else◌, Code, Result, ok, err, ◌>>=◌, ◌>>◌,
  refuse_if,
}
use pigeon_oj.Model.{
  Problem, RoleCode, RoleGrant, global_role_codes, has_code, is_admin, is_public_problem,
}
use pigeon_oj.Team.{TeamLevel}
use pigeon_oj.Space.{
  SetStatus, SetVisibility, ProblemSet, SetItem, SpaceDb, grants_of, is_published_status,
  is_active_set, is_public_set, has_team_roles,
}
use pigeon_oj.Space.Submitting.{get_problem_detail}

-- ProblemSetRepository.get_by_id
unfoldable pub find_set : ℕ → SpaceDb → Option ProblemSet
find_set sid db = find? (λ s. s.id == sid) db.sets

-- `get_item(...) is not None`
unfoldable pub has_item : ℕ → ℕ → SpaceDb → Bool
has_item sid pid db = any (λ i. (i.problem_set_id == sid) && (i.problem_id == pid)) db.items

-- the flush of the row that was found under an id
unfoldable pub set_in : ℕ → (ProblemSet → ProblemSet) → List ProblemSet → List ProblemSet
set_in sid f [] = []
set_in sid f (s ∷ ss) = if s.id == sid then f s ∷ ss else s ∷ set_in sid f ss

abbrev pub set_set : ℕ → (ProblemSet → ProblemSet) → SpaceDb → SpaceDb
set_set sid f db = record db { sets = set_in sid f db.sets }

-- ProblemSetRepository.replace_items
unfoldable pub replace_items : ℕ → List SetItem → ℕ → SpaceDb → SpaceDb
replace_items sid new added_by db = record db {
  items =
      filter (λ i. not (i.problem_set_id == sid)) db.items
      ++ map (λ (i : SetItem). record i { added_by = added_by }) new;
}

-- _is_set_manager
unfoldable pub is_set_manager : List RoleGrant → ℕ → Bool
is_set_manager grants u =
    let codes = global_role_codes grants u in
    has_code RoleCode.admin codes || has_code RoleCode.tutor codes

abbrev pub manages_team : List RoleGrant → ℕ → TeamLevel → Option ℕ → Bool → Bool
manages_team grants u level none otherwise = otherwise
manages_team grants u level (some t) otherwise = has_team_roles grants u t level

-- _can_manage
unfoldable pub can_manage_set : List RoleGrant → Option ℕ → ProblemSet → Bool
unfolding has_team_roles
can_manage_set grants none s = false
can_manage_set grants (some u) s =
    if is_admin grants u
    then true
    else manages_team grants u TeamLevel.admin s.team_id (u == s.owner_id)

-- _team_member_of
unfoldable pub team_member_of : List RoleGrant → Option ℕ → ProblemSet → Bool
unfolding has_team_roles
team_member_of grants none s = false
team_member_of grants (some u) s = manages_team grants u TeamLevel.member s.team_id false

abbrev pub owns : Option ℕ → ProblemSet → Bool
owns none s = false
owns (some u) s = (u == s.owner_id)

-- _get_visible
unfoldable pub is_visible : List RoleGrant → Option ℕ → ProblemSet → Bool
unfolding can_manage_set team_member_of
is_visible grants viewer s =
    let may_manage = can_manage_set grants viewer s in
    if is_some s.team_id
    then team_member_of grants viewer s || (may_manage || owns viewer s)
    else (is_active_set s.status && (is_public_set s.visibility || (owns viewer s || may_manage)))
      || (may_manage || owns viewer s)

unfoldable pub get_visible : SpaceDb → ℕ → Option ℕ → Result ProblemSet
unfolding find_set is_visible
get_visible db sid viewer = elim (find_set sid db) [
  | none ↦ err Code.resource_not_found
  | some s ↦ if is_visible (grants_of db) viewer s then ok s else err Code.auth_forbidden
]

-- require_manage
unfoldable pub require_set_manage : SpaceDb → ℕ → ℕ → Result ProblemSet
unfolding find_set can_manage_set
require_set_manage db sid u = elim (find_set sid db) [
  | none ↦ err Code.resource_not_found
  | some s ↦ if can_manage_set (grants_of db) (some u) s then ok s else err Code.auth_forbidden
]

-- ensure_set_problem
unfoldable pub ensure_set_problem : SpaceDb → ℕ → ℕ → Option ℕ → Result ProblemSet
unfolding get_visible has_item
ensure_set_problem db sid pid viewer = get_visible db sid viewer >>= λ s.
    refuse_if (not (has_item s.id pid db)) Code.resource_not_found >> ok s

-- get_problem_detail
unfoldable pub get_set_problem : SpaceDb → ℕ → ℕ → Option ℕ → Result Problem
unfolding ensure_set_problem get_problem_detail
get_set_problem db sid pid viewer =
    ensure_set_problem db sid pid viewer >>= λ s. get_problem_detail db.problems viewer pid true

-- the visibilities that a set without a team may have: the validators of the request bodies
abbrev pub is_site_visibility : SetVisibility → Bool
is_site_visibility SetVisibility.public_ = true
is_site_visibility SetVisibility.private_ = true
is_site_visibility _ = false

-- create
unfoldable pub create_set : SpaceDb → ℕ → ℕ → SetVisibility → Result SpaceDb
unfolding is_set_manager
create_set db new u visibility =
    refuse_if (not (is_site_visibility visibility)) Code.param_format_invalid
    >> (refuse_if (not (is_set_manager (grants_of db) u)) Code.auth_forbidden
        >> ok (record db {
          sets =
              db.sets
              ++ record {
                id = new;
                team_id = none;
                owner_id = u;
                visibility = visibility;
                status = SetStatus.active;
                referenced_at = none;
              }
                ∷ [];
        }))

abbrev pub same_visibility : SetVisibility → SetVisibility → Bool
same_visibility SetVisibility.public_ SetVisibility.public_ = true
same_visibility SetVisibility.private_ SetVisibility.private_ = true
same_visibility SetVisibility.team_visible SetVisibility.team_visible = true
same_visibility SetVisibility.admin_visible SetVisibility.admin_visible = true
same_visibility _ _ = false

unfoldable pub change_visibility : SpaceDb → ℕ → ProblemSet → SetVisibility → Result SpaceDb
unfolding set_in
change_visibility db sid s v =
    if same_visibility v s.visibility
    then ok db
    else refuse_if (is_some s.team_id) Code.param_format_invalid
      >> (refuse_if (not (is_site_visibility v)) Code.param_format_invalid
          >> ok (set_set sid (λ x. record x { visibility = v }) db))

-- update, of the visibility
unfoldable pub update_set : SpaceDb → ℕ → ℕ → Option SetVisibility → Result SpaceDb
unfolding require_set_manage change_visibility
update_set db sid u none = require_set_manage db sid u >>= λ s. ok db
update_set db sid u (some v) =
    refuse_if (not (is_site_visibility v)) Code.param_format_invalid
    >> (require_set_manage db sid u >>= λ s. change_visibility db sid s v)

-- archive
unfoldable pub archive_set : SpaceDb → ℕ → ℕ → Result SpaceDb
unfolding require_set_manage set_in
archive_set db sid u = require_set_manage db sid u >>= λ s.
    ok (set_set sid (λ x. record x { status = SetStatus.archived }) db)

-- an item of a request to arrange a set
pub record ItemIn : Type 0 where
  pub problem_id : ℕ
  pub sort_order : ℕ

-- the loop over the items with `seen`
unfoldable pub has_duplicates : List ℕ → List ItemIn → Bool
has_duplicates seen [] = false
has_duplicates seen (i ∷ is) =
    let rest = has_duplicates (i.problem_id ∷ seen) is in
    if elem i.problem_id seen then true else rest

-- the WHERE clause of list_accessible_problems
abbrev pub in_team : Option ℕ → Problem → Bool
in_team none p = false
in_team (some t) p = opt_eq p.team_id (some t)

unfoldable pub is_accessible : ℕ → Bool → Option ℕ → Problem → Bool
is_accessible u see_all team p =
    is_published_status p.status
    && (if is_some team
        then is_public_problem p.visibility || ((p.owner_id == u) || in_team team p)
        else (see_all
            || (not (is_some p.team_id) && (is_public_problem p.visibility || (p.owner_id == u)))))

-- `missing`: a problem of the request that the query does not answer
unfoldable pub all_found : (Problem → Bool) → List Problem → List ItemIn → Bool
all_found q ps [] = true
all_found q ps (i ∷ is) = any (λ p. (p.id == i.problem_id) && q p) ps && all_found q ps is

abbrev pub rows_of : ℕ → ℕ → List ItemIn → List SetItem
rows_of sid u items =
    map
      (λ i. record {
        problem_set_id = sid;
        problem_id = i.problem_id;
        sort_order = i.sort_order;
        added_by = u;
      })
      items

-- replace_items of the service
unfoldable pub arrange : (Problem → Bool) → SpaceDb → ProblemSet → ℕ → List ItemIn → Result SpaceDb
unfolding has_duplicates all_found replace_items
arrange q db s u items =
    refuse_if (has_duplicates [] items) Code.resource_duplicate
    >> (refuse_if (not (all_found q db.problems.problems items)) Code.param_format_invalid
        >> ok (replace_items s.id (rows_of s.id u items) u db))

unfoldable pub replace_set_items : SpaceDb → ℕ → ℕ → List ItemIn → Result SpaceDb
unfolding require_set_manage arrange is_accessible
replace_set_items db sid u items = require_set_manage db sid u >>= λ s.
    arrange (is_accessible u (is_admin (grants_of db) u) s.team_id) db s u items
