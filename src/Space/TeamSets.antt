-- ===== src/Space/TeamSets.antt =====
-- The problem sets of a team, and the gate of its contests: services/team_space.py.
use Prim.Native.String.{String}
use pigeon_oj.Base.{
  ℕ, Bool, true, false, not, ◌&&◌, ◌||◌, Option, none, some, List, [], ◌∷◌, ◌++◌, any, is_some,
  opt_eq, ◌==◌, if◌then◌else◌, Code, Result, ok, err, ◌>>=◌, ◌>>◌, refuse_if,
}
use pigeon_oj.Model.{Problem, Submission, Contest, is_admin}
use pigeon_oj.Problems.{find_problem}
use pigeon_oj.Team.{TeamLevel}
use pigeon_oj.Contest.{ContestDb, get_contest}
use pigeon_oj.Space.{
  SetStatus, SetVisibility, ProblemSet, SetItem, SpaceDb, grants_of, is_published_status,
  is_active_set, is_admin_visible_set, has_team_roles, require_level,
}
use pigeon_oj.Space.Submitting.{get_problem_detail, create}
use pigeon_oj.Space.Sets.{
  find_set, has_item, set_in, set_set, replace_items, ItemIn, is_accessible, arrange,
}

-- _team_set_or_404
unfoldable pub team_set_or_404 : SpaceDb → ℕ → ℕ → Result ProblemSet
unfolding find_set
team_set_or_404 db t sid = elim (find_set sid db) [
  | none ↦ err Code.resource_not_found
  | some s ↦ if opt_eq s.team_id (some t) then ok s else err Code.resource_not_found
]

-- _require_set_visible
unfoldable pub require_set_visible : SpaceDb → ℕ → ℕ → ProblemSet → Result (Unit {0})
unfolding has_team_roles
require_set_visible db u t s =
    refuse_if
      (is_admin_visible_set s.visibility && not (has_team_roles (grants_of db) u t TeamLevel.admin))
      Code.auth_forbidden

-- the gates of a problem in a set of the team
unfoldable pub enter_set : SpaceDb → ℕ → ℕ → ℕ → ℕ → Result ProblemSet
unfolding require_level team_set_or_404 require_set_visible has_item
enter_set db u t sid pid =
    require_level TeamLevel.member db u t
    >> (team_set_or_404 db t sid >>= λ s.
        require_set_visible db u t s
        >> (refuse_if (not (has_item s.id pid db)) Code.resource_not_found >> ok s))

-- get_set_problem_detail
unfoldable pub team_set_problem_detail : SpaceDb → ℕ → ℕ → ℕ → ℕ → Result Problem
unfolding enter_set get_problem_detail
team_set_problem_detail db u t sid pid =
    enter_set db u t sid pid >>= λ s. get_problem_detail db.problems (some u) pid true

abbrev pub published_or_refuse : Result Problem → Result (Unit {0})
published_or_refuse (err c) = err Code.auth_forbidden
published_or_refuse (ok p) = refuse_if (not (is_published_status p.status)) Code.auth_forbidden

-- create_set_submission
unfoldable pub create_set_submission :
    SpaceDb → ℕ → ℕ → ℕ → ℕ → ℕ → ℕ → String → String → Result Submission
unfolding enter_set create find_problem
create_set_submission db sub now u t sid pid language code = enter_set db u t sid pid >>= λ s.
    published_or_refuse (find_problem pid db.problems)
    >> create db.problems sub now u pid language code true

-- the visibilities that TeamProblemSetCreate accepts
abbrev pub is_team_set_visibility : SetVisibility → Bool
is_team_set_visibility SetVisibility.team_visible = true
is_team_set_visibility SetVisibility.admin_visible = true
is_team_set_visibility _ = false

abbrev pub team_set : ℕ → ℕ → ℕ → SetVisibility → Option ℕ → ProblemSet
team_set new u t visibility referenced = record {
  id = new;
  team_id = some t;
  owner_id = u;
  visibility = visibility;
  status = SetStatus.active;
  referenced_at = referenced;
}

abbrev pub with_set : ProblemSet → SpaceDb → SpaceDb
with_set s db = record db { sets = db.sets ++ s ∷ [] }

-- the items of list_items_with_problem, whose join drops an item without a problem, for a new set; their
-- order is of no consequence here
unfoldable pub copied_items : SpaceDb → ℕ → ℕ → ℕ → List SetItem → List SetItem
copied_items db source new u [] = []
copied_items db source new u (i ∷ is) =
    let rest = copied_items db source new u is in
    if (i.problem_set_id == source) && any (λ p. p.id == i.problem_id) db.problems.problems
    then record {
      problem_set_id = new;
      problem_id = i.problem_id;
      sort_order = i.sort_order;
      added_by = u;
    }
      ∷ rest
    else rest

-- create_problem_set
unfoldable pub create_problem_set :
    SpaceDb → ℕ → ℕ → ℕ → ℕ → SetVisibility → Option ℕ → Result SpaceDb
unfolding require_level find_set replace_items copied_items
create_problem_set db new now u t visibility none =
    refuse_if (not (is_team_set_visibility visibility)) Code.param_format_invalid
    >> (require_level TeamLevel.admin db u t >> ok (with_set (team_set new u t visibility none) db))
create_problem_set db new now u t visibility (some from) =
    refuse_if (not (is_team_set_visibility visibility)) Code.param_format_invalid
    >> (require_level TeamLevel.admin db u t >> elim (find_set from db) [
      | none ↦ err Code.resource_not_found
      | some source ↦
          refuse_if (is_some source.team_id) Code.param_format_invalid
          >> (refuse_if (not (is_active_set source.status)) Code.resource_state_conflict
              >> (refuse_if (not (is_admin (grants_of db) u || (source.owner_id == u)))
                    Code.auth_forbidden
                  >> ok (
                      replace_items new (copied_items db source.id new u db.items) u
                        (with_set (team_set new u t visibility (some now)) db))))
    ])

-- replace_set_items; the WHERE clause of list_team_arrangeable is that of a set of the team
unfoldable pub replace_team_items : SpaceDb → ℕ → ℕ → ℕ → List ItemIn → Result SpaceDb
unfolding require_level team_set_or_404 arrange is_accessible
replace_team_items db u t sid items =
    require_level TeamLevel.admin db u t
    >> (team_set_or_404 db t sid >>= λ s. arrange (is_accessible u false (some t)) db s u items)

-- archive_problem_set
unfoldable pub archive_team_set : SpaceDb → ℕ → ℕ → ℕ → Result SpaceDb
unfolding require_level team_set_or_404 set_in
archive_team_set db u t sid =
    require_level TeamLevel.admin db u t
    >> (team_set_or_404 db t sid >>= λ s.
        ok (set_set sid (λ x. record x { status = SetStatus.archived }) db))

-- require_team_contest with _team_contest_or_404
unfoldable pub require_team_contest : SpaceDb → ContestDb → TeamLevel → ℕ → ℕ → ℕ → Result Contest
unfolding require_level
require_team_contest db contests level u t cid =
    require_level level db u t >> elim (get_contest cid contests) [
      | none ↦ err Code.resource_not_found
      | some c ↦ if opt_eq c.team_id (some t) then ok c else err Code.resource_not_found
    ]
