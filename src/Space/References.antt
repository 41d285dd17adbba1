-- ===== src/Space/References.antt =====
-- The snapshot of a problem that a team refers to: reference_problem of services/team_space.py, with
-- copy_test_cases of repositories/problem.py.
use pigeon_oj.Base.{
  ℕ, Bool, true, false, not, ◌&&◌, ◌||◌, Option, none, some, List, [], ◌∷◌, ◌++◌, ◌+◌, map, find?,
  any, is_some, opt_eq, ◌==◌, if◌then◌else◌, Code, Result, ok, ◌>>=◌, ◌>>◌, refuse_if,
}
use pigeon_oj.Model.{Problem, ProblemVisibility, is_admin}
use pigeon_oj.Problems.{ProblemDb, find_problem, is_nil}
use pigeon_oj.Team.{TeamLevel}
use pigeon_oj.Space.{SpaceDb, grants_of, is_published_status, require_level}

-- An id of a case, as the database driver returns it from a column of the type UUID or from a JSON list.
pub data CaseKey : Type 0 where
  uuid text : ℕ → CaseKey

-- `==` of Python, where a UUID and a text are never equal
abbrev pub same_case_key : CaseKey → CaseKey → Bool
same_case_key (CaseKey.uuid a) (CaseKey.uuid b) = a == b
same_case_key (CaseKey.text a) (CaseKey.text b) = a == b
same_case_key (CaseKey.uuid a) (CaseKey.text b) = false
same_case_key (CaseKey.text a) (CaseKey.uuid b) = false

-- `by_id.get(case_id)`
unfoldable pub row_of : CaseKey → List ℕ → Option ℕ
row_of key rows = find? (λ r. same_case_key (CaseKey.uuid r) key) rows

-- a case of the loop of copy_test_cases, with the rest of the loop from a next new id on
abbrev pub copy_row : Option ℕ → ℕ → (ℕ → List ℕ) → List ℕ
copy_row none next rest = rest next
copy_row (some r) next rest = next ∷ rest (next + 1)

-- the ids of the copies; `rows` are the ids of the rows that the query answers
unfoldable pub copy_ids : List ℕ → List CaseKey → ℕ → List ℕ
unfolding row_of
copy_ids rows [] next = []
copy_ids rows (k ∷ ks) next = copy_row (row_of k rows) next (copy_ids rows ks)

-- copy_test_cases; active_case_ids is a JSON list
unfoldable pub copy_test_cases : List ℕ → ℕ → Problem → Problem → Problem
unfolding copy_ids
copy_test_cases rows next source target =
    if is_nil source.active_case_ids then target else record target {
      active_case_ids = copy_ids rows (map CaseKey.text source.active_case_ids) next;
      cases_revision = 0;
    }

-- the row of reference_problem
unfoldable pub snapshot : ℕ → ℕ → ℕ → ProblemVisibility → Problem → Problem
snapshot new u t visibility source = record {
  id = new;
  owner_id = u;
  team_id = some t;
  visibility = visibility;
  status = source.status;
  time_limit_ms = source.time_limit_ms;
  memory_limit_mb = source.memory_limit_mb;
  active_case_ids = source.active_case_ids;
  pending_case_ids = none;
  spj_oss_id = none;
  pending_spj_oss_id = none;
  case_status = source.case_status;
  cases_revision = source.cases_revision;
  pending_verified = false;
  samples_updated_at = source.samples_updated_at;
  verified_by = source.verified_by;
  verified_at = source.verified_at;
  published_at = source.published_at;
  source_problem_id = some source.id;
}

-- `get_team_source(...)` finds one
unfoldable pub has_team_source : ℕ → ℕ → ProblemDb → Bool
has_team_source t source db =
    any (λ p. opt_eq p.team_id (some t) && opt_eq p.source_problem_id (some source)) db.problems

-- the visibilities that the request body accepts
abbrev pub is_team_visibility : ProblemVisibility → Bool
is_team_visibility ProblemVisibility.team_visible = true
is_team_visibility ProblemVisibility.admin_visible = true
is_team_visibility _ = false

abbrev pub with_problem : Problem → SpaceDb → SpaceDb
with_problem p db = record db {
  problems = record db.problems { problems = db.problems.problems ++ p ∷ [] };
}

-- reference_problem: `new` is the id of the problem, `next` that of its first case
unfoldable pub reference_problem :
    SpaceDb → List ℕ → ℕ → ℕ → ℕ → ℕ → ℕ → ProblemVisibility → Result SpaceDb
unfolding require_level find_problem has_team_source copy_test_cases snapshot
reference_problem db rows new next u t pid visibility =
    refuse_if (not (is_team_visibility visibility)) Code.param_format_invalid
    >> (require_level TeamLevel.admin db u t
        >> (find_problem pid db.problems >>= λ source.
            refuse_if (is_some source.team_id) Code.param_format_invalid
            >> (refuse_if (not (is_published_status source.status)) Code.resource_state_conflict
                >> (refuse_if (not (is_admin (grants_of db) u || (source.owner_id == u)))
                      Code.auth_forbidden
                    >> (refuse_if (has_team_source t source.id db.problems) Code.resource_duplicate
                        >> ok (
                            with_problem
                              (copy_test_cases rows next source
                                (snapshot new u t visibility source))
                              db))))))
