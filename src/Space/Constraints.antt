-- ===== src/Space/Constraints.antt =====
-- The constraints of the tables of problem sets, through any sequence of requests.
use pigeon_oj.Base.{ℕ, ◌≡◌, sym, subst, true, Option, List, All, Pairs, ok, given}
use pigeon_oj.Model.{ProblemVisibility}
use pigeon_oj.Space.{SetVisibility, SpaceDb}
use pigeon_oj.Space.Sets.{create_set, update_set, archive_set, ItemIn, replace_set_items}
use pigeon_oj.Space.TeamSets.{create_problem_set, replace_team_items, archive_team_set}
use pigeon_oj.Space.References.{reference_problem}
use pigeon_oj.Space.Items.{fits_owner, apart, Constraints}
use pigeon_oj.Space.Snapshots.{reference_problem-SameSets}
use pigeon_oj.Space.Changes.{
  archive_set-Constraints, archive_team_set-Constraints, create_problem_set-Constraints,
  create_set-Constraints, replace_set_items-Constraints, replace_team_items-Constraints,
  update_set-Constraints,
}

-- a request that changes the problem sets, or adds a problem to a team
pub data Request (db after : SpaceDb) : Type 0 where
  creates : (new u : ℕ) (v : SetVisibility) → create_set db new u v ≡ ok after → Request db after
  updates :
      (sid u : ℕ) (v : Option SetVisibility) → update_set db sid u v ≡ ok after → Request db after
  archives : (sid u : ℕ) → archive_set db sid u ≡ ok after → Request db after
  arranges :
      (sid u : ℕ) (items : List ItemIn)
      → replace_set_items db sid u items ≡ ok after
      → Request db after
  creates_in_team :
      (new now u t : ℕ) (v : SetVisibility) (from : Option ℕ)
      → create_problem_set db new now u t v from ≡ ok after
      → Request db after
  arranges_in_team :
      (u t sid : ℕ) (items : List ItemIn)
      → replace_team_items db u t sid items ≡ ok after
      → Request db after
  archives_in_team : (u t sid : ℕ) → archive_team_set db u t sid ≡ ok after → Request db after
  references :
      (rows : List ℕ) (new next u t pid : ℕ) (v : ProblemVisibility)
      → reference_problem db rows new next u t pid v ≡ ok after
      → Request db after

pub data Requests : SpaceDb → SpaceDb → Type 0 where
  none_yet : (db : SpaceDb) → Requests db db
  then :
      (db between after : SpaceDb) → Requests db between → Request between after → Requests db after

one_more-Constraints : (db after : SpaceDb) → Request db after → Constraints db → Constraints after
one_more-Constraints db after (Request.creates new u v h) c =
    given Constraints (create_set db new u v) after (create_set-Constraints db new u v c) h
one_more-Constraints db after (Request.updates sid u v h) c =
    given Constraints (update_set db sid u v) after (update_set-Constraints db sid u v c) h
one_more-Constraints db after (Request.archives sid u h) c =
    given Constraints (archive_set db sid u) after (archive_set-Constraints db sid u c) h
one_more-Constraints db after (Request.arranges sid u items h) c =
    given Constraints (replace_set_items db sid u items) after
      (replace_set_items-Constraints db sid u items c) h
one_more-Constraints db after (Request.creates_in_team new now u t v from h) c =
    given Constraints (create_problem_set db new now u t v from) after
      (create_problem_set-Constraints db new now u t v from c) h
one_more-Constraints db after (Request.arranges_in_team u t sid items h) c =
    given Constraints (replace_team_items db u t sid items) after
      (replace_team_items-Constraints db u t sid items c) h
one_more-Constraints db after (Request.archives_in_team u t sid h) c =
    given Constraints (archive_team_set db u t sid) after
      (archive_team_set-Constraints db u t sid c) h
one_more-Constraints db after (Request.references rows new next u t pid v h) c =
    let same =
      given _ (reference_problem db rows new next u t pid v) after
        (reference_problem-SameSets db rows new next u t pid v) h in
    (
      subst (λ ss. All (λ s. fits_owner s ≡ true) ss) (sym same.0) c.0,
      subst (λ is. Pairs (λ i j. apart i j ≡ true) is) (sym same.1) c.1,
    )

-- The constraints of the tables of problem sets hold after any sequence of requests if they hold before: a set of
-- a team is visible in its team or to its managers, any other set is public or private, and no problem stands
-- twice in a set, also not in a set that is copied into a team.
pub sets_stay_sound : (db after : SpaceDb) → Requests db after → Constraints db → Constraints after
sets_stay_sound db after (Requests.none_yet d) c = c
sets_stay_sound db after (Requests.then d between a past r) c =
    one_more-Constraints between after r (sets_stay_sound db between past c)
