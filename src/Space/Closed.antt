-- ===== src/Space/Closed.antt =====
-- A problem that is not public is closed to those who do not manage it and are not in its team.
use Prim.Native.String.{String}
use pigeon_oj.Base.{
  ℕ, ◌≡◌, sym, ◌∙◌, subst, Bool, true, false, not, ◌&&◌, ◌||◌, Option, none, some, is_some, opt_eq,
  ◌==◌, if◌then◌else◌, arith, Code, Result, ok, err, ok-injective, Gives, refuse_if-Gives,
  bind-Gives, ok-Gives, err-Gives, given, Gives-map, ==→eq,
}
use pigeon_oj.Model.{Problem, Submission, is_admin, is_public_problem}
use pigeon_oj.Problems.{find_problem, can_manage_problem}
use pigeon_oj.Judge.{SandboxConfig, disabled}
use pigeon_oj.Team.{TeamLevel}
use pigeon_oj.Space.{SpaceDb, grants_of, is_published_status, has_team_roles, require_level}
use pigeon_oj.Space.Submitting.{manages, is_admin_viewer, get_problem_detail, create, create_order}
use pigeon_oj.Space.Teams.{
  team_problem_or_404, hidden_from, team_problem_detail, create_problem_submission,
}

-- The requests by which a user gets to a problem, other than through a problem set or a contest: its page, a
-- submission, a self test, and the page and a submission in the space of a team.
pub data Reach (db : SpaceDb) (u : ℕ) : Problem → Type 0 where
  sees :
      (p : Problem) (pid : ℕ)
      → get_problem_detail db.problems (some u) pid false ≡ ok p
      → Reach db u p
  submits :
      (p : Problem) (pid sid now : ℕ) (language code : String) (s : Submission)
      → find_problem pid db.problems ≡ ok p
      → create db.problems sid now u pid language code false ≡ ok s
      → Reach db u p
  tests :
      (p : Problem) (pid : ℕ) (config : Option SandboxConfig)
      → create_order db.problems config u pid false ≡ ok p
      → Reach db u p
  sees_in_team : (p : Problem) (t pid : ℕ) → team_problem_detail db u t pid ≡ ok p → Reach db u p
  submits_in_team :
      (p : Problem) (t pid sid now : ℕ) (language code : String) (s : Submission)
      → find_problem pid db.problems ≡ ok p
      → create_problem_submission db sid now u t pid language code ≡ ok s
      → Reach db u p

-- the user is in the team of the problem
abbrev pub in_its_team : SpaceDb → ℕ → Option ℕ → Bool
in_its_team db u none = false
in_its_team db u (some t) = has_team_roles (grants_of db) u t TeamLevel.member

abbrev pub allowed : SpaceDb → ℕ → Problem → Bool
allowed db u p = can_manage_problem (grants_of db) u p || in_its_team db u p.team_id

-- a problem that is not public
abbrev Guarded : SpaceDb → ℕ → Problem → Type 0
Guarded db u p = is_public_problem p.visibility ≡ false → allowed db u p ≡ true

detail-Guarded :
    (db : SpaceDb) (u pid : ℕ)
    → Gives (Guarded db u) (get_problem_detail db.problems (some u) pid false)
unfolding get_problem_detail
detail-Guarded db u pid = bind-Gives _ (find_problem pid db.problems) _ λ p found.
    refuse_if-Gives _
      (is_some p.source_problem_id && (not false && not (is_admin_viewer (grants_of db) (some u))))
      Code.auth_forbidden _
      λ a.
        refuse_if-Gives _
          (not (manages (grants_of db) (some u) p) && not (is_published_status p.status))
          Code.auth_forbidden _
          λ b.
            refuse_if-Gives _
              (not false
                && (not (manages (grants_of db) (some u) p)
                    && not (is_public_problem p.visibility)))
              Code.auth_forbidden _ λ c. ok-Gives _ p λ closed. ground (arith, c, closed)

-- what holds of the problem that an id names
abbrev Named : SpaceDb → ℕ → ℕ → Type 0
Named db u pid = (p : Problem) → find_problem pid db.problems ≡ ok p → Guarded db u p

named :
    (db : SpaceDb) (u pid : ℕ) (p : Problem)
    → find_problem pid db.problems ≡ ok p
    → Guarded db u p
    → Named db u pid
named db u pid p found h q found' = subst (Guarded db u) (ok-injective p q (sym found ∙ found')) h

create-Guarded :
    (db : SpaceDb) (sid now u pid : ℕ) (language code : String)
    → Gives (λ _. Named db u pid) (create db.problems sid now u pid language code false)
unfolding create
create-Guarded db sid now u pid language code =
    bind-Gives _ (find_problem pid db.problems) _ λ p found.
      refuse_if-Gives _ (not (is_published_status p.status)) Code.auth_forbidden _ λ a.
        refuse_if-Gives _
          (not false
            && (not (is_public_problem p.visibility)
                && not (can_manage_problem (grants_of db) u p)))
          Code.auth_forbidden _
          λ b. ok-Gives _ _ (named db u pid p found λ closed. ground (arith, b, closed))

order-Guarded :
    (db : SpaceDb) (config : Option SandboxConfig) (u pid : ℕ)
    → Gives (Guarded db u) (create_order db.problems config u pid false)
unfolding create_order
order-Guarded db config u pid = bind-Gives _ (find_problem pid db.problems) _ λ p found.
    refuse_if-Gives _
      (not (is_published_status p.status) && not (can_manage_problem (grants_of db) u p))
      Code.auth_forbidden _
      λ a.
        refuse_if-Gives _
          (not false
            && (not (is_public_problem p.visibility)
                && not (can_manage_problem (grants_of db) u p)))
          Code.auth_forbidden _
          λ b.
            refuse_if-Gives _ (not (is_some config) || disabled config) Code.param_format_invalid _
              λ c. ok-Gives _ p λ closed. ground (arith, b, closed)

in_team :
    (db : SpaceDb) (u t : ℕ) (o : Option ℕ)
    → opt_eq o (some t) ≡ true
    → has_team_roles (grants_of db) u t TeamLevel.member ≡ true
    → in_its_team db u o ≡ true
in_team db u t none h k = cc
in_team db u t (some x) h k =
    subst (λ y. has_team_roles (grants_of db) u y TeamLevel.member ≡ true) (sym (==→eq x t h)) k

-- a problem of the team, by its id
abbrev OfTeam : SpaceDb → ℕ → ℕ → Problem → Type 0
OfTeam db t pid p = (opt_eq p.team_id (some t) ≡ true) × (find_problem pid db.problems ≡ ok p)

team_problem-OfTeam :
    (db : SpaceDb) (t pid : ℕ) → Gives (OfTeam db t pid) (team_problem_or_404 db t pid)
unfolding team_problem_or_404
team_problem-OfTeam db t pid = bind-Gives _ (find_problem pid db.problems) _ λ p found.
    refuse_if-Gives _ (not (opt_eq p.team_id (some t))) Code.resource_not_found _
      λ a. ok-Gives _ p (ground (arith, a), found)

shown-found :
    (db : SpaceDb) (u pid : ℕ)
    → Gives
        (λ q. find_problem pid db.problems ≡ ok q)
        (get_problem_detail db.problems (some u) pid true)
unfolding get_problem_detail
shown-found db u pid = bind-Gives _ (find_problem pid db.problems) _ λ p found.
    refuse_if-Gives _
      (is_some p.source_problem_id && (not true && not (is_admin_viewer (grants_of db) (some u))))
      Code.auth_forbidden _
      λ a.
        refuse_if-Gives _
          (not (manages (grants_of db) (some u) p) && not (is_published_status p.status))
          Code.auth_forbidden _
          λ b.
            refuse_if-Gives _
              (not true
                && (not (manages (grants_of db) (some u) p)
                    && not (is_public_problem p.visibility)))
              Code.auth_forbidden _ λ c. ok-Gives _ p found

member-Guarded :
    (db : SpaceDb) (u t pid : ℕ) (p : Problem)
    → not (has_team_roles (grants_of db) u t TeamLevel.member) ≡ false
    → team_problem_or_404 db t pid ≡ ok p
    → Named db u pid
member-Guarded db u t pid p enters found =
    let of_team : OfTeam db t pid p =
      given (OfTeam db t pid) (team_problem_or_404 db t pid) p (team_problem-OfTeam db t pid)
        found in
    let inside : in_its_team db u p.team_id ≡ true =
      in_team db u t p.team_id of_team.0 (ground (arith, enters)) in
    named db u pid p of_team.1 λ closed. ground (arith, inside)

team_detail-Guarded :
    (db : SpaceDb) (u t pid : ℕ) → Gives (Guarded db u) (team_problem_detail db u t pid)
unfolding team_problem_detail require_level
team_detail-Guarded db u t pid =
    refuse_if-Gives _ (not (has_team_roles (grants_of db) u t TeamLevel.member)) Code.auth_forbidden
      _
      λ enters. bind-Gives _ (team_problem_or_404 db t pid) _ λ p found.
        refuse_if-Gives _
          (if is_published_status p.status
            then hidden_from db u t p
            else not (is_admin (grants_of db) u || (p.owner_id == u)))
          Code.auth_forbidden _
          λ a.
            Gives-map _ _ (get_problem_detail db.problems (some u) pid true)
              (member-Guarded db u t pid p enters found) (shown-found db u pid)

any_result : {A : Type 0} (m : Result A) → Gives (λ _. Unit {0}) m
any_result (ok a) = ok-Gives _ a tt
any_result (err c) = err-Gives _ c

team_submission-Guarded :
    (db : SpaceDb) (sid now u t pid : ℕ) (language code : String)
    → Gives (λ _. Named db u pid) (create_problem_submission db sid now u t pid language code)
unfolding create_problem_submission require_level
team_submission-Guarded db sid now u t pid language code =
    refuse_if-Gives _ (not (has_team_roles (grants_of db) u t TeamLevel.member)) Code.auth_forbidden
      _
      λ enters. bind-Gives _ (team_problem_or_404 db t pid) _ λ p found.
        refuse_if-Gives _ (not (is_published_status p.status)) Code.auth_forbidden _ λ a.
          refuse_if-Gives _ (hidden_from db u t p) Code.auth_forbidden _ λ b.
            Gives-map (λ _. Unit) _ (create db.problems sid now u pid language code true)
              (λ s h. member-Guarded db u t pid p enters found) (any_result _)

-- Whoever gets to a problem that is not public, by its own page, a submission or a self test in the
-- catalogue, or by the page of the problem or a submission to it among the problems of a team, may
-- manage the problem, or has a role in the team of the problem.
pub closed_to_others :
    (db : SpaceDb) (u : ℕ) (p : Problem)
    → Reach db u p
    → is_public_problem p.visibility ≡ false
    → allowed db u p ≡ true
closed_to_others db u p (Reach.sees q pid h) =
    given (Guarded db u) (get_problem_detail db.problems (some u) pid false) p
      (detail-Guarded db u pid) h
closed_to_others db u p (Reach.submits q pid sid now language code s found h) =
    given (λ _. Named db u pid) (create db.problems sid now u pid language code false) s
      (create-Guarded db sid now u pid language code) h p found
closed_to_others db u p (Reach.tests q pid config h) =
    given (Guarded db u) (create_order db.problems config u pid false) p
      (order-Guarded db config u pid) h
closed_to_others db u p (Reach.sees_in_team q t pid h) =
    given (Guarded db u) (team_problem_detail db u t pid) p (team_detail-Guarded db u t pid) h
closed_to_others db u p (Reach.submits_in_team q t pid sid now language code s found h) =
    given (λ _. Named db u pid) (create_problem_submission db sid now u t pid language code) s
      (team_submission-Guarded db sid now u t pid language code) h p found
