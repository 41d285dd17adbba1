-- ===== src/Space/Shared.antt =====
-- Where a problem of a team leaves the team.
use Prim.Native.String.{String}
use pigeon_oj.Base.{
  some-injective, ℕ, ◌≡◌, refl, sym, ◌∙◌, subst, Bool, true, false, not, ◌&&◌, some, List, [], ◌∷◌,
  ◌++◌, any, filter, find?, is_some, opt_eq, ◌==◌, ==-refl, arith, Bool-cases, inl, inr, Code, ok,
  err,
}
use pigeon_oj.Model.{Problem, SubmitType, is_admin}
use pigeon_oj.Problems.{ProblemDb, find_problem, can_manage_problem}
use pigeon_oj.Team.{TeamLevel}
use pigeon_oj.Space.{
  ProblemSet, SetItem, SpaceDb, grants_of, is_published_status, is_admin_visible_set,
  has_team_roles, require_level,
}
use pigeon_oj.Space.Submitting.{get_problem_detail, create, new_submission}
use pigeon_oj.Space.Sets.{
  find_set, has_item, ItemIn, has_duplicates, all_found, is_accessible, arrange, rows_of,
  replace_items,
}
use pigeon_oj.Space.TeamSets.{
  team_set_or_404, require_set_visible, enter_set, replace_team_items, team_set_problem_detail,
}
use pigeon_oj.Space.Snapshots.{found-new}

detail_refused :
    (db : ProblemDb) (u pid : ℕ) (p : Problem)
    → find_problem pid db ≡ ok p
    → is_some p.source_problem_id ≡ true
    → is_admin db.grants u ≡ false
    → get_problem_detail db (some u) pid false ≡ err Code.auth_forbidden
unfolding get_problem_detail
detail_refused db u pid p found source plain = rw (found, source, plain) refl

owner-manages :
    (db : ProblemDb) (u : ℕ) (p : Problem)
    → p.owner_id ≡ u
    → can_manage_problem db.grants u p ≡ true
unfolding can_manage_problem
owner-manages db u p h = ground (arith, h, ==-refl u)

-- The page of a problem that has been referenced into a team refuses the user who referenced it, if
-- that is no administrator, while a submission to it outside the team is taken from the same user,
-- and is stored as a practice submission.
pub owner_submits_unseen :
    (db : ProblemDb) (sid now u pid : ℕ) (language code : String) (p : Problem)
    → find_problem pid db ≡ ok p
    → is_some p.source_problem_id ≡ true
    → is_published_status p.status ≡ true
    → p.owner_id ≡ u
    → is_admin db.grants u ≡ false
    → (get_problem_detail db (some u) pid false ≡ err Code.auth_forbidden)
      × (create db sid now u pid language code false
          ≡ ok (new_submission sid now u pid language code SubmitType.practice))
unfolding create
owner_submits_unseen db sid now u pid language code p found source live mine plain = (
  detail_refused db u pid p found source plain,
  rw (found, live, owner-manages db u p mine) (ground arith),
)

head_found :
    (pid : ℕ) (x : Problem) (ps : List Problem)
    → (x.id == pid) ≡ true
    → find? (λ y. y.id == pid) (x ∷ ps) ≡ some x
head_found pid x ps e = rw e refl

tail_found :
    (pid : ℕ) (x : Problem) (ps : List Problem)
    → (x.id == pid) ≡ false
    → find? (λ y. y.id == pid) (x ∷ ps) ≡ find? (λ y. y.id == pid) ps
tail_found pid x ps e = rw e refl

any-found :
    (pid : ℕ) (q : Problem → Bool) (ps : List Problem) (p : Problem)
    → find? (λ x. x.id == pid) ps ≡ some p
    → q p ≡ true
    → any (λ x. (x.id == pid) && q x) ps ≡ true
any-found pid q [] p h k = cc
any-found pid q (x ∷ ps) p h k = elim (Bool-cases (x.id == pid)) [
  | inl e ↦
      let same : x ≡ p = some-injective x p (sym (head_found pid x ps e) ∙ h) in
      ground (arith, e, subst (λ y. q y ≡ true) (sym same) k)
  | inr e ↦ ground (arith, e, any-found pid q ps p (sym (tail_found pid x ps e) ∙ h) k)
]

any-last :
    (q : SetItem → Bool) (is : List SetItem) (i : SetItem)
    → q i ≡ true
    → any q (is ++ i ∷ []) ≡ true
any-last q [] i h = ground (arith, h)
any-last q (j ∷ is) i h = ground (arith, any-last q is i h)

-- the set that holds a single problem
abbrev pub one_item : ℕ → List ItemIn
one_item pid = record { problem_id = pid; sort_order = 0 } ∷ []

arranged :
    (q : Problem → Bool) (db : SpaceDb) (s : ProblemSet) (u pid : ℕ) (p : Problem)
    → find? (λ x. x.id == pid) db.problems.problems ≡ some p
    → q p ≡ true
    → arrange q db s u (one_item pid) ≡ ok (replace_items s.id (rows_of s.id u (one_item pid)) u db)
unfolding arrange has_duplicates all_found
arranged q db s u pid p found good = rw (any-found pid q db.problems.problems p found good) refl

team_set_found :
    (db : SpaceDb) (t sid : ℕ) (s : ProblemSet)
    → find_set sid db ≡ some s
    → opt_eq s.team_id (some t) ≡ true
    → team_set_or_404 db t sid ≡ ok s
unfolding team_set_or_404
team_set_found db t sid s found mine = rw (found, team_set_or_404, mine) refl

entered :
    (db : SpaceDb) (v t sid pid : ℕ) (s : ProblemSet)
    → has_team_roles (grants_of db) v t TeamLevel.member ≡ true
    → team_set_or_404 db t sid ≡ ok s
    → is_admin_visible_set s.visibility ≡ false
    → has_item s.id pid db ≡ true
    → enter_set db v t sid pid ≡ ok s
unfolding enter_set require_level require_set_visible
entered db v t sid pid s inside found open_set item = rw (inside, found, open_set, item) refl

shown_published :
    (db : ProblemDb) (v pid : ℕ) (p : Problem)
    → find_problem pid db ≡ ok p
    → is_published_status p.status ≡ true
    → get_problem_detail db (some v) pid true ≡ ok p
unfolding get_problem_detail
shown_published db v pid p found live = rw (found, live) (ground arith)

accessible :
    (u t : ℕ) (p : Problem)
    → is_published_status p.status ≡ true
    → p.owner_id ≡ u
    → is_accessible u false (some t) p ≡ true
unfolding is_accessible
accessible u t p live mine = ground (arith, live, mine, ==-refl u)

has_item-replaced :
    (db : SpaceDb) (sid u pid : ℕ)
    → has_item sid pid (replace_items sid (rows_of sid u (one_item pid)) u db) ≡ true
unfolding has_item replace_items
has_item-replaced db sid u pid =
    any-last (λ i. (i.problem_set_id == sid) && (i.problem_id == pid))
      (filter (λ i. not (i.problem_set_id == sid)) db.items) _
      (ground (arith, ==-refl sid, ==-refl pid))

-- A manager of a team who owns a published problem, be it a problem of another team, can put it into a set of
-- the team that its members see, and then every member of the team is shown the problem.
pub set_shares_problem :
    (db : SpaceDb) (u v t sid pid : ℕ) (s : ProblemSet) (p : Problem)
    → find? (λ x. x.id == pid) db.problems.problems ≡ some p
    → is_published_status p.status ≡ true
    → p.owner_id ≡ u
    → find_set sid db ≡ some s
    → opt_eq s.team_id (some t) ≡ true
    → is_admin_visible_set s.visibility ≡ false
    → has_team_roles (grants_of db) u t TeamLevel.admin ≡ true
    → has_team_roles (grants_of db) v t TeamLevel.member ≡ true
    → (after : SpaceDb) × (replace_team_items db u t sid (one_item pid) ≡ ok after)
      × (team_set_problem_detail after v t sid pid ≡ ok p)
unfolding replace_team_items team_set_problem_detail require_level
set_shares_problem db u v t sid pid s p there live mine set of_team open_set manager member =
    let after : SpaceDb = replace_items s.id (rows_of s.id u (one_item pid)) u db in
    let good : is_accessible u false (some t) p ≡ true = accessible u t p live mine in
    let found : team_set_or_404 db t sid ≡ ok s = team_set_found db t sid s set of_team in
    let found_after : team_set_or_404 after t sid ≡ ok s = unfold replace_items in found in
    let item : has_item s.id pid after ≡ true = has_item-replaced db s.id u pid in
    let inside : enter_set after v t sid pid ≡ ok s =
      entered after v t sid pid s (unfold replace_items in member) found_after open_set item in
    (
      after,
      rw (manager, found) (arranged (is_accessible u false (some t)) db s u pid p there good),
      rw inside (
          shown_published after.problems v pid p
            (unfold replace_items in found-new pid db.problems p there) live),
    )
