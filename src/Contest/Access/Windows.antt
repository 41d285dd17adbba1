-- ===== src/Contest/Access/Windows.antt =====
-- The windows that a contest's detail announces against those that the endpoints enforce, and who gets
-- into a team's contest.
use pigeon_oj.Base.{
  ℕ, ◌<◌, ◌≡◌, refl, ltb, ◌≢◌, Bool, true, false, ◌&&◌, ◌||◌, Option, none, some, is_some, find?,
  arith, ◌==◌, ok, succeeds,
}
use Prim.Native.String.{String}
use pigeon_oj.Model.{
  RuleType, Contest, ContestType, Problem, Submission, SubmitType, is_admin, is_public_problem,
}
use pigeon_oj.Problems.{ProblemDb, find_problem}
use pigeon_oj.Space.{is_published_status}
use pigeon_oj.Space.Submitting.{new_submission, create_contest_submission}
use pigeon_oj.Contest.{ContestDb, get_contest, get_problem}
use pigeon_oj.Contest.Access.{
  Level, Detail, has_team_role, can_manage, find_contest, is_registered, ensure_submissions_visible,
  ensure_problems_visible, has_full_problem_access, open_problem, problem_tables, get_detail,
  submit_problem,
}

-- the problem is there, and published
abbrev pub published_problem : Option Problem → Bool
published_problem none = false
published_problem (some p) = is_published_status p.status

-- the port takes a submission to a published problem
created-published :
    (db : ProblemDb) (sid now u cid pid : ℕ) (language code : String) (after : Bool)
    (rule : RuleType)
    → succeeds (create_contest_submission db sid now u cid pid language code after rule)
      ≡ published_problem (find? (λ p. p.id == pid) db.problems)
unfolding create_contest_submission find_problem
created-published db sid now u cid pid language code after rule = ground arith

-- and makes this row
created-row :
    (db : ProblemDb) (sid now u cid pid : ℕ) (language code : String) (after : Bool)
    (rule : RuleType) (p : Problem)
    → find? (λ p. p.id == pid) db.problems ≡ some p
    → is_published_status p.status ≡ true
    → create_contest_submission db sid now u cid pid language code after rule
      ≡ ok (record (new_submission sid now u pid language code SubmitType.contest) {
        contest_id = some cid;
        rule_type = some rule;
        is_after_contest = after;
      })
unfolding create_contest_submission find_problem
created-row db sid now u cid pid language code after rule p found live = ground (arith, found, live)

-- the problem is arranged in the contest
abbrev pub arranged : ContestDb → Contest → ℕ → Bool
arranged db c pid =
    is_some (find? (λ cp. (cp.contest_id == c.id) && (cp.problem_id == pid)) db.contest_problems)

-- A contest that exists, its detail for a logged-in viewer, and a problem arranged in it that the
-- viewer may know of (by full access, or since it is public): the endpoint accepts a submission of
-- the viewer at that moment exactly when the detail says that the viewer can submit and the problem
-- is published.
pub can_submit_agrees :
    (db : ContestDb) (sid now cid u pid : ℕ) (language code : String) (c : Contest) (d : Detail)
    → get_contest cid db ≡ some c
    → get_detail db now cid (some u) ≡ ok d
    → arranged db c pid ≡ true
    → (has_full_problem_access db c u || open_problem (get_problem pid db)) ≡ true
    → succeeds (submit_problem db sid now cid u pid language code)
      ≡ (d.can_submit && published_problem (get_problem pid db))
unfolding get_detail submit_problem find_contest get_problem
can_submit_agrees db sid now cid u pid language code c d hc hd ha ho = ground (
  arith,
  hc,
  hd,
  ha,
  ho,
  created-published (problem_tables db) sid now u c.id pid language code (ltb c.end_time now)
      c.rule_type,
)

-- A contest that exists, and its detail for a logged-in viewer, at any moment but the very end of the
-- contest: the detail says that the viewer can see the problems exactly when the endpoint that lists them
-- lets the viewer in.
pub can_view_agrees :
    (db : ContestDb) (now cid u : ℕ) (c : Contest) (d : Detail)
    → get_contest cid db ≡ some c
    → get_detail db now cid (some u) ≡ ok d
    → now ≢ c.end_time
    → c.start_time < c.end_time
    → d.can_view_problems ≡ succeeds (ensure_problems_visible db now c u)
unfolding get_detail ensure_problems_visible find_contest
can_view_agrees db now cid u c d hc hd hn hs = ground (arith, hc, hd, hn, hs)

-- At the very end of a public contest, a viewer who is neither registered nor a manager is told by the
-- detail that the problems can be seen, and is refused by the endpoint that lists them.
pub end_of_contest_disagrees :
    (db : ContestDb) (cid u : ℕ) (c : Contest) (d : Detail)
    → get_contest cid db ≡ some c
    → c.contest_type ≡ ContestType.public
    → c.start_time < c.end_time
    → is_registered db c u ≡ false
    → can_manage db.grants (some u) c ≡ false
    → get_detail db c.end_time cid (some u) ≡ ok d
    → (d.can_view_problems ≡ true) × (succeeds (ensure_problems_visible db c.end_time c u) ≡ false)
unfolding get_detail ensure_problems_visible find_contest
end_of_contest_disagrees db cid u c d hc hp hs hr hm hd = ground (arith, hc, hp, hs, hr, hm, hd)

admin_level-member :
    (db : ContestDb) (u : ℕ) (t : Option ℕ)
    → has_team_role db.grants (some u) t Level.admin_level ≡ true
    → has_team_role db.grants (some u) t Level.member ≡ true
unfolding has_team_role
admin_level-member db u none h = h
admin_level-member db u (some t) h = ground (arith, h)

-- A contest of a team: whoever is let in to its problems or to its list of submissions, at any moment, is
-- an administrator of the site or holds a role in that team.
pub team_contest_is_closed :
    (db : ContestDb) (now u t : ℕ) (c : Contest)
    → c.contest_type ≡ ContestType.team
    → c.team_id ≡ some t
    → (succeeds (ensure_problems_visible db now c u)
        || succeeds (ensure_submissions_visible db now c u))
      ≡ true
    → (is_admin db.grants u || has_team_role db.grants (some u) (some t) Level.member) ≡ true
unfolding ensure_problems_visible ensure_submissions_visible
team_contest_is_closed db now u t c ht hi h =
    ground (arith, ht, hi, h, admin_level-member db u c.team_id)

-- A contest, a team's contest included, whose end has passed, and a public and published problem
-- that is arranged in it: the endpoint that submits accepts a submission of every user, whether or
-- not the user has a role in the team, stores it as one of the contest, and marks it as one made
-- after the contest.
pub anyone_submits_after_end :
    (db : ContestDb) (sid now cid u pid : ℕ) (language code : String) (c : Contest) (p : Problem)
    → get_contest cid db ≡ some c
    → c.start_time < c.end_time
    → c.end_time < now
    → arranged db c pid ≡ true
    → get_problem pid db ≡ some p
    → is_public_problem p.visibility ≡ true
    → is_published_status p.status ≡ true
    → (s : Submission) × (submit_problem db sid now cid u pid language code ≡ ok (s, true))
      × (s.contest_id ≡ some c.id)
      × (s.user_id ≡ u)
      × (s.is_after_contest ≡ true)
unfolding submit_problem find_contest get_problem
anyone_submits_after_end db sid now cid u pid language code c p hc hs hn ha hp ho hl = (
  record (new_submission sid now u pid language code SubmitType.contest) {
    contest_id = some c.id;
    rule_type = some c.rule_type;
    is_after_contest = true;
  },
  ground (
    arith,
    hc,
    hs,
    hn,
    ha,
    hp,
    ho,
    created-row (problem_tables db) sid now u c.id pid language code true c.rule_type p hp hl,
  ),
  refl,
  refl,
  refl,
)
