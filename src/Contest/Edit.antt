-- ===== src/Contest/Edit.antt =====
-- Creating and editing a contest: `ContestService.create`, `update`, `create_team_contest`,
-- `_replace_problems`, `_validate_times`, `_validate_problem_ids` and `_letter`. The id of a new row is an
-- argument, and so is the patch as the request sent it: `none` is a field that was not sent, `some none`
-- an explicit null. Titles, descriptions and pictures are one flag, whether any of them was sent.
pub mod Letters
pub mod Scores
use pigeon_oj.Base.{
  ℕ, zero, suc, ◌+◌, ◌/◌, ◌%◌, Bool, true, false, not, ◌&&◌, ◌||◌, Option, none, some, List, [],
  ◌∷◌, ◌++◌, map, filter, length, elem, any, is_some, opt_eq, ltb, leb, ◌==◌, if◌then◌else◌, Code,
  Result, ok, err, ◌>>=◌, ◌>>◌, refuse_if,
}
use pigeon_oj.Model.{
  RuleType, ContestType, ContestStatus, Contest, ContestProblem, Problem, is_published,
  is_public_problem,
}
use pigeon_oj.Contest.{ContestDb}
use pigeon_oj.Contest.Access.{is_contest_manager, require_manage}
use pigeon_oj.Contest.Board.{distinct}

-- `str(n)` as code points; the number itself is fuel enough for its digits
unfoldable pub digits : ℕ → ℕ → List ℕ
digits zero n = (48 + n % 10) ∷ []
digits (suc fuel) n =
    let rest = digits fuel (n / 10) in
    if ltb n 10 then (48 + n) ∷ [] else rest ++ (48 + n % 10) ∷ []

unfoldable pub str : ℕ → List ℕ
unfolding digits
str n = digits n n

-- `_letter`
unfoldable pub letter : ℕ → List ℕ
unfolding str
letter index = (65 + index % 26) ∷ (if leb 26 index then str (index / 26) else [])

-- ContestProblemIn
pub record ProblemIn : Type 0 where
  pub problem_id : ℕ
  pub score : ℕ

-- ContestCreate
pub record ContestBody : Type 0 where
  pub rule_type : RuleType
  pub start_time : ℕ
  pub end_time : ℕ
  pub register_start_time : ℕ
  pub register_end_time : ℕ
  pub freeze_time : Option ℕ
  pub problems : List ProblemIn

-- ContestUpdate
pub record ContestPatch : Type 0 where
  pub texts_sent : Bool
  pub rule_type : Option (Option RuleType)
  pub start_time : Option (Option ℕ)
  pub end_time : Option (Option ℕ)
  pub register_start_time : Option (Option ℕ)
  pub register_end_time : Option (Option ℕ)
  pub freeze_time : Option (Option ℕ)
  pub problems : Option (Option (List ProblemIn))

-- the value of a field, where None is the default
abbrev pub sent_value {ℓ} : {A : Type ℓ} → Option (Option A) → Option A
sent_value none = none
sent_value (some v) = v

abbrev pub or_current {ℓ} : {A : Type ℓ} → Option A → A → A
or_current none a = a
or_current (some b) a = b

-- ContestService._validate_times
unfoldable pub validate_times : ℕ → ℕ → ℕ → ℕ → Result (Unit {0})
validate_times start end_ reg_start reg_end =
    refuse_if (leb end_ start) Code.param_format_invalid
    >> refuse_if (ltb reg_end reg_start) Code.param_format_invalid
    >> refuse_if (ltb end_ reg_end) Code.param_format_invalid

-- `freeze_at is not None and not (start < freeze_at <= end)`
abbrev pub bad_freeze : ℕ → ℕ → Option ℕ → Bool
bad_freeze start end_ none = false
bad_freeze start end_ (some f) = not (ltb start f && leb f end_)

-- the checks of `ContestCreate.check_times`, which run before the service does
unfoldable pub check_times : ContestBody → Result (Unit {0})
unfolding validate_times
check_times b =
    validate_times b.start_time b.end_time b.register_start_time b.register_end_time
    >> refuse_if (bad_freeze b.start_time b.end_time b.freeze_time) Code.param_format_invalid

-- the conditions of ContestRepository.list_arrangeable on a row
abbrev pub arrangeable : ℕ → Option ℕ → Problem → Bool
arrangeable u none p =
    is_published p.status
    && (not (is_some p.team_id) && (is_public_problem p.visibility || (p.owner_id == u)))
arrangeable u (some t) p =
    is_published p.status
    && (is_public_problem p.visibility || ((p.owner_id == u) || opt_eq p.team_id (some t)))

unfoldable pub list_arrangeable : ContestDb → ℕ → List ℕ → Option ℕ → List Problem
list_arrangeable db u ids team = filter (λ p. elem p.id ids && arrangeable u team p) db.problems

-- ContestService._validate_problem_ids
unfoldable pub validate_problem_ids : ContestDb → ℕ → List ℕ → Option ℕ → Result (Unit {0})
unfolding list_arrangeable distinct
validate_problem_ids db u ids team =
    let seen = distinct ids in
    refuse_if (not (length (list_arrangeable db u seen team) == length seen))
      Code.param_format_invalid

-- the score that `_replace_problems` stores, for the rule type it is given
unfoldable pub stored_score : Option RuleType → ℕ → ℕ
stored_score (some RuleType.ioi) score = if ltb 0 score then score else 100
stored_score (some RuleType.acm) score = 0
stored_score none score = 0

unfoldable pub problem_rows : ℕ → Option RuleType → ℕ → List ProblemIn → List ContestProblem
unfolding letter stored_score
problem_rows cid rule index [] = []
problem_rows cid rule index (item ∷ items) =
    record {
      contest_id = cid;
      problem_id = item.problem_id;
      letter = letter index;
      sort_order = index;
      score = stored_score rule item.score;
    }
    ∷ problem_rows cid rule (suc index) items

-- ContestService._replace_problems with ContestRepository.replace_problems
unfoldable pub replace_problems : ℕ → List ProblemIn → Option RuleType → ContestDb → ContestDb
unfolding problem_rows
replace_problems cid items rule db = record db {
  contest_problems =
      filter (λ cp. not (cp.contest_id == cid)) db.contest_problems
      ++ problem_rows cid rule 0 items;
}

unfoldable pub new_contest : ℕ → ℕ → ContestType → Option ℕ → ContestBody → Contest
new_contest cid u kind team b = record {
  id = cid;
  contest_type = kind;
  team_id = team;
  owner_id = u;
  rule_type = b.rule_type;
  start_time = b.start_time;
  end_time = b.end_time;
  register_start_time = b.register_start_time;
  register_end_time = b.register_end_time;
  freeze_time = b.freeze_time;
  board_frozen = false;
  frozen_at = none;
  status = ContestStatus.scheduled;
}

abbrev pub add_contest : Contest → ContestDb → ContestDb
add_contest c db = record db { contests = db.contests ++ c ∷ [] }

-- ContestService.create, behind the checks of its request
unfoldable pub create : ContestDb → ℕ → ℕ → ContestBody → Result ContestDb
unfolding check_times validate_times validate_problem_ids new_contest replace_problems
create db u cid b =
    check_times b
    >> refuse_if (not (is_contest_manager db.grants (some u))) Code.auth_forbidden
    >> validate_times b.start_time b.end_time b.register_start_time b.register_end_time
    >> validate_problem_ids db u (map (λ i. i.problem_id) b.problems) none
    >> ok (
        replace_problems cid b.problems (some b.rule_type)
          (add_contest (new_contest cid u ContestType.public none b) db))

-- ContestService.create_team_contest, behind the checks of its request
unfoldable pub create_team_contest : ContestDb → ℕ → ℕ → ℕ → ContestBody → Result ContestDb
unfolding check_times validate_times validate_problem_ids new_contest replace_problems
create_team_contest db u t cid b =
    check_times b
    >> validate_times b.start_time b.end_time b.register_start_time b.register_end_time
    >> validate_problem_ids db u (map (λ i. i.problem_id) b.problems) (some t)
    >> ok (
        replace_problems cid b.problems (some b.rule_type)
          (add_contest (new_contest cid u ContestType.team (some t) b) db))

-- an UPDATE of the row of one contest; its id is the primary key
unfoldable pub set_row : ℕ → (Contest → Contest) → List Contest → List Contest
set_row cid f [] = []
set_row cid f (c ∷ cs) = if c.id == cid then f c ∷ cs else c ∷ set_row cid f cs

unfoldable pub set_contest : ℕ → (Contest → Contest) → ContestDb → ContestDb
unfolding set_row
set_contest cid f db = record db { contests = set_row cid f db.contests }

abbrev pub is_scheduled : ContestStatus → Bool
is_scheduled ContestStatus.scheduled = true
is_scheduled _ = false

-- a field of the patch was sent
abbrev pub touched : ContestPatch → Bool
touched b =
    b.texts_sent
    || (is_some b.rule_type
        || (is_some b.start_time
            || (is_some b.end_time
                || (is_some b.register_start_time
                    || (is_some b.register_end_time
                        || (is_some b.freeze_time || is_some b.problems))))))

-- the row after the patch
unfoldable pub patched : ContestPatch → Contest → Contest
patched b c = record c {
  rule_type = or_current (sent_value b.rule_type) c.rule_type;
  start_time = or_current (sent_value b.start_time) c.start_time;
  end_time = or_current (sent_value b.end_time) c.end_time;
  register_start_time = or_current (sent_value b.register_start_time) c.register_start_time;
  register_end_time = or_current (sent_value b.register_end_time) c.register_end_time;
  freeze_time = or_current b.freeze_time c.freeze_time;
}

unfoldable pub replace_sent :
    Option (List ProblemIn) → ContestPatch → ℕ → ℕ → ContestDb → Result ContestDb
unfolding validate_problem_ids replace_problems
replace_sent none b u cid db = ok db
replace_sent (some items) b u cid db =
    validate_problem_ids db u (map (λ i. i.problem_id) items) none
    >> ok (replace_problems cid items (sent_value b.rule_type) db)

-- ContestService.update
unfoldable pub update : ContestDb → ℕ → ℕ → ContestPatch → Result ContestDb
unfolding require_manage validate_times set_contest patched replace_sent
update db u cid b = require_manage cid u db >>= λ c.
    refuse_if (not (is_scheduled c.status) && touched b) Code.resource_state_conflict
    >> (let new = patched b c in
        validate_times new.start_time new.end_time new.register_start_time new.register_end_time
        >> refuse_if (bad_freeze new.start_time new.end_time new.freeze_time)
            Code.param_format_invalid
        >> replace_sent (sent_value b.problems) b u cid (set_contest cid (patched b) db))
