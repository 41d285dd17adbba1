-- ===== src/Model.antt =====
-- The tables and enumerations that several components share: src/backend/app/enums and
-- src/backend/app/models. Ids are numbers, a point in time is a number of microseconds (UTC).
use Prim.Native.String.{String}
use pigeon_oj.Base.{
  ℕ, Bool, true, false, Option, none, some, List, map, filter, any, ◌==◌, ◌&&◌, opt_eq,
}

-- enums/contest.py
pub data RuleType : Type 0 where
  acm ioi : RuleType

pub data ContestType : Type 0 where
  public team : ContestType

pub data ContestStatus : Type 0 where
  scheduled running finished : ContestStatus

pub data RegistrationStatus : Type 0 where
  registered cancelled : RegistrationStatus

-- enums/judge.py
pub data SubmitType : Type 0 where
  practice contest verify : SubmitType

pub data SubmissionStatus : Type 0 where
  pending judging accepted wrong_answer time_limit_exceeded memory_limit_exceeded : SubmissionStatus
  output_limit_exceeded runtime_error compile_error system_error : SubmissionStatus

abbrev pub is_acm : RuleType → Bool
is_acm RuleType.acm = true
is_acm RuleType.ioi = false

abbrev pub is_contest : SubmitType → Bool
is_contest SubmitType.contest = true
is_contest SubmitType.practice = false
is_contest SubmitType.verify = false

abbrev pub is_verify : SubmitType → Bool
is_verify SubmitType.verify = true
is_verify SubmitType.practice = false
is_verify SubmitType.contest = false

abbrev pub is_accepted : SubmissionStatus → Bool
is_accepted SubmissionStatus.accepted = true
is_accepted _ = false

abbrev pub is_system_error : SubmissionStatus → Bool
is_system_error SubmissionStatus.system_error = true
is_system_error _ = false

-- `status not in (PENDING, JUDGING, SYSTEM_ERROR)`
abbrev pub is_counted : SubmissionStatus → Bool
is_counted SubmissionStatus.pending = false
is_counted SubmissionStatus.judging = false
is_counted SubmissionStatus.system_error = false
is_counted _ = true

-- models/judge.py
pub record Submission : Type 0 where
  pub id : ℕ
  pub user_id : ℕ
  pub problem_id : ℕ
  pub contest_id : Option ℕ
  pub verification_id : Option ℕ
  pub language : String
  pub code : String
  pub submit_type : SubmitType
  pub rule_type : Option RuleType
  pub status : SubmissionStatus
  pub score : ℕ
  pub time_used_ms : Option ℕ
  pub memory_used_kb : Option ℕ
  pub error_message : Option String
  pub is_after_contest : Bool
  pub created_at : ℕ
  pub updated_at : ℕ

-- models/contest.py; the texts and pictures of a contest are left out
pub record Contest : Type 0 where
  pub id : ℕ
  pub contest_type : ContestType
  pub team_id : Option ℕ
  pub owner_id : ℕ
  pub rule_type : RuleType
  pub start_time : ℕ
  pub end_time : ℕ
  pub register_start_time : ℕ
  pub register_end_time : ℕ
  pub freeze_time : Option ℕ
  pub board_frozen : Bool
  pub frozen_at : Option ℕ
  pub status : ContestStatus

pub record Registration : Type 0 where
  pub contest_id : ℕ
  pub user_id : ℕ
  pub status : RegistrationStatus

pub record ContestProblem : Type 0 where
  pub contest_id : ℕ
  pub problem_id : ℕ
  pub letter : List ℕ
  pub sort_order : ℕ
  pub score : ℕ

-- enums/problem.py
pub data ProblemStatus : Type 0 where
  draft published archived : ProblemStatus

pub data ProblemVisibility : Type 0 where
  private_ public_ admin_visible team_visible : ProblemVisibility

pub data CaseStatus : Type 0 where
  empty to_verify to_reverify verified ok_ : CaseStatus

-- models/problem.py, without the statement's texts; an object key is a number, and the empty key that
-- stages the removal of a checker is `some 0`
pub record Problem : Type 0 where
  pub id : ℕ
  pub owner_id : ℕ
  pub team_id : Option ℕ
  pub visibility : ProblemVisibility
  pub status : ProblemStatus
  pub time_limit_ms : ℕ
  pub memory_limit_mb : ℕ
  pub active_case_ids : List ℕ
  pub pending_case_ids : Option (List ℕ)
  pub spj_oss_id : Option ℕ
  pub pending_spj_oss_id : Option ℕ
  pub case_status : CaseStatus
  pub cases_revision : ℕ
  pub pending_verified : Bool
  pub samples_updated_at : ℕ
  pub verified_by : Option ℕ
  pub verified_at : Option ℕ
  pub published_at : Option ℕ
  pub source_problem_id : Option ℕ

abbrev pub is_public_problem : ProblemVisibility → Bool
is_public_problem ProblemVisibility.public_ = true
is_public_problem _ = false

abbrev pub is_published : ProblemStatus → Bool
is_published ProblemStatus.published = true
is_published _ = false

abbrev pub is_archived : ProblemStatus → Bool
is_archived ProblemStatus.archived = true
is_archived _ = false

-- the role codes that the code tests for
pub data RoleCode : Type 0 where
  admin tutor team_creator team_admin team_member other_role : RoleCode

-- models/user.py UserRole joined with Role: the scope is global where there is no team
pub record RoleGrant : Type 0 where
  pub user_id : ℕ
  pub code : RoleCode
  pub team_id : Option ℕ

abbrev pub same_code : RoleCode → RoleCode → Bool
same_code RoleCode.admin RoleCode.admin = true
same_code RoleCode.tutor RoleCode.tutor = true
same_code RoleCode.team_creator RoleCode.team_creator = true
same_code RoleCode.team_admin RoleCode.team_admin = true
same_code RoleCode.team_member RoleCode.team_member = true
same_code RoleCode.other_role RoleCode.other_role = true
same_code _ _ = false

-- RoleRepository.get_global_role_codes
unfoldable pub global_role_codes : List RoleGrant → ℕ → List RoleCode
global_role_codes grants u =
    map (λ g. g.code) (filter (λ g. (g.user_id == u) && opt_eq g.team_id none) grants)

-- RoleRepository.get_team_role_codes
unfoldable pub team_role_codes : List RoleGrant → ℕ → ℕ → List RoleCode
team_role_codes grants u t =
    map (λ g. g.code) (filter (λ g. (g.user_id == u) && opt_eq g.team_id (some t)) grants)

-- `code in codes`
abbrev pub has_code : RoleCode → List RoleCode → Bool
has_code k codes = any (same_code k) codes

-- core/dependency.py is_admin
unfoldable pub is_admin : List RoleGrant → ℕ → Bool
unfolding global_role_codes
is_admin grants u = has_code RoleCode.admin (global_role_codes grants u)
