-- ===== src/Examples/Reveals.antt =====
-- A reveal of three submissions of two users.
use mathlib.Core.List.Permᴰ
use pigeon_oj.Base.{
  true, ok, ℕ, ◌≡◌, refl, ap, none, some, List, [], ◌∷◌, map, filter, Pairs, ◌==◌, false,
}
use pigeon_oj.Base.Integers.{pos}
use pigeon_oj.Base.Sorting.{sort_by}
use pigeon_oj.Model.{
  is_admin, RuleType, SubmitType, SubmissionStatus, Submission, Contest, ContestType, ContestStatus,
  ContestProblem,
}
use pigeon_oj.Contest.Recompute.{earlier, list_contest_submissions, recompute_rankings}
use pigeon_oj.Contest.Board.{BoardRow, aggregate_final_rows, compute_board}
use pigeon_oj.Contest.Board.Unfrozen.{counted_users}
use pigeon_oj.Contest.Board.Plain.{plain_row}
use pigeon_oj.Contest.{ContestDb, get_contest}
use pigeon_oj.Contest.Access.{can_manage, require_manage, find_contest}
use pigeon_oj.Contest.Reveal.Shows.{show_ends_unfrozen}
use pigeon_oj.Contest.Reveal.{
  Show, pending_of, scoreboard_show, build_reveal_steps, load_rows, nothing_shown,
}
use pigeon_oj.Contest.Reveal.Sequence.{submission_of, key_of, WorseFirst, reveal_shows_pending}
use pigeon_oj.Contest.Reveal.Attempts.{of_cell, shows_cell, running, reveal_counts_attempts}

abbrev pending_submission : ℕ → ℕ → SubmissionStatus → ℕ → Submission
pending_submission i u status at = record {
  id = i;
  user_id = u;
  problem_id = 7;
  contest_id = some 1;
  verification_id = none;
  language = "cpp17";
  code = "int main() {}";
  submit_type = SubmitType.contest;
  rule_type = none;
  status = status;
  score = 0;
  time_used_ms = none;
  memory_used_kb = none;
  error_message = none;
  is_after_contest = false;
  created_at = at;
  updated_at = at;
}

abbrev pending : List Submission
pending =
    pending_submission 1 5 SubmissionStatus.accepted 100
    ∷ pending_submission 2 6 SubmissionStatus.wrong_answer 200
    ∷ pending_submission 3 5 SubmissionStatus.wrong_answer 300
    ∷ []

abbrev row_at : ℕ → ℕ → ℕ → BoardRow
row_at rank u attempts = record {
  rank = rank;
  user_id = u;
  nickname = u ∷ [];
  solved = 0;
  total_penalty = pos 0;
  total_score = 0;
  cells =
      record {
        problem_id = 7;
        letter = 65 ∷ [];
        problem_score = 0;
        accepted = false;
        attempts = attempts;
        penalty = pos 0;
        score = 0;
        is_frozen = false;
        accepted_at = none;
      }
      ∷ [];
}

abbrev base_rows : List BoardRow
base_rows = row_at 1 5 2 ∷ row_at 2 6 0 ∷ []

abbrev final_rows : List BoardRow
final_rows = row_at 1 5 2 ∷ row_at 2 6 1 ∷ []

abbrev nickname : ℕ → List ℕ
nickname u = u ∷ []

-- user 6 has the worse final rank and comes first
order :
    map submission_of (build_reveal_steps RuleType.acm pending final_rows base_rows nickname)
    ≡ (6, 2) ∷ (5, 1) ∷ (5, 3) ∷ []
unfolding build_reveal_steps sort_by
order = refl

-- the wrong submission after the accepted one counts as a third attempt
attempts :
    map (λ x. x.attempts) (build_reveal_steps RuleType.acm pending final_rows base_rows nickname)
    ≡ 1 ∷ 2 ∷ 3 ∷ []
unfolding build_reveal_steps sort_by
attempts = refl

reveal_shows_pending_example :
    (filter
        (λ k. 5 == k.0)
        (map submission_of (build_reveal_steps RuleType.acm pending final_rows base_rows nickname))
      ≡ map key_of (filter (λ s. 5 == s.user_id) (sort_by earlier pending)))
    × Pairs
        (λ j k. WorseFirst final_rows j.0 k.0)
        (map submission_of (build_reveal_steps RuleType.acm pending final_rows base_rows nickname))
reveal_shows_pending_example =
    reveal_shows_pending RuleType.acm pending final_rows base_rows nickname 5

reveal_counts_attempts_example :
    map
      (λ x. x.attempts)
      (filter
        (shows_cell 5 7)
        (build_reveal_steps RuleType.acm pending final_rows base_rows nickname))
    ≡ running
        (load_rows base_rows (λ u p. nothing_shown) 5 7).attempts
        (filter (of_cell 5 7) (sort_by earlier pending))
reveal_counts_attempts_example =
    reveal_counts_attempts RuleType.acm pending final_rows base_rows nickname 5 7

abbrev arranged : ContestProblem
arranged = record { contest_id = 1; problem_id = 7; letter = 65 ∷ []; sort_order = 0; score = 100 }

abbrev contest : Contest
contest = record {
  id = 1;
  contest_type = ContestType.public;
  team_id = none;
  owner_id = 9;
  rule_type = RuleType.acm;
  start_time = 0;
  end_time = 1000;
  register_start_time = 0;
  register_end_time = 1000;
  freeze_time = some 150;
  board_frozen = true;
  frozen_at = some 150;
  status = ContestStatus.running;
}

abbrev database : ContestDb
database = record {
  contests = contest ∷ [];
  problems = [];
  grants = [];
  registrations = [];
  contest_problems = arranged ∷ [];
  rankings = [];
  submissions = pending;
  cached_boards = [];
}

-- the order in which a set of users is iterated over
abbrev set_order : List ℕ → List ℕ
set_order us = us

abbrev first_of : List ℕ → ℕ
first_of [] = 0
first_of (x ∷ xs) = x

abbrev shown : Show
shown =
    let subs = list_contest_submissions 1 pending in
    let rows = aggregate_final_rows contest subs (arranged ∷ []) (pos 20) nickname set_order in
    record {
      base_rows = base_rows;
      final_rows = rows;
      steps = build_reveal_steps RuleType.acm (pending_of contest subs) rows base_rows nickname;
    }

shown_now :
    scoreboard_show database 1 9 base_rows (arranged ∷ []) (pos 20) nickname set_order ≡ ok shown
unfolding scoreboard_show require_manage find_contest get_contest can_manage is_admin
shown_now = refl

show_ends_unfrozen_example :
    (can_manage database.grants (some 9) contest ≡ true)
    × (filter (λ k. 5 == k.0) (map submission_of shown.steps)
        ≡ map key_of (
            filter (λ s. 5 == s.user_id) (pending_of contest (list_contest_submissions 1 pending))))
    × (shown.final_rows
        ≡ map plain_row (
            compute_board contest
              (arranged ∷ [])
              nickname
              (recompute_rankings contest (pos 20) database)))
show_ends_unfrozen_example =
    show_ends_unfrozen database 1 9 base_rows (arranged ∷ []) (pos 20) nickname set_order shown
      contest 5 (unfold get_contest in refl) shown_now (Permᴰ.refl (counted_users contest database))
      (λ u v _ _ differ same. differ (ap first_of same))
