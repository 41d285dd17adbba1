-- ===== src/Lib.antt =====
-- PigeonOJ: a verification library for the online judge's core: contests and their scoreboards, teams,
-- problems and their verification, the judging of submissions, the exchange of problems, and the spaces of teams.
--
-- The server is a Python program (src/backend/app). A request is a method of a service, which reads and
-- writes tables through a repository; a judge node reports results over gRPC, and a background task
-- advances the contests. Here a table is a list of rows, an UPDATE a function on the rows that its WHERE
-- clause selects, and a request a function from the tables to the tables, or to the code of the error that
-- it raises (Base/Errors.antt); an error leaves the tables as they were, as the rollback of the request's
-- transaction does. Ids and points in time (microseconds, UTC) are native natural numbers; the clock, the id
-- of a new row and the answers of Redis and of the object storage are arguments.
--
-- Which file models which part:
--   Model.antt          the tables and enumerations (models/, enums/), role codes (repositories/user.py)
--   Ranking.antt        ContestRankingRepository of repositories/contest.py
--   Contest.antt        the contests' state; its children model services/contest.py:
--     Contest/Scoring     update_ranking_on_result, one judge result on the live scoreboard
--     Contest/Recompute   _recompute_rankings, the scoreboard from the submissions alone
--     Contest/Agreement   the two ways to the scoreboard compared, rule by rule
--     Contest/Board       _row_key, _compute_board, _aggregate_final_rows
--     Contest/Reveal      build_reveal_steps and scoreboard_show, the reveal of a frozen scoreboard
--     Contest/Access      visibility, windows and registration: get_detail, submit_problem, register
--     Contest/Edit        create, create_team_contest, update, _replace_problems, _letter
--     Contest/Lifecycle   transition, extend, update_freeze_time, unfreeze
--     Contest/Events      histories of all these as sequences of steps
--   Team.antt           services/team.py with the role grants of repositories/user.py
--   Problems.antt       services/problem.py: staged and effective test cases, checkers, verification
--   Judge.antt          rpc/judge_jobs.py and the retries of rpc/judge_gateway.py; Judge/Results.antt is
--                       apply_job_result, which writes to the problems' and the contests' state
--                       Judge/Recalls, Judge/Retries: how often a submission can be recalled
--   Gateway.antt        rpc/judge_gateway.py: reconnecting nodes, the choice of a node, chunks of files
--     Gateway/Server      its handlers composed with the submissions: send_job, dispatch_submission,
--                         _handle_result, maintenance_once, dispatch_run_code, the end of Connect
--   Node.antt           src/judge/node: executor.py (pipes, verdicts, runs of the cases) and the eviction of
--                       datacache.py
--   Import.antt         services/problem_import.py, between the elements of an FPS document and the rows:
--     Import/Texts        strip, lower and the sizes of texts, which are lists of code points
--     Import/Reading      parse_item, parse_limits, _parse_difficulty, pair_nodes
--     Import/Writing      build_fps_xml; Numerals, RoundTrip, Pairs, Fields, Limits and ReadBack of
--                         Import/ read what it writes
--     Import/Cases        the loop of import_one over the tests, with the object storage
--     Import/Entering     import_one, build_solution, and the samples as _samples_view shows them
--     Import/Batches      import_parsed_problems, import_archive
--     Import/Stores, Objects, Kept, Ready, Titles, Attempts, Archives   what an import leaves
--   Space.antt          submissions, problem sets and the space of a team:
--     Space/Submitting    services/judge.py and ProblemService.get_detail: who may see, submit and test
--     Space/Sets          services/problem_set.py, repositories/problem_set.py
--     Space/References    reference_problem, with copy_test_cases of repositories/problem.py
--     Space/Teams         services/team_space.py, the problems of a team; Space/TeamSets its sets
--     Space/Closed, Snapshots, Items, Changes, Constraints, Shown, Shared   what follows from them
--   Base.antt           numbers, lists, sorting, errors; Examples.antt holds concrete runs
--
-- How the parts interact: a result (Judge/Results) is stored on the submission, then handed to the
-- problem's verification (Problems/Operations.on_submission_finalized) and to the contest's scoreboard
-- (Contest/Scoring.update_ranking_on_result). The submissions that Judge writes are the ones that
-- Contest/Recompute reads. Gateway/Server holds the tables of Judge and the registry of Gateway: a node is
-- chosen from the registry for a submission of the tables. An import (Import/Entering) adds rows of Problems,
-- which are published, or wait for the verification of Problems. Roles that Team grants decide access in Contest/Access.
--
-- Fuel and bounds: str writes the digits of n on n as fuel, which Contest/Edit/Letters shows to be enough;
-- _iter_rpc_chunks runs on the length of the file (Gateway/Chunks), the parallel run of cases on their number
-- (Node/Runs), the reading of a pipe on a fuel that is enough from its limit + 2 on (Node/Pipes); all other
-- recursion is on lists. Numbers are Python's unbounded integers; penalties may be negative and
-- are integers (Base/Integers.antt).
--
-- Not modelled: HTTP routes, schemas beyond their checks, sessions and users, lists and searches, the reading of archives and
-- XML and the pictures in an import, files, logging, the gRPC streams, the processes and the sandbox of the judge
-- node, the frontend.
-- The iteration order of a Python set is an argument (Contest/Board). A step is a whole request or handler: requests
-- that overlap are not modelled, also not dispatches of the gateway, which await between the choice of a node and the
-- entry of the job there. An import is modelled for problems whose texts hold no inlined picture, for which
-- convert_import_images does nothing (Import/Entering.without_pictures). The hour after which Redis drops a count of
-- recalls is a step that can happen at any moment (Judge.lapse_attempts).
pub mod Base
pub mod Model
pub mod Ranking
pub mod Contest
pub mod Team
pub mod Problems
pub mod Judge
pub mod Gateway
pub mod Import
pub mod Space
pub mod Node
pub mod Examples
