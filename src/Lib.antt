-- ===== src/Lib.antt =====
-- The Lorcana platform's durable jobs, ratings, Play Hub ingestion, Duels replay patches, teams and
-- identities. Paths of source files below are under src/lorcana.
--
-- Jobs. `src/lorcana/jobs` runs background work from two database tables. A service enqueues a job, a
-- worker claims it under a lease with a fresh token, executes it while a thread renews the lease, and
-- reports success or failure under the token; jobs whose lease ran out are claimed again or failed.
--   Jobs/Tables     the tables of db/schema/jobs.py and the records of jobs/types.py
--   Jobs/Enqueue, Jobs/Prune, Jobs/Lease, Jobs/Holder
--                   JobRepository (jobs/repository.py): enqueue; prune_completed_before;
--                   expire_exhausted_leases and claim; heartbeat, succeed and fail
--   Jobs/Invariant  the invariant of the two tables, and its lemmas
--   Jobs/History    any sequence of the repository's transactions
--   Jobs/Queue      JobQueue (jobs/service.py)
--   Jobs/Worker     Worker.run_once (jobs/worker.py)
--   Jobs/Schedule   next_occurrence, materialize_scheduled_payload and ScheduleRepository
--                   (jobs/schedule.py); Jobs/Schedule/Service has ScheduledJobService
--   Jobs/Samples, Jobs/Tests, Jobs/Runs, Jobs/ScheduleTests
--                   the theorems at concrete tables
-- Each repository method is a function from the tables to its result and the tables after its SQL
-- statements, in their order; a violated constraint is an error. The service functions add the argument
-- checks, the clock and the transaction. A round of the worker composes them, with everything outside the
-- job tables as data of the round: the scheduler's effect, the end of the executor, and the transactions
-- that other connections commit in the meantime.
--
-- Ratings. `src/lorcana/ratings` selects matches by a policy, copies the selected facts into a run,
-- replays them through an Elo calculator, checks the outcome and publishes the run.
--   Ratings/Types, Ratings/Policy, Ratings/Elo
--                   ratings/types.py, ratings/policy.py, ratings/elo.py
--   Ratings/Snapshot, Ratings/Calculate
--                   RatingService._snapshot, preview_source and _calculate_and_validate
--                   (ratings/service.py)
--   Ratings/Publish RatingService.publish, and publish, retained_run_ids and prune_unretained_runs of
--                   RatingRepository (ratings/repository.py), over db/schema/ratings.py
--   Ratings/Build   RatingService.build, build_and_publish, _record_failure, and in Build/Refresh
--                   build_and_publish_if_changed (ratings/service.py), with the run's writes in
--                   ratings/repository.py
--   Ratings/History RatingQueryService.player_history (ratings/query_service.py), from the queried rows on
--   Ratings/Tests, Ratings/BuildTests
--                   the theorems at concrete candidates, runs and publications
--
-- Play Hub. `src/lorcana/playhub` reads tournaments from a source site: it discovers the events of a
-- window of days, and imports an event's phases, rounds, registrations and matches.
--   PlayHub/Raw, PlayHub/Parser
--                   playhub/parser.py: the conversions; parse_event_bundle; in Parser/Results
--                   parse_standings, parse_match and the choices among rounds
--   PlayHub/Types, PlayHub/Tables
--                   playhub/types.py and the tables of db/schema/playhub.py
--   PlayHub/Facts, PlayHub/Sync
--                   PlayHubRepository (playhub/repository.py): the upserts of source facts; the discovery
--                   runs, import attempts and synchronization states
--   PlayHub/Import  PlayHubImportService.import_event (playhub/service.py)
--   PlayHub/Discovery
--                   select_discovered_events (playhub/parser.py), and in Discovery/Run
--                   PlayHubDiscoveryService.sync_range (playhub/service.py)
--   PlayHub/Tests   the theorems at a concrete service
-- An import runs its transactions one after the other and catches an exception of a round, which leaves
-- the tables as they were before that round.
--
-- Duels. `src/lorcana/duels` reads replays, whose states are patched by JSON pointers, and reports
-- the games of a team's week.
--   Duels/Pointer   _decode_pointer_token and _pointer_tokens (duels/replay_parser.py)
--   Duels/Patch     _resolve_parent, apply_duels_patch_operation and apply_duels_patch (the same file)
--   Duels/Weekly    color_pair (duels/matchups.py) and aggregate_weekly (duels/weekly.py)
--   Duels/Tests     the theorems at concrete documents and results
-- A patch that raises returns no document, although the code may have created parents in place by then.
--
-- Teams. `src/lorcana/teams` and `src/lorcana/identity` keep the members of teams and the accounts that
-- providers know them by.
--   Teams/Tables    the tables of db/schema/identity.py
--   Teams/Repository
--                   the writes of TeamRepository (teams/repository.py)
--   Teams/Definition
--                   load_team_bootstrap (teams/service.py) and the records of teams/types.py
--   Teams/Bootstrap TeamAdminService.bootstrap (teams/service.py)
--   Teams/Identity  IdentityRepository and IdentityAdminService (identity/repository.py,
--                   identity/service.py)
--   Teams/Tests     the theorems at concrete tables
-- A bootstrap is one transaction; the UUID factory is a function of the number of the call.
--
-- Prelude holds lists over native numbers, the Boolean tests, integers, texts, points in time, JSON
-- values, and exceptions as values. A transaction keeps what its block wrote if the block returns, and
-- nothing if it raises.
--
-- Assumptions. A UUID is a number, a point in time a number of microseconds in UTC; neither has an
-- upper bound, and the database's integers are unbounded. Transactions are atomic and run one after
-- the other; rows that others have locked are given by a predicate, which is any function. A claim's
-- token is an argument, and where it must be fresh the theorem says so. Floats (type, constants,
-- operations) and the hexadecimal SHA-256 digest of a list of rows are parameters without hypotheses;
-- time zones and the texts of UUIDs and times are parameters too, and what a theorem needs of a zone's
-- clock it says. Of Play Hub, the HTTP client, the HTML extraction, the conversions
-- `int`, `str` and `datetime.fromisoformat`, the equality of JSON values and the database's refusal
-- of a row of source facts are parameters without hypotheses; each reading of the clock is named, so
-- that no two need to agree. `int` of a Duels token, the equality of the ratings' parameters as JSON
-- and the texts of exceptions are parameters too; where an aware clock or parameters that equal
-- themselves are needed the theorem says so. The teams' factory of UUIDs is any function of the
-- number of the call; where the UUIDs must be new the theorem says so. `str.lower`, `str.title` and
-- the orders of the weekly report's two sorts are parameters without hypotheses. A schedule's
-- specification is given by its fields as they are read. Every loop runs over a finite list or a
-- given number of passes, so no function has fuel.
--
-- Not modelled: logging, threads (the heartbeat thread is a sequence of transactions), the worker's endless
-- loop, the executor's dispatch, the rest of the ratings' read side, Play Hub's selection of due imports
-- and its queries, the rest of the Duels package, and the other packages of src/lorcana.
pub mod Duels
pub mod Jobs
pub mod PlayHub
pub mod Prelude
pub mod Ratings
pub mod Teams
