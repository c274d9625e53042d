-- ===== src/Jobs/Samples.antt =====
-- A small state of the job tables for the tests: a running job, a queued one, one that has succeeded,
-- and one whose last lease has run out.
use inkspire_lorcana_develop.Prelude.{
  ℕ, Bool, false, none, some, [], ◌∷◌, refl, arith, pos, Json, aware, Error,
}
use inkspire_lorcana_develop.Prelude.Values
use inkspire_lorcana_develop.Jobs.Tables.{
  Job, queued, running, succeeded, Attempt, attempt_running, attempt_succeeded, Db, JobLease,
}
use inkspire_lorcana_develop.Jobs.Invariant.{RowOk, IsValid}
use inkspire_lorcana_develop.Jobs.Enqueue.{NewJob}
use inkspire_lorcana_develop.Jobs.Queue.{JobQueue, Failure}
use inkspire_lorcana_develop.Jobs.Worker.{Outcome, Round}

abbrev pub no_fields : Json
no_fields = Values.mapping Values.end

-- A queued job as `enqueue` leaves it.
abbrev pub plain : ℕ → Job
plain i = record {
  job_id = i;
  kind = "ratings.refresh";
  resource_key = none;
  payload = no_fields;
  idempotency_key = none;
  status = queued;
  priority = pos 0;
  attempt_count = 0;
  max_attempts = 3;
  available_at = 100;
  lease_owner = none;
  lease_token = none;
  lease_expires_at = none;
  progress = none;
  created_at = 10;
  updated_at = 10;
  completed_at = none;
  last_error_category = none;
  last_error_summary = none;
}

-- Leased until 900.
abbrev pub busy : Job
busy = record (plain 1) {
  status = running;
  attempt_count = 1;
  lease_owner = some "worker-a";
  lease_token = some 7;
  lease_expires_at = some 900;
}

abbrev pub waiting : Job
waiting = plain 2

abbrev pub done : Job
done = record (plain 3) { status = succeeded; attempt_count = 1; completed_at = some 50 }

-- Its last attempt was lost with its lease, which ran out at 150.
abbrev pub abandoned : Job
abandoned = record (plain 4) {
  status = running;
  attempt_count = 1;
  max_attempts = 1;
  lease_owner = some "worker-b";
  lease_token = some 8;
  lease_expires_at = some 150;
}

abbrev pub attempt : ℕ → ℕ → Attempt
attempt i token = record {
  job_id = i;
  attempt_number = 1;
  lease_token = token;
  worker_id = "worker-a";
  started_at = 20;
  completed_at = none;
  status = attempt_running;
  error_category = none;
  error_summary = none;
}

abbrev pub sample : Db
sample = record {
  jobs = busy ∷ waiting ∷ done ∷ abandoned ∷ [];
  attempts =
      attempt 1 7
      ∷ record (attempt 3 5) { status = attempt_succeeded; completed_at = some 50 }
      ∷ attempt 4 8
      ∷ [];
}

row_running : RowOk busy
row_running = record {
  budget = omega arith;
  queued_left = λ h. ground arith;
  owned = refl;
  leased = refl;
  expiring = refl;
  completed = refl;
}

row_waiting : RowOk waiting
row_waiting = record {
  budget = omega arith;
  queued_left = λ h. omega arith;
  owned = refl;
  leased = refl;
  expiring = refl;
  completed = refl;
}

row_done : RowOk done
row_done = record {
  budget = omega arith;
  queued_left = λ h. ground arith;
  owned = refl;
  leased = refl;
  expiring = refl;
  completed = refl;
}

row_abandoned : RowOk abandoned
row_abandoned = record {
  budget = omega arith;
  queued_left = λ h. ground arith;
  owned = refl;
  leased = refl;
  expiring = refl;
  completed = refl;
}

pub sample-IsValid : IsValid sample
sample-IsValid = record {
  ids = (refl, (refl, (refl, (refl, tt))));
  keys = (refl, (refl, (refl, (refl, tt))));
  rows = (row_running, (row_waiting, (row_done, (row_abandoned, tt))));
  fits = (
    (omega arith, omega arith, λ h. (refl, refl, refl)),
    (
      (omega arith, omega arith, λ h. ground arith),
      ((omega arith, omega arith, λ h. (refl, refl, refl)), tt),
    ),
  );
  counted = (refl, (refl, (refl, (refl, tt))));
}

abbrev pub nothing_locked : ℕ → Bool
nothing_locked i = false

-- The lease of the running job.
abbrev pub lease : JobLease
lease = record {
  job_id = 1;
  kind = "ratings.refresh";
  resource_key = none;
  payload = no_fields;
  attempt_number = 1;
  max_attempts = 3;
  lease_owner = "worker-a";
  lease_token = 7;
  lease_expires_at = 900;
}

abbrev pub keyed_job : ℕ → NewJob
keyed_job i = record {
  job_id = i;
  kind = "cards.import";
  resource_key = none;
  payload = no_fields;
  idempotency_key = some "cards:2026-01-01";
  priority = pos 0;
  max_attempts = 3;
  available_at = 100;
  created_at = 100;
}

abbrev pub queue : JobQueue
queue = record { lease_seconds = 30 }

abbrev pub crash : Failure
crash = record { name = "RuntimeError"; message = "boom" }

abbrev pub unexpected : Error → Failure
unexpected e = crash

-- A round at time 200 in which the executor ends as given.
abbrev pub round : Outcome → Round
round o = record {
  worker_id = "worker-c";
  scheduler = none;
  locked = nothing_locked;
  claim_clock = aware 200;
  token = 9;
  execute = λ l. o;
  meanwhile = [];
  heartbeat_failed = false;
  finish_clock = aware 300;
  fail_clock = aware 300;
}
