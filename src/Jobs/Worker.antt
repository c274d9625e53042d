-- ===== src/Jobs/Worker.antt =====
-- `Worker` (src/lorcana/jobs/worker.py). What runs outside the job tables enters as the round's data:
-- the scheduler's call, how the executor ends, the transactions that other connections commit while
-- the job runs (the heartbeat thread's among them), and whether a heartbeat failed.
pub mod Rounds
pub mod Delay
use inkspire_lorcana_develop.Prelude.{
  ℕ, ◌+◌, ◌-◌, ◌*◌, ◌^◌, min, max, String, Bool, true, false, Option, none, some, List, Json, pos,
  Result, ok, err, and_then, Error, job_lease_lost, Datetime, if◌then◌else◌,
}
use inkspire_lorcana_develop.Jobs.Tables.{Db, JobLease, JobFailureResult}
use inkspire_lorcana_develop.Jobs.History.{Transaction}
use inkspire_lorcana_develop.Jobs.History
use inkspire_lorcana_develop.Jobs.Queue
use inkspire_lorcana_develop.Jobs.Queue.{JobQueue, Failure}

-- How `self.executor.execute(lease)` ends: its progress, or one of the three kinds of exception that
-- `run_once` tells apart.
pub data Outcome : Type 0 where
  completed : Option Json → Outcome
  lease_lost : Outcome
  permanent raised : Failure → Outcome

pub record Round : Type 0 where
  pub worker_id : String
  pub scheduler : Option (Db → Result ℕ × Db)
  pub locked : ℕ → Bool
  pub claim_clock : Datetime
  pub token : ℕ
  pub execute : JobLease → Outcome
  pub meanwhile : List Transaction
  pub heartbeat_failed : Bool
  pub finish_clock : Datetime
  pub fail_clock : Datetime

-- `min(60 * (2 ** max(lease.attempt_number - 1, 0)), 3600)`
unfoldable pub retry_delay : ℕ → ℕ
retry_delay attempt_number = min (60 * 2 ^ (attempt_number - 1)) 3600

-- The scheduler's exceptions are logged and swallowed.
abbrev pub schedule : Option (Db → Result ℕ × Db) → Db → Db
schedule none db = db
schedule (some enqueue_due) db = (enqueue_due db).1

-- The result of a handler whose exceptions leave `run_once`, followed by `return True`.
abbrev pub then_true {ℓ} : {A : Type ℓ} → Result A × Db → Result Bool × Db
then_true (ok a, db) = (ok true, db)
then_true (err e, db) = (err e, db)

-- `except Exception as error`
unfoldable pub retry_later : Round → JobLease → Failure → Db → Result Bool × Db
unfolding retry_delay
retry_later w lease error db =
    then_true (Queue.fail lease error true (pos (retry_delay lease.attempt_number)) w.fail_clock db)

-- The exceptions of `self.queue.succeed`, which the same handlers see. `unexpected` is the exception
-- that the last handler receives when it is not the executor's.
unfoldable pub after_succeed :
    Round → JobLease → (Error → Failure) → Result (Unit {0}) × Db → Result Bool × Db
unfolding retry_later
after_succeed w lease unexpected (ok a, db) = (ok true, db)
after_succeed w lease unexpected (err job_lease_lost, db) = (ok true, db)
after_succeed w lease unexpected (err e, db) = retry_later w lease (unexpected e) db

-- The `try` statement of `run_once`, from the moment the executor is done.
unfoldable pub conclude : Round → JobLease → (Error → Failure) → Outcome → Db → Result Bool × Db
unfolding after_succeed retry_later
conclude w lease unexpected (completed progress) db =
    if w.heartbeat_failed
    then (ok true, db)
    else after_succeed w lease unexpected (Queue.succeed lease progress w.finish_clock db)
conclude w lease unexpected lease_lost db = (ok true, db)
conclude w lease unexpected (permanent error) db =
    then_true (Queue.fail lease error false (pos 60) w.fail_clock db)
conclude w lease unexpected (raised error) db = retry_later w lease error db

-- The rest of `run_once` after `self.queue.claim`.
unfoldable pub after_claim :
    Round → (Error → Failure) → Result (Option JobLease) × Db → Result Bool × Db
unfolding conclude
after_claim w unexpected (err e, db) = (err e, db)
after_claim w unexpected (ok none, db) = (ok false, db)
after_claim w unexpected (ok (some lease), db) =
    conclude w lease unexpected (w.execute lease) (History.run w.meanwhile db)

-- `Worker.run_once`
unfoldable pub run_once : JobQueue → Round → (Error → Failure) → Db → Result Bool × Db
unfolding after_claim
run_once q w unexpected db =
    after_claim w unexpected
      (Queue.claim q w.locked w.worker_id w.claim_clock w.token (schedule w.scheduler db))
