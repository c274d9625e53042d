-- ===== src/Jobs/Queue.antt =====
-- `JobQueue` (src/lorcana/jobs/service.py): argument checks, the clock, one transaction, and what is
-- raised afterwards. A method returns its result beside the tables, since `JobLeaseLostError` is raised
-- after the transaction has committed. The clock's reading and a fresh UUID are arguments.
pub mod Leases
use inkspire_lorcana_develop.Prelude.{
  ℕ, zero, suc, ◌+◌, String, Bool, true, false, Option, none, some, List, [], ◌∷◌, ◌≡◌, ◌&&◌, Json,
  ℤ, pos, negsuc, pos_part, ltb_ℤ, ltb, if◌then◌else◌, Result, ok, err, and_then, value_error,
  job_lease_lost, transact, Datetime, to_utc, seconds, strip, is_empty,
}
use inkspire_lorcana_develop.Prelude.Values
use inkspire_lorcana_develop.Jobs.Tables.{
  Db, JobStatus, queued, failed, EnqueuedJob, JobLease, JobFailureResult,
}
use inkspire_lorcana_develop.Jobs.Enqueue
use inkspire_lorcana_develop.Jobs.Lease
use inkspire_lorcana_develop.Jobs.Holder

pub record JobQueue : Type 0 where
  pub lease_seconds : ℕ

-- `JobQueue.__init__`
unfoldable pub new_queue : ℤ → Result JobQueue
new_queue n =
    if ltb_ℤ n (pos 30) then err value_error else ok (record { lease_seconds = pos_part n })

-- The keyword arguments of `enqueue`.
pub record Request : Type 0 where
  pub kind : String
  pub payload : Option Json
  pub resource_key : Option String
  pub idempotency_key : Option String
  pub priority : ℤ
  pub max_attempts : ℤ
  pub available_at : Option Datetime

-- `payload or {}`
abbrev pub payload_or_empty : Option Json → Json
payload_or_empty none = Values.mapping Values.end
payload_or_empty (some p) = p

-- `available_at or now`, checked to be aware.
abbrev pub available_or : Option Datetime → ℕ → Result ℕ
available_or none now = ok now
available_or (some t) now = to_utc t

abbrev pub new_job : Request → ℕ → ℕ → ℕ → Enqueue.NewJob
new_job r uuid now available = record {
  job_id = uuid;
  kind = strip r.kind;
  resource_key = r.resource_key;
  payload = payload_or_empty r.payload;
  idempotency_key = r.idempotency_key;
  priority = r.priority;
  max_attempts = pos_part r.max_attempts;
  available_at = available;
  created_at = now;
}

unfoldable pub enqueue : Request → Datetime → ℕ → Db → Result EnqueuedJob × Db
enqueue r clock uuid db =
    if is_empty (strip r.kind)
    then (err value_error, db)
    else if ltb_ℤ r.max_attempts (pos 1)
    then (err value_error, db)
    else elim (to_utc clock) [
      | err e ↦ (err e, db)
      | ok now ↦ elim (available_or r.available_at now) [
        | err e ↦ (err e, db)
        | ok available ↦
            transact
              (λ d.
                and_then (Enqueue.enqueue (new_job r uuid now available) d)
                  (λ ((i, created), after). ok (record { job_id = i; created = created }, after)))
              db
      ]
    ]

unfoldable pub claim :
    JobQueue → (ℕ → Bool) → String → Datetime → ℕ → Db → Result (Option JobLease) × Db
claim q locked worker clock token db =
    if is_empty (strip worker) then (err value_error, db) else elim (to_utc clock) [
      | err e ↦ (err e, db)
      | ok now ↦ transact (Lease.claim locked worker token now (now + seconds q.lease_seconds)) db
    ]

-- `if not ok: raise JobLeaseLostError(…)`, after the transaction.
abbrev pub or_lost {ℓ} : {A : Type ℓ} → A → Bool × Db → Result A × Db
or_lost a (true, db) = (ok a, db)
or_lost a (false, db) = (err job_lease_lost, db)

unfoldable pub heartbeat : JobQueue → JobLease → Option Json → Datetime → Db → Result JobLease × Db
heartbeat q lease progress clock db = elim (to_utc clock) [
  | err e ↦ (err e, db)
  | ok now ↦
      let expires = now + seconds q.lease_seconds in
      or_lost (record lease { lease_expires_at = expires })
        (Holder.heartbeat lease.job_id lease.lease_token now expires progress db)
]

unfoldable pub succeed : JobLease → Option Json → Datetime → Db → Result (Unit {0}) × Db
succeed lease progress clock db = elim (to_utc clock) [
  | err e ↦ (err e, db)
  | ok now ↦ or_lost tt (Holder.succeed lease.job_id lease.lease_token now progress db)
]

-- The exception that a job failed with: its class name and its text.
pub record Failure : Type 0 where
  pub name : String
  pub message : String

-- `text[:n]`
abbrev pub truncate : ℕ → String → String
truncate zero s = String.[]
truncate (suc n) String.[] = String.[]
truncate (suc n) (String.◌∷◌ c s) = String.◌∷◌ c (truncate n s)

-- `retry_at`, as the lease's own counts decide it.
abbrev pub retry_time : JobLease → Bool → ℕ → ℕ → Option ℕ
retry_time lease retryable now delay =
    if retryable && ltb lease.attempt_number lease.max_attempts
    then some (now + seconds delay)
    else none

abbrev pub is_given : Option ℕ → Bool
is_given none = false
is_given (some t) = true

abbrev pub failure_result : JobLease → Option ℕ → JobFailureResult
failure_result lease retry_at = record {
  job_id = lease.job_id;
  status = if is_given retry_at then queued else failed;
  retry_at = retry_at;
}

unfoldable pub fail : JobLease → Failure → Bool → ℤ → Datetime → Db → Result JobFailureResult × Db
fail lease error retryable delay clock db =
    if ltb_ℤ delay (pos 0) then (err value_error, db) else elim (to_utc clock) [
      | err e ↦ (err e, db)
      | ok now ↦
          let retry_at = retry_time lease retryable now (pos_part delay) in
          or_lost (failure_result lease retry_at) (
            Holder.fail lease.job_id lease.lease_token now retry_at (truncate 200 error.name)
              (truncate 4000 error.message) db)
    ]
