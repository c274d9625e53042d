-- ===== src/Jobs/Holder.antt =====
-- `JobRepository.heartbeat`, `succeed` and `fail` (src/lorcana/jobs/repository.py): what the holder of
-- a lease does. Each UPDATE is guarded by the job's id, its status and the lease token.
pub mod Held
pub mod Valid
pub mod Fencing
pub mod Outcome
use inkspire_lorcana_develop.Prelude.{
  ℕ, String, Bool, true, false, Option, none, some, ◌&&◌, Json, ◌==◌, ltb, if◌then◌else◌, find,
  update_where, count_where, opt_eq,
}
use inkspire_lorcana_develop.Jobs.Tables.{
  Job, queued, failed, succeeded, is_running, Attempt, attempt_succeeded, attempt_failed, Db,
  has_id,
}

-- The WHERE clause that all three share.
abbrev pub is_held : ℕ → ℕ → Job → Bool
is_held i token j = i == j.job_id && is_running j.status && opt_eq j.lease_token (some token)

-- `values`, with `progress` set only when the caller gives one.
abbrev pub beat_row : ℕ → ℕ → Option Json → Job → Job
beat_row now expires none j = record j { lease_expires_at = some expires; updated_at = now }
beat_row now expires (some p) j = record j {
  lease_expires_at = some expires;
  updated_at = now;
  progress = some p;
}

-- The result is `rowcount == 1`.
unfoldable pub heartbeat : ℕ → ℕ → ℕ → ℕ → Option Json → Db → Bool × Db
heartbeat i token now expires progress db = (
  count_where (is_held i token) db.jobs == 1,
  record db { jobs = update_where (is_held i token) (beat_row now expires progress) db.jobs },
)

abbrev pub succeed_row : ℕ → Option Json → Job → Job
succeed_row now p j = record j {
  status = succeeded;
  progress = p;
  completed_at = some now;
  updated_at = now;
  lease_owner = none;
  lease_token = none;
  lease_expires_at = none;
}

-- The WHERE clause of the UPDATE on `job_attempts`.
abbrev pub is_attempt_of : ℕ → ℕ → Attempt → Bool
is_attempt_of i token a = i == a.job_id && token == a.lease_token

unfoldable pub succeed : ℕ → ℕ → ℕ → Option Json → Db → Bool × Db
succeed i token now progress db =
    let jobs = update_where (is_held i token) (succeed_row now progress) db.jobs in
    if count_where (is_held i token) db.jobs == 1
    then (
      true,
      record {
        jobs = jobs;
        attempts =
            update_where (is_attempt_of i token)
              (λ a. record a { status = attempt_succeeded; completed_at = some now }) db.attempts;
      },
    )
    else (false, record db { jobs = jobs })

-- `can_retry`
abbrev pub can_retry : Option ℕ → Job → Bool
can_retry none current = false
can_retry (some t) current = ltb current.attempt_count current.max_attempts

abbrev pub retry_or : Option ℕ → ℕ → ℕ
retry_or none old = old
retry_or (some t) old = t

abbrev pub fail_row : Bool → ℕ → Option ℕ → String → String → Job → Job
fail_row retry now retry_at category summary j = record j {
  status = if retry then queued else failed;
  updated_at = now;
  completed_at = if retry then none else some now;
  lease_owner = none;
  lease_token = none;
  lease_expires_at = none;
  last_error_category = some category;
  last_error_summary = some summary;
  available_at = if retry then retry_or retry_at j.available_at else j.available_at;
}

unfoldable pub fail : ℕ → ℕ → ℕ → Option ℕ → String → String → Db → Bool × Db
fail i token now retry_at category summary db = elim (find (is_held i token) db.jobs) [
  | none ↦ (false, db)
  | some current ↦ (
    true,
    record {
      jobs =
          update_where (has_id i)
            (fail_row (can_retry retry_at current) now retry_at category summary) db.jobs;
      attempts =
          update_where (is_attempt_of i token)
            (λ a. record a {
              status = attempt_failed;
              completed_at = some now;
              error_category = some category;
              error_summary = some summary;
            })
            db.attempts;
    },
  )
]
