-- ===== src/Jobs/Lease.antt =====
-- `JobRepository.expire_exhausted_leases` and `claim` (src/lorcana/jobs/repository.py). Each is the
-- sequence of its SQL statements over the two tables. `FOR UPDATE SKIP LOCKED` skips the rows that
-- another transaction has locked, given by the predicate `locked`.
pub mod Select
pub mod Expire
pub mod Valid
pub mod Sweep
pub mod Claim
use inkspire_lorcana_develop.Prelude.{
  ℕ, ◌+◌, String, Bool, true, false, not, Option, none, some, List, [], ◌∷◌, ◌&&◌, ◌||◌, ltb_ℤ,
  eqb_ℤ, ◌==◌, ltb, leb, if◌then◌else◌, filter, length, update_where, opt_eq, opt_le, Result, ok,
  and_then,
}
use inkspire_lorcana_develop.Jobs.Tables.{
  Job, running, failed, is_queued, is_running, Attempt, attempt_running, attempt_lease_expired,
  is_attempt_running, Db, JobLease, has_id, insert_attempt,
}

-- The rows that `expire_exhausted_leases` selects.
abbrev pub exhausted : (ℕ → Bool) → ℕ → Job → Bool
exhausted locked now j =
    is_running j.status
    && opt_le j.lease_expires_at now
    && leb j.max_attempts j.attempt_count
    && not (locked j.job_id)

-- The first UPDATE of the loop, on a row of `jobs`.
abbrev pub expire_row : ℕ → Job → Job
expire_row now j = record j {
  status = failed;
  completed_at = some now;
  updated_at = now;
  lease_owner = none;
  lease_token = none;
  lease_expires_at = none;
  last_error_category = some "lease_expired";
  last_error_summary = some "Worker lease expired after the final allowed attempt.";
}

-- The second UPDATE of the loop, and that of a reclaimed job, on a row of `job_attempts`.
abbrev pub expire_attempt : String → ℕ → Attempt → Attempt
expire_attempt summary now a = record a {
  status = attempt_lease_expired;
  completed_at = some now;
  error_category = some "lease_expired";
  error_summary = some summary;
}

abbrev pub is_running_attempt : ℕ → ℕ → Attempt → Bool
is_running_attempt i n a = i == a.job_id && n == a.attempt_number && is_attempt_running a.status

-- The WHERE clause of the first UPDATE.
abbrev pub holds_token : ℕ → Option ℕ → Job → Bool
holds_token i token j = i == j.job_id && opt_eq j.lease_token token

-- The body of the `for` loop, for one selected row.
unfoldable pub expire_one : ℕ → Job → Db → Db
expire_one now r db = record {
  jobs = update_where (holds_token r.job_id r.lease_token) (expire_row now) db.jobs;
  attempts =
      update_where (is_running_attempt r.job_id r.attempt_count)
        (expire_attempt "Worker lease expired." now) db.attempts;
}

unfoldable pub expire_all : ℕ → List Job → Db → Db
unfolding expire_one
expire_all now [] db = db
expire_all now (r ∷ rs) db = expire_all now rs (expire_one now r db)

unfoldable pub expire_exhausted_leases : (ℕ → Bool) → ℕ → Db → ℕ × Db
unfolding expire_all
expire_exhausted_leases locked now db =
    let expired = filter (exhausted locked now) db.jobs in
    (length expired, expire_all now expired db)

-- The condition `claimable`.
abbrev pub claimable : ℕ → Job → Bool
claimable now j =
    (is_queued j.status && leb j.available_at now)
    || (is_running j.status && opt_le j.lease_expires_at now && ltb j.attempt_count j.max_attempts)

-- One key of an ascending ORDER BY before the test on the keys that follow it.
abbrev pub tie : ℕ → ℕ → Bool → Bool
tie a b rest = ltb a b || (a == b && rest)

-- `ORDER BY priority DESC, available_at, created_at, job_id`
abbrev pub precedes : Job → Job → Bool
precedes a b =
    ltb_ℤ b.priority a.priority
    || (eqb_ℤ a.priority b.priority
        && tie a.available_at b.available_at
            (tie a.created_at b.created_at (ltb a.job_id b.job_id)))

-- The first row of the order, for `ORDER BY … LIMIT 1`.
unfoldable pub first_by : (Job → Job → Bool) → List Job → Option Job
first_by before [] = none
first_by before (x ∷ xs) = elim (first_by before xs) [
  | none ↦ some x
  | some y ↦ some (if before y x then y else x)
]

unfoldable pub select_claimable : (ℕ → Bool) → ℕ → List Job → Option Job
unfolding first_by
select_claimable locked now jobs =
    first_by precedes (filter (λ j. claimable now j && not (locked j.job_id)) jobs)

abbrev pub is_some_token : Option ℕ → Bool
is_some_token none = false
is_some_token (some t) = true

-- A reclaimed job's open attempt is closed.
unfoldable pub close_reclaimed : ℕ → Job → Db → Db
close_reclaimed now row db =
    if is_running row.status && is_some_token row.lease_token
    then record db {
      attempts =
          update_where (is_running_attempt row.job_id row.attempt_count)
            (expire_attempt "Worker lease expired and the job was reclaimed." now) db.attempts;
    }
    else db

abbrev pub lease_row : ℕ → String → ℕ → ℕ → ℕ → Job → Job
lease_row number worker token now expires j = record j {
  status = running;
  attempt_count = number;
  lease_owner = some worker;
  lease_token = some token;
  lease_expires_at = some expires;
  updated_at = now;
  last_error_category = none;
  last_error_summary = none;
}

-- The statements of `claim` after the row is selected.
unfoldable pub hand_out : Job → String → ℕ → ℕ → ℕ → Db → Result (JobLease × Db)
hand_out row worker token now expires db =
    let closed = close_reclaimed now row db in
    let number = row.attempt_count + 1 in
    and_then
      (insert_attempt
        (record {
          job_id = row.job_id;
          attempt_number = number;
          lease_token = token;
          worker_id = worker;
          started_at = now;
          completed_at = none;
          status = attempt_running;
          error_category = none;
          error_summary = none;
        })
        (record closed {
          jobs =
              update_where (has_id row.job_id) (lease_row number worker token now expires)
                closed.jobs;
        }))
      (λ after. ok (
        record {
          job_id = row.job_id;
          kind = row.kind;
          resource_key = row.resource_key;
          payload = row.payload;
          attempt_number = number;
          max_attempts = row.max_attempts;
          lease_owner = worker;
          lease_token = token;
          lease_expires_at = expires;
        },
        after,
      ))

unfoldable pub claim : (ℕ → Bool) → String → ℕ → ℕ → ℕ → Db → Result (Option JobLease × Db)
unfolding expire_exhausted_leases select_claimable hand_out
claim locked worker token now expires db =
    let swept = (expire_exhausted_leases locked now db).1 in
    elim (select_claimable locked now swept.jobs) [
      | none ↦ ok (none, swept)
      | some row ↦
          and_then (hand_out row worker token now expires swept)
            (λ (lease, after). ok (some lease, after))
    ]
