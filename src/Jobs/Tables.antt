-- ===== src/Jobs/Tables.antt =====
-- The tables `jobs` and `job_attempts` (src/lorcana/db/schema/jobs.py) and the records of
-- src/lorcana/jobs/types.py. A UUID is a number, since the code only compares and orders them; a
-- point in time is a number of microseconds in UTC.
use inkspire_lorcana_develop.Prelude.{
  ℕ, String, Bool, true, false, Option, none, some, List, [], ◌∷◌, ◌++◌, ◌&&◌, ◌||◌, Json, ℤ, ◌==◌,
  ltb, if◌then◌else◌, find, any, key_eq, Result, ok, err, integrity_error,
}

pub data JobStatus : Type 0 where
  queued running succeeded failed cancelled : JobStatus

abbrev pub is_queued : JobStatus → Bool
is_queued queued = true
is_queued _ = false

abbrev pub is_running : JobStatus → Bool
is_running running = true
is_running _ = false

-- `status IN ('succeeded', 'failed', 'cancelled')`
abbrev pub is_terminal : JobStatus → Bool
is_terminal queued = false
is_terminal running = false
is_terminal _ = true

pub record Job : Type 0 where
  pub job_id : ℕ
  pub kind : String
  pub resource_key : Option String
  pub payload : Json
  pub idempotency_key : Option String
  pub status : JobStatus
  pub priority : ℤ
  pub attempt_count : ℕ
  pub max_attempts : ℕ
  pub available_at : ℕ
  pub lease_owner : Option String
  pub lease_token : Option ℕ
  pub lease_expires_at : Option ℕ
  pub progress : Option Json
  pub created_at : ℕ
  pub updated_at : ℕ
  pub completed_at : Option ℕ
  pub last_error_category : Option String
  pub last_error_summary : Option String

pub data AttemptStatus : Type 0 where
  attempt_running attempt_succeeded attempt_failed attempt_lease_expired : AttemptStatus

abbrev pub is_attempt_running : AttemptStatus → Bool
is_attempt_running attempt_running = true
is_attempt_running _ = false

pub record Attempt : Type 0 where
  pub job_id : ℕ
  pub attempt_number : ℕ
  pub lease_token : ℕ
  pub worker_id : String
  pub started_at : ℕ
  pub completed_at : Option ℕ
  pub status : AttemptStatus
  pub error_category : Option String
  pub error_summary : Option String

pub record Db : Type 0 where
  pub jobs : List Job
  pub attempts : List Attempt

abbrev pub empty : Db
empty = record { jobs = []; attempts = [] }

pub record EnqueuedJob : Type 0 where
  pub job_id : ℕ
  pub created : Bool

pub record JobLease : Type 0 where
  pub job_id : ℕ
  pub kind : String
  pub resource_key : Option String
  pub payload : Json
  pub attempt_number : ℕ
  pub max_attempts : ℕ
  pub lease_owner : String
  pub lease_token : ℕ
  pub lease_expires_at : ℕ

pub record JobFailureResult : Type 0 where
  pub job_id : ℕ
  pub status : JobStatus
  pub retry_at : Option ℕ

-- `jobs.c.job_id == job_id`
abbrev pub has_id : ℕ → Job → Bool
has_id i j = i == j.job_id

-- `jobs.c.idempotency_key == key`
abbrev pub has_key : String → Job → Bool
has_key k j = key_eq j.idempotency_key k

abbrev pub find_job : ℕ → List Job → Option Job
find_job i jobs = find (has_id i) jobs

abbrev pub find_key : Option String → List Job → Option Job
find_key none jobs = none
find_key (some k) jobs = find (has_key k) jobs

-- INSERT into `jobs`: the constraints `max_attempts >= 1`, the primary key and the unique key.
unfoldable pub insert_job : Job → Db → Result Db
insert_job row db =
    if ltb row.max_attempts 1 then err integrity_error else elim (find_job row.job_id db.jobs) [
      | some _ ↦ err integrity_error
      | none ↦ elim (find_key row.idempotency_key db.jobs) [
        | some _ ↦ err integrity_error
        | none ↦ ok (record db { jobs = db.jobs ++ row ∷ [] })
      ]
    ]

-- A row of `job_attempts` that an insert of `a` would collide with: the primary key
-- `(job_id, attempt_number)` or the unique key `(job_id, lease_token)`.
abbrev pub collides : Attempt → Attempt → Bool
collides a b =
    a.job_id == b.job_id && (a.attempt_number == b.attempt_number || a.lease_token == b.lease_token)

-- INSERT into `job_attempts`, the foreign key to `jobs` included.
unfoldable pub insert_attempt : Attempt → Db → Result Db
insert_attempt a db =
    if any (collides a) db.attempts then err integrity_error else elim (find_job a.job_id db.jobs) [
      | none ↦ err integrity_error
      | some _ ↦ ok (record db { attempts = db.attempts ++ a ∷ [] })
    ]
