-- ===== src/Jobs/Invariant/Defs.antt =====
-- The invariant of the tables `jobs` and `job_attempts`.
use inkspire_lorcana_develop.Prelude.{
  ℕ, Bool, true, false, Option, none, some, List, [], ◌∷◌, ◌≡◌, ◌≤◌, ◌<◌, ◌==◌, All, count_where,
}
use inkspire_lorcana_develop.Jobs.Tables.{
  Job, queued, running, is_running, is_terminal, Attempt, is_attempt_running, Db, find_job,
  find_key,
}

abbrev pub is_given {ℓ} : {A : Type ℓ} → Option A → Bool
is_given none = false
is_given (some a) = true

-- One row of `jobs`. Attempts stay within the budget, and a queued job has one left; exactly the
-- running jobs are leased, and exactly the terminal ones have a completion time.
pub record RowOk (j : Job) : Type 0 where
  pub budget : j.attempt_count ≤ j.max_attempts
  pub queued_left : j.status ≡ queued → j.attempt_count < j.max_attempts
  pub owned : is_given j.lease_owner ≡ is_running j.status
  pub leased : is_given j.lease_token ≡ is_running j.status
  pub expiring : is_given j.lease_expires_at ≡ is_running j.status
  pub completed : is_given j.completed_at ≡ is_terminal j.status

-- One row of `job_attempts` beside the job that it refers to: it exists, the attempt's number is one
-- that was handed out, and an open attempt is the one that holds the job's lease.
abbrev pub FitsRow : Option Job → Attempt → Type 0
FitsRow none a = ⊥
FitsRow (some j) a =
    (1 ≤ a.attempt_number)
    × (a.attempt_number ≤ j.attempt_count)
    × (is_attempt_running a.status ≡ true
        → (j.status ≡ running)
          × (j.lease_token ≡ some a.lease_token)
          × (a.attempt_number ≡ j.attempt_count))

abbrev pub Fits : List Job → Attempt → Type 0
Fits jobs a = FitsRow (find_job a.job_id jobs) a

-- No two rows of `jobs` share an id; no two share an idempotency key.
abbrev pub IdsDistinct : List Job → Type 0
IdsDistinct [] = Unit
IdsDistinct (j ∷ js) = (find_job j.job_id js ≡ none) × IdsDistinct js

abbrev pub KeysDistinct : List Job → Type 0
KeysDistinct [] = Unit
KeysDistinct (j ∷ js) = (find_key j.idempotency_key js ≡ none) × KeysDistinct js

-- The attempts recorded for a job.
abbrev pub belongs : ℕ → Attempt → Bool
belongs i a = i == a.job_id

abbrev pub Counted : List Attempt → Job → Type 0
Counted attempts j = count_where (belongs j.job_id) attempts ≡ j.attempt_count

pub record IsValid (db : Db) : Type 0 where
  pub ids : IdsDistinct db.jobs
  pub keys : KeysDistinct db.jobs
  pub rows : All RowOk db.jobs
  pub fits : All (Fits db.jobs) db.attempts
  pub counted : All (Counted db.attempts) db.jobs
