-- ===== src/Jobs/Enqueue.antt =====
-- `JobRepository.enqueue` (src/lorcana/jobs/repository.py).
pub mod Valid
pub mod Idempotent
use inkspire_lorcana_develop.Prelude.{
  ℕ, String, Bool, true, false, Option, none, some, Json, ℤ, find, Result, ok, err, and_then, ltb,
  if◌then◌else◌, integrity_error,
}
use inkspire_lorcana_develop.Jobs.Tables.{Job, queued, Db, has_key, insert_job}

-- The keyword arguments of `enqueue`.
pub record NewJob : Type 0 where
  pub job_id : ℕ
  pub kind : String
  pub resource_key : Option String
  pub payload : Json
  pub idempotency_key : Option String
  pub priority : ℤ
  pub max_attempts : ℕ
  pub available_at : ℕ
  pub created_at : ℕ

-- The dictionary `values`.
unfoldable pub new_row : NewJob → Job
new_row n = record {
  job_id = n.job_id;
  kind = n.kind;
  resource_key = n.resource_key;
  payload = n.payload;
  idempotency_key = n.idempotency_key;
  status = queued;
  priority = n.priority;
  attempt_count = 0;
  max_attempts = n.max_attempts;
  available_at = n.available_at;
  lease_owner = none;
  lease_token = none;
  lease_expires_at = none;
  progress = none;
  created_at = n.created_at;
  updated_at = n.created_at;
  completed_at = none;
  last_error_category = none;
  last_error_summary = none;
}

-- The insert, and the pair that `enqueue` returns for a new row.
abbrev pub insert_new : NewJob → Db → Result ((ℕ × Bool) × Db)
insert_new n db = and_then (insert_job (new_row n) db) (λ after. ok ((n.job_id, true), after))

-- With a key: `ON CONFLICT (idempotency_key) DO NOTHING`, then the row that has the key. The database
-- checks `max_attempts >= 1` (src/lorcana/db/schema/jobs.py) before it looks for a conflict.
unfoldable pub enqueue : NewJob → Db → Result ((ℕ × Bool) × Db)
enqueue n db = elim n.idempotency_key [
  | none ↦ insert_new n db
  | some key ↦ elim (find (has_key key) db.jobs) [
    | none ↦ insert_new n db
    | some existing ↦
        if ltb n.max_attempts 1 then err integrity_error else ok ((existing.job_id, false), db)
  ]
]
