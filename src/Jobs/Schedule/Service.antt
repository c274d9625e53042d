-- ===== src/Jobs/Schedule/Service.antt =====
-- `ScheduledJobService` (src/lorcana/jobs/schedule.py): `upsert`, and `enqueue_due`, a loop of
-- transactions over the schedules and the job tables.
use inkspire_lorcana_develop.Prelude.{
  ℕ, zero, suc, String, Bool, Option, none, some, List, ◌||◌, ltb_ℤ, ℤ, pos, pos_part, strip,
  is_empty, Json, if◌then◌else◌, text_append, Result, ok, err, and_then, value_error, Datetime,
  aware, to_utc,
}
use inkspire_lorcana_develop.Jobs.Tables.{Db}
use inkspire_lorcana_develop.Jobs.Enqueue
use inkspire_lorcana_develop.Jobs.Queue.{payload_or_empty}
use inkspire_lorcana_develop.Jobs.Enqueue.{NewJob}
use inkspire_lorcana_develop.Jobs.Schedule.{
  Texts, Zone, ScheduledJob, materialize_scheduled_payload, next_occurrence, next_due, advance,
  ScheduleSpec, upsert,
}

pub record Store : Type 0 where
  pub db : Db
  pub schedules : List ScheduledJob

-- What one pass of the loop reads from outside: the clock, a UUID, and the rows that are locked.
pub record Tick : Type 0 where
  pub clock : Datetime
  pub uuid : ℕ
  pub locked : ℕ → Bool

abbrev pub occurrence_key : Texts → ℕ → ℕ → String
occurrence_key x i scheduled_for =
    text_append "schedule:"
      (text_append (Texts.uuid_text x i) (text_append ":" (Texts.isoformat x scheduled_for)))

-- The arguments of `job_repository.enqueue`.
abbrev pub occurrence_job : Texts → ScheduledJob → ℕ → ℕ → NewJob
occurrence_job x s uuid now = record {
  job_id = uuid;
  kind = s.kind;
  resource_key = s.resource_key;
  payload = materialize_scheduled_payload x s.next_run_at s.payload;
  idempotency_key = some (occurrence_key x s.scheduled_job_id s.next_run_at);
  priority = s.priority;
  max_attempts = s.max_attempts;
  available_at = s.next_run_at;
  created_at = now;
}

module _ (x : Texts) (zones : String → Option Zone) (name_less : String → String → Bool) where
  -- The transaction for the schedule that is due.
  unfoldable pub materialize_one : ScheduledJob → ℕ → ℕ → Store → Result Store
  materialize_one s uuid now store =
      and_then (Enqueue.enqueue (occurrence_job x s uuid now) store.db) (λ (r, db).
        and_then (next_occurrence zones s.schedule_spec (aware s.next_run_at)) (λ following.
          ok (record {
            db = db;
            schedules = advance s.scheduled_job_id s.next_run_at following now store.schedules;
          })))

  -- The loop, with the passes that are left and the number of jobs materialized so far, which is also
  -- the number of the pass. A pass that raises is rolled back and ends the loop.
  unfoldable pub enqueue_passes : (ℕ → Tick) → ℕ → ℕ → Store → Result ℕ × Store
  unfolding materialize_one
  enqueue_passes ticks zero materialized store = (ok materialized, store)
  enqueue_passes ticks (suc k) materialized store = elim (to_utc (ticks materialized).clock) [
    | err e ↦ (err e, store)
    | ok now ↦ elim (next_due name_less (ticks materialized).locked now store.schedules) [
      | none ↦ (ok materialized, store)
      | some s ↦ elim (materialize_one s (ticks materialized).uuid now store) [
        | err e ↦ (err e, store)
        | ok after ↦ enqueue_passes ticks k (suc materialized) after
      ]
    ]
  ]

  -- `enqueue_due`
  unfoldable pub enqueue_due : (ℕ → Tick) → ℤ → Store → Result ℕ × Store
  unfolding enqueue_passes
  enqueue_due ticks limit store =
      if ltb_ℤ limit (pos 1) || ltb_ℤ (pos 1000) limit
      then (err value_error, store)
      else enqueue_passes ticks (pos_part limit) 0 store

-- The arguments of `ScheduledJobService.upsert`.
pub record ScheduleRequest : Type 0 where
  pub name : String
  pub kind : String
  pub schedule_spec : ScheduleSpec
  pub payload : Option Json
  pub resource_key : Option String
  pub priority : ℤ
  pub max_attempts : ℤ
  pub enabled : Bool

abbrev pub requested_row : ScheduleRequest → ℕ → ℕ → ℕ → ScheduledJob
requested_row r uuid now next_run = record {
  scheduled_job_id = uuid;
  name = strip r.name;
  kind = strip r.kind;
  resource_key = r.resource_key;
  payload = payload_or_empty r.payload;
  schedule_spec = r.schedule_spec;
  priority = r.priority;
  max_attempts = pos_part r.max_attempts;
  enabled = r.enabled;
  next_run_at = next_run;
  last_enqueued_at = none;
  created_at = now;
  updated_at = now;
}

-- `ScheduledJobService.upsert`
unfoldable pub upsert_schedule :
    (String → Option Zone)
    → ScheduleRequest
    → Datetime
    → ℕ
    → List ScheduledJob
    → Result ℕ × List ScheduledJob
upsert_schedule zones r clock uuid rows =
    if is_empty (strip r.name) || is_empty (strip r.kind)
    then (err value_error, rows)
    else if ltb_ℤ r.max_attempts (pos 1)
    then (err value_error, rows)
    else elim (to_utc clock) [
      | err e ↦ (err e, rows)
      | ok now ↦ elim (next_occurrence zones r.schedule_spec (aware now)) [
        | err e ↦ (err e, rows)
        | ok next_run ↦
            let (i, after) = upsert (requested_row r uuid now next_run) rows in (ok i, after)
      ]
    ]
