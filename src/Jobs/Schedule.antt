-- ===== src/Jobs/Schedule.antt =====
-- Durable schedules (src/lorcana/jobs/schedule.py) over the table `scheduled_jobs`
-- (src/lorcana/db/schema/jobs.py). The texts of a UUID and of a point in time, and the rules of the time
-- zones, are parameters, since they are the standard library's. A specification is given by its fields
-- as `get`, `int` and `str` read them.
pub mod Occurrence
pub mod Service
pub mod Advanced
pub mod Due
pub mod Upsert
use inkspire_lorcana_develop.Prelude.{
  ℕ, zero, suc, ◌+◌, ◌*◌, String, Bool, true, false, not, Option, none, some, List, [], ◌∷◌, ◌++◌,
  ◌&&◌, ◌||◌, ◌==◌, ltb, leb, ltb_ℤ, if◌then◌else◌, filter, find, update_where, str_eq, text_append,
  Result, ok, err, and_then, value_error, ℤ, pos, pos_part, Json, Datetime, to_utc, seconds, Items,
  Fields,
}
use inkspire_lorcana_develop.Prelude.Values
use inkspire_lorcana_develop.Jobs.Tables.{Db}
use inkspire_lorcana_develop.Jobs.Enqueue
use inkspire_lorcana_develop.Jobs.Enqueue.{NewJob}

-- `UUID.__str__`, `datetime.isoformat` and `date.isoformat` of the date of a point in time.
pub record Texts : Type 0 where
  pub uuid_text : ℕ → String
  pub isoformat : ℕ → String
  pub date_isoformat : ℕ → String

-- A time zone: the local date, as a number of days, and the microseconds since its midnight; and the
-- point in time of a local date and time.
pub record Zone : Type 0 where
  pub local : ℕ → ℕ × ℕ
  pub instant : ℕ → ℕ → ℕ

pub data ScheduleSpec : Type 0 where
  interval : (every : ℤ) → ScheduleSpec
  daily : (hour minute : ℤ) (timezone : String) → ScheduleSpec
  unsupported : ScheduleSpec

-- The two reserved placeholders.
abbrev pub replaced : Texts → ℕ → String → String
replaced x t s =
    if str_eq s "$scheduled_at"
    then Texts.isoformat x t
    else if str_eq s "$scheduled_date"
    then Texts.date_isoformat x t
    else s

-- `materialize_scheduled_payload` at an aware time. A tuple becomes a list.
mutual
  pub materialize_scheduled_payload : Texts → ℕ → Json → Json
  materialize_scheduled_payload x t Values.null = Values.null
  materialize_scheduled_payload x t (Values.boolean b) = Values.boolean b
  materialize_scheduled_payload x t (Values.int n) = Values.int n
  materialize_scheduled_payload x t (Values.float n) = Values.float n
  materialize_scheduled_payload x t (Values.str s) = Values.str (replaced x t s)
  materialize_scheduled_payload x t (Values.list xs) = Values.list (materialize_items x t xs)
  materialize_scheduled_payload x t (Values.tuple xs) = Values.list (materialize_items x t xs)
  materialize_scheduled_payload x t (Values.mapping fs) = Values.mapping (materialize_fields x t fs)

  pub materialize_items : Texts → ℕ → Items → Items
  materialize_items x t Values.nil = Values.nil
  materialize_items x t (Values.cons v xs) =
      Values.cons (materialize_scheduled_payload x t v) (materialize_items x t xs)

  pub materialize_fields : Texts → ℕ → Fields → Fields
  materialize_fields x t Values.end = Values.end
  materialize_fields x t (Values.field k v fs) =
      Values.field k (materialize_scheduled_payload x t v) (materialize_fields x t fs)

-- `0 <= hour <= 23` and `0 <= minute <= 59`
abbrev pub in_range : ℤ → ℕ → Bool
in_range n top = not (ltb_ℤ n (pos 0)) && not (ltb_ℤ (pos top) n)

-- `time(hour, minute)`, in microseconds since midnight.
abbrev pub time_of_day : ℤ → ℤ → ℕ
time_of_day hour minute = (pos_part hour * 60 + pos_part minute) * 60000000

-- The candidate on the local date, or a day later if it is not after the local time. Both are wall
-- clock readings of the same zone.
abbrev pub next_local : ℕ → ℕ × ℕ → ℕ × ℕ
next_local at (day, time) = if leb at time then (suc day, at) else (day, at)

unfoldable pub next_occurrence : (String → Option Zone) → ScheduleSpec → Datetime → Result ℕ
next_occurrence zones (interval every) after =
    and_then (to_utc after)
      (λ t. if ltb_ℤ every (pos 60) then err value_error else ok (t + seconds (pos_part every)))
next_occurrence zones (daily hour minute timezone) after = and_then (to_utc after) (λ t.
    if not (in_range hour 23) || not (in_range minute 59)
    then err value_error
    else elim (zones timezone) [
      | none ↦ err value_error
      | some z ↦
          let (day, time) = next_local (time_of_day hour minute) (Zone.local z t) in
          ok (Zone.instant z day time)
    ])
next_occurrence zones unsupported after = and_then (to_utc after) (λ t. err value_error)

-- A row of `scheduled_jobs`.
pub record ScheduledJob : Type 0 where
  pub scheduled_job_id : ℕ
  pub name : String
  pub kind : String
  pub resource_key : Option String
  pub payload : Json
  pub schedule_spec : ScheduleSpec
  pub priority : ℤ
  pub max_attempts : ℕ
  pub enabled : Bool
  pub next_run_at : ℕ
  pub last_enqueued_at : Option ℕ
  pub created_at : ℕ
  pub updated_at : ℕ

-- The columns that an upsert of an existing name sets: not the id, the creation time and the last
-- occurrence.
abbrev pub replace_row : ScheduledJob → ScheduledJob → ScheduledJob
replace_row new old = record new {
  scheduled_job_id = old.scheduled_job_id;
  name = old.name;
  created_at = old.created_at;
  last_enqueued_at = old.last_enqueued_at;
}

abbrev pub is_schedule_named : String → ScheduledJob → Bool
is_schedule_named name s = str_eq s.name name

-- `ScheduleRepository.upsert`, which returns the id of the row. A new id is fresh.
unfoldable pub upsert : ScheduledJob → List ScheduledJob → ℕ × List ScheduledJob
upsert new rows = elim (find (is_schedule_named new.name) rows) [
  | none ↦ (new.scheduled_job_id, rows ++ new ∷ [])
  | some old ↦
      (old.scheduled_job_id, update_where (is_schedule_named new.name) (replace_row new) rows)
]

abbrev pub is_due : (ℕ → Bool) → ℕ → ScheduledJob → Bool
is_due locked now s = s.enabled && leb s.next_run_at now && not (locked s.scheduled_job_id)

-- `ORDER BY next_run_at, name … LIMIT 1`, with the order of names as a parameter.
unfoldable pub first_due : (String → String → Bool) → List ScheduledJob → Option ScheduledJob
first_due name_less [] = none
first_due name_less (s ∷ rest) = elim (first_due name_less rest) [
  | none ↦ some s
  | some r ↦ some (
      if ltb r.next_run_at s.next_run_at
        || (r.next_run_at == s.next_run_at && name_less r.name s.name)
      then r
      else s)
]

unfoldable pub next_due :
    (String → String → Bool) → (ℕ → Bool) → ℕ → List ScheduledJob → Option ScheduledJob
unfolding first_due
next_due name_less locked now rows = first_due name_less (filter (is_due locked now) rows)

abbrev pub advance_row : ℕ → ℕ → ℕ → ScheduledJob → ScheduledJob
advance_row scheduled_for following now s = record s {
  last_enqueued_at = some scheduled_for;
  next_run_at = following;
  updated_at = now;
}

abbrev pub is_schedule : ℕ → ScheduledJob → Bool
is_schedule i s = s.scheduled_job_id == i

-- `ScheduleRepository.advance`
unfoldable pub advance : ℕ → ℕ → ℕ → ℕ → List ScheduledJob → List ScheduledJob
advance i scheduled_for following now rows =
    update_where (is_schedule i) (advance_row scheduled_for following now) rows
