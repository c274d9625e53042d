-- ===== src/Jobs/ScheduleTests.antt =====
-- The theorems of the schedules at a concrete schedule.
use inkspire_lorcana_develop.Prelude.{
  ℕ, String, Bool, true, false, Option, none, some, [], ◌∷◌, ◌≡◌, ◌≢◌, ◌⊎◌, ◌<◌, ◌≤◌, ◌+◌, ◌*◌, ◌/◌,
  ◌%◌, inl, inr, arith, ap, subst, refl, find, ok, pos, aware,
}
use inkspire_lorcana_develop.Jobs.Tables.{Job, has_key}
use inkspire_lorcana_develop.Jobs.Schedule.{
  Texts, Zone, ScheduledJob, interval, daily, time_of_day, next_occurrence, is_schedule,
}
use inkspire_lorcana_develop.Jobs.Schedule.Service.{
  Store, Tick, occurrence_key, materialize_one, enqueue_due,
}
use inkspire_lorcana_develop.Jobs.Schedule.Occurrence.{
  IsLater, IsForward, IsReached, next_occurrence_later, daily_first,
}
use inkspire_lorcana_develop.Jobs.Schedule.Advanced.{IsAdvanced}
use inkspire_lorcana_develop.Jobs.Schedule.Due.{
  IsBounded, IsOccurrence, materialize_one_due, enqueue_due-IsBounded,
}
use inkspire_lorcana_develop.Jobs.Samples.{sample, sample-IsValid, no_fields, nothing_locked}

abbrev texts : Texts
texts = record { uuid_text = λ i. "id"; isoformat = λ t. "time"; date_isoformat = λ t. "date" }

-- A zone whose days are so long that every reading of the tests is in the first.
abbrev fixed : Zone
fixed = record { local = λ t. (0, t); instant = λ day time. day * 1000000000000000000 + time }

abbrev no_zones : String → Option Zone
no_zones name = none

abbrev one_zone : String → Option Zone
one_zone name = some fixed

-- UTC, with days of 86,400,000,000 microseconds.
abbrev utc : Zone
utc = record {
  local = λ t. (t / 86400000000, t % 86400000000);
  instant = λ day time. day * 86400000000 + time;
}

abbrev utc_zone : String → Option Zone
utc_zone name = some utc

utc-IsForward : IsForward utc
utc-IsForward u t upto (inl days) = omega arith
utc-IsForward u t upto (inr (day, time)) = omega arith

utc-IsReached : IsReached utc
utc-IsReached day time (inl days) = omega arith
utc-IsReached day time (inr (same, before)) = omega arith

utc_zone-IsSteady : (name : String) (z : Zone) → utc_zone name ≡ some z → IsForward z × IsReached z
utc_zone-IsSteady name z e =
    let same : utc ≡ z = ap (λ o. elim o [ none ↦ utc | some w ↦ w ]) e in
    subst (λ w. IsForward w × IsReached w) same (utc-IsForward, utc-IsReached)

next_occurrence_later_example : 93600000000 < 109800000000
unfolding next_occurrence
next_occurrence_later_example =
    next_occurrence_later utc_zone (daily (pos 6) (pos 30) "UTC") 93600000000 utc_zone-IsSteady refl

daily_first_example :
    (day : ℕ) × (next_occurrence one_zone (daily (pos 6) (pos 30) "UTC") (aware 5000000)
      ≡ ok (Zone.instant fixed day (time_of_day (pos 6) (pos 30))))
    × IsLater (day, time_of_day (pos 6) (pos 30)) (0, 5000000)
    × ((d : ℕ) → IsLater (d, time_of_day (pos 6) (pos 30)) (0, 5000000) → day ≤ d)
daily_first_example = daily_first one_zone (pos 6) (pos 30) "UTC" fixed 5000000 refl refl refl

abbrev schedule : ScheduledJob
schedule = record {
  scheduled_job_id = 1;
  name = "ratings";
  kind = "ratings.refresh";
  resource_key = none;
  payload = no_fields;
  schedule_spec = interval (pos 60);
  priority = pos 0;
  max_attempts = 3;
  enabled = true;
  next_run_at = 100;
  last_enqueued_at = none;
  created_at = 10;
  updated_at = 10;
}

abbrev store : Store
store = record { db = sample; schedules = schedule ∷ [] }

abbrev ticks : ℕ → Tick
ticks n = record { clock = aware 200; uuid = 50 + n; locked = nothing_locked }

abbrev alphabetic : String → String → Bool
alphabetic a b = false

materialize_one_due_example :
    let with_key = has_key (occurrence_key texts 1 100) in
    (after : Store) × (materialize_one texts no_zones alphabetic schedule 50 200 store ≡ ok after)
    × ((j : Job) × (find with_key after.db.jobs ≡ some j)
        × ((find with_key store.db.jobs ≡ some j) ⊎ IsOccurrence texts schedule 50 200 j))
    × ((r : ScheduledJob) × (find (is_schedule 1) after.schedules ≡ some r)
        × IsAdvanced 100 60000100 200 schedule r)
    × ((k : ℕ)
        → k ≢ 1
        → find (is_schedule k) after.schedules ≡ find (is_schedule k) store.schedules)
unfolding next_occurrence
materialize_one_due_example =
    materialize_one_due texts no_zones alphabetic schedule 50 200 store {row = schedule}
      {following = 60000100} (omega arith) refl refl refl

enqueue_due-IsBounded_example :
    IsBounded 0 25 4 (enqueue_due texts no_zones alphabetic ticks (pos 25) store)
enqueue_due-IsBounded_example =
    enqueue_due-IsBounded texts no_zones alphabetic ticks (pos 25) store sample-IsValid
