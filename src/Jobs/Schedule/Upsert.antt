-- ===== src/Jobs/Schedule/Upsert.antt =====
-- Repeated calls of `ScheduleRepository.upsert` under one name.
use inkspire_lorcana_develop.Prelude.{
  some, List, ◌≡◌, refl, sym, ap, ◌∙◌, find, find_appended, find_updated, str_eq_self, length,
  length-update_where, Option-cases, inl, inr,
}
use inkspire_lorcana_develop.Jobs.Schedule.{ScheduledJob, is_schedule_named, replace_row, upsert}

-- The row of the name after an upsert has the id that the upsert returns.
upsert-find :
    (new : ScheduledJob) (rows : List ScheduledJob)
    → (s : ScheduledJob) × (find (is_schedule_named new.name) (upsert new rows).1 ≡ some s)
      × (s.scheduled_job_id ≡ (upsert new rows).0)
      × (s.next_run_at ≡ new.next_run_at)
unfolding upsert
upsert-find new rows = elim (Option-cases (find (is_schedule_named new.name) rows)) [
  | inl absent ↦
      rw (absent, upsert)
        (
          new,
          find_appended (is_schedule_named new.name) rows new absent (str_eq_self new.name),
          refl,
          refl,
        )
  | inr (old, present) ↦
      rw (present, upsert)
        (
          replace_row new old,
          find_updated (is_schedule_named new.name) (replace_row new) rows (λ y. refl) present,
          refl,
          refl,
        )
]

upsert_present :
    (new : ScheduledJob) (rows : List ScheduledJob) {old : ScheduledJob}
    → find (is_schedule_named new.name) rows ≡ some old
    → ((upsert new rows).0 ≡ old.scheduled_job_id) × (length (upsert new rows).1 ≡ length rows)
unfolding upsert
upsert_present new rows {old} present =
    rw (present, upsert)
      (refl, length-update_where (is_schedule_named new.name) (replace_row new) rows)

-- Writing a schedule again under the same name adds no row, returns the id of the first write, and
-- leaves a row of that name with that id and the new next run.
pub upsert_again :
    (new newer : ScheduledJob) (rows : List ScheduledJob)
    → newer.name ≡ new.name
    → let (i, once) = upsert new rows in
      let (k, twice) = upsert newer once in
      (k ≡ i)
      × (length twice ≡ length once)
      × ((s : ScheduledJob) × (find (is_schedule_named new.name) twice ≡ some s)
          × (s.scheduled_job_id ≡ i)
          × (s.next_run_at ≡ newer.next_run_at))
upsert_again new newer rows named =
    let once = (upsert new rows).1 in
    let (s, found, id_of, at) = upsert-find new rows in
    let there : find (is_schedule_named newer.name) once ≡ some s =
      ap (λ n. find (is_schedule_named n) once) named ∙ found in
    let (same_id, same_length) = upsert_present newer once {old = s} there in
    let (t, found_t, id_t, at_t) = upsert-find newer once in
    (
      same_id ∙ id_of,
      same_length,
      (
        t,
        ap (λ n. find (is_schedule_named n) (upsert newer once).1) (sym named) ∙ found_t,
        id_t ∙ same_id ∙ id_of,
        at_t,
      ),
    )
