-- ===== src/Jobs/Schedule/Advanced.antt =====
-- The table `scheduled_jobs` after `ScheduleRepository.advance` (src/lorcana/jobs/schedule.py).
use inkspire_lorcana_develop.Prelude.{
  ℕ, none, some, List, ◌≡◌, ◌≢◌, refl, find, if◌then◌else◌, find-update_where, find_meets, arith,
  Option-cases, inl, inr,
}
use inkspire_lorcana_develop.Jobs.Schedule.{ScheduledJob, advance, advance_row, is_schedule}

-- The row of a schedule that was moved on.
abbrev pub IsAdvanced : ℕ → ℕ → ℕ → ScheduledJob → ScheduledJob → Type 0
IsAdvanced scheduled_for following now row r =
    (r.next_run_at ≡ following)
    × (r.last_enqueued_at ≡ some scheduled_for)
    × (r.updated_at ≡ now)
    × (r.scheduled_job_id ≡ row.scheduled_job_id)
    × (r.name ≡ row.name)
    × (r.enabled ≡ row.enabled)
    × (r.schedule_spec ≡ row.schedule_spec)

module _ (i scheduled_for following now : ℕ) (rows : List ScheduledJob) where
  find-advance :
      (k : ℕ)
      → find (is_schedule k) (advance i scheduled_for following now rows)
        ≡ elim (find (is_schedule k) rows) [
          | none ↦ none
          | some r ↦ some (if is_schedule i r then advance_row scheduled_for following now r else r)
        ]
  unfolding advance
  find-advance k =
      find-update_where (is_schedule k) (is_schedule i) (advance_row scheduled_for following now)
        rows (λ r. refl)

  pub find-advance_self :
      {row : ScheduledJob}
      → find (is_schedule i) rows ≡ some row
      → find (is_schedule i) (advance i scheduled_for following now rows)
        ≡ some (advance_row scheduled_for following now row)
  find-advance_self {row} there =
      ground (arith, find-advance i, find_meets (is_schedule i) rows {x = row} there)

  pub find-advance_other :
      (k : ℕ)
      → k ≢ i
      → find (is_schedule k) (advance i scheduled_for following now rows)
        ≡ find (is_schedule k) rows
  find-advance_other k other = elim (Option-cases (find (is_schedule k) rows)) [
    | inl absent ↦ ground (arith, find-advance k)
    | inr (r, there) ↦ ground (arith, find-advance k, find_meets (is_schedule k) rows {x = r} there)
  ]
