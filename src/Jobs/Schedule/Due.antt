-- ===== src/Jobs/Schedule/Due.antt =====
-- Lemmas on `ScheduledJobService.enqueue_due`: its loop, and one pass of it.
use inkspire_lorcana_develop.Prelude.{
  ℕ, zero, suc, ◌+◌, ◌≤◌, String, Bool, Option, none, some, length, ◌≢◌, value_error, ◌≡◌, refl,
  sym, ap, subst, find, ltb_ℤ, ℤ, pos, pos_part, ◌||◌, Result, ok, err, and_then-eq-ok, arith,
  Error, ◌⊎◌, Bool-cases, Option-cases, inl, inr, aware, to_utc,
}
use inkspire_lorcana_develop.Jobs.Tables.{Job, queued, has_key, find_job}
use inkspire_lorcana_develop.Jobs.Invariant.{IsValid}
use inkspire_lorcana_develop.Jobs.Enqueue
use inkspire_lorcana_develop.Jobs.Enqueue.Valid.{enqueue-IsValid, length-enqueue}
use inkspire_lorcana_develop.Jobs.Enqueue.Idempotent.{enqueue_with_key}
use inkspire_lorcana_develop.Jobs.Schedule.{
  Texts, Zone, ScheduledJob, next_occurrence, next_due, advance, advance_row, is_schedule,
  materialize_scheduled_payload,
}
use inkspire_lorcana_develop.Jobs.Schedule.Advanced.{
  IsAdvanced, find-advance_self, find-advance_other,
}
use inkspire_lorcana_develop.Jobs.Schedule.Service.{
  Store, Tick, occurrence_key, occurrence_job, materialize_one, enqueue_passes, enqueue_due,
}

same_ok {ℓ} : {A : Type ℓ} (a b : A) → ok a ≡ ok b → a ≡ b
same_ok a b e = ap (λ r. elim r [ ok v ↦ v | err _ ↦ a ]) e

Result-cases {ℓ} :
    {A : Type ℓ} (r : Result A) → ((a : A) × (r ≡ ok a)) ⊎ ((e : Error) × (r ≡ err e))
Result-cases (ok a) = inl (a, refl)
Result-cases (err e) = inr (e, refl)

-- The tables are valid and have grown by the materialized jobs at most; a number of jobs that is
-- returned lies between the bounds, and covers the growth.
abbrev pub IsBounded : ℕ → ℕ → ℕ → Result ℕ × Store → Type 0
IsBounded low high jobs p =
    IsValid p.1.db
    × (length p.1.db.jobs + low ≤ jobs + high)
    × ((m : ℕ) → p.0 ≡ ok m → (low ≤ m) × (m ≤ high) × (length p.1.db.jobs + low ≤ jobs + m))

-- A queued job of the occurrence that is due.
abbrev pub IsOccurrence : Texts → ScheduledJob → ℕ → ℕ → Job → Type 0
IsOccurrence x s uuid now j =
    (j.job_id ≡ uuid)
    × (j.status ≡ queued)
    × (j.kind ≡ s.kind)
    × (j.payload ≡ materialize_scheduled_payload x s.next_run_at s.payload)
    × (j.available_at ≡ s.next_run_at)
    × (j.attempt_count ≡ 0)
    × (j.max_attempts ≡ s.max_attempts)
    × (j.created_at ≡ now)

new_row-IsOccurrence :
    (x : Texts) (s : ScheduledJob) (uuid now : ℕ)
    → IsOccurrence x s uuid now (Enqueue.new_row (occurrence_job x s uuid now))
unfolding Enqueue.new_row
new_row-IsOccurrence x s uuid now = (refl, refl, refl, refl, refl, refl, refl, refl)

module _ (x : Texts) (zones : String → Option Zone) (name_less : String → String → Bool) where
  -- For a schedule on record with max_attempts of at least 1 and a next occurrence after the one
  -- that is due, a pass of enqueue_due with a new UUID goes through. Under the occurrence's key
  -- there is then the job that was there before, or a new queued job with the UUID, the schedule's
  -- kind and budget and the materialized payload, available when it was due. The schedule's row
  -- then has the next occurrence as its next time, the materialized one as its last and the time
  -- of the pass, and the rows of other ids are as before.
  pub materialize_one_due :
      (s : ScheduledJob) (uuid now : ℕ) (store : Store) {row : ScheduledJob} {following : ℕ}
      → 1 ≤ s.max_attempts
      → find_job uuid store.db.jobs ≡ none
      → find (is_schedule s.scheduled_job_id) store.schedules ≡ some row
      → next_occurrence zones s.schedule_spec (aware s.next_run_at) ≡ ok following
      → let with_key = has_key (occurrence_key x s.scheduled_job_id s.next_run_at) in
        (after : Store) × (materialize_one x zones name_less s uuid now store ≡ ok after)
        × ((j : Job) × (find with_key after.db.jobs ≡ some j)
            × ((find with_key store.db.jobs ≡ some j) ⊎ IsOccurrence x s uuid now j))
        × ((r : ScheduledJob) × (find (is_schedule s.scheduled_job_id) after.schedules ≡ some r)
            × IsAdvanced s.next_run_at following now row r)
        × ((k : ℕ)
            → k ≢ s.scheduled_job_id
            → find (is_schedule k) after.schedules ≡ find (is_schedule k) store.schedules)
  unfolding materialize_one
  materialize_one_due s uuid now store {row} {following} allowed new there next =
      let id = s.scheduled_job_id in
      let key = occurrence_key x id s.next_run_at in
      let (j, r, db, given, found, whence) =
        enqueue_with_key (occurrence_job x s uuid now) key refl store.db allowed new in
      let made : Store = record {
        db = db;
        schedules = advance id s.next_run_at following now store.schedules;
      } in
      let which : (find (has_key key) store.db.jobs ≡ some j) ⊎ IsOccurrence x s uuid now j =
        elim whence [
          | inl old ↦ inl old
          | inr same ↦
              inr (subst (IsOccurrence x s uuid now) (sym same) (new_row-IsOccurrence x s uuid now))
        ] in
      (
        made,
        rw given (rw next refl),
        (j, found, which),
        (
          advance_row s.next_run_at following now row,
          find-advance_self id s.next_run_at following now store.schedules {row = row} there,
          (refl, refl, refl, refl, refl, refl, refl),
        ),
        λ k other. find-advance_other id s.next_run_at following now store.schedules k other,
      )

  materialize_one-IsValid :
      (s : ScheduledJob) (uuid now : ℕ) (store : Store) {after : Store}
      → IsValid store.db
      → materialize_one x zones name_less s uuid now store ≡ ok after
      → IsValid after.db × (length after.db.jobs ≤ suc (length store.db.jobs))
  unfolding materialize_one
  materialize_one-IsValid s uuid now store {after} v e =
      let ((r, db), given, e1) =
        and_then-eq-ok (Enqueue.enqueue (occurrence_job x s uuid now) store.db) _ e in
      let (following, next, e2) =
        and_then-eq-ok (next_occurrence zones s.schedule_spec (aware s.next_run_at)) _ e1 in
      let made : Store = record {
        db = db;
        schedules = advance s.scheduled_job_id s.next_run_at following now store.schedules;
      } in
      let same_store : made ≡ after = same_ok made after e2 in
      subst (λ st. IsValid st.db × (length st.db.jobs ≤ suc (length store.db.jobs))) same_store
        (
          enqueue-IsValid (occurrence_job x s uuid now) store.db v given,
          length-enqueue (occurrence_job x s uuid now) store.db given,
        )

  IsBounded-next :
      (n k jobs next : ℕ) (p : Result ℕ × Store)
      → next ≤ suc jobs
      → IsBounded (suc n) (suc n + k) next p
      → IsBounded n (n + suc k) jobs p
  IsBounded-next n k jobs next p grown (valid, growth, counted) = (
    valid,
    omega (arith, growth, grown),
    λ m e.
        let (low, high, growth) = counted m e in
        (omega (arith, low), omega (arith, high), omega (arith, growth, grown)),
  )

  IsBounded-idle :
      (n k : ℕ) (store : Store)
      → IsValid store.db
      → IsBounded n (n + k) (length store.db.jobs) (ok n, store)
  IsBounded-idle n k store v = (
    v,
    omega arith,
    λ m e.
        let same : n ≡ m = same_ok n m e in
        (omega (arith, same), omega (arith, same), omega (arith, same)),
  )

  IsBounded-raised :
      (n k : ℕ) (e : Error) (store : Store)
      → IsValid store.db
      → IsBounded n (n + k) (length store.db.jobs) (err e, store)
  IsBounded-raised n k e store v = (v, omega arith, λ m h. cc)

  IsBounded-from_zero :
      (high jobs : ℕ) (p : Result ℕ × Store)
      → IsBounded 0 (0 + high) jobs p
      → IsBounded 0 high jobs p
  IsBounded-from_zero high jobs p h =
      let same : 0 + high ≡ high = omega arith in subst (λ n. IsBounded 0 n jobs p) same h

  enqueue_passes-IsBounded :
      (ticks : ℕ → Tick) (k n : ℕ) (store : Store)
      → IsValid store.db
      → IsBounded n
          (n + k)
          (length store.db.jobs)
          (enqueue_passes x zones name_less ticks k n store)
  unfolding enqueue_passes
  enqueue_passes-IsBounded ticks zero n store v = IsBounded-idle n zero store v
  enqueue_passes-IsBounded ticks (suc k) n store v = elim (Result-cases (to_utc (ticks n).clock)) [
    | inr (e, bad) ↦ rw (bad, enqueue_passes) (IsBounded-raised n (suc k) e store v)
    | inl (now, good) ↦
        elim (Option-cases (next_due name_less (ticks n).locked now store.schedules)) [
          | inl idle ↦ rw (good, enqueue_passes) (rw idle (IsBounded-idle n (suc k) store v))
          | inr (s, due) ↦
              elim (Result-cases (materialize_one x zones name_less s (ticks n).uuid now store)) [
                | inr (e, bad) ↦
                    rw (good, enqueue_passes)
                      (rw due (rw bad (IsBounded-raised n (suc k) e store v)))
                | inl (after, made) ↦
                    let (valid, grown) =
                      materialize_one-IsValid s (ticks n).uuid now store v made in
                    rw (good, enqueue_passes)
                      (rw due (
                        rw made (
                          IsBounded-next n k (length store.db.jobs) (length after.db.jobs)
                            (enqueue_passes x zones name_less ticks k (suc n) after) grown
                            (enqueue_passes-IsBounded ticks k (suc n) after valid))))
              ]
        ]
  ]

  -- A call of enqueue_due keeps the invariant of the job tables, whether it returns or raises, and
  -- adds at most as many jobs as its limit. A count that it returns is within the limit, and at
  -- most that many jobs were added.
  pub enqueue_due-IsBounded :
      (ticks : ℕ → Tick) (limit : ℤ) (store : Store)
      → IsValid store.db
      → IsBounded 0
          (pos_part limit)
          (length store.db.jobs)
          (enqueue_due x zones name_less ticks limit store)
  unfolding enqueue_due
  enqueue_due-IsBounded ticks limit store v =
      elim (Bool-cases (ltb_ℤ limit (pos 1) || ltb_ℤ (pos 1000) limit)) [
        | inl bad ↦ rw bad (
            IsBounded-from_zero (pos_part limit) (length store.db.jobs) (err value_error, store)
              (IsBounded-raised 0 (pos_part limit) value_error store v))
        | inr good ↦ rw good (
            IsBounded-from_zero (pos_part limit) (length store.db.jobs)
              (enqueue_passes x zones name_less ticks (pos_part limit) 0 store)
              (enqueue_passes-IsBounded ticks (pos_part limit) 0 store v))
      ]
