-- ===== src/Jobs/Lease/Sweep.antt =====
-- What `expire_exhausted_leases` does to each row.
use inkspire_lorcana_develop.Prelude.{
  opt_eq_refl, All-update_where, ℕ, Bool, false, none, some, List, [], ◌∷◌, ◌≡◌, refl, ◌∙◌, ◌==◌,
  All, filter, ◌⊎◌, ◌≤◌, true, if◌then◌else◌, arith, Bool-cases, Option-cases, inl, inr,
}
use inkspire_lorcana_develop.Jobs.Tables.{
  Job, Db, find_job, JobStatus, queued, running, succeeded, failed, cancelled, is_running,
}
use inkspire_lorcana_develop.Jobs.Invariant.{IsValid, IdsDistinct}
use inkspire_lorcana_develop.Jobs.Invariant.Find.{
  find_job_id, find_job-update_where, filter-IdsDistinct, find_job-filter, find_job-filter_gone,
}
use inkspire_lorcana_develop.Jobs.Lease.{
  exhausted, expire_row, holds_token, is_running_attempt, expire_attempt, expire_one, expire_all,
  expire_exhausted_leases,
}

module _ (now i : ℕ) where
  expire_one_find :
      (r : Job) (db : Db)
      → find_job i (expire_one now r db).jobs ≡ elim (find_job i db.jobs) [
        | none ↦ none
        | some j ↦ some (if holds_token r.job_id r.lease_token j then expire_row now j else j)
      ]
  unfolding expire_one
  expire_one_find r db = ground (
    arith,
    find_job-update_where (holds_token r.job_id r.lease_token) (expire_row now) (λ j. refl) i
        db.jobs,
  )

  expire_one_other :
      (r : Job) (db : Db)
      → (i == r.job_id) ≡ false
      → find_job i (expire_one now r db).jobs ≡ find_job i db.jobs
  expire_one_other r db other = elim (Option-cases (find_job i db.jobs)) [
    | inl absent ↦ ground (arith, expire_one_find r db)
    | inr (j, found) ↦ ground (arith, expire_one_find r db, find_job_id i db.jobs {j = j} found)
  ]

  -- Rows of other ids are not touched.
  expire_all_other :
      (rs : List Job) (db : Db)
      → find_job i rs ≡ none
      → find_job i (expire_all now rs db).jobs ≡ find_job i db.jobs
  unfolding expire_all
  expire_all_other [] db h = refl
  expire_all_other (r ∷ rs) db h =
      expire_all_other rs (expire_one now r db) (ground arith)
      ∙ expire_one_other r db (ground arith)

  expire_all_self :
      (rs : List Job) (db : Db) {j : Job}
      → IdsDistinct rs
      → find_job i rs ≡ some j
      → find_job i db.jobs ≡ some j
      → find_job i (expire_all now rs db).jobs ≡ some (expire_row now j)
  unfolding expire_all
  expire_all_self [] db d h found = cc
  expire_all_self (r ∷ rs) db {j} d h found = elim (Bool-cases (i == r.job_id)) [
    | inl here ↦
        let same : r ≡ j = ground arith in
        expire_all_other rs (expire_one now r db) (ground (arith, d.0))
        ∙ ground (
          arith,
          expire_one_find r db,
          find_job_id i db.jobs {j = j} found,
          opt_eq_refl r.lease_token,
        )
    | inr there ↦
        expire_all_self rs (expire_one now r db) {j = j} d.1 (ground arith)
          (expire_one_other r db there ∙ found)
  ]

-- The sweep rewrites the rows that it selects.
pub expire_exhausted_leases_row :
    (locked : ℕ → Bool) (now i : ℕ) (db : Db) {j : Job}
    → IsValid db
    → find_job i db.jobs ≡ some j
    → find_job i (expire_exhausted_leases locked now db).1.jobs
      ≡ some (if exhausted locked now j then expire_row now j else j)
unfolding expire_exhausted_leases
expire_exhausted_leases_row locked now i db {j} v found =
    elim (Bool-cases (exhausted locked now j)) [
      | inl hit ↦ rw hit (
          expire_all_self now i (filter (exhausted locked now) db.jobs) db
            (filter-IdsDistinct (exhausted locked now) db.jobs v.ids)
            (find_job-filter i (exhausted locked now) db.jobs found hit) found)
      | inr miss ↦ rw miss (
          expire_all_other now i (filter (exhausted locked now) db.jobs) db
            (find_job-filter_gone i (exhausted locked now) db.jobs v.ids found miss)
          ∙ found)
    ]

-- An unlocked running job whose lease has expired and whose attempts are used up.
abbrev pub IsUsedUp : (ℕ → Bool) → ℕ → Job → Type 0
IsUsedUp locked now j =
    (j.status ≡ running)
    × ((t : ℕ) × (j.lease_expires_at ≡ some t) × (t ≤ now))
    × (j.max_attempts ≤ j.attempt_count)
    × (locked j.job_id ≡ false)

-- The row of a job that the sweep has failed.
abbrev pub IsExpired : ℕ → Job → Job → Type 0
IsExpired now j k =
    (k.status ≡ failed)
    × (k.completed_at ≡ some now)
    × (k.updated_at ≡ now)
    × (k.lease_owner ≡ none)
    × (k.lease_token ≡ none)
    × (k.lease_expires_at ≡ none)
    × (k.last_error_category ≡ some "lease_expired")
    × (k.attempt_count ≡ j.attempt_count)

running_status : (s : JobStatus) → is_running s ≡ true → s ≡ running
running_status queued h = cc
running_status running h = refl
running_status succeeded h = cc
running_status failed h = cc
running_status cancelled h = cc

exhausted-IsUsedUp :
    (locked : ℕ → Bool) (now : ℕ) (j : Job) → exhausted locked now j ≡ true → IsUsedUp locked now j
exhausted-IsUsedUp locked now j h =
    let expired : (t : ℕ) × (j.lease_expires_at ≡ some t) × (t ≤ now) =
      elim (Option-cases j.lease_expires_at) [
        | inl never ↦ absurd (ground (arith, never))
        | inr (t, until) ↦ (t, until, ground (arith, until))
      ] in
    (running_status j.status (ground arith), expired, ground arith, ground arith)

IsUsedUp-exhausted :
    (locked : ℕ → Bool) (now : ℕ) (j : Job) → IsUsedUp locked now j → exhausted locked now j ≡ true
IsUsedUp-exhausted locked now j (is, (t, until, past), used, free) = ground (arith, is, until, free)

-- On tables that satisfy the invariant, a job that is running, not locked, has a lease that ended
-- by now and as many attempts used as max_attempts or more is failed by the sweep, completed now,
-- with empty lease fields and the error category lease_expired; any other job's row is left as it
-- is.
pub expire_exhausted_leases_find :
    (locked : ℕ → Bool) (now i : ℕ) (db : Db) {j : Job}
    → IsValid db
    → find_job i db.jobs ≡ some j
    → let after = (expire_exhausted_leases locked now db).1 in
      (IsUsedUp locked now j × ((k : Job) × (find_job i after.jobs ≡ some k) × IsExpired now j k))
      ⊎ ((IsUsedUp locked now j → ⊥) × (find_job i after.jobs ≡ some j))
expire_exhausted_leases_find locked now i db {j} v found =
    let row = expire_exhausted_leases_row locked now i db {j = j} v found in
    elim (Bool-cases (exhausted locked now j)) [
      | inl hit ↦ inl (
        exhausted-IsUsedUp locked now j hit,
        (
          expire_row now j,
          ground (arith, row, hit),
          (refl, refl, refl, refl, refl, refl, refl, refl),
        ),
      )
      | inr miss ↦
          inr (λ u. let hit = IsUsedUp-exhausted locked now j u in cc, ground (arith, row, miss))
    ]

-- Lease tokens of attempts are never rewritten.
pub expire_all_tokens :
    (P : ℕ → Type 0) (now : ℕ) (rs : List Job) (db : Db)
    → All (λ a. P a.lease_token) db.attempts
    → All (λ a. P a.lease_token) (expire_all now rs db).attempts
unfolding expire_all
expire_all_tokens P now [] db h = h
expire_all_tokens P now (r ∷ rs) db h = expire_all_tokens P now rs (expire_one now r db) (
    All-update_where (λ a. P a.lease_token) (λ a. P a.lease_token)
      (is_running_attempt r.job_id r.attempt_count) (expire_attempt "Worker lease expired." now)
      db.attempts (λ a k e. k) (λ a k e. k) h)

pub expire_exhausted_leases_tokens :
    (P : ℕ → Type 0) (locked : ℕ → Bool) (now : ℕ) (db : Db)
    → All (λ a. P a.lease_token) db.attempts
    → All (λ a. P a.lease_token) (expire_exhausted_leases locked now db).1.attempts
unfolding expire_exhausted_leases
expire_exhausted_leases_tokens P locked now db h =
    expire_all_tokens P now (filter (exhausted locked now) db.jobs) db h
