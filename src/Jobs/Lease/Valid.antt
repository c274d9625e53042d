-- ===== src/Jobs/Lease/Valid.antt =====
-- The statements of `claim` after the selection, and the invariant of the tables.
use inkspire_lorcana_develop.Prelude.{
  ℕ, ◌+◌, String, Bool, true, false, none, some, List, [], ◌∷◌, ◌++◌, ◌≡◌, refl, ap, ◌&&◌, ◌==◌,
  All, All-append, any, update_where, count_where-append, if◌then◌else◌, arith, Bool-cases, inl,
  inr, ok, err, integrity_error, count_where-update_where,
}
use inkspire_lorcana_develop.Jobs.Tables.{
  Job, Attempt, attempt_running, is_running, Db, JobLease, find_job, has_id, collides,
  insert_attempt,
}
use inkspire_lorcana_develop.Jobs.Invariant.{RowOk, Fits, Counted, belongs, IsValid}
use inkspire_lorcana_develop.Jobs.Invariant.Find.{
  touch, find_job_id, find_job-update_where, rows_found, update_where-IdsDistinct,
  update_where-KeysDistinct,
}
use inkspire_lorcana_develop.Jobs.Invariant.Update.{Rewrites, All-update, All-fit}
use inkspire_lorcana_develop.Jobs.Lease.{
  claimable, is_running_attempt, expire_attempt, is_some_token, close_reclaimed, lease_row,
  hand_out,
}

abbrev pub reclaims : Job → Bool
reclaims row = is_running row.status && is_some_token row.lease_token

update_where_never :
    (b : Bool) (q : Attempt → Bool) (g : Attempt → Attempt) (rest : List Attempt)
    → update_where (λ a. b && q a) g rest ≡ (if b then update_where q g rest else rest)
update_where_never true q g rest = refl
update_where_never false q g [] = refl
update_where_never false q g (a ∷ rest) = ap (λ t. a ∷ t) (update_where_never false q g rest)

-- The token is not one that an attempt already has.
abbrev pub IsFresh : ℕ → ℕ → Type 0
IsFresh token t = (token == t) ≡ false

module _ (row : Job) (worker : String) (token now expires : ℕ) where
  abbrev pub new_attempt : Attempt
  new_attempt = record {
    job_id = row.job_id;
    attempt_number = row.attempt_count + 1;
    lease_token = token;
    worker_id = worker;
    started_at = now;
    completed_at = none;
    status = attempt_running;
    error_category = none;
    error_summary = none;
  }

  abbrev pub closed_attempts : List Attempt → List Attempt
  closed_attempts rest =
      update_where (λ a. reclaims row && is_running_attempt row.job_id row.attempt_count a)
        (expire_attempt "Worker lease expired and the job was reclaimed." now) rest

  abbrev pub leased_jobs : List Job → List Job
  leased_jobs jobs =
      update_where (has_id row.job_id) (lease_row (row.attempt_count + 1) worker token now expires)
        jobs

  abbrev pub lease_of : JobLease
  lease_of = record {
    job_id = row.job_id;
    kind = row.kind;
    resource_key = row.resource_key;
    payload = row.payload;
    attempt_number = row.attempt_count + 1;
    max_attempts = row.max_attempts;
    lease_owner = worker;
    lease_token = token;
    lease_expires_at = expires;
  }

  -- The tables after the row was handed out.
  abbrev pub leased : Db → Db
  leased db = record {
    jobs = leased_jobs db.jobs;
    attempts = closed_attempts db.attempts ++ new_attempt ∷ [];
  }

  lease-Rewrites :
      (jobs : List Job)
      → find_job row.job_id jobs ≡ some row
      → claimable now row ≡ true
      → RowOk row
      → Rewrites jobs
          (has_id row.job_id)
          (lease_row (row.attempt_count + 1) worker token now expires)
          (λ a. reclaims row && is_running_attempt row.job_id row.attempt_count a)
          (expire_attempt "Worker lease expired and the job was reclaimed." now)
  lease-Rewrites jobs found can row_ok = record {
    keep_id = λ j. refl;
    keep_key = λ j. refl;
    keep_owner = λ a. refl;
    row = λ j at ok_row. ground arith;
    fit = λ j a at ok_row h. ground (arith, find_job_id a.job_id jobs {j = j} at);
  }

  new-Fits :
      (jobs : List Job) → find_job row.job_id jobs ≡ some row → Fits (leased_jobs jobs) new_attempt
  new-Fits jobs found = ground (
    arith,
    find_job-update_where (has_id row.job_id)
        (lease_row (row.attempt_count + 1) worker token now expires) (λ j. refl) row.job_id jobs,
  )

  leased-Counted :
      (rest : List Attempt) (jobs : List Job) (j : Job)
      → find_job row.job_id jobs ≡ some row
      → find_job j.job_id jobs ≡ some j
      → Counted rest j
      → Counted
          (closed_attempts rest ++ new_attempt ∷ [])
          (touch (has_id row.job_id) (lease_row (row.attempt_count + 1) worker token now expires) j)
  leased-Counted rest jobs j found at h = ground (
    arith,
    count_where-append (belongs j.job_id) (closed_attempts rest) (new_attempt ∷ []),
    count_where-update_where (belongs j.job_id)
        (λ a. reclaims row && is_running_attempt row.job_id row.attempt_count a)
        (expire_attempt "Worker lease expired and the job was reclaimed." now) rest (λ a. refl),
  )

  -- Handing a claimable row out keeps the invariant.
  pub leased-IsValid :
      (db : Db)
      → find_job row.job_id db.jobs ≡ some row
      → claimable now row ≡ true
      → RowOk row
      → IsValid db
      → IsValid (leased db)
  leased-IsValid db found can row_ok v =
      let write = lease_row (row.attempt_count + 1) worker token now expires in
      let w = lease-Rewrites db.jobs found can row_ok in
      record {
        ids = update_where-IdsDistinct (has_id row.job_id) write (λ j. refl) db.jobs v.ids;
        keys = update_where-KeysDistinct (has_id row.job_id) write (λ j. refl) db.jobs v.keys;
        rows =
            All-update RowOk RowOk (has_id row.job_id) write db.jobs db.jobs w.row
              (rows_found db.jobs v.ids) v.rows;
        fits =
            All-append (Fits (leased_jobs db.jobs)) (closed_attempts db.attempts) (new_attempt ∷ [])
              (All-fit db w db.attempts v.rows v.fits) (new-Fits db.jobs found, tt);
        counted =
            All-update (Counted db.attempts) (Counted (leased db).attempts) (has_id row.job_id)
              write db.jobs db.jobs (λ j. leased-Counted db.attempts db.jobs j found)
              (rows_found db.jobs v.ids) v.counted;
      }

  close_reclaimed_lem :
      (db : Db)
      → close_reclaimed now row db
        ≡ record { jobs = db.jobs; attempts = closed_attempts db.attempts }
  unfolding close_reclaimed
  close_reclaimed_lem db = ground (
    arith,
    update_where_never (reclaims row) (is_running_attempt row.job_id row.attempt_count)
        (expire_attempt "Worker lease expired and the job was reclaimed." now) db.attempts,
  )

  insert_attempt_eq :
      (db : Db)
      → find_job row.job_id db.jobs ≡ some row
      → insert_attempt new_attempt
          (record { jobs = leased_jobs db.jobs; attempts = closed_attempts db.attempts })
        ≡ (if any (collides new_attempt) (closed_attempts db.attempts)
            then err integrity_error
            else ok (leased db))
  unfolding insert_attempt
  insert_attempt_eq db found = ground (
    arith,
    find_job-update_where (has_id row.job_id)
        (lease_row (row.attempt_count + 1) worker token now expires) (λ j. refl) row.job_id db.jobs,
  )

  hand_out_eq :
      (db : Db)
      → find_job row.job_id db.jobs ≡ some row
      → hand_out row worker token now expires db ≡ (
          if any (collides new_attempt) (closed_attempts db.attempts)
          then err integrity_error
          else ok (lease_of, leased db))
  unfolding hand_out
  hand_out_eq db found = rw close_reclaimed_lem (
      rw (insert_attempt_eq db found)
        (elim (Bool-cases (any (collides new_attempt) (closed_attempts db.attempts))) [
          | inl hit ↦ rw hit refl
          | inr free ↦ rw free refl
        ]))

  -- What `hand_out` returns, if it returns.
  pub hand_out_ok :
      (db : Db) {lease : JobLease} {after : Db}
      → find_job row.job_id db.jobs ≡ some row
      → hand_out row worker token now expires db ≡ ok (lease, after)
      → (lease ≡ lease_of) × (after ≡ leased db)
  hand_out_ok db found e =
      elim (Bool-cases (any (collides new_attempt) (closed_attempts db.attempts))) [
        | inl hit ↦ absurd (ground (arith, hand_out_eq db found))
        | inr free ↦ ground (arith, hand_out_eq db found)
      ]

  no_collision :
      (jobs : List Job) (rest : List Attempt)
      → find_job row.job_id jobs ≡ some row
      → All (Fits jobs) rest
      → All (λ a. IsFresh token a.lease_token) rest
      → any (collides new_attempt) (closed_attempts rest) ≡ false
  no_collision jobs [] found fits fresh = refl
  no_collision jobs (a ∷ rest) found fits fresh =
      ground (arith, no_collision jobs rest found fits.1 fresh.1, fits.0, fresh.0)

  pub hand_out_total :
      (db : Db)
      → find_job row.job_id db.jobs ≡ some row
      → All (Fits db.jobs) db.attempts
      → All (λ a. IsFresh token a.lease_token) db.attempts
      → hand_out row worker token now expires db ≡ ok (lease_of, leased db)
  hand_out_total db found fits fresh =
      ground (arith, hand_out_eq db found, no_collision db.jobs db.attempts found fits fresh)
