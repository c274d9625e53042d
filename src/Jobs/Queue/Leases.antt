-- ===== src/Jobs/Queue/Leases.antt =====
-- Leases as `JobQueue` hands them out and takes them back.
use inkspire_lorcana_develop.Prelude.{
  Json, job_lease_lost, ℕ, ◌+◌, String, Bool, true, false, Option, some, ◌≡◌, refl, ap, ◌∙◌, ◌≤◌,
  Result, ok, err, arith, Bool-cases, inl, inr, pos, ltb_ℤ, seconds, Datetime, naive, aware,
  is_empty, strip, transact,
}
use inkspire_lorcana_develop.Jobs.Tables.{Job, Db, JobLease, JobFailureResult, find_job}
use inkspire_lorcana_develop.Jobs.Invariant.{IsValid}
use inkspire_lorcana_develop.Jobs.Lease
use inkspire_lorcana_develop.Jobs.Lease.Claim.{
  Claims, idle, handed, claim-Claims, claim-IsValid, leased_find, swept,
}
use inkspire_lorcana_develop.Jobs.Holder.{is_held, can_retry, fail_row}
use inkspire_lorcana_develop.Jobs.Holder
use inkspire_lorcana_develop.Jobs.Holder.Outcome.{fail_held_row}
use inkspire_lorcana_develop.Jobs.Holder.Fencing.{stale_writes_nothing}
use inkspire_lorcana_develop.Jobs.Queue.{
  JobQueue, Failure, succeed, claim, fail, retry_time, failure_result, or_lost, truncate,
}

-- A call of `claim` that returns read the clock and committed the repository's transaction.
claim_ok :
    (q : JobQueue) (locked : ℕ → Bool) (worker : String) (clock : Datetime) (token : ℕ) (db : Db)
    {r : Option JobLease} {after : Db}
    → claim q locked worker clock token db ≡ (ok r, after)
    → (now : ℕ) × (clock ≡ aware now)
      × (Lease.claim locked worker token now (now + seconds q.lease_seconds) db ≡ ok (r, after))
unfolding claim
claim_ok q locked worker (naive t) token db e = absurd (ground arith)
claim_ok q locked worker (aware now) token db e = (now, refl, ground arith)

claim-transact :
    (db : Db) (r : Result (Option JobLease × Db))
    → IsValid db
    → ((l : Option JobLease) (after : Db) → r ≡ ok (l, after) → IsValid after)
    → IsValid (transact (λ d. r) db).1
claim-transact db (ok (l, after)) v h = h l after refl
claim-transact db (err e) v h = v

pub queue_claim-IsValid :
    (q : JobQueue) (locked : ℕ → Bool) (worker : String) (clock : Datetime) (token : ℕ) (db : Db)
    → IsValid db
    → IsValid (claim q locked worker clock token db).1
unfolding claim
queue_claim-IsValid q locked worker (naive t) token db v =
    elim (Bool-cases (is_empty (strip worker))) [ inl blank ↦ rw blank v | inr named ↦ rw named v ]
queue_claim-IsValid q locked worker (aware now) token db v =
    elim (Bool-cases (is_empty (strip worker))) [
      | inl blank ↦ rw blank v
      | inr named ↦ rw named (
          claim-transact db (Lease.claim locked worker token now (now + seconds q.lease_seconds) db)
            v
            (λ l after e.
              claim-IsValid locked worker token now (now + seconds q.lease_seconds) db v e))
    ]

-- The row of a job agrees with the lease that was handed out for it.
pub record IsLeaseOf (lease : JobLease) (j : Job) : Type 0 where
  pub held : is_held lease.job_id lease.lease_token j ≡ true
  pub until : j.lease_expires_at ≡ some lease.lease_expires_at
  pub number : j.attempt_count ≡ lease.attempt_number
  pub budget : j.max_attempts ≡ lease.max_attempts
  pub within : lease.attempt_number ≤ lease.max_attempts

Claims-IsLeaseOf :
    (locked : ℕ → Bool) (worker : String) (token now expires : ℕ) (db : Db) {lease : JobLease}
    {after : Db}
    → Claims locked worker token now expires db (some lease) after
    → (j : Job) × (find_job lease.job_id after.jobs ≡ some j) × IsLeaseOf lease j
Claims-IsLeaseOf locked worker token now expires db (idle e same none_left) = absurd (ground arith)
Claims-IsLeaseOf locked worker token now expires db {lease} {after}
      (handed row e same found row_ok can least) =
    (
      Lease.lease_row (row.attempt_count + 1) worker token now expires row,
      ground (
        arith,
        leased_find locked worker token now expires row (swept locked worker token now expires db)
            row.job_id,
      ),
      ground arith,
    )

-- On tables that satisfy the invariant, a lease that JobQueue.claim returns is the job's: its row
-- is running under the lease's token until the lease's expiry, its attempt count is the lease's
-- attempt number, and that number is within max_attempts.
pub claimed_IsLeaseOf :
    (q : JobQueue) (locked : ℕ → Bool) (worker : String) (clock : Datetime) (token : ℕ) (db : Db)
    {lease : JobLease} {after : Db}
    → IsValid db
    → claim q locked worker clock token db ≡ (ok (some lease), after)
    → (j : Job) × (find_job lease.job_id after.jobs ≡ some j) × IsLeaseOf lease j
claimed_IsLeaseOf q locked worker clock token db v e =
    let (now, aware_clock, given) = claim_ok q locked worker clock token db e in
    Claims-IsLeaseOf locked worker token now (now + seconds q.lease_seconds) db
      (claim-Claims locked worker token now (now + seconds q.lease_seconds) db v given)

-- `fail` with a clock that is aware and a delay that is not negative is the repository's transaction.
pub fail_aware :
    (lease : JobLease) (error : Failure) (retryable : Bool) (delay now : ℕ) (db : Db)
    → fail lease error retryable (pos delay) (aware now) db
      ≡ or_lost (failure_result lease (retry_time lease retryable now delay)) (
          Holder.fail lease.job_id lease.lease_token now
            (retry_time lease retryable now delay)
            (truncate 200 error.name)
            (truncate 4000 error.message)
            db)
unfolding fail
fail_aware lease error retryable delay now db =
    let fine : ltb_ℤ (pos delay) (pos 0) ≡ false = ground arith in rw fine refl

pub or_lost_done {ℓ} : {A : Type ℓ} (a : A) (p : Bool × Db) → p.0 ≡ true → or_lost a p ≡ (ok a, p.1)
or_lost_done a (true, db) h = refl
or_lost_done a (false, db) h = cc

-- On tables that satisfy the invariant, for the lease of a running job, JobQueue.fail with a non-
-- negative delay at an aware time returns the status that the row then has, and a reported retry
-- time is the time at which the row becomes available.
pub fail_report :
    (lease : JobLease) (error : Failure) (retryable : Bool) (delay : ℕ) (now : ℕ) (db : Db)
    {j : Job}
    → IsValid db
    → find_job lease.job_id db.jobs ≡ some j
    → IsLeaseOf lease j
    → let (r, after) = fail lease error retryable (pos delay) (aware now) db in
      (report : JobFailureResult) × (row : Job) × (r ≡ ok report)
      × (find_job lease.job_id after.jobs ≡ some row)
      × (row.status ≡ report.status)
      × ((t : ℕ) → report.retry_at ≡ some t → row.available_at ≡ t)
fail_report lease error retryable delay now db {j} v found of =
    let retry_at = retry_time lease retryable now delay in
    let h =
      fail_held_row lease.job_id lease.lease_token now db {j = j} v found of.held retry_at
        (truncate 200 error.name) (truncate 4000 error.message) in
    let ended =
      fail_aware lease error retryable delay now db
      ∙ or_lost_done (failure_result lease retry_at)
          (Holder.fail lease.job_id lease.lease_token now retry_at (truncate 200 error.name)
            (truncate 4000 error.message) db)
          h.0 in
    (
      failure_result lease retry_at,
      fail_row (can_retry retry_at j) now retry_at (truncate 200 error.name)
          (truncate 4000 error.message) j,
      ap (λ p. p.0) ended,
      ap (λ p. find_job lease.job_id p.1.jobs) ended ∙ h.1,
      ground arith,
      λ t given. ground arith,
    )

-- The same for `succeed`, and both calls where the repository's transaction found the row.
pub queue_succeed :
    (lease : JobLease) (progress : Option Json) (now : ℕ) (db : Db)
    → (Holder.succeed lease.job_id lease.lease_token now progress db).0 ≡ true
    → succeed lease progress (aware now) db
      ≡ (ok tt, (Holder.succeed lease.job_id lease.lease_token now progress db).1)
unfolding succeed
queue_succeed lease progress now db h =
    or_lost_done tt (Holder.succeed lease.job_id lease.lease_token now progress db) h

pub queue_fail :
    (lease : JobLease) (error : Failure) (retryable : Bool) (delay now : ℕ) (db : Db)
    → let retry_at = retry_time lease retryable now delay in
      let p =
        Holder.fail lease.job_id lease.lease_token now retry_at
          (truncate 200 error.name)
          (truncate 4000 error.message)
          db in
      p.0 ≡ true
      → fail lease error retryable (pos delay) (aware now) db
        ≡ (ok (failure_result lease retry_at), p.1)
queue_fail lease error retryable delay now db h =
    fail_aware lease error retryable delay now db
    ∙ or_lost_done (failure_result lease (retry_time lease retryable now delay)) _ h

-- Both where the lease is gone.
pub queue_stale :
    (lease : JobLease) (error : Failure) (progress : Option Json) (retryable : Bool) (delay now : ℕ)
    (db : Db) {j : Job}
    → IsValid db
    → find_job lease.job_id db.jobs ≡ some j
    → is_held lease.job_id lease.lease_token j ≡ false
    → (succeed lease progress (aware now) db ≡ (err job_lease_lost, db))
      × (fail lease error retryable (pos delay) (aware now) db ≡ (err job_lease_lost, db))
unfolding succeed
queue_stale lease error progress retryable delay now db {j} v found gone =
    let retry_at = retry_time lease retryable now delay in
    let h =
      stale_writes_nothing lease.job_id lease.lease_token db now now progress retry_at
        (truncate 200 error.name) (truncate 4000 error.message) {j = j} v found gone in
    (
      ap (or_lost tt) h.1,
      fail_aware lease error retryable delay now db
          ∙ ap (or_lost (failure_result lease retry_at)) h.2,
    )
