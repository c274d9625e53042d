-- ===== src/Jobs/Worker/Rounds.antt =====
-- One round of the worker, from the claim to the last statement.
use inkspire_lorcana_develop.Prelude.{
  Bool-cases, inl, inr, ℕ, Bool, true, false, none, some, ◌≡◌, refl, ap, ◌∙◌, subst, Result, ok,
  err, Error, job_lease_lost, aware,
}
use inkspire_lorcana_develop.Jobs.Tables.{Job, Db, JobLease, find_job}
use inkspire_lorcana_develop.Jobs.Invariant.{IsValid}
use inkspire_lorcana_develop.Jobs.Holder.{is_held, succeed_row, can_retry, fail_row}
use inkspire_lorcana_develop.Jobs.History.{Transaction, run-IsValid}
use inkspire_lorcana_develop.Jobs.History
use inkspire_lorcana_develop.Jobs.Queue.{JobQueue, Failure, retry_time, failure_result, truncate}
use inkspire_lorcana_develop.Jobs.Queue
use inkspire_lorcana_develop.Jobs.Queue.Leases.{queue_claim-IsValid, queue_stale}
use inkspire_lorcana_develop.Jobs.Worker.{
  Outcome, completed, lease_lost, permanent, raised, Round, retry_delay, schedule, conclude,
  after_claim, run_once,
}

-- What a round that ends with its lease leaves for the job, by how the executor ended.
abbrev pub settled : Round → JobLease → ℕ → Outcome → Job → Job
settled w lease now (completed progress) j = succeed_row now progress j
settled w lease now lease_lost j = j
settled w lease now (permanent error) j =
    fail_row false now none (truncate 200 error.name) (truncate 4000 error.message) j
settled w lease now (raised error) j =
    let retry_at = retry_time lease true now (retry_delay lease.attempt_number) in
    fail_row (can_retry retry_at j) now retry_at (truncate 200 error.name)
      (truncate 4000 error.message) j

-- With the lease gone, nothing is written; and where the executor raised, the round raises.
abbrev pub lost_result : Outcome → Result Bool
lost_result (completed progress) = ok true
lost_result lease_lost = ok true
lost_result (permanent error) = err job_lease_lost
lost_result (raised error) = err job_lease_lost

module _ (w : Round) (lease : JobLease) (unexpected : Error → Failure) (now : ℕ) (db : Db) {j : Job}
    (v : IsValid db) (found : find_job lease.job_id db.jobs ≡ some j)
    (finish : w.finish_clock ≡ aware now) (failing : w.fail_clock ≡ aware now) where
  conclude_lost :
      (o : Outcome)
      → is_held lease.job_id lease.lease_token j ≡ false
      → conclude w lease unexpected o db ≡ (lost_result o, db)
  unfolding conclude
  conclude_lost (completed progress) gone =
      let stale =
        queue_stale lease (unexpected job_lease_lost) progress true 0 now db {j = j} v found gone in
      elim (Bool-cases w.heartbeat_failed) [
        | inl broken ↦ rw broken refl
        | inr beating ↦ rw (beating, finish, stale.0) refl
      ]
  conclude_lost lease_lost gone = refl
  conclude_lost (permanent error) gone =
      rw (failing, (queue_stale lease error none false 60 now db {j = j} v found gone).1) refl
  conclude_lost (raised error) gone =
      rw
        (
          failing,
          (queue_stale lease error none true (retry_delay lease.attempt_number) now db {j = j} v
              found gone).1,
        )
        refl

module _ (q : JobQueue) (w : Round) (unexpected : Error → Failure) (db : Db) {lease : JobLease}
    {claimed : Db} (now : ℕ) {j : Job} (v : IsValid (schedule w.scheduler db))
    (given : Queue.claim q w.locked w.worker_id w.claim_clock w.token (schedule w.scheduler db)
      ≡ (ok (some lease), claimed))
    (found : find_job lease.job_id (History.run w.meanwhile claimed).jobs ≡ some j)
    (finish : w.finish_clock ≡ aware now) (failing : w.fail_clock ≡ aware now) where
  before_conclude : IsValid (History.run w.meanwhile claimed)
  before_conclude = run-IsValid w.meanwhile claimed (
      subst (λ p. IsValid p.1) given
        (queue_claim-IsValid q w.locked w.worker_id w.claim_clock w.token (schedule w.scheduler db)
          v))

  run_once_eq :
      run_once q w unexpected db
      ≡ conclude w lease unexpected (w.execute lease) (History.run w.meanwhile claimed)
  unfolding run_once
  run_once_eq = ap (after_claim w unexpected) given

  -- A round whose lease was taken away while the executor ran, with tables that satisfy the
  -- invariant before the claim and aware clocks, writes nothing after the executor; it returns
  -- true if the executor completed or reported the loss, and raises JobLeaseLostError if the
  -- executor raised.
  pub run_once_lost :
      is_held lease.job_id lease.lease_token j ≡ false
      → run_once q w unexpected db
        ≡ (lost_result (w.execute lease), History.run w.meanwhile claimed)
  run_once_lost gone =
      run_once_eq
      ∙ conclude_lost w lease unexpected now (History.run w.meanwhile claimed) {j = j}
          before_conclude found finish failing (w.execute lease) gone
