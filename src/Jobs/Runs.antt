-- ===== src/Jobs/Runs.antt =====
-- The theorems of the queue service and of the worker at concrete tables.
use inkspire_lorcana_develop.Prelude.{
  ℕ, true, some, [], ◌∷◌, ◌≡◌, refl, arith, ok, err, pos, aware, job_lease_lost,
}
use inkspire_lorcana_develop.Jobs.Tables.{
  Job, Db, JobLease, JobFailureResult, find_job, insert_attempt,
}
use inkspire_lorcana_develop.Jobs.Lease.{
  expire_one, expire_all, expire_exhausted_leases, first_by, select_claimable, close_reclaimed,
  hand_out,
}
use inkspire_lorcana_develop.Jobs.Lease
use inkspire_lorcana_develop.Jobs.Lease.Valid.{lease_of, leased}
use inkspire_lorcana_develop.Jobs.Lease.Claim.{swept}
use inkspire_lorcana_develop.Jobs.History.{Transaction, claims}
use inkspire_lorcana_develop.Jobs.History
use inkspire_lorcana_develop.Jobs.Queue.{claim, fail}
use inkspire_lorcana_develop.Jobs.Queue.Leases.{IsLeaseOf, claimed_IsLeaseOf, fail_report}
use inkspire_lorcana_develop.Jobs.Worker.{Round, raised, run_once}
use inkspire_lorcana_develop.Jobs.Worker.Rounds.{run_once_lost}
use inkspire_lorcana_develop.Jobs.Samples.{
  waiting, busy, sample, sample-IsValid, nothing_locked, queue, lease, crash, unexpected, round,
}

-- What the round's claim at 200 hands out and leaves.
abbrev expiry : ℕ
expiry = 30000200

abbrev new_lease : JobLease
new_lease = lease_of waiting "worker-c" 9 200 expiry

abbrev leased_sample : Db
leased_sample =
    leased waiting "worker-c" 9 200 expiry (swept nothing_locked "worker-c" 9 200 expiry sample)

abbrev leased_row : Job
leased_row = Lease.lease_row 1 "worker-c" 9 200 expiry waiting

-- While the job runs, its lease expires and another worker claims it, after the other job whose lease is over.
abbrev overtaken : Round
overtaken = record (round (raised crash)) {
  meanwhile =
      claims nothing_locked "worker-d" 10 40000000 70000000
      ∷ claims nothing_locked "worker-d" 11 40000000 70000000
      ∷ [];
}

abbrev retaken_row : Job
retaken_row = Lease.lease_row 2 "worker-d" 11 40000000 70000000 leased_row

abbrev retaken_sample : Db
retaken_sample = History.run overtaken.meanwhile leased_sample

claimed_IsLeaseOf_example :
    (j : Job) × (find_job 2 leased_sample.jobs ≡ some j) × IsLeaseOf new_lease j
unfolding claim Lease.claim expire_exhausted_leases expire_all expire_one select_claimable first_by
    hand_out close_reclaimed insert_attempt
claimed_IsLeaseOf_example =
    claimed_IsLeaseOf queue nothing_locked "worker-c" (aware 200) 9 sample sample-IsValid refl

busy-IsLeaseOf : IsLeaseOf lease busy
busy-IsLeaseOf = record {
  held = refl;
  until = refl;
  number = refl;
  budget = refl;
  within = omega arith;
}

fail_report_example :
    let (r, after) = fail lease crash true (pos 60) (aware 300) sample in
    (report : JobFailureResult) × (row : Job) × (r ≡ ok report)
    × (find_job 1 after.jobs ≡ some row)
    × (row.status ≡ report.status)
    × ((t : ℕ) → report.retry_at ≡ some t → row.available_at ≡ t)
fail_report_example =
    fail_report lease crash true 60 300 sample {j = busy} sample-IsValid refl busy-IsLeaseOf

run_once_lost_example :
    run_once queue overtaken unexpected sample ≡ (err job_lease_lost, retaken_sample)
unfolding claim Lease.claim expire_exhausted_leases expire_all expire_one select_claimable first_by
    hand_out close_reclaimed insert_attempt
run_once_lost_example =
    run_once_lost queue overtaken unexpected sample {lease = new_lease} {claimed = leased_sample}
      300 {j = retaken_row} sample-IsValid refl refl refl refl refl
