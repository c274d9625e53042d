-- ===== src/Jobs/Tests.antt =====
-- The theorems of the job queue at concrete tables.
use inkspire_lorcana_develop.Prelude.{
  ℕ, Bool, true, false, Option, none, some, List, [], ◌∷◌, ◌≡◌, ◌≢◌, ◌≤◌, ◌⊎◌, refl, All, arith, ok,
  count_where, length, ◌+◌,
}
use inkspire_lorcana_develop.Jobs.Tables.{
  Db, Job, JobLease, empty, attempt_failed, find_job, insert_job, insert_attempt,
}
use inkspire_lorcana_develop.Jobs.Invariant.{IsValid, belongs}
use inkspire_lorcana_develop.Jobs.Enqueue.{new_row, enqueue}
use inkspire_lorcana_develop.Jobs.Enqueue.Idempotent.{enqueue_again}
use inkspire_lorcana_develop.Jobs.Prune.{prune_completed_before}
use inkspire_lorcana_develop.Jobs.Prune.Bounds.{prune_completed_before_only, IsPrunable}
use inkspire_lorcana_develop.Jobs.Lease.{
  expire_one, expire_all, expire_exhausted_leases, first_by, select_claimable, close_reclaimed,
  hand_out, claim,
}
use inkspire_lorcana_develop.Jobs.Lease.Valid.{lease_of, leased}
use inkspire_lorcana_develop.Jobs.Lease.Claim.{
  swept, Claims, claim_returns, claim-Claims, claim_live_lease,
}
use inkspire_lorcana_develop.Jobs.Lease.Sweep.{expire_exhausted_leases_find, IsUsedUp, IsExpired}
use inkspire_lorcana_develop.Jobs.Holder.{heartbeat, succeed, fail, is_attempt_of}
use inkspire_lorcana_develop.Jobs.Holder.Fencing.{stale_writes_nothing}
use inkspire_lorcana_develop.Jobs.Holder.Outcome.{
  fail_held, finished_once, IsQueuedAgain, IsFailedForGood, IsReleased,
}
use inkspire_lorcana_develop.Jobs.History.{
  Transaction, enqueues, claims, prunes, apply, run, apply-IsValid,
}
use inkspire_lorcana_develop.Jobs.History.Safety.{
  attempts_within_budget, IsLease, open_attempts_hold_leases,
}
use inkspire_lorcana_develop.Jobs.History.Terminal.{terminal_stays}
use inkspire_lorcana_develop.Jobs.Samples.{
  busy, waiting, done, abandoned, sample, sample-IsValid, nothing_locked, keyed_job,
}

-- The history of one job that is enqueued and claimed.
abbrev two_steps : List Transaction
two_steps = enqueues (keyed_job 5) ∷ claims nothing_locked "worker-c" 9 200 1100 ∷ []

abbrev swept_sample : Db
swept_sample = swept nothing_locked "worker-c" 9 200 1100 sample

apply-IsValid_example : IsValid (apply (claims nothing_locked "worker-c" 9 200 1100) sample)
apply-IsValid_example =
    apply-IsValid (claims nothing_locked "worker-c" 9 200 1100) sample sample-IsValid

claim_returns_example :
    (r : Option JobLease) × (after : Db) × (claim nothing_locked "worker-c" 9 200 1100 sample
      ≡ ok (r, after))
claim_returns_example =
    claim_returns nothing_locked "worker-c" 9 200 1100 sample sample-IsValid
      (refl, (refl, (refl, tt)))

claim-Claims_example :
    Claims nothing_locked "worker-c" 9 200 1100 sample
      (some (lease_of waiting "worker-c" 9 200 1100))
      (leased waiting "worker-c" 9 200 1100 swept_sample)
unfolding claim expire_exhausted_leases expire_all expire_one select_claimable first_by hand_out
    close_reclaimed insert_attempt
claim-Claims_example = claim-Claims nothing_locked "worker-c" 9 200 1100 sample sample-IsValid refl

claim_live_lease_example :
    (find_job 1 (leased waiting "worker-c" 9 200 1100 swept_sample).jobs ≡ some busy)
    × ((l : JobLease) → some (lease_of waiting "worker-c" 9 200 1100) ≡ some l → l.job_id ≢ 1)
unfolding claim expire_exhausted_leases expire_all expire_one select_claimable first_by hand_out
    close_reclaimed insert_attempt
claim_live_lease_example =
    claim_live_lease nothing_locked "worker-c" 9 200 1100 sample {j = busy} {until = 900}
      sample-IsValid refl refl refl (omega arith) refl

stale_writes_nothing_example :
    (heartbeat 1 8 300 1300 none sample ≡ (false, sample))
    × (succeed 1 8 300 none sample ≡ (false, sample))
    × (fail 1 8 300 none "E" "late" sample ≡ (false, sample))
stale_writes_nothing_example =
    stale_writes_nothing 1 8 sample 300 1300 none none "E" "late" {j = busy} sample-IsValid refl
      refl

fail_held_example :
    let (finished, after) = fail 1 7 300 (some 500) "E" "boom" sample in
    (finished ≡ true)
    × ((k : Job) × (find_job 1 after.jobs ≡ some k)
        × (IsQueuedAgain (some 500) busy k ⊎ IsFailedForGood 300 (some 500) busy k)
        × IsReleased 300 "E" "boom" busy k)
    × All (λ a. is_attempt_of 1 7 a ≡ true → a.status ≡ attempt_failed) after.attempts
    × ((k : ℕ) → k ≢ 1 → find_job k after.jobs ≡ find_job k sample.jobs)
fail_held_example =
    fail_held 1 7 300 sample {j = busy} sample-IsValid refl refl (some 500) "E" "boom"

finished_once_example :
    let won = (succeed 1 7 300 none sample).1 in
    let lost = (fail 1 7 300 none "E" "boom" sample).1 in
    (heartbeat 1 7 400 1400 none won ≡ (false, won))
    × (succeed 1 7 400 none won ≡ (false, won))
    × (fail 1 7 400 none "E" "again" won ≡ (false, won))
    × (heartbeat 1 7 400 1400 none lost ≡ (false, lost))
    × (succeed 1 7 400 none lost ≡ (false, lost))
    × (fail 1 7 400 none "E" "again" lost ≡ (false, lost))
finished_once_example =
    finished_once 1 7 300 sample {j = busy} sample-IsValid refl refl none none "E" "boom" 400 1400
      none none "E" "again"

attempts_within_budget_example :
    (count_where (belongs 5) (run two_steps empty).attempts ≡ 1) × (1 ≤ 3)
unfolding enqueue insert_job new_row claim expire_exhausted_leases expire_all expire_one
    select_claimable first_by hand_out close_reclaimed insert_attempt
attempts_within_budget_example = attempts_within_budget two_steps 5 refl

open_attempts_hold_leases_example :
    All (IsLease (run two_steps empty).jobs) (run two_steps empty).attempts
open_attempts_hold_leases_example = open_attempts_hold_leases two_steps

terminal_stays_example :
    (find_job 3 (apply (prunes nothing_locked 1000 10) sample).jobs ≡ some done)
    ⊎ ((find_job 3 (apply (prunes nothing_locked 1000 10) sample).jobs ≡ none)
        × ((locked : ℕ → Bool) × (before : ℕ) × (limit : ℕ) × (prunes nothing_locked 1000 10
              ≡ prunes locked before limit)))
terminal_stays_example =
    terminal_stays 3 sample {j = done} sample-IsValid refl refl (prunes nothing_locked 1000 10)

enqueue_again_example :
    let after : Db = record { jobs = new_row (keyed_job 5) ∷ []; attempts = [] } in
    enqueue (keyed_job 6) after ≡ ok ((5, false), after)
unfolding enqueue insert_job new_row
enqueue_again_example =
    enqueue_again (keyed_job 5) "cards:2026-01-01" refl (keyed_job 6) empty refl refl

prune_completed_before_only_example :
    let (n, after) = prune_completed_before nothing_locked 1000 10 sample in
    (n ≤ 10)
    × (length sample.jobs ≤ length after.jobs + n)
    × ((find_job 3 after.jobs ≡ some done)
        ⊎ ((find_job 3 after.jobs ≡ none) × IsPrunable nothing_locked 1000 done))
prune_completed_before_only_example =
    prune_completed_before_only nothing_locked 1000 10 sample 3 {j = done} sample-IsValid refl

expire_exhausted_leases_find_example :
    let after = (expire_exhausted_leases nothing_locked 200 sample).1 in
    (IsUsedUp nothing_locked 200 abandoned
      × ((k : Job) × (find_job 4 after.jobs ≡ some k) × IsExpired 200 abandoned k))
    ⊎ ((IsUsedUp nothing_locked 200 abandoned → ⊥) × (find_job 4 after.jobs ≡ some abandoned))
expire_exhausted_leases_find_example =
    expire_exhausted_leases_find nothing_locked 200 4 sample {j = abandoned} sample-IsValid refl
