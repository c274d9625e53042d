-- ===== src/Jobs/Holder/Outcome.antt =====
-- `succeed` and `fail` of `JobRepository` under the token of the lease, and the calls after them.
use inkspire_lorcana_develop.Prelude.{
  ℕ, true, false, Option, some, List, ◌≡◌, ◌≢◌, refl, String, Json, arith, Option-cases, inl, inr,
  count_where, update_where, All, [], ◌∷◌, Bool-cases, ltb, ◌<◌, ◌≤◌, ◌⊎◌, none,
}
use inkspire_lorcana_develop.Jobs.Tables.{
  Job, Db, find_job, has_id, Attempt, AttemptStatus, queued, failed, attempt_succeeded,
  attempt_failed,
}
use inkspire_lorcana_develop.Jobs.Invariant.{IsValid}
use inkspire_lorcana_develop.Jobs.Invariant.Find.{find_job-update_where, find_job_id}
use inkspire_lorcana_develop.Jobs.Holder.Held.{count_held, held_find}
use inkspire_lorcana_develop.Jobs.Holder.Valid.{succeed-IsValid, fail-IsValid}
use inkspire_lorcana_develop.Jobs.Holder.Fencing.{stale_writes_nothing}
use inkspire_lorcana_develop.Jobs.Holder.{
  is_held, is_attempt_of, succeed_row, succeed, can_retry, fail_row, fail, heartbeat,
}

All-touched :
    (i token : ℕ) (s : AttemptStatus) (g : Attempt → Attempt) (rest : List Attempt)
    → ((a : Attempt) → (g a).status ≡ s)
    → ((a : Attempt) → is_attempt_of i token (g a) ≡ is_attempt_of i token a)
    → All
        (λ a. is_attempt_of i token a ≡ true → a.status ≡ s)
        (update_where (is_attempt_of i token) g rest)
All-touched i token s g [] now_s same = tt
All-touched i token s g (a ∷ rest) now_s same = (
  elim (Bool-cases (is_attempt_of i token a)) [
    | inl hit ↦ rw hit (λ _. now_s a)
    | inr miss ↦ rw miss (λ h. cc)
  ],
  All-touched i token s g rest now_s same,
)

-- The row that a reported failure leaves: queued at the retry time with attempts left, or failed.
abbrev pub IsQueuedAgain : Option ℕ → Job → Job → Type 0
IsQueuedAgain retry_at j k =
    (t : ℕ) × (retry_at ≡ some t)
    × (j.attempt_count < j.max_attempts)
    × (k.status ≡ queued)
    × (k.available_at ≡ t)
    × (k.completed_at ≡ none)

abbrev pub IsFailedForGood : ℕ → Option ℕ → Job → Job → Type 0
IsFailedForGood now retry_at j k =
    ((retry_at ≡ none) ⊎ (j.max_attempts ≤ j.attempt_count))
    × (k.status ≡ failed)
    × (k.available_at ≡ j.available_at)
    × (k.completed_at ≡ some now)

-- The lease is given up, the error is on record, and the budget is as before.
abbrev pub IsReleased : ℕ → String → String → Job → Job → Type 0
IsReleased now category summary j k =
    (k.lease_owner ≡ none)
    × (k.lease_token ≡ none)
    × (k.lease_expires_at ≡ none)
    × (k.last_error_category ≡ some category)
    × (k.last_error_summary ≡ some summary)
    × (k.updated_at ≡ now)
    × (k.attempt_count ≡ j.attempt_count)
    × (k.max_attempts ≡ j.max_attempts)
    × (k.payload ≡ j.payload)

fail_row_ends :
    (now : ℕ) (retry_at : Option ℕ) (category summary : String) (j : Job)
    → let k = fail_row (can_retry retry_at j) now retry_at category summary j in
      IsQueuedAgain retry_at j k ⊎ IsFailedForGood now retry_at j k
fail_row_ends now none category summary j = inr (inl refl, refl, refl, refl)
fail_row_ends now (some t) category summary j =
    elim (Bool-cases (ltb j.attempt_count j.max_attempts)) [
      | inl left ↦ inl (t, refl, ground arith, rw left refl, rw left refl, rw left refl)
      | inr used ↦ inr (inr (ground arith), rw used refl, rw used refl, rw used refl)
    ]

module _ (i token now : ℕ) (db : Db) {j : Job} (v : IsValid db)
    (found : find_job i db.jobs ≡ some j) (held : is_held i token j ≡ true) where
  -- On tables that satisfy the invariant, a success reported by the holder returns true, completes
  -- the job and the attempts of its token, and leaves the other jobs alone.
  pub succeed_held :
      (progress : Option Json)
      → let (done, after) = succeed i token now progress db in
        (done ≡ true)
        × (find_job i after.jobs ≡ some (succeed_row now progress j))
        × All (λ a. is_attempt_of i token a ≡ true → a.status ≡ attempt_succeeded) after.attempts
        × ((k : ℕ) → k ≢ i → find_job k after.jobs ≡ find_job k db.jobs)
  unfolding succeed
  succeed_held progress =
      let one : count_where (is_held i token) db.jobs ≡ 1 =
        ground
          (arith, count_held i token db.jobs v.ids, held_find i token db.jobs {j = j} found held) in
      rw one (
        refl,
        ground (
          arith,
          find_job-update_where (is_held i token) (succeed_row now progress) (λ k. refl) i db.jobs,
        ),
        All-touched i token attempt_succeeded _ db.attempts (λ a. refl) (λ a. refl),
        λ k other. elim (Option-cases (find_job k db.jobs)) [
          | inl absent ↦ ground (
            arith,
            find_job-update_where (is_held i token) (succeed_row now progress) (λ k. refl) k
                db.jobs,
          )
          | inr (x, at) ↦ ground (
            arith,
            find_job_id k db.jobs {j = x} at,
            find_job-update_where (is_held i token) (succeed_row now progress) (λ k. refl) k
                db.jobs,
          )
        ],
      )

  -- A failure reported by the holder writes the row.
  pub fail_held_row :
      (retry_at : Option ℕ) (category summary : String)
      → let (done, after) = fail i token now retry_at category summary db in
        (done ≡ true)
        × (find_job i after.jobs
            ≡ some (fail_row (can_retry retry_at j) now retry_at category summary j))
        × All (λ a. is_attempt_of i token a ≡ true → a.status ≡ attempt_failed) after.attempts
        × ((k : ℕ) → k ≢ i → find_job k after.jobs ≡ find_job k db.jobs)
  unfolding fail
  fail_held_row retry_at category summary =
      let write = fail_row (can_retry retry_at j) now retry_at category summary in
      let at_id = find_job-update_where (has_id i) write (λ k. refl) in
      rw (held_find i token db.jobs {j = j} found held, fail)
        (
          refl,
          ground (arith, at_id i db.jobs, find_job_id i db.jobs {j = j} found),
          All-touched i token attempt_failed _ db.attempts (λ a. refl) (λ a. refl),
          λ k other. elim (Option-cases (find_job k db.jobs)) [
            | inl absent ↦ ground (arith, at_id k db.jobs)
            | inr (x, at) ↦ ground (arith, find_job_id k db.jobs {j = x} at, at_id k db.jobs)
          ],
        )

  -- On tables that satisfy the invariant, a failure reported by the holder returns true. If a
  -- retry time is given and fewer attempts are used than max_attempts, the job's row is then
  -- queued at that time and not completed; otherwise it is failed, completed now and available
  -- when it was. Either way its lease fields are empty, it has the reported error and the same
  -- attempt count, budget and payload, the attempts of the token are failed, and the other jobs
  -- are as before.
  pub fail_held :
      (retry_at : Option ℕ) (category summary : String)
      → let (done, after) = fail i token now retry_at category summary db in
        (done ≡ true)
        × ((k : Job) × (find_job i after.jobs ≡ some k)
            × (IsQueuedAgain retry_at j k ⊎ IsFailedForGood now retry_at j k)
            × IsReleased now category summary j k)
        × All (λ a. is_attempt_of i token a ≡ true → a.status ≡ attempt_failed) after.attempts
        × ((k : ℕ) → k ≢ i → find_job k after.jobs ≡ find_job k db.jobs)
  fail_held retry_at category summary =
      let (done, row, attempts, others) = fail_held_row retry_at category summary in
      (
        done,
        (
          fail_row (can_retry retry_at j) now retry_at category summary j,
          row,
          fail_row_ends now retry_at category summary j,
          (refl, refl, refl, refl, refl, refl, refl, refl, refl),
        ),
        attempts,
        others,
      )

  -- On tables that satisfy the invariant, once the holder of a lease has reported success or
  -- failure, every later heartbeat, success or failure under the same token is refused and changes
  -- nothing.
  pub finished_once :
      (progress : Option Json) (retry_at : Option ℕ) (category summary : String)
      → let won = (succeed i token now progress db).1 in
        let lost = (fail i token now retry_at category summary db).1 in
        (later expires : ℕ) (p : Option Json) (r : Option ℕ) (c s : String)
        → (heartbeat i token later expires p won ≡ (false, won))
          × (succeed i token later p won ≡ (false, won))
          × (fail i token later r c s won ≡ (false, won))
          × (heartbeat i token later expires p lost ≡ (false, lost))
          × (succeed i token later p lost ≡ (false, lost))
          × (fail i token later r c s lost ≡ (false, lost))
  finished_once progress retry_at category summary later expires p r c s =
      let won = (succeed i token now progress db).1 in
      let lost = (fail i token now retry_at category summary db).1 in
      let row_won = (succeed_held progress).1 in
      let row_lost = (fail_held_row retry_at category summary).1 in
      let a =
        stale_writes_nothing i token won later expires p r c s
          (succeed-IsValid i token now progress db v) row_won (ground arith) in
      let b =
        stale_writes_nothing i token lost later expires p r c s
          (fail-IsValid i token now retry_at category summary db v) row_lost (ground arith) in
      (a.0, a.1, a.2, b.0, b.1, b.2)
