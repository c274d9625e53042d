-- ===== src/Jobs/History/Safety.antt =====
-- What follows from the invariant for every history of the job tables.
use inkspire_lorcana_develop.Prelude.{
  ℕ, true, some, List, [], ◌∷◌, ◌≡◌, sym, ◌≤◌, ◌==◌, All, All-map, arith, count_where, Bool-cases,
  inl, inr, Option-cases, subst,
}
use inkspire_lorcana_develop.Jobs.Tables.{
  Job, Attempt, is_attempt_running, empty, find_job, running,
}
use inkspire_lorcana_develop.Jobs.Invariant.{FitsRow, Fits, Counted, belongs}
use inkspire_lorcana_develop.Jobs.Invariant.Find.{find_job_id}
use inkspire_lorcana_develop.Jobs.Invariant.Update.{find_RowOk}
use inkspire_lorcana_develop.Jobs.History.{Transaction, run, run-IsValid, empty-IsValid}

find_Counted :
    (rest : List Attempt) (i : ℕ) (jobs : List Job) {j : Job}
    → All (Counted rest) jobs
    → find_job i jobs ≡ some j
    → Counted rest j
find_Counted rest i [] h e = cc
find_Counted rest i (x ∷ xs) {j} h e = elim (Bool-cases (i == x.job_id)) [
  | inl same ↦ let found : x ≡ j = ground arith in subst (Counted rest) found h.0
  | inr other ↦ find_Counted rest i xs {j = j} h.1 (ground arith)
]

-- After any sequence of transactions on empty tables, a job has as many attempts on record as its
-- attempt_count says, and no more than max_attempts.
pub attempts_within_budget :
    (ts : List Transaction) (i : ℕ) {j : Job}
    → find_job i (run ts empty).jobs ≡ some j
    → (count_where (belongs i) (run ts empty).attempts ≡ j.attempt_count)
      × (j.attempt_count ≤ j.max_attempts)
attempts_within_budget ts i {j} found =
    let v = run-IsValid ts empty empty-IsValid in
    let row_ok = find_RowOk i (run ts empty).jobs v.rows found in
    (
      subst (λ k. count_where (belongs k) (run ts empty).attempts ≡ j.attempt_count)
          (sym (find_job_id i (run ts empty).jobs {j = j} found))
          (find_Counted (run ts empty).attempts i (run ts empty).jobs v.counted found),
      row_ok.budget,
    )

-- An open attempt is the lease of a running job.
abbrev pub IsLease : List Job → Attempt → Type 0
IsLease jobs a =
    is_attempt_running a.status ≡ true
    → (j : Job) × (find_job a.job_id jobs ≡ some j)
      × (j.status ≡ running)
      × (j.lease_token ≡ some a.lease_token)
      × (a.attempt_number ≡ j.attempt_count)

Fits-IsLease : (jobs : List Job) (a : Attempt) → Fits jobs a → IsLease jobs a
Fits-IsLease jobs a h open_one = elim (Option-cases (find_job a.job_id jobs)) [
  | inl absent ↦ absurd (subst (λ o. FitsRow o a) absent h)
  | inr (j, found) ↦
      let fit = subst (λ o. FitsRow o a) found h in
      let lease = fit.2 open_one in (j, found, lease.0, lease.1, lease.2)
]

-- After any sequence of transactions on empty tables, every attempt that is still open belongs to
-- a running job, carries the token of its lease and is its latest attempt.
pub open_attempts_hold_leases :
    (ts : List Transaction) → All (IsLease (run ts empty).jobs) (run ts empty).attempts
open_attempts_hold_leases ts =
    All-map (Fits (run ts empty).jobs) (IsLease (run ts empty).jobs) (run ts empty).attempts
      (Fits-IsLease (run ts empty).jobs) (run-IsValid ts empty empty-IsValid).fits
