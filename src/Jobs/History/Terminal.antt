-- ===== src/Jobs/History/Terminal.antt =====
-- Terminal jobs under each transaction of `JobRepository`.
use inkspire_lorcana_develop.Prelude.{
  ℕ, String, Bool, true, Option, none, some, ◌≡◌, refl, sym, subst, ◌⊎◌, inl, inr, Json, Result, ok,
  err, arith, find, Option-cases, and_then-eq-ok,
}
use inkspire_lorcana_develop.Jobs.Tables.{
  Job, Db, JobLease, is_terminal, find_job, has_id, insert_job,
}
use inkspire_lorcana_develop.Jobs.Invariant.{IsValid}
use inkspire_lorcana_develop.Jobs.Invariant.Find.{
  find_job-append, find_job-update_where, find_job_id,
}
use inkspire_lorcana_develop.Jobs.Enqueue.{NewJob, new_row, insert_new, enqueue}
use inkspire_lorcana_develop.Jobs.Enqueue.Valid.{insert_job_ok, enqueue_cases}
use inkspire_lorcana_develop.Jobs.Prune.Bounds.{prune_completed_before_only}
use inkspire_lorcana_develop.Jobs.Lease.{claim, expire_exhausted_leases}
use inkspire_lorcana_develop.Jobs.Lease.Claim.{
  Claims, idle, handed, claim-Claims, swept, leased_find,
}
use inkspire_lorcana_develop.Jobs.Lease.Sweep.{expire_exhausted_leases_row}
use inkspire_lorcana_develop.Jobs.Holder.Held.{find_held, find_held_is}
use inkspire_lorcana_develop.Jobs.Holder.{
  is_held, beat_row, heartbeat, succeed_row, succeed, can_retry, fail_row, fail,
}
use inkspire_lorcana_develop.Jobs.History.{
  Transaction, enqueues, claims, expires_leases, beats, succeeds, fails, prunes, commit, apply,
}

module _ (i : ℕ) (db : Db) {j : Job} (v : IsValid db) (found : find_job i db.jobs ≡ some j)
    (final : is_terminal j.status ≡ true) where
  insert_new-keeps :
      (n : NewJob) {r : ℕ × Bool} {after : Db}
      → insert_new n db ≡ ok (r, after)
      → find_job i after.jobs ≡ some j
  insert_new-keeps n {r} {after} e =
      let (after', inserted, same) =
        and_then-eq-ok (insert_job (new_row n) db) (λ d. ok ((n.job_id, true), d)) e in
      let (_, _, _, eq) = insert_job_ok (new_row n) db inserted in
      ground (arith, find_job-append i db.jobs (new_row n))

  abbrev Keeps : Db → Type 0
  Keeps after = find_job i after.jobs ≡ some j

  commit-Keeps {ℓ} :
      {A : Type ℓ} (r : Result (A × Db))
      → ((a : A) (after : Db) → r ≡ ok (a, after) → Keeps after)
      → Keeps (commit db r)
  commit-Keeps (ok (a, after)) h = h a after refl
  commit-Keeps (err e) h = found

  enqueue-Keeps : (n : NewJob) → Keeps (commit db (enqueue n db))
  enqueue-Keeps n = commit-Keeps (enqueue n db) λ r after e. elim (enqueue_cases n db e) [
    | inl same ↦ subst Keeps same found
    | inr inserted ↦ insert_new-keeps n inserted
  ]

  sweep-Keeps : (locked : ℕ → Bool) (now : ℕ) → Keeps (expire_exhausted_leases locked now db).1
  sweep-Keeps locked now = ground (arith, expire_exhausted_leases_row locked now i db v found)

  Claims-Keeps :
      (locked : ℕ → Bool) (worker : String) (token now expires : ℕ) {r : Option JobLease}
      {after : Db}
      → Claims locked worker token now expires db r after
      → Keeps after
  Claims-Keeps locked worker token now expires (idle e same none_left) =
      subst Keeps (sym same) (sweep-Keeps locked now)
  Claims-Keeps locked worker token now expires (handed row e same at row_ok can least) =
      subst Keeps (sym same) (
        ground (
          arith,
          sweep-Keeps locked now,
          find_job_id i (expire_exhausted_leases locked now db).1.jobs {j = j}
              (sweep-Keeps locked now),
          leased_find locked worker token now expires row (swept locked worker token now expires db)
              i,
        ))

  beat-Keeps :
      (k token now expires : ℕ) (progress : Option Json)
      → Keeps (heartbeat k token now expires progress db).1
  unfolding heartbeat
  beat-Keeps k token now expires progress = ground (
    arith,
    find_job-update_where (is_held k token) (beat_row now expires progress) (λ x. ground arith) i
        db.jobs,
  )

  succeed-Keeps :
      (k token now : ℕ) (progress : Option Json) → Keeps (succeed k token now progress db).1
  unfolding succeed
  succeed-Keeps k token now progress = ground (
    arith,
    find_job-update_where (is_held k token) (succeed_row now progress) (λ x. refl) i db.jobs,
  )

  fail-Keeps :
      (k token now : ℕ) (retry_at : Option ℕ) (category summary : String)
      → Keeps (fail k token now retry_at category summary db).1
  unfolding fail
  fail-Keeps k token now retry_at category summary =
      elim (Option-cases (find (is_held k token) db.jobs)) [
        | inl absent ↦ ground (arith, absent)
        | inr (c, held) ↦ ground (
          arith,
          held,
          find_held k token db.jobs {j = c} v.ids held,
          find_held_is k token db.jobs {j = c} held,
          find_job_id i db.jobs {j = j} found,
          find_job-update_where (has_id k)
              (fail_row (can_retry retry_at c) now retry_at category summary) (λ x. refl) i db.jobs,
        )
      ]

  -- On tables that satisfy the invariant, no transaction changes a job that has succeeded, failed
  -- or been cancelled, except that a pruning transaction may delete it.
  pub terminal_stays :
      (t : Transaction)
      → (find_job i (apply t db).jobs ≡ some j)
        ⊎ ((find_job i (apply t db).jobs ≡ none)
            × ((locked : ℕ → Bool) × (before : ℕ) × (limit : ℕ) × (t ≡ prunes locked before limit)))
  terminal_stays (enqueues n) = inl (enqueue-Keeps n)
  terminal_stays (claims locked worker token now expires) = inl (
      commit-Keeps (claim locked worker token now expires db) λ r after e.
        Claims-Keeps locked worker token now expires
          (claim-Claims locked worker token now expires db v e))
  terminal_stays (expires_leases locked now) = inl (sweep-Keeps locked now)
  terminal_stays (beats k token now expires progress) =
      inl (beat-Keeps k token now expires progress)
  terminal_stays (succeeds k token now progress) = inl (succeed-Keeps k token now progress)
  terminal_stays (fails k token now retry_at category summary) =
      inl (fail-Keeps k token now retry_at category summary)
  terminal_stays (prunes locked before limit) =
      elim (prune_completed_before_only locked before limit db i v found).2 [
        | inl kept ↦ inl kept
        | inr (gone, _) ↦ inr (gone, (locked, before, limit, refl))
      ]
