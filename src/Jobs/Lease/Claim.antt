-- ===== src/Jobs/Lease/Claim.antt =====
-- `JobRepository.claim` as a whole: its outcomes, the invariant, and leases that are alive.
use inkspire_lorcana_develop.Prelude.{
  and-true, ℕ, ◌+◌, String, Bool, true, Option, none, some, ◌≡◌, ◌≢◌, refl, sym, subst, ◌∙◌, ◌==◌,
  ◌<◌, All, if◌then◌else◌, arith, Option-cases, inl, inr, ok, and_then, and_then-eq-ok,
}
use inkspire_lorcana_develop.Jobs.Tables.{Job, running, Db, JobLease, find_job, has_id}
use inkspire_lorcana_develop.Jobs.Invariant.{RowOk, IsValid}
use inkspire_lorcana_develop.Jobs.Invariant.Find.{find_job-update_where}
use inkspire_lorcana_develop.Jobs.Lease.{
  lease_row, hand_out, claim, expire_exhausted_leases, select_claimable,
}
use inkspire_lorcana_develop.Jobs.Lease.Select.{
  NotAfter, is_candidate, select_claimable_is, select_claimable_least, select_claimable-none,
}
use inkspire_lorcana_develop.Jobs.Lease.Expire.{expire_exhausted_leases-IsValid}
use inkspire_lorcana_develop.Jobs.Lease.Valid.{
  lease_of, leased, leased-IsValid, hand_out_ok, hand_out_total, IsFresh,
}
use inkspire_lorcana_develop.Jobs.Lease.Sweep.{
  expire_exhausted_leases_row, expire_exhausted_leases_tokens,
}

module _ (locked : ℕ → Bool) (worker : String) (token now expires : ℕ) where
  -- The tables after the sweep that `claim` begins with.
  abbrev pub swept : Db → Db
  swept db = (expire_exhausted_leases locked now db).1

  -- The two outcomes of `claim`: nothing to do, or a row that is the first of the candidates.
  pub data Claims (db : Db) (r : Option JobLease) (after : Db) : Type 0 where
    idle :
        r ≡ none
        → after ≡ swept db
        → All (λ x. is_candidate locked now x ≡ true → ⊥) (swept db).jobs
        → Claims db r after
    handed :
        (row : Job)
        → r ≡ some (lease_of row worker token now expires)
        → after ≡ leased row worker token now expires (swept db)
        → find_job row.job_id (swept db).jobs ≡ some row
        → RowOk row
        → is_candidate locked now row ≡ true
        → All (λ x. is_candidate locked now x ≡ true → NotAfter row x) (swept db).jobs
        → Claims db r after

  claim_eq :
      (db : Db) {row : Job}
      → select_claimable locked now (swept db).jobs ≡ some row
      → claim locked worker token now expires db
        ≡ and_then
            (hand_out row worker token now expires (swept db))
            (λ (lease, after). ok (some lease, after))
  unfolding claim
  claim_eq db picked = rw (picked, claim) refl

  -- On tables that satisfy the invariant, a claim with a token that no attempt on record carries
  -- returns and raises no integrity error.
  pub claim_returns :
      (db : Db)
      → IsValid db
      → All (λ a. IsFresh token a.lease_token) db.attempts
      → (r : Option JobLease) × (after : Db) × (claim locked worker token now expires db
          ≡ ok (r, after))
  unfolding claim
  claim_returns db v fresh = elim (Option-cases (select_claimable locked now (swept db).jobs)) [
    | inl nothing ↦ (none, swept db, rw (nothing, claim) refl)
    | inr (row, picked) ↦
        let clean = expire_exhausted_leases-IsValid locked now db v in
        let (found, row_ok, can) = select_claimable_is locked now (swept db) clean picked in
        (
          some (lease_of row worker token now expires),
          leased row worker token now expires (swept db),
          ground (
            arith,
            picked,
            hand_out_total row worker token now expires (swept db) found clean.fits
                (expire_exhausted_leases_tokens (IsFresh token) locked now db fresh),
          ),
        )
  ]

  -- On tables that satisfy the invariant, a claim that returns first fails the exhausted leases;
  -- then either nothing is claimable and it returns none, or it leases the first claimable
  -- unlocked row in the order of priority, availability, creation and id.
  pub claim-Claims :
      (db : Db) {r : Option JobLease} {after : Db}
      → IsValid db
      → claim locked worker token now expires db ≡ ok (r, after)
      → Claims db r after
  unfolding claim
  claim-Claims db {r} {after} v e =
      elim (Option-cases (select_claimable locked now (swept db).jobs)) [
        | inl nothing ↦
            idle (ground (arith, nothing)) (ground (arith, nothing))
              (select_claimable-none locked now (swept db).jobs nothing)
        | inr (row, picked) ↦
            let clean = expire_exhausted_leases-IsValid locked now db v in
            let (found, row_ok, can) = select_claimable_is locked now (swept db) clean picked in
            let ((lease, after'), given, same) =
              and_then-eq-ok (hand_out row worker token now expires (swept db))
                (λ (l, a). ok (some l, a)) (sym (claim_eq db picked) ∙ e) in
            let (e1, e2) = hand_out_ok row worker token now expires (swept db) found given in
            handed row (ground arith) (ground arith) found row_ok can
              (select_claimable_least locked now (swept db).jobs picked)
      ]

  Claims-IsValid :
      (db : Db) {r : Option JobLease} {after : Db} → IsValid db → Claims db r after → IsValid after
  Claims-IsValid db v (idle e same none_left) =
      subst IsValid (sym same) (expire_exhausted_leases-IsValid locked now db v)
  Claims-IsValid db v (handed row e same found row_ok can least) = subst IsValid (sym same) (
      leased-IsValid row worker token now expires (swept db) found (and-true _ _ can).0 row_ok
        (expire_exhausted_leases-IsValid locked now db v))

  pub claim-IsValid :
      (db : Db) {r : Option JobLease} {after : Db}
      → IsValid db
      → claim locked worker token now expires db ≡ ok (r, after)
      → IsValid after
  claim-IsValid db v e = Claims-IsValid db v (claim-Claims db v e)

  pub leased_find :
      (row : Job) (db : Db) (i : ℕ)
      → find_job i (leased row worker token now expires db).jobs ≡ elim (find_job i db.jobs) [
        | none ↦ none
        | some j ↦ some (
            if row.job_id == j.job_id
            then lease_row (row.attempt_count + 1) worker token now expires j
            else j)
      ]
  leased_find row db i = ground (
    arith,
    find_job-update_where (has_id row.job_id)
        (lease_row (row.attempt_count + 1) worker token now expires) (λ j. refl) i db.jobs,
  )

  Claims-live :
      (db : Db) {r : Option JobLease} {after : Db} {j : Job} {until : ℕ}
      → IsValid db
      → find_job j.job_id db.jobs ≡ some j
      → j.status ≡ running
      → j.lease_expires_at ≡ some until
      → now < until
      → Claims db r after
      → (find_job j.job_id after.jobs ≡ some j)
        × ((lease : JobLease) → r ≡ some lease → lease.job_id ≢ j.job_id)
  Claims-live db {r} {after} {j} {until} v at run lasts live (idle e same none_left) = (
    subst (λ d. find_job j.job_id d.jobs ≡ some j) (sym same)
        (ground (arith, expire_exhausted_leases_row locked now j.job_id db v at)),
    λ lease given. ground arith,
  )
  Claims-live db {r} {after} {j} {until} v at run lasts live
        (handed row e same found row_ok can least) =
      let stays : find_job j.job_id (swept db).jobs ≡ some j =
        ground (arith, expire_exhausted_leases_row locked now j.job_id db v at) in
      let other : row.job_id ≢ j.job_id = λ h. ground arith in
      (
        subst (λ d. find_job j.job_id d.jobs ≡ some j) (sym same)
            (ground (arith, leased_find row (swept db) j.job_id)),
        λ lease given h. other (ground arith),
      )

  -- On tables that satisfy the invariant, a claim at a time before a running job's lease expires
  -- leaves that job's row as it is and does not hand the job out, whatever else it hands out.
  pub claim_live_lease :
      (db : Db) {r : Option JobLease} {after : Db} {j : Job} {until : ℕ}
      → IsValid db
      → find_job j.job_id db.jobs ≡ some j
      → j.status ≡ running
      → j.lease_expires_at ≡ some until
      → now < until
      → claim locked worker token now expires db ≡ ok (r, after)
      → (find_job j.job_id after.jobs ≡ some j)
        × ((lease : JobLease) → r ≡ some lease → lease.job_id ≢ j.job_id)
  claim_live_lease db v at run lasts live e =
      Claims-live db v at run lasts live (claim-Claims db v e)
