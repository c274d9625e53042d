-- ===== src/Jobs/History.antt =====
-- Every transaction that the platform runs on the job tables, one after the other: a failed one is
-- rolled back.
pub mod Terminal
pub mod Safety
use inkspire_lorcana_develop.Prelude.{
  ℕ, String, Bool, true, false, Option, none, some, List, [], ◌∷◌, ◌≡◌, refl, Json, Result, ok, err,
  subst, arith, sym,
}
use inkspire_lorcana_develop.Jobs.Tables.{Job, Db, JobLease, empty}
use inkspire_lorcana_develop.Jobs.Invariant.{IsValid}
use inkspire_lorcana_develop.Jobs.Enqueue.{NewJob, enqueue}
use inkspire_lorcana_develop.Jobs.Enqueue.Valid.{enqueue-IsValid}
use inkspire_lorcana_develop.Jobs.Prune.{prune_completed_before}
use inkspire_lorcana_develop.Jobs.Prune.Valid.{prune_completed_before-IsValid}
use inkspire_lorcana_develop.Jobs.Lease.{claim, expire_exhausted_leases}
use inkspire_lorcana_develop.Jobs.Lease.Claim.{claim-IsValid}
use inkspire_lorcana_develop.Jobs.Lease.Expire.{expire_exhausted_leases-IsValid}
use inkspire_lorcana_develop.Jobs.Holder.{heartbeat, succeed, fail}
use inkspire_lorcana_develop.Jobs.Holder.Valid.{heartbeat-IsValid, succeed-IsValid, fail-IsValid}

pub data Transaction : Type 0 where
  enqueues : NewJob → Transaction
  claims : (locked : ℕ → Bool) (worker : String) (token now expires : ℕ) → Transaction
  expires_leases : (locked : ℕ → Bool) (now : ℕ) → Transaction
  beats : (i token now expires : ℕ) (progress : Option Json) → Transaction
  succeeds : (i token now : ℕ) (progress : Option Json) → Transaction
  fails : (i token now : ℕ) (retry_at : Option ℕ) (category summary : String) → Transaction
  prunes : (locked : ℕ → Bool) (before limit : ℕ) → Transaction

-- The tables after a transaction, or after its rollback.
abbrev pub commit {ℓ} : {A : Type ℓ} → Db → Result (A × Db) → Db
commit db (ok (r, after)) = after
commit db (err e) = db

abbrev pub apply : Transaction → Db → Db
apply (enqueues n) db = commit db (enqueue n db)
apply (claims locked worker token now expires) db =
    commit db (claim locked worker token now expires db)
apply (expires_leases locked now) db = (expire_exhausted_leases locked now db).1
apply (beats i token now expires progress) db = (heartbeat i token now expires progress db).1
apply (succeeds i token now progress) db = (succeed i token now progress db).1
apply (fails i token now retry_at category summary) db =
    (fail i token now retry_at category summary db).1
apply (prunes locked before limit) db = (prune_completed_before locked before limit db).1

abbrev pub run : List Transaction → Db → Db
run [] db = db
run (t ∷ ts) db = run ts (apply t db)

commit-IsValid {ℓ} :
    {A : Type ℓ} (db : Db) (r : Result (A × Db))
    → IsValid db
    → ((a : A) (after : Db) → r ≡ ok (a, after) → IsValid after)
    → IsValid (commit db r)
commit-IsValid db (ok (a, after)) v h = h a after refl
commit-IsValid db (err e) v h = v

-- Every transaction of the repository, committed or rolled back, keeps the invariant of the job
-- tables: distinct ids and idempotency keys, rows whose lease and completion fields fit their
-- status and whose attempts are within the budget, and attempts that fit their job and are Counted
-- by it.
pub apply-IsValid : (t : Transaction) (db : Db) → IsValid db → IsValid (apply t db)
apply-IsValid (enqueues n) db v =
    commit-IsValid db (enqueue n db) v (λ r after e. enqueue-IsValid n db v e)
apply-IsValid (claims locked worker token now expires) db v =
    commit-IsValid db (claim locked worker token now expires db) v
      (λ r after e. claim-IsValid locked worker token now expires db v e)
apply-IsValid (expires_leases locked now) db v = expire_exhausted_leases-IsValid locked now db v
apply-IsValid (beats i token now expires progress) db v =
    heartbeat-IsValid i token now expires progress db v
apply-IsValid (succeeds i token now progress) db v = succeed-IsValid i token now progress db v
apply-IsValid (fails i token now retry_at category summary) db v =
    fail-IsValid i token now retry_at category summary db v
apply-IsValid (prunes locked before limit) db v =
    prune_completed_before-IsValid locked before limit db v

pub run-IsValid : (ts : List Transaction) (db : Db) → IsValid db → IsValid (run ts db)
run-IsValid [] db v = v
run-IsValid (t ∷ ts) db v = run-IsValid ts (apply t db) (apply-IsValid t db v)

pub empty-IsValid : IsValid empty
empty-IsValid = record { ids = tt; keys = tt; rows = tt; fits = tt; counted = tt }
