-- ===== src/Jobs/Lease/Expire.antt =====
-- `expire_exhausted_leases` and the invariant of the tables.
use inkspire_lorcana_develop.Prelude.{
  ℕ, Bool, Option, none, some, List, [], ◌∷◌, ◌≡◌, refl, All, All-map, All-filter, filter, arith,
}
use inkspire_lorcana_develop.Jobs.Tables.{Job, Db, find_job}
use inkspire_lorcana_develop.Jobs.Invariant.{IsValid}
use inkspire_lorcana_develop.Jobs.Invariant.Find.{find_job_id, find_job-update_where, rows_found}
use inkspire_lorcana_develop.Jobs.Invariant.Update.{Rewrites, update-IsValid}
use inkspire_lorcana_develop.Jobs.Lease.{
  exhausted, expire_row, expire_attempt, is_running_attempt, holds_token, expire_one, expire_all,
  expire_exhausted_leases,
}

-- A selected row and the table agree on the number of attempts.
abbrev AgreesOn : Job → Option Job → Type 0
AgreesOn r none = Unit
AgreesOn r (some j) = r.attempt_count ≡ j.attempt_count

abbrev Agrees : List Job → Job → Type 0
Agrees jobs r = AgreesOn r (find_job r.job_id jobs)

expire-Rewrites :
    (now : ℕ) (r : Job) (jobs : List Job)
    → Agrees jobs r
    → Rewrites jobs
        (holds_token r.job_id r.lease_token)
        (expire_row now)
        (is_running_attempt r.job_id r.attempt_count)
        (expire_attempt "Worker lease expired." now)
expire-Rewrites now r jobs agrees = record {
  keep_id = λ j. refl;
  keep_key = λ j. refl;
  keep_owner = λ a. refl;
  row = λ j found ok_row. ground arith;
  fit = λ j a found ok_row h. ground (arith, find_job_id a.job_id jobs {j = j} found);
}

expire_one-Agrees :
    (now : ℕ) (r s : Job) (db : Db) → Agrees db.jobs s → Agrees (expire_one now r db).jobs s
unfolding expire_one
expire_one-Agrees now r s db h = ground (
  arith,
  find_job-update_where (holds_token r.job_id r.lease_token) (expire_row now) (λ j. refl) s.job_id
      db.jobs,
)

expire_all-IsValid :
    (now : ℕ) (rs : List Job) (db : Db)
    → All (Agrees db.jobs) rs
    → IsValid db
    → IsValid (expire_all now rs db)
unfolding expire_all
expire_all-IsValid now [] db h v = v
expire_all-IsValid now (r ∷ rs) db h v =
    expire_all-IsValid now rs (expire_one now r db)
      (All-map (Agrees db.jobs) (Agrees (expire_one now r db).jobs) rs
        (λ s. expire_one-Agrees now r s db) h.1)
      (update-IsValid db (expire-Rewrites now r db.jobs h.0) (λ j. refl) v)

pub expire_exhausted_leases-IsValid :
    (locked : ℕ → Bool) (now : ℕ) (db : Db)
    → IsValid db
    → IsValid (expire_exhausted_leases locked now db).1
unfolding expire_exhausted_leases
expire_exhausted_leases-IsValid locked now db v =
    expire_all-IsValid now (filter (exhausted locked now) db.jobs) db
      (All-filter (Agrees db.jobs) (exhausted locked now) db.jobs (
        All-map (λ j. find_job j.job_id db.jobs ≡ some j) (Agrees db.jobs) db.jobs
          (λ j found. ground arith) (rows_found db.jobs v.ids)))
      v
