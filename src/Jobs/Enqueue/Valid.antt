-- ===== src/Jobs/Enqueue/Valid.antt =====
-- `JobRepository.enqueue` and the invariant of the tables.
use inkspire_lorcana_develop.Prelude.{
  ℕ, suc, length, length-append, ap, String, Bool, true, Option, none, some, List, [], ◌∷◌, ◌++◌,
  ◌≡◌, refl, subst, ◌≤◌, All, All-map, All-append, count_where, find, arith, Option-cases, inl, inr,
  ◌⊎◌, ok, and_then-eq-ok,
}
use inkspire_lorcana_develop.Jobs.Tables.{Job, Attempt, Db, find_job, find_key, has_key, insert_job}
use inkspire_lorcana_develop.Jobs.Invariant.{RowOk, Fits, Counted, belongs, IsValid}
use inkspire_lorcana_develop.Jobs.Invariant.Find.{
  find_job-append, append-IdsDistinct, append-KeysDistinct,
}
use inkspire_lorcana_develop.Jobs.Enqueue.{NewJob, new_row, insert_new, enqueue}

-- Attempts refer to jobs, so there is none for an id that is not in the table.
count_absent :
    (i : ℕ) (jobs : List Job) (rest : List Attempt)
    → find_job i jobs ≡ none
    → All (Fits jobs) rest
    → count_where (belongs i) rest ≡ 0
count_absent i jobs [] new fits = refl
count_absent i jobs (a ∷ rest) new fits =
    ground (arith, count_absent i jobs rest new fits.1, fits.0)

-- An insert that goes through met every constraint.
pub insert_job_ok :
    (row : Job) (db : Db) {after : Db}
    → insert_job row db ≡ ok after
    → (1 ≤ row.max_attempts)
      × (find_job row.job_id db.jobs ≡ none)
      × (find_key row.idempotency_key db.jobs ≡ none)
      × (after ≡ record { jobs = db.jobs ++ row ∷ []; attempts = db.attempts })
unfolding insert_job
insert_job_ok row db {after} e = elim (Option-cases (find_job row.job_id db.jobs)) [
  | inr (j, taken) ↦ absurd (ground arith)
  | inl new ↦ elim (Option-cases (find_key row.idempotency_key db.jobs)) [
    | inr (j, taken) ↦ absurd (ground arith)
    | inl fresh ↦ (ground arith, new, fresh, ground arith)
  ]
]

module _ (n : NewJob) where
  Fits-after : (jobs : List Job) (a : Attempt) → Fits jobs a → Fits (jobs ++ new_row n ∷ []) a
  Fits-after jobs a h = ground (arith, find_job-append a.job_id jobs (new_row n))

  Counted-after :
      (db : Db)
      → IsValid db
      → find_job (new_row n).job_id db.jobs ≡ none
      → Counted db.attempts (new_row n)
  unfolding new_row
  Counted-after db v new = count_absent n.job_id db.jobs db.attempts new v.fits

  new_row-RowOk : 1 ≤ (new_row n).max_attempts → RowOk (new_row n)
  unfolding new_row
  new_row-RowOk h = ground arith

  insert_new-IsValid :
      (db : Db) {r : ℕ × Bool} {after : Db}
      → IsValid db
      → insert_new n db ≡ ok (r, after)
      → IsValid after
  insert_new-IsValid db {r} {after} v e =
      let (after', inserted, same) =
        and_then-eq-ok (insert_job (new_row n) db) (λ d. ok ((n.job_id, true), d)) e in
      let (positive, new, fresh, eq) = insert_job_ok (new_row n) db inserted in
      let is : record { jobs = db.jobs ++ new_row n ∷ []; attempts = db.attempts } ≡ after =
        ground arith in
      subst IsValid is (record {
        ids = append-IdsDistinct db.jobs (new_row n) v.ids new;
        keys = append-KeysDistinct db.jobs (new_row n) v.keys fresh;
        rows = All-append RowOk db.jobs (new_row n ∷ []) v.rows (new_row-RowOk positive, tt);
        fits =
            All-map (Fits db.jobs) (Fits (db.jobs ++ new_row n ∷ [])) db.attempts
              (Fits-after db.jobs) v.fits;
        counted =
            All-append (Counted db.attempts) db.jobs (new_row n ∷ []) v.counted
              (Counted-after db v new, tt);
      })

  -- `enqueue` finds the key taken and writes nothing, or inserts the row.
  pub enqueue_cases :
      (db : Db) {r : ℕ × Bool} {after : Db}
      → enqueue n db ≡ ok (r, after)
      → (db ≡ after) ⊎ (insert_new n db ≡ ok (r, after))
  unfolding enqueue
  enqueue_cases db {r} {after} e = by_key n.idempotency_key refl
    where
      by_key :
          (o : Option String)
          → n.idempotency_key ≡ o
          → (db ≡ after) ⊎ (insert_new n db ≡ ok (r, after))
      by_key none eq = inr (ground arith)
      by_key (some key) eq = elim (Option-cases (find (has_key key) db.jobs)) [
        | inl free ↦ inr (ground arith)
        | inr (j, taken) ↦ inl (ground arith)
      ]

  -- A call adds one row at most.
  pub length-enqueue :
      (db : Db) {r : ℕ × Bool} {after : Db}
      → enqueue n db ≡ ok (r, after)
      → length after.jobs ≤ suc (length db.jobs)
  length-enqueue db {r} {after} e = elim (enqueue_cases db e) [
    | inl same ↦ omega (arith, ap (λ d. length d.jobs) same)
    | inr inserted ↦
        let (after', given, same) =
          and_then-eq-ok (insert_job (new_row n) db) (λ d. ok ((n.job_id, true), d)) inserted in
        let (positive, new, fresh, eq) = insert_job_ok (new_row n) db given in
        let is : db.jobs ++ new_row n ∷ [] ≡ after.jobs = ground arith in
        omega
          (arith, length-append db.jobs (new_row n ∷ []), ap (λ (jobs : List Job). length jobs) is)
  ]

  pub enqueue-IsValid :
      (db : Db) {r : ℕ × Bool} {after : Db}
      → IsValid db
      → enqueue n db ≡ ok (r, after)
      → IsValid after
  enqueue-IsValid db v e = elim (enqueue_cases db e) [
    | inl same ↦ subst IsValid same v
    | inr inserted ↦ insert_new-IsValid db v inserted
  ]
