-- ===== src/Jobs/Invariant/Update.antt =====
-- A rule for transactions that rewrite rows of both tables in place: the invariant holds afterwards
-- if it holds row by row.
use inkspire_lorcana_develop.Prelude.{
  ℕ, Bool, Option, none, some, List, [], ◌∷◌, ◌≡◌, refl, sym, ap, subst, All, update_where,
  count_where-update_where, arith, Bool-cases, inl, inr, ◌==◌, ◌∙◌,
}
use inkspire_lorcana_develop.Jobs.Tables.{Job, Attempt, Db, find_job}
use inkspire_lorcana_develop.Jobs.Invariant.Defs.{RowOk, FitsRow, Fits, belongs, Counted, IsValid}
use inkspire_lorcana_develop.Jobs.Invariant.Find.{
  touch, touched, find_job-update_where, rows_found, update_where-IdsDistinct,
  update_where-KeysDistinct,
}

-- A property of every row, row by row, where the row is known to be the one of its id.
pub All-update {κ μ} :
    (P : Job → Type κ) (Q : Job → Type μ) (p : Job → Bool) (f : Job → Job) (jobs all : List Job)
    → ((j : Job) → find_job j.job_id all ≡ some j → P j → Q (touch p f j))
    → All (λ j. find_job j.job_id all ≡ some j) jobs
    → All P jobs
    → All Q (update_where p f jobs)
All-update P Q p f [] all keep found h = tt
All-update P Q p f (j ∷ js) all keep found h =
    (keep j found.0 h.0, All-update P Q p f js all keep found.1 h.1)

-- What an in-place transaction writes: columns that the invariant ties to other rows stay.
pub record Rewrites (jobs : List Job) (p : Job → Bool) (f : Job → Job) (q : Attempt → Bool)
    (g : Attempt → Attempt) : Type 0 where
  pub keep_id : (j : Job) → (f j).job_id ≡ j.job_id
  pub keep_key : (j : Job) → (f j).idempotency_key ≡ j.idempotency_key
  pub keep_owner : (a : Attempt) → (g a).job_id ≡ a.job_id
  pub row : (j : Job) → find_job j.job_id jobs ≡ some j → RowOk j → RowOk (touch p f j)
  pub fit :
      (j : Job) (a : Attempt)
      → find_job a.job_id jobs ≡ some j
      → RowOk j
      → FitsRow (some j) a
      → FitsRow (some (touch p f j)) (touch q g a)

-- A row that is found is one of the rows.
pub find_RowOk :
    (i : ℕ) (jobs : List Job) {j : Job} → All RowOk jobs → find_job i jobs ≡ some j → RowOk j
find_RowOk i [] h e = cc
find_RowOk i (x ∷ xs) {j} h e = elim (Bool-cases (i == x.job_id)) [
  | inl same ↦ let found : x ≡ j = ground arith in subst RowOk found h.0
  | inr other ↦ find_RowOk i xs h.1 (ground arith)
]

module _ (db : Db) {p : Job → Bool} {f : Job → Job} {q : Attempt → Bool} {g : Attempt → Attempt}
    (w : Rewrites db.jobs p f q g) where
  fit_row :
      (a : Attempt) (o : Option Job)
      → find_job a.job_id db.jobs ≡ o
      → All RowOk db.jobs
      → FitsRow o a
      → FitsRow (touched p f o) (touch q g a)
  fit_row a none e rows h = absurd h
  fit_row a (some j) e rows h = w.fit j a e (find_RowOk a.job_id db.jobs rows e) h

  touch_owner : (a : Attempt) → (touch q g a).job_id ≡ a.job_id
  touch_owner a = ground (arith, w.keep_owner a)

  -- Attempts go on fitting their jobs.
  pub All-fit :
      (rest : List Attempt)
      → All RowOk db.jobs
      → All (Fits db.jobs) rest
      → All (Fits (update_where p f db.jobs)) (update_where q g rest)
  All-fit [] rows h = tt
  All-fit (a ∷ rest) rows h = (
    subst (λ o. FitsRow o (touch q g a))
        (sym (find_job-update_where p f w.keep_id a.job_id db.jobs)
          ∙ ap (λ i. find_job i (update_where p f db.jobs)) (sym (touch_owner a)))
        (fit_row a (find_job a.job_id db.jobs) refl rows h.0),
    All-fit rest rows h.1,
  )

  Counted-row :
      ((j : Job) → (f j).attempt_count ≡ j.attempt_count)
      → (rest : List Attempt) (j : Job) → Counted rest j
      → Counted (update_where q g rest) (touch p f j)
  Counted-row keep_count rest j h = ground (
    arith,
    count_where-update_where (belongs j.job_id) q g rest
        (λ a. ap (λ i. j.job_id == i) (w.keep_owner a)),
    count_where-update_where (belongs (f j).job_id) q g rest
        (λ a. ap (λ i. (f j).job_id == i) (w.keep_owner a)),
    w.keep_id j,
    keep_count j,
  )

  -- The invariant survives an in-place transaction.
  pub update-IsValid :
      ((j : Job) → (f j).attempt_count ≡ j.attempt_count)
      → IsValid db
      → IsValid
          (record { jobs = update_where p f db.jobs; attempts = update_where q g db.attempts })
  update-IsValid keep_count v = record {
    ids = update_where-IdsDistinct p f w.keep_id db.jobs v.ids;
    keys = update_where-KeysDistinct p f w.keep_key db.jobs v.keys;
    rows = All-update RowOk RowOk p f db.jobs db.jobs w.row (rows_found db.jobs v.ids) v.rows;
    fits = All-fit db.attempts v.rows v.fits;
    counted =
        All-update (Counted db.attempts) (Counted (update_where q g db.attempts)) p f db.jobs
          db.jobs (λ j found h. Counted-row keep_count db.attempts j h) (rows_found db.jobs v.ids)
          v.counted;
  }
