-- ===== src/Jobs/Prune/Valid.antt =====
-- `prune_completed_before` and the invariant of the tables.
use inkspire_lorcana_develop.Prelude.{
  ℕ, Bool, true, not, List, ◌≡◌, sym, subst, ◌∙◌, All-map, All-filter, All-both, filter, filter-All,
  count_where-filter, any, arith, inl, inr, Option-cases,
}
use inkspire_lorcana_develop.Jobs.Tables.{Job, Attempt, Db, has_id, find_job}
use inkspire_lorcana_develop.Jobs.Invariant.{RowOk, FitsRow, Fits, Counted, belongs, IsValid}
use inkspire_lorcana_develop.Jobs.Invariant.Find.{
  find_job_id, find_job-filter, filter-IdsDistinct, filter-KeysDistinct,
}
use inkspire_lorcana_develop.Jobs.Prune.{doomed, prune_completed_before}

module _ (rows : List Job) where
  abbrev spared : ℕ → Bool
  spared i = not (any (has_id i) rows)

  Fits-after :
      (jobs : List Job) (a : Attempt)
      → Fits jobs a × (spared a.job_id ≡ true)
      → Fits (filter (λ j. spared j.job_id) jobs) a
  Fits-after jobs a (h, kept) = elim (Option-cases (find_job a.job_id jobs)) [
    | inl absent ↦ absurd (subst (λ o. FitsRow o a) absent h)
    | inr (j, found) ↦
        subst (λ o. FitsRow o a)
          (sym (
            find_job-filter a.job_id (λ k. spared k.job_id) jobs found
              (ground (arith, find_job_id a.job_id jobs {j = j} found))))
          (subst (λ o. FitsRow o a) found h)
  ]

  Counted-after :
      (rest : List Attempt) (j : Job)
      → Counted rest j × (spared j.job_id ≡ true)
      → Counted (filter (λ a. spared a.job_id) rest) j
  Counted-after rest j (h, kept) =
      count_where-filter (belongs j.job_id) (λ a. spared a.job_id) rest (λ a e. ground arith) ∙ h

  delete-IsValid :
      (db : Db)
      → IsValid db
      → IsValid (record {
        jobs = filter (λ j. spared j.job_id) db.jobs;
        attempts = filter (λ a. spared a.job_id) db.attempts;
      })
  delete-IsValid db v =
      let keep_job = λ (j : Job). spared j.job_id in
      let keep_attempt = λ (a : Attempt). spared a.job_id in
      record {
        ids = filter-IdsDistinct keep_job db.jobs v.ids;
        keys = filter-KeysDistinct keep_job db.jobs v.keys;
        rows = All-filter RowOk keep_job db.jobs v.rows;
        fits =
            All-map (λ a. Fits db.jobs a × (keep_attempt a ≡ true)) (Fits (filter keep_job db.jobs))
              (filter keep_attempt db.attempts) (Fits-after db.jobs)
              (All-both (Fits db.jobs) (λ a. keep_attempt a ≡ true)
                (filter keep_attempt db.attempts)
                (All-filter (Fits db.jobs) keep_attempt db.attempts v.fits)
                (filter-All (λ a. keep_attempt a ≡ true) keep_attempt db.attempts (λ a h. h)));
        counted =
            All-map (λ j. Counted db.attempts j × (keep_job j ≡ true))
              (Counted (filter keep_attempt db.attempts)) (filter keep_job db.jobs)
              (Counted-after db.attempts)
              (All-both (Counted db.attempts) (λ j. keep_job j ≡ true) (filter keep_job db.jobs)
                (All-filter (Counted db.attempts) keep_job db.jobs v.counted)
                (filter-All (λ j. keep_job j ≡ true) keep_job db.jobs (λ j h. h)));
      }

pub prune_completed_before-IsValid :
    (locked : ℕ → Bool) (before limit : ℕ) (db : Db)
    → IsValid db
    → IsValid (prune_completed_before locked before limit db).1
unfolding prune_completed_before
prune_completed_before-IsValid locked before limit db v =
    delete-IsValid (doomed locked before limit db.jobs) db v
