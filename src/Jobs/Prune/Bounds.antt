-- ===== src/Jobs/Prune/Bounds.antt =====
-- Which jobs `prune_completed_before` deletes.
use inkspire_lorcana_develop.Prelude.{
  order_by, order_by-All, All-both, All-filter, subst, ◌⊎◌, ℕ, zero, suc, Bool, true, not, none,
  some, List, [], ◌∷◌, ◌≡◌, refl, ◌&&◌, ◌==◌, ◌≤◌, All, filter, filter-All, any, Option-cases,
  false, ◌<◌, count_where, ◌+◌, take, length, length-take-le, arith, Bool-cases, inl, inr,
}
use inkspire_lorcana_develop.Jobs.Tables.{
  JobStatus, queued, running, succeeded, failed, cancelled, is_terminal, Job, Db, has_id, find_job,
}
use inkspire_lorcana_develop.Jobs.Invariant.{IsValid, IdsDistinct}
use inkspire_lorcana_develop.Jobs.Invariant.Find.{
  rows_found, find_job-filter, find_job-filter_gone, find_job_id,
}
use inkspire_lorcana_develop.Jobs.Prune.{
  prunable, completed_precedes, doomed, prune_completed_before,
}

length-filter_rest :
    (p : Job → Bool) (jobs : List Job)
    → length (filter (λ j. not (p j)) jobs) + count_where p jobs ≡ length jobs
length-filter_rest p [] = refl
length-filter_rest p (j ∷ js) = ground (arith, length-filter_rest p js)

count_id_absent :
    (i : ℕ) (jobs : List Job) → find_job i jobs ≡ none → count_where (λ j. i == j.job_id) jobs ≡ 0
count_id_absent i [] h = refl
count_id_absent i (j ∷ js) h = ground (arith, count_id_absent i js)

count_id : (i : ℕ) (jobs : List Job) → IdsDistinct jobs → count_where (λ j. i == j.job_id) jobs ≤ 1
count_id i [] d = omega arith
count_id i (j ∷ js) d = ground (arith, count_id i js d.1, count_id_absent i js, d.0)

count_any_nil : (jobs : List Job) → count_where (λ j. any (has_id j.job_id) []) jobs ≡ 0
count_any_nil [] = refl
count_any_nil (j ∷ js) = count_any_nil js

count_any_cons :
    (r : Job) (rows jobs : List Job)
    → count_where (λ j. any (has_id j.job_id) (r ∷ rows)) jobs
      ≤ count_where (λ j. r.job_id == j.job_id) jobs
        + count_where (λ j. any (has_id j.job_id) rows) jobs
count_any_cons r rows [] = omega arith
count_any_cons r rows (j ∷ js) = ground (arith, count_any_cons r rows js)

-- Each row names at most one job.
count_any :
    (rows jobs : List Job)
    → IdsDistinct jobs
    → count_where (λ j. any (has_id j.job_id) rows) jobs ≤ length rows
count_any [] jobs d = omega (arith, count_any_nil jobs)
count_any (r ∷ rs) jobs d =
    omega (arith, count_any_cons r rs jobs, count_id r.job_id jobs d, count_any rs jobs d)

take-All {κ} : (P : Job → Type κ) (n : ℕ) (xs : List Job) → All P xs → All P (take n xs)
take-All P zero xs h = tt
take-All P (suc n) [] h = tt
take-All P (suc n) (x ∷ xs) h = (h.0, take-All P n xs h.1)

-- A job that is over, was completed before the given time, and is not locked.
abbrev pub IsPrunable : (ℕ → Bool) → ℕ → Job → Type 0
IsPrunable locked before j =
    ((j.status ≡ succeeded) ⊎ ((j.status ≡ failed) ⊎ (j.status ≡ cancelled)))
    × ((t : ℕ) × (j.completed_at ≡ some t) × (t < before))
    × (locked j.job_id ≡ false)

terminal_status :
    (s : JobStatus) → is_terminal s ≡ true → (s ≡ succeeded) ⊎ ((s ≡ failed) ⊎ (s ≡ cancelled))
terminal_status queued h = cc
terminal_status running h = cc
terminal_status succeeded h = inl refl
terminal_status failed h = inr (inl refl)
terminal_status cancelled h = inr (inr refl)

prunable-IsPrunable :
    (locked : ℕ → Bool) (before : ℕ) (j : Job)
    → prunable before j && not (locked j.job_id) ≡ true
    → IsPrunable locked before j
prunable-IsPrunable locked before j h =
    let completed : (t : ℕ) × (j.completed_at ≡ some t) × (t < before) =
      elim (Option-cases j.completed_at) [
        | inl unset ↦ absurd (ground (arith, unset))
        | inr (t, at) ↦ (t, at, ground (arith, at))
      ] in
    (terminal_status j.status (ground arith), completed, ground arith)

module _ (locked : ℕ → Bool) (before limit : ℕ) where
  abbrev pub may_prune : Job → Bool
  may_prune j = prunable before j && not (locked j.job_id)

  pub doomed-All :
      (jobs : List Job) → All (λ j. may_prune j ≡ true) (doomed locked before limit jobs)
  unfolding doomed
  doomed-All jobs =
      take-All (λ j. may_prune j ≡ true) limit (order_by completed_precedes (filter may_prune jobs))
        (order_by-All (λ j. may_prune j ≡ true) completed_precedes (filter may_prune jobs)
          (filter-All (λ j. may_prune j ≡ true) may_prune jobs (λ j h. h)))

  doomed-length : (jobs : List Job) → length (doomed locked before limit jobs) ≤ limit
  unfolding doomed
  doomed-length jobs = length-take-le limit (order_by completed_precedes (filter may_prune jobs))

  any_id :
      {Q : Job → Type 0} (i : ℕ) (rows : List Job)
      → All Q rows
      → any (has_id i) rows ≡ true
      → (r : Job) × Q r × (i ≡ r.job_id)
  any_id i [] h e = cc
  any_id i (r ∷ rs) h e = elim (Bool-cases (i == r.job_id)) [
    | inl here ↦ (r, h.0, ground arith)
    | inr there ↦ any_id i rs h.1 (ground arith)
  ]

  doomed_found :
      (jobs : List Job)
      → IdsDistinct jobs
      → All (λ r. find_job r.job_id jobs ≡ some r) (doomed locked before limit jobs)
  unfolding doomed
  doomed_found jobs d =
      take-All (λ r. find_job r.job_id jobs ≡ some r) limit
        (order_by completed_precedes (filter may_prune jobs))
        (order_by-All (λ r. find_job r.job_id jobs ≡ some r) completed_precedes
          (filter may_prune jobs)
          (All-filter (λ r. find_job r.job_id jobs ≡ some r) may_prune jobs (rows_found jobs d)))

  -- A job that is deleted is terminal, completed before the given time and is not locked.
  doomed_may :
      (jobs : List Job) (i : ℕ) {j : Job}
      → IdsDistinct jobs
      → find_job i jobs ≡ some j
      → any (has_id i) (doomed locked before limit jobs) ≡ true
      → may_prune j ≡ true
  doomed_may jobs i {j} d found hit =
      let both =
        All-both (λ r. find_job r.job_id jobs ≡ some r) (λ r. may_prune r ≡ true)
          (doomed locked before limit jobs) (doomed_found jobs d) (doomed-All jobs) in
      let (r, (at, may), same) = any_id i (doomed locked before limit jobs) both hit in
      let row : r ≡ j = ground arith in subst (λ k. may_prune k ≡ true) row may

  -- On tables that satisfy the invariant, pruning returns a number within the limit, the table is
  -- at most that many rows shorter afterwards, and each job is kept as it is unless it is
  -- terminal, completed before the given time, and not locked.
  pub prune_completed_before_only :
      (db : Db) (i : ℕ) {j : Job}
      → IsValid db
      → find_job i db.jobs ≡ some j
      → let (n, after) = prune_completed_before locked before limit db in
        (n ≤ limit)
        × (length db.jobs ≤ length after.jobs + n)
        × ((find_job i after.jobs ≡ some j)
            ⊎ ((find_job i after.jobs ≡ none) × IsPrunable locked before j))
  unfolding prune_completed_before
  prune_completed_before_only db i {j} v found = (
    doomed-length db.jobs,
    omega (
      arith,
      length-filter_rest (λ k. any (has_id k.job_id) (doomed locked before limit db.jobs)) db.jobs,
      count_any (doomed locked before limit db.jobs) db.jobs v.ids,
    ),
    elim (Bool-cases (any (has_id i) (doomed locked before limit db.jobs))) [
      | inl hit ↦ inr (
        find_job-filter_gone i _ db.jobs {j = j} v.ids found
            (ground (arith, find_job_id i db.jobs {j = j} found)),
        prunable-IsPrunable locked before j (doomed_may db.jobs i {j = j} v.ids found hit),
      )
      | inr miss ↦ inl (
          find_job-filter i _ db.jobs {j = j} found
            (ground (arith, find_job_id i db.jobs {j = j} found)))
    ],
  )
