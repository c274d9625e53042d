-- ===== src/Jobs/Holder/Held.antt =====
-- The row that the WHERE clause of the holder's statements meets.
use inkspire_lorcana_develop.Prelude.{
  ℕ, true, none, some, List, [], ◌∷◌, ◌≡◌, refl, find, count_where, update_where, update_where_none,
  arith,
}
use inkspire_lorcana_develop.Jobs.Tables.{Job, find_job}
use inkspire_lorcana_develop.Jobs.Invariant.{IdsDistinct}
use inkspire_lorcana_develop.Jobs.Invariant.Find.{find_job_id}
use inkspire_lorcana_develop.Jobs.Holder.{is_held}

module _ (i token : ℕ) where
  count_held_none :
      (jobs : List Job) → find_job i jobs ≡ none → count_where (is_held i token) jobs ≡ 0
  count_held_none [] h = refl
  count_held_none (x ∷ xs) h = ground (arith, count_held_none xs)

  -- `rowcount` is 1 exactly if the row is there.
  pub count_held :
      (jobs : List Job)
      → IdsDistinct jobs
      → count_where (is_held i token) jobs
        ≡ elim (find (is_held i token) jobs) [ none ↦ 0 | some j ↦ 1 ]
  count_held [] d = refl
  count_held (x ∷ xs) d = ground (arith, count_held xs d.1, count_held_none xs, d.0)

  -- The row that is held is the one of the job's id.
  pub find_held :
      (jobs : List Job) {j : Job}
      → IdsDistinct jobs
      → find (is_held i token) jobs ≡ some j
      → find_job i jobs ≡ some j
  find_held [] d h = cc
  find_held (x ∷ xs) {j} d h = ground (arith, find_held xs {j = j}, find_job_id i xs {j = j}, d.0)

  pub find_held_is :
      (jobs : List Job) {j : Job} → find (is_held i token) jobs ≡ some j → is_held i token j ≡ true
  find_held_is [] h = cc
  find_held_is (x ∷ xs) {j} h = ground (arith, find_held_is xs {j = j})

  -- Conversely, the job of the id is held if it meets the condition.
  pub held_find :
      (jobs : List Job) {j : Job}
      → find_job i jobs ≡ some j
      → is_held i token j ≡ true
      → find (is_held i token) jobs ≡ some j
  held_find [] h held = cc
  held_find (x ∷ xs) {j} h held = ground (arith, held_find xs {j = j})

  -- Nothing is written where no row is held.
  pub update_held_none :
      (f : Job → Job) (jobs : List Job)
      → IdsDistinct jobs
      → find (is_held i token) jobs ≡ none
      → update_where (is_held i token) f jobs ≡ jobs
  update_held_none f jobs d h =
      update_where_none (is_held i token) f jobs (ground (arith, count_held jobs d))
