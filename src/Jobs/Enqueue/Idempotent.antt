-- ===== src/Jobs/Enqueue/Idempotent.antt =====
-- Lemmas on repeated calls of `JobRepository.enqueue` under one idempotency key.
use inkspire_lorcana_develop.Prelude.{
  ℕ, String, Bool, true, false, none, some, List, [], ◌∷◌, ◌++◌, ◌≡◌, refl, sym, subst, find, arith,
  ◌≤◌, ◌⊎◌, Option-cases, inl, inr, ok, err, integrity_error, ltb, if◌then◌else◌, and_then-eq-ok,
  key_eq, key_eq_self,
}
use inkspire_lorcana_develop.Jobs.Tables.{Job, Db, find_job, has_key, insert_job}
use inkspire_lorcana_develop.Jobs.Enqueue.{NewJob, new_row, insert_new, enqueue}
use inkspire_lorcana_develop.Jobs.Enqueue.Valid.{insert_job_ok}

find-append_new :
    (k : String) (xs : List Job) (y : Job)
    → find (has_key k) xs ≡ none
    → key_eq y.idempotency_key k ≡ true
    → find (has_key k) (xs ++ y ∷ []) ≡ some y
find-append_new k [] y h e = ground arith
find-append_new k (x ∷ xs) y h e = ground (arith, find-append_new k xs y)

new_row_key : (n : NewJob) → (new_row n).idempotency_key ≡ n.idempotency_key
unfolding new_row
new_row_key n = refl

new_row_id : (n : NewJob) → (new_row n).job_id ≡ n.job_id
unfolding new_row
new_row_id n = refl

new_row_attempts : (n : NewJob) → (new_row n).max_attempts ≡ n.max_attempts
unfolding new_row
new_row_attempts n = refl

module _ (n : NewJob) (key : String) (keyed : n.idempotency_key ≡ some key) where
  -- After an enqueue with a key, the row of that key is the one that was returned.
  pub enqueued_find :
      (db : Db) {i : ℕ} {created : Bool} {after : Db}
      → enqueue n db ≡ ok ((i, created), after)
      → (j : Job) × (find (has_key key) after.jobs ≡ some j) × (j.job_id ≡ i)
  unfolding enqueue
  enqueued_find db {i} {created} {after} e = elim (Option-cases (find (has_key key) db.jobs)) [
    | inr (j, taken) ↦ (j, ground arith, ground arith)
    | inl free ↦
        let given : insert_new n db ≡ ok ((i, created), after) = ground arith in
        let (after', inserted, same) =
          and_then-eq-ok (insert_job (new_row n) db) (λ d. ok ((n.job_id, true), d)) given in
        let (_, _, _, eq) = insert_job_ok (new_row n) db inserted in
        let found = find-append_new key db.jobs (new_row n) free (
          subst (λ o. key_eq o key ≡ true) (sym (new_row_key n))
            (ground (arith, key_eq_self key))) in
        (new_row n, ground arith, ground (arith, new_row_id n))
  ]

  -- With attempts allowed and a new id the call returns, and the row of its key is one that was there
  -- or the new one.
  pub enqueue_with_key :
      (db : Db)
      → 1 ≤ n.max_attempts
      → find_job n.job_id db.jobs ≡ none
      → (j : Job) × (r : ℕ × Bool) × (after : Db) × (enqueue n db ≡ ok (r, after))
        × (find (has_key key) after.jobs ≡ some j)
        × ((find (has_key key) db.jobs ≡ some j) ⊎ (j ≡ new_row n))
  unfolding enqueue insert_job
  enqueue_with_key db allowed new = elim (Option-cases (find (has_key key) db.jobs)) [
    | inr (j, taken) ↦ (j, (j.job_id, false), db, ground arith, taken, inl taken)
    | inl free ↦
        let after : Db = record { jobs = db.jobs ++ new_row n ∷ []; attempts = db.attempts } in
        (
          new_row n,
          (n.job_id, true),
          after,
          ground (arith, new_row_key n, new_row_id n, new_row_attempts n),
          find-append_new key db.jobs (new_row n) free (
              subst (λ o. key_eq o key ≡ true) (sym (new_row_key n))
                (ground (arith, key_eq_self key))),
          inr refl,
        )
  ]

  -- After an enqueue with an idempotency key that returned, a second enqueue under the same key
  -- raises an integrity error if its max_attempts is below 1, and otherwise returns the same job,
  -- reports that nothing was created, and leaves the tables as they are.
  pub enqueue_again :
      (m : NewJob) (db : Db) {i : ℕ} {created : Bool} {after : Db}
      → m.idempotency_key ≡ some key
      → enqueue n db ≡ ok ((i, created), after)
      → enqueue m after
        ≡ (if ltb m.max_attempts 1 then err integrity_error else ok ((i, false), after))
  unfolding enqueue
  enqueue_again m db {i} {created} {after} again e =
      let (j, found, same) = enqueued_find db e in ground (arith, found)
