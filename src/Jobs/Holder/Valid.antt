-- ===== src/Jobs/Holder/Valid.antt =====
-- `heartbeat`, `succeed` and `fail` of `JobRepository` and the invariant of the tables.
use inkspire_lorcana_develop.Prelude.{
  ℕ, String, true, false, Option, some, List, [], ◌∷◌, ◌≡◌, refl, ap, subst, Json, find, arith,
  Option-cases, inl, inr, update_where,
}
use inkspire_lorcana_develop.Jobs.Tables.{
  Job, Attempt, Db, find_job, has_id, attempt_succeeded, attempt_failed,
}
use inkspire_lorcana_develop.Jobs.Invariant.{IsValid}
use inkspire_lorcana_develop.Jobs.Invariant.Find.{find_job_id}
use inkspire_lorcana_develop.Jobs.Invariant.Update.{Rewrites, update-IsValid}
use inkspire_lorcana_develop.Jobs.Holder.Held.{
  count_held, find_held, find_held_is, update_held_none,
}
use inkspire_lorcana_develop.Jobs.Holder.{
  is_held, beat_row, heartbeat, succeed_row, is_attempt_of, succeed, can_retry, fail_row, fail,
}

update_none : (as' : List Attempt) → update_where (λ a. false) (λ a. a) as' ≡ as'
update_none [] = refl
update_none (a ∷ r) = ap (λ t. a ∷ t) (update_none r)

module _ (i token now expires : ℕ) (progress : Option Json) where
  beat-Rewrites :
      (jobs : List Job)
      → Rewrites jobs (is_held i token) (beat_row now expires progress) (λ a. false) (λ a. a)
  beat-Rewrites jobs = record {
    keep_id = λ j. ground arith;
    keep_key = λ j. ground arith;
    keep_owner = λ a. refl;
    row = λ j found ok_row. ground arith;
    fit = λ j a found ok_row h. ground arith;
  }

  pub heartbeat-IsValid :
      (db : Db) → IsValid db → IsValid (heartbeat i token now expires progress db).1
  unfolding heartbeat
  heartbeat-IsValid db v =
      subst
        (λ r. IsValid (record {
          jobs = update_where (is_held i token) (beat_row now expires progress) db.jobs;
          attempts = r;
        }))
        (update_none db.attempts) (update-IsValid db (beat-Rewrites db.jobs) (λ j. ground arith) v)

module _ (i token now : ℕ) (progress : Option Json) where
  succeed-Rewrites :
      (jobs : List Job)
      → Rewrites jobs
          (is_held i token)
          (succeed_row now progress)
          (is_attempt_of i token)
          (λ a. record a { status = attempt_succeeded; completed_at = some now })
  succeed-Rewrites jobs = record {
    keep_id = λ j. refl;
    keep_key = λ j. refl;
    keep_owner = λ a. refl;
    row = λ j found ok_row. ground arith;
    fit = λ j a found ok_row h. ground (arith, find_job_id a.job_id jobs found);
  }

  pub succeed-IsValid : (db : Db) → IsValid db → IsValid (succeed i token now progress db).1
  unfolding succeed
  succeed-IsValid db v = elim (Option-cases (find (is_held i token) db.jobs)) [
    | inl gone ↦
        let same = update_held_none i token (succeed_row now progress) db.jobs v.ids gone in
        ground (arith, count_held i token db.jobs v.ids, same)
    | inr (j, found) ↦
        let written = update-IsValid db (succeed-Rewrites db.jobs) (λ j. refl) v in
        rw (count_held i token db.jobs v.ids, found) written
  ]

module _ (i token now : ℕ) (retry_at : Option ℕ) (category summary : String) where
  fail-Rewrites :
      (jobs : List Job) (current : Job)
      → find_job i jobs ≡ some current
      → is_held i token current ≡ true
      → Rewrites jobs
          (has_id i)
          (fail_row (can_retry retry_at current) now retry_at category summary)
          (is_attempt_of i token)
          (λ a. record a {
            status = attempt_failed;
            completed_at = some now;
            error_category = some category;
            error_summary = some summary;
          })
  fail-Rewrites jobs current e held = record {
    keep_id = λ j. refl;
    keep_key = λ j. refl;
    keep_owner = λ a. refl;
    row = λ j found ok_row. ground (arith, find_job_id i jobs {j = current} e);
    fit = λ j a found ok_row h. ground (arith, find_job_id a.job_id jobs {j = j} found);
  }

  pub fail-IsValid :
      (db : Db) → IsValid db → IsValid (fail i token now retry_at category summary db).1
  unfolding fail
  fail-IsValid db v = elim (Option-cases (find (is_held i token) db.jobs)) [
    | inl gone ↦ rw (gone, fail) v
    | inr (current, found) ↦
        rw (found, fail)
          (update-IsValid db
            (fail-Rewrites db.jobs current (find_held i token db.jobs v.ids found)
              (find_held_is i token db.jobs found))
            (λ j. refl) v)
  ]
