-- ===== src/Jobs/Holder/Fencing.antt =====
-- `heartbeat`, `succeed` and `fail` of `JobRepository` under a token that is not the lease's.
use inkspire_lorcana_develop.Prelude.{
  ℕ, false, Option, none, some, ◌≡◌, String, Json, find, arith, Option-cases, inl, inr,
}
use inkspire_lorcana_develop.Jobs.Tables.{Job, Db, find_job}
use inkspire_lorcana_develop.Jobs.Invariant.{IsValid}
use inkspire_lorcana_develop.Jobs.Holder.Held.{
  count_held, find_held, find_held_is, update_held_none,
}
use inkspire_lorcana_develop.Jobs.Holder.{is_held, beat_row, heartbeat, succeed_row, succeed, fail}

module _ (i token : ℕ) where
  -- No row is held if the job of the id is not.
  pub not_held :
      (db : Db) {j : Job}
      → IsValid db
      → find_job i db.jobs ≡ some j
      → is_held i token j ≡ false
      → find (is_held i token) db.jobs ≡ none
  not_held db {j} v found gone = elim (Option-cases (find (is_held i token) db.jobs)) [
    | inl absent ↦ absent
    | inr (c, held) ↦
        let same : c ≡ j = ground (arith, find_held i token db.jobs {j = c} v.ids held) in
        absurd (ground (arith, find_held_is i token db.jobs {j = c} held, same))
  ]

  -- On tables that satisfy the invariant, a heartbeat, a success or a failure reported for a job
  -- with a token that is not the one of its running lease returns false and leaves both tables as
  -- they are.
  pub stale_writes_nothing :
      (db : Db) (now expires : ℕ) (progress : Option Json) (retry_at : Option ℕ)
      (category summary : String) {j : Job}
      → IsValid db
      → find_job i db.jobs ≡ some j
      → is_held i token j ≡ false
      → (heartbeat i token now expires progress db ≡ (false, db))
        × (succeed i token now progress db ≡ (false, db))
        × (fail i token now retry_at category summary db ≡ (false, db))
  unfolding heartbeat succeed fail
  stale_writes_nothing db now expires progress retry_at category summary {j} v found gone =
      let absent = not_held db {j = j} v found gone in
      (
        ground (
          arith,
          absent,
          count_held i token db.jobs v.ids,
          update_held_none i token (beat_row now expires progress) db.jobs v.ids absent,
        ),
        ground (
          arith,
          absent,
          count_held i token db.jobs v.ids,
          update_held_none i token (succeed_row now progress) db.jobs v.ids absent,
        ),
        ground (arith, absent),
      )
