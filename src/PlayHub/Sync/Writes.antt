-- ===== src/PlayHub/Sync/Writes.antt =====
-- When the writes of the ingestion state go through, and what they write.
use inkspire_lorcana_develop.Prelude.{
  ℕ, true, false, [], ◌∷◌, ◌++◌, any, ℤ, ok, ok-injective, ◌≡◌, refl, arith, Bool-cases, inl, inr,
}
use inkspire_lorcana_develop.PlayHub.Tables.{Db, SyncState, upsert, has_event}
use inkspire_lorcana_develop.PlayHub.Sync.{
  is_attempt, running_attempt, start_import_attempt, is_state_of, merge_state, set_event_sync_state,
}

pub start_import_attempt-ok :
    (id : ℕ) (event_id : ℤ) (started_at : ℕ) (db : Db) {after : Db}
    → start_import_attempt id event_id started_at db ≡ ok after
    → (any (is_attempt id) db.attempts ≡ false)
      × (has_event event_id db ≡ true)
      × (record db { attempts = db.attempts ++ running_attempt id event_id started_at ∷ [] }
          ≡ after)
unfolding start_import_attempt
start_import_attempt-ok id event_id started_at db e =
    elim (Bool-cases (any (is_attempt id) db.attempts)) [
      | inl taken ↦ absurd (ground (arith, taken, e))
      | inr fresh ↦ elim (Bool-cases (has_event event_id db)) [
        | inl known ↦ (fresh, known, ok-injective (ground (arith, fresh, known, e)))
        | inr unknown ↦ absurd (ground (arith, fresh, unknown, e))
      ]
    ]

pub set_event_sync_state-known :
    (new : SyncState) (db : Db)
    → has_event new.event_id db ≡ true
    → set_event_sync_state new db
      ≡ ok (record db {
        sync_states = upsert (is_state_of new.event_id) (merge_state new) new db.sync_states;
      })
unfolding set_event_sync_state
set_event_sync_state-known new db known = rw known refl
