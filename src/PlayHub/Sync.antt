-- ===== src/PlayHub/Sync.antt =====
-- The ingestion state in `PlayHubRepository` (src/lorcana/playhub/repository.py): discovery runs, import
-- attempts and each event's synchronization state.
pub mod Writes
use inkspire_lorcana_develop.Prelude.{
  ℕ, String, Bool, true, false, ◌&&◌, ◌==◌, if◌then◌else◌, List, [], ◌∷◌, ◌++◌, any, update_where,
  Option, none, some, ℤ, eqb_ℤ, Result, ok, err, integrity_error,
}
use inkspire_lorcana_develop.PlayHub.Tables.{
  Db, ImportStatus, import_running, SyncStatus, discovered, DiscoveryStatus, discovery_running,
  discovery_complete, DiscoveryRun, SyncState, ImportAttempt, coalesce, upsert, has_event,
}

abbrev pub is_complete_window : ℕ → ℕ → DiscoveryRun → Bool
is_complete_window start end run =
    start == run.start_datetime
    && end == run.end_datetime
    && (elim run.status [ discovery_complete ↦ true | _ ↦ false ])

abbrev pub has_completed_discovery_window : ℕ → ℕ → Db → Bool
has_completed_discovery_window start end db = any (is_complete_window start end) db.discovery_runs

abbrev pub is_run : ℕ → DiscoveryRun → Bool
is_run i run = i == run.discovery_run_id

abbrev pub running_run : ℕ → ℕ → ℕ → ℕ → DiscoveryRun
running_run id started_at start end = record {
  discovery_run_id = id;
  started_at = started_at;
  completed_at = none;
  start_datetime = start;
  end_datetime = end;
  events_received = 0;
  unique_events = 0;
  duplicate_rows = 0;
  status = discovery_running;
  error_category = none;
  error_summary = none;
}

unfoldable pub start_discovery_run : ℕ → ℕ → ℕ → ℕ → Db → Result Db
start_discovery_run id started_at start end db =
    if any (is_run id) db.discovery_runs
    then err integrity_error
    else ok (record db {
      discovery_runs = db.discovery_runs ++ running_run id started_at start end ∷ [];
    })

-- The values of `finish_discovery_run`.
pub record DiscoveryEnd : Type 0 where
  pub completed_at : ℕ
  pub status : DiscoveryStatus
  pub events_received : ℕ
  pub unique_events : ℕ
  pub duplicate_rows : ℕ
  pub error_category : Option String
  pub error_summary : Option String

abbrev pub finished_run : DiscoveryEnd → DiscoveryRun → DiscoveryRun
finished_run v run = record run {
  completed_at = some v.completed_at;
  status = v.status;
  events_received = v.events_received;
  unique_events = v.unique_events;
  duplicate_rows = v.duplicate_rows;
  error_category = v.error_category;
  error_summary = v.error_summary;
}

unfoldable pub finish_discovery_run : ℕ → DiscoveryEnd → Db → Db
finish_discovery_run id v db = record db {
  discovery_runs = update_where (is_run id) (finished_run v) db.discovery_runs;
}

abbrev pub is_state_of : ℤ → SyncState → Bool
is_state_of i s = eqb_ℤ i s.event_id

-- `ON CONFLICT DO NOTHING`
unfoldable pub ensure_event_sync_state : ℤ → Db → Result Db
ensure_event_sync_state i db =
    if has_event i db
    then ok (record db {
      sync_states =
          upsert (is_state_of i) (λ old. old)
            (record {
              event_id = i;
              state = discovered;
              last_attempt_at = none;
              last_success_at = none;
              last_error_category = none;
              last_error_summary = none;
              source_revision = none;
            })
            db.sync_states;
    })
    else err integrity_error

abbrev pub is_attempt : ℕ → ImportAttempt → Bool
is_attempt i a = i == a.import_attempt_id

abbrev pub running_attempt : ℕ → ℤ → ℕ → ImportAttempt
running_attempt id event_id started_at = record {
  import_attempt_id = id;
  event_id = event_id;
  started_at = started_at;
  completed_at = none;
  status = import_running;
  rounds_expected = none;
  rounds_imported = none;
  registrations_found = none;
  matches_found = none;
  players_found = none;
  error_category = none;
  error_summary = none;
}

unfoldable pub start_import_attempt : ℕ → ℤ → ℕ → Db → Result Db
start_import_attempt id event_id started_at db =
    if any (is_attempt id) db.attempts
    then err integrity_error
    else if has_event event_id db
    then ok (record db { attempts = db.attempts ++ running_attempt id event_id started_at ∷ [] })
    else err integrity_error

-- The values of `finish_import_attempt`.
pub record ImportEnd : Type 0 where
  pub completed_at : ℕ
  pub status : ImportStatus
  pub rounds_expected : ℕ
  pub rounds_imported : ℕ
  pub registrations_found : ℕ
  pub matches_found : ℕ
  pub players_found : ℕ
  pub error_category : Option String
  pub error_summary : Option String

abbrev pub finished_attempt : ImportEnd → ImportAttempt → ImportAttempt
finished_attempt v a = record a {
  completed_at = some v.completed_at;
  status = v.status;
  rounds_expected = some v.rounds_expected;
  rounds_imported = some v.rounds_imported;
  registrations_found = some v.registrations_found;
  matches_found = some v.matches_found;
  players_found = some v.players_found;
  error_category = v.error_category;
  error_summary = v.error_summary;
}

unfoldable pub finish_import_attempt : ℕ → ImportEnd → Db → Db
finish_import_attempt id v db = record db {
  attempts = update_where (is_attempt id) (finished_attempt v) db.attempts;
}

abbrev pub merge_state : SyncState → SyncState → SyncState
merge_state new old = record old {
  state = new.state;
  last_attempt_at = coalesce new.last_attempt_at old.last_attempt_at;
  last_success_at = coalesce new.last_success_at old.last_success_at;
  last_error_category = new.last_error_category;
  last_error_summary = new.last_error_summary;
  source_revision = coalesce new.source_revision old.source_revision;
}

-- `set_event_sync_state`, of the row that its arguments make.
unfoldable pub set_event_sync_state : SyncState → Db → Result Db
set_event_sync_state new db =
    if has_event new.event_id db
    then ok (record db {
      sync_states = upsert (is_state_of new.event_id) (merge_state new) new db.sync_states;
    })
    else err integrity_error
