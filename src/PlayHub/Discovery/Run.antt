-- ===== src/PlayHub/Discovery/Run.antt =====
-- `PlayHubDiscoveryService.sync_range` and `sync_day` (src/lorcana/playhub/service.py): a discovery run
-- over a window of whole days, which are numbers here. A call returns a result or an exception, with the
-- tables after it.
use inkspire_lorcana_develop.Prelude.{
  ℕ, suc, ◌-◌, ◌*◌, String, Bool, true, false, ltb, leb, if◌then◌else◌, List, [], ◌∷◌, length,
  Option, none, some, Fields, Result, ok, err, ◌>>=◌, Error, value_error, Datetime, aware, to_utc,
  seconds,
}
use inkspire_lorcana_develop.PlayHub.Raw.{Builtins, get}
use inkspire_lorcana_develop.PlayHub.Types.{PlayHubStore, EventBundle}
use inkspire_lorcana_develop.PlayHub.Tables.{Db, Row, discovery_complete, discovery_failed}
use inkspire_lorcana_develop.PlayHub.Facts.{upsert_store, upsert_event, each}
use inkspire_lorcana_develop.PlayHub.Sync.{
  has_completed_discovery_window, start_discovery_run, finish_discovery_run,
  ensure_event_sync_state, DiscoveryEnd,
}
use inkspire_lorcana_develop.PlayHub.Parser.{parse_event_bundle}
use inkspire_lorcana_develop.PlayHub.Discovery.{DiscoverySelection, select_discovered_events}
use inkspire_lorcana_develop.PlayHub.Import.{error_category}

pub data DiscoveryReading : Type 0 where
  run_started run_observed run_completed run_failed : DiscoveryReading

pub record DiscoveryService : Type 0 where
  pub python : Builtins
  pub fetch_all_discovered_events : ℕ → ℕ → Result (List Fields)
  pub refuses : Row → Option Error
  pub clock : DiscoveryReading → Datetime
  pub uuid : ℕ
  pub text_of : Error → String

pub record PlayHubDiscoveryResult : Type 0 where
  pub discovery_run_id : Option ℕ
  pub start_datetime : ℕ
  pub end_datetime : ℕ
  pub events_received : ℕ
  pub unique_events : ℕ
  pub duplicate_rows : ℕ
  pub persisted_events : ℕ
  pub skipped : Bool

-- `datetime.combine(day, time.min, tzinfo=timezone.utc)`
abbrev pub midnight : ℕ → ℕ
midnight day = day * seconds 86400

abbrev pub skipped_result : ℕ → ℕ → PlayHubDiscoveryResult
skipped_result start end = record {
  discovery_run_id = none;
  start_datetime = start;
  end_datetime = end;
  events_received = 0;
  unique_events = 0;
  duplicate_rows = 0;
  persisted_events = 0;
  skipped = true;
}

-- What a run counts.
pub record Counts : Type 0 where
  pub events_received : ℕ
  pub unique_events : ℕ
  pub duplicate_rows : ℕ

abbrev pub no_counts : Counts
no_counts = record { events_received = 0; unique_events = 0; duplicate_rows = 0 }

abbrev pub counts_of : List Fields → DiscoverySelection → Counts
counts_of raws s = record {
  events_received = length raws;
  unique_events = length s.events;
  duplicate_rows = s.duplicate_rows;
}

abbrev pub run_end : Counts → ℕ → DiscoveryEnd
run_end c at = record {
  completed_at = at;
  status = discovery_complete;
  events_received = c.events_received;
  unique_events = c.unique_events;
  duplicate_rows = c.duplicate_rows;
  error_category = none;
  error_summary = none;
}

module _ (service : DiscoveryService) where
  abbrev pub write_event_store : Option PlayHubStore → Db → Result Db
  write_event_store none db = ok db
  write_event_store (some store) db = upsert_store service.refuses store db

  abbrev pub write_discovered : EventBundle → Db → Result Db
  write_discovered bundle db = do
    stored ← write_event_store bundle.store db
    with_event ← upsert_event service.refuses bundle.event stored
    ensure_event_sync_state bundle.event.event_id with_event

  -- `parse_event_bundle(raw_event, int(raw_event["id"]), observed_at=observed_at)` for each event.
  abbrev pub parse_bundles : List Fields → Result (List EventBundle)
  parse_bundles [] = ok []
  parse_bundles (raw ∷ raws) = do
    i ← service.python.to_int (get "id" raw)
    bundle ← parse_event_bundle service.python raw i (service.clock run_observed)
    rest ← parse_bundles raws
    ok (bundle ∷ rest)

  -- The rest of the `try` block, once the events are selected.
  abbrev pub store_selection : Counts → DiscoverySelection → Db → Result (ℕ × Db)
  store_selection c s db = do
    _ ← to_utc (service.clock run_observed)
    bundles ← parse_bundles s.events
    completed_at ← to_utc (service.clock run_completed)
    after ← each write_discovered bundles db
    ok (length bundles, finish_discovery_run service.uuid (run_end c completed_at) after)

  -- The `try` block, with what was counted when it was left.
  unfoldable pub discover : ℕ → ℕ → Db → Counts × Result (ℕ × Db)
  discover start_day end_day db = elim (service.fetch_all_discovered_events start_day end_day) [
    | err e ↦ (no_counts, err e)
    | ok raws ↦
        elim (select_discovered_events service.python raws (aware (midnight start_day))
          (aware (midnight end_day))) [
            | err e ↦ (record no_counts { events_received = length raws }, err e)
            | ok s ↦ (counts_of raws s, store_selection (counts_of raws s) s db)
          ]
  ]

  abbrev pub discovery_result : ℕ → ℕ → Counts → ℕ → PlayHubDiscoveryResult
  discovery_result start end c persisted = record {
    discovery_run_id = some service.uuid;
    start_datetime = start;
    end_datetime = end;
    events_received = c.events_received;
    unique_events = c.unique_events;
    duplicate_rows = c.duplicate_rows;
    persisted_events = persisted;
    skipped = false;
  }

  abbrev pub run_failure : Counts → Error → ℕ → DiscoveryEnd
  run_failure c e at = record (run_end c at) {
    status = discovery_failed;
    error_category = some (error_category e);
    error_summary = some (service.text_of e);
  }

  -- The handler of an exception: it records the failure and raises again.
  unfoldable pub fail_run : Counts → Error → Db → Result PlayHubDiscoveryResult × Db
  fail_run c e db = elim (to_utc (service.clock run_failed)) [
    | err other ↦ (err other, db)
    | ok failed_at ↦ (err e, finish_discovery_run service.uuid (run_failure c e failed_at) db)
  ]

  unfoldable pub finish_run :
      ℕ → ℕ → Db → Counts × Result (ℕ × Db) → Result PlayHubDiscoveryResult × Db
  unfolding fail_run
  finish_run start end db (c, ok (persisted, after)) =
      (ok (discovery_result start end c persisted), after)
  finish_run start end db (c, err e) = fail_run c e db

  -- The transaction that starts the run.
  abbrev pub start_run : ℕ → ℕ → Db → Result Db
  start_run start_day end_day db = do
    started_at ← to_utc (service.clock run_started)
    start_discovery_run service.uuid started_at (midnight start_day) (midnight end_day) db

  unfoldable pub proceed_run : ℕ → ℕ → Db → Result Db → Result PlayHubDiscoveryResult × Db
  unfolding discover finish_run
  proceed_run start_day end_day db (err e) = (err e, db)
  proceed_run start_day end_day db (ok started) =
      finish_run (midnight start_day) (midnight end_day) started
        (discover start_day end_day started)

  unfoldable pub sync_range : ℕ → ℕ → Bool → Db → Result PlayHubDiscoveryResult × Db
  unfolding proceed_run
  sync_range start_day end_day force db =
      if leb end_day start_day
      then (err value_error, db)
      else if ltb 366 (end_day - start_day)
      then (err value_error, db)
      else if (if force
          then false
          else has_completed_discovery_window (midnight start_day) (midnight end_day) db)
      then (ok (skipped_result (midnight start_day) (midnight end_day)), db)
      else proceed_run start_day end_day db (start_run start_day end_day db)

  abbrev pub sync_day : ℕ → Bool → Db → Result PlayHubDiscoveryResult × Db
  sync_day day force db = sync_range day (suc day) force db
