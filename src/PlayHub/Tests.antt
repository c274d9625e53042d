-- ===== src/PlayHub/Tests.antt =====
-- The theorems of Play Hub ingestion at a concrete service and concrete payloads.
use inkspire_lorcana_develop.Prelude.{
  ℕ, true, false, List, [], ◌∷◌, none, ℤ, pos, Json, Fields, ok, err, aware, type_error, Result,
  refl,
}
use inkspire_lorcana_develop.Prelude.Values.{nil, cons, end, field, int, str, list, mapping}
use inkspire_lorcana_develop.PlayHub.Raw.{Builtins}
use inkspire_lorcana_develop.PlayHub.Tables.{empty_db}
use inkspire_lorcana_develop.PlayHub.Discovery.{select_discovered_events}
use inkspire_lorcana_develop.PlayHub.Discovery.Window.{Selected, select_discovered_events_selects}
use inkspire_lorcana_develop.PlayHub.Discovery.Run.{DiscoveryService, sync_range}
use inkspire_lorcana_develop.PlayHub.Discovery.Ending.{Synced, sync_range_settles}
use inkspire_lorcana_develop.PlayHub.Import.{ImportService}
use inkspire_lorcana_develop.PlayHub.Import.Attempt.{begin_attempt, import_event}
use inkspire_lorcana_develop.PlayHub.Import.Ending.{Attempted, import_event_settles}

abbrev read_int : Json → Result ℤ
read_int (int n) = ok n
read_int other = err type_error

abbrev python : Builtins
python = record {
  to_int = read_int;
  to_str = λ v. "1";
  from_isoformat = λ s. ok (aware 5);
  equal = λ v w. true;
}

abbrev row : ℕ → Fields → Fields
row i rest = field "id" (int (pos i)) rest

abbrev event_row : ℕ → Fields
event_row i = row i (field "start_datetime" (str "2026-01-01") end)

abbrev rows : List Fields
rows = event_row 3 ∷ event_row 4 ∷ event_row 3 ∷ row 6 end ∷ end ∷ []

select_discovered_events_selects_example :
    Selected python 2 9 rows (select_discovered_events python rows (aware 2) (aware 9))
select_discovered_events_selects_example = select_discovered_events_selects python rows 2 9

abbrev discovery : DiscoveryService
discovery = record {
  python = python;
  fetch_all_discovered_events = λ start end. ok rows;
  refuses = λ r. none;
  clock = λ reading. aware 11;
  uuid = 8;
  text_of = λ e. "failed";
}

sync_range_settles_example : Synced discovery 0 1 empty_db (sync_range discovery 0 1 false empty_db)
sync_range_settles_example = sync_range_settles discovery 0 1 false empty_db 11 refl

abbrev round_of : ℕ → Json
round_of i = mapping (
    row i
      (field "round_type" (str "PLAY_VS_OPPONENT") (field "pairings_status" (str "GENERATED") end)))

abbrev event_data : Fields
event_data = row 7 (
    field "tournament_phases"
      (list (
        cons
          (mapping
            (row 2 (field "rounds" (list (cons (round_of 21) (cons (round_of 22) nil))) end)))
          nil))
      end)

abbrev match_of : Json
match_of = mapping (row 31 (field "status" (str "COMPLETE") end))

abbrev import_service : ImportService
import_service = record {
  python = python;
  fetch_event_data = λ i. ok event_data;
  fetch_all_standings = λ i. ok nil;
  fetch_all_round_matches = λ i. ok (cons match_of nil);
  refuses = λ r. none;
  clock = λ reading. aware 10;
  uuid = 9;
  text_of = λ e. "failed";
}

import_event_settles_example :
    Attempted import_service empty_db
      (pos 7)
      (begin_attempt import_service (pos 7) none empty_db)
      (import_event import_service (pos 7) none empty_db)
import_event_settles_example = import_event_settles import_service (pos 7) none empty_db 10 refl
