-- ===== src/PlayHub/Parser.antt =====
-- `parse_event_bundle` (src/lorcana/playhub/parser.py): an event with its store, phases and rounds. A
-- check or a conversion that fails ends the parse.
pub mod Results
use inkspire_lorcana_develop.Prelude.{
  ℕ, zero, suc, String, Bool, true, false, not, ◌&&◌, ◌||◌, if◌then◌else◌, text_append, List, [],
  ◌∷◌, ◌++◌, length, any, Option, none, some, ℤ, eqb_ℤ, Json, Items, Result, ok, err, ◌>>=◌,
  parse_error, Datetime, to_utc,
}
use inkspire_lorcana_develop.Prelude.Values
use inkspire_lorcana_develop.Prelude.Values.{null, int, nil, cons, Fields}
use inkspire_lorcana_develop.PlayHub.Raw.{
  Builtins, get, get_of, truthy, is_null, is_text, or_mapping, or_items, required_int, optional_int,
  player_id_of, parse_source_datetime,
}
use inkspire_lorcana_develop.PlayHub.Types.{
  PlayHubStore, PlayHubEvent, PlayHubPhase, PlayHubRound, EventBundle,
}

-- `raw.get("name") or default`
abbrev or_text : String → Json → Json
or_text text value = if truthy value then value else Values.str text

-- `str(value) if value is not None else None`
abbrev text_or_none : (Json → String) → Json → Option String
text_or_none to_str value = if is_null value then none else some (to_str value)

abbrev bool_or_none : Json → Option Bool
bool_or_none value = if is_null value then none else some (truthy value)

module _ (python : Builtins) where
  abbrev parse_store : ℕ → Fields → Option PlayHubStore
  parse_store observed_at raw_store =
      let store_id = python.to_str (get "id" raw_store) in
      if is_null (get "id" raw_store)
      then none
      else some (record {
        store_id = store_id;
        name = or_text (text_append "Store " store_id) (get "name" raw_store);
        full_address = get "full_address" raw_store;
        city = get "city" raw_store;
        state_region = get "state" raw_store;
        country = get "country" raw_store;
        latitude = get "latitude" raw_store;
        longitude = get "longitude" raw_store;
        email = get "email" raw_store;
        website = get "website" raw_store;
        first_seen = some observed_at;
        last_seen = some observed_at;
        last_synced = some observed_at;
      })

  abbrev store_id_of : Option PlayHubStore → Option String
  store_id_of none = none
  store_id_of (some s) = some s.store_id

  unfoldable pub parse_event : ℤ → ℕ → Option PlayHubStore → Fields → Result PlayHubEvent
  parse_event event_id observed_at store raw = do
    start_datetime ← parse_source_datetime python (get "start_datetime" raw)
    end_datetime ← parse_source_datetime python (get "end_datetime" raw)
    gameplay_format ← or_mapping (get "gameplay_format" raw)
    settings ← or_mapping (get "settings" raw)
    player_count ← optional_int python (get "starting_player_count" raw)
    registered_user_count ← optional_int python (get "registered_user_count" raw)
    capacity ← optional_int python (get "capacity" raw)
    ok (record {
      event_id = event_id;
      store_id = store_id_of store;
      name = or_text (text_append "Event " (python.to_str (int event_id))) (get "name" raw);
      start_datetime = start_datetime;
      end_datetime = end_datetime;
      timezone = get "timezone" raw;
      gameplay_format_id = text_or_none python.to_str (get "id" gameplay_format);
      format = get "name" gameplay_format;
      event_format = get "event_format" raw;
      category = get "event_type" raw;
      display_status = get "display_status" raw;
      event_status = get "event_status" raw;
      lifecycle_status = get "event_lifecycle_status" settings;
      player_count = player_count;
      registered_user_count = registered_user_count;
      capacity = capacity;
      event_is_online = bool_or_none (get "event_is_online" raw);
      full_address = get "full_address" raw;
      latitude = get "latitude" raw;
      longitude = get "longitude" raw;
      source_url =
          text_append "https://tcg.ravensburgerplay.com/events/" (python.to_str (int event_id));
      discovered_at = some observed_at;
      last_synced = some observed_at;
    })

  abbrev parse_phase : ℤ → Json → Result PlayHubPhase
  parse_phase event_id raw_phase = do
    id ← get_of "id" raw_phase
    phase_id ← required_int python id
    phase_name ← get_of "phase_name" raw_phase
    order ← get_of "order_in_phases" raw_phase
    phase_order ← optional_int python order
    round_type ← get_of "round_type" raw_phase
    status ← get_of "status" raw_phase
    ok (record {
      phase_id = phase_id;
      event_id = event_id;
      phase_name = phase_name;
      phase_order = phase_order;
      round_type = round_type;
      status = status;
    })

  abbrev parse_round : PlayHubPhase → Json → Result PlayHubRound
  parse_round phase raw_round = do
    id ← get_of "id" raw_round
    round_id ← required_int python id
    number ← get_of "round_number" raw_round
    round_number ← optional_int python number
    round_type ← get_of "round_type" raw_round
    status ← get_of "status" raw_round
    pairings_status ← get_of "pairings_status" raw_round
    standings_status ← get_of "standings_status" raw_round
    final_round ← get_of "final_round_in_event" raw_round
    ok (record {
      round_id = round_id;
      event_id = phase.event_id;
      phase_id = phase.phase_id;
      round_number = round_number;
      round_type = round_type;
      status = status;
      pairings_status = pairings_status;
      standings_status = standings_status;
      final_round_in_event = truthy final_round;
      phase_name = phase.phase_name;
    })

  abbrev parse_rounds : PlayHubPhase → Items → Result (List PlayHubRound)
  parse_rounds phase nil = ok []
  parse_rounds phase (cons raw raws) = do
    round ← parse_round phase raw
    rounds ← parse_rounds phase raws
    ok (round ∷ rounds)

  -- The loop over `tournament_phases`, with the rounds of all phases in order.
  abbrev pub parse_phases : ℤ → Items → Result (List PlayHubPhase × List PlayHubRound)
  parse_phases event_id nil = ok ([], [])
  parse_phases event_id (cons raw raws) = do
    phase ← parse_phase event_id raw
    raw_rounds ← get_of "rounds" raw
    items ← or_items raw_rounds
    rounds ← parse_rounds phase items
    rest ← parse_phases event_id raws
    ok (phase ∷ rest.0, rounds ++ rest.1)

  unfoldable pub parse_event_bundle : Fields → ℤ → Datetime → Result EventBundle
  unfolding parse_event
  parse_event_bundle raw event_id observed_at = do
    now ← to_utc observed_at
    raw_id ← required_int python (get "id" raw)
    raw_store ← if eqb_ℤ raw_id event_id then or_mapping (get "store" raw) else err parse_error
    event ← parse_event event_id now (parse_store now raw_store) raw
    items ← or_items (get "tournament_phases" raw)
    phases ← parse_phases event_id items
    ok (record {
      store = parse_store now raw_store;
      event = event;
      phases = phases.0;
      rounds = phases.1;
    })
