-- ===== src/PlayHub/Import.antt =====
-- What `PlayHubImportService.import_event` (src/lorcana/playhub/service.py) reads and writes for an event's
-- bundle, its standings and a round.
-- Its client, database driver, clock and identifiers are the service's fields. Each reading of the clock
-- is named, so that any clock is covered.
pub mod Attempt
pub mod Keeps
pub mod Settled
pub mod ByCounts
pub mod Ending
use inkspire_lorcana_develop.Prelude.{
  ℕ, zero, suc, ◌+◌, String, Bool, true, false, ◌&&◌, ◌==◌, if◌then◌else◌, List, [], ◌∷◌, ◌++◌,
  length, filter, Option, none, some, ℤ, eqb_ℤ, Json, Items, Fields, Result, ok, err, ◌>>=◌,
  and_then, Error, client_error, parse_error, Datetime, to_utc,
}
use inkspire_lorcana_develop.Prelude.Values.{nil, cons}
use inkspire_lorcana_develop.PlayHub.Raw.{Builtins, get_of, or_items}
use inkspire_lorcana_develop.PlayHub.Types.{
  PlayHubStore, PlayHubRound, EventBundle, StandingsBundle, MatchBundle,
}
use inkspire_lorcana_develop.PlayHub.Tables.{
  Db, Row, SyncState, ImportStatus, import_complete, import_partial, import_no_results,
  import_failed, SyncStatus, syncing, complete, partial, no_results, failed,
}
use inkspire_lorcana_develop.PlayHub.Facts.{
  each, upsert_store, upsert_event, upsert_phase, upsert_round, upsert_player, upsert_registration,
  upsert_match, count_distinct_event_players,
}
use inkspire_lorcana_develop.PlayHub.Sync.{
  start_import_attempt, finish_import_attempt, set_event_sync_state, ImportEnd,
}
use inkspire_lorcana_develop.PlayHub.Parser.{parse_event_bundle}
use inkspire_lorcana_develop.PlayHub.Parser.Results.{
  parse_standings, parse_match, round_should_have_matches, latest_generated_standings_round,
}

-- Where the service reads its clock: a match is named by its round and its place there.
pub data Reading : Type 0 where
  at_start at_standings at_end at_failure : Reading
  at_match : ℤ → ℕ → Reading
  at_pairings : ℤ → Reading

pub record ImportService : Type 0 where
  pub python : Builtins
  pub fetch_event_data : ℤ → Result Fields
  pub fetch_all_standings : ℤ → Result Items
  pub fetch_all_round_matches : ℤ → Result Items
  pub refuses : Row → Option Error
  pub clock : Reading → Datetime
  pub uuid : ℕ
  pub text_of : Error → String

-- `_error_category`
abbrev pub error_category : Error → String
error_category client_error = "client_error"
error_category parse_error = "parse_error"
error_category other = "import_error"

abbrev pub length_raw : Items → ℕ
length_raw nil = 0
length_raw (cons x xs) = suc (length_raw xs)

-- What an import counts.
pub record Progress : Type 0 where
  pub rounds_imported : ℕ
  pub registrations_found : ℕ
  pub matches_found : ℕ
  pub failed_round_ids : List ℤ

pub record PlayHubImportResult : Type 0 where
  pub event_id : ℤ
  pub status : ImportStatus
  pub rounds_expected : ℕ
  pub rounds_imported : ℕ
  pub registrations_found : ℕ
  pub matches_found : ℕ
  pub players_found : ℕ
  pub import_attempt_id : ℕ
  pub failed_round_ids : List ℤ

-- An outcome as the attempt and the event's state record it.
abbrev pub import_status : SyncStatus → ImportStatus
import_status no_results = import_no_results
import_status complete = import_complete
import_status partial = import_partial
import_status other = import_failed

abbrev pub settled_status : ℕ → ℕ → SyncStatus
settled_status expected imported =
    if expected == 0 then no_results else if imported == expected then complete else partial

abbrev last_round : List PlayHubRound → Option PlayHubRound
last_round [] = none
last_round (r ∷ []) = some r
last_round (r ∷ q ∷ rs) = last_round (q ∷ rs)

abbrev same_number : Option ℤ → Option ℤ → Bool
same_number none none = true
same_number (some a) (some b) = eqb_ℤ a b
same_number _ _ = false

abbrev same_bool : Bool → Bool → Bool
same_bool true b = b
same_bool false true = false
same_bool false false = true

-- Equality of the data class.
abbrev same_round : Builtins → PlayHubRound → PlayHubRound → Bool
same_round python r q =
    eqb_ℤ r.round_id q.round_id
    && eqb_ℤ r.event_id q.event_id
    && eqb_ℤ r.phase_id q.phase_id
    && same_number r.round_number q.round_number
    && python.equal r.round_type q.round_type
    && python.equal r.status q.status
    && python.equal r.pairings_status q.pairings_status
    && python.equal r.standings_status q.standings_status
    && same_bool r.final_round_in_event q.final_round_in_event
    && python.equal r.phase_name q.phase_name

-- `round_record == match_rounds[-1]`
abbrev pub is_last_round : Builtins → List PlayHubRound → PlayHubRound → Bool
is_last_round python rs r = elim (last_round rs) [ none ↦ false | some q ↦ same_round python r q ]

abbrev append_raw : Items → Items → Items
append_raw nil ys = ys
append_raw (cons x xs) ys = cons x (append_raw xs ys)

-- The relationships of all matches, in order.
abbrev relationships : Items → Result Items
relationships nil = ok nil
relationships (cons raw raws) = do
  value ← get_of "player_match_relationships" raw
  here ← or_items value
  rest ← relationships raws
  ok (append_raw here rest)

abbrev pub opening_state : ℤ → ℕ → SyncState
opening_state event_id observed_at = record {
  event_id = event_id;
  state = syncing;
  last_attempt_at = some observed_at;
  last_success_at = none;
  last_error_category = none;
  last_error_summary = none;
  source_revision = none;
}

module _ (service : ImportService) where
  abbrev pub write_store : Option PlayHubStore → Db → Result Db
  write_store none db = ok db
  write_store (some store) db = upsert_store service.refuses store db

  -- `_persist_event_bundle`
  abbrev pub persist_event_bundle : EventBundle → Db → Result Db
  persist_event_bundle bundle db = do
    stored ← write_store bundle.store db
    with_event ← upsert_event service.refuses bundle.event stored
    with_phases ← each (upsert_phase service.refuses) bundle.phases with_event
    each (upsert_round service.refuses) bundle.rounds with_phases

  -- The transaction that opens the attempt.
  abbrev pub open_attempt : EventBundle → ℤ → ℕ → Db → Result Db
  open_attempt bundle event_id observed_at db = do
    persisted ← persist_event_bundle bundle db
    started ← start_import_attempt service.uuid event_id observed_at persisted
    set_event_sync_state (opening_state event_id observed_at) started

  abbrev pub write_standings : StandingsBundle → Db → Result Db
  write_standings bundle db = do
    with_players ← each (upsert_player service.refuses) bundle.players db
    each (upsert_registration service.refuses) bundle.registrations with_players

  abbrev pub write_match : MatchBundle → Db → Result Db
  write_match bundle db = do
    with_players ← each (upsert_player service.refuses) bundle.players db
    upsert_match service.refuses bundle.match_ with_players

  abbrev pub import_standings : ℤ → Items → Db → Result Db
  import_standings event_id raws db = do
    bundle ← parse_standings service.python event_id raws (service.clock at_standings)
    write_standings bundle db

  abbrev pub parse_matches : ℤ → ℤ → ℕ → Items → Result (List MatchBundle)
  parse_matches event_id round_id n nil = ok []
  parse_matches event_id round_id n (cons raw raws) = do
    parsed ← parse_match service.python event_id round_id raw (service.clock (at_match round_id n))
    rest ← parse_matches event_id round_id (suc n) raws
    ok (parsed ∷ rest)

  -- The registrations that the latest pairings carry, before any standings.
  abbrev pub paired_standings : ℤ → ℤ → Bool → Items → Result (Option StandingsBundle)
  paired_standings event_id round_id true raws = do
    rows ← relationships raws
    bundle ← parse_standings service.python event_id rows (service.clock (at_pairings round_id))
    ok (some bundle)
  paired_standings event_id round_id false raws = ok none

  abbrev pub write_paired : Option StandingsBundle → Db → Result Db
  write_paired none db = ok db
  write_paired (some bundle) db = write_standings bundle db

  abbrev pub paired_count : Option StandingsBundle → ℕ
  paired_count none = 0
  paired_count (some bundle) = length bundle.registrations

  -- The body of the loop over the rounds: the registrations and matches found, and the tables.
  abbrev pub round_body : ℤ → ℤ → Bool → Db → Result ((ℕ × ℕ) × Db)
  round_body event_id round_id pairing db = do
    raws ← service.fetch_all_round_matches round_id
    parsed ← parse_matches event_id round_id 0 raws
    paired ← paired_standings event_id round_id pairing raws
    with_paired ← write_paired paired db
    after ← each write_match parsed with_paired
    ok ((paired_count paired, length parsed), after)
