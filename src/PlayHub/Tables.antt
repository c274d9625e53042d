-- ===== src/PlayHub/Tables.antt =====
-- The Play Hub tables (src/lorcana/db/schema/playhub.py) and what an upsert is: `INSERT … ON CONFLICT DO
-- UPDATE`. Types of columns that the parser does not ensure are checked by the database, a parameter.
use inkspire_lorcana_develop.Prelude.{
  ℕ, String, Bool, true, if◌then◌else◌, List, [], ◌∷◌, any, Option, none, some, ℤ, eqb_ℤ, Json,
  Result, ok, err, Error, integrity_error, str_eq,
}
use inkspire_lorcana_develop.PlayHub.Raw.{is_null}
use inkspire_lorcana_develop.PlayHub.Types.{
  PlayHubStore, PlayHubEvent, PlayHubPhase, PlayHubRound, PlayHubPlayer, PlayHubRegistration,
  PlayHubMatch,
}

-- `playhub_import_attempts.status`
pub data ImportStatus : Type 0 where
  import_running import_complete import_partial import_no_results import_failed : ImportStatus

-- `playhub_event_sync_state.state`
pub data SyncStatus : Type 0 where
  discovered pending syncing complete partial no_results failed : SyncStatus

pub data DiscoveryStatus : Type 0 where
  discovery_running discovery_complete discovery_failed : DiscoveryStatus

pub record DiscoveryRun : Type 0 where
  pub discovery_run_id : ℕ
  pub started_at : ℕ
  pub completed_at : Option ℕ
  pub start_datetime : ℕ
  pub end_datetime : ℕ
  pub events_received : ℕ
  pub unique_events : ℕ
  pub duplicate_rows : ℕ
  pub status : DiscoveryStatus
  pub error_category : Option String
  pub error_summary : Option String

pub record SyncState : Type 0 where
  pub event_id : ℤ
  pub state : SyncStatus
  pub last_attempt_at : Option ℕ
  pub last_success_at : Option ℕ
  pub last_error_category : Option String
  pub last_error_summary : Option String
  pub source_revision : Option String

pub record ImportAttempt : Type 0 where
  pub import_attempt_id : ℕ
  pub event_id : ℤ
  pub started_at : ℕ
  pub completed_at : Option ℕ
  pub status : ImportStatus
  pub rounds_expected : Option ℕ
  pub rounds_imported : Option ℕ
  pub registrations_found : Option ℕ
  pub matches_found : Option ℕ
  pub players_found : Option ℕ
  pub error_category : Option String
  pub error_summary : Option String

pub record Db : Type 0 where
  pub stores : List PlayHubStore
  pub events : List PlayHubEvent
  pub phases : List PlayHubPhase
  pub rounds : List PlayHubRound
  pub players : List PlayHubPlayer
  pub registrations : List PlayHubRegistration
  pub matches : List PlayHubMatch
  pub discovery_runs : List DiscoveryRun
  pub sync_states : List SyncState
  pub attempts : List ImportAttempt

abbrev pub empty_db : Db
empty_db = record {
  stores = [];
  events = [];
  phases = [];
  rounds = [];
  players = [];
  registrations = [];
  matches = [];
  discovery_runs = [];
  sync_states = [];
  attempts = [];
}

-- A row of source facts, as a statement sends it.
pub data Row : Type 0 where
  store_row : PlayHubStore → Row
  event_row : PlayHubEvent → Row
  phase_row : PlayHubPhase → Row
  round_row : PlayHubRound → Row
  player_row : PlayHubPlayer → Row
  registration_row : PlayHubRegistration → Row
  match_row : PlayHubMatch → Row

-- `coalesce(a, b)`
abbrev pub coalesce {ℓ} : {A : Type ℓ} → Option A → Option A → Option A
coalesce none b = b
coalesce (some a) b = some a

abbrev pub coalesce_json : Json → Json → Json
coalesce_json a b = if is_null a then b else a

-- An upsert: the row that conflicts is rewritten, or the new row is added.
abbrev pub upsert {ℓ} : {A : Type ℓ} → (A → Bool) → (A → A) → A → List A → List A
upsert same merge new [] = new ∷ []
upsert same merge new (x ∷ xs) = if same x then merge x ∷ xs else x ∷ upsert same merge new xs

abbrev pub has_event : ℤ → Db → Bool
has_event i db = any (λ e. eqb_ℤ e.event_id i) db.events

abbrev pub has_player : ℤ → Db → Bool
has_player i db = any (λ p. eqb_ℤ p.player_id i) db.players

abbrev pub has_round : ℤ → Db → Bool
has_round i db = any (λ r. eqb_ℤ r.round_id i) db.rounds

abbrev pub has_phase : ℤ → Db → Bool
has_phase i db = any (λ p. eqb_ℤ p.phase_id i) db.phases

abbrev pub has_store : String → Db → Bool
has_store i db = any (λ s. str_eq s.store_id i) db.stores

-- A foreign key that may be NULL.
abbrev pub refers {ℓ} : {A : Type ℓ} → (A → Db → Bool) → Option A → Db → Bool
refers has none db = true
refers has (some i) db = has i db

-- A constraint of the schema, and the database's own refusal of a row.
abbrev pub admit : (Row → Option Error) → Row → Bool → Db → Result Db
admit refuses row holds after = elim (refuses row) [
  | some e ↦ err e
  | none ↦ if holds then ok after else err integrity_error
]
