-- ===== src/PlayHub/Facts.antt =====
-- The upserts of source facts in `PlayHubRepository` (src/lorcana/playhub/repository.py), under the
-- foreign keys and the unique key of src/lorcana/db/schema/playhub.py.
pub mod Keeps
use inkspire_lorcana_develop.Prelude.{
  ℕ, String, Bool, true, false, not, ◌&&◌, ◌||◌, if◌then◌else◌, List, [], ◌∷◌, any, length, Option,
  none, some, ℤ, eqb_ℤ, Json, Result, ok, err, ◌>>=◌, and_then, Error, str_eq,
}
use inkspire_lorcana_develop.PlayHub.Types.{
  PlayHubStore, PlayHubEvent, PlayHubPhase, PlayHubRound, PlayHubPlayer, PlayHubRegistration,
  PlayHubMatch, EventBundle, StandingsBundle, MatchBundle,
}
use inkspire_lorcana_develop.PlayHub.Tables.{
  Db, Row, store_row, event_row, phase_row, round_row, player_row, registration_row, match_row,
  coalesce, coalesce_json, upsert, has_event, has_player, has_round, has_phase, has_store, refers,
  admit,
}
use inkspire_lorcana_develop.PlayHub.Parser.Results.{add_id}

abbrev merge_store : PlayHubStore → PlayHubStore → PlayHubStore
merge_store new old = record old {
  name = new.name;
  full_address = coalesce_json new.full_address old.full_address;
  city = coalesce_json new.city old.city;
  state_region = coalesce_json new.state_region old.state_region;
  country = coalesce_json new.country old.country;
  latitude = coalesce_json new.latitude old.latitude;
  longitude = coalesce_json new.longitude old.longitude;
  email = coalesce_json new.email old.email;
  website = coalesce_json new.website old.website;
  last_seen = new.last_seen;
  last_synced = new.last_synced;
}

abbrev pub merge_event : PlayHubEvent → PlayHubEvent → PlayHubEvent
merge_event new old = record old {
  store_id = coalesce new.store_id old.store_id;
  start_datetime = coalesce new.start_datetime old.start_datetime;
  end_datetime = coalesce new.end_datetime old.end_datetime;
  timezone = coalesce_json new.timezone old.timezone;
  gameplay_format_id = coalesce new.gameplay_format_id old.gameplay_format_id;
  format = coalesce_json new.format old.format;
  event_format = coalesce_json new.event_format old.event_format;
  category = coalesce_json new.category old.category;
  display_status = coalesce_json new.display_status old.display_status;
  event_status = coalesce_json new.event_status old.event_status;
  lifecycle_status = coalesce_json new.lifecycle_status old.lifecycle_status;
  player_count = coalesce new.player_count old.player_count;
  registered_user_count = coalesce new.registered_user_count old.registered_user_count;
  capacity = coalesce new.capacity old.capacity;
  event_is_online = coalesce new.event_is_online old.event_is_online;
  full_address = coalesce_json new.full_address old.full_address;
  latitude = coalesce_json new.latitude old.latitude;
  longitude = coalesce_json new.longitude old.longitude;
  source_url = new.source_url;
  name = new.name;
  discovered_at = coalesce old.discovered_at new.discovered_at;
  last_synced = new.last_synced;
}

abbrev pub merge_player : PlayHubPlayer → PlayHubPlayer → PlayHubPlayer
merge_player new old = record old {
  display_name = coalesce_json new.display_name old.display_name;
  username = coalesce_json new.username old.username;
  first_seen = coalesce old.first_seen new.first_seen;
  last_seen = new.last_seen;
}

abbrev merge_registration : PlayHubRegistration → PlayHubRegistration → PlayHubRegistration
merge_registration new old = record new {
  registered_at = coalesce new.registered_at old.registered_at;
}

-- Another registration of the same player in the same event.
abbrev pub is_rival : PlayHubRegistration → PlayHubRegistration → Bool
is_rival new old =
    not (eqb_ℤ old.registration_id new.registration_id)
    && eqb_ℤ old.event_id new.event_id
    && eqb_ℤ old.player_id new.player_id

module _ (refuses : Row → Option Error) where
  unfoldable pub upsert_store : PlayHubStore → Db → Result Db
  upsert_store s db = admit refuses (store_row s) true (record db {
    stores = upsert (λ old. str_eq old.store_id s.store_id) (merge_store s) s db.stores;
  })

  unfoldable pub upsert_event : PlayHubEvent → Db → Result Db
  upsert_event e db = admit refuses (event_row e) (refers has_store e.store_id db) (record db {
    events = upsert (λ old. eqb_ℤ old.event_id e.event_id) (merge_event e) e db.events;
  })

  unfoldable pub upsert_phase : PlayHubPhase → Db → Result Db
  upsert_phase p db =
      admit refuses (phase_row p) (has_event p.event_id db)
        (record db { phases = upsert (λ old. eqb_ℤ old.phase_id p.phase_id) (λ _. p) p db.phases })

  -- `phase_name` is not a column; it stays with the row here, unread.
  unfoldable pub upsert_round : PlayHubRound → Db → Result Db
  upsert_round r db =
      admit refuses (round_row r) (has_event r.event_id db && has_phase r.phase_id db)
        (record db { rounds = upsert (λ old. eqb_ℤ old.round_id r.round_id) (λ _. r) r db.rounds })

  unfoldable pub upsert_player : PlayHubPlayer → Db → Result Db
  upsert_player p db = admit refuses (player_row p) true (record db {
    players = upsert (λ old. eqb_ℤ old.player_id p.player_id) (merge_player p) p db.players;
  })

  unfoldable pub upsert_registration : PlayHubRegistration → Db → Result Db
  upsert_registration r db =
      admit refuses (registration_row r)
        (has_event r.event_id db
          && has_player r.player_id db
          && not (any (is_rival r) db.registrations))
        (record db {
          registrations =
              upsert (λ old. eqb_ℤ old.registration_id r.registration_id) (merge_registration r) r
                db.registrations;
        })

  unfoldable pub upsert_match : PlayHubMatch → Db → Result Db
  upsert_match m db =
      admit refuses (match_row m)
        (has_event m.event_id db
          && has_round m.round_id db
          && refers has_player m.player1_id db
          && refers has_player m.player2_id db
          && refers has_player m.winner_id db)
        (record db {
          matches = upsert (λ old. eqb_ℤ old.match_id m.match_id) (λ _. m) m db.matches;
        })

-- A loop of statements in one transaction, which the first error ends.
abbrev pub each {ℓ} : {A : Type ℓ} → (A → Db → Result Db) → List A → Db → Result Db
each f [] db = ok db
each f (x ∷ xs) db = f x db >>= each f xs

-- The players of an event's registrations and matches, each once.
abbrev pub registered_ids : ℤ → List PlayHubRegistration → List ℤ → List ℤ
registered_ids i [] ids = ids
registered_ids i (r ∷ rs) ids =
    registered_ids i rs (if eqb_ℤ r.event_id i then add_id r.player_id ids else ids)

abbrev pub add_some : Option ℤ → List ℤ → List ℤ
add_some none ids = ids
add_some (some i) ids = add_id i ids

abbrev pub paired_ids : ℤ → List PlayHubMatch → List ℤ → List ℤ
paired_ids i [] ids = ids
paired_ids i (m ∷ ms) ids =
    paired_ids i ms
      (if eqb_ℤ m.event_id i then add_some m.player2_id (add_some m.player1_id ids) else ids)

unfoldable pub count_distinct_event_players : Db → ℤ → ℕ
count_distinct_event_players db i =
    length (paired_ids i db.matches (registered_ids i db.registrations []))
