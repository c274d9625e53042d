-- ===== src/PlayHub/Types.antt =====
-- The records of src/lorcana/playhub/types.py. A value that the parser passes on unread keeps Python's
-- type, as JSON; an absent number or date is `none`, and a date is its microseconds in UTC.
use inkspire_lorcana_develop.Prelude.{ℕ, String, Bool, List, Option, ℤ, Json}

pub record PlayHubStore : Type 0 where
  pub store_id : String
  pub name : Json
  pub full_address : Json
  pub city : Json
  pub state_region : Json
  pub country : Json
  pub latitude : Json
  pub longitude : Json
  pub email : Json
  pub website : Json
  pub first_seen : Option ℕ
  pub last_seen : Option ℕ
  pub last_synced : Option ℕ

pub record PlayHubEvent : Type 0 where
  pub event_id : ℤ
  pub store_id : Option String
  pub name : Json
  pub start_datetime : Option ℕ
  pub end_datetime : Option ℕ
  pub timezone : Json
  pub gameplay_format_id : Option String
  pub format : Json
  pub event_format : Json
  pub category : Json
  pub display_status : Json
  pub event_status : Json
  pub lifecycle_status : Json
  pub player_count : Option ℤ
  pub registered_user_count : Option ℤ
  pub capacity : Option ℤ
  pub event_is_online : Option Bool
  pub full_address : Json
  pub latitude : Json
  pub longitude : Json
  pub source_url : String
  pub discovered_at : Option ℕ
  pub last_synced : Option ℕ

pub record PlayHubPhase : Type 0 where
  pub phase_id : ℤ
  pub event_id : ℤ
  pub phase_name : Json
  pub phase_order : Option ℤ
  pub round_type : Json
  pub status : Json

pub record PlayHubRound : Type 0 where
  pub round_id : ℤ
  pub event_id : ℤ
  pub phase_id : ℤ
  pub round_number : Option ℤ
  pub round_type : Json
  pub status : Json
  pub pairings_status : Json
  pub standings_status : Json
  pub final_round_in_event : Bool
  pub phase_name : Json

pub record PlayHubPlayer : Type 0 where
  pub player_id : ℤ
  pub display_name : Json
  pub username : Json
  pub first_seen : Option ℕ
  pub last_seen : Option ℕ

pub record PlayHubRegistration : Type 0 where
  pub registration_id : ℤ
  pub event_id : ℤ
  pub player_id : ℤ
  pub display_name_at_event : Json
  pub registration_status : Json
  pub matches_won : Option ℤ
  pub matches_lost : Option ℤ
  pub matches_drawn : Option ℤ
  pub match_points : Option ℤ
  pub placement : Option ℤ
  pub registered_at : Option ℕ
  pub last_synced : Option ℕ

pub record PlayHubMatch : Type 0 where
  pub match_id : ℤ
  pub event_id : ℤ
  pub round_id : ℤ
  pub player1_id : Option ℤ
  pub player2_id : Option ℤ
  pub participant_count : ℕ
  pub player1_score : Option ℤ
  pub player2_score : Option ℤ
  pub winner_id : Option ℤ
  pub status : Json
  pub table_number : Option ℤ
  pub is_draw : Bool
  pub is_intentional_draw : Bool
  pub is_unintentional_draw : Bool
  pub is_bye : Bool
  pub is_loss : Bool
  pub is_ghost_match : Bool
  pub is_feature_match : Bool
  pub created_at : Option ℕ
  pub updated_at : Option ℕ

pub record EventBundle : Type 0 where
  pub store : Option PlayHubStore
  pub event : PlayHubEvent
  pub phases : List PlayHubPhase
  pub rounds : List PlayHubRound

pub record StandingsBundle : Type 0 where
  pub players : List PlayHubPlayer
  pub registrations : List PlayHubRegistration

pub record MatchBundle : Type 0 where
  pub players : List PlayHubPlayer
  pub match_ : PlayHubMatch
