-- ===== src/Ratings/Types.antt =====
-- The records of src/lorcana/ratings/types.py. Ids are numbers, since the code only compares them.
use inkspire_lorcana_develop.Prelude.{ℕ, String, Bool, Option}

pub record RatingCandidate : Type 0 where
  pub match_id : ℕ
  pub event_id : ℕ
  pub round_id : ℕ
  pub player1_id : Option ℕ
  pub player2_id : Option ℕ
  pub winner_id : Option ℕ
  pub is_draw : Bool
  pub match_status : Option String
  pub is_bye : Bool
  pub is_ghost_match : Bool
  pub participant_count : Option ℕ
  pub event_start_datetime : Option ℕ
  pub event_format : Option String
  pub event_sync_state : Option String
  pub phase_order : ℕ
  pub round_number : ℕ

-- The reasons that the policies give.
pub data Reason : Type 0 where
  match_not_complete bye ghost_match not_two_player missing_player same_player : Reason
  missing_result invalid_winner missing_event_start : Reason
  unsupported_event_format event_not_complete : Reason
  included_reason : Reason

pub record EligibilityDecision : Type 0 where
  pub included : Bool
  pub reason : Reason

pub record RatingMatch : Type 0 where
  pub match_id : ℕ
  pub event_id : ℕ
  pub round_id : ℕ
  pub player1_id : Option ℕ
  pub player2_id : Option ℕ
  pub winner_id : Option ℕ
  pub is_draw : Bool
  pub start_datetime : ℕ
  pub phase_order : ℕ
  pub round_number : ℕ

pub record RatingRunInput : Type 0 where
  pub sequence_number : ℕ
  pub match_id : ℕ
  pub event_id : ℕ
  pub event_start_datetime : ℕ
  pub phase_order : ℕ
  pub round_number : ℕ
  pub player1_id : ℕ
  pub player2_id : ℕ
  pub winner_id : Option ℕ
  pub is_draw : Bool
