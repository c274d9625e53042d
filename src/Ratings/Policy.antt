-- ===== src/Ratings/Policy.antt =====
-- The eligibility policies (src/lorcana/ratings/policy.py).
pub mod Eligible
use inkspire_lorcana_develop.Prelude.{
  ℕ, String, Bool, true, false, not, Option, none, some, ◌≡◌, ◌&&◌, ◌||◌, ◌==◌, if◌then◌else◌,
  opt_eq, key_eq, Result, ok, err, value_error, strip, str_eq,
}
use inkspire_lorcana_develop.Ratings.Types.{
  RatingCandidate, Reason, match_not_complete, bye, ghost_match, not_two_player, missing_player,
  same_player, missing_result, invalid_winner, missing_event_start, unsupported_event_format,
  event_not_complete, included_reason, EligibilityDecision,
}

abbrev pub refuse : Reason → EligibilityDecision
refuse r = record { included = false; reason = r }

abbrev pub accept : EligibilityDecision
accept = record { included = true; reason = included_reason }

abbrev pub is_none {ℓ} : {A : Type ℓ} → Option A → Bool
is_none none = true
is_none (some a) = false

-- `winner_id in {player1_id, player2_id}`
abbrev pub is_player : Option ℕ → RatingCandidate → Bool
is_player w c = opt_eq w c.player1_id || opt_eq w c.player2_id

-- `LegacyParityPolicy.evaluate`
unfoldable pub legacy_evaluate : RatingCandidate → EligibilityDecision
legacy_evaluate c =
    if not (key_eq c.match_status "COMPLETE")
    then refuse match_not_complete
    else if c.is_bye
    then refuse bye
    else if c.is_ghost_match
    then refuse ghost_match
    else if not (opt_eq c.participant_count (some 2))
    then refuse not_two_player
    else if is_none c.player1_id || is_none c.player2_id
    then refuse missing_player
    else if opt_eq c.player1_id c.player2_id
    then refuse same_player
    else if is_none c.winner_id && not c.is_draw
    then refuse missing_result
    else if not (is_none c.winner_id) && not (is_player c.winner_id c)
    then refuse invalid_winner
    else if is_none c.event_start_datetime
    then refuse missing_event_start
    else accept

-- `event_format in accepted_formats`
abbrev pub is_accepted_format : Option String → Bool
is_accepted_format f = key_eq f "Core Constructed" || key_eq f "Infinity Constructed"

-- `GlobalEloV1Policy.evaluate`
unfoldable pub global_evaluate : RatingCandidate → EligibilityDecision
global_evaluate c =
    let base = legacy_evaluate c in
    if not base.included
    then base
    else if not (is_accepted_format c.event_format)
    then refuse unsupported_event_format
    else if not (key_eq c.event_sync_state "complete")
    then refuse event_not_complete
    else accept

-- The two classes that implement `RatingPolicy`.
pub data Policy : Type 0 where
  legacy_parity_v1 global_elo_v1 : Policy

unfoldable pub evaluate : Policy → RatingCandidate → EligibilityDecision
evaluate legacy_parity_v1 c = legacy_evaluate c
evaluate global_elo_v1 c = global_evaluate c
