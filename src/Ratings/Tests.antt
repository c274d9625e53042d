-- ===== src/Ratings/Tests.antt =====
-- The theorems of the ratings at concrete candidates, runs and publications. The floats of the tests
-- are natural numbers.
use inkspire_lorcana_develop.Ratings.History.{SourceRow, history_events}
use inkspire_lorcana_develop.Ratings.History.Groups.{history_events_once}
use inkspire_lorcana_develop.Prelude.{
  count_where, ◌==◌, ℕ, String, Bool, true, false, none, some, List, [], ◌∷◌, ◌≡◌, ◌↔◌, ◌⊎◌, refl,
  All, arith, ok, aware, ◌+◌, ◌-◌, ◌*◌, ltb, leb, length,
}
use inkspire_lorcana_develop.Prelude.Values.{null}
use inkspire_lorcana_develop.Ratings.Types.{RatingCandidate, RatingMatch, Reason}
use inkspire_lorcana_develop.Ratings.Policy.{evaluate, global_elo_v1, legacy_parity_v1}
use inkspire_lorcana_develop.Ratings.Policy.Eligible.{IsRateable, evaluate_iff}
use inkspire_lorcana_develop.Ratings.Elo.{Floats, EloCalculator}
use inkspire_lorcana_develop.Ratings.Snapshot.{Snapshot, snapshot}
use inkspire_lorcana_develop.Ratings.Snapshot.Batches.{numbered, is_excluded_for, snapshot-expected}
use inkspire_lorcana_develop.Ratings.Publish.{
  RunStatus, RatingRun, RatingTables, validated, failed, published, publish, get_run_status,
}
use inkspire_lorcana_develop.Ratings.Publish.Retention.{IsConsistent, publish-IsConsistent}
use inkspire_lorcana_develop.Ratings.Publish.Current.{IsCurrent, is_kept, publish_succeeds}

abbrev pub naturals : Floats
naturals = record {
  Float = ℕ;
  zero = 0;
  half = 0;
  one = 1;
  ten = 10;
  four_hundred = 400;
  add = λ a b. a + b;
  sub = λ a b. a - b;
  mul = λ a b. a * b;
  div = λ a b. a;
  pow = λ a b. a;
  less = ltb;
  less_eq = leb;
  is_finite = λ a. true;
}

abbrev candidate : ℕ → Bool → RatingCandidate
candidate i bye = record {
  match_id = i;
  event_id = 1;
  round_id = 1;
  player1_id = some 11;
  player2_id = some 12;
  winner_id = some 11;
  is_draw = false;
  match_status = some "COMPLETE";
  is_bye = bye;
  is_ghost_match = false;
  participant_count = some 2;
  event_start_datetime = some 1000;
  event_format = some "Core Constructed";
  event_sync_state = some "complete";
  phase_order = 1;
  round_number = 1;
}

abbrev pub candidates : List RatingCandidate
candidates = candidate 1 false ∷ candidate 2 true ∷ candidate 3 false ∷ []

abbrev constant_digest : {A : Type 0} → A → String
constant_digest rows = "00"

evaluate_iff_example :
    (((evaluate legacy_parity_v1 (candidate 1 false)).included ≡ true)
      ↔ IsRateable (candidate 1 false))
    × (((evaluate global_elo_v1 (candidate 1 false)).included ≡ true) ↔ (
        IsRateable (candidate 1 false)
        × (((candidate 1 false).event_format ≡ some "Core Constructed")
            ⊎ ((candidate 1 false).event_format ≡ some "Infinity Constructed"))
        × ((candidate 1 false).event_sync_state ≡ some "complete")))
evaluate_iff_example = evaluate_iff (candidate 1 false)

snapshot-expected_example :
    (s : Snapshot) × (snapshot constant_digest global_elo_v1 2 candidates ≡ ok s)
    × (s.rows ≡ numbered global_elo_v1 0 candidates)
    × (s.input_count ≡ length s.rows)
    × (s.ordered_input_digest ≡ constant_digest s.rows)
    × ((r : Reason)
        → s.exclusion_counts r ≡ count_where (is_excluded_for global_elo_v1 r) candidates)
snapshot-expected_example = snapshot-expected global_elo_v1 constant_digest 2 candidates

abbrev calculator : EloCalculator naturals
calculator = record {
  starting_rating = 1500;
  k_factor = 40;
  players = [];
  matches_processed = 0;
  invalid_matches = 0;
}

abbrev rated : ℕ → RatingMatch
rated i = record {
  match_id = i;
  event_id = 1;
  round_id = 0;
  player1_id = some 11;
  player2_id = some 12;
  winner_id = some 12;
  is_draw = false;
  start_datetime = 1000;
  phase_order = 1;
  round_number = 1;
}

abbrev three_matches : List RatingMatch
three_matches = rated 1 ∷ record (rated 2) { winner_id = none } ∷ rated 3 ∷ []

abbrev run_row : ℕ → RunStatus → RatingRun
run_row i status = record {
  rating_run_id = i;
  algorithm = "elo";
  algorithm_version = "elo_v2_2player_only";
  policy_version = global_elo_v1;
  parameters = null;
  started_at = 5;
  completed_at = none;
  status = status;
  input_count = none;
  player_count = none;
  ordered_input_digest = none;
  exclusion_counts = none;
  notes = none;
}

-- Run 1 is published, run 2 is the new one, run 3 has failed.
abbrev pub tables : RatingTables naturals
tables = record {
  runs = run_row 1 published ∷ run_row 2 validated ∷ run_row 3 failed ∷ [];
  inputs = [];
  history = [];
  current =
      (1, (11, record { rating = 1500; matches = 0; wins = 0; losses = 0; draws = 0; peak = 1500 }))
      ∷ [];
  publications =
      record {
        publication_name = "global_elo";
        rating_run_id = 1;
        previous_rating_run_id = none;
        published_at = 10;
        published_by = none;
      }
      ∷ [];
}

pub tables-IsConsistent : IsConsistent naturals tables
tables-IsConsistent = record {
  publications = ((refl, λ i e. ground arith), tt);
  inputs = tt;
  history = tt;
  current = (refl, tt);
}

publish-IsConsistent_example :
    IsConsistent naturals (publish naturals "global_elo" 2 (aware 20) none tables).1
publish-IsConsistent_example =
    publish-IsConsistent naturals "global_elo" 2 (aware 20) none tables tables-IsConsistent

publish_succeeds_example :
    let (r, after) = publish naturals "global_elo" 2 (aware 20) none tables in
    (r ≡ ok tt)
    × IsCurrent naturals "global_elo" 2 20 none tables.publications after.publications
    × All (λ r. is_kept after.publications r ≡ true) after.runs
unfolding get_run_status
publish_succeeds_example =
    publish_succeeds naturals "global_elo" 2 20 none tables validated refl refl refl

abbrev history_row_of : ℕ → ℕ → Bool → SourceRow
history_row_of event i counted = record {
  event_id = event;
  event_name = none;
  start_datetime = none;
  event_format = none;
  source_url = none;
  matches_won = none;
  matches_lost = none;
  matches_drawn = none;
  placement = none;
  match_id = i;
  round_number = none;
  phase_name = none;
  opponent_id = some 12;
  opponent_name = none;
  opponent_username = none;
  player_score = none;
  opponent_score = none;
  rated = counted;
  is_intentional_draw = false;
  is_bye = false;
  is_draw = false;
  winner_id = some 11;
}

abbrev history_rows : List SourceRow
history_rows = history_row_of 1 1 true ∷ history_row_of 2 2 false ∷ history_row_of 1 3 true ∷ []

abbrev decimal : ℕ → String
decimal n = "n"

history_events_once_example :
    count_where (λ e. e.event_id == 1) (history_events decimal 11 history_rows) ≡ 1
history_events_once_example = history_events_once decimal 11 1 history_rows
