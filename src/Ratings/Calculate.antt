-- ===== src/Ratings/Calculate.antt =====
-- The calculation of a rating build: `RatingService._calculate_and_validate`
-- (src/lorcana/ratings/service.py), over the rows of `rating_run_inputs` in sequence order. The run's
-- own history and current rows are what the two insert methods have written, since the run is new.
pub mod Loop
pub mod Total
use inkspire_lorcana_develop.Prelude.{
  ℕ, suc, ◌+◌, ◌*◌, Bool, true, false, not, Option, List, [], ◌∷◌, ◌++◌, ◌&&◌, ◌||◌, ◌==◌, leb,
  if◌then◌else◌, length, map, Result, ok, err, and_then, raise_if, rating_build_error,
}
use inkspire_lorcana_develop.Ratings.Types.{RatingRunInput}
use inkspire_lorcana_develop.Ratings.Snapshot.{as_rating_match}
use inkspire_lorcana_develop.Ratings.Elo.{
  Floats, PlayerRating, Players, EloCalculator, HistoryRow, new_calculator, process,
}

module _ (F : Floats) where
  -- A row of `rating_history`: the sequence number and what the calculator reported.
  abbrev pub HistoryEntry : Type 0
  HistoryEntry = ℕ × HistoryRow F

  -- A row of `rating_current`: the player and the final record.
  abbrev pub CurrentRow : Type 0
  CurrentRow = ℕ × PlayerRating F

  pub record Working : Type 0 where
    pub calculator : EloCalculator F
    pub seen_inputs : ℕ
    pub batch : List HistoryEntry
    pub stored : List HistoryEntry

  abbrev pub tag : ℕ → List (HistoryRow F) → List HistoryEntry
  tag sequence rows = map (λ r. (sequence, r)) rows

  -- `insert_history` and `clear` once the batch is full.
  unfoldable pub flush : ℕ → Working → Working
  flush batch_size w =
      if leb batch_size (length w.batch)
      then record w { batch = []; stored = w.stored ++ w.batch }
      else w

  -- The body of the loop.
  unfoldable pub calculate_one : ℕ → RatingRunInput → Working → Result Working
  unfolding flush
  calculate_one batch_size r w =
      let seen = suc w.seen_inputs in
      let (rows, calculator) = process F w.calculator (as_rating_match r) in
      if not (r.sequence_number == seen)
      then err rating_build_error
      else if not (length rows == 2)
      then err rating_build_error
      else ok (
          flush batch_size (record {
            calculator = calculator;
            seen_inputs = seen;
            batch = w.batch ++ tag r.sequence_number rows;
            stored = w.stored;
          }))

  unfoldable pub calculate_all : ℕ → List RatingRunInput → Working → Result Working
  unfolding calculate_one
  calculate_all batch_size [] w = ok w
  calculate_all batch_size (r ∷ rs) w =
      and_then (calculate_one batch_size r w) (calculate_all batch_size rs)

  -- The checks on one player's state.
  abbrev pub is_sound : PlayerRating F → Bool
  is_sound r =
      Floats.is_finite F r.rating
      && Floats.is_finite F r.peak
      && r.matches == r.wins + r.losses + r.draws

  abbrev pub all_sound : Players F → Bool
  all_sound [] = true
  all_sound ((k, r) ∷ rest) = is_sound r && all_sound rest

  pub record Calculation : Type 0 where
    pub history : List HistoryEntry
    pub current : List CurrentRow
    pub player_count : ℕ

  -- What follows the loop, in the order of the checks.
  unfoldable pub validate : ℕ → Working → Result Calculation
  validate input_count w =
      let history = w.stored ++ w.batch in
      let c = w.calculator in
      if not (w.seen_inputs == input_count)
      then err rating_build_error
      else if not (c.invalid_matches == 0)
      then err rating_build_error
      else if not (c.matches_processed == input_count)
      then err rating_build_error
      else if not (all_sound c.players)
      then err rating_build_error
      else if not (length history == input_count * 2)
      then err rating_build_error
      else ok (record { history = history; current = c.players; player_count = length c.players })

  -- `_calculate_and_validate`
  unfoldable pub calculate_and_validate :
      Floats.Float F → Floats.Float F → ℕ → List RatingRunInput → ℕ → Result Calculation
  unfolding calculate_all validate
  calculate_and_validate starting_rating k_factor batch_size inputs input_count =
      and_then (new_calculator F starting_rating k_factor) (λ c.
        and_then
          (calculate_all batch_size inputs
            (record { calculator = c; seen_inputs = 0; batch = []; stored = [] }))
          (validate input_count))
