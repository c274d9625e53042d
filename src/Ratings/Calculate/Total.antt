-- ===== src/Ratings/Calculate/Total.antt =====
-- `_calculate_and_validate` as a whole, over the rows of a snapshot.
use inkspire_lorcana_develop.Prelude.{Bool, true, ◌&&◌, [], ◌∷◌, ◌++◌, length}
use inkspire_lorcana_develop.Ratings.Policy.{Policy}
use inkspire_lorcana_develop.Ratings.Elo.{Floats, Players, EloCalculator}
use inkspire_lorcana_develop.Ratings.Calculate.{Working, Calculation}

module _ (F : Floats) where
  abbrev pub start : EloCalculator F → Working F
  start c = record { calculator = c; seen_inputs = 0; batch = []; stored = [] }

  -- Every rating and every peak is a finite number.
  abbrev pub all_finite : Players F → Bool
  all_finite [] = true
  all_finite ((k, r) ∷ rest) =
      (Floats.is_finite F r.rating && Floats.is_finite F r.peak) && all_finite rest

  -- What the checks return when all pass.
  abbrev pub calculation_of : Working F → Calculation F
  calculation_of w = record {
    history = w.stored ++ w.batch;
    current = w.calculator.players;
    player_count = length w.calculator.players;
  }
