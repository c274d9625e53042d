-- ===== src/Ratings/BuildTests.antt =====
-- The theorems of the rating build at a concrete service.
use inkspire_lorcana_develop.Ratings.Tests.{naturals, candidates, tables, tables-IsConsistent}
use inkspire_lorcana_develop.Prelude.{true, none, [], ◌∷◌, ◌++◌, ◌≡◌, refl, ok, err, aware, Result}
use inkspire_lorcana_develop.Prelude.Values.{null}
use inkspire_lorcana_develop.Ratings.Policy.{
  evaluate, global_evaluate, legacy_evaluate, global_elo_v1,
}
use inkspire_lorcana_develop.Ratings.Elo.{process, play, advance, new_calculator}
use inkspire_lorcana_develop.Ratings.Snapshot.Batches.{numbered}
use inkspire_lorcana_develop.Ratings.Calculate.{Calculation, calculate_and_validate}
use inkspire_lorcana_develop.Ratings.Publish.{RatingTables}
use inkspire_lorcana_develop.Ratings.Build.{
  RatingService, new_run, create_run, begin_build, build, build_and_publish,
}
use inkspire_lorcana_develop.Ratings.Build.Ending.{calculated, BuildEnds, build_settles}
use inkspire_lorcana_develop.Ratings.Build.Again.{Unchanged, refresh_again}

abbrev service : RatingService naturals
service = record {
  policy = global_elo_v1;
  clock = λ reading. aware 30;
  uuid = 4;
  input_batch_size = 2;
  history_batch_size = 3;
  starting_rating = 1500;
  k_factor = 40;
  parameters = null;
  same_parameters = λ p q. true;
  hexdigest = λ rows. "digest";
  text_of = λ e. "failed";
}

build_settles_example :
    BuildEnds naturals service none candidates tables
      (begin_build naturals service none tables)
      (build naturals service none candidates tables)
build_settles_example =
    build_settles naturals service none candidates tables 30 tables-IsConsistent refl

abbrev calculation_or : Result (Calculation naturals) → Calculation naturals
calculation_or (ok c) = c
calculation_or (err e) = record { history = []; current = []; player_count = 0 }

abbrev sample : Calculation naturals
sample = calculation_or (calculated naturals service candidates)

sample_fits : calculated naturals service candidates ≡ ok sample
unfolding calculate_and_validate numbered new_calculator evaluate global_evaluate legacy_evaluate
    process play advance
sample_fits = refl

abbrev created : RatingTables naturals
created = record tables { runs = tables.runs ++ new_run 4 global_elo_v1 null 30 none ∷ [] }

run_created : begin_build naturals service none tables ≡ ok created
unfolding create_run
run_created = refl

refresh_again_example :
    Unchanged naturals service "global_elo" none none candidates
      (build_and_publish naturals service "global_elo" none none candidates tables)
refresh_again_example =
    refresh_again naturals service "global_elo" none none none none candidates tables created 30 30
      sample tables-IsConsistent refl refl refl refl run_created sample_fits
