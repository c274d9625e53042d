-- ===== src/Ratings/Build.antt =====
-- A rating build: `RatingService.build`, `build_and_publish` and `_record_failure` (src/lorcana/ratings/service.py), with the repository's writes to the run
-- (src/lorcana/ratings/repository.py). A call returns a result or an exception, with the tables after it.
pub mod Rows
pub mod Ending
pub mod Refresh
pub mod Resolved
pub mod Again
use inkspire_lorcana_develop.Prelude.{
  ℕ, suc, String, Bool, true, false, ◌&&◌, ◌==◌, leb, if◌then◌else◌, Option, none, some, List, [],
  ◌∷◌, ◌++◌, map, filter, find, any, update_where, str_eq, Json, Result, ok, err, and_then, ◌>>=◌,
  Error, integrity_error, Datetime, to_utc,
}
use inkspire_lorcana_develop.Ratings.Types.{RatingCandidate, RatingRunInput}
use inkspire_lorcana_develop.Ratings.Policy.{Policy, legacy_parity_v1, global_elo_v1}
use inkspire_lorcana_develop.Ratings.Elo.{Floats}
use inkspire_lorcana_develop.Ratings.Snapshot.{
  Counter, no_exclusions, Snapshot, snapshot, preview_source,
}
use inkspire_lorcana_develop.Ratings.Calculate.{
  HistoryEntry, CurrentRow, Calculation, calculate_and_validate,
}
use inkspire_lorcana_develop.Ratings.Publish.{
  RunStatus, building, validated, published, failed, RatingRun, RatingPublication, RatingTables,
  is_run, is_named, prune_unretained_runs, publish,
}

-- Where a build reads its clock.
pub data BuildReading : Type 0 where
  build_started calculation_done build_failed publishing : BuildReading

pub record RatingService (F : Floats) : Type 0 where
  pub policy : Policy
  pub clock : BuildReading → Datetime
  pub uuid : ℕ
  pub input_batch_size : ℕ
  pub history_batch_size : ℕ
  pub starting_rating : Floats.Float F
  pub k_factor : Floats.Float F
  pub parameters : Json
  pub same_parameters : Json → Json → Bool
  pub hexdigest : List RatingRunInput → String
  pub text_of : Error → String

pub data BuildStatus : Type 0 where
  build_validated build_published build_unchanged : BuildStatus

pub record RatingBuildResult : Type 0 where
  pub rating_run_id : ℕ
  pub input_count : ℕ
  pub player_count : ℕ
  pub ordered_input_digest : String
  pub exclusion_counts : Counter
  pub status : BuildStatus
  pub publication_name : Option String

-- The new row of `create_run`.
abbrev pub new_run : ℕ → Policy → Json → ℕ → Option String → RatingRun
new_run id policy parameters started_at notes = record {
  rating_run_id = id;
  algorithm = "elo";
  algorithm_version = "elo_v2_2player_only";
  policy_version = policy;
  parameters = parameters;
  started_at = started_at;
  completed_at = none;
  status = building;
  input_count = none;
  player_count = none;
  ordered_input_digest = none;
  exclusion_counts = none;
  notes = notes;
}

-- The values of `finish_snapshot`, `mark_validated` and `mark_failed`.
abbrev pub snapshotted : Snapshot → RatingRun → RatingRun
snapshotted s r = record r {
  input_count = some s.input_count;
  ordered_input_digest = some s.ordered_input_digest;
  exclusion_counts = some s.exclusion_counts;
}

abbrev pub mark_validated : Datetime → ℕ → RatingRun → RatingRun
mark_validated at players r = record r {
  status = validated;
  completed_at = some at;
  player_count = some players;
}

abbrev pub mark_failed : Datetime → String → RatingRun → RatingRun
mark_failed at notes r = record r { status = failed; completed_at = some at; notes = some notes }

-- The rows of a child table that belong to a run.
abbrev pub of_run {ℓ} : {A : Type ℓ} → ℕ → A → ℕ × A
of_run id a = (id, a)

abbrev pub rows_of {ℓ} : {A : Type ℓ} → ℕ → List (ℕ × A) → List A
rows_of id [] = []
rows_of id ((j, a) ∷ rows) = if j == id then a ∷ rows_of id rows else rows_of id rows

-- `ORDER BY sequence_number`
abbrev pub insert_input : RatingRunInput → List RatingRunInput → List RatingRunInput
insert_input r [] = r ∷ []
insert_input r (q ∷ qs) =
    if leb r.sequence_number q.sequence_number then r ∷ q ∷ qs else q ∷ insert_input r qs

abbrev pub by_sequence : List RatingRunInput → List RatingRunInput
by_sequence [] = []
by_sequence (r ∷ rs) = insert_input r (by_sequence rs)

module _ (F : Floats) (service : RatingService F) where
  unfoldable pub create_run : ℕ → Option String → RatingTables F → Result (RatingTables F)
  create_run started_at notes t =
      if any (is_run service.uuid) t.runs
      then err integrity_error
      else ok (record t {
        runs =
            t.runs ++ new_run service.uuid service.policy service.parameters started_at notes ∷ [];
      })

  -- The transaction of `_snapshot`: its rows and `finish_snapshot`. The unique key
  -- `(rating_run_id, match_id)` of the rows is not checked: a candidate's match id is a primary key of
  -- the matches, so no two candidates of a run share it.
  abbrev pub store_snapshot : Snapshot → RatingTables F → RatingTables F
  store_snapshot s t = record t {
    inputs = t.inputs ++ map (of_run service.uuid) s.rows;
    runs = update_where (is_run service.uuid) (snapshotted s) t.runs;
  }

  -- `iter_run_inputs`
  abbrev pub run_inputs : RatingTables F → List RatingRunInput
  run_inputs t = by_sequence (rows_of service.uuid t.inputs)

  -- The transaction of `_calculate_and_validate`.
  abbrev pub store_calculation : Calculation F → RatingTables F → RatingTables F
  store_calculation c t = record t {
    history = t.history ++ map (of_run service.uuid) c.history;
    current = t.current ++ map (of_run service.uuid) c.current;
    runs =
        update_where (is_run service.uuid)
          (mark_validated (service.clock calculation_done) c.player_count) t.runs;
  }

  -- `_record_failure`: a reading of the clock that is naive is the exception that it passes over.
  unfoldable pub record_failure : Error → RatingTables F → RatingTables F
  record_failure e t = elim (to_utc (service.clock build_failed)) [
    | err other ↦ t
    | ok at ↦
        (prune_unretained_runs F (record t {
          runs =
              update_where (is_run service.uuid)
                (mark_failed (service.clock build_failed) (service.text_of e)) t.runs;
        })).1
  ]

  -- The calculation of a run whose snapshot is stored.
  unfoldable pub calculate_run :
      Snapshot → RatingTables F → Result RatingBuildResult × RatingTables F
  unfolding record_failure
  calculate_run s t =
      elim (calculate_and_validate F service.starting_rating service.k_factor
        service.history_batch_size (run_inputs t) s.input_count) [
          | err e ↦ (err e, record_failure e t)
          | ok c ↦ (
            ok (record {
              rating_run_id = service.uuid;
              input_count = s.input_count;
              player_count = c.player_count;
              ordered_input_digest = s.ordered_input_digest;
              exclusion_counts = s.exclusion_counts;
              status = build_validated;
              publication_name = none;
            }),
            store_calculation c t,
          )
        ]

  -- The `try` block and its handler.
  unfoldable pub build_run :
      List RatingCandidate → RatingTables F → Result RatingBuildResult × RatingTables F
  unfolding calculate_run record_failure
  build_run candidates t =
      elim (snapshot service.hexdigest service.policy service.input_batch_size candidates) [
        | err e ↦ (err e, record_failure e t)
        | ok s ↦ calculate_run s (store_snapshot s t)
      ]

  -- What is written before the `try` block.
  abbrev pub begin_build : Option String → RatingTables F → Result (RatingTables F)
  begin_build notes t = to_utc (service.clock build_started) >>= (λ at. create_run at notes t)

  unfoldable pub continue_build :
      List RatingCandidate
      → RatingTables F
      → Result (RatingTables F)
      → Result RatingBuildResult × RatingTables F
  unfolding build_run
  continue_build candidates t (err e) = (err e, t)
  continue_build candidates t (ok created) = build_run candidates created

  unfoldable pub build :
      Option String
      → List RatingCandidate
      → RatingTables F
      → Result RatingBuildResult × RatingTables F
  unfolding continue_build
  build notes candidates t = continue_build candidates t (begin_build notes t)

  -- `build_and_publish`, from the end of the build.
  unfoldable pub publish_built :
      String
      → Option String
      → Result RatingBuildResult × RatingTables F
      → Result RatingBuildResult × RatingTables F
  publish_built name published_by (err e, t) = (err e, t)
  publish_built name published_by (ok r, t) =
      let (outcome, after) =
        publish F name r.rating_run_id (service.clock publishing) published_by t in
      (
        and_then outcome
            (λ _. ok (record r { status = build_published; publication_name = some name })),
        after,
      )

  unfoldable pub build_and_publish :
      String
      → Option String
      → Option String
      → List RatingCandidate
      → RatingTables F
      → Result RatingBuildResult × RatingTables F
  unfolding build publish_built
  build_and_publish name published_by notes candidates t =
      publish_built name published_by (build notes candidates t)
