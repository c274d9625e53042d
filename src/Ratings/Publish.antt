-- ===== src/Ratings/Publish.antt =====
-- Publishing a rating run and the retention of runs: `RatingService.publish`
-- (src/lorcana/ratings/service.py) and the repository methods that it calls
-- (src/lorcana/ratings/repository.py), over the tables of src/lorcana/db/schema/ratings.py.
pub mod Retention
pub mod Current
use inkspire_lorcana_develop.Prelude.{
  ℕ, String, Bool, true, false, not, ◌&&◌, ◌||◌, ◌==◌, if◌then◌else◌, Option, none, some, List, [],
  ◌∷◌, ◌++◌, map, filter, find, any, update_where, str_eq, strip, is_empty, Result, ok, err,
  and_then, raise_if, transact, value_error, rating_build_error, Datetime, to_utc, Json,
}
use inkspire_lorcana_develop.Ratings.Types.{RatingRunInput}
use inkspire_lorcana_develop.Ratings.Policy.{Policy}
use inkspire_lorcana_develop.Ratings.Snapshot.{Counter}
use inkspire_lorcana_develop.Ratings.Elo.{Floats}
use inkspire_lorcana_develop.Ratings.Calculate.{HistoryEntry, CurrentRow}

pub data RunStatus : Type 0 where
  building validated published failed : RunStatus

-- A row of `rating_runs`. The parameters are kept as JSON.
pub record RatingRun : Type 0 where
  pub rating_run_id : ℕ
  pub algorithm : String
  pub algorithm_version : String
  pub policy_version : Policy
  pub parameters : Json
  pub started_at : ℕ
  pub completed_at : Option Datetime
  pub status : RunStatus
  pub input_count : Option ℕ
  pub player_count : Option ℕ
  pub ordered_input_digest : Option String
  pub exclusion_counts : Option Counter
  pub notes : Option String

pub record RatingPublication : Type 0 where
  pub publication_name : String
  pub rating_run_id : ℕ
  pub previous_rating_run_id : Option ℕ
  pub published_at : ℕ
  pub published_by : Option String

module _ (F : Floats) where
  -- The five tables. A row of a child table carries the id of its run.
  pub record RatingTables : Type 0 where
    pub runs : List RatingRun
    pub inputs : List (ℕ × RatingRunInput)
    pub history : List (ℕ × HistoryEntry F)
    pub current : List (ℕ × CurrentRow F)
    pub publications : List RatingPublication

abbrev pub is_building : RunStatus → Bool
is_building building = true
is_building validated = false
is_building published = false
is_building failed = false

abbrev pub is_publishable : RunStatus → Bool
is_publishable building = false
is_publishable validated = true
is_publishable published = true
is_publishable failed = false

-- `uuid in ids`
abbrev pub member : ℕ → List ℕ → Bool
member i [] = false
member i (j ∷ js) = i == j || member i js

abbrev pub is_run : ℕ → RatingRun → Bool
is_run i r = r.rating_run_id == i

abbrev pub is_named : String → RatingPublication → Bool
is_named name p = str_eq p.publication_name name

-- `get_run_status`
unfoldable pub get_run_status : ℕ → List RatingRun → Option RunStatus
get_run_status i runs = elim (find (is_run i) runs) [ none ↦ none | some r ↦ some r.status ]

-- The upsert of `publish`, and the previous current run that it returns.
unfoldable pub rotate :
    String → ℕ → ℕ → Option String → List RatingPublication → Option ℕ × List RatingPublication
rotate name run_id published_at published_by rows = elim (find (is_named name) rows) [
  | none ↦ (
    none,
    rows
        ++ record {
          publication_name = name;
          rating_run_id = run_id;
          previous_rating_run_id = none;
          published_at = published_at;
          published_by = published_by;
        }
          ∷ [],
  )
  | some existing ↦
      if existing.rating_run_id == run_id
      then (
        none,
        update_where (is_named name)
            (λ p. record p { published_at = published_at; published_by = published_by }) rows,
      )
      else (
        some existing.rating_run_id,
        update_where (is_named name)
            (λ p. record p {
              rating_run_id = run_id;
              previous_rating_run_id = some existing.rating_run_id;
              published_at = published_at;
              published_by = published_by;
            })
            rows,
      )
]

-- `retained_run_ids`
abbrev pub retained_run_ids : List RatingPublication → List ℕ
retained_run_ids [] = []
retained_run_ids (p ∷ ps) =
    let rest = retained_run_ids ps in
    p.rating_run_id
    ∷ elim p.previous_rating_run_id [ none ↦ rest | some previous ↦ previous ∷ rest ]

-- The SELECT of `prune_unretained_runs`.
abbrev pub doomed_runs : List ℕ → List RatingRun → List ℕ
doomed_runs retained [] = []
doomed_runs retained (r ∷ rs) =
    let rest = doomed_runs retained rs in
    if not (is_building r.status) && not (member r.rating_run_id retained)
    then r.rating_run_id ∷ rest
    else rest

module _ (F : Floats) where
  -- `RatingRepository.publish`
  unfoldable pub publish_run :
      String → ℕ → ℕ → Option String → RatingTables F → Option ℕ × RatingTables F
  unfolding rotate
  publish_run name run_id published_at published_by t =
      let (previous, rows) = rotate name run_id published_at published_by t.publications in
      (
        previous,
        record t {
          publications = rows;
          runs = update_where (is_run run_id) (λ r. record r { status = published }) t.runs;
        },
      )

  -- The four deletions of `prune_unretained_runs`, which returns early when no run is doomed.
  abbrev pub delete_runs : List ℕ → RatingTables F → RatingTables F
  delete_runs [] t = t
  delete_runs (d ∷ ds) t = record t {
    history = filter (λ r. not (member r.0 (d ∷ ds))) t.history;
    current = filter (λ r. not (member r.0 (d ∷ ds))) t.current;
    inputs = filter (λ r. not (member r.0 (d ∷ ds))) t.inputs;
    runs = filter (λ r. not (member r.rating_run_id (d ∷ ds))) t.runs;
  }

  unfoldable pub prune_unretained_runs : RatingTables F → List ℕ × RatingTables F
  prune_unretained_runs t =
      let doomed = doomed_runs (retained_run_ids t.publications) t.runs in
      (doomed, delete_runs doomed t)

  -- The body of `RatingService.publish` in its transaction.
  unfoldable pub publish_body :
      String → ℕ → ℕ → Option String → RatingTables F → Result (Unit {0} × RatingTables F)
  unfolding get_run_status publish_run prune_unretained_runs
  publish_body name run_id published_at published_by t = elim (get_run_status run_id t.runs) [
    | none ↦ err rating_build_error
    | some status ↦
        if not (is_publishable status)
        then err rating_build_error
        else ok
            (tt, (prune_unretained_runs (publish_run name run_id published_at published_by t).1).1)
  ]

  -- `RatingService.publish`
  unfoldable pub publish :
      String → ℕ → Datetime → Option String → RatingTables F → Result (Unit {0}) × RatingTables F
  unfolding publish_body
  publish name run_id clock published_by t =
      if is_empty (strip name) then (err value_error, t) else elim (to_utc clock) [
        | err e ↦ (err e, t)
        | ok published_at ↦ transact (publish_body name run_id published_at published_by) t
      ]
