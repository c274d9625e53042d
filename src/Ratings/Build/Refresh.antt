-- ===== src/Ratings/Build/Refresh.antt =====
-- `RatingService.build_and_publish_if_changed` (src/lorcana/ratings/service.py), with
-- `resolve_publication` (src/lorcana/ratings/repository.py).
use inkspire_lorcana_develop.Prelude.{
  ℕ, String, Bool, true, false, ◌&&◌, ◌==◌, if◌then◌else◌, str_eq, Option, none, some, List, find,
  Result, ok, err,
}
use inkspire_lorcana_develop.Ratings.Types.{RatingCandidate}
use inkspire_lorcana_develop.Ratings.Policy.{Policy, legacy_parity_v1, global_elo_v1}
use inkspire_lorcana_develop.Ratings.Elo.{Floats}
use inkspire_lorcana_develop.Ratings.Snapshot.{Counter, preview_source}
use inkspire_lorcana_develop.Ratings.Publish.{
  RatingRun, RatingPublication, RatingTables, is_run, is_named, prune_unretained_runs,
}
use inkspire_lorcana_develop.Ratings.Build.{
  RatingService, build_unchanged, RatingBuildResult, build_and_publish,
}

abbrev pub same_policy : Policy → Policy → Bool
same_policy legacy_parity_v1 legacy_parity_v1 = true
same_policy global_elo_v1 global_elo_v1 = true
same_policy _ _ = false

abbrev pub is_number : ℕ → Option ℕ → Bool
is_number n none = false
is_number n (some m) = m == n

abbrev pub is_digest : String → Option String → Bool
is_digest d none = false
is_digest d (some e) = str_eq e d

abbrev pub number_or_zero : Option ℕ → ℕ
number_or_zero none = 0
number_or_zero (some n) = n

-- `current["exclusion_counts"] or exclusions`, where two empty counters are the same.
abbrev pub counter_or : Counter → Option Counter → Counter
counter_or other none = other
counter_or other (some c) = c

-- `resolve_publication`: the publication's run, joined.
unfoldable pub resolve_publication :
    String → List RatingPublication → List RatingRun → Option RatingRun
resolve_publication name publications runs = elim (find (is_named name) publications) [
  | none ↦ none
  | some p ↦ find (is_run p.rating_run_id) runs
]

module _ (F : Floats) (service : RatingService F) where
  -- The current run has the facts that a new one would have.
  abbrev pub is_current_run : ℕ → String → RatingRun → Bool
  is_current_run input_count digest r =
      str_eq r.algorithm "elo"
      && str_eq r.algorithm_version "elo_v2_2player_only"
      && same_policy r.policy_version service.policy
      && service.same_parameters r.parameters service.parameters
      && is_number input_count r.input_count
      && is_digest digest r.ordered_input_digest

  abbrev pub unchanged_result : String → ℕ → String → Counter → RatingRun → RatingBuildResult
  unchanged_result name input_count digest exclusions r = record {
    rating_run_id = r.rating_run_id;
    input_count = input_count;
    player_count = number_or_zero r.player_count;
    ordered_input_digest = digest;
    exclusion_counts = counter_or exclusions r.exclusion_counts;
    status = build_unchanged;
    publication_name = some name;
  }

  -- The run that the publication resolves to, if it is still current.
  abbrev pub current_run : String → ℕ → String → RatingTables F → Option RatingRun
  current_run name input_count digest t = elim (resolve_publication name t.publications t.runs) [
    | none ↦ none
    | some r ↦ if is_current_run input_count digest r then some r else none
  ]

  unfoldable pub build_and_publish_if_changed :
      String
      → Option String
      → Option String
      → List RatingCandidate
      → RatingTables F
      → Result RatingBuildResult × RatingTables F
  unfolding build_and_publish resolve_publication prune_unretained_runs
  build_and_publish_if_changed name published_by notes candidates t =
      elim (preview_source service.hexdigest service.policy candidates) [
        | err e ↦ (err e, t)
        | ok (input_count, digest, exclusions) ↦ elim (current_run name input_count digest t) [
          | some r ↦ (
            ok (unchanged_result name input_count digest exclusions r),
            (prune_unretained_runs F t).1,
          )
          | none ↦ build_and_publish F service name published_by notes candidates t
        ]
      ]
