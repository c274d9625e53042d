-- ===== src/Ratings/Build/Again.antt =====
-- A refresh after a build that was published, with the source unchanged.
use inkspire_lorcana_develop.Prelude.{
  ℕ, String, true, false, ==_refl, str_eq_self, Option, none, some, List, [], ◌∷◌, length, any,
  find, find_appended, Result, ok, err, and_then, and_then-elim, aware, to_utc, strip, is_empty,
  ◌≡◌, refl, sym, ap, subst, ◌∙◌, arith,
}
use inkspire_lorcana_develop.Ratings.Types.{RatingCandidate}
use inkspire_lorcana_develop.Ratings.Policy.{Policy, legacy_parity_v1, global_elo_v1}
use inkspire_lorcana_develop.Ratings.Elo.{Floats}
use inkspire_lorcana_develop.Ratings.Snapshot.{preview_source, no_exclusions}
use inkspire_lorcana_develop.Ratings.Snapshot.Preview.{preview_source_agrees}
use inkspire_lorcana_develop.Ratings.Snapshot.Batches.{numbered, excluded, snapshot_ok}
use inkspire_lorcana_develop.Ratings.Calculate.{Calculation}
use inkspire_lorcana_develop.Ratings.Publish.{
  published, RatingRun, RatingTables, is_run, prune_unretained_runs,
}
use inkspire_lorcana_develop.Ratings.Publish.Retention.{IsConsistent}
use inkspire_lorcana_develop.Ratings.Build.{
  RatingService, build_published, build_unchanged, RatingBuildResult, begin_build, build,
  publish_built, build_and_publish, build_started, build_failed, publishing,
}
use inkspire_lorcana_develop.Ratings.Build.Ending.{
  calculated, validated_run, BuildEnds, create_run-ok, build_settles,
}
use inkspire_lorcana_develop.Ratings.Build.Resolved.{publish_resolves}
use inkspire_lorcana_develop.Ratings.Build.Refresh.{
  same_policy, is_current_run, unchanged_result, resolve_publication, current_run,
  build_and_publish_if_changed,
}

same_policy_refl : (p : Policy) → same_policy p p ≡ true
same_policy_refl legacy_parity_v1 = refl
same_policy_refl global_elo_v1 = refl

find-none :
    (i : ℕ) (runs : List RatingRun) → any (is_run i) runs ≡ false → find (is_run i) runs ≡ none
find-none i [] h = refl
find-none i (r ∷ rs) h = ground (arith, h, find-none i rs)

module _ (F : Floats) (service : RatingService F) where
  -- A refresh that finds nothing changed: it returns the run again and leaves the tables as they are.
  abbrev pub Unchanged :
      String
      → Option String
      → Option String
      → List RatingCandidate
      → Result RatingBuildResult × RatingTables F
      → Type 0
  Unchanged name by notes cs (outcome, after) =
      (r : RatingBuildResult) × (outcome ≡ ok r)
      × (r.status ≡ build_published)
      × (r.rating_run_id ≡ service.uuid)
      × (q : RatingBuildResult) × (build_and_publish_if_changed F service name by notes cs after
          ≡ (ok q, after))
      × (q.status ≡ build_unchanged)
      × (q.rating_run_id ≡ r.rating_run_id)
      × (q.input_count ≡ r.input_count)
      × (q.player_count ≡ r.player_count)
      × (q.ordered_input_digest ≡ r.ordered_input_digest)

  preview_of :
      (cs : List RatingCandidate)
      → let rows = numbered service.policy 0 cs in
        preview_source service.hexdigest service.policy cs
        ≡ ok (length rows, service.hexdigest rows, excluded service.policy no_exclusions cs)
  preview_of cs =
      preview_source_agrees service.policy service.hexdigest service.input_batch_size cs
      ∙ ap (λ m. and_then m (λ s. ok (s.input_count, s.ordered_input_digest, s.exclusion_counts)))
          (snapshot_ok service.policy service.hexdigest service.input_batch_size cs)

  validated-current :
      (at : ℕ) (notes : Option String) (cs : List RatingCandidate) (c : Calculation F)
      → service.same_parameters service.parameters service.parameters ≡ true
      → let rows = numbered service.policy 0 cs in
        is_current_run F service
          (length rows)
          (service.hexdigest rows)
          (record (validated_run F service at notes cs c) { status = published })
        ≡ true
  validated-current at notes cs c same =
      rw
        (
          same_policy_refl service.policy,
          same,
          ==_refl (length (numbered service.policy 0 cs)),
          str_eq_self (service.hexdigest (numbered service.policy 0 cs)),
        )
        refl

  -- A refresh whose publication resolves to a run that is current, on tables with nothing to prune.
  refresh_current :
      (name : String) (by notes : Option String) (cs : List RatingCandidate) (t : RatingTables F)
      (run : RatingRun)
      → let rows = numbered service.policy 0 cs in
        resolve_publication name t.publications t.runs ≡ some run
        → is_current_run F service (length rows) (service.hexdigest rows) run ≡ true
        → (prune_unretained_runs F t).1 ≡ t
        → build_and_publish_if_changed F service name by notes cs t ≡ (
          ok (
              unchanged_result F service name
                (length rows)
                (service.hexdigest rows)
                (excluded service.policy no_exclusions cs)
                run),
          t,
        )
  unfolding build_and_publish_if_changed
  refresh_current name by notes cs t run resolved current pruned =
      let rows = numbered service.policy 0 cs in
      let still : current_run F service name (length rows) (service.hexdigest rows) t ≡ some run =
        rw (resolved, current_run) (rw current refl) in
      let q =
        unchanged_result F service name (length rows) (service.hexdigest rows)
          (excluded service.policy no_exclusions cs) run in
      rw (preview_of cs, build_and_publish_if_changed)
        (rw (still, build_and_publish_if_changed) (ap (λ x. (ok q, x)) pruned))

  publish_built-Unchanged :
      (name : String) (by by' notes notes' : Option String) (cs : List RatingCandidate)
      (t created : RatingTables F) (at : ℕ) (c : Calculation F)
      (out : Result RatingBuildResult × RatingTables F)
      → service.clock publishing ≡ aware at
      → is_empty (strip name) ≡ false
      → service.same_parameters service.parameters service.parameters ≡ true
      → any (is_run service.uuid) t.runs ≡ false
      → calculated F service cs ≡ ok c
      → BuildEnds F service notes cs t (ok created) out
      → Unchanged name by' notes' cs (publish_built F service name by out)
  unfolding publish_built
  publish_built-Unchanged name by by' notes notes' cs t created at c (err e, after) clock given same
        fresh good (bad, erased, kept) =
      cc
  publish_built-Unchanged name by by' notes notes' cs t created at c (ok r, built) clock given same
        fresh good (started, read, built_as) =
      let (c', good', runs, inputs, history, current, pubs, id, count, digest, players) =
        built_as in
      let rows = numbered service.policy 0 cs in
      let run = validated_run F service started notes cs c' in
      let found : find (is_run service.uuid) built.runs ≡ some run =
        ap (find (is_run service.uuid)) runs
        ∙ find_appended (is_run service.uuid) t.runs run (find-none service.uuid t.runs fresh)
            (==_refl service.uuid) in
      let (after, wrote, resolved, pruned) =
        publish_resolves F name r.rating_run_id at by built run given
          (subst (λ k. find (is_run k) built.runs ≡ some run) (sym id) found) refl in
      let live : RatingRun = record run { status = published } in
      let q =
        unchanged_result F service name (length rows) (service.hexdigest rows)
          (excluded service.policy no_exclusions cs) live in
      let again : build_and_publish_if_changed F service name by' notes' cs after ≡ (ok q, after) =
        refresh_current name by' notes' cs after live resolved
          (validated-current started notes cs c' same) pruned in
      rw (clock, wrote, publish_built)
        (
          record r { status = build_published; publication_name = some name },
          refl,
          refl,
          id,
          q,
          again,
          refl,
          sym id,
          sym count,
          sym players,
          sym digest,
        )

  -- On tables whose foreign keys resolve, with aware clocks, a name that is not blank and
  -- parameters that equal themselves, a build whose run was created and whose calculation succeeds
  -- is published by build_and_publish, and a call of build_and_publish_if_changed under the same
  -- name and over the same candidates that follows returns the same run, counts and digest as
  -- unchanged and leaves the tables as they are.
  pub refresh_again :
      (name : String) (by by' notes notes' : Option String) (cs : List RatingCandidate)
      (t created : RatingTables F) (failed_at at : ℕ) (c : Calculation F)
      → IsConsistent F t
      → service.clock build_failed ≡ aware failed_at
      → service.clock publishing ≡ aware at
      → is_empty (strip name) ≡ false
      → service.same_parameters service.parameters service.parameters ≡ true
      → begin_build F service notes t ≡ ok created
      → calculated F service cs ≡ ok c
      → Unchanged name by' notes' cs (build_and_publish F service name by notes cs t)
  unfolding build_and_publish
  refresh_again name by by' notes notes' cs t created failed_at at c consistent clock now given same
        begun good =
      and_then-elim (to_utc (service.clock build_started)) begun (λ started read e.
        let (fresh, is) = create_run-ok F service started notes t e in
        let ends : BuildEnds F service notes cs t (ok created) (build F service notes cs t) =
          subst (λ b. BuildEnds F service notes cs t b (build F service notes cs t)) begun
            (build_settles F service notes cs t failed_at consistent clock) in
        publish_built-Unchanged name by by' notes notes' cs t created at c
          (build F service notes cs t) now given same fresh good ends)
