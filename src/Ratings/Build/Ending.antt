-- ===== src/Ratings/Build/Ending.antt =====
-- How a rating build ends: the validated run with its rows, or nothing of the run.
use inkspire_lorcana_develop.Prelude.{
  ℕ, String, true, false, not, ◌&&◌, ◌==◌, ==_refl, Option, List, [], ◌∷◌, ◌++◌, length, map, any,
  any-append, update_where, update_where-new, Result, ok, err, and_then-elim, ok-injective,
  Result-cases, Error, aware, to_utc, ◌≡◌, refl, sym, ap, subst, ◌∙◌, arith, Bool-cases, inl, inr,
}
use inkspire_lorcana_develop.Ratings.Types.{RatingCandidate}
use inkspire_lorcana_develop.Ratings.Elo.{Floats}
use inkspire_lorcana_develop.Ratings.Snapshot.{Snapshot}
use inkspire_lorcana_develop.Ratings.Snapshot.Batches.{numbered, expected, snapshot_ok}
use inkspire_lorcana_develop.Ratings.Snapshot.Calculable.{numbered-Contiguous}
use inkspire_lorcana_develop.Ratings.Calculate.{Calculation, calculate_and_validate}
use inkspire_lorcana_develop.Ratings.Publish.{
  RatingRun, RatingTables, is_building, is_run, member, retained_run_ids, doomed_runs,
  prune_unretained_runs,
}
use inkspire_lorcana_develop.Ratings.Publish.Current.{delete_runs-publications}
use inkspire_lorcana_develop.Ratings.Publish.Retention.{IsConsistent}
use inkspire_lorcana_develop.Ratings.Build.{
  build_started, calculation_done, build_failed, RatingService, RatingBuildResult, new_run,
  snapshotted, mark_validated, mark_failed, of_run, rows_of, by_sequence, create_run,
  store_snapshot, run_inputs, record_failure, calculate_run, build_run, begin_build, continue_build,
  build,
}
use inkspire_lorcana_develop.Ratings.Build.Rows.{
  by_sequence-Contiguous, any-has_run, rows_of-none, rows_of-append, doomed_runs-member,
  retained-known, Erased, delete_runs-Erased,
}

module _ (F : Floats) (service : RatingService F) where
  -- What the calculation makes of the candidates' snapshot.
  abbrev pub calculated : List RatingCandidate → Result (Calculation F)
  calculated cs =
      let rows = numbered service.policy 0 cs in
      calculate_and_validate F service.starting_rating service.k_factor service.history_batch_size
        rows (length rows)

  abbrev pub snapshot_of : List RatingCandidate → Snapshot
  snapshot_of cs = expected service.policy service.hexdigest cs

  -- The run that a build leaves.
  abbrev pub validated_run : ℕ → Option String → List RatingCandidate → Calculation F → RatingRun
  validated_run at notes cs c = mark_validated (service.clock calculation_done) c.player_count (
      snapshotted (snapshot_of cs)
        (new_run service.uuid service.policy service.parameters at notes))

  -- The tables before, with the run's rows added.
  abbrev pub Built :
      ℕ
      → Option String
      → List RatingCandidate
      → RatingTables F
      → RatingBuildResult
      → RatingTables F
      → Type 0
  Built at notes cs t r after =
      (c : Calculation F) × (calculated cs ≡ ok c)
      × (after.runs ≡ t.runs ++ validated_run at notes cs c ∷ [])
      × (after.inputs ≡ t.inputs ++ map (of_run service.uuid) (numbered service.policy 0 cs))
      × (after.history ≡ t.history ++ map (of_run service.uuid) c.history)
      × (after.current ≡ t.current ++ map (of_run service.uuid) c.current)
      × (after.publications ≡ t.publications)
      × (r.rating_run_id ≡ service.uuid)
      × (r.input_count ≡ length (numbered service.policy 0 cs))
      × (r.ordered_input_digest ≡ service.hexdigest (numbered service.policy 0 cs))
      × (r.player_count ≡ c.player_count)

  -- How a build ends whose run was created, and one whose run was not.
  abbrev pub BuildEnds :
      Option String
      → List RatingCandidate
      → RatingTables F
      → Result (RatingTables F)
      → Result RatingBuildResult × RatingTables F
      → Type 0
  BuildEnds notes cs t (err e) out = out ≡ (err e, t)
  BuildEnds notes cs t (ok created) (ok r, after) =
      (at : ℕ) × (to_utc (service.clock build_started) ≡ ok at) × Built at notes cs t r after
  BuildEnds notes cs t (ok created) (err e, after) =
      (calculated cs ≡ err e) × Erased F service.uuid after × (after.publications ≡ t.publications)

  prune-Erased :
      (t : RatingTables F)
      → any (λ r. is_run service.uuid r && not (is_building r.status)) t.runs ≡ true
      → member service.uuid (retained_run_ids t.publications) ≡ false
      → Erased F service.uuid (prune_unretained_runs F t).1
        × ((prune_unretained_runs F t).1.publications ≡ t.publications)
  unfolding prune_unretained_runs
  prune-Erased t there free =
      let ds = doomed_runs (retained_run_ids t.publications) t.runs in
      (
        delete_runs-Erased F service.uuid ds t
            (doomed_runs-member service.uuid (retained_run_ids t.publications) t.runs there free),
        delete_runs-publications F ds t,
      )

  pub create_run-ok :
      (at : ℕ) (notes : Option String) (t : RatingTables F) {created : RatingTables F}
      → create_run F service at notes t ≡ ok created
      → (any (is_run service.uuid) t.runs ≡ false)
        × (record t {
          runs = t.runs ++ new_run service.uuid service.policy service.parameters at notes ∷ [];
        }
            ≡ created)
  unfolding create_run
  create_run-ok at notes t e = elim (Bool-cases (any (is_run service.uuid) t.runs)) [
    | inl taken ↦ absurd (ground (arith, taken, e))
    | inr fresh ↦ (fresh, ok-injective (ground (arith, fresh, e)))
  ]

  -- A failure that is recorded leaves nothing of the run.
  record_failure-Erased :
      (e : Error) (t d : RatingTables F) (r : RatingRun) (failed_at : ℕ)
      → service.clock build_failed ≡ aware failed_at
      → IsConsistent F t
      → any (is_run service.uuid) t.runs ≡ false
      → r.rating_run_id ≡ service.uuid
      → d.runs ≡ t.runs ++ r ∷ []
      → d.publications ≡ t.publications
      → Erased F service.uuid (record_failure F service e d)
        × ((record_failure F service e d).publications ≡ t.publications)
  unfolding record_failure
  record_failure-Erased e t d r failed_at clock consistent fresh named rows kept =
      let mark = mark_failed (service.clock build_failed) (service.text_of e) in
      let done = λ (q : RatingRun). is_run service.uuid q && not (is_building q.status) in
      let marked : RatingTables F = record d {
        runs = update_where (is_run service.uuid) mark d.runs;
      } in
      let mine : (r.rating_run_id == service.uuid) ≡ true = rw named (==_refl service.uuid) in
      let there : any done marked.runs ≡ true =
        ap (λ rs. any done (update_where (is_run service.uuid) mark rs)) rows
        ∙ ap (any done) (update_where-new (is_run service.uuid) mark t.runs r fresh mine)
        ∙ any-append done t.runs (mark r) (rw mine refl) in
      let free : member service.uuid (retained_run_ids marked.publications) ≡ false =
        ap (λ ps. member service.uuid (retained_run_ids ps)) kept
        ∙ retained-known service.uuid t.runs t.publications consistent.publications
            (sym (any-has_run service.uuid t.runs) ∙ fresh) in
      let (erased, same) = prune-Erased marked there free in
      rw (clock, record_failure) (erased, same ∙ kept)

  calculate_run-Ends :
      (at : ℕ) (notes : Option String) (cs : List RatingCandidate) (t created d : RatingTables F)
      (failed_at : ℕ)
      → service.clock build_failed ≡ aware failed_at
      → IsConsistent F t
      → any (is_run service.uuid) t.runs ≡ false
      → to_utc (service.clock build_started) ≡ ok at
      → d.runs
        ≡ t.runs
          ++ snapshotted
              (snapshot_of cs)
              (new_run service.uuid service.policy service.parameters at notes)
            ∷ []
      → d.inputs ≡ t.inputs ++ map (of_run service.uuid) (numbered service.policy 0 cs)
      → d.history ≡ t.history
      → d.current ≡ t.current
      → d.publications ≡ t.publications
      → BuildEnds notes cs t (ok created) (calculate_run F service (snapshot_of cs) d)
  unfolding calculate_run
  calculate_run-Ends at notes cs t created d failed_at clock consistent fresh read runs inputs
        history current publications =
      let rows = numbered service.policy 0 cs in
      let run =
        snapshotted (snapshot_of cs)
          (new_run service.uuid service.policy service.parameters at notes) in
      let none_before : rows_of service.uuid t.inputs ≡ [] =
        rows_of-none service.uuid t.runs t.inputs (sym (any-has_run service.uuid t.runs) ∙ fresh)
          consistent.inputs in
      let stored : run_inputs F service d ≡ rows =
        ap (λ xs. by_sequence (rows_of service.uuid xs)) inputs
        ∙ ap by_sequence (rows_of-append service.uuid t.inputs rows none_before)
        ∙ by_sequence-Contiguous 0 rows (numbered-Contiguous service.policy 0 cs) in
      let calculation : calculate_and_validate F service.starting_rating service.k_factor
            service.history_batch_size (run_inputs F service d) (length rows)
          ≡ calculated cs =
        ap
          (λ xs.
            calculate_and_validate F service.starting_rating service.k_factor
              service.history_batch_size xs (length rows))
          stored in
      elim (Result-cases (calculated cs)) [
        | inr (e, bad) ↦
            let (erased, kept) =
              record_failure-Erased e t d run failed_at clock consistent fresh refl runs
                publications in
            rw (calculation ∙ bad, calculate_run) (bad, erased, kept)
        | inl (c, good) ↦
            rw (calculation ∙ good, calculate_run)
              (
                at,
                read,
                (
                  c,
                  good,
                  ap
                        (update_where (is_run service.uuid)
                          (mark_validated (service.clock calculation_done) c.player_count))
                        runs
                      ∙ update_where-new (is_run service.uuid)
                          (mark_validated (service.clock calculation_done) c.player_count) t.runs
                          run fresh (==_refl service.uuid),
                  inputs,
                  ap (λ xs. xs ++ map (of_run service.uuid) c.history) history,
                  ap (λ xs. xs ++ map (of_run service.uuid) c.current) current,
                  publications,
                  refl,
                  refl,
                  refl,
                  refl,
                ),
              )
      ]

  continue_build-Ends :
      (notes : Option String) (cs : List RatingCandidate) (t : RatingTables F) (failed_at : ℕ)
      (begun : Result (RatingTables F))
      → IsConsistent F t
      → service.clock build_failed ≡ aware failed_at
      → begin_build F service notes t ≡ begun
      → BuildEnds notes cs t begun (continue_build F service cs t begun)
  unfolding continue_build build_run
  continue_build-Ends notes cs t failed_at (err e) consistent clock same = refl
  continue_build-Ends notes cs t failed_at (ok created) consistent clock same =
      and_then-elim (to_utc (service.clock build_started)) same (λ at read e.
        let (fresh, is) = create_run-ok at notes t e in
        let new = new_run service.uuid service.policy service.parameters at notes in
        let d : RatingTables F = record t { runs = t.runs ++ new ∷ [] } in
        let taken = snapshot_ok service.policy service.hexdigest service.input_batch_size cs in
        subst (λ x. BuildEnds notes cs t (ok created) (build_run F service cs x)) is
          (rw (taken, build_run)
            (calculate_run-Ends at notes cs t created (store_snapshot F service (snapshot_of cs) d)
              failed_at clock consistent fresh read
              (update_where-new (is_run service.uuid) (snapshotted (snapshot_of cs)) t.runs new
                fresh (==_refl service.uuid))
              refl refl refl refl)))

  -- On tables whose foreign keys resolve, with an aware clock at a failure, a build whose run was
  -- created either returns, and has added exactly its run, validated with the count and digest of
  -- the eligible candidates, their rows in order, and the history and current rows that the
  -- calculation makes of them; or raises the calculation's exception, with nothing of the run left
  -- in the tables. Publications stay as they are. A build whose run was not created writes
  -- nothing.
  pub build_settles :
      (notes : Option String) (cs : List RatingCandidate) (t : RatingTables F) (failed_at : ℕ)
      → IsConsistent F t
      → service.clock build_failed ≡ aware failed_at
      → BuildEnds notes cs t (begin_build F service notes t) (build F service notes cs t)
  unfolding build
  build_settles notes cs t failed_at consistent clock =
      continue_build-Ends notes cs t failed_at (begin_build F service notes t) consistent clock refl
