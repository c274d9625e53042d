-- ===== src/PlayHub/Discovery/Ending.antt =====
-- How a discovery run ends: what it leaves in the tables, and what its caller is told.
use inkspire_lorcana_develop.Prelude.{
  ℕ, suc, ◌+◌, ◌-◌, ◌≤◌, ◌<◌, ==_refl, Bool, true, false, ltb, leb, if◌then◌else◌, List, [], ◌∷◌,
  ◌++◌, any, any-append, update_where, update_where-new, length, Option, none, some, Fields, Result,
  ok, err, and_then-elim, ok-injective, guarded-ok, Result-cases, Error, value_error, aware, to_utc,
  ◌≡◌, refl, sym, ap, ◌∙◌, arith, Bool-cases, inl, inr, ◌⊎◌, integrity_error,
}
use inkspire_lorcana_develop.PlayHub.Raw.{get}
use inkspire_lorcana_develop.PlayHub.Types.{PlayHubStore, EventBundle}
use inkspire_lorcana_develop.PlayHub.Tables.{
  Db, store_row, DiscoveryRun, discovery_complete, discovery_failed, has_event,
}
use inkspire_lorcana_develop.PlayHub.Facts.{upsert_store, upsert_event, each}
use inkspire_lorcana_develop.PlayHub.Facts.Keeps.{admit-ok, each-keeps}
use inkspire_lorcana_develop.PlayHub.Sync.{
  running_run, is_complete_window, is_run, finished_run, has_completed_discovery_window,
  start_discovery_run, finish_discovery_run, ensure_event_sync_state,
}
use inkspire_lorcana_develop.PlayHub.Parser.{parse_event_bundle}
use inkspire_lorcana_develop.PlayHub.Discovery.{DiscoverySelection, select_discovered_events}
use inkspire_lorcana_develop.PlayHub.Import.{error_category}
use inkspire_lorcana_develop.PlayHub.Discovery.Run.{
  run_started, run_observed, run_completed, run_failed, DiscoveryService, PlayHubDiscoveryResult,
  midnight, skipped_result, Counts, counts_of, write_event_store, write_discovered, parse_bundles,
  store_selection, discover, run_end, run_failure, fail_run, finish_run, start_run, proceed_run,
  sync_range,
}

abbrev runs : Db → List DiscoveryRun
runs db = db.discovery_runs

module _ (service : DiscoveryService) where
  write_event_store-keeps :
      (store : Option PlayHubStore) (db after : Db)
      → write_event_store service store db ≡ ok after
      → runs after ≡ runs db
  unfolding upsert_store
  write_event_store-keeps none db after e = ap runs (sym (ok-injective e))
  write_event_store-keeps (some store) db after e =
      ap runs (sym (admit-ok service.refuses (store_row store) true _ e))

  write_discovered-keeps :
      (bundle : EventBundle) (db after : Db)
      → write_discovered service bundle db ≡ ok after
      → runs after ≡ runs db
  unfolding ensure_event_sync_state upsert_event
  write_discovered-keeps bundle db after e =
      and_then-elim (write_event_store service bundle.store db) e (λ d₁ stored e.
        and_then-elim (upsert_event service.refuses bundle.event d₁) e (λ d₂ evented e.
          let (_, written) = guarded-ok (has_event bundle.event.event_id d₂) _ integrity_error e in
          ap runs (sym written)
          ∙ ap runs (sym (admit-ok service.refuses _ _ _ evented))
          ∙ write_event_store-keeps bundle.store db d₁ stored))

  parse_bundles-length :
      (raws : List Fields) {bundles : List EventBundle}
      → parse_bundles service raws ≡ ok bundles
      → length bundles ≡ length raws
  parse_bundles-length [] e = ap length (sym (ok-injective e))
  parse_bundles-length (raw ∷ raws) e =
      and_then-elim (service.python.to_int (get "id" raw)) e (λ i read e.
        and_then-elim (parse_event_bundle service.python raw i (service.clock run_observed)) e
          (λ bundle parsed e. and_then-elim (parse_bundles service raws) e (λ rest others e.
            ap length (sym (ok-injective e)) ∙ ap suc (parse_bundles-length raws others))))

  abbrev IsStarted : ℕ → ℕ → Db → Db → DiscoveryRun → Type 0
  IsStarted start end before started run =
      (runs started ≡ runs before ++ run ∷ [])
      × (any (is_run service.uuid) (runs before) ≡ false)
      × (run.discovery_run_id ≡ service.uuid)
      × (run.start_datetime ≡ start)
      × (run.end_datetime ≡ end)

  start_run-IsStarted :
      (start_day end_day : ℕ) (before started : Db)
      → start_run service start_day end_day before ≡ ok started
      → (run : DiscoveryRun) × IsStarted (midnight start_day) (midnight end_day) before started run
  unfolding start_discovery_run
  start_run-IsStarted start_day end_day before started e =
      and_then-elim (to_utc (service.clock run_started)) e (λ at read e.
        let run = running_run service.uuid at (midnight start_day) (midnight end_day) in
        elim (Bool-cases (any (is_run service.uuid) (runs before))) [
          | inl taken ↦ absurd (ground (arith, taken, e))
          | inr fresh ↦
              let written : record before { discovery_runs = runs before ++ run ∷ [] } ≡ started =
                ok-injective (ground (arith, fresh, e)) in
              (run, (ap runs (sym written), fresh, refl, refl, refl))
        ])

  -- What the caller is told agrees with the run.
  abbrev pub RunReported : ℕ → ℕ → DiscoveryRun → Result PlayHubDiscoveryResult → Db → Type 0
  RunReported start end run (ok r) after =
      (run.status ≡ discovery_complete)
      × (r.discovery_run_id ≡ some run.discovery_run_id)
      × (r.events_received ≡ run.events_received)
      × (r.unique_events ≡ run.unique_events)
      × (r.duplicate_rows ≡ run.duplicate_rows)
      × (r.persisted_events ≡ run.unique_events)
      × (has_completed_discovery_window start end after ≡ true)
  RunReported start end run (err e) after =
      (run.status ≡ discovery_failed) × (run.error_category ≡ some (error_category e))

  abbrev pub RunEnds : ℕ → ℕ → Db → Result PlayHubDiscoveryResult × Db → Type 0
  RunEnds start end before (outcome, after) =
      (run : DiscoveryRun) × (after.discovery_runs ≡ before.discovery_runs ++ run ∷ [])
      × (run.discovery_run_id ≡ service.uuid)
      × (run.start_datetime ≡ start)
      × (run.end_datetime ≡ end)
      × RunReported start end run outcome after

  finish_run-RunEnds :
      (start end t : ℕ) (before started : Db) (run : DiscoveryRun) (c : Counts)
      (r : Result (ℕ × Db))
      → service.clock run_failed ≡ aware t
      → IsStarted start end before started run
      → ((n : ℕ) (after : Db)
          → r ≡ ok (n, after)
          → (at : ℕ) × (runs after
              ≡ update_where (is_run service.uuid) (finished_run (run_end c at)) (runs started))
            × (n ≡ c.unique_events))
      → RunEnds start end before (finish_run service start end started (c, r))
  unfolding finish_run fail_run finish_discovery_run
  finish_run-RunEnds start end t before started run c (err e) read (added, fresh, id, from, to)
        done =
      rw (read, fail_run)
        (
          finished_run (run_failure service c e t) run,
          ap (update_where (is_run service.uuid) (finished_run (run_failure service c e t))) added
              ∙ update_where-new (is_run service.uuid) (finished_run (run_failure service c e t))
                  (runs before) run fresh (rw id (==_refl service.uuid)),
          id,
          from,
          to,
          (refl, refl),
        )
  finish_run-RunEnds start end t before started run c (ok (n, after)) read
        (added, fresh, id, from, to) done =
      let (at, kept, persisted) = done n after refl in
      let ended = finished_run (run_end c at) run in
      let row : runs after ≡ runs before ++ ended ∷ [] =
        kept
        ∙ ap (update_where (is_run service.uuid) (finished_run (run_end c at))) added
        ∙ update_where-new (is_run service.uuid) (finished_run (run_end c at)) (runs before) run
            fresh (rw id (==_refl service.uuid)) in
      (
        ended,
        row,
        id,
        from,
        to,
        (
          refl,
          ap some (sym id),
          refl,
          refl,
          refl,
          persisted,
          ap (any (is_complete_window start end)) row
              ∙ any-append (is_complete_window start end) (runs before) ended
                  (rw (from, to) (ground (arith, ==_refl start, ==_refl end))),
        ),
      )

  store_selection-keeps :
      (c : Counts) (s : DiscoverySelection) (db : Db) (n : ℕ) (after : Db)
      → store_selection service c s db ≡ ok (n, after)
      → (at : ℕ) × (runs after
          ≡ update_where (is_run service.uuid) (finished_run (run_end c at)) (runs db))
        × (n ≡ length s.events)
  unfolding finish_discovery_run
  store_selection-keeps c s db n after e =
      and_then-elim (to_utc (service.clock run_observed)) e (λ observed seen e.
        and_then-elim (parse_bundles service s.events) e (λ bundles parsed e.
          and_then-elim (to_utc (service.clock run_completed)) e (λ at read e.
            and_then-elim (each (write_discovered service) bundles db) e (λ d written e.
              let same = ok-injective e in
              (
                at,
                ap (λ v. runs v.1) (sym same)
                    ∙ ap (update_where (is_run service.uuid) (finished_run (run_end c at))) (
                        each-keeps runs (write_discovered service) bundles db write_discovered-keeps
                          written),
                ap (λ v. v.0) (sym same) ∙ parse_bundles-length s.events parsed,
              )))))

  discover-keeps :
      (start_day end_day : ℕ) (db : Db) (n : ℕ) (after : Db)
      → (discover service start_day end_day db).1 ≡ ok (n, after)
      → (at : ℕ) × (runs after
          ≡ update_where
              (is_run service.uuid)
              (finished_run (run_end (discover service start_day end_day db).0 at))
              (runs db))
        × (n ≡ (discover service start_day end_day db).0.unique_events)
  unfolding discover
  discover-keeps start_day end_day db n after =
      elim (Result-cases (service.fetch_all_discovered_events start_day end_day)) [
        | inr (x, lost) ↦ rw (lost, discover) (λ h. cc)
        | inl (raws, fetched) ↦
            elim (Result-cases (
              select_discovered_events service.python raws (aware (midnight start_day))
                (aware (midnight end_day)))) [
                  | inr (x, bad) ↦ rw (fetched, bad, discover) (λ h. cc)
                  | inl (s, good) ↦
                      rw (fetched, good, discover)
                        (store_selection-keeps (counts_of raws s) s db n after)
                ]
      ]

  -- A call that starts no run leaves the tables alone: the window is empty or longer than 366 days, or
  -- starting failed, or the window was completed before; any other call ends its run.
  abbrev pub Synced : ℕ → ℕ → Db → Result PlayHubDiscoveryResult × Db → Type 0
  Synced start_day end_day before out =
      ((e : Error) × (out ≡ (err e, before))
        × ((end_day ≤ start_day)
            ⊎ ((start_day + 366 < end_day) ⊎ (start_run service start_day end_day before ≡ err e))))
      ⊎ (((out ≡ (ok (skipped_result (midnight start_day) (midnight end_day)), before))
            × (has_completed_discovery_window (midnight start_day) (midnight end_day) before
                ≡ true))
          ⊎ RunEnds (midnight start_day) (midnight end_day) before out)

  proceed_run-Synced :
      (start_day end_day t : ℕ) (before : Db) (started : Result Db)
      → service.clock run_failed ≡ aware t
      → start_run service start_day end_day before ≡ started
      → Synced start_day end_day before (proceed_run service start_day end_day before started)
  unfolding proceed_run
  proceed_run-Synced start_day end_day t before (err e) read same = inl (e, refl, inr (inr same))
  proceed_run-Synced start_day end_day t before (ok started) read same =
      let (run, begun) = start_run-IsStarted start_day end_day before started same in
      let (c, r) = discover service start_day end_day started in
      inr (
        inr (
          finish_run-RunEnds (midnight start_day) (midnight end_day) t before started run c r read
            begun (discover-keeps start_day end_day started)))

  -- With an aware clock at a failure, a call of sync_range either raises and writes nothing,
  -- because the window is empty or longer than 366 days or the run could not be started; or skips
  -- a window that was completed before and writes nothing; or adds exactly one run over the
  -- window, which is complete with the counts of the result and as many events persisted as are
  -- unique, so that the window counts as completed from then on, or is failed with the category of
  -- the exception that is raised.
  pub sync_range_settles :
      (start_day end_day : ℕ) (force : Bool) (before : Db) (t : ℕ)
      → service.clock run_failed ≡ aware t
      → Synced start_day end_day before (sync_range service start_day end_day force before)
  unfolding sync_range
  sync_range_settles start_day end_day force before t read =
      let skip =
        if force
        then false
        else has_completed_discovery_window (midnight start_day) (midnight end_day) before in
      elim (Bool-cases (leb end_day start_day)) [
        | inl empty ↦ rw (empty, sync_range) (inl (value_error, refl, inl (ground (arith, empty))))
        | inr window ↦ elim (Bool-cases (ltb 366 (end_day - start_day))) [
          | inl long ↦
              rw (window, long, sync_range)
                (inl (value_error, refl, inr (inl (ground (arith, window, long)))))
          | inr short ↦ elim (Bool-cases skip) [
            | inl completed ↦
                rw (window, short, completed, sync_range)
                  (inr (inl (refl, ground (arith, completed))))
            | inr wanted ↦
                rw (window, short, wanted, sync_range)
                  (proceed_run-Synced start_day end_day t before
                    (start_run service start_day end_day before) read refl)
          ]
        ]
      ]
