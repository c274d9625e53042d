-- ===== src/PlayHub/Import/Ending.antt =====
-- How an import attempt ends: what it leaves in the tables, and what its caller is told.
use inkspire_lorcana_develop.Prelude.{
  ℕ, ◌+◌, Bool, List, length, filter, Option, none, some, ℤ, Fields, Result, ok, err, and_then-elim,
  ok-injective, Result-cases, Error, Datetime, to_utc, ◌≡◌, refl, subst, ◌∙◌, arith, inl, inr, ◌⊎◌,
}
use inkspire_lorcana_develop.PlayHub.Types.{PlayHubRound, EventBundle}
use inkspire_lorcana_develop.PlayHub.Tables.{
  Db, ImportAttempt, SyncStatus, import_no_results, import_complete, import_partial, import_failed,
  failed, no_results, complete, partial,
}
use inkspire_lorcana_develop.PlayHub.Facts.Keeps.{frame}
use inkspire_lorcana_develop.PlayHub.Sync.{running_attempt, finished_attempt}
use inkspire_lorcana_develop.PlayHub.Parser.Results.{
  round_should_have_matches, latest_generated_standings_round,
}
use inkspire_lorcana_develop.PlayHub.Import.{
  at_start, at_end, at_failure, ImportService, error_category, Progress, PlayHubImportResult,
  settled_status, open_attempt,
}
use inkspire_lorcana_develop.PlayHub.Import.Attempt.{
  is_present, settled_category, import_rounds, standings_part, import_end, settled_summary, settle,
  record_failure, conclude, continue_attempt, run_attempt, read_bundle, begin_attempt, proceed,
  import_event,
}
use inkspire_lorcana_develop.PlayHub.Import.ByCounts.{IsByCounts, settled_status-IsByCounts}
use inkspire_lorcana_develop.PlayHub.Import.Keeps.{
  standings_part-keeps, passed, import_rounds-keeps,
}
use inkspire_lorcana_develop.PlayHub.Import.Settled.{
  Settled, IsOpen, open_attempt-IsOpen, close_with-Settled,
}

module _ (service : ImportService) where
  -- Why an open attempt can end in an exception: the standings' part raised it, or the clock did at the end.
  abbrev pub Cause : ℤ → EventBundle → Db → Error → Type 0
  Cause event_id bundle opened e =
      ((standings_part service event_id (latest_generated_standings_round bundle.rounds) opened).0
        ≡ some e)
      ⊎ (to_utc (service.clock at_end) ≡ err e)

  -- What the caller is told agrees with the attempt.
  abbrev pub Reported :
      (Error → Type 0) → SyncStatus → ImportAttempt → Result PlayHubImportResult → Type 0
  Reported cause status a (ok r) =
      IsByCounts status no_results complete partial r.rounds_expected r.rounds_imported
      × IsByCounts r.status import_no_results import_complete import_partial r.rounds_expected
          r.rounds_imported
      × (r.status ≡ a.status)
      × (a.rounds_expected ≡ some r.rounds_expected)
      × (a.rounds_imported ≡ some r.rounds_imported)
      × (r.rounds_imported + length r.failed_round_ids ≡ r.rounds_expected)
  Reported cause status a (err e) =
      (status ≡ failed)
      × (a.status ≡ import_failed)
      × (a.error_category ≡ some (error_category e))
      × cause e

  abbrev pub Ends : Db → ℤ → (Error → Type 0) → Result PlayHubImportResult × Db → Type 0
  Ends before event_id cause (outcome, after) =
      (status : SyncStatus) × (a : ImportAttempt) × Settled service.uuid before event_id status a
        after
      × Reported cause status a outcome

  record_failure-Ends :
      (event_id : ℤ) (observed_at expected t : ℕ) (e : Error) (p : Progress) (before opened db : Db)
      (cause : Error → Type 0)
      → service.clock at_failure ≡ Datetime.aware t
      → IsOpen service.uuid before event_id observed_at opened
      → frame db ≡ frame opened
      → cause e
      → Ends before event_id cause (record_failure service event_id observed_at expected e p db)
  unfolding record_failure
  record_failure-Ends event_id observed_at expected t e p before opened db cause aware opening same
        because =
      let (after, closed, settled) =
        close_with-Settled service event_id observed_at failed expected t p
          (some (error_category e)) (some (service.text_of e)) before opened db opening same in
      rw (aware, closed, record_failure)
        (
          failed,
          finished_attempt
              (import_end service event_id failed expected t p (some (error_category e))
                (some (service.text_of e)) db)
              (running_attempt service.uuid event_id observed_at),
          settled,
          (refl, refl, refl, because),
        )

  conclude-Ends :
      (event_id : ℤ) (observed_at expected t : ℕ) (p : Progress) (before opened db : Db)
      (cause : Error → Type 0)
      → service.clock at_failure ≡ Datetime.aware t
      → IsOpen service.uuid before event_id observed_at opened
      → frame db ≡ frame opened
      → passed service p ≡ expected
      → ((e : Error) → to_utc (service.clock at_end) ≡ err e → cause e)
      → Ends before event_id cause (conclude service event_id observed_at expected (db, p))
  unfolding conclude settle
  conclude-Ends event_id observed_at expected t p before opened db cause aware opening same all
        why =
      let status = settled_status expected p.rounds_imported in
      let counts =
        settled_status-IsByCounts expected p.rounds_imported (length p.failed_round_ids) all in
      elim (Result-cases (to_utc (service.clock at_end))) [
        | inr (e, naive) ↦
            rw (naive, conclude)
              (record_failure-Ends event_id observed_at expected t e p before opened db cause aware
                opening same (why e naive))
        | inl (at, read) ↦
            let (after, closed, settled) =
              close_with-Settled service event_id observed_at status expected at p
                (settled_category status) (settled_summary service status expected p) before opened
                db opening same in
            rw (read, closed, conclude)
              (
                status,
                finished_attempt
                    (import_end service event_id status expected at p (settled_category status)
                      (settled_summary service status expected p) db)
                    (running_attempt service.uuid event_id observed_at),
                settled,
                (counts.0, counts.1, refl, refl, refl, all),
              )
      ]

  continue_attempt-Ends :
      (event_id : ℤ) (observed_at t : ℕ) (has_standings : Bool) (match_rounds : List PlayHubRound)
      (before opened : Db) (part : Option Error × (Db × Progress)) (cause : Error → Type 0)
      → service.clock at_failure ≡ Datetime.aware t
      → IsOpen service.uuid before event_id observed_at opened
      → frame part.1.0 ≡ frame opened
      → passed service part.1.1 ≡ 0
      → ((e : Error) → (part.0 ≡ some e) ⊎ (to_utc (service.clock at_end) ≡ err e) → cause e)
      → Ends before event_id cause
          (continue_attempt service event_id observed_at has_standings match_rounds part)
  unfolding continue_attempt
  continue_attempt-Ends event_id observed_at t has_standings match_rounds before opened
        (some e, (db, p)) cause aware opening same nothing why =
      record_failure-Ends event_id observed_at (length match_rounds) t e p before opened db cause
        aware opening same (why e (inl refl))
  continue_attempt-Ends event_id observed_at t has_standings match_rounds before opened
        (none, (db, p)) cause aware opening same nothing why =
      let (kept, counted) =
        import_rounds-keeps service event_id has_standings match_rounds match_rounds db p in
      let (after, q) =
        import_rounds service event_id has_standings match_rounds match_rounds db p in
      conclude-Ends event_id observed_at (length match_rounds) t q before opened after cause aware
        opening (kept ∙ same) (omega (arith, counted, nothing)) (λ e h. why e (inr h))

  -- A call whose attempt opens, and one that fails before.
  abbrev pub Attempted :
      Db → ℤ → Result ((ℕ × EventBundle) × Db) → Result PlayHubImportResult × Db → Type 0
  Attempted before event_id (ok ((observed_at, bundle), opened)) end =
      Ends before event_id (Cause event_id bundle opened) end
  Attempted before event_id (err e) end = end ≡ (err e, before)

  begin_attempt-IsOpen :
      (event_id : ℤ) (event_data : Option Fields) (before opened : Db) (observed_at : ℕ)
      (bundle : EventBundle)
      → begin_attempt service event_id event_data before ≡ ok ((observed_at, bundle), opened)
      → IsOpen service.uuid before event_id observed_at opened
  begin_attempt-IsOpen event_id event_data before opened observed_at bundle e =
      and_then-elim (to_utc (service.clock at_start)) e (λ now read e.
        and_then-elim (read_bundle service event_id event_data now) e (λ parsed was_read e.
          and_then-elim (open_attempt service parsed event_id now before) e (λ d written e.
            let same : ((now, parsed), d) ≡ ((observed_at, bundle), opened) = ok-injective e in
            subst (λ v. IsOpen service.uuid before event_id v.0.0 v.1) same
              (open_attempt-IsOpen service parsed event_id now before d written))))

  proceed-Attempted :
      (event_id : ℤ) (event_data : Option Fields) (before : Db) (t : ℕ)
      (begun : Result ((ℕ × EventBundle) × Db))
      → service.clock at_failure ≡ Datetime.aware t
      → begin_attempt service event_id event_data before ≡ begun
      → Attempted before event_id begun (proceed service event_id before begun)
  unfolding proceed run_attempt
  proceed-Attempted event_id event_data before t (err e) aware same = refl
  proceed-Attempted event_id event_data before t (ok ((observed_at, bundle), opened)) aware same =
      let standings = latest_generated_standings_round bundle.rounds in
      let (kept, nothing) = standings_part-keeps service event_id standings opened in
      continue_attempt-Ends event_id observed_at t (is_present standings)
        (filter round_should_have_matches bundle.rounds) before opened
        (standings_part service event_id standings opened) (Cause event_id bundle opened) aware
        (begin_attempt-IsOpen event_id event_data before opened observed_at bundle same) kept
        nothing (λ e h. h)

  -- With an aware clock at a failure, a call of import_event that opens its attempt adds exactly
  -- one attempt and leaves it settled under the service's identifier: complete, partial, without
  -- results or failed, with the event's state at the same status, and the time of its last success
  -- moved only if the attempt is complete. The status of a result, and the event's, is no_results
  -- exactly if no rounds were expected, complete exactly if some were and all of them were
  -- imported, and partial exactly if fewer were; a result's imported and failed rounds together
  -- are as many as the expected ones. An exception is recorded as a failed attempt and is one that
  -- the standings' part or the final clock reading raised. A call that does not get that far
  -- writes nothing.
  pub import_event_settles :
      (event_id : ℤ) (event_data : Option Fields) (before : Db) (t : ℕ)
      → service.clock at_failure ≡ Datetime.aware t
      → Attempted before event_id
          (begin_attempt service event_id event_data before)
          (import_event service event_id event_data before)
  unfolding import_event
  import_event_settles event_id event_data before t aware =
      proceed-Attempted event_id event_data before t
        (begin_attempt service event_id event_data before) aware refl
