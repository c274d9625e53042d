-- ===== src/PlayHub/Import/Attempt.antt =====
-- `PlayHubImportService.import_event` (src/lorcana/playhub/service.py): the attempt from its opening to the
-- status it is left in. A call returns a result or an exception, with the tables after it.
use inkspire_lorcana_develop.Prelude.{
  ℕ, suc, ◌+◌, String, Bool, true, false, if◌then◌else◌, text_append, List, [], ◌∷◌, ◌++◌, length,
  filter, Option, none, some, ℤ, pos, Fields, Result, ok, err, ◌>>=◌, and_then, Error, to_utc,
}
use inkspire_lorcana_develop.Prelude.Values.{int}
use inkspire_lorcana_develop.PlayHub.Types.{PlayHubRound, EventBundle}
use inkspire_lorcana_develop.PlayHub.Tables.{
  Db, SyncState, SyncStatus, complete, partial, no_results, failed,
}
use inkspire_lorcana_develop.PlayHub.Facts.{count_distinct_event_players}
use inkspire_lorcana_develop.PlayHub.Sync.{finish_import_attempt, set_event_sync_state, ImportEnd}
use inkspire_lorcana_develop.PlayHub.Parser.{parse_event_bundle}
use inkspire_lorcana_develop.PlayHub.Parser.Results.{
  round_should_have_matches, latest_generated_standings_round,
}
use inkspire_lorcana_develop.PlayHub.Import.{
  at_start, at_end, at_failure, ImportService, error_category, length_raw, Progress,
  PlayHubImportResult, import_status, settled_status, is_last_round, open_attempt, import_standings,
  round_body,
}

abbrev pub nothing_imported : Progress
nothing_imported = record {
  rounds_imported = 0;
  registrations_found = 0;
  matches_found = 0;
  failed_round_ids = [];
}

abbrev pub is_present : Option PlayHubRound → Bool
is_present none = false
is_present (some r) = true

abbrev pub success_at : SyncStatus → ℕ → Option ℕ
success_at complete at = some at
success_at other at = none

abbrev pub closing_state : ℤ → ℕ → SyncStatus → ℕ → Option String → Option String → SyncState
closing_state event_id observed_at status at category summary = record {
  event_id = event_id;
  state = status;
  last_attempt_at = some observed_at;
  last_success_at = success_at status at;
  last_error_category = category;
  last_error_summary = summary;
  source_revision = none;
}

abbrev join_ids : (ℤ → String) → List ℤ → String
join_ids show [] = ""
join_ids show (i ∷ []) = show i
join_ids show (i ∷ j ∷ is) = text_append (show i) (text_append ", " (join_ids show (j ∷ is)))

abbrev partial_summary : (ℤ → String) → ℕ → ℕ → List ℤ → String
partial_summary show imported expected ids = text_append "Imported " (
    text_append (show (pos imported)) (
      text_append " of " (
        text_append (show (pos expected))
          (text_append " expected rounds; failed round IDs: " (join_ids show ids)))))

abbrev pub settled_category : SyncStatus → Option String
settled_category no_results = some "no_results"
settled_category partial = some "round_import_partial"
settled_category other = none

module _ (service : ImportService) where
  -- A pass of the loop over the rounds: an exception leaves the tables and notes the round.
  unfoldable pub import_round :
      ℤ → Bool → List PlayHubRound → PlayHubRound → Db → Progress → Db × Progress
  import_round event_id has_standings match_rounds r db p =
      let pairing = if has_standings then false else is_last_round service.python match_rounds r in
      elim (round_body service event_id r.round_id pairing db) [
        | ok ((registrations, matches), after) ↦ (
          after,
          record p {
            rounds_imported = suc p.rounds_imported;
            registrations_found = p.registrations_found + registrations;
            matches_found = p.matches_found + matches;
          },
        )
        | err e ↦ (db, record p { failed_round_ids = p.failed_round_ids ++ r.round_id ∷ [] })
      ]

  unfoldable pub import_rounds :
      ℤ → Bool → List PlayHubRound → List PlayHubRound → Db → Progress → Db × Progress
  unfolding import_round
  import_rounds event_id has_standings match_rounds [] db p = (db, p)
  import_rounds event_id has_standings match_rounds (r ∷ rs) db p =
      let (after, q) = import_round event_id has_standings match_rounds r db p in
      import_rounds event_id has_standings match_rounds rs after q

  -- The standings' part: the exception that ends the attempt, if any, and what was counted by then.
  unfoldable pub standings_part : ℤ → Option PlayHubRound → Db → Option Error × (Db × Progress)
  standings_part event_id none db = (none, (db, nothing_imported))
  standings_part event_id (some r) db = elim (service.fetch_all_standings r.round_id) [
    | err e ↦ (some e, (db, nothing_imported))
    | ok raws ↦
        let p : Progress = record nothing_imported { registrations_found = length_raw raws } in
        elim (import_standings service event_id raws db) [
          | err e ↦ (some e, (db, p))
          | ok after ↦ (none, (after, p))
        ]
  ]

  abbrev pub import_end :
      ℤ → SyncStatus → ℕ → ℕ → Progress → Option String → Option String → Db → ImportEnd
  import_end event_id status expected at p category summary db = record {
    completed_at = at;
    status = import_status status;
    rounds_expected = expected;
    rounds_imported = p.rounds_imported;
    registrations_found = p.registrations_found;
    matches_found = p.matches_found;
    players_found = count_distinct_event_players db event_id;
    error_category = category;
    error_summary = summary;
  }

  -- The two writes that close an attempt, settled or failed.
  abbrev pub close_with :
      ℤ → ℕ → SyncStatus → ℕ → ℕ → Progress → Option String → Option String → Db → Result Db
  close_with event_id observed_at status expected at p category summary db =
      set_event_sync_state (closing_state event_id observed_at status at category summary) (
        finish_import_attempt service.uuid
          (import_end event_id status expected at p category summary db) db)

  abbrev pub settled_summary : SyncStatus → ℕ → Progress → Option String
  settled_summary no_results expected p = some "No generated PLAY_VS_OPPONENT rounds were found."
  settled_summary partial expected p = some (
      partial_summary (λ n. service.python.to_str (int n)) p.rounds_imported expected
        p.failed_round_ids)
  settled_summary other expected p = none

  -- The end of the `try` block.
  unfoldable pub settle : ℤ → ℕ → ℕ → Progress → Db → Result (PlayHubImportResult × Db)
  settle event_id observed_at expected p db =
      let status = settled_status expected p.rounds_imported in
      do
        completed_at ← to_utc (service.clock at_end)
        after ←
            close_with event_id observed_at status expected completed_at p (settled_category status)
              (settled_summary status expected p) db
        ok (
          record {
            event_id = event_id;
            status = import_status status;
            rounds_expected = expected;
            rounds_imported = p.rounds_imported;
            registrations_found = p.registrations_found;
            matches_found = p.matches_found;
            players_found = count_distinct_event_players db event_id;
            import_attempt_id = service.uuid;
            failed_round_ids = p.failed_round_ids;
          },
          after,
        )

  -- The handler of an exception behind the opening: it records the failure and raises again.
  unfoldable pub record_failure :
      ℤ → ℕ → ℕ → Error → Progress → Db → Result PlayHubImportResult × Db
  record_failure event_id observed_at expected e p db =
      elim (and_then (to_utc (service.clock at_failure)) (λ failed_at.
        close_with event_id observed_at failed expected failed_at p (some (error_category e))
          (some (service.text_of e)) db)) [
            | ok after ↦ (err e, after)
            | err other ↦ (err other, db)
          ]

  -- The attempt from the end of the loop over the rounds.
  unfoldable pub conclude : ℤ → ℕ → ℕ → Db × Progress → Result PlayHubImportResult × Db
  unfolding settle record_failure
  conclude event_id observed_at expected (db, p) =
      elim (settle event_id observed_at expected p db) [
        | ok (result, after) ↦ (ok result, after)
        | err e ↦ record_failure event_id observed_at expected e p db
      ]

  -- The attempt from the end of its standings' part.
  unfoldable pub continue_attempt :
      ℤ
      → ℕ
      → Bool
      → List PlayHubRound
      → Option Error × (Db × Progress)
      → Result PlayHubImportResult × Db
  unfolding import_rounds conclude record_failure
  continue_attempt event_id observed_at has_standings match_rounds (some e, (db, p)) =
      record_failure event_id observed_at (length match_rounds) e p db
  continue_attempt event_id observed_at has_standings match_rounds (none, (db, p)) =
      conclude event_id observed_at (length match_rounds)
        (import_rounds event_id has_standings match_rounds match_rounds db p)

  -- The attempt once it is open.
  unfoldable pub run_attempt : ℤ → ℕ → EventBundle → Db → Result PlayHubImportResult × Db
  unfolding standings_part continue_attempt
  run_attempt event_id observed_at bundle db =
      let standings = latest_generated_standings_round bundle.rounds in
      continue_attempt event_id observed_at (is_present standings)
        (filter round_should_have_matches bundle.rounds) (standings_part event_id standings db)

  -- The code before the `try` block: the event's data, given or fetched, and its bundle.
  abbrev pub read_bundle : ℤ → Option Fields → ℕ → Result EventBundle
  read_bundle event_id event_data observed_at = do
    data_ ← elim event_data [ none ↦ service.fetch_event_data event_id | some raw ↦ ok raw ]
    parse_event_bundle service.python data_ event_id (service.clock at_start)

  -- What is written before the attempt counts as started.
  abbrev pub begin_attempt : ℤ → Option Fields → Db → Result ((ℕ × EventBundle) × Db)
  begin_attempt event_id event_data db = do
    observed_at ← to_utc (service.clock at_start)
    bundle ← read_bundle event_id event_data observed_at
    opened ← open_attempt service bundle event_id observed_at db
    ok ((observed_at, bundle), opened)

  -- A call whose attempt has not started writes nothing.
  unfoldable pub proceed :
      ℤ → Db → Result ((ℕ × EventBundle) × Db) → Result PlayHubImportResult × Db
  unfolding run_attempt
  proceed event_id db (err e) = (err e, db)
  proceed event_id db (ok ((observed_at, bundle), opened)) =
      run_attempt event_id observed_at bundle opened

  unfoldable pub import_event : ℤ → Option Fields → Db → Result PlayHubImportResult × Db
  unfolding proceed
  import_event event_id event_data db = proceed event_id db (begin_attempt event_id event_data db)
