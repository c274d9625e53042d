-- ===== src/PlayHub/Import/Settled.antt =====
-- The two transactions around an import attempt: what opening it writes and what closing it leaves.
use inkspire_lorcana_develop.Prelude.{
  ℕ, String, true, false, [], ◌∷◌, ◌++◌, any, find, update_where, update_where-new, Option, none,
  some, ℤ, eqb_ℤ, eqb_ℤ_refl, ok, and_then-elim, ok-injective, ◌≡◌, refl, sym, ap, subst, ◌∙◌,
  ==_refl,
}
use inkspire_lorcana_develop.PlayHub.Types.{EventBundle}
use inkspire_lorcana_develop.PlayHub.Tables.{
  Db, ImportAttempt, SyncState, SyncStatus, complete, has_event, upsert,
}
use inkspire_lorcana_develop.PlayHub.Facts.Keeps.{frame, find-upsert}
use inkspire_lorcana_develop.PlayHub.Sync.{
  is_state_of, is_attempt, running_attempt, start_import_attempt, finished_attempt, merge_state,
  finish_import_attempt, set_event_sync_state,
}
use inkspire_lorcana_develop.PlayHub.Sync.Writes.{
  start_import_attempt-ok, set_event_sync_state-known,
}
use inkspire_lorcana_develop.PlayHub.Import.{
  ImportService, Progress, import_status, opening_state, open_attempt, persist_event_bundle,
}
use inkspire_lorcana_develop.PlayHub.Import.Attempt.{closing_state, import_end, close_with}
use inkspire_lorcana_develop.PlayHub.Import.Keeps.{persist_event_bundle-keeps}

abbrev success_of : Option SyncState → Option ℕ
success_of none = none
success_of (some s) = s.last_success_at

-- The time of the last success, after an attempt that ended in a status.
abbrev pub success_after : SyncStatus → Option ℕ → Option SyncState → Option ℕ
success_after complete at old = at
success_after other at old = success_of old

-- The attempt is settled, and the event's state agrees with it.
abbrev pub Settled : ℕ → Db → ℤ → SyncStatus → ImportAttempt → Db → Type 0
Settled uuid before event_id status a after =
    (st : SyncState) × (after.attempts ≡ before.attempts ++ a ∷ [])
    × (a.import_attempt_id ≡ uuid)
    × (a.event_id ≡ event_id)
    × (a.status ≡ import_status status)
    × (find (is_state_of event_id) after.sync_states ≡ some st)
    × (st.state ≡ status)
    × (st.last_success_at
        ≡ success_after status a.completed_at (find (is_state_of event_id) before.sync_states))

-- The tables once the attempt is open.
abbrev pub IsOpen : ℕ → Db → ℤ → ℕ → Db → Type 0
IsOpen uuid before event_id observed_at opened =
    (opened.attempts ≡ before.attempts ++ running_attempt uuid event_id observed_at ∷ [])
    × (any (is_attempt uuid) before.attempts ≡ false)
    × (has_event event_id opened ≡ true)
    × (opened.sync_states
        ≡ upsert (is_state_of event_id) (merge_state (opening_state event_id observed_at))
            (opening_state event_id observed_at) before.sync_states)

-- The row of an upsert: the new one, or the old one rewritten.
abbrev reopen : SyncState → Option SyncState → SyncState
reopen new none = new
reopen new (some old) = merge_state new old

reopen-success :
    (event_id : ℤ) (observed_at : ℕ) (old : Option SyncState)
    → (reopen (opening_state event_id observed_at) old).last_success_at ≡ success_of old
reopen-success event_id observed_at none = refl
reopen-success event_id observed_at (some s) = refl

success_kept :
    (event_id : ℤ) (observed_at : ℕ) (status : SyncStatus) (at : ℕ)
    (category summary : Option String) (old : Option SyncState)
    → (merge_state
        (closing_state event_id observed_at status at category summary)
        (reopen (opening_state event_id observed_at) old)).last_success_at
      ≡ success_after status (some at) old
success_kept event_id observed_at complete at category summary old = refl
success_kept event_id observed_at other at category summary old =
    reopen-success event_id observed_at old

module _ (service : ImportService) where
  pub open_attempt-IsOpen :
      (bundle : EventBundle) (event_id : ℤ) (observed_at : ℕ) (before opened : Db)
      → open_attempt service bundle event_id observed_at before ≡ ok opened
      → IsOpen service.uuid before event_id observed_at opened
  unfolding start_import_attempt set_event_sync_state
  open_attempt-IsOpen bundle event_id observed_at before opened e =
      and_then-elim (persist_event_bundle service bundle before) e (λ d persisted e.
        let kept = persist_event_bundle-keeps service bundle before d persisted in
        and_then-elim (start_import_attempt service.uuid event_id observed_at d) e (λ d' started e.
          let (fresh, known, is) =
            start_import_attempt-ok service.uuid event_id observed_at d started in
          let opening = opening_state event_id observed_at in
          let written : Db = record d {
            attempts = d.attempts ++ running_attempt service.uuid event_id observed_at ∷ [];
            sync_states = upsert (is_state_of event_id) (merge_state opening) opening d.sync_states;
          } in
          let same : written ≡ opened = ok-injective (
            sym (
              set_event_sync_state-known opening
                (record d {
                  attempts = d.attempts ++ running_attempt service.uuid event_id observed_at ∷ [];
                })
                known)
            ∙ ap (set_event_sync_state opening) is
            ∙ e) in
          subst (IsOpen service.uuid before event_id observed_at) same (
            ap (λ v. v.0 ++ running_attempt service.uuid event_id observed_at ∷ []) kept,
            ap (λ v. any (is_attempt service.uuid) v.0) (sym kept) ∙ fresh,
            known,
            ap (λ v. upsert (is_state_of event_id) (merge_state opening) opening v.1) kept,
          )))

  pub close_with-Settled :
      (event_id : ℤ) (observed_at : ℕ) (status : SyncStatus) (expected at : ℕ) (p : Progress)
      (category summary : Option String) (before opened db : Db)
      → IsOpen service.uuid before event_id observed_at opened
      → frame db ≡ frame opened
      → (after : Db) × (close_with service event_id observed_at status expected at p category
            summary db
          ≡ ok after)
        × Settled service.uuid before event_id status
            (finished_attempt
              (import_end service event_id status expected at p category summary db)
              (running_attempt service.uuid event_id observed_at))
            after
  unfolding set_event_sync_state finish_import_attempt
  close_with-Settled event_id observed_at status expected at p category summary before opened db
        (appended, fresh, known, states) same =
      let opening = opening_state event_id observed_at in
      let closing = closing_state event_id observed_at status at category summary in
      let v = import_end service event_id status expected at p category summary db in
      let found = is_state_of event_id in
      let old = find found before.sync_states in
      let still : has_event event_id db ≡ true =
        ap (λ f. any (λ e. eqb_ℤ e.event_id event_id) f.1) same ∙ known in
      let finished : Db = record db {
        attempts = update_where (is_attempt service.uuid) (finished_attempt v) db.attempts;
      } in
      let reopened : find found db.sync_states ≡ some (reopen opening old) =
        ap (λ f. find found f.0.1) same
        ∙ ap (find found) states
        ∙ find-upsert found (merge_state opening) opening before.sync_states (eqb_ℤ_refl event_id)
            (λ x. refl) in
      (
        record finished { sync_states = upsert found (merge_state closing) closing db.sync_states },
        set_event_sync_state-known closing finished still,
        (
          merge_state closing (reopen opening old),
          ap (λ f. update_where (is_attempt service.uuid) (finished_attempt v) f.0.0) same
              ∙ ap (update_where (is_attempt service.uuid) (finished_attempt v)) appended
              ∙ update_where-new (is_attempt service.uuid) (finished_attempt v) before.attempts
                  (running_attempt service.uuid event_id observed_at) fresh (==_refl service.uuid),
          refl,
          refl,
          refl,
          find-upsert found (merge_state closing) closing db.sync_states (eqb_ℤ_refl event_id)
                (λ x. refl)
              ∙ ap (λ o. some (reopen closing o)) reopened,
          refl,
          success_kept event_id observed_at status at category summary old,
        ),
      )
