-- ===== src/PlayHub/Facts/Keeps.antt =====
-- The upserts of source facts leave the ingestion state alone.
use inkspire_lorcana_develop.Prelude.{
  Bool, true, List, [], ◌∷◌, find, Option, none, some, Result, ok, and_then-eq-ok, ok-injective,
  Error, ◌≡◌, refl, sym, ap, ◌∙◌, arith, Bool-cases, Option-cases, inl, inr,
}
use inkspire_lorcana_develop.PlayHub.Types.{
  PlayHubStore, PlayHubEvent, PlayHubPhase, PlayHubRound, PlayHubPlayer, PlayHubRegistration,
  PlayHubMatch,
}
use inkspire_lorcana_develop.PlayHub.Tables.{
  Db, Row, SyncState, ImportAttempt, store_row, player_row, upsert, admit,
}
use inkspire_lorcana_develop.PlayHub.Facts.{
  upsert_store, upsert_event, upsert_phase, upsert_round, upsert_player, upsert_registration,
  upsert_match, each,
}

-- The part of the tables that an import attempt settles.
abbrev pub ingestion : Db → List ImportAttempt × List SyncState
ingestion db = (db.attempts, db.sync_states)

-- With the events that this part refers to.
abbrev pub frame : Db → (List ImportAttempt × List SyncState) × List PlayHubEvent
frame db = (ingestion db, db.events)

pub admit-ok :
    (refuses : Row → Option Error) (row : Row) (holds : Bool) (after : Db) {db : Db}
    → admit refuses row holds after ≡ ok db
    → after ≡ db
admit-ok refuses row holds after e = elim (Option-cases (refuses row)) [
  | inr (x, refused) ↦ absurd (ground (arith, refused, e))
  | inl accepted ↦ elim (Bool-cases holds) [
    | inl fine ↦ ground (arith, accepted, fine, e)
    | inr broken ↦ absurd (ground (arith, accepted, broken, e))
  ]
]

pub each-keeps {ℓ} :
    {A : Type ℓ} {V : Type 0} (view : Db → V) (f : A → Db → Result Db) (xs : List A) (db : Db)
    {after : Db}
    → ((x : A) (d e : Db) → f x d ≡ ok e → view e ≡ view d)
    → each f xs db ≡ ok after
    → view after ≡ view db
each-keeps view f [] db keeps e = ap view (sym (ok-injective e))
each-keeps view f (x ∷ xs) db keeps e =
    let (d, first, rest) = and_then-eq-ok (f x db) (each f xs) e in
    each-keeps view f xs d keeps rest ∙ keeps x db d first

-- Finding the row that an upsert wrote.
pub find-upsert {ℓ} :
    {A : Type ℓ} (same : A → Bool) (merge : A → A) (new : A) (xs : List A)
    → same new ≡ true
    → ((x : A) → same (merge x) ≡ same x)
    → find same (upsert same merge new xs)
      ≡ some (elim (find same xs) [ none ↦ new | some x ↦ merge x ])
find-upsert same merge new [] h keeps = rw h refl
find-upsert same merge new (x ∷ xs) h keeps = elim (Bool-cases (same x)) [
  | inl here ↦ rw (here, keeps x, here) refl
  | inr there ↦ rw (there, there) (find-upsert same merge new xs h keeps)
]

module _ (refuses : Row → Option Error) where
  pub upsert_store-keeps :
      (s : PlayHubStore) (db after : Db)
      → upsert_store refuses s db ≡ ok after
      → frame after ≡ frame db
  unfolding upsert_store
  upsert_store-keeps s db after e = ap frame (sym (admit-ok refuses (store_row s) true _ e))

  pub upsert_event-keeps :
      (r : PlayHubEvent) (db after : Db)
      → upsert_event refuses r db ≡ ok after
      → ingestion after ≡ ingestion db
  unfolding upsert_event
  upsert_event-keeps r db after e = ap ingestion (sym (admit-ok refuses _ _ _ e))

  pub upsert_phase-keeps :
      (p : PlayHubPhase) (db after : Db)
      → upsert_phase refuses p db ≡ ok after
      → frame after ≡ frame db
  unfolding upsert_phase
  upsert_phase-keeps p db after e = ap frame (sym (admit-ok refuses _ _ _ e))

  pub upsert_round-keeps :
      (r : PlayHubRound) (db after : Db)
      → upsert_round refuses r db ≡ ok after
      → frame after ≡ frame db
  unfolding upsert_round
  upsert_round-keeps r db after e = ap frame (sym (admit-ok refuses _ _ _ e))

  pub upsert_player-keeps :
      (p : PlayHubPlayer) (db after : Db)
      → upsert_player refuses p db ≡ ok after
      → frame after ≡ frame db
  unfolding upsert_player
  upsert_player-keeps p db after e = ap frame (sym (admit-ok refuses (player_row p) true _ e))

  pub upsert_registration-keeps :
      (r : PlayHubRegistration) (db after : Db)
      → upsert_registration refuses r db ≡ ok after
      → frame after ≡ frame db
  unfolding upsert_registration
  upsert_registration-keeps r db after e = ap frame (sym (admit-ok refuses _ _ _ e))

  pub upsert_match-keeps :
      (m : PlayHubMatch) (db after : Db)
      → upsert_match refuses m db ≡ ok after
      → frame after ≡ frame db
  unfolding upsert_match
  upsert_match-keeps m db after e = ap frame (sym (admit-ok refuses _ _ _ e))
