-- ===== src/Ratings/Policy/Eligible.antt =====
-- Which matches the policies let into a rating run.
use inkspire_lorcana_develop.Prelude.{
  ℕ, String, true, false, Option, none, some, ◌≡◌, ◌≢◌, ◌↔◌, ◌⊎◌, arith, key_eq, key_eq→eq,
  key_eq_self, eq→key_eq, inl, inr, Bool-cases,
}
use inkspire_lorcana_develop.Ratings.Types.{RatingCandidate}
use inkspire_lorcana_develop.Ratings.Policy.{
  legacy_evaluate, global_evaluate, is_accepted_format, Policy, legacy_parity_v1, global_elo_v1,
  evaluate,
}

-- A match that can be rated: complete, between two different known players, decided by one of them or
-- drawn, in an event with a start time.
pub record IsRateable (c : RatingCandidate) : Type 0 where
  pub complete : c.match_status ≡ some "COMPLETE"
  pub no_bye : c.is_bye ≡ false
  pub no_ghost : c.is_ghost_match ≡ false
  pub two : c.participant_count ≡ some 2
  pub first : (p : ℕ) × (c.player1_id ≡ some p)
  pub second : (p : ℕ) × (c.player2_id ≡ some p)
  pub differ : c.player1_id ≢ c.player2_id
  pub decided :
      ((c.winner_id ≡ none) × (c.is_draw ≡ true))
      ⊎ ((c.winner_id ≢ none) × ((c.winner_id ≡ c.player1_id) ⊎ (c.winner_id ≡ c.player2_id)))
  pub started : (t : ℕ) × (c.event_start_datetime ≡ some t)

-- What the legacy policy includes is rateable.
legacy_included : (c : RatingCandidate) → (legacy_evaluate c).included ≡ true → IsRateable c
unfolding legacy_evaluate
legacy_included c h = record {
  complete = key_eq→eq c.match_status "COMPLETE" (ground arith);
  no_bye = ground arith;
  no_ghost = ground arith;
  two = ground arith;
  first = ground arith;
  second = ground arith;
  differ = ground arith;
  decided = ground arith;
  started = ground arith;
}

pub evaluate_included :
    (p : Policy) (c : RatingCandidate) → (evaluate p c).included ≡ true → IsRateable c
unfolding evaluate legacy_evaluate global_evaluate
evaluate_included legacy_parity_v1 c h = legacy_included c h
evaluate_included global_elo_v1 c h = legacy_included c (ground arith)

module _ (c : RatingCandidate) (r : IsRateable c) where
  rateable_status : key_eq c.match_status "COMPLETE" ≡ true
  rateable_status = rw (r.complete, key_eq) (key_eq_self "COMPLETE")

  legacy_includes : (legacy_evaluate c).included ≡ true
  unfolding legacy_evaluate
  legacy_includes =
      let (p, first) = r.first in
      let (q, second) = r.second in
      let (t, started) = r.started in
      let two = r.two in
      let differ = r.differ in
      let decided = r.decided in ground (arith, rateable_status, r.no_bye, r.no_ghost)

accepted_format :
    (f : Option String)
    → (is_accepted_format f ≡ true)
      ↔ ((f ≡ some "Core Constructed") ⊎ (f ≡ some "Infinity Constructed"))
accepted_format f = (
  (λ h. elim (Bool-cases (key_eq f "Core Constructed")) [
    | inl core ↦ inl (key_eq→eq f "Core Constructed" core)
    | inr other ↦ inr (key_eq→eq f "Infinity Constructed" (ground arith))
  ]),
  λ either. elim either [
    | inl core ↦ ground (arith, eq→key_eq f "Core Constructed" core)
    | inr infinity ↦ ground (arith, eq→key_eq f "Infinity Constructed" infinity)
  ],
)

-- The legacy policy includes exactly the rateable matches (complete, neither bye nor ghost,
-- between two different known players, decided by one of them or drawn, with a start time), and
-- the global policy those among them of an accepted format in a completely imported event.
pub evaluate_iff :
    (c : RatingCandidate)
    → (((evaluate legacy_parity_v1 c).included ≡ true) ↔ IsRateable c)
      × (((evaluate global_elo_v1 c).included ≡ true) ↔ (
          IsRateable c
          × ((c.event_format ≡ some "Core Constructed")
              ⊎ (c.event_format ≡ some "Infinity Constructed"))
          × (c.event_sync_state ≡ some "complete")))
unfolding evaluate global_evaluate
evaluate_iff c = (
  (legacy_included c, legacy_includes c),
  (
    (λ h. (
      legacy_included c (ground arith),
      (accepted_format c.event_format).0 (ground arith),
      key_eq→eq c.event_sync_state "complete" (ground arith),
    )),
    λ (r, format, sync). ground (
      arith,
      legacy_includes c r,
      (accepted_format c.event_format).1 format,
      eq→key_eq c.event_sync_state "complete" sync,
    ),
  ),
)
