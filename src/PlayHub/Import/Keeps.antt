-- ===== src/PlayHub/Import/Keeps.antt =====
-- The parts of an import between its opening and its closing transaction leave the ingestion state alone,
-- and the loop over the rounds counts each of them.
use inkspire_lorcana_develop.Prelude.{
  ℕ, suc, ◌+◌, Bool, false, if◌then◌else◌, List, [], ◌∷◌, length, length-append, Option, none, some,
  ℤ, Items, ok, and_then-eq-ok, and_then-elim, ok-injective, Result-cases, ◌≡◌, refl, sym, ap, ◌∙◌,
  arith, inl, inr,
}
use inkspire_lorcana_develop.PlayHub.Types.{
  PlayHubStore, PlayHubRound, EventBundle, StandingsBundle, MatchBundle,
}
use inkspire_lorcana_develop.PlayHub.Tables.{Db}
use inkspire_lorcana_develop.PlayHub.Facts.{
  each, upsert_event, upsert_phase, upsert_round, upsert_player, upsert_registration, upsert_match,
}
use inkspire_lorcana_develop.PlayHub.Facts.Keeps.{
  ingestion, frame, each-keeps, upsert_store-keeps, upsert_event-keeps, upsert_phase-keeps,
  upsert_round-keeps, upsert_player-keeps, upsert_registration-keeps, upsert_match-keeps,
}
use inkspire_lorcana_develop.PlayHub.Parser.Results.{parse_standings}
use inkspire_lorcana_develop.PlayHub.Import.{
  at_standings, ImportService, Progress, is_last_round, write_store, persist_event_bundle,
  write_standings, write_match, import_standings, parse_matches, paired_standings, write_paired,
  round_body,
}
use inkspire_lorcana_develop.PlayHub.Import.Attempt.{import_round, import_rounds, standings_part}

module _ (service : ImportService) where
  write_store-keeps :
      (store : Option PlayHubStore) (db after : Db)
      → write_store service store db ≡ ok after
      → frame after ≡ frame db
  write_store-keeps none db after e = ap frame (sym (ok-injective e))
  write_store-keeps (some store) db after e = upsert_store-keeps service.refuses store db after e

  pub persist_event_bundle-keeps :
      (bundle : EventBundle) (db after : Db)
      → persist_event_bundle service bundle db ≡ ok after
      → ingestion after ≡ ingestion db
  persist_event_bundle-keeps bundle db after e =
      and_then-elim (write_store service bundle.store db) e (λ d₁ stored e.
        and_then-elim (upsert_event service.refuses bundle.event d₁) e (λ d₂ evented e.
          and_then-elim (each (upsert_phase service.refuses) bundle.phases d₂) e (λ d₃ phased e.
            ap (λ v. v.0)
              (each-keeps frame (upsert_round service.refuses) bundle.rounds d₃
                  (upsert_round-keeps service.refuses) e
                ∙ each-keeps frame (upsert_phase service.refuses) bundle.phases d₂
                    (upsert_phase-keeps service.refuses) phased)
            ∙ upsert_event-keeps service.refuses bundle.event d₁ d₂ evented
            ∙ ap (λ v. v.0) (write_store-keeps bundle.store db d₁ stored))))

  write_standings-keeps :
      (bundle : StandingsBundle) (db after : Db)
      → write_standings service bundle db ≡ ok after
      → frame after ≡ frame db
  write_standings-keeps bundle db after e =
      let (d, players, registrations) =
        and_then-eq-ok (each (upsert_player service.refuses) bundle.players db)
          (each (upsert_registration service.refuses) bundle.registrations) e in
      each-keeps frame (upsert_registration service.refuses) bundle.registrations d
        (upsert_registration-keeps service.refuses) registrations
      ∙ each-keeps frame (upsert_player service.refuses) bundle.players db
          (upsert_player-keeps service.refuses) players

  write_match-keeps :
      (bundle : MatchBundle) (db after : Db)
      → write_match service bundle db ≡ ok after
      → frame after ≡ frame db
  write_match-keeps bundle db after e =
      let (d, players, written) =
        and_then-eq-ok (each (upsert_player service.refuses) bundle.players db)
          (upsert_match service.refuses bundle.match_) e in
      upsert_match-keeps service.refuses bundle.match_ d after written
      ∙ each-keeps frame (upsert_player service.refuses) bundle.players db
          (upsert_player-keeps service.refuses) players

  write_paired-keeps :
      (paired : Option StandingsBundle) (db after : Db)
      → write_paired service paired db ≡ ok after
      → frame after ≡ frame db
  write_paired-keeps none db after e = ap frame (sym (ok-injective e))
  write_paired-keeps (some bundle) db after e = write_standings-keeps bundle db after e

  round_body-keeps :
      (event_id round_id : ℤ) (pairing : Bool) (db after : Db) {n : ℕ × ℕ}
      → round_body service event_id round_id pairing db ≡ ok (n, after)
      → frame after ≡ frame db
  round_body-keeps event_id round_id pairing db after {n} e =
      and_then-elim (service.fetch_all_round_matches round_id) e (λ raws fetched e.
        and_then-elim (parse_matches service event_id round_id 0 raws) e (λ parsed were_parsed e.
          and_then-elim (paired_standings service event_id round_id pairing raws) e
            (λ paired read e. and_then-elim (write_paired service paired db) e (λ d standings e.
              and_then-elim (each (write_match service) parsed d) e (λ d' matches e.
                let same : d' ≡ after = ap (λ p. p.1) (ok-injective e) in
                ap frame (sym same)
                ∙ each-keeps frame (write_match service) parsed d write_match-keeps matches
                ∙ write_paired-keeps paired db d standings)))))

  import_standings-keeps :
      (event_id : ℤ) (raws : Items) (db after : Db)
      → import_standings service event_id raws db ≡ ok after
      → frame after ≡ frame db
  import_standings-keeps event_id raws db after e =
      and_then-elim (parse_standings service.python event_id raws (service.clock at_standings)) e
        (λ bundle parsed e. write_standings-keeps bundle db after e)

  abbrev pub passed : Progress → ℕ
  passed p = p.rounds_imported + length p.failed_round_ids

  pub standings_part-keeps :
      (event_id : ℤ) (standings : Option PlayHubRound) (db : Db)
      → (frame (standings_part service event_id standings db).1.0 ≡ frame db)
        × (passed (standings_part service event_id standings db).1.1 ≡ 0)
  unfolding standings_part
  standings_part-keeps event_id none db = (refl, refl)
  standings_part-keeps event_id (some r) db =
      elim (Result-cases (service.fetch_all_standings r.round_id)) [
        | inr (x, lost) ↦ rw (lost, standings_part) (refl, refl)
        | inl (raws, fetched) ↦ elim (Result-cases (import_standings service event_id raws db)) [
          | inr (x, bad) ↦ rw (fetched, bad, standings_part) (refl, refl)
          | inl (after, good) ↦
              rw (fetched, good, standings_part)
                (import_standings-keeps event_id raws db after good, refl)
        ]
      ]

  import_round-keeps :
      (event_id : ℤ) (has_standings : Bool) (match_rounds : List PlayHubRound) (r : PlayHubRound)
      (db : Db) (p : Progress)
      → (frame (import_round service event_id has_standings match_rounds r db p).0 ≡ frame db)
        × (passed (import_round service event_id has_standings match_rounds r db p).1
            ≡ suc (passed p))
  unfolding import_round
  import_round-keeps event_id has_standings match_rounds r db p =
      let pairing = if has_standings then false else is_last_round service.python match_rounds r in
      elim (Result-cases (round_body service event_id r.round_id pairing db)) [
        | inr (x, bad) ↦
            rw (bad, import_round)
              (refl, omega (arith, length-append p.failed_round_ids (r.round_id ∷ [])))
        | inl ((n, after), good) ↦
            rw (good, import_round)
              (round_body-keeps event_id r.round_id pairing db after good, omega arith)
      ]

  pub import_rounds-keeps :
      (event_id : ℤ) (has_standings : Bool) (match_rounds rs : List PlayHubRound) (db : Db)
      (p : Progress)
      → (frame (import_rounds service event_id has_standings match_rounds rs db p).0 ≡ frame db)
        × (passed (import_rounds service event_id has_standings match_rounds rs db p).1
            ≡ passed p + length rs)
  unfolding import_rounds
  import_rounds-keeps event_id has_standings match_rounds [] db p = (refl, omega arith)
  import_rounds-keeps event_id has_standings match_rounds (r ∷ rs) db p =
      let (after, q) = import_round service event_id has_standings match_rounds r db p in
      let (kept, counted) = import_round-keeps event_id has_standings match_rounds r db p in
      let (rest, total) = import_rounds-keeps event_id has_standings match_rounds rs after q in
      (rest ∙ kept, omega (arith, counted, total))
