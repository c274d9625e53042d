-- ===== src/Ratings/Elo/Records.antt =====
-- The bookkeeping of the calculator over any sequence of matches.
use inkspire_lorcana_develop.Prelude.{
  ℕ, suc, ◌+◌, ◌*◌, false, List, [], ◌∷◌, ◌++◌, ◌≡◌, ◌≢◌, refl, ap, arith, length, length-append,
  Bool-cases, inl, inr,
}
use inkspire_lorcana_develop.Ratings.Types.{RatingMatch}
use inkspire_lorcana_develop.Ratings.Elo.{
  Floats, PlayerRating, Players, EloCalculator, HistoryRow, MatchLabel, get_player, put_player,
  is_invalid, advance, outcome, play, process, given_id, is_win, is_loss,
}
use inkspire_lorcana_develop.Ratings.Elo.Players.{
  Every, put_player-Every, get_player-Every, total, total-put_player, get_player-put_player,
}

module _ (F : Floats) where
  -- `_calculate_and_validate`'s loop over the calculator alone: all history rows, in order.
  unfoldable pub process_all :
      EloCalculator F → List RatingMatch → List (HistoryRow F) × EloCalculator F
  process_all c [] = ([], c)
  process_all c (m ∷ ms) =
      let (rows, c') = process F c m in let (more, c'') = process_all c' ms in (rows ++ more, c'')

  -- A player's record adds up.
  abbrev pub AddsUp : PlayerRating F → Type 0
  AddsUp r = r.matches ≡ r.wins + r.losses + r.draws

  pub record IsBalanced (c : EloCalculator F) : Type 0 where
    pub records : Every F AddsUp c.players
    pub matches : total F (λ r. r.matches) c.players ≡ 2 * c.matches_processed
    pub decided : total F (λ r. r.wins) c.players ≡ total F (λ r. r.losses) c.players

  advance-AddsUp :
      (k : Floats.Float F) (old opponent : PlayerRating F) (score : Floats.Float F) (l : MatchLabel)
      → AddsUp old
      → AddsUp (advance F k old opponent score l)
  unfolding advance
  advance-AddsUp k old opponent score l h = ground arith

  -- One player's number before and after the match.
  advance_counts :
      (k : Floats.Float F) (old opponent : PlayerRating F) (score : Floats.Float F) (l : MatchLabel)
      → let new = advance F k old opponent score l in
        (new.matches ≡ old.matches + 1)
        × (new.wins ≡ old.wins + is_win l)
        × (new.losses ≡ old.losses + is_loss l)
  unfolding advance
  advance_counts k old opponent score l = (refl, refl, refl)

  -- Over both players of a match a number moves by the two changes.
  total_both :
      (f : PlayerRating F → ℕ) (p q x y : ℕ) (r s d : PlayerRating F) (ps : Players F)
      → p ≢ q
      → f d ≡ 0
      → f r ≡ f (get_player F p ps d) + x
      → f s ≡ f (get_player F q ps d) + y
      → total F f (put_player F q s (put_player F p r ps)) ≡ total F f ps + x + y
  total_both f p q x y r s d ps differ zero_d hr hs =
      let apart : get_player F q (put_player F p r ps) d ≡ get_player F q ps d =
        ground (arith, get_player-put_player F q p r d ps) in
      omega (
        arith,
        total-put_player F f p r d ps zero_d,
        total-put_player F f q s d (put_player F p r ps) zero_d,
        ap f apart,
      )

  labels_balance :
      (m : RatingMatch) (p : ℕ)
      → let labels = (outcome F m p).1 in
        is_win labels.0 + is_win labels.1 ≡ is_loss labels.0 + is_loss labels.1
  labels_balance m p = ground arith

  play-IsBalanced :
      (c : EloCalculator F) (m : RatingMatch) (p q : ℕ)
      → p ≢ q
      → IsBalanced c
      → IsBalanced (play F c m p q).1
  unfolding play
  play-IsBalanced c m p q differ b =
      let initial : PlayerRating F = record {
        rating = c.starting_rating;
        matches = 0;
        wins = 0;
        losses = 0;
        draws = 0;
        peak = c.starting_rating;
      } in
      let old1 = get_player F p c.players initial in
      let old2 = get_player F q c.players initial in
      let result = outcome F m p in
      let new1 = advance F c.k_factor old1 old2 result.0.0 result.1.0 in
      let new2 = advance F c.k_factor old2 old1 result.0.1 result.1.1 in
      let counts1 = advance_counts c.k_factor old1 old2 result.0.0 result.1.0 in
      let counts2 = advance_counts c.k_factor old2 old1 result.0.1 result.1.1 in
      record {
        records =
            put_player-Every F AddsUp q new2 (put_player F p new1 c.players)
              (advance-AddsUp c.k_factor old2 old1 result.0.1 result.1.1
                (get_player-Every F AddsUp q initial c.players refl b.records))
              (put_player-Every F AddsUp p new1 c.players
                (advance-AddsUp c.k_factor old1 old2 result.0.0 result.1.0
                  (get_player-Every F AddsUp p initial c.players refl b.records))
                b.records);
        matches = omega (
          arith,
          b.matches,
          total_both (λ r. r.matches) p q 1 1 new1 new2 initial c.players differ refl counts1.0
              counts2.0,
        );
        decided = omega (
          arith,
          b.decided,
          labels_balance m p,
          total_both (λ r. r.wins) p q (is_win result.1.0) (is_win result.1.1) new1 new2 initial
              c.players differ refl counts1.1 counts2.1,
          total_both (λ r. r.losses) p q (is_loss result.1.0) (is_loss result.1.1) new1 new2 initial
              c.players differ refl counts1.2 counts2.2,
        );
      }

  valid_differ :
      (m : RatingMatch) → is_invalid m ≡ false → given_id m.player1_id ≢ given_id m.player2_id
  valid_differ m h same = ground arith

  pub process-IsBalanced :
      (c : EloCalculator F) (m : RatingMatch) → IsBalanced c → IsBalanced (process F c m).1
  unfolding process
  process-IsBalanced c m b = elim (Bool-cases (is_invalid m)) [
    | inl bad ↦ rw bad (record { records = b.records; matches = b.matches; decided = b.decided })
    | inr good ↦ rw good (
        play-IsBalanced c m (given_id m.player1_id) (given_id m.player2_id) (valid_differ m good) b)
  ]

  -- What one call of `process` counts.
  pub process_counts :
      (c : EloCalculator F) (m : RatingMatch)
      → let (rows, c') = process F c m in
        (length rows + 2 * c.matches_processed ≡ 2 * c'.matches_processed)
        × (c'.matches_processed + c'.invalid_matches
            ≡ suc (c.matches_processed + c.invalid_matches))
  unfolding process play
  process_counts c m = elim (Bool-cases (is_invalid m)) [
    | inl bad ↦ rw bad (omega arith, omega arith)
    | inr good ↦ rw good (omega arith, omega arith)
  ]

  -- Over any matches the calculator returns two history rows for each match that it processes, and
  -- counts each match once, as processed or as invalid.
  pub process_all_counts :
      (c : EloCalculator F) (ms : List RatingMatch)
      → let (rows, c') = process_all c ms in
        (length rows + 2 * c.matches_processed ≡ 2 * c'.matches_processed)
        × (c'.matches_processed + c'.invalid_matches
            ≡ length ms + (c.matches_processed + c.invalid_matches))
  unfolding process_all
  process_all_counts c [] = (omega arith, omega arith)
  process_all_counts c (m ∷ ms) =
      let (rows, c') = process F c m in
      let (more, c'') = process_all c' ms in
      let one = process_counts c m in
      let rest = process_all_counts c' ms in
      (omega (arith, length-append rows more, one.0, rest.0), omega (arith, one.1, rest.1))
