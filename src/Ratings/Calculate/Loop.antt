-- ===== src/Ratings/Calculate/Loop.antt =====
-- The loop of `_calculate_and_validate` over rows that are contiguous and valid.
use inkspire_lorcana_develop.Prelude.{
  ℕ, suc, ◌+◌, ◌*◌, true, false, List, [], ◌∷◌, ◌++◌, ◌≡◌, refl, ap, subst, ◌∙◌, ◌==◌, leb, length,
  length-append, All, ok, arith, Bool-cases, inl, inr, append-nil,
}
use inkspire_lorcana_develop.Ratings.Types.{RatingRunInput}
use inkspire_lorcana_develop.Ratings.Elo.{
  Floats, EloCalculator, HistoryRow, is_invalid, process, play,
}
use inkspire_lorcana_develop.Ratings.Elo.Records.{IsBalanced, process-IsBalanced}
use inkspire_lorcana_develop.Ratings.Snapshot.{as_rating_match}
use inkspire_lorcana_develop.Ratings.Snapshot.Calculable.{Contiguous}
use inkspire_lorcana_develop.Ratings.Calculate.{Working, flush, tag, calculate_one, calculate_all}

module _ (F : Floats) where
  -- A valid match yields two history rows and is counted once.
  process_valid :
      (c : EloCalculator F) (r : RatingRunInput)
      → is_invalid (as_rating_match r) ≡ false
      → let (rows, c') = process F c (as_rating_match r) in
        (length rows ≡ 2)
        × (c'.matches_processed ≡ suc c.matches_processed)
        × (c'.invalid_matches ≡ c.invalid_matches)
  unfolding process play
  process_valid c r good = rw good (refl, omega arith, refl)

  -- The loop's variables after `n` rows.
  pub record IsAt (n : ℕ) (w : Working F) : Type 0 where
    pub seen : w.seen_inputs ≡ n
    pub processed : w.calculator.matches_processed ≡ n
    pub none_invalid : w.calculator.invalid_matches ≡ 0
    pub entries : length (w.stored ++ w.batch) ≡ n * 2
    pub balanced : IsBalanced F w.calculator

  flush_keeps : (batch_size n : ℕ) (w : Working F) → IsAt n w → IsAt n (flush F batch_size w)
  unfolding flush
  flush_keeps batch_size n w a = elim (Bool-cases (leb batch_size (length w.batch))) [
    | inl full ↦ rw full (record {
      seen = a.seen;
      processed = a.processed;
      none_invalid = a.none_invalid;
      entries = ap (λ l. length l) (append-nil (w.stored ++ w.batch)) ∙ a.entries;
      balanced = a.balanced;
    })
    | inr room ↦ rw room a
  ]

  length-tag : (n : ℕ) (rows : List (HistoryRow F)) → length (tag F n rows) ≡ length rows
  length-tag n [] = refl
  length-tag n (r ∷ rows) = ap suc (length-tag n rows)

  calculate_one-IsAt :
      (batch_size n : ℕ) (r : RatingRunInput) (w : Working F)
      → r.sequence_number ≡ suc n
      → is_invalid (as_rating_match r) ≡ false
      → IsAt n w
      → (w' : Working F) × (calculate_one F batch_size r w ≡ ok w') × IsAt (suc n) w'
  unfolding calculate_one
  calculate_one-IsAt batch_size n r w number good a =
      let rows = (process F w.calculator (as_rating_match r)).0 in
      let p = process_valid w.calculator r good in
      let next : Working F = record {
        calculator = (process F w.calculator (as_rating_match r)).1;
        seen_inputs = suc w.seen_inputs;
        batch = w.batch ++ tag F r.sequence_number rows;
        stored = w.stored;
      } in
      let in_order : (r.sequence_number == suc w.seen_inputs) ≡ true =
        ground (arith, number, a.seen) in
      let both : (length rows == 2) ≡ true = ground (arith, p.0) in
      (
        flush F batch_size next,
        rw in_order (rw both refl),
        flush_keeps batch_size (suc n) next (record {
          seen = ap suc a.seen;
          processed = p.1 ∙ ap suc a.processed;
          none_invalid = p.2 ∙ a.none_invalid;
          entries = omega (
            arith,
            length-append w.stored next.batch,
            length-append w.batch (tag F r.sequence_number rows),
            length-append w.stored w.batch,
            length-tag r.sequence_number rows,
            a.entries,
            p.0,
          );
          balanced = process-IsBalanced F w.calculator (as_rating_match r) a.balanced;
        }),
      )

  pub calculate_all-IsAt :
      (batch_size n : ℕ) (rs : List RatingRunInput) (w : Working F)
      → Contiguous n rs
      → All (λ r. is_invalid (as_rating_match r) ≡ false) rs
      → IsAt n w
      → (w' : Working F) × (calculate_all F batch_size rs w ≡ ok w') × IsAt (n + length rs) w'
  unfolding calculate_all
  calculate_all-IsAt batch_size n [] w numbers good a =
      (w, refl, subst (λ k. IsAt k w) (omega arith) a)
  calculate_all-IsAt batch_size n (r ∷ rs) w numbers good a =
      let (w1, one, at1) = calculate_one-IsAt batch_size n r w numbers.0 good.0 a in
      let (w2, rest, at2) = calculate_all-IsAt batch_size (suc n) rs w1 numbers.1 good.1 at1 in
      (w2, rw one rest, subst (λ k. IsAt k w2) (omega arith) at2)
