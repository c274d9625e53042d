-- ===== src/Ratings/Snapshot/Preview.antt =====
-- `preview_source` beside `_snapshot` (src/lorcana/ratings/service.py).
use inkspire_lorcana_develop.Prelude.{
  ℕ, suc, ◌+◌, String, List, [], ◌∷◌, ◌++◌, ◌≡◌, sym, ◌∙◌, length, ok, and_then, arith, Bool-cases,
  inl, inr, append-nil, append_assoc,
}
use inkspire_lorcana_develop.Ratings.Types.{RatingCandidate, RatingRunInput}
use inkspire_lorcana_develop.Ratings.Policy.{Policy, evaluate}
use inkspire_lorcana_develop.Ratings.Policy.Eligible.{evaluate_included}
use inkspire_lorcana_develop.Ratings.Snapshot.{
  Counter, no_exclusions, increment, snapshot, preview_all, preview_source,
}
use inkspire_lorcana_develop.Ratings.Snapshot.Batches.{
  row_of, run_input-row_of, numbered, excluded, snapshot_ok,
}

start_zero : (n : ℕ) → 0 + n ≡ n
start_zero n = omega arith

module _ (policy : Policy) (hexdigest : List RatingRunInput → String) where
  preview_all_expected :
      (cs : List RatingCandidate) (included : ℕ) (exclusions : Counter)
      (hashed : List RatingRunInput)
      → preview_all hexdigest policy cs included exclusions hashed
        ≡ ok (
          included + length (numbered policy included cs),
          hexdigest (hashed ++ numbered policy included cs),
          excluded policy exclusions cs,
        )
  unfolding preview_all numbered excluded
  preview_all_expected [] included exclusions hashed =
      let same : included ≡ included + 0 = omega arith in
      λ i. ok (same i, hexdigest (sym (append-nil hashed) i), exclusions)
  preview_all_expected (c ∷ cs) included exclusions hashed =
      elim (Bool-cases (evaluate policy c).included) [
        | inl counted ↦
            let row = row_of (suc included) c in
            let rest = numbered policy (suc included) cs in
            let same : suc included + length rest ≡ included + suc (length rest) = omega arith in
            rw (counted, run_input-row_of (suc included) c (evaluate_included policy c counted))
              (preview_all_expected cs (suc included) exclusions (hashed ++ row ∷ []) ∙ (λ i. ok (
                same i,
                hexdigest (append_assoc hashed (row ∷ []) rest i),
                excluded policy exclusions cs,
              )))
        | inr out ↦ rw out (
            preview_all_expected cs included (increment (evaluate policy c).reason exclusions)
              hashed)
      ]

  -- A preview returns the count, the digest and the exclusions that the snapshot of the same
  -- candidates records, whatever the batch size.
  pub preview_source_agrees :
      (batch_size : ℕ) (cs : List RatingCandidate)
      → preview_source hexdigest policy cs
        ≡ and_then
            (snapshot hexdigest policy batch_size cs)
            (λ s. ok (s.input_count, s.ordered_input_digest, s.exclusion_counts))
  unfolding preview_source
  preview_source_agrees batch_size cs = rw (snapshot_ok policy hexdigest batch_size cs) (
      preview_all_expected cs 0 no_exclusions [] ∙ (λ i. ok (
        start_zero (length (numbered policy 0 cs)) i,
        hexdigest (numbered policy 0 cs),
        excluded policy no_exclusions cs,
      )))
