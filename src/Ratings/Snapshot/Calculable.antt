-- ===== src/Ratings/Snapshot/Calculable.antt =====
-- The rows of a snapshot as the input of `_calculate_and_validate`.
use inkspire_lorcana_develop.Prelude.{
  ℕ, suc, false, List, [], ◌∷◌, ◌≡◌, refl, All, arith, Bool-cases, inl, inr,
}
use inkspire_lorcana_develop.Ratings.Types.{RatingCandidate, RatingRunInput}
use inkspire_lorcana_develop.Ratings.Policy.{Policy, evaluate}
use inkspire_lorcana_develop.Ratings.Policy.Eligible.{IsRateable, evaluate_included}
use inkspire_lorcana_develop.Ratings.Elo.{is_invalid}
use inkspire_lorcana_develop.Ratings.Snapshot.{as_rating_match}
use inkspire_lorcana_develop.Ratings.Snapshot.Batches.{row_of, numbered}

-- A rateable candidate's row is a valid match.
row_of-valid :
    (n : ℕ) (c : RatingCandidate) → IsRateable c → is_invalid (as_rating_match (row_of n c)) ≡ false
row_of-valid n c r =
    let (p, first) = r.first in
    let (q, second) = r.second in
    let differ = r.differ in let decided = r.decided in ground (arith, first, second)

-- The rows are numbered on from `n`.
abbrev pub Contiguous : ℕ → List RatingRunInput → Type 0
Contiguous n [] = Unit
Contiguous n (r ∷ rs) = (r.sequence_number ≡ suc n) × Contiguous (suc n) rs

module _ (policy : Policy) where
  pub numbered-Contiguous :
      (n : ℕ) (cs : List RatingCandidate) → Contiguous n (numbered policy n cs)
  unfolding numbered
  numbered-Contiguous n [] = tt
  numbered-Contiguous n (c ∷ cs) = elim (Bool-cases (evaluate policy c).included) [
    | inl counted ↦ rw counted (refl, numbered-Contiguous (suc n) cs)
    | inr out ↦ rw out (numbered-Contiguous n cs)
  ]

  pub numbered-valid :
      (n : ℕ) (cs : List RatingCandidate)
      → All (λ r. is_invalid (as_rating_match r) ≡ false) (numbered policy n cs)
  unfolding numbered
  numbered-valid n [] = tt
  numbered-valid n (c ∷ cs) = elim (Bool-cases (evaluate policy c).included) [
    | inl counted ↦
        rw counted
          (row_of-valid (suc n) c (evaluate_included policy c counted), numbered-valid (suc n) cs)
    | inr out ↦ rw out (numbered-valid n cs)
  ]
