-- ===== src/Ratings/Snapshot/Batches.antt =====
-- The loop of `_snapshot` beside a description of the rows without batches.
use inkspire_lorcana_develop.Prelude.{
  leb, Bool, not, ◌&&◌, ◌==◌, count_where, ℕ, suc, ◌+◌, String, true, Option, none, some, List, [],
  ◌∷◌, ◌++◌, ◌≡◌, refl, sym, ap, ◌∙◌, if◌then◌else◌, length, ok, arith, Bool-cases, inl, inr,
  append-nil, append_assoc,
}
use inkspire_lorcana_develop.Ratings.Types.{RatingCandidate, RatingRunInput, Reason}
use inkspire_lorcana_develop.Ratings.Policy.{Policy, evaluate}
use inkspire_lorcana_develop.Ratings.Policy.Eligible.{IsRateable, evaluate_included}
use inkspire_lorcana_develop.Ratings.Snapshot.{
  Counter, reason_code, no_exclusions, increment, run_input, Progress, start, add_row, visit,
  visit_all, Snapshot, snapshot,
}

-- The row of a rateable candidate.
abbrev given {ℓ} : {A : Type ℓ} → A → Option A → A
given d none = d
given d (some a) = a

abbrev pub row_of : ℕ → RatingCandidate → RatingRunInput
row_of sequence c = record {
  sequence_number = sequence;
  match_id = c.match_id;
  event_id = c.event_id;
  event_start_datetime = given 0 c.event_start_datetime;
  phase_order = c.phase_order;
  round_number = c.round_number;
  player1_id = given 0 c.player1_id;
  player2_id = given 0 c.player2_id;
  winner_id = c.winner_id;
  is_draw = c.is_draw;
}

pub run_input-row_of :
    (sequence : ℕ) (c : RatingCandidate)
    → IsRateable c
    → run_input sequence c ≡ ok (row_of sequence c)
unfolding run_input
run_input-row_of sequence c r =
    let (p, first) = r.first in
    let (q, second) = r.second in let (t, started) = r.started in ground arith

module _ (policy : Policy) where
  -- The included candidates in order, numbered on from a count.
  unfoldable pub numbered : ℕ → List RatingCandidate → List RatingRunInput
  numbered n [] = []
  numbered n (c ∷ cs) =
      let counted = row_of (suc n) c ∷ numbered (suc n) cs in
      let excluded = numbered n cs in if (evaluate policy c).included then counted else excluded

  -- How often each reason excludes.
  unfoldable pub excluded : Counter → List RatingCandidate → Counter
  excluded count [] = count
  excluded count (c ∷ cs) =
      excluded
        (if (evaluate policy c).included then count else increment (evaluate policy c).reason count)
        cs

  -- A candidate that the policy excludes for the given reason.
  abbrev pub is_excluded_for : Reason → RatingCandidate → Bool
  is_excluded_for r c =
      not (evaluate policy c).included && reason_code r == reason_code (evaluate policy c).reason

  excluded_count :
      (r : Reason) (count : Counter) (cs : List RatingCandidate)
      → excluded count cs r ≡ count r + count_where (is_excluded_for r) cs
  unfolding excluded
  excluded_count r count [] = omega arith
  excluded_count r count (c ∷ cs) = elim (Bool-cases (evaluate policy c).included) [
    | inl counted ↦ rw (counted, excluded) (excluded_count r count cs)
    | inr out ↦
        let next = increment (evaluate policy c).reason count in
        elim (Bool-cases (reason_code r == reason_code (evaluate policy c).reason)) [
          | inl same ↦ ground (arith, out, same, excluded_count r next cs)
          | inr other ↦ ground (arith, out, other, excluded_count r next cs)
        ]
  ]

  -- What `_snapshot` has done after its loop, from any state.
  pub record IsAfter (s : Progress) (cs : List RatingCandidate) (s' : Progress) : Type 0 where
    pub count : s'.included ≡ s.included + length (numbered s.included cs)
    pub rows : s'.stored ++ s'.batch ≡ (s.stored ++ s.batch) ++ numbered s.included cs
    pub fed : s'.hashed ≡ s.hashed ++ numbered s.included cs
    pub reasons : s'.exclusions ≡ excluded s.exclusions cs

  add_row_rows :
      (batch_size : ℕ) (row : RatingRunInput) (s : Progress)
      → let s' = add_row batch_size row s in
        (s'.stored ++ s'.batch ≡ (s.stored ++ s.batch) ++ row ∷ [])
        × (s'.included ≡ suc s.included)
        × (s'.hashed ≡ s.hashed ++ row ∷ [])
        × (s'.exclusions ≡ s.exclusions)
  unfolding add_row
  add_row_rows batch_size row s =
      elim (Bool-cases (leb batch_size (length (s.batch ++ row ∷ [])))) [
        | inl full ↦ rw full (
          append-nil (s.stored ++ (s.batch ++ row ∷ []))
              ∙ sym (append_assoc s.stored s.batch (row ∷ [])),
          refl,
          refl,
          refl,
        )
        | inr room ↦ rw room (sym (append_assoc s.stored s.batch (row ∷ [])), refl, refl, refl)
      ]

  IsAfter-included :
      (batch_size : ℕ) (c : RatingCandidate) (cs : List RatingCandidate) (s s' : Progress)
      → (evaluate policy c).included ≡ true
      → IsAfter (add_row batch_size (row_of (suc s.included) c) s) cs s'
      → IsAfter s (c ∷ cs) s'
  unfolding numbered excluded
  IsAfter-included batch_size c cs s s' counted a =
      let row = row_of (suc s.included) c in
      let (rows, included, fed, reasons) = add_row_rows batch_size row s in
      let later : numbered (add_row batch_size row s).included cs ≡ numbered (suc s.included) cs =
        ap (λ n. numbered n cs) included in
      record {
        count = rw counted (omega (arith, a.count, included, ap (λ l. length l) later));
        rows = rw counted (
            cc (
              append_assoc (s.stored ++ s.batch) (row ∷ []) (numbered (suc s.included) cs),
              a.rows,
              rows,
              later,
            ));
        fed = rw counted (
            cc
              (append_assoc s.hashed (row ∷ []) (numbered (suc s.included) cs), a.fed, fed, later));
        reasons = rw counted (a.reasons ∙ ap (λ e. excluded e cs) reasons);
      }

  visit_all-IsAfter :
      (batch_size : ℕ) (cs : List RatingCandidate) (s : Progress)
      → (s' : Progress) × (visit_all policy batch_size cs s ≡ ok s') × IsAfter s cs s'
  unfolding visit_all visit numbered excluded
  visit_all-IsAfter batch_size [] s = (
    s,
    refl,
    record {
      count = omega arith;
      rows = sym (append-nil (s.stored ++ s.batch));
      fed = sym (append-nil s.hashed);
      reasons = refl;
    },
  )
  visit_all-IsAfter batch_size (c ∷ cs) s = elim (Bool-cases (evaluate policy c).included) [
    | inl counted ↦
        let input = run_input-row_of (suc s.included) c (evaluate_included policy c counted) in
        let (s', done, a) =
          visit_all-IsAfter batch_size cs (add_row batch_size (row_of (suc s.included) c) s) in
        (s', rw (counted, input) done, IsAfter-included batch_size c cs s s' counted a)
    | inr out ↦
        let next = record s { exclusions = increment (evaluate policy c).reason s.exclusions } in
        let (s', done, a) = visit_all-IsAfter batch_size cs next in
        (
          s',
          rw out done,
          record {
            count = rw out a.count;
            rows = rw out a.rows;
            fed = rw out a.fed;
            reasons = rw out a.reasons;
          },
        )
  ]

  module _ (hexdigest : List RatingRunInput → String) where
    -- What a snapshot of these candidates must be.
    abbrev pub expected : List RatingCandidate → Snapshot
    expected cs = record {
      rows = numbered 0 cs;
      input_count = length (numbered 0 cs);
      ordered_input_digest = hexdigest (numbered 0 cs);
      exclusion_counts = excluded no_exclusions cs;
    }

    -- The snapshot goes through, with the counts as a fold over the candidates.
    pub snapshot_ok :
        (batch_size : ℕ) (cs : List RatingCandidate)
        → snapshot hexdigest policy batch_size cs ≡ ok (expected cs)
    unfolding snapshot
    snapshot_ok batch_size cs =
        let (s', done, a) = visit_all-IsAfter batch_size cs start in
        let count : s'.included ≡ length (numbered 0 cs) = omega (arith, a.count) in
        rw done (λ i. ok (record {
          rows = a.rows i;
          input_count = count i;
          ordered_input_digest = hexdigest (a.fed i);
          exclusion_counts = a.reasons i;
        }))

    -- For every policy, batch size and list of candidates the snapshot goes through and holds the
    -- included candidates in order, numbered from 1, counts and digests exactly these rows, and
    -- for every reason counts the candidates that the policy excludes for it.
    pub snapshot-expected :
        (batch_size : ℕ) (cs : List RatingCandidate)
        → (s : Snapshot) × (snapshot hexdigest policy batch_size cs ≡ ok s)
          × (s.rows ≡ numbered 0 cs)
          × (s.input_count ≡ length s.rows)
          × (s.ordered_input_digest ≡ hexdigest s.rows)
          × ((r : Reason) → s.exclusion_counts r ≡ count_where (is_excluded_for r) cs)
    snapshot-expected batch_size cs = (
      expected cs,
      snapshot_ok batch_size cs,
      refl,
      refl,
      refl,
      λ r. omega (arith, excluded_count r no_exclusions cs),
    )
