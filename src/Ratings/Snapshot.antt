-- ===== src/Ratings/Snapshot.antt =====
-- The source side of a rating build (src/lorcana/ratings/service.py): `RatingService._snapshot` and
-- `preview_source`. SHA-256 over the rows' canonical JSON is the parameter `hexdigest`: it is fed the
-- rows in order. The candidates come from the database, whose timestamps are all aware.
pub mod Batches
pub mod Preview
pub mod Calculable
use inkspire_lorcana_develop.Prelude.{
  ℕ, zero, suc, ◌+◌, String, Bool, true, false, Option, none, some, List, [], ◌∷◌, ◌++◌, ◌≡◌, ◌==◌,
  leb, if◌then◌else◌, length, Result, ok, err, and_then, rating_build_error,
}
use inkspire_lorcana_develop.Ratings.Types.{
  RatingCandidate, Reason, EligibilityDecision, RatingMatch, RatingRunInput, match_not_complete,
  bye, ghost_match, not_two_player, missing_player, same_player, missing_result, invalid_winner,
  missing_event_start, unsupported_event_format, event_not_complete, included_reason,
}
use inkspire_lorcana_develop.Ratings.Policy.{Policy, evaluate}

-- Reasons are texts in the program; they are compared by these codes.
abbrev pub reason_code : Reason → ℕ
reason_code match_not_complete = 0
reason_code bye = 1
reason_code ghost_match = 2
reason_code not_two_player = 3
reason_code missing_player = 4
reason_code same_player = 5
reason_code missing_result = 6
reason_code invalid_winner = 7
reason_code missing_event_start = 8
reason_code unsupported_event_format = 9
reason_code event_not_complete = 10
reason_code included_reason = 11

-- `Counter[str]`: how often each reason was counted.
abbrev pub Counter : Type 0
Counter = Reason → ℕ

abbrev pub no_exclusions : Counter
no_exclusions r = 0

-- `exclusions[reason] += 1`
abbrev pub increment : Reason → Counter → Counter
increment r count s = if reason_code s == reason_code r then suc (count s) else count s

-- The `RatingRunInput` of an included candidate, or the error for a policy that let an incomplete one
-- pass.
unfoldable pub run_input : ℕ → RatingCandidate → Result RatingRunInput
run_input sequence c = elim c.player1_id [
  | none ↦ err rating_build_error
  | some p ↦ elim c.player2_id [
    | none ↦ err rating_build_error
    | some q ↦ elim c.event_start_datetime [
      | none ↦ err rating_build_error
      | some t ↦ ok (record {
        sequence_number = sequence;
        match_id = c.match_id;
        event_id = c.event_id;
        event_start_datetime = t;
        phase_order = c.phase_order;
        round_number = c.round_number;
        player1_id = p;
        player2_id = q;
        winner_id = c.winner_id;
        is_draw = c.is_draw;
      })
    ]
  ]
]

-- `RatingRunInput.as_rating_match`, with its default `round_id = 0`.
abbrev pub as_rating_match : RatingRunInput → RatingMatch
as_rating_match r = record {
  match_id = r.match_id;
  event_id = r.event_id;
  round_id = 0;
  player1_id = some r.player1_id;
  player2_id = some r.player2_id;
  winner_id = r.winner_id;
  is_draw = r.is_draw;
  start_datetime = r.event_start_datetime;
  phase_order = r.phase_order;
  round_number = r.round_number;
}

-- The variables of `_snapshot`: `stored` is what `insert_run_inputs` has written so far, `hashed` what
-- the digest was fed.
pub record Progress : Type 0 where
  pub included : ℕ
  pub exclusions : Counter
  pub batch : List RatingRunInput
  pub stored : List RatingRunInput
  pub hashed : List RatingRunInput

abbrev pub start : Progress
start = record { included = 0; exclusions = no_exclusions; batch = []; stored = []; hashed = [] }

-- A batch that is full is inserted and cleared.
unfoldable pub add_row : ℕ → RatingRunInput → Progress → Progress
add_row batch_size row s =
    let batch = s.batch ++ row ∷ [] in
    if leb batch_size (length batch)
    then record s {
      included = suc s.included;
      batch = [];
      stored = s.stored ++ batch;
      hashed = s.hashed ++ row ∷ [];
    }
    else record s { included = suc s.included; batch = batch; hashed = s.hashed ++ row ∷ [] }

-- The body of the loop over the candidates.
unfoldable pub visit : Policy → ℕ → RatingCandidate → Progress → Result Progress
visit policy batch_size c s =
    if (evaluate policy c).included
    then and_then (run_input (suc s.included) c) (λ row. ok (add_row batch_size row s))
    else ok (record s { exclusions = increment (evaluate policy c).reason s.exclusions })

unfoldable pub visit_all : Policy → ℕ → List RatingCandidate → Progress → Result Progress
visit_all policy batch_size [] s = ok s
visit_all policy batch_size (c ∷ cs) s =
    and_then (visit policy batch_size c s) (visit_all policy batch_size cs)

-- What a snapshot leaves: the rows of `rating_run_inputs`, and the columns of `finish_snapshot`.
pub record Snapshot : Type 0 where
  pub rows : List RatingRunInput
  pub input_count : ℕ
  pub ordered_input_digest : String
  pub exclusion_counts : Counter

module _ (hexdigest : List RatingRunInput → String) where
  -- `_snapshot`, the rest of the last batch included.
  unfoldable pub snapshot : Policy → ℕ → List RatingCandidate → Result Snapshot
  snapshot policy batch_size cs = and_then (visit_all policy batch_size cs start) (λ s. ok (record {
    rows = s.stored ++ s.batch;
    input_count = s.included;
    ordered_input_digest = hexdigest s.hashed;
    exclusion_counts = s.exclusions;
  }))

  -- The loop of `preview_source`.
  unfoldable pub preview_all :
      Policy
      → List RatingCandidate
      → ℕ
      → Counter
      → List RatingRunInput
      → Result (ℕ × String × Counter)
  preview_all policy [] included exclusions hashed = ok (included, hexdigest hashed, exclusions)
  preview_all policy (c ∷ cs) included exclusions hashed =
      let counted = λ (row : RatingRunInput).
        preview_all policy cs (suc included) exclusions (hashed ++ row ∷ []) in
      let excluded =
        preview_all policy cs included (increment (evaluate policy c).reason exclusions) hashed in
      if (evaluate policy c).included
      then and_then (run_input (suc included) c) counted
      else excluded

  -- `preview_source`
  unfoldable pub preview_source : Policy → List RatingCandidate → Result (ℕ × String × Counter)
  unfolding preview_all
  preview_source policy cs = preview_all policy cs 0 no_exclusions []
