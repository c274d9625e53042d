-- ===== src/Ratings/Elo.antt =====
-- The Elo calculator (src/lorcana/ratings/elo.py). Python's floats are a parameter: their type, the
-- operations and constants that the code uses. Integers, records and the player dictionary are
-- modelled exactly.
pub mod Players
pub mod Records
use inkspire_lorcana_develop.Prelude.{
  ℕ, suc, ◌+◌, Bool, true, false, not, Option, none, some, List, [], ◌∷◌, ◌≡◌, ◌&&◌, ◌||◌, ◌==◌,
  if◌then◌else◌, opt_eq, Result, ok, err, value_error,
}
use inkspire_lorcana_develop.Ratings.Types.{RatingMatch}

pub record Floats : Type 1 where
  pub Float : Type 0
  pub zero : Float
  pub half : Float
  pub one : Float
  pub ten : Float
  pub four_hundred : Float
  pub add : Float → Float → Float
  pub sub : Float → Float → Float
  pub mul : Float → Float → Float
  pub div : Float → Float → Float
  pub pow : Float → Float → Float
  pub less : Float → Float → Bool
  pub less_eq : Float → Float → Bool
  pub is_finite : Float → Bool

pub data MatchLabel : Type 0 where
  win loss draw : MatchLabel

abbrev pub is_win : MatchLabel → ℕ
is_win win = 1
is_win _ = 0

abbrev pub is_loss : MatchLabel → ℕ
is_loss loss = 1
is_loss _ = 0

abbrev pub is_drawn : MatchLabel → ℕ
is_drawn draw = 1
is_drawn _ = 0

-- The first test of `process`: the matches that it counts as invalid.
abbrev pub is_invalid : RatingMatch → Bool
is_invalid m = elim m.player1_id [
  | none ↦ true
  | some p ↦ elim m.player2_id [
    | none ↦ true
    | some q ↦ p == q || elim m.winner_id [ none ↦ not m.is_draw | some w ↦ not (w == p || w == q) ]
  ]
]

-- The match's players, for a match that is not invalid.
abbrev pub given_id : Option ℕ → ℕ
given_id none = 0
given_id (some p) = p

module _ (F : Floats) where
  open F use {
    Float, zero, half, one, ten, four_hundred, add, sub, mul, div, pow, less, less_eq, is_finite,
  }

  unfoldable pub expected_score : Float → Float → Float
  expected_score rating_a rating_b =
      div one (add one (pow ten (div (sub rating_b rating_a) four_hundred)))

  unfoldable pub updated_rating : Float → Float → Float → Float → Float
  updated_rating rating opponent_rating actual_score k_factor =
      add rating (mul k_factor (sub actual_score (expected_score rating opponent_rating)))

  pub record PlayerRating : Type 0 where
    pub rating : Float
    pub matches : ℕ
    pub wins : ℕ
    pub losses : ℕ
    pub draws : ℕ
    pub peak : Float

  pub record HistoryRow : Type 0 where
    pub player_id : ℕ
    pub match_id : ℕ
    pub event_id : ℕ
    pub rating_before : Float
    pub rating_after : Float
    pub rating_change : Float
    pub opponent_id : ℕ
    pub opponent_rating_before : Float
    pub result : MatchLabel

  -- `self.players`, a dictionary in insertion order.
  abbrev pub Players : Type 0
  Players = List (ℕ × PlayerRating)

  abbrev pub get_player : ℕ → Players → PlayerRating → PlayerRating
  get_player i [] default = default
  get_player i ((k, r) ∷ rest) default = if i == k then r else get_player i rest default

  abbrev pub put_player : ℕ → PlayerRating → Players → Players
  put_player i r [] = (i, r) ∷ []
  put_player i r ((k, s) ∷ rest) = if i == k then (k, r) ∷ rest else (k, s) ∷ put_player i r rest

  pub record EloCalculator : Type 0 where
    pub starting_rating : Float
    pub k_factor : Float
    pub players : Players
    pub matches_processed : ℕ
    pub invalid_matches : ℕ

  -- `EloCalculator.__init__`
  unfoldable pub new_calculator : Float → Float → Result EloCalculator
  new_calculator starting_rating k_factor =
      if not (is_finite starting_rating) || not (is_finite k_factor) || less_eq k_factor zero
      then err value_error
      else ok (record {
        starting_rating = starting_rating;
        k_factor = k_factor;
        players = [];
        matches_processed = 0;
        invalid_matches = 0;
      })

  -- `scores[index]` and `labels[index]` for the two players.
  abbrev pub outcome : RatingMatch → ℕ → (Float × Float) × (MatchLabel × MatchLabel)
  outcome m p =
      if m.is_draw
      then ((half, half), (draw, draw))
      else if opt_eq m.winner_id (some p)
      then ((one, zero), (win, loss))
      else ((zero, one), (loss, win))

  -- `max(old.peak, rating)`: the first of the two unless the second is greater.
  abbrev pub peak_of : Float → Float → Float
  peak_of peak rating = if less peak rating then rating else peak

  -- The player's new record, in one pass of the loop.
  unfoldable pub advance : Float → PlayerRating → PlayerRating → Float → MatchLabel → PlayerRating
  advance k old opponent score label =
      let rating = updated_rating old.rating opponent.rating score k in
      record {
        rating = rating;
        matches = old.matches + 1;
        wins = old.wins + is_win label;
        losses = old.losses + is_loss label;
        draws = old.draws + is_drawn label;
        peak = peak_of old.peak rating;
      }

  abbrev pub history_row :
      RatingMatch → ℕ → ℕ → PlayerRating → PlayerRating → PlayerRating → MatchLabel → HistoryRow
  history_row m player opponent old new other label = record {
    player_id = player;
    match_id = m.match_id;
    event_id = m.event_id;
    rating_before = old.rating;
    rating_after = new.rating;
    rating_change = sub new.rating old.rating;
    opponent_id = opponent;
    opponent_rating_before = other.rating;
    result = label;
  }

  -- The loop over both players, whose old records were read before it.
  unfoldable pub play : EloCalculator → RatingMatch → ℕ → ℕ → List HistoryRow × EloCalculator
  play c m p1 p2 =
      let initial : PlayerRating = record {
        rating = c.starting_rating;
        matches = 0;
        wins = 0;
        losses = 0;
        draws = 0;
        peak = c.starting_rating;
      } in
      let old1 = get_player p1 c.players initial in
      let old2 = get_player p2 c.players initial in
      let result = outcome m p1 in
      let new1 = advance c.k_factor old1 old2 result.0.0 result.1.0 in
      let new2 = advance c.k_factor old2 old1 result.0.1 result.1.1 in
      (
        history_row m p1 p2 old1 new1 old2 result.1.0
            ∷ history_row m p2 p1 old2 new2 old1 result.1.1
            ∷ [],
        record c {
          players = put_player p2 new2 (put_player p1 new1 c.players);
          matches_processed = c.matches_processed + 1;
        },
      )

  -- `EloCalculator.process`
  unfoldable pub process : EloCalculator → RatingMatch → List HistoryRow × EloCalculator
  process c m =
      if is_invalid m
      then ([], record c { invalid_matches = c.invalid_matches + 1 })
      else play c m (given_id m.player1_id) (given_id m.player2_id)
