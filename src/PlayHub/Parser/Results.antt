-- ===== src/PlayHub/Parser/Results.antt =====
-- `parse_standings`, `parse_match` and the choices among rounds (src/lorcana/playhub/parser.py).
use inkspire_lorcana_develop.Prelude.{
  ℕ, Bool, true, false, not, ◌&&◌, ◌||◌, if◌then◌else◌, List, [], ◌∷◌, ◌++◌, length, any, Option,
  none, some, ℤ, eqb_ℤ, Json, Items, Fields, Result, ok, err, ◌>>=◌, attribute_error, Datetime,
  to_utc,
}
use inkspire_lorcana_develop.Prelude.Values.{nil, cons, mapping}
use inkspire_lorcana_develop.PlayHub.Raw.{
  Builtins, get, get_of, truthy, is_text, or_mapping, or_items, required_int, optional_int,
  player_id_of, parse_source_datetime,
}
use inkspire_lorcana_develop.PlayHub.Types.{
  PlayHubRound, PlayHubPlayer, PlayHubRegistration, PlayHubMatch, StandingsBundle, MatchBundle,
}

-- `players[player.player_id] = player`: a dictionary keeps the place of a key's first assignment.
abbrev pub put_player : PlayHubPlayer → List PlayHubPlayer → List PlayHubPlayer
put_player p [] = p ∷ []
put_player p (q ∷ qs) = if eqb_ℤ q.player_id p.player_id then p ∷ qs else q ∷ put_player p qs

abbrev pub mem_ℤ : ℤ → List ℤ → Bool
mem_ℤ n ns = any (eqb_ℤ n) ns

-- `if player_id not in player_ids: player_ids.append(player_id)`
abbrev pub add_id : ℤ → List ℤ → List ℤ
add_id n ns = if mem_ℤ n ns then ns else ns ++ n ∷ []

abbrev pub first_id : List ℤ → Option ℤ
first_id [] = none
first_id (a ∷ ns) = some a

abbrev pub second_id : List ℤ → Option ℤ
second_id [] = none
second_id (a ∷ ns) = first_id ns

-- `winner_id == player_id`, for a winner that is not `None`.
abbrev pub is_winner : ℤ → Option ℤ → Bool
is_winner w none = false
is_winner w (some p) = eqb_ℤ w p

-- The two scores, from the winner's side to the players' order.
abbrev pub scores : Option ℤ → Option ℤ → Option ℤ → Option ℤ → Option ℤ → Option ℤ × Option ℤ
scores none player1 player2 winner_games loser_games = (none, none)
scores (some w) player1 player2 winner_games loser_games =
    if is_winner w player1
    then (winner_games, loser_games)
    else if is_winner w player2
    then (loser_games, winner_games)
    else (none, none)

abbrev pub is_none_ℤ : Option ℤ → Bool
is_none_ℤ none = true
is_none_ℤ (some n) = false

-- A relationship's or a standing's player, with the fields of `user_event_status`.
pub record Seat : Type 0 where
  pub player_id : ℤ
  pub raw_player : Fields
  pub event_status : Fields

abbrev pub seat_player : ℕ → Seat → PlayHubPlayer
seat_player now seat = record {
  player_id = seat.player_id;
  display_name = get "best_identifier" seat.raw_player;
  username = get "best_identifier" seat.event_status;
  first_seen = some now;
  last_seen = some now;
}

module _ (python : Builtins) where
  -- The start of both loops' bodies: a row without a player's id is skipped.
  abbrev pub read_seat : Json → Result (Option Seat)
  read_seat raw = do
    value ← get_of "player" raw
    raw_player ← or_mapping value
    id ← optional_int python (get "id" raw_player)
    elim id [
      | none ↦ ok none
      | some player_id ↦ do
        status ← get_of "user_event_status" raw
        event_status ← or_mapping status
        ok (
            some (record {
              player_id = player_id;
              raw_player = raw_player;
              event_status = event_status;
            }))
    ]

  abbrev parse_registration : ℤ → ℕ → Json → Seat → Result (List PlayHubRegistration)
  parse_registration event_id now standing seat = do
    id ← optional_int python (get "id" seat.event_status)
    elim id [
      | none ↦ ok []
      | some registration_id ↦ do
        matches_won ← optional_int python (get "matches_won" seat.event_status)
        matches_lost ← optional_int python (get "matches_lost" seat.event_status)
        matches_drawn ← optional_int python (get "matches_drawn" seat.event_status)
        match_points ← optional_int python (get "total_match_points" seat.event_status)
        rank ← get_of "rank" standing
        placement ← optional_int python rank
        ok (
            record {
              registration_id = registration_id;
              event_id = event_id;
              player_id = seat.player_id;
              display_name_at_event = get "best_identifier" seat.event_status;
              registration_status = get "registration_status" seat.event_status;
              matches_won = matches_won;
              matches_lost = matches_lost;
              matches_drawn = matches_drawn;
              match_points = match_points;
              placement = placement;
              registered_at = none;
              last_synced = some now;
            }
            ∷ [])
    ]

  -- The loop of `parse_standings`, from the players and registrations so far.
  abbrev parse_rows : ℤ → ℕ → StandingsBundle → Items → Result StandingsBundle
  parse_rows event_id now bundle nil = ok bundle
  parse_rows event_id now bundle (cons standing raws) = do
    found ← read_seat standing
    elim found [
      | none ↦ parse_rows event_id now bundle raws
      | some seat ↦ do
        registrations ← parse_registration event_id now standing seat
        parse_rows event_id now
            (record {
              players = put_player (seat_player now seat) bundle.players;
              registrations = bundle.registrations ++ registrations;
            })
            raws
    ]

  unfoldable pub parse_standings : ℤ → Items → Datetime → Result StandingsBundle
  parse_standings event_id raws observed_at = do
    now ← to_utc observed_at
    parse_rows event_id now (record { players = []; registrations = [] }) raws

  -- The players of a match in the order of their first relationship, with their latest one.
  abbrev pub parse_seats :
      ℕ → Items → List ℤ → List PlayHubPlayer → Result (List ℤ × List PlayHubPlayer)
  parse_seats now nil ids players = ok (ids, players)
  parse_seats now (cons relationship raws) ids players = do
    found ← read_seat relationship
    elim found [
      | none ↦ parse_seats now raws ids players
      | some seat ↦
          parse_seats now raws (add_id seat.player_id ids)
            (put_player (seat_player now seat) players)
    ]

  -- The match that `parse_match` builds once its players are read.
  abbrev pub build_match : ℤ → ℤ → ℤ → Fields → List ℤ → Result PlayHubMatch
  build_match event_id round_id match_id raw ids = do
    winner_id ← player_id_of python (get "winning_player" raw)
    winner_games ← optional_int python (get "games_won_by_winner" raw)
    loser_games ← optional_int python (get "games_won_by_loser" raw)
    let intentional_draw = truthy (get "match_is_intentional_draw" raw)
    let unintentional_draw = truthy (get "match_is_unintentional_draw" raw)
    let is_bye = truthy (get "match_is_bye" raw)
    let status = get "status" raw
    let sides = scores winner_id (first_id ids) (second_id ids) winner_games loser_games
    table_number ← optional_int python (get "table_number" raw)
    created_at ← parse_source_datetime python (get "created_at" raw)
    updated_at ← parse_source_datetime python (get "updated_at" raw)
    ok (record {
      match_id = match_id;
      event_id = event_id;
      round_id = round_id;
      player1_id = first_id ids;
      player2_id = second_id ids;
      participant_count = length ids;
      player1_score = sides.0;
      player2_score = sides.1;
      winner_id = winner_id;
      status = status;
      table_number = table_number;
      is_draw =
          intentional_draw
          || unintentional_draw
          || (is_none_ℤ winner_id && not is_bye && is_text "COMPLETE" status);
      is_intentional_draw = intentional_draw;
      is_unintentional_draw = unintentional_draw;
      is_bye = is_bye;
      is_loss = truthy (get "match_is_loss" raw);
      is_ghost_match = truthy (get "is_ghost_match" raw);
      is_feature_match = truthy (get "is_feature_match" raw);
      created_at = created_at;
      updated_at = updated_at;
    })

  abbrev pub parse_match_fields : ℤ → ℤ → Fields → ℕ → Result MatchBundle
  parse_match_fields event_id round_id raw now = do
    match_id ← required_int python (get "id" raw)
    relationships ← or_items (get "player_match_relationships" raw)
    seats ← parse_seats now relationships [] []
    match_ ← build_match event_id round_id match_id raw seats.0
    ok (record { players = seats.1; match_ = match_ })

  unfoldable pub parse_match : ℤ → ℤ → Json → Datetime → Result MatchBundle
  parse_match event_id round_id (mapping raw) observed_at =
      to_utc observed_at >>= parse_match_fields event_id round_id raw
  parse_match event_id round_id other observed_at =
      to_utc observed_at >>= (λ now. err attribute_error)

abbrev pub round_should_have_matches : PlayHubRound → Bool
round_should_have_matches r =
    is_text "PLAY_VS_OPPONENT" r.round_type && is_text "GENERATED" r.pairings_status

-- The search from the last round to the first.
abbrev pub latest_generated_standings_round : List PlayHubRound → Option PlayHubRound
latest_generated_standings_round [] = none
latest_generated_standings_round (r ∷ rs) = elim (latest_generated_standings_round rs) [
  | some later ↦ some later
  | none ↦ if is_text "GENERATED" r.standings_status then some r else none
]
