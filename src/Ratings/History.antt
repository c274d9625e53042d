-- ===== src/Ratings/History.antt =====
-- A player's tournament history: `RatingQueryService.player_history` and `_history_result`
-- (src/lorcana/ratings/query_service.py), from the rows that the repository's query returns. The decimal
-- text of a number is a parameter.
pub mod Groups
use inkspire_lorcana_develop.Prelude.{
  ℕ, zero, suc, ◌+◌, String, Bool, true, false, Option, none, some, List, [], ◌∷◌, ◌++◌, ◌==◌, map,
  length, count_where, if◌then◌else◌, opt_eq, is_empty, text_append,
}

-- A row of `player_tournament_history`.
pub record SourceRow : Type 0 where
  pub event_id : ℕ
  pub event_name : Option String
  pub start_datetime : Option ℕ
  pub event_format : Option String
  pub source_url : Option String
  pub matches_won : Option ℕ
  pub matches_lost : Option ℕ
  pub matches_drawn : Option ℕ
  pub placement : Option ℕ
  pub match_id : ℕ
  pub round_number : Option ℕ
  pub phase_name : Option String
  pub opponent_id : Option ℕ
  pub opponent_name : Option String
  pub opponent_username : Option String
  pub player_score : Option ℕ
  pub opponent_score : Option ℕ
  pub rated : Bool
  pub is_intentional_draw : Bool
  pub is_bye : Bool
  pub is_draw : Bool
  pub winner_id : Option ℕ

pub data HistoryResult : Type 0 where
  had_bye drew won lost unknown : HistoryResult

-- `_history_result`
unfoldable pub history_result : SourceRow → ℕ → HistoryResult
history_result r player =
    if r.is_bye
    then had_bye
    else if r.is_draw
    then drew
    else elim r.winner_id [ none ↦ unknown | some w ↦ if w == player then won else lost ]

pub record PlayerHistoryMatch : Type 0 where
  pub match_id : ℕ
  pub round_number : Option ℕ
  pub phase_name : Option String
  pub opponent_id : Option ℕ
  pub opponent_name : Option String
  pub opponent_username : Option String
  pub result : HistoryResult
  pub player_score : Option ℕ
  pub opponent_score : Option ℕ
  pub rated : Bool
  pub intentional_draw : Bool

abbrev pub history_match : ℕ → SourceRow → PlayerHistoryMatch
history_match player r = record {
  match_id = r.match_id;
  round_number = r.round_number;
  phase_name = r.phase_name;
  opponent_id = r.opponent_id;
  opponent_name = r.opponent_name;
  opponent_username = r.opponent_username;
  result = history_result r player;
  player_score = r.player_score;
  opponent_score = r.opponent_score;
  rated = r.rated;
  intentional_draw = r.is_intentional_draw;
}

pub record PlayerHistoryEvent : Type 0 where
  pub event_id : ℕ
  pub event_name : String
  pub start_datetime : Option ℕ
  pub event_format : Option String
  pub source_url : Option String
  pub wins : ℕ
  pub losses : ℕ
  pub draws : ℕ
  pub placement : Option ℕ
  pub matches : List PlayerHistoryMatch

-- The rows of one event: the first and those after it.
abbrev pub Group : Type 0
Group = SourceRow × List SourceRow

-- `grouped.setdefault(row["event_id"], []).append(row)`
abbrev pub group_in : SourceRow → List Group → List Group
group_in r [] = (r, []) ∷ []
group_in r ((first, rest) ∷ groups) =
    if r.event_id == first.event_id
    then (first, rest ++ r ∷ []) ∷ groups
    else (first, rest) ∷ group_in r groups

-- The loop over the rows.
unfoldable pub group_all : List SourceRow → List Group → List Group
group_all [] groups = groups
group_all (r ∷ rs) groups = group_all rs (group_in r groups)

abbrev pub is_won : HistoryResult → Bool
is_won won = true
is_won _ = false

abbrev pub is_lost : HistoryResult → Bool
is_lost lost = true
is_lost _ = false

abbrev pub is_drew : HistoryResult → Bool
is_drew drew = true
is_drew _ = false

-- The stored number, or the derived one.
abbrev pub stored_or : Option ℕ → ℕ → ℕ
stored_or none derived = derived
stored_or (some n) derived = n

-- `first["event_name"] or f"Event {first['event_id']}"`
abbrev pub name_or : (ℕ → String) → SourceRow → String
name_or decimal r =
    let default = text_append "Event " (decimal r.event_id) in
    elim r.event_name [ none ↦ default | some name ↦ if is_empty name then default else name ]

unfoldable pub history_event : (ℕ → String) → ℕ → Group → PlayerHistoryEvent
history_event decimal player (first, rest) =
    let matches = map (history_match player) (first ∷ rest) in
    record {
      event_id = first.event_id;
      event_name = name_or decimal first;
      start_datetime = first.start_datetime;
      event_format = first.event_format;
      source_url = first.source_url;
      wins = stored_or first.matches_won (count_where (λ m. is_won m.result) matches);
      losses = stored_or first.matches_lost (count_where (λ m. is_lost m.result) matches);
      draws = stored_or first.matches_drawn (count_where (λ m. is_drew m.result) matches);
      placement = first.placement;
      matches = matches;
    }

-- The events of `player_history`.
unfoldable pub history_events : (ℕ → String) → ℕ → List SourceRow → List PlayerHistoryEvent
unfolding group_all history_event
history_events decimal player rows = map (history_event decimal player) (group_all rows [])

-- `PlayerHistory.total_matches` and `rated_matches`
abbrev pub total_matches : List PlayerHistoryEvent → ℕ
total_matches [] = 0
total_matches (e ∷ es) = length e.matches + total_matches es

abbrev pub rated_matches : List PlayerHistoryEvent → ℕ
rated_matches [] = 0
rated_matches (e ∷ es) = count_where (λ m. m.rated) e.matches + rated_matches es
