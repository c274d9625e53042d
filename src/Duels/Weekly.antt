-- ===== src/Duels/Weekly.antt =====
-- `color_pair` (src/lorcana/duels/matchups.py) and `aggregate_weekly` (src/lorcana/duels/weekly.py): a
-- week's games of each member, by deck and outcome. `str`, `str.lower`, `str.title` and the orders of the
-- two sorts are a parameter.
pub mod Totals
use inkspire_lorcana_develop.Prelude.{
  ℕ, ◌+◌, ◌==◌, Bool, true, false, ◌||◌, if◌then◌else◌, String, str_eq, strip, text_append,
  is_empty, List, [], ◌∷◌, map, filter, any, find, update_where, order_by, Option, none, some, Json,
  Items,
}
use inkspire_lorcana_develop.Prelude.Values.{str, list, nil, cons}
use inkspire_lorcana_develop.PlayHub.Raw.{truthy}
use inkspire_lorcana_develop.PlayHub.Tables.{upsert}

pub record Python : Type 0 where
  pub to_str : Json → String
  pub lower : String → String
  pub title : String → String
  -- By the casefolded name, then by the text of the id.
  pub name_precedes : ℕ × String → ℕ × String → Bool
  pub text_precedes : String → String → Bool

abbrev colors : List String
colors = "Amber" ∷ "Amethyst" ∷ "Emerald" ∷ "Ruby" ∷ "Sapphire" ∷ "Steel" ∷ []

abbrev is_one_of : List String → String → Bool
is_one_of names s = any (str_eq s) names

-- `"/".join(names)`
abbrev join_slash : List String → String
join_slash [] = ""
join_slash (s ∷ []) = s
join_slash (s ∷ t ∷ names) = text_append s (text_append "/" (join_slash (t ∷ names)))

abbrev all_known : List String → Bool
all_known [] = true
all_known (s ∷ names) = if is_one_of colors s then all_known names else false

pub data Outcome : Type 0 where
  win loss draw unknown : Outcome

abbrev pub same_outcome : Outcome → Outcome → Bool
same_outcome win win = true
same_outcome loss loss = true
same_outcome draw draw = true
same_outcome unknown unknown = true
same_outcome _ _ = false

-- A row of the results' query.
pub record GameResult : Type 0 where
  pub member_id : ℕ
  pub result : Json
  pub your_deck_colors : Json
  pub games : ℕ

-- A `Counter` of games by outcome, under the deck's colors.
pub record Deck : Type 0 where
  pub colors_of : String
  pub counts : Outcome → ℕ

abbrev pub has_colors : String → Deck → Bool
has_colors c d = str_eq d.colors_of c

abbrev pub add_games : Outcome → ℕ → Deck → Deck
add_games outcome n d = record d {
  counts = λ o. if same_outcome outcome o then d.counts o + n else d.counts o;
}

abbrev pub new_deck : String → Deck
new_deck c = record { colors_of = c; counts = λ o. 0 }

-- `stat["decks"][colors][outcome] += count`
abbrev pub count_deck : String → Outcome → ℕ → List Deck → List Deck
count_deck c outcome n decks =
    upsert (has_colors c) (add_games outcome n) (add_games outcome n (new_deck c)) decks

pub record Stat : Type 0 where
  pub member_id : ℕ
  pub games : ℕ
  pub decks : List Deck

abbrev pub is_stat : ℕ → Stat → Bool
is_stat i s = s.member_id == i

abbrev pub new_stat : ℕ × String → Stat
new_stat (i, name) = record { member_id = i; games = 0; decks = [] }

pub record WeeklyRow : Type 0 where
  pub player : String
  pub games : ℕ
  pub decks : List Deck

module _ (python : Python) where
  abbrev color_names : Items → List String
  color_names nil = []
  color_names (cons c cs) = python.title (strip (python.to_str c)) ∷ color_names cs

  abbrev pub color_pair : Json → String
  color_pair (list (cons c cs)) =
      let names = color_names (cons c cs) in
      if all_known names then join_slash (filter (is_one_of names) colors) else "Unknown"
  color_pair other = "Unknown"

  abbrev pub outcome_of : Json → Outcome
  outcome_of result =
      let text = python.lower (strip (python.to_str (if truthy result then result else str ""))) in
      if str_eq text "win" || str_eq text "won"
      then win
      else if str_eq text "loss" || str_eq text "lost"
      then loss
      else if str_eq text "draw" || str_eq text "tie"
      then draw
      else unknown

  abbrev pub add_result : GameResult → Stat → Stat
  add_result r s = record s {
    games = s.games + r.games;
    decks = count_deck (color_pair r.your_deck_colors) (outcome_of r.result) r.games s.decks;
  }

  -- One turn of the loop; the results of others are skipped.
  abbrev pub visit : GameResult → List Stat → List Stat
  visit r stats =
      if any (is_stat r.member_id) stats
      then update_where (is_stat r.member_id) (add_result r) stats
      else stats

  unfoldable pub collect : List GameResult → List Stat → List Stat
  collect [] stats = stats
  collect (r ∷ results) stats = collect results (visit r stats)

  abbrev pub weekly_row : List Stat → ℕ × String → WeeklyRow
  weekly_row stats (i, name) = elim (find (is_stat i) stats) [
    | none ↦ record { player = name; games = 0; decks = [] }
    | some s ↦ record {
      player = name;
      games = s.games;
      decks = order_by (λ c d. python.text_precedes c.colors_of d.colors_of) s.decks;
    }
  ]

  unfoldable pub aggregate_weekly : List (ℕ × String) → List GameResult → List WeeklyRow
  aggregate_weekly names results =
      map (weekly_row (collect results (map new_stat names))) (order_by python.name_precedes names)
