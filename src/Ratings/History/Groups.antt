-- ===== src/Ratings/History/Groups.antt =====
-- The grouping of `player_history`: counts of rows, matches and events.
use inkspire_lorcana_develop.Prelude.{
  ℕ, suc, ◌+◌, String, List, [], ◌∷◌, ◌≡◌, refl, ◌∙◌, ◌==◌, map, length, length-append, count_where,
  count_where-append, if◌then◌else◌, arith, max, any,
}
use inkspire_lorcana_develop.Ratings.History.{
  SourceRow, Group, group_in, group_all, history_match, history_event, history_events,
  total_matches, rated_matches,
}

-- The rows of all groups, counted.
abbrev grouped : List Group → ℕ
grouped [] = 0
grouped ((first, rest) ∷ groups) = suc (length rest) + grouped groups

abbrev grouped_rated : List Group → ℕ
grouped_rated [] = 0
grouped_rated ((first, rest) ∷ groups) =
    count_where (λ r. r.rated) (first ∷ rest) + grouped_rated groups

grouped-group_in :
    (r : SourceRow) (groups : List Group) → grouped (group_in r groups) ≡ suc (grouped groups)
grouped-group_in r [] = omega arith
grouped-group_in r ((first, rest) ∷ groups) =
    ground (arith, length-append rest (r ∷ []), grouped-group_in r groups)

grouped_rated-group_in :
    (r : SourceRow) (groups : List Group)
    → grouped_rated (group_in r groups) ≡ count_where (λ x. x.rated) (r ∷ []) + grouped_rated groups
grouped_rated-group_in r [] = refl
grouped_rated-group_in r ((first, rest) ∷ groups) =
    ground (arith, count_where-append (λ x. x.rated) rest (r ∷ []), grouped_rated-group_in r groups)

group_all-grouped :
    (rows : List SourceRow) (groups : List Group)
    → (grouped (group_all rows groups) ≡ length rows + grouped groups)
      × (grouped_rated (group_all rows groups)
          ≡ count_where (λ r. r.rated) rows + grouped_rated groups)
unfolding group_all
group_all-grouped [] groups = (omega arith, omega arith)
group_all-grouped (r ∷ rs) groups =
    let (a, b) = group_all-grouped rs (group_in r groups) in
    (
      omega (arith, a, grouped-group_in r groups),
      ground (arith, b, grouped_rated-group_in r groups),
    )

module _ (decimal : ℕ → String) (player : ℕ) where
  match_counts :
      (rows : List SourceRow)
      → (length (map (history_match player) rows) ≡ length rows)
        × (count_where (λ m. m.rated) (map (history_match player) rows)
            ≡ count_where (λ r. r.rated) rows)
  match_counts [] = (refl, refl)
  match_counts (r ∷ rs) = let (a, b) = match_counts rs in (omega (arith, a), ground (arith, b))

  event_counts :
      (groups : List Group)
      → (total_matches (map (history_event decimal player) groups) ≡ grouped groups)
        × (rated_matches (map (history_event decimal player) groups) ≡ grouped_rated groups)
  unfolding history_event
  event_counts [] = (refl, refl)
  event_counts ((first, rest) ∷ groups) =
      let (a, b) = event_counts groups in
      let (c, d) = match_counts (first ∷ rest) in (omega (arith, a, c), omega (arith, b, d))

  -- A player's history holds as many matches as rows were queried, and as many rated ones as rows
  -- are rated.
  pub total_matches-history_events :
      (rows : List SourceRow)
      → let events = history_events decimal player rows in
        (total_matches events ≡ length rows)
        × (rated_matches events ≡ count_where (λ r. r.rated) rows)
  unfolding history_events
  total_matches-history_events rows =
      let (a, b) = event_counts (group_all rows []) in
      let (c, d) = group_all-grouped rows [] in (omega (arith, a, c), omega (arith, b, d))

-- The groups of an event.
abbrev groups_of : ℕ → List Group → ℕ
groups_of i [] = 0
groups_of i ((first, rest) ∷ groups) =
    if first.event_id == i then suc (groups_of i groups) else groups_of i groups

groups_of-group_in :
    (i : ℕ) (r : SourceRow) (groups : List Group)
    → groups_of i (group_in r groups)
      ≡ (if r.event_id == i then max 1 (groups_of i groups) else groups_of i groups)
groups_of-group_in i r [] = ground arith
groups_of-group_in i r ((first, rest) ∷ groups) = ground (arith, groups_of-group_in i r groups)

groups_of-group_all :
    (i : ℕ) (rows : List SourceRow) (groups : List Group)
    → groups_of i (group_all rows groups)
      ≡ (if any (λ r. r.event_id == i) rows then max 1 (groups_of i groups) else groups_of i groups)
unfolding group_all
groups_of-group_all i [] groups = refl
groups_of-group_all i (r ∷ rs) groups =
    ground (arith, groups_of-group_in i r groups, groups_of-group_all i rs (group_in r groups))

events_of-groups_of :
    (decimal : ℕ → String) (player i : ℕ) (groups : List Group)
    → count_where (λ e. e.event_id == i) (map (history_event decimal player) groups)
      ≡ groups_of i groups
unfolding history_event
events_of-groups_of decimal player i [] = refl
events_of-groups_of decimal player i (g ∷ groups) =
    ground (arith, events_of-groups_of decimal player i groups)

-- A player's history has exactly one event for each event id that occurs in the queried rows, and
-- none for any other.
pub history_events_once :
    (decimal : ℕ → String) (player i : ℕ) (rows : List SourceRow)
    → count_where (λ e. e.event_id == i) (history_events decimal player rows)
      ≡ (if any (λ r. r.event_id == i) rows then 1 else 0)
unfolding history_events
history_events_once decimal player i rows =
    events_of-groups_of decimal player i (group_all rows [])
    ∙ ground (arith, groups_of-group_all i rows [])
