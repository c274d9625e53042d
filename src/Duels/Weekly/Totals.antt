-- ===== src/Duels/Weekly/Totals.antt =====
-- The rows of a weekly report count the results of their member.
use inkspire_lorcana_develop.Prelude.{
  ℕ, suc, Exists, find_meets, any_of_found, ◌+◌, ◌==◌, Bool, ◌&&◌, if◌then◌else◌, String, str_eq,
  eq_iff, List, [], ◌∷◌, map, All, All-map, length, find, find-update_where, any, order_by,
  insert_by, order_by-All, order_by-length, some, Bool-cases, inl, inr, ◌≡◌, refl, sym, ap, subst,
  ◌∙◌, arith,
}
use inkspire_lorcana_develop.Duels.Weekly.{
  Python, Outcome, same_outcome, GameResult, Deck, has_colors, count_deck, Stat, is_stat, new_stat,
  WeeklyRow, color_pair, outcome_of, add_result, visit, collect, weekly_row, aggregate_weekly,
}

-- The games of the results that meet a test.
abbrev pub total : (GameResult → Bool) → List GameResult → ℕ
total p [] = 0
total p (r ∷ results) = (if p r then r.games else 0) + total p results

-- The games of an outcome that the decks of some colors count.
abbrev pub counted : String → Outcome → List Deck → ℕ
counted c o [] = 0
counted c o (d ∷ decks) = (if has_colors c d then d.counts o else 0) + counted c o decks

counted-insert_by :
    (c : String) (o : Outcome) (before : Deck → Deck → Bool) (d : Deck) (decks : List Deck)
    → counted c o (insert_by before d decks) ≡ counted c o (d ∷ decks)
counted-insert_by c o before d [] = refl
counted-insert_by c o before d (e ∷ decks) = ground (arith, counted-insert_by c o before d decks)

counted-order_by :
    (c : String) (o : Outcome) (before : Deck → Deck → Bool) (decks : List Deck)
    → counted c o (order_by before decks) ≡ counted c o decks
counted-order_by c o before [] = refl
counted-order_by c o before (d ∷ decks) = ground (
  arith,
  counted-insert_by c o before d (order_by before decks),
  counted-order_by c o before decks,
)

counted-count_deck :
    (c k : String) (o outcome : Outcome) (n : ℕ) (decks : List Deck)
    → counted c o (count_deck k outcome n decks)
      ≡ counted c o decks + (if str_eq k c && same_outcome outcome o then n else 0)
counted-count_deck c k o outcome n [] = ground arith
counted-count_deck c k o outcome n (d ∷ decks) = ground (
  arith,
  counted-count_deck c k o outcome n decks,
  eq_iff d.colors_of k,
  eq_iff d.colors_of c,
  eq_iff k c,
)

new_stats :
    (x : ℕ × String) (names : List (ℕ × String))
    → Exists (λ y. y ≡ x) names
    → (s : Stat) × (find (is_stat x.0) (map new_stat names) ≡ some s)
      × (s.games ≡ 0)
      × (s.decks ≡ [])
new_stats x [] e = elim e [ ]
new_stats x (y ∷ names) e = elim (Bool-cases (y.0 == x.0)) [
  | inl here ↦ (new_stat y, rw here refl, refl, refl)
  | inr there ↦ elim e [
    | inl same ↦ absurd (ground (arith, there, ap (λ (z : ℕ × String). z.0) same))
    | inr later ↦
        let (s, found, none_yet, empty) = new_stats x names later in
        (s, rw there found, none_yet, empty)
  ]
]

all_members : (names : List (ℕ × String)) → All (λ x. Exists (λ y. y ≡ x) names) names
all_members [] = tt
all_members (x ∷ names) = (
  inl refl,
  All-map (λ y. Exists (λ z. z ≡ y) names) (λ y. Exists (λ z. z ≡ y) (x ∷ names)) names
      (λ y e. inr e) (all_members names),
)

all_mapped {ℓ κ μ} :
    {A : Type ℓ} {B : Type κ} (P : B → Type μ) (f : A → B) (xs : List A)
    → All (λ x. P (f x)) xs
    → All P (map f xs)
all_mapped P f [] h = tt
all_mapped P f (x ∷ xs) h = (h.0, all_mapped P f xs h.1)

length-map {ℓ κ} :
    {A : Type ℓ} {B : Type κ} (f : A → B) (xs : List A) → length (map f xs) ≡ length xs
length-map f [] = refl
length-map f (x ∷ xs) = ap suc (length-map f xs)

module _ (python : Python) where
  abbrev pub of_member : ℕ → GameResult → Bool
  of_member m r = r.member_id == m

  abbrev pub of_deck : ℕ → String → Outcome → GameResult → Bool
  of_deck m c o r =
      of_member m r
      && (str_eq (color_pair python r.your_deck_colors) c
          && same_outcome (outcome_of python r.result) o)

  -- What a turn of the loop leaves for a member.
  find-visit :
      (m : ℕ) (r : GameResult) (stats : List Stat) {s : Stat}
      → find (is_stat m) stats ≡ some s
      → find (is_stat m) (visit python r stats)
        ≡ some (if of_member m r then add_result python r s else s)
  find-visit m r stats {s} found =
      let of_m = find_meets (is_stat m) stats found in
      elim (Bool-cases (any (is_stat r.member_id) stats)) [
        | inl known ↦ rw known (
            ground (
              arith,
              found,
              of_m,
              find-update_where (is_stat m) (is_stat r.member_id) (add_result python r) stats
                  (λ x. refl),
            ))
        | inr skipped ↦ rw skipped (
            ground (
              arith,
              found,
              of_m,
              skipped,
              any_of_found (is_stat m) (is_stat r.member_id) stats found,
            ))
      ]

  record Absorbed (m : ℕ) (results : List GameResult) (s : Stat) (after : List Stat) : Type 0 where
    s' : Stat
    found : find (is_stat m) after ≡ some s'
    games : s'.games ≡ s.games + total (of_member m) results
    decks :
        (c : String) (o : Outcome)
        → counted c o s'.decks ≡ counted c o s.decks + total (of_deck m c o) results

  absorb :
      (m : ℕ) (results : List GameResult) (stats : List Stat) {s : Stat}
      → find (is_stat m) stats ≡ some s
      → Absorbed m results s (collect python results stats)
  unfolding collect
  absorb m [] stats {s} found = record {
    s' = s;
    found = found;
    games = omega arith;
    decks = λ c o. omega arith;
  }
  absorb m (r ∷ results) stats {s} found =
      let rest = absorb m results (visit python r stats) (find-visit m r stats found) in
      record {
        s' = rest.s';
        found = rest.found;
        games = ground (arith, rest.games);
        decks = λ c o. ground (
          arith,
          rest.decks c o,
          counted-count_deck c (color_pair python r.your_deck_colors) o (outcome_of python r.result)
              r.games s.decks,
        );
      }

  -- A row of the report counts the results of its member.
  pub record Reports (results : List GameResult) (x : ℕ × String) (row : WeeklyRow) : Type 0 where
    pub player : row.player ≡ x.1
    pub games : row.games ≡ total (of_member x.0) results
    pub decks : (c : String) (o : Outcome) → counted c o row.decks ≡ total (of_deck x.0 c o) results

  weekly_row_found :
      (stats : List Stat) (x : ℕ × String) (s : Stat)
      → find (is_stat x.0) stats ≡ some s
      → weekly_row python stats x ≡ record {
        player = x.1;
        games = s.games;
        decks = order_by (λ c d. python.text_precedes c.colors_of d.colors_of) s.decks;
      }
  weekly_row_found stats x s found = rw (found, weekly_row) refl

  reports :
      (names : List (ℕ × String)) (results : List GameResult) (x : ℕ × String)
      → Exists (λ y. y ≡ x) names
      → Reports results x (weekly_row python (collect python results (map new_stat names)) x)
  reports names results x e =
      let (s, found, no_games, no_decks) = new_stats x names e in
      let a = absorb x.0 results (map new_stat names) found in
      subst (Reports results x) (sym (weekly_row_found _ x a.s' a.found)) (record {
        player = refl;
        games = omega (arith, a.games, no_games);
        decks = λ c o.
            omega
              (arith, a.decks c o, ap (counted c o) no_decks, counted-order_by c o _ a.s'.decks);
      })

  -- A weekly report has as many rows as there are names. Each row is that of a member and a name
  -- of the roster: its games are the games of the member's results, and for each deck colors and
  -- outcome its decks count the games of the member's results with that color pair and that
  -- outcome.
  pub aggregate_weekly_counts :
      (names : List (ℕ × String)) (results : List GameResult)
      → (length (aggregate_weekly python names results) ≡ length names)
        × All
            (λ row. (x : ℕ × String) × Exists (λ y. y ≡ x) names × Reports results x row)
            (aggregate_weekly python names results)
  unfolding aggregate_weekly
  aggregate_weekly_counts names results =
      let stats = collect python results (map new_stat names) in
      (
        length-map (weekly_row python stats) (order_by python.name_precedes names)
            ∙ order_by-length python.name_precedes names,
        all_mapped _ (weekly_row python stats) (order_by python.name_precedes names) (
            All-map (λ x. Exists (λ y. y ≡ x) names) _ (order_by python.name_precedes names)
              (λ x e. (x, e, reports names results x e))
              (order_by-All _ python.name_precedes names (all_members names))),
      )
