-- ===== src/Duels/Tests.antt =====
-- The theorems on Duels replays and weekly reports at concrete documents and results.
use inkspire_lorcana_develop.Prelude.{
  ℕ, Exists, All, length, map, List, ltb, false, String, [], ◌∷◌, Option, none, some, ℤ, pos, Json,
  ok, if◌then◌else◌, str_eq, ◌≡◌, ◌≢◌, refl,
}
use inkspire_lorcana_develop.Prelude.Values.{nil, cons, end, field, int, str, list, mapping}
use inkspire_lorcana_develop.Duels.Weekly.{Python, GameResult, collect, aggregate_weekly}
use inkspire_lorcana_develop.Duels.Weekly.Totals.{Reports, aggregate_weekly_counts}
use inkspire_lorcana_develop.Duels.Pointer.{pointer_tokens}
use inkspire_lorcana_develop.Duels.Pointer.RoundTrip.{pointer_of, pointer_tokens-pointer_of}
use inkspire_lorcana_develop.Duels.Patch.{replacing, position, dash, edit, edit_parent, step_fields}
use inkspire_lorcana_develop.Duels.Patch.Lookup.{lookup, lookup-edit}

abbrev parse_digit : String → Option ℤ
parse_digit s = if str_eq s "0" then some (pos 0) else if str_eq s "1" then some (pos 1) else none

pointer_tokens-pointer_of_example :
    pointer_tokens (pointer_of ("a/b" ∷ "~1" ∷ "" ∷ [])) ≡ ok ("a/b" ∷ "~1" ∷ "" ∷ [])
pointer_tokens-pointer_of_example = pointer_tokens-pointer_of ("a/b" ∷ "~1" ∷ "" ∷ [])

abbrev hand : Json → Json
hand second = mapping (field "hand" (list (cons (int (pos 4)) (cons second nil))) end)

second_named : position parse_digit "1" ≢ dash
unfolding position
second_named same = cc

second_replaced :
    edit parse_digit replacing (int (pos 9)) "hand" ("1" ∷ []) (hand (int (pos 5)))
    ≡ ok (hand (int (pos 9)))
unfolding edit edit_parent step_fields position
second_replaced = refl

lookup-edit_example : lookup parse_digit "hand" ("1" ∷ []) (hand (int (pos 9))) ≡ some (int (pos 9))
lookup-edit_example =
    lookup-edit parse_digit replacing (int (pos 9)) "hand" ("1" ∷ []) (hand (int (pos 5))) refl
      second_named second_replaced

-- `str` of a text; the other functions are told apart no further.
abbrev python : Python
python = record {
  to_str = λ v. elim v [ str s ↦ s | _ ↦ "" ];
  lower = λ s. s;
  title = λ s. s;
  name_precedes = λ a b. ltb a.0 b.0;
  text_precedes = λ s t. false;
}

abbrev game : ℕ → String → String → ℕ → GameResult
game member result color n = record {
  member_id = member;
  result = str result;
  your_deck_colors = list (cons (str color) nil);
  games = n;
}

abbrev week : List GameResult
week =
    game 1 "win" "Ruby" 3
    ∷ game 9 "win" "Ruby" 5
    ∷ game 1 "lost" "Ruby" 2
    ∷ game 1 "won" "Steel" 1
    ∷ []

abbrev roster : List (ℕ × String)
roster = (2, "Bob") ∷ (1, "Ann") ∷ []

ann_games :
    map {B = String × ℕ} (λ row. (row.player, row.games)) (aggregate_weekly python roster week)
    ≡ (("Ann", 6) ∷ ("Bob", 0) ∷ [])
unfolding aggregate_weekly collect
ann_games = refl

aggregate_weekly_counts_example :
    (length (aggregate_weekly python roster week) ≡ 2)
    × All
        (λ row. (x : ℕ × String) × Exists (λ y. y ≡ x) roster × Reports python week x row)
        (aggregate_weekly python roster week)
aggregate_weekly_counts_example = aggregate_weekly_counts python roster week
