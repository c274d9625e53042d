-- ===== src/Teams/Definition/WellFormed.antt =====
-- The definitions that `load_team_bootstrap` lets through.
use inkspire_lorcana_develop.Prelude.{
  ℕ, suc, ◌+◌, String, Bool, true, false, ◌||◌, if◌then◌else◌, is_empty, List, [], ◌∷◌, ◌++◌, All,
  All-append, any, any-append, any-append_new, length, length-append, ℤ, pos, eqb_ℤ, ltb_ℤ, Json,
  Items, Fields, ok, err, ok-injective, and_then-elim, raise_if, value_error, ◌≤◌, ◌≡◌, refl, sym,
  ap, ◌∙◌, subst, arith, Bool-cases, inl, inr,
}
use inkspire_lorcana_develop.Prelude.Values.{list, mapping, nil, cons}
use inkspire_lorcana_develop.PlayHub.Raw.{Builtins, get, get_of, or_mapping}
use inkspire_lorcana_develop.Teams.Definition.{
  TeamBootstrapMember, TeamBootstrap, text_or, read_player_id, read_member, add_member, read_item,
  read_members, nonempty_list, load_team_bootstrap,
}

abbrev pub Differ : TeamBootstrapMember → TeamBootstrapMember → Type 0
Differ x y = eqb_ℤ x.playhub_player_id y.playhub_player_id ≡ false

-- No player occurs twice.
abbrev pub Distinct : List TeamBootstrapMember → Type 0
Distinct [] = Unit
Distinct (item ∷ items) = All (λ y. Differ y item) items × Distinct items

-- A member has a name, a role and a positive player ID.
pub record IsComplete (m : TeamBootstrapMember) : Type 0 where
  pub named : is_empty m.preferred_display_name ≡ false
  pub role_given : is_empty m.role ≡ false
  pub positive : ltb_ℤ (pos 0) m.playhub_player_id ≡ true

abbrev pub items_length : Items → ℕ
items_length nil = 0
items_length (cons x xs) = suc (items_length xs)

not_any :
    (m x : TeamBootstrapMember) (xs : List TeamBootstrapMember)
    → any (λ y. eqb_ℤ m.playhub_player_id y.playhub_player_id) (x ∷ xs) ≡ false
    → Differ m x × (any (λ y. eqb_ℤ m.playhub_player_id y.playhub_player_id) xs ≡ false)
not_any m x xs new = ground (arith, new)

Distinct-append :
    (m : TeamBootstrapMember) (xs : List TeamBootstrapMember)
    → Distinct xs
    → any (λ x. eqb_ℤ m.playhub_player_id x.playhub_player_id) xs ≡ false
    → Distinct (xs ++ m ∷ [])
Distinct-append m [] d new = (tt, tt)
Distinct-append m (x ∷ xs) d new =
    let (here, later) = not_any m x xs new in
    (All-append (λ y. Differ y x) xs (m ∷ []) d.0 (here, tt), Distinct-append m xs d.1 later)

-- What the loop keeps: the members parsed so far, and their IDs among those seen.
record Parsed (seen : List ℤ) (parsed : List TeamBootstrapMember) : Type 0 where
  complete : All IsComplete parsed
  distinct : Distinct parsed
  noted : (i : ℤ) → any (eqb_ℤ i) seen ≡ any (λ x. eqb_ℤ i x.playhub_player_id) parsed

-- A guard on three tests that lets a value through.
guard_three :
    (a b c : Bool) (m : TeamBootstrapMember) {r : TeamBootstrapMember}
    → (if a || b || c then err value_error else ok m) ≡ ok r
    → (a ≡ false) × (b ≡ false) × (c ≡ false) × (m ≡ r)
guard_three true b c m e = cc
guard_three false true c m e = cc
guard_three false false true m e = cc
guard_three false false false m e = (refl, refl, refl, ok-injective e)

not_below_one : (i : ℤ) → ltb_ℤ i (pos 1) ≡ false → ltb_ℤ (pos 0) i ≡ true
not_below_one i h = ground arith

Parsed-add :
    (seen : List ℤ) (parsed : List TeamBootstrapMember) (m : TeamBootstrapMember)
    → IsComplete m
    → Parsed seen parsed
    → any (eqb_ℤ m.playhub_player_id) seen ≡ false
    → Parsed (m.playhub_player_id ∷ seen) (parsed ++ m ∷ [])
Parsed-add seen parsed m complete before new = record {
  complete = All-append IsComplete parsed (m ∷ []) before.complete (complete, tt);
  distinct =
      Distinct-append m parsed before.distinct (sym (before.noted m.playhub_player_id) ∙ new);
  noted = λ i. elim (Bool-cases (eqb_ℤ i m.playhub_player_id)) [
    | inl same ↦ rw same (sym (any-append (λ x. eqb_ℤ i x.playhub_player_id) parsed m same))
    | inr other ↦
        rw other
          (before.noted i ∙ sym (any-append_new (λ x. eqb_ℤ i x.playhub_player_id) parsed m other))
  ];
}

nothing-Parsed : Parsed [] []
nothing-Parsed = record { complete = tt; distinct = tt; noted = λ i. refl }

passed_both :
    (a b : Bool) {u : Unit {0}} → raise_if (a || b) value_error ≡ ok u → (a ≡ false) × (b ≡ false)
passed_both true b h = cc
passed_both false true h = cc
passed_both false false h = (refl, refl)

-- A definition that can be bootstrapped: one member for each listed item, at least one, each complete, and
-- no player twice.
pub record IsWellFormed (contents : Json) (definition : TeamBootstrap) : Type 0 where
  pub slug_given : is_empty definition.slug ≡ false
  pub name_given : is_empty definition.name ≡ false
  pub complete : All IsComplete definition.members
  pub distinct : Distinct definition.members
  pub items : Items
  pub listed : get_of "members" contents ≡ ok (list items)
  pub count : length definition.members ≡ items_length items
  pub some_members : 1 ≤ length definition.members

module _ (python : Builtins) (lower : String → String) where
  read_member-ok :
      (item : Fields) {m : TeamBootstrapMember}
      → read_member python lower item ≡ ok m
      → IsComplete m
  read_member-ok item {m} e = and_then-elim (read_player_id python lower item) e λ i read rest.
      let (named, given, low, same) =
        guard_three (is_empty (text_or python lower "" (get "preferred_display_name" item)))
          (is_empty (text_or python lower "member" (get "role" item))) (ltb_ℤ i (pos 1)) _ rest in
      subst IsComplete same
        (record { named = named; role_given = given; positive = not_below_one i low })

  abbrev AddsOne : List TeamBootstrapMember → List ℤ × List TeamBootstrapMember → Type 0
  AddsOne parsed (seen', parsed') = Parsed seen' parsed' × (length parsed' ≡ length parsed + 1)

  add_member-ok :
      (seen : List ℤ) (parsed : List TeamBootstrapMember) (m : TeamBootstrapMember)
      (r : List ℤ × List TeamBootstrapMember)
      → IsComplete m
      → Parsed seen parsed
      → add_member seen parsed m ≡ ok r
      → AddsOne parsed r
  add_member-ok seen parsed m r complete before e =
      elim (Bool-cases (any (eqb_ℤ m.playhub_player_id) seen)) [
        | inl twice ↦ absurd (ground (arith, twice, e))
        | inr new ↦
            let same : ok (m.playhub_player_id ∷ seen, parsed ++ m ∷ []) ≡ ok r =
              ground (arith, new, e) in
            subst (AddsOne parsed) (ok-injective same) (
              Parsed-add seen parsed m complete before new,
              omega (arith, length-append parsed (m ∷ [])),
            )
      ]

  read_item-ok :
      (item : Json) (seen : List ℤ) (parsed : List TeamBootstrapMember)
      (r : List ℤ × List TeamBootstrapMember)
      → Parsed seen parsed
      → read_item python lower item seen parsed ≡ ok r
      → AddsOne parsed r
  read_item-ok (mapping item) seen parsed r before e =
      and_then-elim (read_member python lower item) e
        λ m read rest. add_member-ok seen parsed m r (read_member-ok item read) before rest
  read_item-ok item seen parsed r before e = cc

  read_members-ok :
      (items : Items) (seen : List ℤ) (parsed : List TeamBootstrapMember)
      {ms : List TeamBootstrapMember}
      → Parsed seen parsed
      → read_members python lower items seen parsed ≡ ok ms
      → All IsComplete ms × Distinct ms × (length ms ≡ length parsed + items_length items)
  unfolding read_members
  read_members-ok nil seen parsed {ms} before e =
      subst (λ xs. All IsComplete xs × Distinct xs × (length xs ≡ length parsed + 0))
        (ok-injective e) (before.complete, before.distinct, omega arith)
  read_members-ok (cons item items) seen parsed {ms} before e =
      and_then-elim (read_item python lower item seen parsed) e λ (seen', parsed') first rest.
        let (next, one) = read_item-ok item seen parsed (seen', parsed') before first in
        let (complete, distinct, count) = read_members-ok items seen' parsed' next rest in
        (complete, distinct, omega (arith, one, count))

  nonempty_list-ok :
      (raw : Json) {items : Items}
      → nonempty_list raw ≡ ok items
      → (raw ≡ list items) × (1 ≤ items_length items)
  nonempty_list-ok (list (cons x xs)) {items} e =
      subst (λ ys. (list (cons x xs) ≡ list ys) × (1 ≤ items_length ys)) (ok-injective e)
        (refl, omega arith)
  nonempty_list-ok (list nil) e = cc
  nonempty_list-ok other e = cc

  -- A definition that load_team_bootstrap returns has a slug and a name that are not empty and one
  -- member for each entry of the file's list, at least one; each has a name, a role and a positive
  -- player ID, and no two have the same one.
  pub load_team_bootstrap-IsWellFormed :
      (contents : Json) {definition : TeamBootstrap}
      → load_team_bootstrap python lower contents ≡ ok definition
      → IsWellFormed contents definition
  unfolding load_team_bootstrap
  load_team_bootstrap-IsWellFormed contents {definition} e =
      and_then-elim (get_of "team" contents) e λ found _ e1.
        and_then-elim (or_mapping found) e1 λ team _ e2.
          let slug = lower (text_or python lower "" (get "slug" team)) in
          let name = text_or python lower "" (get "name" team) in
          and_then-elim (raise_if (is_empty slug || is_empty name) value_error) e2 λ _ passed e3.
            and_then-elim (get_of "members" contents) e3 λ raw members e4.
              and_then-elim (nonempty_list raw) e4 λ items some_items e5.
                and_then-elim (read_members python lower items [] []) e5 λ ms parsed done.
                  let (slug_given, name_given) =
                    passed_both (is_empty slug) (is_empty name) passed in
                  let (is_list, many) = nonempty_list-ok raw some_items in
                  let (complete, distinct, count) =
                    read_members-ok items [] [] nothing-Parsed parsed in
                  subst (IsWellFormed contents) (ok-injective done) (record {
                    slug_given = slug_given;
                    name_given = name_given;
                    complete = complete;
                    distinct = distinct;
                    items = items;
                    listed = members ∙ ap ok is_list;
                    count = omega (arith, count);
                    some_members = omega (arith, count, many);
                  })
