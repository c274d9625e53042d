-- ===== src/Duels/Patch/Lookup.antt =====
-- Reading a document at a path, and what the writing operations leave there.
use inkspire_lorcana_develop.Prelude.{
  ℕ, zero, suc, String, true, leb, str_eq, str_eq_self, List, [], ◌∷◌, Option, none, some, ℤ, Json,
  Items, Fields, ok, and_then, and_then-eq-ok, ◌≡◌, ◌≢◌, refl, sym, ap, subst, ◌∙◌, arith,
  Bool-cases, Option-cases, inl, inr,
}
use inkspire_lorcana_develop.Prelude.Values.{nil, cons, end, field, list, mapping}
use inkspire_lorcana_develop.Duels.Patch.{
  Op, adding, removing, replacing, is_writing, length_items, item, set_item, insert_item, get_field,
  set_field, step_fields, edit_parent, Position, dash, invalid, negative, index, edit_at, step_at,
  position, edit,
}

item-insert_item :
    (n : ℕ) (v : Json) (xs : Items)
    → leb n (length_items xs) ≡ true
    → item n (insert_item n v xs) ≡ some v
item-insert_item zero v xs h = refl
item-insert_item (suc n) v nil h = absurd (ground arith)
item-insert_item (suc n) v (cons x xs) h = item-insert_item n v xs (ground arith)

item-set_item :
    (n : ℕ) (v : Json) (xs : Items)
    → leb n (length_items xs) ≡ true
    → item n (set_item n v xs) ≡ some v
item-set_item zero v nil h = refl
item-set_item (suc n) v nil h = absurd (ground arith)
item-set_item zero v (cons x xs) h = refl
item-set_item (suc n) v (cons x xs) h = item-set_item n v xs (ground arith)

pub item_there :
    (n : ℕ) (xs : Items) {x : Json} → item n xs ≡ some x → leb n (length_items xs) ≡ true
item_there n nil h = cc
item_there zero (cons x xs) h = ground arith
item_there (suc n) (cons z xs) {x} h = ground (arith, item_there n xs {x = x} h)

pub get_field-set_field :
    (k : String) (v : Json) (fs : Fields) → get_field k (set_field k v fs) ≡ some v
get_field-set_field k v end = rw (str_eq_self k) refl
get_field-set_field k v (field j w fs) = elim (Bool-cases (str_eq j k)) [
  | inl here ↦ rw (here, here) refl
  | inr there ↦ rw (there, there) (get_field-set_field k v fs)
]

-- One step of reading.
abbrev pub read_at : Position → Items → Option Json
read_at (index n) xs = item n xs
read_at _ xs = none

read_at-edit_at :
    (op : Op) (v : Json) (p : Position) (xs : Items) {ys : Items}
    → is_writing op ≡ true
    → p ≢ dash
    → edit_at op v p xs ≡ ok ys
    → read_at p ys ≡ some v
read_at-edit_at op v dash xs writes named e = absurd (named refl)
read_at-edit_at op v invalid xs writes named e = cc
read_at-edit_at adding v negative xs writes named e = cc
read_at-edit_at replacing v negative xs writes named e = cc
read_at-edit_at removing v p xs writes named e = cc
read_at-edit_at adding v (index n) xs {ys} writes named e =
    elim (Bool-cases (leb n (length_items xs))) [
      | inl inside ↦
          let same : insert_item n v xs ≡ ys = ground (arith, inside) in
          subst (λ z. item n z ≡ some v) same (item-insert_item n v xs inside)
      | inr outside ↦ absurd (ground (arith, outside))
    ]
read_at-edit_at replacing v (index n) xs {ys} writes named e =
    elim (Bool-cases (leb n (length_items xs))) [
      | inl inside ↦
          let same : set_item n v xs ≡ ys = ground (arith, inside) in
          subst (λ z. item n z ≡ some v) same (item-set_item n v xs inside)
      | inr outside ↦ absurd (ground (arith, outside))
    ]

-- A step of the walk reads an element, and setting the element is read again.
pub read_at-step_at :
    (p : Position) (xs : Items) {n : ℕ} {x : Json} (y : Json)
    → step_at p xs ≡ ok (n, x)
    → (p ≡ index n) × (item n xs ≡ some x) × (read_at p (set_item n y xs) ≡ some y)
read_at-step_at dash xs y e = cc
read_at-step_at invalid xs y e = cc
read_at-step_at negative xs y e = cc
read_at-step_at (index m) xs {n} {x} y e = elim (Option-cases (item m xs)) [
  | inl absent ↦ absurd (ground (arith, absent))
  | inr (z, there) ↦
      let at : m ≡ n = ground (arith, there) in
      let same : z ≡ x = ground (arith, there) in
      let read : item n xs ≡ some x = ap (λ k. item k xs) (sym at) ∙ there ∙ ap some same in
      (
        ap index at,
        read,
        subst (λ k. item m (set_item k y xs) ≡ some y) at
            (item-set_item m y xs (item_there m xs there)),
      )
]

module _ (parse_int : String → Option ℤ) where
  -- One token read in a document.
  unfoldable pub lookup_one : String → Json → Option Json
  unfolding position
  lookup_one token (list xs) = read_at (position parse_int token) xs
  lookup_one token (mapping fs) = get_field token fs
  lookup_one token other = none

  unfoldable pub lookup : String → List String → Json → Option Json
  unfolding lookup_one
  lookup first [] doc = lookup_one first doc
  lookup first (t ∷ ts) doc = elim (lookup_one first doc) [ none ↦ none | some x ↦ lookup t ts x ]

  abbrev pub last_of : String → List String → String
  last_of first [] = first
  last_of first (t ∷ ts) = last_of t ts

  lookup_one-edit_parent :
      (op : Op) (v : Json) (token : String) (doc : Json) {after : Json}
      → is_writing op ≡ true
      → position parse_int token ≢ dash
      → edit_parent parse_int op v token doc ≡ ok after
      → lookup_one token after ≡ some v
  unfolding edit_parent lookup_one
  lookup_one-edit_parent op v token (list xs) {after} writes named e =
      let (ys, edited, same) =
        and_then-eq-ok (edit_at op v (position parse_int token) xs) (λ z. ok (list z)) e in
      let is : list ys ≡ after = ground arith in
      subst (λ d. lookup_one token d ≡ some v) is
        (read_at-edit_at op v (position parse_int token) xs writes named edited)
  lookup_one-edit_parent removing v token doc writes named e = cc
  lookup_one-edit_parent adding v token (mapping fs) {after} writes named e =
      let is : mapping (set_field token v fs) ≡ after = ground arith in
      subst (λ d. lookup_one token d ≡ some v) is (get_field-set_field token v fs)
  lookup_one-edit_parent replacing v token (mapping fs) {after} writes named e =
      let is : mapping (set_field token v fs) ≡ after = ground arith in
      subst (λ d. lookup_one token d ≡ some v) is (get_field-set_field token v fs)
  lookup_one-edit_parent op v token other writes named e = cc

  -- After an add or a replace that succeeds, whose last token is not the position behind a list,
  -- reading the document at the same path finds the value that was written.
  pub lookup-edit :
      (op : Op) (v : Json) (first : String) (rest : List String) (doc : Json) {after : Json}
      → is_writing op ≡ true
      → position parse_int (last_of first rest) ≢ dash
      → edit parse_int op v first rest doc ≡ ok after
      → lookup first rest after ≡ some v
  unfolding edit lookup lookup_one
  lookup-edit op v first [] doc writes named e =
      lookup_one-edit_parent op v first doc writes named e
  lookup-edit op v first (t ∷ ts) (list xs) {after} writes named e =
      let ((n, x), stepped, continued) =
        and_then-eq-ok (step_at (position parse_int first) xs)
          (λ (n, x). and_then (edit parse_int op v t ts x) (λ y. ok (list (set_item n y xs)))) e in
      let (y, inner, same) =
        and_then-eq-ok (edit parse_int op v t ts x) (λ y. ok (list (set_item n y xs))) continued in
      let (_, _, read) = read_at-step_at (position parse_int first) xs y stepped in
      let is : list (set_item n y xs) ≡ after = ground arith in
      let below : lookup t ts y ≡ some v = lookup-edit op v t ts x writes named inner in
      subst (λ d. lookup first (t ∷ ts) d ≡ some v) is (rw (read, lookup) below)
  lookup-edit op v first (t ∷ ts) (mapping fs) {after} writes named e =
      let (x, stepped, continued) =
        and_then-eq-ok (step_fields op first fs)
          (λ x. and_then (edit parse_int op v t ts x) (λ y. ok (mapping (set_field first y fs))))
          e in
      let (y, inner, same) =
        and_then-eq-ok (edit parse_int op v t ts x) (λ y. ok (mapping (set_field first y fs)))
          continued in
      let is : mapping (set_field first y fs) ≡ after = ground arith in
      let below : lookup t ts y ≡ some v = lookup-edit op v t ts x writes named inner in
      subst (λ d. lookup first (t ∷ ts) d ≡ some v) is
        (rw (get_field-set_field first y fs, lookup) below)
  lookup-edit op v first (t ∷ ts) other writes named e = cc
