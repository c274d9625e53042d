-- ===== src/Duels/Patch.antt =====
-- Duels patches: `_resolve_parent`, `apply_duels_patch_operation` and `apply_duels_patch`
-- (src/lorcana/duels/replay_parser.py) over JSON documents. The code writes into the document in place;
-- here an operation returns the document afterwards. `int(token)` is the parameter `parse_int`.
pub mod Lookup
use inkspire_lorcana_develop.Prelude.{
  ℕ, zero, suc, String, Bool, true, false, ◌&&◌, ◌||◌, ◌==◌, ltb, leb, if◌then◌else◌, str_eq, List,
  [], ◌∷◌, Option, none, some, ℤ, pos, negsuc, Json, Items, Fields, Result, ok, err, and_then,
  value_error, index_error, key_error, type_error,
}
use inkspire_lorcana_develop.Prelude.Values
use inkspire_lorcana_develop.Prelude.Values.{nil, cons, end, field, list, mapping, null}
use inkspire_lorcana_develop.Duels.Pointer.{pointer_tokens}

pub data Op : Type 0 where
  adding removing replacing : Op

-- `op in {"add", "replace"}`
abbrev pub is_writing : Op → Bool
is_writing adding = true
is_writing removing = false
is_writing replacing = true

-- `operation.get("op")`, for an operation that is supported.
abbrev pub read_op : String → Option Op
read_op s =
    if str_eq s "add"
    then some adding
    else if str_eq s "remove"
    then some removing
    else if str_eq s "replace"
    then some replacing
    else none

abbrev pub length_items : Items → ℕ
length_items nil = 0
length_items (cons x xs) = suc (length_items xs)

abbrev pub item : ℕ → Items → Option Json
item n nil = none
item zero (cons x xs) = some x
item (suc n) (cons x xs) = item n xs

-- `parent[index] = value`, and at the end `parent.append(value)`.
abbrev pub set_item : ℕ → Json → Items → Items
set_item n v nil = cons v nil
set_item zero v (cons x xs) = cons v xs
set_item (suc n) v (cons x xs) = cons x (set_item n v xs)

-- `parent.insert(index, value)`
abbrev pub insert_item : ℕ → Json → Items → Items
insert_item zero v xs = cons v xs
insert_item (suc n) v nil = cons v nil
insert_item (suc n) v (cons x xs) = cons x (insert_item n v xs)

-- `parent.pop(index)` in range, and nothing out of range.
abbrev pub delete_item : ℕ → Items → Items
delete_item n nil = nil
delete_item zero (cons x xs) = xs
delete_item (suc n) (cons x xs) = cons x (delete_item n xs)

abbrev pub append_item : Json → Items → Items
append_item v nil = cons v nil
append_item v (cons x xs) = cons x (append_item v xs)

-- A dictionary's value, assignment and removal; a new key goes to the end.
abbrev pub get_field : String → Fields → Option Json
get_field k end = none
get_field k (field j v fs) = if str_eq j k then some v else get_field k fs

abbrev pub set_field : String → Json → Fields → Fields
set_field k v end = field k v end
set_field k v (field j w fs) = if str_eq j k then field j v fs else field j w (set_field k v fs)

abbrev pub delete_field : String → Fields → Fields
delete_field k end = end
delete_field k (field j w fs) = if str_eq j k then fs else field j w (delete_field k fs)

-- The three operations on a list at an index that is not negative.
abbrev pub edit_index : Op → Json → ℕ → Items → Result Items
edit_index adding v n xs =
    if leb n (length_items xs) then ok (insert_item n v xs) else err index_error
edit_index replacing v n xs =
    if leb n (length_items xs) then ok (set_item n v xs) else err index_error
edit_index removing v n xs = ok (delete_item n xs)

-- A negative index is out of range, and removing there is a no-op.
abbrev pub edit_negative : Op → Items → Result Items
edit_negative adding xs = err index_error
edit_negative replacing xs = err index_error
edit_negative removing xs = ok xs

-- The position `-`, behind the last element.
abbrev pub edit_dash : Op → Json → Items → Result Items
edit_dash adding v xs = ok (append_item v xs)
edit_dash replacing v xs = err index_error
edit_dash removing v xs = ok xs

-- What a token means in a list: `-`, no number, a negative number, or an index.
pub data Position : Type 0 where
  dash invalid negative : Position
  index : ℕ → Position

abbrev pub edit_at : Op → Json → Position → Items → Result Items
edit_at op v dash xs = edit_dash op v xs
edit_at op v invalid xs = err value_error
edit_at op v negative xs = edit_negative op xs
edit_at op v (index n) xs = edit_index op v n xs

-- The element that an intermediate token names, with its index.
abbrev pub step_at : Position → Items → Result (ℕ × Json)
step_at dash xs = err value_error
step_at invalid xs = err value_error
step_at negative xs = err index_error
step_at (index n) xs = elim (item n xs) [ none ↦ err index_error | some x ↦ ok (n, x) ]

-- `parent[last] = value` or `parent.pop(last, None)`
abbrev pub edit_fields : Op → Json → String → Fields → Fields
edit_fields removing v last fs = delete_field last fs
edit_fields adding v last fs = set_field last v fs
edit_fields replacing v last fs = set_field last v fs

-- The value of an intermediate key, or the dictionary that is created for it.
unfoldable pub step_fields : Op → String → Fields → Result Json
step_fields op token fs = elim (get_field token fs) [
  | none ↦ if is_writing op then ok (mapping end) else err key_error
  | some v ↦ ok v
]

module _ (parse_int : String → Option ℤ) where
  unfoldable pub position : String → Position
  position token = if str_eq token "-" then dash else elim (parse_int token) [
    | none ↦ invalid
    | some (negsuc n) ↦ negative
    | some (pos n) ↦ index n
  ]

  -- The part of `apply_duels_patch_operation` behind `_resolve_parent`.
  unfoldable pub edit_parent : Op → Json → String → Json → Result Json
  unfolding position
  edit_parent op v last (list xs) = and_then (edit_at op v (position last) xs) (λ ys. ok (list ys))
  edit_parent op v last (mapping fs) = ok (mapping (edit_fields op v last fs))
  edit_parent op v last other = err type_error

  -- The walk of `_resolve_parent` to the tokens' last, and the edit there.
  unfoldable pub edit : Op → Json → String → List String → Json → Result Json
  unfolding edit_parent position step_fields
  edit op v first [] doc = edit_parent op v first doc
  edit op v first (t ∷ ts) (list xs) =
      and_then (step_at (position first) xs)
        (λ (n, x). and_then (edit op v t ts x) (λ y. ok (list (set_item n y xs))))
  edit op v first (t ∷ ts) (mapping fs) =
      and_then (step_fields op first fs)
        (λ x. and_then (edit op v t ts x) (λ y. ok (mapping (set_field first y fs))))
  edit op v first (t ∷ ts) other = err type_error

  -- `apply_duels_patch_operation`, for an operation whose path is a text.
  unfoldable pub apply_duels_patch_operation : String → String → Json → Json → Result Json
  unfolding edit
  apply_duels_patch_operation op path v doc = elim (read_op op) [
    | none ↦ err value_error
    | some o ↦ and_then (pointer_tokens path) (λ tokens. elim tokens [
      | [] ↦ ok (if is_writing o then v else null)
      | t ∷ ts ↦ edit o v t ts doc
    ])
  ]

  pub record Operation : Type 0 where
    pub op : String
    pub path : String
    pub value : Json

  -- `apply_duels_patch`
  unfoldable pub apply_duels_patch : List Operation → Json → Result Json
  unfolding apply_duels_patch_operation
  apply_duels_patch [] doc = ok doc
  apply_duels_patch (o ∷ os) doc =
      and_then (apply_duels_patch_operation o.op o.path o.value doc) (apply_duels_patch os)
