-- ===== src/PlayHub/Raw.antt =====
-- How the parser (src/lorcana/playhub/parser.py) reads Python's dynamic values: `.get`, truth, iteration
-- and the conversions. The built-ins `int`, `str` and `datetime.fromisoformat` are a parameter.
use Prim.Native.Char.{code}
use inkspire_lorcana_develop.Prelude.{
  ℕ, zero, String, Bool, true, false, not, ◌||◌, ◌==◌, if◌then◌else◌, str_eq, text_append, Option,
  none, some, ℤ, pos, Json, Items, Fields, Result, ok, err, and_then, value_error, type_error,
  attribute_error, parse_error, Datetime, naive, aware,
}
use inkspire_lorcana_develop.Prelude.Values.{
  null, boolean, int, float, str, list, tuple, mapping, nil, end, field,
}

-- Python's conversions and `==` on JSON values; `from_isoformat` raises `ValueError` on a text that is no
-- date.
pub record Builtins : Type 0 where
  pub to_int : Json → Result ℤ
  pub to_str : Json → String
  pub from_isoformat : String → Result Datetime
  pub equal : Json → Json → Bool

-- `raw.get(key)`
abbrev pub get : String → Fields → Json
get k end = null
get k (field j v fs) = if str_eq j k then v else get k fs

-- `key in raw`
abbrev pub has_field : String → Fields → Bool
has_field k end = false
has_field k (field j v fs) = if str_eq j k then true else has_field k fs

-- `raw.get(key)` on a value of any type.
abbrev pub get_of : String → Json → Result Json
get_of k (mapping fs) = ok (get k fs)
get_of k other = err attribute_error

-- `bool(value)`; a float is 0.0 or -0.0, or true.
abbrev pub truthy : Json → Bool
truthy null = false
truthy (boolean b) = b
truthy (int (pos zero)) = false
truthy (int other) = true
truthy (float bits) = not (bits == 0 || bits == 9223372036854775808)
truthy (str String.[]) = false
truthy (str other) = true
truthy (list nil) = false
truthy (list other) = true
truthy (tuple nil) = false
truthy (tuple other) = true
truthy (mapping end) = false
truthy (mapping other) = true

abbrev pub is_null : Json → Bool
is_null null = true
is_null other = false

-- `value == ""`
abbrev pub is_blank : Json → Bool
is_blank (str String.[]) = true
is_blank other = false

-- `value == text`
abbrev pub is_text : String → Json → Bool
is_text s (str t) = str_eq t s
is_text s other = false

-- `value or {}`, for a value on which `.get` is called.
abbrev pub or_mapping : Json → Result Fields
or_mapping value =
    if truthy value then elim value [ mapping fs ↦ ok fs | _ ↦ err attribute_error ] else ok end

-- `for raw in value or []`, whose elements are read by `.get`: the elements of a text and the keys of a
-- dictionary are texts.
abbrev pub or_items : Json → Result Items
or_items value =
    let read : Result Items = elim value [
      | list xs ↦ ok xs
      | tuple xs ↦ ok xs
      | mapping fs ↦ err attribute_error
      | str s ↦ err attribute_error
      | _ ↦ err type_error
    ] in
    if truthy value then read else ok nil

-- `value.replace("Z", "+00:00")`
abbrev pub replace_zulu : String → String
replace_zulu String.[] = String.[]
replace_zulu (String.◌∷◌ c s) =
    let rest = replace_zulu s in
    if code c == 90 then text_append "+00:00" rest else String.◌∷◌ c rest

-- The exceptions that a conversion turns into `PlayHubParseError`.
abbrev pub int_error {ℓ} : {A : Type ℓ} → Result A → Result A
int_error (ok a) = ok a
int_error (err value_error) = err parse_error
int_error (err type_error) = err parse_error
int_error (err other) = err other

abbrev pub date_error {ℓ} : {A : Type ℓ} → Result A → Result A
date_error (ok a) = ok a
date_error (err value_error) = err parse_error
date_error (err other) = err other

-- A date without a zone is refused; the others are converted to UTC.
abbrev pub to_zone : Datetime → Result (Option ℕ)
to_zone (naive t) = err parse_error
to_zone (aware t) = ok (some t)

module _ (python : Builtins) where
  -- `_required_int`
  abbrev pub required_int : Json → Result ℤ
  required_int (boolean b) = err parse_error
  required_int value = int_error (python.to_int value)

  -- `_optional_int`
  abbrev pub optional_int : Json → Result (Option ℤ)
  optional_int value =
      if is_null value || is_blank value
      then ok none
      else and_then (required_int value) (λ n. ok (some n))

  -- `_player_id`
  abbrev pub player_id_of : Json → Result (Option ℤ)
  player_id_of (mapping fs) = optional_int (get "id" fs)
  player_id_of value = optional_int value

  -- `parse_source_datetime`, of a value that JSON can carry.
  abbrev pub parse_source_datetime : Json → Result (Option ℕ)
  parse_source_datetime null = ok none
  parse_source_datetime (str String.[]) = ok none
  parse_source_datetime (str s) =
      and_then (date_error (python.from_isoformat (replace_zulu s))) to_zone
  parse_source_datetime other = err parse_error
