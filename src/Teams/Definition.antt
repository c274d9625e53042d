-- ===== src/Teams/Definition.antt =====
-- `load_team_bootstrap` (src/lorcana/teams/service.py) and the records of src/lorcana/teams/types.py. The
-- file's text is read and decoded by others; `int` and `str` are a parameter, and so is `str.lower`.
pub mod WellFormed
use inkspire_lorcana_develop.Prelude.{
  ℕ, String, Bool, true, false, ◌||◌, if◌then◌else◌, strip, is_empty, List, [], ◌∷◌, ◌++◌, any, ℤ,
  pos, eqb_ℤ, ltb_ℤ, Json, Items, Fields, Result, ok, err, and_then, ◌>>=◌, raise_if, value_error,
  key_error, type_error,
}
use inkspire_lorcana_develop.Prelude.Values.{list, mapping, nil, cons, str}
use inkspire_lorcana_develop.PlayHub.Raw.{Builtins, get, get_of, has_field, truthy, or_mapping}

pub record TeamBootstrapMember : Type 0 where
  pub preferred_display_name : String
  pub playhub_player_id : ℤ
  pub role : String

pub record TeamBootstrap : Type 0 where
  pub slug : String
  pub name : String
  pub members : List TeamBootstrapMember

-- The exceptions that the conversion of a player ID turns into another `ValueError`.
abbrev pub id_error {ℓ} : {A : Type ℓ} → Result A → Result A
id_error (ok a) = ok a
id_error (err key_error) = err value_error
id_error (err type_error) = err value_error
id_error (err other) = err other

-- One turn of the loop, over the IDs seen and the members parsed.
abbrev pub add_member :
    List ℤ
    → List TeamBootstrapMember
    → TeamBootstrapMember
    → Result (List ℤ × List TeamBootstrapMember)
add_member seen parsed m =
    if any (eqb_ℤ m.playhub_player_id) seen
    then err value_error
    else ok (m.playhub_player_id ∷ seen, parsed ++ m ∷ [])

-- `if not isinstance(raw_members, list) or not raw_members: raise ValueError`
abbrev pub nonempty_list : Json → Result Items
nonempty_list (list (cons x xs)) = ok (cons x xs)
nonempty_list other = err value_error

module _ (python : Builtins) (lower : String → String) where
  -- `str(value or default).strip()`
  abbrev pub text_or : String → Json → String
  text_or default value = strip (python.to_str (if truthy value then value else str default))

  -- `int(item["playhub_player_id"])`
  abbrev pub read_player_id : Fields → Result ℤ
  read_player_id item = id_error (
      if has_field "playhub_player_id" item
      then python.to_int (get "playhub_player_id" item)
      else err key_error)

  abbrev pub read_member : Fields → Result TeamBootstrapMember
  read_member item = and_then (read_player_id item) λ player_id.
      let display = text_or "" (get "preferred_display_name" item) in
      let role = text_or "member" (get "role" item) in
      if is_empty display || is_empty role || ltb_ℤ player_id (pos 1)
      then err value_error
      else ok
          (record { preferred_display_name = display; playhub_player_id = player_id; role = role })

  abbrev pub read_item :
      Json → List ℤ → List TeamBootstrapMember → Result (List ℤ × List TeamBootstrapMember)
  read_item (mapping item) seen parsed = and_then (read_member item) (add_member seen parsed)
  read_item other seen parsed = err value_error

  unfoldable pub read_members :
      Items → List ℤ → List TeamBootstrapMember → Result (List TeamBootstrapMember)
  read_members nil seen parsed = ok parsed
  read_members (cons item items) seen parsed =
      and_then (read_item item seen parsed) (λ (s, p). read_members items s p)

  unfoldable pub load_team_bootstrap : Json → Result TeamBootstrap
  load_team_bootstrap contents = do
    found ← get_of "team" contents
    team ← or_mapping found
    let slug = lower (text_or "" (get "slug" team))
    let name = text_or "" (get "name" team)
    checked ← raise_if (is_empty slug || is_empty name) value_error
    raw ← get_of "members" contents
    items ← nonempty_list raw
    members ← read_members items [] []
    ok (record { slug = slug; name = name; members = members })
