-- ===== src/Duels/Pointer.antt =====
-- JSON pointers: `_decode_pointer_token` and `_pointer_tokens` (src/lorcana/duels/replay_parser.py).
pub mod RoundTrip
use Prim.Native.Char.{Char, code}
use inkspire_lorcana_develop.Prelude.{
  ℕ, String, Bool, true, false, ◌&&◌, ◌==◌, if◌then◌else◌, List, [], ◌∷◌, map, Result, ok, err,
  value_error,
}

abbrev pub slash : ℕ
slash = 47

abbrev pub tilde : ℕ
tilde = 126

-- `text.replace(a + b, c)`, where `a` and `b` differ.
unfoldable pub replace_pair : ℕ → ℕ → Char → String → String
replace_pair a b c String.[] = String.[]
replace_pair a b c (String.◌∷◌ x String.[]) = String.◌∷◌ x String.[]
replace_pair a b c (String.◌∷◌ x (String.◌∷◌ y s)) =
    let replaced = replace_pair a b c s in
    let kept = replace_pair a b c (String.◌∷◌ y s) in
    if code x == a && code y == b then String.◌∷◌ c replaced else String.◌∷◌ x kept

-- `_decode_pointer_token`
unfoldable pub decode_pointer_token : String → String
decode_pointer_token token = replace_pair tilde 48 "~" (replace_pair tilde 49 "/" token)

-- `text.split("/")`: the first part and those after it.
unfoldable pub split_slash : String → String × List String
split_slash String.[] = (String.[], [])
split_slash (String.◌∷◌ c s) =
    let (first, rest) = split_slash s in
    if code c == slash then (String.[], first ∷ rest) else (String.◌∷◌ c first, rest)

-- `_pointer_tokens`
unfoldable pub pointer_tokens : String → Result (List String)
unfolding split_slash decode_pointer_token
pointer_tokens String.[] = ok []
pointer_tokens (String.◌∷◌ c s) =
    if code c == slash
    then (let (first, rest) = split_slash s in ok (map decode_pointer_token (first ∷ rest)))
    else err value_error
