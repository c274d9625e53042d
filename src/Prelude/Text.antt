-- ===== src/Prelude/Text.antt =====
-- Python's `str.strip` and concatenation over texts, character by character.
use Prim.Native.Char.{code}
use Prim.Native.Nat.{ℕ}
use Prim.Native.String.{String}
use mathlib.Core.Path.{◌≡◌, refl}
use mathlib.Core.Bool.{Bool, true, false, ◌||◌, ◌&&◌}
use inkspire_lorcana_develop.Prelude.Tests.{leb, ◌==◌, if◌then◌else◌}

-- The characters that `str.isspace` accepts below U+0100, which are those that `strip` takes off.
abbrev pub is_space : ℕ → Bool
is_space c = (leb 9 c && leb c 13) || (leb 28 c && leb c 32) || c == 133 || c == 160

abbrev pub lstrip : String → String
lstrip String.[] = String.[]
lstrip (String.◌∷◌ c s) = let rest = lstrip s in if is_space (code c) then rest else String.◌∷◌ c s

abbrev pub is_empty : String → Bool
is_empty String.[] = true
is_empty (String.◌∷◌ c s) = false

abbrev pub rstrip : String → String
rstrip String.[] = String.[]
rstrip (String.◌∷◌ c s) =
    let rest = rstrip s in
    if is_empty rest && is_space (code c) then String.[] else String.◌∷◌ c rest

abbrev pub strip : String → String
strip s = rstrip (lstrip s)

strip_test : strip "  global elo " ≡ "global elo"
strip_test = refl

strip_blank : is_empty (strip "   ") ≡ true
strip_blank = refl

-- `s + t`
abbrev pub text_append : String → String → String
text_append String.[] t = t
text_append (String.◌∷◌ c s) t = String.◌∷◌ c (text_append s t)
