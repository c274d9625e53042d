-- ===== src/Duels/Pointer/RoundTrip.antt =====
-- The pointer of a list of tokens, as RFC 6901 writes it, and what `_pointer_tokens` reads from it.
use Prim.Native.Char.{Char, code}
use text.Mathlib.TextEquality.{Char-path}
use inkspire_lorcana_develop.Prelude.{
  ℕ, String, true, false, ◌==◌, if◌then◌else◌, List, [], ◌∷◌, map, ok, ◌≡◌, refl, ap, ◌∙◌, sym,
  text_append, ==_iff, Bool-cases, inl, inr,
}
use inkspire_lorcana_develop.Duels.Pointer.{
  slash, tilde, replace_pair, decode_pointer_token, split_slash, pointer_tokens,
}

-- `~` is written `~0`, and `/` is written `~1`.
abbrev pub encode_token : String → String
encode_token String.[] = String.[]
encode_token (String.◌∷◌ c s) =
    let rest = encode_token s in
    if code c == tilde
    then String.◌∷◌ "~" (String.◌∷◌ "0" rest)
    else if code c == slash
    then String.◌∷◌ "~" (String.◌∷◌ "1" rest)
    else String.◌∷◌ c rest

-- A token in which only `~` is still encoded.
abbrev half_decoded : String → String
half_decoded String.[] = String.[]
half_decoded (String.◌∷◌ c s) =
    let rest = half_decoded s in
    if code c == tilde then String.◌∷◌ "~" (String.◌∷◌ "0" rest) else String.◌∷◌ c rest

abbrev pub pointer_of : List String → String
pointer_of [] = String.[]
pointer_of (t ∷ ts) = String.◌∷◌ "/" (text_append (encode_token t) (pointer_of ts))

replace_pair-other :
    (a b : ℕ) (c x : Char) (s : String)
    → (code x == a) ≡ false
    → replace_pair a b c (String.◌∷◌ x s) ≡ String.◌∷◌ x (replace_pair a b c s)
unfolding replace_pair
replace_pair-other a b c x String.[] h = refl
replace_pair-other a b c x (String.◌∷◌ y s) h = rw h refl

code_injective : (c d : Char) → (code c == code d) ≡ true → c ≡ d
code_injective c d h = Char-path c d ((==_iff (code c) (code d)).0 h)

replace_slash : (s : String) → replace_pair tilde 49 "/" (encode_token s) ≡ half_decoded s
unfolding replace_pair
replace_slash String.[] = refl
replace_slash (String.◌∷◌ c s) = elim (Bool-cases (code c == tilde)) [
  | inl hit ↦ rw hit (
      ap (λ r. String.◌∷◌ "~" r)
        (replace_pair-other tilde 49 "/" "0" (encode_token s) refl
          ∙ ap (λ r. String.◌∷◌ "0" r) (replace_slash s)))
  | inr miss ↦ elim (Bool-cases (code c == slash)) [
    | inl hit ↦
        let same : c ≡ "/" = code_injective c "/" hit in
        rw (miss, hit)
          (ap (λ r. String.◌∷◌ "/" r) (replace_slash s)
            ∙ ap (λ x. String.◌∷◌ x (half_decoded s)) (sym same))
    | inr other ↦
        rw (miss, other)
          (replace_pair-other tilde 49 "/" c (encode_token s) miss
            ∙ ap (λ r. String.◌∷◌ c r) (replace_slash s))
  ]
]

replace_tilde : (s : String) → replace_pair tilde 48 "~" (half_decoded s) ≡ s
unfolding replace_pair
replace_tilde String.[] = refl
replace_tilde (String.◌∷◌ c s) = elim (Bool-cases (code c == tilde)) [
  | inl hit ↦
      let same : c ≡ "~" = code_injective c "~" hit in
      rw hit (ap (λ r. String.◌∷◌ "~" r) (replace_tilde s) ∙ ap (λ x. String.◌∷◌ x s) (sym same))
  | inr miss ↦ rw miss (
      replace_pair-other tilde 48 "~" c (half_decoded s) miss
      ∙ ap (λ r. String.◌∷◌ c r) (replace_tilde s))
]

decode-encode_token : (t : String) → decode_pointer_token (encode_token t) ≡ t
unfolding decode_pointer_token
decode-encode_token t = ap (λ s. replace_pair tilde 48 "~" s) (replace_slash t) ∙ replace_tilde t

decode_all : (ts : List String) → map decode_pointer_token (map encode_token ts) ≡ ts
decode_all [] = refl
decode_all (t ∷ ts) = λ i. decode-encode_token t i ∷ decode_all ts i

split_slash-other :
    (c : Char) (s : String)
    → (code c == slash) ≡ false
    → split_slash (String.◌∷◌ c s) ≡ (String.◌∷◌ c (split_slash s).0, (split_slash s).1)
unfolding split_slash
split_slash-other c s h = rw h refl

-- An encoded token has no slash, so that splitting goes on behind it.
split_slash-encoded :
    (t r : String)
    → split_slash (text_append (encode_token t) r)
      ≡ (text_append (encode_token t) (split_slash r).0, (split_slash r).1)
unfolding split_slash
split_slash-encoded String.[] r = refl
split_slash-encoded (String.◌∷◌ c s) r = elim (Bool-cases (code c == tilde)) [
  | inl hit ↦
      rw hit (ap (λ p. (String.◌∷◌ "~" (String.◌∷◌ "0" p.0), p.1)) (split_slash-encoded s r))
  | inr miss ↦ elim (Bool-cases (code c == slash)) [
    | inl hit ↦
        rw (miss, hit)
          (ap (λ p. (String.◌∷◌ "~" (String.◌∷◌ "1" p.0), p.1)) (split_slash-encoded s r))
    | inr other ↦
        rw (miss, other)
          (split_slash-other c (text_append (encode_token s) r) other
            ∙ ap (λ p. (String.◌∷◌ c p.0, p.1)) (split_slash-encoded s r))
  ]
]

text_append-nil : (s : String) → text_append s String.[] ≡ s
text_append-nil String.[] = refl
text_append-nil (String.◌∷◌ c s) = ap (λ r. String.◌∷◌ c r) (text_append-nil s)

split_slash-pointer_of :
    (ts : List String) → split_slash (pointer_of ts) ≡ (String.[], map encode_token ts)
unfolding split_slash
split_slash-pointer_of [] = refl
split_slash-pointer_of (t ∷ ts) =
    ap (λ p. (String.[], p.0 ∷ p.1))
      (split_slash-encoded t (pointer_of ts)
        ∙ ap (λ p. (text_append (encode_token t) p.0, p.1)) (split_slash-pointer_of ts)
        ∙ ap (λ s. (s, map encode_token ts)) (text_append-nil (encode_token t)))

-- Splitting and decoding the JSON pointer of any list of tokens, written with `~` as `~0` and `/`
-- as `~1`, gives the tokens back.
pub pointer_tokens-pointer_of : (ts : List String) → pointer_tokens (pointer_of ts) ≡ ok ts
unfolding pointer_tokens
pointer_tokens-pointer_of [] = refl
pointer_tokens-pointer_of (t ∷ ts) =
    ap (λ p. ok (map decode_pointer_token (p.0 ∷ p.1)))
      (split_slash-encoded t (pointer_of ts)
        ∙ ap (λ p. (text_append (encode_token t) p.0, p.1)) (split_slash-pointer_of ts)
        ∙ ap (λ s. (s, map encode_token ts)) (text_append-nil (encode_token t)))
    ∙ ap ok (decode_all (t ∷ ts))
