-- ===== src/Ratings/Elo/Players.antt =====
-- The player dictionary: reading what was written, and the number of players.
use inkspire_lorcana_develop.Prelude.{
  ℕ, ◌+◌, true, false, [], ◌∷◌, ◌≡◌, refl, ◌==◌, if◌then◌else◌, arith,
}
use inkspire_lorcana_develop.Ratings.Elo.{Floats, PlayerRating, Players, get_player, put_player}

module _ (F : Floats) where
  pub get_player-put_player :
      (i j : ℕ) (r d : PlayerRating F) (ps : Players F)
      → get_player F i (put_player F j r ps) d ≡ (if i == j then r else get_player F i ps d)
  get_player-put_player i j r d [] = refl
  get_player-put_player i j r d ((k, s) ∷ rest) = ground (arith, get_player-put_player i j r d rest)

  -- Every record in the dictionary.
  abbrev pub Every : (PlayerRating F → Type 0) → Players F → Type 0
  Every P [] = Unit
  Every P ((k, r) ∷ rest) = P r × Every P rest

  pub put_player-Every :
      (P : PlayerRating F → Type 0) (i : ℕ) (r : PlayerRating F) (ps : Players F)
      → P r
      → Every P ps
      → Every P (put_player F i r ps)
  put_player-Every P i r [] p h = (p, tt)
  put_player-Every P i r ((k, s) ∷ rest) p h =
      elim (i == k)
        as (λ b. Every P (if b then (k, r) ∷ rest else (k, s) ∷ put_player F i r rest)) [
          | true ↦ (p, h.1)
          | false ↦ (h.0, put_player-Every P i r rest p h.1)
        ]

  pub get_player-Every :
      (P : PlayerRating F → Type 0) (i : ℕ) (d : PlayerRating F) (ps : Players F)
      → P d
      → Every P ps
      → P (get_player F i ps d)
  get_player-Every P i d [] p h = p
  get_player-Every P i d ((k, s) ∷ rest) p h =
      elim (i == k) as (λ b. P (if b then s else get_player F i rest d)) [
        | true ↦ h.0
        | false ↦ get_player-Every P i d rest p h.1
      ]

  -- A number taken from each record, summed over the dictionary.
  abbrev pub total : (PlayerRating F → ℕ) → Players F → ℕ
  total f [] = 0
  total f ((k, r) ∷ rest) = f r + total f rest

  -- Replacing a record moves the sum by the difference; an absent player counts as the default.
  pub total-put_player :
      (f : PlayerRating F → ℕ) (i : ℕ) (r d : PlayerRating F) (ps : Players F)
      → f d ≡ 0
      → total f (put_player F i r ps) + f (get_player F i ps d) ≡ total f ps + f r
  total-put_player f i r d [] h = omega arith
  total-put_player f i r d ((k, s) ∷ rest) h = ground (arith, total-put_player f i r d rest h)
