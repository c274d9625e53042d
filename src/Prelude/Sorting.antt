-- ===== src/Prelude/Sorting.antt =====
-- Sorting by a test of which of two rows comes first, as SQL and Python order rows.
use Prim.Native.Nat.{suc}
use mathlib.Core.Path.{◌≡◌, refl, ap, ◌∙◌}
use mathlib.Core.Bool.{Bool}
use mathlib.Core.Logic.{inl, inr}
use mathlib.Core.List.{List, [], ◌∷◌}
use native.Mathlib.Omega.{arith}
use inkspire_lorcana_develop.Prelude.Tests.{if◌then◌else◌, Bool-cases}
use inkspire_lorcana_develop.Prelude.Lists.{All, length}

module _ {ℓ} {A : Type ℓ} where
  -- A row put in its place among sorted rows.
  abbrev pub insert_by : (A → A → Bool) → A → List A → List A
  insert_by precedes x [] = x ∷ []
  insert_by precedes x (y ∷ ys) = if precedes y x then y ∷ insert_by precedes x ys else x ∷ y ∷ ys

  abbrev pub order_by : (A → A → Bool) → List A → List A
  order_by precedes [] = []
  order_by precedes (x ∷ xs) = insert_by precedes x (order_by precedes xs)

  insert_by-All {κ} :
      (P : A → Type κ) (before : A → A → Bool) (x : A) (xs : List A)
      → P x
      → All P xs
      → All P (insert_by before x xs)
  insert_by-All P before x [] p h = (p, tt)
  insert_by-All P before x (y ∷ ys) p h = elim (Bool-cases (before y x)) [
    | inl later ↦ rw later (h.0, insert_by-All P before x ys p h.1)
    | inr first ↦ rw first (p, h)
  ]

  pub order_by-All {κ} :
      (P : A → Type κ) (before : A → A → Bool) (xs : List A) → All P xs → All P (order_by before xs)
  order_by-All P before [] h = tt
  order_by-All P before (x ∷ xs) h =
      insert_by-All P before x (order_by before xs) h.0 (order_by-All P before xs h.1)

  insert_by-length :
      (before : A → A → Bool) (x : A) (xs : List A)
      → length (insert_by before x xs) ≡ suc (length xs)
  insert_by-length before x [] = refl
  insert_by-length before x (y ∷ ys) = ground (arith, insert_by-length before x ys)

  pub order_by-length :
      (before : A → A → Bool) (xs : List A) → length (order_by before xs) ≡ length xs
  order_by-length before [] = refl
  order_by-length before (x ∷ xs) =
      insert_by-length before x (order_by before xs) ∙ ap suc (order_by-length before xs)
