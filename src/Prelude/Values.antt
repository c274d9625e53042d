-- ===== src/Prelude/Values.antt =====
-- The values of a JSON payload, as Python holds them. A float is its 64-bit pattern.
use Prim.Native.Nat.{ℕ}
use Prim.Native.String.{String}
use mathlib.Core.Bool.{Bool}
use inkspire_lorcana_develop.Prelude.Int.{ℤ}

mutual
  pub data Json : Type 0 where
    null : Json
    boolean : Bool → Json
    int : ℤ → Json
    float : ℕ → Json
    str : String → Json
    list : Items → Json
    tuple : Items → Json
    mapping : Fields → Json

  pub data Items : Type 0 where
    nil : Items
    cons : Json → Items → Items

  pub data Fields : Type 0 where
    end : Fields
    field : String → Json → Fields → Fields
