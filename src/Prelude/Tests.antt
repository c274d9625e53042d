-- ===== src/Prelude/Tests.antt =====
-- Boolean tests on the native numbers, the conditional, and case splits that keep the equation.
use Prim.Native.Nat.{ℕ, ◌≤◌, ◌<◌, compare, Ordering}
use Prim.Native.String.{String}
use mathlib.Core.Path.{◌≡◌, refl, sym, subst}
use mathlib.Core.Logic.{◌↔◌, ◌⊎◌, inl, inr}
use mathlib.Core.Bool.{Bool, true, false, ◌&&◌}
use mathlib.Core.Option.{Option, none, some}
use native.Mathlib.Omega.{arith}
use text.Mathlib.Text.{◌==◌ as str_eq}
use text.Mathlib.TextEquality.{eq_iff}

abbrev pub ltb : ℕ → ℕ → Bool
ltb a b = elim (compare a b) [ Ordering.lt ↦ true | _ ↦ false ]

abbrev pub leb : ℕ → ℕ → Bool
leb a b = elim (compare a b) [ Ordering.gt ↦ false | _ ↦ true ]

infix 50 ◌==◌
abbrev pub ◌==◌ : ℕ → ℕ → Bool
a == b = elim (compare a b) [ Ordering.eq ↦ true | _ ↦ false ]

infix 1 if◌then◌else◌
abbrev pub if◌then◌else◌ {ℓ} : {A : Type ℓ} → Bool → A → A → A
if true then x else y = x
if false then x else y = y

pub ltb→lt : (a b : ℕ) → ltb a b ≡ true → a < b
ltb→lt a b h = ground arith

pub lt→ltb : (a b : ℕ) → a < b → ltb a b ≡ true
lt→ltb a b h = ground arith

pub leb→le : (a b : ℕ) → leb a b ≡ true → a ≤ b
leb→le a b h = ground arith

pub le→leb : (a b : ℕ) → a ≤ b → leb a b ≡ true
le→leb a b h = ground arith

pub ==_iff : (a b : ℕ) → ((a == b) ≡ true) ↔ (a ≡ b)
==_iff a b = ground arith

pub ==_refl : (a : ℕ) → (a == a) ≡ true
==_refl a = ground arith

pub ruleset tests = (arith, ltb→lt, lt→ltb, leb→le, le→leb)

pub Bool-cases : (b : Bool) → (b ≡ true) ⊎ (b ≡ false)
Bool-cases true = inl refl
Bool-cases false = inr refl

pub Option-cases {ℓ} : {A : Type ℓ} (o : Option A) → (o ≡ none) ⊎ ((a : A) × (o ≡ some a))
Option-cases none = inl refl
Option-cases (some a) = inr (a, refl)

-- Both halves of a conjunction of tests.
pub and-true : (a b : Bool) → (a && b) ≡ true → (a ≡ true) × (b ≡ true)
and-true true b h = (refl, h)
and-true false b h = ground arith

-- SQL `column == value`, where `None` is rendered `IS NULL`.
abbrev pub opt_eq : Option ℕ → Option ℕ → Bool
opt_eq none none = true
opt_eq (some a) (some b) = a == b
opt_eq _ _ = false

pub opt_eq→eq : (o p : Option ℕ) → opt_eq o p ≡ true → o ≡ p
opt_eq→eq none none h = refl
opt_eq→eq none (some b) h = ground arith
opt_eq→eq (some a) none h = ground arith
opt_eq→eq (some a) (some b) h = ground arith

pub opt_eq_refl : (o : Option ℕ) → opt_eq o o ≡ true
opt_eq_refl none = refl
opt_eq_refl (some a) = ground arith

-- SQL `column <= now`, which is not true of a NULL.
abbrev pub opt_le : Option ℕ → ℕ → Bool
opt_le none now = false
opt_le (some t) now = leb t now

-- SQL `column = value` on a text column: a NULL equals nothing.
abbrev pub key_eq : Option String → String → Bool
key_eq none k = false
key_eq (some j) k = str_eq j k

pub key_eq→eq : (o : Option String) (k : String) → key_eq o k ≡ true → o ≡ some k
key_eq→eq none k h = ground arith
key_eq→eq (some j) k h = ground (arith, eq_iff j k)

pub key_eq_self : (k : String) → key_eq (some k) k ≡ true
key_eq_self k = (eq_iff k k).1 refl

pub eq→key_eq : (o : Option String) (k : String) → o ≡ some k → key_eq o k ≡ true
eq→key_eq o k h = subst (λ x. key_eq x k ≡ true) (sym h) (key_eq_self k)

pub str_eq_self : (s : String) → str_eq s s ≡ true
str_eq_self s = (eq_iff s s).1 refl
