-- ===== src/Prelude/Outcome.antt =====
-- Python's exceptions as values, and a database transaction: state passing in which an exception
-- rolls back, so an error carries no state.
use mathlib.Core.Path.{◌≡◌, refl, ap}
use mathlib.Core.Bool.{Bool, true, false}
use mathlib.Core.Logic.{◌⊎◌, inl, inr}
use inkspire_lorcana_develop.Prelude.Tests.{if◌then◌else◌}

-- `integrity_error` is the driver's error for a violated constraint, `no_result` that of `scalar_one`.
pub data Error : Type 0 where
  value_error index_error key_error type_error attribute_error parse_error client_error : Error
  integrity_error no_result job_lease_lost rating_build_error identity_admin_error : Error

pub data Result {ℓ} (A : Type ℓ) : Type ℓ where
  ok : A → Result A
  err : Error → Result A

pub ok-injective {ℓ} : {A : Type ℓ} {a b : A} → ok a ≡ ok b → a ≡ b
ok-injective {a = a} h = ap (λ r. elim r [ ok x ↦ x | err _ ↦ a ]) h

pub err-injective {ℓ} : {A : Type ℓ} {d e : Error} → ◌≡◌ {A = Result A} (err d) (err e) → d ≡ e
err-injective {d = d} h = ap (λ r. elim r [ ok _ ↦ d | err x ↦ x ]) h

module _ {ℓ κ} {A : Type ℓ} {B : Type κ} where
  abbrev pub and_then : Result A → (A → Result B) → Result B
  and_then (ok a) f = f a
  and_then (err e) f = err e

  pub and_then-eq-ok :
      (m : Result A) (f : A → Result B) {b : B}
      → and_then m f ≡ ok b
      → (a : A) × (m ≡ ok a) × (f a ≡ ok b)
  and_then-eq-ok (ok a) f h = (a, refl, h)
  and_then-eq-ok (err e) f h = cc

  -- Where the exception of a chain was raised.
  pub and_then-eq-err :
      (m : Result A) (f : A → Result B) {e : Error}
      → and_then m f ≡ err e
      → (m ≡ err e) ⊎ ((a : A) × (m ≡ ok a) × (f a ≡ err e))
  and_then-eq-err (ok a) f h = inr (a, refl, h)
  and_then-eq-err (err x) f h = inl (ap err (err-injective {A = B} h))

  -- What follows from each step's result follows from the chain's.
  pub and_then-elim {μ} :
      {P : Type μ} (m : Result A) {f : A → Result B} {b : B}
      → and_then m f ≡ ok b
      → ((a : A) → m ≡ ok a → f a ≡ ok b → P)
      → P
  and_then-elim m {f = f} h k = let (a, first, rest) = and_then-eq-ok m f h in k a first rest

pub Result-cases {ℓ} :
    {A : Type ℓ} (m : Result A) → ((a : A) × (m ≡ ok a)) ⊎ ((e : Error) × (m ≡ err e))
Result-cases (ok a) = inl (a, refl)
Result-cases (err e) = inr (e, refl)

infixl 2 ◌>>=◌
abbrev pub ◌>>=◌ {ℓ κ} : {A : Type ℓ} {B : Type κ} → Result A → (A → Result B) → Result B
m >>= f = and_then m f

-- A check that raises.
abbrev pub raise_if : Bool → Error → Result (Unit {0})
raise_if true e = err e
raise_if false e = ok tt

-- `with transaction() as connection`: what was written is kept if the block returns, and undone if it
-- raises.
abbrev pub transact {ℓ κ} : {S : Type ℓ} {A : Type κ} → (S → Result (A × S)) → S → Result A × S
transact body s = elim (body s) [ ok (a, after) ↦ (ok a, after) | err e ↦ (err e, s) ]

pub raise_if-err : (b : Bool) (d : Error) {e : Error} → raise_if b d ≡ err e → (b ≡ true) × (d ≡ e)
raise_if-err true d h = (refl, err-injective h)
raise_if-err false d h = cc

-- A guarded result that is returned was let through.
pub guarded-ok {ℓ} :
    {A : Type ℓ} (b : Bool) (a : A) (d : Error) {c : A}
    → (if b then ok a else err d) ≡ ok c
    → (b ≡ true) × (a ≡ c)
guarded-ok true a d h = (refl, ok-injective h)
guarded-ok false a d h = cc
