-- ===== src/Jobs/Worker/Delay.antt =====
-- The retry delay of `Worker.run_once`.
use inkspire_lorcana_develop.Prelude.{ℕ, zero, suc, ◌+◌, ◌*◌, ◌^◌, ◌-◌, ◌≤◌, ◌≡◌, refl, min, arith}
use inkspire_lorcana_develop.Jobs.Worker.{retry_delay}
use native.Mathlib.Nat.{pow-suc}

pow_pos : (n : ℕ) → 1 ≤ 2 ^ n
pow_pos zero = omega arith
pow_pos (suc n) = rw pow-suc (omega (arith, pow_pos n))

step_one : (n : ℕ) → n + 2 - 1 ≡ suc n
step_one n = omega arith

step_zero : (n : ℕ) → n + 1 - 1 ≡ n
step_zero n = omega arith

-- The first attempt is retried after a minute, each further one after twice the delay before it up
-- to an hour, and no delay is below a minute or above an hour.
pub retry_delay_doubles :
    (n : ℕ)
    → (retry_delay 1 ≡ 60)
      × (retry_delay (n + 2) ≡ min (2 * retry_delay (n + 1)) 3600)
      × (60 ≤ retry_delay n)
      × (retry_delay n ≤ 3600)
unfolding retry_delay
retry_delay_doubles n = (
  refl,
  rw (step_one, step_zero, pow-suc) (omega arith),
  omega (arith, pow_pos (n - 1)),
  omega arith,
)
