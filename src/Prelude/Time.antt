-- ===== src/Prelude/Time.antt =====
-- Python's `datetime`, as far as the services read it: a naive one, or an aware one by its instant in
-- UTC, in microseconds.
use Prim.Native.Nat.{ℕ, ◌*◌}
use inkspire_lorcana_develop.Prelude.Outcome.{Result, ok, err, value_error}

pub data Datetime : Type 0 where
  naive : ℕ → Datetime
  aware : ℕ → Datetime

-- The check `value.tzinfo is None or value.utcoffset() is None`, then `astimezone(timezone.utc)`.
abbrev pub to_utc : Datetime → Result ℕ
to_utc (naive t) = err value_error
to_utc (aware t) = ok t

-- `timedelta(seconds = n)`
abbrev pub seconds : ℕ → ℕ
seconds n = n * 1000000
