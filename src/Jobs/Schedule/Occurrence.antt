-- ===== src/Jobs/Schedule/Occurrence.antt =====
-- Lemmas on `next_occurrence` (src/lorcana/jobs/schedule.py).
use inkspire_lorcana_develop.Prelude.{
  ℕ, String, true, Option, some, leb, ok, ℤ, pos, negsuc, aware, ◌≡◌, refl, ◌<◌, ◌≤◌, ◌⊎◌, inl, inr,
  ltb, ◌==◌, arith, Bool-cases, Option-cases, subst,
}
use inkspire_lorcana_develop.Jobs.Schedule.{
  Zone, ScheduleSpec, interval, daily, unsupported, in_range, time_of_day, next_local,
  next_occurrence,
}

-- The local date and time is after the other.
abbrev pub IsLater : ℕ × ℕ → ℕ × ℕ → Type 0
IsLater a b = (b.0 < a.0) ⊎ ((a.0 ≡ b.0) × (b.1 < a.1))

-- A zone whose clock is never set back: at a later point in time it does not read earlier.
abbrev pub IsForward : Zone → Type 0
IsForward z = (u t : ℕ) → u ≤ t → IsLater (Zone.local z u) (Zone.local z t) → ⊥

-- At the instant of a wall clock time the clock does not read earlier than that time. It reads later
-- if the time is one that the clock skips.
abbrev pub IsReached : Zone → Type 0
IsReached z = (day time : ℕ) → IsLater (day, time) (Zone.local z (Zone.instant z day time)) → ⊥

not_later : (a b : ℕ × ℕ) → (IsLater a b → ⊥) → (a.0 < b.0) ⊎ ((a.0 ≡ b.0) × (a.1 ≤ b.1))
not_later (d, s) (e, t) never = elim (Bool-cases (ltb e d)) [
  | inl after ↦ absurd (never (inl (ground arith)))
  | inr upto ↦ elim (Bool-cases (d == e)) [
    | inr other ↦ inl (ground arith)
    | inl same ↦ elim (Bool-cases (ltb t s)) [
      | inl after ↦ absurd (never (inr (ground arith, ground arith)))
      | inr before ↦ inr (ground arith, ground arith)
    ]
  ]
]

not_later_trans :
    (a b c : ℕ × ℕ)
    → (a.0 < b.0) ⊎ ((a.0 ≡ b.0) × (a.1 ≤ b.1))
    → (b.0 < c.0) ⊎ ((b.0 ≡ c.0) × (b.1 ≤ c.1))
    → IsLater a c
    → ⊥
not_later_trans (d, s) (e, t) (f, u) h k l = ground (arith, h, k, l)

instant_later :
    (z : Zone) (t day time : ℕ)
    → IsForward z
    → IsReached z
    → IsLater (day, time) (Zone.local z t)
    → t < Zone.instant z day time
instant_later z t day time forward reached later =
    let at = Zone.instant z day time in
    elim (Bool-cases (leb at t)) [
      | inr not_yet ↦ ground arith
      | inl past ↦ absurd (
          not_later_trans (day, time) (Zone.local z at) (Zone.local z t)
            (not_later (day, time) (Zone.local z at) (reached day time))
            (not_later (Zone.local z at) (Zone.local z t) (forward at t (ground arith))) later)
    ]

next_local-IsLater : (at : ℕ) (reading : ℕ × ℕ) → IsLater (next_local at reading) reading
next_local-IsLater at (day, time) = elim (Bool-cases (leb at time)) [
  | inl past ↦ rw past (inl (omega arith))
  | inr ahead ↦ rw ahead (inr (refl, ground arith))
]

next_local_first :
    (at : ℕ) (reading : ℕ × ℕ) (day : ℕ)
    → IsLater (day, at) reading
    → (next_local at reading).0 ≤ day
next_local_first at (today, time) day later = ground (arith, later)

-- In zones whose clock is never set back and, at the instant of a wall clock time, does not read
-- earlier than it, an occurrence that next_occurrence returns is strictly later than the given
-- aware time.
pub next_occurrence_later :
    (zones : String → Option Zone) (spec : ScheduleSpec) (after : ℕ) {t : ℕ}
    → ((name : String) (z : Zone) → zones name ≡ some z → IsForward z × IsReached z)
    → next_occurrence zones spec (aware after) ≡ ok t
    → after < t
unfolding next_occurrence
next_occurrence_later zones (interval (pos n)) after {t} steady e = ground arith
next_occurrence_later zones (interval (negsuc n)) after {t} steady e = ground arith
next_occurrence_later zones (daily hour minute timezone) after {t} steady e =
    elim (Option-cases (zones timezone)) [
      | inl unknown ↦ absurd (ground (arith, unknown))
      | inr (z, known) ↦
          let next = next_local (time_of_day hour minute) (Zone.local z after) in
          let same : Zone.instant z next.0 next.1 ≡ t = ground (arith, known) in
          subst (λ x. after < x) same
            (instant_later z after next.0 next.1 (steady timezone z known).0
              (steady timezone z known).1
              (next_local-IsLater (time_of_day hour minute) (Zone.local z after)))
    ]
next_occurrence_later zones unsupported after steady e = cc

next_local_time : (at : ℕ) (reading : ℕ × ℕ) → (next_local at reading).1 ≡ at
next_local_time at (day, time) = elim (Bool-cases (leb at time)) [
  | inl past ↦ rw past refl
  | inr ahead ↦ rw ahead refl
]

next_occurrence_daily :
    (zones : String → Option Zone) (hour minute : ℤ) (timezone : String) (z : Zone) (after : ℕ)
    → in_range hour 23 ≡ true
    → in_range minute 59 ≡ true
    → zones timezone ≡ some z
    → let next = next_local (time_of_day hour minute) (Zone.local z after) in
      next_occurrence zones (daily hour minute timezone) (aware after)
      ≡ ok (Zone.instant z next.0 next.1)
unfolding next_occurrence
next_occurrence_daily zones hour minute timezone z after hour_ok minute_ok known =
    rw hour_ok (rw minute_ok (rw known refl))

-- For a daily schedule with hour and minute in range and a known zone, the next occurrence after
-- an aware time is the instant of that wall clock time on the first local date on which it is
-- after the zone's reading of the given time.
pub daily_first :
    (zones : String → Option Zone) (hour minute : ℤ) (timezone : String) (z : Zone) (after : ℕ)
    → in_range hour 23 ≡ true
    → in_range minute 59 ≡ true
    → zones timezone ≡ some z
    → let at = time_of_day hour minute in
      (day : ℕ) × (next_occurrence zones (daily hour minute timezone) (aware after)
        ≡ ok (Zone.instant z day at))
      × IsLater (day, at) (Zone.local z after)
      × ((d : ℕ) → IsLater (d, at) (Zone.local z after) → day ≤ d)
unfolding next_occurrence
daily_first zones hour minute timezone z after hour_ok minute_ok known =
    let at = time_of_day hour minute in
    let reading = Zone.local z after in
    (
      (next_local at reading).0,
      subst
          (λ time.
            next_occurrence zones (daily hour minute timezone) (aware after)
            ≡ ok (Zone.instant z (next_local at reading).0 time))
          (next_local_time at reading)
          (next_occurrence_daily zones hour minute timezone z after hour_ok minute_ok known),
      subst (λ time. IsLater ((next_local at reading).0, time) reading) (next_local_time at reading)
          (next_local-IsLater at reading),
      λ d later. next_local_first at reading d later,
    )
