-- ===== src/Change/Timed.antt =====
-- internal/service/service_change.go, `quote`: the seconds that a quote counts, as spans of time.
use levis.Base.{
  ℕ, ◌+◌, ◌-◌, ◌*◌, ◌≤◌, ◌<◌, ◌≡◌, ◌⊎◌, inl, inr, refl, true, false, min, max, leb, Bool-cases,
  if◌then◌else◌, arith,
}
use levis.Base.Int.{ℤ, pos, pos_part, neg_part, ltb_ℤ, two_63, ◌-ℤ◌}
use levis.Base.Time.{Time, time_sub, second}
use levis.Store.{Cycle}
use levis.Change.Quote.{seconds, cycle_seconds, cycle_months}

-- `s` is the number of whole seconds in `n` nanoseconds.
abbrev pub IsSeconds : ℕ → ℤ → Type 0
IsSeconds n s = (neg_part s ≡ 0) × (pos_part s * second ≤ n) × (n < (pos_part s + 1) * second)

-- The time from `u` to `t`, up to the longest duration.
abbrev pub span : Time → Time → ℕ
span t u = min (t - u) (two_63 - 1)

pub seconds-IsSeconds : (t u : Time) → u ≤ t → IsSeconds (span t u) (seconds (time_sub t u))
unfolding seconds
seconds-IsSeconds t u h = ground arith

-- What is counted of the time that is left, and the time that was paid for, from `start` on.
pub left-IsSeconds :
    (now expiry start : Time)
    → start ≤ expiry
    → now ≤ expiry
    → IsSeconds (span expiry (max start now)) (
        if ltb_ℤ (seconds (time_sub expiry start)) (seconds (time_sub expiry now))
        then seconds (time_sub expiry start)
        else seconds (time_sub expiry now))
unfolding seconds
left-IsSeconds now expiry start h k = ground arith

-- After the end of the paid time nothing is left to count.
pub left_none :
    (now expiry start : Time)
    → expiry < now
    → pos_part (
        if ltb_ℤ (seconds (time_sub expiry start)) (seconds (time_sub expiry now))
        then seconds (time_sub expiry start)
        else seconds (time_sub expiry now))
      ≡ 0
unfolding seconds ◌-ℤ◌
left_none now expiry start gone = ground arith

second_apart : (t u : Time) → ltb_ℤ (pos 0) (seconds (time_sub t u)) ≡ true → u + second ≤ t
unfolding seconds ◌-ℤ◌
second_apart t u h = ground arith

no_second_apart : (t u : Time) → ltb_ℤ (pos 0) (seconds (time_sub t u)) ≡ false → t < u + second
unfolding seconds ◌-ℤ◌
no_second_apart t u h = ground arith

module _ (back : ℕ → Time → Time) where
  -- The seconds of one cycle before the end of the paid time, or all that were paid for if that is no second.
  abbrev pub IsBasis : Time → Cycle → ℤ → ℤ → Type 0
  IsBasis expiry cycle total basis =
      let first = back (cycle_months cycle) expiry in
      ((first + second ≤ expiry) × IsSeconds (span expiry first) basis)
      ⊎ ((expiry < first + second) × (basis ≡ total))

  pub cycle_seconds-IsBasis :
      (expiry : Time) (cycle : Cycle) (total : ℤ)
      → IsBasis expiry cycle total (cycle_seconds back expiry cycle total)
  unfolding cycle_seconds
  cycle_seconds-IsBasis expiry cycle total =
      let first = back (cycle_months cycle) expiry in
      elim (Bool-cases (ltb_ℤ (pos 0) (seconds (time_sub expiry first)))) [
        | inl whole ↦
            (let apart = second_apart expiry first whole in
              inl (apart, rw whole (seconds-IsSeconds expiry first (omega arith))))
        | inr none_ ↦ inr (no_second_apart expiry first none_, rw none_ refl)
      ]

  -- The times that a quote counts: from some start of a period, that is not after the end of the paid time and
  -- either not after now or one from which the calendar does not go back, and from now, to the end.
  pub record Timed (now expiry : Time) (remaining total : ℤ) (months : ℕ) : Type 0 where
    pub start : Time
    pub ordered : start ≤ expiry
    pub reached : (start ≤ now) ⊎ (start ≤ back months start)
    pub paid_for : IsSeconds (span expiry start) total
    pub left :
        ((now ≤ expiry) × IsSeconds (span expiry (max start now)) remaining)
        ⊎ ((expiry < now) × (pos_part remaining ≡ 0))

  pub counted-Timed :
      (now expiry : Time) (months : ℕ) (start : Time)
      → start ≤ expiry
      → ((start ≤ now) ⊎ (start ≤ back months start))
      → Timed now expiry
          (if ltb_ℤ (seconds (time_sub expiry start)) (seconds (time_sub expiry now))
            then seconds (time_sub expiry start)
            else seconds (time_sub expiry now))
          (seconds (time_sub expiry start))
          months
  counted-Timed now expiry months start h reached = record {
    start = start;
    ordered = h;
    reached = reached;
    paid_for = seconds-IsSeconds expiry start h;
    left = elim (Bool-cases (leb now expiry)) [
      | inl before ↦ inl (ground arith, left-IsSeconds now expiry start h (ground arith))
      | inr gone ↦ inr (ground arith, left_none now expiry start (ground arith))
    ];
  }
