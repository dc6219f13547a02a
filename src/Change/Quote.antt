-- ===== src/Change/Quote.antt =====
-- internal/service/service_change.go, `billingStart` and the part of `quote` that prices a change: from the price of
-- the new size on. `back` is `time.AddDate` for a number of months before.
use levis.Base.{
  ℕ, zero, suc, ◌+◌, ◌/◌, ◌≤◌, ◌<◌, ◌==◌, ◌≡◌, ◌⊎◌, inl, inr, refl, false, Option, none, some,
  Bool-cases, ltb, if◌then◌else◌, arith,
}
use levis.Base.Int.{ℤ, pos, negsuc, ◌-ℤ◌, ltb_ℤ, leb_ℤ}
use levis.Base.Time.{Time, second, time_sub, after}
use levis.Store.{Cycle, Result, ok, err, bad_request}
use levis.Money.{mul_div_cents}

-- `cycleMonths`
unfoldable pub cycle_months : Cycle → ℕ
cycle_months Cycle.monthly = 1
cycle_months Cycle.quarterly = 3
cycle_months Cycle.semiannually = 6
cycle_months Cycle.annually = 12
cycle_months _ = 0

-- Whole seconds of a duration, towards zero.
unfoldable pub seconds : ℤ → ℤ
seconds (pos n) = pos (n / second)
seconds (negsuc n) = pos 0 -ℤ pos ((n + 1) / second)

pub record ChangeQuote : Type 0 where
  pub charge_cents : ℤ
  pub credit_cents : ℤ
  pub remaining_seconds : ℤ
  pub total_seconds : ℤ

abbrev pub and_then {ℓ κ} : {A : Type ℓ} {B : Type κ} → Result A → (A → Result B) → Result B
and_then (ok a) f = f a
and_then (err e) f = err e

unfoldable pub charged : ℤ → ℤ → ℤ → Result ℤ
unfolding mul_div_cents
charged diff remaining cycle =
    if leb_ℤ (pos 0) diff then mul_div_cents diff remaining cycle else ok (pos 0)

unfoldable pub credited : ℤ → ℤ → ℤ → Result ℤ
unfolding mul_div_cents
credited diff remaining cycle =
    if leb_ℤ (pos 0) diff then ok (pos 0) else mul_div_cents (pos 0 -ℤ diff) remaining cycle

module _ (back : ℕ → Time → Time) where
  -- The loop of `billingStart`: whole cycles back from the end, until now is passed; `none` is fuel that ran out.
  unfoldable pub walk_back : ℕ → ℕ → Time → Time → Option Time
  walk_back zero months now start = none
  walk_back (suc fuel) months now start =
      let rest = walk_back fuel months now (back months start) in
      if after start now
      then (if ltb (back months start) start then rest else some start)
      else some start

  -- `billingStart`
  unfoldable pub billing_start : Time → Time → Cycle → Result (Option Time)
  unfolding walk_back cycle_months
  billing_start now expiry cycle =
      if cycle_months cycle == 0
      then err (bad_request "该服务不可按周期改配")
      else ok (walk_back (suc expiry) (cycle_months cycle) now expiry)

  walk_back-ends :
      (fuel months now start : ℕ)
      → start < fuel
      → (t : Time) × (walk_back fuel months now start ≡ some t)
        × (t ≤ start)
        × ((t ≤ now) ⊎ (t ≤ back months t))
  unfolding walk_back
  walk_back-ends zero months now start enough = absurd (omega arith)
  walk_back-ends (suc fuel) months now start enough = elim (Bool-cases (after start now)) [
    | inr over ↦ (start, rw over refl, omega arith, inl (ground arith))
    | inl later ↦ elim (Bool-cases (ltb (back months start) start)) [
      | inr stuck ↦ (start, rw later (rw stuck refl), omega arith, inr (ground arith))
      | inl down ↦
          (let (t, found, below, exit) =
              walk_back-ends fuel months now (back months start) (ground arith) in
            (t, rw later (rw down found), ground arith, exit))
    ]
  ]

  -- The walk back to the start of what is paid for comes to an end, for every calendar and every cycle that has
  -- months: it returns an instant that is not after the end of the paid time, and which is either not after
  -- now, or one from which the calendar does not go back.
  pub billing_start-ends :
      (now expiry : Time) (cycle : Cycle)
      → (cycle_months cycle == 0) ≡ false
      → (t : Time) × (billing_start now expiry cycle ≡ ok (some t))
        × (t ≤ expiry)
        × ((t ≤ now) ⊎ (t ≤ back (cycle_months cycle) t))
  unfolding billing_start
  billing_start-ends now expiry cycle periodic =
      let (t, found, below, exit) =
        walk_back-ends (suc expiry) (cycle_months cycle) now expiry (omega arith) in
      (t, rw periodic (rw found refl), below, exit)

  -- The seconds of the cycle that ends with the paid time.
  unfoldable pub cycle_seconds : Time → Cycle → ℤ → ℤ
  unfolding seconds cycle_months
  cycle_seconds expiry cycle total =
      let one = seconds (time_sub expiry (back (cycle_months cycle) expiry)) in
      if ltb_ℤ (pos 0) one then one else total

  unfoldable pub prorate : Time → Time → Cycle → ℤ → Time → Result ChangeQuote
  unfolding cycle_seconds seconds charged credited
  prorate now expiry cycle diff start =
      let total = seconds (time_sub expiry start) in
      let left = seconds (time_sub expiry now) in
      let remaining = if ltb_ℤ total left then total else left in
      let basis = cycle_seconds expiry cycle total in
      let quoted = and_then (charged diff remaining basis) λ charge.
        and_then (credited diff remaining basis) λ credit. ok (record {
          charge_cents = charge;
          credit_cents = credit;
          remaining_seconds = remaining;
          total_seconds = total;
        }) in
      if leb_ℤ total (pos 0) then err (bad_request "周期无效") else quoted

  -- What `walk_back` finds; the fuel does not run out.
  unfoldable pub from_start : Time → Time → Cycle → ℤ → Option Time → Result ChangeQuote
  unfolding prorate
  from_start now expiry cycle diff none = err (bad_request "周期无效")
  from_start now expiry cycle diff (some start) = prorate now expiry cycle diff start

  -- `quote`, from the price of the new size on
  unfoldable pub quote_prices : Time → Time → Cycle → ℤ → ℤ → Result ChangeQuote
  unfolding billing_start from_start
  quote_prices now expiry cycle price old_price =
      and_then (billing_start now expiry cycle) (from_start now expiry cycle (price -ℤ old_price))
