-- ===== src/Change/Prorated.antt =====
-- internal/service/service_change.go, `quote`: what a change costs.
use levis.Base.{ℕ, ◌+◌, ◌*◌, ◌≤◌, ◌<◌, ◌≡◌, true}
use levis.Base.Int.{ℤ, pos_part, neg_part, leb_ℤ}
use levis.Base.Time.{Time}
use levis.Store.{Cycle}
use levis.Change.Quote.{ChangeQuote, cycle_months}
use levis.Change.Timed.{Timed, IsBasis}

-- `out` is the floor of a part of an amount.
abbrev pub IsFloor : ℕ → ℤ → ℤ → ℤ → Type 0
IsFloor amount part whole out =
    (neg_part out ≡ 0)
    × (pos_part out * pos_part whole ≤ amount * pos_part part)
    × (amount * pos_part part < (pos_part out + 1) * pos_part whole)

module _ (back : ℕ → Time → Time) where
  -- What a quote says: which time is left and was paid for, the cycle that prices are for, and the prices.
  abbrev pub Prorated : Time → Time → Cycle → ℤ → ChangeQuote → Type 0
  Prorated now expiry cycle diff q =
      Timed back now expiry q.remaining_seconds q.total_seconds (cycle_months cycle)
      × ((basis : ℤ) × IsBasis back expiry cycle q.total_seconds basis
          × IsFloor (pos_part diff) q.remaining_seconds basis q.charge_cents
          × IsFloor (neg_part diff) q.remaining_seconds basis q.credit_cents)
      × (leb_ℤ q.remaining_seconds q.total_seconds ≡ true)
