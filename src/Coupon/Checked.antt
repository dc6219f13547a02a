-- ===== src/Coupon/Checked.antt =====
-- internal/service/coupon.go, `validateCoupon`: which inputs are accepted.
use levis.Base.{◌≤◌, ◌<◌, ◌≡◌, Bool, true, false, ◌||◌, Option, some, String}
use levis.Base.Int.{ℤ, pos, ◌≤ℤ◌, ltb_ℤ}
use levis.Base.Time.{Time}
use levis.Store.{CouponType}
use levis.Coupon.Input.{InputStatus, CouponInput}
use text.Mathlib.Text.{◌==◌ as str_eq}

abbrev pub IsDiscount : CouponType → ℤ → ℤ → Type 0
IsDiscount CouponType.percent percent amount = (pos 1 ≤ℤ percent) × (percent ≤ℤ pos 99)
IsDiscount CouponType.fixed percent amount = pos 1 ≤ℤ amount
IsDiscount CouponType.unknown percent amount = ⊥

abbrev pub IsKnown : InputStatus → Type 0
IsKnown InputStatus.other = ⊥
IsKnown _ = Unit

abbrev pub IsOrdered : Option Time → Option Time → Type 0
IsOrdered (some s) (some e) = s < e
IsOrdered _ _ = Unit

-- What a coupon has to be.
abbrev pub IsSound : (String → Bool) → String → CouponInput → Type 0
IsSound matches code input =
    (str_eq code "" ≡ false)
    × (matches code ≡ true)
    × (input.name_length ≤ 128)
    × IsDiscount input.type input.percent_off input.amount_cents
    × (pos 0 ≤ℤ input.max_discount_cents)
    × (pos 0 ≤ℤ input.min_order_cents)
    × (pos 0 ≤ℤ input.amount_cents)
    × IsKnown input.status
    × IsOrdered input.starts_at input.expires_at
    × (pos 0 ≤ℤ input.max_uses)
    × (pos 0 ≤ℤ input.max_uses_per_user)
    × (input.products ≤ 500)

abbrev is_any_negative : CouponInput → Bool
is_any_negative input =
    ltb_ℤ input.max_discount_cents (pos 0)
    || ltb_ℤ input.min_order_cents (pos 0)
    || ltb_ℤ input.amount_cents (pos 0)
