-- ===== src/Coupon/Discount.antt =====
-- internal/service/coupon.go, `couponDiscountCents`: the bounds and the amount of a discount.
use levis.Base.{ℕ, ◌*◌, ◌/◌, ◌≤◌, ◌<◌, ◌⊎◌, min, ◌≡◌, arith, if◌then◌else◌, ◌==◌}
use native.Mathlib.Nat.{div-le_of_le-mul}
use levis.Base.Int.{ℤ, pos, ◌≤ℤ◌, ◌*ℤ◌, i64, i64_id, two_63}
use levis.Store.{Coupon, CouponType}
use levis.Coupon.{raw_discount, discount_cents}

-- A discount is not negative and is at most the subtotal, if that is positive, and zero otherwise: for
-- every coupon row and every int64, also where the percentage overflows.
pub discount_cents_bounds :
    (coupon : Coupon) (subtotal : ℤ)
    → (pos 0 ≤ℤ discount_cents coupon subtotal)
      × ((discount_cents coupon subtotal ≤ℤ subtotal) ⊎ (discount_cents coupon subtotal ≡ pos 0))
unfolding discount_cents
discount_cents_bounds coupon subtotal = ground arith

product : (s p : ℕ) → pos s *ℤ pos p ≡ pos (s * p)
unfolding ◌*ℤ◌
product s p = ground arith

part_small : (s p : ℕ) → p ≤ 100 → s * p / 100 ≤ s
part_small s p h = div-le_of_le-mul 100 (grind arith)

-- A coupon of p percent, at most a hundred, with a product of amounts that fits int64, takes off the
-- floor of the percentage, or the cap where there is a cap below it.
pub discount_cents_percent :
    (coupon : Coupon) (s p cap : ℕ)
    → coupon.type ≡ CouponType.percent
    → coupon.percent_off ≡ pos p
    → coupon.max_discount_cents ≡ pos cap
    → p ≤ 100
    → s * p < two_63
    → discount_cents coupon (pos s) ≡ pos (if cap == 0 then s * p / 100 else min cap (s * p / 100))
unfolding discount_cents raw_discount
discount_cents_percent coupon s p cap kind rate limit h fits =
    let exact : i64 (pos s *ℤ pos p) ≡ pos (s * p) =
      rw (product s p) (i64_id (pos (s * p)) (fits, omega arith)) in
    rw (kind, rate, limit, exact) (ground (arith, part_small s p h))
