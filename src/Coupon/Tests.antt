-- ===== src/Coupon/Tests.antt =====
-- internal/service/coupon.go: examples.
use levis.Base.{some, ◌≡◌, refl, Bool, true, false, none, [], ◌∷◌, String}
use levis.Base.Int.{pos}
use levis.Store.{OrderItem, Cycle, Coupon, CouponType, CouponRedemption, World, RefundStatus}
use levis.Store.Samples.{sample_db, calm}
use levis.Coupon.{apply_coupon}
use levis.Coupon.Input.{CouponInput, InputStatus, validate_coupon}
use levis.Coupon.Uses.{Within, apply_coupon-Within}

-- A fifth off, up to 10, once used of twice.
abbrev spring : Coupon
spring = record {
  id = 9;
  code = "SPRING";
  type = CouponType.percent;
  percent_off = pos 20;
  amount_cents = pos 0;
  max_discount_cents = pos 1000;
  min_order_cents = pos 0;
  active = true;
  starts_at = none;
  expires_at = none;
  max_uses = pos 2;
  max_uses_per_user = pos 0;
  new_user_only = false;
  used_count = pos 1;
  product_ids = [];
}

abbrev redeemed : CouponRedemption
redeemed = record {
  id = 10;
  coupon_id = 9;
  user_id = 1;
  order_id = 11;
  discount_cents = pos 5;
  code = "SPRING";
}

abbrev shop : World
shop =
    calm (record (sample_db RefundStatus.pending) {
      coupons = spring ∷ [];
      redemptions = redeemed ∷ [];
    })

abbrev line : OrderItem
line = record {
  order_id = 11;
  product_id = 1;
  product_name = "";
  price_cents = pos 900;
  quantity = pos 3;
  traffic_gb = none;
  billing_cyc = Cycle.monthly;
}

abbrev same : String → String
same s = s

apply_coupon-Within_example : Within (apply_coupon same 2 "SPRING" (line ∷ []) 12 0 shop).1.db
apply_coupon-Within_example =
    apply_coupon-Within same 2 "SPRING" (line ∷ []) 12 0 shop (refl, refl, tt)

-- A coupon of 20 percent, and one of 150 percent.
abbrev offer : CouponInput
offer = record {
  code = "SPRING";
  name_length = 6;
  type = CouponType.percent;
  percent_off = pos 20;
  amount_cents = pos 0;
  max_discount_cents = pos 0;
  min_order_cents = pos 0;
  status = InputStatus.active;
  starts_at = none;
  expires_at = none;
  max_uses = pos 4;
  max_uses_per_user = pos 0;
  products = 0;
}

abbrev any_code : String → Bool
any_code code = true

too_much :
    validate_coupon same any_code (record offer { percent_off = pos 150 }) ≡ some "减免百分比必须在 1-99 之间"
unfolding validate_coupon
too_much = refl
