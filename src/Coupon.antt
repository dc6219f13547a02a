-- ===== src/Coupon.antt =====
-- internal/service/coupon.go: what a coupon takes off an order, and how often it is used. `fold` stands
-- for `strings.ToUpper(strings.TrimSpace(s))` of the standard library.
pub mod Discount
pub mod Uses
pub mod Input
pub mod Checked
mod Tests
use levis.Base.{
  ℕ, ◌+◌, ◌*◌, ◌/◌, ◌==◌, Bool, true, false, not, ◌&&◌, ◌||◌, Option, none, some, List, [], ◌∷◌,
  String, if◌then◌else◌, any, ltb,
}
use levis.Base.Int.{ℤ, pos, negsuc, pos_part, neg_part, ◌+ℤ◌, ◌-ℤ◌, ◌*ℤ◌, i64, ltb_ℤ, leb_ℤ}
use levis.Base.Time.{Time}
use levis.Store.{
  OrderItem, Coupon, CouponType, CouponRedemption, OrderStatus, Db, first, update, count, Error,
  bad_request, not_found, duplicated_key, World, Action, pure, raise, raise_if, when, catch,
  statement, checked, query, execute_sql, select, ◌>>=◌, ◌>>◌,
}
use text.Mathlib.Text.{◌==◌ as str_eq}

abbrev line_cents : OrderItem → ℤ
line_cents item = i64 (item.price_cents *ℤ item.quantity)

-- Whether a coupon takes in a product: all of them, if it names none.
unfoldable pub takes_in : List ℕ → ℕ → Bool
takes_in [] product_id = true
takes_in (id ∷ ids) product_id = any (λ j. j == product_id) (id ∷ ids)

sum_lines : List ℕ → List OrderItem → ℤ → ℤ
unfolding takes_in
sum_lines ids [] sum = sum
sum_lines ids (item ∷ items) sum =
    sum_lines ids items (if takes_in ids item.product_id then i64 (sum +ℤ line_cents item) else sum)

-- `couponEligibleSubtotal`
unfoldable pub eligible_subtotal : Coupon → List OrderItem → ℤ
unfolding sum_lines
eligible_subtotal coupon items = sum_lines coupon.product_ids items (pos 0)

-- The quotient of Go, which rounds towards zero.
abbrev pub quotient_100 : ℤ → ℤ
quotient_100 (pos n) = pos (n / 100)
quotient_100 (negsuc n) = pos 0 -ℤ pos ((n + 1) / 100)

-- The part of `couponDiscountCents` that depends on the type.
unfoldable pub raw_discount : CouponType → Coupon → ℤ → ℤ
raw_discount CouponType.percent coupon subtotal =
    let part = quotient_100 (i64 (subtotal *ℤ coupon.percent_off)) in
    if ltb_ℤ (pos 0) coupon.max_discount_cents && ltb_ℤ coupon.max_discount_cents part
    then coupon.max_discount_cents
    else part
raw_discount CouponType.fixed coupon subtotal = coupon.amount_cents
raw_discount CouponType.unknown coupon subtotal = pos 0

-- `couponDiscountCents`
unfoldable pub discount_cents : Coupon → ℤ → ℤ
discount_cents coupon subtotal =
    if leb_ℤ subtotal (pos 0)
    then pos 0
    else (let raw = raw_discount coupon.type coupon subtotal in
        let bounded = if ltb_ℤ subtotal raw then subtotal else raw in
        if ltb_ℤ bounded (pos 0) then pos 0 else bounded)

abbrev pub is_early : Option Time → Time → Bool
is_early none now = false
is_early (some t) now = ltb now t

abbrev pub is_late : Option Time → Time → Bool
is_late none now = false
is_late (some t) now = ltb t now

abbrev pub is_paid : OrderStatus → Bool
is_paid OrderStatus.paid = true
is_paid _ = false

-- The limit on the uses by one user.
unfoldable pub check_user_uses : Coupon → ℕ → Action (Unit {0})
check_user_uses coupon user_id = do
  used ← query (λ d. count (λ r. r.coupon_id == coupon.id && r.user_id == user_id) d.redemptions)
  raise_if (leb_ℤ coupon.max_uses_per_user (pos used)) (bad_request "该优惠码你已使用过最大次数")

-- A coupon for new users wants a user without a paid order.
unfoldable pub check_new_user : ℕ → Action (Unit {0})
check_new_user user_id = do
  paid ← query (λ d. count (λ o. o.user_id == user_id && is_paid o.status) d.orders)
  raise_if (ltb 0 paid) (bad_request "优惠码仅限新用户使用")

-- `checkCouponUsable`
unfoldable pub check_usable : Coupon → ℕ → Time → Action (Unit {0})
unfolding check_user_uses check_new_user
check_usable coupon user_id now = do
  raise_if (not coupon.active) (bad_request "优惠码已停用")
  raise_if (is_early coupon.starts_at now) (bad_request "优惠码未到使用时间")
  raise_if (is_late coupon.expires_at now) (bad_request "优惠码已过期")
  raise_if (ltb_ℤ (pos 0) coupon.max_uses && leb_ℤ coupon.max_uses coupon.used_count)
      (bad_request "优惠码已被领完")
  when (ltb_ℤ (pos 0) coupon.max_uses_per_user) (check_user_uses coupon user_id)
  when coupon.new_user_only (check_new_user user_id)

-- The tests on the lines of the order.
unfoldable pub check_subtotal : Coupon → ℤ → Action (Unit {0})
check_subtotal coupon subtotal = do
  raise_if (leb_ℤ subtotal (pos 0)) (bad_request "购物车中没有该优惠码参与的商品")
  raise_if (ltb_ℤ (pos 0) coupon.min_order_cents && ltb_ℤ subtotal coupon.min_order_cents)
      (bad_request "参与商品小计未达到优惠码使用门槛")

-- The WHERE of the update that takes a use.
unfoldable pub has_use : Coupon → Coupon → Bool
has_use coupon c =
    c.id == coupon.id
    && (if ltb_ℤ (pos 0) coupon.max_uses then ltb_ℤ c.used_count coupon.max_uses else true)

unfoldable pub take_use : Coupon → Action (Unit {0})
unfolding has_use
take_use coupon = do
  rows ← statement λ d. (
    count (has_use coupon) d.coupons,
    record d {
      coupons =
          update (has_use coupon) (λ c. record c { used_count = c.used_count +ℤ pos 1 }) d.coupons;
    },
  )
  raise_if (ltb_ℤ (pos 0) coupon.max_uses && rows == 0) (bad_request "优惠码已被领完")

-- The redemption; an order has one at most.
unfoldable pub create_redemption : Coupon → ℕ → ℕ → ℤ → Action (Unit {0})
create_redemption coupon user_id order_id discount =
    checked (λ d. any (λ (r : CouponRedemption). r.order_id == order_id) d.redemptions)
      duplicated_key
      λ d. (
        tt,
        record d {
          redemptions =
              record {
                id = d.next_id;
                coupon_id = coupon.id;
                user_id = user_id;
                order_id = order_id;
                discount_cents = discount;
                code = coupon.code;
              }
              ∷ d.redemptions;
          next_id = d.next_id + 1;
        },
      )

-- `releaseCoupon`, for a redemption that was found
unfoldable pub give_back : Option CouponRedemption → Action (Unit {0})
give_back none = pure tt
give_back (some r) = do
  execute_sql λ d. record d {
    coupons =
        update (λ c. c.id == r.coupon_id)
          (λ c. record c {
            used_count = if ltb_ℤ (pos 0) c.used_count then c.used_count -ℤ pos 1 else pos 0;
          })
          d.coupons;
  }
  execute_sql λ d. record d { redemptions = remove (λ q. q.id == r.id) d.redemptions }
  where
    remove : (CouponRedemption → Bool) → List CouponRedemption → List CouponRedemption
    remove p [] = []
    remove p (q ∷ qs) = if p q then remove p qs else q ∷ remove p qs

-- `releaseCoupon`
unfoldable pub release_coupon : ℕ → Action (Unit {0})
unfolding give_back
release_coupon order_id =
    query (λ d. first (λ r. r.order_id == order_id) d.redemptions) >>= give_back

-- `applyCoupon`, once the coupon is read.
unfoldable pub apply_found : ℕ → List OrderItem → ℕ → Time → Coupon → Action (ℤ × String)
unfolding check_usable check_subtotal take_use create_redemption
apply_found user_id items order_id now coupon = do
  check_usable coupon user_id now
  let subtotal = eligible_subtotal coupon items
  check_subtotal coupon subtotal
  let discount = discount_cents coupon subtotal
  take_use coupon
  create_redemption coupon user_id order_id discount
  pure (discount, coupon.code)

module _ (fold : String → String) where
  unfoldable pub find_coupon : String → Error → Action Coupon
  find_coupon code e = select (λ d. first (λ c. str_eq c.code (fold code)) d.coupons) e

  -- `applyCoupon`: the discount and the code.
  unfoldable pub apply_coupon : ℕ → String → List OrderItem → ℕ → Time → Action (ℤ × String)
  unfolding apply_found find_coupon
  apply_coupon user_id code items order_id now =
      let applying =
        find_coupon code (bad_request "优惠码不存在") >>= apply_found user_id items order_id now in
      if str_eq (fold code) "" then pure (pos 0, "") else applying

  -- `Preview`: the discount and the subtotal; it writes nothing.
  unfoldable pub preview : ℕ → String → List OrderItem → Time → Action (ℤ × ℤ)
  unfolding check_usable check_subtotal find_coupon
  preview user_id code items now = do
    raise_if (str_eq (fold code) "") (bad_request "请输入优惠码")
    coupon ← find_coupon code (not_found "优惠码不存在")
    check_usable coupon user_id now
    let subtotal = eligible_subtotal coupon items
    check_subtotal coupon subtotal
    pure (discount_cents coupon subtotal, subtotal)
