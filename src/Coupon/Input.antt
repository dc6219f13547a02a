-- ===== src/Coupon/Input.antt =====
-- internal/service/coupon.go, `validateCoupon` and the check of `GenerateCodes`. `fold` stands for
-- `strings.ToUpper(strings.TrimSpace(s))`, `matches` for the pattern and length of a code, and
-- `contains` for `strings.Contains`.
use levis.Base.{
  ℕ, Bool, true, false, not, ◌||◌, Option, none, some, String, if◌then◌else◌, ltb, leb,
}
use levis.Base.Int.{ℤ, pos, ltb_ℤ, leb_ℤ}
use levis.Base.Time.{Time}
use levis.Store.{CouponType}
use text.Mathlib.Text.{◌==◌ as str_eq}

-- The `status` of an input: absent, one of the two states, or another text.
pub data InputStatus : Type 0 where
  absent active disabled other : InputStatus

-- `name_length` and `products` are the lengths of the name and of the list of products.
pub record CouponInput : Type 0 where
  pub code : String
  pub name_length : ℕ
  pub type : CouponType
  pub percent_off : ℤ
  pub amount_cents : ℤ
  pub max_discount_cents : ℤ
  pub min_order_cents : ℤ
  pub status : InputStatus
  pub starts_at : Option Time
  pub expires_at : Option Time
  pub max_uses : ℤ
  pub max_uses_per_user : ℤ
  pub products : ℕ

unfoldable pub type_error : CouponInput → Option String
type_error input = by_type input.type input
  where
    by_type : CouponType → CouponInput → Option String
    by_type CouponType.percent input =
        if ltb_ℤ input.percent_off (pos 1) || ltb_ℤ (pos 99) input.percent_off
        then some "减免百分比必须在 1-99 之间"
        else none
    by_type CouponType.fixed input =
        if leb_ℤ input.amount_cents (pos 0) then some "立减金额必须大于零" else none
    by_type CouponType.unknown input = some "无效的折扣类型"

abbrev is_negative : ℤ → Bool
is_negative z = ltb_ℤ z (pos 0)

-- `StartsAt != nil && ExpiresAt != nil && !ExpiresAt.After(StartsAt)`
abbrev pub is_disordered : Option Time → Option Time → Bool
is_disordered (some s) (some e) = leb e s
is_disordered _ _ = false

abbrev with_default : InputStatus → InputStatus
with_default absent = active
with_default s = s

abbrev pub is_other : InputStatus → Bool
is_other other = true
is_other _ = false

-- The rules that follow the type's.
unfoldable pub rest_error : CouponInput → Option String
rest_error input =
    if is_negative input.max_discount_cents
      || is_negative input.min_order_cents
      || is_negative input.amount_cents
    then some "金额不能为负数"
    else (if is_other input.status
        then some "无效的优惠码状态"
        else (if is_disordered input.starts_at input.expires_at
            then some "结束时间必须晚于开始时间"
            else (if is_negative input.max_uses || is_negative input.max_uses_per_user
                then some "使用次数限制不能为负数"
                else (if ltb 500 input.products then some "参与商品数量过多" else none))))

abbrev pub or_else : Option String → Option String → Option String
or_else (some e) o = some e
or_else none o = o

-- The rules on the code and the name come first.
unfoldable pub first_error : (String → Bool) → CouponInput → Option String
unfolding type_error rest_error
first_error matches input =
    if str_eq input.code ""
    then some "优惠码不能为空"
    else (if not (matches input.code)
        then some "优惠码只能包含大写字母与数字，长度不超过 64"
        else (if ltb 128 input.name_length
            then some "优惠码名称过长"
            else or_else (type_error input) (rest_error input)))

module _ (fold : String → String) (matches : String → Bool) where
  -- `validateCoupon`: the first rule that is broken, on the input with the folded code.
  unfoldable pub validate_coupon : CouponInput → Option String
  unfolding first_error
  validate_coupon input = first_error matches (record input { code = fold input.code })

  module _ (contains : String → String → Bool) where
    -- The check of `GenerateCodes`: only an error that does not speak of the code stops it.
    unfoldable pub generate_error : CouponInput → Option String
    unfolding validate_coupon
    generate_error input =
        stopping (validate_coupon (record input { status = with_default input.status }))
      where
        stopping : Option String → Option String
        stopping none = none
        stopping (some e) = if contains e "优惠码" then none else some e
