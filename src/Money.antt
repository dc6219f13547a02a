-- ===== src/Money.antt =====
-- internal/service/money.go: the floor of a ratio of cents.
use levis.Base.{ℕ, ◌+◌, ◌*◌, ◌/◌, ◌≤◌, ◌<◌, ◌≡◌, refl, ◌||◌, arith, ltb, if◌then◌else◌}
use levis.Base.Int.{ℤ, pos, pos_part, neg_part, ltb_ℤ, leb_ℤ, two_63}
use native.Mathlib.Nat.{div-mul-le_self, lt-mul-div-succ, div-le_of_le-mul, mul_comm}
use levis.Store.{Result, ok, err, bad_request}

-- `mulDivCents`, over the unbounded integers of math/big
unfoldable pub mul_div_cents : ℤ → ℤ → ℤ → Result ℤ
mul_div_cents amount numerator denominator =
    if ltb_ℤ amount (pos 0) || ltb_ℤ numerator (pos 0) || leb_ℤ denominator (pos 0)
    then err (bad_request "金额或比例无效")
    else (let out = pos_part amount * pos_part numerator / pos_part denominator in
        if ltb out two_63 then ok (pos out) else err (bad_request "金额过大"))

mul_div_cents_inv :
    (amount numerator denominator out : ℤ)
    → mul_div_cents amount numerator denominator ≡ ok out
    → (out ≡ pos (pos_part amount * pos_part numerator / pos_part denominator))
      × (0 < pos_part denominator)
unfolding mul_div_cents
mul_div_cents_inv amount numerator denominator out h = ground arith

floor_bounds : (a d : ℕ) → 0 < d → (a / d * d ≤ a) × (a < (a / d + 1) * d)
floor_bounds a d h = (div-mul-le_self a d, rw (mul_comm (a / d + 1) d) (lt-mul-div-succ a h))

-- What `mulDivCents` returns is the floor of the exact ratio: it is not negative, and amount * numerator lies between
-- the result and the next cent times the denominator.
pub mul_div_cents_floor :
    (amount numerator denominator out : ℤ)
    → mul_div_cents amount numerator denominator ≡ ok out
    → (neg_part out ≡ 0)
      × (pos_part out * pos_part denominator ≤ pos_part amount * pos_part numerator)
      × (pos_part amount * pos_part numerator < (pos_part out + 1) * pos_part denominator)
mul_div_cents_floor amount numerator denominator out h =
    let (e, positive) = mul_div_cents_inv amount numerator denominator out h in
    let bounds =
      floor_bounds (pos_part amount * pos_part numerator) (pos_part denominator) positive in
    rw e (refl, bounds.0, bounds.1)

-- For an amount that fits int64, a numerator that is at most the denominator and a positive denominator,
-- `mulDivCents` returns no error, and its result is at most the amount.
pub mul_div_cents_fraction :
    (amount numerator denominator : ℕ)
    → amount < two_63
    → numerator ≤ denominator
    → 0 < denominator
    → (out : ℕ) × (mul_div_cents (pos amount) (pos numerator) (pos denominator) ≡ ok (pos out))
      × (out ≤ amount)
unfolding mul_div_cents
mul_div_cents_fraction amount numerator denominator fits part positive =
    let small : amount * numerator / denominator ≤ amount =
      div-le_of_le-mul denominator (grind arith) in
    (amount * numerator / denominator, ground (arith, small), small)
