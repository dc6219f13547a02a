-- ===== src/Coupon/Uses.antt =====
-- internal/service/coupon.go, `applyCoupon` and `releaseCoupon`: the uses of a coupon and their limit.
use levis.Base.{
  ℕ, ◌==◌, ◌≡◌, ◌⊎◌, inl, inr, refl, Bool, true, false, ◌&&◌, Option, none, some, List, [], ◌∷◌,
  String, arith, if◌then◌else◌, Bool-cases, ==_iff,
}
use levis.Base.Int.{ℤ, pos, ◌+ℤ◌, ◌-ℤ◌, ltb_ℤ, int_laws}
use levis.Base.Time.{Time}
use mathlib.Core.Path.{subst, sym}
use levis.Store.{
  OrderItem, Coupon, CouponRedemption, Db, first, update, World, Result, Error, Action, pure, ◌>>=◌,
}
use levis.Store.Rules.{
  Always, always_rules, bind-Always, statement-Always, pure-Always, raise_if-Always, checked-Always,
  if-Always,
}
use levis.Store.Steps.{after_statement, after_action, after_select}
use levis.Coupon.{
  check_user_uses, check_new_user, check_usable, check_subtotal, has_use, take_use,
  create_redemption, give_back, release_coupon, apply_found, find_coupon, apply_coupon,
  eligible_subtotal,
}

-- The uses are limited, and there were more.
abbrev is_over : Coupon → Bool
is_over c = ltb_ℤ (pos 0) c.max_uses && ltb_ℤ c.max_uses c.used_count

-- No two coupons share an id, and none is used more often than its limit, if it has one.
abbrev pub IsWithin : List Coupon → Type 0
IsWithin [] = Unit
IsWithin (c ∷ cs) = (first (λ q. q.id == c.id) cs ≡ none) × (is_over c ≡ false) × IsWithin cs

abbrev pub Within : Db → Type 0
Within d = IsWithin d.coupons

-- The rows that share the id of a coupon share its limit.
abbrev Agrees : Coupon → List Coupon → Type 0
Agrees coupon [] = Unit
Agrees coupon (c ∷ cs) =
    (((c.id == coupon.id) ≡ false) ⊎ (c.max_uses ≡ coupon.max_uses)) × Agrees coupon cs

Agrees-absent :
    (coupon : Coupon) (cs : List Coupon)
    → first (λ q. q.id == coupon.id) cs ≡ none
    → Agrees coupon cs
Agrees-absent coupon [] h = tt
Agrees-absent coupon (c ∷ cs) h = ground (arith, Agrees-absent coupon cs)

first_present :
    (p : Coupon → Bool) (cs : List Coupon) (coupon : Coupon)
    → first p cs ≡ some coupon
    → first (λ q. q.id == coupon.id) cs ≡ none
    → ⊥
first_present p [] coupon f n = cc
first_present p (c ∷ cs) coupon f n = ground (arith, first_present p cs coupon)

Agrees-first :
    (p : Coupon → Bool) (cs : List Coupon) (coupon : Coupon)
    → IsWithin cs
    → first p cs ≡ some coupon
    → Agrees coupon cs
Agrees-first p [] coupon w f = tt
Agrees-first p (c ∷ cs) coupon w f = elim (Bool-cases (p c)) [
  | inl hit ↦
      let same : c ≡ coupon = ground arith in
      subst (λ k. Agrees k (c ∷ cs)) same (inr refl, Agrees-absent c cs w.0)
  | inr miss ↦
      let rest : first p cs ≡ some coupon = rw miss at f in
      (
        elim (Bool-cases (c.id == coupon.id)) [
          | inl same ↦
              absurd (first_present p cs coupon rest (rw ((==_iff c.id coupon.id).0 same) at w.0))
          | inr differs ↦ inl differs
        ],
        Agrees-first p cs coupon w.2 rest,
      )
]

first-update :
    (j : ℕ) (from : Coupon → Bool) (to : ℤ → ℤ) (cs : List Coupon)
    → first (λ q. q.id == j) cs ≡ none
    → first (λ q. q.id == j) (update from (λ c. record c { used_count = to c.used_count }) cs)
      ≡ none
first-update j from to [] h = refl
first-update j from to (c ∷ cs) h = ground (arith, first-update j from to cs)

-- A use of a coupon is still within its limit, where the update allows it.
use-IsWithin :
    (coupon c : Coupon)
    → ((c.id == coupon.id) ≡ false) ⊎ (c.max_uses ≡ coupon.max_uses)
    → has_use coupon c ≡ true
    → is_over (record c { used_count = c.used_count +ℤ pos 1 }) ≡ false
unfolding has_use
use-IsWithin coupon c agrees has = grind int_laws

-- Taking a use of a coupon that was read from the table.
taken-IsWithin :
    (coupon : Coupon) (cs : List Coupon)
    → Agrees coupon cs
    → IsWithin cs
    → IsWithin (update (has_use coupon) (λ c. record c { used_count = c.used_count +ℤ pos 1 }) cs)
taken-IsWithin coupon [] a w = tt
taken-IsWithin coupon (c ∷ cs) a w =
    let apart = first-update c.id (has_use coupon) (λ n. n +ℤ pos 1) cs w.0 in
    let rest = taken-IsWithin coupon cs a.1 w.2 in
    elim (Bool-cases (has_use coupon c)) [
      | inl has ↦ rw has (apart, use-IsWithin coupon c a.0 has, rest)
      | inr full ↦ rw full (apart, w.1, rest)
    ]

given_back : ℤ → ℤ
given_back n = if ltb_ℤ (pos 0) n then n -ℤ pos 1 else pos 0

fewer_uses :
    (c : Coupon)
    → is_over c ≡ false
    → is_over (record c { used_count = given_back c.used_count }) ≡ false
unfolding given_back
fewer_uses c h = grind int_laws

given-IsWithin :
    (id : ℕ) (cs : List Coupon)
    → IsWithin cs
    → IsWithin (
        update
          (λ c. c.id == id)
          (λ c. record c {
            used_count = if ltb_ℤ (pos 0) c.used_count then c.used_count -ℤ pos 1 else pos 0;
          })
          cs)
unfolding given_back
given-IsWithin id [] w = tt
given-IsWithin id (c ∷ cs) w =
    let apart = first-update c.id (λ c. c.id == id) given_back cs w.0 in
    let rest = given-IsWithin id cs w.2 in
    elim (Bool-cases (c.id == id)) [
      | inl same ↦ rw same (apart, fewer_uses c w.1, rest)
      | inr other ↦ rw other (apart, w.1, rest)
    ]

-- What a run that was allowed to read leaves: the tables as they were.
reading-Always :
    (old : Db) (coupon : Coupon) (user_id : ℕ) (now : Time)
    → Always (λ d. d ≡ old) (check_usable coupon user_id now)
unfolding check_usable check_user_uses check_new_user
reading-Always old coupon user_id now = search always_rules depth 14

pricing-Always :
    (old : Db) (coupon : Coupon) (subtotal : ℤ)
    → Always (λ d. d ≡ old) (check_subtotal coupon subtotal)
unfolding check_subtotal
pricing-Always old coupon subtotal = search always_rules depth 9

abbrev Left : {A : Type 0} → Result A × World → Type 0
Left r = Within r.1.db

take_use-Within :
    (coupon : Coupon) (w : World)
    → Agrees coupon w.db.coupons
    → Within w.db
    → Left (take_use coupon w)
unfolding take_use
take_use-Within coupon w a h =
    after_statement Left _ _ w h
      ((raise_if-Always Within _ _).keeps _ (taken-IsWithin coupon w.db.coupons a h))

recorded-Always :
    (coupon : Coupon) (user_id order_id : ℕ) (discount : ℤ)
    → Always Within (create_redemption coupon user_id order_id discount)
unfolding create_redemption
recorded-Always coupon user_id order_id discount = checked-Always Within _ _ _ (λ d h. h)

-- A run that leaves the tables alone, and what comes after it.
module _ {A B : Type 0} where
  after_reading :
      (m : Action A) (k : A → Action B) (w : World)
      → Always (λ d. d ≡ w.db) m
      → Within w.db
      → ((a : A) (v : World) → v.db ≡ w.db → Left (k a v))
      → Left ((m >>= k) w)
  after_reading m k w reads h then_ =
      after_action Left m k w (λ a v done. then_ a v (rw done at (reads.keeps w refl)))
        (λ e v failed. subst Within (sym (rw failed at (reads.keeps w refl))) h)

taken_and_recorded :
    (coupon : Coupon) (user_id order_id : ℕ) (discount : ℤ) (w : World)
    → Agrees coupon w.db.coupons
    → Within w.db
    → Left (
        (take_use coupon >>= λ _.
        (create_redemption coupon user_id order_id discount >>= λ _.
        let out : ℤ × String = (discount, coupon.code) in pure out))
          w)
taken_and_recorded coupon user_id order_id discount w a h =
    after_action (Left {A = ℤ × String}) (take_use coupon) _ w
      (λ _ y done.
        (bind-Always Within _ _ (recorded-Always coupon user_id order_id discount)
            (λ _. pure-Always Within _)).keeps
          y (rw done at (take_use-Within coupon w a h)))
      (λ e y failed. rw failed at (take_use-Within coupon w a h))

apply_found-Within :
    (user_id : ℕ) (items : List OrderItem) (order_id : ℕ) (now : Time) (coupon : Coupon) (w : World)
    → Agrees coupon w.db.coupons
    → Within w.db
    → Left (apply_found user_id items order_id now coupon w)
unfolding apply_found
apply_found-Within user_id items order_id now coupon w a h =
    let subtotal = eligible_subtotal coupon items in
    after_reading (check_usable coupon user_id now) _ w (reading-Always w.db coupon user_id now) h
      λ _ v same.
        after_reading (check_subtotal coupon subtotal) _ v (pricing-Always v.db coupon subtotal)
          (subst Within (sym same) h)
          (λ _ x same'.
            let back = subst (λ d. d ≡ w.db) (sym same') same in
            taken_and_recorded coupon user_id order_id _ x
              (subst (λ d. Agrees coupon d.coupons) (sym back) a) (subst Within (sym back) h))

find_and_apply :
    (fold : String → String) (user_id : ℕ) (code : String) (items : List OrderItem) (order_id : ℕ)
    (now : Time) (e : Error) (w : World)
    → Within w.db
    → Left ((find_coupon fold code e >>= apply_found user_id items order_id now) w)
unfolding find_coupon
find_and_apply fold user_id code items order_id now e w h =
    after_select (Left {A = ℤ × String}) _ e _ w h (λ _. h)
      λ coupon found.
        apply_found-Within user_id items order_id now coupon _
          (Agrees-first _ w.db.coupons coupon h found) h

find_and_apply-Always :
    (fold : String → String) (user_id : ℕ) (code : String) (items : List OrderItem) (order_id : ℕ)
    (now : Time) (e : Error)
    → Always Within (find_coupon fold code e >>= apply_found user_id items order_id now)
find_and_apply-Always fold user_id code items order_id now e = record {
  keeps = find_and_apply fold user_id code items order_id now e;
}

apply_coupon-Always :
    (fold : String → String) (user_id : ℕ) (code : String) (items : List OrderItem) (order_id : ℕ)
    (now : Time)
    → Always Within (apply_coupon fold user_id code items order_id now)
unfolding apply_coupon
apply_coupon-Always fold user_id code items order_id now =
    if-Always Within _ _ _ (pure-Always Within _)
      (find_and_apply-Always fold user_id code items order_id now _)

give_back-Always : (r : Option CouponRedemption) → Always Within (give_back r)
unfolding give_back
give_back-Always none = pure-Always Within tt
give_back-Always (some r) =
    bind-Always Within _ _
      (statement-Always Within _ (λ d h. given-IsWithin r.coupon_id d.coupons h))
      λ _. statement-Always Within _ (λ d h. h)

release_coupon-Always : (order_id : ℕ) → Always Within (release_coupon order_id)
unfolding release_coupon
release_coupon-Always order_id =
    bind-Always Within _ _ (statement-Always Within _ (λ d h. h)) give_back-Always

-- If no two coupons share an id and none is used more often than its limit, where it has one, then so it
-- is after a coupon is applied to an order, whatever the coupon, the order and the driver's faults, and
-- also where the transaction around it is committed after an error.
pub apply_coupon-Within :
    (fold : String → String) (user_id : ℕ) (code : String) (items : List OrderItem) (order_id : ℕ)
    (now : Time) (w : World)
    → Within w.db
    → Within (apply_coupon fold user_id code items order_id now w).1.db
apply_coupon-Within fold user_id code items order_id now w h =
    (apply_coupon-Always fold user_id code items order_id now).keeps w h

-- If no two coupons share an id and none is used more often than its limit, where it has one, then so it
-- is after the coupon of a cancelled order is released, whatever the driver fails.
pub release_coupon-Within :
    (order_id : ℕ) (w : World) → Within w.db → Within (release_coupon order_id w).1.db
release_coupon-Within order_id w h = (release_coupon-Always order_id).keeps w h
