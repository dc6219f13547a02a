-- ===== src/Order/Claimed.antt =====
-- internal/service/order.go, `payInTx`: the rows of the orders under the update that claims one.
use levis.Base.{
  ℕ, ◌==◌, ◌≤◌, ◌<◌, ◌≡◌, refl, Bool, true, ◌&&◌, Option, none, some, List, [], ◌∷◌, arith, inl,
  inr, Bool-cases,
}
use levis.Base.Time.{Time}
use levis.Store.{Order, OrderStatus, first, update, count}
use levis.Affiliate.{is_paid}
use levis.Order.{is_pending}

-- The order that the code finds, and whether it is paid.
abbrev pub is_target : ℕ → ℕ → Order → Bool
is_target user_id order_id o = o.id == order_id && o.user_id == user_id

abbrev pub FoundPaid : Option Order → Type 0
FoundPaid none = ⊥
FoundPaid (some o) = is_paid o.status ≡ true

-- At most one row has the number.
abbrev pub IsUnique : ℕ → List Order → Type 0
IsUnique order_id os = count (λ (o : Order). o.id == order_id) os ≤ 1

abbrev pub claimed : ℕ → Time → List Order → List Order
claimed id now os =
    update (λ (o : Order). o.id == id && is_pending o.status)
      (λ o. record o { status = OrderStatus.paid; paid_at = some now }) os

absent_pending :
    (id : ℕ) (os : List Order)
    → count (λ (o : Order). o.id == id) os ≡ 0
    → count (λ (o : Order). o.id == id && is_pending o.status) os ≡ 0
absent_pending id [] h = refl
absent_pending id (o ∷ os) h = ground (arith, absent_pending id os)

pub id_of_target :
    (user_id order_id : ℕ) (os : List Order) (o : Order)
    → first (is_target user_id order_id) os ≡ some o
    → o.id ≡ order_id
id_of_target user_id order_id [] o h = cc
id_of_target user_id order_id (p ∷ os) o h = ground (arith, id_of_target user_id order_id os o)

count_found :
    (user_id order_id : ℕ) (os : List Order) (o : Order)
    → first (is_target user_id order_id) os ≡ some o
    → 0 < count (λ (p : Order). p.id == order_id) os
count_found user_id order_id [] o h = cc
count_found user_id order_id (p ∷ os) o h = ground (arith, count_found user_id order_id os o)

pub first-claimed :
    (user_id order_id : ℕ) (now : Time) (os : List Order) (o : Order)
    → IsUnique order_id os
    → first (is_target user_id order_id) os ≡ some o
    → 0 < count (λ (p : Order). p.id == order_id && is_pending p.status) os
    → FoundPaid (first (is_target user_id order_id) (claimed order_id now os))
unfolding is_paid
first-claimed user_id order_id now [] o unique found pending = cc
first-claimed user_id order_id now (p ∷ os) o unique found pending =
    elim (Bool-cases (p.id == order_id)) [
      | inl here ↦ elim (Bool-cases (p.user_id == user_id)) [
        | inl mine ↦ elim (Bool-cases (is_pending p.status)) [
          | inl waits ↦ rw (here, waits) (rw (here, mine) refl)
          | inr not_ ↦ absurd (ground (arith, absent_pending order_id os))
        ]
        | inr other_ ↦ absurd (ground (arith, count_found user_id order_id os o))
      ]
      | inr else_ ↦ rw else_ (
          rw else_
            (first-claimed user_id order_id now os o (ground arith) (ground arith) (ground arith)))
    ]

pub count-claimed :
    (order_id id : ℕ) (now : Time) (os : List Order)
    → count (λ (o : Order). o.id == order_id) (claimed id now os) ≡ count (λ o. o.id == order_id) os
count-claimed order_id id now [] = refl
count-claimed order_id id now (o ∷ os) = ground (arith, count-claimed order_id id now os)
