-- ===== src/Order/Twice.antt =====
-- internal/service/order.go, `Pay`: an order that was paid.
use levis.Base.{String, ℕ, ◌==◌, ◌≡◌, refl, Bool, true, ◌&&◌, some, List, arith}
use levis.Base.Time.{Time}
use levis.Base.Int.{ℤ, pos, ◌-ℤ◌, ltb_ℤ}
use mathlib.Core.Path.{subst, sym}
use levis.Wallet.{adjust_balance, update_balance, read_user, create_transaction}
use levis.Store.{
  TxType, when, pure, Order, OrderItem, Service, Db, first, count, Error, Result, ok, err, World,
  Action, ◌>>=◌, ◌>>◌,
}
use levis.Store.Rules.{
  Post, Always, Safe-of_Always, always_rules, bind-Always, when-Always, pure-Always,
}
use levis.Store.Steps.{
  stepped, after_statement, after_raise_if, after_select, after_action, last_transaction,
}
use levis.Affiliate.{is_paid}
use levis.Order.{is_pending, claim_order}
use levis.Order.Settlement.{lock_order_payment, reject_order_intent, pay_in_tx, record_payment, pay}
use levis.Order.Frames.{record_claimed-Always}
use levis.Order.Busy.{IsRefused}
use levis.Order.Claimed.{is_target, FoundPaid, IsUnique, first-claimed, count-claimed, id_of_target}
use levis.Order.Books.{lock-Always, reject-Always, after_reading}

-- The order that `Pay` is for is paid in these tables, and no other row has its number.
abbrev IsSettled : ℕ → ℕ → List Order → Type 0
IsSettled user_id order_id os =
    IsUnique order_id os × FoundPaid (first (is_target user_id order_id) os)

record_payment-IsSettled :
    (add_date : ℕ → ℕ → Time → Time) (user_id : ℕ) (order : Order) (items : List OrderItem)
    (now : Time) (w : World)
    → IsUnique order.id w.db.orders
    → first (is_target user_id order.id) w.db.orders ≡ some order
    → Post (λ d. IsSettled user_id order.id d.orders) (record_payment add_date order items now w)
unfolding record_payment claim_order
record_payment-IsSettled add_date user_id order items now w unique found =
    let Q : Result (List Service) × World → Type 0 =
      Post (λ d. IsSettled user_id order.id d.orders) in
    let matched : ℕ = count (λ (o : Order). o.id == order.id && is_pending o.status) w.db.orders in
    let I : Db → Type 0 = λ d. IsSettled user_id order.id d.orders in
    after_statement Q _ _ w tt (
      after_raise_if Q (matched == 0) _ _ _ (λ _. tt)
        λ some_.
          (Safe-of_Always I _ (
              record_claimed-Always (λ us ts ps os. IsSettled user_id order.id os) add_date _ items
                now)).keeps
            _
            (
              rw (count-claimed order.id order.id now w.db.orders) unique,
              first-claimed user_id order.id now w.db.orders order unique found (ground arith),
            ))

record_target-IsSettled :
    (add_date : ℕ → ℕ → Time → Time) (user_id order_id : ℕ) (order : Order) (items : List OrderItem)
    (now : Time) (w : World)
    → order.id ≡ order_id
    → IsUnique order_id w.db.orders × (first (is_target user_id order_id) w.db.orders ≡ some order)
    → Post (λ d. IsSettled user_id order_id d.orders) (record_payment add_date order items now w)
record_target-IsSettled add_date user_id order_id order items now w id h =
    let (unique, found) : IsUnique order.id w.db.orders
        × (first (is_target user_id order.id) w.db.orders ≡ some order) =
      subst (λ n. IsUnique n w.db.orders × (first (is_target user_id n) w.db.orders ≡ some order))
        (sym id) h in
    subst
      (λ n. Post (λ d. IsSettled user_id n d.orders) (record_payment add_date order items now w)) id
      (record_payment-IsSettled add_date user_id order items now w unique found)

adjust-Always {κ} :
    (R : List Order → Type κ) (user_id : ℕ) (delta : ℤ) (tx_type : TxType) (ref_type : String)
    (ref_id : ℕ)
    → Always (λ d. R d.orders) (adjust_balance user_id delta tx_type ref_type ref_id)
unfolding adjust_balance update_balance read_user create_transaction
adjust-Always R user_id delta tx_type ref_type ref_id = search always_rules depth 9

debit-Always {κ} :
    (R : List Order → Type κ) (b : Bool) (user_id : ℕ) (delta : ℤ) (tx_type : TxType)
    (ref_type : String) (ref_id : ℕ)
    → Always
        (λ d. R d.orders)
        (when b (adjust_balance user_id delta tx_type ref_type ref_id >>= λ _. pure tt))
debit-Always R b user_id delta tx_type ref_type ref_id =
    let I : Db → Type κ = λ d. R d.orders in
    when-Always I b _ (
      bind-Always I _ _ (adjust-Always R user_id delta tx_type ref_type ref_id)
        (λ _. pure-Always I tt))

pay_in_tx-IsSettled :
    (add_date : ℕ → ℕ → Time → Time) (user_id order_id : ℕ) (debit : Bool) (now : Time) (w : World)
    → IsUnique order_id w.db.orders
    → Post
        (λ d. IsSettled user_id order_id d.orders)
        (pay_in_tx add_date user_id order_id debit now w)
unfolding pay_in_tx
pay_in_tx-IsSettled add_date user_id order_id debit now w unique =
    let Q : Result (List Service) × World → Type 0 =
      Post (λ d. IsSettled user_id order_id d.orders) in
    let charge : Order → Action (Unit {0}) = λ order.
      when (debit && ltb_ℤ (pos 0) order.total_cents) (
        adjust_balance user_id (pos 0 -ℤ order.total_cents) TxType.payment "order" order.id >>= λ _.
        pure tt) in
    after_select Q _ _ _ w tt (λ _. tt)
      λ order found.
        let id : order.id ≡ order_id = id_of_target user_id order_id w.db.orders order found in
        after_statement Q _ _ _ tt (
          after_raise_if Q _ _ _ _ (λ _. tt)
            λ _.
              after_raise_if Q _ _ _ _ (λ _. tt)
                λ _.
                  after_raise_if Q _ _ _ _ (λ _. tt)
                    λ _.
                      after_action Q (charge order) _ (stepped (stepped w w.db) w.db)
                        (λ a v done.
                          record_target-IsSettled add_date user_id order_id order _ now v id (
                            rw done at (
                              (debit-Always
                                  (λ os.
                                    IsUnique order_id os
                                    × (first (is_target user_id order_id) os ≡ some order))
                                  (debit && ltb_ℤ (pos 0) order.total_cents) user_id
                                  (pos 0 -ℤ order.total_cents) TxType.payment "order"
                                  order.id).keeps
                                (stepped (stepped w w.db) w.db) (unique, found))))
                        (λ e v failed. tt))

-- Behind the two checks of `Pay` the tables are as before.
after_checks :
    (Q : Result (List Service) × World → Type 0) (sqlite : Bool) (user_id order_id : ℕ)
    (rest : Action (List Service)) (w : World)
    → ((e : Error) (v : World) → Q (err e, v))
    → ((x : World) → x.db ≡ w.db → Q (rest x))
    → Q (
        (lock_order_payment sqlite user_id order_id
            >> (reject_order_intent user_id order_id 0 >> rest))
          w)
after_checks Q sqlite user_id order_id rest w failed passed =
    after_reading Q (lock_order_payment sqlite user_id order_id)
      (λ _. reject_order_intent user_id order_id 0 >> rest) w.db w
      (lock-Always (λ d. d ≡ w.db) sqlite user_id order_id) refl
      (λ o u locked kept.
        after_reading Q (reject_order_intent user_id order_id 0) (λ _. rest) w.db u
          (reject-Always (λ d. d ≡ w.db) user_id order_id 0) kept (λ a x free left. passed x left)
          failed)
      failed

-- What a success of `Pay` leaves.
pay-IsSettled :
    (add_date : ℕ → ℕ → Time → Time) (sqlite : Bool) (user_id order_id : ℕ) (debit : Bool)
    (now : Time) (w : World)
    → IsUnique order_id w.db.orders
    → Post
        (λ d. IsSettled user_id order_id d.orders)
        (pay add_date sqlite user_id order_id debit now w)
unfolding pay
pay-IsSettled add_date sqlite user_id order_id debit now w unique =
    let Q : Result (List Service) × World → Type 0 =
      Post (λ d. IsSettled user_id order_id d.orders) in
    let ran =
      after_checks Q sqlite user_id order_id (pay_in_tx add_date user_id order_id debit now) w
        (λ e v. tt)
        (λ x left. pay_in_tx-IsSettled add_date user_id order_id debit now x (rw left unique)) in
    last_transaction Q _ w (λ e v same. tt) (λ services v done. rw done at ran)

pay_in_tx_again :
    (add_date : ℕ → ℕ → Time → Time) (user_id order_id : ℕ) (debit : Bool) (now : Time) (w : World)
    → FoundPaid (first (is_target user_id order_id) w.db.orders)
    → Post (λ _. ⊥) (pay_in_tx add_date user_id order_id debit now w)
unfolding pay_in_tx
pay_in_tx_again add_date user_id order_id debit now w paid =
    let Q : Result (List Service) × World → Type 0 = Post (λ _. ⊥) in
    after_select Q _ _ _ w tt (λ _. tt)
      λ order found.
        let settled : is_paid order.status ≡ true = rw found at paid in
        after_statement Q _ _ _ tt (
          after_raise_if Q (is_paid order.status) _ _ _ (λ _. tt)
            (λ open_. absurd (ground (arith, settled, open_))))

settled-IsRefused :
    (add_date : ℕ → ℕ → Time → Time) (sqlite : Bool) (user_id order_id : ℕ) (debit : Bool)
    (now : Time) (w : World)
    → IsSettled user_id order_id w.db.orders
    → IsRefused w.db (pay add_date sqlite user_id order_id debit now w)
unfolding pay
settled-IsRefused add_date sqlite user_id order_id debit now w (unique, paid) =
    let Q : Result (List Service) × World → Type 0 = Post (λ _. ⊥) in
    let ran =
      after_checks Q sqlite user_id order_id (pay_in_tx add_date user_id order_id debit now) w
        (λ e v. tt)
        (λ x left. pay_in_tx_again add_date user_id order_id debit now x (rw left paid)) in
    last_transaction (IsRefused w.db) _ w (λ e v same. same)
      (λ services v done. absurd (rw done at ran))

of_ok :
    (J : Db → Type 0) (r : Result (List Service) × World) (services : List Service)
    → r.0 ≡ ok services
    → Post J r
    → J r.1.db
of_ok J (ok s, w) services h p = p
of_ok J (err e, w) services h p = cc

-- An order is paid at most once: after `Pay` has succeeded, every later `Pay` of the order fails and leaves
-- every table as it was, if no other row has the order's number.
pub pay-pay :
    (add_date : ℕ → ℕ → Time → Time) (sqlite : Bool) (user_id order_id : ℕ) (debit again : Bool)
    (now later : Time) (w : World) (services : List Service)
    → IsUnique order_id w.db.orders
    → (pay add_date sqlite user_id order_id debit now w).0 ≡ ok services
    → IsRefused (pay add_date sqlite user_id order_id debit now w).1.db (
        pay add_date sqlite user_id order_id again later
          (pay add_date sqlite user_id order_id debit now w).1)
pay-pay add_date sqlite user_id order_id debit again now later w services unique paid =
    settled-IsRefused add_date sqlite user_id order_id again later _ (
      of_ok (λ d. IsSettled user_id order_id d.orders) _ services paid
        (pay-IsSettled add_date sqlite user_id order_id debit now w unique))
