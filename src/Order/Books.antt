-- ===== src/Order/Books.antt =====
-- internal/service/order.go, `Pay`: the balance and the ledger of the buyer.
use levis.Base.{ap, ℕ, ◌==◌, ◌≡◌, refl, Bool, true, false, ◌&&◌, some, List, ◌∷◌}
use levis.Base.Int.{ℤ, pos, ◌-ℤ◌, ltb_ℤ}
use levis.Base.Time.{Time}
use levis.Store.{
  User, Transaction, TxType, Order, OrderItem, Service, Db, first, Error, Result, ok, err, World,
  Action, pure, when, ◌>>=◌,
}
use levis.Store.Rules.{Post, Always, Safe-of_Always, always_rules, bind-Safe, transaction-Always}
use levis.Store.Steps.{
  stepped, after_statement, after_raise_if, after_select, after_action, last_transaction,
}
use levis.Wallet.{adjust_balance}
use levis.Wallet.Ledger.{IsReconciled, IsBalanced}
use levis.Wallet.Adjust.{adjust_balance-Safe}
use levis.Wallet.Moved.{MovedUsers, adjust_balance-Moved}
use levis.Order.Settlement.{lock_order_payment, reject_order_intent, pay_in_tx, record_payment, pay}
use levis.Order.Frames.{record_payment-Always, pay_in_tx-Safe}

pub lock-Always {κ} :
    (I : Db → Type κ) (sqlite : Bool) (user_id order_id : ℕ)
    → Always I (lock_order_payment sqlite user_id order_id)
unfolding lock_order_payment
lock-Always I sqlite user_id order_id = search always_rules

pub reject-Always {κ} :
    (I : Db → Type κ) (user_id order_id except_id : ℕ)
    → Always I (reject_order_intent user_id order_id except_id)
unfolding reject_order_intent
reject-Always I user_id order_id except_id = search always_rules depth 9

-- Paying an order, with the balance or without, leaves every balance what its ledger adds up to, whatever
-- the driver fails.
pub pay-IsReconciled :
    (add_date : ℕ → ℕ → Time → Time) (sqlite : Bool) (user_id order_id : ℕ) (debit : Bool)
    (now : Time) (w : World)
    → IsReconciled w.db
    → IsReconciled (pay add_date sqlite user_id order_id debit now w).1.db
unfolding pay
pay-IsReconciled add_date sqlite user_id order_id debit now w h =
    let I : Db → Type 0 = IsReconciled in
    (transaction-Always I _ (
        bind-Safe I _ _ (Safe-of_Always I _ (lock-Always I sqlite user_id order_id)) λ _.
          bind-Safe I _ _ (Safe-of_Always I _ (reject-Always I user_id order_id 0)) λ _.
            pay_in_tx-Safe (λ us ts ps. IsBalanced ts us) add_date user_id order_id debit now
              (λ delta ref_id.
                adjust_balance-Safe user_id delta TxType.payment "order" ref_id))).keeps
      w h

-- What the buyer is charged: one entry of the order's total, if that is positive, and else nothing.
abbrev pub Charged : Bool → Db → ℕ → ℤ → List User → List Transaction → Type 0
Charged true d user_id total us ts =
    let delta = pos 0 -ℤ total in
    (t : Transaction) × (t.user_id ≡ user_id)
    × (t.amount_cents ≡ delta)
    × (ts ≡ t ∷ d.transactions)
    × MovedUsers user_id delta d.users us
Charged false d user_id total us ts = (us ≡ d.users) × (ts ≡ d.transactions)

debit-Charged :
    (b : Bool) (d : Db) (user_id : ℕ) (total : ℤ) (ref_id : ℕ) (w : World)
    → w.db ≡ d
    → Post
        (λ e. Charged b d user_id total e.users e.transactions)
        (when b
          (adjust_balance user_id (pos 0 -ℤ total) TxType.payment "order" ref_id >>= λ _. pure tt)
          w)
unfolding when pure
debit-Charged true d user_id total ref_id w same =
    let Q : Result (Unit {0}) × World → Type 0 =
      Post (λ e. Charged true d user_id total e.users e.transactions) in
    after_action Q (adjust_balance user_id (pos 0 -ℤ total) TxType.payment "order" ref_id)
      (λ _. pure tt) w
      (λ t v done.
        let (moved, owner, amount, tables, _) =
          rw done at
            (adjust_balance-Moved user_id (pos 0 -ℤ total) TxType.payment "order" ref_id w) in
        let entries : v.db.transactions ≡ t ∷ w.db.transactions =
          ap (λ (e : Db). e.transactions) tables in
        (t, owner, amount, rw same at entries, rw same at moved))
      (λ e v failed. tt)
debit-Charged false d user_id total ref_id w same = rw same (refl, refl)

-- The order as it is found, and what its buyer is charged.
abbrev pub IsPaidFor : Db → ℕ → ℕ → Bool → List User → List Transaction → Type 0
IsPaidFor d user_id order_id debit us ts =
    (order : Order) × (first (λ (o : Order). o.id == order_id && o.user_id == user_id) d.orders
      ≡ some order)
    × Charged (debit && ltb_ℤ (pos 0) order.total_cents) d user_id order.total_cents us ts

record_payment-Post :
    (add_date : ℕ → ℕ → Time → Time) (order : Order) (items : List OrderItem) (now : Time)
    (w : World) (P : List User → List Transaction → Type 0)
    → P w.db.users w.db.transactions
    → Post (λ d. P d.users d.transactions) (record_payment add_date order items now w)
record_payment-Post add_date order items now w P h =
    (Safe-of_Always _ _
        (record_payment-Always (λ us ts ps. P us ts) add_date order items now)).keeps
      w h

pay_in_tx-Post :
    (add_date : ℕ → ℕ → Time → Time) (user_id order_id : ℕ) (debit : Bool) (now : Time) (d : Db)
    (w : World)
    → w.db ≡ d
    → Post
        (λ e. IsPaidFor d user_id order_id debit e.users e.transactions)
        (pay_in_tx add_date user_id order_id debit now w)
unfolding pay_in_tx
pay_in_tx-Post add_date user_id order_id debit now d w same =
    let P : List User → List Transaction → Type 0 = IsPaidFor d user_id order_id debit in
    let Q : Result (List Service) × World → Type 0 = Post (λ e. P e.users e.transactions) in
    after_select Q _ _ _ w tt (λ _. tt)
      λ order found. after_statement Q _ _ _ tt (
        after_raise_if Q _ _ _ _ (λ _. tt)
          λ _.
            after_raise_if Q _ _ _ _ (λ _. tt)
              λ _.
                after_raise_if Q _ _ _ _ (λ _. tt)
                  λ _.
                    after_action Q _ _ _
                      (λ a v done. record_payment-Post add_date order _ now v P (
                        order,
                        rw same at found,
                        rw done at (
                            debit-Charged (debit && ltb_ℤ (pos 0) order.total_cents) d user_id
                              order.total_cents order.id (stepped (stepped w w.db) w.db) same),
                      ))
                      (λ e v failed. tt))

-- Code that leaves the tables alone, in front of other code.
pub after_reading :
    {A B : Type 0} (Q : Result B × World → Type 0) (m : Action A) (k : A → Action B) (d : Db)
    (w : World)
    → Always (λ e. e ≡ d) m
    → w.db ≡ d
    → ((a : A) (v : World) → m w ≡ (ok a, v) → v.db ≡ d → Q (k a v))
    → ((e : Error) (v : World) → Q (err e, v))
    → Q ((m >>= k) w)
after_reading Q m k d w reads same done failed =
    after_action Q m k w (λ a v ran. done a v ran (rw ran at (reads.keeps w same)))
      (λ e v ran. failed e v)

-- What `Pay` has done: an error leaves every table as it was.
abbrev pub Paid : Db → ℕ → ℕ → Bool → Result (List Service) × World → Type 0
Paid d user_id order_id debit (err e, w) = w.db ≡ d
Paid d user_id order_id debit (ok services, w) =
    IsPaidFor d user_id order_id debit w.db.users w.db.transactions

-- `Pay` on every branch, whatever the driver fails: an error leaves every table as it was; a success has
-- found the user's order and has taken its total from the balance of the user, who is there and whose balance
-- covers it, with one entry of the ledger (nothing when the total is not positive or a channel has paid), and
-- no other balance changed.
pub pay-Paid :
    (add_date : ℕ → ℕ → Time → Time) (sqlite : Bool) (user_id order_id : ℕ) (debit : Bool)
    (now : Time) (w : World)
    → Paid w.db user_id order_id debit (pay add_date sqlite user_id order_id debit now w)
unfolding pay
pay-Paid add_date sqlite user_id order_id debit now w =
    let P : Db → Type 0 = λ e. IsPaidFor w.db user_id order_id debit e.users e.transactions in
    let Same : Db → Type 0 = λ d. d ≡ w.db in
    let Q : Result (List Service) × World → Type 0 = Post P in
    last_transaction (Paid w.db user_id order_id debit) _ w (λ e v same. same)
      λ services v done. rw done at (
        after_reading Q _ _ w.db w (lock-Always Same sqlite user_id order_id) refl
          (λ o u locked kept.
            after_reading Q _ _ w.db u (reject-Always Same user_id order_id 0) kept
              (λ _ x free left. pay_in_tx-Post add_date user_id order_id debit now w.db x left)
              (λ e x. tt))
          (λ e u. tt))
