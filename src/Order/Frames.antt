-- ===== src/Order/Frames.antt =====
-- internal/service/order.go: which tables the records of a paid order leave alone.
use levis.Base.{ℕ, zero, suc, Bool, Option, none, some, List, [], ◌∷◌}
use levis.Base.Int.{ℤ}
use levis.Base.Time.{Time}
use levis.Wallet.{adjust_balance}
use levis.Store.{
  TxType, User, Transaction, ExternalPayment, Order, OrderItem, Product, Invoice, InvoiceItem,
  Service, Db,
}
use levis.Store.Rules.{
  Safe, Always, Safe-of_Always, always_rules, bind-Always, bind-Safe, when-Safe, statement-Always,
  pure-Always, raise_if-Always, select-Always,
}
use levis.Affiliate.{accrue_affiliate}
use levis.Affiliate.Accrual.{accrue_affiliate-Always}
use levis.Order.{
  claim_order, create_paid_invoice, claim_invoice, settle_invoice, resolve_plugin, first_status,
  take_stock, set_item_service, link_items, create_items, bill_services,
}
use levis.Order.Settlement.{
  create_service, create_services, open_items, record_claimed, record_payment, pay_in_tx,
}

module _ {κ} (P : List User → List Transaction → List ExternalPayment → List Order → Type κ) where
  -- A property of the users, the ledger, the payments and the orders.
  abbrev Of : Db → Type κ
  Of d = P d.users d.transactions d.payments d.orders

  settle_invoice-Always :
      (order : Order) (now : Time) (found : Option Invoice)
      → Always Of (settle_invoice order now found)
  unfolding settle_invoice create_paid_invoice claim_invoice
  settle_invoice-Always order now none = search always_rules
  settle_invoice-Always order now (some invoice) = search always_rules depth 9

  first_status-Always : (p : Product) → Always Of (first_status p)
  unfolding first_status resolve_plugin
  first_status-Always p = search always_rules depth 9

  link_items-Always : (is : List InvoiceItem) (ss : List Service) → Always Of (link_items is ss)
  unfolding link_items set_item_service
  link_items-Always [] ss = search always_rules
  link_items-Always (i ∷ is) [] = search always_rules
  link_items-Always (i ∷ is) (s ∷ ss) =
      bind-Always Of _ _ (statement-Always Of _ (λ d h. h)) (λ _. link_items-Always is ss)

  bill_services-Always :
      (id : ℕ) (is : List InvoiceItem) (ss : List Service) → Always Of (bill_services id is ss)
  unfolding bill_services create_items
  bill_services-Always id [] [] = search always_rules
  bill_services-Always id [] (s ∷ ss) = search always_rules
  bill_services-Always id (i ∷ is) ss = link_items-Always (i ∷ is) ss

  accrual-Always : (order : Order) → Always Of (accrue_affiliate order)
  accrual-Always = accrue_affiliate-Always Of (λ d cs holders n h. h)

  module _ (add_date : ℕ → ℕ → Time → Time) where
    create_services-Always :
        (order : Order) (item : OrderItem) (p : Product) (now : Time) (n : ℕ)
        → Always Of (create_services add_date order item p now n)
    unfolding create_services create_service
    create_services-Always order item p now zero = search always_rules
    create_services-Always order item p now (suc n) =
        bind-Always Of _ _ (first_status-Always p) λ status.
          bind-Always Of _ _ (statement-Always Of _ (λ d h. h)) λ row.
            bind-Always Of _ _ (create_services-Always order item p now n)
              (λ rows. pure-Always Of _)

    open_items-Always :
        (order : Order) (now : Time) (items : List OrderItem)
        → Always Of (open_items add_date order now items)
    unfolding open_items take_stock
    open_items-Always order now [] = search always_rules
    open_items-Always order now (item ∷ items) = bind-Always Of _ _ (search always_rules) λ product.
        bind-Always Of _ _ (create_services-Always order item product now _) λ opened.
          bind-Always Of _ _ (search always_rules)
            λ _. bind-Always Of _ _ (open_items-Always order now items) (λ rest. pure-Always Of _)

    -- The records of an order that is claimed touch neither the users nor the ledger nor the payments nor
    -- the orders.
    pub record_claimed-Always :
        (order : Order) (items : List OrderItem) (now : Time)
        → Always Of (record_claimed add_date order items now)
    unfolding record_claimed
    record_claimed-Always order items now =
        search
          (
            always_rules, settle_invoice-Always, open_items-Always, bill_services-Always,
            accrual-Always,
          )
          depth 16

module _ {κ} (P : List User → List Transaction → List ExternalPayment → Type κ)
    (add_date : ℕ → ℕ → Time → Time) where
  -- The records of a paid order touch neither the users nor the ledger nor the payments.
  pub record_payment-Always :
      (order : Order) (items : List OrderItem) (now : Time)
      → Always (λ d. P d.users d.transactions d.payments) (record_payment add_date order items now)
  unfolding record_payment claim_order
  record_payment-Always order items now =
      bind-Always _ _ _ (statement-Always _ _ (λ d h. h)) λ rows.
        bind-Always _ _ _ (raise_if-Always _ _ _)
          λ _. record_claimed-Always (λ us ts ps os. P us ts ps) add_date _ items now

  -- What the debit keeps, `payInTx` keeps.
  pub pay_in_tx-Safe :
      (user_id order_id : ℕ) (debit : Bool) (now : Time)
      → ((delta : ℤ) (ref_id : ℕ)
          → Safe
              (λ d. P d.users d.transactions d.payments)
              (adjust_balance user_id delta TxType.payment "order" ref_id))
      → Safe
          (λ d. P d.users d.transactions d.payments)
          (pay_in_tx add_date user_id order_id debit now)
  unfolding pay_in_tx
  pay_in_tx-Safe user_id order_id debit now adjusts =
      let I : Db → Type κ = λ d. P d.users d.transactions d.payments in
      bind-Safe I _ _ (Safe-of_Always I _ (select-Always I _ _)) λ order.
        bind-Safe I _ _ (Safe-of_Always I _ (search always_rules)) λ items.
          bind-Safe I _ _ (Safe-of_Always I _ (raise_if-Always I _ _)) λ _.
            bind-Safe I _ _ (Safe-of_Always I _ (raise_if-Always I _ _)) λ _.
              bind-Safe I _ _ (Safe-of_Always I _ (raise_if-Always I _ _)) λ _.
                bind-Safe I _ _
                  (when-Safe I _ _ (
                    bind-Safe I _ _ (adjusts _ order.id)
                      (λ _. Safe-of_Always I _ (pure-Always I tt))))
                  λ _. Safe-of_Always I _ (record_payment-Always order items now)
