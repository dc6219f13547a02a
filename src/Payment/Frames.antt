-- ===== src/Payment/Frames.antt =====
-- internal/service/payment.go, `settleTargetTx` and `settleInvoiceTx`: what a settlement keeps of the users,
-- the ledger and the payments.
use levis.Base.{ℕ, false, Option, none, some, List, String}
use levis.Base.Int.{ℤ}
use levis.Base.Time.{Time}
use levis.Store.{User, Transaction, TxType, ExternalPayment, Purpose, Invoice, InvoiceItem, Db}
use levis.Store.Rules.{
  Safe, Always, Safe-of_Always, bind-Always, bind-Safe, if-Safe, pure-Always, raise-Always,
  raise_if-Always,
}
use levis.Wallet.{adjust_balance}
use levis.Order.Frames.{pay_in_tx-Safe}
use levis.Billing.Books.{
  mark_paid-Always, find_invoice-Always, items_of-Always, settle_traffic_invoice-Always,
  settle_renewal_invoice-Always, renew_in_tx-Safe,
}
use levis.Payment.Settlement.{
  mark_invoice, settle_service_invoice, settle_open_invoice, settle_invoice_tx, settle_target,
}

module _ {κ} (P : List User → List Transaction → List ExternalPayment → Type κ)
    (add_date : ℕ → ℕ → Time → Time) (scan : String → Option ℤ)
    (adjusts : (user_id : ℕ) (delta : ℤ) (tx_type : TxType) (ref_type : String) (ref_id : ℕ)
      → Safe
          (λ d. P d.users d.transactions d.payments)
          (adjust_balance user_id delta tx_type ref_type ref_id)) where
  abbrev Of : Db → Type κ
  Of d = P d.users d.transactions d.payments

  mark_invoice-Always :
      (user_id : ℕ) (invoice : Invoice) (now : Time) → Always Of (mark_invoice user_id invoice now)
  unfolding mark_invoice
  mark_invoice-Always user_id invoice now =
      bind-Always Of _ _ (mark_paid-Always P user_id invoice.id now)
        (λ rows. raise_if-Always Of _ _)

  service_invoice-Always :
      (user_id : ℕ) (invoice : Invoice) (items : List InvoiceItem) (now : Time) (s : Option ℕ)
      → Always Of (settle_service_invoice add_date scan user_id invoice items now s)
  unfolding settle_service_invoice
  service_invoice-Always user_id invoice items now none = mark_invoice-Always user_id invoice now
  service_invoice-Always user_id invoice items now (some s) =
      settle_renewal_invoice-Always P add_date user_id invoice.id now

  open_invoice-Safe :
      (user_id : ℕ) (invoice : Invoice) (items : List InvoiceItem) (now : Time) (o : Option ℕ)
      → Safe Of (settle_open_invoice add_date scan user_id invoice items now o)
  unfolding settle_open_invoice
  open_invoice-Safe user_id invoice items now (some o) =
      bind-Safe Of _ _
        (pay_in_tx-Safe P add_date user_id o false now
          (λ delta id. adjusts user_id delta TxType.payment "order" id))
        (λ _. Safe-of_Always Of _ (pure-Always Of tt))
  open_invoice-Safe user_id invoice items now none =
      if-Safe Of _ _ _
        (Safe-of_Always Of _ (settle_traffic_invoice-Always P scan user_id invoice.id now))
        (Safe-of_Always Of _ (service_invoice-Always user_id invoice items now _))

  pub settle_invoice_tx-Safe :
      (user_id id : ℕ) (now : Time) → Safe Of (settle_invoice_tx add_date scan user_id id now)
  unfolding settle_invoice_tx
  settle_invoice_tx-Safe user_id id now =
      bind-Safe Of _ _ (Safe-of_Always Of _ (find_invoice-Always P user_id id)) λ invoice.
        bind-Safe Of _ _ (Safe-of_Always Of _ (items_of-Always P invoice)) λ items.
          bind-Safe Of _ _ (Safe-of_Always Of _ (raise_if-Always Of _ _))
            λ _. open_invoice-Safe user_id invoice items now _

  -- What a change of a balance keeps, the settlement of a target keeps.
  pub settle_target-Safe :
      (p : ExternalPayment) (now : Time) (purpose : Purpose)
      → Safe Of (settle_target add_date scan p now purpose)
  unfolding settle_target
  settle_target-Safe p now Purpose.recharge =
      bind-Safe Of _ _ (adjusts _ _ _ _ _) (λ _. Safe-of_Always Of _ (pure-Always Of tt))
  settle_target-Safe p now Purpose.order =
      bind-Safe Of _ _
        (pay_in_tx-Safe P add_date p.user_id p.target_id false now
          (λ delta id. adjusts p.user_id delta TxType.payment "order" id))
        (λ _. Safe-of_Always Of _ (pure-Always Of tt))
  settle_target-Safe p now Purpose.renewal =
      bind-Safe Of _ _
        (renew_in_tx-Safe P add_date p.user_id p.target_id false now
          (λ delta id. adjusts p.user_id delta TxType.payment "service" id))
        (λ _. Safe-of_Always Of _ (pure-Always Of tt))
  settle_target-Safe p now Purpose.invoice = settle_invoice_tx-Safe p.user_id p.target_id now
  settle_target-Safe p now Purpose.unknown = Safe-of_Always Of _ (raise-Always Of _)
