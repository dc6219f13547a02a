-- ===== src/Billing/Books.antt =====
-- internal/service/billing.go: the users, the ledger and the payments through renewals and traffic packs.
use levis.Base.{ℕ, Bool, Option, none, some, List, [], ◌∷◌, String}
use levis.Base.Int.{ℤ}
use levis.Base.Time.{Time}
use levis.Store.{
  User, Transaction, TxType, ExternalPayment, Product, Invoice, InvoiceItem, Service, Db,
}
use levis.Store.Rules.{
  Safe, Always, Safe-of_Always, always_rules, bind-Safe, when-Safe, pure-Always,
}
use levis.Wallet.{adjust_balance}
use levis.Billing.{
  load_renewable_service, apply_renewal_tx, create_renewal_invoice, renew_in_tx, mark_paid,
  find_invoice, settle_renewal, settle_renewal_invoice_tx,
}
use levis.Billing.Traffic.{
  site_price, site_unit_price, traffic_unit_price, add_traffic, settle_pack, items_of, settle_line,
  settle_lines, settle_traffic_invoice_tx,
}

module _ {κ} (P : List User → List Transaction → List ExternalPayment → Type κ) where
  -- A property of the users, the ledger and the payments.
  abbrev Of : Db → Type κ
  Of d = P d.users d.transactions d.payments

  load-Always : (user_id service_id : ℕ) → Always Of (load_renewable_service user_id service_id)
  unfolding load_renewable_service
  load-Always user_id service_id = search always_rules depth 12

  invoice-Always :
      (user_id : ℕ) (s : Service) (now : Time) → Always Of (create_renewal_invoice user_id s now)
  unfolding create_renewal_invoice
  invoice-Always user_id s now = search always_rules

  pub mark_paid-Always : (user_id id : ℕ) (now : Time) → Always Of (mark_paid user_id id now)
  unfolding mark_paid
  mark_paid-Always user_id id now = search always_rules

  pub find_invoice-Always : (user_id id : ℕ) → Always Of (find_invoice user_id id)
  unfolding find_invoice
  find_invoice-Always user_id id = search always_rules

  pub items_of-Always : (invoice : Invoice) → Always Of (items_of invoice)
  unfolding items_of
  items_of-Always invoice = search always_rules

  site_price-Always : (v : Option ℤ) → Always Of (site_price v)
  unfolding site_price
  site_price-Always none = search always_rules
  site_price-Always (some v) = search always_rules

  unit_price-Always : (p : Option Product) → Always Of (traffic_unit_price p)
  unfolding traffic_unit_price site_unit_price
  unit_price-Always none = search (always_rules, site_price-Always)
  unit_price-Always (some p) = search (always_rules, site_price-Always) depth 9

  settle_pack-Always :
      (user_id : ℕ) (invoice : Invoice) (line : ℤ) (now : Time) (service_id gb : ℕ)
      → Always Of (settle_pack user_id invoice line now service_id gb)
  unfolding settle_pack add_traffic
  settle_pack-Always user_id invoice line now service_id gb =
      search (always_rules, unit_price-Always, mark_paid-Always) depth 14

  module _ (scan : String → Option ℤ) where
    settle_line-Always :
        (user_id : ℕ) (invoice : Invoice) (now : Time) (item : InvoiceItem) (s gb : Option ℕ)
        → Always Of (settle_line scan user_id invoice now item s gb)
    unfolding settle_line
    settle_line-Always user_id invoice now item none none = search always_rules
    settle_line-Always user_id invoice now item none (some n) = search always_rules
    settle_line-Always user_id invoice now item (some i) none = search always_rules
    settle_line-Always user_id invoice now item (some i) (some n) =
        settle_pack-Always user_id invoice item.amount_cents now i n

    settle_lines-Always :
        (user_id : ℕ) (invoice : Invoice) (now : Time) (items : List InvoiceItem)
        → Always Of (settle_lines scan user_id invoice now items)
    unfolding settle_lines
    settle_lines-Always user_id invoice now [] = search always_rules
    settle_lines-Always user_id invoice now (i ∷ []) = settle_line-Always user_id invoice now i _ _
    settle_lines-Always user_id invoice now (i ∷ j ∷ items) = search always_rules

    pub settle_traffic_invoice-Always :
        (user_id id : ℕ) (now : Time) → Always Of (settle_traffic_invoice_tx scan user_id id now)
    unfolding settle_traffic_invoice_tx
    settle_traffic_invoice-Always user_id id now =
        search (always_rules, items_of-Always, settle_lines-Always) depth 9

  module _ (add_date : ℕ → ℕ → Time → Time) where
    apply_renewal-Always : (s : Service) (now : Time) → Always Of (apply_renewal_tx add_date s now)
    unfolding apply_renewal_tx
    apply_renewal-Always s now = search always_rules

    settle_renewal-Always :
        (user_id id : ℕ) (now : Time) (s : Option ℕ)
        → Always Of (settle_renewal add_date user_id id now s)
    unfolding settle_renewal
    settle_renewal-Always user_id id now none = search always_rules
    settle_renewal-Always user_id id now (some s) =
        search (always_rules, load-Always, apply_renewal-Always, mark_paid-Always) depth 9

    pub settle_renewal_invoice-Always :
        (user_id id : ℕ) (now : Time)
        → Always Of (settle_renewal_invoice_tx add_date user_id id now)
    unfolding settle_renewal_invoice_tx
    settle_renewal_invoice-Always user_id id now =
        search (always_rules, settle_renewal-Always) depth 9

    pub renew_in_tx-Safe :
        (user_id id : ℕ) (debit : Bool) (now : Time)
        → ((delta : ℤ) (ref_id : ℕ)
            → Safe Of (adjust_balance user_id delta TxType.payment "service" ref_id))
        → Safe Of (renew_in_tx add_date user_id id debit now)
    unfolding renew_in_tx
    renew_in_tx-Safe user_id id debit now adjusts =
        bind-Safe Of _ _ (Safe-of_Always Of _ (load-Always user_id id)) λ s.
          bind-Safe Of _ _
            (when-Safe Of _ _
              (bind-Safe Of _ _ (adjusts _ s.id) (λ _. Safe-of_Always Of _ (pure-Always Of tt))))
            λ _. bind-Safe Of _ _ (Safe-of_Always Of _ (apply_renewal-Always s now)) λ next.
              bind-Safe Of _ _ (Safe-of_Always Of _ (invoice-Always user_id s now))
                λ _. Safe-of_Always Of _ (pure-Always Of _)
