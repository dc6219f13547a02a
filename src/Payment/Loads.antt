-- ===== src/Payment/Loads.antt =====
-- internal/service/payment_target.go: the reads of a payment's target change no table.
use levis.Base.{ℕ, Bool, Option, none, some, String}
use levis.Base.Int.{ℤ}
use levis.Base.Time.{Time}
use levis.Store.{Purpose, Invoice, Order, Service, Db}
use levis.Store.Rules.{Always, always_rules, if-Always, pure-Always}
use levis.Order.Books.{reject-Always}
use levis.Billing.{find_invoice}
use levis.Billing.Traffic.{items_of}
use levis.Payment.Target.{
  PaymentTarget, load_root, load_invoice_target, load_locked, load_payment_target, renewal_price,
  invoice_price, order_price, price_of, check_window, check_invoice, payable_amount,
  reject_service_intent, reject_invoice_intent, reject_other, reject_keyed, reject_payment_intent,
}
use levis.Payment.Reserve.{find_own_invoice}

module _ {κ} (I : Db → Type κ) where
  root-Always : (user_id id : ℕ) (p : Purpose) → Always I (load_root user_id id p)
  unfolding load_root
  root-Always user_id id Purpose.order = search always_rules
  root-Always user_id id Purpose.renewal = search always_rules
  root-Always user_id id Purpose.invoice = search always_rules
  root-Always user_id id Purpose.recharge = search always_rules
  root-Always user_id id Purpose.unknown = search always_rules

  renewal_price-Always : (s : Option Service) (quote : Time) → Always I (renewal_price s quote)
  unfolding renewal_price
  renewal_price-Always none quote = search always_rules
  renewal_price-Always (some s) quote = search always_rules depth 9

  invoice_price-Always : (i : Option Invoice) → Always I (invoice_price i)
  unfolding invoice_price
  invoice_price-Always none = search always_rules
  invoice_price-Always (some i) = search always_rules

  order_price-Always : (o : Option Order) → Always I (order_price o)
  unfolding order_price
  order_price-Always none = search always_rules
  order_price-Always (some o) = search always_rules

  price-Always : (t : PaymentTarget) (quote : Time) (p : Purpose) → Always I (price_of t quote p)
  unfolding price_of
  price-Always t quote Purpose.order = order_price-Always t.order
  price-Always t quote Purpose.renewal = renewal_price-Always t.service quote
  price-Always t quote Purpose.invoice = invoice_price-Always t.invoice
  price-Always t quote Purpose.recharge = search always_rules
  price-Always t quote Purpose.unknown = search always_rules

  pub find_own-Always : (i : Option Invoice) → Always I (find_own_invoice i)
  unfolding find_own_invoice
  find_own-Always none = search always_rules
  find_own-Always (some i) = search always_rules

  module _ (scan : String → Option ℤ) where
    invoice_target-Always : (user_id id : ℕ) → Always I (load_invoice_target scan user_id id)
    unfolding load_invoice_target find_invoice items_of
    invoice_target-Always user_id id = search (always_rules, root-Always) depth 14

    locked-Always : (user_id : ℕ) (p : Purpose) (id : ℕ) → Always I (load_locked scan user_id p id)
    unfolding load_locked
    locked-Always user_id Purpose.invoice id = invoice_target-Always user_id id
    locked-Always user_id Purpose.order id = root-Always user_id id Purpose.order
    locked-Always user_id Purpose.renewal id = root-Always user_id id Purpose.renewal
    locked-Always user_id Purpose.recharge id = root-Always user_id id Purpose.recharge
    locked-Always user_id Purpose.unknown id = root-Always user_id id Purpose.unknown

    -- Loading a target changes no table.
    pub load-Always :
        (sqlite : Bool) (user_id : ℕ) (p : Purpose) (id : ℕ)
        → Always I (load_payment_target scan sqlite user_id p id)
    unfolding load_payment_target
    load-Always sqlite user_id Purpose.recharge id = search always_rules
    load-Always sqlite user_id Purpose.order id = search (always_rules, locked-Always)
    load-Always sqlite user_id Purpose.renewal id = search (always_rules, locked-Always)
    load-Always sqlite user_id Purpose.invoice id = search (always_rules, locked-Always)
    load-Always sqlite user_id Purpose.unknown id = search always_rules

    window-Always :
        (s : Option Service) (i : Invoice) (quote : Time) → Always I (check_window scan s i quote)
    unfolding check_window
    window-Always none i quote = search always_rules
    window-Always (some s) i quote = search always_rules depth 9

    check_invoice-Always :
        (t : PaymentTarget) (quote : Time) (i : Option Invoice)
        → Always I (check_invoice scan t quote i)
    unfolding check_invoice
    check_invoice-Always t quote none = search always_rules
    check_invoice-Always t quote (some i) = search (always_rules, window-Always) depth 9

    -- Neither does its price.
    pub payable-Always :
        (t : PaymentTarget) (p : Purpose) (quote : Time) → Always I (payable_amount scan t p quote)
    unfolding payable_amount
    payable-Always t p quote = search (always_rules, check_invoice-Always, price-Always) depth 9

    service_intent-Always :
        (user_id : ℕ) (key : Purpose × ℕ) (service_id except_id : ℕ)
        → Always I (reject_service_intent scan user_id key service_id except_id)
    unfolding reject_service_intent
    service_intent-Always user_id key service_id except_id = search always_rules depth 9

    invoice_intent-Always :
        (user_id : ℕ) (key : Purpose × ℕ) (invoice_id except_id : ℕ)
        → Always I (reject_invoice_intent scan user_id key invoice_id except_id)
    unfolding reject_invoice_intent
    invoice_intent-Always user_id key invoice_id except_id = search always_rules depth 9

    other-Always :
        (user_id : ℕ) (t : PaymentTarget) (key : Purpose × ℕ) (except_id : ℕ) (s : Option Service)
        (i : Option Invoice)
        → Always I (reject_other scan user_id t key except_id s i)
    unfolding reject_other
    other-Always user_id t key except_id (some s) none =
        service_intent-Always user_id key s.id except_id
    other-Always user_id t key except_id (some s) (some i) =
        if-Always I _ _ _ (invoice_intent-Always user_id key i.id except_id)
          (service_intent-Always user_id key s.id except_id)
    other-Always user_id t key except_id none (some i) =
        invoice_intent-Always user_id key i.id except_id
    other-Always user_id t key except_id none none = pure-Always I tt

    keyed-Always :
        (user_id : ℕ) (t : PaymentTarget) (except_id : ℕ) (key : Option (Purpose × ℕ))
        (o : Option Order)
        → Always I (reject_keyed scan user_id t except_id key o)
    unfolding reject_keyed
    keyed-Always user_id t except_id none none = pure-Always I tt
    keyed-Always user_id t except_id none (some o) = pure-Always I tt
    keyed-Always user_id t except_id (some key) (some o) = reject-Always I user_id o.id except_id
    keyed-Always user_id t except_id (some key) none =
        other-Always user_id t key except_id t.service t.invoice

    pub reject_target-Always :
        (user_id : ℕ) (t : PaymentTarget) (except_id : ℕ)
        → Always I (reject_payment_intent scan user_id t except_id)
    unfolding reject_payment_intent
    reject_target-Always user_id t except_id = keyed-Always user_id t except_id t.key t.order
