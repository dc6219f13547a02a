-- ===== src/Payment/Target.antt =====
-- internal/service/payment_target.go: the target of a payment, what it costs, and whether another payment of it
-- is under way. Every caller takes the locks; they are no step of a request that runs alone.
use levis.Base.{
  ℕ, ◌==◌, Bool, true, false, not, ◌&&◌, ◌||◌, Option, none, some, List, [], String, if◌then◌else◌,
  keep, any, map,
}
use levis.Base.Int.{ℤ, eqb_ℤ}
use levis.Base.Time.{Time}
use levis.Store.{
  Invoice, InvoiceItem, Purpose, Order, Service, Db, first, bad_request, not_found, conflict,
  Action, pure, raise, raise_if, when, select, query, execute_sql, ◌>>=◌, ◌>>◌,
}
use levis.Order.{is_unpaid, is_pending, refers}
use levis.Order.Settlement.{blocks, reject_order_intent}
use levis.Billing.{
  find_invoice, service_of, order_of, is_active, auto_suspended, is_onetime, is_some, same_time,
}
use levis.Billing.Traffic.{items_of, is_traffic_invoice}

-- `canonicalPaymentTarget`; `items` are the lines of the invoice.
pub record PaymentTarget : Type 0 where
  pub key : Option (Purpose × ℕ)
  pub order : Option Order
  pub service : Option Service
  pub invoice : Option Invoice
  pub items : List InvoiceItem

abbrev no_target : PaymentTarget
no_target = record { key = none; order = none; service = none; invoice = none; items = [] }

-- The shared root of a target.
unfoldable pub load_root : ℕ → ℕ → Purpose → Action PaymentTarget
load_root user_id id Purpose.order = do
  o ←
      select (λ d. first (λ (o : Order). o.id == id && o.user_id == user_id) d.orders)
        (not_found "订单不存在")
  pure (record no_target { key = some (Purpose.order, id); order = some o })
load_root user_id id Purpose.renewal = do
  s ←
      select (λ d. first (λ (s : Service). s.id == id && s.user_id == user_id) d.services)
        (not_found "服务不存在")
  pure (record no_target { key = some (Purpose.renewal, id); service = some s })
load_root user_id id Purpose.invoice = pure (record no_target { key = some (Purpose.invoice, id) })
load_root user_id id _ = raise (bad_request "不支持的支付用途")

-- The root that an invoice is an alias of.
abbrev pub root_of : ℕ → Option ℕ → Option ℕ → Purpose × ℕ
root_of id (some order_id) _ = (Purpose.order, order_id)
root_of id none (some service_id) = (Purpose.renewal, service_id)
root_of id none none = (Purpose.invoice, id)

-- `sameOptionalID`
abbrev pub same_optional_id : Option ℕ → Option ℕ → Bool
same_optional_id none none = true
same_optional_id (some a) (some b) = a == b
same_optional_id _ _ = false

-- What a renewal costs.
unfoldable pub renewal_price : Option Service → Time → Action ℤ
renewal_price none quote = raise (bad_request "不支持的支付用途")
renewal_price (some s) quote = do
  raise_if (not (is_active s.status) || is_onetime s.billing_cyc) (conflict "该服务当前不可续费")
  raise_if (is_some s.change_pending_id) (conflict "该服务有进行中的规格更新，请等待其完成后再续费")
  raise_if (not (same_time s.expires_at (some quote))) (conflict "服务到期时间已变更，请刷新后重试")
  pure s.price_cents

unfoldable pub invoice_price : Option Invoice → Action ℤ
invoice_price none = raise (bad_request "不支持的支付用途")
invoice_price (some i) = pure i.total_cents

unfoldable pub order_price : Option Order → Action ℤ
order_price none = raise (bad_request "不支持的支付用途")
order_price (some o) = pure o.total_cents

-- The switch of `payableAmount`; a target of a purpose holds the row of that purpose.
unfoldable pub price_of : PaymentTarget → Time → Purpose → Action ℤ
unfolding renewal_price invoice_price order_price
price_of t quote Purpose.invoice = invoice_price t.invoice
price_of t quote Purpose.order = order_price t.order
price_of t quote Purpose.renewal = renewal_price t.service quote
price_of t quote _ = raise (bad_request "不支持的支付用途")

module _ (scan : String → Option ℤ) where
  unfoldable pub load_invoice_target : ℕ → ℕ → Action PaymentTarget
  unfolding load_root find_invoice items_of
  load_invoice_target user_id id = do
    invoice ← find_invoice user_id id
    items ← items_of invoice
    let root = root_of id (order_of invoice) (service_of invoice)
    target ← load_root user_id root.1 root.0
    current ← find_invoice user_id id
    lines ← items_of current
    raise_if
        (not (same_optional_id current.order_id invoice.order_id)
          || not (same_optional_id current.service_id invoice.service_id))
        (conflict "账单归属已变更")
    pure (record target {
      key =
          if is_traffic_invoice scan current lines
          then some (Purpose.invoice, current.id)
          else target.key;
      invoice = some current;
      items = lines;
    })

  unfoldable pub load_locked : ℕ → Purpose → ℕ → Action PaymentTarget
  unfolding load_invoice_target
  load_locked user_id Purpose.invoice id = load_invoice_target user_id id
  load_locked user_id purpose id = load_root user_id id purpose

  -- `loadPaymentTarget`
  unfoldable pub load_payment_target : Bool → ℕ → Purpose → ℕ → Action PaymentTarget
  unfolding load_locked
  load_payment_target sqlite user_id Purpose.recharge id = pure no_target
  load_payment_target sqlite user_id purpose id =
      when sqlite (execute_sql (λ d. d)) >>= λ _. load_locked user_id purpose id

  -- The service window behind an invoice of it.
  unfoldable pub check_window : Option Service → Invoice → Time → Action (Unit {0})
  check_window none i quote = pure tt
  check_window (some s) i quote = do
    raise_if (not (is_active s.status) && not (auto_suspended s)) (conflict "该服务当前不可续费")
    raise_if (is_some s.change_pending_id) (conflict "该服务有进行中的规格更新，请等待其完成后再续费")
    raise_if (not (eqb_ℤ s.price_cents i.total_cents)) (conflict "服务价格已变更，请重新开具账单")
    raise_if (not (same_time s.expires_at (some quote))) (conflict "服务到期时间已变更，请重新开具账单")

  abbrev other_total : Option Order → Invoice → Bool
  other_total none i = false
  other_total (some o) i = not (eqb_ℤ o.total_cents i.total_cents)

  abbrev not_pending : Option Order → Bool
  not_pending none = false
  not_pending (some o) = not (is_pending o.status)

  unfoldable pub check_invoice : PaymentTarget → Time → Option Invoice → Action (Unit {0})
  unfolding check_window
  check_invoice t quote none = pure tt
  check_invoice t quote (some i) = do
    raise_if (not (is_unpaid i.status)) (conflict "账单当前无需支付")
    raise_if (other_total t.order i) (conflict "账单与订单金额不一致")
    if is_traffic_invoice scan i t.items then pure tt else check_window t.service i quote

  -- `payableAmount`, with the quoted end of the paid time
  unfoldable pub payable_amount : PaymentTarget → Purpose → Time → Action ℤ
  unfolding check_invoice price_of
  payable_amount t purpose quote = do
    check_invoice t quote t.invoice
    raise_if (not_pending t.order) (conflict "订单当前不可支付")
    price_of t quote purpose

  -- The ids of the invoices that stand for the same service.
  unfoldable pub renewal_ids : ℕ → Db → List ℕ
  renewal_ids service_id d =
      map (λ (i : Invoice). i.id)
        (keep
          (λ (i : Invoice).
            refers i.service_id service_id
            && not (
                is_traffic_invoice scan i
                  (keep (λ (l : InvoiceItem). l.invoice_id == i.id) d.invoice_items))
            && not (is_some (order_of i)))
          d.invoices)

  unfoldable pub reject_service_intent : ℕ → Purpose × ℕ → ℕ → ℕ → Action (Unit {0})
  unfolding renewal_ids
  reject_service_intent user_id key service_id except_id = do
    ids ← query (renewal_ids service_id)
    live ←
        query (λ d. any (blocks user_id except_id key (Purpose.renewal, service_id) ids) d.payments)
    raise_if live (conflict "该订单已有进行中的支付，请先完成或取消后再发起新的支付")

  unfoldable pub reject_invoice_intent : ℕ → Purpose × ℕ → ℕ → ℕ → Action (Unit {0})
  reject_invoice_intent user_id key invoice_id except_id = do
    live ←
        query (λ d. any (blocks user_id except_id key (Purpose.invoice, invoice_id) []) d.payments)
    raise_if live (conflict "该订单已有进行中的支付，请先完成或取消后再发起新的支付")

  unfoldable pub reject_other :
      ℕ → PaymentTarget → Purpose × ℕ → ℕ → Option Service → Option Invoice → Action (Unit {0})
  unfolding reject_service_intent reject_invoice_intent
  reject_other user_id t key except_id (some s) none =
      reject_service_intent user_id key s.id except_id
  reject_other user_id t key except_id (some s) (some i) =
      if is_traffic_invoice scan i t.items
      then reject_invoice_intent user_id key i.id except_id
      else reject_service_intent user_id key s.id except_id
  reject_other user_id t key except_id none (some i) =
      reject_invoice_intent user_id key i.id except_id
  reject_other user_id t key except_id none none = pure tt

  unfoldable pub reject_keyed :
      ℕ → PaymentTarget → ℕ → Option (Purpose × ℕ) → Option Order → Action (Unit {0})
  unfolding reject_other
  reject_keyed user_id t except_id none o = pure tt
  reject_keyed user_id t except_id (some key) (some o) = reject_order_intent user_id o.id except_id
  reject_keyed user_id t except_id (some key) none =
      reject_other user_id t key except_id t.service t.invoice

  -- `rejectPaymentIntentTx`
  unfoldable pub reject_payment_intent : ℕ → PaymentTarget → ℕ → Action (Unit {0})
  unfolding reject_keyed
  reject_payment_intent user_id t except_id = reject_keyed user_id t except_id t.key t.order
