-- ===== src/Order/Settlement.antt =====
-- internal/service/order.go, `Pay` and `Cancel`, with the checks of payment_target.go for an order.
use levis.Base.{
  ℕ, zero, suc, ◌+◌, ◌==◌, Bool, true, false, not, ◌&&◌, ◌||◌, Option, none, some, List, [], ◌∷◌,
  ◌++◌, String, keep, any, map,
}
use levis.Base.Int.{pos, ◌-ℤ◌, ltb_ℤ}
use levis.Base.Time.{Time}
use levis.Store.{
  Cycle, Product, OrderItem, Invoice, InvoiceStatus, InvoiceItem, TxType, PaymentStatus, Purpose,
  ExternalPayment, Order, OrderStatus, ServiceStatus, Service, first, update, count, bad_request,
  not_found, conflict, Action, pure, raise_if, when, catch, statement, select, query, execute_sql,
  transaction, ◌>>=◌, ◌>>◌,
}
use levis.Wallet.{adjust_balance}
use levis.Affiliate.{accrue_affiliate, is_paid}
use levis.Coupon.{release_coupon}
use levis.Order.{
  is_pending, is_cancelled, is_unpaid, refers, claim_order, settle_invoice, first_status,
  unless_zero, copies, take_stock, bill_services,
}

abbrev pub no_items : List OrderItem → Bool
no_items [] = true
no_items _ = false

module _ (add_date : ℕ → ℕ → Time → Time) where
  -- `AdvanceCycle`, by years and months
  unfoldable pub advance_cycle : Time → Cycle → Time
  advance_cycle from Cycle.monthly = add_date 0 1 from
  advance_cycle from Cycle.quarterly = add_date 0 3 from
  advance_cycle from Cycle.semiannually = add_date 0 6 from
  advance_cycle from Cycle.annually = add_date 1 0 from
  advance_cycle from Cycle.biennially = add_date 2 0 from
  advance_cycle from Cycle.triennially = add_date 3 0 from
  advance_cycle from _ = 0

  -- One service of a line.
  unfoldable pub create_service :
      Order → OrderItem → Time → ServiceStatus × String × String → Action Service
  unfolding advance_cycle
  create_service order item now (status, plugin, failure) = statement λ d.
      (let next = unless_zero (advance_cycle now item.billing_cyc) in
        let row : Service = record {
          id = d.next_id;
          user_id = order.user_id;
          order_id = order.id;
          status = status;
          product_id = item.product_id;
          name = item.product_name;
          billing_cyc = item.billing_cyc;
          price_cents = item.price_cents;
          change_pending_id = none;
          next_due_at = next;
          expires_at = next;
          upstream_plugin_id = plugin;
          upstream_host_id = "";
          traffic_extra_gb = pos 0;
          suspend_reason = "";
          auto_renew = false;
          resume_pending = false;
          refund_suspend_pending = false;
          suspended_at = none;
          traffic_used_bytes = pos 0;
          traffic_last_rx_bytes = pos 0;
          traffic_last_tx_bytes = pos 0;
          provision_error = failure;
        } in
        (row, record d { services = row ∷ d.services; next_id = d.next_id + 1 }))

  unfoldable pub create_services : Order → OrderItem → Product → Time → ℕ → Action (List Service)
  unfolding create_service first_status
  create_services order item product now zero = pure []
  create_services order item product now (suc n) = do
    status ← first_status product
    row ← create_service order item now status
    rows ← create_services order item product now n
    pure (row ∷ rows)

  -- The loop over the lines of the order.
  unfoldable pub open_items : Order → Time → List OrderItem → Action (List Service)
  unfolding create_services take_stock
  open_items order now [] = pure []
  open_items order now (item ∷ items) = do
    product ←
        select (λ d. first (λ (p : Product). p.id == item.product_id) d.products)
          (not_found "record not found")
    opened ← create_services order item product now (copies item.quantity)
    when (ltb_ℤ (pos 0) item.quantity) (take_stock item.product_id item.quantity)
    rest ← open_items order now items
    pure (opened ++ rest)

  -- The records of `payInTx` once the order is claimed.
  unfoldable pub record_claimed : Order → List OrderItem → Time → Action (List Service)
  unfolding settle_invoice open_items bill_services
  record_claimed order items now = do
    found ← query (λ d. first (λ (i : Invoice). refers i.order_id order.id) d.invoices)
    invoice ← settle_invoice order now found
    existing ←
        catch (query (λ d. keep (λ (i : InvoiceItem). i.invoice_id == invoice.id) d.invoice_items))
          (λ _. pure [])
    services ← open_items order now items
    bill_services invoice.id existing services
    accrue_affiliate order
    pure services

  -- The records of `payInTx`, after the debit.
  unfoldable pub record_payment : Order → List OrderItem → Time → Action (List Service)
  unfolding claim_order record_claimed
  record_payment order items now = do
    rows ← claim_order order.id now
    raise_if (rows == 0) (conflict "订单状态已变更，请刷新后重试")
    record_claimed (record order { status = OrderStatus.paid; paid_at = some now }) items now

  -- `payInTx`
  unfoldable pub pay_in_tx : ℕ → ℕ → Bool → Time → Action (List Service)
  unfolding record_payment
  pay_in_tx user_id order_id debit now = do
    order ←
        select (λ d. first (λ (o : Order). o.id == order_id && o.user_id == user_id) d.orders)
          (not_found "订单不存在")
    items ← query (λ d. keep (λ (i : OrderItem). i.order_id == order.id) d.order_items)
    raise_if (is_paid order.status) (conflict "订单已支付")
    raise_if (is_cancelled order.status) (conflict "订单已取消")
    raise_if (no_items items) (bad_request "订单没有明细")
    when (debit && ltb_ℤ (pos 0) order.total_cents) (
        adjust_balance user_id (pos 0 -ℤ order.total_cents) TxType.payment "order" order.id >>= λ _.
        pure tt)
    record_payment order items now

abbrev pub is_live : PaymentStatus → Bool
is_live PaymentStatus.pending = true
is_live PaymentStatus.processing = true
is_live _ = false

abbrev pub purpose_code : Purpose → ℕ
purpose_code Purpose.recharge = 0
purpose_code Purpose.order = 1
purpose_code Purpose.renewal = 2
purpose_code Purpose.invoice = 3
purpose_code Purpose.unknown = 4

-- The same purpose and the same number.
abbrev pub same_target : Purpose × ℕ → Purpose × ℕ → Bool
same_target (p, i) (q, j) = purpose_code p == purpose_code q && i == j

abbrev pub has_key : Option (Purpose × ℕ) → Purpose × ℕ → Bool
has_key none key = false
has_key (some k) key = same_target k key

-- The WHERE of `rejectPaymentIntentTx`, for a key, an alias and the ids of invoices.
unfoldable pub blocks : ℕ → ℕ → Purpose × ℕ → Purpose × ℕ → List ℕ → ExternalPayment → Bool
blocks user_id except_id key alias ids p =
    p.user_id == user_id
    && is_live p.status
    && not (p.id == except_id)
    && (has_key p.active_target_key key
        || same_target (p.purpose, p.target_id) alias
        || purpose_code p.purpose == 3 && any (λ id. p.target_id == id) ids)

-- `rejectOrderPaymentIntentTx`
unfoldable pub reject_order_intent : ℕ → ℕ → ℕ → Action (Unit {0})
unfolding blocks
reject_order_intent user_id order_id except_id = do
  ids ← query λ d. map (λ (i : Invoice). i.id) (keep (λ i. refers i.order_id order_id) d.invoices)
  live ← query λ d.
      any (blocks user_id except_id (Purpose.order, order_id) (Purpose.order, order_id) ids)
        d.payments
  raise_if live (conflict "该订单已有进行中的支付，请先完成或取消后再发起新的支付")

-- `lockOrderPaymentTx`: on SQLite a write that changes nothing comes first.
unfoldable pub lock_order_payment : Bool → ℕ → ℕ → Action Order
lock_order_payment sqlite user_id order_id = do
  when sqlite (execute_sql (λ d. d))
  select (λ d. first (λ (o : Order). o.id == order_id && o.user_id == user_id) d.orders)
      (not_found "订单不存在")

-- The transaction of `pay`.
unfoldable pub pay : (ℕ → ℕ → Time → Time) → Bool → ℕ → ℕ → Bool → Time → Action (List Service)
unfolding pay_in_tx reject_order_intent lock_order_payment
pay add_date sqlite user_id order_id debit now = transaction do
  lock_order_payment sqlite user_id order_id
  reject_order_intent user_id order_id 0
  pay_in_tx add_date user_id order_id debit now

unfoldable pub cancel_order : ℕ → ℕ → Action ℕ
cancel_order user_id order_id = statement λ d. (
  count (λ (o : Order). o.id == order_id && o.user_id == user_id && is_pending o.status) d.orders,
  record d {
    orders =
        update (λ o. o.id == order_id && o.user_id == user_id && is_pending o.status)
          (λ o. record o { status = OrderStatus.cancelled }) d.orders;
  },
)

unfoldable pub cancel_invoices : ℕ → Action (Unit {0})
cancel_invoices order_id = execute_sql λ d. record d {
  invoices =
      update (λ (i : Invoice). refers i.order_id order_id && is_unpaid i.status)
        (λ i. record i { status = InvoiceStatus.cancelled }) d.invoices;
}

-- `Cancel`
unfoldable pub cancel : ℕ → ℕ → Action (Unit {0})
unfolding cancel_order cancel_invoices
cancel user_id order_id = transaction do
  rows ← cancel_order user_id order_id
  raise_if (rows == 0) (conflict "订单不存在或状态不允许取消")
  release_coupon order_id
  cancel_invoices order_id
