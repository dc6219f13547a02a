-- ===== src/Order.antt =====
-- internal/service/order.go: paying an order with the balance, up to the commit of the money and of the
-- records, and cancelling it. `add_date` is `time.AddDate` for years and months. Provisioning at the
-- upstream runs after the commit and is left out, and so are the random serial numbers of invoices. `first`
-- takes the first row of a table, which is the one gorm's `First` takes when rows stand in the order of
-- their ids, and the only one where one row fits.
pub mod Settlement
pub mod Frames
pub mod Books
pub mod Busy
pub mod Claimed
pub mod Twice
mod Tests
use levis.Base.{
  ℕ, zero, suc, ◌+◌, ◌==◌, Bool, true, false, not, ◌&&◌, ◌||◌, Option, none, some, List, [], ◌∷◌,
  String, if◌then◌else◌, length, ◌++◌,
}
use levis.Base.Int.{ℤ, pos, negsuc, ◌+ℤ◌, ◌-ℤ◌, ltb_ℤ, leb_ℤ}
use levis.Base.Time.{Time, zero_time}
use levis.Store.{
  Error, Cycle, Product, UpstreamInterface, OrderItem, Invoice, InvoiceStatus, InvoiceItem, TxType,
  PaymentStatus, Purpose, ExternalPayment, Order, OrderStatus, ServiceStatus, Service, Db, first,
  update, count, Error, bad_request, not_found, conflict, Action, pure, raise, raise_if, when,
  catch, statement, select, query, execute_sql, transaction, ◌>>=◌, ◌>>◌,
}
use levis.Wallet.{adjust_balance}
use levis.Coupon.{release_coupon}
use text.Mathlib.Text.{◌==◌ as str_eq}

abbrev pub is_pending : OrderStatus → Bool
is_pending OrderStatus.pending = true
is_pending _ = false

abbrev pub is_cancelled : OrderStatus → Bool
is_cancelled OrderStatus.cancelled = true
is_cancelled _ = false

abbrev pub is_unpaid : InvoiceStatus → Bool
is_unpaid InvoiceStatus.unpaid = true
is_unpaid _ = false

abbrev pub is_settled : InvoiceStatus → Bool
is_settled InvoiceStatus.paid = true
is_settled _ = false

-- An optional foreign key that refers to a row.
abbrev pub refers : Option ℕ → ℕ → Bool
refers none id = false
refers (some i) id = i == id

-- `isUpstreamProduct`
abbrev pub is_upstream : Product → Bool
is_upstream p =
    not (p.interface_id == 0)
    || not (str_eq p.upstream_plugin_id "") && not (str_eq p.upstream_product_id "")

-- `resolvePluginForProduct`: the plugin.
unfoldable pub resolve_plugin : Product → Action String
resolve_plugin p =
    let bound =
      select (λ d. first (λ (i : UpstreamInterface). i.id == p.interface_id) d.interfaces)
        (bad_request "商品绑定的接口不存在")
      >>= λ i. pure i.plugin_id in
    let direct = raise_if (str_eq p.upstream_plugin_id "") (bad_request "该商品未绑定上游") >>= λ _.
    pure p.upstream_plugin_id in
    if p.interface_id == 0 then direct else bound

-- `order_id = ?`, claimed while the order is pending; the number of rows.
unfoldable pub claim_order : ℕ → Time → Action ℕ
claim_order id now = statement λ d. (
  count (λ (o : Order). o.id == id && is_pending o.status) d.orders,
  record d {
    orders =
        update (λ o. o.id == id && is_pending o.status)
          (λ o. record o { status = OrderStatus.paid; paid_at = some now }) d.orders;
  },
)

unfoldable pub create_paid_invoice : Order → Time → Action Invoice
create_paid_invoice order now = statement λ d.
    (let row : Invoice = record {
      id = d.next_id;
      user_id = order.user_id;
      order_id = some order.id;
      service_id = none;
      status = InvoiceStatus.paid;
      total_cents = order.total_cents;
      due_at = some now;
      paid_at = some now;
    } in
      (row, record d { invoices = row ∷ d.invoices; next_id = d.next_id + 1 }))

unfoldable pub claim_invoice : ℕ → Time → Action ℕ
claim_invoice id now = statement λ d. (
  count (λ (i : Invoice). i.id == id && is_unpaid i.status) d.invoices,
  record d {
    invoices =
        update (λ i. i.id == id && is_unpaid i.status)
          (λ i. record i { status = InvoiceStatus.paid; paid_at = some now }) d.invoices;
  },
)

-- The invoice of the order is marked as paid; an order without one gets one that is paid.
unfoldable pub settle_invoice : Order → Time → Option Invoice → Action Invoice
unfolding create_paid_invoice claim_invoice
settle_invoice order now none = create_paid_invoice order now
settle_invoice order now (some invoice) = do
  raise_if (is_settled invoice.status) (conflict "账单已支付")
  raise_if (not (is_unpaid invoice.status)) (conflict "账单状态已变更，请刷新后重试")
  rows ← claim_invoice invoice.id now
  raise_if (rows == 0) (conflict "账单状态已变更，请刷新后重试")
  pure (record invoice { status = InvoiceStatus.paid; paid_at = some now })

-- The text of an error that resolving a plugin gives, which is short enough to be stored whole; the text of the
-- driver's own errors is not known and stands as "driver".
abbrev pub error_text : Error → String
error_text (Error.bad_request text) = text
error_text _ = "driver"

-- The status, the plugin and the error of a new service: an upstream product waits for its provisioning.
unfoldable pub first_status : Product → Action (ServiceStatus × String × String)
unfolding resolve_plugin
first_status p =
    let resolved = resolve_plugin p >>= λ plugin. pure (ServiceStatus.pending, plugin, "") in
    if is_upstream p
    then catch resolved (λ e. pure (ServiceStatus.failed, "", error_text e))
    else pure (ServiceStatus.active, "", "")

-- An absent time is stored as null.
abbrev pub unless_zero : Time → Option Time
unless_zero t = if t == zero_time then none else some t

abbrev pub copies : ℤ → ℕ
copies (pos n) = n
copies (negsuc _) = 0

-- The stock of a limited product is lowered; a negative stock means no limit.
unfoldable pub take_stock : ℕ → ℤ → Action (Unit {0})
take_stock product_id quantity = execute_sql λ d. record d {
  products =
      update (λ (p : Product). p.id == product_id && leb_ℤ (pos 0) p.stock)
        (λ p. record p { stock = p.stock -ℤ quantity }) d.products;
}

unfoldable pub set_item_service : ℕ → ℕ → Action (Unit {0})
set_item_service item_id service_id = execute_sql λ d. record d {
  invoice_items =
      update (λ (i : InvoiceItem). i.id == item_id) (λ i. record i { service_id = some service_id })
        d.invoice_items;
}

-- As many of the invoice's lines as there are services for are linked to them, in their order.
unfoldable pub link_items : List InvoiceItem → List Service → Action (Unit {0})
unfolding set_item_service
link_items (i ∷ items) (s ∷ services) =
    set_item_service i.id s.id >>= λ _. link_items items services
link_items _ _ = pure tt

abbrev pub new_items : ℕ → ℕ → List Service → List InvoiceItem
new_items invoice_id id [] = []
new_items invoice_id id (s ∷ services) =
    record {
      id = id;
      invoice_id = invoice_id;
      service_id = some s.id;
      description = s.name;
      amount_cents = s.price_cents;
    }
    ∷ new_items invoice_id (suc id) services

unfoldable pub create_items : ℕ → List Service → Action (Unit {0})
create_items invoice_id services = execute_sql λ d. record d {
  invoice_items = new_items invoice_id d.next_id services ++ d.invoice_items;
  next_id = d.next_id + length services;
}

unfoldable pub bill_services : ℕ → List InvoiceItem → List Service → Action (Unit {0})
unfolding link_items create_items
bill_services invoice_id [] [] = pure tt
bill_services invoice_id [] services = create_items invoice_id services
bill_services invoice_id existing services = link_items existing services
