-- ===== src/Billing/Traffic.antt =====
-- internal/service/billing.go: the settlement of a traffic pack.
use levis.Base.{
  ℕ, suc, ◌/◌, ◌%◌, ◌==◌, Bool, true, false, not, ◌&&◌, ◌||◌, Option, none, some, List, [], ◌∷◌,
  String, if◌then◌else◌, leb, keep,
}
use levis.Base.Int.{ℤ, pos, negsuc, ◌+ℤ◌, ◌*ℤ◌, ltb_ℤ, eqb_ℤ, i64}
use levis.Base.Time.{Time}
use levis.Store.{
  Product, Invoice, InvoiceItem, Service, first, update, bad_request, not_found, conflict, Action,
  pure, raise, raise_if, catch, select, query, execute_sql, ◌>>=◌, ◌>>◌,
}
use levis.Billing.{mark_paid, find_invoice, service_of, order_of, is_some}
use Prim.Native.String.{len, slice}
use text.Mathlib.Text.{starts_with}

abbrev pub max_traffic_extra_gb : ℕ
max_traffic_extra_gb = 10240

abbrev pub traffic_item_prefix : String
traffic_item_prefix = "流量包 "

abbrev pub in_limits : Option ℤ → Option ℕ
in_limits none = none
in_limits (some (negsuc n)) = none
in_limits (some (pos n)) = if leb 1 n && leb n max_traffic_extra_gb then some n else none

-- A positive step.
abbrev pub step_of : ℤ → ℕ
step_of (pos (suc n)) = suc n
step_of _ = 1

abbrev pub positive : Option ℤ → Option ℤ
positive none = none
positive (some v) = if ltb_ℤ (pos 0) v then some v else none

unfoldable pub site_price : Option ℤ → Action (ℤ × ℕ)
site_price none = raise (bad_request "该服务暂未设置流量包单价，请联系管理员")
site_price (some v) = pure (v, 1)

unfoldable pub site_unit_price : Action (ℤ × ℕ)
unfolding site_price
site_unit_price =
    catch (query (λ d. d.traffic_price_per_gb)) (λ _. pure none) >>= λ v. site_price (positive v)

-- `trafficUnitPrice`: the price of a step, and the step.
unfoldable pub traffic_unit_price : Option Product → Action (ℤ × ℕ)
unfolding site_unit_price
traffic_unit_price none = site_unit_price
traffic_unit_price (some p) =
    if ltb_ℤ (pos 0) p.traffic_unit_price_cents
    then pure (p.traffic_unit_price_cents, step_of p.traffic_step)
    else if ltb_ℤ (pos 0) p.traffic_price_cents
    then pure (p.traffic_price_cents, 1)
    else site_unit_price

-- The price of so many GB, an int64.
abbrev pub traffic_amount : ℕ → ℤ × ℕ → ℤ
traffic_amount gb (price, step) = i64 (pos (gb / step) *ℤ price)

abbrev pub is_multiple : ℕ → ℤ × ℕ → Bool
is_multiple gb (price, step) = gb % step == 0

unfoldable pub add_traffic : ℕ → ℕ → ℕ → Action (Unit {0})
add_traffic user_id service_id gb = execute_sql λ d. record d {
  services =
      update (λ (s : Service). s.id == service_id && s.user_id == user_id)
        (λ s. record s { traffic_extra_gb = s.traffic_extra_gb +ℤ pos gb }) d.services;
}

-- The settlement of a pack of `gb` on a line of `line_cents`.
unfoldable pub settle_pack : ℕ → Invoice → ℤ → Time → ℕ → ℕ → Action (Unit {0})
unfolding traffic_unit_price add_traffic mark_paid
settle_pack user_id invoice line_cents now service_id gb = do
  s ←
      select (λ d. first (λ (s : Service). s.id == service_id && s.user_id == user_id) d.services)
        (not_found "服务不存在")
  product ← query (λ d. first (λ (p : Product). p.id == s.product_id) d.products)
  price ← traffic_unit_price product
  raise_if (not (is_multiple gb price)) (conflict "流量包计价步长已调整为 %d GB，请重新下单")
  raise_if
      (not (eqb_ℤ invoice.total_cents (traffic_amount gb price))
        || not (eqb_ℤ line_cents (traffic_amount gb price)))
      (conflict "流量包价格已变动（现价 %d 分），请重新下单")
  add_traffic user_id s.id gb
  rows ← mark_paid user_id invoice.id now
  raise_if (rows == 0) (conflict "账单状态已变更，请刷新后重试")

unfoldable pub items_of : Invoice → Action (List InvoiceItem)
items_of invoice =
    query (λ d. keep (λ (i : InvoiceItem). i.invoice_id == invoice.id) d.invoice_items)

module _ (scan : String → Option ℤ) where
  -- `parseTrafficDescription`
  unfoldable pub parse_traffic_description : String → Option ℕ
  parse_traffic_description desc =
      if starts_with desc traffic_item_prefix
      then in_limits (scan (slice desc (len traffic_item_prefix) (len desc)))
      else none

  abbrev all_packs : List InvoiceItem → Bool
  all_packs [] = true
  all_packs (i ∷ items) = is_some (parse_traffic_description i.description) && all_packs items

  abbrev some_packs : List InvoiceItem → Bool
  some_packs [] = false
  some_packs (i ∷ items) = all_packs (i ∷ items)

  -- `isTrafficInvoice`
  unfoldable pub is_traffic_invoice : Invoice → List InvoiceItem → Bool
  unfolding parse_traffic_description
  is_traffic_invoice invoice items =
      is_some (service_of invoice) && not (is_some (order_of invoice)) && some_packs items

  unfoldable pub settle_line :
      ℕ → Invoice → Time → InvoiceItem → Option ℕ → Option ℕ → Action (Unit {0})
  unfolding settle_pack
  settle_line user_id invoice now item (some service_id) (some gb) =
      settle_pack user_id invoice item.amount_cents now service_id gb
  settle_line user_id invoice now item _ _ = raise (bad_request "流量包账单数据异常，请联系管理员")

  unfoldable pub settle_lines : ℕ → Invoice → Time → List InvoiceItem → Action (Unit {0})
  unfolding settle_line parse_traffic_description
  settle_lines user_id invoice now (item ∷ []) =
      settle_line user_id invoice now item (service_of invoice)
        (parse_traffic_description item.description)
  settle_lines user_id invoice now _ = raise (bad_request "流量包账单数据异常，请联系管理员")

  -- `settleTrafficInvoiceTx`
  unfoldable pub settle_traffic_invoice_tx : ℕ → ℕ → Time → Action (Unit {0})
  unfolding find_invoice items_of is_traffic_invoice settle_lines
  settle_traffic_invoice_tx user_id invoice_id now = do
    invoice ← find_invoice user_id invoice_id
    items ← items_of invoice
    raise_if (not (is_traffic_invoice invoice items)) (bad_request "该账单不是流量包账单")
    settle_lines user_id invoice now items
