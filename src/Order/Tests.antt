-- ===== src/Order/Tests.antt =====
-- An order of two units of a product, paid with the balance.
use levis.Base.{ℕ, ◌+◌, ◌*◌, ◌≡◌, refl, true, false, none, some, [], ◌∷◌, arith}
use levis.Base.Int.{pos, ◌-ℤ◌}
use levis.Base.Time.{Time}
use levis.Store.{
  Order, OrderStatus, OrderItem, Cycle, Product, Db, Service, ServiceStatus, Purpose, PaymentStatus,
  ExternalPayment, RefundStatus, ok, transaction, ◌>>=◌, when, statement, select, raise_if, pure,
  catch, lift,
}
use levis.Store.Samples.{sample_db, calm}
use levis.Affiliate.{is_paid, accrue_affiliate, is_none, decode_settings}
use levis.Wallet.{adjust_balance}
use levis.Order.Settlement.{pay}
use levis.Order.Books.{Paid, pay-Paid}
use levis.Order.Busy.{IsRefused, is_busy, pay-IsRefused}
use levis.Order.Twice.{pay-pay}

abbrev add_date : ℕ → ℕ → Time → Time
add_date years months t = t + years * 365 + months * 30

abbrev vm : Product
vm = record {
  id = 30;
  stock = pos 5;
  upstream_plugin_id = "";
  upstream_product_id = "";
  interface_id = 0;
  traffic_unit_price_cents = pos 0;
  traffic_step = pos 0;
  traffic_price_cents = pos 0;
}

abbrev wanted : Order
wanted = record {
  id = 20;
  user_id = 2;
  total_cents = pos 400;
  status = OrderStatus.pending;
  paid_at = none;
}

abbrev line : OrderItem
line = record {
  order_id = 20;
  product_id = 30;
  product_name = "vm";
  price_cents = pos 200;
  quantity = pos 2;
  traffic_gb = none;
  billing_cyc = Cycle.monthly;
}

abbrev shop : Db
shop = record (sample_db RefundStatus.pending) {
  orders = wanted ∷ [];
  order_items = line ∷ [];
  products = vm ∷ [];
}

abbrev paying : ExternalPayment
paying = record {
  id = 40;
  plugin_id = "pay";
  external_id = "y";
  user_id = 2;
  purpose = Purpose.order;
  target_id = 20;
  amount_cents = pos 400;
  balance_cents = pos 0;
  paid_amount_cents = pos 0;
  gateway_ref = "";
  status = PaymentStatus.pending;
  paid_at = none;
  active_target_key = some (Purpose.order, 20);
}

abbrev busy_shop : Db
busy_shop = record shop { payments = paying ∷ [] }

pay-Paid_example : Paid shop 2 20 true (pay add_date true 2 20 true 9 (calm shop))
pay-Paid_example = pay-Paid add_date true 2 20 true 9 (calm shop)

busy : is_busy 2 20 busy_shop ≡ true
busy = refl

pay-IsRefused_example : IsRefused busy_shop (pay add_date true 2 20 true 9 (calm busy_shop))
pay-IsRefused_example = pay-IsRefused add_date true 2 20 true 9 (calm busy_shop) busy

abbrev unit : ℕ → Service
unit id = record {
  id = id;
  user_id = 2;
  order_id = 20;
  status = ServiceStatus.active;
  product_id = 30;
  name = "vm";
  billing_cyc = Cycle.monthly;
  price_cents = pos 200;
  change_pending_id = none;
  next_due_at = some 39;
  expires_at = some 39;
  upstream_plugin_id = "";
  upstream_host_id = "";
  traffic_extra_gb = pos 0;
  suspend_reason = "";
  auto_renew = false;
  resume_pending = false;
  refund_suspend_pending = false;
  suspended_at = none;
  traffic_used_bytes = pos 0;
  traffic_last_rx_bytes = pos 0;
  traffic_last_tx_bytes = pos 0;
  provision_error = "";
}

opened : (pay add_date true 2 20 true 9 (calm shop)).0 ≡ ok (unit 102 ∷ unit 103 ∷ [])
unfolding pay transaction ◌>>=◌ when statement select raise_if is_paid adjust_balance ◌-ℤ◌ pure
    catch accrue_affiliate is_none lift decode_settings
opened = refl

pay-pay_example :
    IsRefused
      (pay add_date true 2 20 true 9 (calm shop)).1.db
      (pay add_date true 2 20 true 11 (pay add_date true 2 20 true 9 (calm shop)).1)
pay-pay_example =
    pay-pay add_date true 2 20 true true 9 11 (calm shop) (unit 102 ∷ unit 103 ∷ []) (omega arith)
      opened
