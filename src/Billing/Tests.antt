-- ===== src/Billing/Tests.antt =====
-- A monthly service, with months of thirty days.
use levis.Base.{ℕ, ◌+◌, ◌*◌, ◌<◌, ◌≡◌, refl, false, none, some, [], ◌∷◌, arith}
use levis.Base.Int.{pos}
use levis.Base.Time.{Time}
use levis.Store.{
  Service, ServiceStatus, Cycle, RefundStatus, World, ok, ◌>>=◌, statement, raise_if, pure,
}
use levis.Store.Samples.{sample_db, calm}
use levis.Order.Settlement.{advance_cycle}
use levis.Billing.{apply_renewal_tx}
use levis.Billing.Expiry.{Extended, IsError, apply_renewal_tx-Extended, apply_renewal_tx-twice}

abbrev add_date : ℕ → ℕ → Time → Time
add_date years months t = t + years * 365 + months * 30

add_date_grows : (years months : ℕ) (t : Time) → 0 < years + months → t < add_date years months t
add_date_grows years months t h = omega (arith, h)

abbrev vm : Service
vm = record {
  id = 50;
  user_id = 2;
  order_id = 20;
  status = ServiceStatus.active;
  product_id = 30;
  name = "vm";
  billing_cyc = Cycle.monthly;
  price_cents = pos 200;
  change_pending_id = none;
  next_due_at = some 40;
  expires_at = some 40;
  upstream_plugin_id = "";
  upstream_host_id = "";
  traffic_extra_gb = pos 0;
  suspend_reason = "";
  auto_renew = false;
  resume_pending = false;
  refund_suspend_pending = false;
  suspended_at = none;
  traffic_used_bytes = pos 0;
  traffic_last_rx_bytes = pos 0;
  traffic_last_tx_bytes = pos 0;
  provision_error = "";
}

abbrev shop : World
shop = calm (record (sample_db RefundStatus.pending) { services = vm ∷ [] })

apply_renewal_tx-Extended_example : Extended vm 35 shop.db (apply_renewal_tx add_date vm 35 shop)
apply_renewal_tx-Extended_example =
    apply_renewal_tx-Extended add_date add_date_grows vm 35 shop refl

renewed_until : (apply_renewal_tx add_date vm 35 shop).0 ≡ ok 70
unfolding apply_renewal_tx ◌>>=◌ statement raise_if pure advance_cycle
renewed_until = refl

apply_renewal_tx-twice_example :
    IsError (apply_renewal_tx add_date vm 36 (apply_renewal_tx add_date vm 35 shop).1)
apply_renewal_tx-twice_example =
    apply_renewal_tx-twice add_date add_date_grows vm 35 36 70 shop refl renewed_until
