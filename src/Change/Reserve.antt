-- ===== src/Change/Reserve.antt =====
-- internal/service/service_change.go, `fenceChangeOnBilling` and the transaction of `Change` that reserves a service.
-- `scan` is `fmt.Sscanf(s, "%d GB", …)`.
use levis.Base.{
  ℕ, ◌+◌, ◌==◌, Bool, true, false, not, ◌&&◌, ◌||◌, Option, some, List, ◌∷◌, String, any, keep,
}
use levis.Base.Int.{ℤ, pos, ◌-ℤ◌, ltb_ℤ}
use levis.Base.Time.{Time}
use levis.Store.{
  Invoice, InvoiceItem, ExternalPayment, PaymentStatus, Purpose, Service, ChangeStatus, OptionMap,
  ServiceChange, TxType, update, count, conflict, duplicated_key, Action, pure, raise_if, when,
  statement, checked, query, transaction, ◌>>=◌, ◌>>◌,
}
use levis.Wallet.{adjust_balance}
use levis.Order.{is_unpaid, refers}
use levis.Billing.{is_some, same_time, status_code}
use levis.Billing.Traffic.{is_traffic_invoice}
use text.Mathlib.Text.{◌==◌ as str_eq}

abbrev pub is_renewal : Purpose → Bool
is_renewal Purpose.renewal = true
is_renewal _ = false

abbrev pub is_under_way : PaymentStatus → Bool
is_under_way PaymentStatus.pending = true
is_under_way PaymentStatus.processing = true
is_under_way _ = false

-- What `Change` puts in the new row.
pub record Reservation : Type 0 where
  pub product_id : ℕ
  pub idempotency_key : String
  pub operation_id : String
  pub charge_cents : ℤ
  pub credit_cents : ℤ
  pub price_cents : ℤ
  pub options : OptionMap
  pub previous_resources : OptionMap

-- The unique indexes.
unfoldable pub is_taken : ℕ → Reservation → ServiceChange → Bool
is_taken service_id r c =
    c.service_id == service_id && str_eq c.idempotency_key r.idempotency_key
    || str_eq c.operation_id r.operation_id

unfoldable pub create_change : ℕ → Service → Reservation → Time → Action ServiceChange
unfolding is_taken
create_change user_id s r now =
    checked (λ d. any (is_taken s.id r) d.changes) duplicated_key
      λ d.
        (let row : ServiceChange = record {
          id = d.next_id;
          user_id = user_id;
          service_id = s.id;
          product_id = r.product_id;
          previous_product_id = s.product_id;
          idempotency_key = r.idempotency_key;
          operation_id = r.operation_id;
          status = ChangeStatus.reserved;
          charge_cents = r.charge_cents;
          credit_cents = r.credit_cents;
          price_cents = r.price_cents;
          options = r.options;
          previous_resources = r.previous_resources;
          updated_at = now;
        } in
          (row, record d { changes = row ∷ d.changes; next_id = d.next_id + 1 }))

-- The service as it was read, with no change under way.
unfoldable pub is_free : ℕ → Service → Service → Bool
is_free user_id s r =
    r.id == s.id
    && r.user_id == user_id
    && not (is_some r.change_pending_id)
    && r.product_id == s.product_id
    && status_code r.status == status_code s.status
    && same_time r.expires_at s.expires_at

unfoldable pub claim_service : ℕ → Service → ℕ → Action ℕ
unfolding is_free
claim_service user_id s change_id = statement λ d. (
  count (is_free user_id s) d.services,
  record d {
    services =
        update (is_free user_id s) (λ r. record r { change_pending_id = some change_id })
          d.services;
  },
)

unfoldable pub charge_user : ℕ → ServiceChange → Action (Unit {0})
charge_user user_id row = when (ltb_ℤ (pos 0) row.charge_cents) (
    adjust_balance user_id (pos 0 -ℤ row.charge_cents) TxType.payment "service_change" row.id
    >>= λ _. pure tt)

module _ (scan : String → Option ℤ) where
  abbrev is_for_renewal : List InvoiceItem → Invoice → Bool
  is_for_renewal lines i =
      not (is_traffic_invoice scan i (keep (λ (l : InvoiceItem). l.invoice_id == i.id) lines))

  -- `fenceChangeOnBilling`
  unfoldable pub fence_change_on_billing : Service → Action (Unit {0})
  unfolding is_traffic_invoice
  fence_change_on_billing s = do
    invoices ←
        query
          (λ d. keep (λ (i : Invoice). refers i.service_id s.id && is_unpaid i.status) d.invoices)
    lines ← query (λ d. d.invoice_items)
    raise_if (any (is_for_renewal lines) invoices) (conflict "该服务有待支付的续费账单（%s），请先完成支付或取消后再改配")
    live ← query λ d.
        count
          (λ (p : ExternalPayment).
            is_renewal p.purpose && p.target_id == s.id && is_under_way p.status)
          d.payments
    raise_if (not (live == 0)) (conflict "该服务有进行中的续费支付，请先完成或取消后再改配")

  unfoldable pub reserve_body : ℕ → Service → Reservation → Time → Action ServiceChange
  unfolding fence_change_on_billing create_change claim_service charge_user
  reserve_body user_id s r now = do
    fence_change_on_billing s
    row ← create_change user_id s r now
    claimed ← claim_service user_id s row.id
    raise_if (not (claimed == 1)) (conflict "服务已有改配或状态已变更")
    charge_user user_id row
    pure row

  -- The transaction of `Change`.
  unfoldable pub reserve_change : ℕ → Service → Reservation → Time → Action ServiceChange
  unfolding reserve_body
  reserve_change user_id s r now = transaction (reserve_body user_id s r now)
