-- ===== src/Payment/Settlement.antt =====
-- internal/service/payment.go: settling a target, and the transaction of `finalize`.
use levis.Base.{
  ℕ, ◌==◌, Bool, true, false, not, ◌&&◌, Option, none, some, List, String, if◌then◌else◌,
}
use levis.Base.Int.{ℤ, pos, eqb_ℤ}
use levis.Base.Time.{Time}
use levis.Store.{
  Invoice, InvoiceItem, TxType, PaymentStatus, Purpose, ExternalPayment, first, update, count,
  bad_request, not_found, conflict, Action, pure, raise, raise_if, statement, select, execute_sql,
  transaction, ◌>>=◌, ◌>>◌,
}
use levis.Wallet.{adjust_balance}
use levis.Order.{is_unpaid}
use levis.Order.Settlement.{pay_in_tx}
use levis.Billing.{
  find_invoice, mark_paid, service_of, order_of, renew_in_tx, settle_renewal_invoice_tx,
}
use levis.Billing.Traffic.{items_of, is_traffic_invoice, settle_traffic_invoice_tx}
use levis.Payment.{is_pending}

abbrev pub is_paid : PaymentStatus → Bool
is_paid PaymentStatus.paid = true
is_paid _ = false

unfoldable pub mark_invoice : ℕ → Invoice → Time → Action (Unit {0})
unfolding mark_paid
mark_invoice user_id invoice now = do
  rows ← mark_paid user_id invoice.id now
  raise_if (rows == 0) (conflict "账单状态已变更，请刷新后重试")

-- pending → processing
unfoldable pub claim_intent : ℕ → Action ℕ
claim_intent id = statement λ d. (
  count (λ (p : ExternalPayment). p.id == id && is_pending p.status) d.payments,
  record d {
    payments =
        update (λ p. p.id == id && is_pending p.status)
          (λ p. record p { status = PaymentStatus.processing }) d.payments;
  },
)

unfoldable pub close_intent : ℕ → ℤ → Time → Action (Unit {0})
close_intent id paid_amount now = execute_sql λ d. record d {
  payments =
      update (λ (p : ExternalPayment). p.id == id)
        (λ p. record p {
          status = PaymentStatus.paid;
          paid_amount_cents = paid_amount;
          paid_at = some now;
          active_target_key = none;
        })
        d.payments;
}

module _ (add_date : ℕ → ℕ → Time → Time) (scan : String → Option ℤ) where
  unfoldable pub settle_service_invoice :
      ℕ → Invoice → List InvoiceItem → Time → Option ℕ → Action (Unit {0})
  unfolding mark_invoice
  settle_service_invoice user_id invoice items now none = mark_invoice user_id invoice now
  settle_service_invoice user_id invoice items now (some service_id) =
      settle_renewal_invoice_tx add_date user_id invoice.id now

  unfoldable pub settle_open_invoice :
      ℕ → Invoice → List InvoiceItem → Time → Option ℕ → Action (Unit {0})
  unfolding settle_service_invoice
  settle_open_invoice user_id invoice items now (some order_id) =
      pay_in_tx add_date user_id order_id false now >>= λ _. pure tt
  settle_open_invoice user_id invoice items now none =
      if is_traffic_invoice scan invoice items
      then settle_traffic_invoice_tx scan user_id invoice.id now
      else settle_service_invoice user_id invoice items now (service_of invoice)

  -- `settleInvoiceTx`
  unfoldable pub settle_invoice_tx : ℕ → ℕ → Time → Action (Unit {0})
  unfolding find_invoice items_of settle_open_invoice
  settle_invoice_tx user_id invoice_id now = do
    invoice ← find_invoice user_id invoice_id
    items ← items_of invoice
    raise_if (not (is_unpaid invoice.status)) (conflict "账单当前无需支付")
    settle_open_invoice user_id invoice items now (order_of invoice)

  -- What an intent that is claimed pays for.
  unfoldable pub settle_target : ExternalPayment → Time → Purpose → Action (Unit {0})
  unfolding settle_invoice_tx
  settle_target p now Purpose.recharge =
      adjust_balance p.user_id p.amount_cents TxType.recharge "external_payment" p.id >>= λ _.
      pure tt
  settle_target p now Purpose.order =
      pay_in_tx add_date p.user_id p.target_id false now >>= λ _. pure tt
  settle_target p now Purpose.renewal =
      renew_in_tx add_date p.user_id p.target_id false now >>= λ _. pure tt
  settle_target p now Purpose.invoice = settle_invoice_tx p.user_id p.target_id now
  settle_target p now Purpose.unknown = raise (bad_request "不支持的支付用途")

  -- `finalize` for a payment that is not paid yet.
  unfoldable pub finalize_open : ExternalPayment → ℤ → Time → Action (Unit {0})
  unfolding claim_intent settle_target close_intent
  finalize_open current paid_amount now = do
    raise_if (not (is_pending current.status)) (conflict "支付状态已变更")
    raise_if (not (eqb_ℤ paid_amount current.amount_cents)) (conflict "支付金额与订单金额不一致")
    rows ← claim_intent current.id
    raise_if (not (rows == 1)) (conflict "支付状态已变更")
    settle_target current now current.purpose
    close_intent current.id paid_amount now

  -- The body of the transaction of `finalize`.
  unfoldable pub finalize_body : ℕ → ℤ → Time → Action (Unit {0})
  unfolding finalize_open
  finalize_body id paid_amount now = do
    current ←
        select (λ d. first (λ (p : ExternalPayment). p.id == id) d.payments)
          (not_found "record not found")
    let repeated =
        raise_if
          (not (eqb_ℤ current.paid_amount_cents (pos 0))
            && not (eqb_ℤ current.paid_amount_cents paid_amount))
          (conflict "重复支付回报金额不一致")
    if is_paid current.status then repeated else finalize_open current paid_amount now

  -- The transaction of `finalize`.
  unfoldable pub finalize_tx : ℕ → ℤ → Time → Action (Unit {0})
  unfolding finalize_body
  finalize_tx id paid_amount now = transaction (finalize_body id paid_amount now)
