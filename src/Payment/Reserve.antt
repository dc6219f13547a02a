-- ===== src/Payment/Reserve.antt =====
-- internal/service/payment.go: the reservation of `Create` and `SettleInvoice`, and the transaction of `Renew` of
-- internal/service/billing.go. What `Create` reads before its transaction are arguments: the total, the part
-- that the balance pays, the part that the channel pays and the quoted end of the paid time.
use levis.Base.{
  ℕ, ◌+◌, ◌==◌, Bool, true, false, not, Option, none, some, List, ◌∷◌, String, if◌then◌else◌, any,
}
use levis.Base.Int.{ℤ, pos, ◌-ℤ◌, ltb_ℤ, eqb_ℤ}
use levis.Base.Time.{Time}
use levis.Store.{
  Invoice, TxType, PaymentStatus, Purpose, ExternalPayment, Service, first, update, bad_request,
  not_found, conflict, duplicated_key, Action, pure, raise, raise_if, when, checked, select,
  execute_sql, transaction, ◌>>=◌, ◌>>◌,
}
use levis.Wallet.{adjust_balance}
use levis.Order.{is_unpaid}
use levis.Order.Settlement.{pay_in_tx, has_key}
use levis.Billing.{renew_in_tx}
use levis.Payment.Settlement.{settle_invoice_tx}
use levis.Payment.Target.{load_payment_target, payable_amount, reject_payment_intent}

-- The new intent.
pub record Intent : Type 0 where
  pub plugin_id : String
  pub external_id : String
  pub user_id : ℕ
  pub purpose : Purpose
  pub target_id : ℕ
  pub total : ℤ
  pub balance : ℤ
  pub external : ℤ
  pub quote : Time

abbrev pub is_recharge : Purpose → Bool
is_recharge Purpose.recharge = true
is_recharge _ = false

abbrev pub purpose_text : Purpose → String
purpose_text Purpose.recharge = "recharge"
purpose_text Purpose.order = "order"
purpose_text Purpose.renewal = "renewal"
purpose_text Purpose.invoice = "invoice"
purpose_text Purpose.unknown = ""

-- The unique index on the active target key, where null is no value.
abbrev pub key_taken : Option (Purpose × ℕ) → List ExternalPayment → Bool
key_taken none ps = false
key_taken (some key) ps = any (λ (p : ExternalPayment). has_key p.active_target_key key) ps

unfoldable pub create_intent : Intent → Option (Purpose × ℕ) → Action ExternalPayment
create_intent in_ key =
    checked (λ d. key_taken key d.payments) duplicated_key
      λ d.
        (let row : ExternalPayment = record {
          id = d.next_id;
          plugin_id = in_.plugin_id;
          external_id = in_.external_id;
          user_id = in_.user_id;
          purpose = in_.purpose;
          target_id = in_.target_id;
          amount_cents = in_.external;
          balance_cents = in_.balance;
          paid_amount_cents = pos 0;
          gateway_ref = "";
          status = PaymentStatus.pending;
          paid_at = none;
          active_target_key = key;
        } in
          (row, record d { payments = row ∷ d.payments; next_id = d.next_id + 1 }))

-- An intent that the balance pays in full is closed at once.
unfoldable pub close_covered : ℕ → Time → Action (Unit {0})
close_covered id now = execute_sql λ d. record d {
  payments =
      update (λ (p : ExternalPayment). p.id == id)
        (λ p. record p {
          status = PaymentStatus.paid;
          paid_at = some now;
          paid_amount_cents = pos 0;
          active_target_key = none;
        })
        d.payments;
}

unfoldable pub find_own_invoice : Option Invoice → Action Invoice
find_own_invoice none = raise (not_found "账单不存在")
find_own_invoice (some i) = pure i

module _ (add_date : ℕ → ℕ → Time → Time) (scan : String → Option ℤ) (sqlite : Bool) where
  -- `settleTargetTx`
  unfoldable pub settle_target_tx : ℕ → Purpose → ℕ → Time → Action (Unit {0})
  settle_target_tx user_id Purpose.order id now =
      pay_in_tx add_date user_id id false now >>= λ _. pure tt
  settle_target_tx user_id Purpose.invoice id now = settle_invoice_tx add_date scan user_id id now
  settle_target_tx user_id Purpose.renewal id now =
      renew_in_tx add_date user_id id false now >>= λ _. pure tt
  settle_target_tx user_id _ id now = raise (bad_request "不支持的支付用途")

  -- The target is loaded again, and its key is taken.
  unfoldable pub reserve_target : Intent → Action (Option (Purpose × ℕ))
  reserve_target in_ = do
    target ← load_payment_target scan sqlite in_.user_id in_.purpose in_.target_id
    current ← payable_amount scan target in_.purpose in_.quote
    raise_if (not (eqb_ℤ current in_.total)) (conflict "支付目标金额已变更，请刷新后重试")
    reject_payment_intent scan in_.user_id target 0
    pure target.key

  -- The rest of the reservation.
  unfoldable pub reserve_keyed : Intent → Time → Option (Purpose × ℕ) → Action ExternalPayment
  unfolding create_intent settle_target_tx close_covered
  reserve_keyed in_ now key = do
    when (ltb_ℤ (pos 0) in_.balance) (
        adjust_balance in_.user_id (pos 0 -ℤ in_.balance) TxType.payment (purpose_text in_.purpose)
          in_.target_id
        >>= λ _. pure tt)
    row ← create_intent in_ key
    when (eqb_ℤ in_.external (pos 0)) (
        settle_target_tx in_.user_id in_.purpose in_.target_id now >>= λ _.
        close_covered row.id now)
    pure row

  -- The transaction of `Create`.
  unfoldable pub reserve : Intent → Time → Action ExternalPayment
  unfolding reserve_target reserve_keyed
  reserve in_ now = transaction (
      (if is_recharge in_.purpose then pure none else reserve_target in_) >>= reserve_keyed in_ now)

  -- The transaction of `SettleInvoice`.
  unfoldable pub settle_invoice_by_balance : ℕ → ℕ → Time → Action Invoice
  unfolding find_own_invoice
  settle_invoice_by_balance user_id invoice_id now = transaction do
    when sqlite (execute_sql (λ d. d))
    target ← load_payment_target scan sqlite user_id Purpose.invoice invoice_id
    reject_payment_intent scan user_id target 0
    invoice ← find_own_invoice target.invoice
    raise_if (not (is_unpaid invoice.status)) (conflict "账单当前无需支付")
    when (ltb_ℤ (pos 0) invoice.total_cents) (
        adjust_balance user_id (pos 0 -ℤ invoice.total_cents) TxType.payment "invoice" invoice.id
        >>= λ _. pure tt)
    settle_invoice_tx add_date scan user_id invoice.id now
    select (λ d. first (λ (i : Invoice). i.id == invoice.id) d.invoices)
        (not_found "record not found")

  -- The transaction of `renew`.
  unfoldable pub renew : ℕ → ℕ → Bool → Time → Action Service
  renew user_id service_id debit now = transaction do
    target ← load_payment_target scan sqlite user_id Purpose.renewal service_id
    reject_payment_intent scan user_id target 0
    renew_in_tx add_date user_id service_id debit now
