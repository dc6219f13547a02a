-- ===== src/Payment.antt =====
-- internal/service/payment.go: what ends a payment intent without its settlement: the user's cancel, the
-- compensation of a failed creation, and a receipt of the channel that comes after them. The text of
-- `failure_reason` is only shown and left out.
pub mod Target
pub mod Reserve
pub mod Loads
pub mod Requests
pub mod Busy
pub mod Settlement
pub mod Frames
pub mod Settled
pub mod Returns
pub mod Books
pub mod Callback
pub mod Late
mod Tests
use levis.Base.{
  ℕ, ◌+◌, ◌==◌, Bool, true, false, not, ◌&&◌, ◌||◌, none, List, [], ◌∷◌, String, if◌then◌else◌,
}
use levis.Base.Int.{ℤ, pos, ltb_ℤ}
use levis.Store.{
  TxType, PaymentStatus, ExternalPayment, Db, first, update, count, Error, Result, World, not_found,
  conflict, Action, pure, raise_if, when, statement, select, execute_sql, transaction, ◌>>=◌, ◌>>◌,
}
use levis.Wallet.{adjust_balance}
use text.Mathlib.Text.{◌==◌ as str_eq}

abbrev pub is_pending : PaymentStatus → Bool
is_pending PaymentStatus.pending = true
is_pending _ = false

abbrev pub is_failed : PaymentStatus → Bool
is_failed PaymentStatus.failed = true
is_failed _ = false

abbrev pub is_late : PaymentStatus → Bool
is_late PaymentStatus.late = true
is_late _ = false

-- The claim of a pending intent, with the number of rows.
unfoldable pub fail_pending : ℕ → Action ℕ
fail_pending id = statement λ d. (
  count (λ (p : ExternalPayment). p.id == id && is_pending p.status) d.payments,
  record d {
    payments =
        update (λ p. p.id == id && is_pending p.status)
          (λ p. record p { status = PaymentStatus.failed; active_target_key = none }) d.payments;
  },
)

-- The deduction goes back to the wallet.
unfoldable pub return_deduction : ℕ → ExternalPayment → Action (Unit {0})
return_deduction user_id p =
    when (ltb_ℤ (pos 0) p.balance_cents) (
      adjust_balance user_id p.balance_cents TxType.refund "external_payment" p.id >>= λ _. pure tt)

-- `Cancel`
unfoldable pub cancel : ℕ → ℕ → Action ExternalPayment
unfolding fail_pending return_deduction
cancel user_id id = transaction do
  current ←
      select (λ d. first (λ (p : ExternalPayment). p.id == id && p.user_id == user_id) d.payments)
        (not_found "支付记录不存在")
  rows ← fail_pending current.id
  raise_if (not (rows == 1)) (conflict "只有待支付的订单可以取消")
  return_deduction user_id current
  pure (record current { status = PaymentStatus.failed; active_target_key = none })

-- `compensateCreateFailure`
unfoldable pub compensate_create_failure : ExternalPayment → ℕ → Action (Unit {0})
unfolding fail_pending return_deduction
compensate_create_failure intent user_id = transaction do
  rows ← fail_pending intent.id
  raise_if (not (rows == 1)) (conflict "支付意图状态已变化，跳过建单失败补偿")
  return_deduction user_id intent

abbrev pub receipt : ℤ → String → ExternalPayment → ExternalPayment
receipt paid_amount gateway_ref p = record p {
  status = PaymentStatus.late;
  paid_amount_cents = paid_amount;
  gateway_ref = if str_eq gateway_ref "" then p.gateway_ref else gateway_ref;
}

-- What `FinalizeCallback` does for an intent that it reads as no longer pending.
unfoldable pub record_late : ExternalPayment → ℤ → String → Action (Unit {0})
record_late item paid_amount gateway_ref =
    when (ltb_ℤ (pos 0) paid_amount && (is_failed item.status || is_late item.status)) (
      execute_sql λ d. record d {
        payments =
            update (λ (p : ExternalPayment). p.id == item.id && is_failed p.status)
              (receipt paid_amount gateway_ref) d.payments;
      })

-- The calls that end an intent.
pub data Call : Type 0 where
  cancelled : ℕ → ℕ → Call
  compensated : ExternalPayment → ℕ → Call
  received : ExternalPayment → ℤ → String → Call

unfoldable pub apply : Call → World → World
unfolding cancel compensate_create_failure record_late
apply (cancelled user_id id) w = (cancel user_id id w).1
apply (compensated intent user_id) w = (compensate_create_failure intent user_id w).1
apply (received item paid_amount gateway_ref) w = (record_late item paid_amount gateway_ref w).1

unfoldable pub run : List Call → World → World
unfolding apply
run [] w = w
run (c ∷ cs) w = run cs (apply c w)
