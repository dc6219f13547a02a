-- ===== src/Refund/Channel.antt =====
-- internal/service/refund.go: the statements of a refund on payments, orders and services, and the call
-- of the payment plugin.
use levis.Base.{ℕ, ◌+◌, ◌==◌, Bool, true, false, not, ◌&&◌, Option, none, some, ◌∷◌, if◌then◌else◌}
use levis.Base.Int.{pos, ltb_ℤ}
use levis.Base.Time.{Time}
use levis.Store.{
  RefundRequest, ExternalPayment, PaymentStatus, OrderStatus, ServiceStatus, Db, first, update,
  count, Error, ok, other, ChannelReply, accepted, refused, unimplemented, lost, Action, pure,
  catch, statement, select, execute_sql, ◌>>=◌,
}

abbrev pub is_paid : PaymentStatus → Bool
is_paid PaymentStatus.paid = true
is_paid _ = false

abbrev pub is_refunding : PaymentStatus → Bool
is_refunding PaymentStatus.refunding = true
is_refunding _ = false

-- `item.PaymentID != 0 && item.ChannelCents > 0`
abbrev pub pays_channel : RefundRequest → Bool
pays_channel item = not (item.payment_id == 0) && ltb_ℤ (pos 0) item.channel_cents

-- `UPDATE external_payments SET status = to WHERE id = ? AND status = from`
unfoldable pub move_payment : ℕ → (PaymentStatus → Bool) → PaymentStatus → Db → Db
move_payment id from to d = record d {
  payments = update (λ p. p.id == id && from p.status) (λ p. record p { status = to }) d.payments;
}

unfoldable pub claim_payment : ℕ → Action ℕ
claim_payment id = statement λ d. (
  count (λ p. p.id == id && is_paid p.status) d.payments,
  move_payment id is_paid PaymentStatus.refunding d,
)

unfoldable pub release_payment : ℕ → Action (Unit {0})
release_payment id = execute_sql (move_payment id is_refunding PaymentStatus.paid)

unfoldable pub close_payment : ℕ → Action (Unit {0})
close_payment id = execute_sql (move_payment id is_refunding PaymentStatus.refunded)

abbrev pub is_paid_order : OrderStatus → Bool
is_paid_order OrderStatus.paid = true
is_paid_order _ = false

unfoldable pub refund_order : ℕ → Action ℕ
refund_order id = statement λ d. (
  count (λ o. o.id == id && is_paid_order o.status) d.orders,
  record d {
    orders =
        update (λ o. o.id == id && is_paid_order o.status)
          (λ o. record o { status = OrderStatus.refunded }) d.orders;
  },
)

abbrev pub is_active : ServiceStatus → Bool
is_active ServiceStatus.active = true
is_active _ = false

unfoldable pub suspend_services : ℕ → Time → Action (Unit {0})
suspend_services order_id now = execute_sql λ d. record d {
  services =
      update (λ s. s.order_id == order_id && is_active s.status)
        (λ s. record s {
          status = ServiceStatus.suspended;
          suspend_reason = "refund";
          suspended_at = some now;
          auto_renew = false;
          resume_pending = false;
          refund_suspend_pending = true;
        })
        d.services;
}

-- The error of `refundChannel`: none, one that is certain to have paid nothing, or an uncertain one.
pub data ChannelOutcome : Type 0 where
  paid_back uncertain : ChannelOutcome
  not_paid : Error → ChannelOutcome

abbrev pub uncertain_error : Error
uncertain_error = other "渠道退款结果不确定，须先向渠道核对"

-- The reply of the plugin, as `refundChannel` reads it.
abbrev pub outcome_of : ChannelReply → ChannelOutcome
outcome_of accepted = paid_back
outcome_of refused = not_paid (other "渠道拒绝退款: %s")
outcome_of unimplemented = not_paid (other "支付插件不支持渠道退款: %w")
outcome_of lost = uncertain

-- What the channel may have paid: all but an answer that it did not.
abbrev pub may_pay : ChannelReply → Bool
may_pay accepted = true
may_pay lost = true
may_pay _ = false

-- `s.plugins.RefundPayment`, a step of its own
unfoldable pub call_plugin : ℕ → Action ChannelOutcome
call_plugin id w =
    let reply = w.replies w.step in
    (
      ok (outcome_of reply),
      record w {
        step = w.step + 1;
        db = if may_pay reply then record w.db { payouts = id ∷ w.db.payouts } else w.db;
      },
    )

-- The call on a payment that was read: only a holder of the claim may drive the channel.
unfoldable pub call_claimed : Option ExternalPayment → Action ChannelOutcome
unfolding call_plugin
call_claimed none = pure (not_paid (other "原支付记录不存在"))
call_claimed (some p) =
    let calling = call_plugin p.id in
    if is_refunding p.status then calling else pure (not_paid (other "原支付未认领退款，渠道无法退款"))

-- Reading the payment; every error of it counts as a missing payment.
unfoldable pub read_payment : ℕ → Action (Option ExternalPayment)
read_payment id =
    catch
      (select (λ d. first (λ p. p.id == id) d.payments) (other "record not found") >>= λ p.
        pure (some p))
      (λ _. pure none)

-- `refundChannel`
unfoldable pub refund_channel : Bool → RefundRequest → Action ChannelOutcome
unfolding call_claimed read_payment
refund_channel plugins item =
    let asking = do p ← read_payment item.payment_id; call_claimed p
    in if plugins then asking else pure (not_paid (other "支付插件不可用"))

-- `if item.ChannelCents > 0 { failed = s.refundChannel(ctx, item) }`
unfoldable pub ask_channel : Bool → RefundRequest → Action ChannelOutcome
unfolding refund_channel
ask_channel plugins item =
    let asking = refund_channel plugins item in
    if ltb_ℤ (pos 0) item.channel_cents then asking else pure paid_back
