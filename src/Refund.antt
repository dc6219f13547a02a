-- ===== src/Refund.antt =====
-- internal/service/refund.go: the policy, the review and the execution of refunds.
pub mod Channel
pub mod Policy
pub mod Books
pub mod Payouts
pub mod Once
pub mod Calls
mod Tests
unfoldable pub use Channel.*
use levis.Base.{
  ℕ, suc, ◌+◌, ◌*◌, ◌==◌, Bool, true, false, not, ◌&&◌, ◌||◌, Option, none, some, List, [], ◌∷◌,
  String, if◌then◌else◌,
}
use levis.Base.Int.{ℤ, pos, ◌*ℤ◌, i64, ltb_ℤ, leb_ℤ}
use levis.Base.Time.{Time, time_sub, hour}
use levis.Store.{
  RefundRequest, RefundStatus, RefundPolicyConfig, Setting, missing, malformed, stored,
  ExternalPayment, PaymentStatus, Order, OrderStatus, Service, ServiceStatus, TxType, Db, first,
  update, count, Error, Result, ok, err, bad_request, not_found, conflict, caused, World, Action,
  pure, raise, raise_if, when, catch, statement, select, query, execute_sql, transaction, ◌>>=◌,
  ◌>>◌,
}
use levis.Wallet.{adjust_balance}
use levis.Affiliate.{reverse_affiliate}

-- The verdicts of the policy.
pub data PolicyResult : Type 0 where
  auto_approved manual_review denied : PolicyResult

abbrev pub refund_no_reason_hours : ℕ
refund_no_reason_hours = 12

-- `Policy`: a missing row and one that does not decode both ask for a manual review.
unfoldable pub decode_policy : Setting RefundPolicyConfig → RefundPolicyConfig
decode_policy (stored p) = p
decode_policy _ = record {
  force_manual = true;
  auto_approve_all = false;
  no_refund_after_hours = pos 0;
}

-- `evaluatePolicy`, at `now`; the hours are multiplied as int64
unfoldable pub evaluate_policy : RefundPolicyConfig → Time → Time → PolicyResult
evaluate_policy policy paid_at now =
    let since = time_sub now paid_at in
    if ltb_ℤ (pos 0) policy.no_refund_after_hours
      && ltb_ℤ (i64 (policy.no_refund_after_hours *ℤ pos hour)) since
    then denied
    else (if policy.force_manual
        then manual_review
        else (if policy.auto_approve_all
            then auto_approved
            else (if leb_ℤ since (pos (refund_no_reason_hours * hour))
                then auto_approved
                else manual_review)))

abbrev pub is_claimable : RefundStatus → Bool
is_claimable RefundStatus.pending = true
is_claimable RefundStatus.approved = true
is_claimable RefundStatus.failed = true
is_claimable _ = false

abbrev pub is_processing : RefundStatus → Bool
is_processing RefundStatus.processing = true
is_processing _ = false

-- `UPDATE refund_requests SET status = … WHERE id = ? AND status …`
unfoldable pub set_refund : ℕ → (RefundStatus → Bool) → (RefundRequest → RefundRequest) → Action ℕ
set_refund id from to = statement λ d. (
  count (λ r. r.id == id && from r.status) d.refunds,
  record d { refunds = update (λ r. r.id == id && from r.status) to d.refunds },
)

unfoldable pub fail_refund : ℕ → Action ℕ
unfolding set_refund
fail_refund id = set_refund id is_processing (λ r. record r { status = RefundStatus.failed })

-- The claim on the payment; a request that loses it is set to failed.
unfoldable pub claim_payout : RefundRequest → Action (Unit {0})
unfolding fail_refund
claim_payout item =
    let lost_race = conflict "该支付已在退款中或已退款，不能重复执行" in
    let losing = do catch (fail_refund item.id) (λ e. raise (caused lost_race e)); raise lost_race
    in let claiming = do
      claimed ← claim_payment item.payment_id
      if claimed == 1 then pure tt else losing
      in if pays_channel item then claiming else pure tt

-- The books of a refund that was paid back: in one transaction.
unfoldable pub complete : RefundRequest → Time → Action (Unit {0})
unfolding set_refund
complete item now = do
  claimed ←
      set_refund item.id is_processing
        (λ r. record r { status = RefundStatus.completed; refunded_at = some now })
  raise_if (not (claimed == 1)) (conflict "退款已完成或状态已变化")
  when (ltb_ℤ (pos 0) item.balance_cents) (
      adjust_balance item.user_id item.balance_cents TxType.refund "refund" item.id >>= λ _.
      pure tt)
  orders ← refund_order item.order_id
  raise_if (not (orders == 1) && not (item.order_id == 0)) (conflict "订单状态已变化，退款未入账")
  when (not (item.order_id == 0)) (suspend_services item.order_id now)
  when (pays_channel item) (close_payment item.payment_id)
  reverse_affiliate item

-- The failure is noted on the request, as far as that works, and reported.
unfoldable pub report_failure : RefundRequest → Error → Action (Unit {0})
unfolding fail_refund
report_failure item e = do
  catch (fail_refund item.id) (λ _. pure 0)
  raise (caused (conflict "退款执行失败: %v") e)

-- What follows the call of the channel.
unfoldable pub finish : RefundRequest → Time → ChannelOutcome → Action (Unit {0})
unfolding complete report_failure
finish item now uncertain = do
  catch (execute_sql (λ d. d)) (λ e. raise (caused uncertain_error e))
  raise (conflict "退款结果不确定，请先向支付渠道核对，不能自动重试")
finish item now (not_paid e) = do
  when (pays_channel item) (catch (release_payment item.payment_id) (λ rel. raise (caused e rel)))
  report_failure item e
finish item now paid_back = catch (transaction (complete item now)) (report_failure item)

-- `execute`; `plugins` is whether there is a plugin manager
unfoldable pub execute : Bool → RefundRequest → Time → Action (Unit {0})
unfolding set_refund claim_payout finish
execute plugins item now = do
  rows ← set_refund item.id is_claimable (λ r. record r { status = RefundStatus.processing })
  raise_if (rows == 0) (conflict "退款申请状态已变化，请刷新后查看")
  claim_payout item
  outcome ← ask_channel plugins item
  finish item now outcome

abbrev pub is_pending : RefundStatus → Bool
is_pending RefundStatus.pending = true
is_pending _ = false

abbrev pub is_failed : RefundStatus → Bool
is_failed RefundStatus.failed = true
is_failed _ = false

abbrev pub read_refund : ℕ → Error → Action RefundRequest
read_refund id e = select (λ d. first (λ r. r.id == id) d.refunds) e

-- `Cancel`
unfoldable pub cancel : ℕ → ℕ → Action RefundRequest
cancel user_id id = do
  rows ← statement λ d. (
    count (λ r. r.id == id && r.user_id == user_id && is_pending r.status) d.refunds,
    record d {
      refunds =
          update (λ r. r.id == id && r.user_id == user_id && is_pending r.status)
            (λ r. record r { status = RefundStatus.canceled }) d.refunds;
    },
  )
  raise_if (rows == 0) (not_found "退款申请不存在或不可撤回")
  read_refund id (not_found "record not found")

-- `Review`; `has_remark` is whether the trimmed remark is not empty. Any error of the first read is
-- reported as a missing request.
unfoldable pub review : Bool → ℕ → Bool → Bool → Time → Action RefundRequest
unfolding execute set_refund
review plugins id approve has_remark now = do
  item ← catch (read_refund id (not_found "退款申请不存在")) (λ _. raise (not_found "退款申请不存在"))
  raise_if (not (is_pending item.status)) (conflict "该申请已处理，请刷新后查看")
  raise_if (not approve && not has_remark) (bad_request "驳回时必须填写原因")
  rows ←
      set_refund id is_pending (λ r. record r {
        status = if approve then RefundStatus.approved else RefundStatus.rejected;
      })
  raise_if (rows == 0) (conflict "该申请已处理，请刷新后查看")
  reviewed ← read_refund id (not_found "record not found")
  let executing = do execute plugins reviewed now; read_refund id (not_found "record not found")
  if approve then executing else pure reviewed

-- `RetryFailed`
unfoldable pub retry_failed : Bool → ℕ → Time → Action RefundRequest
unfolding execute
retry_failed plugins id now = do
  item ← catch (read_refund id (not_found "退款申请不存在")) (λ _. raise (not_found "退款申请不存在"))
  raise_if (not (is_failed item.status)) (conflict "仅渠道退款失败的申请可以重试")
  execute plugins item now
  read_refund id (not_found "record not found")
