-- ===== src/Refund/Books.antt =====
-- internal/service/refund.go: the balances and the ledger through the steps of a refund.
use levis.Base.{List, ℕ, Bool, Option, none, some, inl, inr, Bool-cases}
use levis.Base.Time.{Time}
use levis.Store.{RefundRequest, Db, Error, World, ExternalPayment}
use levis.Store.Rules.{
  Safe, Always, Safe-of_Always, always_rules, bind-Always, bind-Safe, when-Safe, if-Always,
  catch-Always, transaction-Always, statement-Always, pure-Always, raise-Always,
}
use levis.Wallet.Ledger.{IsReconciled}
use levis.Wallet.Adjust.{adjust_balance-Safe}
use levis.Affiliate.{reverse_affiliate}
use levis.Affiliate.Reversal.{reverse_affiliate-Always}
use levis.Refund.{
  set_refund, claim_payment, release_payment, close_payment, may_pay, refund_order,
  suspend_services, move_payment, call_plugin, call_claimed, read_payment, refund_channel,
  ask_channel, ChannelOutcome, paid_back, uncertain, not_paid, claim_payout, complete,
  report_failure, finish, execute, review,
}

claim_payout-Always : (item : RefundRequest) → Always IsReconciled (claim_payout item)
unfolding claim_payout claim_payment set_refund move_payment
claim_payout-Always item = search always_rules depth 9

call_plugin-Always : (id : ℕ) → Always IsReconciled (call_plugin id)
unfolding call_plugin
call_plugin-Always id = record {
  keeps = λ w h. elim (Bool-cases (may_pay (w.replies w.step))) [
    | inl pays ↦ rw pays h
    | inr keeps ↦ rw keeps h
  ];
}

call_claimed-Always : (p : Option ExternalPayment) → Always IsReconciled (call_claimed p)
unfolding call_claimed
call_claimed-Always none = pure-Always IsReconciled _
call_claimed-Always (some p) = search (if-Always, call_plugin-Always, pure-Always)

ask_channel-Always :
    (plugins : Bool) (item : RefundRequest) → Always IsReconciled (ask_channel plugins item)
unfolding ask_channel refund_channel read_payment
ask_channel-Always plugins item = search (always_rules, call_claimed-Always) depth 9

reversal-Always : (item : RefundRequest) → Always IsReconciled (reverse_affiliate item)
reversal-Always = reverse_affiliate-Always IsReconciled (λ d cs rs holders h. h)

complete-Safe : (item : RefundRequest) (now : Time) → Safe IsReconciled (complete item now)
unfolding complete set_refund refund_order suspend_services close_payment move_payment
complete-Safe item now =
    let I : Db → Type 0 = IsReconciled in
    bind-Safe I _ _ (search (Safe-of_Always, always_rules)) λ claimed.
      bind-Safe I _ _ (search (Safe-of_Always, always_rules)) λ _.
        bind-Safe I _ _
          (when-Safe I _ _ (
            bind-Safe I _ _ (adjust_balance-Safe _ _ _ _ _)
              (λ _. Safe-of_Always I _ (pure-Always I tt))))
          λ _. Safe-of_Always I _ (search (always_rules, reversal-Always) depth 12)

pub report_failure-Always {κ} :
    (I : Db → Type κ) (item : RefundRequest) (e : Error)
    → ((d : Db) (rows : List RefundRequest) → I d → I (record d { refunds = rows }))
    → Always I (report_failure item e)
unfolding report_failure set_refund
report_failure-Always I item e ignores =
    bind-Always I _ _
      (catch-Always I _ _ (statement-Always I _ (λ d h. ignores d _ h)) (λ _. pure-Always I 0))
      λ _. raise-Always I _

finish-Always :
    (item : RefundRequest) (now : Time) (outcome : ChannelOutcome)
    → Always IsReconciled (finish item now outcome)
unfolding finish release_payment move_payment
finish-Always item now paid_back =
    catch-Always IsReconciled _ _ (transaction-Always IsReconciled _ (complete-Safe item now))
      (λ e. report_failure-Always IsReconciled item e (λ d rows h. h))
finish-Always item now uncertain = search always_rules depth 9
finish-Always item now (not_paid e) =
    bind-Always IsReconciled _ _ (search always_rules depth 9)
      λ _. report_failure-Always IsReconciled item e (λ d rows h. h)

execute-Always :
    (plugins : Bool) (item : RefundRequest) (now : Time)
    → Always IsReconciled (execute plugins item now)
unfolding execute set_refund
execute-Always plugins item now =
    search (always_rules, claim_payout-Always, ask_channel-Always, finish-Always) depth 9

review-Always :
    (plugins : Bool) (id : ℕ) (approve has_remark : Bool) (now : Time)
    → Always IsReconciled (review plugins id approve has_remark now)
unfolding review set_refund
review-Always plugins id approve has_remark now = search (always_rules, execute-Always) depth 14

-- If every balance is the sum of its ledger and not negative, then so it is after the execution of any
-- refund request, whatever statements the driver fails and whatever the channel answers.
pub execute-IsReconciled :
    (plugins : Bool) (item : RefundRequest) (now : Time) (w : World)
    → IsReconciled w.db
    → IsReconciled (execute plugins item now w).1.db
execute-IsReconciled plugins item now w h = (execute-Always plugins item now).keeps w h

-- If every balance is the sum of its ledger and not negative, then so it is after the review of any
-- refund request, rejected or approved and executed, whatever the driver fails and the channel answers.
pub review-IsReconciled :
    (plugins : Bool) (id : ℕ) (approve has_remark : Bool) (now : Time) (w : World)
    → IsReconciled w.db
    → IsReconciled (review plugins id approve has_remark now w).1.db
review-IsReconciled plugins id approve has_remark now w h =
    (review-Always plugins id approve has_remark now).keeps w h
