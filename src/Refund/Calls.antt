-- ===== src/Refund/Calls.antt =====
-- internal/service/refund.go: the payouts of the channels through the calls of the service.
use levis.Base.{ℕ, inl, inr, refl, Bool, String, Bool-cases}
use levis.Base.Int.{ℤ}
use levis.Base.Time.{Time}
use mathlib.Core.Path.{subst, sym}
use levis.Store.{
  RefundRequest, RefundStatus, PaymentStatus, Transaction, TxType, Db, World, Result, ok, err,
  Error, caused, catch, raise, when, ◌>>=◌,
}
use levis.Store.Rules.{
  Post, Safe, Always, always_rules, bind-Safe, Safe-of_Always, statement-Always, pure-Always,
  catch-Always, when-Safe, transaction-Always,
}
use levis.Store.Steps.{after_statement, after_raise_if, after_action, last_statement, last_catch}
use levis.Wallet.{adjust_balance}
use levis.Wallet.Adjust.{Adjusted, adjust_balance-Adjusted}
use levis.Affiliate.Reversal.{reverse_affiliate-Always}
use levis.Refund.{
  pays_channel, is_refunding, set_refund, release_payment, close_payment, refund_order,
  suspend_services, ask_channel, ChannelOutcome, paid_back, uncertain, not_paid, claim_payout,
  complete, report_failure, finish, execute, review, retry_failed,
}
use levis.Refund.Payouts.{PaidOnce, move_payment-PaidOnce}
use levis.Refund.Books.{report_failure-Always}
use levis.Refund.Once.{Unpaid, Asks, claim_payout-Claims, ask_channel-Asks}

adjust_balance-PaidOnce :
    (user_id : ℕ) (delta : ℤ) (tx_type : TxType) (ref_type : String) (ref_id : ℕ)
    → Safe PaidOnce (adjust_balance user_id delta tx_type ref_type ref_id)
adjust_balance-PaidOnce user_id delta tx_type ref_type ref_id = record {
  keeps = λ w h.
      kept w h (adjust_balance user_id delta tx_type ref_type ref_id w)
        (adjust_balance-Adjusted user_id delta tx_type ref_type ref_id w);
}
  where
    kept :
        (w : World)
        → PaidOnce w.db
        → (r : Result Transaction × World) → Adjusted w.db user_id delta r
        → Post PaidOnce r
    kept w h (err e, v) a = tt
    kept w h (ok t, v) (matched, owner, amount, tables, read) = subst PaidOnce (sym tables) h

set_refund-PaidOnce :
    (id : ℕ) (from : RefundStatus → Bool) (to : RefundRequest → RefundRequest)
    → Always PaidOnce (set_refund id from to)
unfolding set_refund
set_refund-PaidOnce id from to = statement-Always PaidOnce _ (λ d h. h)

close_payment-PaidOnce : (id : ℕ) → Always PaidOnce (close_payment id)
unfolding close_payment
close_payment-PaidOnce id =
    statement-Always PaidOnce _
      (λ d h. move_payment-PaidOnce id is_refunding PaymentStatus.refunded d (inl refl) h)

settling-PaidOnce :
    (id : ℕ) (now : Time)
    → Always PaidOnce (refund_order id) × Always PaidOnce (suspend_services id now)
unfolding refund_order suspend_services
settling-PaidOnce id now =
    (statement-Always PaidOnce _ (λ d h. h), statement-Always PaidOnce _ (λ d h. h))

complete-PaidOnce : (item : RefundRequest) (now : Time) → Safe PaidOnce (complete item now)
unfolding complete
complete-PaidOnce item now =
    let I : Db → Type 0 = PaidOnce in
    bind-Safe I _ _ (Safe-of_Always I _ (set_refund-PaidOnce _ _ _)) λ claimed.
      bind-Safe I _ _ (search (Safe-of_Always, always_rules)) λ _.
        bind-Safe I _ _
          (when-Safe I _ _ (
            bind-Safe I _ _ (adjust_balance-PaidOnce _ _ _ _ _)
              (λ _. Safe-of_Always I _ (pure-Always I tt))))
          λ _.
            bind-Safe I _ _ (Safe-of_Always I _ (settling-PaidOnce item.order_id now).0) λ orders.
              bind-Safe I _ _ (search (Safe-of_Always, always_rules)) λ _.
                bind-Safe I _ _
                  (when-Safe I _ _ (Safe-of_Always I _ (settling-PaidOnce item.order_id now).1))
                  λ _.
                    bind-Safe I _ _
                      (when-Safe I _ _
                        (Safe-of_Always I _ (close_payment-PaidOnce item.payment_id)))
                      λ _.
                        Safe-of_Always I _
                          (reverse_affiliate-Always I (λ d cs rs holders h. h) item)

failing-PaidOnce : (item : RefundRequest) (e : Error) → Always PaidOnce (report_failure item e)
failing-PaidOnce item e = report_failure-Always PaidOnce item e (λ d rows h. h)

-- What is done after a call of the channel keeps the invariant.
abbrev Left : {A : Type 0} → Result A × World → Type 0
Left r = PaidOnce r.1.db

released-PaidOnce :
    (item : RefundRequest) (e : Error) (w : World)
    → PaidOnce w.db
    → Unpaid item w.db
    → Left (
        when
          (pays_channel item)
          (catch (release_payment item.payment_id) (λ rel. raise (caused e rel)))
          w)
unfolding when release_payment raise
released-PaidOnce item e w h u = elim (Bool-cases (pays_channel item)) [
  | inl pays ↦
      let released : Left (release_payment item.payment_id w) = last_statement Left _ w h (
        move_payment-PaidOnce item.payment_id is_refunding PaymentStatus.paid w.db (inr (u pays))
          h) in
      rw pays (
        last_catch Left (release_payment item.payment_id) _ w (λ a v done. rw done at released)
          (λ x v failed. rw failed at released))
  | inr skips ↦ rw skips h
]

finish-PaidOnce :
    (item : RefundRequest) (now : Time) (outcome : ChannelOutcome) (w : World)
    → Asks item (ok outcome, w)
    → Left (finish item now outcome w)
unfolding finish
finish-PaidOnce item now paid_back w h =
    (catch-Always PaidOnce _ _ (transaction-Always PaidOnce _ (complete-PaidOnce item now))
        (failing-PaidOnce item)).keeps
      w h
finish-PaidOnce item now uncertain w h =
    Always.keeps {I = PaidOnce} {m = finish item now uncertain} (search always_rules depth 9) w h
finish-PaidOnce item now (not_paid e) w h =
    let m =
      when (pays_channel item)
        (catch (release_payment item.payment_id) (λ rel. raise (caused e rel))) in
    let released : Left (m w) = released-PaidOnce item e w h.0 h.1 in
    after_action Left m _ w (λ _ v done. (failing-PaidOnce item e).keeps v (rw done at released))
      (λ x v failed. rw failed at released)

paying-PaidOnce :
    (plugins : Bool) (item : RefundRequest) (now : Time) (w : World)
    → PaidOnce w.db
    → Left ((claim_payout item >>= λ _. (ask_channel plugins item >>= λ o. finish item now o)) w)
paying-PaidOnce plugins item now w h =
    after_action Left (claim_payout item) _ w
      (λ _ x claimed.
        let (i, u) = rw claimed at (claim_payout-Claims item w h) in
        after_action Left (ask_channel plugins item) _ x
          (λ outcome y asked.
            finish-PaidOnce item now outcome y (rw asked at (ask_channel-Asks plugins item x i u)))
          (λ e y asked. rw asked at (ask_channel-Asks plugins item x i u)))
      (λ e x failed. rw failed at (claim_payout-Claims item w h))

execute-Always :
    (plugins : Bool) (item : RefundRequest) (now : Time)
    → Always PaidOnce (execute plugins item now)
unfolding execute set_refund
execute-Always plugins item now = record {
  keeps = λ w h.
      after_statement Left _ _ w h
        (after_raise_if Left _ _ _ _ (λ _. h) λ _. paying-PaidOnce plugins item now _ h);
}

review-Always :
    (plugins : Bool) (id : ℕ) (approve has_remark : Bool) (now : Time)
    → Always PaidOnce (review plugins id approve has_remark now)
unfolding review set_refund
review-Always plugins id approve has_remark now = search (always_rules, execute-Always) depth 14

retry_failed-Always :
    (plugins : Bool) (id : ℕ) (now : Time) → Always PaidOnce (retry_failed plugins id now)
unfolding retry_failed
retry_failed-Always plugins id now = search (always_rules, execute-Always) depth 14

-- If no payment was paid back more than once, and only payments that are claimed for a refund were paid
-- back, then both hold after the execution of any refund request, whatever statements the driver fails,
-- whatever the channel answers and however the execution ends.
pub execute-PaidOnce :
    (plugins : Bool) (item : RefundRequest) (now : Time) (w : World)
    → PaidOnce w.db
    → PaidOnce (execute plugins item now w).1.db
execute-PaidOnce plugins item now w h = (execute-Always plugins item now).keeps w h

-- If no payment was paid back more than once, and only payments that are claimed for a refund were paid
-- back, then both hold after a review, which executes the refund when it approves.
pub review-PaidOnce :
    (plugins : Bool) (id : ℕ) (approve has_remark : Bool) (now : Time) (w : World)
    → PaidOnce w.db
    → PaidOnce (review plugins id approve has_remark now w).1.db
review-PaidOnce plugins id approve has_remark now w h =
    (review-Always plugins id approve has_remark now).keeps w h

-- If no payment was paid back more than once, and only payments that are claimed for a refund were paid
-- back, then both hold after a retry of a failed refund: it does not pay a second time.
pub retry_failed-PaidOnce :
    (plugins : Bool) (id : ℕ) (now : Time) (w : World)
    → PaidOnce w.db
    → PaidOnce (retry_failed plugins id now w).1.db
retry_failed-PaidOnce plugins id now w h = (retry_failed-Always plugins id now).keeps w h
