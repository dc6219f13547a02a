-- ===== src/Affiliate/Books.antt =====
-- internal/service/affiliate_withdrawal.go, `Review`: the balances and the ledger of the wallets.
use levis.Base.{ℕ, Bool}
use levis.Store.{Db, World}
use levis.Store.Rules.{
  Always, Safe-of_Always, bind-Always, bind-Safe, raise_if-Always, select-Always, statement-Always,
  pure-Always, if-Safe, transaction-Always,
}
use levis.Wallet.Ledger.{IsReconciled}
use levis.Wallet.Adjust.{adjust_balance-Safe}
use levis.Affiliate.Withdrawal.{
  ReviewAction, is_approve, claim_withdrawal, release_reserve, pay_out, review_body, review,
}

review-Always :
    (reviewer_id id : ℕ) (act : ReviewAction) (remark_valid : Bool)
    → Always IsReconciled (review reviewer_id id act remark_valid)
unfolding review review_body claim_withdrawal release_reserve pay_out
review-Always reviewer_id id act remark_valid =
    let I : Db → Type 0 = IsReconciled in
    bind-Always I _ _ (raise_if-Always I _ _) λ _. bind-Always I _ _ (raise_if-Always I _ _) λ _.
      transaction-Always I _ (
        bind-Safe I _ _ (Safe-of_Always I _ (select-Always I _ _)) λ _.
          bind-Safe I _ _ (Safe-of_Always I _ (select-Always I _ _)) λ out.
            bind-Safe I _ _ (Safe-of_Always I _ (statement-Always I _ (λ d h. h))) λ _.
              bind-Safe I _ _ (Safe-of_Always I _ (raise_if-Always I _ _)) λ _.
                bind-Safe I _ _ (Safe-of_Always I _ (statement-Always I _ (λ d h. h))) λ _.
                  bind-Safe I _ _ (Safe-of_Always I _ (raise_if-Always I _ _)) λ _.
                    bind-Safe I _ _
                      (if-Safe I (is_approve act) _ _
                        (bind-Safe I _ _ (adjust_balance-Safe _ _ _ _ _)
                          (λ _. Safe-of_Always I _ (pure-Always I _)))
                        (Safe-of_Always I _ (pure-Always I tt)))
                      λ _. Safe-of_Always I _ (pure-Always I _))

-- If every balance is the sum of its ledger and not negative, then so it is after the review of a
-- withdrawal, whatever it decides and whatever statements the driver fails.
pub withdrawal_review-IsReconciled :
    (reviewer_id id : ℕ) (act : ReviewAction) (remark_valid : Bool) (w : World)
    → IsReconciled w.db
    → IsReconciled (review reviewer_id id act remark_valid w).1.db
withdrawal_review-IsReconciled reviewer_id id act remark_valid w h =
    (review-Always reviewer_id id act remark_valid).keeps w h
