-- ===== src/Payment/Books.antt =====
-- internal/service/payment.go: the balances and the ledger when intents end.
use levis.Base.{ℕ, List, [], ◌∷◌, String}
use levis.Base.Int.{ℤ}
use levis.Store.{ExternalPayment, Db, World}
use levis.Store.Rules.{
  Safe, Always, Safe-of_Always, always_rules, bind-Safe, when-Safe, transaction-Always, pure-Always,
  select-Always, raise_if-Always,
}
use levis.Wallet.Ledger.{IsReconciled}
use levis.Wallet.Adjust.{adjust_balance-Safe}
use levis.Payment.{
  fail_pending, return_deduction, cancel, compensate_create_failure, record_late, Call, cancelled,
  compensated, received, apply, run,
}

return_deduction-Safe :
    (user_id : ℕ) (p : ExternalPayment) → Safe IsReconciled (return_deduction user_id p)
unfolding return_deduction
return_deduction-Safe user_id p =
    let I : Db → Type 0 = IsReconciled in
    when-Safe I _ _
      (bind-Safe I _ _ (adjust_balance-Safe _ _ _ _ _) (λ _. Safe-of_Always I _ (pure-Always I tt)))

fail_pending-Safe : (id : ℕ) → Safe IsReconciled (fail_pending id)
unfolding fail_pending
fail_pending-Safe id = search (Safe-of_Always, always_rules)

cancel-Always : (user_id id : ℕ) → Always IsReconciled (cancel user_id id)
unfolding cancel
cancel-Always user_id id =
    let I : Db → Type 0 = IsReconciled in
    transaction-Always I _ (
      bind-Safe I _ _ (Safe-of_Always I _ (select-Always I _ _)) λ p.
        bind-Safe I _ _ (fail_pending-Safe p.id) λ rows.
          bind-Safe I _ _ (Safe-of_Always I _ (raise_if-Always I _ _)) λ _.
            bind-Safe I _ _ (return_deduction-Safe user_id p)
              λ _. Safe-of_Always I _ (pure-Always I _))

compensate-Always :
    (p : ExternalPayment) (user_id : ℕ) → Always IsReconciled (compensate_create_failure p user_id)
unfolding compensate_create_failure
compensate-Always p user_id =
    let I : Db → Type 0 = IsReconciled in
    transaction-Always I _ (
      bind-Safe I _ _ (fail_pending-Safe p.id) λ rows.
        bind-Safe I _ _ (Safe-of_Always I _ (raise_if-Always I _ _))
          λ _. return_deduction-Safe user_id p)

late-Always :
    (item : ExternalPayment) (amount : ℤ) (ref : String)
    → Always IsReconciled (record_late item amount ref)
unfolding record_late
late-Always item amount ref = search always_rules

pub apply-IsReconciled : (c : Call) (w : World) → IsReconciled w.db → IsReconciled (apply c w).db
unfolding apply
apply-IsReconciled (cancelled user_id id) w h = (cancel-Always user_id id).keeps w h
apply-IsReconciled (compensated p user_id) w h = (compensate-Always p user_id).keeps w h
apply-IsReconciled (received item amount ref) w h = (late-Always item amount ref).keeps w h

-- Whatever calls end intents and whatever the driver fails, every balance stays what its ledger adds up
-- to, and none becomes negative.
pub run-IsReconciled : (cs : List Call) (w : World) → IsReconciled w.db → IsReconciled (run cs w).db
unfolding run
run-IsReconciled [] w h = h
run-IsReconciled (c ∷ cs) w h = run-IsReconciled cs (apply c w) (apply-IsReconciled c w h)
