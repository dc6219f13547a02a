-- ===== src/Refund/Tests.antt =====
-- internal/service/refund.go: examples.
use levis.Base.{ℕ, ◌+◌, ◌*◌, ◌≤◌, ◌<◌, ◌≡◌, ◌↔◌, ◌⊎◌, inl, refl, true, false, arith}
use levis.Base.Int.{◌+ℤ◌}
use levis.Base.Time.{hour}
use levis.Store.{World, RefundStatus}
use levis.Store.Samples.{sample_db, calm, wanted_refund}
use levis.Wallet.Ledger.{IsReconciled}
use levis.Refund.{evaluate_policy, denied, auto_approved, refund_no_reason_hours, execute}
use levis.Refund.Policy.{policy, evaluate_policy_lem, evaluate_policy_overflow}
use levis.Refund.Payouts.{PaidOnce}
use levis.Refund.Books.{execute-IsReconciled}
use levis.Refund.Calls.{execute-PaidOnce}

abbrev shop : RefundStatus → World
shop status = calm (sample_db status)

shop-IsReconciled : (status : RefundStatus) → IsReconciled (shop status).db
shop-IsReconciled status = (refl, omega arith, (unfold ◌+ℤ◌ in refl, omega arith, tt))

shop-PaidOnce : (status : RefundStatus) → PaidOnce (shop status).db
shop-PaidOnce status = (refl, omega arith, inl refl, tt)

abbrev limit : ℕ
limit = 48

evaluate_policy_lem_example :
    ((evaluate_policy (policy false false limit) 0 (0 + 10 * hour) ≡ denied)
      ↔ ((0 < limit) × (limit * hour < 10 * hour)))
    × ((evaluate_policy (policy false false limit) 0 (0 + 10 * hour) ≡ auto_approved) ↔ (
        ((limit ≡ 0) ⊎ (10 * hour ≤ limit * hour))
        × (false ≡ false)
        × ((false ≡ true) ⊎ (10 * hour ≤ refund_no_reason_hours * hour))))
evaluate_policy_lem_example =
    evaluate_policy_lem false false limit 0 (10 * hour) (omega arith) (omega arith)

-- Three hundred years.
evaluate_policy_overflow_example : evaluate_policy (policy false true 2628000) 5 5 ≡ denied
evaluate_policy_overflow_example =
    evaluate_policy_overflow false true 2628000 5 5 (omega arith) (omega arith) (omega arith)

execute-IsReconciled_example :
    IsReconciled
      (execute true (wanted_refund RefundStatus.approved) 9 (shop RefundStatus.approved)).1.db
execute-IsReconciled_example =
    execute-IsReconciled true (wanted_refund RefundStatus.approved) 9 (shop RefundStatus.approved)
      (shop-IsReconciled RefundStatus.approved)

execute-PaidOnce_example :
    PaidOnce
      (execute true (wanted_refund RefundStatus.approved) 9 (shop RefundStatus.approved)).1.db
execute-PaidOnce_example =
    execute-PaidOnce true (wanted_refund RefundStatus.approved) 9 (shop RefundStatus.approved)
      (shop-PaidOnce RefundStatus.approved)
