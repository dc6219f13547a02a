-- ===== src/Payment/Requests.antt =====
-- internal/service/payment.go, order.go and billing.go: sequences of the requests that move a user's money.
use levis.Base.{ℕ, Bool, false, Option, none, List, [], ◌∷◌, String}
use levis.Base.Int.{ℤ}
use levis.Base.Time.{Time}
use levis.Store.{
  User, Transaction, when, ◌>>=◌, TxType, Purpose, ExternalPayment, Db, World, Action, pure,
}
use levis.Store.Rules.{
  Safe, Always, Safe-of_Always, always_rules, bind-Safe, when-Safe, if-Safe, transaction-Always,
  statement-Always, checked-Always, pure-Always, raise-Always, raise_if-Always, select-Always,
  when-Always,
}
use levis.Wallet.{adjust_balance}
use levis.Wallet.Ledger.{IsReconciled, IsBalanced}
use levis.Wallet.Adjust.{adjust_balance-Safe}
use levis.Order.Settlement.{pay, pay_in_tx}
use levis.Order.Books.{pay-IsReconciled}
use levis.Order.Frames.{pay_in_tx-Safe}
use levis.Billing.{renew_in_tx}
use levis.Billing.Books.{renew_in_tx-Safe}
use levis.Payment.{Call, apply}
use levis.Payment.Books.{apply-IsReconciled}
use levis.Payment.Frames.{settle_invoice_tx-Safe}
use levis.Payment.Settlement.{finalize_tx, settle_invoice_tx}
use levis.Payment.Settled.{finalize_tx-IsReconciled}
use levis.Payment.Loads.{load-Always, payable-Always, find_own-Always, reject_target-Always}
use levis.Payment.Reserve.{
  Intent, create_intent, close_covered, settle_target_tx, reserve_target, reserve_keyed, reserve,
  settle_invoice_by_balance, renew,
}

-- The ledger, as a property of the users, the ledger and the payments.
abbrev Ledger : List User → List Transaction → List ExternalPayment → Type 0
Ledger us ts ps = IsBalanced ts us

abbrev looked : {A : Type 0} {m : Action A} → Always IsReconciled m → Safe IsReconciled m
looked {m = m} h = Safe-of_Always IsReconciled m h

module _ (add_date : ℕ → ℕ → Time → Time) (scan : String → Option ℤ) (sqlite : Bool) where
  order-Safe :
      (user_id id : ℕ) (now : Time) → Safe IsReconciled (pay_in_tx add_date user_id id false now)
  order-Safe user_id id now =
      pay_in_tx-Safe Ledger add_date user_id id false now
        (λ delta ref_id. adjust_balance-Safe user_id delta TxType.payment "order" ref_id)

  renewal-Safe :
      (user_id id : ℕ) (debit : Bool) (now : Time)
      → Safe IsReconciled (renew_in_tx add_date user_id id debit now)
  renewal-Safe user_id id debit now =
      renew_in_tx-Safe Ledger add_date user_id id debit now
        (λ delta ref_id. adjust_balance-Safe user_id delta TxType.payment "service" ref_id)

  invoice-Safe :
      (user_id id : ℕ) (now : Time)
      → Safe IsReconciled (settle_invoice_tx add_date scan user_id id now)
  invoice-Safe = settle_invoice_tx-Safe Ledger add_date scan adjust_balance-Safe

  charge-Safe :
      (b : Bool) (user_id : ℕ) (delta : ℤ) (ref_type : String) (ref_id : ℕ)
      → Safe IsReconciled
          (when b (adjust_balance user_id delta TxType.payment ref_type ref_id >>= λ _. pure tt))
  charge-Safe b user_id delta ref_type ref_id = when-Safe IsReconciled _ _ (
      bind-Safe IsReconciled _ _ (adjust_balance-Safe _ _ _ _ _)
        (λ _. looked (pure-Always IsReconciled tt)))

  target-Safe :
      (user_id : ℕ) (p : Purpose) (id : ℕ) (now : Time)
      → Safe IsReconciled (settle_target_tx add_date scan sqlite user_id p id now)
  unfolding settle_target_tx
  target-Safe user_id Purpose.order id now =
      bind-Safe IsReconciled _ _ (order-Safe user_id id now)
        (λ _. looked (pure-Always IsReconciled tt))
  target-Safe user_id Purpose.invoice id now = invoice-Safe user_id id now
  target-Safe user_id Purpose.renewal id now =
      bind-Safe IsReconciled _ _ (renewal-Safe user_id id false now)
        (λ _. looked (pure-Always IsReconciled tt))
  target-Safe user_id Purpose.recharge id now = looked (raise-Always IsReconciled _)
  target-Safe user_id Purpose.unknown id now = looked (raise-Always IsReconciled _)

  reserve_target-Always :
      (in_ : Intent) → Always IsReconciled (reserve_target add_date scan sqlite in_)
  unfolding reserve_target
  reserve_target-Always in_ =
      search (always_rules, load-Always, payable-Always, reject_target-Always) depth 9

  reserve-Always :
      (in_ : Intent) (now : Time) → Always IsReconciled (reserve add_date scan sqlite in_ now)
  unfolding reserve reserve_keyed create_intent close_covered
  reserve-Always in_ now =
      let I : Db → Type 0 = IsReconciled in
      transaction-Always I _ (
        bind-Safe I _ _
          (if-Safe I _ _ _ (looked (pure-Always I none)) (looked (reserve_target-Always in_)))
          λ key. bind-Safe I _ _ (charge-Safe _ _ _ _ _) λ _.
            bind-Safe I _ _ (looked (checked-Always I _ _ _ (λ d h. h))) λ row.
              bind-Safe I _ _
                (when-Safe I _ _ (
                  bind-Safe I _ _ (target-Safe in_.user_id in_.purpose in_.target_id now)
                    (λ _. looked (statement-Always I _ (λ d h. h)))))
                λ _. looked (pure-Always I row))

  settle-Always :
      (user_id id : ℕ) (now : Time)
      → Always IsReconciled (settle_invoice_by_balance add_date scan sqlite user_id id now)
  unfolding settle_invoice_by_balance
  settle-Always user_id id now =
      let I : Db → Type 0 = IsReconciled in
      transaction-Always I _ (
        bind-Safe I _ _ (looked (when-Always I _ _ (statement-Always I _ (λ d h. h)))) λ _.
          bind-Safe I _ _ (looked (load-Always I scan sqlite user_id Purpose.invoice id)) λ t.
            bind-Safe I _ _ (looked (reject_target-Always I scan user_id t 0)) λ _.
              bind-Safe I _ _ (looked (find_own-Always I t.invoice)) λ i.
                bind-Safe I _ _ (looked (raise_if-Always I _ _)) λ _.
                  bind-Safe I _ _ (charge-Safe _ _ _ _ _) λ _.
                    bind-Safe I _ _ (invoice-Safe user_id i.id now)
                      λ _. looked (select-Always I _ _))

  renew-Always :
      (user_id id : ℕ) (debit : Bool) (now : Time)
      → Always IsReconciled (renew add_date scan sqlite user_id id debit now)
  unfolding renew
  renew-Always user_id id debit now =
      let I : Db → Type 0 = IsReconciled in
      transaction-Always I _ (
        bind-Safe I _ _ (looked (load-Always I scan sqlite user_id Purpose.renewal id)) λ t.
          bind-Safe I _ _ (looked (reject_target-Always I scan user_id t 0))
            λ _. renewal-Safe user_id id debit now)

-- The requests, each with its instant; `ended` is a call that ends an intent.
pub data Request : Type 0 where
  reserved : Intent → Time → Request
  settled : ℕ → ℕ → Time → Request
  renewed_by : ℕ → ℕ → Bool → Time → Request
  ordered : ℕ → ℕ → Bool → Time → Request
  finalized : ℕ → ℤ → Time → Request
  ended : Call → Request

module _ (add_date : ℕ → ℕ → Time → Time) (scan : String → Option ℤ) (sqlite : Bool) where
  unfoldable pub serve : Request → World → World
  serve (reserved in_ now) w = (reserve add_date scan sqlite in_ now w).1
  serve (settled user_id id now) w =
      (settle_invoice_by_balance add_date scan sqlite user_id id now w).1
  serve (renewed_by user_id id debit now) w = (renew add_date scan sqlite user_id id debit now w).1
  serve (ordered user_id id debit now) w = (pay add_date sqlite user_id id debit now w).1
  serve (finalized id paid_amount now) w = (finalize_tx add_date scan id paid_amount now w).1
  serve (ended call) w = apply call w

  unfoldable pub serve_all : List Request → World → World
  unfolding serve
  serve_all [] w = w
  serve_all (r ∷ rs) w = serve_all rs (serve r w)

  serve-IsReconciled : (r : Request) (w : World) → IsReconciled w.db → IsReconciled (serve r w).db
  unfolding serve
  serve-IsReconciled (reserved in_ now) w h =
      (reserve-Always add_date scan sqlite in_ now).keeps w h
  serve-IsReconciled (settled user_id id now) w h =
      (settle-Always add_date scan sqlite user_id id now).keeps w h
  serve-IsReconciled (renewed_by user_id id debit now) w h =
      (renew-Always add_date scan sqlite user_id id debit now).keeps w h
  serve-IsReconciled (ordered user_id id debit now) w h =
      pay-IsReconciled add_date sqlite user_id id debit now w h
  serve-IsReconciled (finalized id paid_amount now) w h =
      finalize_tx-IsReconciled add_date scan id paid_amount now w h
  serve-IsReconciled (ended call) w h = apply-IsReconciled call w h

  -- Whatever requests come in whatever order (reservations of intents, payments of orders and invoices,
  -- renewals, reports of the channels, cancels), and whatever statements the driver fails: every balance
  -- stays what its ledger adds up to, and none becomes negative.
  pub serve_all-IsReconciled :
      (rs : List Request) (w : World) → IsReconciled w.db → IsReconciled (serve_all rs w).db
  unfolding serve_all
  serve_all-IsReconciled [] w h = h
  serve_all-IsReconciled (r ∷ rs) w h =
      serve_all-IsReconciled rs (serve r w) (serve-IsReconciled r w h)
