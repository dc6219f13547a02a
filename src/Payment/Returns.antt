-- ===== src/Payment/Returns.antt =====
-- internal/service/payment.go: how often the deduction of an intent goes back.
use levis.Base.{
  none, ℕ, ◌+◌, ◌==◌, ◌≤◌, ◌≡◌, refl, Bool, true, false, not, ◌&&◌, List, [], ◌∷◌, String,
  if◌then◌else◌, arith, inl, inr, Bool-cases,
}
use levis.Base.Int.{ℤ, pos, ltb_ℤ}
use text.Mathlib.Text.{◌==◌ as str_eq}
use levis.Store.{
  Transaction, TxType, PaymentStatus, ExternalPayment, Db, update, count, Result, World, pure, when,
}
use levis.Store.Rules.{Post, Always, transaction-Always, when-Always, statement-Always}
use levis.Store.Steps.{
  stepped, after_statement, after_raise_if, after_select, after_action, last_statement,
}
use levis.Wallet.{adjust_balance, update_balance, read_user, create_transaction}
use levis.Payment.{
  is_pending, fail_pending, return_deduction, cancel, compensate_create_failure, record_late,
  receipt, is_failed, Call, cancelled, compensated, received, apply, run,
}

abbrev is_refund : TxType → Bool
is_refund TxType.refund = true
is_refund _ = false

-- How many entries of the ledger return the deduction of the intent `id`.
abbrev pub returned : ℕ → List Transaction → ℕ
returned id ts =
    count
      (λ (t : Transaction).
        is_refund t.type && str_eq t.ref_type "external_payment" && t.ref_id == id)
      ts

-- How many rows of the intent `id` are pending.
abbrev pub waiting : ℕ → List ExternalPayment → ℕ
waiting id ps = count (λ (p : ExternalPayment). p.id == id && is_pending p.status) ps

abbrev Within : ℕ → ℕ → Db → Type 0
Within id k d = returned id d.transactions + waiting id d.payments ≤ k

-- What a claim leaves to return.
abbrev Claimed : ℕ → ℕ → ℕ → Db → Type 0
Claimed id k claimed d =
    returned id d.transactions + waiting id d.payments + (if claimed == id then 1 else 0) ≤ k

abbrev failed_at : ℕ → List ExternalPayment → List ExternalPayment
failed_at claimed ps =
    update (λ (p : ExternalPayment). p.id == claimed && is_pending p.status)
      (λ p. record p { status = PaymentStatus.failed; active_target_key = none }) ps

waiting-failed_at :
    (id claimed : ℕ) (ps : List ExternalPayment)
    → waiting id (failed_at claimed ps) ≡ (if claimed == id then 0 else waiting id ps)
waiting-failed_at id claimed [] = ground arith
waiting-failed_at id claimed (p ∷ ps) = ground (arith, waiting-failed_at id claimed ps)

claim-Claimed :
    (id k claimed : ℕ) (d : Db)
    → waiting claimed d.payments ≡ 1
    → Within id k d
    → Claimed id k claimed (record d { payments = failed_at claimed d.payments })
claim-Claimed id k claimed d one h = ground (arith, waiting-failed_at id claimed d.payments)

adjust-Within :
    (id k user_id claimed : ℕ) (delta : ℤ) (tx_type : TxType) (ref_type : String) (w : World)
    → Claimed id k claimed w.db
    → Post (Within id k) (adjust_balance user_id delta tx_type ref_type claimed w)
unfolding adjust_balance update_balance read_user create_transaction
adjust-Within id k user_id claimed delta tx_type ref_type w h =
    let Q : Result Transaction × World → Type 0 = Post (Within id k) in
    after_raise_if Q _ _ _ w (λ _. tt)
      λ _. after_statement Q _ _ w tt (
        after_raise_if Q _ _ _ _ (λ _. tt)
          λ _.
            (after_select Q _ _ _ _ tt (λ _. tt)
              λ u found. last_statement Q _ _ tt (ground (arith, h))))

return_deduction-Within :
    (id k user_id : ℕ) (p : ExternalPayment) (w : World)
    → Claimed id k p.id w.db
    → Post (Within id k) (return_deduction user_id p w)
unfolding return_deduction when pure
return_deduction-Within id k user_id p w h = elim (Bool-cases (ltb_ℤ (pos 0) p.balance_cents)) [
  | inl some_ ↦ rw some_ (
      after_action (Post (Within id k)) _ _ w
        (λ t v done.
          rw done at
            (adjust-Within id k user_id p.id p.balance_cents TxType.refund "external_payment" w h))
        (λ e v failed. tt))
  | inr none_ ↦ rw none_ (omega (arith, h))
]

compensate-Always :
    (id k user_id : ℕ) (p : ExternalPayment)
    → Always (Within id k) (compensate_create_failure p user_id)
unfolding compensate_create_failure fail_pending
compensate-Always id k user_id p =
    let Q : Result (Unit {0}) × World → Type 0 = Post (Within id k) in
    transaction-Always (Within id k) _ (record {
      keeps = λ w h. after_statement Q _ _ w tt (
          after_raise_if Q (not (waiting p.id w.db.payments == 1)) _ _ _ (λ _. tt)
            λ one.
              return_deduction-Within id k user_id p _
                (claim-Claimed id k p.id w.db (ground arith) h));
    })

cancel-Always : (id k user_id wanted : ℕ) → Always (Within id k) (cancel user_id wanted)
unfolding cancel fail_pending pure
cancel-Always id k user_id wanted =
    let Q : Result ExternalPayment × World → Type 0 = Post (Within id k) in
    transaction-Always (Within id k) _ (record {
      keeps = λ w h.
          after_select Q _ _ _ w tt (λ _. tt)
            λ (p : ExternalPayment) found. after_statement Q _ _ _ tt (
              after_raise_if Q (not (waiting p.id w.db.payments == 1)) _ _ _ (λ _. tt)
                λ one.
                  let next : World =
                    stepped (stepped w w.db)
                      (record w.db { payments = failed_at p.id w.db.payments }) in
                  let left : Claimed id k p.id next.db =
                    claim-Claimed id k p.id w.db (ground (arith, one)) h in
                  after_action Q (return_deduction user_id p) _ next
                    (λ a v done. rw done at (return_deduction-Within id k user_id p next left))
                    (λ e v failed. tt));
    })

waiting-receipt :
    (id : ℕ) (item : ExternalPayment) (amount : ℤ) (ref : String) (ps : List ExternalPayment)
    → waiting id (
        update
          (λ (p : ExternalPayment). p.id == item.id && is_failed p.status)
          (receipt amount ref)
          ps)
      ≡ waiting id ps
waiting-receipt id item amount ref [] = refl
waiting-receipt id item amount ref (p ∷ ps) = ground (arith, waiting-receipt id item amount ref ps)

receipt-Within :
    (id k : ℕ) (item : ExternalPayment) (amount : ℤ) (ref : String) (d : Db)
    → Within id k d
    → Within id k (record d {
      payments =
          update
            (λ (p : ExternalPayment). p.id == item.id && is_failed p.status)
            (receipt amount ref)
            d.payments;
    })
receipt-Within id k item amount ref d h =
    omega (arith, h, waiting-receipt id item amount ref d.payments)

late-Always :
    (id k : ℕ) (item : ExternalPayment) (amount : ℤ) (ref : String)
    → Always (Within id k) (record_late item amount ref)
unfolding record_late
late-Always id k item amount ref =
    when-Always (Within id k) _ _
      (statement-Always (Within id k) _ (receipt-Within id k item amount ref))

apply-Within : (id k : ℕ) (c : Call) (w : World) → Within id k w.db → Within id k (apply c w).db
unfolding apply
apply-Within id k (cancelled user_id wanted) w h = (cancel-Always id k user_id wanted).keeps w h
apply-Within id k (compensated p user_id) w h = (compensate-Always id k user_id p).keeps w h
apply-Within id k (received item amount ref) w h = (late-Always id k item amount ref).keeps w h

run-Within : (id k : ℕ) (cs : List Call) (w : World) → Within id k w.db → Within id k (run cs w).db
unfolding run
run-Within id k [] w h = h
run-Within id k (c ∷ cs) w h = run-Within id k cs (apply c w) (apply-Within id k c w h)

-- However often an intent is cancelled, compensated and reported late, whatever the driver fails: the
-- entries that return its deduction grow by no more than the rows of it that were pending, that is by one
-- at most for an intent that was pending, and by none for one that was not.
pub returned-run :
    (id : ℕ) (cs : List Call) (w : World)
    → returned id (run cs w).db.transactions
      ≤ returned id w.db.transactions + waiting id w.db.payments
returned-run id cs w = omega (
  arith,
  run-Within id (returned id w.db.transactions + waiting id w.db.payments) cs w (omega arith),
)
