-- ===== src/Payment/Settled.antt =====
-- internal/service/payment.go, the transaction of `finalize`: the ledger, and a payment that was finalized.
use levis.Base.{
  ℕ, ◌==◌, ◌≡◌, refl, Bool, true, ◌&&◌, Option, none, some, List, [], ◌∷◌, String, arith, inl, inr,
  Bool-cases,
}
use levis.Base.Int.{ℤ}
use levis.Base.Time.{Time}
use levis.Store.{
  TxType, ExternalPayment, PaymentStatus, Db, first, update, Result, ok, err, World, raise_if,
}
use levis.Store.Rules.{
  Post, Safe, Safe-of_Always, always_rules, bind-Safe, if-Safe, transaction-Always,
  statement-Always, raise_if-Always, select-Always,
}
use levis.Store.Steps.{
  stepped, after_select, last_transaction, last_statement, after_action, after_statement,
  after_raise_if,
}
use levis.Wallet.{adjust_balance, update_balance, read_user, create_transaction}
use levis.Wallet.Ledger.{IsReconciled, IsBalanced}
use levis.Wallet.Adjust.{adjust_balance-Safe}
use levis.Payment.{is_pending}
use levis.Payment.Frames.{settle_target-Safe}
use levis.Payment.Settlement.{
  is_paid, claim_intent, close_intent, settle_target, finalize_open, finalize_body, finalize_tx,
}

abbrev found : ℕ → List ExternalPayment → Option ExternalPayment
found id ps = first (λ (p : ExternalPayment). p.id == id) ps

abbrev Exists : Option ExternalPayment → Type 0
Exists none = ⊥
Exists (some p) = Unit

abbrev FoundPaid : Option ExternalPayment → Type 0
FoundPaid none = ⊥
FoundPaid (some p) = is_paid p.status ≡ true

update-Exists :
    (id : ℕ) (test : ExternalPayment → Bool) (change : ExternalPayment → ExternalPayment)
    (ps : List ExternalPayment)
    → ((p : ExternalPayment) → (change p).id ≡ p.id)
    → Exists (found id ps)
    → Exists (found id (update test change ps))
update-Exists id test change [] same h = h
update-Exists id test change (p ∷ ps) same h =
    ground (arith, same p, update-Exists id test change ps same)

update-FoundPaid :
    (id : ℕ) (change : ExternalPayment → ExternalPayment) (ps : List ExternalPayment)
    → ((p : ExternalPayment) → ((change p).id ≡ p.id) × ((change p).status ≡ PaymentStatus.paid))
    → Exists (found id ps)
    → FoundPaid (found id (update (λ (p : ExternalPayment). p.id == id) change ps))
update-FoundPaid id change [] same h = h
update-FoundPaid id change (p ∷ ps) same h =
    ground (arith, same p, update-FoundPaid id change ps same)

abbrev claimed : ℕ → List ExternalPayment → List ExternalPayment
claimed id ps =
    update (λ (p : ExternalPayment). p.id == id && is_pending p.status)
      (λ p. record p { status = PaymentStatus.processing }) ps

abbrev closed : ℕ → ℤ → Time → List ExternalPayment → List ExternalPayment
closed id paid_amount now ps =
    update (λ (p : ExternalPayment). p.id == id)
      (λ p. record p {
        status = PaymentStatus.paid;
        paid_amount_cents = paid_amount;
        paid_at = some now;
        active_target_key = none;
      })
      ps

adjust-Exists :
    (id user_id : ℕ) (delta : ℤ) (tx_type : TxType) (ref_type : String) (ref_id : ℕ)
    → Safe
        (λ d. Exists (found id d.payments))
        (adjust_balance user_id delta tx_type ref_type ref_id)
unfolding adjust_balance update_balance read_user create_transaction
adjust-Exists id user_id delta tx_type ref_type ref_id =
    Safe-of_Always _ _ (search always_rules depth 9)

Exists-of_found :
    (id : ℕ) (ps : List ExternalPayment) (p : ExternalPayment)
    → found id ps ≡ some p
    → Exists (found id ps)
Exists-of_found id ps p h = rw h tt

id_of_found :
    (id : ℕ) (ps : List ExternalPayment) (p : ExternalPayment) → found id ps ≡ some p → p.id ≡ id
id_of_found id [] p h = cc
id_of_found id (q ∷ ps) p h = ground (arith, id_of_found id ps p)

module _ (add_date : ℕ → ℕ → Time → Time) (scan : String → Option ℤ) where
  finalize_open-Safe :
      (p : ExternalPayment) (paid_amount : ℤ) (now : Time)
      → Safe IsReconciled (finalize_open add_date scan p paid_amount now)
  unfolding finalize_open claim_intent close_intent
  finalize_open-Safe p paid_amount now =
      let I : Db → Type 0 = IsReconciled in
      bind-Safe I _ _ (Safe-of_Always I _ (raise_if-Always I _ _)) λ _.
        bind-Safe I _ _ (Safe-of_Always I _ (raise_if-Always I _ _)) λ _.
          bind-Safe I _ _ (Safe-of_Always I _ (statement-Always I _ (λ d h. h))) λ rows.
            bind-Safe I _ _ (Safe-of_Always I _ (raise_if-Always I _ _)) λ _.
              bind-Safe I _ _
                (settle_target-Safe (λ us ts ps. IsBalanced ts us) add_date scan adjust_balance-Safe
                  p now p.purpose)
                λ _. Safe-of_Always I _ (statement-Always I _ (λ d h. h))

  -- Finalizing a payment, whatever it pays for (a recharge, an order, a renewal or an invoice) and whatever
  -- the driver fails, leaves every balance what its ledger adds up to.
  pub finalize_tx-IsReconciled :
      (id : ℕ) (paid_amount : ℤ) (now : Time) (w : World)
      → IsReconciled w.db
      → IsReconciled (finalize_tx add_date scan id paid_amount now w).1.db
  unfolding finalize_tx
  finalize_tx-IsReconciled id paid_amount now w h =
      let I : Db → Type 0 = IsReconciled in
      (transaction-Always I _ (
          bind-Safe I _ _ (Safe-of_Always I _ (select-Always I _ _)) λ p.
            if-Safe I _ _ _ (Safe-of_Always I _ (raise_if-Always I _ _))
              (finalize_open-Safe p paid_amount now))).keeps
        w h

  settled_closed :
      (id : ℕ) (p : ExternalPayment) (paid_amount : ℤ) (now : Time) (a : Unit {0}) (v next : World)
      → p.id ≡ id
      → settle_target add_date scan p now p.purpose next ≡ (ok a, v)
      → Exists (found id next.db.payments)
      → FoundPaid (found id (closed p.id paid_amount now v.db.payments))
  settled_closed id p paid_amount now a v next same done there =
      let left : Exists (found id v.db.payments) = rw done at (
        (settle_target-Safe (λ us ts ps. Exists (found id ps)) add_date scan (adjust-Exists id) p
            now p.purpose).keeps
          next there) in
      rw same (update-FoundPaid id _ v.db.payments (λ q. (refl, refl)) left)

  -- A payment that is finalized is found as paid.
  open-FoundPaid :
      (id : ℕ) (p : ExternalPayment) (paid_amount : ℤ) (now : Time) (w : World)
      → p.id ≡ id
      → Exists (found id w.db.payments)
      → Post
          (λ d. FoundPaid (found id d.payments))
          (finalize_open add_date scan p paid_amount now w)
  unfolding finalize_open claim_intent close_intent
  open-FoundPaid id p paid_amount now w same h =
      let Q : Result (Unit {0}) × World → Type 0 = Post (λ d. FoundPaid (found id d.payments)) in
      after_raise_if Q _ _ _ w (λ _. tt)
        λ _.
          after_raise_if Q _ _ _ w (λ _. tt)
            λ _. after_statement Q _ _ w tt (
              after_raise_if Q _ _ _ _ (λ _. tt)
                λ _.
                  let next : World =
                    stepped w (record w.db { payments = claimed p.id w.db.payments }) in
                  let there : Exists (found id next.db.payments) =
                    update-Exists id _ _ w.db.payments (λ q. refl) h in
                  after_action Q (settle_target add_date scan p now p.purpose) _ next
                    (λ a v done.
                      last_statement Q _ v tt
                        (settled_closed id p paid_amount now a v next same done there))
                    (λ e v failed. tt))

  body-FoundPaid :
      (id : ℕ) (paid_amount : ℤ) (now : Time) (w : World)
      → Post
          (λ d. FoundPaid (found id d.payments))
          (finalize_body add_date scan id paid_amount now w)
  unfolding finalize_body raise_if
  body-FoundPaid id paid_amount now w =
      let Q : Result (Unit {0}) × World → Type 0 = Post (λ d. FoundPaid (found id d.payments)) in
      after_select Q _ _ _ w tt (λ _. tt)
        λ p there. elim (Bool-cases (is_paid p.status)) [
          | inl paid ↦
              let here : FoundPaid (found id w.db.payments) = rw there paid in
              rw paid (
                (Safe-of_Always _ _
                    (raise_if-Always (λ d. FoundPaid (found id d.payments)) _ _)).keeps
                  (stepped w w.db) here)
          | inr open_ ↦ rw open_ (
              open-FoundPaid id p paid_amount now _ (id_of_found id w.db.payments p there)
                (Exists-of_found id w.db.payments p there))
        ]

  finalize_tx-FoundPaid :
      (id : ℕ) (paid_amount : ℤ) (now : Time) (w : World)
      → Post (λ d. FoundPaid (found id d.payments)) (finalize_tx add_date scan id paid_amount now w)
  unfolding finalize_tx
  finalize_tx-FoundPaid id paid_amount now w =
      let Q : Result (Unit {0}) × World → Type 0 = Post (λ d. FoundPaid (found id d.payments)) in
      last_transaction Q _ w (λ e v same. tt)
        λ a v done. rw done at (body-FoundPaid id paid_amount now w)

  body_again :
      (id : ℕ) (paid_amount : ℤ) (now : Time) (w : World)
      → FoundPaid (found id w.db.payments)
      → (finalize_body add_date scan id paid_amount now w).1.db ≡ w.db
  unfolding finalize_body
  body_again id paid_amount now w paid =
      let Q : Result (Unit {0}) × World → Type 0 = λ r. r.1.db ≡ w.db in
      after_select Q _ _ _ w refl (λ _. refl)
        λ p there.
          let settled : is_paid p.status ≡ true = rw there at paid in
          rw settled ((raise_if-Always (λ e. e ≡ w.db) _ _).keeps (stepped w w.db) refl)

  found_refused :
      (id : ℕ) (paid_amount : ℤ) (now : Time) (w : World)
      → FoundPaid (found id w.db.payments)
      → (finalize_tx add_date scan id paid_amount now w).1.db ≡ w.db
  unfolding finalize_tx
  found_refused id paid_amount now w paid =
      let Q : Result (Unit {0}) × World → Type 0 = λ r. r.1.db ≡ w.db in
      last_transaction Q _ w (λ e v same. same)
        (λ a v done. rw done at (body_again id paid_amount now w paid))

  of_ok : (J : Db → Type 0) (r : Result (Unit {0}) × World) → r.0 ≡ ok tt → Post J r → J r.1.db
  of_ok J (ok s, w) h p = p
  of_ok J (err e, w) h p = cc

  -- The transaction of `finalize` settles a payment at most once: after it succeeded, and after any work that
  -- leaves the payments alone, such as what the upstream has done since the commit, running it again for that
  -- payment, with whatever amount, leaves every table as it finds it. What `finalize` itself does after its
  -- commit (provisioning, and the upstream's part of a renewal or of a traffic pack, which may write services)
  -- is not part of the transaction.
  pub finalize_tx-finalize_tx :
      (id : ℕ) (paid_amount again : ℤ) (now later : Time) (w v : World)
      → (finalize_tx add_date scan id paid_amount now w).0 ≡ ok tt
      → v.db.payments ≡ (finalize_tx add_date scan id paid_amount now w).1.db.payments
      → (finalize_tx add_date scan id again later v).1.db ≡ v.db
  finalize_tx-finalize_tx id paid_amount again now later w v done same =
      found_refused id again later v (
        rw same (
          of_ok (λ d. FoundPaid (found id d.payments)) _ done
            (finalize_tx-FoundPaid id paid_amount now w)))
