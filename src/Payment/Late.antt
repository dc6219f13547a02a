-- ===== src/Payment/Late.antt =====
-- internal/service/payment.go, `FinalizeCallback`: the receipt of an intent that ended before.
use levis.Base.{
  ℕ, ◌==◌, ◌≡◌, refl, ap, Bool, true, false, Option, none, some, List, [], ◌∷◌, String, arith, inl,
  inr, Bool-cases,
}
use levis.Base.Int.{ℤ}
use levis.Base.Time.{Time}
use levis.Store.{
  TxType, PaymentStatus, ExternalPayment, Db, World, Result, first, update, raise_if, ◌>>=◌,
}
use levis.Store.Rules.{
  Post, Safe, Always, always_rules, transaction-Always, statement-Always, when-Always,
  Safe-of_Always, bind-Safe, raise_if-Always,
}
use levis.Store.Steps.{stepped, after_select}
use levis.Wallet.{adjust_balance, update_balance, read_user, create_transaction}
use levis.Payment.{
  is_pending, is_failed, is_late, fail_pending, return_deduction, cancel, compensate_create_failure,
  record_late, Call, cancelled, compensated, received, apply,
}
use levis.Payment.Frames.{settle_target-Safe}
use levis.Payment.Settlement.{
  is_paid, claim_intent, close_intent, finalize_open, finalize_body, finalize_tx,
}
use levis.Payment.Callback.{
  write_gateway_ref, settle_callback, finalize_callback, LaterCall, ending, reporting, answering,
  perform, perform_all,
}

-- The same row, up to the reference of the gateway.
abbrev pub Like : ExternalPayment → ExternalPayment → Type 0
Like p q = q ≡ record p { gateway_ref = q.gateway_ref }

abbrev pub Row : ExternalPayment → Option ExternalPayment → Type 0
Row p none = ⊥
Row p (some q) = Like p q

abbrev pub Kept : ExternalPayment → List ExternalPayment → Type 0
Kept p ps = Row p (first (λ (q : ExternalPayment). q.id == p.id) ps)

abbrev Stays : ExternalPayment → Db → Type 0
Stays p d = Kept p d.payments

update-Kept :
    (p : ExternalPayment) (test : ExternalPayment → Bool)
    (change : ExternalPayment → ExternalPayment) (ps : List ExternalPayment)
    → ((q : ExternalPayment) → (change q).id ≡ q.id)
    → ((q : ExternalPayment) → Like p q → test q ≡ true → Like p (change q))
    → Kept p ps
    → Kept p (update test change ps)
update-Kept p test change [] same keeps h = h
update-Kept p test change (q ∷ ps) same keeps h = elim (Bool-cases (q.id == p.id)) [
  | inl mine ↦
      (let here : Like p q = rw mine at h in
        elim (Bool-cases (test q)) [
          | inl met ↦
              (let still : ((change q).id == p.id) ≡ true = rw (same q) mine in
                rw met (rw still (keeps q here met)))
          | inr spared ↦ rw spared (rw mine here)
        ])
  | inr other_ ↦
      (let later : Kept p ps = rw other_ at h in
        elim (Bool-cases (test q)) [
          | inl met ↦
              (let still : ((change q).id == p.id) ≡ false = rw (same q) other_ in
                rw met (rw still (update-Kept p test change ps same keeps later)))
          | inr spared ↦ rw spared (rw other_ (update-Kept p test change ps same keeps later))
        ])
]

late_only :
    (s : PaymentStatus)
    → is_late s ≡ true
    → (is_pending s ≡ false) × (is_failed s ≡ false) × (is_paid s ≡ false)
late_only PaymentStatus.pending h = cc
late_only PaymentStatus.failed h = cc
late_only PaymentStatus.late h = (refl, refl, refl)
late_only PaymentStatus.paid h = cc
late_only PaymentStatus.processing h = cc
late_only PaymentStatus.refunding h = cc
late_only PaymentStatus.refunded h = cc

module _ (p : ExternalPayment) (late : is_late p.status ≡ true) where
  open_no_more :
      (q : ExternalPayment)
      → Like p q
      → (is_pending q.status ≡ false) × (is_failed q.status ≡ false) × (is_paid q.status ≡ false)
  open_no_more q h =
      let same : q.status ≡ p.status = ap (λ (x : ExternalPayment). x.status) h in
      late_only q.status (rw same late)

  fail_pending-Always : (id : ℕ) → Always (Stays p) (fail_pending id)
  unfolding fail_pending
  fail_pending-Always id = statement-Always (Stays p) _ (λ d.
      update-Kept p _ _ d.payments (λ q. refl)
        (λ q h met. absurd (ground (arith, open_no_more q h))))

  return_deduction-Always :
      (user_id : ℕ) (q : ExternalPayment) → Always (Stays p) (return_deduction user_id q)
  unfolding return_deduction adjust_balance update_balance read_user create_transaction
  return_deduction-Always user_id q = search always_rules depth 12

  cancel-Always : (user_id id : ℕ) → Always (Stays p) (cancel user_id id)
  unfolding cancel
  cancel-Always user_id id = transaction-Always (Stays p) _ (
      Safe-of_Always (Stays p) _
        (search (always_rules, fail_pending-Always, return_deduction-Always) depth 9))

  compensate-Always :
      (q : ExternalPayment) (user_id : ℕ) → Always (Stays p) (compensate_create_failure q user_id)
  unfolding compensate_create_failure
  compensate-Always q user_id = transaction-Always (Stays p) _ (
      Safe-of_Always (Stays p) _
        (search (always_rules, fail_pending-Always, return_deduction-Always) depth 9))

  late-Always :
      (item : ExternalPayment) (amount : ℤ) (ref : String)
      → Always (Stays p) (record_late item amount ref)
  unfolding record_late
  late-Always item amount ref = when-Always (Stays p) _ _ (
      statement-Always (Stays p) _ (λ d.
        update-Kept p _ _ d.payments (λ q. refl)
          (λ q h met. absurd (ground (arith, open_no_more q h)))))

  write-Always : (id : ℕ) (ref : String) → Always (Stays p) (write_gateway_ref id ref)
  unfolding write_gateway_ref
  write-Always id ref = statement-Always (Stays p) _ (λ d.
      update-Kept p _ _ d.payments (λ q. refl)
        (λ q h met. ap (λ (x : ExternalPayment). record x { gateway_ref = ref }) h))

  apply-Stays : (c : Call) (w : World) → Stays p w.db → Stays p (apply c w).db
  unfolding apply
  apply-Stays (cancelled user_id id) w h = (cancel-Always user_id id).keeps w h
  apply-Stays (compensated q user_id) w h = (compensate-Always q user_id).keeps w h
  apply-Stays (received item amount ref) w h = (late-Always item amount ref).keeps w h

  adjust-Safe :
      (user_id : ℕ) (delta : ℤ) (tx_type : TxType) (ref_type : String) (ref_id : ℕ)
      → Safe (Stays p) (adjust_balance user_id delta tx_type ref_type ref_id)
  unfolding adjust_balance update_balance read_user create_transaction
  adjust-Safe user_id delta tx_type ref_type ref_id =
      Safe-of_Always (Stays p) _ (search always_rules depth 9)

  module _ (add_date : ℕ → ℕ → Time → Time) (scan : String → Option ℤ) where
    -- Another payment is finalized.
    other-Safe :
        (q : ExternalPayment) (paid_amount : ℤ) (now : Time)
        → (q.id == p.id) ≡ false
        → Safe (Stays p) (finalize_open add_date scan q paid_amount now)
    unfolding finalize_open claim_intent close_intent
    other-Safe q paid_amount now apart =
        let I : Db → Type 0 = Stays p in
        bind-Safe I _ _ (Safe-of_Always I _ (raise_if-Always I _ _)) λ _.
          bind-Safe I _ _ (Safe-of_Always I _ (raise_if-Always I _ _)) λ _.
            bind-Safe I _ _
              (Safe-of_Always I _ (
                statement-Always I _ (λ d.
                  update-Kept p _ _ d.payments (λ x. refl)
                    (λ x h met. absurd (ground (arith, open_no_more x h))))))
              λ rows. bind-Safe I _ _ (Safe-of_Always I _ (raise_if-Always I _ _)) λ _.
                bind-Safe I _ _
                  (settle_target-Safe (λ us ts ps. Kept p ps) add_date scan adjust-Safe q now
                    q.purpose)
                  λ _. Safe-of_Always I _ (
                    statement-Always I _ (λ d.
                      update-Kept p _ _ d.payments (λ x. refl)
                        (λ x h met.
                          let same : x.id ≡ p.id = ap (λ (y : ExternalPayment). y.id) h in
                          absurd (ground arith))))

    closed_fails :
        (q : ExternalPayment) (paid_amount : ℤ) (now : Time) (w : World)
        → is_pending q.status ≡ false
        → Post (Stays p) (finalize_open add_date scan q paid_amount now w)
    unfolding finalize_open raise_if ◌>>=◌
    closed_fails q paid_amount now w over = rw over tt

    kept_row :
        (q : ExternalPayment) (ps : List ExternalPayment)
        → first (λ (x : ExternalPayment). x.id == p.id) ps ≡ some q
        → Kept p ps
        → Like p q
    kept_row q ps found h = rw found at h

    id_of :
        (id : ℕ) (q : ExternalPayment) (ps : List ExternalPayment)
        → first (λ (x : ExternalPayment). x.id == id) ps ≡ some q
        → q.id ≡ id
    id_of id q [] found = cc
    id_of id q (x ∷ ps) found = ground (arith, id_of id q ps)

    body-Stays :
        (id : ℕ) (paid_amount : ℤ) (now : Time) (w : World)
        → Stays p w.db
        → Post (Stays p) (finalize_body add_date scan id paid_amount now w)
    unfolding finalize_body
    body-Stays id paid_amount now w h =
        let Q : Result (Unit {0}) × World → Type 0 = Post (Stays p) in
        after_select Q _ _ _ w tt (λ _. tt)
          λ q found. elim (Bool-cases (q.id == p.id)) [
            | inl mine ↦
                (let same : id ≡ p.id = ground (arith, id_of id q w.db.payments found) in
                  let (over, _, unpaid) =
                    open_no_more q (kept_row q w.db.payments (rw same at found) h) in
                  rw unpaid (closed_fails q paid_amount now (stepped w w.db) over))
            | inr other_ ↦ elim (Bool-cases (is_paid q.status)) [
              | inl paid ↦ rw paid (
                  (Safe-of_Always (Stays p) _ (raise_if-Always (Stays p) _ _)).keeps
                    (stepped w w.db) h)
              | inr unpaid ↦
                  rw unpaid ((other-Safe q paid_amount now other_).keeps (stepped w w.db) h)
            ]
          ]

    finalize_tx-Always :
        (id : ℕ) (paid_amount : ℤ) (now : Time)
        → Always (Stays p) (finalize_tx add_date scan id paid_amount now)
    unfolding finalize_tx
    finalize_tx-Always id paid_amount now =
        transaction-Always (Stays p) _ (record { keeps = body-Stays id paid_amount now })

    callback-Always :
        (plugin_id external_id : String) (paid_amount : ℤ) (ref : String) (now : Time)
        → Always
            (Stays p)
            (finalize_callback add_date scan plugin_id external_id paid_amount ref now)
    unfolding finalize_callback settle_callback
    callback-Always plugin_id external_id paid_amount ref now =
        search (always_rules, late-Always, write-Always, finalize_tx-Always) depth 9

    perform-Stays :
        (c : LaterCall) (w : World) → Stays p w.db → Stays p (perform add_date scan c w).db
    unfolding perform
    perform-Stays (ending c) w h = apply-Stays c w h
    perform-Stays (reporting plugin_id external_id amount ref now) w h =
        (callback-Always plugin_id external_id amount ref now).keeps w h
    perform-Stays (answering id ref) w h = (write-Always id ref).keeps w h

    -- The first late receipt wins: an intent that is marked as late stays so, and keeps its amount and every
    -- other column but the reference of the gateway, however it and others are cancelled, compensated and
    -- reported by the channels again, and whenever the channels answer to their creation. The answer to its own
    -- creation writes the reference, whatever the status.
    pub first-perform_all :
        (cs : List LaterCall) (w : World)
        → Kept p w.db.payments
        → Kept p (perform_all add_date scan cs w).db.payments
    unfolding perform_all
    first-perform_all [] w h = h
    first-perform_all (c ∷ cs) w h =
        first-perform_all cs (perform add_date scan c w) (perform-Stays c w h)
