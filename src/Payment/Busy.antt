-- ===== src/Payment/Busy.antt =====
-- internal/service/payment.go, `Create`, and payment_target.go: an order and its invoices share one intent.
use levis.Base.{
  ℕ, ◌==◌, ◌≡◌, refl, Bool, true, false, not, ◌&&◌, Option, none, some, List, [], ◌∷◌, String,
  if◌then◌else◌, arith, inl, inr, ◌⊎◌,
}
use levis.Base.Int.{ℤ, eqb_ℤ}
use levis.Base.Time.{Time}
use levis.Store.{
  Purpose, Invoice, Order, ExternalPayment, Db, first, Result, ok, err, World, pure, ◌>>=◌, when,
  execute_sql,
}
use levis.Store.Rules.{Post, when-Always, statement-Always}
use levis.Store.Steps.{
  stepped, after_statement, after_raise_if, after_select, after_action, last_transaction,
}
use levis.Order.Books.{after_reading}
use levis.Order.Busy.{is_busy, reject_busy}
use levis.Billing.{find_invoice, order_of, service_of}
use levis.Billing.Traffic.{items_of}
use levis.Payment.Loads.{load-Always, payable-Always}
use levis.Payment.Target.{
  PaymentTarget, load_root, root_of, load_invoice_target, load_locked, load_payment_target,
  payable_amount, reject_keyed, reject_payment_intent,
}
use levis.Payment.Reserve.{Intent, is_recharge, reserve_target, reserve_keyed, reserve}

-- A run that fails and changes nothing.
abbrev pub IsTurnedDown : Db → Result ExternalPayment × World → Type 0
IsTurnedDown d (ok p, w) = ⊥
IsTurnedDown d (err e, w) = w.db ≡ d

-- The target holds the order, and it has a key.
abbrev Holds : ℕ → PaymentTarget → Type 0
Holds order_id t =
    (o : Order) × (t.order ≡ some o) × (o.id ≡ order_id) × ((k : Purpose × ℕ) × (t.key ≡ some k))

-- What loading the target of an order's intent gives.
abbrev LoadsOrder : ℕ → Result PaymentTarget × World → Type 0
LoadsOrder order_id (ok t, w) = Holds order_id t
LoadsOrder order_id (err e, w) = Unit

id_of_order :
    (user_id order_id : ℕ) (os : List Order) (o : Order)
    → first (λ (o : Order). o.id == order_id && o.user_id == user_id) os ≡ some o
    → o.id ≡ order_id
id_of_order user_id order_id [] o h = cc
id_of_order user_id order_id (p ∷ os) o h = ground (arith, id_of_order user_id order_id os o)

root-LoadsOrder :
    (user_id order_id : ℕ) (w : World)
    → LoadsOrder order_id (load_root user_id order_id Purpose.order w)
unfolding load_root pure
root-LoadsOrder user_id order_id w =
    after_select (LoadsOrder order_id) _ _ _ w tt (λ _. tt)
      (λ o found. (
        o,
        refl,
        id_of_order user_id order_id w.db.orders o found,
        ((Purpose.order, order_id), refl),
      ))

-- Loading the order of an intent for an order.
order-LoadsOrder :
    (scan : String → Option ℤ) (sqlite : Bool) (user_id order_id : ℕ) (w : World)
    → LoadsOrder order_id (load_payment_target scan sqlite user_id Purpose.order order_id w)
unfolding load_payment_target load_locked
order-LoadsOrder scan sqlite user_id order_id w =
    after_action (LoadsOrder order_id) _ _ w (λ a v done. root-LoadsOrder user_id order_id v)
      (λ e v failed. tt)

-- A key is there, whichever of two it is.
some_key :
    (b : Bool) (j : Purpose × ℕ) (o : Option (Purpose × ℕ)) (k : Purpose × ℕ)
    → o ≡ some k
    → (l : Purpose × ℕ) × ((if b then some j else o) ≡ some l)
some_key true j o k h = (j, refl)
some_key false j o k h = (k, h)

root-LoadsOrder_of :
    (user_id order_id : ℕ) (r : Purpose × ℕ) (w : World)
    → r ≡ (Purpose.order, order_id)
    → LoadsOrder order_id (load_root user_id r.1 r.0 w)
root-LoadsOrder_of user_id order_id r w h = rw h (root-LoadsOrder user_id order_id w)

root_of_alias :
    (id order_id : ℕ) (o s : Option ℕ)
    → o ≡ some order_id
    → root_of id o s ≡ (Purpose.order, order_id)
root_of_alias id order_id none s h = cc
root_of_alias id order_id (some x) none h = ground arith
root_of_alias id order_id (some x) (some y) h = ground arith

invoice_target-LoadsOrder :
    (scan : String → Option ℤ) (user_id id order_id : ℕ) (i : Invoice) (w : World)
    → first (λ (i : Invoice). i.id == id && i.user_id == user_id) w.db.invoices ≡ some i
    → order_of i ≡ some order_id
    → LoadsOrder order_id (load_invoice_target scan user_id id w)
unfolding load_invoice_target find_invoice items_of pure
invoice_target-LoadsOrder scan user_id id order_id i w found alias =
    let Q : Result PaymentTarget × World → Type 0 = LoadsOrder order_id in
    after_select Q _ _ _ w tt (λ _. tt)
      λ a here.
        let same : a ≡ i = ground (arith, found, here) in
        let root : root_of id (order_of a) (service_of a) ≡ (Purpose.order, order_id) =
          root_of_alias id order_id (order_of a) (service_of a) (rw same alias) in
        after_statement Q _ _ _ tt (
          after_action Q
            (load_root user_id (root_of id (order_of a) (service_of a)).1
              (root_of id (order_of a) (service_of a)).0)
            _ _
            (λ t v loaded.
              let (o, held, number, (k, keyed)) : Holds order_id t = rw loaded at (
                root-LoadsOrder_of user_id order_id (root_of id (order_of a) (service_of a))
                  (stepped (stepped w w.db) w.db) root) in
              after_select Q _ _ _ v tt (λ _. tt)
                λ current there. after_statement Q _ _ _ tt (
                  after_raise_if Q _ _ _ _ (λ _. tt)
                    (λ _. (o, held, number, some_key _ _ t.key k keyed))))
            (λ e v failed. tt))

-- The target of an invoice of the order.
invoice-LoadsOrder :
    (scan : String → Option ℤ) (sqlite : Bool) (user_id id order_id : ℕ) (i : Invoice) (w : World)
    → first (λ (i : Invoice). i.id == id && i.user_id == user_id) w.db.invoices ≡ some i
    → order_of i ≡ some order_id
    → LoadsOrder order_id (load_payment_target scan sqlite user_id Purpose.invoice id w)
unfolding load_payment_target load_locked
invoice-LoadsOrder scan sqlite user_id id order_id i w found alias =
    after_reading (LoadsOrder order_id) (when sqlite (execute_sql (λ d. d)))
      (λ _. load_invoice_target scan user_id id) w.db w
      (when-Always _ sqlite _ (statement-Always _ _ (λ d h. h))) refl
      (λ a v done kept.
        invoice_target-LoadsOrder scan user_id id order_id i v (rw kept found) alias)
      (λ e v. tt)

reject_held :
    (scan : String → Option ℤ) (user_id order_id : ℕ) (t : PaymentTarget) (d : Db) (w : World)
    → Holds order_id t
    → w.db ≡ d
    → is_busy user_id order_id d ≡ true
    → Post (λ _. ⊥) (reject_payment_intent scan user_id t 0 w)
unfolding reject_payment_intent reject_keyed
reject_held scan user_id order_id t d w (o, held, id, (k, keyed)) same busy =
    rw (keyed, held, id) (reject_busy user_id order_id d w same busy)

reserve_target_busy :
    (add_date : ℕ → ℕ → Time → Time) (scan : String → Option ℤ) (sqlite : Bool) (in_ : Intent)
    (order_id : ℕ) (w : World)
    → LoadsOrder order_id (load_payment_target scan sqlite in_.user_id in_.purpose in_.target_id w)
    → is_busy in_.user_id order_id w.db ≡ true
    → Post (λ _. ⊥) (reserve_target add_date scan sqlite in_ w)
unfolding reserve_target
reserve_target_busy add_date scan sqlite in_ order_id w loads busy =
    let Q : Result (Option (Purpose × ℕ)) × World → Type 0 = Post (λ _. ⊥) in
    let Same : Db → Type 0 = λ d. d ≡ w.db in
    after_reading Q (load_payment_target scan sqlite in_.user_id in_.purpose in_.target_id) _ w.db w
      (load-Always Same scan sqlite in_.user_id in_.purpose in_.target_id) refl
      (λ t v loaded kept.
        let held : Holds order_id t = rw loaded at loads in
        after_reading Q (payable_amount scan t in_.purpose in_.quote) _ w.db v
          (payable-Always Same scan t in_.purpose in_.quote) kept
          (λ current u priced left.
            after_raise_if Q (not (eqb_ℤ current in_.total)) _ _ u (λ _. tt)
              λ _.
                after_action Q (reject_payment_intent scan in_.user_id t 0) _ u
                  (λ a x free.
                    absurd
                      (rw free at (reject_held scan in_.user_id order_id t w.db u held left busy)))
                  (λ e x failed. tt))
          (λ e u. tt))
      (λ e v. tt)

-- Whether an intent is for the order, or for an invoice of it.
abbrev pub IsFor : ℕ → Intent → Db → Type 0
IsFor order_id in_ d =
    ((in_.purpose ≡ Purpose.order) × (in_.target_id ≡ order_id))
    ⊎ ((in_.purpose ≡ Purpose.invoice)
        × ((i : Invoice) × (first
                (λ (i : Invoice). i.id == in_.target_id && i.user_id == in_.user_id) d.invoices
              ≡ some i)
            × (order_of i ≡ some order_id)))

intent-LoadsOrder :
    (scan : String → Option ℤ) (sqlite : Bool) (in_ : Intent) (order_id : ℕ) (w : World)
    → IsFor order_id in_ w.db
    → LoadsOrder order_id (load_payment_target scan sqlite in_.user_id in_.purpose in_.target_id w)
intent-LoadsOrder scan sqlite in_ order_id w (inl (purpose, target)) =
    rw (purpose, target) (order-LoadsOrder scan sqlite in_.user_id order_id w)
intent-LoadsOrder scan sqlite in_ order_id w (inr (purpose, (i, found, alias))) =
    rw purpose (invoice-LoadsOrder scan sqlite in_.user_id in_.target_id order_id i w found alias)

no_recharge :
    (order_id : ℕ) (in_ : Intent) (d : Db) → IsFor order_id in_ d → is_recharge in_.purpose ≡ false
no_recharge order_id in_ d (inl (purpose, target)) = rw purpose refl
no_recharge order_id in_ d (inr (purpose, more)) = rw purpose refl

-- An order and all its invoices share one intent: while a payment of the user that is for the order, or for an
-- invoice of it, is pending or being processed, no other intent of the user for the order or for an invoice of
-- it is reserved, and the attempt leaves every table as it was. The numbers of payments begin at one.
pub reserve-IsTurnedDown :
    (add_date : ℕ → ℕ → Time → Time) (scan : String → Option ℤ) (sqlite : Bool) (in_ : Intent)
    (order_id : ℕ) (now : Time) (w : World)
    → IsFor order_id in_ w.db
    → is_busy in_.user_id order_id w.db ≡ true
    → IsTurnedDown w.db (reserve add_date scan sqlite in_ now w)
unfolding reserve
reserve-IsTurnedDown add_date scan sqlite in_ order_id now w meant busy =
    let Q : Result ExternalPayment × World → Type 0 = Post (λ _. ⊥) in
    let ran : Q (
        (reserve_target add_date scan sqlite in_ >>= reserve_keyed add_date scan sqlite in_ now)
          w) =
      after_action Q (reserve_target add_date scan sqlite in_)
        (reserve_keyed add_date scan sqlite in_ now) w
        (λ key v done. absurd (
          rw done at (
            reserve_target_busy add_date scan sqlite in_ order_id w
              (intent-LoadsOrder scan sqlite in_ order_id w meant) busy)))
        (λ e v failed. tt) in
    rw (no_recharge order_id in_ w.db meant) (
      last_transaction (IsTurnedDown w.db) _ w (λ e v same. same)
        (λ p v done. absurd (rw done at ran)))
