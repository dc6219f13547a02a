-- ===== src/Order/Busy.antt =====
-- internal/service/order.go, `Pay`, and payment_target.go: an order with a payment under way.
use levis.Base.{
  ℕ, ◌==◌, ◌≡◌, refl, Bool, true, false, not, ◌&&◌, ◌||◌, List, [], ◌∷◌, map, keep, any, arith,
}
use levis.Base.Time.{Time}
use levis.Store.{
  PaymentStatus, ExternalPayment, Purpose, Invoice, Service, Db, Result, ok, err, World, Action,
  raise_if, ◌>>◌,
}
use levis.Store.Rules.{Post}
use levis.Store.Steps.{after_statement, after_action, last_transaction}
use levis.Order.{refers}
use levis.Order.Settlement.{lock_order_payment, reject_order_intent, blocks, pay_in_tx, pay}
use levis.Order.Books.{lock-Always, after_reading}

-- A run that fails and changes nothing.
abbrev pub IsRefused : Db → Result (List Service) × World → Type 0
IsRefused d (ok services, w) = ⊥
IsRefused d (err e, w) = w.db ≡ d

abbrev pub is_running : PaymentStatus → Bool
is_running PaymentStatus.pending = true
is_running PaymentStatus.processing = true
is_running _ = false

abbrev pub is_order_of : ℕ → ExternalPayment → Purpose → Bool
is_order_of order_id p Purpose.order = p.target_id == order_id
is_order_of order_id p _ = false

abbrev pub is_alias : ℕ → List Invoice → ExternalPayment → Purpose → Bool
is_alias order_id invoices p Purpose.invoice =
    any (λ (i : Invoice). i.id == p.target_id && refers i.order_id order_id) invoices
is_alias order_id invoices p _ = false

-- Whether a payment of the user is pending or being processed that is for the order, or for an invoice of it;
-- the numbers of payments begin at one.
abbrev pub is_busy : ℕ → ℕ → Db → Bool
is_busy user_id order_id d =
    any
      (λ (p : ExternalPayment).
        p.user_id == user_id
        && is_running p.status
        && not (p.id == 0)
        && (is_order_of order_id p p.purpose || is_alias order_id d.invoices p p.purpose))
      d.payments

-- The ids of the invoices of an order, as the code collects them.
abbrev invoice_ids : ℕ → List Invoice → List ℕ
invoice_ids order_id invoices =
    map (λ (i : Invoice). i.id) (keep (λ i. refers i.order_id order_id) invoices)

alias-invoice_ids :
    (order_id : ℕ) (invoices : List Invoice) (id : ℕ)
    → any (λ (i : Invoice). i.id == id && refers i.order_id order_id) invoices ≡ true
    → any (λ n. id == n) (invoice_ids order_id invoices) ≡ true
alias-invoice_ids order_id [] id h = cc
alias-invoice_ids order_id (i ∷ invoices) id h =
    ground (arith, alias-invoice_ids order_id invoices id)

order-blocks :
    (user_id order_id : ℕ) (invoices : List Invoice) (p : ExternalPayment)
    → (p.user_id == user_id
        && is_running p.status
        && not (p.id == 0)
        && (is_order_of order_id p p.purpose || is_alias order_id invoices p p.purpose))
      ≡ true
    → blocks user_id 0
        (Purpose.order, order_id)
        (Purpose.order, order_id)
        (invoice_ids order_id invoices)
        p
      ≡ true
unfolding blocks
order-blocks user_id order_id invoices p h =
    ground (arith, alias-invoice_ids order_id invoices p.target_id)

busy-blocks :
    (user_id order_id : ℕ) (invoices : List Invoice) (ps : List ExternalPayment)
    → any
        (λ (p : ExternalPayment).
          p.user_id == user_id
          && is_running p.status
          && not (p.id == 0)
          && (is_order_of order_id p p.purpose || is_alias order_id invoices p p.purpose))
        ps
      ≡ true
    → any
        (blocks user_id 0
          (Purpose.order, order_id)
          (Purpose.order, order_id)
          (invoice_ids order_id invoices))
        ps
      ≡ true
busy-blocks user_id order_id invoices [] h = cc
busy-blocks user_id order_id invoices (p ∷ ps) h =
    ground
      (arith, order-blocks user_id order_id invoices p, busy-blocks user_id order_id invoices ps)

pub reject_busy :
    (user_id order_id : ℕ) (d : Db) (w : World)
    → w.db ≡ d
    → is_busy user_id order_id d ≡ true
    → Post (λ _. ⊥) (reject_order_intent user_id order_id 0 w)
unfolding reject_order_intent raise_if
reject_busy user_id order_id d w same busy =
    let Q : Result (Unit {0}) × World → Type 0 = Post (λ _. ⊥) in
    let live = busy-blocks user_id order_id d.invoices d.payments busy in
    after_statement Q _ _ w tt (after_statement Q _ _ _ tt (rw (same, live) tt))

busy_body :
    (sqlite : Bool) (user_id order_id : ℕ) (rest : Action (List Service)) (w : World)
    → is_busy user_id order_id w.db ≡ true
    → Post
        (λ _. ⊥)
        ((lock_order_payment sqlite user_id order_id
            >> (reject_order_intent user_id order_id 0 >> rest))
          w)
busy_body sqlite user_id order_id rest w busy =
    let Q : Result (List Service) × World → Type 0 = Post (λ _. ⊥) in
    after_reading Q (lock_order_payment sqlite user_id order_id)
      (λ _. reject_order_intent user_id order_id 0 >> rest) w.db w
      (lock-Always (λ d. d ≡ w.db) sqlite user_id order_id) refl
      (λ o u locked kept.
        after_action Q (reject_order_intent user_id order_id 0) (λ _. rest) u
          (λ a x free. absurd (rw free at (reject_busy user_id order_id w.db u kept busy)))
          (λ e x failed. tt))
      (λ e u. tt)

-- While a payment of the user that is for the order, or for an invoice of it, is pending or being processed, `Pay`
-- fails and leaves every table as it was. The numbers of payments begin at one.
pub pay-IsRefused :
    (add_date : ℕ → ℕ → Time → Time) (sqlite : Bool) (user_id order_id : ℕ) (debit : Bool)
    (now : Time) (w : World)
    → is_busy user_id order_id w.db ≡ true
    → IsRefused w.db (pay add_date sqlite user_id order_id debit now w)
unfolding pay
pay-IsRefused add_date sqlite user_id order_id debit now w busy =
    last_transaction (IsRefused w.db) _ w (λ e v same. same)
      λ services v done. absurd (
        rw done at (
          busy_body sqlite user_id order_id (pay_in_tx add_date user_id order_id debit now) w busy))
