-- ===== src/Refund/Payouts.antt =====
-- internal/service/refund.go: which payments the channels may have paid back.
use levis.Base.{
  ℕ, ◌+◌, ◌==◌, ◌≡◌, ◌<◌, ◌⊎◌, inl, inr, refl, Bool, true, false, ◌&&◌, none, some, List, [], ◌∷◌,
  arith, if◌then◌else◌, Bool-cases, ==_iff,
}
use mathlib.Core.Path.{subst}
use levis.Store.{ExternalPayment, PaymentStatus, Db, first, update, count}
use levis.Refund.Channel.{is_paid, is_refunding, move_payment}

abbrev pub times : ℕ → List ℕ → ℕ
times id [] = 0
times id (j ∷ js) = (if j == id then 1 else 0) + times id js

abbrev pub is_claimed : PaymentStatus → Bool
is_claimed PaymentStatus.refunding = true
is_claimed PaymentStatus.refunded = true
is_claimed _ = false

-- No two payments share an id, no id is 0, and each payment was paid back once at most, which only
-- happens to one that is claimed.
abbrev pub IsPaidOnce : List ℕ → List ExternalPayment → Type 0
IsPaidOnce outs [] = Unit
IsPaidOnce outs (p ∷ ps) =
    (first (λ q. q.id == p.id) ps ≡ none)
    × (0 < p.id)
    × ((times p.id outs ≡ 0) ⊎ ((times p.id outs ≡ 1) × (is_claimed p.status ≡ true)))
    × IsPaidOnce outs ps

abbrev pub PaidOnce : Db → Type 0
PaidOnce d = IsPaidOnce d.payouts d.payments

first-move :
    (j id : ℕ) (from : PaymentStatus → Bool) (to : PaymentStatus) (ps : List ExternalPayment)
    → first (λ q. q.id == j) ps ≡ none
    → first
        (λ q. q.id == j)
        (update (λ p. p.id == id && from p.status) (λ p. record p { status = to }) ps)
      ≡ none
first-move j id from to [] h = refl
first-move j id from to (p ∷ ps) h = ground (arith, first-move j id from to ps)

move-IsPaidOnce :
    (id : ℕ) (from : PaymentStatus → Bool) (to : PaymentStatus) (outs : List ℕ)
    (ps : List ExternalPayment)
    → (is_claimed to ≡ true) ⊎ (times id outs ≡ 0)
    → IsPaidOnce outs ps
    → IsPaidOnce outs (update (λ p. p.id == id && from p.status) (λ p. record p { status = to }) ps)
move-IsPaidOnce id from to outs [] c h = tt
move-IsPaidOnce id from to outs (p ∷ ps) c h =
    ground (arith, first-move p.id id from to ps h.0, move-IsPaidOnce id from to outs ps c h.3)

-- A move of a payment keeps this if it goes to a claimed status, or if nothing was paid for it.
pub move_payment-PaidOnce :
    (id : ℕ) (from : PaymentStatus → Bool) (to : PaymentStatus) (d : Db)
    → (is_claimed to ≡ true) ⊎ (times id d.payouts ≡ 0)
    → PaidOnce d
    → PaidOnce (move_payment id from to d)
unfolding move_payment
move_payment-PaidOnce id from to d c h = move-IsPaidOnce id from to d.payouts d.payments c h

-- A payment that is still `paid` was not paid back.
pub unclaimed_unpaid :
    (id : ℕ) (outs : List ℕ) (ps : List ExternalPayment)
    → IsPaidOnce outs ps
    → 0 < count (λ p. p.id == id && is_paid p.status) ps
    → times id outs ≡ 0
unclaimed_unpaid id outs [] h c = absurd (omega (arith, c))
unclaimed_unpaid id outs (p ∷ ps) h c = ground (arith, unclaimed_unpaid id outs ps h.3)

pay-other :
    (id : ℕ) (outs : List ℕ) (ps : List ExternalPayment)
    → first (λ q. q.id == id) ps ≡ none
    → IsPaidOnce outs ps
    → IsPaidOnce (id ∷ outs) ps
pay-other id outs [] n h = tt
pay-other id outs (p ∷ ps) n h = ground (arith, pay-other id outs ps)

pay-head :
    (outs : List ℕ) (q : ExternalPayment) (ps : List ExternalPayment)
    → is_claimed q.status ≡ true
    → times q.id outs ≡ 0
    → IsPaidOnce outs (q ∷ ps)
    → IsPaidOnce (q.id ∷ outs) (q ∷ ps)
pay-head outs q ps c z h = (h.0, h.1, inr (ground arith, c), pay-other q.id outs ps h.0 h.3)

head_claimed :
    (id : ℕ) (q p : ExternalPayment) (ps : List ExternalPayment)
    → first (λ r. r.id == id) (q ∷ ps) ≡ some p
    → (q.id == id) ≡ true
    → is_refunding p.status ≡ true
    → is_claimed q.status ≡ true
head_claimed id q p ps f same r = ground arith

-- One payout, of the payment that is read by the id, while it is claimed and not paid.
pub pay-IsPaidOnce :
    (id : ℕ) (outs : List ℕ) (ps : List ExternalPayment) (p : ExternalPayment)
    → first (λ q. q.id == id) ps ≡ some p
    → is_refunding p.status ≡ true
    → times id outs ≡ 0
    → IsPaidOnce outs ps
    → IsPaidOnce (id ∷ outs) ps
pay-IsPaidOnce id outs [] p f r z h = cc
pay-IsPaidOnce id outs (q ∷ ps) p f r z h = elim (Bool-cases (q.id == id)) [
  | inl same ↦
      let e : q.id ≡ id = (==_iff q.id id).0 same in
      subst (λ j. IsPaidOnce (j ∷ outs) (q ∷ ps)) e
        (pay-head outs q ps (head_claimed id q p ps f same r) (rw e z) h)
  | inr other ↦ ground (arith, pay-IsPaidOnce id outs ps p)
]

pub first-id :
    (id : ℕ) (ps : List ExternalPayment) (p : ExternalPayment)
    → first (λ q. q.id == id) ps ≡ some p
    → p.id ≡ id
first-id id [] p f = cc
first-id id (q ∷ ps) p f = ground (arith, first-id id ps p)

pub first-zero :
    (outs : List ℕ) (ps : List ExternalPayment)
    → IsPaidOnce outs ps
    → first (λ q. q.id == 0) ps ≡ none
first-zero outs [] h = refl
first-zero outs (q ∷ ps) h = ground (arith, first-zero outs ps h.3)
