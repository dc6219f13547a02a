-- ===== src/Affiliate/Reversal.antt =====
-- internal/service/affiliate.go, `reverseAffiliateTx`: what a refund takes back of a commission.
use levis.Base.{
  ℕ, min, ◌*◌, ◌/◌, ◌≤◌, ◌<◌, ◌≡◌, ◌⊎◌, inl, inr, arith, Bool, true, false, Option, none, some,
  List, if◌then◌else◌,
}
use levis.Base.Int.{ℤ, pos, two_63}
use native.Mathlib.Nat.{div-le_of_le-mul, mul-div_cancel}
use native.Mathlib.Decide.{dec_lt}
use mathlib.Core.Path.{subst}
use levis.Money.{mul_div_cents}
use levis.Store.{ok, RefundRequest, Affiliate, AffiliateCommission, AffiliateReversal, Db}
use levis.Store.Rules.{
  Always, always_rules, bind-Always, statement-Always, if-Always, pure-Always, lift-Always,
}
use levis.Affiliate.{book_reversal, reversal_target, reverse_found, reverse_affiliate}

module _ {κ} (I : Db → Type κ)
    (ignores : (d : Db) (cs : List AffiliateCommission) (rs : List AffiliateReversal)
        (holders : List Affiliate)
      → I d
      → I (record d { commissions = cs; reversals = rs; affiliates = holders })) where
  booked_once :
      (b : Bool) (d : Db) (rs : List AffiliateReversal)
      → I d
      → I (if b then (0, d) else let r : ℕ × Db = (1, record d { reversals = rs }) in r).1
  booked_once true d rs h = h
  booked_once false d rs h = ignores d d.commissions rs d.affiliates h

  book_reversal-Always :
      (refund : RefundRequest) (c : AffiliateCommission) (target delta : ℤ)
      → Always I (book_reversal refund c target delta)
  unfolding book_reversal
  book_reversal-Always refund c target delta =
      bind-Always I _ _ (statement-Always I _ (λ d h. booked_once _ d _ h)) λ rows.
        if-Always I _ _ _ (pure-Always I tt) (
          bind-Always I _ _ (statement-Always I _ (λ d h. ignores d _ d.reversals d.affiliates h))
            λ claimed.
              bind-Always I _ _ (search always_rules)
                λ _. statement-Always I _ (λ d h. ignores d d.commissions d.reversals _ h))

  reverse_found-Always :
      (refund : RefundRequest) (c : Option AffiliateCommission) → Always I (reverse_found refund c)
  unfolding reverse_found
  reverse_found-Always refund none = pure-Always I tt
  reverse_found-Always refund (some c) =
      bind-Always I _ _ (statement-Always I _ (λ d h. h)) λ refunded.
        bind-Always I _ _ (lift-Always I _)
          λ target. if-Always I _ _ _ (pure-Always I tt) (book_reversal-Always refund c target _)

  -- A reversal touches nothing but the commissions, the reversals and the affiliates.
  pub reverse_affiliate-Always : (refund : RefundRequest) → Always I (reverse_affiliate refund)
  unfolding reverse_affiliate
  reverse_affiliate-Always refund =
      if-Always I _ _ _ (pure-Always I tt)
        (bind-Always I _ _ (statement-Always I _ (λ d h. h)) (reverse_found-Always refund))

part_of : (a p r : ℕ) → 0 < p → r ≤ p → (a * r / p ≤ a) × ((r < p) ⊎ (a * r / p ≡ a))
part_of a p r h k = (
  div-le_of_le-mul p (grind arith),
  elim (dec_lt r p) [
    | yes less ↦ inl less
    | no all_ ↦ inr (subst (λ n. a * n / p ≡ a) (omega arith) (mul-div_cancel a h))
  ],
)

-- Of a commission of `a` cents, an int64, for an order that paid `p` cents, a positive amount, refunds of
-- `r` cents in total take back an amount that is always computed and at most `a`, and all of `a` when they
-- reach what was paid.
pub reversal_target_lem :
    (c : AffiliateCommission) (a p r : ℕ)
    → c.amount_cents ≡ pos a
    → c.paid_cents ≡ pos p
    → a < two_63
    → 0 < p
    → (out : ℕ) × (reversal_target c (pos r) ≡ ok (pos out)) × (out ≤ a) × ((r < p) ⊎ (out ≡ a))
unfolding reversal_target mul_div_cents
reversal_target_lem c a p r amount paid fits positive =
    let part = part_of a p (min r p) positive (omega arith) in
    (a * min r p / p, rw (amount, paid) (ground (arith, part)), part.0, ground (arith, part.1))
