-- ===== src/Affiliate/Accrual.antt =====
-- internal/service/affiliate.go, `accrueAffiliateTx`: the tables that the commission of an order touches.
use levis.Base.{if◌then◌else◌, ◌+◌, Bool, true, false, ℕ, Option, none, some, List}
use levis.Store.{Order, Affiliate, AffiliateCommission, AffiliateReferral, AffiliateSettings, Db}
use levis.Store.Rules.{Always, always_rules, bind-Always, statement-Always, if-Always, pure-Always}
use levis.Base.Int.{ℤ}
use levis.Affiliate.{affiliate_settings, give_commission, accrue_for, accrue_affiliate}

module _ {κ} (I : Db → Type κ)
    (ignores : (d : Db) (cs : List AffiliateCommission) (holders : List Affiliate) (n : ℕ)
      → I d
      → I (record d { commissions = cs; affiliates = holders; next_id = n })) where
  given_once :
      (b : Bool) (d : Db) (cs : List AffiliateCommission)
      → I d
      → I
          (if b
            then (0, d)
            else let r : ℕ × Db = (1, record d { commissions = cs; next_id = d.next_id + 1 }) in
              r).1
  given_once true d cs h = h
  given_once false d cs h = ignores d cs d.affiliates (d.next_id + 1) h

  give_commission-Always :
      (a : Affiliate) (order : Order) (rate amount : ℤ)
      → Always I (give_commission a order rate amount)
  unfolding give_commission
  give_commission-Always a order rate amount =
      bind-Always I _ _ (statement-Always I _ (λ d h. given_once _ d _ h)) λ rows.
        if-Always I _ _ _ (pure-Always I tt)
          (statement-Always I _ (λ d h. ignores d d.commissions _ d.next_id h))

  accrue_for-Always :
      (order : Order) (settings : AffiliateSettings) (ref : Option AffiliateReferral)
      → Always I (accrue_for order settings ref)
  unfolding accrue_for
  accrue_for-Always order settings none = pure-Always I tt
  accrue_for-Always order settings (some ref) =
      search (always_rules, give_commission-Always) depth 9

  -- A commission touches nothing but the commissions, the affiliates and the next number.
  pub accrue_affiliate-Always : (order : Order) → Always I (accrue_affiliate order)
  unfolding accrue_affiliate affiliate_settings
  accrue_affiliate-Always order = search (always_rules, accrue_for-Always) depth 12
