-- ===== src/Affiliate/Tests.antt =====
-- internal/service/affiliate_withdrawal.go: examples.
use levis.Base.{refl, true}
use levis.Base.Int.{pos, ◌+ℤ◌}
use levis.Store.{World, RefundStatus}
use levis.Store.Samples.{sample_db, calm}
use levis.Affiliate.Withdrawal.{withdraw, review, approve}
use levis.Store.{AffiliateCommission}
use levis.Affiliate.Ledger.{Totals, withdraw-Totals, review-Totals}

abbrev shop : World
shop = calm (sample_db RefundStatus.pending)

shop_total : Totals (pos 3500) shop.db
unfolding ◌+ℤ◌
shop_total = refl

withdraw-Totals_example : Totals (pos 3500) (withdraw 2 (pos 1000) true shop).1.db
withdraw-Totals_example = withdraw-Totals (pos 3500) 2 (pos 1000) true shop shop_total

review-Totals_example : Totals (pos 3500) (review 1 5 approve true shop).1.db
review-Totals_example = review-Totals (pos 3500) 1 5 approve true shop shop_total

abbrev commission : AffiliateCommission
commission = record {
  id = 1;
  affiliate_id = 4;
  user_id = 3;
  order_id = 6;
  paid_cents = pos 999;
  amount_cents = pos 49;
  reversed_cents = pos 0;
  rate_bps = pos 500;
}
