-- ===== src/Wallet/Tests.antt =====
-- internal/service/wallet.go and money.go: examples.
use levis.Base.{◌≡◌, refl}
use levis.Base.Int.{pos, ◌+ℤ◌, negsuc}
use levis.Store.{
  World, PluginPayment, RefundStatus, TxType, transaction, pure, raise, raise_if, catch, statement,
  checked, select, ◌>>=◌,
}
use levis.Store.Samples.{sample_db, calm}
use levis.Wallet.{
  adjust_balance, credit_external, replayed, credit_body, find_plugin_payment,
  create_plugin_payment, set_transaction_id, same_payment, update_balance, read_user,
  create_transaction, covers, credit,
}
use levis.Wallet.Moved.{Moved, adjust_balance-Moved}
use levis.Wallet.Credit.{credit_external-once}

abbrev shop : World
shop = calm (sample_db RefundStatus.pending)

-- The buyer pays 200 of 500.
adjust_balance-Moved_example :
    Moved shop.db 2 (negsuc 199) (adjust_balance 2 (negsuc 199) TxType.payment "order" 9 shop)
adjust_balance-Moved_example = adjust_balance-Moved 2 (negsuc 199) TxType.payment "order" 9 shop

abbrev credited : PluginPayment
credited = record {
  id = 100;
  plugin_id = "pay";
  external_id = "y";
  user_id = 2;
  amount_cents = pos 100;
  transaction_id = 101;
}

-- The report is repeated with another amount, for another user.
credit_external-once_example :
    (credit_external "pay" "y" 1 (pos 999) (credit_external "pay" "y" 2 (pos 100) shop).1).1.db
    ≡ (credit_external "pay" "y" 2 (pos 100) shop).1.db
unfolding credit_external replayed credit_body find_plugin_payment create_plugin_payment
    set_transaction_id same_payment adjust_balance update_balance read_user create_transaction
    covers credit transaction pure raise raise_if catch statement checked select ◌>>=◌ ◌+ℤ◌
credit_external-once_example =
    credit_external-once "pay" "y" 2 1 (pos 100) (pos 999) shop credited refl
