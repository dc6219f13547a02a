-- ===== src/Wallet.antt =====
-- internal/service/wallet.go: the one path by which a balance changes, and the two ways to top it up.
pub mod Ledger
pub mod Adjust
pub mod Moved
pub mod Credit
mod Tests
use levis.Base.{
  ℕ, suc, ◌+◌, ◌==◌, Bool, true, false, ◌&&◌, Option, none, some, List, [], ◌∷◌, ◌++◌, String,
  if◌then◌else◌, any,
}
use levis.Base.Int.{ℤ, pos, ◌+ℤ◌, ◌-ℤ◌, ltb_ℤ, leb_ℤ, eqb_ℤ}
use levis.Store.{
  User, Transaction, TxType, PluginPayment, Db, first, update, count, Error, Result, ok, err,
  bad_request, not_found, duplicated_key, World, Action, pure, raise, statement, checked, catch,
  query, execute_sql, transaction, ◌>>=◌, ◌>>◌, raise_if, select,
}
use text.Mathlib.Text.{◌==◌ as str_eq}

-- The WHERE of the balance update: a debit wants the balance to cover it.
unfoldable pub covers : ℕ → ℤ → User → Bool
covers user_id delta u =
    u.id == user_id
    && (if ltb_ℤ delta (pos 0) then leb_ℤ (pos 0 -ℤ delta) u.balance_cents else true)

-- `balance_cents = balance_cents + ?`
unfoldable pub credit : ℤ → User → User
credit delta u = record u { balance_cents = u.balance_cents +ℤ delta }

-- The update, with the number of rows that it matched.
unfoldable pub update_balance : ℕ → ℤ → Action ℕ
unfolding covers credit
update_balance user_id delta = statement λ d. (
  count (covers user_id delta) d.users,
  record d { users = update (covers user_id delta) (credit delta) d.users },
)

abbrev pub balance_of : User → ℤ
balance_of u = u.balance_cents

-- Reading the balance back.
unfoldable pub read_user : ℕ → Action User
read_user user_id =
    select (λ d. first (λ u. u.id == user_id) d.users) (not_found "record not found")

unfoldable pub create_transaction : ℕ → ℤ → TxType → String → ℕ → ℤ → Action Transaction
create_transaction user_id delta tx_type ref_type ref_id after = statement λ d.
    (let row : Transaction = record {
      id = d.next_id;
      user_id = user_id;
      type = tx_type;
      amount_cents = delta;
      balance_after_cents = after;
      ref_type = ref_type;
      ref_id = ref_id;
    } in
      (row, record d { transactions = row ∷ d.transactions; next_id = d.next_id + 1 }))

-- `adjustBalance`
unfoldable pub adjust_balance : ℕ → ℤ → TxType → String → ℕ → Action Transaction
unfolding update_balance read_user create_transaction
adjust_balance user_id delta tx_type ref_type ref_id = do
  raise_if (eqb_ℤ delta (pos 0)) (bad_request "金额不能为零")
  rows ← update_balance user_id delta
  raise_if (rows == 0) (if ltb_ℤ delta (pos 0) then bad_request "余额不足" else not_found "用户不存在")
  user ← read_user user_id
  create_transaction user_id delta tx_type ref_type ref_id user.balance_cents

abbrev pub max_recharge : ℤ
max_recharge = pos 100000000

-- `Recharge`
unfoldable pub recharge : ℕ → ℤ → Action Transaction
recharge user_id amount = do
  raise_if (leb_ℤ amount (pos 0)) (bad_request "充值金额必须大于零")
  raise_if (ltb_ℤ max_recharge amount) (bad_request "单次充值金额过大")
  transaction (adjust_balance user_id amount TxType.recharge "" 0)

-- The unique index on (plugin_id, external_id).
unfoldable pub same_payment : String → String → PluginPayment → Bool
same_payment plugin_id external_id p =
    str_eq p.plugin_id plugin_id && str_eq p.external_id external_id

unfoldable pub create_plugin_payment : String → String → ℕ → ℤ → Action PluginPayment
unfolding same_payment
create_plugin_payment plugin_id external_id user_id amount =
    checked (λ d. any (same_payment plugin_id external_id) d.plugin_payments) duplicated_key
      λ d.
        (let row : PluginPayment = record {
          id = d.next_id;
          plugin_id = plugin_id;
          external_id = external_id;
          user_id = user_id;
          amount_cents = amount;
          transaction_id = 0;
        } in
          (row, record d { plugin_payments = row ∷ d.plugin_payments; next_id = d.next_id + 1 }))

unfoldable pub set_transaction_id : ℕ → ℕ → Action (Unit {0})
set_transaction_id id entry_id = execute_sql λ d. record d {
  plugin_payments =
      update (λ p. p.id == id) (λ p. record p { transaction_id = entry_id }) d.plugin_payments;
}

-- The body of the transaction of `CreditExternal`.
unfoldable pub credit_body : String → String → ℕ → ℤ → Action PluginPayment
unfolding create_plugin_payment set_transaction_id
credit_body plugin_id external_id user_id amount = do
  row ← create_plugin_payment plugin_id external_id user_id amount
  entry ← adjust_balance user_id amount TxType.recharge "plugin_payment" row.id
  set_transaction_id row.id entry.id
  pure (record row { transaction_id = entry.id })

unfoldable pub find_plugin_payment : String → String → Action PluginPayment
unfolding same_payment
find_plugin_payment plugin_id external_id =
    select (λ d. first (same_payment plugin_id external_id) d.plugin_payments)
      (not_found "record not found")

-- A duplicated key means a repeated report: the first record is returned.
unfoldable pub replayed : String → String → Error → Action PluginPayment
unfolding find_plugin_payment
replayed plugin_id external_id duplicated_key = find_plugin_payment plugin_id external_id
replayed plugin_id external_id e = raise e

-- `CreditExternal`
unfoldable pub credit_external : String → String → ℕ → ℤ → Action PluginPayment
unfolding credit_body replayed
credit_external plugin_id external_id user_id amount = do
  raise_if (leb_ℤ amount (pos 0)) (bad_request "到账金额必须大于零")
  raise_if (ltb_ℤ max_recharge amount) (bad_request "单笔到账金额过大")
  raise_if (str_eq external_id "") (bad_request "缺少 external_id")
  catch (transaction (credit_body plugin_id external_id user_id amount))
      (replayed plugin_id external_id)
