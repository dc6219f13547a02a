-- ===== src/Wallet/Adjust.antt =====
-- internal/service/wallet.go, `adjustBalance` and `Recharge`: their outcomes.
use levis.Base.{ℕ, ◌+◌, ◌==◌, ◌≡◌, ◌<◌, refl, some, ◌∷◌, String, arith}
use levis.Base.Int.{ℤ, pos, ◌≤ℤ◌, ltb_ℤ, leb_ℤ}
use levis.Store.{User, Transaction, TxType, Db, update, count, first, World, Result, ok, err}
use levis.Store.Rules.{Post, Safe}
use levis.Store.Steps.{
  after_statement, after_raise_if, after_select, last_statement, last_transaction,
}
use levis.Wallet.{covers, credit, adjust_balance, recharge, max_recharge}
use levis.Wallet.Ledger.{IsReconciled, entry-IsBalanced}

-- What `adjustBalance` has done when it succeeds: the row of the user is changed by `delta`, one entry
-- of that amount is in front of the ledger, and it shows the balance that was read back.
abbrev pub Adjusted : Db → ℕ → ℤ → Result Transaction × World → Type 0
Adjusted d user_id delta (err e, w) = Unit
Adjusted d user_id delta (ok t, w) =
    let users = update (covers user_id delta) (credit delta) d.users in
    (0 < count (covers user_id delta) d.users)
    × (t.user_id ≡ user_id)
    × (t.amount_cents ≡ delta)
    × (w.db
        ≡ record d { users = users; transactions = t ∷ d.transactions; next_id = d.next_id + 1 })
    × ((u : User) × (first (λ v. v.id == user_id) users ≡ some u)
        × (t.balance_after_cents ≡ u.balance_cents))

-- `adjustBalance` on every branch, whatever the driver fails: when it succeeds the user's row was there,
-- with a balance that covers a debit, it was changed by the amount, one entry of that amount for that
-- user was put in front of the ledger, the entry shows the balance after it, and nothing else changed.
pub adjust_balance-Adjusted :
    (user_id : ℕ) (delta : ℤ) (tx_type : TxType) (ref_type : String) (ref_id : ℕ) (w : World)
    → Adjusted w.db user_id delta (adjust_balance user_id delta tx_type ref_type ref_id w)
unfolding adjust_balance
adjust_balance-Adjusted user_id delta tx_type ref_type ref_id w =
    let Q : Result Transaction × World → Type 0 = Adjusted w.db user_id delta in
    after_raise_if Q _ _ _ w (λ _. tt)
      λ _. after_statement Q _ _ w tt (
        after_raise_if Q (count (covers user_id delta) w.db.users == 0) _ _ _ (λ _. tt)
          λ matched.
            (after_select Q _ _ _ _ tt (λ _. tt)
              λ u found.
                last_statement Q _ _ tt (ground arith, refl, refl, refl, (u, found, refl))))

-- A balance that `adjustBalance` changes stays what its ledger adds up to.
pub adjust_balance-Safe :
    (user_id : ℕ) (delta : ℤ) (tx_type : TxType) (ref_type : String) (ref_id : ℕ)
    → Safe IsReconciled (adjust_balance user_id delta tx_type ref_type ref_id)
adjust_balance-Safe user_id delta tx_type ref_type ref_id = record {
  keeps = λ w h.
      kept w h (adjust_balance user_id delta tx_type ref_type ref_id w)
        (adjust_balance-Adjusted user_id delta tx_type ref_type ref_id w);
}
  where
    kept :
        (w : World)
        → IsReconciled w.db
        → (r : Result Transaction × World) → Adjusted w.db user_id delta r
        → Post IsReconciled r
    kept w h (err e, v) a = tt
    kept w h (ok t, v) (matched, owner, amount, tables, read) =
        rw tables
          (entry-IsBalanced user_id delta w.db.transactions w.db.users t matched owner amount h)

-- What a top-up by `amount` has done: an error leaves the tables as they were, and a success adds the
-- amount, which lies in the limits, to the balance with one entry of the ledger.
abbrev pub ToppedUp : Db → ℕ → ℤ → Result Transaction × World → Type 0
ToppedUp d user_id amount (err e, w) = w.db ≡ d
ToppedUp d user_id amount (ok t, w) =
    (pos 1 ≤ℤ amount) × (amount ≤ℤ max_recharge) × Adjusted d user_id amount (ok t, w)

-- `Recharge` on every branch, whatever the driver fails: an error leaves the tables as they were, and
-- a success, of an amount in the limits, has moved the balance and the ledger together.
pub recharge-ToppedUp :
    (user_id : ℕ) (amount : ℤ) (w : World)
    → ToppedUp w.db user_id amount (recharge user_id amount w)
unfolding recharge
recharge-ToppedUp user_id amount w =
    let Q : Result Transaction × World → Type 0 = ToppedUp w.db user_id amount in
    after_raise_if Q (leb_ℤ amount (pos 0)) _ _ w (λ _. refl)
      λ above.
        after_raise_if Q (ltb_ℤ max_recharge amount) _ _ w (λ _. refl)
          λ below.
            last_transaction Q (adjust_balance user_id amount TxType.recharge "" 0) w
              (λ e v same. same)
              (λ t v done. (
                ground arith,
                ground arith,
                rw done at (adjust_balance-Adjusted user_id amount TxType.recharge "" 0 w),
              ))
