-- ===== src/Wallet/Credit.antt =====
-- internal/service/wallet.go, `CreditExternal`: the ledger under reports of payments, and reports
-- that are repeated.
use levis.Base.{
  ℕ, ◌==◌, ◌≡◌, refl, ◌∙◌, Bool, true, some, List, [], ◌∷◌, String, arith, string_eq, any,
}
use levis.Base.Int.{ℤ}
use levis.Store.{
  Transaction, TxType, PluginPayment, Db, update, first, World, Result, ok, err, Error, raise,
  transaction, duplicated_key,
}
use text.Mathlib.TextPositions.{eq_refl}
use levis.Store.Rules.{
  Post, Safe, Always, bind-Safe, bind-Always, transaction-Always, statement-Always, raise_if-Always,
  pure-Always, raise-Always, select-Always, checked-Always, catch-Always, Safe-of_Always,
}
use levis.Store.Steps.{after_checked, after_raise_if, last_transaction, last_catch, last_select}
use levis.Wallet.{
  adjust_balance, same_payment, create_plugin_payment, set_transaction_id, credit_body,
  find_plugin_payment, replayed, credit_external,
}
use levis.Wallet.Ledger.{IsReconciled}
use levis.Wallet.Adjust.{Adjusted, adjust_balance-Adjusted, adjust_balance-Safe}

credit_body-Safe :
    (plugin_id external_id : String) (user_id : ℕ) (amount : ℤ)
    → Safe IsReconciled (credit_body plugin_id external_id user_id amount)
unfolding credit_body create_plugin_payment set_transaction_id
credit_body-Safe plugin_id external_id user_id amount =
    bind-Safe IsReconciled _ _
      (Safe-of_Always IsReconciled _ (checked-Always IsReconciled _ _ _ (λ d h. h)))
      λ row.
        bind-Safe IsReconciled _ _
          (adjust_balance-Safe user_id amount TxType.recharge "plugin_payment" row.id)
          λ entry.
            bind-Safe IsReconciled _ _
              (Safe-of_Always IsReconciled _ (statement-Always IsReconciled _ (λ d h. h)))
              λ _. Safe-of_Always IsReconciled _ (pure-Always IsReconciled _)

replayed-Always {κ} :
    (I : Db → Type κ) (plugin_id external_id : String) (e : Error)
    → Always I (replayed plugin_id external_id e)
unfolding replayed
replayed-Always I plugin_id external_id duplicated_key = select-Always I _ _
replayed-Always I plugin_id external_id _ = raise-Always I _

credit_external-Always :
    (plugin_id external_id : String) (user_id : ℕ) (amount : ℤ)
    → Always IsReconciled (credit_external plugin_id external_id user_id amount)
unfolding credit_external
credit_external-Always plugin_id external_id user_id amount =
    bind-Always IsReconciled _ _ (raise_if-Always IsReconciled _ _) λ _.
      bind-Always IsReconciled _ _ (raise_if-Always IsReconciled _ _) λ _.
        bind-Always IsReconciled _ _ (raise_if-Always IsReconciled _ _) λ _.
          catch-Always IsReconciled _ _
            (transaction-Always IsReconciled _
              (credit_body-Safe plugin_id external_id user_id amount))
            (replayed-Always IsReconciled plugin_id external_id)

-- The payment is on record.
abbrev pub HasPayment : String → String → Db → Type 0
HasPayment plugin_id external_id d =
    any (same_payment plugin_id external_id) d.plugin_payments ≡ true

module _ (plugin_id external_id : String) (user_id : ℕ) (amount : ℤ) where
  -- A second insert under the unique index fails, so the body of the transaction does.
  taken-credit_body :
      (old : Db)
      → HasPayment plugin_id external_id old
      → Safe (λ d. d ≡ old) (credit_body plugin_id external_id user_id amount)
  unfolding credit_body create_plugin_payment
  taken-credit_body old taken = record {
    keeps = λ w e.
        after_checked (Post (λ d. d ≡ old)) _ _ _ _ w tt (λ _. tt)
          (λ free. cc (rw e at free, taken));
  }

  -- A report of a payment that is on record changes no table.
  pub credit_external-replay :
      (w : World)
      → HasPayment plugin_id external_id w.db
      → (credit_external plugin_id external_id user_id amount w).1.db ≡ w.db
  unfolding credit_external
  credit_external-replay w taken =
      let I : Db → Type 0 = λ d. d ≡ w.db in
      (bind-Always I _ _ (raise_if-Always I _ _) λ _. bind-Always I _ _ (raise_if-Always I _ _) λ _.
          bind-Always I _ _ (raise_if-Always I _ _) λ _.
            catch-Always I _ _ (transaction-Always I _ (taken-credit_body w.db taken))
              (replayed-Always I plugin_id external_id)).keeps
        w refl

any_of_first {ℓ} :
    {R : Type ℓ} (p : R → Bool) (rs : List R) (r : R) → first p rs ≡ some r → any p rs ≡ true
any_of_first p [] r h = cc
any_of_first p (x ∷ rs) r h = ground (arith, any_of_first p rs r)

any-update {ℓ} :
    {R : Type ℓ} (p q : R → Bool) (f : R → R) (rs : List R)
    → ((r : R) → p (f r) ≡ p r)
    → any p (update q f rs) ≡ any p rs
any-update p q f [] h = refl
any-update p q f (r ∷ rs) h = ground (arith, any-update p q f rs h, h r)

module _ (plugin_id external_id : String) where
  kept-HasPayment :
      (d : Db) (user_id : ℕ) (delta : ℤ) (r : Result Transaction × World)
      → HasPayment plugin_id external_id d
      → Adjusted d user_id delta r
      → Post (HasPayment plugin_id external_id) r
  kept-HasPayment d user_id delta (err e, w) h a = tt
  kept-HasPayment d user_id delta (ok t, w) h (matched, owner, amount, tables, read) = rw tables h

  adjust_balance-HasPayment :
      (user_id : ℕ) (delta : ℤ) (tx_type : TxType) (ref_type : String) (ref_id : ℕ)
      → Safe
          (HasPayment plugin_id external_id)
          (adjust_balance user_id delta tx_type ref_type ref_id)
  adjust_balance-HasPayment user_id delta tx_type ref_type ref_id = record {
    keeps = λ w h.
        kept-HasPayment w.db user_id delta _ h
          (adjust_balance-Adjusted user_id delta tx_type ref_type ref_id w);
  }

  set_transaction_id-HasPayment :
      (id entry_id : ℕ) → Always (HasPayment plugin_id external_id) (set_transaction_id id entry_id)
  unfolding set_transaction_id
  set_transaction_id-HasPayment id entry_id =
      statement-Always (HasPayment plugin_id external_id) _ λ d h.
        any-update (same_payment plugin_id external_id) (λ p. p.id == id)
          (λ p. record p { transaction_id = entry_id }) d.plugin_payments
          (λ p. unfold same_payment in refl)
        ∙ h

  recorded-credit_body :
      (user_id : ℕ) (amount : ℤ) (w : World)
      → Post (HasPayment plugin_id external_id) (credit_body plugin_id external_id user_id amount w)
  unfolding credit_body create_plugin_payment
  recorded-credit_body user_id amount w =
      let I : Db → Type 0 = HasPayment plugin_id external_id in
      after_checked (Post I) _ _ _ _ w tt (λ _. tt)
        λ free.
          (bind-Safe I _ _
              (adjust_balance-HasPayment user_id amount TxType.recharge "plugin_payment" _)
              λ entry.
                bind-Safe I _ _ (Safe-of_Always I _ (set_transaction_id-HasPayment _ entry.id))
                  λ _. Safe-of_Always I _ (pure-Always I _)).keeps
            _ (simp eq_refl)

  replayed_recorded :
      (e : Error) (w : World)
      → Post (HasPayment plugin_id external_id) (replayed plugin_id external_id e w)
  unfolding replayed raise find_plugin_payment
  replayed_recorded duplicated_key w =
      last_select (Post (HasPayment plugin_id external_id)) _ _ w tt (λ _. tt)
        (any_of_first (same_payment plugin_id external_id) w.db.plugin_payments)
  replayed_recorded _ w = tt

  -- When `CreditExternal` succeeds the payment is on record, be it new or a repetition.
  pub credit_external-HasPayment :
      (user_id : ℕ) (amount : ℤ) (w : World)
      → Post
          (HasPayment plugin_id external_id)
          (credit_external plugin_id external_id user_id amount w)
  unfolding credit_external
  credit_external-HasPayment user_id amount w =
      let Q : Result PluginPayment × World → Type 0 = Post (HasPayment plugin_id external_id) in
      let body = credit_body plugin_id external_id user_id amount in
      let ended : Q (transaction body w) =
        last_transaction Q body w (λ _ _ _. tt)
          (λ b v done. rw done at (recorded-credit_body user_id amount w)) in
      after_raise_if Q _ _ _ w (λ _. tt)
        λ _.
          after_raise_if Q _ _ _ w (λ _. tt)
            λ _.
              after_raise_if Q _ _ _ w (λ _. tt)
                λ _.
                  last_catch Q (transaction body) (replayed plugin_id external_id) w
                    (λ b v done. rw done at ended) (λ e v failed. replayed_recorded e v)

module _ {A : Type 0} where
  Post-of-ok : (I : Db → Type 0) (r : Result A × World) {a : A} → r.0 ≡ ok a → Post I r → I r.1.db
  Post-of-ok I (ok a, w) h p = p
  Post-of-ok I (err e, w) h p = cc

-- Once a report has been accepted, the same report moves no money, whatever it says of the user and
-- the amount, and whatever the driver fails in the meantime: every table stays as the first left it.
pub credit_external-once :
    (plugin_id external_id : String) (user_id user_id' : ℕ) (amount amount' : ℤ) (w : World)
    (first_record : PluginPayment)
    → (credit_external plugin_id external_id user_id amount w).0 ≡ ok first_record
    → let after = (credit_external plugin_id external_id user_id amount w).1 in
      (credit_external plugin_id external_id user_id' amount' after).1.db ≡ after.db
credit_external-once plugin_id external_id user_id user_id' amount amount' w first_record accepted =
    credit_external-replay plugin_id external_id user_id' amount' _ (
      Post-of-ok (HasPayment plugin_id external_id) _ accepted
        (credit_external-HasPayment plugin_id external_id user_id amount w))

-- If every balance is the sum of its ledger and not negative, then so it is after a report of any
-- payment, whatever statements the driver fails, be the report new, repeated or refused.
pub credit_external-IsReconciled :
    (plugin_id external_id : String) (user_id : ℕ) (amount : ℤ) (w : World)
    → IsReconciled w.db
    → IsReconciled (credit_external plugin_id external_id user_id amount w).1.db
credit_external-IsReconciled plugin_id external_id user_id amount w h =
    (credit_external-Always plugin_id external_id user_id amount).keeps w h
