-- ===== src/Lifecycle/Renewals.antt =====
-- internal/service/billing.go, `renewInTx`, while internal/service/lifecycle.go, `enforceExpiry`, runs.
use levis.Base.{ℕ, ◌&&◌, inl, inr, Bool-cases, ◌≡◌, refl, Bool, true, false, String, arith}
use levis.Base.Int.{ℤ}
use levis.Base.Time.{Time}
use levis.Store.{Service, TxType, Db, statement, transaction}
use levis.Store.Rules.{
  Always, Safe-of_Always, always_rules, statement-Always, bind-Always, transaction-Always,
  when-Always, pure-Always, raise_if-Always, select-Always,
}
use levis.Wallet.{adjust_balance}
use levis.Billing.{
  auto_suspended, needs_upstream_renew, still_as_read, renewed, load_renewable_service,
  apply_renewal_tx, create_renewal_invoice, renew_in_tx,
}
use levis.Lifecycle.{has_reason}
use levis.Lifecycle.Rows.{is_over}
use text.Mathlib.Text.{◌==◌ as str_eq}
use text.Mathlib.TextEquality.{eq_iff}
use levis.Lifecycle.Lawful.{IsLawful, write-IsLawful}

traffic_calm : (a : String) → str_eq a "traffic" ≡ true → str_eq a "terminating" ≡ false
traffic_calm a h = rw ((eq_iff a "traffic").0 h) refl

expired_calm : (a : String) → str_eq a "expired" ≡ true → str_eq a "terminating" ≡ false
expired_calm a h = rw ((eq_iff a "expired").0 h) refl

auto_calm : (s : Service) → auto_suspended s ≡ true → str_eq s.suspend_reason "terminating" ≡ false
auto_calm s h = elim (Bool-cases (str_eq s.suspend_reason "traffic")) [
  | inl traffic ↦ traffic_calm s.suspend_reason traffic
  | inr other_ ↦ expired_calm s.suspend_reason (ground arith)
]

-- A renewed service is neither terminated nor about to be.
renewed-going_on : (s r : Service) (next : Time) → is_over (renewed s next r) ≡ false
unfolding renewed has_reason
renewed-going_on s r next = elim (Bool-cases (auto_suspended s && needs_upstream_renew s)) [
  | inl kept ↦ rw kept (auto_calm s (ground arith))
  | inr free ↦ rw free refl
]

module _ (now : Time) (gone : ℕ → Bool) where
  load-IsLawful :
      (user_id service_id : ℕ)
      → Always (IsLawful now gone) (load_renewable_service user_id service_id)
  unfolding load_renewable_service
  load-IsLawful user_id service_id = search always_rules depth 12

  -- A statement that writes other tables.
  elsewhere {ℓ} :
      {A : Type ℓ} (f : Db → A × Db)
      → ((d : Db) → (f d).1.services ≡ d.services)
      → ((d : Db) → (f d).1.host_calls ≡ d.host_calls)
      → Always (IsLawful now gone) (statement f)
  elsewhere f same called = statement-Always (IsLawful now gone) f λ d h. record {
    unique = rw (same d) h.unique;
    rows = rw (same d) h.rows;
    calls = rw (called d) h.calls;
  }

  adjust-IsLawful :
      (user_id : ℕ) (delta : ℤ) (tx_type : TxType) (ref_type : String) (ref_id : ℕ)
      → Always (IsLawful now gone) (adjust_balance user_id delta tx_type ref_type ref_id)
  unfolding adjust_balance
  adjust-IsLawful user_id delta tx_type ref_type ref_id =
      search (elsewhere, bind-Always, raise_if-Always, select-Always)

  apply-IsLawful :
      (add_date : ℕ → ℕ → Time → Time) (s : Service) (at : Time)
      → Always (IsLawful now gone) (apply_renewal_tx add_date s at)
  unfolding apply_renewal_tx
  apply-IsLawful add_date s at =
      let I = IsLawful now gone in
      bind-Always I _ _
        (statement-Always I _ (
          write-IsLawful now gone (still_as_read s) _ (λ r. refl)
            (λ r hit fine. rw (renewed-going_on s r _) refl)))
        (λ rows. bind-Always I _ _ (raise_if-Always I _ _) (λ _. pure-Always I _))

  invoice-IsLawful :
      (user_id : ℕ) (s : Service) (at : Time)
      → Always (IsLawful now gone) (create_renewal_invoice user_id s at)
  unfolding create_renewal_invoice
  invoice-IsLawful user_id s at = search (elsewhere, bind-Always)

  -- A renewal, whatever its errors, keeps what the round of the patrol keeps.
  pub renew_in_tx-IsLawful :
      (add_date : ℕ → ℕ → Time → Time) (user_id service_id : ℕ) (debit : Bool) (at : Time)
      → Always (IsLawful now gone) (transaction (renew_in_tx add_date user_id service_id debit at))
  unfolding renew_in_tx
  renew_in_tx-IsLawful add_date user_id service_id debit at =
      let I = IsLawful now gone in
      transaction-Always I _ (
        Safe-of_Always I _ (
          bind-Always I _ _ (load-IsLawful user_id service_id) λ s.
            bind-Always I _ _
              (when-Always I _ _
                (bind-Always I _ _ (adjust-IsLawful _ _ _ _ _) (λ _. pure-Always I tt)))
              λ _.
                bind-Always I _ _ (apply-IsLawful add_date s at)
                  λ next. bind-Always I _ _ (invoice-IsLawful user_id s at) (λ _. pure-Always I _)))
