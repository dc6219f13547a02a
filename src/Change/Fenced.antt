-- ===== src/Change/Fenced.antt =====
-- internal/service/service_change.go, the reservation of `Change`, and internal/service/billing.go, `renewInTx`: the
-- one keeps the other out.
use levis.Base.{
  ℕ, ◌==◌, ◌≡◌, refl, Bool, true, not, ◌&&◌, Option, some, List, [], ◌∷◌, String, arith, inl, inr,
  Bool-cases,
}
use levis.Base.Int.{ℤ}
use levis.Base.Time.{Time}
use levis.Store.{
  Service, ServiceChange, TxType, Db, update, count, first, Result, ok, err, World, pure, ◌>>=◌,
}
use levis.Store.Rules.{Always, always_rules, when-Always, bind-Always, pure-Always}
use levis.Store.Steps.{
  after_statement, after_checked, after_raise_if, after_select, after_action, last_transaction,
}
use levis.Wallet.{adjust_balance}
use levis.Billing.{is_some, load_renewable_service, renew_in_tx}
use levis.Lifecycle.Rows.{All, Unique, OfId, one_hit}
use levis.Change.Reserve.{
  Reservation, create_change, is_free, claim_service, fence_change_on_billing, charge_user,
  reserve_body, reserve_change,
}

abbrev pub IsError {ℓ} : {A : Type ℓ} → Result A × World → Type 0
IsError (ok a, w) = ⊥
IsError (err e, w) = Unit

abbrev is_reserved : Service → Bool
is_reserved r = is_some r.change_pending_id

-- Every row of the service waits for a change.
abbrev Reserved : ℕ → Db → Type 0
Reserved id d = OfId id is_reserved d.services

abbrev Left {ℓ} : {A : Type ℓ} → ℕ → Result A × World → Type 0
Left id (ok a, w) = Reserved id w.db
Left id (err e, w) = Unit

found-reserved :
    (id user_id : ℕ) (rows : List Service) (s : Service)
    → OfId id is_reserved rows
    → first (λ (s : Service). s.id == id && s.user_id == user_id) rows ≡ some s
    → is_some s.change_pending_id ≡ true
found-reserved id user_id [] s h e = cc
found-reserved id user_id (r ∷ rows) s (here, later) e =
    elim (Bool-cases (r.id == id && r.user_id == user_id)) [
      | inl this ↦
          (let same : some r ≡ some s = rw this at e in
            let mine : r ≡ s = cc in rw (← mine) (ground arith))
      | inr other_ ↦ found-reserved id user_id rows s later (rw other_ at e)
    ]

-- A service with a change under way is not loaded for a renewal.
load-refused :
    (user_id id : ℕ) (w : World) → Reserved id w.db → IsError (load_renewable_service user_id id w)
unfolding load_renewable_service
load-refused user_id id w h =
    let Q : Result Service × World → Type 0 = IsError in
    after_select Q _ _ _ w tt (λ _. tt)
      λ (s : Service) found.
        after_raise_if Q _ _ _ _ (λ _. tt)
          λ _.
            after_raise_if Q _ _ _ _ (λ _. tt)
              λ _.
                after_raise_if Q (is_some s.change_pending_id) _ _ _ (λ _. tt)
                  λ free.
                    (let taken = found-reserved id user_id w.db.services s h found in
                      absurd (ground arith))

module _ (add_date : ℕ → ℕ → Time → Time) (user_id id : ℕ) (debit : Bool) (now : Time) where
  renew-refused :
      (w : World) → Reserved id w.db → IsError (renew_in_tx add_date user_id id debit now w)
  unfolding renew_in_tx
  renew-refused w h =
      let refused = load-refused user_id id w h in
      after_action (λ r. IsError r) (load_renewable_service user_id id) _ w
        (λ s v e. absurd (rw e at refused)) (λ e v f. tt)

module _ (scan : String → Option ℤ) (user_id : ℕ) (s : Service) (r : Reservation) (now : Time) where
  fence-Unique : Always (λ d. Unique d.services) (fence_change_on_billing scan s)
  unfolding fence_change_on_billing
  fence-Unique = search always_rules depth 12

  pay-Reserved :
      (id : ℕ) (delta : ℤ) (ref_id : ℕ)
      → Always (Reserved id) (adjust_balance user_id delta TxType.payment "service_change" ref_id)
  unfolding adjust_balance
  pay-Reserved id delta ref_id = search always_rules depth 12

  charge-Reserved : (id : ℕ) (row : ServiceChange) → Always (Reserved id) (charge_user user_id row)
  unfolding charge_user
  charge-Reserved id row =
      when-Always (Reserved id) _ _ (
        bind-Always (Reserved id) _ _ (pay-Reserved id _ row.id)
          (λ _. pure-Always (Reserved id) tt))

  pending_set : ℕ → Service → Service
  pending_set id r = record r { change_pending_id = some id }

  claimed-Reserved :
      (id : ℕ) (rows : List Service)
      → Unique rows
      → count (is_free user_id s) rows ≡ 1
      → OfId s.id is_reserved (update (is_free user_id s) (pending_set id) rows)
  unfolding is_free pending_set
  claimed-Reserved id rows unique one =
      (one_hit s.id (is_free user_id s) (pending_set id) (λ _. true) is_reserved
        (λ r h. ground arith) (λ r. refl) (λ r h i. refl) rows (unique s.id) one (all_true rows)).0
    where
      all_true : (rows : List Service) → All (λ _. true) rows
      all_true [] = tt
      all_true (r ∷ rows) = (refl, all_true rows)

  charged-Left :
      (row : ServiceChange) (w : World)
      → Reserved s.id w.db
      → Left s.id ((charge_user user_id row >>= λ _. pure row) w)
  unfolding pure
  charged-Left row w h =
      after_action (λ (o : Result ServiceChange × World). Left s.id o) (charge_user user_id row) _ w
        (λ _ v e. rw e at ((charge-Reserved s.id row).keeps w h)) (λ e v f. tt)

  body-Left : (w : World) → Unique w.db.services → Left s.id (reserve_body scan user_id s r now w)
  unfolding reserve_body create_change claim_service pending_set
  body-Left w unique =
      let Q : Result ServiceChange × World → Type 0 = Left s.id in
      after_action Q (fence_change_on_billing scan s) _ w
        (λ _ v e.
          let same : Unique v.db.services = rw e at (fence-Unique.keeps w unique) in
          after_checked Q _ _ _ _ v tt (λ _. tt)
            λ free. after_statement Q _ _ _ tt (
              after_raise_if Q (not (count (is_free user_id s) v.db.services == 1)) _ _ _ (λ _. tt)
                λ one. charged-Left _ _ (claimed-Reserved _ v.db.services same (ground arith))))
        (λ e v f. tt)

  reserve-Left :
      (w : World) → Unique w.db.services → Left s.id (reserve_change scan user_id s r now w)
  unfolding reserve_change
  reserve-Left w unique =
      last_transaction (λ (o : Result ServiceChange × World). Left s.id o)
        (reserve_body scan user_id s r now) w (λ e v same. tt)
        (λ row v done. rw done at (body-Left w unique))

ok-Left :
    (id : ℕ) (o : Result ServiceChange × World) {row : ServiceChange}
    → Left id o
    → o.0 ≡ ok row
    → Reserved id o.1.db
ok-Left id (ok a, w) h e = h
ok-Left id (err x, w) h e = cc

-- Once a service has been reserved for a change, a renewal of it fails, by whichever user and whether it is paid
-- with the balance or through a channel: no period is bought at the price of the former size. Ids of
-- services have to be unique.
pub renew_in_tx-reserve_change :
    (scan : String → Option ℤ) (add_date : ℕ → ℕ → Time → Time) (user_id : ℕ) (s : Service)
    (r : Reservation) (now later : Time) (payer : ℕ) (debit : Bool) (row : ServiceChange)
    (w : World)
    → Unique w.db.services
    → (reserve_change scan user_id s r now w).0 ≡ ok row
    → IsError
        (renew_in_tx add_date payer s.id debit later (reserve_change scan user_id s r now w).1)
renew_in_tx-reserve_change scan add_date user_id s r now later payer debit row w unique done =
    renew-refused add_date payer s.id debit later _ (
      ok-Left s.id (reserve_change scan user_id s r now w)
        (reserve-Left scan user_id s r now w unique) done)
