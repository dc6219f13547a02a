-- ===== src/Billing/Expiry.antt =====
-- internal/service/billing.go, `applyRenewalTx`: the end of a service's paid time.
use levis.Base.{
  not, ◌&&◌, ◌||◌, if◌then◌else◌, ℕ, ◌+◌, ◌<◌, ◌==◌, ◌≡◌, refl, ap, Bool, true, false, Option, none,
  some, List, [], ◌∷◌, arith, inl, inr, Bool-cases,
}
use levis.Base.Time.{Time}
use levis.Store.{ServiceStatus, Cycle, Service, Db, update, count, Result, ok, err, World, pure}
use levis.Store.Steps.{after_statement, after_raise_if}
use levis.Order.Settlement.{advance_cycle}
use levis.Billing.{
  is_suspended, is_some, status_code, same_time, renewal_base, still_as_read, renewed,
  apply_renewal_tx,
}
use text.Mathlib.Text.{◌==◌ as str_eq}

abbrev pub is_periodic : Cycle → Bool
is_periodic Cycle.onetime = false
is_periodic (Cycle.unsupported text) = false
is_periodic _ = true

abbrev pub IsBefore : Option Time → Time → Type 0
IsBefore none t = Unit
IsBefore (some expiry) t = expiry < t

-- The row of the service, with the status, the reason and the end that were read, and no change under way.
abbrev pub is_unchanged : Service → Service → Bool
is_unchanged s r =
    r.id == s.id
    && status_code r.status == status_code s.status
    && str_eq r.suspend_reason s.suspend_reason
    && not (is_some r.change_pending_id)
    && same_time r.expires_at s.expires_at

-- A service that the patrol suspended, and whose host has to renew first, stays suspended.
abbrev pub stays_suspended : Service → Bool
stays_suspended s =
    is_suspended s.status
    && (str_eq s.suspend_reason "traffic" || str_eq s.suspend_reason "expired")
    && (not (str_eq s.upstream_plugin_id "") && not (str_eq s.upstream_host_id ""))

abbrev pub extend_to : Service → Time → Service → Service
extend_to s next r = record r {
  next_due_at = some next;
  expires_at = some next;
  provision_error = "";
  status = if stays_suspended s then ServiceStatus.suspended else ServiceStatus.active;
  suspend_reason = if stays_suspended s then s.suspend_reason else "";
}

-- What a renewal of the service as it was read has done.
abbrev pub Extended : Service → Time → Db → Result Time × World → Type 0
Extended s now d (err e, w) = w.db ≡ record d { services = w.db.services }
Extended s now d (ok next, w) =
    (now < next)
    × IsBefore s.expires_at next
    × (0 < count (is_unchanged s) d.services)
    × (w.db ≡ record d { services = update (is_unchanged s) (extend_to s next) d.services })

abbrev pub IsError : Result Time × World → Type 0
IsError (ok next, w) = ⊥
IsError (err e, w) = Unit

time_moved : (next : Time) (e : Option Time) → IsBefore e next → same_time (some next) e ≡ false
time_moved next none h = refl
time_moved next (some e) h = ground arith

renewed-differs :
    (s r : Service) (next : Time)
    → IsBefore s.expires_at next
    → still_as_read s (renewed s next r) ≡ false
unfolding still_as_read renewed
renewed-differs s r next h = ground (arith, time_moved next s.expires_at h)

count-renewed :
    (s : Service) (next : Time) (rows : List Service)
    → IsBefore s.expires_at next
    → count (still_as_read s) (update (still_as_read s) (renewed s next) rows) ≡ 0
count-renewed s next [] h = refl
count-renewed s next (r ∷ rows) h = elim (Bool-cases (still_as_read s r)) [
  | inl here ↦
      rw here (rw (renewed-differs s r next h) (omega (arith, count-renewed s next rows h)))
  | inr other_ ↦ rw other_ (rw other_ (omega (arith, count-renewed s next rows h)))
]

extended-differs :
    (s : Service) (next : Time) (rows : List Service)
    → IsBefore s.expires_at next
    → count (still_as_read s) (update (is_unchanged s) (extend_to s next) rows) ≡ 0
unfolding still_as_read renewed
extended-differs s next rows h = count-renewed s next rows h

module _ (add_date : ℕ → ℕ → Time → Time)
    (grows : (years months : ℕ) (t : Time) → 0 < years + months → t < add_date years months t) where
  advance_grows : (c : Cycle) (t : Time) → is_periodic c ≡ true → t < advance_cycle add_date t c
  unfolding advance_cycle
  advance_grows Cycle.onetime t h = cc
  advance_grows Cycle.monthly t h = grows 0 1 t (omega arith)
  advance_grows Cycle.quarterly t h = grows 0 3 t (omega arith)
  advance_grows Cycle.semiannually t h = grows 0 6 t (omega arith)
  advance_grows Cycle.annually t h = grows 1 0 t (omega arith)
  advance_grows Cycle.biennially t h = grows 2 0 t (omega arith)
  advance_grows Cycle.triennially t h = grows 3 0 t (omega arith)
  advance_grows (Cycle.unsupported text) t h = cc

  base_after :
      (now next : Time) (e : Option Time)
      → renewal_base now e < next
      → (now < next) × IsBefore e next
  base_after now next none h = (h, tt)
  base_after now next (some e) h = ground arith

  -- A renewal of a periodic service that succeeds has found the service as it was read, and moves the end of
  -- its paid time to an instant after now and after the former end, so that no paid time is lost; the service
  -- is active then, unless the patrol had suspended it and its host has to renew first. Every other service and
  -- every other table is as it was, and after an error every table but the services is. The calendar has to
  -- move forward.
  pub apply_renewal_tx-Extended :
      (s : Service) (now : Time) (w : World)
      → is_periodic s.billing_cyc ≡ true
      → Extended s now w.db (apply_renewal_tx add_date s now w)
  unfolding apply_renewal_tx pure still_as_read renewed
  apply_renewal_tx-Extended s now w periodic =
      let Q : Result Time × World → Type 0 = Extended s now w.db in
      let next : Time = advance_cycle add_date (renewal_base now s.expires_at) s.billing_cyc in
      let later = base_after now next s.expires_at (advance_grows s.billing_cyc _ periodic) in
      after_statement Q _ _ w refl (
        after_raise_if Q (count (still_as_read s) w.db.services == 0) _ _ _ (λ _. refl)
          (λ some_. (later.0, later.1, ground arith, refl)))

  stale :
      (s : Service) (now later : Time) (w : World) (r : Result Time × World) {next : Time}
      → Extended s now w.db r
      → r.0 ≡ ok next
      → IsError (apply_renewal_tx add_date s later r.1)
  unfolding apply_renewal_tx
  stale s now later w (ok next, v) (_, moved, _, tables) done =
      let spent = extended-differs s next w.db.services moved in
      after_statement IsError _ _ v tt (
        after_raise_if IsError (count (still_as_read s) v.db.services == 0) _ _ _ (λ _. tt)
          (λ some_. absurd (ground (arith, ap (λ (d : Db). d.services) tables, spent))))
  stale s now later w (err e, v) h done = cc

  -- Two renewals of a service with a periodic cycle that read it in the same state do not both succeed: after
  -- the first one the second fails, so that the service is not charged twice for one period. The calendar has
  -- to move forward.
  pub apply_renewal_tx-twice :
      (s : Service) (now later next : Time) (w : World)
      → is_periodic s.billing_cyc ≡ true
      → (apply_renewal_tx add_date s now w).0 ≡ ok next
      → IsError (apply_renewal_tx add_date s later (apply_renewal_tx add_date s now w).1)
  apply_renewal_tx-twice s now later next w periodic done =
      stale s now later w _ (apply_renewal_tx-Extended s now w periodic) done
