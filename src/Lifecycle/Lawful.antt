-- ===== src/Lifecycle/Lawful.antt =====
-- internal/service/lifecycle.go, `enforceExpiry`: what its statements keep of what is terminated and why.
use levis.Base.{
  ℕ, ◌==◌, ◌≡◌, refl, Bool, true, false, not, ◌||◌, Option, none, some, List, [], ◌∷◌, String,
  arith, inl, inr, Bool-cases,
}
use levis.Base.Time.{Time}
use levis.Store.{
  Service, ServiceStatus, HostAction, HostCall, Db, first, update, count, Result, World, Action,
  pure, catch, statement, ◌>>=◌,
}
use levis.Store.Rules.{Always, statement-Always, bind-Always, pure-Always, catch-Always}
use levis.Store.Steps.{stepped}
use levis.Lifecycle.{
  ends_before, expiry_of, or_else, has_reason, one_row, set_reason, move, claim_at,
  release_expired_claim, is_enforced, mark_expired, release_terminate_claim, is_ending,
  mark_terminated,
}
use levis.Lifecycle.Rows.{All, Unique, is_over, count-update, All-update, All-update_with, OfId}
use text.Mathlib.Text.{◌==◌ as str_eq}

abbrev pub is_purge : HostAction → Bool
is_purge HostAction.terminate = true
is_purge _ = false

module _ (now : Time) (gone : ℕ → Bool) where
  -- The paid time of the row has ended; `gone` tells the services that were over before.
  abbrev pub has_ended : Service → Bool
  has_ended r = gone r.id || ends_before r.expires_at now

  abbrev pub row_ok : Service → Bool
  row_ok r = not (is_over r) || has_ended r

  abbrev pub call_ok : HostCall → Bool
  call_ok c = not (is_purge c.action) || ends_before c.expires_at now

  abbrev pub Calls : List HostCall → Type 0
  Calls [] = Unit
  Calls (c ∷ calls) = (call_ok c ≡ true) × Calls calls

  -- Ids are unique, each service that is terminated or about to be had come to the end of its paid time, and
  -- so had each service whose host was told to terminate, at the time of the call.
  pub record IsLawful (d : Db) : Type 0 where
    pub unique : Unique d.services
    pub rows : All row_ok d.services
    pub calls : Calls d.host_calls

  pub write-IsLawful :
      (p : Service → Bool) (f : Service → Service)
      → ((r : Service) → (f r).id ≡ r.id)
      → ((r : Service) → p r ≡ true → row_ok r ≡ true → row_ok (f r) ≡ true)
      → (d : Db) → IsLawful d
      → IsLawful (record d { services = update p f d.services })
  write-IsLawful p f same keeps d h = record {
    unique = λ k. rw (count-update p f same k d.services) (h.unique k);
    rows = All-update p f row_ok keeps d.services h.rows;
    calls = h.calls;
  }

  calm_reason :
      (reason : String) (r : Service)
      → str_eq reason "terminating" ≡ false
      → row_ok r ≡ true
      → row_ok (record r { suspend_reason = reason }) ≡ true
  unfolding has_reason
  calm_reason reason r calm h = ground arith

  pub set_reason-IsLawful :
      (p : Service → Bool) (reason : String)
      → str_eq reason "terminating" ≡ false
      → Always IsLawful (set_reason p reason)
  unfolding set_reason
  set_reason-IsLawful p reason calm =
      statement-Always IsLawful _
        (write-IsLawful p _ (λ r. refl) (λ r _ h. calm_reason reason r calm h))

  pub or_else-IsLawful {ℓ} :
      {A : Type ℓ} (a : A) (m : Action A) → Always IsLawful m → Always IsLawful (or_else a m)
  unfolding or_else
  or_else-IsLawful a m h = catch-Always IsLawful m _ h (λ _. pure-Always IsLawful a)

  pub mark_expired-IsLawful : (s : Service) (at : Time) → Always IsLawful (mark_expired s at)
  unfolding mark_expired move has_reason
  mark_expired-IsLawful s at =
      bind-Always IsLawful _ _
        (or_else-IsLawful 0 _ (
          statement-Always IsLawful _
            (write-IsLawful (is_enforced s) _ (λ r. refl) (λ r _ h. refl))))
        (λ n. pure-Always IsLawful _)

  pub release_expired-IsLawful : (s : Service) → Always IsLawful (release_expired_claim s)
  unfolding release_expired_claim
  release_expired-IsLawful s =
      bind-Always IsLawful _ _ (or_else-IsLawful 0 _ (set_reason-IsLawful _ "" refl))
        (λ n. pure-Always IsLawful _)

  pub release_terminate-IsLawful : (s : Service) → Always IsLawful (release_terminate_claim s)
  unfolding release_terminate_claim
  release_terminate-IsLawful s =
      bind-Always IsLawful _ _ (or_else-IsLawful 0 _ (set_reason-IsLawful _ "expired" refl))
        (λ n. pure-Always IsLawful _)

  one_row-IsLawful : (m : Action ℕ) → Always IsLawful m → Always IsLawful (one_row m)
  one_row-IsLawful m h =
      bind-Always IsLawful _ _ (or_else-IsLawful 0 m h) (λ n. pure-Always IsLawful _)

  pub claim_at-IsLawful : (s : Service) (e : Option Time) → Always IsLawful (claim_at s e)
  unfolding claim_at
  claim_at-IsLawful s none = pure-Always IsLawful false
  claim_at-IsLawful s (some e) = one_row-IsLawful _ (set_reason-IsLawful _ "enforcing" refl)

  pub after_one_row {κ μ} :
      {B : Type μ} (Q : Result B × World → Type κ) (p : Service → Bool) (reason : String)
      (k : Bool → Action B) (w : World)
      → Q (k false (stepped w w.db))
      → Q (
          k (count p w.db.services == 1) (
            stepped w (record w.db {
              services = update p (λ r. record r { suspend_reason = reason }) w.db.services;
            })))
      → Q ((one_row (set_reason p reason) >>= k) w)
  unfolding or_else set_reason statement catch pure ◌>>=◌
  after_one_row Q p reason k w failed done = elim (Bool-cases (w.fails w.step)) [
    | inl fails ↦ rw fails failed
    | inr runs ↦ rw runs done
  ]

  -- What the claim of a termination has made sure of.
  pub record IsClaimed (k : ℕ) (d : Db) : Type 0 where
    pub lawful : IsLawful d
    pub ended : OfId k has_ended d.services
    pub found : ends_before (expiry_of (first (λ (r : Service). r.id == k) d.services)) now ≡ true

  -- `markTerminated`
  ended_now : Service → Service
  ended_now r = record r {
    status = ServiceStatus.terminated;
    suspend_reason = "";
    suspended_at = none;
  }

  pub mark_terminated-IsLawful :
      (s : Service) (w : World)
      → IsLawful w.db
      → OfId s.id has_ended w.db.services
      → IsLawful (mark_terminated s w).1.db
  unfolding mark_terminated or_else move statement catch pure ◌>>=◌ is_ending has_reason ended_now
  mark_terminated-IsLawful s w h ended = elim (Bool-cases (w.fails w.step)) [
    | inl fails ↦ rw fails h
    | inr runs ↦ rw runs (record {
      unique =
          λ k. rw (count-update (is_ending s) ended_now (λ r. refl) k w.db.services) (h.unique k);
      rows =
          All-update_with (is_ending s) ended_now row_ok (λ r. not (r.id == s.id) || has_ended r)
            (λ r hit this known. ground arith) w.db.services h.rows ended;
      calls = h.calls;
    })
  ]
