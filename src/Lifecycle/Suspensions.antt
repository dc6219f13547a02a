-- ===== src/Lifecycle/Suspensions.antt =====
-- internal/service/lifecycle.go, `manageHost` and the suspensions of `enforceExpiry`: what they keep.
use levis.Base.{
  ℕ, ◌==◌, ◌≡◌, refl, Bool, true, false, not, ◌||◌, Option, none, some, List, [], ◌∷◌, arith,
}
use levis.Base.Time.{Time}
use levis.Store.{
  Service, HostAction, Db, first, Result, ok, err, World, Action, pure, raise_if, catch, ◌>>=◌,
  continue, recover, Product, other,
}
use levis.Store.Rules.{Always, always_rules, bind-Always, pure-Always, if-Always, raise_if-Always}
use levis.Store.Steps.{after_action}
use levis.Lifecycle.{
  Environment, ends_before, expiry_of, or_else, claim_expired_snapshot, interface_of,
  interface_config, log_call, call_host, manage_host, try_host,
}
use levis.Lifecycle.Expiry.{
  start_again, record_expired, suspend_claimed, expire_service, expire_services,
}
use levis.Lifecycle.Lawful.{
  IsLawful, is_purge, mark_expired-IsLawful, release_expired-IsLawful, claim_at-IsLawful,
}

tried {κ} :
    (I : Db → Type κ) (m : Action (Unit {0})) (w : World)
    → I (m w).1.db
    → I (or_else false (m >>= λ _. pure true) w).1.db
unfolding or_else catch pure ◌>>=◌
tried I m w h = go (m w) h
  where
    go :
        (r : Result (Unit {0}) × World)
        → I r.1.db
        → I (recover (continue r (λ _ v. (ok true, v))) (λ _ v. (ok false, v))).1.db
    go (ok a, v) i = i
    go (err e, v) i = i

module _ (env : Environment) (now : Time) (gone : ℕ → Bool)
    (keeps : (k : ℕ) (d : Db) → IsLawful now gone d → IsLawful now gone (env.during k d)) where
  -- The call may leave.
  abbrev Sendable : HostAction → ℕ → Db → Type 0
  Sendable action id d =
      IsLawful now gone d
      × ((not (is_purge action)
            || ends_before (expiry_of (first (λ (r : Service). r.id == id) d.services)) now)
          ≡ true)

  interface-Sendable :
      (action : HostAction) (id : ℕ) (p : Option Product)
      → Always (Sendable action id) (interface_of p)
  unfolding interface_of
  interface-Sendable action id none = search always_rules
  interface-Sendable action id (some p) = search always_rules

  config-Sendable :
      (action : HostAction) (id : ℕ) (s : Service)
      → Always (Sendable action id) (interface_config s)
  unfolding interface_config
  config-Sendable action id s = search (always_rules, interface-Sendable)

  call-IsLawful :
      (action : HostAction) (id : ℕ) (w : World)
      → Sendable action id w.db
      → IsLawful now gone (call_host env action id w).1.db
  unfolding call_host log_call
  call-IsLawful action id w (h, sends) =
      keeps w.step _ (record { unique = h.unique; rows = h.rows; calls = (sends, h.calls) })

  manage-IsLawful :
      (action : HostAction) (s : Service) (w : World)
      → Sendable action s.id w.db
      → IsLawful now gone (manage_host env action s w).1.db
  unfolding manage_host
  manage-IsLawful action s w h =
      let I : Db → Type 0 = Sendable action s.id in
      let first_part = raise_if-Always I (not env.connected) (other "上游插件不可用") in
      after_action (λ r. IsLawful now gone r.1.db) (raise_if (not env.connected) (other "上游插件不可用"))
        _ w
        (λ _ v e.
          after_action (λ r. IsLawful now gone r.1.db) (interface_config s) _ v
            (λ _ u f.
              call-IsLawful action s.id u (
                rw f at ((config-Sendable action s.id s).keeps v (rw e at (first_part.keeps w h)))))
            (λ _ u f.
              (rw f at
                ((config-Sendable action s.id s).keeps v (rw e at (first_part.keeps w h)))).0))
        (λ _ v e. (rw e at (first_part.keeps w h)).0)

  pub try-IsLawful :
      (action : HostAction) (s : Service) (w : World)
      → Sendable action s.id w.db
      → IsLawful now gone (try_host env action s w).1.db
  unfolding try_host
  try-IsLawful action s w h =
      tried (IsLawful now gone) (manage_host env action s) w (manage-IsLawful action s w h)

  try-Always :
      (action : HostAction) (s : Service)
      → is_purge action ≡ false
      → Always (IsLawful now gone) (try_host env action s)
  try-Always action s harmless = record { keeps = λ w h. try-IsLawful action s w (h, ground arith) }

  start_again-Always : (s : Service) → Always (IsLawful now gone) (start_again env s)
  unfolding start_again
  start_again-Always s =
      let I = IsLawful now gone in
      if-Always I _ _ _
        (bind-Always I _ _ (try-Always HostAction.unsuspend s refl) (λ _. pure-Always I tt))
        (pure-Always I tt)

  record-Always : (s : Service) (at : Time) → Always (IsLawful now gone) (record_expired env s at)
  unfolding record_expired
  record-Always s at =
      let I = IsLawful now gone in
      bind-Always I _ _ (mark_expired-IsLawful now gone s at) λ marked.
        if-Always I marked _ _ (pure-Always I true)
          (bind-Always I _ _ (start_again-Always s) (λ _. pure-Always I false))

  suspend-Always : (s : Service) (at : Time) → Always (IsLawful now gone) (suspend_claimed env s at)
  unfolding suspend_claimed
  suspend-Always s at =
      let I = IsLawful now gone in
      bind-Always I _ _
        (if-Always I _ _ _ (try-Always HostAction.suspend s refl) (pure-Always I true))
        λ stopped.
          if-Always I stopped _ _ (record-Always s at)
            (bind-Always I _ _ (release_expired-IsLawful now gone s) (λ _. pure-Always I false))

  expire-Always : (at : Time) (s : Service) → Always (IsLawful now gone) (expire_service env at s)
  unfolding expire_service claim_expired_snapshot
  expire-Always at s =
      let I = IsLawful now gone in
      if-Always I _ _ _
        (bind-Always I _ _ (claim_at-IsLawful now gone s s.expires_at)
          (λ claimed. if-Always I claimed _ _ (suspend-Always s at) (pure-Always I false)))
        (pure-Always I false)

  pub expire_all-Always :
      (at : Time) (rows : List Service) (done : List ℕ)
      → Always (IsLawful now gone) (expire_services env at rows done)
  unfolding expire_services
  expire_all-Always at [] done = pure-Always (IsLawful now gone) done
  expire_all-Always at (s ∷ rows) done =
      bind-Always (IsLawful now gone) _ _ (expire-Always at s) (λ b. expire_all-Always at rows _)
