-- ===== src/Lifecycle/Purges.antt =====
-- internal/service/lifecycle.go, `enforceExpiry`: what is terminated, whatever the other requests do meanwhile.
use levis.Base.{
  ℕ, ◌==◌, ◌≡◌, refl, Bool, true, false, not, ◌&&◌, ◌||◌, Option, none, some, List, [], ◌∷◌, arith,
  inl, inr, Bool-cases, if◌then◌else◌,
}
use levis.Base.Time.{Time}
use levis.Store.{Service, HostAction, Db, update, count, World, Action, pure, ◌>>=◌}
use levis.Store.Rules.{Always, always_rules, bind-Always, pure-Always, if-Always}
use levis.Store.Steps.{after_action}
use levis.Billing.{is_some, same_time, needs_upstream_renew}
use levis.Lifecycle.{
  Environment, ends_before, has_reason, is_purgeable, claim_terminate_snapshot, is_terminating,
  recheck_terminate_snapshot, try_host, read_clock,
}
use levis.Lifecycle.Expiry.{
  record_purged, purge_claimed, purge, is_due, purge_due, purge_services, enforce_at,
  enforce_expiry, keeps_hosts, is_one, terminate_enabled_setting,
}
use levis.Lifecycle.Rows.{All-imp, one_hit}
use levis.Lifecycle.Lawful.{
  IsLawful, IsClaimed, has_ended, row_ok, write-IsLawful, or_else-IsLawful,
  release_terminate-IsLawful, after_one_row, mark_terminated-IsLawful,
}
use levis.Lifecycle.Suspensions.{try-IsLawful, expire_all-Always}

same_ends :
    (a b : Option Time) (t : Time)
    → same_time a b ≡ true
    → ends_before b t ≡ true
    → ends_before a t ≡ true
same_ends none none t h e = e
same_ends none (some y) t h e = cc
same_ends (some x) none t h e = cc
same_ends (some x) (some y) t h e = ground arith

module _ (env : Environment) (now : Time) (gone : ℕ → Bool)
    (keeps : (k : ℕ) (d : Db) → IsLawful now gone d → IsLawful now gone (env.during k d)) where
  terminating_ended :
      (s r : Service)
      → is_terminating s r ≡ true
      → row_ok now gone r ≡ true
      → has_ended now gone r ≡ true
  unfolding is_terminating has_reason
  terminating_ended s r h fine = ground arith

  of_terminating : (s r : Service) → is_terminating s r ≡ true → (r.id == s.id) ≡ true
  unfolding is_terminating
  of_terminating s r h = ground arith

  record_purged-IsLawful :
      (s : Service) (ended : Bool) (w : World)
      → IsLawful now gone w.db
      → IsLawful now gone (record_purged env s ended w).1.db
  unfolding record_purged recheck_terminate_snapshot
  record_purged-IsLawful s false w h = (release_terminate-IsLawful now gone s).keeps w h
  record_purged-IsLawful s true w h =
      let I = IsLawful now gone in
      let claimed : Service → Service = λ r. record r { suspend_reason = "terminating" } in
      let kept =
        write-IsLawful now gone (is_terminating s) claimed (λ r. refl)
          (λ r hit fine. ground (arith, terminating_ended s r hit fine)) w.db h in
      after_one_row now gone (λ r. I r.1.db) (is_terminating s) "terminating" _ w
        ((release_terminate-IsLawful now gone s).keeps _ h)
        (elim (Bool-cases (count (is_terminating s) w.db.services == 1)) [
          | inl one ↦ rw one (
              mark_terminated-IsLawful now gone s _ kept
                (one_hit s.id (is_terminating s) claimed (row_ok now gone) (has_ended now gone)
                  (of_terminating s) (λ r. refl) (terminating_ended s) w.db.services (h.unique s.id)
                  (ground arith) h.rows).0)
          | inr other_ ↦ rw other_ ((release_terminate-IsLawful now gone s).keeps _ kept)
        ])

  of_purgeable : (s r : Service) → is_purgeable s r ≡ true → (r.id == s.id) ≡ true
  unfolding is_purgeable
  of_purgeable s r h = ground arith

  purgeable_ends :
      (s r : Service)
      → ends_before s.expires_at now ≡ true
      → is_purgeable s r ≡ true
      → ends_before r.expires_at now ≡ true
  unfolding is_purgeable
  purgeable_ends s r past h = same_ends r.expires_at s.expires_at now (ground arith) past

  abbrev claiming : Service → Service
  claiming r = record r { suspend_reason = "terminating" }

  purging-IsLawful :
      (s : Service) (d : Db)
      → ends_before s.expires_at now ≡ true
      → IsLawful now gone d
      → IsLawful now gone (record d { services = update (is_purgeable s) claiming d.services })
  purging-IsLawful s d past =
      write-IsLawful now gone (is_purgeable s) claiming (λ r. refl)
        (λ r hit fine. ground (arith, purgeable_ends s r past hit)) d

  purge_claimed-IsLawful :
      (s : Service) (w : World)
      → IsClaimed now gone s.id w.db
      → IsLawful now gone (purge_claimed env s w).1.db
  unfolding purge_claimed
  purge_claimed-IsLawful s w c = elim (Bool-cases (needs_upstream_renew s)) [
    | inl hosted ↦ rw hosted (
        after_action (λ r. IsLawful now gone r.1.db) (try_host env HostAction.terminate s) _ w
          (λ ended v e. record_purged-IsLawful s ended v (
            rw e at (try-IsLawful env now gone keeps HostAction.terminate s w (c.lawful, c.found))))
          (λ x v e.
            rw e at (try-IsLawful env now gone keeps HostAction.terminate s w (c.lawful, c.found))))
    | inr local ↦ rw local (mark_terminated-IsLawful now gone s w c.lawful c.ended)
  ]

  -- A claim that met one row.
  purge-IsClaimed :
      (s : Service) (d : Db)
      → ends_before s.expires_at now ≡ true
      → count (is_purgeable s) d.services ≡ 1
      → IsLawful now gone d
      → IsClaimed now gone s.id
          (record d { services = update (is_purgeable s) claiming d.services })
  purge-IsClaimed s d past one h =
      let hit =
        one_hit s.id (is_purgeable s) claiming (row_ok now gone) (λ r. ends_before r.expires_at now)
          (of_purgeable s) (λ r. refl) (λ r p _. purgeable_ends s r past p) d.services
          (h.unique s.id) one h.rows in
      record {
        lawful = purging-IsLawful s d past h;
        ended =
            All-imp (λ r. not (r.id == s.id) || ends_before r.expires_at now)
              (λ r. not (r.id == s.id) || has_ended now gone r) (λ r e. ground arith) _ hit.0;
        found = rw (hit.1.1) (hit.1.2);
      }

  claim-IsLawful :
      (s : Service) (later : Time) (w : World)
      → ends_before s.expires_at now ≡ true
      → IsLawful now gone w.db
      → IsLawful now gone
          (((claim_terminate_snapshot s later) >>= λ claimed.
              if claimed then purge_claimed env s else pure tt)
            w).1.db
  unfolding claim_terminate_snapshot pure ◌>>=◌
  claim-IsLawful s later w past h =
      elim (Bool-cases (is_some s.suspended_at && ends_before s.expires_at later)) [
        | inl due ↦ rw due (
            after_one_row now gone (λ r. IsLawful now gone r.1.db) (is_purgeable s) "terminating"
              (λ claimed. if claimed then purge_claimed env s else pure tt) w h
              (elim (Bool-cases (count (is_purgeable s) w.db.services == 1)) [
                | inl one ↦
                    rw one
                      (purge_claimed-IsLawful s _ (purge-IsClaimed s w.db past (ground arith) h))
                | inr other_ ↦ rw other_ (purging-IsLawful s w.db past h)
              ]))
        | inr early ↦ rw early h
      ]

  purge-Always :
      (s : Service) → ends_before s.expires_at now ≡ true → Always (IsLawful now gone) (purge env s)
  unfolding purge read_clock ◌>>=◌
  purge-Always s past = record { keeps = λ w h. claim-IsLawful s (env.clock w.step) w past h }

  purge_due-Always :
      (enabled : Option (Action Bool)) (done : List ℕ) (s : Service)
      → Always (IsLawful now gone) (keeps_hosts enabled)
      → Always (IsLawful now gone) (purge_due env enabled now done s)
  unfolding purge_due is_due
  purge_due-Always enabled done s quiet =
      let I = IsLawful now gone in
      elim (Bool-cases (is_due env now done s)) [
        | inl due ↦ rw due (
            bind-Always I _ _ quiet
              (λ dry. if-Always I dry _ _ (pure-Always I tt) (purge-Always s (ground arith))))
        | inr not_due ↦ rw not_due (pure-Always I tt)
      ]

  purge_all-Always :
      (enabled : Option (Action Bool)) (done : List ℕ) (rows : List Service)
      → Always (IsLawful now gone) (keeps_hosts enabled)
      → Always (IsLawful now gone) (purge_services env enabled now done rows)
  unfolding purge_services
  purge_all-Always enabled done [] quiet = pure-Always (IsLawful now gone) tt
  purge_all-Always enabled done (s ∷ rows) quiet =
      bind-Always (IsLawful now gone) _ _ (purge_due-Always enabled done s quiet)
        (λ _. purge_all-Always enabled done rows quiet)

  enforced :
      (enabled : Option (Action Bool))
      → Always (IsLawful now gone) (keeps_hosts enabled)
      → Always (IsLawful now gone) (enforce_at env enabled now)
  unfolding enforce_at
  enforced enabled quiet =
      let I = IsLawful now gone in
      bind-Always I _ _ (search always_rules) λ active.
        bind-Always I _ _ (expire_all-Always env now gone keeps now active []) λ suspended.
          bind-Always I _ _ (search always_rules)
            (λ expired. purge_all-Always enabled suspended expired quiet)

setting-IsLawful :
    (now : Time) (gone : ℕ → Bool)
    → Always (IsLawful now gone) (keeps_hosts (some terminate_enabled_setting))
unfolding keeps_hosts terminate_enabled_setting
setting-IsLawful now gone =
    let I = IsLawful now gone in
    bind-Always I _ _
      (or_else-IsLawful now gone false _
        (bind-Always I _ _ (search always_rules) (λ v. pure-Always I (is_one v))))
      (λ b. pure-Always I (not b))

-- A round of the patrol at the end of the paid time, whatever the hosts answer and the driver fails, and
-- whatever other requests commit during the calls, as long as each of those keeps to it as well: a host is
-- told to terminate only for a service whose paid time had ended by the beginning of the round, and a
-- service is marked as terminated only if that is so, or if it was so marked, or under way, before.
pub enforce_expiry-IsLawful :
    (env : Environment) (gone : ℕ → Bool) (w : World)
    → ((k : ℕ) (d : Db)
        → IsLawful (env.clock w.step) gone d
        → IsLawful (env.clock w.step) gone (env.during k d))
    → IsLawful (env.clock w.step) gone w.db
    → IsLawful (env.clock w.step) gone (enforce_expiry env (some terminate_enabled_setting) w).1.db
unfolding enforce_expiry read_clock ◌>>=◌
enforce_expiry-IsLawful env gone w keeps h =
    (enforced env (env.clock w.step) gone keeps (some terminate_enabled_setting)
        (setting-IsLawful _ gone)).keeps
      w h
