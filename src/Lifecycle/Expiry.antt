-- ===== src/Lifecycle/Expiry.antt =====
-- internal/service/lifecycle.go, `enforceExpiry`: a service is suspended at the end of its paid time, and
-- terminated when the grace after its suspension is over.
use levis.Base.{
  ℕ, ◌-◌, ◌==◌, Bool, true, false, not, ◌&&◌, Option, none, some, List, [], ◌∷◌, String,
  if◌then◌else◌, any, keep,
}
use levis.Base.Time.{Time}
use levis.Store.{Service, HostAction, Action, pure, query, ◌>>=◌, ◌>>◌}
use levis.Billing.{is_active, is_suspended, is_some, needs_upstream_renew}
use levis.Lifecycle.{
  Environment, expiry_grace, ends_before, or_else, has_reason, claim_expired_snapshot,
  release_expired_claim, mark_expired, claim_terminate_snapshot, recheck_terminate_snapshot,
  release_terminate_claim, mark_terminated, try_host, read_clock,
}
use text.Mathlib.Text.{◌==◌ as str_eq}

abbrev pub is_one : Option String → Bool
is_one none = false
is_one (some value) = str_eq value "1"

-- `terminateEnabledSetting`
unfoldable pub terminate_enabled_setting : Action Bool
unfolding or_else
terminate_enabled_setting =
    or_else false (query (λ d. d.lifecycle_terminate_enabled) >>= λ v. pure (is_one v))

-- `s.terminateEnabled != nil && !s.terminateEnabled()`
unfoldable pub keeps_hosts : Option (Action Bool) → Action Bool
keeps_hosts none = pure false
keeps_hosts (some enabled) = enabled >>= λ b. pure (not b)

module _ (env : Environment) where
  -- The suspension at the host is taken back: a payment came first.
  unfoldable pub start_again : Service → Action (Unit {0})
  start_again s =
      if needs_upstream_renew s
      then (try_host env HostAction.unsuspend s >>= λ _. pure tt)
      else pure tt

  unfoldable pub record_expired : Service → Time → Action Bool
  unfolding start_again
  record_expired s now =
      mark_expired s now >>= λ marked. if marked then pure true else (start_again s >> pure false)

  unfoldable pub suspend_claimed : Service → Time → Action Bool
  unfolding record_expired
  suspend_claimed s now =
      let stop = if needs_upstream_renew s then try_host env HostAction.suspend s else pure true in
      stop >>= λ stopped.
      if stopped then record_expired s now else (release_expired_claim s >> pure false)

  -- One round of the first loop; it tells whether the service was suspended.
  unfoldable pub expire_service : Time → Service → Action Bool
  unfolding suspend_claimed
  expire_service now s =
      let claiming = claim_expired_snapshot s >>= λ claimed.
      if claimed then suspend_claimed s now else pure false in
      if ends_before s.expires_at now then claiming else pure false

  unfoldable pub expire_services : Time → List Service → List ℕ → Action (List ℕ)
  unfolding expire_service
  expire_services now [] suspended = pure suspended
  expire_services now (s ∷ rest) suspended = expire_service now s >>= λ done.
      expire_services now rest (if done then s.id ∷ suspended else suspended)

  -- What follows the answer of the host.
  unfoldable pub record_purged : Service → Bool → Action (Unit {0})
  record_purged s ended =
      let recorded = recheck_terminate_snapshot s >>= λ still.
      if still then mark_terminated s else release_terminate_claim s in
      if ended then recorded else release_terminate_claim s

  unfoldable pub purge_claimed : Service → Action (Unit {0})
  unfolding record_purged
  purge_claimed s =
      if needs_upstream_renew s
      then (try_host env HostAction.terminate s >>= λ ended. record_purged s ended)
      else mark_terminated s

  unfoldable pub purge : Service → Action (Unit {0})
  unfolding purge_claimed
  purge s = do
    later ← read_clock env
    claimed ← claim_terminate_snapshot s later
    if claimed then purge_claimed s else pure tt

  unfoldable pub is_due : Time → List ℕ → Service → Bool
  is_due now suspended s =
      ends_before s.suspended_at (now - expiry_grace)
      && ends_before s.expires_at now
      && not (any (λ id. id == s.id) suspended)

  -- One round of the second loop.
  unfoldable pub purge_due : Option (Action Bool) → Time → List ℕ → Service → Action (Unit {0})
  unfolding purge is_due keeps_hosts
  purge_due enabled now suspended s =
      let purging = keeps_hosts enabled >>= λ dry. if dry then pure tt else purge s in
      if is_due now suspended s then purging else pure tt

  unfoldable pub purge_services :
      Option (Action Bool) → Time → List ℕ → List Service → Action (Unit {0})
  unfolding purge_due
  purge_services enabled now suspended [] = pure tt
  purge_services enabled now suspended (s ∷ rest) =
      purge_due enabled now suspended s >> purge_services enabled now suspended rest

  -- `enforceExpiry`, after it read the clock
  unfoldable pub enforce_at : Option (Action Bool) → Time → Action (Unit {0})
  unfolding expire_services purge_services has_reason
  enforce_at enabled now = do
    active ← query (λ d. keep (λ s. is_active s.status && is_some s.expires_at) d.services)
    suspended ← expire_services now active []
    expired ← query λ d.
        keep (λ s. is_suspended s.status && has_reason "expired" s && is_some s.suspended_at)
          d.services
    purge_services enabled now suspended expired

  -- `enforceExpiry`
  unfoldable pub enforce_expiry : Option (Action Bool) → Action (Unit {0})
  unfolding enforce_at
  enforce_expiry enabled = read_clock env >>= λ now. enforce_at enabled now
