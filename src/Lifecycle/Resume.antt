-- ===== src/Lifecycle/Resume.antt =====
-- internal/service/lifecycle.go: starting a service again after a payment, and the retries; the retries of
-- internal/service/refund_reconcile.go, which suspend the services of a refunded order at their hosts.
use levis.Base.{
  ◌==◌, Bool, true, false, not, ◌&&◌, Option, none, some, List, [], ◌∷◌, String, if◌then◌else◌, any,
  keep, ltb,
}
use levis.Base.Int.{pos, ◌*ℤ◌, ltb_ℤ, i64}
use levis.Base.Time.{Time}
use levis.Store.{
  ServiceStatus, Service, HostAction, update, Action, pure, catch, query, execute_sql, ◌>>=◌, ◌>>◌,
}
use levis.Billing.{is_suspended, needs_upstream_renew}
use levis.Lifecycle.{
  Environment, or_else, has_reason, set_reason, interface_config, call_host, manage_host,
  read_clock,
}
use levis.Lifecycle.Traffic.{bytes_per_gib, traffic_quota_total_gb}
use text.Mathlib.Text.{◌==◌ as str_eq}

-- `saveResumeError`
unfoldable pub save_resume_error : Service → Action (Unit {0})
unfolding or_else
save_resume_error s = or_else tt (
    execute_sql λ d. record d {
      services =
          update (λ (r : Service). r.id == s.id)
            (λ r. record r { provision_error = "自动恢复开机失败"; resume_pending = true }) d.services;
    })

-- Still suspended for the reason that was read.
unfoldable pub is_still : Service → Service → Bool
unfolding has_reason
is_still s r = r.id == s.id && is_suspended r.status && has_reason s.suspend_reason r

unfoldable pub mark_resumed : Service → Action (Unit {0})
unfolding or_else is_still
mark_resumed s = or_else tt (
    execute_sql λ d. record d {
      services =
          update (is_still s)
            (λ r. record r {
              status = ServiceStatus.active;
              suspend_reason = "";
              suspended_at = none;
              provision_error = "";
              resume_pending = false;
            })
            d.services;
    })

abbrev pub is_empty : String → Bool
is_empty text = str_eq text ""

abbrev pub is_after : Option Time → Time → Bool
is_after none now = false
is_after (some e) now = ltb now e

-- `recoverStaleClaimMarkers`
unfoldable pub recover_stale_claim_markers : Action (Unit {0})
unfolding or_else set_reason has_reason
recover_stale_claim_markers = do
  or_else 0 (set_reason (has_reason "enforcing") "")
  or_else 0 (set_reason (has_reason "terminating") "expired")
  pure tt

-- A service whose order was refunded and whose host is still to be told.
unfoldable pub is_refund_pending : Service → Bool
unfolding has_reason
is_refund_pending r = is_suspended r.status && has_reason "refund" r && r.refund_suspend_pending

unfoldable pub note_refund_failure : Service → Action (Unit {0})
unfolding or_else is_refund_pending
note_refund_failure s = or_else tt (
    execute_sql λ d. record d {
      services =
          update (λ (r : Service). r.id == s.id && is_refund_pending r)
            (λ r. record r { provision_error = "上游错误" }) d.services;
    })

unfoldable pub acknowledge_refund : Service → Action (Unit {0})
unfolding or_else is_refund_pending
acknowledge_refund s = or_else tt (
    execute_sql λ d. record d {
      services =
          update (λ (r : Service). r.id == s.id && is_refund_pending r)
            (λ r. record r { refund_suspend_pending = false; provision_error = "" }) d.services;
    })

module _ (env : Environment) where
  -- The host is started; an error is kept on the row for a retry.
  unfoldable pub start_host : Service → Action Bool
  unfolding interface_config call_host save_resume_error
  start_host s =
      let starting =
        interface_config s >>= λ _. (call_host env HostAction.unsuspend s.id >>= λ _. pure true) in
      if env.connected && needs_upstream_renew s
      then catch starting (λ e. save_resume_error s >>= λ _. pure false)
      else pure true

  -- `resumeSuspended`
  unfoldable pub resume_suspended : Service → List String → Action (Unit {0})
  unfolding start_host mark_resumed
  resume_suspended s reasons =
      let resuming = start_host s >>= λ started. if started then mark_resumed s else pure tt in
      if is_suspended s.status
        && not (is_empty s.suspend_reason)
        && any (λ reason. str_eq s.suspend_reason reason) reasons
      then resuming
      else pure tt

  -- A service under its quota; the code reads the quota twice.
  unfoldable pub is_under_quota : Service → Action Bool
  unfolding traffic_quota_total_gb
  is_under_quota s = traffic_quota_total_gb s >>= λ limit.
      if ltb_ℤ (pos 0) limit
      then (traffic_quota_total_gb s >>= λ quota.
          pure (ltb_ℤ s.traffic_used_bytes (i64 (quota *ℤ bytes_per_gib))))
      else pure true

  -- Whether what the service was suspended for is over.
  unfoldable pub is_resumable : Service → Action Bool
  unfolding is_under_quota read_clock
  is_resumable s =
      let renewed = read_clock env >>= λ now. pure (is_after s.expires_at now) in
      if str_eq s.suspend_reason "traffic"
      then is_under_quota s
      else (if str_eq s.suspend_reason "expired" then renewed else pure false)

  unfoldable pub resume_each : List Service → Action (Unit {0})
  unfolding is_resumable resume_suspended
  resume_each [] = pure tt
  resume_each (s ∷ rest) = do
    over ← is_resumable s
    if over then resume_suspended s (s.suspend_reason ∷ []) else pure tt
    resume_each rest

  unfoldable pub is_waiting : Service → Bool
  is_waiting s =
      is_suspended s.status
      && not (is_empty s.suspend_reason)
      && s.resume_pending
      && not (is_empty s.provision_error)

  -- `retryPendingResumes`
  unfoldable pub retry_pending_resumes : Action (Unit {0})
  unfolding resume_each is_waiting
  retry_pending_resumes =
      let listed = query (λ d. keep is_waiting d.services) >>= λ rows. resume_each rows in
      if env.connected then listed else pure tt

  unfoldable pub suspend_refunded : Service → Action (Unit {0})
  unfolding manage_host note_refund_failure acknowledge_refund
  suspend_refunded s =
      let told = manage_host env HostAction.suspend s >>= λ _. pure true in
      let noted = note_refund_failure s >>= λ _. pure false in
      (if needs_upstream_renew s then catch told (λ e. noted) else pure true) >>= λ done.
      if done then acknowledge_refund s else pure tt

  unfoldable pub suspend_each : List Service → Action (Unit {0})
  unfolding suspend_refunded
  suspend_each [] = pure tt
  suspend_each (s ∷ rest) = suspend_refunded s >> suspend_each rest

  -- `retryRefundSuspensions`
  unfoldable pub retry_refund_suspensions : Action (Unit {0})
  unfolding suspend_each is_refund_pending
  retry_refund_suspensions =
      query (λ d. keep is_refund_pending d.services) >>= λ rows. suspend_each rows
