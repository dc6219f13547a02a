-- ===== src/Lifecycle.antt =====
-- internal/service/lifecycle.go: the patrol that suspends and terminates services, and its claims.
--
-- `Environment` is what the patrol meets: its clock, the answers of the hosts, and what the other requests
-- commit while a call of a host is under way. What a host is told is only the action and the service.
pub mod Expiry
pub mod Traffic
pub mod Counters
pub mod Resume
pub mod Rows
pub mod Lawful
pub mod Suspensions
pub mod Purges
pub mod Renewals
mod Tests
use levis.Base.{
  ℕ, ◌+◌, ◌-◌, ◌*◌, ◌==◌, Bool, true, false, not, ◌&&◌, ◌||◌, Option, none, some, List, [], ◌∷◌,
  String, ltb, if◌then◌else◌,
}
use levis.Base.Int.{ℤ}
use levis.Base.Time.{Time, hour}
use levis.Store.{
  Product, UpstreamInterface, ServiceStatus, Service, HostAction, HostCall, Db, first, update,
  count, Error, bad_request, other, Result, ok, err, World, Action, pure, raise_if, catch,
  statement, select, query, execute_sql, ◌>>=◌, ◌>>◌,
}
use levis.Billing.{is_active, is_suspended, is_some, same_time, needs_upstream_renew}
use text.Mathlib.Text.{◌==◌ as str_eq}

pub record Environment : Type 0 where
  -- whether there is a manager of plugins
  pub connected : Bool
  pub clock : ℕ → Time
  pub during : ℕ → Db → Db
  -- the error of a call, a reply without success included
  pub failure : ℕ → Option String
  -- the bytes received and sent, if the host reports them
  pub metrics : ℕ → Option (ℤ × ℤ)

abbrev pub expiry_grace : ℕ
expiry_grace = 72 * hour

abbrev pub expiry_of : Option Service → Option Time
expiry_of none = none
expiry_of (some s) = s.expires_at

-- The call as it leaves.
unfoldable pub log_call : HostAction → ℕ → Db → Db
log_call action id d = record d {
  host_calls =
      record {
        action = action;
        service_id = id;
        expires_at = expiry_of (first (λ (s : Service). s.id == id) d.services);
      }
      ∷ d.host_calls;
}

abbrev pub reply : Option String → Result (Unit {0})
reply none = ok tt
reply (some text) = err (other text)

-- `s.Before(t)` for a column that may be NULL
abbrev pub ends_before : Option Time → Time → Bool
ends_before none t = false
ends_before (some e) t = ltb e t

-- What the code does with an error that it only logs.
unfoldable pub or_else {ℓ} : {A : Type ℓ} → A → Action A → Action A
or_else a m = catch m (λ _. pure a)

unfoldable pub interface_of : Option Product → Action (Unit {0})
interface_of none = pure tt
interface_of (some p) =
    let bound =
      select (λ d. first (λ (i : UpstreamInterface). i.id == p.interface_id) d.interfaces)
        (bad_request "商品绑定的接口不存在")
      >>= λ _. pure tt in
    if p.interface_id == 0 then pure tt else bound

-- `interfaceConfigForService`, as far as its errors
unfoldable pub interface_config : Service → Action (Unit {0})
unfolding interface_of
interface_config s =
    query (λ d. first (λ (p : Product). p.id == s.product_id) d.products) >>= λ p. interface_of p

-- The status, the reason, and the time of a suspension, where the condition holds.
unfoldable pub move : (Service → Bool) → ServiceStatus → String → Option Time → Action ℕ
move p status reason at = statement λ d. (
  count p d.services,
  record d {
    services =
        update p (λ s. record s { status = status; suspend_reason = reason; suspended_at = at })
          d.services;
  },
)

-- `UPDATE … SET suspend_reason`
unfoldable pub set_reason : (Service → Bool) → String → Action ℕ
set_reason p reason = statement λ d. (
  count p d.services,
  record d { services = update p (λ s. record s { suspend_reason = reason }) d.services },
)

unfoldable pub has_reason : String → Service → Bool
has_reason reason s = str_eq s.suspend_reason reason

-- An error counts as no row.
abbrev pub one_row : Action ℕ → Action Bool
one_row m = or_else 0 m >>= λ n. pure (n == 1)

abbrev pub some_row : Action ℕ → Action Bool
some_row m = or_else 0 m >>= λ n. pure (not (n == 0))

unfoldable pub is_overdue : Service → Time → Service → Bool
unfolding has_reason
is_overdue s e r =
    r.id == s.id && is_active r.status && same_time r.expires_at (some e) && has_reason "" r

unfoldable pub claim_at : Service → Option Time → Action Bool
unfolding or_else set_reason is_overdue
claim_at s none = pure false
claim_at s (some e) = one_row (set_reason (is_overdue s e) "enforcing")

-- `claimExpiredSnapshot`
unfoldable pub claim_expired_snapshot : Service → Action Bool
unfolding claim_at
claim_expired_snapshot s = claim_at s s.expires_at

-- `releaseExpiredClaim`
unfoldable pub release_expired_claim : Service → Action (Unit {0})
unfolding or_else set_reason has_reason
release_expired_claim s =
    or_else 0 (set_reason (λ r. r.id == s.id && has_reason "enforcing" r) "") >>= λ _. pure tt

-- The condition of `markSuspended` at the end of the paid time.
unfoldable pub is_enforced : Service → Service → Bool
unfolding has_reason
is_enforced s r =
    r.id == s.id
    && is_active r.status
    && has_reason "enforcing" r
    && (not (is_some s.expires_at) || same_time r.expires_at s.expires_at)

-- `markSuspended` for "expired"
unfoldable pub mark_expired : Service → Time → Action Bool
unfolding or_else move is_enforced
mark_expired s now = some_row (move (is_enforced s) ServiceStatus.suspended "expired" (some now))

-- `markSuspended` for "traffic"
unfoldable pub mark_exceeded : Service → Time → Action Bool
unfolding or_else move has_reason
mark_exceeded s now = some_row (
    move (λ r. r.id == s.id && is_active r.status && has_reason "" r) ServiceStatus.suspended
      "traffic" (some now))

unfoldable pub is_purgeable : Service → Service → Bool
unfolding has_reason
is_purgeable s r =
    r.id == s.id
    && is_suspended r.status
    && has_reason "expired" r
    && same_time r.suspended_at s.suspended_at
    && same_time r.expires_at s.expires_at
    && not (is_some r.change_pending_id)

-- `claimTerminateSnapshot`; `now` is its own reading of the clock
unfoldable pub claim_terminate_snapshot : Service → Time → Action Bool
unfolding or_else set_reason is_purgeable
claim_terminate_snapshot s now =
    if is_some s.suspended_at && ends_before s.expires_at now
    then one_row (set_reason (is_purgeable s) "terminating")
    else pure false

-- A row whose termination is under way.
unfoldable pub is_terminating : Service → Service → Bool
unfolding has_reason
is_terminating s r = r.id == s.id && is_suspended r.status && has_reason "terminating" r

-- `recheckTerminateSnapshot`
unfoldable pub recheck_terminate_snapshot : Service → Action Bool
unfolding or_else set_reason is_terminating
recheck_terminate_snapshot s = one_row (set_reason (is_terminating s) "terminating")

-- `releaseTerminateClaim`
unfoldable pub release_terminate_claim : Service → Action (Unit {0})
unfolding or_else set_reason has_reason
release_terminate_claim s =
    or_else 0 (set_reason (λ r. r.id == s.id && has_reason "terminating" r) "expired") >>= λ _.
    pure tt

unfoldable pub is_ending : Service → Service → Bool
unfolding has_reason
is_ending s r =
    r.id == s.id && is_suspended r.status && (has_reason "expired" r || has_reason "terminating" r)

-- `markTerminated`
unfoldable pub mark_terminated : Service → Action (Unit {0})
unfolding or_else move is_ending
mark_terminated s = or_else 0 (move (is_ending s) ServiceStatus.terminated "" none) >>= λ _. pure tt

module _ (env : Environment) where
  -- A call that reaches the host: the other requests commit before its answer is read.
  unfoldable pub call_host : HostAction → ℕ → Action (Unit {0})
  unfolding log_call
  call_host action id w = (
    reply (env.failure w.step),
    record w { db = env.during w.step (log_call action id w.db); step = w.step + 1 },
  )

  -- `manageHost`
  unfoldable pub manage_host : HostAction → Service → Action (Unit {0})
  unfolding interface_config call_host
  manage_host action s = do
    raise_if (not env.connected) (other "上游插件不可用")
    interface_config s
    call_host action s.id

  -- The call, and whether it succeeded.
  unfoldable pub try_host : HostAction → Service → Action Bool
  unfolding manage_host or_else
  try_host action s = or_else false (manage_host action s >>= λ _. pure true)

  -- `time.Now()`
  unfoldable pub read_clock : Action Time
  read_clock w = (ok (env.clock w.step), w)
