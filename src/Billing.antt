-- ===== src/Billing.antt =====
-- internal/service/billing.go: renewals and traffic packs, as far as the transactions that book them.
-- `add_date` is `time.AddDate` for years and months, `scan` is `fmt.Sscanf(s, "%d GB", …)`. The calls of
-- the upstream come after the commit and are left out.
pub mod Traffic
pub mod Books
pub mod Expiry
mod Tests
use levis.Base.{
  ℕ, ◌+◌, ◌==◌, Bool, true, false, not, ◌&&◌, ◌||◌, Option, none, some, List, [], ◌∷◌, String,
  if◌then◌else◌,
}
use levis.Base.Int.{ℤ, pos, ◌-ℤ◌, ltb_ℤ}
use levis.Base.Time.{Time, after}
use levis.Store.{
  Cycle, Invoice, InvoiceStatus, InvoiceItem, TxType, ServiceStatus, Service, Db, first, update,
  count, Error, bad_request, not_found, conflict, Action, pure, raise, raise_if, when, statement,
  select, execute_sql, transaction, ◌>>=◌, ◌>>◌,
}
use levis.Wallet.{adjust_balance}
use levis.Order.{is_unpaid}
use levis.Order.Settlement.{advance_cycle}
use Prim.Native.String.{◌++◌ as text_append}
use text.Mathlib.Text.{◌==◌ as str_eq}

abbrev pub is_active : ServiceStatus → Bool
is_active ServiceStatus.active = true
is_active _ = false

abbrev pub is_suspended : ServiceStatus → Bool
is_suspended ServiceStatus.suspended = true
is_suspended _ = false

-- Suspended by the lifecycle, for its traffic or at its end.
abbrev pub auto_suspended : Service → Bool
auto_suspended s =
    is_suspended s.status
    && (str_eq s.suspend_reason "traffic" || str_eq s.suspend_reason "expired")

abbrev pub is_onetime : Cycle → Bool
is_onetime Cycle.onetime = true
is_onetime _ = false

abbrev pub is_some : Option ℕ → Bool
is_some none = false
is_some (some _) = true

-- `needsUpstreamRenew`
abbrev pub needs_upstream_renew : Service → Bool
needs_upstream_renew s = not (str_eq s.upstream_plugin_id "") && not (str_eq s.upstream_host_id "")

-- `loadRenewableService`
unfoldable pub load_renewable_service : ℕ → ℕ → Action Service
load_renewable_service user_id service_id = do
  s ←
      select (λ d. first (λ (s : Service). s.id == service_id && s.user_id == user_id) d.services)
        (not_found "服务不存在")
  raise_if (not (is_active s.status) && not (auto_suspended s)) (conflict "只有使用中的服务或自动停机的服务才能续费")
  raise_if (is_suspended s.status && str_eq s.suspend_reason "refund") (conflict "该服务的订单已全额退款，不能续费")
  raise_if (is_some s.change_pending_id) (conflict "该服务有进行中的规格更新，请等待其完成后再续费")
  raise_if (is_onetime s.billing_cyc) (bad_request "一次性付费服务无需续费")
  pure s

abbrev pub status_code : ServiceStatus → ℕ
status_code ServiceStatus.pending = 0
status_code ServiceStatus.active = 1
status_code ServiceStatus.suspended = 2
status_code ServiceStatus.failed = 3
status_code ServiceStatus.terminated = 4

abbrev pub same_time : Option Time → Option Time → Bool
same_time none none = true
same_time (some t) (some u) = t == u
same_time _ _ = false

-- The later one of now and the end of the paid time.
abbrev pub renewal_base : Time → Option Time → Time
renewal_base now none = now
renewal_base now (some expiry) = if after expiry now then expiry else now

-- The WHERE of the renewal: the service as it was read.
unfoldable pub still_as_read : Service → Service → Bool
still_as_read s r =
    r.id == s.id
    && status_code r.status == status_code s.status
    && str_eq r.suspend_reason s.suspend_reason
    && not (is_some r.change_pending_id)
    && same_time r.expires_at s.expires_at

-- The columns that a renewal sets.
unfoldable pub renewed : Service → Time → Service → Service
renewed s next r =
    let kept = auto_suspended s && needs_upstream_renew s in
    record r {
      next_due_at = some next;
      expires_at = some next;
      provision_error = "";
      status = if kept then ServiceStatus.suspended else ServiceStatus.active;
      suspend_reason = if kept then s.suspend_reason else "";
    }

abbrev pub cycle_text : Cycle → String
cycle_text Cycle.onetime = "onetime"
cycle_text Cycle.monthly = "monthly"
cycle_text Cycle.quarterly = "quarterly"
cycle_text Cycle.semiannually = "semiannually"
cycle_text Cycle.annually = "annually"
cycle_text Cycle.biennially = "biennially"
cycle_text Cycle.triennially = "triennially"
cycle_text (Cycle.unsupported text) = text

-- `fmt.Sprintf("续费 %s（%s）", …)`
abbrev pub renewal_description : Service → String
renewal_description s =
    text_append "续费 "
      (text_append s.name (text_append "（" (text_append (cycle_text s.billing_cyc) "）")))

-- The invoice of a renewal that is paid at once, with its one line.
unfoldable pub create_renewal_invoice : ℕ → Service → Time → Action (Unit {0})
create_renewal_invoice user_id s now = do
  id ← statement λ d. (
    d.next_id,
    record d {
      invoices =
          record {
            id = d.next_id;
            user_id = user_id;
            order_id = none;
            service_id = none;
            status = InvoiceStatus.paid;
            total_cents = s.price_cents;
            due_at = some now;
            paid_at = some now;
          }
          ∷ d.invoices;
      next_id = d.next_id + 1;
    },
  )
  execute_sql λ d. record d {
    invoice_items =
        record {
          id = d.next_id;
          invoice_id = id;
          service_id = some s.id;
          description = renewal_description s;
          amount_cents = s.price_cents;
        }
        ∷ d.invoice_items;
    next_id = d.next_id + 1;
  }

unfoldable pub mark_paid : ℕ → ℕ → Time → Action ℕ
mark_paid user_id invoice_id now = statement λ d. (
  count (λ (i : Invoice). i.id == invoice_id && i.user_id == user_id && is_unpaid i.status)
      d.invoices,
  record d {
    invoices =
        update (λ i. i.id == invoice_id && i.user_id == user_id && is_unpaid i.status)
          (λ i. record i { status = InvoiceStatus.paid; paid_at = some now }) d.invoices;
  },
)

unfoldable pub find_invoice : ℕ → ℕ → Action Invoice
find_invoice user_id invoice_id =
    select (λ d. first (λ (i : Invoice). i.id == invoice_id && i.user_id == user_id) d.invoices)
      (not_found "账单不存在")

abbrev pub nonzero : Option ℕ → Option ℕ
nonzero none = none
nonzero (some id) = if id == 0 then none else some id

-- The service of an invoice; a stored 0 counts as none.
abbrev pub service_of : Invoice → Option ℕ
service_of i = nonzero i.service_id

abbrev pub order_of : Invoice → Option ℕ
order_of i = nonzero i.order_id

module _ (add_date : ℕ → ℕ → Time → Time) where
  -- `applyRenewalTx`
  unfoldable pub apply_renewal_tx : Service → Time → Action Time
  unfolding still_as_read renewed
  apply_renewal_tx s now = do
    let next = advance_cycle add_date (renewal_base now s.expires_at) s.billing_cyc
    rows ← statement λ d. (
      count (still_as_read s) d.services,
      record d { services = update (still_as_read s) (renewed s next) d.services },
    )
    raise_if (rows == 0) (conflict "服务状态已变更，请刷新后重试")
    pure next

  -- `renewInTx`
  unfoldable pub renew_in_tx : ℕ → ℕ → Bool → Time → Action Service
  unfolding load_renewable_service apply_renewal_tx create_renewal_invoice
  renew_in_tx user_id service_id debit now = do
    s ← load_renewable_service user_id service_id
    when (debit && ltb_ℤ (pos 0) s.price_cents) (
        adjust_balance user_id (pos 0 -ℤ s.price_cents) TxType.payment "service" s.id >>= λ _.
        pure tt)
    next ← apply_renewal_tx s now
    create_renewal_invoice user_id s now
    pure (renewed s next s)

  unfoldable pub settle_renewal : ℕ → ℕ → Time → Option ℕ → Action (Unit {0})
  unfolding load_renewable_service apply_renewal_tx mark_paid
  settle_renewal user_id invoice_id now none = raise (bad_request "该账单不是续费账单")
  settle_renewal user_id invoice_id now (some service_id) = do
    s ← load_renewable_service user_id service_id
    apply_renewal_tx s now
    rows ← mark_paid user_id invoice_id now
    raise_if (rows == 0) (conflict "账单状态已变更，请刷新后重试")

  -- `settleRenewalInvoiceTx`
  unfoldable pub settle_renewal_invoice_tx : ℕ → ℕ → Time → Action (Unit {0})
  unfolding settle_renewal find_invoice
  settle_renewal_invoice_tx user_id invoice_id now = do
    invoice ← find_invoice user_id invoice_id
    raise_if (not (is_unpaid invoice.status)) (conflict "账单当前无需支付")
    settle_renewal user_id invoice.id now (service_of invoice)
