-- ===== src/Change.antt =====
-- internal/service/service_change.go: a service is moved to another size.
--
-- `Numbers` is what the code takes of strconv and math, `Upstream` what it meets of the host: its answers, and
-- what other requests commit while a call is under way.
pub mod Reserve
pub mod Fenced
pub mod Retry
pub mod Ends
pub mod Returns
pub mod Options
pub mod Quote
pub mod Timed
pub mod Prorated
mod Tests
use levis.Base.{
  ℕ, ◌+◌, ◌-◌, ◌%◌, ◌*◌, ◌<◌, ltb, ◌==◌, Bool, true, false, not, ◌&&◌, ◌||◌, Option, none, some,
  List, [], ◌∷◌, String, if◌then◌else◌, ◌≡◌,
}
use levis.Base.Int.{ℤ, pos, negsuc, pos_part, neg_part, ◌*ℤ◌, ltb_ℤ, eqb_ℤ}
use levis.Base.Time.{Time}
use levis.Store.{
  Service, ChangeStatus, OptionMap, ServiceChange, TxType, Db, update, count, first, Error,
  conflict, not_found, Action, pure, raise_if, when, statement, select, transaction, ◌>>=◌, ◌>>◌,
}
use levis.Wallet.{adjust_balance}

-- strconv on integers and the float64 of a number of cores, whose thousandths the hosts count.
pub record Numbers : Type 1 where
  pub format_int : ℤ → String
  -- 0 on a text that is no number
  pub parse_int : String → ℤ
  pub Float : Type 0
  -- `float64(milli) / 1000` and `float64(n)`
  pub of_milli : ℤ → Float
  pub of_int : ℤ → Float
  -- `FormatFloat(v, 'f', -1, 64)` and `ParseFloat`
  pub format_float : Float → String
  pub parse_float : String → Float
  pub is_whole : Float → Bool
  -- `int32(math.Ceil(v))` and `int32(math.Round(v * 1000))`
  pub ceil : Float → ℤ
  pub round_milli : Float → ℤ

-- The int32 that an integer wraps around to.
unfoldable pub i32 : ℤ → ℤ
i32 z =
    let m = (pos_part z + (4294967296 - neg_part z % 4294967296)) % 4294967296 in
    if ltb m 2147483648 then pos m else negsuc (4294967295 - m)

-- `HostResources`
pub record Resources : Type 0 where
  pub cpu : ℤ
  pub cpu_milli : ℤ
  pub memory_mb : ℤ
  pub disk_gb : ℤ
  pub bandwidth_mbps : ℤ
  pub traffic_gb : ℤ

module _ (numbers : Numbers) where
  open numbers use {
    format_int, parse_int, Float, of_milli, of_int, format_float, parse_float, is_whole, ceil,
    round_milli,
  }

  unfoldable pub cores : Resources → Float
  cores r = if ltb_ℤ (pos 0) r.cpu_milli then of_milli r.cpu_milli else of_int r.cpu

  -- `resourceOptions`
  unfoldable pub resource_options : Resources → OptionMap
  resource_options r = record {
    cpu = format_float (cores r);
    memory_mb = format_int r.memory_mb;
    disk_gb = format_int r.disk_gb;
    bandwidth_mbps = format_int r.bandwidth_mbps;
    traffic_gb = format_int r.traffic_gb;
  }

  -- `optionResources`
  unfoldable pub option_resources : OptionMap → Resources
  option_resources o =
      let cpu = parse_float o.cpu in
      record {
        cpu = ceil cpu;
        cpu_milli = if is_whole cpu then pos 0 else round_milli cpu;
        memory_mb = parse_int o.memory_mb;
        disk_gb = parse_int o.disk_gb;
        bandwidth_mbps = parse_int o.bandwidth_mbps;
        traffic_gb = parse_int o.traffic_gb;
      }

  -- The thousandths of a core that `resourcesEqual` compares.
  unfoldable pub milli_cores : Resources → ℤ
  milli_cores r = if ltb_ℤ (pos 0) r.cpu_milli then r.cpu_milli else i32 (r.cpu *ℤ pos 1000)

  -- `resourcesEqual` for resources that are there
  unfoldable pub resources_equal : Resources → Resources → Bool
  resources_equal a b =
      eqb_ℤ (milli_cores a) (milli_cores b)
      && eqb_ℤ a.memory_mb b.memory_mb
      && eqb_ℤ a.disk_gb b.disk_gb
      && eqb_ℤ a.bandwidth_mbps b.bandwidth_mbps
      && eqb_ℤ a.traffic_gb b.traffic_gb

abbrev pub is_applying : ChangeStatus → Bool
is_applying ChangeStatus.applying = true
is_applying _ = false

abbrev pub is_decided : ChangeStatus → Bool
is_decided ChangeStatus.applied = true
is_decided ChangeStatus.failed = true
is_decided _ = false

abbrev pub change_status_code : ChangeStatus → ℕ
change_status_code ChangeStatus.reserved = 0
change_status_code ChangeStatus.applying = 1
change_status_code ChangeStatus.uncertain = 2
change_status_code ChangeStatus.applied = 3
change_status_code ChangeStatus.failed = 4

-- A write of a row sets `updated_at`.
unfoldable pub set_status : (ServiceChange → Bool) → ChangeStatus → Time → Action ℕ
set_status p status now = statement λ d. (
  count p d.changes,
  record d { changes = update p (λ c. record c { status = status; updated_at = now }) d.changes },
)

abbrev pub points_to : Option ℕ → ℕ → Bool
points_to none id = false
points_to (some i) id = i == id

-- The reservation of the service is dropped; a change that was applied moves its product and price.
unfoldable pub release_service : ServiceChange → Bool → Action ℕ
release_service row applied = statement λ d. (
  count (λ (s : Service). s.id == row.service_id && points_to s.change_pending_id row.id)
      d.services,
  record d {
    services =
        update (λ (s : Service). s.id == row.service_id && points_to s.change_pending_id row.id)
          (λ s. record s {
            change_pending_id = none;
            product_id = if applied then row.product_id else s.product_id;
            price_cents = if applied then row.price_cents else s.price_cents;
          })
          d.services;
  },
)

-- What goes back to the user: the difference of a smaller size, or all that was reserved.
abbrev pub amount_back : ServiceChange → Bool → ℤ
amount_back row applied = if applied then row.credit_cents else row.charge_cents

unfoldable pub pay_back : ServiceChange → Bool → Action (Unit {0})
pay_back row applied = when (ltb_ℤ (pos 0) (amount_back row applied)) (
    adjust_balance row.user_id (amount_back row applied) TxType.refund "service_change" row.id
    >>= λ _. pure tt)

unfoldable pub finish_body : ServiceChange → Bool → Time → Action (Unit {0})
unfolding set_status release_service pay_back
finish_body row applied now = do
  rows ←
      set_status (λ c. c.id == row.id && is_applying c.status)
        (if applied then ChangeStatus.applied else ChangeStatus.failed) now
  raise_if (not (rows == 1)) (conflict "改配状态已变化")
  services ← release_service row applied
  raise_if (not (services == 1)) (conflict "服务预留已变化")
  pay_back row applied

-- `finishChange`
unfoldable pub finish_change : ServiceChange → Bool → Time → Action (Unit {0})
unfolding finish_body
finish_change row applied now = transaction (finish_body row applied now)
