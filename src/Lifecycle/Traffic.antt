-- ===== src/Lifecycle/Traffic.antt =====
-- internal/service/lifecycle.go: the traffic of the hosts, and the suspension of a service that used up its own.
use levis.Base.{
  ℕ, ◌+◌, ◌==◌, Bool, not, ◌&&◌, Option, none, some, List, [], ◌∷◌, if◌then◌else◌, keep,
}
use levis.Base.Int.{ℤ, pos, ◌+ℤ◌, ◌-ℤ◌, ◌*ℤ◌, ltb_ℤ, leb_ℤ, i64}
use levis.Store.{
  OrderItem, Service, HostAction, update, other, Action, pure, raise, raise_if, query, execute_sql,
  ◌>>=◌, ◌>>◌,
}
use levis.Billing.{is_active, needs_upstream_renew}
use levis.Lifecycle.{Environment, or_else, interface_config, try_host, mark_exceeded, read_clock}

abbrev pub bytes_per_gib : ℤ
bytes_per_gib = pos 1073741824

-- One counter: what it grew by, or all of it after it went back.
unfoldable pub growth : ℤ → ℤ → ℤ
growth prev cur = if leb_ℤ prev cur then i64 (cur -ℤ prev) else cur

-- `accumulateTraffic`: the bytes that were used; the counters are kept as they are read.
unfoldable pub accumulate_traffic : ℤ → ℤ → ℤ → ℤ → ℤ → ℤ × ℤ × ℤ
unfolding growth
accumulate_traffic used prev_rx prev_tx cur_rx cur_tx =
    (i64 (i64 (used +ℤ growth prev_rx cur_rx) +ℤ growth prev_tx cur_tx), cur_rx, cur_tx)

-- The options of the order that are numbers above zero.
unfoldable pub add_options : ℤ → List OrderItem → ℤ
add_options total [] = total
add_options total (i ∷ items) = add_options (add_option total i.traffic_gb) items
  where
    add_option : ℤ → Option ℤ → ℤ
    add_option total none = total
    add_option total (some v) = if ltb_ℤ (pos 0) v then i64 (total +ℤ v) else total

-- `TrafficQuotaTotalGB`
unfoldable pub traffic_quota_total_gb : Service → Action ℤ
unfolding or_else add_options
traffic_quota_total_gb s =
    or_else [] (
      query λ d.
        keep (λ (i : OrderItem). i.order_id == s.order_id && i.product_id == s.product_id)
          d.order_items)
    >>= λ items. pure (add_options s.traffic_extra_gb items)

-- Whether the quota, in GB, is used up; none is no limit.
unfoldable pub is_exceeded : ℤ → ℤ → Bool
is_exceeded quota used = ltb_ℤ (pos 0) quota && leb_ℤ (i64 (quota *ℤ bytes_per_gib)) used

unfoldable pub save_sample : ℕ → ℤ × ℤ × ℤ → Action (Unit {0})
save_sample id (used, rx, tx) = execute_sql λ d. record d {
  services =
      update (λ (s : Service). s.id == id)
        (λ s. record s {
          traffic_used_bytes = used;
          traffic_last_rx_bytes = rx;
          traffic_last_tx_bytes = tx;
        })
        d.services;
}

module _ (env : Environment) where
  unfoldable pub read_metrics : Action (Option (ℤ × ℤ))
  read_metrics w =
      pure (env.metrics w.step) (record w { step = w.step + 1; db = env.during w.step w.db })

  unfoldable pub reported : Option (ℤ × ℤ) → Action (ℤ × ℤ)
  reported none = raise (other "上游未返回监控数据")
  reported (some counters) = pure counters

  -- `fetchMetrics`
  unfoldable pub fetch_metrics : Service → Action (ℤ × ℤ)
  unfolding read_metrics reported interface_config
  fetch_metrics s = do
    raise_if (not env.connected) (other "上游插件不可用")
    interface_config s
    metrics ← read_metrics
    reported metrics

  unfoldable pub save_counters : Service → ℤ × ℤ → Action ℤ
  unfolding accumulate_traffic save_sample
  save_counters s (rx, tx) =
      let sample =
        accumulate_traffic s.traffic_used_bytes s.traffic_last_rx_bytes s.traffic_last_tx_bytes rx
          tx in
      save_sample s.id sample >>= λ _. pure sample.0

  -- `sampleTraffic`: the bytes used, if they could be read and written
  unfoldable pub sample_traffic : Service → Action (Option ℤ)
  unfolding fetch_metrics save_counters or_else
  sample_traffic s =
      or_else none
        (fetch_metrics s >>= λ counters. (save_counters s counters >>= λ used. pure (some used)))

  -- The host was suspended: a payment that came first starts it again.
  unfoldable pub record_exceeded : Service → Action (Unit {0})
  unfolding try_host
  record_exceeded s = do
    now ← read_clock env
    marked ← mark_exceeded s now
    if marked then pure tt else (try_host env HostAction.unsuspend s >>= λ _. pure tt)

  unfoldable pub suspend_exceeded : ℤ → Service → Option ℤ → Action (Unit {0})
  unfolding is_exceeded record_exceeded
  suspend_exceeded quota s none = pure tt
  suspend_exceeded quota s (some used) =
      let suspending = try_host env HostAction.suspend s >>= λ stopped.
      if stopped then record_exceeded s else pure tt in
      if is_exceeded quota used then suspending else pure tt

  unfoldable pub enforce_each : List Service → Action (Unit {0})
  unfolding suspend_exceeded sample_traffic traffic_quota_total_gb
  enforce_each [] = pure tt
  enforce_each (s ∷ rest) = do
    quota ← traffic_quota_total_gb s
    used ← sample_traffic s
    suspend_exceeded quota s used
    enforce_each rest

  -- `enforceTraffic`
  unfoldable pub enforce_traffic : Action (Unit {0})
  unfolding enforce_each
  enforce_traffic =
      let listed =
        query (λ d. keep (λ s. is_active s.status && needs_upstream_renew s) d.services) >>= λ rows.
        enforce_each rows in
      if env.connected then listed else pure tt
