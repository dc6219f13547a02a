-- ===== src/Lifecycle/Tests.antt =====
-- A service at its end, while its owner renews it.
use levis.Base.{ℕ, ◌+◌, ◌*◌, ◌≡◌, refl, Bool, true, false, none, some, List, [], ◌∷◌, arith}
use levis.Base.Int.{pos, leb_ℤ}
use levis.Base.Time.{Time, hour}
use levis.Store.{Service, ServiceStatus, Cycle, RefundStatus, Db, transaction}
use levis.Store.Samples.{sample_db, calm}
use levis.Billing.{renew_in_tx}
use levis.Lifecycle.{Environment, has_reason}
use levis.Lifecycle.Expiry.{enforce_expiry, terminate_enabled_setting}
use levis.Lifecycle.Lawful.{IsLawful, row_ok}
use levis.Lifecycle.Rows.{All}
use levis.Lifecycle.Purges.{enforce_expiry-IsLawful}
use levis.Lifecycle.Renewals.{renew_in_tx-IsLawful}
use levis.Lifecycle.Counters.{HostEvent, received, sent, restarted, sampled, start, run, used-run}

abbrev add_date : ℕ → ℕ → Time → Time
add_date years months t = t + (years * 365 + months * 30) * 24 * hour

abbrev late_vm : Service
late_vm = record {
  id = 50;
  user_id = 2;
  order_id = 20;
  status = ServiceStatus.suspended;
  product_id = 30;
  name = "vm";
  billing_cyc = Cycle.monthly;
  price_cents = pos 200;
  change_pending_id = none;
  next_due_at = some (100 * hour);
  expires_at = some (100 * hour);
  upstream_plugin_id = "kvm";
  upstream_host_id = "h";
  traffic_extra_gb = pos 0;
  suspend_reason = "expired";
  suspended_at = some (101 * hour);
  auto_renew = false;
  resume_pending = false;
  refund_suspend_pending = false;
  traffic_used_bytes = pos 0;
  traffic_last_rx_bytes = pos 0;
  traffic_last_tx_bytes = pos 0;
  provision_error = "";
}

abbrev late_db : Db
late_db = record (sample_db RefundStatus.pending) {
  services = late_vm ∷ [];
  lifecycle_terminate_enabled = some "1";
}

-- During each call the owner tries to renew.
abbrev racing : Environment
racing = record {
  connected = true;
  clock = λ _. 200 * hour;
  during = λ k d. (transaction (renew_in_tx add_date 2 50 true (200 * hour)) (calm d)).1.db;
  failure = λ _. none;
  metrics = λ _. none;
}

abbrev none_gone : ℕ → Bool
none_gone k = false

late_rows : All (row_ok (200 * hour) none_gone) late_db.services
unfolding has_reason
late_rows = (refl, tt)

late_db-IsLawful : IsLawful (200 * hour) none_gone late_db
late_db-IsLawful = record { unique = λ k. ground arith; rows = late_rows; calls = tt }

enforce_expiry-IsLawful_example :
    IsLawful
      (200 * hour)
      none_gone
      (enforce_expiry racing (some terminate_enabled_setting) (calm late_db)).1.db
enforce_expiry-IsLawful_example =
    enforce_expiry-IsLawful racing none_gone (calm late_db)
      (λ k d h.
        (renew_in_tx-IsLawful (200 * hour) none_gone add_date 2 50 true (200 * hour)).keeps (calm d)
          h)
      late_db-IsLawful

abbrev history : List HostEvent
history = received 700 ∷ sampled ∷ sent 20 ∷ restarted ∷ received 30 ∷ sampled ∷ []

used-run_example : leb_ℤ (run history start).used (pos (run history start).total) ≡ true
used-run_example = used-run history (omega arith)
