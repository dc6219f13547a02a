-- ===== src/Change/Tests.antt =====
-- A machine of one core and a half that its user moves to another size.
use levis.Base.{
  ℕ, zero, suc, ◌+◌, ◌-◌, ◌*◌, ◌/◌, ◌%◌, ◌≤◌, ◌==◌, ◌≡◌, ◌⊎◌, refl, ap, Bool, true, false, Option,
  none, some, [], ◌∷◌, String, if◌then◌else◌, arith,
}
use levis.Base.Int.{ℤ, pos, negsuc, pos_part, ◌-ℤ◌, ◌*ℤ◌}
use levis.Base.Time.{Time}
use levis.Store.{
  Service, ServiceStatus, Cycle, ChangeStatus, ServiceChange, RefundStatus, World, ok, ◌>>=◌,
  statement, checked, raise_if, pure, transaction, when, select,
}
use levis.Store.Samples.{sample_db, calm}
use levis.Wallet.{adjust_balance}
use levis.Billing.{renew_in_tx}
use levis.Change.{Numbers, Resources, resource_options, option_resources, resources_equal}
use levis.Change.Options.{IsFaithful, resources_equal-option_resources}
use levis.Change.Quote.{ChangeQuote, billing_start, cycle_months, billing_start-ends}
use levis.Change.Prorated.{Prorated}
use levis.Change.Reserve.{Reservation, reserve_change}
use levis.Change.Fenced.{IsError, renew_in_tx-reserve_change}
use levis.Change.Retry.{Upstream, showing, resized}
use levis.Change.Ends.{given_back, open_rows}
use levis.Change.Returns.{Attempt, retry_all, given_back-retry_all}
use Prim.Native.Char.{code}

-- Texts that hold a number in strokes.
strokes : ℕ → String
strokes zero = ""
strokes (suc n) = String.◌∷◌ "i" (strokes n)

size : String → ℕ
size String.[] = 0
size (String.◌∷◌ c s) = suc (size s)

size-strokes : (n : ℕ) → size (strokes n) ≡ n
unfolding size strokes
size-strokes zero = refl
size-strokes (suc n) = ap suc (size-strokes n)

unfoldable write : ℤ → String
unfolding strokes
write (pos n) = String.◌∷◌ "+" (strokes n)
write (negsuc n) = String.◌∷◌ "-" (strokes n)

unfoldable read : String → ℤ
unfolding size
read String.[] = pos 0
read (String.◌∷◌ c s) = if code c == 43 then pos (size s) else negsuc (size s)

read-write : (z : ℤ) → read (write z) ≡ z
unfolding read write
read-write (pos n) = ap pos (size-strokes n)
read-write (negsuc n) = ap negsuc (size-strokes n)

abbrev up : ℤ → ℤ
up (pos m) = pos ((m + 999) / 1000)
up (negsuc m) = pos 0

-- A number of cores as the number of its thousandths; whole numbers are apart, with all their digits.
data Cores : Type 0 where
  whole milli : ℤ → Cores

abbrev is_round : Cores → Bool
is_round (whole z) = true
is_round (milli z) = pos_part z % 1000 == 0

abbrev top : Cores → ℤ
top (whole z) = z
top (milli z) = up z

abbrev in_milli : Cores → ℤ
in_milli (whole z) = z *ℤ pos 1000
in_milli (milli z) = z

unfoldable write_cores : Cores → String
write_cores (whole z) = String.◌∷◌ "w" (write z)
write_cores (milli z) = String.◌∷◌ "m" (write z)

unfoldable read_cores : String → Cores
read_cores String.[] = whole (pos 0)
read_cores (String.◌∷◌ c s) = if code c == 119 then whole (read s) else milli (read s)

read-write_cores : (f : Cores) → read_cores (write_cores f) ≡ f
unfolding read_cores write_cores
read-write_cores (whole z) = ap whole (read-write z)
read-write_cores (milli z) = ap milli (read-write z)

abbrev numbers : Numbers
numbers = record {
  format_int = write;
  parse_int = read;
  Float = Cores;
  of_milli = milli;
  of_int = whole;
  format_float = write_cores;
  parse_float = read_cores;
  is_whole = is_round;
  ceil = top;
  round_milli = in_milli;
}

rounds_up : (m : ℕ) → m % 1000 ≡ 0 → (m + 999) / 1000 ≡ m / 1000
rounds_up m h = omega arith

numbers-IsFaithful : IsFaithful numbers
numbers-IsFaithful = record {
  read_int = read-write;
  read_float = read-write_cores;
  int_whole = λ z. refl;
  int_ceil = λ z. refl;
  milli_whole = λ m fits. refl;
  milli_ceil = λ m fits even. ap pos (rounds_up m even);
  milli_round = λ m fits. refl;
}

abbrev small : Resources
small = record {
  cpu = pos 2;
  cpu_milli = pos 1500;
  memory_mb = pos 512;
  disk_gb = pos 10;
  bandwidth_mbps = pos 100;
  traffic_gb = pos 0;
}

resources_equal-option_resources_example :
    resources_equal numbers (option_resources numbers (resource_options numbers small)) small ≡ true
resources_equal-option_resources_example =
    resources_equal-option_resources numbers numbers-IsFaithful small (omega arith)

-- Months of thirty days, in seconds.
abbrev back : ℕ → Time → Time
back months t = t - months * 2592000000000000

abbrev day : ℕ
day = 86400000000000

billing_start-ends_example :
    (t : Time) × (billing_start back (100 * day) (145 * day) Cycle.monthly ≡ ok (some t))
    × (t ≤ 145 * day)
    × ((t ≤ 100 * day) ⊎ (t ≤ back (cycle_months Cycle.monthly) t))
unfolding cycle_months
billing_start-ends_example = billing_start-ends back (100 * day) (145 * day) Cycle.monthly refl

-- Forty-five days are left, of months of thirty.
abbrev dearer : ChangeQuote
dearer = record {
  charge_cents = pos 150;
  credit_cents = pos 0;
  remaining_seconds = pos 3888000;
  total_seconds = pos 5184000;
}

abbrev vm : Service
vm = record {
  id = 50;
  user_id = 2;
  order_id = 20;
  status = ServiceStatus.active;
  product_id = 30;
  name = "vm";
  billing_cyc = Cycle.monthly;
  price_cents = pos 200;
  change_pending_id = none;
  next_due_at = some (145 * day);
  expires_at = some (145 * day);
  upstream_plugin_id = "kvm";
  upstream_host_id = "h";
  traffic_extra_gb = pos 0;
  suspend_reason = "";
  suspended_at = none;
  auto_renew = false;
  resume_pending = false;
  refund_suspend_pending = false;
  traffic_used_bytes = pos 0;
  traffic_last_rx_bytes = pos 0;
  traffic_last_tx_bytes = pos 0;
  provision_error = "";
}

abbrev shop : World
shop = calm (record (sample_db RefundStatus.pending) { services = vm ∷ [] })

abbrev larger : Reservation
larger = record {
  product_id = 31;
  idempotency_key = "k";
  operation_id = "CHG1";
  charge_cents = pos 150;
  credit_cents = pos 0;
  price_cents = pos 300;
  options = resource_options numbers small;
  previous_resources = resource_options numbers small;
}

abbrev no_scan : String → Option ℤ
no_scan text = none

abbrev reserved_row : ServiceChange
reserved_row = record {
  id = 100;
  user_id = 2;
  service_id = 50;
  product_id = 31;
  previous_product_id = 30;
  idempotency_key = "k";
  operation_id = "CHG1";
  status = ChangeStatus.reserved;
  charge_cents = pos 150;
  credit_cents = pos 0;
  price_cents = pos 300;
  options = resource_options numbers small;
  previous_resources = resource_options numbers small;
  updated_at = 100 * day;
}

was_reserved : (reserve_change no_scan 2 vm larger (100 * day) shop).0 ≡ ok reserved_row
unfolding reserve_change transaction ◌>>=◌ statement checked raise_if pure when select
    adjust_balance ◌-ℤ◌
was_reserved = refl

renew_in_tx-reserve_change_example : IsError (
    renew_in_tx
      (λ y m t. t + m * day)
      2
      50
      true
      (101 * day)
      (reserve_change no_scan 2 vm larger (100 * day) shop).1)
renew_in_tx-reserve_change_example =
    renew_in_tx-reserve_change no_scan (λ y m t. t + m * day) 2 vm larger (100 * day) (101 * day) 2
      true reserved_row shop (λ k. ground arith) was_reserved

-- The host answers that it was resized and shows its sizes; nobody else is at work.
abbrev quiet : Upstream
quiet = record {
  connected = true;
  clock = λ k. 101 * day;
  during = λ k d. d;
  host = λ k. showing (record { id = "h"; is_off = true; resources = small });
  resize = λ k. resized;
}

abbrev attempt : Attempt
attempt = record { env = quiet; user_id = 2; service_id = 50; change_id = 100 }

abbrev waiting : World
waiting = calm (record (sample_db RefundStatus.pending) {
  services = record vm { change_pending_id = some 100 } ∷ [];
  changes = reserved_row ∷ [];
})

given_back-retry_all_example :
    given_back 100 (retry_all numbers (attempt ∷ attempt ∷ []) waiting).db.transactions
    ≤ given_back 100 waiting.db.transactions + open_rows 100 waiting.db.changes
given_back-retry_all_example =
    given_back-retry_all numbers 100 (attempt ∷ attempt ∷ []) waiting
      ((λ k n d h. h), ((λ k n d h. h), tt))
