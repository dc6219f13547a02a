-- ===== src/LoginLimit.antt =====
-- internal/loginlimit/loginlimit.go: the in-memory limiter of failed logins, by account and by
-- source address. `fold` stands for `strings.ToLower(strings.TrimSpace(s))` of the standard library.
mod Lock
pub mod Window
pub mod Sweep
pub mod Account
pub mod Valid
mod Tests
use levis.Base.{
  ℕ, suc, ◌+◌, ◌-◌, ◌*◌, ◌^◌, String, Bool, ◌&&◌, ◌||◌, not, Option, none, some, List, [], ◌∷◌,
  ◌++◌, ltb, leb, if◌then◌else◌, length, drop, keep, Dict, lookup, insert, erase, keep_values,
  string_eq,
}
use levis.Base.Int.{ℤ, pos, pos_part, ltb_ℤ, leb_ℤ, i64}
use levis.Base.Time.{Time, zero_time, minute, hour, time_sub, after}
use Prim.Native.String.{◌++◌ as append}

abbrev pub account_fail_limit : ℕ
account_fail_limit = 5

abbrev pub account_window : ℕ
account_window = hour

abbrev pub account_lock_base : ℕ
account_lock_base = 15 * minute

abbrev pub ip_fail_limit : ℕ
ip_fail_limit = 50

abbrev pub ip_window : ℕ
ip_window = hour

abbrev pub ip_lock : ℕ
ip_lock = 15 * minute

abbrev pub max_lock : ℕ
max_lock = 24 * hour

abbrev pub record_ttl : ℕ
record_ttl = 24 * hour

abbrev pub max_records : ℕ
max_records = 100000

pub record AccountRecord : Type 0 where
  pub failures : ℕ
  pub locked_until : Time
  pub last_failure : Time

pub record SourceRecord : Type 0 where
  pub failures : List Time
  pub locked_until : Time
  pub last_failure : Time

-- The two maps; the clock is an argument of each method.
pub record Tracker : Type 0 where
  pub accounts : Dict String AccountRecord
  pub sources : Dict String SourceRecord

unfoldable pub new_tracker : Tracker
new_tracker = record { accounts = []; sources = [] }

-- `r.lockedUntil`, of a record that may be absent
abbrev pub account_locked_until : Option AccountRecord → Time
account_locked_until none = zero_time
account_locked_until (some r) = r.locked_until

abbrev pub source_locked_until : Option SourceRecord → Time
source_locked_until none = zero_time
source_locked_until (some s) = s.locked_until

-- `if d := lockedUntil.Sub(now); d > wait { wait = d }`
longer_wait : Time → Time → ℤ → ℤ
longer_wait until now wait = let d = time_sub until now in if ltb_ℤ wait d then d else wait

account_wait : Option AccountRecord → Time → ℤ → ℤ
unfolding longer_wait
account_wait none now wait = wait
account_wait (some r) now wait = longer_wait r.locked_until now wait

source_wait : Option SourceRecord → Time → ℤ → ℤ
unfolding longer_wait
source_wait none now wait = wait
source_wait (some s) now wait = longer_wait s.locked_until now wait

-- `accountLockBase << shift` in int64, and its overflow guard
unfoldable pub shifted_lock : ℕ → ℕ
shifted_lock shift =
    let lock = i64 (pos (account_lock_base * 2 ^ shift)) in
    if leb_ℤ lock (pos 0) || ltb_ℤ (pos max_lock) lock then max_lock else pos_part lock

-- The lock after `failures` failures.
unfoldable pub lock_duration : ℕ → ℕ
unfolding shifted_lock
lock_duration failures = shifted_lock (failures - account_fail_limit)

-- The part of `recordAccountFailure` that updates the record.
unfoldable pub fail_account : AccountRecord → Time → AccountRecord
fail_account r now =
    let stale = ltb_ℤ (pos account_window) (time_sub now r.last_failure) in
    let failures = (if stale then 0 else r.failures) + 1 in
    let until = now + lock_duration failures in
    record {
      failures = failures;
      locked_until =
          if leb account_fail_limit failures && after until r.locked_until
          then until
          else r.locked_until;
      last_failure = now;
    }

-- The part of `recordSourceFailure` that updates the record.
unfoldable pub fail_source : SourceRecord → Time → SourceRecord
fail_source s now =
    let window = keep (λ ts. leb_ℤ (time_sub now ts) (pos ip_window)) s.failures ++ now ∷ [] in
    let recent =
      if ltb ip_fail_limit (length window)
      then drop (length window - ip_fail_limit) window
      else window in
    let until = now + ip_lock in
    record {
      failures = recent;
      locked_until =
          if leb ip_fail_limit (length recent) && after until s.locked_until
          then until
          else s.locked_until;
      last_failure = now;
    }

abbrev pub new_account : AccountRecord
new_account = record { failures = 0; locked_until = zero_time; last_failure = zero_time }

abbrev pub new_source : SourceRecord
new_source = record { failures = []; locked_until = zero_time; last_failure = zero_time }

-- The records that `sweepLocked` leaves.
unfoldable pub account_live : Time → AccountRecord → Bool
account_live now r =
    not (ltb_ℤ (pos record_ttl) (time_sub now r.last_failure) && after now r.locked_until)

unfoldable pub source_live : Time → SourceRecord → Bool
source_live now s =
    not (ltb_ℤ (pos ip_window) (time_sub now s.last_failure) && after now s.locked_until)

unfoldable pub sweep_locked : Time → Tracker → Tracker
sweep_locked now t = record {
  accounts = keep_values (account_live now) t.accounts;
  sources = keep_values (source_live now) t.sources;
}

-- The write to the account of `key`, once there is room for it.
unfoldable pub put_account : String → Time → AccountRecord → Tracker → Tracker
put_account key now r t = record t { accounts = insert key (fail_account r now) t.accounts }

-- `r == nil`: at the limit sweep, and give up if that does not help.
unfoldable pub record_new_account : String → Time → Tracker → Tracker
unfolding put_account sweep_locked
record_new_account key now t =
    if leb max_records (length t.accounts)
    then (let swept = sweep_locked now t in
        if leb max_records (length swept.accounts)
        then swept
        else put_account key now new_account swept)
    else put_account key now new_account t

record_found : Option AccountRecord → String → Time → Tracker → Tracker
unfolding put_account record_new_account
record_found none key now t = record_new_account key now t
record_found (some r) key now t = put_account key now r t

unfoldable pub record_account_failure : String → Time → Tracker → Tracker
unfolding record_found
record_account_failure key now t = record_found (lookup key t.accounts) key now t

abbrev pub found_source : Option SourceRecord → SourceRecord
found_source none = new_source
found_source (some s) = s

unfoldable pub record_source_failure : String → Time → Tracker → Tracker
record_source_failure ip now t = record t {
  sources = insert ip (fail_source (found_source (lookup ip t.sources)) now) t.sources;
}

module _ (fold : String → String) where
  unfoldable pub account_key : String → String → String
  account_key scope identifier = append scope (append "|" (fold identifier))

  -- `Check`: whether a login may be tried, and the wait that is left.
  unfoldable pub check : String → String → String → Time → Tracker → Bool × ℤ
  unfolding account_wait source_wait account_key
  check scope identifier ip now t =
      let wait = account_wait (lookup (account_key scope identifier) t.accounts) now (pos 0) in
      let wait' = source_wait (lookup ip t.sources) now wait in (leb_ℤ wait' (pos 0), wait')

  unfoldable pub record_failure : String → String → String → Time → Tracker → Tracker
  unfolding account_key record_account_failure record_source_failure
  record_failure scope identifier ip now t =
      record_source_failure ip now (record_account_failure (account_key scope identifier) now t)

  unfoldable pub record_success : String → String → Tracker → Tracker
  unfolding account_key
  record_success scope identifier t = record t {
    accounts = erase (account_key scope identifier) t.accounts;
  }
