-- ===== src/LoginLimit/Account.antt =====
-- internal/loginlimit/loginlimit.go: the failures of one account, and the lock that they bring.
use levis.Base.{
  ℕ, ◌+◌, ◌≤◌, ◌<◌, ◌-◌, ◌*◌, ◌^◌, min, ◌≡◌, refl, String, false, some, List, [], ◌∷◌, arith,
  lookup, length, lookup-insert, string_eq, Bool-cases, inl, inr,
}
use levis.Base.Int.{pos, ltb_ℤ}
use levis.Base.Time.{Time, time_sub}
use levis.LoginLimit.{
  AccountRecord, Tracker, account_fail_limit, account_lock_base, account_window, max_lock,
  lock_duration, fail_account, put_account, record_failure, account_key, check,
}
use levis.LoginLimit.Lock.{shifted_lock_lem}
use levis.LoginLimit.Sweep.{check_iff}

-- The lock after `failures` failures in a row.
pub lock_duration_lem :
    (failures : ℕ)
    → lock_duration failures
      ≡ min (account_lock_base * 2 ^ (failures - account_fail_limit)) max_lock
unfolding lock_duration
lock_duration_lem failures = shifted_lock_lem (failures - account_fail_limit)

-- A failure never shortens a lock.
pub fail_account_later :
    (r : AccountRecord) (now : Time) → r.locked_until ≤ (fail_account r now).locked_until
unfolding fail_account
fail_account_later r now = ground arith

-- Failures at the given moments, the first one first.
unfoldable pub fail_all : AccountRecord → List Time → AccountRecord
fail_all r [] = r
fail_all r (now ∷ later) = fail_all (fail_account r now) later

abbrev pub last_of : Time → List Time → Time
last_of t [] = t
last_of t (u ∷ ts) = last_of u ts

-- Each moment is at most the window after the one before it.
abbrev pub IsBurst : Time → List Time → Type 0
IsBurst t [] = Unit
IsBurst t (u ∷ ts) = (t ≤ u) × (u ≤ t + account_window) × IsBurst u ts

not_stale :
    (now last : Time)
    → now ≤ last + account_window
    → ltb_ℤ (pos account_window) (time_sub now last) ≡ false
not_stale now last h = ground arith

fail_account_burst :
    (r : AccountRecord) (now : Time)
    → now ≤ r.last_failure + account_window
    → ((fail_account r now).failures ≡ r.failures + 1)
      × ((fail_account r now).last_failure ≡ now)
      × (account_fail_limit ≤ r.failures + 1
          → now + lock_duration (r.failures + 1) ≤ (fail_account r now).locked_until)
unfolding fail_account
fail_account_burst r now h = rw (not_stale now r.last_failure h) (refl, refl, λ five. ground arith)

-- After a burst the count has grown by the failures, and the lock runs from the last of them.
fail_all_burst :
    (r : AccountRecord) (now : Time) (later : List Time)
    → IsBurst r.last_failure (now ∷ later)
    → let s = fail_all r (now ∷ later) in
      (s.failures ≡ r.failures + 1 + length later)
      × (account_fail_limit ≤ s.failures
          → last_of now later + lock_duration s.failures ≤ s.locked_until)
unfolding fail_all
fail_all_burst r now [] h =
    let (count, last, lock) = fail_account_burst r now h.1 in
    (omega (arith, count), λ five. rw count (lock (omega (arith, five, count))))
fail_all_burst r now (u ∷ later) h =
    let (count, last, lock) = fail_account_burst r now h.1 in
    let rest = fail_all_burst (fail_account r now) u later (rw last h.2) in
    (omega (arith, rest.0, count), rest.1)

-- `RecordFailure` at each of the given moments.
unfoldable pub record_failures :
    (String → String) → String → String → String → List Time → Tracker → Tracker
record_failures fold scope identifier ip [] t = t
record_failures fold scope identifier ip (now ∷ later) t =
    record_failures fold scope identifier ip later (record_failure fold scope identifier ip now t)

lookup-record_failure :
    (fold : String → String) (scope identifier ip : String) (now : Time) (r : AccountRecord)
    (t : Tracker)
    → lookup (account_key fold scope identifier) t.accounts ≡ some r
    → lookup
        (account_key fold scope identifier)
        (record_failure fold scope identifier ip now t).accounts
      ≡ some (fail_account r now)
unfolding record_failure put_account
lookup-record_failure fold scope identifier ip now r t h =
    let key = account_key fold scope identifier in
    ground
      (arith, h, lookup-insert key key (fail_account r now) t.accounts, string_eq.beq_iff key key)

lookup-record_failures :
    (fold : String → String) (scope identifier ip : String) (ts : List Time) (r : AccountRecord)
    (t : Tracker)
    → lookup (account_key fold scope identifier) t.accounts ≡ some r
    → lookup
        (account_key fold scope identifier)
        (record_failures fold scope identifier ip ts t).accounts
      ≡ some (fail_all r ts)
unfolding record_failures fail_all
lookup-record_failures fold scope identifier ip [] r t h = h
lookup-record_failures fold scope identifier ip (now ∷ ts) r t h =
    lookup-record_failures fold scope identifier ip ts (fail_account r now)
      (record_failure fold scope identifier ip now t)
      (lookup-record_failure fold scope identifier ip now r t h)

-- Failures on a known account, each within the window of the one before, lock the account once five
-- are counted: until the base lock, doubled for each failure past the fifth and capped at a day, has
-- passed since the last failure, `Check` refuses a login on that account from every address.
pub burst-check_refused :
    (fold : String → String) (scope identifier ip other : String) (now : Time) (later : List Time)
    (when : Time) (r : AccountRecord) (t : Tracker)
    → lookup (account_key fold scope identifier) t.accounts ≡ some r
    → IsBurst r.last_failure (now ∷ later)
    → account_fail_limit ≤ r.failures + 1 + length later
    → when
      < last_of now later
        + min
            (account_lock_base * 2 ^ (r.failures + 1 + length later - account_fail_limit))
            max_lock
    → (check fold scope identifier other when
        (record_failures fold scope identifier ip (now ∷ later) t)).0
      ≡ false
burst-check_refused fold scope identifier ip other now later when r t known burst five soon =
    let s = fail_all r (now ∷ later) in
    let (count, lock) = fail_all_burst r now later burst in
    let found = lookup-record_failures fold scope identifier ip (now ∷ later) r t known in
    let locked = rw count at (lock (omega (arith, count, five))) in
    let after = record_failures fold scope identifier ip (now ∷ later) t in
    elim (Bool-cases (check fold scope identifier other when after).0) [
      | inl allowed ↦ absurd (
          omega (
            arith,
            locked,
            lock_duration_lem (r.failures + 1 + length later),
            rw found at ((check_iff fold scope identifier other when after).0 allowed).0,
          ))
      | inr refused ↦ refused
    ]
