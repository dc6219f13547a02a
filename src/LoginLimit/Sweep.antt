-- ===== src/LoginLimit/Sweep.antt =====
-- internal/loginlimit/loginlimit.go: what `Check` answers, before and after a sweep of stale records
-- or a success.
use levis.Base.{
  ◌≤◌, ◌≡◌, ◌↔◌, ◌≢◌, String, true, Option, arith, lookup, IsMap, retain, lookup-keep_values,
  lookup-erase, string_eq,
}
use levis.Base.Int.{ℤ, pos, negsuc, neg_part}
use levis.Base.Time.{Time}
use levis.LoginLimit.{
  AccountRecord, SourceRecord, Tracker, account_locked_until, source_locked_until, account_wait,
  source_wait, account_live, source_live, sweep_locked, account_key, check, record_success,
}

-- A login may be tried exactly when neither the account's lock nor the source's lock is in force.
pub check_iff :
    (fold : String → String) (scope identifier ip : String) (now : Time) (t : Tracker)
    → ((check fold scope identifier ip now t).0 ≡ true) ↔ (
        (account_locked_until (lookup (account_key fold scope identifier) t.accounts) ≤ now)
        × (source_locked_until (lookup ip t.sources) ≤ now))
unfolding check
check_iff fold scope identifier ip now t = ground arith

account_wait-retain :
    (o : Option AccountRecord) (now later : Time)
    → now ≤ later
    → account_wait (retain (account_live now) o) later (pos 0) ≡ account_wait o later (pos 0)
unfolding account_wait account_live
account_wait-retain o now later h = ground arith

source_wait-retain :
    (o : Option SourceRecord) (now later : Time) (wait : ℤ)
    → now ≤ later
    → neg_part wait ≡ 0
    → source_wait (retain (source_live now) o) later wait ≡ source_wait o later wait
unfolding source_wait source_live
source_wait-retain o now later (pos n) h p = ground arith
source_wait-retain o now later (negsuc n) h p = absurd (omega (arith, p))

account_wait_nonneg :
    (o : Option AccountRecord) (now : Time) → neg_part (account_wait o now (pos 0)) ≡ 0
unfolding account_wait
account_wait_nonneg o now = ground arith

-- A sweep never changes an answer: at any later moment `Check` gives what it gives without the sweep,
-- the wait included.
pub check-sweep_locked :
    (fold : String → String) (scope identifier ip : String) (now later : Time) (t : Tracker)
    → IsMap t.accounts
    → IsMap t.sources
    → now ≤ later
    → check fold scope identifier ip later (sweep_locked now t)
      ≡ check fold scope identifier ip later t
unfolding check sweep_locked
check-sweep_locked fold scope identifier ip now later t ha hs h =
    let key = account_key fold scope identifier in
    rw (
      lookup-keep_values key (account_live now) t.accounts ha,
      lookup-keep_values ip (source_live now) t.sources hs,
      account_wait-retain (lookup key t.accounts) now later h,
      source_wait-retain (lookup ip t.sources) now later _ h
          (account_wait_nonneg (lookup key t.accounts) later),
    )

-- After a success the account holds no lock, whatever its history: a login may be tried exactly when
-- the source is not locked. A success leaves the records of the sources as they were.
pub check-record_success :
    (fold : String → String) (scope identifier ip : String) (now : Time) (t : Tracker)
    → let t' = record_success fold scope identifier t in
      ((check fold scope identifier ip now t').0 ≡ true
        ↔ source_locked_until (lookup ip t.sources) ≤ now)
      × (t'.sources ≡ t.sources)
unfolding record_success check
check-record_success fold scope identifier ip now t =
    let key = account_key fold scope identifier in
    ground (arith, lookup-erase key key t.accounts, string_eq.beq_iff key key)

-- A success under one key leaves the record of every other key as it was.
pub record_success_others :
    (fold : String → String) (scope identifier key : String) (t : Tracker)
    → account_key fold scope identifier ≢ key
    → lookup key (record_success fold scope identifier t).accounts ≡ lookup key t.accounts
unfolding record_success
record_success_others fold scope identifier key t ne =
    let k = account_key fold scope identifier in
    ground (arith, lookup-erase key k t.accounts, string_eq.beq_iff k key)
