-- ===== src/LoginLimit/Valid.antt =====
-- internal/loginlimit/loginlimit.go: the two maps under sequences of calls.
use levis.Base.{
  ◌≤◌, ◌≡◌, String, Bool, false, List, [], ◌∷◌, arith, leb, Bool-cases, inl, inr, Option-cases,
  length, Dict, lookup, insert, IsMap, keep_values, string_eq, insert-IsMap, erase-IsMap,
  keep_values-IsMap, length-keep_values, length-erase, length-insert, length-insert_old,
}
use levis.Base.Time.{Time}
use levis.LoginLimit.{
  AccountRecord, SourceRecord, Tracker, ip_fail_limit, max_records, account_live, source_live,
  sweep_locked, new_account, new_tracker, fail_account, fail_source, found_source, put_account,
  record_new_account, record_account_failure, record_source_failure, record_failure, record_success,
  account_key,
}
use levis.LoginLimit.Window.{fail_source_bounds}

-- Every source of a map has a window of fifty moments at most.
abbrev pub HasShortWindows : Dict String SourceRecord → Type 0
HasShortWindows [] = Unit
HasShortWindows ((ip, s) ∷ d) = (length s.failures ≤ ip_fail_limit) × HasShortWindows d

insert-HasShortWindows :
    (ip : String) (s : SourceRecord) (d : Dict String SourceRecord)
    → HasShortWindows d
    → length s.failures ≤ ip_fail_limit
    → HasShortWindows (insert ip s d)
insert-HasShortWindows ip s [] h k = (k, tt)
insert-HasShortWindows ip s ((i, r) ∷ d) h k = ground (arith, insert-HasShortWindows ip s d h.1 k)

keep_values-HasShortWindows :
    (p : SourceRecord → Bool) (d : Dict String SourceRecord)
    → HasShortWindows d
    → HasShortWindows (keep_values p d)
keep_values-HasShortWindows p [] h = tt
keep_values-HasShortWindows p ((i, r) ∷ d) h = ground (arith, keep_values-HasShortWindows p d h.1)

-- What holds of a tracker between two calls.
pub record IsValid (t : Tracker) : Type 0 where
  pub accounts_map : IsMap t.accounts
  pub sources_map : IsMap t.sources
  pub accounts_bounded : length t.accounts ≤ max_records
  pub windows_short : HasShortWindows t.sources

pub sweep_locked-IsValid : (now : Time) (t : Tracker) → IsValid t → IsValid (sweep_locked now t)
unfolding sweep_locked
sweep_locked-IsValid now t v = record {
  accounts_map = keep_values-IsMap (account_live now) t.accounts v.accounts_map;
  sources_map = keep_values-IsMap (source_live now) t.sources v.sources_map;
  accounts_bounded =
      omega (arith, length-keep_values (account_live now) t.accounts, v.accounts_bounded);
  windows_short = keep_values-HasShortWindows (source_live now) t.sources v.windows_short;
}

put_account-IsValid :
    (key : String) (now : Time) (r : AccountRecord) (t : Tracker)
    → IsValid t
    → length (insert key (fail_account r now) t.accounts) ≤ max_records
    → IsValid (put_account key now r t)
unfolding put_account
put_account-IsValid key now r t v h = record {
  accounts_map = insert-IsMap key (fail_account r now) t.accounts v.accounts_map;
  sources_map = v.sources_map;
  accounts_bounded = h;
  windows_short = v.windows_short;
}

put_account_room :
    (key : String) (now : Time) (r : AccountRecord) (t : Tracker)
    → IsValid t
    → leb max_records (length t.accounts) ≡ false
    → IsValid (put_account key now r t)
put_account_room key now r t v room =
    put_account-IsValid key now r t v
      (ground (arith, room, length-insert key (fail_account r now) t.accounts))

record_new_account-IsValid :
    (key : String) (now : Time) (t : Tracker) → IsValid t → IsValid (record_new_account key now t)
unfolding record_new_account
record_new_account-IsValid key now t v =
    let swept = sweep_locked now t in
    let v' = sweep_locked-IsValid now t v in
    elim (Bool-cases (leb max_records (length t.accounts))) [
      | inl full ↦ rw full (elim (Bool-cases (leb max_records (length swept.accounts))) [
        | inl still ↦ rw still v'
        | inr room ↦ rw room (put_account_room key now new_account swept v' room)
      ])
      | inr room ↦ rw room (put_account_room key now new_account t v room)
    ]

record_account_failure-IsValid :
    (key : String) (now : Time) (t : Tracker)
    → IsValid t
    → IsValid (record_account_failure key now t)
unfolding record_account_failure
record_account_failure-IsValid key now t v = elim (Option-cases (lookup key t.accounts)) [
  | inl absent ↦ rw absent (record_new_account-IsValid key now t v)
  | inr (r, found) ↦ rw found (
      put_account-IsValid key now r t v (
        omega (
          arith,
          length-insert_old key (fail_account r now) r t.accounts found,
          v.accounts_bounded,
        )))
]

record_source_failure-IsValid :
    (ip : String) (now : Time) (t : Tracker) → IsValid t → IsValid (record_source_failure ip now t)
unfolding record_source_failure
record_source_failure-IsValid ip now t v =
    let s = fail_source (found_source (lookup ip t.sources)) now in
    record {
      accounts_map = v.accounts_map;
      sources_map = insert-IsMap ip s t.sources v.sources_map;
      accounts_bounded = v.accounts_bounded;
      windows_short =
          insert-HasShortWindows ip s t.sources v.windows_short
            (fail_source_bounds (found_source (lookup ip t.sources)) now).0;
    }

-- The calls that change a tracker.
pub data Call : Type 0 where
  failure : String → String → String → Time → Call
  success : String → String → Call
  sweep : Time → Call

module _ (fold : String → String) where
  unfoldable pub apply : Call → Tracker → Tracker
  apply (failure scope identifier ip now) t = record_failure fold scope identifier ip now t
  apply (success scope identifier) t = record_success fold scope identifier t
  apply (sweep now) t = sweep_locked now t

  unfoldable pub run : List Call → Tracker → Tracker
  run [] t = t
  run (c ∷ cs) t = run cs (apply c t)

  apply-IsValid : (c : Call) (t : Tracker) → IsValid t → IsValid (apply c t)
  unfolding apply record_failure record_success
  apply-IsValid (failure scope identifier ip now) t v =
      record_source_failure-IsValid ip now _
        (record_account_failure-IsValid (account_key fold scope identifier) now t v)
  apply-IsValid (success scope identifier) t v =
      let key = account_key fold scope identifier in
      record {
        accounts_map = erase-IsMap key t.accounts v.accounts_map;
        sources_map = v.sources_map;
        accounts_bounded = omega (arith, length-erase key t.accounts, v.accounts_bounded);
        windows_short = v.windows_short;
      }
  apply-IsValid (sweep now) t v = sweep_locked-IsValid now t v

  run-IsValid_from : (cs : List Call) (t : Tracker) → IsValid t → IsValid (run cs t)
  unfolding run
  run-IsValid_from [] t v = v
  run-IsValid_from (c ∷ cs) t v = run-IsValid_from cs (apply c t) (apply-IsValid c t v)

  -- After any sequence of failures, successes and sweeps of a new tracker both maps list no key twice,
  -- at most 100000 accounts are recorded, and no source keeps more than fifty moments.
  pub run-IsValid : (cs : List Call) → IsValid (run cs new_tracker)
  unfolding new_tracker
  run-IsValid cs = run-IsValid_from cs new_tracker (omega arith)
