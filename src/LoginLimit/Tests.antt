-- ===== src/LoginLimit/Tests.antt =====
-- internal/loginlimit/loginlimit.go: examples.
use levis.Base.{◌+◌, ◌*◌, ◌≡◌, refl, false, [], ◌∷◌, String, arith, string_eq}
use levis.Base.Time.{Time, minute, hour}
use levis.LoginLimit.{AccountRecord, Tracker, new_tracker, check, sweep_locked, account_key}
use levis.LoginLimit.Sweep.{check-sweep_locked}
use levis.LoginLimit.Account.{burst-check_refused, record_failures}
use levis.LoginLimit.Valid.{IsValid, failure, success, sweep, run, run-IsValid}

abbrev same : String → String
same s = s

abbrev day : Time
day = 24 * hour

-- Four failures of ann, the last at noon.
abbrev four : AccountRecord
four = record { failures = 4; locked_until = 0; last_failure = day }

abbrev guessed : Tracker
guessed = record { accounts = ("user|ann", four) ∷ []; sources = [] }

check-sweep_locked_example :
    check same "user" "ann" "::1" (3 * day) (sweep_locked (3 * day) guessed)
    ≡ check same "user" "ann" "::1" (3 * day) guessed
check-sweep_locked_example =
    check-sweep_locked same "user" "ann" "::1" (3 * day) (3 * day) guessed (refl, tt) tt
      (omega arith)

-- The fifth and the sixth failure come within an hour, from one address; the login is refused from
-- another one 29 minutes later.
burst-check_refused_example :
    (check same "user" "ann" "10.0.0.1" (day + 31 * minute) (
      record_failures same "user" "ann" "::1" ((day + minute) ∷ (day + 2 * minute) ∷ []) guessed)).0
    ≡ false
unfolding account_key
burst-check_refused_example =
    burst-check_refused same "user" "ann" "::1" "10.0.0.1" (day + minute) ((day + 2 * minute) ∷ [])
      (day + 31 * minute) four guessed refl
      (omega arith, omega arith, (omega arith, omega arith, tt)) (omega arith) (omega arith)

run-IsValid_example :
    IsValid (
      run same (failure "user" "ann" "::1" day ∷ success "user" "ann" ∷ sweep day ∷ []) new_tracker)
run-IsValid_example =
    run-IsValid same (failure "user" "ann" "::1" day ∷ success "user" "ann" ∷ sweep day ∷ [])
