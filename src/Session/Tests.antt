-- ===== src/Session/Tests.antt =====
-- Two processes, a restart and a fault on concrete calls.
use levis.Base.{◌≡◌, refl, true, false, ◌||◌, [], ◌∷◌, ltb, arith}
use levis.Session.{
  History, revoke_here, revoke_there, asked_here, cleanup_here, restarted, run, is_revoked,
}
use levis.Session.Refinement.{latest, Until, is_revoked-run}

-- The last call first.
abbrev calls : History
calls =
    (9, restarted false)
    ∷ (7, cleanup_here false)
    ∷ (5, asked_here "a" false)
    ∷ (4, revoke_there "a" 20 false)
    ∷ (3, revoke_here "a" 12 true)
    ∷ (2, revoke_here "b" 6 false)
    ∷ []

calls-Until : Until 10 calls
unfolding Until
calls-Until =
    (omega arith, (omega arith, (omega arith, (omega arith, (omega arith, (omega arith, tt))))))

is_revoked-run_example :
    (is_revoked "a" 10 false (run calls)).0 ≡ (false || ltb 10 (latest "a" calls))
is_revoked-run_example = is_revoked-run "a" refl 10 false calls calls-Until

still_revoked : (is_revoked "a" 10 false (run calls)).0 ≡ true
unfolding run is_revoked
still_revoked = refl

no_more_revoked : (is_revoked "b" 10 false (run calls)).0 ≡ false
unfolding run is_revoked
no_more_revoked = refl
