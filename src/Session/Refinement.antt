-- ===== src/Session/Refinement.antt =====
-- internal/auth/revocation_persist.go: the revocations against the latest expiry of each session.
use levis.Base.{
  ℕ, ◌≤◌, max, ◌≡◌, refl, Bool, true, false, not, ◌&&◌, ◌||◌, Option, none, some, [], ◌∷◌, String,
  arith, if◌then◌else◌, ltb, inl, ◌⊎◌, Dict, lookup, insert, string_eq, IsMap, lookup-insert,
  lookup-keep_values, insert-IsMap, keep_values-IsMap,
}
use levis.Base.Time.{Time, after}
use text.Mathlib.Text.{◌==◌ as str_eq}
use levis.Session.{
  Revocations, extend, revoke, live, remember, is_revoked, keep_live, cleanup_expired, load,
  restart, Call, revoke_here, revoke_there, asked_here, cleanup_here, cleanup_there, restarted,
  apply, History, run,
}

-- The latest expiry with which a session was revoked without a fault.
unfoldable pub latest_after : String → Call → Time → Time
latest_after jti (revoke_here j expiry fault) s =
    if not fault && str_eq j jti then max s expiry else s
latest_after jti (revoke_there j expiry fault) s =
    if not fault && str_eq j jti then max s expiry else s
latest_after jti (asked_here j fault) s = s
latest_after jti (cleanup_here fault) s = s
latest_after jti (cleanup_there fault) s = s
latest_after jti (restarted fault) s = s

unfoldable pub latest : String → History → Time
unfolding latest_after
latest jti [] = 0
latest jti ((now, c) ∷ earlier) = latest_after jti c (latest jti earlier)

-- No call is later than the instant, and the calls are in their order of time.
unfoldable pub Until : Time → History → Type 0
Until now [] = Unit
Until now ((at, c) ∷ earlier) = (at ≤ now) × Until at earlier

abbrev until : Option Time → Time
until none = 0
until (some t) = t

-- The table is right about every instant that is to come, and the cache says nothing more.
abbrev Agrees : Time → Time → Time → Time → Type 0
Agrees s now stored cached =
    (stored ≡ s ⊎ ((stored ≤ now) × (s ≤ now))) × (cached ≤ s ⊎ cached ≤ now)

AreMaps : Revocations → Type 0
AreMaps r = IsMap r.table × IsMap r.hot

extend-IsMap : (j : String) (e : Time) (d : Dict String Time) → IsMap d → IsMap (extend j e d)
unfolding extend
extend-IsMap j e d m = ground (arith, insert-IsMap j e d m)

until-extend :
    (jti j : String) (e : Time) (d : Dict String Time)
    → until (lookup jti (extend j e d))
      ≡ (if str_eq j jti then max (until (lookup jti d)) e else until (lookup jti d))
unfolding extend
until-extend jti j e d = ground (arith, lookup-insert jti j e d, string_eq.beq_iff j jti)

until-keep_live :
    (jti : String) (now : Time) (d : Dict String Time)
    → IsMap d
    → until (lookup jti (keep_live now d))
      ≡ (if ltb now (until (lookup jti d)) then until (lookup jti d) else 0)
until-keep_live jti now d m = ground (arith, lookup-keep_values jti (λ (t : Time). after t now) d m)

load-IsMap : (rows hot : Dict String Time) → IsMap hot → IsMap (load rows hot)
unfolding load
load-IsMap [] hot m = m
load-IsMap ((j, t) ∷ rows) hot m = load-IsMap rows (insert j t hot) (insert-IsMap j t hot m)

until-load :
    (jti : String) (rows hot : Dict String Time)
    → IsMap rows
    → until (lookup jti hot) ≡ 0 ⊎ lookup jti rows ≡ none
    → until (lookup jti (load rows hot)) ≡ max (until (lookup jti rows)) (until (lookup jti hot))
unfolding load
until-load jti [] hot m h = omega arith
until-load jti ((j, t) ∷ rows) hot m h = ground (
  arith,
  lookup-insert jti j t hot,
  string_eq.beq_iff j jti,
  until-load jti rows (insert j t hot) m.1,
)

live_lem : (now : Time) (o : Option Time) → live now o ≡ ltb now (until o)
live_lem now none = ground arith
live_lem now (some t) = refl

remember-IsMap :
    (j : String) (o : Option Time) (d : Dict String Time) → IsMap d → IsMap (remember j o d)
remember-IsMap j none d m = m
remember-IsMap j (some t) d m = insert-IsMap j t d m

until-remember :
    (jti j : String) (now : Time) (o : Option Time) (d : Dict String Time)
    → live now o ≡ true
    → until (lookup jti (remember j o d)) ≡ (if str_eq j jti then until o else until (lookup jti d))
until-remember jti j now none d h = cc
until-remember jti j now (some t) d h = ground (arith, lookup-insert jti j t d)

apply-AreMaps : (now : Time) (c : Call) (r : Revocations) → AreMaps r → AreMaps (apply now c r)
unfolding AreMaps apply revoke is_revoked cleanup_expired restart
apply-AreMaps now (revoke_here j e fault) r m =
    ground (arith, extend-IsMap j e r.table m.0, extend-IsMap j e r.hot m.1)
apply-AreMaps now (revoke_there j e fault) r m = ground (arith, extend-IsMap j e r.table m.0)
apply-AreMaps now (asked_here j fault) r m =
    ground (arith, remember-IsMap j (lookup j r.table) r.hot m.1)
apply-AreMaps now (cleanup_here fault) r m = ground (
  arith,
  keep_values-IsMap (λ (t : Time). after t now) r.table m.0,
  keep_values-IsMap (λ (t : Time). after t now) r.hot m.1,
)
apply-AreMaps now (cleanup_there fault) r m =
    ground (arith, keep_values-IsMap (λ (t : Time). after t now) r.table m.0)
apply-AreMaps now (restarted fault) r m = ground (arith, load-IsMap (keep_live now r.table) [] tt)

module _ (jti : String) (named : str_eq jti "" ≡ false) where
  stored : Revocations → Time
  stored r = until (lookup jti r.table)

  cached : Revocations → Time
  cached r = until (lookup jti r.hot)

  extend_both :
      (now before s e : ℕ) (j : String) (r : Revocations)
      → before ≤ now
      → Agrees s before (stored r) (cached r)
      → Agrees
          (if str_eq j jti then max s e else s)
          now
          (until (lookup jti (extend j e r.table)))
          (until (lookup jti (extend j e r.hot)))
  unfolding stored cached
  extend_both now before s e j r later h =
      ground (arith, until-extend jti j e r.table, until-extend jti j e r.hot)

  apply-Agrees :
      (now before s : Time) (c : Call) (r : Revocations)
      → before ≤ now
      → AreMaps r
      → Agrees s before (stored r) (cached r)
      → Agrees (latest_after jti c s) now (stored (apply now c r)) (cached (apply now c r))
  unfolding latest_after apply revoke AreMaps cleanup_expired is_revoked stored cached restart
  apply-Agrees now before s (revoke_here j e fault) r later m h = ground (
    arith,
    string_eq.beq_iff j jti,
    string_eq.beq_iff j "",
    string_eq.beq_iff jti "",
    extend_both now before s e j r later h,
  )
  apply-Agrees now before s (revoke_there j e fault) r later m h = ground (
    arith,
    string_eq.beq_iff j jti,
    string_eq.beq_iff j "",
    string_eq.beq_iff jti "",
    until-extend jti j e r.table,
  )
  apply-Agrees now before s (asked_here j fault) r later m h = ground (
    arith,
    until-remember jti j now (lookup j r.table) r.hot,
    live_lem now (lookup j r.table),
    string_eq.beq_iff j jti,
  )
  apply-Agrees now before s (cleanup_here fault) r later m h =
      ground (arith, until-keep_live jti now r.table m.0, until-keep_live jti now r.hot m.1)
  apply-Agrees now before s (cleanup_there fault) r later m h =
      ground (arith, until-keep_live jti now r.table m.0)
  apply-Agrees now before s (restarted fault) r later m h = ground (
    arith,
    until-keep_live jti now r.table m.0,
    until-load jti (keep_live now r.table) [] (keep_values-IsMap _ r.table m.0) (inl refl),
  )

  is_revoked-Agrees :
      (now before s : Time) (fault : Bool) (r : Revocations)
      → before ≤ now
      → Agrees s before (stored r) (cached r)
      → (is_revoked jti now fault r).0 ≡ fault || ltb now s
  unfolding is_revoked stored cached
  is_revoked-Agrees now before s fault r later h =
      ground (arith, live_lem now (lookup jti r.hot), live_lem now (lookup jti r.table))

  run-Agrees :
      (now : Time) (calls : History)
      → Until now calls
      → AreMaps (run calls)
        × Agrees (latest jti calls) now (stored (run calls)) (cached (run calls))
  unfolding run latest Until AreMaps stored cached
  run-Agrees now [] ordered = ((tt, tt), (inl refl, inl (omega arith)))
  run-Agrees now ((at, c) ∷ earlier) (later, ordered) =
      let (maps, agrees) = run-Agrees at earlier ordered in
      (
        apply-AreMaps at c (run earlier) maps,
        ground (
          arith,
          later,
          apply-Agrees at at (latest jti earlier) c (run earlier) (omega arith) maps agrees,
        ),
      )

  -- However the calls of this process and of others were mixed, with faults, cleanups and restarts between
  -- them, a session is found revoked at an instant exactly when the latest expiry of its revocations lies
  -- after that instant; when the table cannot be read, every session is found revoked.
  pub is_revoked-run :
      (now : Time) (fault : Bool) (calls : History)
      → Until now calls
      → (is_revoked jti now fault (run calls)).0 ≡ fault || ltb now (latest jti calls)
  is_revoked-run now fault calls ordered =
      is_revoked-Agrees now now (latest jti calls) fault (run calls) (omega arith)
        (run-Agrees now calls ordered).1
