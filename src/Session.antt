-- ===== src/Session.antt =====
-- internal/auth/revocation_persist.go: the revoked sessions, in a table that every replica writes and in
-- the cache of one process. A `fault` says that the database refuses the statement of the call. Instants
-- count the nanoseconds since year 1, so that the zones do not show.
pub mod Refinement
mod Tests
use levis.Base.{
  ℕ, ◌+◌, Bool, true, false, Option, none, some, List, [], ◌∷◌, String, if◌then◌else◌, Dict, lookup,
  insert, keep_values, string_eq,
}
use levis.Base.Time.{Time, after}
use text.Mathlib.Text.{◌==◌ as str_eq}

pub record Revocations : Type 0 where
  -- the rows of `model.RevokedToken`, by `jti`
  pub table : Dict String Time
  pub hot : Dict String Time

-- Whether an entry is there that ends no earlier.
abbrev pub reaches : Time → Option Time → Bool
reaches expiry none = false
reaches expiry (some until) = if after expiry until then false else true

-- The insert that does nothing on a conflict with the conditional update after it; and what is done to
-- the cache.
unfoldable pub extend : String → Time → Dict String Time → Dict String Time
extend jti expiry d = if reaches expiry (lookup jti d) then d else insert jti expiry d

-- `Revoke`: whether it returns no error, and the state.
unfoldable pub revoke : String → Time → Bool → Revocations → Bool × Revocations
unfolding extend
revoke jti expiry fault r =
    if str_eq jti ""
    then (true, r)
    else if fault
    then (false, r)
    else (true, record { table = extend jti expiry r.table; hot = extend jti expiry r.hot })

abbrev pub live : Time → Option Time → Bool
live now none = false
live now (some until) = after until now

-- What a row that was read leaves in the cache.
abbrev pub remember : String → Option Time → Dict String Time → Dict String Time
remember jti none d = d
remember jti (some until) d = insert jti until d

-- `IsRevoked`
unfoldable pub is_revoked : String → Time → Bool → Revocations → Bool × Revocations
is_revoked jti now fault r =
    if str_eq jti ""
    then (false, r)
    else if live now (lookup jti r.hot)
    then (true, r)
    else if fault
    then (true, r)
    else if live now (lookup jti r.table)
    then (true, record { table = r.table; hot = remember jti (lookup jti r.table) r.hot })
    else (false, r)

abbrev pub keep_live : Time → Dict String Time → Dict String Time
keep_live now d = keep_values (λ (until : Time). after until now) d

-- `CleanupExpired`
unfoldable pub cleanup_expired : Time → Bool → Revocations → Revocations
cleanup_expired now fault r =
    if fault then r else record { table = keep_live now r.table; hot = keep_live now r.hot }

-- The loop of `warmCache` over the rows.
unfoldable pub load : Dict String Time → Dict String Time → Dict String Time
load [] hot = hot
load ((jti, until) ∷ rows) hot = load rows (insert jti until hot)

-- `NewPersistentRevocationList` in a new process, with `warmCache`.
unfoldable pub restart : Time → Bool → Revocations → Revocations
unfolding load
restart now fault r = record {
  table = r.table;
  hot = if fault then [] else load (keep_live now r.table) [];
}

-- The calls in this process, and the effect on the table of those in another one.
pub data Call : Type 0 where
  revoke_here : String → Time → Bool → Call
  revoke_there : String → Time → Bool → Call
  asked_here : String → Bool → Call
  cleanup_here : Bool → Call
  cleanup_there : Bool → Call
  restarted : Bool → Call

unfoldable pub apply : Time → Call → Revocations → Revocations
unfolding revoke is_revoked cleanup_expired restart
apply now (revoke_here jti expiry fault) r = (revoke jti expiry fault r).1
apply now (revoke_there jti expiry fault) r = record {
  table = (revoke jti expiry fault r).1.table;
  hot = r.hot;
}
apply now (asked_here jti fault) r = (is_revoked jti now fault r).1
apply now (cleanup_here fault) r = cleanup_expired now fault r
apply now (cleanup_there fault) r = record {
  table = (cleanup_expired now fault r).table;
  hot = r.hot;
}
apply now (restarted fault) r = restart now fault r

-- The calls, the last one first, each with its instant.
abbrev pub History : Type 0
History = List (Time × Call)

unfoldable pub run : History → Revocations
unfolding apply
run [] = record { table = []; hot = [] }
run ((now, c) ∷ earlier) = apply now c (run earlier)
