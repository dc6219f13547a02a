-- ===== src/LoginLimit/Lock.antt =====
-- internal/loginlimit/loginlimit.go: the length of a lock, with the shift of an int64 and its guard.
use levis.Base.{
  ℕ, zero, suc, ◌+◌, ◌-◌, ◌*◌, ◌^◌, ◌%◌, ◌≤◌, ◌<◌, min, ◌≡◌, refl, ap, ◌∙◌, Bool, true, ◌&&◌, arith,
  ◌==◌, ==_iff,
}
use levis.Base.Int.{pos, i64, two_64}
use levis.LoginLimit.{account_lock_base, max_lock, shifted_lock}
use native.Mathlib.Nat.{pow-suc}
use native.Mathlib.Decide.{dec_lt}
use mathlib.Core.Path.{subst}

-- The lock that is meant for a shift.
abbrev capped : ℕ → ℕ
capped shift = min (account_lock_base * 2 ^ shift) max_lock

-- Whether every shift below a bound gives the lock that is meant.
exact_until : ℕ → Bool
exact_until zero = true
exact_until (suc shift) = (shifted_lock shift == capped shift) && exact_until shift

exact_until_lem :
    (shift bound : ℕ) → exact_until bound ≡ true → shift < bound → shifted_lock shift ≡ capped shift
unfolding exact_until
exact_until_lem shift zero exact below = absurd (omega arith)
exact_until_lem shift (suc last) exact below = elim (dec_lt shift last) [
  | yes earlier ↦ exact_until_lem shift last (ground arith) earlier
  | no latest ↦
      subst (λ n. shifted_lock n ≡ capped n) (omega arith)
        ((==_iff (shifted_lock last) (capped last)).0 (ground arith))
]

-- Up to a shift by 52 every case is computed.
short_shifts : exact_until 53 ≡ true
unfolding exact_until shifted_lock i64
short_shifts = refl

pow-suc_53 : (j : ℕ) → 2 ^ (suc j + 53) ≡ 2 ^ (j + 53) * 2
pow-suc_53 j = ap (λ (n : ℕ). 2 ^ n) (omega arith) ∙ pow-suc 2 (j + 53)

-- From a shift by 53 on the shifted int64 is zero, and the true product is above the cap.
long_shift :
    (j : ℕ)
    → ((account_lock_base * 2 ^ (j + 53)) % two_64 ≡ 0)
      × (max_lock ≤ account_lock_base * 2 ^ (j + 53))
long_shift zero = (refl, omega arith)
long_shift (suc j) =
    let (wraps, big) = long_shift j in
    (omega (arith, wraps, pow-suc_53 j), omega (arith, big, pow-suc_53 j))

i64_multiple : (x : ℕ) → x % two_64 ≡ 0 → i64 (pos x) ≡ pos 0
unfolding i64
i64_multiple x h = ground arith

long_lock : (j : ℕ) → shifted_lock (j + 53) ≡ min (account_lock_base * 2 ^ (j + 53)) max_lock
unfolding shifted_lock
long_lock j =
    let (wraps, big) = long_shift j in
    rw (i64_multiple (account_lock_base * 2 ^ (j + 53)) wraps) (omega (arith, big))

-- The lock for a shift is the base doubled that often and capped at a day, for every shift: the
-- overflow of the int64 shift never shows.
pub shifted_lock_lem :
    (shift : ℕ) → shifted_lock shift ≡ min (account_lock_base * 2 ^ shift) max_lock
shifted_lock_lem shift = elim (dec_lt shift 53) [
  | yes short ↦ exact_until_lem shift 53 short_shifts short
  | no long ↦
      subst (λ n. shifted_lock n ≡ min (account_lock_base * 2 ^ n) max_lock) (omega arith)
        (long_lock (shift - 53))
]
