-- ===== src/LoginLimit/Window.antt =====
-- internal/loginlimit/loginlimit.go: the window of the failures of a source.
use levis.Base.{
  ℕ, zero, suc, ◌+◌, ◌-◌, ◌≤◌, ◌<◌, ◌⊎◌, List, [], ◌∷◌, ◌++◌, arith, ltb, Bool-cases, inl, inr,
  length, drop, keep, length-drop, string_eq,
}
use levis.Base.Int.{pos, leb_ℤ}
use levis.Base.Time.{Time, time_sub}
use levis.LoginLimit.{SourceRecord, ip_fail_limit, ip_window, ip_lock, fail_source}

abbrev pub All {ℓ κ} : {A : Type ℓ} → (A → Type κ) → List A → Type κ
All P [] = Unit
All P (x ∷ xs) = P x × All P xs

All-append {ℓ κ} :
    {A : Type ℓ} (P : A → Type κ) (xs ys : List A) → All P xs → All P ys → All P (xs ++ ys)
All-append P [] ys hx hy = hy
All-append P (x ∷ xs) ys hx hy = (hx.0, All-append P xs ys hx.1 hy)

All-drop {ℓ κ} : {A : Type ℓ} (P : A → Type κ) (n : ℕ) (xs : List A) → All P xs → All P (drop n xs)
All-drop P zero xs h = h
All-drop P (suc n) [] h = h
All-drop P (suc n) (x ∷ xs) h = All-drop P n xs h.1

-- `ts` is no older than the window at `now`.
abbrev pub IsRecent : Time → Time → Type 0
IsRecent now ts = now ≤ ts + ip_window

keep-IsRecent :
    (now : Time) (xs : List Time)
    → All (IsRecent now) (keep (λ ts. leb_ℤ (time_sub now ts) (pos ip_window)) xs)
keep-IsRecent now [] = tt
keep-IsRecent now (x ∷ xs) = elim (Bool-cases (leb_ℤ (time_sub now x) (pos ip_window))) [
  | inl fresh ↦ rw fresh (ground arith, keep-IsRecent now xs)
  | inr stale ↦ rw stale (keep-IsRecent now xs)
]

-- The window of a source holds at most fifty moments, none of them older than an hour, and the lock is
-- never shortened; with fifty moments it lasts for at least the lock of an address from now on.
pub fail_source_bounds :
    (s : SourceRecord) (now : Time)
    → (length (fail_source s now).failures ≤ ip_fail_limit)
      × All (IsRecent now) (fail_source s now).failures
      × (s.locked_until ≤ (fail_source s now).locked_until)
      × ((length (fail_source s now).failures < ip_fail_limit)
          ⊎ (now + ip_lock ≤ (fail_source s now).locked_until))
unfolding fail_source
fail_source_bounds s now =
    let kept = keep (λ ts. leb_ℤ (time_sub now ts) (pos ip_window)) s.failures in
    let window = kept ++ now ∷ [] in
    let recent =
      All-append (IsRecent now) kept (now ∷ []) (keep-IsRecent now s.failures) (omega arith, tt) in
    elim (Bool-cases (ltb ip_fail_limit (length window))) [
      | inl full ↦ rw full (
        ground (arith, length-drop (length window - ip_fail_limit) window),
        All-drop (IsRecent now) (length window - ip_fail_limit) window recent,
        ground arith,
        ground arith,
      )
      | inr short ↦ rw short (ground arith, recent, ground arith, ground arith)
    ]
