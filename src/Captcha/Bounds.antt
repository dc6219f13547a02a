-- ===== src/Captcha/Bounds.antt =====
-- internal/captcha/store.go, `evictLocked`: how many challenges are kept.
use levis.Base.{
  ℕ, zero, suc, ◌+◌, ◌-◌, ◌≤◌, ◌<◌, ◌≡◌, refl, none, some, List, [], ◌∷◌, String, arith, ltb, leb,
  length, inl, inr, Bool-cases, lookup, erase, string_eq, IsMap, lookup-erase, length-insert,
  length-erase, keep_values-IsMap, erase-IsMap, insert-IsMap,
}
use levis.Base.Time.{Time}
use mathlib.Core.Path.{subst, sym}
use levis.Captcha.{
  Entry, Items, Aged, aged, insert_aged, sort_aged, delete_first, sweep_expired, evict_locked,
  issue, ttl, verify, max_entries,
}

-- The ids are different keys of the store.
abbrev Keys : List Aged → Items → Type 0
Keys [] d = Unit
Keys ((id, t) ∷ xs) d = ((e : Entry) × (lookup id d ≡ some e)) × Keys xs (erase id d)

erase_comm : (i j : String) (d : Items) → erase i (erase j d) ≡ erase j (erase i d)
erase_comm i j [] = refl
erase_comm i j ((k, e) ∷ d) = ground (arith, erase_comm i j d)

erase_absent : (i : String) (d : Items) → lookup i d ≡ none → erase i d ≡ d
erase_absent i [] h = refl
erase_absent i ((k, e) ∷ d) h = ground (arith, erase_absent i d)

length-erase_key :
    (i : String) (d : Items) (e : Entry)
    → IsMap d
    → lookup i d ≡ some e
    → suc (length (erase i d)) ≡ length d
length-erase_key i [] e m h = cc
length-erase_key i ((k, w) ∷ d) e m h =
    ground (arith, string_eq.beq_iff k i, erase_absent i d, length-erase_key i d e)

Keys-swap : (i j : Aged) (xs : List Aged) (d : Items) → Keys (i ∷ j ∷ xs) d → Keys (j ∷ i ∷ xs) d
Keys-swap (i, s) (j, t) xs d ((e, has_i), ((f, has_j), rest)) = (
  (
    f,
    ground (
      arith,
      lookup-erase j i d,
      lookup-erase i j d,
      string_eq.beq_iff i j,
      string_eq.beq_iff j i,
    ),
  ),
  (
    (
      e,
      ground (
        arith,
        lookup-erase j i d,
        lookup-erase i j d,
        string_eq.beq_iff i j,
        string_eq.beq_iff j i,
      ),
    ),
    subst (Keys xs) (erase_comm j i d) rest,
  ),
)

Keys-insert_aged :
    (a : Aged) (xs : List Aged) (d : Items) → Keys (a ∷ xs) d → Keys (insert_aged a xs) d
Keys-insert_aged a [] d h = h
Keys-insert_aged (i, s) ((j, t) ∷ xs) d h = elim (Bool-cases (leb s t)) [
  | inl first_ ↦ rw first_ h
  | inr later ↦
      let swapped = Keys-swap (i, s) (j, t) xs d h in
      rw later (swapped.0, Keys-insert_aged (i, s) xs (erase j d) swapped.1)
]

Keys-sort_aged : (xs : List Aged) (d : Items) → Keys xs d → Keys (sort_aged xs) d
Keys-sort_aged [] d h = tt
Keys-sort_aged ((i, s) ∷ xs) d h =
    Keys-insert_aged (i, s) (sort_aged xs) d (h.0, Keys-sort_aged xs (erase i d) h.1)

-- The ids that are collected are different keys of the store.
Keys-aged : (d : Items) → IsMap d → Keys (aged d) d
Keys-aged [] m = tt
Keys-aged ((i, e) ∷ d) m =
    rw ((string_eq.beq_iff i i).1 refl)
      ((e, refl), subst (Keys (aged d)) (sym (erase_absent i d m.0)) (Keys-aged d m.1))

length-delete_first :
    (n : ℕ) (xs : List Aged) (d : Items)
    → IsMap d
    → Keys xs d
    → n ≤ length xs
    → length (delete_first n xs d) + n ≡ length d
unfolding delete_first
length-delete_first zero xs d m keys h = omega arith
length-delete_first (suc n) [] d m keys h = absurd (omega (arith, h))
length-delete_first (suc n) ((i, s) ∷ xs) d m ((e, has), rest) h = omega (
  arith,
  length-delete_first n xs (erase i d) (erase-IsMap i d m) rest (omega (arith, h)),
  length-erase_key i d e m has,
)

delete_first-IsMap : (n : ℕ) (xs : List Aged) (d : Items) → IsMap d → IsMap (delete_first n xs d)
unfolding delete_first
delete_first-IsMap zero xs d m = m
delete_first-IsMap (suc n) [] d m = m
delete_first-IsMap (suc n) ((i, s) ∷ xs) d m =
    delete_first-IsMap n xs (erase i d) (erase-IsMap i d m)

length-insert_aged : (a : Aged) (xs : List Aged) → length (insert_aged a xs) ≡ suc (length xs)
length-insert_aged a [] = refl
length-insert_aged a (b ∷ xs) = ground (arith, length-insert_aged a xs)

length-sort_aged : (xs : List Aged) → length (sort_aged xs) ≡ length xs
length-sort_aged [] = refl
length-sort_aged (a ∷ xs) = omega (arith, length-insert_aged a (sort_aged xs), length-sort_aged xs)

length-aged : (d : Items) → length (aged d) ≡ length d
length-aged [] = refl
length-aged ((i, e) ∷ d) = omega (arith, length-aged d)

sweep_expired-IsMap : (now : Time) (d : Items) → IsMap d → IsMap (sweep_expired now d)
unfolding sweep_expired
sweep_expired-IsMap now d m = keep_values-IsMap _ d m

evict_locked-IsMap : (now : Time) (d : Items) → IsMap d → IsMap (evict_locked now d)
unfolding evict_locked
evict_locked-IsMap now d m =
    let live = sweep_expired now d in
    elim (Bool-cases (ltb (length live) max_entries)) [
      | inl small ↦ rw small (sweep_expired-IsMap now d m)
      | inr full ↦ rw full (
          delete_first-IsMap (length live - max_entries + 1) (sort_aged (aged live)) live
            (sweep_expired-IsMap now d m))
    ]

-- An eviction leaves room for one more.
evict_locked_room : (now : Time) (d : Items) → IsMap d → length (evict_locked now d) < max_entries
unfolding evict_locked
evict_locked_room now d m =
    let live = sweep_expired now d in
    let valid : IsMap live = sweep_expired-IsMap now d m in
    let gone =
      length-delete_first (length live - max_entries + 1) (sort_aged (aged live)) live valid
        (Keys-sort_aged (aged live) live (Keys-aged live valid)) in
    ground (arith, gone, length-sort_aged (aged live), length-aged live)

-- The calls that change a store.
pub data Call : Type 0 where
  issue_at : String → String → Time → Call
  verify_at : String → String → Time → Call

module _ (fold : String → String) where
  unfoldable pub apply : Call → Items → Items
  apply (issue_at id code now) d = issue id code now d
  apply (verify_at id answer now) d = (verify fold id answer now d).1

  unfoldable pub run : List Call → Items → Items
  unfolding apply
  run [] d = d
  run (c ∷ cs) d = run cs (apply c d)

  apply-IsMap : (c : Call) (d : Items) → IsMap d → IsMap (apply c d)
  unfolding apply issue verify
  apply-IsMap (issue_at id code now) d m =
      insert-IsMap id (record { code = code; expires = now + ttl }) (evict_locked now d)
        (evict_locked-IsMap now d m)
  apply-IsMap (verify_at id answer now) d m = ground (arith, erase-IsMap id d m)

  length-apply :
      (c : Call) (d : Items) → IsMap d → length d ≤ max_entries → length (apply c d) ≤ max_entries
  unfolding apply issue verify
  length-apply (issue_at id code now) d m h = omega (
    arith,
    length-insert id (record { code = code; expires = now + ttl }) (evict_locked now d),
    evict_locked_room now d m,
  )
  length-apply (verify_at id answer now) d m h = ground (arith, length-erase id d)

  length-run_from :
      (cs : List Call) (d : Items)
      → IsMap d
      → length d ≤ max_entries
      → length (run cs d) ≤ max_entries
  unfolding run
  length-run_from [] d m h = h
  length-run_from (c ∷ cs) d m h =
      length-run_from cs (apply c d) (apply-IsMap c d m) (length-apply c d m h)

  -- However often challenges are issued and answered, at any times and with any ids, a store that began
  -- empty never holds more than 8192 of them.
  pub length-run : (cs : List Call) → length (run cs []) ≤ max_entries
  length-run cs = length-run_from cs [] tt (omega arith)
