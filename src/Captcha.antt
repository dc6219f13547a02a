-- ===== src/Captcha.antt =====
-- internal/captcha: the store of challenges and the sampling of their codes. `fold` stands for
-- `strings.ToUpper(strings.TrimSpace(s))`. Drawing the image is left out.
pub mod Bounds
pub mod Once
pub mod Sampling
mod Tests
use levis.Base.{
  ℕ, zero, suc, ◌+◌, ◌-◌, ◌*◌, ◌%◌, Bool, true, false, not, ◌&&◌, ◌||◌, Option, none, some, List,
  [], ◌∷◌, ◌++◌, String, if◌then◌else◌, ltb, leb, length, Dict, lookup, insert, erase, keep_values,
  string_eq,
}
use levis.Base.Time.{Time, minute, after}
use text.Mathlib.Text.{◌==◌ as str_eq}

abbrev pub ttl : ℕ
ttl = 5 * minute

abbrev pub max_entries : ℕ
max_entries = 8192

pub record Entry : Type 0 where
  pub code : String
  pub expires : Time

-- `items` of the store; the mutex makes each method one step.
abbrev pub Items : Type 0
Items = Dict String Entry

-- What is collected for the sort.
abbrev pub Aged : Type 0
Aged = String × Time

abbrev pub aged : Items → List Aged
aged [] = []
aged ((id, e) ∷ d) = (id, e.expires) ∷ aged d

-- `slices.SortFunc` by the time of expiry
abbrev pub insert_aged : Aged → List Aged → List Aged
insert_aged a [] = a ∷ []
insert_aged a (b ∷ bs) = if leb a.1 b.1 then a ∷ b ∷ bs else b ∷ insert_aged a bs

abbrev pub sort_aged : List Aged → List Aged
sort_aged [] = []
sort_aged (a ∷ xs) = insert_aged a (sort_aged xs)

-- The loop that deletes the first `n` of the collected entries.
unfoldable pub delete_first : ℕ → List Aged → Items → Items
delete_first (suc n) ((id, t) ∷ xs) d = delete_first n xs (erase id d)
delete_first _ _ d = d

unfoldable pub sweep_expired : Time → Items → Items
sweep_expired now d = keep_values (λ (e : Entry). not (after now e.expires)) d

-- `evictLocked`
unfoldable pub evict_locked : Time → Items → Items
unfolding delete_first sweep_expired
evict_locked now d =
    let live = sweep_expired now d in
    if ltb (length live) max_entries
    then live
    else delete_first (length live - max_entries + 1) (sort_aged (aged live)) live

-- The part of `Issue` that changes the store, for the code and the id that were drawn.
unfoldable pub issue : String → String → Time → Items → Items
unfolding evict_locked
issue id code now d = insert id (record { code = code; expires = now + ttl }) (evict_locked now d)

abbrev pub matches : Option Entry → Time → String → Bool
matches none now answer = false
matches (some e) now answer = not (after now e.expires) && str_eq answer e.code

-- `Verify`: the verdict, and the store without the challenge.
unfoldable pub verify : (String → String) → String → String → Time → Items → Bool × Items
verify fold id answer now d =
    if str_eq id "" || str_eq answer ""
    then (false, d)
    else (matches (lookup id d) now (fold answer), erase id d)

abbrev pub min_length : ℕ
min_length = 4

abbrev pub max_length : ℕ
max_length = 8

-- `ClampLength`
unfoldable pub clamp_length : ℕ → ℕ
clamp_length n = if ltb n min_length then min_length else if ltb max_length n then max_length else n

-- The bytes that the sampling accepts, for an alphabet of `n` characters.
abbrev pub limit : ℕ → ℕ
limit n = 256 - 256 % n

abbrev pub prepend : ℕ → Option (List ℕ) → Option (List ℕ)
prepend i none = none
prepend i (some xs) = some (i ∷ xs)

-- `randomCode`, on the bytes that the random source gives, as indices into the alphabet; `none` means
-- that the source ended first.
unfoldable pub random_code : ℕ → ℕ → List ℕ → Option (List ℕ)
random_code n zero bytes = some []
random_code n (suc wanted) [] = none
random_code n (suc wanted) (b ∷ bytes) =
    let skipped = random_code n (suc wanted) bytes in
    let taken = prepend (b % n) (random_code n wanted bytes) in
    if leb (limit n) b then skipped else taken
