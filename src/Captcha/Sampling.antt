-- ===== src/Captcha/Sampling.antt =====
-- internal/captcha/captcha.go, `randomCode`: the rejection sampling of the characters.
use levis.Base.{
  ℕ, zero, suc, ◌+◌, ◌%◌, ◌≤◌, ◌<◌, ◌≡◌, ◌==◌, refl, Bool, true, ◌&&◌, Option, none, some, List, [],
  ◌∷◌, arith, if◌then◌else◌, leb, length, ==_iff, inl, inr, ◌⊎◌, Bool-cases,
}
use native.Mathlib.Nat.{mod-lt}
use native.Mathlib.Decide.{dec_lt}
use mathlib.Core.Path.{subst}
use levis.Captcha.{limit, prepend, random_code}

-- The bytes that the sampling accepts.
abbrev pub accepted : ℕ → List ℕ → ℕ
accepted n [] = 0
accepted n (b ∷ bytes) = (if leb (limit n) b then 0 else 1) + accepted n bytes

abbrev pub AllBelow : ℕ → List ℕ → Type 0
AllBelow n [] = Unit
AllBelow n (i ∷ is) = (i < n) × AllBelow n is

-- A code of this many characters of the alphabet.
abbrev pub IsCode : ℕ → ℕ → Option (List ℕ) → Type 0
IsCode n wanted none = ⊥
IsCode n wanted (some is) = (length is ≡ wanted) × AllBelow n is

IsCode-prepend :
    (n wanted i : ℕ) (o : Option (List ℕ))
    → i < n
    → IsCode n wanted o
    → IsCode n (suc wanted) (prepend i o)
IsCode-prepend n wanted i none h c = c
IsCode-prepend n wanted i (some is) h c = (omega (arith, c.0), (h, c.1))

-- From a source that gives as many acceptable bytes as characters are wanted, the sampling ends with a
-- code of that many characters, each of the alphabet, whatever the other bytes are.
pub random_code-IsCode :
    (n wanted : ℕ) (bytes : List ℕ)
    → 0 < n
    → wanted ≤ accepted n bytes
    → IsCode n wanted (random_code n wanted bytes)
unfolding random_code
random_code-IsCode n zero bytes p h = (refl, tt)
random_code-IsCode n (suc wanted) [] p h = absurd (omega (arith, h))
random_code-IsCode n (suc wanted) (b ∷ bytes) p h = elim (Bool-cases (leb (limit n) b)) [
  | inl high ↦ rw high (random_code-IsCode n (suc wanted) bytes p (omega (arith, rw high at h)))
  | inr low ↦ rw low (
      IsCode-prepend n wanted (b % n) (random_code n wanted bytes) (mod-lt b p)
        (random_code-IsCode n wanted bytes p (omega (arith, rw low at h))))
]

-- How many of the bytes below `b` stand for the character `i`.
unfoldable pub hits : ℕ → ℕ → ℕ → ℕ
hits n i zero = 0
hits n i (suc b) = (if leb (limit n) b then 0 else if b % n == i then 1 else 0) + hits n i b

even_until : ℕ → ℕ → ℕ → Bool
even_until n share zero = true
even_until n share (suc i) = hits n i 256 == share && even_until n share i

even_until_lem :
    (n share bound i : ℕ) → even_until n share bound ≡ true → i < bound → hits n i 256 ≡ share
unfolding even_until
even_until_lem n share zero i h b = absurd (omega (arith, b))
even_until_lem n share (suc last) i h b = elim (dec_lt i last) [
  | yes earlier ↦ even_until_lem n share last i (ground arith) earlier
  | no latest ↦
      subst (λ j. hits n j 256 ≡ share) (omega arith)
        ((==_iff (hits n last 256) share).0 (ground arith))
]

even_10 : even_until 10 25 10 ≡ true
unfolding even_until hits
even_10 = refl

even_23 : even_until 23 11 23 ≡ true
unfolding even_until hits
even_23 = refl

even_29 : even_until 29 8 29 ≡ true
unfolding even_until hits
even_29 = refl

-- Every character of an alphabet is as likely as every other: of the 256 values of a byte, 25 give each
-- of the ten digits, 11 each of the 23 letters, and 8 each of the 29 characters of the mixed alphabet.
pub hits-fair :
    (i : ℕ)
    → (10 ≤ i ⊎ hits 10 i 256 ≡ 25) × (23 ≤ i ⊎ hits 23 i 256 ≡ 11) × (29 ≤ i ⊎ hits 29 i 256 ≡ 8)
hits-fair i = (
  elim (dec_lt i 10) [
    | yes b ↦ inr (even_until_lem 10 25 10 i even_10 b)
    | no b ↦ inl (omega arith)
  ],
  elim (dec_lt i 23) [
    | yes b ↦ inr (even_until_lem 23 11 23 i even_23 b)
    | no b ↦ inl (omega arith)
  ],
  elim (dec_lt i 29) [
    | yes b ↦ inr (even_until_lem 29 8 29 i even_29 b)
    | no b ↦ inl (omega arith)
  ],
)
