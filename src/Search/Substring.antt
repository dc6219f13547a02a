-- ===== src/Search/Substring.antt =====
-- internal/service/validate.go, `escapeLike`: a search by keyword is a search for a substring.
use levis.Base.{
  ◌==◌, not, arith, ℕ, ◌≡◌, refl, ap, ◌∙◌, Bool, true, false, ◌&&◌, ◌||◌, List, [], ◌∷◌, ◌++◌,
  Bool-cases, inl, inr,
}
use levis.Search.{is_special, escape_like, search_pattern}

-- Not `%`, `_` or `\`.
abbrev pub is_plain : ℕ → Bool
is_plain c = not (c == 37) && not (c == 95) && not (c == 92)

is_special-plain : (c : ℕ) → is_special c ≡ false → is_plain c ≡ true
is_special-plain c h = ground arith

-- The operator `LIKE ... ESCAPE '\'` of a database, as its documentation has it: `same` is the
-- collation's equality of two characters, `%` stands for any string, `\` takes the next character as
-- it is, and a plain character stands for itself.
pub record Like : Type 0 where
  pub same : ℕ → ℕ → Bool
  pub like : List ℕ → List ℕ → Bool
  pub end_nil : like [] [] ≡ true
  pub any_nil : (p : List ℕ) → like (37 ∷ p) [] ≡ like p []
  pub any_cons :
      (p : List ℕ) (d : ℕ) (s : List ℕ)
      → like (37 ∷ p) (d ∷ s) ≡ (like p (d ∷ s) || like (37 ∷ p) s)
  pub escaped_nil : (c : ℕ) (p : List ℕ) → like (92 ∷ c ∷ p) [] ≡ false
  pub escaped_cons :
      (c : ℕ) (p : List ℕ) (d : ℕ) (s : List ℕ) → like (92 ∷ c ∷ p) (d ∷ s) ≡ (same c d && like p s)
  pub plain_nil : (c : ℕ) (p : List ℕ) → is_plain c ≡ true → like (c ∷ p) [] ≡ false
  pub plain_cons :
      (c : ℕ) (p : List ℕ) (d : ℕ) (s : List ℕ)
      → is_plain c ≡ true
      → like (c ∷ p) (d ∷ s) ≡ (same c d && like p s)

or_true : (b : Bool) → (b || true) ≡ true
or_true true = refl
or_true false = refl

unfoldable pub is_prefix : (ℕ → ℕ → Bool) → List ℕ → List ℕ → Bool
is_prefix same [] s = true
is_prefix same (c ∷ q) [] = false
is_prefix same (c ∷ q) (d ∷ s) = same c d && is_prefix same q s

-- A string stands somewhere in another.
unfoldable pub contains : (ℕ → ℕ → Bool) → List ℕ → List ℕ → Bool
unfolding is_prefix
contains same q [] = is_prefix same q []
contains same q (d ∷ s) = is_prefix same q (d ∷ s) || contains same q s

module _ (l : Like) where
  open l use {
    same, like, end_nil, any_nil, any_cons, escaped_nil, escaped_cons, plain_nil, plain_cons,
  }

  like_any : (s : List ℕ) → like (37 ∷ []) s ≡ true
  like_any [] = any_nil [] ∙ end_nil
  like_any (d ∷ s) = rw (any_cons [] d s, like_any s, or_true (like [] (d ∷ s)))

  -- One character of the keyword, escaped or not.
  like_cons :
      (c : ℕ) (q : List ℕ) (d : ℕ) (s : List ℕ)
      → like (escape_like (c ∷ q) ++ 37 ∷ []) (d ∷ s)
        ≡ (same c d && like (escape_like q ++ 37 ∷ []) s)
  unfolding escape_like
  like_cons c q d s = elim (Bool-cases (is_special c)) [
    | inl h ↦ rw (h, escaped_cons c (escape_like q ++ 37 ∷ []) d s)
    | inr h ↦ rw (h, plain_cons c (escape_like q ++ 37 ∷ []) d s (is_special-plain c h))
  ]

  like_nil : (c : ℕ) (q : List ℕ) → like (escape_like (c ∷ q) ++ 37 ∷ []) [] ≡ false
  unfolding escape_like
  like_nil c q = elim (Bool-cases (is_special c)) [
    | inl h ↦ rw (h, escaped_nil c (escape_like q ++ 37 ∷ []))
    | inr h ↦ rw (h, plain_nil c (escape_like q ++ 37 ∷ []) (is_special-plain c h))
  ]

  like-escape_like : (q s : List ℕ) → like (escape_like q ++ 37 ∷ []) s ≡ is_prefix same q s
  unfolding escape_like is_prefix
  like-escape_like [] s = like_any s
  like-escape_like (c ∷ q) [] = like_nil c q
  like-escape_like (c ∷ q) (d ∷ s) =
      like_cons c q d s ∙ ap (λ b. same c d && b) (like-escape_like q s)

  -- The pattern of a keyword accepts exactly the strings that the keyword stands in, character by
  -- character as the collation compares them, whatever `%`, `_` and `\` the keyword has.
  pub like-search_pattern : (q s : List ℕ) → like (search_pattern q) s ≡ contains same q s
  unfolding search_pattern contains
  like-search_pattern q [] = any_nil (escape_like q ++ 37 ∷ []) ∙ like-escape_like q []
  like-search_pattern q (d ∷ s) =
      rw (
        any_cons (escape_like q ++ 37 ∷ []) d s,
        like-escape_like q (d ∷ s),
        like-search_pattern q s,
      )
