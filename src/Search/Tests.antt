-- ===== src/Search/Tests.antt =====
-- internal/service/validate.go, `escapeLike`: an example of a search, with a matcher by clauses for the
-- operator of the database.
use levis.Base.{
  ℕ, ◌==◌, ◌≡◌, refl, Bool, true, false, ◌&&◌, ◌||◌, List, [], ◌∷◌, if◌then◌else◌, arith,
}
use levis.Search.{escape_like, search_pattern}
use levis.Search.Substring.{Like, is_plain, is_prefix, contains, like-search_pattern}

-- `check` on some string that the given one ends with.
abbrev on_suffix : (List ℕ → Bool) → List ℕ → Bool
on_suffix check [] = check []
on_suffix check (d ∷ s) = check (d ∷ s) || on_suffix check s

abbrev on_cons : (ℕ → Bool) → (List ℕ → Bool) → List ℕ → Bool
on_cons head tail [] = false
on_cons head tail (d ∷ s) = head d && tail s

abbrev is_empty : List ℕ → Bool
is_empty [] = true
is_empty (d ∷ s) = false

abbrev special_like : ℕ → (List ℕ → Bool) → List ℕ → Bool
special_like c rest s =
    if c == 37 then on_suffix rest s else if c == 95 then on_cons (λ _. true) rest s else false

unfoldable matcher : List ℕ → List ℕ → Bool
matcher [] s = is_empty s
matcher (c ∷ []) s =
    if is_plain c then on_cons (λ d. c == d) is_empty s else special_like c is_empty s
matcher (c ∷ e ∷ p) s =
    let rest = matcher (e ∷ p) in
    let after = matcher p in
    if c == 92
    then on_cons (λ d. e == d) after s
    else if is_plain c
    then on_cons (λ d. c == d) rest s
    else special_like c rest s

any_nil : (p : List ℕ) → matcher (37 ∷ p) [] ≡ matcher p []
unfolding matcher
any_nil [] = refl
any_nil (e ∷ p) = refl

any_cons :
    (p : List ℕ) (d : ℕ) (s : List ℕ)
    → matcher (37 ∷ p) (d ∷ s) ≡ (matcher p (d ∷ s) || matcher (37 ∷ p) s)
unfolding matcher
any_cons [] d s = refl
any_cons (e ∷ p) d s = refl

plain_is : (c : ℕ) → is_plain c ≡ true → (c == 92) ≡ false
plain_is c h = ground arith

plain_nil : (c : ℕ) (p : List ℕ) → is_plain c ≡ true → matcher (c ∷ p) [] ≡ false
unfolding matcher
plain_nil c [] h = rw h refl
plain_nil c (e ∷ p) h = rw (h, plain_is c h)

plain_cons :
    (c : ℕ) (p : List ℕ) (d : ℕ) (s : List ℕ)
    → is_plain c ≡ true
    → matcher (c ∷ p) (d ∷ s) ≡ ((c == d) && matcher p s)
unfolding matcher
plain_cons c [] d s h = rw h refl
plain_cons c (e ∷ p) d s h = rw (h, plain_is c h)

unfoldable database : Like
unfolding matcher
database = record {
  same = λ c d. c == d;
  like = matcher;
  end_nil = refl;
  any_nil = any_nil;
  any_cons = any_cons;
  escaped_nil = λ c p. refl;
  escaped_cons = λ c p d s. refl;
  plain_nil = plain_nil;
  plain_cons = plain_cons;
}

abbrev keyword : List ℕ
keyword = 53 ∷ 37 ∷ []

abbrev name : List ℕ
name = 97 ∷ 53 ∷ 37 ∷ 98 ∷ []

-- `5%` is looked up as it stands, and `50` does not fit it.
finds_percent : contains (λ c d. c == d) keyword name ≡ true
unfolding contains is_prefix
finds_percent = refl

rejects_zero : matcher (search_pattern keyword) (53 ∷ 48 ∷ []) ≡ false
unfolding matcher search_pattern escape_like
rejects_zero = refl

like-search_pattern_example :
    database.like (search_pattern keyword) name ≡ contains database.same keyword name
like-search_pattern_example = like-search_pattern database keyword name
