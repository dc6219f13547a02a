-- ===== src/Search.antt =====
-- internal/service/validate.go, `escapeLike`, and internal/service/admin.go, the pattern by which users
-- are looked up. A string is the list of its code points; `%` is 37, `\` is 92 and `_` is 95.
pub mod Substring
mod Tests
use levis.Base.{ℕ, ◌==◌, Bool, ◌||◌, List, [], ◌∷◌, ◌++◌, if◌then◌else◌}

abbrev pub is_special : ℕ → Bool
is_special c = c == 37 || (c == 95 || c == 92)

unfoldable pub escape_like : List ℕ → List ℕ
escape_like [] = []
escape_like (c ∷ s) = let rest = escape_like s in if is_special c then 92 ∷ c ∷ rest else c ∷ rest

unfoldable pub search_pattern : List ℕ → List ℕ
unfolding escape_like
search_pattern keyword = 37 ∷ (escape_like keyword ++ 37 ∷ [])
