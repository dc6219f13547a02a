-- ===== src/Ticket/Names.antt =====
-- internal/service/ticket.go, `safeFileName`: no name of an attachment is a path or breaks out of a header.
use levis.Base.{ℕ, ◌==◌, ◌≤◌, ◌≡◌, Bool, true, false, not, ◌&&◌, List, [], ◌∷◌, length}
use levis.Ticket.{is_shown, is_dots}

abbrev pub all : (ℕ → Bool) → List ℕ → Bool
all p [] = true
all p (c ∷ cs) = p c && all p cs

-- Trimming keeps no rune that was not there.
abbrev pub Trims : (List ℕ → List ℕ) → Type 0
Trims trim = (p : ℕ → Bool) (cs : List ℕ) → all p cs ≡ true → all p (trim cs) ≡ true

-- Neither a separator of paths, nor a control character, nor the quote that ends a name in a header.
abbrev pub is_harmless : ℕ → Bool
is_harmless c = is_shown c && (not (c == 47) && not (c == 92))

pub record IsFileName (name : List ℕ) : Type 0 where
  pub harmless : all is_harmless name ≡ true
  pub named : is_dots name ≡ false
  pub short : length name ≤ 255

abbrev no_backslash : ℕ → Bool
no_backslash c = not (c == 92)

abbrev no_separator : ℕ → Bool
no_separator c = not (c == 47) && not (c == 92)
