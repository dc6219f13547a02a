-- ===== src/Ticket.antt =====
-- internal/service/ticket.go: the checks of what a user writes and the name under which an attachment is shown.
-- A string of Go is the list of its runes, and `trim` stands for `strings.TrimSpace`.
pub mod Names
pub mod Replies
pub mod Outcomes
pub mod Owners
mod Tests
use levis.Base.{
  ℕ, zero, suc, ◌==◌, Bool, true, false, not, ◌&&◌, ◌||◌, Option, none, some, List, [], ◌∷◌, map,
  ltb, if◌then◌else◌, length, keep,
}
use levis.Store.{Error, bad_request, Result, ok, err}

abbrev pub max_ticket_subject_len : ℕ
max_ticket_subject_len = 200

abbrev pub max_ticket_body_len : ℕ
max_ticket_body_len = 10000

abbrev pub max_name_len : ℕ
max_name_len = 255

-- `strings.ReplaceAll(name, "\\", "/")` at one rune
abbrev pub to_slash : ℕ → ℕ
to_slash c = if c == 92 then 47 else c

abbrev pub nearer : ℕ → List ℕ → Option (List ℕ) → Option (List ℕ)
nearer c cs (some rest) = some rest
nearer c cs none = if c == 47 then some cs else none

-- What follows the last slash.
unfoldable pub after_slash : List ℕ → Option (List ℕ)
after_slash [] = none
after_slash (c ∷ cs) = nearer c cs (after_slash cs)

abbrev pub or_all : List ℕ → Option (List ℕ) → List ℕ
or_all cs none = cs
or_all cs (some rest) = rest

unfoldable pub base_name : List ℕ → List ℕ
unfolding after_slash
base_name cs = or_all cs (after_slash cs)

-- The runes that `strings.Map` leaves: no control characters, no double quote.
abbrev pub is_shown : ℕ → Bool
is_shown c = not (ltb c 32 || c == 127 || c == 34)

-- The empty name, "." and "..".
abbrev pub is_dots : List ℕ → Bool
is_dots [] = true
is_dots (c ∷ []) = c == 46
is_dots (c ∷ d ∷ []) = c == 46 && d == 46
is_dots (c ∷ d ∷ e ∷ rest) = false

abbrev pub take : ℕ → List ℕ → List ℕ
take zero cs = []
take (suc n) [] = []
take (suc n) (c ∷ cs) = c ∷ take n cs

-- "attachment"
abbrev pub attachment : List ℕ
attachment = 97 ∷ 116 ∷ 116 ∷ 97 ∷ 99 ∷ 104 ∷ 109 ∷ 101 ∷ 110 ∷ 116 ∷ []

-- What is done with the trimmed name.
unfoldable pub name_or_default : List ℕ → List ℕ
name_or_default cs =
    if is_dots cs
    then attachment
    else (if ltb max_name_len (length cs) then take max_name_len cs else cs)

-- `validateSubject`
unfoldable pub validate_subject : List ℕ → Result (Unit {0})
validate_subject subject =
    if length subject == 0
    then err (bad_request "请填写工单主题")
    else (if ltb max_ticket_subject_len (length subject)
        then err (bad_request "主题不能超过 %d 个字符")
        else ok tt)

module _ (trim : List ℕ → List ℕ) where
  -- `safeFileName`
  unfoldable pub safe_file_name : List ℕ → List ℕ
  unfolding base_name name_or_default
  safe_file_name name = name_or_default (trim (keep is_shown (base_name (map to_slash name))))

  -- `validateBody`
  unfoldable pub validate_body : List ℕ → Result (List ℕ)
  validate_body body =
      let trimmed = trim body in
      if length trimmed == 0
      then err (bad_request "请填写内容")
      else (if ltb max_ticket_body_len (length trimmed)
          then err (bad_request "内容不能超过 %d 个字符")
          else ok trimmed)
