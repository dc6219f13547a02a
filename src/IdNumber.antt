-- ===== src/IdNumber.antt =====
-- internal/service/validate.go, `ValidateIDNumber`: the check character of an identity number. A string
-- is the list of its bytes, and `normalize` stands for `strings.ToUpper(strings.TrimSpace(id))`.
pub mod Digits
mod Tests
use levis.Base.{
  ℕ, zero, suc, ◌+◌, ◌-◌, ◌*◌, ◌%◌, ◌==◌, Bool, not, ◌&&◌, ◌||◌, Option, none, some, List, [], ◌∷◌,
  if◌then◌else◌, leb, length,
}
use levis.Store.{Error, bad_request, Result, ok, err}

abbrev pub id_weights : List ℕ
id_weights = 7 ∷ 9 ∷ 10 ∷ 5 ∷ 8 ∷ 4 ∷ 2 ∷ 1 ∷ 6 ∷ 3 ∷ 7 ∷ 9 ∷ 10 ∷ 5 ∷ 8 ∷ 4 ∷ 2 ∷ []

-- The bytes of 1 0 X 9 8 7 6 5 4 3 2.
abbrev pub id_check_codes : List ℕ
id_check_codes = 49 ∷ 48 ∷ 88 ∷ 57 ∷ 56 ∷ 55 ∷ 54 ∷ 53 ∷ 52 ∷ 51 ∷ 50 ∷ []

-- An index of an array; the code reads within its bounds.
abbrev pub byte_at : List ℕ → ℕ → ℕ
byte_at [] i = 0
byte_at (c ∷ cs) zero = c
byte_at (c ∷ cs) (suc i) = byte_at cs i

abbrev pub is_digit : ℕ → Bool
is_digit c = leb 48 c && leb c 57

-- The loop over the weights: the sum, and the bytes that are left.
unfoldable pub weigh : List ℕ → List ℕ → ℕ → Option (ℕ × List ℕ)
weigh [] cs sum = some (sum, cs)
weigh (w ∷ ws) [] sum = none
weigh (w ∷ ws) (c ∷ cs) sum =
    let rest = weigh ws cs (sum + (c - 48) * w) in if is_digit c then rest else none

-- What follows the loop.
unfoldable pub check_last : Option (ℕ × List ℕ) → List ℕ → Result (List ℕ)
check_last none id = err (bad_request "身份证号前 17 位必须是数字")
check_last (some (sum, cs)) id =
    let last = byte_at cs 0 in
    if not (last == 88) && not (is_digit last)
    then err (bad_request "身份证号末位必须是数字或 X")
    else (if not (byte_at id_check_codes (sum % 11) == last)
        then err (bad_request "身份证号校验位不正确，请核对后重填")
        else ok id)

-- `ValidateIDNumber`, after the normalization
unfoldable pub check_id : List ℕ → Result (List ℕ)
unfolding weigh check_last
check_id id =
    if not (length id == 18)
    then err (bad_request "身份证号需为 18 位")
    else check_last (weigh id_weights id 0) id

unfoldable pub validate_id_number : (List ℕ → List ℕ) → List ℕ → Result (List ℕ)
unfolding check_id
validate_id_number normalize id = check_id (normalize id)
