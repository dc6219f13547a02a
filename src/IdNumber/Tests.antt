-- ===== src/IdNumber/Tests.antt =====
-- internal/service/validate.go: an example of an identity number.
use levis.Base.{ℕ, ◌≡◌, ◌≢◌, refl, List, [], ◌∷◌, ◌++◌, arith}
use levis.Store.{ok}
use levis.IdNumber.{validate_id_number, check_id, check_last, weigh}
use levis.IdNumber.Digits.{validate_id_number-one_wrong}

abbrev start : List ℕ
start = 49 ∷ 49 ∷ 48 ∷ 49 ∷ 48 ∷ 53 ∷ 49 ∷ 57 ∷ 52 ∷ 57 ∷ 49 ∷ 50 ∷ 51 ∷ []

abbrev end : List ℕ
end = 48 ∷ 48 ∷ 50 ∷ 88 ∷ []

abbrev one : ℕ
one = 49

abbrev two : ℕ
two = 50

abbrev number : List ℕ
number = start ++ one ∷ end

abbrev mistyped : List ℕ
mistyped = start ++ two ∷ end

abbrev same : List ℕ → List ℕ
same id = id

different : one ≢ two
different e = absurd (omega (arith, e))

number_accepted : validate_id_number same number ≡ ok number
unfolding validate_id_number check_id check_last weigh
number_accepted = refl

validate_id_number-one_wrong_example : validate_id_number same mistyped ≢ ok mistyped
validate_id_number-one_wrong_example =
    validate_id_number-one_wrong same number mistyped start end number mistyped one two refl refl
      (omega arith) different number_accepted
