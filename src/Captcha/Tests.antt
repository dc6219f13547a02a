-- ===== src/Captcha/Tests.antt =====
-- The store of challenges on concrete calls. The answers are taken as they are given.
use levis.Base.{◌≡◌, refl, ◌≤◌, true, false, some, List, [], ◌∷◌, String, arith, length}
use levis.Captcha.{max_entries, issue, verify, random_code}
use levis.Captcha.Bounds.{Call, issue_at, verify_at, run, length-run}
use levis.Captcha.Once.{answer_all, verify-verify, verify-issue}
use levis.Captcha.Sampling.{IsCode, random_code-IsCode}

abbrev as_given : String → String
as_given s = s

abbrev calls : List Call
calls = issue_at "a" "K7Q2" 0 ∷ issue_at "b" "M3P4" 1 ∷ verify_at "a" "K7Q2" 2 ∷ []

length-run_example : length (run as_given calls []) ≤ max_entries
length-run_example = length-run as_given calls

verify-verify_example :
    (verify as_given "a" "K7Q2" 3 (verify as_given "a" "K7Q9" 2 (issue "a" "K7Q2" 0 [])).1).0
    ≡ false
verify-verify_example =
    verify-verify as_given "a" "K7Q9" refl refl "K7Q2" 2 3 (issue "a" "K7Q2" 0 [])

verify-issue_example :
    (verify as_given "a" "K7Q2" 7
      (answer_all as_given (("b", "M3P4", 5) ∷ []) (issue "a" "K7Q2" 0 (issue "b" "M3P4" 0 [])))).0
    ≡ true
verify-issue_example =
    verify-issue as_given "a" "K7Q2" refl refl "K7Q2" 0 7 (issue "b" "M3P4" 0 [])
      (("b", "M3P4", 5) ∷ []) (refl, tt) refl (omega arith)

-- 251 is not accepted for ten characters; 17 and 5 stand for the characters 7 and 5.
random_code-IsCode_example : IsCode 10 2 (random_code 10 2 (251 ∷ 17 ∷ 5 ∷ []))
random_code-IsCode_example = random_code-IsCode 10 2 (251 ∷ 17 ∷ 5 ∷ []) (omega arith) (omega arith)

code_of_bytes : random_code 10 2 (251 ∷ 17 ∷ 5 ∷ []) ≡ some (7 ∷ 5 ∷ [])
unfolding random_code
code_of_bytes = refl
