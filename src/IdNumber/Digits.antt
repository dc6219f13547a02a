-- ===== src/IdNumber/Digits.antt =====
-- internal/service/validate.go, `ValidateIDNumber`: one digit that is wrong.
use levis.Base.{
  ℕ, zero, suc, ◌+◌, ◌-◌, ◌*◌, ◌%◌, ◌≤◌, ◌<◌, ◌≡◌, ◌≢◌, ◌==◌, refl, sym, ap, ◌∙◌, true, Option,
  none, some, List, [], ◌∷◌, ◌++◌, arith, length, Bool-cases, inl, inr, if◌then◌else◌,
}
use levis.Store.{ok, err, Error}
use levis.IdNumber.{
  id_weights, id_check_codes, byte_at, is_digit, weigh, check_last, check_id, validate_id_number,
}
use native.Mathlib.Nat.{mod-lt}

-- A digit that is weighed by `w` cannot change and leave the sum as it was modulo 11.
abbrev Detects : ℕ → Type 0
Detects w = (a b s t : ℕ) → a ≤ 9 → b ≤ 9 → s + b * w ≡ t + a * w → s % 11 ≡ t % 11 → a ≡ b

abbrev AllDetect : List ℕ → Type 0
AllDetect [] = Unit
AllDetect (w ∷ ws) = Detects w × AllDetect ws

Detects-1 : Detects 1
Detects-1 a b s t h k e m = omega arith

Detects-2 : Detects 2
Detects-2 a b s t h k e m = omega arith

Detects-3 : Detects 3
Detects-3 a b s t h k e m = omega arith

Detects-4 : Detects 4
Detects-4 a b s t h k e m = omega arith

Detects-5 : Detects 5
Detects-5 a b s t h k e m = omega arith

Detects-6 : Detects 6
Detects-6 a b s t h k e m = omega arith

Detects-7 : Detects 7
Detects-7 a b s t h k e m = omega arith

Detects-8 : Detects 8
Detects-8 a b s t h k e m = omega arith

Detects-9 : Detects 9
Detects-9 a b s t h k e m = omega arith

Detects-10 : Detects 10
Detects-10 a b s t h k e m = omega arith

id_weights_detect : AllDetect id_weights
id_weights_detect = (
  Detects-7,
  (
    Detects-9,
    (
      Detects-10,
      (
        Detects-5,
        (
          Detects-8,
          (
            Detects-4,
            (
              Detects-2,
              (
                Detects-1,
                (
                  Detects-6,
                  (
                    Detects-3,
                    (
                      Detects-7,
                      (
                        Detects-9,
                        (Detects-10, (Detects-5, (Detects-8, (Detects-4, (Detects-2, tt))))),
                      ),
                    ),
                  ),
                ),
              ),
            ),
          ),
        ),
      ),
    ),
  ),
)

-- The position of a check character.
position : List ℕ → ℕ → ℕ
position [] c = 0
position (x ∷ xs) c = if x == c then 0 else suc (position xs c)

positions : (i : ℕ) → i < 11 → position id_check_codes (byte_at id_check_codes i) ≡ i
unfolding position
positions zero h = refl
positions (suc zero) h = refl
positions (suc (suc zero)) h = refl
positions (suc (suc (suc zero))) h = refl
positions (suc (suc (suc (suc zero)))) h = refl
positions (suc (suc (suc (suc (suc zero))))) h = refl
positions (suc (suc (suc (suc (suc (suc zero)))))) h = refl
positions (suc (suc (suc (suc (suc (suc (suc zero))))))) h = refl
positions (suc (suc (suc (suc (suc (suc (suc (suc zero)))))))) h = refl
positions (suc (suc (suc (suc (suc (suc (suc (suc (suc zero))))))))) h = refl
positions (suc (suc (suc (suc (suc (suc (suc (suc (suc (suc zero)))))))))) h = refl
positions (suc (suc (suc (suc (suc (suc (suc (suc (suc (suc (suc n))))))))))) h =
    absurd (omega (arith, h))

no_sum : {o : ℕ × List ℕ} → none ≡ some o → ⊥
no_sum e = cc

-- A step of the loop that goes on read a digit.
weigh_inv :
    (w c s : ℕ) (ws cs : List ℕ) (o : ℕ × List ℕ)
    → weigh (w ∷ ws) (c ∷ cs) s ≡ some o
    → (is_digit c ≡ true) × (weigh ws cs (s + (c - 48) * w) ≡ some o)
unfolding weigh
weigh_inv w c s ws cs o h = elim (Bool-cases (is_digit c)) [
  | inl digit ↦ (digit, rw digit at h)
  | inr none_ ↦ absurd (no_sum (rw none_ at h))
]

-- From another sum the loop ends with a sum that differs as much, and the same rest.
weigh_shift :
    (ws cs : List ℕ) (s s' t t' : ℕ) (r r' : List ℕ)
    → weigh ws cs s ≡ some (t, r)
    → weigh ws cs s' ≡ some (t', r')
    → (t + s' ≡ t' + s) × (r ≡ r')
unfolding weigh
weigh_shift [] cs s s' t t' r r' h k = ground arith
weigh_shift (w ∷ ws) [] s s' t t' r r' h k = absurd (no_sum h)
weigh_shift (w ∷ ws) (c ∷ cs) s s' t t' r r' h k =
    let (sums, rests) =
      weigh_shift ws cs (s + (c - 48) * w) (s' + (c - 48) * w) t t' r r'
        (weigh_inv w c s ws cs (t, r) h).1 (weigh_inv w c s' ws cs (t', r') k).1 in
    (omega (arith, sums), rests)

digit_value : (c d : ℕ) → is_digit c ≡ true → is_digit d ≡ true → c - 48 ≡ d - 48 → c ≡ d
digit_value c d h k e = ground arith

digit_bound : (c : ℕ) → is_digit c ≡ true → c - 48 ≤ 9
digit_bound c h = ground arith

-- One byte that changes among the weighed ones.
weigh_change :
    (ws before after : List ℕ) (c d s t t' : ℕ) (r r' : List ℕ)
    → AllDetect ws
    → length before < length ws
    → weigh ws (before ++ c ∷ after) s ≡ some (t, r)
    → weigh ws (before ++ d ∷ after) s ≡ some (t', r')
    → (r ≡ r') × (t % 11 ≡ t' % 11 → c ≡ d)
weigh_change [] before after c d s t t' r r' found b h k = absurd (omega (arith, b))
weigh_change (w ∷ ws) [] after c d s t t' r r' found b h k =
    let (dc, hc) = weigh_inv w c s ws after (t, r) h in
    let (dd, hd) = weigh_inv w d s ws after (t', r') k in
    let (sums, rests) =
      weigh_shift ws after (s + (c - 48) * w) (s + (d - 48) * w) t t' r r' hc hd in
    (
      rests,
      λ same. digit_value c d dc dd (
          found.0 (c - 48) (d - 48) t t' (digit_bound c dc) (digit_bound d dd) (omega (arith, sums))
            same),
    )
weigh_change (w ∷ ws) (x ∷ before) after c d s t t' r r' found b h k =
    weigh_change ws before after c d (s + (x - 48) * w) t t' r r' found.1 (omega (arith, b))
      (weigh_inv w x s ws (before ++ c ∷ after) (t, r) h).1
      (weigh_inv w x s ws (before ++ d ∷ after) (t', r') k).1

abbrev Weighed : Option (ℕ × List ℕ) → Type 0
Weighed o =
    (t : ℕ) × (r : List ℕ) × (o ≡ some (t, r)) × (byte_at id_check_codes (t % 11) ≡ byte_at r 0)

check_last_inv : (o : Option (ℕ × List ℕ)) (id out : List ℕ) → check_last o id ≡ ok out → Weighed o
unfolding check_last
check_last_inv none id out h = cc
check_last_inv (some (t, r)) id out h = (t, r, refl, ground arith)

check_id_inv : (id out : List ℕ) → check_id id ≡ ok out → Weighed (weigh id_weights id 0)
unfolding check_id
check_id_inv id out h = elim (Bool-cases (length id == 18)) [
  | inl long ↦ check_last_inv (weigh id_weights id 0) id out (rw long at h)
  | inr short ↦ absurd (no_ok (rw short at h))
]
  where
    no_ok : {e : Error} → err e ≡ ok out → ⊥
    no_ok e = cc

validate_id_number-digits :
    (normalize : List ℕ → List ℕ) (id id' before after out out' : List ℕ) (c d : ℕ)
    → normalize id ≡ before ++ c ∷ after
    → normalize id' ≡ before ++ d ∷ after
    → length before < 17
    → validate_id_number normalize id ≡ ok out
    → validate_id_number normalize id' ≡ ok out'
    → c ≡ d
unfolding validate_id_number
validate_id_number-digits normalize id id' before after out out' c d e e' b h h' =
    let (t, r, w, last) = check_id_inv (before ++ c ∷ after) out (rw e at h) in
    let (t', r', w', last') = check_id_inv (before ++ d ∷ after) out' (rw e' at h') in
    let (rests, found) =
      weigh_change id_weights before after c d 0 t t' r r' id_weights_detect b w w' in
    let codes : byte_at id_check_codes (t % 11) ≡ byte_at id_check_codes (t' % 11) =
      last ∙ ap (λ cs. byte_at cs 0) rests ∙ sym last' in
    found (
      sym (positions (t % 11) (mod-lt t (omega arith)))
      ∙ ap (position id_check_codes) codes
      ∙ positions (t' % 11) (mod-lt t' (omega arith)))

-- If an identity number is accepted, no number that differs from it in exactly one of the first seventeen
-- characters is accepted: the check character finds every single wrong digit.
pub validate_id_number-one_wrong :
    (normalize : List ℕ → List ℕ) (id id' before after out out' : List ℕ) (c d : ℕ)
    → normalize id ≡ before ++ c ∷ after
    → normalize id' ≡ before ++ d ∷ after
    → length before < 17
    → c ≢ d
    → validate_id_number normalize id ≡ ok out
    → validate_id_number normalize id' ≢ ok out'
validate_id_number-one_wrong normalize id id' before after out out' c d e e' b ne h h' =
    ne (validate_id_number-digits normalize id id' before after out out' c d e e' b h h')
