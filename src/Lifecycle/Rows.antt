-- ===== src/Lifecycle/Rows.antt =====
-- internal/service/lifecycle.go: what the statements of the patrol keep of the services' rows.
use levis.Base.{
  ℕ, ◌≤◌, ◌==◌, ◌≡◌, refl, Bool, true, false, not, ◌||◌, some, List, [], ◌∙◌, ◌∷◌, arith, inl, inr,
  Bool-cases,
}
use levis.Store.{Service, ServiceStatus, first, update, count}
use levis.Lifecycle.{has_reason}

abbrev pub All : (Service → Bool) → List Service → Type 0
All ok [] = Unit
All ok (r ∷ rows) = (ok r ≡ true) × All ok rows

-- The primary key.
abbrev pub Unique : List Service → Type 0
Unique rows = (k : ℕ) → count (λ (r : Service). r.id == k) rows ≤ 1

pub All-imp :
    (ok known : Service → Bool)
    → ((r : Service) → ok r ≡ true → known r ≡ true)
    → (rows : List Service) → All ok rows
    → All known rows
All-imp ok known imp [] h = tt
All-imp ok known imp (r ∷ rows) (here, later) = (imp r here, All-imp ok known imp rows later)

abbrev pub is_terminated : ServiceStatus → Bool
is_terminated ServiceStatus.terminated = true
is_terminated _ = false

-- Terminated, or about to be.
abbrev pub is_over : Service → Bool
is_over r = is_terminated r.status || has_reason "terminating" r

module _ (p : Service → Bool) (f : Service → Service) where
  -- An update that keeps the ids keeps them unique.
  pub count-update :
      ((r : Service) → (f r).id ≡ r.id)
      → (k : ℕ) (rows : List Service)
      → count (λ (r : Service). r.id == k) (update p f rows) ≡ count (λ r. r.id == k) rows
  count-update same k [] = refl
  count-update same k (r ∷ rows) = elim (Bool-cases (p r)) [
    | inl hit ↦ rw hit (rw (same r, count-update same k rows))
    | inr missed ↦ rw missed (rw (count-update same k rows))
  ]

  pub All-update :
      (ok : Service → Bool)
      → ((r : Service) → p r ≡ true → ok r ≡ true → ok (f r) ≡ true)
      → (rows : List Service) → All ok rows
      → All ok (update p f rows)
  All-update ok keeps [] h = tt
  All-update ok keeps (r ∷ rows) (here, later) = elim (Bool-cases (p r)) [
    | inl hit ↦ rw hit (keeps r hit here, All-update ok keeps rows later)
    | inr missed ↦ rw missed (here, All-update ok keeps rows later)
  ]

  pub All-update_with :
      (ok known : Service → Bool)
      → ((r : Service) → p r ≡ true → ok r ≡ true → known r ≡ true → ok (f r) ≡ true)
      → (rows : List Service) → All ok rows
      → All known rows
      → All ok (update p f rows)
  All-update_with ok known keeps [] h i = tt
  All-update_with ok known keeps (r ∷ rows) (here, later) (this, those) = elim (Bool-cases (p r)) [
    | inl hit ↦ rw hit (keeps r hit here this, All-update_with ok known keeps rows later those)
    | inr missed ↦ rw missed (here, All-update_with ok known keeps rows later those)
  ]

-- Every row with the id has the property.
abbrev pub OfId : ℕ → (Service → Bool) → List Service → Type 0
OfId k g rows = All (λ r. not (r.id == k) || g r) rows

no-OfId :
    (k : ℕ) (g : Service → Bool) (rows : List Service)
    → count (λ (r : Service). r.id == k) rows ≡ 0
    → OfId k g rows
no-OfId k g [] h = tt
no-OfId k g (r ∷ rows) h = (ground arith, no-OfId k g rows (ground arith))

count-le :
    (p q : Service → Bool)
    → ((r : Service) → p r ≡ true → q r ≡ true)
    → (rows : List Service) → count p rows ≤ count q rows
count-le p q sub [] = omega arith
count-le p q sub (r ∷ rows) = ground (arith, sub r, count-le p q sub rows)

-- An update that met exactly one row of a unique id met all that the id has.
module _ (k : ℕ) (p : Service → Bool) (f : Service → Service) (ok g : Service → Bool)
    (of_id : (r : Service) → p r ≡ true → (r.id == k) ≡ true)
    (same : (r : Service) → (f r).id ≡ r.id)
    (make : (r : Service) → p r ≡ true → ok r ≡ true → g (f r) ≡ true) where
  pub one_hit :
      (rows : List Service)
      → count (λ (r : Service). r.id == k) rows ≤ 1
      → count p rows ≡ 1
      → All ok rows
      → OfId k g (update p f rows)
        × ((r : Service) × (first (λ (r : Service). r.id == k) (update p f rows) ≡ some r)
            × (g r ≡ true))
  one_hit [] unique hit h = absurd (omega arith)
  one_hit (r ∷ rows) unique hit (here, later) = elim (Bool-cases (p r)) [
    | inl met ↦
        (let mine : ((f r).id == k) ≡ true = rw (same r) (of_id r met) in
          let none_left : count (λ (r : Service). r.id == k) rows ≡ 0 =
            ground (arith, of_id r met) in
          let rest : OfId k g (update p f rows) =
            no-OfId k g (update p f rows) (count-update p f same k rows ∙ none_left) in
          rw met (rw mine ((make r met here, rest), (f r, refl, make r met here))))
    | inr missed ↦
        (let below = count-le p (λ (r : Service). r.id == k) of_id rows in
          let other_ : (r.id == k) ≡ false = ground (arith, below) in
          let rest = one_hit rows (ground (arith, other_)) (ground (arith, missed)) later in
          rw missed (rw other_ ((refl, rest.0), rest.1)))
  ]
