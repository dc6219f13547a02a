-- ===== src/Store/Steps.antt =====
-- Stepping through code on the database: one rule for each kind of first line, for any property `Q` of
-- the outcome. Each error of the driver leaves the tables alone.
use levis.Base.{
  ◌+◌, ◌≡◌, refl, Bool, true, false, Option, none, some, inl, inr, Bool-cases, Option-cases,
}
use levis.Store.Rows.{Db}
use levis.Store.Monad.{
  World, Result, ok, err, Error, driver, Action, raise_if, statement, checked, select, ◌>>=◌,
  transaction, settle, continue, catch, recover, lift, when,
}

-- The world after one more statement, with these tables.
abbrev pub stepped : World → Db → World
stepped w d = record w { step = w.step + 1; db = d }

module _ {ℓ κ μ} {A : Type ℓ} {B : Type μ} (Q : Result B × World → Type κ) where
  pub after_statement :
      (f : Db → A × Db) (k : A → Action B) (w : World)
      → Q (err driver, stepped w w.db)
      → Q (k (f w.db).0 (stepped w (f w.db).1))
      → Q ((statement f >>= k) w)
  unfolding statement ◌>>=◌
  after_statement f k w failed done = elim (Bool-cases (w.fails w.step)) [
    | inl fails ↦ rw fails failed
    | inr runs ↦ rw runs done
  ]

  pub after_checked :
      (bad : Db → Bool) (e : Error) (f : Db → A × Db) (k : A → Action B) (w : World)
      → Q (err driver, stepped w w.db)
      → (bad w.db ≡ true → Q (err e, stepped w w.db))
      → (bad w.db ≡ false → Q (k (f w.db).0 (stepped w (f w.db).1)))
      → Q ((checked bad e f >>= k) w)
  unfolding checked ◌>>=◌
  after_checked bad e f k w failed refused done = elim (Bool-cases (w.fails w.step)) [
    | inl fails ↦ rw fails failed
    | inr runs ↦
        rw runs (elim (Bool-cases (bad w.db)) [ inl b ↦ rw b (refused b) | inr b ↦ rw b (done b) ])
  ]

  pub after_select :
      (f : Db → Option A) (e : Error) (k : A → Action B) (w : World)
      → Q (err driver, stepped w w.db)
      → (f w.db ≡ none → Q (err e, stepped w w.db))
      → ((a : A) → f w.db ≡ some a → Q (k a (stepped w w.db)))
      → Q ((select f e >>= k) w)
  unfolding select ◌>>=◌
  after_select f e k w failed absent present = elim (Bool-cases (w.fails w.step)) [
    | inl fails ↦ rw fails failed
    | inr runs ↦ rw runs (elim (Option-cases (f w.db)) [
      | inl missing ↦ rw missing (absent missing)
      | inr (a, found) ↦ rw found (present a found)
    ])
  ]

  pub after_action :
      (m : Action A) (k : A → Action B) (w : World)
      → ((a : A) (v : World) → m w ≡ (ok a, v) → Q (k a v))
      → ((e : Error) (v : World) → m w ≡ (err e, v) → Q (err e, v))
      → Q ((m >>= k) w)
  unfolding ◌>>=◌
  after_action m k w done failed = go (m w) done failed
    where
      go :
          (r : Result A × World)
          → ((a : A) (v : World) → r ≡ (ok a, v) → Q (k a v))
          → ((e : Error) (v : World) → r ≡ (err e, v) → Q (err e, v))
          → Q (continue r k)
      go (ok a, v) good bad = good a v refl
      go (err e, v) good bad = bad e v refl

  pub after_lift :
      (r : Result A) (k : A → Action B) (w : World)
      → ((e : Error) → r ≡ err e → Q (err e, w))
      → ((a : A) → r ≡ ok a → Q (k a w))
      → Q ((lift r >>= k) w)
  unfolding lift ◌>>=◌
  after_lift (ok a) k w failed done = done a refl
  after_lift (err e) k w failed done = failed e refl

module _ {κ μ} {B : Type μ} (Q : Result B × World → Type κ) where
  pub after_raise_if :
      (b : Bool) (e : Error) (k : Unit {0} → Action B) (w : World)
      → (b ≡ true → Q (err e, w))
      → (b ≡ false → Q (k tt w))
      → Q ((raise_if b e >>= k) w)
  unfolding raise_if ◌>>=◌
  after_raise_if true e k w raised passed = raised refl
  after_raise_if false e k w raised passed = passed refl

  pub after_when :
      (b : Bool) (m : Action (Unit {0})) (k : Unit {0} → Action B) (w : World)
      → (b ≡ true → Q ((m >>= k) w))
      → (b ≡ false → Q (k tt w))
      → Q ((when b m >>= k) w)
  unfolding when ◌>>=◌
  after_when true m k w run skip = run refl
  after_when false m k w run skip = skip refl

  pub last_statement :
      (f : Db → B × Db) (w : World)
      → Q (err driver, stepped w w.db)
      → Q (ok (f w.db).0, stepped w (f w.db).1)
      → Q (statement f w)
  unfolding statement
  last_statement f w failed done = elim (Bool-cases (w.fails w.step)) [
    | inl fails ↦ rw fails failed
    | inr runs ↦ rw runs done
  ]

  -- A transaction ends with the body's tables, or with an error and the tables that it began with.
  pub last_transaction :
      (m : Action B) (w : World)
      → ((e : Error) (v : World) → v.db ≡ w.db → Q (err e, v))
      → ((b : B) (v : World) → m w ≡ (ok b, v) → Q (ok b, stepped v v.db))
      → Q (transaction m w)
  unfolding transaction statement
  last_transaction m w failed done = go (m w) done
    where
      go :
          (r : Result B × World)
          → ((b : B) (v : World) → r ≡ (ok b, v) → Q (ok b, stepped v v.db))
          → Q (settle w.db (continue r (λ a. statement (λ d. (a, d)))))
      go (ok b, v) good = elim (Bool-cases (v.fails v.step)) [
        | inl fails ↦ rw fails (failed driver (stepped v w.db) refl)
        | inr runs ↦ rw runs (good b v refl)
      ]
      go (err e, v) good = failed e (record v { db = w.db }) refl

  pub last_catch :
      (m : Action B) (f : Error → Action B) (w : World)
      → ((b : B) (v : World) → m w ≡ (ok b, v) → Q (ok b, v))
      → ((e : Error) (v : World) → m w ≡ (err e, v) → Q (f e v))
      → Q (catch m f w)
  unfolding catch
  last_catch m f w done failed = go (m w) done failed
    where
      go :
          (r : Result B × World)
          → ((b : B) (v : World) → r ≡ (ok b, v) → Q (ok b, v))
          → ((e : Error) (v : World) → r ≡ (err e, v) → Q (f e v))
          → Q (recover r f)
      go (ok b, v) good bad = good b v refl
      go (err e, v) good bad = bad e v refl

  pub last_select :
      (f : Db → Option B) (e : Error) (w : World)
      → Q (err driver, stepped w w.db)
      → (f w.db ≡ none → Q (err e, stepped w w.db))
      → ((b : B) → f w.db ≡ some b → Q (ok b, stepped w w.db))
      → Q (select f e w)
  unfolding select
  last_select f e w failed absent present = elim (Bool-cases (w.fails w.step)) [
    | inl fails ↦ rw fails failed
    | inr runs ↦ rw runs (elim (Option-cases (f w.db)) [
      | inl missing ↦ rw missing (absent missing)
      | inr (a, found) ↦ rw found (present a found)
    ])
  ]
