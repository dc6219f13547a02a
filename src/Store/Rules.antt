-- ===== src/Store/Rules.antt =====
-- Rules for invariants of the tables: what keeps them through statements, binds and transactions.
use levis.Base.{◌≡◌, refl, Bool, true, false, Option, inl, inr, Bool-cases, if◌then◌else◌}
use levis.Store.Rows.{Db}
use levis.Store.Monad.{
  World, Result, ok, err, Error, Action, pure, raise, raise_if, select, when, statement, checked,
  settle, transaction, recover, catch, lift, continue, ◌>>=◌,
}

-- What an outcome leaves, if it is no error.
abbrev pub Post {ℓ κ} : {A : Type ℓ} → (Db → Type κ) → Result A × World → Type κ
Post I (ok a, w) = I w.db
Post I (err e, w) = Unit

-- A run that succeeds keeps `I`.
pub record Safe {ℓ κ} {A : Type ℓ} (I : Db → Type κ) (m : Action A) : Type κ where
  pub keeps : (w : World) → I w.db → Post I (m w)

-- Every run keeps `I`, an error included.
pub record Always {ℓ κ} {A : Type ℓ} (I : Db → Type κ) (m : Action A) : Type κ where
  pub keeps : (w : World) → I w.db → I (m w).1.db

module _ {κ} (I : Db → Type κ) where
  Post-of_keeps {ℓ} : {A : Type ℓ} (r : Result A × World) → I r.1.db → Post I r
  Post-of_keeps (ok a, w) h = h
  Post-of_keeps (err e, w) h = tt

  pub Safe-of_Always {ℓ} : {A : Type ℓ} (m : Action A) → Always I m → Safe I m
  Safe-of_Always m h = record { keeps = λ w i. Post-of_keeps (m w) (h.keeps w i) }

  pub pure-Always {ℓ} : {A : Type ℓ} (a : A) → Always I (pure a)
  unfolding pure
  pure-Always a = record { keeps = λ w i. i }

  pub raise-Always {ℓ} : {A : Type ℓ} (e : Error) → Always I (raise {A = A} e)
  unfolding raise
  raise-Always e = record { keeps = λ w i. i }

  pub lift-Always {ℓ} : {A : Type ℓ} (r : Result A) → Always I (lift r)
  unfolding lift
  lift-Always r = record { keeps = λ w i. i }

  raise_if_keeps : (b : Bool) (e : Error) (w : World) → I w.db → I (raise_if b e w).1.db
  unfolding raise_if
  raise_if_keeps true e w i = i
  raise_if_keeps false e w i = i

  pub raise_if-Always : (b : Bool) (e : Error) → Always I (raise_if b e)
  raise_if-Always b e = record { keeps = raise_if_keeps b e }

  select_keeps {ℓ} :
      {A : Type ℓ} (f : Db → Option A) (e : Error) (w : World) → I w.db → I (select f e w).1.db
  unfolding select
  select_keeps f e w i = elim (Bool-cases (w.fails w.step)) [
    | inl fails ↦ rw fails i
    | inr runs ↦ rw runs i
  ]

  pub select-Always {ℓ} : {A : Type ℓ} (f : Db → Option A) (e : Error) → Always I (select f e)
  select-Always f e = record { keeps = select_keeps f e }

  pub if-Always {ℓ} :
      {A : Type ℓ} (b : Bool) (m k : Action A)
      → Always I m
      → Always I k
      → Always I (if b then m else k)
  if-Always true m k hm hk = hm
  if-Always false m k hm hk = hk

  pub if-Safe {ℓ} :
      {A : Type ℓ} (b : Bool) (m k : Action A) → Safe I m → Safe I k → Safe I (if b then m else k)
  if-Safe true m k hm hk = hm
  if-Safe false m k hm hk = hk

  when_keeps :
      (b : Bool) (m : Action (Unit {0})) (w : World) → I w.db → I (m w).1.db → I (when b m w).1.db
  unfolding when
  when_keeps true m w i j = j
  when_keeps false m w i j = i

  pub when-Always : (b : Bool) (m : Action (Unit {0})) → Always I m → Always I (when b m)
  when-Always b m h = record { keeps = λ w i. when_keeps b m w i (h.keeps w i) }

  when-Post :
      (b : Bool) (m : Action (Unit {0})) (w : World) → I w.db → Post I (m w) → Post I (when b m w)
  unfolding when
  when-Post true m w i j = j
  when-Post false m w i j = i

  pub when-Safe : (b : Bool) (m : Action (Unit {0})) → Safe I m → Safe I (when b m)
  when-Safe b m h = record { keeps = λ w i. when-Post b m w i (h.keeps w i) }

  statement_keeps {ℓ} :
      {A : Type ℓ} (f : Db → A × Db)
      → ((d : Db) → I d → I (f d).1)
      → (w : World) → I w.db
      → I (statement f w).1.db
  unfolding statement
  statement_keeps f h w i = elim (Bool-cases (w.fails w.step)) [
    | inl fails ↦ rw fails i
    | inr runs ↦ rw runs (h w.db i)
  ]

  pub statement-Always {ℓ} :
      {A : Type ℓ} (f : Db → A × Db) → ((d : Db) → I d → I (f d).1) → Always I (statement f)
  statement-Always f h = record { keeps = statement_keeps f h }

  checked_keeps {ℓ} :
      {A : Type ℓ} (bad : Db → Bool) (e : Error) (f : Db → A × Db)
      → ((d : Db) → I d → I (f d).1)
      → (w : World) → I w.db
      → I (checked bad e f w).1.db
  unfolding checked
  checked_keeps bad e f h w i = elim (Bool-cases (w.fails w.step)) [
    | inl fails ↦ rw fails i
    | inr runs ↦ rw runs (elim (Bool-cases (bad w.db)) [
      | inl refused ↦ rw refused i
      | inr taken ↦ rw taken (h w.db i)
    ])
  ]

  pub checked-Always {ℓ} :
      {A : Type ℓ} (bad : Db → Bool) (e : Error) (f : Db → A × Db)
      → ((d : Db) → I d → I (f d).1)
      → Always I (checked bad e f)
  checked-Always bad e f h = record { keeps = checked_keeps bad e f h }

  recover_keeps {ℓ} :
      {A : Type ℓ} (r : Result A × World) (f : Error → Action A)
      → I r.1.db
      → ((e : Error) → Always I (f e))
      → I (recover r f).1.db
  recover_keeps (ok a, w) f i h = i
  recover_keeps (err e, w) f i h = (h e).keeps w i

  pub catch-Always {ℓ} :
      {A : Type ℓ} (m : Action A) (f : Error → Action A)
      → Always I m
      → ((e : Error) → Always I (f e))
      → Always I (catch m f)
  unfolding catch
  catch-Always m f hm hf = record { keeps = λ w i. recover_keeps (m w) f (hm.keeps w i) hf }

  settle_keeps {ℓ} :
      {A : Type ℓ} (d : Db) (r : Result A × World) → I d → Post I r → I (settle d r).1.db
  settle_keeps d (ok a, w) i p = p
  settle_keeps d (err e, w) i p = i

  continue-Post {ℓ μ} :
      {A : Type ℓ} {B : Type μ} (r : Result A × World) (f : A → Action B)
      → Post I r
      → ((a : A) → Safe I (f a))
      → Post I (continue r f)
  continue-Post (ok a, w) f p h = (h a).keeps w p
  continue-Post (err e, w) f p h = tt

  pub bind-Safe {ℓ μ} :
      {A : Type ℓ} {B : Type μ} (m : Action A) (f : A → Action B)
      → Safe I m
      → ((a : A) → Safe I (f a))
      → Safe I (m >>= f)
  unfolding ◌>>=◌
  bind-Safe m f hm hf = record { keeps = λ w i. continue-Post (m w) f (hm.keeps w i) hf }

  continue_keeps {ℓ μ} :
      {A : Type ℓ} {B : Type μ} (r : Result A × World) (f : A → Action B)
      → I r.1.db
      → ((a : A) → Always I (f a))
      → I (continue r f).1.db
  continue_keeps (ok a, w) f p h = (h a).keeps w p
  continue_keeps (err e, w) f p h = p

  pub bind-Always {ℓ μ} :
      {A : Type ℓ} {B : Type μ} (m : Action A) (f : A → Action B)
      → Always I m
      → ((a : A) → Always I (f a))
      → Always I (m >>= f)
  unfolding ◌>>=◌
  bind-Always m f hm hf = record { keeps = λ w i. continue_keeps (m w) f (hm.keeps w i) hf }

  commit-Safe {ℓ} : {A : Type ℓ} (a : A) → Safe I (statement (λ d. (a, d)))
  commit-Safe a = Safe-of_Always _ (statement-Always (λ d. (a, d)) (λ d i. i))

  -- A transaction keeps what its body keeps when it succeeds.
  pub transaction-Always {ℓ} : {A : Type ℓ} (m : Action A) → Safe I m → Always I (transaction m)
  unfolding transaction
  transaction-Always m h = record {
    keeps = λ w i. settle_keeps w.db _ i (continue-Post (m w) _ (h.keeps w i) commit-Safe);
  }

settle_err {ℓ} :
    {A : Type ℓ} (d : Db) (r : Result A × World) {e : Error}
    → (settle d r).0 ≡ err e
    → (settle d r).1.db ≡ d
settle_err d (ok a, v) h = cc
settle_err d (err x, v) h = refl

-- A transaction that returns an error leaves every table as it was.
pub transaction_atomic {ℓ} :
    {A : Type ℓ} (m : Action A) (w : World) {e : Error}
    → (transaction m w).0 ≡ err e
    → (transaction m w).1.db ≡ w.db
unfolding transaction
transaction_atomic m w h = settle_err w.db _ h

-- For `search`.
pub ruleset always_rules = (
  bind-Always, statement-Always, checked-Always, raise_if-Always, select-Always, pure-Always,
  raise-Always, lift-Always, when-Always, if-Always, catch-Always, transaction-Always,
)

pub ruleset safe_rules = (bind-Safe, when-Safe, if-Safe, Safe-of_Always)
