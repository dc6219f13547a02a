-- ===== src/Store/Monad.antt =====
-- Errors of internal/service/errors.go, and code that runs statements on the database.
use levis.Base.{ℕ, ◌+◌, Bool, Option, none, some, String, if◌then◌else◌}
use levis.Store.Rows.{Db}

-- The errors of the services, by their HTTP status and the text in the source. `driver` is an error
-- of the database, `caused` one that an error message reports.
pub data Error : Type 0 where
  bad_request not_found conflict forbidden unavailable : String → Error
  duplicated_key driver : Error
  other : String → Error
  caused : Error → Error → Error

pub data Result {ℓ} (A : Type ℓ) : Type ℓ where
  ok : A → Result A
  err : Error → Result A

-- What a payment plugin makes of a call of RefundPayment: it pays back, it refuses, it does not know
-- the call, or its answer is lost or missing, so that nobody knows.
pub data ChannelReply : Type 0 where
  accepted refused unimplemented lost : ChannelReply

-- The database, and what the environment does: which statements the driver fails and what a payment
-- plugin answers, by the number of the step.
pub record World : Type 0 where
  pub db : Db
  pub fails : ℕ → Bool
  pub replies : ℕ → ChannelReply
  pub step : ℕ

abbrev pub Action {ℓ} : Type ℓ → Type ℓ
Action A = World → Result A × World

module _ {ℓ} {A : Type ℓ} where
  unfoldable pub pure : A → Action A
  pure a w = (ok a, w)

  unfoldable pub raise : Error → Action A
  raise e w = (err e, w)

  -- One statement. It counts its number, and a statement that fails changes nothing.
  unfoldable pub statement : (Db → A × Db) → Action A
  statement f w =
      let next = record w { step = w.step + 1 } in
      if w.fails w.step
      then (err driver, next)
      else ((ok (f w.db).0), record next { db = (f w.db).1 })

  -- A statement that the tables may refuse, such as an insert under a unique index.
  unfoldable pub checked : (Db → Bool) → Error → (Db → A × Db) → Action A
  checked bad e f w =
      let next = record w { step = w.step + 1 } in
      if w.fails w.step
      then (err driver, next)
      else (if bad w.db then (err e, next) else (ok (f w.db).0, record next { db = (f w.db).1 }))

  -- The code of `if err != nil`, from the world that the error leaves.
  abbrev pub recover : Result A × World → (Error → Action A) → Result A × World
  recover (ok a, w) f = (ok a, w)
  recover (err e, w) f = f e w

  unfoldable pub catch : Action A → (Error → Action A) → Action A
  catch m f w = recover (m w) f

  found : Option A → Error → Result A
  found none e = err e
  found (some a) e = ok a

  -- `db.First(&row, …)`, with the error that the code makes of a missing row.
  unfoldable pub select : (Db → Option A) → Error → Action A
  unfolding found
  select f e w =
      let next = record w { step = w.step + 1 } in
      if w.fails w.step then (err driver, next) else (found (f w.db) e, next)

  -- What `db.Transaction` makes of the body's outcome: after an error the tables are as before.
  abbrev pub settle : Db → Result A × World → Result A × World
  settle old (ok a, w) = (ok a, w)
  settle old (err e, w) = (err e, record w { db = old })

-- The rest of the code runs from where a statement left the world; an error is returned.
abbrev pub continue {ℓ κ} :
    {A : Type ℓ} {B : Type κ} → Result A × World → (A → Action B) → Result B × World
continue (ok a, w) f = f a w
continue (err e, w) f = (err e, w)

-- A result that was computed without the database.
unfoldable pub lift {ℓ} : {A : Type ℓ} → Result A → Action A
lift r w = (r, w)

infixl 5 ◌>>=◌ ◌>>◌
unfoldable pub ◌>>=◌ {ℓ κ} : {A : Type ℓ} {B : Type κ} → Action A → (A → Action B) → Action B
◌>>=◌ m f w = continue (m w) f

abbrev pub ◌>>◌ {ℓ κ} : {A : Type ℓ} {B : Type κ} → Action A → Action B → Action B
m >> k = m >>= λ _. k

unfoldable pub raise_if : Bool → Error → Action (Unit {0})
raise_if b e w = if b then (err e, w) else (ok tt, w)

unfoldable pub when : Bool → Action (Unit {0}) → Action (Unit {0})
when b m w = let done = m w in if b then done else (ok tt, w)

module _ {ℓ} {A : Type ℓ} where
  -- `SELECT`: it reads the tables and leaves them alone.
  abbrev pub query : (Db → A) → Action A
  query f = statement (λ d. (f d, d))

  -- `db.Transaction(body)`: the commit is a statement too.
  unfoldable pub transaction : Action A → Action A
  transaction body w = settle w.db (continue (body w) (λ a. statement (λ d. (a, d))))

-- A write of the tables that returns nothing.
abbrev pub execute_sql : (Db → Db) → Action (Unit {0})
execute_sql f = statement (λ d. (tt, f d))
