-- ===== src/Wallet/Ledger.antt =====
-- internal/service/wallet.go: the balances of the users and the entries of the ledger.
use levis.Base.{ℕ, ◌==◌, ◌≡◌, ◌<◌, List, [], ◌∷◌, arith, if◌then◌else◌}
use levis.Base.Int.{ℤ, pos, ◌+ℤ◌, ◌≤ℤ◌, int_laws}
use levis.Store.{User, Transaction, Db, update, count}
use levis.Wallet.{covers, credit}

-- The sum of the entries of one user.
abbrev pub sum_for : ℕ → List Transaction → ℤ
sum_for user_id [] = pos 0
sum_for user_id (t ∷ ts) =
    if t.user_id == user_id then t.amount_cents +ℤ sum_for user_id ts else sum_for user_id ts

-- Each of the users has the balance that the entries add up to, and it is not negative.
abbrev pub IsBalanced : List Transaction → List User → Type 0
IsBalanced ts [] = Unit
IsBalanced ts (u ∷ us) =
    (u.balance_cents ≡ sum_for u.id ts) × (pos 0 ≤ℤ u.balance_cents) × IsBalanced ts us

-- Every balance is the sum of its ledger, and none is negative.
abbrev pub IsReconciled : Db → Type 0
IsReconciled d = IsBalanced d.transactions d.users

-- The balance of the ledger covers a change by `delta`.
abbrev pub Fits : ℕ → ℤ → List Transaction → Type 0
Fits user_id delta ts = pos 0 ≤ℤ sum_for user_id ts +ℤ delta

-- A row that the update matches shows that the ledger covers the change.
Fits-of_count :
    (user_id : ℕ) (delta : ℤ) (ts : List Transaction) (us : List User)
    → IsBalanced ts us
    → 0 < count (covers user_id delta) us
    → Fits user_id delta ts
unfolding covers
Fits-of_count user_id delta ts [] b h = absurd (omega (arith, h))
Fits-of_count user_id delta ts (u ∷ us) b h =
    grind (int_laws, Fits-of_count user_id delta ts us b.2)

update-IsBalanced :
    (user_id : ℕ) (delta : ℤ) (ts : List Transaction) (us : List User) (t : Transaction)
    → Fits user_id delta ts
    → t.user_id ≡ user_id
    → t.amount_cents ≡ delta
    → IsBalanced ts us
    → IsBalanced (t ∷ ts) (update (covers user_id delta) (credit delta) us)
unfolding covers credit
update-IsBalanced user_id delta ts [] t f p q b = tt
update-IsBalanced user_id delta ts (u ∷ us) t f p q b =
    grind (int_laws, update-IsBalanced user_id delta ts us t f p q b.2)

-- The update of a balance and the entry of the same change keep the ledger reconciled, if the update
-- matches a row.
pub entry-IsBalanced :
    (user_id : ℕ) (delta : ℤ) (ts : List Transaction) (us : List User) (t : Transaction)
    → 0 < count (covers user_id delta) us
    → t.user_id ≡ user_id
    → t.amount_cents ≡ delta
    → IsBalanced ts us
    → IsBalanced (t ∷ ts) (update (covers user_id delta) (credit delta) us)
entry-IsBalanced user_id delta ts us t h p q b =
    update-IsBalanced user_id delta ts us t (Fits-of_count user_id delta ts us b h) p q b
