-- ===== src/Wallet/Moved.antt =====
-- internal/service/wallet.go, `adjustBalance`: what moves, told without the code's own condition and columns.
use levis.Base.{ℕ, ◌+◌, ◌==◌, ◌≡◌, ◌<◌, refl, Bool, ◌&&◌, ◌||◌, some, List, [], ◌∷◌, String, arith}
use levis.Base.Int.{ℤ, pos, ◌+ℤ◌, ◌-ℤ◌, leb_ℤ}
use levis.Store.{User, Transaction, TxType, Db, update, count, first, World, Result, ok, err}
use levis.Store.Steps.{after_statement, after_raise_if, after_select, last_statement}
use levis.Wallet.{covers, credit, adjust_balance}

-- The user's row, whose balance does not fall below nothing by this amount.
abbrev pub can_move : ℕ → ℤ → User → Bool
can_move user_id delta u =
    u.id == user_id && (leb_ℤ (pos 0) delta || leb_ℤ (pos 0) (u.balance_cents +ℤ delta))

-- The balance of the user, who is there, has moved by the amount; every other row is as it was.
abbrev pub MovedUsers : ℕ → ℤ → List User → List User → Type 0
MovedUsers user_id delta us vs =
    (0 < count (can_move user_id delta) us)
    × (vs
        ≡ update (can_move user_id delta)
            (λ u. record u { balance_cents = u.balance_cents +ℤ delta }) us)

covers-can_move :
    (user_id : ℕ) (delta : ℤ) (u : User) → covers user_id delta u ≡ can_move user_id delta u
unfolding covers ◌-ℤ◌ ◌+ℤ◌
covers-can_move user_id delta u = ground arith

count-can_move :
    (user_id : ℕ) (delta : ℤ) (us : List User)
    → count (covers user_id delta) us ≡ count (can_move user_id delta) us
count-can_move user_id delta [] = refl
count-can_move user_id delta (u ∷ us) =
    rw (covers-can_move user_id delta u) (rw (count-can_move user_id delta us) refl)

update-can_move :
    (user_id : ℕ) (delta : ℤ) (us : List User)
    → update (covers user_id delta) (credit delta) us
      ≡ update
          (can_move user_id delta)
          (λ u. record u { balance_cents = u.balance_cents +ℤ delta })
          us
unfolding credit
update-can_move user_id delta [] = refl
update-can_move user_id delta (u ∷ us) =
    rw (covers-can_move user_id delta u) (rw (update-can_move user_id delta us) refl)

pub update-MovedUsers :
    (user_id : ℕ) (delta : ℤ) (us : List User)
    → 0 < count (covers user_id delta) us
    → MovedUsers user_id delta us (update (covers user_id delta) (credit delta) us)
update-MovedUsers user_id delta us some_ =
    (rw (count-can_move user_id delta us) at some_, update-can_move user_id delta us)

-- What `adjustBalance` has done.
abbrev pub Moved : Db → ℕ → ℤ → Result Transaction × World → Type 0
Moved d user_id delta (err e, w) = w.db.transactions ≡ d.transactions
Moved d user_id delta (ok t, w) =
    MovedUsers user_id delta d.users w.db.users
    × (t.user_id ≡ user_id)
    × (t.amount_cents ≡ delta)
    × (w.db ≡ record d {
      users = w.db.users;
      transactions = t ∷ d.transactions;
      next_id = d.next_id + 1;
    })
    × ((u : User) × (first (λ v. v.id == user_id) w.db.users ≡ some u)
        × (t.balance_after_cents ≡ u.balance_cents))

-- `adjustBalance` on every branch, whatever the driver fails: when it succeeds the user's row was there, its
-- balance has changed by the amount and, after a debit, is not below nothing, and no other row of the users
-- changed; one entry of that amount for that user was put in front of the ledger, the entry shows the balance
-- after it, and nothing else changed. When it fails the ledger is as it was.
pub adjust_balance-Moved :
    (user_id : ℕ) (delta : ℤ) (tx_type : TxType) (ref_type : String) (ref_id : ℕ) (w : World)
    → Moved w.db user_id delta (adjust_balance user_id delta tx_type ref_type ref_id w)
unfolding adjust_balance
adjust_balance-Moved user_id delta tx_type ref_type ref_id w =
    let Q : Result Transaction × World → Type 0 = Moved w.db user_id delta in
    after_raise_if Q _ _ _ w (λ _. refl)
      λ _. after_statement Q _ _ w refl (
        after_raise_if Q (count (covers user_id delta) w.db.users == 0) _ _ _ (λ _. refl)
          λ matched.
            (after_select Q _ _ _ _ refl (λ _. refl)
              λ u found. last_statement Q _ _ refl (
                update-MovedUsers user_id delta w.db.users (ground arith),
                refl,
                refl,
                refl,
                (u, found, refl),
              )))
