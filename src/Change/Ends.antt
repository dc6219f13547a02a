-- ===== src/Change/Ends.antt =====
-- internal/service/service_change.go: `finishChange`: the money that it gives back.
use levis.Base.{
  ℕ, ◌+◌, ◌==◌, ◌≤◌, ◌≡◌, refl, Bool, true, false, not, ◌&&◌, List, [], ◌∷◌, String, if◌then◌else◌,
  arith, inl, inr, Bool-cases,
}
use levis.Base.Int.{ℤ, pos, ltb_ℤ}
use levis.Base.Time.{Time}
use text.Mathlib.Text.{◌==◌ as str_eq}
use levis.Store.{
  Transaction, TxType, ChangeStatus, ServiceChange, Db, update, count, Result, World, pure, when,
}
use levis.Store.Rules.{Post, Always, transaction-Always}
use levis.Store.Steps.{after_statement, after_raise_if, after_select, after_action, last_statement}
use levis.Wallet.{adjust_balance, update_balance, read_user, create_transaction}
use levis.Change.{
  is_applying, is_decided, change_status_code, set_status, release_service, amount_back, pay_back,
  finish_body, finish_change,
}
use levis.Change.Retry.{is_as_read}

abbrev is_refund : TxType → Bool
is_refund TxType.refund = true
is_refund _ = false

-- How many entries of the ledger give money of the change `id` back.
abbrev pub given_back : ℕ → List Transaction → ℕ
given_back id ts =
    count
      (λ (t : Transaction).
        is_refund t.type && str_eq t.ref_type "service_change" && t.ref_id == id)
      ts

-- How many rows of the change `id` are not decided.
abbrev pub open_rows : ℕ → List ServiceChange → ℕ
open_rows id cs = count (λ (c : ServiceChange). c.id == id && not (is_decided c.status)) cs

abbrev pub Within : ℕ → ℕ → Db → Type 0
Within id k d = given_back id d.transactions + open_rows id d.changes ≤ k

-- What the end of the change `ended` has left to give.
abbrev Ended : ℕ → ℕ → ℕ → Db → Type 0
Ended id k ended d =
    given_back id d.transactions + open_rows id d.changes + (if ended == id then 1 else 0) ≤ k

abbrev pub moved :
    (ServiceChange → Bool) → ChangeStatus → Time → List ServiceChange → List ServiceChange
moved p status now cs =
    update p (λ (c : ServiceChange). record c { status = status; updated_at = now }) cs

-- A move of rows that were open anyway.
pub open-moved :
    (id : ℕ) (p : ServiceChange → Bool) (status : ChangeStatus) (now : Time)
    → ((c : ServiceChange) → p c ≡ true → is_decided c.status ≡ false)
    → (cs : List ServiceChange) → open_rows id (moved p status now cs) ≤ open_rows id cs
open-moved id p status now opens [] = omega arith
open-moved id p status now opens (c ∷ cs) =
    ground (arith, opens c, open-moved id p status now opens cs)

open-ended :
    (id ended : ℕ) (applied : Bool) (now : Time) (cs : List ServiceChange)
    → open_rows id (
          moved
            (λ c. c.id == ended && is_applying c.status)
            (if applied then ChangeStatus.applied else ChangeStatus.failed)
            now
            cs)
        + (if ended == id
            then count (λ (c : ServiceChange). c.id == ended && is_applying c.status) cs
            else 0)
      ≤ open_rows id cs
open-ended id ended applied now [] = ground arith
open-ended id ended true now (c ∷ cs) = ground (arith, open-ended id ended true now cs)
open-ended id ended false now (c ∷ cs) = ground (arith, open-ended id ended false now cs)

pub applying_open : (s : ChangeStatus) → is_applying s ≡ true → is_decided s ≡ false
applying_open ChangeStatus.reserved h = cc
applying_open ChangeStatus.applying h = refl
applying_open ChangeStatus.uncertain h = cc
applying_open ChangeStatus.applied h = cc
applying_open ChangeStatus.failed h = cc

adjust-Within :
    (id k user_id ended : ℕ) (delta : ℤ) (tx_type : TxType) (ref_type : String) (w : World)
    → Ended id k ended w.db
    → Post (Within id k) (adjust_balance user_id delta tx_type ref_type ended w)
unfolding adjust_balance update_balance read_user create_transaction
adjust-Within id k user_id ended delta tx_type ref_type w h =
    let Q : Result Transaction × World → Type 0 = Post (Within id k) in
    after_raise_if Q _ _ _ w (λ _. tt)
      λ _. after_statement Q _ _ w tt (
        after_raise_if Q _ _ _ _ (λ _. tt)
          λ _.
            (after_select Q _ _ _ _ tt (λ _. tt)
              λ u found. last_statement Q _ _ tt (ground (arith, h))))

pay_back-Within :
    (id k : ℕ) (row : ServiceChange) (applied : Bool) (w : World)
    → Ended id k row.id w.db
    → Post (Within id k) (pay_back row applied w)
unfolding pay_back when pure
pay_back-Within id k row applied w h = elim (Bool-cases (ltb_ℤ (pos 0) (amount_back row applied))) [
  | inl some_ ↦ rw some_ (
      after_action (Post (Within id k)) _ _ w
        (λ t v done. rw done at (
          adjust-Within id k row.user_id row.id (amount_back row applied) TxType.refund
            "service_change" w h))
        (λ e v failed. tt))
  | inr none_ ↦ rw none_ (omega (arith, h))
]

pub finish-Always :
    (id k : ℕ) (row : ServiceChange) (applied : Bool) (now : Time)
    → Always (Within id k) (finish_change row applied now)
unfolding finish_change finish_body set_status release_service
finish-Always id k row applied now =
    let Q : Result (Unit {0}) × World → Type 0 = Post (Within id k) in
    transaction-Always (Within id k) _ (record {
      keeps = λ w h. after_statement Q _ _ w tt (
          after_raise_if Q
            (not (
              count (λ (c : ServiceChange). c.id == row.id && is_applying c.status) w.db.changes
              == 1))
            _ _ _ (λ _. tt)
            λ one. after_statement Q _ _ _ tt (
              after_raise_if Q _ _ _ _ (λ _. tt)
                λ _.
                  pay_back-Within id k row applied _
                    (ground (arith, open-ended id row.id applied now w.db.changes, one))));
    })

same_code :
    (s t : ChangeStatus)
    → (change_status_code s == change_status_code t) ≡ true
    → is_decided t ≡ false
    → is_decided s ≡ false
same_code s t h i = ground arith

pub as_read_open :
    (row c : ServiceChange)
    → is_decided row.status ≡ false
    → is_as_read row c ≡ true
    → is_decided c.status ≡ false
unfolding is_as_read
as_read_open row c h i = same_code c.status row.status (ground arith) h
