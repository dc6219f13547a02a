-- ===== src/Affiliate/Ledger.antt =====
-- internal/service/affiliate_withdrawal.go: where the money of a withdrawal goes.
use levis.Base.{
  ℕ, ◌==◌, ◌≡◌, refl, Bool, not, ◌&&◌, List, [], ◌∷◌, arith, if◌then◌else◌, inl, inr, Bool-cases,
}
use levis.Base.Int.{ℤ, pos, ◌+ℤ◌, ◌-ℤ◌, leb_ℤ, int_laws, parts_of_eq}
use mathlib.Core.Path.{subst}
use levis.Store.{
  Affiliate, AffiliateWithdrawal, Transaction, TxType, Db, update, count, World, Result, ok, err,
  Action, pure, ◌>>=◌,
}
use levis.Store.Rules.{
  Post, Safe, Always, bind-Safe, bind-Always, transaction-Always, statement-Always, raise_if-Always,
  pure-Always, select-Always, lift-Always, Safe-of_Always,
}
use levis.Store.Steps.{after_statement, after_raise_if, after_select, after_action}
use levis.Wallet.Adjust.{Adjusted, adjust_balance-Adjusted}
use levis.Affiliate.{affiliate_settings}
use levis.Affiliate.Withdrawal.{
  reserve, withdraw_body, withdraw, ReviewAction, is_approve, claim_withdrawal, releasable, release,
  release_reserve, pay_out, review_body, review,
}

-- All that the wallets' entries add up to.
abbrev pub ledger_total : List Transaction → ℤ
ledger_total [] = pos 0
ledger_total (t ∷ ts) = t.amount_cents +ℤ ledger_total ts

-- All that the affiliates hold, reserves included.
abbrev pub holdings : List Affiliate → ℤ
holdings [] = pos 0
holdings (a ∷ rows) = a.balance_cents +ℤ a.reserved_cents +ℤ holdings rows

-- The money of the wallets and of the affiliates together is `total`.
abbrev pub Totals : ℤ → Db → Type 0
Totals total d = ledger_total d.transactions +ℤ holdings d.affiliates ≡ total

holdings-reserve :
    (id : ℕ) (amount : ℤ) (rows : List Affiliate)
    → holdings (
        update
          (λ a. a.id == id && leb_ℤ amount a.balance_cents)
          (λ a. record a {
            balance_cents = a.balance_cents -ℤ amount;
            reserved_cents = a.reserved_cents +ℤ amount;
          })
          rows)
      ≡ holdings rows
holdings-reserve id amount [] = refl
holdings-reserve id amount (a ∷ rows) = grind (int_laws, holdings-reserve id amount rows)

withdraw_body-Totals :
    (total : ℤ) (user_id : ℕ) (amount : ℤ) → Safe (Totals total) (withdraw_body user_id amount)
unfolding withdraw_body reserve
withdraw_body-Totals total user_id amount =
    let I : Db → Type 0 = Totals total in
    bind-Safe I _ _ (Safe-of_Always I _ (select-Always I _ _)) λ a.
      bind-Safe I _ _
        (Safe-of_Always I _
          (statement-Always I _ (λ d h. rw (holdings-reserve a.id amount d.affiliates) h)))
        λ n.
          bind-Safe I _ _ (Safe-of_Always I _ (raise_if-Always I _ _))
            λ _. Safe-of_Always I _ (statement-Always I _ (λ d h. h))

withdraw-Always :
    (total : ℤ) (user_id : ℕ) (amount : ℤ) (texts_valid : Bool)
    → Always (Totals total) (withdraw user_id amount texts_valid)
unfolding withdraw affiliate_settings
withdraw-Always total user_id amount texts_valid =
    let I : Db → Type 0 = Totals total in
    bind-Always I _ _ (bind-Always I _ _ (statement-Always I _ (λ d h. h)) (λ row. lift-Always I _))
      λ settings. bind-Always I _ _ (raise_if-Always I _ _) λ _.
        bind-Always I _ _ (raise_if-Always I _ _)
          λ _. transaction-Always I _ (withdraw_body-Totals total user_id amount)

-- A release that matches one row takes the amount from the holdings when it is approved, and only
-- moves it back to the balance when it is rejected.
abbrev pub released : ReviewAction → AffiliateWithdrawal → ℤ
released act out = if is_approve act then out.amount_cents else pos 0

module _ (out : AffiliateWithdrawal) (act : ReviewAction) where
  holdings-release_none :
      (rows : List Affiliate)
      → count (releasable out act) rows ≡ 0
      → holdings (update (releasable out act) (release out act) rows) ≡ holdings rows
  holdings-release_none [] h = refl
  holdings-release_none (a ∷ rows) h = ground (arith, holdings-release_none rows)

  released_one :
      (a : Affiliate)
      → (release out act a).balance_cents +ℤ (release out act a).reserved_cents +ℤ released act out
        ≡ a.balance_cents +ℤ a.reserved_cents
  unfolding release
  released_one a = elim (Bool-cases (is_approve act)) [
    | inl yes_ ↦ rw yes_ (omega int_laws)
    | inr no_ ↦ rw no_ (omega int_laws)
  ]

  holdings-release :
      (rows : List Affiliate)
      → count (releasable out act) rows ≡ 1
      → holdings (update (releasable out act) (release out act) rows) +ℤ released act out
        ≡ holdings rows
  holdings-release [] h = absurd (omega (arith, h))
  holdings-release (a ∷ rows) h = elim (Bool-cases (releasable out act a)) [
    | inl hit ↦
        let rest = holdings-release_none rows (omega (arith, rw hit at h)) in
        rw hit (omega (int_laws, parts_of_eq (released_one a), parts_of_eq rest))
    | inr miss ↦
        let rest = holdings-release rows (omega (arith, rw miss at h)) in
        rw miss (omega (int_laws, parts_of_eq rest))
  ]

-- The last line of an approved review puts the amount on the ledger of the wallets.
paid_out-Totals :
    (total : ℤ) (out : AffiliateWithdrawal) (d : Db) (r : Result Transaction × World)
    → Totals total d
    → Adjusted d out.user_id out.amount_cents r
    → Post (Totals (total +ℤ out.amount_cents)) r
paid_out-Totals total out d (err e, w) h a = tt
paid_out-Totals total out d (ok t, w) h (matched, owner, amount, tables, read) =
    rw tables (omega (int_laws, parts_of_eq h, parts_of_eq amount))

pay_out-Totals :
    (total : ℤ) (out : AffiliateWithdrawal) (w : World)
    → Totals total w.db
    → Post (Totals (total +ℤ out.amount_cents)) (pay_out out w)
unfolding pay_out
pay_out-Totals total out w h =
    let I : Db → Type 0 = Totals (total +ℤ out.amount_cents) in
    after_action (Post I) _ _ w
      (λ t v done. (Safe-of_Always I _ (pure-Always I tt)).keeps v (
        rw done at (
          paid_out-Totals total out w.db _ h (
            adjust_balance-Adjusted out.user_id out.amount_cents TxType.adjust
              "affiliate_withdrawal" out.id w))))
      (λ e v failed. tt)

-- After the release, the rest of a review brings the total back.
rest_of_review : AffiliateWithdrawal → ReviewAction → Action (Unit {0})
rest_of_review out act = let paying = pay_out out in if is_approve act then paying else pure tt

rest_of_review-Always :
    (total : ℤ) (out : AffiliateWithdrawal) (act : ReviewAction) (w : World)
    → ledger_total w.db.transactions +ℤ holdings w.db.affiliates +ℤ released act out ≡ total
    → Post (Totals total) (rest_of_review out act w)
unfolding rest_of_review pure
rest_of_review-Always total out act w h = elim (Bool-cases (is_approve act)) [
  | inl approved ↦
      let before : ℤ = ledger_total w.db.transactions +ℤ holdings w.db.affiliates in
      rw approved (
        subst (λ t. Post (Totals t) (pay_out out w)) (rw approved at h)
          (pay_out-Totals before out w refl))
  | inr rejected ↦ rw rejected (omega (int_laws, parts_of_eq (rw rejected at h)))
]

last_of_review-Always :
    (total : ℤ) (out : AffiliateWithdrawal) (act : ReviewAction) (reviewed : AffiliateWithdrawal)
    (w : World)
    → ledger_total w.db.transactions +ℤ holdings w.db.affiliates +ℤ released act out ≡ total
    → Post (Totals total) ((rest_of_review out act >>= λ _. pure reviewed) w)
last_of_review-Always total out act reviewed w h =
    let I : Db → Type 0 = Totals total in
    after_action (Post I) (rest_of_review out act) (λ _. pure reviewed) w
      (λ u v done.
        (Safe-of_Always I _ (pure-Always I reviewed)).keeps v
          (rw done at (rest_of_review-Always total out act w h)))
      (λ e v failed. tt)

review_body-Totals :
    (total : ℤ) (reviewer_id id : ℕ) (act : ReviewAction) (w : World)
    → Totals total w.db
    → Post (Totals total) (review_body reviewer_id id act w)
unfolding review_body claim_withdrawal release_reserve rest_of_review
review_body-Totals total reviewer_id id act w h =
    let I : Db → Type 0 = Totals total in
    after_select (Post I) _ _ _ w tt (λ _. tt)
      λ reviewer is_reviewer.
        after_select (Post I) _ _ _ _ tt (λ _. tt)
          λ out is_out. after_statement (Post I) _ _ _ tt (
            after_raise_if (Post I) _ _ _ _ (λ _. tt)
              λ claimed. after_statement (Post I) _ _ _ tt (
                after_raise_if (Post I) (not (count (releasable out act) w.db.affiliates == 1)) _ _
                  _ (λ _. tt)
                  λ one.
                    let freed = holdings-release out act w.db.affiliates (ground arith) in
                    let balance : ledger_total w.db.transactions
                          +ℤ holdings
                              (update (releasable out act) (release out act) w.db.affiliates)
                          +ℤ released act out
                        ≡ total =
                      omega (int_laws, parts_of_eq freed, parts_of_eq h) in
                    last_of_review-Always total out act _ _ balance))

review-Always :
    (total : ℤ) (reviewer_id id : ℕ) (act : ReviewAction) (remark_valid : Bool)
    → Always (Totals total) (review reviewer_id id act remark_valid)
unfolding review
review-Always total reviewer_id id act remark_valid =
    let I : Db → Type 0 = Totals total in
    bind-Always I _ _ (raise_if-Always I _ _) λ _.
      bind-Always I _ _ (raise_if-Always I _ _)
        λ _. transaction-Always I _ (record { keeps = review_body-Totals total reviewer_id id act })

-- Asking for a withdrawal creates and destroys no money, whatever the driver fails: all entries of the
-- wallets' ledger and all that the affiliates hold, reserves included, add up to the same total as before.
pub withdraw-Totals :
    (total : ℤ) (user_id : ℕ) (amount : ℤ) (texts_valid : Bool) (w : World)
    → Totals total w.db
    → Totals total (withdraw user_id amount texts_valid w).1.db
withdraw-Totals total user_id amount texts_valid w h =
    (withdraw-Always total user_id amount texts_valid).keeps w h

-- A review creates and destroys no money, whatever it decides and whatever the driver fails: what an
-- approved withdrawal takes from the affiliate is what it adds to the ledger of the wallets.
pub review-Totals :
    (total : ℤ) (reviewer_id id : ℕ) (act : ReviewAction) (remark_valid : Bool) (w : World)
    → Totals total w.db
    → Totals total (review reviewer_id id act remark_valid w).1.db
review-Totals total reviewer_id id act remark_valid w h =
    (review-Always total reviewer_id id act remark_valid).keeps w h
