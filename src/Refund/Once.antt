-- ===== src/Refund/Once.antt =====
-- internal/service/refund.go, `execute`: the claim on a payment and the call of its channel.
use levis.Base.{
  ℕ, zero, suc, ◌+◌, ◌==◌, ◌≡◌, inl, inr, refl, Bool, true, false, ◌&&◌, Option, none, some, ◌∷◌,
  arith, if◌then◌else◌, Bool-cases,
}
use levis.Base.Int.{pos, ltb_ℤ}
use mathlib.Core.Path.{subst, sym}
use levis.Store.{
  other, RefundRequest, ExternalPayment, PaymentStatus, Db, first, count, World, ChannelReply,
  accepted, refused, unimplemented, lost, Result, ok, err, Error, Action, pure, raise, select,
  ◌>>=◌,
}
use levis.Store.Rules.{Always, statement-Always, raise-Always, catch-Always}
use levis.Store.Steps.{after_statement, after_select, after_action, last_catch}
use levis.Refund.{
  pays_channel, is_paid, is_refunding, fail_refund, claim_payment, move_payment, may_pay,
  outcome_of, call_plugin, call_claimed, read_payment, refund_channel, ask_channel, ChannelOutcome,
  paid_back, uncertain, not_paid, claim_payout,
}
use levis.Refund.Payouts.{
  times, PaidOnce, move_payment-PaidOnce, unclaimed_unpaid, pay-IsPaidOnce, first-zero, first-id,
}

-- Nothing was paid back for the payment of the request, if it pays through a channel.
abbrev pub Unpaid : RefundRequest → Db → Type 0
Unpaid item d = pays_channel item ≡ true → times item.payment_id d.payouts ≡ 0

-- What a claim leaves: if it succeeds the payment is claimed and not paid back.
abbrev pub Claims : RefundRequest → Result (Unit {0}) × World → Type 0
Claims item (ok u, w) = PaidOnce w.db × Unpaid item w.db
Claims item (err e, w) = PaidOnce w.db

pub fail_refund-PaidOnce : (id : ℕ) → Always PaidOnce (fail_refund id)
unfolding fail_refund
fail_refund-PaidOnce id = statement-Always PaidOnce _ (λ d h. h)

-- Code that keeps the invariant and then raises.
raising-Claims {ℓ} :
    {A : Type ℓ} (item : RefundRequest) (m : Action A) (e : Error) (w : World)
    → PaidOnce w.db
    → Always PaidOnce m
    → Claims item ((m >>= λ _. raise e) w)
unfolding raise
raising-Claims item m e w h keeps =
    after_action (Claims item) m (λ _. raise e) w (λ a v done. rw done at (keeps.keeps w h))
      (λ x v failed. rw failed at (keeps.keeps w h))

pub claim_payout-Claims :
    (item : RefundRequest) (w : World) → PaidOnce w.db → Claims item (claim_payout item w)
unfolding claim_payout claim_payment pure
claim_payout-Claims item w h = elim (Bool-cases (pays_channel item)) [
  | inl pays ↦
      let moved =
        move_payment-PaidOnce item.payment_id is_paid PaymentStatus.refunding w.db (inl refl) h in
      let matched = count (λ p. p.id == item.payment_id && is_paid p.status) w.db.payments in
      rw pays (
        after_statement (Claims item) _ _ w h (elim (Bool-cases (matched == 1)) [
          | inl one ↦ rw one (
            moved,
            λ _.
                unfold move_payment in
                unclaimed_unpaid item.payment_id w.db.payouts w.db.payments h (ground arith),
          )
          | inr race ↦ rw race (
              raising-Claims item _ _ _ moved (
                catch-Always PaidOnce _ _ (fail_refund-PaidOnce item.id)
                  (λ e. raise-Always PaidOnce _)))
        ]))
  | inr skips ↦ rw skips (h, λ pays. cc)
]

-- What the call of the channel leaves: a certain refusal has paid nothing.
abbrev pub Asks : RefundRequest → Result ChannelOutcome × World → Type 0
Asks item (ok (not_paid e), w) = PaidOnce w.db × Unpaid item w.db
Asks item (ok paid_back, w) = PaidOnce w.db
Asks item (ok uncertain, w) = PaidOnce w.db
Asks item (err e, w) = PaidOnce w.db

-- The payment that was read, as the code sees it.
abbrev Reads : RefundRequest → Db → Option ExternalPayment → Type 0
Reads item d none = Unit
Reads item d (some p) = first (λ q. q.id == item.payment_id) d.payments ≡ some p

call_plugin-Asks :
    (item : RefundRequest) (p : ExternalPayment) (w : World)
    → first (λ q. q.id == item.payment_id) w.db.payments ≡ some p
    → is_refunding p.status ≡ true
    → times item.payment_id w.db.payouts ≡ 0
    → PaidOnce w.db
    → Asks item (call_plugin p.id w)
unfolding call_plugin
call_plugin-Asks item p w f r z h =
    let same = first-id item.payment_id w.db.payments p f in
    let paid = pay-IsPaidOnce item.payment_id w.db.payouts w.db.payments p f r z h in
    rw same (answered (w.replies w.step) paid)
  where
    answered :
        (reply : ChannelReply)
        → PaidOnce (record w.db { payouts = item.payment_id ∷ w.db.payouts })
        → Asks item (
          ok (outcome_of reply),
          record w {
            step = w.step + 1;
            db =
                if may_pay reply
                then record w.db { payouts = item.payment_id ∷ w.db.payouts }
                else w.db;
          },
        )
    answered accepted paid = paid
    answered lost paid = paid
    answered refused paid = (h, λ _. z)
    answered unimplemented paid = (h, λ _. z)

found-positive :
    (id : ℕ) (d : Db) (p : ExternalPayment)
    → PaidOnce d
    → first (λ q. q.id == id) d.payments ≡ some p
    → (id == 0) ≡ false
found-positive zero d p h f = absurd (some≢none f (first-zero d.payouts d.payments h))
  where
    some≢none : {o : Option ExternalPayment} → o ≡ some p → o ≡ none → ⊥
    some≢none e n = cc
found-positive (suc id) d p h f = ground arith

call_claimed-Asks :
    (item : RefundRequest) (p : Option ExternalPayment) (w : World)
    → Reads item w.db p
    → PaidOnce w.db
    → Unpaid item w.db
    → ltb_ℤ (pos 0) item.channel_cents ≡ true
    → Asks item (call_claimed p w)
unfolding call_claimed pure
call_claimed-Asks item none w f h u c = (h, u)
call_claimed-Asks item (some p) w f h u c = elim (Bool-cases (is_refunding p.status)) [
  | inl claimed ↦
      let positive = found-positive item.payment_id w.db p h f in
      rw claimed (call_plugin-Asks item p w f claimed (u (rw (positive, c) refl)) h)
  | inr free ↦ rw free (h, u)
]

-- Reading changes no table, and finds the payment that the tables hold.
abbrev ReadFrom : RefundRequest → Db → Result (Option ExternalPayment) × World → Type 0
ReadFrom item d (ok p, w) = (w.db ≡ d) × Reads item d p
ReadFrom item d (err e, w) = w.db ≡ d

read_payment-ReadFrom :
    (item : RefundRequest) (w : World) → ReadFrom item w.db (read_payment item.payment_id w)
unfolding read_payment pure
read_payment-ReadFrom item w =
    let select_it =
      select {A = ExternalPayment} (λ d. first (λ p. p.id == item.payment_id) d.payments)
        (other "record not found")
      >>= λ p. pure (some p) in
    let R : Result (Option ExternalPayment) × World → Type 0 = ReadFrom item w.db in
    let selected : R (select_it w) =
      after_select R _ _ _ w refl (λ _. refl) (λ p found. (refl, found)) in
    last_catch R select_it (λ _. pure none) w (λ p v done. rw done at selected)
      (λ e v failed. (rw failed at selected, tt))

pub ask_channel-Asks :
    (plugins : Bool) (item : RefundRequest) (w : World)
    → PaidOnce w.db
    → Unpaid item w.db
    → Asks item (ask_channel plugins item w)
unfolding ask_channel refund_channel pure
ask_channel-Asks false item w h u = elim (Bool-cases (ltb_ℤ (pos 0) item.channel_cents)) [
  | inl c ↦ rw c (h, u)
  | inr none_ ↦ rw none_ h
]
ask_channel-Asks true item w h u = elim (Bool-cases (ltb_ℤ (pos 0) item.channel_cents)) [
  | inl c ↦ rw c (
      after_action (Asks item) (read_payment item.payment_id) call_claimed w
        (λ p v done.
          let (same, reads) = rw done at (read_payment-ReadFrom item w) in
          call_claimed-Asks item p v (subst (λ d. Reads item d p) (sym same) reads)
            (subst PaidOnce (sym same) h) (subst (Unpaid item) (sym same) u) c)
        (λ e v failed. subst PaidOnce (sym (rw failed at (read_payment-ReadFrom item w))) h))
  | inr none_ ↦ rw none_ h
]
