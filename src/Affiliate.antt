-- ===== src/Affiliate.antt =====
-- internal/service/affiliate.go: commissions of the referral programme.
pub mod Withdrawal
pub mod Ledger
pub mod Books
pub mod Reversal
pub mod Accrual
mod Tests
use levis.Base.{
  ℕ, suc, ◌+◌, ◌==◌, Bool, true, false, not, ◌&&◌, ◌||◌, Option, none, some, List, [], ◌∷◌, String,
  if◌then◌else◌, any,
}
use levis.Base.Int.{ℤ, pos, ◌+ℤ◌, ◌-ℤ◌, ltb_ℤ, leb_ℤ, eqb_ℤ}
use levis.Base.Time.{Time}
use levis.Store.{
  User, Role, Transaction, TxType, Order, OrderStatus, RefundRequest, RefundStatus, Affiliate,
  AffiliateReferral, AffiliateCommission, AffiliateReversal, AffiliateWithdrawal, WithdrawalStatus,
  AffiliateSettings, Setting, missing, malformed, stored, Db, first, update, count, Error, Result,
  ok, err, bad_request, not_found, conflict, forbidden, other, World, Action, pure, raise, raise_if,
  statement, select, query, execute_sql, lift, transaction, ◌>>=◌, ◌>>◌,
}
use levis.Money.{mul_div_cents}
use levis.Wallet.{adjust_balance}

abbrev pub default_settings : AffiliateSettings
default_settings = record { enabled = false; rate_bps = pos 500; min_withdrawal_cents = pos 1000 }

unfoldable pub decode_settings : Setting AffiliateSettings → Result AffiliateSettings
decode_settings missing = ok default_settings
decode_settings malformed = err (other "json")
decode_settings (stored s) = ok s

-- `affiliateSettings`
unfoldable pub affiliate_settings : Action AffiliateSettings
affiliate_settings = query (λ d. d.affiliate_settings) >>= λ row. lift (decode_settings row)

unfoldable pub is_paid : OrderStatus → Bool
is_paid OrderStatus.paid = true
is_paid _ = false

unfoldable pub is_none {ℓ} : {A : Type ℓ} → Option A → Bool
is_none none = true
is_none (some _) = false

-- Giving the commission of `amount` to the affiliate, unless the order already has one.
unfoldable pub give_commission : Affiliate → Order → ℤ → ℤ → Action (Unit {0})
give_commission a order rate amount = do
  rows ← statement λ d.
      (if any (λ (c : AffiliateCommission). c.order_id == order.id) d.commissions then (0, d) else (
        1,
        record d {
          commissions =
              record {
                id = d.next_id;
                affiliate_id = a.id;
                user_id = order.user_id;
                order_id = order.id;
                paid_cents = order.total_cents;
                amount_cents = amount;
                reversed_cents = pos 0;
                rate_bps = rate;
              }
              ∷ d.commissions;
          next_id = d.next_id + 1;
        },
      ))
  let write = execute_sql λ d. record d {
    affiliates =
        update (λ b. b.id == a.id)
          (λ b. record b {
            balance_cents = b.balance_cents +ℤ amount;
            earned_cents = b.earned_cents +ℤ amount;
          })
          d.affiliates;
  }
  if rows == 0 then pure tt else write

-- The commission for a referral that has been found.
accrue_for : Order → AffiliateSettings → Option AffiliateReferral → Action (Unit {0})
unfolding give_commission
accrue_for order settings none = pure tt
accrue_for order settings (some ref) = do
  a ←
      select (λ d. first (λ b. b.id == ref.affiliate_id) d.affiliates)
        (not_found "record not found")
  let paying = do
    amount ← lift (mul_div_cents order.total_cents settings.rate_bps (pos 10000))
    if eqb_ℤ amount (pos 0) then pure tt else give_commission a order settings.rate_bps amount
  if a.user_id == order.user_id then pure tt else paying

-- `accrueAffiliateTx`
unfoldable pub accrue_affiliate : Order → Action (Unit {0})
unfolding accrue_for affiliate_settings is_paid
accrue_affiliate order =
    let accruing = do
      settings ← affiliate_settings
      let referred = do
        found ← query (λ d. first (λ r. r.user_id == order.user_id) d.referrals)
        accrue_for order settings found
      if not settings.enabled || eqb_ℤ settings.rate_bps (pos 0) then pure tt else referred
    in if not (is_paid order.status) || is_none order.paid_at || leb_ℤ order.total_cents (pos 0)
      then pure tt
      else accruing

abbrev pub is_completed : RefundStatus → Bool
is_completed RefundStatus.completed = true
is_completed _ = false

-- `COALESCE(SUM(amount_cents),0)` of the completed refunds of an order
abbrev pub refunded_cents : ℕ → List RefundRequest → ℤ
refunded_cents order_id [] = pos 0
refunded_cents order_id (r ∷ rs) =
    if r.order_id == order_id && is_completed r.status
    then r.amount_cents +ℤ refunded_cents order_id rs
    else refunded_cents order_id rs

-- Booking the reversal of `delta`, once for each refund.
unfoldable pub book_reversal : RefundRequest → AffiliateCommission → ℤ → ℤ → Action (Unit {0})
book_reversal refund c target delta = do
  rows ← statement λ d.
      (if any (λ (r : AffiliateReversal). r.refund_id == refund.id) d.reversals then (0, d) else (
        1,
        record d {
          reversals =
              record { refund_id = refund.id; commission_id = c.id; amount_cents = delta }
              ∷ d.reversals;
        },
      ))
  let moving = do
    claimed ← statement λ d. (
      count (λ b. b.id == c.id && eqb_ℤ b.reversed_cents c.reversed_cents) d.commissions,
      record d {
        commissions =
            update (λ b. b.id == c.id && eqb_ℤ b.reversed_cents c.reversed_cents)
              (λ b. record b { reversed_cents = target }) d.commissions;
      },
    )
    raise_if (not (claimed == 1)) (conflict "佣金已变更，请重试退款")
    execute_sql λ d. record d {
      affiliates =
          update (λ b. b.id == c.affiliate_id)
            (λ b. record b {
              balance_cents = b.balance_cents -ℤ delta;
              earned_cents = b.earned_cents -ℤ delta;
            })
            d.affiliates;
    }
  if rows == 0 then pure tt else moving

-- The part of the commission that all refunds of the order take back.
unfoldable pub reversal_target : AffiliateCommission → ℤ → Result ℤ
reversal_target c refunded =
    mul_div_cents c.amount_cents (if ltb_ℤ c.paid_cents refunded then c.paid_cents else refunded)
      c.paid_cents

unfoldable pub reverse_found : RefundRequest → Option AffiliateCommission → Action (Unit {0})
unfolding book_reversal reversal_target
reverse_found refund none = pure tt
reverse_found refund (some c) = do
  refunded ← query (λ d. refunded_cents refund.order_id d.refunds)
  target ← lift (reversal_target c refunded)
  let delta = target -ℤ c.reversed_cents
  if leb_ℤ delta (pos 0) then pure tt else book_reversal refund c target delta

-- `reverseAffiliateTx`
unfoldable pub reverse_affiliate : RefundRequest → Action (Unit {0})
unfolding reverse_found
reverse_affiliate refund =
    let reversing = do
      found ← query (λ d. first (λ c. c.order_id == refund.order_id) d.commissions)
      reverse_found refund found
    in if refund.order_id == 0 || leb_ℤ refund.amount_cents (pos 0) then pure tt else reversing
