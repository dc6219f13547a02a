-- ===== src/Affiliate/Withdrawal.antt =====
-- internal/service/affiliate_withdrawal.go: asking for a withdrawal and reviewing it.
use levis.Base.{ℕ, ◌+◌, ◌==◌, Bool, true, false, not, ◌&&◌, ◌||◌, none, some, ◌∷◌, if◌then◌else◌}
use levis.Base.Int.{ℤ, pos, ◌+ℤ◌, ◌-ℤ◌, ltb_ℤ, leb_ℤ}
use levis.Store.{
  is_admin, TxType, Affiliate, AffiliateWithdrawal, WithdrawalStatus, first, update, count,
  bad_request, not_found, conflict, forbidden, Action, pure, raise_if, statement, select,
  transaction, ◌>>=◌, ◌>>◌,
}
use levis.Wallet.{adjust_balance}
use levis.Affiliate.{affiliate_settings}

abbrev pub max_withdrawal : ℤ
max_withdrawal = pos 100000000

-- The balance is moved to the reserve, if it covers the amount.
unfoldable pub reserve : ℕ → ℤ → Action ℕ
reserve affiliate_id amount = statement λ d. (
  count (λ a. a.id == affiliate_id && leb_ℤ amount a.balance_cents) d.affiliates,
  record d {
    affiliates =
        update (λ a. a.id == affiliate_id && leb_ℤ amount a.balance_cents)
          (λ a. record a {
            balance_cents = a.balance_cents -ℤ amount;
            reserved_cents = a.reserved_cents +ℤ amount;
          })
          d.affiliates;
  },
)

unfoldable pub withdraw_body : ℕ → ℤ → Action AffiliateWithdrawal
unfolding reserve
withdraw_body user_id amount = do
  a ← select (λ d. first (λ b. b.user_id == user_id) d.affiliates) (not_found "请先加入推广计划")
  claimed ← reserve a.id amount
  raise_if (not (claimed == 1)) (bad_request "可提现余额不足")
  statement λ d.
      (let row : AffiliateWithdrawal = record {
        id = d.next_id;
        user_id = user_id;
        affiliate_id = a.id;
        amount_cents = amount;
        status = WithdrawalStatus.pending;
        reviewed_by = none;
      } in
        (row, record d { withdrawals = row ∷ d.withdrawals; next_id = d.next_id + 1 }))

-- `Withdraw`; `texts_valid` is the test of the account and the remark, an account that is not empty
-- and both of a bounded length.
unfoldable pub withdraw : ℕ → ℤ → Bool → Action AffiliateWithdrawal
unfolding withdraw_body affiliate_settings
withdraw user_id amount texts_valid = do
  settings ← affiliate_settings
  raise_if (not settings.enabled) (conflict "推广计划未开放")
  raise_if
      (ltb_ℤ amount settings.min_withdrawal_cents || ltb_ℤ max_withdrawal amount || not texts_valid)
      (bad_request "提现金额、账户或备注无效")
  transaction (withdraw_body user_id amount)

-- The `action` of a review.
pub data ReviewAction : Type 0 where
  approve reject unknown : ReviewAction

abbrev pub is_known : ReviewAction → Bool
is_known unknown = false
is_known _ = true

abbrev pub is_approve : ReviewAction → Bool
is_approve approve = true
is_approve _ = false

abbrev pub is_pending : WithdrawalStatus → Bool
is_pending WithdrawalStatus.pending = true
is_pending _ = false

abbrev pub reviewed_status : ReviewAction → WithdrawalStatus
reviewed_status act =
    if is_approve act then WithdrawalStatus.approved else WithdrawalStatus.rejected

unfoldable pub claim_withdrawal : ℕ → ℕ → ReviewAction → Action ℕ
claim_withdrawal reviewer_id id act = statement λ d. (
  count (λ x. x.id == id && is_pending x.status) d.withdrawals,
  record d {
    withdrawals =
        update (λ x. x.id == id && is_pending x.status)
          (λ x. record x { status = reviewed_status act; reviewed_by = some reviewer_id })
          d.withdrawals;
  },
)

-- The WHERE and the SET of the update that releases the reserve.
unfoldable pub releasable : AffiliateWithdrawal → ReviewAction → Affiliate → Bool
releasable out act a =
    a.id == out.affiliate_id
    && leb_ℤ out.amount_cents a.reserved_cents
    && (if is_approve act then leb_ℤ (pos 0) a.balance_cents else true)

unfoldable pub release : AffiliateWithdrawal → ReviewAction → Affiliate → Affiliate
release out act a = record a {
  reserved_cents = a.reserved_cents -ℤ out.amount_cents;
  balance_cents = if is_approve act then a.balance_cents else a.balance_cents +ℤ out.amount_cents;
}

unfoldable pub release_reserve : AffiliateWithdrawal → ReviewAction → Action ℕ
unfolding releasable release
release_reserve out act = statement λ d. (
  count (releasable out act) d.affiliates,
  record d { affiliates = update (releasable out act) (release out act) d.affiliates },
)

unfoldable pub pay_out : AffiliateWithdrawal → Action (Unit {0})
pay_out out =
    adjust_balance out.user_id out.amount_cents TxType.adjust "affiliate_withdrawal" out.id >>= λ _.
    pure tt

unfoldable pub review_body : ℕ → ℕ → ReviewAction → Action AffiliateWithdrawal
unfolding claim_withdrawal release_reserve pay_out
review_body reviewer_id id act = do
  select (λ d. first (λ u. u.id == reviewer_id && is_admin u.role && u.active) d.users)
      (forbidden "需要管理员权限")
  out ← select (λ d. first (λ x. x.id == id) d.withdrawals) (not_found "提现申请不存在")
  claimed ← claim_withdrawal reviewer_id id act
  raise_if (not (claimed == 1)) (conflict "申请已审核")
  released ← release_reserve out act
  raise_if (not (released == 1)) (conflict "佣金已撤销或预留不足，请驳回申请")
  let paying = pay_out out
  if is_approve act then paying else pure tt
  pure (record out { status = reviewed_status act; reviewed_by = some reviewer_id })

-- `Review`; `remark_valid` is the test of the remark's length.
unfoldable pub review : ℕ → ℕ → ReviewAction → Bool → Action AffiliateWithdrawal
unfolding review_body
review reviewer_id id act remark_valid = do
  raise_if (not (is_known act)) (bad_request "审核操作无效")
  raise_if (not remark_valid) (bad_request "审核备注过长")
  transaction (review_body reviewer_id id act)
