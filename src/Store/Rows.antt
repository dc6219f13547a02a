-- ===== src/Store/Rows.antt =====
-- The rows of internal/model that hold money or what was bought, and the list operations behind SQL statements.
-- Columns that are only shown (notes, subjects, reasons) are left out.
use levis.Base.{ℕ, ◌+◌, Bool, true, false, Option, none, some, List, [], ◌∷◌, String, if◌then◌else◌}
use levis.Base.Int.{ℤ}
use levis.Base.Time.{Time}
use levis.Store.Goods.{Cycle, Product, UpstreamInterface, OrderItem, Invoice, InvoiceItem}
use levis.Store.Tickets.{Ticket, TicketReply, TicketAttachment}

-- The types of a ledger entry.
pub data TxType : Type 0 where
  recharge payment refund adjust : TxType

pub data Role : Type 0 where
  user admin : Role

abbrev pub is_admin : Role → Bool
is_admin Role.admin = true
is_admin _ = false

-- `active` is the one user status that the services test for.
pub record User : Type 0 where
  pub id : ℕ
  pub role : Role
  pub active : Bool
  pub balance_cents : ℤ

pub record Transaction : Type 0 where
  pub id : ℕ
  pub user_id : ℕ
  pub type : TxType
  pub amount_cents : ℤ
  pub balance_after_cents : ℤ
  pub ref_type : String
  pub ref_id : ℕ

pub record PluginPayment : Type 0 where
  pub id : ℕ
  pub plugin_id : String
  pub external_id : String
  pub user_id : ℕ
  pub amount_cents : ℤ
  pub transaction_id : ℕ

pub data PaymentStatus : Type 0 where
  pending processing paid failed refunding refunded late : PaymentStatus

pub data Purpose : Type 0 where
  recharge order renewal invoice unknown : Purpose

pub record ExternalPayment : Type 0 where
  pub id : ℕ
  pub plugin_id : String
  pub external_id : String
  pub user_id : ℕ
  pub purpose : Purpose
  pub target_id : ℕ
  pub amount_cents : ℤ
  pub balance_cents : ℤ
  pub paid_amount_cents : ℤ
  pub gateway_ref : String
  pub status : PaymentStatus
  pub paid_at : Option Time
  -- `paymentTargetKey`: the purpose and the number that it prints with a colon between them
  pub active_target_key : Option (Purpose × ℕ)

pub data RefundStatus : Type 0 where
  pending approved processing rejected failed canceled completed : RefundStatus

pub record RefundRequest : Type 0 where
  pub id : ℕ
  pub user_id : ℕ
  pub payment_id : ℕ
  pub order_id : ℕ
  pub amount_cents : ℤ
  pub channel_cents : ℤ
  pub balance_cents : ℤ
  pub status : RefundStatus
  pub refunded_at : Option Time

pub data OrderStatus : Type 0 where
  pending paid cancelled refunded : OrderStatus

pub record Order : Type 0 where
  pub id : ℕ
  pub user_id : ℕ
  pub total_cents : ℤ
  pub status : OrderStatus
  pub paid_at : Option Time

pub data ServiceStatus : Type 0 where
  pending active suspended failed terminated : ServiceStatus

pub record Service : Type 0 where
  pub id : ℕ
  pub user_id : ℕ
  pub order_id : ℕ
  pub status : ServiceStatus
  pub product_id : ℕ
  pub name : String
  pub billing_cyc : Cycle
  pub price_cents : ℤ
  pub change_pending_id : Option ℕ
  pub next_due_at : Option Time
  pub expires_at : Option Time
  pub upstream_plugin_id : String
  pub upstream_host_id : String
  pub traffic_extra_gb : ℤ
  pub suspend_reason : String
  pub suspended_at : Option Time
  pub auto_renew : Bool
  pub resume_pending : Bool
  pub refund_suspend_pending : Bool
  pub traffic_used_bytes : ℤ
  pub traffic_last_rx_bytes : ℤ
  pub traffic_last_tx_bytes : ℤ
  pub provision_error : String

pub data CouponType : Type 0 where
  percent fixed unknown : CouponType

pub record Coupon : Type 0 where
  pub id : ℕ
  pub code : String
  pub type : CouponType
  pub percent_off : ℤ
  pub amount_cents : ℤ
  pub max_discount_cents : ℤ
  pub min_order_cents : ℤ
  pub active : Bool
  pub starts_at : Option Time
  pub expires_at : Option Time
  pub max_uses : ℤ
  pub max_uses_per_user : ℤ
  pub new_user_only : Bool
  pub used_count : ℤ
  pub product_ids : List ℕ

pub record CouponRedemption : Type 0 where
  pub id : ℕ
  pub coupon_id : ℕ
  pub user_id : ℕ
  pub order_id : ℕ
  pub discount_cents : ℤ
  pub code : String

pub record Affiliate : Type 0 where
  pub id : ℕ
  pub user_id : ℕ
  pub code : String
  pub balance_cents : ℤ
  pub reserved_cents : ℤ
  pub earned_cents : ℤ

pub record AffiliateReferral : Type 0 where
  pub user_id : ℕ
  pub affiliate_id : ℕ

pub record AffiliateCommission : Type 0 where
  pub id : ℕ
  pub affiliate_id : ℕ
  pub user_id : ℕ
  pub order_id : ℕ
  pub paid_cents : ℤ
  pub amount_cents : ℤ
  pub reversed_cents : ℤ
  pub rate_bps : ℤ

pub record AffiliateReversal : Type 0 where
  pub refund_id : ℕ
  pub commission_id : ℕ
  pub amount_cents : ℤ

pub data WithdrawalStatus : Type 0 where
  pending approved rejected : WithdrawalStatus

pub record AffiliateWithdrawal : Type 0 where
  pub id : ℕ
  pub user_id : ℕ
  pub affiliate_id : ℕ
  pub amount_cents : ℤ
  pub status : WithdrawalStatus
  pub reviewed_by : Option ℕ

-- A JSON value of the settings table: no row, a row that does not decode, or its value.
pub data Setting (A : Type 0) : Type 0 where
  missing malformed : Setting A
  stored : A → Setting A

pub record AffiliateSettings : Type 0 where
  pub enabled : Bool
  pub rate_bps : ℤ
  pub min_withdrawal_cents : ℤ

pub record RefundPolicyConfig : Type 0 where
  pub force_manual : Bool
  pub auto_approve_all : Bool
  pub no_refund_after_hours : ℤ

-- `HostAction` of the plugins' protocol, as far as the services send it.
pub data HostAction : Type 0 where
  suspend unsuspend terminate resize : HostAction

-- A call of ManageHost: what is asked of which service's host, and the end of the service's paid time
-- that the table shows when the call leaves.
pub record HostCall : Type 0 where
  pub action : HostAction
  pub service_id : ℕ
  pub expires_at : Option Time

-- A resize that is under way or done.
pub data ChangeStatus : Type 0 where
  reserved applying uncertain applied failed : ChangeStatus

-- `OptionMap`, as far as the sizes of a host.
pub record OptionMap : Type 0 where
  pub cpu : String
  pub memory_mb : String
  pub disk_gb : String
  pub bandwidth_mbps : String
  pub traffic_gb : String

pub record ServiceChange : Type 0 where
  pub id : ℕ
  pub user_id : ℕ
  pub service_id : ℕ
  pub product_id : ℕ
  pub previous_product_id : ℕ
  pub idempotency_key : String
  pub operation_id : String
  pub status : ChangeStatus
  pub charge_cents : ℤ
  pub credit_cents : ℤ
  pub price_cents : ℤ
  pub options : OptionMap
  pub previous_resources : OptionMap
  pub updated_at : Time

-- The tables. `next_id` numbers the rows that are created. `payouts` is no table: it lists the
-- payments for which a channel was asked to pay back and may have done so, at the channels' side;
-- nor is `host_calls`, the calls that hosts were sent, the last one first.
pub record Db : Type 0 where
  pub users : List User
  pub transactions : List Transaction
  pub plugin_payments : List PluginPayment
  pub payments : List ExternalPayment
  pub refunds : List RefundRequest
  pub orders : List Order
  pub order_items : List OrderItem
  pub invoices : List Invoice
  pub invoice_items : List InvoiceItem
  pub products : List Product
  pub interfaces : List UpstreamInterface
  pub services : List Service
  pub changes : List ServiceChange
  pub coupons : List Coupon
  pub redemptions : List CouponRedemption
  pub affiliates : List Affiliate
  pub referrals : List AffiliateReferral
  pub commissions : List AffiliateCommission
  pub reversals : List AffiliateReversal
  pub withdrawals : List AffiliateWithdrawal
  pub affiliate_settings : Setting AffiliateSettings
  pub refund_policy : Setting RefundPolicyConfig
  -- `traffic_price_per_gb_cents`, as the code parses it
  pub traffic_price_per_gb : Option ℤ
  -- the values of two settings
  pub lifecycle_terminate_enabled : Option String
  pub lifecycle_dry_run : Option String
  pub tickets : List Ticket
  pub ticket_replies : List TicketReply
  pub ticket_attachments : List TicketAttachment
  pub next_id : ℕ
  pub payouts : List ℕ
  pub host_calls : List HostCall

module _ {ℓ} {R : Type ℓ} where
  -- `SELECT … WHERE p LIMIT 1`
  abbrev pub first : (R → Bool) → List R → Option R
  first p [] = none
  first p (r ∷ rs) = if p r then some r else first p rs

  -- `UPDATE … SET f WHERE p`
  abbrev pub update : (R → Bool) → (R → R) → List R → List R
  update p f [] = []
  update p f (r ∷ rs) = (if p r then f r else r) ∷ update p f rs

  -- `SELECT COUNT(*) … WHERE p`; also the rows that an update matches
  abbrev pub count : (R → Bool) → List R → ℕ
  count p [] = 0
  count p (r ∷ rs) = (if p r then 1 else 0) + count p rs
