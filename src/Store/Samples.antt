-- ===== src/Store/Samples.antt =====
-- Tables and worlds for the examples.
use levis.Base.{true, false, none, some, [], ◌∷◌}
use levis.Base.Int.{pos}
use levis.Store.Rows.{
  User, Role, Transaction, TxType, PaymentStatus, Purpose, ExternalPayment, RefundRequest,
  RefundStatus, Affiliate, AffiliateWithdrawal, WithdrawalStatus, stored, missing, Db,
}
use levis.Store.Monad.{World, accepted}

abbrev pub root : User
root = record { id = 1; role = Role.admin; active = true; balance_cents = pos 0 }

abbrev pub buyer : User
buyer = record { id = 2; role = Role.user; active = true; balance_cents = pos 500 }

abbrev pub bought : Transaction
bought = record {
  id = 3;
  user_id = 2;
  type = TxType.recharge;
  amount_cents = pos 500;
  balance_after_cents = pos 500;
  ref_type = "";
  ref_id = 0;
}

-- A payment of 30 that was made through a channel.
abbrev pub paid_order : ExternalPayment
paid_order = record {
  id = 7;
  plugin_id = "pay";
  external_id = "x";
  user_id = 2;
  purpose = Purpose.recharge;
  target_id = 0;
  amount_cents = pos 3000;
  balance_cents = pos 0;
  paid_amount_cents = pos 3000;
  gateway_ref = "g";
  status = PaymentStatus.paid;
  paid_at = some 0;
  active_target_key = none;
}

abbrev pub wanted_refund : RefundStatus → RefundRequest
wanted_refund status = record {
  id = 8;
  user_id = 2;
  payment_id = 7;
  order_id = 0;
  amount_cents = pos 3000;
  channel_cents = pos 3000;
  balance_cents = pos 0;
  status = status;
  refunded_at = none;
}

abbrev pub promoter : Affiliate
promoter = record {
  id = 4;
  user_id = 2;
  code = "abc";
  balance_cents = pos 1000;
  reserved_cents = pos 2000;
  earned_cents = pos 3000;
}

abbrev pub wanted_withdrawal : AffiliateWithdrawal
wanted_withdrawal = record {
  id = 5;
  user_id = 2;
  affiliate_id = 4;
  amount_cents = pos 2000;
  status = WithdrawalStatus.pending;
  reviewed_by = none;
}

abbrev pub sample_db : RefundStatus → Db
sample_db status = record {
  users = root ∷ buyer ∷ [];
  transactions = bought ∷ [];
  plugin_payments = [];
  payments = paid_order ∷ [];
  refunds = wanted_refund status ∷ [];
  orders = [];
  order_items = [];
  invoices = [];
  invoice_items = [];
  products = [];
  interfaces = [];
  services = [];
  changes = [];
  coupons = [];
  redemptions = [];
  affiliates = promoter ∷ [];
  referrals = [];
  commissions = [];
  reversals = [];
  withdrawals = wanted_withdrawal ∷ [];
  affiliate_settings =
      stored (record { enabled = true; rate_bps = pos 500; min_withdrawal_cents = pos 1000 });
  refund_policy = missing;
  traffic_price_per_gb = none;
  lifecycle_terminate_enabled = none;
  lifecycle_dry_run = none;
  tickets = [];
  ticket_replies = [];
  ticket_attachments = [];
  next_id = 100;
  payouts = [];
  host_calls = [];
}

-- No statement fails and the channel accepts.
abbrev pub calm : Db → World
calm d = record { db = d; fails = λ _. false; replies = λ _. accepted; step = 0 }
