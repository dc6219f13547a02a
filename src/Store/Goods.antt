-- ===== src/Store/Goods.antt =====
-- The rows of internal/model/model.go for what is sold: products, order lines and invoices. Columns that
-- are only shown are left out.
use levis.Base.{ℕ, Option, String}
use levis.Base.Int.{ℤ}
use levis.Base.Time.{Time}

pub data Cycle : Type 0 where
  onetime monthly quarterly semiannually annually biennially triennially : Cycle
  unsupported : String → Cycle

pub record Product : Type 0 where
  pub id : ℕ
  pub stock : ℤ
  pub upstream_plugin_id : String
  pub upstream_product_id : String
  pub interface_id : ℕ
  -- `ProvisionConfig`: the price of a step of traffic, the rounded step, and the price of one GB
  pub traffic_unit_price_cents : ℤ
  pub traffic_step : ℤ
  pub traffic_price_cents : ℤ

pub record UpstreamInterface : Type 0 where
  pub id : ℕ
  pub plugin_id : String

pub record OrderItem : Type 0 where
  pub order_id : ℕ
  pub product_id : ℕ
  pub product_name : String
  pub price_cents : ℤ
  pub quantity : ℤ
  pub billing_cyc : Cycle
  -- the option `traffic_gb`, as `strconv.Atoi` reads it
  pub traffic_gb : Option ℤ

pub data InvoiceStatus : Type 0 where
  unpaid paid cancelled : InvoiceStatus

pub record Invoice : Type 0 where
  pub id : ℕ
  pub user_id : ℕ
  pub order_id : Option ℕ
  pub service_id : Option ℕ
  pub status : InvoiceStatus
  pub total_cents : ℤ
  pub due_at : Option Time
  pub paid_at : Option Time

pub record InvoiceItem : Type 0 where
  pub id : ℕ
  pub invoice_id : ℕ
  pub service_id : Option ℕ
  pub description : String
  pub amount_cents : ℤ
