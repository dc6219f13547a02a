-- ===== src/Payment/Callback.antt =====
-- internal/service/payment.go: `FinalizeCallback` with the transaction of `finalize`, and what `Create` writes when
-- the channel has answered. `pay_url` is only shown; what follows the commit of `finalize` writes no payment and is
-- left out.
use levis.Base.{ℕ, ◌==◌, not, ◌&&◌, Option, List, [], ◌∷◌, String, if◌then◌else◌}
use levis.Base.Int.{ℤ}
use levis.Base.Time.{Time}
use levis.Store.{
  ExternalPayment, first, update, World, not_found, Action, pure, catch, select, execute_sql, when,
  ◌>>=◌, ◌>>◌,
}
use levis.Payment.{is_pending, record_late, Call, apply}
use levis.Payment.Settlement.{finalize_tx}
use text.Mathlib.Text.{◌==◌ as str_eq}

-- The update of `gateway_ref`, whatever the status of the row.
unfoldable pub write_gateway_ref : ℕ → String → Action (Unit {0})
write_gateway_ref id gateway_ref = execute_sql λ d. record d {
  payments =
      update (λ (p : ExternalPayment). p.id == id) (λ p. record p { gateway_ref = gateway_ref })
        d.payments;
}

module _ (add_date : ℕ → ℕ → Time → Time) (scan : String → Option ℤ) where
  unfoldable pub settle_callback : ExternalPayment → ℤ → String → Time → Action (Unit {0})
  unfolding write_gateway_ref
  settle_callback item paid_amount gateway_ref now = do
    finalize_tx add_date scan item.id paid_amount now
    when (not (str_eq gateway_ref "") && not (str_eq item.gateway_ref gateway_ref))
        (catch (write_gateway_ref item.id gateway_ref) (λ _. pure tt))

  -- `FinalizeCallback`
  unfoldable pub finalize_callback : String → String → ℤ → String → Time → Action (Unit {0})
  unfolding settle_callback
  finalize_callback plugin_id external_id paid_amount gateway_ref now = do
    item ←
        select
          (λ d.
            first
              (λ (p : ExternalPayment).
                str_eq p.plugin_id plugin_id && str_eq p.external_id external_id)
              d.payments)
          (not_found "支付记录不存在")
    if not (is_pending item.status)
        then record_late item paid_amount gateway_ref
        else settle_callback item paid_amount gateway_ref now

-- A call that may meet an intent after it was marked as late: an end of it, with what was read before, a report of
-- the channel, or the answer of the channel to its creation.
pub data LaterCall : Type 0 where
  ending : Call → LaterCall
  reporting : String → String → ℤ → String → Time → LaterCall
  answering : ℕ → String → LaterCall

module _ (add_date : ℕ → ℕ → Time → Time) (scan : String → Option ℤ) where
  unfoldable pub perform : LaterCall → World → World
  unfolding apply finalize_callback write_gateway_ref
  perform (ending c) w = apply c w
  perform (reporting plugin_id external_id paid_amount gateway_ref now) w =
      (finalize_callback add_date scan plugin_id external_id paid_amount gateway_ref now w).1
  perform (answering id gateway_ref) w = (write_gateway_ref id gateway_ref w).1

  unfoldable pub perform_all : List LaterCall → World → World
  unfolding perform
  perform_all [] w = w
  perform_all (c ∷ cs) w = perform_all cs (perform c w)
