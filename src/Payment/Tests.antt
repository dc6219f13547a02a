-- ===== src/Payment/Tests.antt =====
-- Two cancels, a compensation and two late receipts of one intent.
use levis.Base.{inl, true, ℕ, ◌+◌, ◌*◌, String, Option, ◌≤◌, ◌≡◌, refl, none, List, [], ◌∷◌, arith}
use levis.Base.Int.{ℤ, pos, ◌+ℤ◌}
use levis.Store.{
  ExternalPayment, Purpose, PaymentStatus, RefundStatus, World, ok, transaction, ◌>>=◌, select,
  raise_if, statement, pure,
}
use levis.Store.Samples.{sample_db, calm}
use levis.Wallet.{adjust_balance}
use levis.Wallet.Ledger.{IsReconciled}
use levis.Payment.{Call, cancelled, compensated, received, run}
use levis.Payment.Returns.{returned, waiting, returned-run}
use levis.Payment.Callback.{LaterCall, ending, reporting, answering, perform_all}
use levis.Payment.Late.{Kept, first-perform_all}
use levis.Payment.Settlement.{finalize_tx}
use levis.Payment.Settled.{finalize_tx-finalize_tx}
use levis.Order.Busy.{is_busy}
use levis.Payment.Reserve.{Intent, reserve}
use levis.Payment.Busy.{IsTurnedDown, reserve-IsTurnedDown}
use levis.Payment.Requests.{
  Request, reserved, ended, finalized, ordered, serve_all, serve_all-IsReconciled,
}

-- An intent with a deduction of 1.
abbrev intent : PaymentStatus → ExternalPayment
intent status = record {
  id = 40;
  plugin_id = "pay";
  external_id = "y";
  user_id = 2;
  purpose = Purpose.order;
  target_id = 20;
  amount_cents = pos 400;
  balance_cents = pos 100;
  paid_amount_cents = pos 400;
  gateway_ref = "g";
  status = status;
  paid_at = none;
  active_target_key = none;
}

abbrev shop : PaymentStatus → World
shop status = calm (record (sample_db RefundStatus.pending) { payments = intent status ∷ [] })

abbrev calls : List Call
calls =
    cancelled 2 40
    ∷ compensated (intent PaymentStatus.pending) 2
    ∷ received (intent PaymentStatus.failed) (pos 400) "h"
    ∷ received (intent PaymentStatus.late) (pos 500) "i"
    ∷ []

returned-run_example :
    returned 40 (run calls (shop PaymentStatus.pending)).db.transactions
    ≤ returned 40 (shop PaymentStatus.pending).db.transactions
      + waiting 40 (shop PaymentStatus.pending).db.payments
returned-run_example = returned-run 40 calls (shop PaymentStatus.pending)

abbrev add_date : ℕ → ℕ → ℕ → ℕ
add_date years months t = t + years * 365 + months * 30

abbrev no_scan : String → Option ℤ
no_scan s = none

-- The channel answers to the creation of an intent that is late by now, and reports it again.
abbrev afterthoughts : List LaterCall
afterthoughts =
    ending (cancelled 2 40)
    ∷ ending (received (intent PaymentStatus.failed) (pos 500) "h")
    ∷ reporting "pay" "y" (pos 500) "i" 9
    ∷ answering 40 "j"
    ∷ []

first-perform_all_example :
    Kept
      (intent PaymentStatus.late)
      (perform_all add_date no_scan afterthoughts (shop PaymentStatus.late)).db.payments
first-perform_all_example =
    first-perform_all (intent PaymentStatus.late) refl add_date no_scan afterthoughts
      (shop PaymentStatus.late) refl

-- A recharge of 4.
abbrev recharging : World
recharging = calm (record (sample_db RefundStatus.pending) {
  payments = record (intent PaymentStatus.pending) { purpose = Purpose.recharge } ∷ [];
})

once_finalized : (finalize_tx add_date no_scan 40 (pos 400) 9 recharging).0 ≡ ok tt
unfolding finalize_tx transaction ◌>>=◌ select raise_if statement adjust_balance pure
once_finalized = refl

abbrev afterwards : World
afterwards = record (finalize_tx add_date no_scan 40 (pos 400) 9 recharging).1 {
  db = record (finalize_tx add_date no_scan 40 (pos 400) 9 recharging).1.db { services = [] };
}

finalize_tx-finalize_tx_example :
    (finalize_tx add_date no_scan 40 (pos 500) 11 afterwards).1.db ≡ afterwards.db
finalize_tx-finalize_tx_example =
    finalize_tx-finalize_tx add_date no_scan 40 (pos 400) (pos 500) 9 11 recharging afterwards
      once_finalized refl

-- Another intent for the order of `intent`.
abbrev second : Intent
second = record {
  plugin_id = "pay";
  external_id = "z";
  user_id = 2;
  purpose = Purpose.order;
  target_id = 20;
  total = pos 500;
  balance = pos 0;
  external = pos 500;
  quote = 0;
}

busy : is_busy 2 20 (shop PaymentStatus.processing).db ≡ true
busy = refl

reserve-IsTurnedDown_example :
    IsTurnedDown
      (shop PaymentStatus.processing).db
      (reserve add_date no_scan true second 9 (shop PaymentStatus.processing))
reserve-IsTurnedDown_example =
    reserve-IsTurnedDown add_date no_scan true second 20 9 (shop PaymentStatus.processing)
      (inl (refl, refl)) busy

abbrev requests : List Request
requests =
    reserved second 9
    ∷ ended (cancelled 2 40)
    ∷ finalized 40 (pos 400) 11
    ∷ ordered 2 20 true 12
    ∷ []

serve_all-IsReconciled_example :
    IsReconciled (serve_all add_date no_scan true requests (shop PaymentStatus.pending)).db
serve_all-IsReconciled_example =
    serve_all-IsReconciled add_date no_scan true requests (shop PaymentStatus.pending)
      (refl, omega arith, (unfold ◌+ℤ◌ in refl, omega arith, tt))
