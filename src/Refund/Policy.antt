-- ===== src/Refund/Policy.antt =====
-- internal/service/refund.go, `evaluatePolicy`: when a refund is denied, reviewed or paid at once.
use levis.Base.{ℕ, ◌+◌, ◌*◌, ◌≤◌, ◌<◌, ◌≡◌, ◌↔◌, ◌⊎◌, Bool, true, false, arith}
use levis.Base.Int.{pos, ◌*ℤ◌, i64, two_63, ltb_ℤ, i64_id}
use levis.Base.Time.{Time, hour}
use levis.Store.{RefundPolicyConfig}
use levis.Refund.{auto_approved, denied, refund_no_reason_hours, evaluate_policy}

abbrev pub policy : Bool → Bool → ℕ → RefundPolicyConfig
policy manual all hours = record {
  force_manual = manual;
  auto_approve_all = all;
  no_refund_after_hours = pos hours;
}

-- The limits of hours that an int64 of nanoseconds can hold.
abbrev pub max_hours : ℕ
max_hours = 2562047

product : (hours : ℕ) → pos hours *ℤ pos hour ≡ pos (hours * hour)
unfolding ◌*ℤ◌
product hours = ground arith

hours_exact : (hours : ℕ) → hours ≤ max_hours → i64 (pos hours *ℤ pos hour) ≡ pos (hours * hour)
hours_exact hours h = rw (product hours) (i64_id (pos (hours * hour)) (omega arith))

hours_wrapped :
    (hours : ℕ)
    → max_hours < hours
    → hours ≤ 2 * max_hours
    → ltb_ℤ (i64 (pos hours *ℤ pos hour)) (pos 0) ≡ true
unfolding i64
hours_wrapped hours h k = rw (product hours) (ground arith)

-- What the policy decides of a payment that is `age` old, for a limit that fits a duration: too old is
-- denied, whatever else is set; then a forced review, then the approval of all, and then the twelve
-- hours decide.
pub evaluate_policy_lem :
    (manual all : Bool) (hours : ℕ) (paid_at age : ℕ)
    → hours ≤ max_hours
    → age < two_63
    → let verdict = evaluate_policy (policy manual all hours) paid_at (paid_at + age) in
      ((verdict ≡ denied) ↔ ((0 < hours) × (hours * hour < age)))
      × ((verdict ≡ auto_approved) ↔ (
          ((hours ≡ 0) ⊎ (age ≤ hours * hour))
          × (manual ≡ false)
          × ((all ≡ true) ⊎ (age ≤ refund_no_reason_hours * hour))))
unfolding evaluate_policy
evaluate_policy_lem manual all hours paid_at age h k =
    rw (hours_exact hours h) (ground arith, ground arith)

-- A limit between 2562048 and 5124094 hours overflows the duration, and denies every refund at once,
-- also of a payment that was made this moment.
pub evaluate_policy_overflow :
    (manual all : Bool) (hours : ℕ) (paid_at now : Time)
    → max_hours < hours
    → hours ≤ 2 * max_hours
    → paid_at ≤ now
    → evaluate_policy (policy manual all hours) paid_at now ≡ denied
unfolding evaluate_policy
evaluate_policy_overflow manual all hours paid_at now h k ordered =
    ground (arith, hours_wrapped hours h k)
