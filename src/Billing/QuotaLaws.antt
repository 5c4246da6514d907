-- ===== src/Billing/QuotaLaws.antt =====
-- When the quota of src/api/billing/mod.rs lets a call through.
use conxian_nexus.Prelude.{ℕ, ◌-◌, ◌^◌, ◌≤◌, ◌<◌, ◌≡◌, Bool, true, none, some, if◌then◌else◌, arith}
use conxian_nexus.Prelude.Int.{ℤ, pos, ◌+ℤ◌, ◌-ℤ◌, ◌≤ℤ◌, ◌<ℤ◌, ltb_ℤ}
use conxian_nexus.Prelude.I64.{i64_sub, i64_sub_kept}
use conxian_nexus.Billing.Quota.{
  QuotaDecision, grace_allowed, grace_throttled, grace_expired, determine_grace_status, decide,
  evaluate_quota_decision,
}

-- Times after 1970 that fit, in their order.
IsI64-sub :
    (start now : ℤ)
    → pos 0 ≤ℤ start
    → start ≤ℤ now
    → now ≤ℤ pos (2 ^ 63 - 1)
    → i64_sub now start ≡ now -ℤ start
unfolding ◌-ℤ◌
IsI64-sub start now epoch order top =
    i64_sub_kept now start (record { least = ground arith; greatest = ground arith })

rest_kept :
    (start now : ℤ)
    → start ≤ℤ now
    → now <ℤ start +ℤ pos 86_400
    → i64_sub (pos 86_400) (now -ℤ start) ≡ start +ℤ pos 86_400 -ℤ now
unfolding ◌+ℤ◌ ◌-ℤ◌
rest_kept start now order early =
    rw
      (i64_sub_kept (pos 86_400) (now -ℤ start)
        (record { least = ground arith; greatest = ground arith }))
      (ground arith)

-- What is decided above the limit once the period has its start.
abbrev pub within_a_day : ℤ → ℤ → Bool → QuotaDecision
within_a_day start now roll_allowed =
    if ltb_ℤ now (start +ℤ pos 86_400)
    then (if roll_allowed then grace_allowed none else grace_throttled (start +ℤ pos 86_400 -ℤ now))
    else grace_expired

day_over : (start now : ℤ) → start +ℤ pos 86_400 ≤ℤ now → pos 86_400 ≤ℤ now -ℤ start
unfolding ◌+ℤ◌ ◌-ℤ◌
day_over start now late = ground arith

day_left : (start now : ℤ) → now <ℤ start +ℤ pos 86_400 → now -ℤ start <ℤ pos 86_400
unfolding ◌+ℤ◌ ◌-ℤ◌
day_left start now early = ground arith

evaluate_quota_decision-started :
    (new_usage : ℕ) (start now : ℤ) (roll_allowed : Bool)
    → 50_000 < new_usage
    → pos 0 ≤ℤ start
    → start ≤ℤ now
    → now ≤ℤ pos (2 ^ 63 - 1)
    → evaluate_quota_decision new_usage now (some start) roll_allowed
      ≡ within_a_day start now roll_allowed
unfolding evaluate_quota_decision determine_grace_status decide
evaluate_quota_decision-started new_usage start now roll_allowed over epoch order top =
    let elapsed = IsI64-sub start now epoch order top in
    ground (arith, elapsed, rest_kept start now order, day_over start now, day_left start now)

evaluate_quota_decision-allowed :
    (new_usage : ℕ) (now : ℤ) (roll_allowed : Bool)
    → evaluate_quota_decision new_usage now none roll_allowed ≡ grace_allowed (some now)
    → (50_000 < new_usage) × (roll_allowed ≡ true)
unfolding evaluate_quota_decision determine_grace_status decide
evaluate_quota_decision-allowed new_usage now roll_allowed e = ground arith

-- When a call without a stored start is allowed and has a start set, its usage is above 50000, and
-- a call with that start and no less usage, not before it and by a clock after 1970 that fits in
-- an i64, is decided by the time alone: within a day the roll decides, and what is left of the day
-- is told when it fails; from then on the period has expired.
pub evaluate_quota_decision-lasts :
    (new_usage later_usage : ℕ) (start now : ℤ) (first_roll roll_allowed : Bool)
    → evaluate_quota_decision new_usage start none first_roll ≡ grace_allowed (some start)
    → new_usage ≤ later_usage
    → pos 0 ≤ℤ start
    → start ≤ℤ now
    → now ≤ℤ pos (2 ^ 63 - 1)
    → (50_000 < new_usage)
      × (evaluate_quota_decision later_usage now (some start) roll_allowed
          ≡ within_a_day start now roll_allowed)
evaluate_quota_decision-lasts new_usage later_usage start now first_roll roll_allowed e more epoch
      order top =
    let (over, _) = evaluate_quota_decision-allowed new_usage start first_roll e in
    (
      over,
      evaluate_quota_decision-started later_usage start now roll_allowed (omega arith) epoch order
          top,
    )
