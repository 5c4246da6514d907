-- ===== src/Billing/Quota.antt =====
-- The quota and the grace period of src/api/billing/mod.rs. Times are in seconds; whether the roll is
-- at most the efficiency, an `f32` test, is an argument.
use conxian_nexus.Prelude.{ℕ, Bool, true, false, Option, none, some, leb, if◌then◌else◌}
use conxian_nexus.Prelude.Int.{ℤ, pos, ltb_ℤ}
use conxian_nexus.Prelude.I64.{i64_sub}

pub data GraceStatus : Type 0 where
  active : ℤ → Bool → GraceStatus
  expired : GraceStatus

pub data QuotaDecision : Type 0 where
  within_limit : QuotaDecision
  grace_allowed : Option ℤ → QuotaDecision
  grace_throttled : ℤ → QuotaDecision
  grace_expired : QuotaDecision

abbrev pub grace_period_duration_seconds : ℤ
grace_period_duration_seconds = pos 86_400

abbrev pub free_tier_signature_limit : ℕ
free_tier_signature_limit = 50_000

unfoldable pub determine_grace_status : ℤ → ℤ → Bool → GraceStatus
determine_grace_status now grace_start roll_allowed =
    let elapsed = i64_sub now grace_start in
    if ltb_ℤ elapsed grace_period_duration_seconds
    then active (i64_sub grace_period_duration_seconds elapsed) roll_allowed
    else expired

-- The `match` on the status.
unfoldable pub decide : GraceStatus → Option ℤ → QuotaDecision
decide (active remaining true) grace_start_to_set = grace_allowed grace_start_to_set
decide (active remaining false) grace_start_to_set = grace_throttled remaining
decide expired grace_start_to_set = grace_expired

unfoldable pub evaluate_quota_decision : ℕ → ℤ → Option ℤ → Bool → QuotaDecision
unfolding determine_grace_status decide
evaluate_quota_decision new_usage now grace_start roll_allowed =
    if leb new_usage free_tier_signature_limit then within_limit else elim grace_start [
      | some start ↦ decide (determine_grace_status now start roll_allowed) none
      | none ↦ decide (determine_grace_status now now roll_allowed) (some now)
    ]
