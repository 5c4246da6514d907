-- ===== src/Safety/MonitorLaws.antt =====
-- What the safety monitor of src/safety/mod.rs leaves in Redis.
use conxian_nexus.Prelude.{
  ℕ, ◌+◌, ◌≤◌, ◌≡◌, ap, ◌∙◌, refl, Bool, true, Option, some, Text, ltb, saturating_sub, arith,
}
use conxian_nexus.Prelude.Int.{ℤ}
use conxian_nexus.Prelude.Result.{Result, ok, err}
use conxian_nexus.Safety.Monitor.{
  Redis, Link, get_flag, is_safety_mode_active, calculate_drift, max_drift, trigger_safety_mode,
  clear_safety_mode_if_needed, get_processed_height, act_on_drift, check_health, act_on_metrics,
  ingest_gateway_telemetry,
}

-- Redis answers everything.
pub record IsUp (link : Link) : Type 0 where
  pub connected : link.connects ≡ true
  pub answered : link.answers ≡ true
  pub run : link.runs ≡ true

act_on_drift-flag :
    (link : Link) (delta : ℕ) (redis : Redis)
    → IsUp link
    → get_flag link (act_on_drift link delta redis).0 ≡ ltb 2 delta
unfolding act_on_drift trigger_safety_mode clear_safety_mode_if_needed get_flag max_drift
act_on_drift-flag link delta redis up = ground arith

drift_ltb : (burn height : ℕ) → ltb 2 (saturating_sub burn height) ≡ ltb (height + 2) burn
drift_ltb burn height = ground arith

is_active-ok :
    (link : Link) (redis : Redis)
    → link.connects ≡ true
    → is_safety_mode_active link redis ≡ ok (get_flag link redis)
unfolding is_safety_mode_active
is_active-ok link redis h = rw (h) refl

flag_after :
    (link : Link) (burn height : ℕ) (processed : Result (Option ℤ) Text) (redis : Redis)
    → IsUp link
    → get_processed_height processed ≡ ok height
    → get_flag link (check_health link (ok burn) processed redis).0
      ≡ ltb 2 (saturating_sub burn height)
unfolding check_health calculate_drift
flag_after link burn height processed redis up e =
    rw (e, check_health) (act_on_drift-flag link (saturating_sub burn height) redis up)

-- With Redis up and both heights known, safety mode is on after check_health exactly when the
-- chain is more than two blocks ahead of the processed height, whatever the mode was before.
pub check_health-active :
    (link : Link) (burn height : ℕ) (processed : Result (Option ℤ) Text) (redis : Redis)
    → IsUp link
    → get_processed_height processed ≡ ok height
    → is_safety_mode_active link (check_health link (ok burn) processed redis).0
      ≡ ok (ltb (height + 2) burn)
check_health-active link burn height processed redis up e =
    is_active-ok link (check_health link (ok burn) processed redis).0 up.connected
    ∙ ap ok (flag_after link burn height processed redis up e ∙ drift_ltb burn height)

-- A health check that ends in an error has changed nothing in Redis.
pub check_health-err :
    (link : Link) (burn : Result ℕ Text) (processed : Result (Option ℤ) Text) (redis : Redis)
    (e : Text)
    → (check_health link burn processed redis).1 ≡ err e
    → (check_health link burn processed redis).0 ≡ redis
unfolding check_health act_on_drift trigger_safety_mode clear_safety_mode_if_needed
check_health-err link burn processed redis e h = ground arith

-- Nor does a gateway that fails, answers with an error or has verified at most a hundred.
pub ingest_gateway_telemetry-quiet :
    (rate_over : ℕ → ℕ → Bool) (link : Link) (good bad : ℕ) (redis : Redis)
    → good + bad ≤ 100
    → (ingest_gateway_telemetry rate_over link
        (some (ok (record { is_success = true; metrics = ok (some good, some bad) })))
        redis)
      ≡ (redis, ok tt)
unfolding ingest_gateway_telemetry act_on_metrics
ingest_gateway_telemetry-quiet rate_over link good bad redis h = ground arith
