-- ===== src/Safety/Monitor.antt =====
-- `NexusSafety` of src/safety/mod.rs. Redis is its two keys and the events published; how a call to
-- it ends is a `Link`. Heights come from outside, and so does the `f64` test on the failure rate.
use conxian_nexus.Prelude.{
  ℕ, Bool, true, false, Option, none, some, List, ◌∷◌, ◌++◌, ◌&&◌, Text, codes, saturating_sub,
  add64, ltb, if◌then◌else◌,
}
use conxian_nexus.Prelude.Int.{ℤ, as_u64}
use conxian_nexus.Prelude.Result.{Result, ok, err}

-- `nexus:safety_mode`, `nexus:drift` and the messages on `nexus:events`, the latest first.
pub record Redis : Type 0 where
  pub safety_mode : Option Bool
  pub drift : Option ℕ
  pub events : List Text

-- Whether the connection opens, a GET is answered and a pipeline runs.
pub record Link : Type 0 where
  pub connects : Bool
  pub answers : Bool
  pub runs : Bool

-- `GET nexus:safety_mode` as a `bool`, with `unwrap_or(false)`.
unfoldable pub get_flag : Link → Redis → Bool
get_flag link redis = elim redis.safety_mode [ none ↦ false | some flag ↦ link.answers && flag ]

unfoldable pub is_safety_mode_active : Link → Redis → Result Bool Text
unfolding get_flag
is_safety_mode_active link redis =
    if link.connects then ok (get_flag link redis) else err (codes "redis")

unfoldable pub calculate_drift : ℕ → ℕ → ℕ
calculate_drift current processed = saturating_sub current processed

unfoldable pub max_drift : ℕ
max_drift = 2

-- What follows a pipeline: its effect if it ran.
abbrev pub pipe : Link → Redis → Redis → Redis × Result (Unit {0}) Text
pipe link before after = if link.runs then (after, ok tt) else (before, err (codes "redis"))

unfoldable pub trigger_safety_mode : Link → ℕ → Redis → Redis × Result (Unit {0}) Text
trigger_safety_mode link delta redis =
    if link.connects
    then pipe link redis (record {
      safety_mode = some true;
      drift = some delta;
      events = codes "safety_mode_triggered" ∷ redis.events;
    })
    else (redis, err (codes "redis"))

unfoldable pub clear_safety_mode_if_needed : Link → Redis → Redis × Result (Unit {0}) Text
unfolding get_flag
clear_safety_mode_if_needed link redis =
    if link.connects
    then (if get_flag link redis
        then pipe link redis (record {
          safety_mode = none;
          drift = none;
          events = codes "safety_mode_cleared" ∷ redis.events;
        })
        else (redis, ok tt))
    else (redis, err (codes "redis"))

-- `max_height.unwrap_or(0) as u64`
unfoldable pub get_processed_height : Result (Option ℤ) Text → Result ℕ Text
get_processed_height (ok (some h)) = ok (as_u64 h)
get_processed_height (ok none) = ok 0
get_processed_height (err e) = err e

-- `check_health` on the two heights.
unfoldable pub act_on_drift : Link → ℕ → Redis → Redis × Result (Unit {0}) Text
act_on_drift link delta redis =
    if ltb max_drift delta
    then trigger_safety_mode link delta redis
    else clear_safety_mode_if_needed link redis

-- The node's height and the answer to the query for the processed one.
unfoldable pub check_health :
    Link → Result ℕ Text → Result (Option ℤ) Text → Redis → Redis × Result (Unit {0}) Text
check_health link (err e) processed redis = (redis, err e)
check_health link (ok burn) processed redis = elim (get_processed_height processed) [
  | err e ↦ (redis, err e)
  | ok height ↦ act_on_drift link (calculate_drift burn height) redis
]

-- The gateway's answer: whether its status is a success, and its two counters.
pub record GatewayState : Type 0 where
  pub is_success : Bool
  pub metrics : Result (Option ℕ × Option ℕ) Text

-- The counters are read with `unwrap_or(0)`; the alert is a drift of 999.
unfoldable pub act_on_metrics :
    (ℕ → ℕ → Bool) → Link → ℕ → ℕ → Redis → Redis × Result (Unit {0}) Text
act_on_metrics rate_over link success_count failure_count redis =
    let total = add64 success_count failure_count in
    if ltb 100 total
    then (if rate_over failure_count total
        then trigger_safety_mode link 999 redis
        else (redis, ok tt))
    else (redis, ok tt)

abbrev or_zero : Option ℕ → ℕ
or_zero none = 0
or_zero (some n) = n

unfoldable pub ingest_gateway_telemetry :
    (ℕ → ℕ → Bool)
    → Link
    → Option (Result GatewayState Text)
    → Redis
    → Redis × Result (Unit {0}) Text
ingest_gateway_telemetry rate_over link none redis = (redis, ok tt)
ingest_gateway_telemetry rate_over link (some (err e)) redis = (redis, err e)
ingest_gateway_telemetry rate_over link (some (ok state)) redis =
    if state.is_success
    then elim state.metrics [
      | err e ↦ (redis, err e)
      | ok (good, bad) ↦ act_on_metrics rate_over link (or_zero good) (or_zero bad) redis
    ]
    else (redis, ok tt)

-- One turn of `run_heartbeat`, whose errors are logged.
unfoldable pub heartbeat :
    (ℕ → ℕ → Bool)
    → Link
    → Result ℕ Text
    → Result (Option ℤ) Text
    → Option (Result GatewayState Text)
    → Redis
    → Redis
heartbeat rate_over link burn processed gateway redis =
    (ingest_gateway_telemetry rate_over link gateway (check_health link burn processed redis).0).0

unfoldable pub get_direct_exit_status : Link → Text → Redis → Result Text Text
unfolding get_flag
get_direct_exit_status link user_address redis =
    if link.connects
    then ok (
        codes "User "
        ++ (user_address
            ++ (if get_flag link redis
                then codes ": Eligible for Direct Withdrawal (Safety Mode Active)"
                else codes ": System healthy, use standard exit paths")))
    else err (codes "redis")
