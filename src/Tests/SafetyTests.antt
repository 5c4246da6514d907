-- ===== src/Tests/SafetyTests.antt =====
-- The theorems about src/safety/mod.rs and src/executor/mod.rs, with a chain ten blocks ahead.
use conxian_nexus.Prelude.{
  ◌+◌, ◌≡◌, refl, true, false, Option, none, some, [], ◌∷◌, Text, All, codes, ltb, arith,
}
use conxian_nexus.Prelude.Int.{ℤ, pos, as_u64, ◌<ℤ◌}
use conxian_nexus.Prelude.Result.{ok, err}
use conxian_nexus.Safety.Monitor.{
  Redis, Link, get_flag, is_safety_mode_active, get_processed_height, check_health,
  ingest_gateway_telemetry, calculate_drift, act_on_drift, max_drift, trigger_safety_mode,
}
use conxian_nexus.Safety.MonitorLaws.{IsUp, check_health-active, ingest_gateway_telemetry-quiet}
use conxian_nexus.Safety.Executor.{
  ExecutionRequest, Executor, max_arrival, get_cached_or_fetch_latest_event_time,
  validate_transaction, check_safety_mode, audit_row, record_request, submit,
}
use conxian_nexus.Safety.ExecutorLaws.{Before, check_health-submit, submit-accepted}
use conxian_nexus.Grpc.Service.{ExecuteRequest, request_of, execute}
use conxian_nexus.Grpc.ServiceLaws.{execute-submit}
use conxian_nexus.Tests.Stubs.{toy_crypto}

abbrev redis : Redis
redis = record { safety_mode = none; drift = none; events = [] }

abbrev link : Link
link = record { connects = true; answers = true; runs = true }

abbrev broken : Link
broken = record { connects = false; answers = true; runs = true }

up : IsUp link
up = record { connected = refl; answered = refl; run = refl }

height_90 : get_processed_height (ok (some (pos 90))) ≡ ok 90
unfolding get_processed_height as_u64
height_90 = refl

abbrev request : ExecutionRequest
request = record {
  tx_id = codes "tx2";
  payload = codes "data";
  timestamp = pos 200;
  sender = codes "s";
  priority = pos 1;
}

abbrev logged : ExecutionRequest
logged = record request { tx_id = codes "tx1"; timestamp = pos 100 }

abbrev executor : Option ℤ → Executor
executor cache = record {
  latest_event_time_cache = cache;
  audit_log = audit_row toy_crypto logged ∷ [];
}

check_health-active_example :
    is_safety_mode_active link (check_health link (ok 100) (ok (some (pos 90))) redis).0
    ≡ ok (ltb (90 + 2) 100)
check_health-active_example =
    check_health-active link 100 90 (ok (some (pos 90))) redis up height_90

failing : (check_health broken (ok 100) (ok (some (pos 90))) redis).1 ≡ err (codes "redis")
unfolding check_health get_processed_height as_u64 calculate_drift act_on_drift max_drift
    trigger_safety_mode
failing = refl

ingest_gateway_telemetry-quiet_example :
    ingest_gateway_telemetry
      (λ bad total. true)
      link
      (some (ok (record { is_success = true; metrics = ok (some 40, some 60) })))
      redis
    ≡ (redis, ok tt)
ingest_gateway_telemetry-quiet_example =
    ingest_gateway_telemetry-quiet (λ bad total. true) link 40 60 redis (omega arith)

check_health-submit_example :
    ((submit toy_crypto link
        (check_health link (ok 100) (ok (some (pos 90))) redis).0
        request
        true
        true
        (executor none)).0
      ≡ executor none)
    × (e : Text) × ((submit toy_crypto link
          (check_health link (ok 100) (ok (some (pos 90))) redis).0
          request
          true
          true
          (executor none)).1
        ≡ err e)
check_health-submit_example =
    check_health-submit toy_crypto link 100 90 (ok (some (pos 90))) redis request true true
      (executor none) up height_90 (omega arith)

admitted : (submit toy_crypto link redis request true true (executor none)).1 ≡ ok (codes "tx2")
unfolding submit check_safety_mode is_safety_mode_active get_flag validate_transaction
    get_cached_or_fetch_latest_event_time max_arrival record_request audit_row
admitted = refl

submit-accepted_example :
    ((submit toy_crypto link redis request true true (executor none)).0.audit_log
      ≡ audit_row toy_crypto request ∷ (executor none).audit_log)
    × Before (pos 200) none
    × ((executor none).latest_event_time_cache ≡ none
        → All (λ row. row.arrival_time <ℤ pos 200) (executor none).audit_log)
submit-accepted_example =
    submit-accepted toy_crypto link redis request true true (executor none) (codes "tx2") admitted

-- Redis says that the safety mode is on.
abbrev alarmed : Redis
alarmed = record redis { safety_mode = some true }

blocked : is_safety_mode_active link alarmed ≡ ok true
unfolding is_safety_mode_active get_flag
blocked = refl

abbrev call : ExecuteRequest
call = record { tx_id = codes "tx2"; payload = codes "data"; sender = codes "s"; timestamp = [] }

execute-submit_example :
    (execute (λ t. none) (pos 60) call true (executor (some (pos 50))) ≡ (
      executor (some (pos 50)),
      record { tx_id = codes "tx2"; status = codes "Success"; message = codes "Validated" },
    ))
    × ((submit toy_crypto link alarmed
          (request_of (λ t. none) (pos 60) call)
          true
          true
          (executor (some (pos 50)))).0
        ≡ executor (some (pos 50)))
    × (e : Text) × ((submit toy_crypto link alarmed
          (request_of (λ t. none) (pos 60) call)
          true
          true
          (executor (some (pos 50)))).1
        ≡ err e)
execute-submit_example =
    execute-submit toy_crypto link alarmed (λ t. none) (pos 60) (pos 50) call true true
      (executor (some (pos 50))) blocked refl (omega arith)
