-- ===== src/Grpc/ServiceLaws.antt =====
-- What src/api/grpc.rs lets through.
use conxian_nexus.Prelude.{◌≡◌, ap, Bool, true, Option, some, Text, codes}
use conxian_nexus.Prelude.Int.{ℤ, ◌<ℤ◌}
use conxian_nexus.Prelude.Result.{ok, err}
use conxian_nexus.State.Crypto.{Crypto}
use conxian_nexus.Safety.Monitor.{Link, Redis, is_safety_mode_active}
use conxian_nexus.Safety.Executor.{Executor, submit}
use conxian_nexus.Safety.ExecutorLaws.{validate_transaction-cached, submit-blocked}
use conxian_nexus.Grpc.Service.{ExecuteRequest, conclude, request_of, execute}

-- While the safety mode is on, and for a time after the cached one, execute of the gRPC service
-- answers Success and leaves the executor as it was, the audit log included; submit of the same
-- request, which the REST interface calls, gets an error and leaves the executor as it was too.
pub execute-submit :
    (c : Crypto) (link : Link) (redis : Redis) (parse : Text → Option ℤ) (now t : ℤ)
    (req : ExecuteRequest) (answered inserted : Bool) (s : Executor)
    → is_safety_mode_active link redis ≡ ok true
    → s.latest_event_time_cache ≡ some t
    → t <ℤ (request_of parse now req).timestamp
    → (execute parse now req answered s
        ≡ (s, record { tx_id = req.tx_id; status = codes "Success"; message = codes "Validated" }))
      × ((submit c link redis (request_of parse now req) answered inserted s).0 ≡ s)
      × (e : Text) × ((submit c link redis (request_of parse now req) answered inserted s).1
          ≡ err e)
unfolding execute
execute-submit c link redis parse now t req answered inserted s blocked cached after =
    let (kept, e, refused) =
      submit-blocked c link redis (request_of parse now req) answered inserted s blocked in
    (
      ap (conclude req.tx_id)
          (validate_transaction-cached (request_of parse now req) answered s t cached after),
      kept,
      e,
      refused,
    )
