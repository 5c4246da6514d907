-- ===== src/Grpc/Service.antt =====
-- The methods of `NexusGrpcService` of src/api/grpc.rs, and its interceptor. `serde_json::to_string`
-- of a proof and the reading of a time are parameters; the clock and the replies of the database
-- are arguments.
use conxian_nexus.Prelude.{
  ℕ, Bool, true, false, Option, none, some, Text, codes, text_eq, is_empty, utf8_len, ltb,
  if◌then◌else◌,
}
use conxian_nexus.Prelude.Int.{ℤ, pos, negsuc}
use conxian_nexus.Prelude.Result.{Result, ok, err}
use conxian_nexus.State.Crypto.{Crypto}
use conxian_nexus.State.Tree.{MerkleProof}
use conxian_nexus.State.Mmr.{get_root}
use conxian_nexus.State.Node.{NexusState, generate_merkle_proof}
use conxian_nexus.Safety.Executor.{ExecutionRequest, Executor, validate_transaction}
use conxian_nexus.Rest.Proofs.{get_state_root}
use conxian_nexus.Grpc.Flags.{Calls, MetricsCounts, read_safety_flags, read_cached_metrics_counts}

-- The argument is the header as visible ASCII text, if it is one.
unfoldable pub grpc_auth_interceptor : Option Text → Result (Unit {0}) Text
grpc_auth_interceptor none = err (codes "Missing API key")
grpc_auth_interceptor (some api_key) =
    if ltb (utf8_len api_key) 16
    then err (codes "Invalid API key format")
    else if text_eq api_key (codes "dev-mode")
    then ok tt
    else ok tt

pub record VerifyStateResponse : Type 0 where
  pub valid : Bool
  pub mmr_root : Text

pub record StatusResponse : Type 0 where
  pub state_root : Text
  pub mmr_root : Text
  pub processed_height : ℕ
  pub safety_mode : Bool
  pub drift : ℕ

pub record MetricsResponse : Type 0 where
  pub total_transactions : ℕ
  pub total_blocks : ℕ
  pub safety_mode : Bool
  pub drift : ℕ
  pub uptime_seconds : ℕ

pub record ExecuteRequest : Type 0 where
  pub tx_id : Text
  pub payload : Text
  pub sender : Text
  pub timestamp : Text

pub record ExecuteResponse : Type 0 where
  pub tx_id : Text
  pub status : Text
  pub message : Text

-- `max_height.unwrap_or(0).max(0) as u64`
abbrev height_of : Option ℤ → ℕ
height_of none = 0
height_of (some (pos n)) = n
height_of (some (negsuc n)) = 0

-- The answer to a verdict.
abbrev pub conclude : Text → Executor × Result Bool Text → Executor × ExecuteResponse
conclude tx_id (s, ok true) =
    (s, record { tx_id = tx_id; status = codes "Success"; message = codes "Validated" })
conclude tx_id (s, ok false) =
    (s, record { tx_id = tx_id; status = codes "Rejected"; message = codes "Rejected" })
conclude tx_id (s, err e) =
    (s, record { tx_id = tx_id; status = codes "Rejected"; message = codes "Rejected" })

module _ (c : Crypto) where
  -- The hash and the proof of the response; `none` when the tracker panics.
  unfoldable pub get_merkle_proof : (MerkleProof → Text) → Text → NexusState → Option (Text × Text)
  unfolding generate_merkle_proof
  get_merkle_proof to_string key s = elim (generate_merkle_proof c s key) [
    | none ↦ none
    | some none ↦ some (get_state_root s, codes "{}")
    | some (some p) ↦ some (p.root, to_string p)
  ]

  unfoldable pub verify_state : Text → NexusState → VerifyStateResponse
  verify_state state_root s = record {
    valid = text_eq (get_state_root s) state_root;
    mmr_root = get_root c s.mmr;
  }

  -- The outer `none` of the height is a query that fails. With it, whether a connection is kept.
  unfoldable pub get_status :
      Option (Option ℤ) → Calls → Bool → NexusState → Bool × Result StatusResponse Text
  unfolding read_safety_flags
  get_status none calls kept s = (kept, err (codes "Database error in GetStatus (max_height)"))
  get_status (some max_height) calls kept s =
      let (kept', (safety_mode, drift)) = read_safety_flags calls kept in
      (
        kept',
        ok (record {
          state_root = get_state_root s;
          mmr_root = get_root c s.mmr;
          processed_height = height_of max_height;
          safety_mode = safety_mode;
          drift = drift;
        }),
      )

-- The part behind the counts.
abbrev metrics : ℕ → Calls → Bool → Result (ℕ × ℕ) Text → Bool × Result MetricsResponse Text
metrics uptime calls kept (err e) = (kept, err e)
metrics uptime calls kept (ok (tx_count, block_count)) =
    let (kept', (safety_mode, drift)) = read_safety_flags calls kept in
    (
      kept',
      ok (record {
        total_transactions = tx_count;
        total_blocks = block_count;
        safety_mode = safety_mode;
        drift = drift;
        uptime_seconds = uptime;
      }),
    )

unfoldable pub get_metrics :
    ℕ
    → ℕ
    → ℕ
    → Option (ℤ × ℤ)
    → ℕ
    → Calls
    → Bool
    → Option MetricsCounts
    → Option MetricsCounts × (Bool × Result MetricsResponse Text)
unfolding read_cached_metrics_counts read_safety_flags
get_metrics first second third counts uptime calls kept cache =
    let (cache', result) = read_cached_metrics_counts first second third counts cache in
    (cache', metrics uptime calls kept result)

-- A time that is missing or cannot be read is the present.
abbrev time_of : (Text → Option ℤ) → ℤ → Text → ℤ
time_of parse now timestamp =
    if is_empty timestamp then now else elim (parse timestamp) [ none ↦ now | some t ↦ t ]

abbrev pub request_of : (Text → Option ℤ) → ℤ → ExecuteRequest → ExecutionRequest
request_of parse now req = record {
  tx_id = req.tx_id;
  payload = req.payload;
  timestamp = time_of parse now req.timestamp;
  sender = req.sender;
  priority = pos 0;
}

unfoldable pub execute :
    (Text → Option ℤ) → ℤ → ExecuteRequest → Bool → Executor → Executor × ExecuteResponse
unfolding validate_transaction
execute parse now req answered s =
    conclude req.tx_id (validate_transaction (request_of parse now req) answered s)
