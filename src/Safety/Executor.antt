-- ===== src/Safety/Executor.antt =====
-- `NexusExecutor` of src/executor/mod.rs: the sequencer's admission of a transaction. A time is a
-- count of microseconds, the precision of the audit log. Whether a query is answered is an argument.
use conxian_nexus.Prelude.{
  Bool, true, false, Option, none, some, List, [], ◌∷◌, Text, codes, if◌then◌else◌, as_bytes,
}
use conxian_nexus.Prelude.Int.{ℤ, leb_ℤ}
use conxian_nexus.Prelude.Result.{Result, ok, err, ◌>>=◌}
use conxian_nexus.State.Crypto.{Crypto}
use conxian_nexus.Safety.Monitor.{Link, Redis, is_safety_mode_active}

pub record ExecutionRequest : Type 0 where
  pub tx_id : Text
  pub payload : Text
  pub timestamp : ℤ
  pub sender : Text
  pub priority : ℤ

-- A row of `me_audit_log`.
pub record AuditRow : Type 0 where
  pub tx_id : Text
  pub payload_hash : Text
  pub sender : Text
  pub arrival_time : ℤ
  pub payload : Text
  pub sequencing_priority : ℤ

-- The cache of the latest event time, and the audit log.
pub record Executor : Type 0 where
  pub latest_event_time_cache : Option ℤ
  pub audit_log : List AuditRow

-- `SELECT MAX(arrival_time)`
abbrev pub later : ℤ → Option ℤ → ℤ
later t none = t
later t (some u) = if leb_ℤ u t then t else u

unfoldable pub max_arrival : List AuditRow → Option ℤ
max_arrival [] = none
max_arrival (row ∷ rows) = let rest = max_arrival rows in some (later row.arrival_time rest)

-- The cache after a fetch.
abbrev pub fill : Option ℤ → Executor → Executor
fill none s = s
fill (some t) s = record s { latest_event_time_cache = some t }

unfoldable pub get_cached_or_fetch_latest_event_time :
    Bool → Executor → Executor × Result (Option ℤ) Text
get_cached_or_fetch_latest_event_time answered s = elim s.latest_event_time_cache [
  | some t ↦ (s, ok (some t))
  | none ↦
      if answered
      then (fill (max_arrival s.audit_log) s, ok (max_arrival s.audit_log))
      else (s, err (codes "database"))
]

abbrev pub is_later : ExecutionRequest → Option ℤ → Bool
is_later request none = true
is_later request (some event_time) = if leb_ℤ request.timestamp event_time then false else true

abbrev pub judge : ExecutionRequest → Result (Option ℤ) Text → Result Bool Text
judge request (err e) = err e
judge request (ok t) = ok (is_later request t)

unfoldable pub validate_transaction :
    ExecutionRequest → Bool → Executor → Executor × Result Bool Text
unfolding get_cached_or_fetch_latest_event_time
validate_transaction request answered s =
    let (s', latest) = get_cached_or_fetch_latest_event_time answered s in
    (s', judge request latest)

abbrev block_execution : Bool → Result (Unit {0}) Text
block_execution true =
    err (codes "System is in Safety Mode (Sovereign Handoff Active). Execution blocked.")
block_execution false = ok tt

-- `check_safety_mode`
unfoldable pub check_safety_mode : Link → Redis → Result (Unit {0}) Text
check_safety_mode link redis = do active ← is_safety_mode_active link redis; block_execution active

module _ (c : Crypto) where
  open c use {sha256, hex_encode}

  unfoldable pub audit_row : ExecutionRequest → AuditRow
  audit_row request = record {
    tx_id = request.tx_id;
    payload_hash = hex_encode (sha256 (as_bytes request.payload));
    sender = request.sender;
    arrival_time = request.timestamp;
    payload = request.payload;
    sequencing_priority = request.priority;
  }

  -- `submit` behind the validation; the insertion is the last call.
  unfoldable pub record_request :
      ExecutionRequest → Bool → Executor × Result Bool Text → Executor × Result Text Text
  record_request request inserted (s, err e) = (s, err e)
  record_request request inserted (s, ok false) = (s, err (codes "Transaction validation failed"))
  record_request request inserted (s, ok true) =
      if inserted
      then ((record s { audit_log = audit_row request ∷ s.audit_log }), ok request.tx_id)
      else (s, err (codes "database"))

  unfoldable pub submit :
      Link → Redis → ExecutionRequest → Bool → Bool → Executor → Executor × Result Text Text
  submit link redis request answered inserted s = elim (check_safety_mode link redis) [
    | err e ↦ (s, err e)
    | ok _ ↦ record_request request inserted (validate_transaction request answered s)
  ]
