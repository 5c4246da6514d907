-- ===== src/Settlement/Trigger.antt =====
-- `settlement_trigger_handler` of src/api/settlement.rs. PostgreSQL, Kwil and the oracle are outside:
-- how each call ends is given in `Outside`, and what a call writes is appended to `Tables`.
use conxian_nexus.Prelude.{
  ℕ, Bool, true, false, Option, none, some, List, ◌∷◌, ◌++◌, Text, codes, starts_with,
  if◌then◌else◌,
}
use conxian_nexus.Prelude.Int.{ℤ, pos}
use conxian_nexus.Prelude.Result.{Result, ok, err}
use conxian_nexus.Api.Http.{StatusCode, success, forbidden, bad_request, internal_server_error}
use conxian_nexus.Settlement.Validate.{RoutingPolicyMetadata, RoutingPolicyBlock}

pub record ExternalSettlementTrigger (Value : Type 0) : Type 0 where
  pub source : Text
  pub external_id : Text
  pub payload : Value
  pub attestation : Text

pub record SettlementProposalResponse : Type 0 where
  pub proposal_id : Text
  pub status : Text
  pub unlock_height : ℕ
  pub message : Text
  pub policy_rejection : Option RoutingPolicyBlock

-- A row of `cxn_external_settlement_logs`.
pub record LogRow (Value Float : Type 0) : Type 0 where
  pub external_tx_reference : Text
  pub settlement_network_origin : Text
  pub fiat_value_pegged : Option Float
  pub raw_payload : Value

-- A row of `settlement_proposals`.
pub record ProposalRow (Value : Type 0) : Type 0 where
  pub proposal_id : Text
  pub external_id : Text
  pub source : Text
  pub payload : Value
  pub status : Text
  pub init_height : ℤ
  pub unlock_height : ℤ

-- The commitment that is mirrored to Kwil.
pub record KwilProposal (Value : Type 0) : Type 0 where
  pub proposal_id : Text
  pub external_id : Text
  pub source : Text
  pub payload : Value
  pub status : Text
  pub init_height : ℕ
  pub unlock_height : ℕ

-- The rows of the two tables and the commitments sent to Kwil.
pub record Tables (Value Float : Type 0) : Type 0 where
  pub logs : List (LogRow Value Float)
  pub proposals : List (ProposalRow Value)
  pub kwil_logs : List (LogRow Value Float)
  pub kwil_proposals : List (KwilProposal Value)

-- How the calls end: the oracle, if there is one, whether Kwil is set up, whether the two inserts
-- succeed, the answer to the height query and the new identifier.
pub record Outside (Value : Type 0) : Type 0 where
  pub oracle : Option (Text → Value → Result Bool Text)
  pub kwil : Bool
  pub log_inserted : Bool
  pub max_height : Result (Option (Option ℤ)) Text
  pub proposal_inserted : Bool
  pub uuid : Text

-- The height at the start; `0` where there is no block or no answer.
unfoldable pub current_height_of : Result (Option (Option ℤ)) Text → ℤ
current_height_of (ok (some (some h))) = h
current_height_of (ok (some none)) = pos 0
current_height_of (ok none) = pos 0
current_height_of (err e) = pos 0

unfoldable pub rejection : Text → Text → SettlementProposalResponse
rejection status message = record {
  proposal_id = codes "";
  status = status;
  unlock_height = 0;
  message = message;
  policy_rejection = none;
}

-- A status and a body.
abbrev pub Reply : Type 0
Reply = StatusCode × SettlementProposalResponse

unfoldable pub check_attestation : Text → Result (Unit {0}) Reply
unfolding rejection
check_attestation attestation =
    if starts_with attestation (codes "TEE_")
    then ok tt
    else err (
      forbidden,
      rejection (codes "Rejected") (codes "Invalid TEE Attestation. Security floor violated."),
    )

unfoldable pub check_policy :
    Result RoutingPolicyMetadata RoutingPolicyBlock → Result RoutingPolicyMetadata Reply
unfolding rejection
check_policy (ok policy) = ok policy
check_policy (err block) = err (
  forbidden,
  (record (rejection (codes "PolicyBlocked")
      (codes "Routing policy enforcement rejected settlement trigger.")) {
        policy_rejection = some block;
      }),
)

unfoldable pub check_verdict : Option (Result Bool Text) → Result (Unit {0}) Reply
unfolding rejection
check_verdict none = ok tt
check_verdict (some (ok true)) = ok tt
check_verdict (some (ok false)) = err (
  bad_request,
  rejection (codes "Rejected") (codes "Oracle verification failed for external signal."),
)
check_verdict (some (err e)) =
    err (internal_server_error, rejection (codes "Error") (codes "Oracle service error: " ++ e))

-- The last part: what the insertion of the proposal answers.
unfoldable pub proposal_reply : Bool → Text → ℕ → Reply
unfolding rejection
proposal_reply true proposal_id unlock_height = (
  success,
  record {
    proposal_id = proposal_id;
    status = codes "Active";
    unlock_height = unlock_height;
    message = codes "External trigger verified. 144-block time-lock initiated.";
    policy_rejection = none;
  },
)
proposal_reply false proposal_id unlock_height =
    (internal_server_error, rejection (codes "Error") (codes "Internal persistence failure."))

-- A row is appended if the insert succeeds.
abbrev pub insert_if : {A : Type 0} → Bool → A → List A → List A
insert_if true row rows = row ∷ rows
insert_if false row rows = rows
