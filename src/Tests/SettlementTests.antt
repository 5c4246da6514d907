-- ===== src/Tests/SettlementTests.antt =====
-- The theorems about src/api/settlement.rs, on one trigger.
use conxian_nexus.Prelude.{ℕ, ◌≡◌, ◌≢◌, ◌↔◌, refl, true, none, some, [], Text, codes, trim}
use conxian_nexus.Prelude.Int.{pos}
use conxian_nexus.Prelude.Result.{Result, ok, err}
use conxian_nexus.Api.Http.{success}
use conxian_nexus.Settlement.Policy.{
  ibc, t1, light_client, normalize_policy_token, parse_system, parse_tier, parse_class,
  required_verification_class, allowed_tiers, tier_eq, class_eq, is_ibc, contains_tier,
}
use conxian_nexus.Settlement.Validate.{
  RawRoutingPolicyMetadata, RoutingPolicyMetadata, require_non_empty_field,
  optional_non_empty_field, parse_requested_tier, check_requested, enforce, validate_raw,
}
use conxian_nexus.Settlement.Extract.{
  parse_raw, extract_routing_policy, validate_routing_policy_metadata,
}
use conxian_nexus.Settlement.PolicyLaws.{Approved, AsRequested, enforce-Approved}
use conxian_nexus.Settlement.Trigger.{
  ExternalSettlementTrigger, Tables, Outside, Reply, check_attestation, check_policy, check_verdict,
  proposal_reply,
}
use conxian_nexus.Settlement.Handler.{check_trigger, finish, settlement_trigger_handler}
use conxian_nexus.Settlement.TriggerLaws.{
  IsAccepted, settlement_trigger_handler-IsAccepted, settlement_trigger_handler-rejected,
}
use conxian_nexus.Tests.Json.{Json, field, no_fields, toy_json}

abbrev raw_policy : RawRoutingPolicyMetadata
raw_policy = record {
  system = some (codes " IBC ");
  trust_tier = some (codes "T1");
  verification_class = some (codes "light-client");
  policy_version = some (codes "v1");
  evidence_hash = some (codes "0xab");
  requested_trust_tier = none;
}

abbrev policy : RoutingPolicyMetadata
policy = record {
  system = ibc;
  trust_tier = t1;
  verification_class = light_client;
  policy_version = codes "v1";
  evidence_hash = codes "0xab";
  requested_trust_tier = none;
}

-- Reads every object as the policy above.
abbrev from_value : Json → Result RawRoutingPolicyMetadata Text
from_value v = ok raw_policy

abbrev payload : Json
payload = field (codes "routing_policy") no_fields no_fields

abbrev trigger : Text → ExternalSettlementTrigger Json
trigger attestation = record {
  source = codes "PAPSS";
  external_id = codes "e1";
  payload = payload;
  attestation = attestation;
}

abbrev out : Outside Json
out = record {
  oracle = none;
  kwil = true;
  log_inserted = true;
  max_height = ok (some (some (pos 1000)));
  proposal_inserted = true;
  uuid = codes "u1";
}

abbrev empty_tables : Tables Json ℕ
empty_tables = record { logs = []; proposals = []; kwil_logs = []; kwil_proposals = [] }

validated : validate_raw raw_policy ≡ ok policy
unfolding validate_raw require_non_empty_field optional_non_empty_field parse_system parse_tier
    parse_class parse_requested_tier enforce check_requested tier_eq class_eq is_ibc contains_tier
    allowed_tiers required_verification_class normalize_policy_token trim
validated = refl

enforce-Approved_example :
    (enforce ibc t1 light_client (some t1) ≡ ok tt)
    ↔ (Approved ibc light_client t1 × AsRequested (some t1) t1)
enforce-Approved_example = enforce-Approved ibc t1 light_client (some t1)

payload_valid : validate_routing_policy_metadata toy_json from_value payload ≡ ok policy
unfolding validate_routing_policy_metadata extract_routing_policy parse_raw validate_raw
    require_non_empty_field optional_non_empty_field parse_system parse_tier parse_class
    parse_requested_tier enforce check_requested tier_eq class_eq is_ibc contains_tier allowed_tiers
    required_verification_class normalize_policy_token trim
payload_valid = refl

accepted :
    (settlement_trigger_handler toy_json from_value (trigger (codes "TEE_1")) out empty_tables).1.0
    ≡ success
unfolding settlement_trigger_handler finish check_trigger check_attestation check_policy
    check_verdict proposal_reply validate_routing_policy_metadata extract_routing_policy parse_raw
    validate_raw require_non_empty_field optional_non_empty_field parse_system parse_tier
    parse_class parse_requested_tier enforce check_requested tier_eq class_eq is_ibc contains_tier
    allowed_tiers required_verification_class normalize_policy_token trim
accepted = refl

refused :
    (settlement_trigger_handler toy_json from_value (trigger (codes "SGX_1")) out empty_tables).1.0
    ≢ success
unfolding settlement_trigger_handler finish check_trigger check_attestation
refused e = cc

settlement_trigger_handler-IsAccepted_example :
    IsAccepted toy_json from_value
      (trigger (codes "TEE_1"))
      out
      empty_tables
      (settlement_trigger_handler toy_json from_value (trigger (codes "TEE_1")) out empty_tables).0
      (settlement_trigger_handler toy_json from_value (trigger (codes "TEE_1")) out empty_tables).1
settlement_trigger_handler-IsAccepted_example =
    settlement_trigger_handler-IsAccepted toy_json from_value (trigger (codes "TEE_1")) out
      empty_tables accepted

settlement_trigger_handler-rejected_example :
    ((settlement_trigger_handler toy_json from_value
        (trigger (codes "SGX_1"))
        out
        empty_tables).0.proposals
      ≡ [])
    × ((reply : Reply)
        → check_trigger toy_json from_value (trigger (codes "SGX_1")) out ≡ err reply
        → settlement_trigger_handler toy_json from_value (trigger (codes "SGX_1")) out empty_tables
          ≡ (empty_tables, reply))
settlement_trigger_handler-rejected_example =
    settlement_trigger_handler-rejected toy_json from_value (trigger (codes "SGX_1")) out
      empty_tables refused
