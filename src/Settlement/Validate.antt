-- ===== src/Settlement/Validate.antt =====
-- `validate_routing_policy_metadata` of src/api/settlement.rs. `serde_json` is a parameter.
use conxian_nexus.Prelude.{
  Bool, true, false, not, ◌&&◌, Option, none, some, List, [], ◌∷◌, ◌++◌, Text, codes, trim,
  is_empty, if◌then◌else◌,
}
use conxian_nexus.Prelude.Result.{Result, ok, err, ok_or, ◌>>=◌, ◌>>◌}
use conxian_nexus.Settlement.Policy.{
  RoutingSystem, TrustTier, t1, t4, VerificationClass, parse_system, system_str,
  required_verification_class, allowed_tiers, parse_tier, tier_str, tier_eq, parse_class, class_str,
  class_eq, is_ibc, contains_tier,
}

pub record RawRoutingPolicyMetadata : Type 0 where
  pub system : Option Text
  pub trust_tier : Option Text
  pub verification_class : Option Text
  pub policy_version : Option Text
  pub evidence_hash : Option Text
  pub requested_trust_tier : Option Text

pub record RoutingPolicyMetadata : Type 0 where
  pub system : RoutingSystem
  pub trust_tier : TrustTier
  pub verification_class : VerificationClass
  pub policy_version : Text
  pub evidence_hash : Text
  pub requested_trust_tier : Option TrustTier

-- `details` is an object of texts.
pub record RoutingPolicyBlock : Type 0 where
  pub code : Text
  pub reason : Text
  pub details : Option (List (Text × Text))

abbrev pub new_block : Text → Text → RoutingPolicyBlock
new_block code reason = record { code = code; reason = reason; details = none }

abbrev pub with_details : RoutingPolicyBlock → List (Text × Text) → RoutingPolicyBlock
with_details block details = record block { details = some details }

unfoldable pub require_non_empty_field : Option Text → Text → Result Text RoutingPolicyBlock
require_non_empty_field value field_name =
    let missing =
      with_details
        (new_block (codes "missing_required_routing_policy_field")
          (codes "routing policy field '" ++ (field_name ++ codes "' is required")))
        ((codes "field", field_name) ∷ []) in
    elim value [
      | none ↦ err missing
      | some v ↦ if is_empty (trim v) then err missing else ok (trim v)
    ]

unfoldable pub optional_non_empty_field :
    Option Text → Text → Result (Option Text) RoutingPolicyBlock
optional_non_empty_field none field_name = ok none
optional_non_empty_field (some v) field_name =
    if is_empty (trim v)
    then err (
        with_details
          (new_block (codes "invalid_routing_policy_field")
            (codes "routing policy field '" ++ (field_name ++ codes "' must be non-empty")))
          ((codes "field", field_name) ∷ []))
    else ok (some (trim v))

-- A text that the policy does not know.
unfoldable pub unknown : Text → Text → Text → Text → Text → RoutingPolicyBlock
unknown code what value verdict field =
    with_details (new_block code (what ++ (codes " '" ++ (value ++ (codes "' " ++ verdict)))))
      ((field, value) ∷ [])

-- The requested tier, read if there is one.
unfoldable pub parse_requested_tier : Option Text → Result (Option TrustTier) RoutingPolicyBlock
unfolding unknown
parse_requested_tier none = ok none
parse_requested_tier (some raw) = do
  tier ← ok_or (parse_tier raw) (
      unknown (codes "unknown_requested_trust_tier") (codes "requested trust tier") raw
        (codes "is not recognized") (codes "requested_trust_tier"))
  ok (some tier)

-- `if condition { return Err(block) }`
abbrev pub block_if : Bool → RoutingPolicyBlock → Result (Unit {0}) RoutingPolicyBlock
block_if true block = err block
block_if false block = ok tt

unfoldable pub check_requested : Option TrustTier → TrustTier → Result (Unit {0}) RoutingPolicyBlock
check_requested none trust_tier = ok tt
check_requested (some requested) trust_tier = block_if (not (tier_eq requested trust_tier)) (
    with_details
      (new_block (codes "requested_trust_tier_mismatch")
        (codes "requested trust tier does not match enforced trust tier"))
      ((codes "requested_trust_tier", tier_str requested)
        ∷ (codes "trust_tier", tier_str trust_tier)
        ∷ []))

-- The rules on the parsed values.
unfoldable pub enforce :
    RoutingSystem
    → TrustTier
    → VerificationClass
    → Option TrustTier
    → Result (Unit {0}) RoutingPolicyBlock
enforce system trust_tier verification_class requested = do
  check_requested requested trust_tier
  block_if (tier_eq trust_tier t4) (
      with_details
        (new_block (codes "trust_tier_not_allowed") (codes "trust tier T4 is denied in this phase"))
        ((codes "trust_tier", tier_str trust_tier) ∷ []))
  block_if (tier_eq trust_tier t1 && not (is_ibc system)) (
      with_details (new_block (codes "t1_requires_ibc") (codes "trust tier T1 allows IBC only"))
        ((codes "trust_tier", tier_str trust_tier) ∷ (codes "system", system_str system) ∷ []))
  block_if (not (class_eq verification_class (required_verification_class system))) (
      with_details
        (new_block (codes "verification_class_mismatch") (
          codes "verification class '"
          ++ (class_str verification_class
              ++ (codes "' is not approved for system '" ++ (system_str system ++ codes "'")))))
        ((codes "system", system_str system)
          ∷ (codes "expected_verification_class", class_str (required_verification_class system))
          ∷ (codes "provided_verification_class", class_str verification_class)
          ∷ []))
  block_if (not (contains_tier (allowed_tiers system) trust_tier)) (
      with_details
        (new_block (codes "tier_system_not_allowed") (
          codes "system '"
          ++ (system_str system
              ++ (codes "' is not approved for trust tier '"
                  ++ (tier_str trust_tier ++ codes "'")))))
        ((codes "system", system_str system) ∷ (codes "trust_tier", tier_str trust_tier) ∷ []))

-- The part of `validate_routing_policy_metadata` behind `serde_json::from_value`.
unfoldable pub validate_raw :
    RawRoutingPolicyMetadata → Result RoutingPolicyMetadata RoutingPolicyBlock
validate_raw raw = do
  system_raw ← require_non_empty_field raw.system (codes "system")
  trust_tier_raw ← require_non_empty_field raw.trust_tier (codes "trust_tier")
  class_raw ← require_non_empty_field raw.verification_class (codes "verification_class")
  policy_version ← require_non_empty_field raw.policy_version (codes "policy_version")
  evidence_hash ← require_non_empty_field raw.evidence_hash (codes "evidence_hash")
  requested_raw ← optional_non_empty_field raw.requested_trust_tier (codes "requested_trust_tier")
  system ← ok_or (parse_system system_raw) (
      unknown (codes "unknown_system") (codes "routing system") system_raw (codes "is not approved")
        (codes "system"))
  trust_tier ← ok_or (parse_tier trust_tier_raw) (
      unknown (codes "unknown_trust_tier") (codes "trust tier") trust_tier_raw
        (codes "is not recognized") (codes "trust_tier"))
  verification_class ← ok_or (parse_class class_raw) (
      unknown (codes "unknown_verification_class") (codes "verification class") class_raw
        (codes "is not recognized") (codes "verification_class"))
  requested ← parse_requested_tier requested_raw
  enforce system trust_tier verification_class requested
  ok (record {
    system = system;
    trust_tier = trust_tier;
    verification_class = verification_class;
    policy_version = policy_version;
    evidence_hash = evidence_hash;
    requested_trust_tier = requested;
  })
