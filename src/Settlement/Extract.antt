-- ===== src/Settlement/Extract.antt =====
-- `extract_routing_policy` and `validate_routing_policy_metadata` of src/api/settlement.rs. `serde_json`
-- is a parameter.
use conxian_nexus.Prelude.{not, Option, none, some, ◌++◌, Text, codes}
use conxian_nexus.Prelude.Result.{Result, ok, err, ok_or, ◌>>=◌, ◌>>◌}
use conxian_nexus.Api.Http.{JsonLib}
use conxian_nexus.Settlement.Validate.{
  RawRoutingPolicyMetadata, RoutingPolicyMetadata, RoutingPolicyBlock, new_block, block_if,
  validate_raw,
}

-- `from_value(routing_policy).map_err(..)`
unfoldable pub parse_raw :
    Result RawRoutingPolicyMetadata Text → Result RawRoutingPolicyMetadata RoutingPolicyBlock
parse_raw (ok raw) = ok raw
parse_raw (err e) = err (
    new_block (codes "invalid_routing_policy")
      (codes "unable to parse routing policy metadata: " ++ e))

-- `from_value` reads the object, or says why it cannot.
module _ (json : JsonLib) (from_value : json.Value → Result RawRoutingPolicyMetadata Text) where
  open json use {Value, get, is_object}

  -- `or_else`
  abbrev or_else : {A : Type 0} → Option A → Option A → Option A
  or_else (some a) b = some a
  or_else none b = b

  extract_inline_routing_policy : Value → Option Value
  extract_inline_routing_policy payload =
      or_else (get payload (codes "routing_policy")) (get payload (codes "routingPolicy"))

  -- `payload.get(name).and_then(extract_inline_routing_policy)`
  extract_under : Value → Text → Option Value
  unfolding extract_inline_routing_policy
  extract_under payload name = elim (get payload name) [
    | none ↦ none
    | some inner ↦ extract_inline_routing_policy inner
  ]

  unfoldable pub extract_routing_policy : Value → Option Value
  unfolding extract_inline_routing_policy extract_under
  extract_routing_policy payload = or_else (extract_inline_routing_policy payload) (
      or_else (extract_under payload (codes "metadata")) (
        or_else (extract_under payload (codes "routing")) (
          or_else (extract_under payload (codes "bridge_metadata"))
            (extract_under payload (codes "bridgeMetadata")))))

  unfoldable pub validate_routing_policy_metadata :
      Value → Result RoutingPolicyMetadata RoutingPolicyBlock
  validate_routing_policy_metadata payload = do
    routing_policy ←
        ok_or (extract_routing_policy payload)
          (new_block (codes "missing_routing_policy") (codes "routing policy metadata is required"))
    block_if (not (is_object routing_policy)) (
        new_block (codes "invalid_routing_policy")
          (codes "routing policy metadata must be a JSON object"))
    raw ← parse_raw (from_value routing_policy)
    validate_raw raw
