-- ===== src/Settlement/Handler.antt =====
-- `settlement_trigger_handler` of src/api/settlement.rs: the checks and the writes in their order.
use conxian_nexus.Prelude.{ℕ, Option, none, some, ◌++◌, Text, codes}
use conxian_nexus.Prelude.Int.{as_u64, as_i64, pos, ◌+ℤ◌}
use conxian_nexus.Prelude.Result.{Result, ok, err, ◌>>=◌, ◌>>◌}
use conxian_nexus.Api.Http.{JsonLib}
use conxian_nexus.Settlement.Validate.{RawRoutingPolicyMetadata, RoutingPolicyMetadata}
use conxian_nexus.Settlement.Extract.{validate_routing_policy_metadata}
use conxian_nexus.Settlement.Trigger.{
  ExternalSettlementTrigger, LogRow, ProposalRow, Tables, Outside, current_height_of, Reply,
  check_attestation, check_policy, check_verdict, proposal_reply, insert_if,
}

module _ (json : JsonLib) (from_value : json.Value → Result RawRoutingPolicyMetadata Text) where
  open json use {Value, get, as_str, Float, as_f64}

  str_field : Value → Text → Option Text
  str_field v name = elim (get v name) [ none ↦ none | some x ↦ as_str x ]

  -- `uetr.or(e2e_id).unwrap_or(&payload.external_id)`
  unfoldable pub external_tx_ref : ExternalSettlementTrigger Value → Text
  unfolding str_field
  external_tx_ref trigger = elim (str_field trigger.payload (codes "uetr")) [
    | some uetr ↦ uetr
    | none ↦ elim (str_field trigger.payload (codes "end_to_end_id")) [
      | some e2e_id ↦ e2e_id
      | none ↦ trigger.external_id
    ]
  ]

  log_row : ExternalSettlementTrigger Value → LogRow Value Float
  unfolding external_tx_ref
  log_row trigger = record {
    external_tx_reference = external_tx_ref trigger;
    settlement_network_origin = trigger.source;
    fiat_value_pegged = elim (get trigger.payload (codes "amount")) [
      | none ↦ none
      | some v ↦ as_f64 v
    ];
    raw_payload = trigger.payload;
  }

  proposal_id_of : Outside Value → Text
  proposal_id_of out = codes "prop_" ++ out.uuid

  unfoldable pub unlock_height_of : Outside Value → ℕ
  unlock_height_of out = as_u64 (current_height_of out.max_height +ℤ pos 144)

  unfoldable pub proposal_row : ExternalSettlementTrigger Value → Outside Value → ProposalRow Value
  unfolding unlock_height_of proposal_id_of
  proposal_row trigger out = record {
    proposal_id = proposal_id_of out;
    external_id = trigger.external_id;
    source = trigger.source;
    payload = trigger.payload;
    status = codes "active";
    init_height = current_height_of out.max_height;
    unlock_height = as_i64 (unlock_height_of out);
  }

  -- Steps 1 to 3: attestation, routing policy, oracle.
  unfoldable pub check_trigger :
      ExternalSettlementTrigger Value → Outside Value → Result RoutingPolicyMetadata Reply
  check_trigger trigger out = do
    check_attestation trigger.attestation
    policy ← check_policy (validate_routing_policy_metadata json from_value trigger.payload)
    check_verdict (elim out.oracle [
      | none ↦ none
      | some verify ↦ some (verify trigger.source trigger.payload)
    ])
    ok policy

  -- Steps 4 to 6: the log, the height and the proposal, each mirrored to Kwil.
  unfoldable pub persist :
      ExternalSettlementTrigger Value → Outside Value → Tables Value Float → Tables Value Float
  unfolding log_row proposal_row unlock_height_of proposal_id_of
  persist trigger out tables = record {
    logs = insert_if out.log_inserted (log_row trigger) tables.logs;
    proposals = insert_if out.proposal_inserted (proposal_row trigger out) tables.proposals;
    kwil_logs = insert_if out.kwil (log_row trigger) tables.kwil_logs;
    kwil_proposals =
        insert_if out.kwil
          (record {
            proposal_id = proposal_id_of out;
            external_id = trigger.external_id;
            source = trigger.source;
            payload = trigger.payload;
            status = codes "active";
            init_height = as_u64 (current_height_of out.max_height);
            unlock_height = unlock_height_of out;
          })
          tables.kwil_proposals;
  }

  -- What follows the checks.
  unfoldable pub finish :
      Result RoutingPolicyMetadata Reply
      → ExternalSettlementTrigger Value
      → Outside Value
      → Tables Value Float
      → Tables Value Float × Reply
  unfolding proposal_id_of
  finish (err reply) trigger out tables = (tables, reply)
  finish (ok policy) trigger out tables = (
    persist trigger out tables,
    proposal_reply out.proposal_inserted (proposal_id_of out) (unlock_height_of out),
  )

  unfoldable pub settlement_trigger_handler :
      ExternalSettlementTrigger Value
      → Outside Value
      → Tables Value Float
      → Tables Value Float × Reply
  settlement_trigger_handler trigger out tables =
      finish (check_trigger trigger out) trigger out tables
