-- ===== src/Tests/ErpTests.antt =====
-- The theorems about src/api/erp.rs, on one signed request with two entries.
use conxian_nexus.Prelude.{◌-◌, ◌^◌, ◌≡◌, ◌≢◌, refl, some, List, [], ◌∷◌, Text, codes, arith, trim}
use conxian_nexus.Prelude.Int.{pos, negsuc, ◌+ℤ◌, ◌≤ℤ◌}
use conxian_nexus.Prelude.I64.{i64_add, i64_sub}
use conxian_nexus.Prelude.Decimal.{show_ℤ, show_ℕ}
use conxian_nexus.Prelude.Result.{ok}
use conxian_nexus.Erp.Attestation.{
  ErpAttestation, ErpSyncRequest, VerifiedErpAttestation, validate_attestation_metadata,
  validate_attestation_time_window, encode_payload_value, join_comma, encode_tx_ids, render,
  payload_fields, canonical_erp_attestation_payload, find_key, build_replay_cache_key,
  build_attestation_id, verify_hmac_sha256_signature, verify_erp_attestation,
}
use conxian_nexus.Erp.Canonical.{IsDash}
use conxian_nexus.Erp.Signed.{IsTimed, Agree, canonical-inj}
use conxian_nexus.Erp.Window.{validate_attestation_time_window-at_expiry}
use conxian_nexus.Erp.Sync.{
  ErpSyncResponse, ensure_attestation_not_replayed, claim_result, entry_tx_id, collect_tx_ids,
  map_erp_action, check_request, claim_attestation_nonce, respond, erp_sync_handler,
}
use conxian_nexus.Erp.Replay.{handle_all, erp_sync_handler-once}
use conxian_nexus.Tests.Stubs.{toy_crypto, toy_hmac, toy_store}
use conxian_nexus.Tests.Json.{Json, text, item, no_items, field, no_fields, toy_json}

abbrev attestation : Text → ErpAttestation
attestation signature = record {
  key_id = codes "k1";
  nonce = codes "n1";
  issued_at = pos 100;
  expires_at = pos 400;
  signature = signature;
}

abbrev entries : List Json
entries = field (codes "TransactionID") (text (codes "t1")) no_fields ∷ no_fields ∷ []

abbrev request_with : Text → ErpSyncRequest Json
request_with signature = record {
  organization_id = codes "org";
  erp_type = codes "sap";
  odata_payload =
      field (codes "value")
        (item (field (codes "TransactionID") (text (codes "t1")) no_fields)
          (item no_fields no_items))
        no_fields;
  timestamp = pos 120;
  attestation = attestation signature;
}

abbrev tx_ids : List Text
tx_ids = codes "t1" ∷ []

abbrev keys : List (Text × Text)
keys = (codes "k1", codes "secret") ∷ []

-- The tag of the signed text, in hexadecimal, as the stand-ins compute it.
abbrev signature : Text
signature = codes "7a7a7a7a7a7a7a7a7a7a7a7a7a7a7a7a7a7a7a7a7a7a7a7a7a7a7a7a7a7a7a7a"

abbrev request : ErpSyncRequest Json
request = request_with signature

abbrev verified : VerifiedErpAttestation
verified = record {
  attestation_id =
      build_attestation_id toy_crypto
        (canonical_erp_attestation_payload request (codes "sync_legacy") tx_ids) signature;
  replay_key = build_replay_cache_key toy_crypto (codes "org") (codes "k1") (codes "n1");
  replay_ttl_seconds = 250;
}

verifies :
    verify_erp_attestation toy_crypto toy_hmac request (codes "sync_legacy") tx_ids keys (pos 150)
    ≡ ok verified
unfolding verify_erp_attestation validate_attestation_metadata validate_attestation_time_window
    find_key verify_hmac_sha256_signature canonical_erp_attestation_payload payload_fields render
    encode_payload_value encode_tx_ids join_comma show_ℤ show_ℕ i64_add i64_sub trim
verifies = refl

in_time : validate_attestation_time_window request.attestation (pos 120) (pos 150) ≡ ok 250
unfolding validate_attestation_time_window i64_add i64_sub
in_time = refl

well_formed : validate_attestation_metadata request.attestation ≡ ok tt
unfolding validate_attestation_metadata i64_sub trim
well_formed = refl

abbrev response : ErpSyncResponse
response = record {
  status = codes "success";
  mandate_id = some verified.attestation_id;
  reconciled_entries = 1;
  errors = [];
}

accepted :
    (erp_sync_handler toy_json toy_crypto toy_hmac keys toy_store request (pos 150) []).1
    ≡ ok response
unfolding erp_sync_handler respond check_request collect_tx_ids entry_tx_id map_erp_action
    claim_attestation_nonce claim_result ensure_attestation_not_replayed verify_erp_attestation
    validate_attestation_metadata validate_attestation_time_window find_key
    verify_hmac_sha256_signature canonical_erp_attestation_payload payload_fields render
    encode_payload_value encode_tx_ids join_comma show_ℤ show_ℕ i64_add i64_sub trim
accepted = refl

room : pos 400 +ℤ pos 60 ≤ℤ pos (2 ^ 63 - 1)
unfolding ◌+ℤ◌
room = omega arith

validate_attestation_time_window-at_expiry_example :
    (pos 150 +ℤ pos 250 ≡ pos 400)
    × (validate_attestation_time_window request.attestation (pos 120) (pos 400) ≡ ok 1)
validate_attestation_time_window-at_expiry_example =
    validate_attestation_time_window-at_expiry request.attestation (pos 120) (pos 150) 250
      (omega arith) room in_time (omega arith)

-- Issued at the least `i64`, long expired by any clock that reads it right.
abbrev ancient : ErpAttestation
ancient = record (attestation signature) { issued_at = negsuc (2 ^ 63 - 1); expires_at = pos 400 }

timed : IsTimed request
timed = record { timestamp = omega arith; issued_at = omega arith; expires_at = omega arith }

no-IsDash : ¬ IsDash tx_ids
no-IsDash e = cc

canonical-inj_example :
    Agree request (request_with []) (codes "sync_legacy") (codes "sync_legacy") tx_ids tx_ids
canonical-inj_example =
    canonical-inj request (request_with []) (codes "sync_legacy") (codes "sync_legacy") tx_ids
      tx_ids timed
      (record { timestamp = omega arith; issued_at = omega arith; expires_at = omega arith })
      no-IsDash no-IsDash same_text
  where
    same_text :
        canonical_erp_attestation_payload request (codes "sync_legacy") tx_ids
        ≡ canonical_erp_attestation_payload (request_with []) (codes "sync_legacy") tx_ids
    same_text = unfold canonical_erp_attestation_payload in refl

erp_sync_handler-once_example :
    (erp_sync_handler toy_json toy_crypto toy_hmac keys toy_store request (pos 200) (
      handle_all toy_json toy_crypto toy_hmac keys toy_store
        ((request, pos 160) ∷ [])
        (erp_sync_handler toy_json toy_crypto toy_hmac keys toy_store request (pos 150) []).0)).1
    ≢ ok response
erp_sync_handler-once_example =
    erp_sync_handler-once toy_json toy_crypto toy_hmac keys toy_store request request (pos 150)
      (pos 200) [] ((request, pos 160) ∷ []) response response (omega arith) (omega arith) accepted
      refl (omega arith) (omega arith)
