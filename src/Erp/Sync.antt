-- ===== src/Erp/Sync.antt =====
-- `erp_sync_handler` of src/api/erp.rs. The JSON library and the replay store, which is Redis, are
-- parameters.
use conxian_nexus.Prelude.{
  ℕ, suc, ◌≡◌, ◌≢◌, Bool, true, false, Option, none, some, List, [], ◌∷◌, Text, codes, length,
  is_empty, leb, if◌then◌else◌,
}
use conxian_nexus.Prelude.Int.{ℤ, pos, ◌+ℤ◌, ◌≤ℤ◌, ◌<ℤ◌}
use conxian_nexus.Prelude.Result.{Result, ok, err, ok_or, ◌>>=◌, ◌>>◌}
use conxian_nexus.State.Crypto.{Bytes, Crypto}
use conxian_nexus.Api.Http.{StatusCode, bad_request, service_unavailable, JsonLib}
use conxian_nexus.Erp.Attestation.{
  ErpSyncRequest, VerifiedErpAttestation, ErpAttestationError, replay_detected,
  replay_store_unavailable, status_code, verify_erp_attestation,
}

-- `SET key 1 NX EX ttl` at a time, in seconds: whether the key was claimed, or `none` if the store
-- did not answer. A claimed key is held until its time is over, and is not claimed while it is.
pub record ReplayStore : Type 1 where
  pub Store : Type 0
  pub claim : Text → ℕ → ℤ → Store → Store × Option Bool
  pub holds : Store → Text → ℤ → Bool
  pub claim_refused :
      (s : Store) (key : Text) (ttl : ℕ) (now : ℤ)
      → holds s key now ≡ true
      → (claim key ttl now s).1 ≢ some true
  pub claim_holds :
      (s : Store) (key : Text) (ttl : ℕ) (now later : ℤ)
      → (claim key ttl now s).1 ≡ some true
      → now ≤ℤ later
      → later <ℤ now +ℤ pos ttl
      → holds (claim key ttl now s).0 key later ≡ true
  pub claim_keeps :
      (s : Store) (key other : Text) (ttl : ℕ) (now later : ℤ)
      → holds s other later ≡ true
      → holds (claim key ttl now s).0 other later ≡ true

pub record ErpSyncResponse : Type 0 where
  pub status : Text
  pub mandate_id : Option Text
  pub reconciled_entries : ℕ
  pub errors : List Text

unfoldable pub ensure_attestation_not_replayed : Bool → Result (Unit {0}) ErpAttestationError
ensure_attestation_not_replayed true = ok tt
ensure_attestation_not_replayed false = err replay_detected

-- What the store's answer means.
unfoldable pub claim_result : Option Bool → Result (Unit {0}) ErpAttestationError
unfolding ensure_attestation_not_replayed
claim_result none = err replay_store_unavailable
claim_result (some claimed) = ensure_attestation_not_replayed claimed

-- `map_err(map_erp_attestation_error_to_status)`
abbrev pub with_status {ℓ} : {A : Type ℓ} → Result A ErpAttestationError → Result A StatusCode
with_status (ok a) = ok a
with_status (err e) = err (status_code e)

module _ (json : JsonLib) where
  open json use {Value, get, as_array, as_str}

  -- A string field of a JSON object.
  str_field : Value → Text → Option Text
  str_field v name = elim (get v name) [ none ↦ none | some x ↦ as_str x ]

  unfoldable pub entry_tx_id : Value → Option Text
  unfolding str_field
  entry_tx_id entry = elim (str_field entry (codes "TransactionID")) [
    | some tx_id ↦ some tx_id
    | none ↦ str_field entry (codes "TransactionId")
  ]

  -- The loop over the entries, with the number of identifiers so far; it stops at 1000.
  unfoldable pub collect_tx_ids : List Value → ℕ → List Text
  collect_tx_ids [] found = []
  collect_tx_ids (entry ∷ entries) found = elim (entry_tx_id entry) [
    | some tx_id ↦
        let rest = collect_tx_ids entries (suc found) in
        tx_id ∷ (if leb 1000 (suc found) then [] else rest)
    | none ↦ let rest = collect_tx_ids entries found in if leb 1000 found then [] else rest
  ]

  unfoldable pub map_erp_action : Value → Text
  map_erp_action odata_payload = elim (get odata_payload (codes "@odata.context")) [
    | some _ ↦ codes "sync_odata_v4"
    | none ↦ codes "sync_legacy"
  ]

  -- The part before the claim: the identifiers and the verified attestation.
  module _ (c : Crypto) (hmac : Bytes → Bytes → Option Bytes)
      (trusted_keys : List (Text × Text)) where
    unfoldable pub check_request :
        ErpSyncRequest Value → ℤ → Result (List Text × VerifiedErpAttestation) StatusCode
    check_request payload now = do
      value ← ok_or (get payload.odata_payload (codes "value")) bad_request
      entries ← ok_or (as_array value) bad_request
      let tx_ids = collect_tx_ids entries 0
      let action = map_erp_action payload.odata_payload
      if is_empty trusted_keys then err service_unavailable else ok tt
      v ← with_status (verify_erp_attestation c hmac payload action tx_ids trusted_keys now)
      ok (tx_ids, v)

    module _ (redis : ReplayStore) where
      open redis use {Store, claim}

      unfoldable pub claim_attestation_nonce :
          Text → ℕ → ℤ → Store → Store × Result (Unit {0}) ErpAttestationError
      claim_attestation_nonce replay_key ttl now s =
          let (s', answer) = claim replay_key ttl now s in (s', claim_result answer)

      -- The handler behind `verify_erp_attestation`.
      unfoldable pub respond :
          Result (List Text × VerifiedErpAttestation) StatusCode
          → ℤ
          → Store
          → Store × Result ErpSyncResponse StatusCode
      unfolding claim_attestation_nonce
      respond (err e) now s = (s, err e)
      respond (ok (tx_ids, v)) now s =
          let (s', claimed) = claim_attestation_nonce v.replay_key v.replay_ttl_seconds now s in
          (
            s',
            (do
              with_status claimed
              ok (record {
                status = codes "success";
                mandate_id = some v.attestation_id;
                reconciled_entries = length tx_ids;
                errors = [];
              })),
          )

      unfoldable pub erp_sync_handler :
          ErpSyncRequest Value → ℤ → Store → Store × Result ErpSyncResponse StatusCode
      unfolding respond
      erp_sync_handler payload now s = respond (check_request payload now) now s
