-- ===== src/Erp/Attestation.antt =====
-- The checks of an ERP attestation in src/api/erp.rs, and its signed payload. The crates `sha2`,
-- `hmac` and `hex` are parameters; times are in seconds, and their sums wrap at 64 bits.
use conxian_nexus.Prelude.{
  ℕ, Bool, true, false, ◌&&◌, ◌||◌, not, Option, none, some, List, [], ◌∷◌, ◌++◌, map, take, Text,
  codes, trim, is_empty, utf8_len, as_bytes, text_eq, leb, ltb, ◌==◌, if◌then◌else◌,
}
use conxian_nexus.Prelude.Int.{ℤ, pos, pos_part, ltb_ℤ, leb_ℤ}
use conxian_nexus.Prelude.I64.{i64_add, i64_sub}
use conxian_nexus.Prelude.Result.{Result, ok, err, ok_or, ◌>>=◌, ◌>>◌}
use conxian_nexus.Prelude.Decimal.{show_ℤ}
use conxian_nexus.Api.Http.{StatusCode, bad_request, forbidden, conflict, service_unavailable}
use conxian_nexus.State.Crypto.{Bytes, Crypto}

pub record ErpAttestation : Type 0 where
  pub key_id : Text
  pub nonce : Text
  pub issued_at : ℤ
  pub expires_at : ℤ
  pub signature : Text

-- `ErpSyncRequest`, over the type of JSON values.
pub record ErpSyncRequest (Value : Type 0) : Type 0 where
  pub organization_id : Text
  pub erp_type : Text
  pub odata_payload : Value
  pub timestamp : ℤ
  pub attestation : ErpAttestation

pub record VerifiedErpAttestation : Type 0 where
  pub attestation_id : Text
  pub replay_key : Text
  pub replay_ttl_seconds : ℕ

pub data ErpAttestationError : Type 0 where
  invalid_attestation_format invalid_signature expired_attestation : ErpAttestationError
  context_mismatch replay_detected replay_store_unavailable : ErpAttestationError

-- `status_code`, which `map_erp_attestation_error_to_status` calls.
unfoldable pub status_code : ErpAttestationError → StatusCode
status_code replay_store_unavailable = service_unavailable
status_code replay_detected = conflict
status_code invalid_attestation_format = bad_request
status_code invalid_signature = forbidden
status_code expired_attestation = forbidden
status_code context_mismatch = forbidden

abbrev pub clock_skew : ℤ
clock_skew = pos 60

-- `char::is_ascii_hexdigit`
abbrev pub is_ascii_hexdigit : ℕ → Bool
is_ascii_hexdigit c =
    (leb b'0' c && leb c b'9') || (leb b'a' c && leb c b'f') || (leb b'A' c && leb c b'F')

abbrev pub all_chars : (ℕ → Bool) → Text → Bool
all_chars p [] = true
all_chars p (c ∷ s) = p c && all_chars p s

-- `if condition { return Err(e) }`
abbrev pub bail_if : Bool → ErpAttestationError → Result (Unit {0}) ErpAttestationError
bail_if true e = err e
bail_if false e = ok tt

unfoldable pub validate_attestation_metadata :
    ErpAttestation → Result (Unit {0}) ErpAttestationError
validate_attestation_metadata attestation = do
  bail_if (is_empty key_id || ltb 128 (utf8_len key_id)) invalid_attestation_format
  bail_if (is_empty nonce || ltb 256 (utf8_len nonce)) invalid_attestation_format
  bail_if (not (utf8_len signature == 64) || not (all_chars is_ascii_hexdigit signature))
      invalid_attestation_format
  bail_if (leb_ℤ attestation.expires_at attestation.issued_at) invalid_attestation_format
  bail_if (ltb_ℤ (pos 600) (i64_sub attestation.expires_at attestation.issued_at))
      invalid_attestation_format
  where
    key_id : Text
    key_id = trim attestation.key_id

    nonce : Text
    nonce = trim attestation.nonce

    signature : Text
    signature = trim attestation.signature

-- `(expires_at - now_ts).max(1) as u64`
abbrev pub max_one : ℤ → ℕ
max_one x = if ltb_ℤ x (pos 1) then 1 else pos_part x

unfoldable pub validate_attestation_time_window :
    ErpAttestation → ℤ → ℤ → Result ℕ ErpAttestationError
validate_attestation_time_window attestation request_timestamp now_ts = do
  bail_if (ltb_ℤ attestation.expires_at now_ts) expired_attestation
  bail_if (ltb_ℤ (i64_add now_ts clock_skew) attestation.issued_at) invalid_attestation_format
  bail_if
      (ltb_ℤ request_timestamp (i64_sub attestation.issued_at clock_skew)
        || ltb_ℤ (i64_add attestation.expires_at clock_skew) request_timestamp)
      context_mismatch
  ok (max_one (i64_sub attestation.expires_at now_ts))

-- Percent-escapes of the separators.
abbrev pub encode_char : ℕ → Text
encode_char ch =
    if ch == b'%'
    then codes "%25"
    else if ch == b'|'
    then codes "%7C"
    else if ch == b'='
    then codes "%3D"
    else if ch == b','
    then codes "%2C"
    else ch ∷ []

unfoldable pub encode_payload_value : Text → Text
encode_payload_value [] = []
encode_payload_value (ch ∷ value) = encode_char ch ++ encode_payload_value value

-- `join(",")`
unfoldable pub join_comma : List Text → Text
join_comma [] = []
join_comma (x ∷ []) = x
join_comma (x ∷ y ∷ rest) = x ++ b',' ∷ join_comma (y ∷ rest)

unfoldable pub encode_tx_ids : List Text → Text
encode_tx_ids tx_ids =
    if is_empty tx_ids then codes "-" else join_comma (map encode_payload_value tx_ids)

-- The text of `format!("…|name={}|name={}…")` behind its first part.
unfoldable pub render : List (Text × Text) → Text
render [] = []
render ((name, value) ∷ fields) = b'|' ∷ (name ++ b'=' ∷ (value ++ render fields))

module _ {Value : Type 0} where
  unfoldable pub payload_fields : ErpSyncRequest Value → Text → List Text → List (Text × Text)
  payload_fields request action tx_ids =
      (codes "organization_id", encode_payload_value request.organization_id)
      ∷ (codes "erp_type", encode_payload_value request.erp_type)
      ∷ (codes "request_timestamp", show_ℤ request.timestamp)
      ∷ (codes "action", encode_payload_value action)
      ∷ (codes "tx_ids", encode_tx_ids tx_ids)
      ∷ (codes "key_id", encode_payload_value (trim attestation.key_id))
      ∷ (codes "nonce", encode_payload_value (trim attestation.nonce))
      ∷ (codes "issued_at", show_ℤ attestation.issued_at)
      ∷ (codes "expires_at", show_ℤ attestation.expires_at)
      ∷ []
    where
      open request use {attestation}

  unfoldable pub canonical_erp_attestation_payload : ErpSyncRequest Value → Text → List Text → Text
  unfolding payload_fields render
  canonical_erp_attestation_payload request action tx_ids =
      codes "nexus:erp:attestation:v1" ++ render (payload_fields request action tx_ids)

-- A trusted key, by its identifier.
unfoldable pub find_key : Text → List (Text × Text) → Option Text
find_key key_id [] = none
find_key key_id ((k, secret) ∷ keys) =
    let rest = find_key key_id keys in if text_eq k key_id then some secret else rest

module _ (c : Crypto) where
  open c use {sha256, hex_encode}

  unfoldable pub build_replay_cache_key : Text → Text → Text → Text
  build_replay_cache_key organization_id key_id nonce =
      codes "nexus:erp:attestation:nonce:v1:"
      ++ hex_encode (
          sha256 (
            as_bytes (trim organization_id)
            ++ (b'|' ∷ (as_bytes (trim key_id) ++ b'|' ∷ as_bytes (trim nonce)))))

  -- `&digest[..24]`: the text of a digest is longer.
  unfoldable pub build_attestation_id : Text → Text → Text
  build_attestation_id canonical_payload signature =
      codes "erp_att_"
      ++ take 24
          (hex_encode (sha256 (as_bytes canonical_payload ++ b'|' ∷ as_bytes (trim signature))))

-- `hmac key message` is the tag, or `none` where the crate refuses the key.
module _ (c : Crypto) (hmac : Bytes → Bytes → Option Bytes) where
  open c use {hex_decode}

  unfoldable pub verify_hmac_sha256_signature : Text → Text → Text → Bool
  verify_hmac_sha256_signature secret payload provided_signature =
      elim (hex_decode provided_signature) [
        | none ↦ false
        | some provided ↦ elim (hmac (as_bytes secret) (as_bytes payload)) [
          | none ↦ false
          | some tag ↦ text_eq tag provided
        ]
      ]

  module _ {Value : Type 0} where
    unfoldable pub verify_erp_attestation :
        ErpSyncRequest Value
        → Text
        → List Text
        → List (Text × Text)
        → ℤ
        → Result VerifiedErpAttestation ErpAttestationError
    verify_erp_attestation request action tx_ids trusted_keys now = do
      validate_attestation_metadata attestation
      secret ← ok_or (find_key attestation.key_id trusted_keys) invalid_signature
      let canonical = canonical_erp_attestation_payload request action tx_ids
      bail_if (not (verify_hmac_sha256_signature secret canonical (trim attestation.signature)))
          invalid_signature
      ttl ← validate_attestation_time_window attestation request.timestamp now
      ok (record {
        attestation_id = build_attestation_id c canonical attestation.signature;
        replay_key =
            build_replay_cache_key c request.organization_id attestation.key_id attestation.nonce;
        replay_ttl_seconds = ttl;
      })
      where
        open request use {attestation}
