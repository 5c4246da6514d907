-- ===== src/Billing/Keys.antt =====
-- The two handlers of src/api/billing/mod.rs. Redis is a table of hashes; how each command ends is
-- given in `Replies`. `rand`, `sha2`, `hex` and `hmac` are parameters.
use conxian_nexus.Prelude.{
  ℕ, ◌+◌, Bool, ◌||◌, Option, none, some, List, ◌∷◌, ◌++◌, Text, codes, text_eq, trim, is_empty,
  utf8_len, as_bytes, ltb, if◌then◌else◌,
}
use conxian_nexus.Prelude.Dict.{lookup, insert}
use conxian_nexus.Prelude.Int.{ℤ}
use conxian_nexus.Prelude.Decimal.{show_ℤ}
use conxian_nexus.Prelude.Result.{Result, ok, err}
use conxian_nexus.State.Crypto.{Bytes, Crypto}
use conxian_nexus.Api.Http.{
  StatusCode, success, bad_request, unauthorized, payment_required, forbidden,
  internal_server_error,
}
use conxian_nexus.Billing.Quota.{
  QuotaDecision, within_limit, grace_allowed, grace_throttled, grace_expired,
  free_tier_signature_limit, evaluate_quota_decision,
}

pub record GenerateKeyRequest : Type 0 where
  pub organization_id : Text
  pub developer_email : Text
  pub project_name : Text

pub record TelemetryRequest : Type 0 where
  pub api_key : Text
  pub signature_hash : Text
  pub timestamp : ℤ
  pub hmac : Text

-- The hash at `apikey:<key>`.
pub record KeyHash : Type 0 where
  pub org_id : Text
  pub email : Text
  pub project : Text
  pub secret : Text
  pub usage : ℕ
  pub grace_period_start : Option ℤ

-- The hashes in Redis, and the events published to Nostr, the latest first.
pub record Billing : Type 0 where
  pub keys : List (Text × KeyHash)
  pub published : List TelemetryRequest

-- Whether Redis is reached, each command is answered, and Nostr is set up.
pub record Replies : Type 0 where
  pub connects : Bool
  pub hgetall : Bool
  pub hincrby : Bool
  pub hget : Bool
  pub hset : Bool
  pub nostr : Bool

pub data TelemetryAuthError : Type 0 where
  invalid_api_key invalid_hmac : TelemetryAuthError

-- An efficiency is in tenths.
pub record GenerateKeyResponse : Type 0 where
  pub api_key : Text
  pub api_secret : Text
  pub status : Text
  pub grace_period_remaining : Option ℤ
  pub efficiency : Option ℕ

pub record TelemetryResponse : Type 0 where
  pub current_usage : ℕ
  pub limit : ℕ
  pub status : Text
  pub grace_period_remaining : Option ℤ
  pub efficiency : Option ℕ

-- A status, and a body where it is a `TelemetryResponse`.
abbrev pub Reply : Type 0
Reply = StatusCode × Option TelemetryResponse

abbrev pub redis_key : Text → Text
redis_key api_key = codes "apikey:" ++ api_key

abbrev pub start_of : Option KeyHash → Option ℤ
start_of none = none
start_of (some hash) = hash.grace_period_start

abbrev pub refuse : StatusCode → Reply
refuse status = (status, none)

abbrev pub counted_reply : ℕ → Reply
counted_reply new_usage = (
  success,
  some (record {
    current_usage = new_usage;
    limit = free_tier_signature_limit;
    status = codes "OK";
    grace_period_remaining = none;
    efficiency = none;
  }),
)

module _ (c : Crypto) (hmac : Bytes → Bytes → Option Bytes) where
  open c use {sha256, hex_encode, hex_decode}

  -- The key and the secret are digests of 32 random bytes each.
  unfoldable pub generate_developer_key :
      GenerateKeyRequest
      → Bytes
      → Bytes
      → Replies
      → Billing
      → Billing × Result GenerateKeyResponse StatusCode
  generate_developer_key payload raw_key raw_secret replies s =
      let organization_id = trim payload.organization_id in
      let api_key = codes "cxl_" ++ hex_encode (sha256 raw_key) in
      let api_secret = hex_encode (sha256 raw_secret) in
      let stored =
        insert (redis_key api_key)
          (record {
            org_id = organization_id;
            email = payload.developer_email;
            project = payload.project_name;
            secret = api_secret;
            usage = 0;
            grace_period_start = start_of (lookup (redis_key api_key) s.keys);
          })
          s.keys in
      if is_empty organization_id || ltb 128 (utf8_len organization_id)
      then (s, err bad_request)
      else if replies.connects
      then (
        (if replies.hset then record s { keys = stored } else s),
        ok (record {
          api_key = api_key;
          api_secret = api_secret;
          status = codes "Key Generated. Free Tier: 50,000 Signatures";
          grace_period_remaining = none;
          efficiency = none;
        }),
      )
      else (s, err internal_server_error)

  -- The tag is compared with the received one.
  unfoldable pub verify_tag : Option Bytes → Option Bytes → Result (Unit {0}) TelemetryAuthError
  verify_tag none received = err invalid_api_key
  verify_tag (some tag) none = err invalid_hmac
  verify_tag (some tag) (some received) = if text_eq tag received then ok tt else err invalid_hmac

  -- No data stands for a key that Redis does not have.
  unfoldable pub validate_telemetry_auth :
      Option KeyHash → TelemetryRequest → Result (Unit {0}) TelemetryAuthError
  unfolding verify_tag
  validate_telemetry_auth none payload = err invalid_api_key
  validate_telemetry_auth (some data_) payload =
      verify_tag
        (hmac (as_bytes data_.secret)
          (as_bytes (payload.signature_hash ++ (codes ":" ++ show_ℤ payload.timestamp))))
        (hex_decode payload.hmac)

  -- `match quota_decision`, with the hash after the increment.
  unfoldable pub conclude :
      QuotaDecision → TelemetryRequest → ℕ → KeyHash → Replies → Billing → Billing × Reply
  conclude within_limit payload new_usage hash replies s = (s, counted_reply new_usage)
  conclude (grace_allowed none) payload new_usage hash replies s = (s, counted_reply new_usage)
  conclude (grace_allowed (some start)) payload new_usage hash replies s = (
    (if replies.hset
        then record s {
          keys =
              insert (redis_key payload.api_key) (record hash { grace_period_start = some start })
                s.keys;
        }
        else s),
    counted_reply new_usage,
  )
  conclude (grace_throttled remaining) payload new_usage hash replies s = (
    s,
    (
      payment_required,
      some (record {
        current_usage = new_usage;
        limit = free_tier_signature_limit;
        status = codes "THROTTLED";
        grace_period_remaining = some remaining;
        efficiency = some 4;
      }),
    ),
  )
  conclude grace_expired payload new_usage hash replies s = (s, refuse forbidden)

  -- What follows the authentication: Nostr, the increment, the decision.
  unfoldable pub count_usage :
      TelemetryRequest → KeyHash → Replies → ℤ → Bool → Billing → Billing × Reply
  unfolding conclude
  count_usage payload hash replies now roll_allowed s =
      let counted = record hash { usage = hash.usage + 1 } in
      let sent = if replies.nostr then payload ∷ s.published else s.published in
      let start = if replies.hget then hash.grace_period_start else none in
      if replies.hincrby
      then conclude (evaluate_quota_decision (hash.usage + 1) now start roll_allowed) payload
          (hash.usage + 1) counted replies
          (record { keys = insert (redis_key payload.api_key) counted s.keys; published = sent })
      else conclude within_limit payload 0 hash replies (record s { published = sent })

  -- `data` is what HGETALL answers.
  unfoldable pub authenticated :
      Result (Unit {0}) TelemetryAuthError
      → Option KeyHash
      → TelemetryRequest
      → Replies
      → ℤ
      → Bool
      → Billing
      → Billing × Reply
  unfolding count_usage
  authenticated (err e) data_ payload replies now roll_allowed s = (s, refuse unauthorized)
  authenticated (ok u) none payload replies now roll_allowed s = (s, refuse unauthorized)
  authenticated (ok u) (some hash) payload replies now roll_allowed s =
      count_usage payload hash replies now roll_allowed s

  unfoldable pub track_signature : TelemetryRequest → Replies → ℤ → Bool → Billing → Billing × Reply
  unfolding validate_telemetry_auth authenticated
  track_signature payload replies now roll_allowed s =
      let data_ = if replies.hgetall then lookup (redis_key payload.api_key) s.keys else none in
      if replies.connects
      then authenticated (validate_telemetry_auth data_ payload) data_ payload replies now
          roll_allowed s
      else (s, refuse internal_server_error)
