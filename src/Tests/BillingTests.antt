-- ===== src/Tests/BillingTests.antt =====
-- The theorems about src/api/billing/mod.rs, on one key.
use conxian_nexus.Prelude.{
  ◌≡◌, ◌≤◌, ◌<◌, refl, true, false, none, some, [], ◌∷◌, Text, codes, trim, is_empty, utf8_len,
  arith,
}
use conxian_nexus.Prelude.Dict.{lookup, insert}
use conxian_nexus.Prelude.Int.{pos}
use conxian_nexus.Prelude.Decimal.{show_ℤ, show_ℕ}
use conxian_nexus.Prelude.Result.{ok, err}
use conxian_nexus.Prelude.I64.{i64_sub}
use conxian_nexus.Billing.Quota.{
  grace_allowed, determine_grace_status, decide, evaluate_quota_decision,
}
use conxian_nexus.Billing.Keys.{
  GenerateKeyRequest, GenerateKeyResponse, TelemetryRequest, KeyHash, Billing, Replies,
  invalid_hmac, redis_key, generate_developer_key, verify_tag, validate_telemetry_auth,
  track_signature,
}
use conxian_nexus.Billing.QuotaLaws.{within_a_day, evaluate_quota_decision-lasts}
use conxian_nexus.Billing.HashLaws.{IsCounted}
use conxian_nexus.Billing.KeysLaws.{generate_developer_key-stored, track_signature-IsCounted}
use conxian_nexus.Tests.Stubs.{toy_crypto, toy_hmac}

abbrev hash : KeyHash
hash = record {
  org_id = codes "org";
  email = codes "a@b";
  project = codes "p";
  secret = codes "s";
  usage = 7;
  grace_period_start = none;
}

abbrev billing : Billing
billing = record { keys = (redis_key (codes "k"), hash) ∷ []; published = [] }

abbrev replies : Replies
replies = record {
  connects = true;
  hgetall = true;
  hincrby = true;
  hget = true;
  hset = true;
  nostr = true;
}

abbrev call : Text → TelemetryRequest
call tag = record { api_key = codes "k"; signature_hash = codes "h"; timestamp = pos 5; hmac = tag }

abbrev payload : GenerateKeyRequest
payload = record {
  organization_id = codes " org ";
  developer_email = codes "a@b";
  project_name = codes "p";
}

grace_begins : evaluate_quota_decision 50_001 (pos 100) none true ≡ grace_allowed (some (pos 100))
unfolding evaluate_quota_decision determine_grace_status decide i64_sub
grace_begins = refl

-- In the last second of the day a roll that fails is throttled.
evaluate_quota_decision-lasts_example :
    (50_000 < 50_001)
    × (evaluate_quota_decision 50_002 (pos 86_499) (some (pos 100)) false
        ≡ within_a_day (pos 100) (pos 86_499) false)
evaluate_quota_decision-lasts_example =
    evaluate_quota_decision-lasts 50_001 50_002 (pos 100) (pos 86_499) true false grace_begins
      (omega arith) (omega arith) (omega arith) (omega arith)

abbrev response : GenerateKeyResponse
response = record {
  api_key = codes "cxl_01";
  api_secret = codes "01";
  status = codes "Key Generated. Free Tier: 50,000 Signatures";
  grace_period_remaining = none;
  efficiency = none;
}

generated :
    (generate_developer_key toy_crypto toy_hmac payload (0 ∷ []) (0 ∷ []) replies billing).1
    ≡ ok response
unfolding generate_developer_key lookup insert trim
generated = refl

generate_developer_key-stored_example :
    (stored : KeyHash) × (lookup
        (redis_key response.api_key)
        (generate_developer_key toy_crypto toy_hmac payload
          (0 ∷ [])
          (0 ∷ [])
          replies
          billing).0.keys
      ≡ some stored)
    × (stored.secret ≡ response.api_secret)
    × (stored.usage ≡ 0)
    × (stored.org_id ≡ trim payload.organization_id)
    × (is_empty stored.org_id ≡ false)
    × (utf8_len stored.org_id ≤ 128)
generate_developer_key-stored_example =
    generate_developer_key-stored toy_crypto toy_hmac payload (0 ∷ []) (0 ∷ []) replies billing
      response generated refl

found : lookup (redis_key (codes "k")) billing.keys ≡ some hash
unfolding lookup
found = refl

abbrev tag : Text
tag = codes "7474747474747474747474747474747474747474747474747474747474747474"

authentic : validate_telemetry_auth toy_crypto toy_hmac (some hash) (call tag) ≡ ok tt
unfolding validate_telemetry_auth verify_tag show_ℤ show_ℕ
authentic = refl

track_signature-IsCounted_example :
    IsCounted
      (call tag)
      hash
      billing
      (track_signature toy_crypto toy_hmac (call tag) replies (pos 10) true billing).0
track_signature-IsCounted_example =
    track_signature-IsCounted toy_crypto toy_hmac (call tag) replies (pos 10) true billing hash refl
      refl refl found authentic

forged :
    validate_telemetry_auth toy_crypto toy_hmac
      (lookup (redis_key (codes "k")) billing.keys)
      (call (codes "00"))
    ≡ err invalid_hmac
unfolding validate_telemetry_auth verify_tag show_ℤ show_ℕ lookup
forged = refl
