-- ===== src/Billing/KeysLaws.antt =====
-- What the handlers of src/api/billing/mod.rs count and store.
use conxian_nexus.Prelude.{
  ◌+◌, ◌≤◌, ◌≡◌, refl, sym, ap, ◌∙◌, Bool, true, false, ◌||◌, Option, none, some, ◌∷◌, ◌++◌, Text,
  codes, trim, is_empty, utf8_len, ltb, if◌then◌else◌, arith,
}
use mathlib.Core.Path.{subst}
use conxian_nexus.Prelude.Dict.{lookup, insert, lookup-insert, if_true, either}
use conxian_nexus.Prelude.Int.{ℤ}
use conxian_nexus.Prelude.Result.{Result, ok, err, ok_inj}
use conxian_nexus.State.Crypto.{Bytes, Crypto}
use conxian_nexus.Api.Http.{StatusCode, unauthorized, bad_request, internal_server_error}
use conxian_nexus.Billing.Quota.{
  QuotaDecision, within_limit, grace_allowed, grace_throttled, grace_expired,
  evaluate_quota_decision,
}
use conxian_nexus.Billing.Keys.{
  GenerateKeyRequest, GenerateKeyResponse, TelemetryRequest, KeyHash, Billing, Replies, redis_key,
  generate_developer_key, validate_telemetry_auth, conclude, count_usage, authenticated,
  track_signature, start_of, TelemetryAuthError,
}
use conxian_nexus.Billing.HashLaws.{IsCounted, plain, started}

abbrev gate :
    Bool
    → Bool
    → Billing
    → Billing
    → GenerateKeyResponse
    → Billing × Result GenerateKeyResponse StatusCode
gate refused up s t r =
    if refused
    then (s, err bad_request)
    else if up
    then (t, ok r)
    else (s, err internal_server_error)

-- What the tests of the handler let through.
gate-ok :
    (refused up : Bool) (s t : Billing) (r response : GenerateKeyResponse)
    → (gate refused up s t r).1 ≡ ok response
    → (refused ≡ false) × (r ≡ response) × ((gate refused up s t r).0 ≡ t)
gate-ok true up s t r response e = cc
gate-ok false true s t r response e = (refl, ok_inj e, refl)
gate-ok false false s t r response e = cc

allowed_id :
    (id : Text)
    → (is_empty id || ltb 128 (utf8_len id)) ≡ false
    → (is_empty id ≡ false) × (utf8_len id ≤ 128)
allowed_id id h = ground arith

module _ (c : Crypto) (hmac : Bytes → Bytes → Option Bytes) where
  open c use {sha256, hex_encode}

  -- When generate_developer_key answers with a key and HSET is answered, the hash of that key
  -- holds the secret of the answer, a usage of zero, and the trimmed organization, which is not
  -- empty and has at most 128 bytes.
  pub generate_developer_key-stored :
      (payload : GenerateKeyRequest) (raw_key raw_secret : Bytes) (replies : Replies) (s : Billing)
      (response : GenerateKeyResponse)
      → (generate_developer_key c hmac payload raw_key raw_secret replies s).1 ≡ ok response
      → replies.hset ≡ true
      → (hash : KeyHash) × (lookup
            (redis_key response.api_key)
            (generate_developer_key c hmac payload raw_key raw_secret replies s).0.keys
          ≡ some hash)
        × (hash.secret ≡ response.api_secret)
        × (hash.usage ≡ 0)
        × (hash.org_id ≡ trim payload.organization_id)
        × (is_empty hash.org_id ≡ false)
        × (utf8_len hash.org_id ≤ 128)
  unfolding generate_developer_key
  generate_developer_key-stored payload raw_key raw_secret replies s response e stored =
      let organization_id = trim payload.organization_id in
      let api_key = codes "cxl_" ++ hex_encode (sha256 raw_key) in
      let hash : KeyHash = record {
        org_id = organization_id;
        email = payload.developer_email;
        project = payload.project_name;
        secret = hex_encode (sha256 raw_secret);
        usage = 0;
        grace_period_start = start_of (lookup (redis_key api_key) s.keys);
      } in
      let (allowed, same, after) =
        gate-ok (is_empty organization_id || ltb 128 (utf8_len organization_id)) replies.connects s
          _ _ response e in
      let (filled, short) = allowed_id organization_id allowed in
      let found : lookup (redis_key api_key)
            (generate_developer_key c hmac payload raw_key raw_secret replies s).0.keys
          ≡ some hash =
        ap (λ (t : Billing). lookup (redis_key api_key) t.keys)
          (after ∙ if_true replies.hset _ _ stored)
        ∙ lookup-insert (redis_key api_key) hash s.keys in
      (
        hash,
        subst
            (λ (r : GenerateKeyResponse).
              lookup (redis_key r.api_key)
                (generate_developer_key c hmac payload raw_key raw_secret replies s).0.keys
              ≡ some hash)
            same found,
        ap (λ (r : GenerateKeyResponse). r.api_secret) same,
        refl,
        refl,
        filled,
        short,
      )

  conclude-IsCounted :
      (payload : TelemetryRequest) (hash : KeyHash) (replies : Replies) (s : Billing)
      (decision : QuotaDecision) (sent : Billing)
      → sent.keys
        ≡ insert (redis_key payload.api_key) (record hash { usage = hash.usage + 1 }) s.keys
      → IsCounted payload hash s
          (conclude c hmac decision payload
            (hash.usage + 1)
            (record hash { usage = hash.usage + 1 })
            replies
            sent).0
  unfolding conclude
  conclude-IsCounted payload hash replies s within_limit sent e = plain payload hash s sent e
  conclude-IsCounted payload hash replies s (grace_allowed none) sent e =
      plain payload hash s sent e
  conclude-IsCounted payload hash replies s (grace_throttled remaining) sent e =
      plain payload hash s sent e
  conclude-IsCounted payload hash replies s grace_expired sent e = plain payload hash s sent e
  conclude-IsCounted payload hash replies s (grace_allowed (some start)) sent e =
      either (IsCounted payload hash s) replies.hset _ sent (started payload hash s start sent e)
        (plain payload hash s sent e)

  count_usage-run :
      (payload : TelemetryRequest) (hash : KeyHash) (replies : Replies) (now : ℤ)
      (roll_allowed : Bool) (s : Billing)
      → replies.hincrby ≡ true
      → count_usage c hmac payload hash replies now roll_allowed s
        ≡ conclude c hmac
            (evaluate_quota_decision
              (hash.usage + 1)
              now
              (if replies.hget then hash.grace_period_start else none)
              roll_allowed)
            payload
            (hash.usage + 1)
            (record hash { usage = hash.usage + 1 })
            replies
            (record {
              keys =
                  insert
                    (redis_key payload.api_key)
                    (record hash { usage = hash.usage + 1 })
                    s.keys;
              published = if replies.nostr then payload ∷ s.published else s.published;
            })
  unfolding count_usage
  count_usage-run payload hash replies now roll_allowed s incr = if_true replies.hincrby _ _ incr

  track_signature-run :
      (payload : TelemetryRequest) (replies : Replies) (now : ℤ) (roll_allowed : Bool) (s : Billing)
      (hash : KeyHash)
      → replies.connects ≡ true
      → replies.hgetall ≡ true
      → lookup (redis_key payload.api_key) s.keys ≡ some hash
      → validate_telemetry_auth c hmac (some hash) payload ≡ ok tt
      → track_signature c hmac payload replies now roll_allowed s
        ≡ count_usage c hmac payload hash replies now roll_allowed s
  unfolding track_signature authenticated
  track_signature-run payload replies now roll_allowed s hash up got found auth =
      if_true replies.connects _ _ up
      ∙ ap
          (λ d.
            authenticated c hmac (validate_telemetry_auth c hmac d payload) d payload replies now
              roll_allowed s)
          (if_true replies.hgetall _ _ got ∙ found)
      ∙ ap (λ m. authenticated c hmac m (some hash) payload replies now roll_allowed s) auth

  -- A call of track_signature for a stored key with a valid tag, with Redis reached and HGETALL
  -- and HINCRBY answered, raises the usage of that key by one whatever the quota decides, keeps
  -- its secret, and leaves every other key as it was.
  pub track_signature-IsCounted :
      (payload : TelemetryRequest) (replies : Replies) (now : ℤ) (roll_allowed : Bool) (s : Billing)
      (hash : KeyHash)
      → replies.connects ≡ true
      → replies.hgetall ≡ true
      → replies.hincrby ≡ true
      → lookup (redis_key payload.api_key) s.keys ≡ some hash
      → validate_telemetry_auth c hmac (some hash) payload ≡ ok tt
      → IsCounted payload hash s (track_signature c hmac payload replies now roll_allowed s).0
  unfolding track_signature
  track_signature-IsCounted payload replies now roll_allowed s hash up got incr found auth =
      let hash' = record hash { usage = hash.usage + 1 } in
      let sent : Billing = record {
        keys = insert (redis_key payload.api_key) hash' s.keys;
        published = if replies.nostr then payload ∷ s.published else s.published;
      } in
      let start = if replies.hget then hash.grace_period_start else none in
      let run =
        track_signature-run payload replies now roll_allowed s hash up got found auth
        ∙ count_usage-run payload hash replies now roll_allowed s incr in
      subst (λ p. IsCounted payload hash s p.0) (sym run)
        (conclude-IsCounted payload hash replies s
          (evaluate_quota_decision (hash.usage + 1) now start roll_allowed) sent refl)

  -- A call of track_signature whose authentication fails, with Redis reached and HGETALL answered,
  -- is answered as unauthorized and changes neither the keys nor what was published.
  pub track_signature-unauthorized :
      (payload : TelemetryRequest) (replies : Replies) (now : ℤ) (roll_allowed : Bool) (s : Billing)
      (e : TelemetryAuthError)
      → replies.connects ≡ true
      → replies.hgetall ≡ true
      → validate_telemetry_auth c hmac (lookup (redis_key payload.api_key) s.keys) payload ≡ err e
      → track_signature c hmac payload replies now roll_allowed s ≡ (s, (unauthorized, none))
  unfolding track_signature authenticated
  track_signature-unauthorized payload replies now roll_allowed s e up got auth =
      if_true replies.connects _ _ up
      ∙ ap
          (λ d.
            authenticated c hmac (validate_telemetry_auth c hmac d payload) d payload replies now
              roll_allowed s)
          (if_true replies.hgetall _ _ got)
      ∙ ap
          (λ m.
            authenticated c hmac m (lookup (redis_key payload.api_key) s.keys) payload replies now
              roll_allowed s)
          auth
