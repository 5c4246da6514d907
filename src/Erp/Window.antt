-- ===== src/Erp/Window.antt =====
-- What a successful check of an attestation means.
use conxian_nexus.Prelude.{
  ℕ, ◌≤◌, ◌<◌, ◌≡◌, ◌-◌, ◌^◌, refl, sym, ap, ◌∙◌, [], ◌⊎◌, Bool, true, false, not, Option, none,
  some, List, Text, arith, trim, is_empty, utf8_len,
}
use conxian_nexus.Prelude.Int.{ℤ, pos, ◌+ℤ◌, ◌-ℤ◌, ◌≤ℤ◌, ◌<ℤ◌}
use conxian_nexus.Prelude.I64.{i64_add, i64_sub, i64_add_kept, i64_sub_kept}
use conxian_nexus.Prelude.Result.{Result, ok, err, ok_or, >>=-eq-ok}
use conxian_nexus.State.Crypto.{Bytes, Crypto}
use conxian_nexus.Erp.Attestation.{
  ErpAttestation, ErpSyncRequest, VerifiedErpAttestation, ErpAttestationError, invalid_signature,
  bail_if, validate_attestation_metadata, validate_attestation_time_window, find_key,
  verify_hmac_sha256_signature, verify_erp_attestation, canonical_erp_attestation_payload,
  build_replay_cache_key, max_one, all_chars, is_ascii_hexdigit,
}

-- How long a nonce is kept, for an attestation that has not expired.
ttl_cases :
    (expires now : ℤ)
    → pos 0 ≤ℤ now
    → expires ≤ℤ pos (2 ^ 63 - 1)
    → now ≤ℤ expires
    → (0 < max_one (i64_sub expires now))
      × (((now <ℤ expires) × (now +ℤ pos (max_one (i64_sub expires now)) ≡ expires))
          ⊎ ((now ≡ expires) × (max_one (i64_sub expires now) ≡ 1)))
unfolding ◌+ℤ◌ ◌-ℤ◌
ttl_cases expires now epoch top h =
    rw (i64_sub_kept expires now (record { least = ground arith; greatest = ground arith }))
      (ground arith)

-- When validate_attestation_time_window accepts, by a clock after 1970, the attestation has not
-- expired, and the nonce is to be kept for the positive time that is left, or for one second in
-- the second of the expiry.
pub validate_attestation_time_window_sound :
    (a : ErpAttestation) (request_timestamp now : ℤ) (ttl : ℕ)
    → pos 0 ≤ℤ now
    → a.expires_at ≤ℤ pos (2 ^ 63 - 1)
    → validate_attestation_time_window a request_timestamp now ≡ ok ttl
    → (now ≤ℤ a.expires_at)
      × (0 < ttl)
      × (((now <ℤ a.expires_at) × (now +ℤ pos ttl ≡ a.expires_at))
          ⊎ ((now ≡ a.expires_at) × (ttl ≡ 1)))
unfolding validate_attestation_time_window
validate_attestation_time_window_sound a request_timestamp now ttl epoch top e =
    ground (arith, ttl_cases a.expires_at now epoch top)

-- What the format of an attestation has to be.
abbrev pub IsWellFormed : ErpAttestation → Type 0
IsWellFormed a =
    (is_empty (trim a.key_id) ≡ false)
    × (utf8_len (trim a.key_id) ≤ 128)
    × (is_empty (trim a.nonce) ≡ false)
    × (utf8_len (trim a.nonce) ≤ 256)
    × (utf8_len (trim a.signature) ≡ 64)
    × (all_chars is_ascii_hexdigit (trim a.signature) ≡ true)
    × (a.issued_at <ℤ a.expires_at)
    × ((a.expires_at -ℤ a.issued_at ≤ℤ pos 600) ⊎ (pos (2 ^ 63) ≤ℤ a.expires_at -ℤ a.issued_at))

bail_if-ok : (b : Bool) (x : ErpAttestationError) → bail_if b x ≡ ok tt → b ≡ false
bail_if-ok true x e = cc
bail_if-ok false x e = refl

not-false : (b : Bool) → not b ≡ false → b ≡ true
not-false true e = refl
not-false false e = cc

ok_or-ok :
    {A : Type 0} (o : Option A) (x : ErpAttestationError) {a : A} → ok_or o x ≡ ok a → o ≡ some a
ok_or-ok none x e = cc
ok_or-ok (some b) x e = cc

abbrev ttl_of : Result VerifiedErpAttestation ErpAttestationError → ℕ
ttl_of (ok v) = v.replay_ttl_seconds
ttl_of (err x) = 0

abbrev replay_key_of : Result VerifiedErpAttestation ErpAttestationError → Text
replay_key_of (ok v) = v.replay_key
replay_key_of (err x) = []

module _ (c : Crypto) (hmac : Bytes → Bytes → Option Bytes) {Value : Type 0} where
  -- A verified request carries a well-formed attestation in its time, and a signature by a trusted
  -- key over its own fields.
  pub record IsAttested (request : ErpSyncRequest Value) (action : Text) (tx_ids : List Text)
      (trusted_keys : List (Text × Text)) (now : ℤ) (v : VerifiedErpAttestation) : Type 0 where
    pub secret : Text
    pub well_formed : validate_attestation_metadata request.attestation ≡ ok tt
    pub trusted : find_key request.attestation.key_id trusted_keys ≡ some secret
    pub signed :
        verify_hmac_sha256_signature c hmac secret
          (canonical_erp_attestation_payload request action tx_ids)
          (trim request.attestation.signature)
        ≡ true
    pub timely :
        validate_attestation_time_window request.attestation request.timestamp now
        ≡ ok v.replay_ttl_seconds
    pub keyed :
        v.replay_key
        ≡ build_replay_cache_key c request.organization_id request.attestation.key_id
            request.attestation.nonce

  -- When verify_erp_attestation accepts a request, its attestation is well formed and in its time
  -- window, its key is a trusted one, the signature verifies over the canonical text of this
  -- request with the secret of that key, and the replay key is made of its organization, key and
  -- nonce.
  pub verify_erp_attestation_sound :
      (request : ErpSyncRequest Value) (action : Text) (tx_ids : List Text)
      (trusted_keys : List (Text × Text)) (now : ℤ) (v : VerifiedErpAttestation)
      → verify_erp_attestation c hmac request action tx_ids trusted_keys now ≡ ok v
      → IsAttested request action tx_ids trusted_keys now v
  unfolding verify_erp_attestation
  verify_erp_attestation_sound request action tx_ids trusted_keys now v e =
      let (u, well, e1) = >>=-eq-ok (validate_attestation_metadata request.attestation) _ e in
      let (secret, found, e2) =
        >>=-eq-ok (ok_or (find_key request.attestation.key_id trusted_keys) invalid_signature) _
          e1 in
      let (u', bailed, e3) = >>=-eq-ok (bail_if _ invalid_signature) _ e2 in
      let (ttl, window, e4) =
        >>=-eq-ok (validate_attestation_time_window request.attestation request.timestamp now) _
          e3 in
      record {
        secret = secret;
        well_formed = well;
        trusted = ok_or-ok _ _ found;
        signed = not-false _ (bail_if-ok _ _ bailed);
        timely = window ∙ ap (λ r. ok (ttl_of r)) e4;
        keyed = sym (ap replay_key_of e4);
      }

skew_mono : (now expires : ℤ) → now <ℤ expires → now +ℤ pos 60 ≤ℤ expires +ℤ pos 60
unfolding ◌+ℤ◌
skew_mono now expires h = ground arith

skew_kept :
    (t : ℤ) → pos 0 ≤ℤ t → t +ℤ pos 60 ≤ℤ pos (2 ^ 63 - 1) → i64_add t (pos 60) ≡ t +ℤ pos 60
skew_kept t epoch top =
    i64_add_kept t (pos 60) (record { least = unfold ◌+ℤ◌ in ground arith; greatest = top })

-- By a clock after 1970, and with an expiry at least a minute below the greatest i64, an
-- attestation that is accepted before its expiry has its nonce kept exactly until the expiry, and
-- in the second of the expiry it passes the time check again.
pub validate_attestation_time_window-at_expiry :
    (a : ErpAttestation) (request_timestamp now : ℤ) (ttl : ℕ)
    → pos 0 ≤ℤ now
    → a.expires_at +ℤ pos 60 ≤ℤ pos (2 ^ 63 - 1)
    → validate_attestation_time_window a request_timestamp now ≡ ok ttl
    → now <ℤ a.expires_at
    → (now +ℤ pos ttl ≡ a.expires_at)
      × (validate_attestation_time_window a request_timestamp a.expires_at ≡ ok 1)
unfolding validate_attestation_time_window
validate_attestation_time_window-at_expiry a request_timestamp now ttl epoch top e h =
    let top' : a.expires_at ≤ℤ pos (2 ^ 63 - 1) = unfold ◌+ℤ◌ in ground arith in
    let mono = skew_mono now a.expires_at h in
    let now_skew = skew_kept now epoch (omega arith) in
    let expires_skew = skew_kept a.expires_at (omega arith) top in
    let first = ttl_cases a.expires_at now epoch top' in
    let second = ttl_cases a.expires_at a.expires_at (omega arith) top' in
    ground (arith, first, second, mono, now_skew, expires_skew)
