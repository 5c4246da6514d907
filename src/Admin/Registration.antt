-- ===== src/Admin/Registration.antt =====
-- The registration of agents in src/api/admin.rs. What `Uuid` and the clock give is a `Fresh`.
use conxian_nexus.Prelude.{
  ℕ, zero, suc, ◌+◌, ◌/◌, ◌%◌, Bool, true, false, ◌||◌, Option, none, some, List, [], ◌∷◌, ◌++◌,
  Text, codes, text_eq, is_empty, as_bytes, if◌then◌else◌,
}
use conxian_nexus.Prelude.Dict.{lookup, insert}
use conxian_nexus.Prelude.Result.{Result, ok, err}
use conxian_nexus.State.Crypto.{Crypto}
use conxian_nexus.Api.Http.{StatusCode, bad_request, unauthorized, not_found, conflict}
use conxian_nexus.Admin.Auth.{
  RegistrationRecord, CredentialRecord, Store, Headers, Refusal, service_base,
}

pub record RegistrationRequest : Type 0 where
  pub registration_type : Text
  pub credential_type : Text
  pub scopes : List Text
  pub post_claim_scopes : List Text

pub record ClaimRequest : Type 0 where
  pub claim_token : Text
  pub email : Text

pub record ClaimCompleteRequest : Type 0 where
  pub claim_token : Text
  pub otp : Text

-- The texts of the identifiers, the number behind the OTP and the time of one call.
pub record Fresh : Type 0 where
  pub id : Text
  pub claim : Text
  pub claim_view : Text
  pub otp : ℕ
  pub api_key : Text
  pub now : Text

-- The answers, as JSON objects.
pub record RegistrationResponse : Type 0 where
  pub registration_id : Text
  pub registration_type : Text
  pub claim_url : Text
  pub claim_token : Text
  pub claim_view_url : Text
  pub post_claim_scopes : List Text
  pub credential : Option Text

pub record ClaimResponse : Type 0 where
  pub registration_id : Text
  pub claim_attempt_id : Text
  pub status : Text
  pub claim_view_url : Text

-- A registration that had a credential is answered without one.
pub record ClaimCompleteResponse : Type 0 where
  pub registration_id : Text
  pub status : Text
  pub credential_type : Option Text
  pub credential : Option Text
  pub scopes : Option (List Text)

unfoldable pub issue_api_key : Fresh → Text
issue_api_key fresh = codes "nx_key_" ++ fresh.api_key

unfoldable pub issue_claim_token : Fresh → Text
issue_claim_token fresh = codes "nx_claim_" ++ fresh.claim

unfoldable pub issue_claim_view_token : Fresh → Text
issue_claim_view_token fresh = codes "nx_cv_" ++ fresh.claim_view

-- `{:06}` of a number of at most six digits.
abbrev padded : ℕ → ℕ → Text
padded zero n = []
padded (suc width) n = padded width (n / 10) ++ (48 + n % 10) ∷ []

unfoldable pub issue_otp : Fresh → Text
issue_otp fresh = padded 6 (fresh.otp % 1_000_000)

abbrev pub refuse : StatusCode → Text → Refusal
refuse status error = record {
  status = status;
  error = error;
  description = none;
  www_authenticate = none;
}

abbrev pub default_scopes : List Text
default_scopes = codes "api.read" ∷ codes "api.write" ∷ []

unfoldable pub post_claim_scopes_of : RegistrationRequest → List Text
post_claim_scopes_of payload =
    if is_empty payload.post_claim_scopes
    then (if is_empty payload.scopes then default_scopes else payload.scopes)
    else payload.post_claim_scopes

abbrev pub is_anonymous : RegistrationRequest → Bool
is_anonymous payload = text_eq payload.registration_type (codes "anonymous")

-- The registration whose view token this is.
unfoldable pub find_view : Text → List (Text × RegistrationRecord) → Option RegistrationRecord
find_view token [] = none
find_view token ((h, r) ∷ entries) =
    let rest = find_view token entries in if text_eq r.claim_view_token token then some r else rest

module _ (c : Crypto) where
  open c use {sha256, hex_encode}

  unfoldable pub hash_value : Text → Text
  hash_value value = hex_encode (sha256 (as_bytes value))

  unfoldable pub new_record : RegistrationRequest → Fresh → RegistrationRecord
  unfolding hash_value issue_claim_token issue_claim_view_token issue_otp issue_api_key
      post_claim_scopes_of
  new_record payload fresh = record {
    registration_id = codes "reg_" ++ fresh.id;
    registration_type = payload.registration_type;
    claim_token_hash = hash_value (issue_claim_token fresh);
    claim_view_token = issue_claim_view_token fresh;
    otp_hash = hash_value (issue_otp fresh);
    otp_plaintext = issue_otp fresh;
    requested_credential_type = payload.credential_type;
    credential = if is_anonymous payload then some (issue_api_key fresh) else none;
    pre_claim_scopes = payload.scopes;
    post_claim_scopes = post_claim_scopes_of payload;
    email = none;
    claimed = false;
    claim_token_expires_at = fresh.now;
  }

  -- Of an anonymous registration, the credential is stored at once.
  unfoldable pub store_credential : RegistrationRequest → Fresh → Store → Store
  unfolding issue_api_key
  store_credential payload fresh store =
      if is_anonymous payload
      then record store {
        credentials =
            insert (issue_api_key fresh)
              (record {
                registration_id = codes "reg_" ++ fresh.id;
                scopes = default_scopes;
                revoked = false;
              })
              store.credentials;
      }
      else store

  unfoldable pub start_registration :
      Headers → RegistrationRequest → Fresh → Store → Store × Result RegistrationResponse Refusal
  unfolding new_record store_credential
  start_registration headers payload fresh store =
      let r = new_record payload fresh in
      let stored = store_credential payload fresh store in
      if is_anonymous payload || text_eq payload.registration_type (codes "identity_assertion")
      then (
        record stored { registrations = insert r.claim_token_hash r stored.registrations },
        ok (record {
          registration_id = r.registration_id;
          registration_type = codes "email-verification";
          claim_url = service_base headers ++ codes "/agent/auth/claim";
          claim_token = issue_claim_token fresh;
          claim_view_url =
              service_base headers ++ (codes "/agent/auth/claim/view?token=" ++ r.claim_view_token);
          post_claim_scopes = r.post_claim_scopes;
          credential = r.credential;
        }),
      )
      else (store, err (refuse bad_request (codes "unsupported_registration_type")))

  unfoldable pub start_claim : ClaimRequest → Fresh → Store → Store × Result ClaimResponse Refusal
  unfolding hash_value
  start_claim payload fresh store =
      elim (lookup (hash_value payload.claim_token) store.registrations) [
        | none ↦ (store, err (refuse bad_request (codes "invalid_claim_token")))
        | some r ↦
            if r.claimed then (store, err (refuse conflict (codes "previously_claimed"))) else (
              record store {
                registrations =
                    insert (hash_value payload.claim_token)
                      (record r { email = some payload.email }) store.registrations;
              },
              ok (record {
                registration_id = r.registration_id;
                claim_attempt_id = codes "claim_attempt_" ++ fresh.id;
                status = codes "initiated";
                claim_view_url = codes "/agent/auth/claim/view?token=" ++ r.claim_view_token;
              }),
            )
      ]

  -- The scopes after the claim, for a credential that is there.
  unfoldable pub widen :
      Text → List Text → List (Text × CredentialRecord) → List (Text × CredentialRecord)
  widen credential scopes credentials = elim (lookup credential credentials) [
    | none ↦ credentials
    | some r ↦ insert credential (record r { scopes = scopes }) credentials
  ]

  -- The part of `complete_claim` behind the checks.
  unfoldable pub claim : Text → RegistrationRecord → Fresh → Store → Store × ClaimCompleteResponse
  unfolding widen issue_api_key
  claim claim_hash r fresh store = elim r.credential [
    | some existing ↦ (
      record {
        registrations = insert claim_hash (record r { claimed = true }) store.registrations;
        credentials = widen existing r.post_claim_scopes store.credentials;
      },
      record {
        registration_id = r.registration_id;
        status = codes "claimed";
        credential_type = none;
        credential = none;
        scopes = none;
      },
    )
    | none ↦ (
      record {
        registrations =
            insert claim_hash (record r { claimed = true; credential = some (issue_api_key fresh) })
              store.registrations;
        credentials =
            insert (issue_api_key fresh)
              (record {
                registration_id = r.registration_id;
                scopes = r.post_claim_scopes;
                revoked = false;
              })
              store.credentials;
      },
      record {
        registration_id = r.registration_id;
        status = codes "claimed";
        credential_type = some r.requested_credential_type;
        credential = some (issue_api_key fresh);
        scopes = some r.post_claim_scopes;
      },
    )
  ]

  abbrev answered : Store × ClaimCompleteResponse → Store × Result ClaimCompleteResponse Refusal
  answered (store, response) = (store, ok response)

  unfoldable pub complete_claim :
      ClaimCompleteRequest → Fresh → Store → Store × Result ClaimCompleteResponse Refusal
  unfolding hash_value claim
  complete_claim payload fresh store =
      elim (lookup (hash_value payload.claim_token) store.registrations) [
        | none ↦ (store, err (refuse bad_request (codes "invalid_claim_token")))
        | some r ↦
            if r.claimed
            then (store, err (refuse conflict (codes "previously_claimed")))
            else if text_eq r.otp_hash (hash_value payload.otp)
            then answered (claim (hash_value payload.claim_token) r fresh store)
            else (store, err (refuse unauthorized (codes "otp_invalid")))
      ]

  -- The registration and the code that the page shows.
  unfoldable pub view_claim_otp : Text → Store → Result (Text × Text) Refusal
  unfolding find_view
  view_claim_otp token store = elim (find_view token store.registrations) [
    | none ↦ err (refuse not_found (codes "invalid_claim_view_token"))
    | some r ↦ ok (r.registration_id, r.otp_plaintext)
  ]
