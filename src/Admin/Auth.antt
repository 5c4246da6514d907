-- ===== src/Admin/Auth.antt =====
-- Bearer tokens and scopes of src/api/admin.rs. The two maps behind the locks are association lists.
use conxian_nexus.Prelude.{
  Bool, not, ◌&&◌, Option, none, some, List, [], ◌∷◌, ◌++◌, Text, codes, text_eq, strip_prefix,
  if◌then◌else◌,
}
use conxian_nexus.Prelude.Dict.{lookup, has_text}
use conxian_nexus.Prelude.Result.{Result, ok, err}
use conxian_nexus.Api.Http.{StatusCode, unauthorized, service_unavailable}

pub record RegistrationRecord : Type 0 where
  pub registration_id : Text
  pub registration_type : Text
  pub claim_token_hash : Text
  pub claim_view_token : Text
  pub otp_hash : Text
  pub otp_plaintext : Text
  pub requested_credential_type : Text
  pub credential : Option Text
  pub pre_claim_scopes : List Text
  pub post_claim_scopes : List Text
  pub email : Option Text
  pub claimed : Bool
  pub claim_token_expires_at : Text

pub record CredentialRecord : Type 0 where
  pub registration_id : Text
  pub scopes : List Text
  pub revoked : Bool

-- `REGISTRATIONS` and `CREDENTIALS`
pub record Store : Type 0 where
  pub registrations : List (Text × RegistrationRecord)
  pub credentials : List (Text × CredentialRecord)

-- The header values that are read, those that are no visible ASCII text left out.
pub record Headers : Type 0 where
  pub host : Option Text
  pub forwarded_proto : Option Text
  pub authorization : Option Text

-- The fields of `Config` that are used here.
pub record Config : Type 0 where
  pub admin_api_token : Option Text
  pub admin_public_keys : List Text

-- An answer with an error: its status, its code, its text, and the header `WWW-Authenticate`.
pub record Refusal : Type 0 where
  pub status : StatusCode
  pub error : Text
  pub description : Option Text
  pub www_authenticate : Option Text

abbrev unwrap_or : Option Text → Text → Text
unwrap_or none d = d
unwrap_or (some t) d = t

unfoldable pub service_base : Headers → Text
service_base headers =
    unwrap_or headers.forwarded_proto (codes "http")
    ++ (codes "://" ++ unwrap_or headers.host (codes "localhost:3000"))

unfoldable pub bearer_unauthorized_response : Headers → Text → Refusal
unfolding service_base
bearer_unauthorized_response headers error_description = record {
  status = unauthorized;
  error = codes "invalid_token";
  description = some error_description;
  www_authenticate = some (
      codes
        "Bearer realm=\"Conxian Nexus Admin\", scope=\"api.read api.write admin.write\", error=\"invalid_token\", error_description=\""
      ++ (error_description
          ++ (codes "\", resource_metadata=\""
              ++ (service_base headers ++ codes "/.well-known/oauth-protected-resource\""))));
}

unfoldable pub unauthorized_response : Headers → Refusal
unfolding bearer_unauthorized_response
unauthorized_response headers =
    bearer_unauthorized_response headers (codes "Agent or admin credential required")

unfoldable pub admin_token_not_configured_response : Refusal
admin_token_not_configured_response = record {
  status = service_unavailable;
  error = codes "admin_api_token_not_configured";
  description =
      some (codes "NEXUS_ADMIN_API_TOKEN environment variable must be set to access admin routes.");
  www_authenticate = none;
}

unfoldable pub bearer_token : Headers → Option Text
bearer_token headers = elim headers.authorization [
  | none ↦ none
  | some v ↦ strip_prefix (codes "Bearer ") v
]

-- The scopes of a credential that is not revoked and has the required one.
unfoldable pub granted : Store → Text → Text → Option (List Text)
unfolding has_text
granted store token scope = elim (lookup token store.credentials) [
  | none ↦ none
  | some r ↦ if not r.revoked && has_text r.scopes scope then some r.scopes else none
]

-- The fallback to the configured token.
unfoldable pub static_write : Config → Headers → Text → Result (Unit {0}) Refusal
unfolding admin_token_not_configured_response bearer_unauthorized_response
static_write config headers token = elim config.admin_api_token [
  | none ↦ err admin_token_not_configured_response
  | some expected ↦
      if text_eq token expected
      then ok tt
      else err (bearer_unauthorized_response headers (codes "Invalid admin API token"))
]

unfoldable pub authorize_admin_write : Config → Headers → Store → Result (Unit {0}) Refusal
unfolding bearer_token granted static_write
authorize_admin_write config headers store = elim (bearer_token headers) [
  | none ↦ err (bearer_unauthorized_response headers (codes "Admin API token required"))
  | some token ↦ elim (granted store token (codes "admin.write")) [
    | some scopes ↦ ok tt
    | none ↦ static_write config headers token
  ]
]

abbrev pub all_scopes : List Text
all_scopes = codes "admin.write" ∷ codes "api.read" ∷ codes "api.write" ∷ []

unfoldable pub static_scopes : Config → Headers → Text → Result (List Text) Refusal
unfolding unauthorized_response
static_scopes config headers token = elim config.admin_api_token [
  | none ↦ err (unauthorized_response headers)
  | some expected ↦
      if text_eq token expected then ok all_scopes else err (unauthorized_response headers)
]

unfoldable pub authorize_for_scope : Config → Headers → Text → Store → Result (List Text) Refusal
unfolding bearer_token granted static_scopes
authorize_for_scope config headers required_scope store = elim (bearer_token headers) [
  | none ↦ err (unauthorized_response headers)
  | some token ↦ elim (granted store token required_scope) [
    | some scopes ↦ ok scopes
    | none ↦ static_scopes config headers token
  ]
]
