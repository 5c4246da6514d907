-- ===== src/Admin/Routes.antt =====
-- The routes of the admin interface in src/api/admin.rs. The answers are JSON objects: a list of
-- fields.
use conxian_nexus.Prelude.{ℕ, Bool, true, false, List, [], ◌∷◌, ◌++◌, Text, codes}
use conxian_nexus.Prelude.Dict.{insert}
use conxian_nexus.Prelude.Result.{Result, ok, err, ◌>>=◌, ◌>>◌}
use conxian_nexus.State.Crypto.{Crypto}
use conxian_nexus.Safety.Monitor.{Link, Redis, is_safety_mode_active}
use conxian_nexus.Admin.Auth.{
  Store, Headers, Config, Refusal, service_base, all_scopes, authorize_admin_write,
  authorize_for_scope,
}
use conxian_nexus.Admin.Signatures.{
  Ecdsa, ReleaseApprovalRequest, ReleaseDecisionRequest, GovernanceDecisionRequest,
  AdminLoginRequest, release_approval, release_decision, governance_decision, admin_login,
  validate_dual_signature,
}
use conxian_nexus.Admin.Registration.{Fresh, issue_api_key}

pub data Json : Type 0 where
  text : Text → Json
  number : ℕ → Json
  flag : Bool → Json
  null : Json
  texts : List Text → Json

abbrev pub Fields : Type 0
Fields = List (Text × Json)

pub record AppState : Type 0 where
  pub config : Config
  pub storage : Redis
  pub link : Link

pub record ReleaseApprovalResponse : Type 0 where
  pub accepted : Bool
  pub request_id : Text
  pub audit_event_id : Text
  pub message : Text

-- The routes that read, with the segment of their path.
pub data Read : Type 0 where
  protected_status runtime_health runtime_readiness audit_events chains attestations drift
        safety_mode environments :
      Read
  environment chain_status attestation promotion_evidence : Text → Read

unfoldable pub get_auth_md : Fields
get_auth_md =
    let base = codes "http://localhost:3000" in
    (codes "issuer", text base)
    ∷ (codes "registration_endpoint", text (base ++ codes "/agent/auth/register"))
    ∷ (codes "claim_endpoint", text (base ++ codes "/agent/auth/claim"))
    ∷ (codes "token_endpoint", text (base ++ codes "/agent/auth/token"))
    ∷ (codes "jwks_uri", text (base ++ codes "/agent/auth/jwks"))
    ∷ (
      codes "scopes_supported",
      texts (codes "api.read" ∷ codes "api.write" ∷ codes "admin.write" ∷ []),
    )
    ∷ []

unfoldable pub get_oauth_protected_resource_metadata : Headers → Fields
unfolding service_base
get_oauth_protected_resource_metadata headers =
    let base = service_base headers in
    (codes "resource", text base)
    ∷ (codes "resource_name", text (codes "Conxian Nexus"))
    ∷ (codes "authorization_servers", texts (base ∷ []))
    ∷ []

unfoldable pub get_oauth_authorization_server_metadata : Headers → Fields
unfolding service_base
get_oauth_authorization_server_metadata headers =
    let base = service_base headers in
    (codes "issuer", text base)
    ∷ (codes "registration_endpoint", text (base ++ codes "/agent/auth/register"))
    ∷ (codes "token_endpoint", text (base ++ codes "/agent/auth/token"))
    ∷ (codes "jwks_uri", text (base ++ codes "/agent/auth/jwks"))
    ∷ (
      codes "scopes_supported",
      texts (codes "api.read" ∷ codes "api.write" ∷ codes "admin.write" ∷ []),
    )
    ∷ []

-- `is_safety_mode_active(..).await.unwrap_or(false)`
unfoldable pub safety_flag : AppState → Bool
unfolding is_safety_mode_active
safety_flag state = elim (is_safety_mode_active state.link state.storage) [
  | ok active ↦ active
  | err e ↦ false
]

-- The body of an answer to a reader with these scopes, at the time `now`.
unfoldable pub body : Read → List Text → Text → AppState → Fields
unfolding safety_flag
body protected_status scopes now state =
    (codes "status", text (codes "ok")) ∷ (codes "scopes", texts scopes) ∷ []
body runtime_health scopes now state =
    (codes "status", text (codes "healthy"))
    ∷ (codes "timestamp", text now)
    ∷ (codes "version", text (codes "v0.4.18"))
    ∷ (codes "safety_mode", flag (safety_flag state))
    ∷ []
body runtime_readiness scopes now state =
    (codes "status", text (codes "ready")) ∷ (codes "timestamp", text now) ∷ []
body audit_events scopes now state = (codes "events", texts []) ∷ (codes "total", number 0) ∷ []
body chains scopes now state =
    (codes "chains", texts (codes "bitcoin" ∷ codes "stacks" ∷ codes "evm" ∷ codes "cosmos" ∷ []))
    ∷ []
body attestations scopes now state = (codes "attestations", texts []) ∷ []
body drift scopes now state =
    (codes "drift_ms", number 12) ∷ (codes "status", text (codes "low")) ∷ []
body safety_mode scopes now state =
    (codes "active", flag (safety_flag state)) ∷ (codes "triggered_at", null) ∷ []
body environments scopes now state =
    (codes "environments", texts (codes "dev" ∷ codes "staging" ∷ codes "prod" ∷ [])) ∷ []
body (environment env) scopes now state =
    (codes "environment", text env) ∷ (codes "status", text (codes "active")) ∷ []
body (chain_status chain) scopes now state =
    (codes "chain", text chain)
    ∷ (codes "height", number 840_000)
    ∷ (codes "synchronized", flag true)
    ∷ []
body (attestation id) scopes now state = (codes "id", text id) ∷ (codes "verified", flag true) ∷ []
body (promotion_evidence release) scopes now state =
    (codes "release", text release)
    ∷ (codes "evidence_type", text (codes "git_tag_attestation"))
    ∷ (codes "verified", flag true)
    ∷ []

unfoldable pub read : Read → AppState → Headers → Text → Store → Result Fields Refusal
unfolding authorize_for_scope body
read route state headers now store = do
  scopes ← authorize_for_scope state.config headers (codes "api.read") store
  ok (body route scopes now state)

unfoldable pub ack_safety_mode : AppState → Headers → Text → Store → Result Fields Refusal
unfolding authorize_admin_write
ack_safety_mode state headers now store = do
  authorize_admin_write state.config headers store
  ok ((codes "status", text (codes "acknowledged")) ∷ (codes "timestamp", text now) ∷ [])

-- The two identifiers are those that `Uuid` gives.
abbrev recorded : Fresh → Text → ReleaseApprovalResponse
recorded fresh message = record {
  accepted = true;
  request_id = codes "req_" ++ fresh.id;
  audit_event_id = codes "audit_" ++ fresh.claim;
  message = message;
}

module _ (c : Crypto) (ecdsa : Ecdsa) (debug : Bool) where
  unfoldable pub login_handler :
      AppState → AdminLoginRequest → Fresh → Store → Store × Result Fields Refusal
  unfolding validate_dual_signature issue_api_key
  login_handler state payload fresh store =
      elim (validate_dual_signature c ecdsa debug state.config.admin_public_keys
        (admin_login payload)) [
          | err refusal ↦ (store, err refusal)
          | ok done ↦ (
            record store {
              credentials =
                  insert (issue_api_key fresh)
                    (record {
                      registration_id = codes "login_" ++ payload.session_name;
                      scopes = all_scopes;
                      revoked = false;
                    })
                    store.credentials;
            },
            ok (
                (codes "status", text (codes "success"))
                ∷ (codes "credential", text (issue_api_key fresh))
                ∷ (codes "scopes", texts all_scopes)
                ∷ []),
          )
        ]

  unfoldable pub request_release_approval :
      AppState
      → Headers
      → ReleaseApprovalRequest
      → Fresh
      → Store
      → Result ReleaseApprovalResponse Refusal
  unfolding validate_dual_signature authorize_admin_write
  request_release_approval state headers payload fresh store = do
    authorize_admin_write state.config headers store
    validate_dual_signature c ecdsa debug state.config.admin_public_keys (release_approval payload)
    ok (recorded fresh (codes "Release approval recorded in audit trail."))

  unfoldable pub submit_release_decision :
      AppState
      → Headers
      → ReleaseDecisionRequest
      → Fresh
      → Store
      → Result ReleaseApprovalResponse Refusal
  unfolding validate_dual_signature authorize_admin_write
  submit_release_decision state headers payload fresh store = do
    authorize_admin_write state.config headers store
    validate_dual_signature c ecdsa debug state.config.admin_public_keys (release_decision payload)
    ok (recorded fresh (codes "Release decision '" ++ (payload.decision ++ codes "' finalized.")))

  unfoldable pub submit_governance_decision :
      AppState
      → Headers
      → GovernanceDecisionRequest
      → Fresh
      → Store
      → Result ReleaseApprovalResponse Refusal
  unfolding validate_dual_signature authorize_admin_write
  submit_governance_decision state headers payload fresh store = do
    authorize_admin_write state.config headers store
    validate_dual_signature c ecdsa debug state.config.admin_public_keys
        (governance_decision payload)
    ok (recorded fresh (codes "Governance decision recorded."))
