-- ===== src/Tests/AdminTests.antt =====
-- The admin interface on concrete requests.
use conxian_nexus.Prelude.{
  ℕ, ◌%◌, ◌≡◌, ◌↔◌, refl, true, false, Option, none, some, List, [], ◌∷◌, ◌++◌, Text, codes,
  as_bytes, text_eq,
}
use conxian_nexus.Prelude.Dict.{lookup, insert}
use conxian_nexus.Prelude.Result.{ok, err}
use conxian_nexus.Api.Http.{conflict}
use conxian_nexus.Prelude.Dict.{has_text}
use conxian_nexus.Admin.Auth.{
  Store, Headers, Config, authorize_admin_write, bearer_token, bearer_unauthorized_response,
}
use conxian_nexus.Admin.AuthLaws.{MayUse, authorize_admin_write-MayUse, read-MayUse}
use conxian_nexus.Admin.Signatures.{
  Ecdsa, AdminLoginRequest, admin_login, verified, validate_dual_signature,
}
use conxian_nexus.Admin.SignatureLaws.{
  AreTwo, validate_dual_signature-AreTwo, validate_dual_signature-one_signer,
}
use conxian_nexus.Admin.Registration.{
  RegistrationRequest, ClaimCompleteRequest, Fresh, refuse, hash_value, post_claim_scopes_of,
  issue_api_key, issue_claim_token, issue_otp, start_registration, start_claim, complete_claim,
}
use conxian_nexus.Admin.Routes.{AppState, Fields, chains, read}
use conxian_nexus.Admin.Kept.{next, stop, starts_claim}
use conxian_nexus.Admin.Claims.{complete_claim-once}
use conxian_nexus.Admin.Grants.{complete_claim-admin_write}
use conxian_nexus.Tests.Stubs.{checksum, toy_crypto}

abbrev config : Config
config = record {
  admin_api_token = some (codes "secret");
  admin_public_keys = codes "01" ∷ codes "02" ∷ [];
}

abbrev carrying : Text → Headers
carrying token = record {
  host = none;
  forwarded_proto = none;
  authorization = some (codes "Bearer " ++ token);
}

abbrev empty : Store
empty = record { registrations = []; credentials = [] }

abbrev fresh : Fresh
fresh = record {
  id = codes "i1";
  claim = codes "c1";
  claim_view = codes "v1";
  otp = 42;
  api_key = codes "k1";
  now = codes "2026-01-01T00:00:00Z";
}

abbrev state : AppState
state = record {
  config = config;
  storage = record { safety_mode = none; drift = none; events = [] };
  link = record { connects = true; answers = true; runs = true };
}

-- A signature is one digit of a checksum of key and message.
abbrev ecdsa : Ecdsa
ecdsa = record {
  Signature = List ℕ;
  VerifyingKey = List ℕ;
  from_der = some;
  from_sec1_bytes = some;
  verify = λ key message signature. text_eq signature (checksum (key ++ message) % 16 ∷ []);
}

abbrev login : Option (List Text) → AdminLoginRequest
login signatures = record {
  session_name = codes "s";
  signatures = signatures;
  second_approver = none;
}

authorize_admin_write-MayUse_example :
    (authorize_admin_write config (carrying (codes "secret")) empty ≡ ok tt)
    ↔ MayUse config (carrying (codes "secret")) empty (codes "admin.write")
authorize_admin_write-MayUse_example =
    authorize_admin_write-MayUse config (carrying (codes "secret")) empty

configured_token : authorize_admin_write config (carrying (codes "secret")) empty ≡ ok tt
unfolding authorize_admin_write lookup
configured_token = refl

other_token :
    authorize_admin_write config (carrying (codes "guess")) empty
    ≡ err
        (bearer_unauthorized_response (carrying (codes "guess")) (codes "Invalid admin API token"))
unfolding authorize_admin_write lookup
other_token = refl

read-MayUse_example :
    ((fields : Fields) × (read chains state (carrying (codes "secret")) (codes "t") empty
        ≡ ok fields))
    ↔ MayUse config (carrying (codes "secret")) empty (codes "api.read")
read-MayUse_example = read-MayUse chains state (carrying (codes "secret")) (codes "t") empty

validate_dual_signature-AreTwo_example :
    (validate_dual_signature toy_crypto ecdsa false config.admin_public_keys
        (admin_login (login (some (codes "03" ∷ codes "04" ∷ []))))
      ≡ ok tt)
    ↔ AreTwo
        (verified toy_crypto ecdsa config.admin_public_keys (as_bytes (codes "admin_login:s")))
        (codes "03" ∷ codes "04" ∷ [])
unfolding admin_login
validate_dual_signature-AreTwo_example =
    validate_dual_signature-AreTwo toy_crypto ecdsa false config.admin_public_keys
      (admin_login (login (some (codes "03" ∷ codes "04" ∷ [])))) refl

two_keys :
    validate_dual_signature toy_crypto ecdsa false config.admin_public_keys
      (admin_login (login (some (codes "03" ∷ codes "04" ∷ []))))
    ≡ ok tt
unfolding validate_dual_signature admin_login
two_keys = refl

-- "A3" and "03" decode to the same byte here.
validate_dual_signature-one_signer_example :
    validate_dual_signature toy_crypto ecdsa false
      (codes "01" ∷ [])
      (admin_login (login (some (codes "03" ∷ codes "A3" ∷ []))))
    ≡ ok tt
unfolding verified admin_login
validate_dual_signature-one_signer_example =
    validate_dual_signature-one_signer toy_crypto ecdsa false (codes "01") (codes "03") (codes "A3")
      (admin_login (login (some (codes "03" ∷ codes "A3" ∷ [])))) (λ e. cc e) refl refl refl

abbrev anonymous : RegistrationRequest
anonymous = record {
  registration_type = codes "anonymous";
  credential_type = codes "api_key";
  scopes = [];
  post_claim_scopes = codes "admin.write" ∷ [];
}

abbrev completion : ClaimCompleteRequest
completion = record { claim_token = issue_claim_token fresh; otp = issue_otp fresh }

abbrev registered : Store
registered = (start_registration toy_crypto (carrying []) anonymous fresh empty).0

abbrev completed : Store
completed = (complete_claim toy_crypto completion fresh registered).0

abbrev resumed : Store
resumed =
    (start_claim toy_crypto (record { claim_token = issue_claim_token fresh; email = codes "a@b" })
      fresh completed).0

complete_claim-once_example :
    (complete_claim toy_crypto completion fresh resumed
      ≡ (resumed, err (refuse conflict (codes "previously_claimed"))))
    × (start_claim toy_crypto
          (record { claim_token = issue_claim_token fresh; email = codes "c@d" })
          fresh
          resumed
        ≡ (resumed, err (refuse conflict (codes "previously_claimed"))))
unfolding complete_claim start_registration hash_value issue_claim_token issue_otp lookup insert
complete_claim-once_example =
    complete_claim-once toy_crypto ecdsa false (issue_claim_token fresh) (issue_otp fresh)
      (issue_otp fresh) (codes "c@d") fresh fresh registered resumed _ refl
      (next
        (starts_claim (record { claim_token = issue_claim_token fresh; email = codes "a@b" }) fresh
          refl)
        stop)

complete_claim-admin_write_example :
    authorize_admin_write config (carrying (issue_api_key fresh)) completed ≡ ok tt
unfolding bearer_token has_text post_claim_scopes_of
complete_claim-admin_write_example =
    complete_claim-admin_write toy_crypto config (carrying []) (carrying (issue_api_key fresh))
      anonymous fresh fresh empty refl refl refl
