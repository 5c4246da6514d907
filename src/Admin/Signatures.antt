-- ===== src/Admin/Signatures.antt =====
-- `DualSignatureRequest` of src/api/admin.rs. The crates `hex` and `k256` are parameters; the set of
-- signature texts is a list without repetitions.
use conxian_nexus.Prelude.{
  ℕ, suc, Bool, false, ◌||◌, Option, none, some, List, [], ◌∷◌, ◌++◌, Text, codes, is_empty, length,
  as_bytes, ltb, if◌then◌else◌,
}
use conxian_nexus.Prelude.Decimal.{show_ℕ}
use conxian_nexus.Prelude.Result.{Result, ok, err}
use conxian_nexus.State.Crypto.{Bytes, Crypto}
use conxian_nexus.Api.Http.{StatusCode, forbidden, unauthorized, internal_server_error}
use conxian_nexus.Prelude.Dict.{has_text}
use conxian_nexus.Admin.Auth.{Refusal}

-- `k256::ecdsa`
pub record Ecdsa : Type 1 where
  pub Signature : Type 0
  pub VerifyingKey : Type 0
  pub from_der : Bytes → Option Signature
  pub from_sec1_bytes : Bytes → Option VerifyingKey
  pub verify : VerifyingKey → Bytes → Signature → Bool

pub record ReleaseApprovalRequest : Type 0 where
  pub artifact_id : Text
  pub requested_by : Text
  pub second_approver : Option Text
  pub signatures : Option (List Text)
  pub notes : Option Text

pub record ReleaseDecisionRequest : Type 0 where
  pub second_approver : Option Text
  pub signatures : Option (List Text)
  pub artifact_id : Text
  pub decision : Text
  pub actor_id : Text
  pub notes : Option Text

pub record GovernanceDecisionRequest : Type 0 where
  pub second_approver : Option Text
  pub signatures : Option (List Text)
  pub action_id : Text
  pub decision : Text
  pub actor_id : Text
  pub notes : Option Text

pub record AdminLoginRequest : Type 0 where
  pub session_name : Text
  pub signatures : Option (List Text)
  pub second_approver : Option Text

-- What the four `impl DualSignatureRequest` give: the message and the signatures.
pub record DualSignatureRequest : Type 0 where
  pub approval_message : Text
  pub signatures : Option (List Text)

unfoldable pub release_approval : ReleaseApprovalRequest → DualSignatureRequest
release_approval r = record {
  approval_message = codes "approve_release:" ++ (r.artifact_id ++ b':' ∷ r.requested_by);
  signatures = r.signatures;
}

unfoldable pub release_decision : ReleaseDecisionRequest → DualSignatureRequest
release_decision r = record {
  approval_message =
      codes "release_decision:" ++ (r.artifact_id ++ b':' ∷ (r.decision ++ b':' ∷ r.actor_id));
  signatures = r.signatures;
}

unfoldable pub governance_decision : GovernanceDecisionRequest → DualSignatureRequest
governance_decision r = record {
  approval_message =
      codes "governance_decision:" ++ (r.action_id ++ b':' ∷ (r.decision ++ b':' ∷ r.actor_id));
  signatures = r.signatures;
}

unfoldable pub admin_login : AdminLoginRequest → DualSignatureRequest
admin_login r = record {
  approval_message = codes "admin_login:" ++ r.session_name;
  signatures = r.signatures;
}

-- `.iter().collect::<HashSet<_>>()`
unfoldable pub unique : List Text → List Text
unfolding has_text
unique [] = []
unique (t ∷ ts) = let rest = unique ts in if has_text ts t then rest else t ∷ rest

abbrev refuse : StatusCode → Text → Text → Refusal
refuse status error message = record {
  status = status;
  error = error;
  description = some message;
  www_authenticate = none;
}

abbrev pub signatures_of : Option (List Text) → List Text
signatures_of none = []
signatures_of (some sigs) = sigs

module _ (c : Crypto) (ecdsa : Ecdsa) where
  open c use {hex_decode}
  open ecdsa use {Signature, from_der, from_sec1_bytes, verify}

  -- A key that cannot be read is passed over.
  unfoldable pub verified_by : Text → Bytes → Signature → Bool
  verified_by pk_hex msg signature = elim (hex_decode pk_hex) [
    | none ↦ false
    | some pk_bytes ↦ elim (from_sec1_bytes pk_bytes) [
      | none ↦ false
      | some vk ↦ verify vk msg signature
    ]
  ]

  unfoldable pub verified_by_any : List Text → Bytes → Signature → Bool
  unfolding verified_by
  verified_by_any [] msg signature = false
  verified_by_any (pk_hex ∷ keys) msg signature =
      verified_by pk_hex msg signature || verified_by_any keys msg signature

  -- One signature text: it is read, and some key verifies it.
  unfoldable pub verified : List Text → Bytes → Text → Bool
  unfolding verified_by_any
  verified keys msg sig_hex = elim (hex_decode sig_hex) [
    | none ↦ false
    | some sig_bytes ↦ elim (from_der sig_bytes) [
      | none ↦ false
      | some signature ↦ verified_by_any keys msg signature
    ]
  ]

  -- The loop over the signatures.
  unfoldable pub verified_count : List Text → Bytes → List Text → ℕ
  unfolding verified
  verified_count keys msg [] = 0
  verified_count keys msg (s ∷ sigs) =
      let rest = verified_count keys msg sigs in if verified keys msg s then suc rest else rest

  -- The first argument is `cfg!(debug_assertions)`.
  unfoldable pub validate_dual_signature :
      Bool → List Text → DualSignatureRequest → Result (Unit {0}) Refusal
  unfolding verified_count unique
  validate_dual_signature debug keys request =
      let sigs = unique (signatures_of request.signatures) in
      let count = verified_count keys (as_bytes request.approval_message) sigs in
      if ltb (length sigs) 2
      then err (
          refuse forbidden (codes "insufficient_approvals") (
            codes
              "At least two unique cryptographic signatures are required for this action. Found: "
            ++ show_ℕ (length sigs)))
      else if is_empty keys
      then (if debug
          then ok tt
          else err (
              refuse internal_server_error (codes "misconfigured")
                (codes "ADMIN_PUBLIC_KEYS not configured.")))
      else if ltb count 2
      then err (
          refuse unauthorized (codes "cryptographic_verification_failed") (
            codes "Only "
            ++ (show_ℕ count
                ++ codes
                    " of 2 required signatures verified against trusted admin_public_keys (NIP-004).")))
      else ok tt
