-- ===== src/Settlement/PolicyLaws.antt =====
-- What the routing policy of src/api/settlement.rs lets through.
use conxian_nexus.Prelude.{
  Bool, true, false, not, Option, none, some, Text, is_empty, ◌≡◌, ◌↔◌, refl, sym, ap, codes, arith,
}
use conxian_nexus.Prelude.Result.{Result, ok, ok_or, >>=-eq-ok, ok_inj}
use conxian_nexus.Settlement.Policy.{
  RoutingSystem, ibc, hyperlane, layer_zero_v2, wormhole_ntt, axelar_gmp, TrustTier, t1, t2, t3, t4,
  VerificationClass, light_client, external_quorum, app_defined_multiverifier, shared_pos,
  parse_system, required_verification_class, allowed_tiers, parse_tier, tier_eq, parse_class,
  class_eq, is_ibc, contains_tier,
}
use mathlib.Core.Path.{subst}
use mathlib.Core.Path.{subst}
use conxian_nexus.Settlement.Validate.{
  RoutingPolicyMetadata, RoutingPolicyBlock, RawRoutingPolicyMetadata, require_non_empty_field,
  optional_non_empty_field, parse_requested_tier, block_if, validate_raw, check_requested, enforce,
}
use conxian_nexus.Api.Http.{JsonLib}
use conxian_nexus.Settlement.Extract.{
  parse_raw, extract_routing_policy, validate_routing_policy_metadata,
}

-- The approved combinations, written out: system, class, tier.
pub data Approved : RoutingSystem → VerificationClass → TrustTier → Type 0 where
  ibc_t1 : Approved ibc light_client t1
  ibc_t2 : Approved ibc light_client t2
  hyperlane_t2 : Approved hyperlane app_defined_multiverifier t2
  hyperlane_t3 : Approved hyperlane app_defined_multiverifier t3
  layer_zero_t2 : Approved layer_zero_v2 external_quorum t2
  layer_zero_t3 : Approved layer_zero_v2 external_quorum t3
  wormhole_t2 : Approved wormhole_ntt external_quorum t2
  wormhole_t3 : Approved wormhole_ntt external_quorum t3
  axelar_t2 : Approved axelar_gmp shared_pos t2
  axelar_t3 : Approved axelar_gmp shared_pos t3

-- The tier that a request asks for is the tier, or there is none.
unfoldable pub AsRequested : Option TrustTier → TrustTier → Type 0
AsRequested none tier = Unit
AsRequested (some requested) tier = requested ≡ tier

tier_eq_sound : (a b : TrustTier) → tier_eq a b ≡ true → a ≡ b
unfolding tier_eq
tier_eq_sound a b h = ground arith

class_eq_sound : (a b : VerificationClass) → class_eq a b ≡ true → a ≡ b
unfolding class_eq
class_eq_sound a b h = ground arith

contains_tier-Approved :
    (s : RoutingSystem) (t : TrustTier)
    → contains_tier (allowed_tiers s) t ≡ true
    → Approved s (required_verification_class s) t
unfolding contains_tier allowed_tiers required_verification_class tier_eq
contains_tier-Approved ibc t1 h = ibc_t1
contains_tier-Approved ibc t2 h = ibc_t2
contains_tier-Approved ibc t3 h = cc
contains_tier-Approved ibc t4 h = cc
contains_tier-Approved hyperlane t1 h = cc
contains_tier-Approved hyperlane t2 h = hyperlane_t2
contains_tier-Approved hyperlane t3 h = hyperlane_t3
contains_tier-Approved hyperlane t4 h = cc
contains_tier-Approved layer_zero_v2 t1 h = cc
contains_tier-Approved layer_zero_v2 t2 h = layer_zero_t2
contains_tier-Approved layer_zero_v2 t3 h = layer_zero_t3
contains_tier-Approved layer_zero_v2 t4 h = cc
contains_tier-Approved wormhole_ntt t1 h = cc
contains_tier-Approved wormhole_ntt t2 h = wormhole_t2
contains_tier-Approved wormhole_ntt t3 h = wormhole_t3
contains_tier-Approved wormhole_ntt t4 h = cc
contains_tier-Approved axelar_gmp t1 h = cc
contains_tier-Approved axelar_gmp t2 h = axelar_t2
contains_tier-Approved axelar_gmp t3 h = axelar_t3
contains_tier-Approved axelar_gmp t4 h = cc

-- What `enforce` has compared.
enforce_checks :
    (s : RoutingSystem) (t : TrustTier) (k : VerificationClass) (requested : Option TrustTier)
    → enforce s t k requested ≡ ok tt
    → (class_eq k (required_verification_class s) ≡ true)
      × (contains_tier (allowed_tiers s) t ≡ true)
unfolding enforce
enforce_checks s t k requested h = ground arith

requested_of :
    (requested : Option TrustTier) (t : TrustTier)
    → check_requested requested t ≡ ok tt
    → AsRequested requested t
unfolding check_requested AsRequested
requested_of none t h = tt
requested_of (some a) b h = tier_eq_sound a b ground arith

enforce_requested :
    (s : RoutingSystem) (t : TrustTier) (k : VerificationClass) (requested : Option TrustTier)
    → enforce s t k requested ≡ ok tt
    → check_requested requested t ≡ ok tt
unfolding enforce
enforce_requested s t k requested h = ground arith

enforce_class :
    (s : RoutingSystem) (t : TrustTier) (k : VerificationClass) (requested : Option TrustTier)
    → enforce s t k requested ≡ ok tt
    → Approved s k t
enforce_class s t k requested h =
    let (e, c) = enforce_checks s t k requested h in
    subst (λ j. Approved s j t) (sym (class_eq_sound k (required_verification_class s) e))
      (contains_tier-Approved s t c)

tier_eq_refl : (a : TrustTier) → tier_eq a a ≡ true
unfolding tier_eq
tier_eq_refl a = ground arith

requested_ok :
    (requested : Option TrustTier) (t : TrustTier)
    → AsRequested requested t
    → check_requested requested t ≡ ok tt
unfolding check_requested AsRequested
requested_ok none t r = refl
requested_ok (some a) t r = rw (r, tier_eq_refl t) refl

Approved-enforce :
    {s : RoutingSystem} {k : VerificationClass} {t : TrustTier}
    → Approved s k t
    → enforce s t k none ≡ ok tt
unfolding enforce check_requested tier_eq class_eq required_verification_class is_ibc contains_tier
    allowed_tiers
Approved-enforce ibc_t1 = refl
Approved-enforce ibc_t2 = refl
Approved-enforce hyperlane_t2 = refl
Approved-enforce hyperlane_t3 = refl
Approved-enforce layer_zero_t2 = refl
Approved-enforce layer_zero_t3 = refl
Approved-enforce wormhole_t2 = refl
Approved-enforce wormhole_t3 = refl
Approved-enforce axelar_t2 = refl
Approved-enforce axelar_t3 = refl

-- The policy rules let a system, trust tier and verification class through exactly when they are
-- one of the ten combinations of the approved table and the request names no other tier.
pub enforce-Approved :
    (s : RoutingSystem) (t : TrustTier) (k : VerificationClass) (requested : Option TrustTier)
    → (enforce s t k requested ≡ ok tt) ↔ (Approved s k t × AsRequested requested t)
unfolding enforce check_requested
enforce-Approved s t k requested = (
  (λ h. (
    enforce_class s t k requested h,
    requested_of requested t (enforce_requested s t k requested h),
  )),
  (λ (a, r). rw (requested_ok requested t r, check_requested) (Approved-enforce a)),
)

require_non_empty_field-filled :
    (value : Option Text) (name : Text) (r : Text)
    → require_non_empty_field value name ≡ ok r
    → is_empty r ≡ false
unfolding require_non_empty_field
require_non_empty_field-filled none name r h = cc
require_non_empty_field-filled (some v) name r h = ground arith

ok_or-some : {A E : Type 0} (o : Option A) (e : E) {a : A} → ok_or o e ≡ ok a → o ≡ some a
ok_or-some none e h = cc
ok_or-some (some b) e h = ap some (ok_inj h)

block_if-passed :
    (b : Bool) (block : RoutingPolicyBlock) → block_if (not b) block ≡ ok tt → b ≡ true
block_if-passed true block h = refl
block_if-passed false block h = cc

-- What an accepted policy satisfies.
unfoldable pub IsPolicy : RoutingPolicyMetadata → Type 0
IsPolicy policy =
    Approved policy.system policy.verification_class policy.trust_tier
    × AsRequested policy.requested_trust_tier policy.trust_tier
    × (is_empty policy.policy_version ≡ false)
    × (is_empty policy.evidence_hash ≡ false)

-- When validate_raw accepts the fields of a policy, the result is an approved combination, for the
-- requested tier if one is requested, with a version and an evidence hash that are not empty.
pub validate_raw-IsPolicy :
    (raw : RawRoutingPolicyMetadata) (policy : RoutingPolicyMetadata)
    → validate_raw raw ≡ ok policy
    → IsPolicy policy
unfolding validate_raw IsPolicy
validate_raw-IsPolicy raw policy h =
    let (system_raw, e1, h1) =
      >>=-eq-ok (require_non_empty_field raw.system (codes "system")) _ h in
    let (tier_raw, e2, h2) =
      >>=-eq-ok (require_non_empty_field raw.trust_tier (codes "trust_tier")) _ h1 in
    let (class_raw, e3, h3) =
      >>=-eq-ok (require_non_empty_field raw.verification_class (codes "verification_class")) _
        h2 in
    let (version, e4, h4) =
      >>=-eq-ok (require_non_empty_field raw.policy_version (codes "policy_version")) _ h3 in
    let (hash, e5, h5) =
      >>=-eq-ok (require_non_empty_field raw.evidence_hash (codes "evidence_hash")) _ h4 in
    let (requested_raw, e6, h6) =
      >>=-eq-ok (optional_non_empty_field raw.requested_trust_tier (codes "requested_trust_tier")) _
        h5 in
    let (system, e7, h7) = >>=-eq-ok (ok_or (parse_system system_raw) _) _ h6 in
    let (tier, e8, h8) = >>=-eq-ok (ok_or (parse_tier tier_raw) _) _ h7 in
    let (class, e9, h9) = >>=-eq-ok (ok_or (parse_class class_raw) _) _ h8 in
    let (requested, e10, h10) = >>=-eq-ok (parse_requested_tier requested_raw) _ h9 in
    let (done, e11, h11) = >>=-eq-ok (enforce system tier class requested) _ h10 in
    let (approved, asked) = (enforce-Approved system tier class requested).0 e11 in
    subst IsPolicy (ok_inj h11) (
      approved,
      asked,
      require_non_empty_field-filled raw.policy_version (codes "policy_version") version e4,
      require_non_empty_field-filled raw.evidence_hash (codes "evidence_hash") hash e5,
    )

-- `validate_routing_policy_metadata` accepts a payload only with a routing policy that is a JSON
-- object, and what it returns is an approved combination with a version and evidence.
module _ (json : JsonLib) (from_value : json.Value → Result RawRoutingPolicyMetadata Text) where
  open json use {Value, get, is_object}

  -- When validate_routing_policy_metadata accepts a payload, the payload has a routing policy that
  -- is a JSON object, and the result is an approved combination, for the requested tier if one is
  -- requested, with a version and an evidence hash that are not empty.
  pub validate_routing_policy_metadata-IsPolicy :
      (payload : Value) (policy : RoutingPolicyMetadata)
      → validate_routing_policy_metadata json from_value payload ≡ ok policy
      → ((v : Value) × (extract_routing_policy json from_value payload ≡ some v)
          × (is_object v ≡ true))
        × IsPolicy policy
  unfolding validate_routing_policy_metadata
  validate_routing_policy_metadata-IsPolicy payload policy h =
      let (v, e1, h1) = >>=-eq-ok (ok_or (extract_routing_policy json from_value payload) _) _ h in
      let (done, e2, h2) = >>=-eq-ok (block_if (not (is_object v)) _) _ h1 in
      let (raw, e3, h3) = >>=-eq-ok (parse_raw (from_value v)) _ h2 in
      (
        (v, ok_or-some _ _ e1, block_if-passed (is_object v) _ e2),
        validate_raw-IsPolicy raw policy h3,
      )
