-- ===== src/Settlement/Policy.antt =====
-- The routing policy of src/api/settlement.rs: systems, tiers and verification classes, and how they
-- are read.
use conxian_nexus.Prelude.{
  Bool, true, false, ◌||◌, Option, none, some, List, [], ◌∷◌, map, Text, codes, text_eq, trim,
  to_ascii_lowercase, ◌==◌, if◌then◌else◌,
}

pub data RoutingSystem : Type 0 where
  ibc hyperlane layer_zero_v2 wormhole_ntt axelar_gmp : RoutingSystem

pub data TrustTier : Type 0 where
  t1 t2 t3 t4 : TrustTier

pub data VerificationClass : Type 0 where
  light_client external_quorum app_defined_multiverifier shared_pos : VerificationClass

-- `value.trim().to_ascii_lowercase().replace([' ', '-'], "_")`
unfoldable pub normalize_policy_token : Text → Text
normalize_policy_token value =
    map (λ c. if c == b' ' || c == b'-' then b'_' else c) (to_ascii_lowercase (trim value))

parse_system_token : Text → Option RoutingSystem
parse_system_token token =
    if text_eq token (codes "ibc")
    then some ibc
    else if text_eq token (codes "hyperlane")
    then some hyperlane
    else if text_eq token (codes "layerzero") || text_eq token (codes "layerzero_v2")
    then some layer_zero_v2
    else if text_eq token (codes "wormhole_ntt")
    then some wormhole_ntt
    else if text_eq token (codes "axelar_gmp")
    then some axelar_gmp
    else none

-- `RoutingSystem::parse`
unfoldable pub parse_system : Text → Option RoutingSystem
unfolding normalize_policy_token parse_system_token
parse_system value = parse_system_token (normalize_policy_token value)

-- `RoutingSystem::as_str`
unfoldable pub system_str : RoutingSystem → Text
system_str ibc = codes "IBC"
system_str hyperlane = codes "Hyperlane"
system_str layer_zero_v2 = codes "LayerZero v2"
system_str wormhole_ntt = codes "Wormhole NTT"
system_str axelar_gmp = codes "Axelar GMP"

unfoldable pub required_verification_class : RoutingSystem → VerificationClass
required_verification_class ibc = light_client
required_verification_class hyperlane = app_defined_multiverifier
required_verification_class layer_zero_v2 = external_quorum
required_verification_class wormhole_ntt = external_quorum
required_verification_class axelar_gmp = shared_pos

unfoldable pub allowed_tiers : RoutingSystem → List TrustTier
allowed_tiers ibc = t1 ∷ t2 ∷ []
allowed_tiers hyperlane = t2 ∷ t3 ∷ []
allowed_tiers layer_zero_v2 = t2 ∷ t3 ∷ []
allowed_tiers wormhole_ntt = t2 ∷ t3 ∷ []
allowed_tiers axelar_gmp = t2 ∷ t3 ∷ []

parse_tier_token : Text → Option TrustTier
parse_tier_token token =
    if text_eq token (codes "t1") || text_eq token (codes "tier1")
    then some t1
    else if text_eq token (codes "t2") || text_eq token (codes "tier2")
    then some t2
    else if text_eq token (codes "t3") || text_eq token (codes "tier3")
    then some t3
    else if text_eq token (codes "t4") || text_eq token (codes "tier4")
    then some t4
    else none

-- `TrustTier::parse`
unfoldable pub parse_tier : Text → Option TrustTier
unfolding normalize_policy_token parse_tier_token
parse_tier value = parse_tier_token (normalize_policy_token value)

unfoldable pub tier_str : TrustTier → Text
tier_str t1 = codes "T1"
tier_str t2 = codes "T2"
tier_str t3 = codes "T3"
tier_str t4 = codes "T4"

-- `==` on tiers.
unfoldable pub tier_eq : TrustTier → TrustTier → Bool
tier_eq t1 t1 = true
tier_eq t2 t2 = true
tier_eq t3 t3 = true
tier_eq t4 t4 = true
tier_eq a b = false

parse_class_token : Text → Option VerificationClass
parse_class_token token =
    if text_eq token (codes "light_client") || text_eq token (codes "lightclient")
    then some light_client
    else if text_eq token (codes "external_quorum")
    then some external_quorum
    else if text_eq token (codes "app_defined_multiverifier")
    then some app_defined_multiverifier
    else if text_eq token (codes "shared_pos")
    then some shared_pos
    else none

-- `VerificationClass::parse`
unfoldable pub parse_class : Text → Option VerificationClass
unfolding normalize_policy_token parse_class_token
parse_class value = parse_class_token (normalize_policy_token value)

unfoldable pub class_str : VerificationClass → Text
class_str light_client = codes "light_client"
class_str external_quorum = codes "external_quorum"
class_str app_defined_multiverifier = codes "app_defined_multiverifier"
class_str shared_pos = codes "shared_pos"

unfoldable pub class_eq : VerificationClass → VerificationClass → Bool
class_eq light_client light_client = true
class_eq external_quorum external_quorum = true
class_eq app_defined_multiverifier app_defined_multiverifier = true
class_eq shared_pos shared_pos = true
class_eq a b = false

unfoldable pub is_ibc : RoutingSystem → Bool
is_ibc ibc = true
is_ibc s = false

-- `tiers.contains(&tier)`
unfoldable pub contains_tier : List TrustTier → TrustTier → Bool
unfolding tier_eq
contains_tier [] tier = false
contains_tier (t ∷ tiers) tier = tier_eq t tier || contains_tier tiers tier
