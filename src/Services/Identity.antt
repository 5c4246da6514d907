-- ===== src/Services/Identity.antt =====
-- `resolve_identity_handler` of src/api/identity.rs. What the provider answers is an argument.
use conxian_nexus.Prelude.{
  Bool, false, Option, none, some, [], Text, codes, text_eq, is_empty, if◌then◌else◌,
}
use conxian_nexus.Api.Http.{
  StatusCode, success, bad_request, not_found, not_implemented, bad_gateway,
}

pub record IdentityResolveRequest : Type 0 where
  pub name : Text
  pub protocol : Text

pub record IdentityResolveResponse : Type 0 where
  pub address : Text
  pub protocol : Text
  pub proof_of_personhood : Bool

-- What a GET gives: no answer, the status 404, another status that is no success, a body that cannot
-- be read, or its field `address`, which only the second provider may leave out.
pub data Fetched : Type 0 where
  unreachable missing refused unreadable : Fetched
  parsed : Option Text → Fetched

abbrev answer : IdentityResolveRequest → StatusCode → Text → StatusCode × IdentityResolveResponse
answer payload status address =
    (status, record { address = address; protocol = payload.protocol; proof_of_personhood = false })

unfoldable pub resolve_bns : IdentityResolveRequest → Fetched → StatusCode × IdentityResolveResponse
resolve_bns payload unreachable = answer payload bad_gateway []
resolve_bns payload missing = answer payload not_found []
resolve_bns payload refused = answer payload bad_gateway []
resolve_bns payload unreadable = answer payload bad_gateway []
resolve_bns payload (parsed none) = answer payload bad_gateway []
resolve_bns payload (parsed (some address)) = answer payload success address

unfoldable pub resolve_ens : IdentityResolveRequest → Fetched → StatusCode × IdentityResolveResponse
resolve_ens payload unreachable = answer payload bad_gateway []
resolve_ens payload missing = answer payload not_found []
resolve_ens payload refused = answer payload not_found []
resolve_ens payload unreadable = answer payload bad_gateway []
resolve_ens payload (parsed none) = answer payload not_found []
resolve_ens payload (parsed (some address)) = answer payload success address

-- The first argument is the field `worldid_app_id` of the configuration.
unfoldable pub resolve_worldid :
    Text → IdentityResolveRequest → StatusCode × IdentityResolveResponse
resolve_worldid app_id payload =
    if is_empty app_id then answer payload bad_gateway [] else answer payload not_implemented []

-- The answers of the two providers, of which at most one is asked.
unfoldable pub resolve_identity_handler :
    Text → IdentityResolveRequest → Fetched → Fetched → StatusCode × IdentityResolveResponse
unfolding resolve_bns resolve_ens resolve_worldid
resolve_identity_handler app_id payload bns ens =
    if text_eq payload.protocol (codes "BNS")
    then resolve_bns payload bns
    else if text_eq payload.protocol (codes "ENS")
    then resolve_ens payload ens
    else if text_eq payload.protocol (codes "WorldID")
    then resolve_worldid app_id payload
    else answer payload bad_request []
