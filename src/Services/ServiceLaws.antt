-- ===== src/Services/ServiceLaws.antt =====
-- What src/api/identity.rs and src/api/dlc.rs answer.
use conxian_nexus.Prelude.{
  ◌≡◌, refl, ◌⊎◌, inl, inr, Bool, true, false, none, some, List, Text, codes, text_eq, text_eq_iff,
  is_empty, Bool-cases,
}
use conxian_nexus.Prelude.Result.{Result, ok, err}
use conxian_nexus.Api.Http.{success, created}
use conxian_nexus.Services.Identity.{
  IdentityResolveRequest, Fetched, unreachable, missing, refused, unreadable, parsed, resolve_bns,
  resolve_ens, resolve_worldid, resolve_identity_handler,
}
use conxian_nexus.Services.Dlc.{
  DlcBondRequest, DlcBondResponse, BondHash, Answer, validate_dlc_request, build_announcement_data,
  persist_bond, create_dlc_bond_handler,
}

-- What is known of a bond that was answered as created.
pub record IsCreated (sign : Text → Result Text Text) (payload : DlcBondRequest) (answer : Answer)
    : Type 0 where
  pub announcement : Text
  pub response : DlcBondResponse
  pub valid : validate_dlc_request payload ≡ ok tt
  pub signed : sign (build_announcement_data payload) ≡ ok announcement
  pub answered : answer.1 ≡ ok response
  pub carried : response.oracle_announcement ≡ announcement

persist_bond-IsCreated :
    (sign : Text → Result Text Text) (connects answers : Bool) (uuid : Text)
    (payload : DlcBondRequest) (announcement : Text) (bonds : List (Text × BondHash))
    → validate_dlc_request payload ≡ ok tt
    → sign (build_announcement_data payload) ≡ ok announcement
    → (persist_bond connects answers uuid payload announcement bonds).1.0 ≡ created
    → IsCreated sign payload (persist_bond connects answers uuid payload announcement bonds).1
unfolding persist_bond
persist_bond-IsCreated sign true answers uuid payload announcement bonds valid signed h = record {
  announcement = announcement;
  response = _;
  valid = valid;
  signed = signed;
  answered = refl;
  carried = refl;
}
persist_bond-IsCreated sign false answers uuid payload announcement bonds valid signed h = cc

-- A bond that is answered as created is valid, and its announcement is signed.
pub create_dlc_bond_handler-IsCreated :
    (sign : Text → Result Text Text) (connects answers : Bool) (uuid : Text)
    (payload : DlcBondRequest) (bonds : List (Text × BondHash))
    → (create_dlc_bond_handler sign connects answers uuid payload bonds).1.0 ≡ created
    → IsCreated sign payload (create_dlc_bond_handler sign connects answers uuid payload bonds).1
unfolding create_dlc_bond_handler
create_dlc_bond_handler-IsCreated sign connects answers uuid payload bonds h =
    go (validate_dlc_request payload) refl (sign (build_announcement_data payload)) refl
  where
    go :
        (v : Result (Unit {0}) Text)
        → validate_dlc_request payload ≡ v
        → (a : Result Text Text) → sign (build_announcement_data payload) ≡ a
        → IsCreated sign payload
            (create_dlc_bond_handler sign connects answers uuid payload bonds).1
    go (err e) valid a signed = absurd (cc (rw (create_dlc_bond_handler, valid) at h))
    go (ok done) valid (err e) signed =
        absurd (cc (rw (create_dlc_bond_handler, valid, signed) at h))
    go (ok done) valid (ok announcement) signed =
        rw (create_dlc_bond_handler, valid, signed)
          (persist_bond-IsCreated sign connects answers uuid payload announcement bonds valid signed
            (rw (create_dlc_bond_handler, valid, signed) at h))

-- An address is answered only as the provider of the protocol gave it.
pub record IsResolved (payload : IdentityResolveRequest) (bns ens : Fetched) (address : Text)
    : Type 0 where
  pub given :
      ((payload.protocol ≡ codes "BNS") × (bns ≡ parsed (some address)))
      ⊎ ((payload.protocol ≡ codes "ENS") × (ens ≡ parsed (some address)))

resolve_bns-success :
    (payload : IdentityResolveRequest) (bns : Fetched)
    → (resolve_bns payload bns).0 ≡ success
    → bns ≡ parsed (some (resolve_bns payload bns).1.address)
unfolding resolve_bns
resolve_bns-success payload unreachable h = cc
resolve_bns-success payload missing h = cc
resolve_bns-success payload refused h = cc
resolve_bns-success payload unreadable h = cc
resolve_bns-success payload (parsed none) h = cc
resolve_bns-success payload (parsed (some address)) h = refl

resolve_ens-success :
    (payload : IdentityResolveRequest) (ens : Fetched)
    → (resolve_ens payload ens).0 ≡ success
    → ens ≡ parsed (some (resolve_ens payload ens).1.address)
unfolding resolve_ens
resolve_ens-success payload unreachable h = cc
resolve_ens-success payload missing h = cc
resolve_ens-success payload refused h = cc
resolve_ens-success payload unreadable h = cc
resolve_ens-success payload (parsed none) h = cc
resolve_ens-success payload (parsed (some address)) h = refl

pub resolve_identity_handler-IsResolved :
    (app_id : Text) (payload : IdentityResolveRequest) (bns ens : Fetched)
    → (resolve_identity_handler app_id payload bns ens).0 ≡ success
    → IsResolved payload bns ens (resolve_identity_handler app_id payload bns ens).1.address
unfolding resolve_identity_handler resolve_worldid
resolve_identity_handler-IsResolved app_id payload bns ens h =
    elim (Bool-cases (text_eq payload.protocol (codes "BNS"))) [
      | inl e ↦
          rw (resolve_identity_handler, e)
            (record {
              given = inl (
                (text_eq_iff payload.protocol (codes "BNS")).0 e,
                resolve_bns-success payload bns (rw (resolve_identity_handler, e) at h),
              );
            })
      | inr e ↦ elim (Bool-cases (text_eq payload.protocol (codes "ENS"))) [
        | inl f ↦
            rw (resolve_identity_handler, e, f)
              (record {
                given = inr (
                  (text_eq_iff payload.protocol (codes "ENS")).0 f,
                  resolve_ens-success payload ens (rw (resolve_identity_handler, e, f) at h),
                );
              })
        | inr f ↦ elim (Bool-cases (text_eq payload.protocol (codes "WorldID"))) [
          | inr g ↦ absurd (cc (rw (resolve_identity_handler, e, f, g) at h))
          | inl g ↦ elim (Bool-cases (is_empty app_id)) [
            | inl k ↦ absurd (cc (rw (resolve_identity_handler, e, f, g, resolve_worldid, k) at h))
            | inr k ↦ absurd (cc (rw (resolve_identity_handler, e, f, g, resolve_worldid, k) at h))
          ]
        ]
      ]
    ]
