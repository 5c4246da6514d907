-- ===== src/Services/Dlc.antt =====
-- src/api/dlc.rs. The signature of `lib_conxian_core` and the text of a new `Uuid` are arguments; the
-- coupon rate is not used. Redis is the hashes of the bonds.
use conxian_nexus.Prelude.{
  ℕ, ◌/◌, Bool, List, [], ◌∷◌, ◌++◌, Text, codes, trim, is_empty, ◌==◌, if◌then◌else◌,
}
use conxian_nexus.Prelude.Decimal.{show_ℕ}
use conxian_nexus.Prelude.Dict.{insert}
use conxian_nexus.Prelude.Result.{Result, ok, err}
use conxian_nexus.Api.Http.{StatusCode, created, bad_request, internal_server_error}

pub record DlcBondRequest : Type 0 where
  pub bond_id : Text
  pub principal_sbtc : ℕ
  pub expiry_height : ℕ

pub record DlcBondResponse : Type 0 where
  pub dlc_contract_id : Text
  pub status : Text
  pub oracle_announcement : Text
  pub next_coupon_height : ℕ

-- The fields of a hash `dlc_bond:…`.
pub record BondHash : Type 0 where
  pub bond_id : Text
  pub principal : ℕ
  pub status : Text
  pub announcement : Text

unfoldable pub validate_dlc_request : DlcBondRequest → Result (Unit {0}) Text
unfolding trim
validate_dlc_request payload =
    if is_empty (trim payload.bond_id)
    then err (codes "bond_id is required")
    else if payload.principal_sbtc == 0
    then err (codes "principal_sbtc must be greater than zero")
    else ok tt

unfoldable pub build_announcement_data : DlcBondRequest → Text
build_announcement_data payload =
    codes "dlc_bond_init:"
    ++ (payload.bond_id
        ++ b':' ∷ (show_ℕ payload.principal_sbtc ++ b':' ∷ show_ℕ payload.expiry_height))

unfoldable pub calculate_next_coupon_height : ℕ → ℕ
calculate_next_coupon_height expiry_height = expiry_height / 10

-- The answer: a response, or a text.
abbrev pub Answer : Type 0
Answer = StatusCode × Result DlcBondResponse Text

unfoldable pub persist_bond :
    Bool
    → Bool
    → Text
    → DlcBondRequest
    → Text
    → List (Text × BondHash)
    → List (Text × BondHash) × Answer
unfolding calculate_next_coupon_height
persist_bond connects answers uuid payload announcement bonds =
    if connects
    then (
      if answers
          then insert (codes "dlc_bond:dlc_" ++ uuid)
              (record {
                bond_id = payload.bond_id;
                principal = payload.principal_sbtc;
                status = codes "Initialized";
                announcement = announcement;
              })
              bonds
          else bonds,
      (
        created,
        ok (record {
          dlc_contract_id = codes "dlc_" ++ uuid;
          status = codes "Initialized";
          oracle_announcement = announcement;
          next_coupon_height = calculate_next_coupon_height payload.expiry_height;
        }),
      ),
    )
    else (bonds, (internal_server_error, err (codes "Redis Error")))

-- Whether Redis is reached and HSET is answered, whose error is dropped.
unfoldable pub create_dlc_bond_handler :
    (Text → Result Text Text)
    → Bool
    → Bool
    → Text
    → DlcBondRequest
    → List (Text × BondHash)
    → List (Text × BondHash) × Answer
unfolding validate_dlc_request persist_bond
create_dlc_bond_handler sign_transaction connects answers uuid payload bonds =
    elim (validate_dlc_request payload) [
      | err e ↦ (
        bonds,
        (
          bad_request,
          ok (record {
            dlc_contract_id = [];
            status = codes "Error";
            oracle_announcement = [];
            next_coupon_height = 0;
          }),
        ),
      )
      | ok done ↦ elim (sign_transaction (build_announcement_data payload)) [
        | err e ↦ (bonds, (internal_server_error, err (codes "Signing Error")))
        | ok announcement ↦ persist_bond connects answers uuid payload announcement bonds
      ]
    ]
