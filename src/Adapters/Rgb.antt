-- ===== src/Adapters/Rgb.antt =====
-- `RGBAdapter` of src/executor/rgb.rs. The set of known contracts is a list.
use conxian_nexus.Prelude.{
  ℕ, not, Option, none, some, List, Text, codes, starts_with, contains, utf8_len, ltb,
  if◌then◌else◌,
}
use conxian_nexus.Prelude.Result.{Result, ok, err, ◌>>=◌}
use conxian_nexus.Prelude.Dict.{has_text}

pub data RgbSchema : Type 0 where
  nia lnpbp unknown : RgbSchema

pub data RgbRolloutMode : Type 0 where
  disabled shadow active : RgbRolloutMode

-- `impl fmt::Display`
unfoldable pub schema_text : RgbSchema → Text
schema_text nia = codes "NIA"
schema_text lnpbp = codes "LNPBP"
schema_text unknown = codes "Unknown"

unfoldable pub mode_text : RgbRolloutMode → Text
mode_text disabled = codes "disabled"
mode_text shadow = codes "shadow"
mode_text active = codes "active"

pub record RgbContractMetadata : Type 0 where
  pub contract_id : Text
  pub status : Text
  pub mode : RgbRolloutMode
  pub schema : RgbSchema
  pub supply_total : Option ℕ
  pub issued_at_height : Option ℕ

pub record RgbAdapter : Type 0 where
  pub mode : RgbRolloutMode
  pub known_contracts : List Text

unfoldable pub validate_contract_id : Text → Result RgbSchema Text
validate_contract_id contract_id =
    if not (starts_with contract_id (codes "rgb:"))
    then err (codes "Invalid RGB contract ID prefix: expected 'rgb:'")
    else if ltb (utf8_len contract_id) 40
    then err (codes "Invalid RGB contract ID length: too short")
    else if contains contract_id (codes "_nia")
    then ok nia
    else if contains contract_id (codes "_lnpbp")
    then ok lnpbp
    else ok unknown

unfoldable pub look_up : RgbAdapter → Text → RgbSchema → Result (Option RgbContractMetadata) Text
look_up adapter contract_id schema = elim adapter.mode [
  | disabled ↦ err (codes "RGB adapter is disabled")
  | shadow ↦ ok (
      some (record {
        contract_id = contract_id;
        status = codes "verified";
        mode = shadow;
        schema = schema;
        supply_total = some 100_000_000;
        issued_at_height = some 840_000;
      }))
  | active ↦
      if has_text adapter.known_contracts contract_id
      then ok (
          some (record {
            contract_id = contract_id;
            status = codes "active";
            mode = active;
            schema = schema;
            supply_total = some 100_000_000;
            issued_at_height = some 840_000;
          }))
      else ok none
]

unfoldable pub lookup_contract : RgbAdapter → Text → Result (Option RgbContractMetadata) Text
lookup_contract adapter contract_id = do
  schema ← validate_contract_id contract_id
  look_up adapter contract_id schema
