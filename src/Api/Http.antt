-- ===== src/Api/Http.antt =====
-- What the handlers take from `axum` and `serde_json`: status codes, and JSON values by the methods
-- that the code calls. The JSON library is a parameter.
use conxian_nexus.Prelude.{Bool, Option, List, Text}

pub data StatusCode : Type 0 where
  success created accepted bad_request unauthorized payment_required forbidden : StatusCode
  not_found conflict internal_server_error not_implemented bad_gateway service_unavailable :
      StatusCode

-- `serde_json::Value`
pub record JsonLib : Type 1 where
  pub Value : Type 0
  pub get : Value → Text → Option Value
  pub as_array : Value → Option (List Value)
  pub as_str : Value → Option Text
  pub is_object : Value → Bool
  pub Float : Type 0
  pub as_f64 : Value → Option Float
