-- ===== src/Tests/Json.antt =====
-- A JSON library to run the code on: arrays and objects are chains.
use conxian_nexus.Prelude.{
  ℕ, Bool, true, false, Option, none, some, List, [], ◌∷◌, Text, text_eq, if◌then◌else◌,
}
use conxian_nexus.Api.Http.{JsonLib}

pub data Json : Type 0 where
  text : Text → Json
  number : ℕ → Json
  no_items : Json
  item : Json → Json → Json
  no_fields : Json
  field : Text → Json → Json → Json

abbrev pub get : Json → Text → Option Json
get (field n v rest) name = let found = get rest name in if text_eq n name then some v else found
get v name = none

abbrev pub as_array : Json → Option (List Json)
as_array no_items = some []
as_array (item v rest) = elim (as_array rest) [ none ↦ none | some vs ↦ some (v ∷ vs) ]
as_array v = none

abbrev pub as_str : Json → Option Text
as_str (text s) = some s
as_str v = none

abbrev pub is_object : Json → Bool
is_object no_fields = true
is_object (field n v rest) = true
is_object v = false

abbrev pub as_f64 : Json → Option ℕ
as_f64 (number n) = some n
as_f64 v = none

abbrev pub toy_json : JsonLib
toy_json = record {
  Value = Json;
  get = get;
  as_array = as_array;
  as_str = as_str;
  is_object = is_object;
  Float = ℕ;
  as_f64 = as_f64;
}
