-- ===== src/Route.antt =====
-- A route of a device: what `REGISTER_DEVICE_ROUTE` of api.cpp registers.
pub mod Tables
use esp32_idf_ascom_alpaca.Base.{ℕ, ◌∷◌, ◌++◌}
use esp32_idf_ascom_alpaca.Base.Text.{Bytes, print_ℕ, codes}
use esp32_idf_ascom_alpaca.Platform.{Platform}
use Prim.Native.String.{String}
use esp32_idf_ascom_alpaca.Request.Answers.{Handler}

pub data HttpMethod : Type 0 where
  http_get http_put : HttpMethod

-- One line `REGISTER_DEVICE_ROUTE(device_type, endpoint, device_number, http_method, name)`.
pub record Route (W : Type 0) : Type 0 where
  pub device_type : Bytes
  pub endpoint : Bytes
  pub method : HttpMethod
  pub handler : Platform → Handler W

-- `sprintf(uri, "/api/v1/%s/%d/%s", device_type, device_number, endpoint)`
unfoldable pub route_uri : Bytes → ℕ → Bytes → Bytes
unfolding print_ℕ
route_uri type_name number endpoint =
    codes "/api/v1/" ++ (type_name ++ (b'/' ∷ (print_ℕ number ++ (b'/' ∷ endpoint))))

abbrev pub get : {W : Type 0} → Bytes → String → (Platform → Handler W) → Route W
get type_name endpoint handler = record {
  device_type = type_name;
  endpoint = codes endpoint;
  method = http_get;
  handler = handler;
}

abbrev pub put : {W : Type 0} → Bytes → String → (Platform → Handler W) → Route W
put type_name endpoint handler = record {
  device_type = type_name;
  endpoint = codes endpoint;
  method = http_put;
  handler = handler;
}
