-- ===== src/Examples/Roofs.antt =====
-- The example program and its roof, at concrete starts and requests.
use esp32_idf_ascom_alpaca.Base.{
  ◌≡◌, refl, some, none, [], true, negsuc, ltb, if◌then◌else◌, get_elem?, length, arith, ◌++◌, pos,
}
use esp32_idf_ascom_alpaca.RollOffRoof.{AzimuthUnits, RollOffRoof, roof_device}
use esp32_idf_ascom_alpaca.App.{Boot, RegisterHandler, HasSlots, app_main, app_server, aborted}
use esp32_idf_ascom_alpaca.Server.{Server, new_api, esp_ok, push_all, push_back}
use esp32_idf_ascom_alpaca.Base.Text.{Bytes, codes, print_ℕ}
use esp32_idf_ascom_alpaca.Route.{route_uri}
use esp32_idf_ascom_alpaca.Examples.{platform}
use esp32_idf_ascom_alpaca.Request.{HttpdReq}
use esp32_idf_ascom_alpaca.Device.Names.{uri_device_type}
use esp32_idf_ascom_alpaca.Device.{ShutterState, dome, device_type, kind_type, type_index}
use esp32_idf_ascom_alpaca.App.Starts.{app_main-aborted}
use esp32_idf_ascom_alpaca.Handler.Dome.{
  handle_put_dome_findhome, handle_put_dome_closeshutter, handle_get_dome_shutterstatus,
  handle_get_dome_athome, handle_put_dome_openshutter,
}
use esp32_idf_ascom_alpaca.RollOffRoof.Session.{Remembers, roof_session}
use esp32_idf_ascom_alpaca.Platform.{int, bool, Platform, Value}
use esp32_idf_ascom_alpaca.Request.Answers.{Handler}

abbrev units : AzimuthUnits
units = record { of_centi_degrees = λ n. n; to_centi_degrees = λ x. x }

abbrev boot : Boot
boot = record {
  version = some (codes "1.2");
  httpd_started = true;
  handle_made = true;
  queue_made = true;
  config_made = true;
  number = 0;
  unique_id = [];
  azimuth = 77;
  shutter = ShutterState.error;
}

-- Looks at the slots only.
unfoldable counts_slots : RegisterHandler RollOffRoof
counts_slots max made g = if ltb (length made) max then esp_ok else negsuc 0

counts_slots-HasSlots : HasSlots counts_slots
unfolding counts_slots
counts_slots-HasSlots = record {
  full = λ max made g h. ground arith;
  free = λ max made g h apart. ground arith;
}

app_main-aborted_example : app_main platform units counts_slots boot ≡ aborted
app_main-aborted_example = app_main-aborted platform units boot counts_slots counts_slots-HasSlots

abbrev site : Server RollOffRoof
site = app_server units boot (codes "1.2")

roof_there : get_elem? (site.api.devices dome) 0 ≡ some (roof_device units 0 [])
unfolding app_server new_api push_all push_back device_type kind_type roof_device type_index
roof_there = refl

-- `/api/v1/dome/0/<endpoint>` with no parameter.
abbrev dome_request : Bytes → HttpdReq
dome_request endpoint = record {
  uri = codes "/api/v1/dome/0/" ++ endpoint;
  query = [];
  content_len = 0;
  received = none;
  content_type = [];
}

dome_uri :
    (endpoint : Bytes)
    → (dome_request endpoint).uri ≡ route_uri (uri_device_type dome 32) 0 endpoint
unfolding route_uri uri_device_type print_ℕ
dome_uri endpoint = refl

-- One request to open, close or turn the roof home, and one that reads its state.
abbrev AnswersOnSite :
    (Platform → Handler RollOffRoof) → (Platform → Handler RollOffRoof) → Value → Type 0
AnswersOnSite =
    Remembers platform units 0 [] 0 (omega arith) site roof_there
      (dome_request (codes "openshutter")) (dome_request (codes "shutterstatus")) (omega arith)
      (omega arith)

roof_session_example :
    AnswersOnSite handle_put_dome_openshutter handle_get_dome_shutterstatus (int (pos 0))
    × AnswersOnSite handle_put_dome_closeshutter handle_get_dome_shutterstatus (int (pos 1))
    × AnswersOnSite handle_put_dome_findhome handle_get_dome_athome (bool true)
roof_session_example =
    roof_session platform units 0 [] 0 (omega arith) site roof_there
      (dome_request (codes "openshutter")) (dome_request (codes "shutterstatus")) (omega arith)
      (omega arith) (codes "openshutter") (codes "shutterstatus") (dome_uri (codes "openshutter"))
      (dome_uri (codes "shutterstatus"))
