-- ===== src/Routes.antt =====
-- The routes of all devices: `register_routes` and `register_device_routes` of api.cpp.
--
-- A registration is a call of `httpd_register_uri_handler`. The functions here give the calls in
-- their order; a failing call stops the program (`ESP_ERROR_CHECK`).
pub mod Uri
pub mod Written
pub mod Contract
pub mod Serving
pub mod Session
pub mod Telescope
pub mod Forms
pub mod Registered
pub mod Count
pub mod Distinct
pub mod Once
pub mod NoRepeats
pub mod Length
use esp32_idf_ascom_alpaca.Base.{ℕ, suc, List, [], ◌∷◌, ◌++◌}
use esp32_idf_ascom_alpaca.Device.{
  dome, switch, camera, unknown, telescope, DeviceType, Device, device_type, safety_monitor,
  focuser, rotator, observing_conditions, cover_calibrator, filter_wheel,
}
use esp32_idf_ascom_alpaca.Route.Tables.{
  cover_calibrator_routes, observing_conditions_routes, filter_wheel_routes, focuser_routes,
  safety_monitor_routes, dome_routes, common_routes, switch_routes, rotator_routes,
}
use esp32_idf_ascom_alpaca.Handler.Management.{
  handle_get_server_description, handle_get_supported_api_versions, handle_get_configured_devices,
  all_types,
}
use esp32_idf_ascom_alpaca.Device.Names.{uri_device_type}
use esp32_idf_ascom_alpaca.Base.Text.{Bytes, codes}
use esp32_idf_ascom_alpaca.Route.{Route, HttpMethod, route_uri, http_get}
use esp32_idf_ascom_alpaca.Server.{Api, Server}
use esp32_idf_ascom_alpaca.Platform.{Platform}
use esp32_idf_ascom_alpaca.Request.Answers.{Handler}
use esp32_idf_ascom_alpaca.UniqueId.{initialize}

-- The switch of `register_device_routes`; `register_camera_routes` and `register_telescope_routes`
-- register nothing.
unfoldable pub class_routes : {W : Type 0} → DeviceType → List (Route W)
class_routes camera = []
class_routes unknown = []
class_routes telescope = []
class_routes cover_calibrator = cover_calibrator_routes
class_routes dome = dome_routes
class_routes filter_wheel = filter_wheel_routes
class_routes focuser = focuser_routes
class_routes observing_conditions = observing_conditions_routes
class_routes rotator = rotator_routes
class_routes safety_monitor = safety_monitor_routes
class_routes switch = switch_routes

unfoldable pub device_routes : {W : Type 0} → Device W → List (Route W)
unfolding uri_device_type
device_routes d = common_routes (uri_device_type (device_type d) 32) ++ class_routes (device_type d)

-- What is handed to `httpd_register_uri_handler`.
pub record Registration (W : Type 0) : Type 0 where
  pub uri : Bytes
  pub method : HttpMethod
  pub handler : Platform → Handler W

unfoldable pub register_all : {W : Type 0} → ℕ → List (Route W) → List (Registration W)
register_all number [] = []
register_all number (r ∷ rs) =
    record {
      uri = route_uri r.device_type number r.endpoint;
      method = r.method;
      handler = r.handler;
    }
    ∷ register_all number rs

-- The loop over the devices of one type, from number `i` on.
unfoldable pub register_devices : {W : Type 0} → ℕ → List (Device W) → List (Registration W)
unfolding register_all
register_devices i [] = []
register_devices i (d ∷ ds) = register_all i (device_routes d) ++ register_devices (suc i) ds

unfoldable pub register_types : {W : Type 0} → Api W → List DeviceType → List (Registration W)
unfolding register_devices
register_types api [] = []
register_types api (t ∷ ts) = register_devices 0 (api.devices t) ++ register_types api ts

unfoldable pub management_routes : {W : Type 0} → List (Registration W)
management_routes =
    record {
      uri = codes "/management/apiversions";
      method = http_get;
      handler = handle_get_supported_api_versions;
    }
    ∷ record {
      uri = codes "/management/v1/description";
      method = http_get;
      handler = handle_get_server_description;
    }
    ∷ record {
      uri = codes "/management/v1/configureddevices";
      method = http_get;
      handler = handle_get_configured_devices;
    }
    ∷ []

-- The registrations, and the state behind them: the devices have their identifiers.
unfoldable pub register_routes :
    {W : Type 0} → Platform → Server W → List (Registration W) × Server W
unfolding management_routes register_types
register_routes p s =
    let ready = initialize p s in (management_routes ++ register_types ready.api all_types, ready)
