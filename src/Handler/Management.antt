-- ===== src/Handler/Management.antt =====
-- The handlers of the management API. They ignore the error code of `parse_request`: the URI of a
-- management route names no device.
use esp32_idf_ascom_alpaca.Base.{ℕ, suc, ◌+◌, List, [], ◌∷◌, ◌++◌, pos}
use esp32_idf_ascom_alpaca.Request.{
  AlpacaRequest, Parsed, parse_request, buffer_overflow, parsed, overflow,
}
use esp32_idf_ascom_alpaca.Request.Answers.{send_json_response, Outcome, Handler, fault}
use esp32_idf_ascom_alpaca.Server.{Api, Server}
use esp32_idf_ascom_alpaca.Device.Names.{friendly_device_type}
use esp32_idf_ascom_alpaca.Device.{
  DeviceType, Device, unknown, device_type, camera, cover_calibrator, dome, filter_wheel, focuser,
  observing_conditions, rotator, safety_monitor, switch, telescope,
}
use esp32_idf_ascom_alpaca.Platform.{Platform, ConfiguredDevice, ints, strings, devices}
use esp32_idf_ascom_alpaca.Base.Text.{Bytes, codes}

-- The rest of a management handler, with `root` allocated.
unfoldable pub with_request :
    {W : Type 0} → (AlpacaRequest → Server W → Outcome W) → Parsed W → Outcome W
with_request k overflow = fault buffer_overflow
with_request k (parsed err r s) = k r (record s { live_json = s.live_json + 1 })

unfoldable pub handle_get_supported_api_versions : {W : Type 0} → Platform → Handler W
unfolding with_request send_json_response
handle_get_supported_api_versions p req s =
    with_request (λ r s. send_json_response p r ((codes "Value", ints (pos 1 ∷ [])) ∷ []) 200 s)
      (parse_request req s)

-- The members of the description.
unfoldable pub server_description : {W : Type 0} → Api W → List (Bytes × Bytes)
server_description api =
    (codes "ServerName", api.server_name)
    ∷ (codes "Manufacturer", api.manufacturer)
    ∷ (codes "ManufacturerVersion", api.manufacturer_version)
    ∷ (codes "Location", api.location)
    ∷ []

unfoldable pub handle_get_server_description : {W : Type 0} → Platform → Handler W
unfolding with_request server_description send_json_response
handle_get_server_description p req s =
    with_request
      (λ r s.
        send_json_response p r ((codes "Value", strings (server_description s.api)) ∷ []) 200 s)
      (parse_request req s)

-- The inner loop, over the devices of one type from number `i` on. `get_name` is a driver's method
-- and may change the drivers' state; its error code is ignored.
unfoldable pub list_devices : {W : Type 0} → ℕ → List (Device W) → W → List ConfiguredDevice × W
unfolding friendly_device_type
list_devices i [] w = ([], w)
list_devices i (d ∷ ds) w =
    let called = d.ops.get_name 33 w in
    let entry : ConfiguredDevice = record {
      device_name = called.out;
      device_type = friendly_device_type (device_type d) 33;
      device_number = i;
      unique_id = d.unique_id;
    } in
    let rest = list_devices (suc i) ds called.world in (entry ∷ rest.0, rest.1)

-- The outer loop, over the map.
unfoldable pub list_types : {W : Type 0} → Api W → List DeviceType → W → List ConfiguredDevice × W
unfolding list_devices
list_types api [] w = ([], w)
list_types api (t ∷ ts) w =
    let here = list_devices 0 (api.devices t) w in
    let rest = list_types api ts here.1 in (here.0 ++ rest.0, rest.1)

-- The order in which the `std::map` is walked.
abbrev pub all_types : List DeviceType
all_types =
    unknown ∷ camera ∷ cover_calibrator ∷ dome ∷ filter_wheel ∷ focuser ∷ observing_conditions
    ∷ rotator ∷ safety_monitor ∷ switch ∷ telescope ∷ []

unfoldable pub handle_get_configured_devices : {W : Type 0} → Platform → Handler W
unfolding with_request list_types send_json_response
handle_get_configured_devices p req s =
    with_request
      (λ r s.
        let listed = list_types s.api all_types s.world in
        send_json_response p r ((codes "Value", devices listed.0) ∷ []) 200
          (record s { world = listed.1 }))
      (parse_request req s)
