-- ===== src/Examples/Buffers.antt =====
-- Responses printed into the buffer of 512 bytes, at a concrete printing function.
use esp32_idf_ascom_alpaca.Base.{
  ℕ, zero, suc, ◌≤◌, ◌≡◌, ◌≢◌, refl, ap, take, [], ◌∷◌, length, arith, List, none,
}
use esp32_idf_ascom_alpaca.Device.{safety_monitor, Device, DeviceType, device_type}
use esp32_idf_ascom_alpaca.Handler.Management.{handle_get_configured_devices, all_types}
use esp32_idf_ascom_alpaca.Base.Text.{Bytes, c_str, codes, skip_prefix}
use esp32_idf_ascom_alpaca.Platform.{Platform}
use esp32_idf_ascom_alpaca.Json.{PrintsJson, least_document}
use esp32_idf_ascom_alpaca.Server.{Server}
use esp32_idf_ascom_alpaca.Handler.Truncated.{
  HaveIds, devices_document, configured_devices_truncated,
}
use esp32_idf_ascom_alpaca.Handler.Configured.{devices_of_types}
use esp32_idf_ascom_alpaca.Request.{HttpdReq, scan_uri, AlpacaRequest, scan_fields}
use esp32_idf_ascom_alpaca.Request.Answers.{add_ids, send_json_response, json_response}
use esp32_idf_ascom_alpaca.Examples.{platform, monitor, server, observatory}
use esp32_idf_ascom_alpaca.Server.Devices.{IsGrouped}
use esp32_idf_ascom_alpaca.Handler.Contract.{FitsBuffer}

-- A text of `n` bytes.
unfoldable fill : ℕ → Bytes
fill zero = []
fill (suc n) = b'x' ∷ fill n

length-fill : (n : ℕ) → length (fill n) ≡ n
unfolding fill
length-fill zero = refl
length-fill (suc n) = omega (arith, length-fill n)

c_str-fill : (n : ℕ) → c_str (fill n) ≡ fill n
unfolding fill c_str
c_str-fill zero = refl
c_str-fill (suc n) = ap (λ s. b'x' ∷ s) (c_str-fill n)

take_whole : (s : Bytes) (n : ℕ) → length s ≤ n → take n s ≡ s
take_whole [] zero h = refl
take_whole [] (suc n) h = refl
take_whole (c ∷ s) zero h = absurd (omega arith)
take_whole (c ∷ s) (suc n) h = ap (λ u. c ∷ u) (take_whole s n (omega arith))

length-take_le : (s : Bytes) (n : ℕ) → length (take n s) ≤ n
length-take_le s zero = omega arith
length-take_le [] (suc n) = omega arith
length-take_le (c ∷ s) (suc n) = omega (arith, length-take_le s n)

-- Prints as many bytes as a document has at least, and cuts them off at the end of the buffer.
abbrev printer : Platform
printer = record platform { print_preallocated = λ d n. take n (fill (least_document d)) }

printer-PrintsJson : PrintsJson printer
printer-PrintsJson = record {
  json = λ d. fill (least_document d);
  no_nul = λ d. c_str-fill (least_document d);
  least = λ d. omega (arith, length-fill (least_document d));
  whole = λ d n h. take_whole (fill (least_document d)) n (omega (arith, h));
  within = λ d n. length-take_le (fill (least_document d)) n;
}

abbrev id_text : Bytes
id_text = codes "0123456789abcdef0123456789abcdef"

abbrev named : Device ℕ
named = record monitor { unique_id = id_text }

unfoldable five_monitors : DeviceType → List (Device ℕ)
five_monitors safety_monitor = named ∷ named ∷ named ∷ named ∷ named ∷ []
five_monitors _ = []

abbrev crowded : Server ℕ
crowded = record server { api = record observatory { devices = five_monitors } }

crowded-IsGrouped : IsGrouped crowded.api.devices
unfolding five_monitors device_type
crowded-IsGrouped safety_monitor = (refl, (refl, (refl, (refl, (refl, tt)))))
crowded-IsGrouped _ = tt

crowded-HaveIds : HaveIds crowded.api
unfolding five_monitors
crowded-HaveIds safety_monitor = (refl, (refl, (refl, (refl, (refl, tt)))))
crowded-HaveIds _ = tt

five : 5 ≤ devices_of_types crowded.api all_types
unfolding five_monitors
five = omega arith

-- `GET /management/v1/configureddevices`
abbrev list_request : HttpdReq
list_request = record {
  uri = codes "/management/v1/configureddevices";
  query = [];
  content_len = 0;
  received = none;
  content_type = [];
}

list_request-FitsBuffer : FitsBuffer list_request.uri
unfolding scan_uri scan_fields skip_prefix
list_request-FitsBuffer = omega arith

configured_devices_truncated_example :
    (r : AlpacaRequest) × (s' : Server ℕ) × (handle_get_configured_devices printer list_request
        crowded
      ≡ send_json_response printer r (devices_document crowded) 200 s')
    × ((json_response printer r (devices_document crowded) 200).text
        ≢ printer-PrintsJson.json (add_ids r (devices_document crowded)))
configured_devices_truncated_example =
    configured_devices_truncated printer printer-PrintsJson crowded crowded-IsGrouped
      crowded-HaveIds five list_request list_request-FitsBuffer
