-- ===== src/Handler.antt =====
-- What the handlers of api.cpp have in common: they parse the request, fetch the device, read their
-- parameters, call one method of the driver, and answer.
pub mod Prologue
pub mod Written
pub mod Contract
pub mod Casts
pub mod Args
pub mod Numbers
pub mod Configured
pub mod Truncated
pub mod Management
pub mod Common
pub mod CoverCalibrator
pub mod Dome
pub mod FilterWheel
pub mod Focuser
pub mod ObservingConditions
pub mod Rotator
pub mod SafetyMonitor
pub mod Switch
pub mod Telescope
use esp32_idf_ascom_alpaca.Base.{
  ℕ, ◌+◌, ◌-◌, Option, none, some, [], ◌∷◌, ◌++◌, if◌then◌else◌, get_elem?, pos, eq_ℤ, Bool, true,
  false,
}
use esp32_idf_ascom_alpaca.Request.Answers.{
  error_response, send_json_response, Outcome, Handler, done, fault,
}
use esp32_idf_ascom_alpaca.Server.Errors.{check_return, set_error, not_implemented}
use esp32_idf_ascom_alpaca.Platform.{unwritten, no_item, Platform, Document, Added, item}
use esp32_idf_ascom_alpaca.Device.{DeviceType, Kind, Device, Called, DeviceOps, Method, type_eq}
use esp32_idf_ascom_alpaca.Base.Text.{codes}
use esp32_idf_ascom_alpaca.Server.{Server, esp_err_not_found, esp_ok}
use esp32_idf_ascom_alpaca.Request.{
  AlpacaRequest, parse_request, overflow, parsed, buffer_overflow, bad_cast, null_device, HttpdReq,
  Parsed, indeterminate,
}

-- `send_error_response` behind a successful parse: `root` is deleted if it is there, and the
-- request's document is not.
unfoldable pub reject : {W : Type 0} → Platform → ℕ → Server W → Outcome W
unfolding error_response
reject p code s =
    done (p.resp_send (error_response code)) (error_response code)
      (record s { live_json = s.live_json - 1 })

-- `api->_devices[type][number]`, and the rest `k` of the handler.
unfoldable pub with_element :
    {W : Type 0}
    → (AlpacaRequest → Device W → Handler W)
    → AlpacaRequest
    → HttpdReq
    → Server W
    → Option (Device W)
    → Outcome W
with_element k r req s none = fault null_device
with_element k r req s (some d) = k r d req s

-- The test of the error code; `root` is allocated behind it.
unfoldable pub with_parsed :
    {W : Type 0} → (AlpacaRequest → Device W → Handler W) → HttpdReq → Parsed W → Outcome W
unfolding with_element
with_parsed k req overflow = fault buffer_overflow
with_parsed k req (parsed err r s) =
    if eq_ℤ err esp_ok
    then with_element k r req (record s { live_json = s.live_json + 1 })
        (get_elem? (s.api.devices r.device_type) r.device_number)
    else done err (error_response (if eq_ℤ err esp_err_not_found then 404 else 400)) s

-- The first lines of a device handler, up to the lookup of the device.
unfoldable pub with_device : {W : Type 0} → (AlpacaRequest → Device W → Handler W) → Handler W
unfolding with_parsed
with_device k req s = with_parsed k req (parse_request req s)

-- The response behind `check_return`, whose result is `fine`. On success the value is added; to read
-- what was never written is undefined behaviour.
unfoldable pub send_added :
    {W : Type 0} → Platform → AlpacaRequest → Server W → Document → Bool → Added → Outcome W
unfolding send_json_response
send_added p r s root true unwritten = fault indeterminate
send_added p r s root false unwritten = send_json_response p r root 200 s
send_added p r s root fine no_item = send_json_response p r root 200 s
send_added p r s root fine (item v) =
    send_json_response p r (if fine then root ++ (codes "Value", v) ∷ [] else root) 200 s

-- `check_return` on a method's result, with the value that is added on success, and the response.
unfoldable pub answer :
    {W B : Type 0} → Platform → AlpacaRequest → (B → Added) → Called W B → Server W → Outcome W
unfolding check_return send_added
answer p r value called s =
    let (fine, root) = check_return s.err_msg_func called.err [] in
    send_added p r (record s { world = called.world }) root fine (value called.out)

-- `set_error(ALPACA_ERR_NOT_IMPLEMENTED, root)` and the response.
unfoldable pub answer_not_implemented :
    {W : Type 0} → Platform → AlpacaRequest → Server W → Outcome W
unfolding set_error send_json_response
answer_not_implemented p r s =
    send_json_response p r (set_error s.err_msg_func (pos not_implemented) []) 200 s

-- The call of the driver with the parameters that were read, or 400 where one is missing or wrong.
unfoldable pub call_method :
    {W A B : Type 0}
    → Platform
    → AlpacaRequest
    → Server W
    → (B → Added)
    → (A → Method W B)
    → Option A
    → Outcome W
call_method p r s value call none = reject p 400 s
call_method p r s value call (some a) = answer p r value (call a s.world) s

-- A handler of the methods that every device has. `read` gives none where the handler answers 400.
unfoldable pub common_handler :
    {W A B : Type 0}
    → (Platform → AlpacaRequest → Option A)
    → (DeviceOps W → A → Method W B)
    → (B → Added)
    → Platform
    → Handler W
common_handler read call value p =
    with_device (λ r d req s. call_method p r s value (call d.ops) (read p r))

-- The same for a device that was cast down to its class.
unfoldable pub call_downcast :
    {W O A B : Type 0}
    → Platform
    → AlpacaRequest
    → Server W
    → (B → Added)
    → (O → A → Method W B)
    → Option A
    → Option O
    → Outcome W
unfolding call_method
call_downcast p r s value call args none = fault bad_cast
call_downcast p r s value call args (some ops) = call_method p r s value (call ops) args

-- A handler of one class: the type is tested, the device is cast down to the class; `mismatch` is
-- the other branch of the test.
unfoldable pub device_handler :
    {W O A B : Type 0}
    → DeviceType
    → (Kind W → Option O)
    → (Platform → AlpacaRequest → Server W → Outcome W)
    → (Platform → AlpacaRequest → Option A)
    → (O → A → Method W B)
    → (B → Added)
    → Platform
    → Handler W
device_handler t cast mismatch read call value p = with_device λ r d req s.
    if type_eq r.device_type t
    then call_downcast p r s value call (read p r) (cast d.kind)
    else mismatch p r s
