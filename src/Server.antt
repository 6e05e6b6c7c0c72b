-- ===== src/Server.antt =====
-- The server: api.h and the first part of api.cpp. `Api` is the class without its mutex (each
-- critical section is one step here). `_devices` is a function of the device type: `operator[]` of
-- the `std::map` gives an empty list for a type that has no entry, and the entry that it leaves
-- behind cannot be told from none by the code.
pub mod Errors
pub mod Devices
use esp32_idf_ascom_alpaca.Base.{ℕ, List, [], ◌∷◌, ◌++◌, if◌then◌else◌, ℤ, pos}
use esp32_idf_ascom_alpaca.Base.Text.{Bytes}
use esp32_idf_ascom_alpaca.Device.{DeviceType, type_eq, Device, device_type}

-- Error codes of the platform, `esp_err_t`.
abbrev pub esp_ok : ℤ
esp_ok = pos 0

abbrev pub esp_err_invalid_size : ℤ
esp_err_invalid_size = pos 0x104

abbrev pub esp_err_not_found : ℤ
esp_err_not_found = pos 0x105

-- `custom_error_message_handler_t`: from the code and the buffer's size, the result and the text.
abbrev pub MessageHandler : Type 0
MessageHandler = ℕ → ℕ → ℤ × Bytes

pub record Api (W : Type 0) : Type 0 where
  pub server_id : Bytes
  pub server_name : Bytes
  pub manufacturer : Bytes
  pub manufacturer_version : Bytes
  pub location : Bytes
  pub server_transaction_id : ℕ
  pub devices : DeviceType → List (Device W)

-- The whole state: the API object, the static `s_err_msg_func`, the drivers' state, and the number
-- of cJSON documents that are allocated and not deleted.
pub record Server (W : Type 0) : Type 0 where
  pub api : Api W
  pub err_msg_func : MessageHandler
  pub world : W
  pub live_json : ℕ

-- `_devices[device->device_type()].push_back(device)`
unfoldable pub push_back :
    {W : Type 0} → Device W → (DeviceType → List (Device W)) → DeviceType → List (Device W)
unfolding device_type
push_back d m t = if type_eq (device_type d) t then m t ++ d ∷ [] else m t

-- The constructor's loop over the devices.
unfoldable pub push_all :
    {W : Type 0} → List (Device W) → (DeviceType → List (Device W)) → DeviceType → List (Device W)
unfolding push_back
push_all [] m = m
push_all (d ∷ ds) m = push_all ds (push_back d m)

-- The constructor.
unfoldable pub new_api :
    {W : Type 0} → List (Device W) → Bytes → Bytes → Bytes → Bytes → Bytes → Api W
unfolding push_all
new_api devices server_id server_name manufacturer manufacturer_version location = record {
  server_id = server_id;
  server_name = server_name;
  manufacturer = manufacturer;
  manufacturer_version = manufacturer_version;
  location = location;
  server_transaction_id = 0;
  devices = push_all devices (λ t. []);
}

unfoldable pub set_server_name : {W : Type 0} → Bytes → Api W → Api W
set_server_name name api = record api { server_name = name }

unfoldable pub set_location : {W : Type 0} → Bytes → Api W → Api W
set_location place api = record api { location = place }

-- The old handler is the result.
unfoldable pub set_custom_error_message_handler :
    {W : Type 0} → MessageHandler → Server W → MessageHandler × Server W
set_custom_error_message_handler handler s = (s.err_msg_func, record s { err_msg_func = handler })
