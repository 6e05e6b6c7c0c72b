-- ===== src/UniqueId.antt =====
-- `initialize` and `generate_unique_id` of api.cpp. The digest is a parameter (mbedtls).
--
-- `device->_number` is a field that no code of the library sets: here it is whatever the device
-- object holds.
pub mod Hex
pub mod Text
pub mod Frame
use esp32_idf_ascom_alpaca.Base.{ℕ, ◌+◌, ◌-◌, ◌/◌, ◌%◌, List, [], ◌∷◌, ◌++◌, ltb, if◌then◌else◌}
use esp32_idf_ascom_alpaca.Request.Answers.{done}
use esp32_idf_ascom_alpaca.Base.Text.{Bytes, print_ℕ}
use esp32_idf_ascom_alpaca.Device.{type_index, device_type, DeviceType, Device, type_eq}
use esp32_idf_ascom_alpaca.Platform.{Platform}
use esp32_idf_ascom_alpaca.Server.{Server}
use esp32_idf_ascom_alpaca.Handler.Management.{all_types}

-- One digit of `%02x`.
unfoldable pub hex_digit : ℕ → ℕ
hex_digit d = if ltb d 10 then b'0' + d else b'a' + (d - 10)

-- The loop of `sprintf(&unique_id[i * 2], "%02x", hash[i])`.
unfoldable pub hex : Bytes → Bytes
unfolding hex_digit
hex [] = []
hex (b ∷ bs) = hex_digit (b / 16) ∷ hex_digit (b % 16) ∷ hex bs

-- What the four calls of `mbedtls_md5_update` add up to.
unfoldable pub hash_input : Bytes → Bytes → DeviceType → ℕ → Bytes
unfolding type_index print_ℕ
hash_input server_id device_name t number =
    server_id ++ (device_name ++ (print_ℕ (type_index t) ++ print_ℕ number))

unfoldable pub generate_unique_id : Platform → Bytes → Bytes → DeviceType → ℕ → Bytes
unfolding hex hash_input
generate_unique_id p server_id device_name t number =
    hex (p.md5 (hash_input server_id device_name t number))

-- The inner loop of `initialize`; `get_name` fills a buffer of 33 bytes, and its error is ignored.
unfoldable pub initialize_devices :
    {W : Type 0} → Platform → Bytes → List (Device W) → W → List (Device W) × W
unfolding generate_unique_id device_type
initialize_devices p server_id [] w = ([], w)
initialize_devices p server_id (d ∷ ds) w =
    let called = d.ops.get_name 33 w in
    let id = generate_unique_id p server_id called.out (device_type d) d.number in
    let rest = initialize_devices p server_id ds called.world in
    (record d { unique_id = id } ∷ rest.0, rest.1)

-- A round of the outer loop, for the devices of type `t`.
unfoldable pub initialize_type : {W : Type 0} → Platform → DeviceType → Server W → Server W
unfolding type_index
initialize_type p t s =
    let done = initialize_devices p s.api.server_id (s.api.devices t) s.world in
    record s {
      api = record (s.api) { devices = λ u. if type_eq t u then done.0 else s.api.devices u };
      world = done.1;
    }

-- The outer loop, over the map.
unfoldable pub initialize_types : {W : Type 0} → Platform → List DeviceType → Server W → Server W
initialize_types p [] s = s
initialize_types p (t ∷ ts) s = initialize_types p ts (initialize_type p t s)

unfoldable pub initialize : {W : Type 0} → Platform → Server W → Server W
initialize p s = initialize_types p all_types s
