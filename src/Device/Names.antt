-- ===== src/Device/Names.antt =====
-- device.cpp: the names of the device types, in the configured-devices list and in URIs.
use esp32_idf_ascom_alpaca.Base.{ℕ, ◌-◌, ◌≡◌, refl, if◌then◌else◌, take}
use esp32_idf_ascom_alpaca.Base.Text.{Bytes, codes, strncpy, str_eq}
use esp32_idf_ascom_alpaca.Device.{
  DeviceType, unknown, camera, cover_calibrator, dome, filter_wheel, focuser, observing_conditions,
  rotator, safety_monitor, switch, telescope,
}

unfoldable pub friendly_name : DeviceType → Bytes
friendly_name unknown = codes "Unknown"
friendly_name camera = codes "Camera"
friendly_name cover_calibrator = codes "CoverCalibrator"
friendly_name dome = codes "Dome"
friendly_name filter_wheel = codes "FilterWheel"
friendly_name focuser = codes "Focuser"
friendly_name observing_conditions = codes "ObservingConditions"
friendly_name rotator = codes "Rotator"
friendly_name safety_monitor = codes "SafetyMonitor"
friendly_name switch = codes "Switch"
friendly_name telescope = codes "Telescope"

-- The buffer's last byte is set to NUL.
unfoldable pub friendly_device_type : DeviceType → ℕ → Bytes
unfolding friendly_name strncpy
friendly_device_type t len = take (len - 1) (strncpy (friendly_name t) len)

unfoldable pub uri_name : DeviceType → Bytes
uri_name unknown = codes "unknown"
uri_name camera = codes "camera"
uri_name cover_calibrator = codes "covercalibrator"
uri_name dome = codes "dome"
uri_name filter_wheel = codes "filterwheel"
uri_name focuser = codes "focuser"
uri_name observing_conditions = codes "observingconditions"
uri_name rotator = codes "rotator"
uri_name safety_monitor = codes "safetymonitor"
uri_name switch = codes "switch"
uri_name telescope = codes "telescope"

unfoldable pub uri_device_type : DeviceType → ℕ → Bytes
unfolding uri_name strncpy
uri_device_type t len = strncpy (uri_name t) len

-- The chain of comparisons by which `parse_request` reads a device type.
unfoldable pub parse_device_type : Bytes → DeviceType
unfolding str_eq
parse_device_type s =
    if str_eq s (codes "camera")
    then camera
    else if str_eq s (codes "covercalibrator")
    then cover_calibrator
    else if str_eq s (codes "dome")
    then dome
    else if str_eq s (codes "filterwheel")
    then filter_wheel
    else if str_eq s (codes "focuser")
    then focuser
    else if str_eq s (codes "observingconditions")
    then observing_conditions
    else if str_eq s (codes "rotator")
    then rotator
    else if str_eq s (codes "safetymonitor")
    then safety_monitor
    else if str_eq s (codes "switch")
    then switch
    else if str_eq s (codes "telescope")
    then telescope
    else unknown

-- `parse_request` reads back the name that `register_device_routes` writes into a URI, for the
-- buffer of 32 bytes that is used there.
pub parse_device_type-uri_device_type :
    (t : DeviceType) → parse_device_type (uri_device_type t 32) ≡ t
unfolding parse_device_type uri_device_type
parse_device_type-uri_device_type unknown = refl
parse_device_type-uri_device_type camera = refl
parse_device_type-uri_device_type cover_calibrator = refl
parse_device_type-uri_device_type dome = refl
parse_device_type-uri_device_type filter_wheel = refl
parse_device_type-uri_device_type focuser = refl
parse_device_type-uri_device_type observing_conditions = refl
parse_device_type-uri_device_type rotator = refl
parse_device_type-uri_device_type safety_monitor = refl
parse_device_type-uri_device_type switch = refl
parse_device_type-uri_device_type telescope = refl
