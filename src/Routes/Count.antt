-- ===== src/Routes/Count.antt =====
-- How many routes `register_routes` registers.
use esp32_idf_ascom_alpaca.Base.{
  ℕ, ◌≡◌, refl, List, [], ◌∷◌, All, suc, ◌+◌, ap, arith, length, ◌*◌, length-append,
}
use esp32_idf_ascom_alpaca.Device.{DeviceType, Device, device_type}
use esp32_idf_ascom_alpaca.Route.Tables.{
  rotator_routes, dome_routes, common_routes, observing_conditions_routes, filter_wheel_routes,
  focuser_routes, switch_routes, cover_calibrator_routes, safety_monitor_routes,
}
use esp32_idf_ascom_alpaca.Routes.{
  device_routes, class_routes, register_all, register_routes, register_devices, register_types,
  management_routes,
}
use esp32_idf_ascom_alpaca.Server.{Api, Server}
use esp32_idf_ascom_alpaca.Route.{Route}
use esp32_idf_ascom_alpaca.Server.Devices.{IsGrouped}
use esp32_idf_ascom_alpaca.Handler.Management.{all_types}
use esp32_idf_ascom_alpaca.Platform.{Platform}
use esp32_idf_ascom_alpaca.UniqueId.{initialize}
use esp32_idf_ascom_alpaca.UniqueId.Frame.{initialize-IsGrouped, length-initialize}

-- The number of routes of a class.
abbrev pub class_count : DeviceType → ℕ
class_count DeviceType.cover_calibrator = 9
class_count DeviceType.dome = 25
class_count DeviceType.filter_wheel = 4
class_count DeviceType.focuser = 12
class_count DeviceType.observing_conditions = 18
class_count DeviceType.rotator = 13
class_count DeviceType.safety_monitor = 1
class_count DeviceType.switch = 12
class_count _ = 0

-- For each type, twelve routes and those of its class for every device of the type.
abbrev pub routes_of_types : {W : Type 0} → Api W → List DeviceType → ℕ
routes_of_types api [] = 0
routes_of_types api (t ∷ ts) =
    length (api.devices t) * (12 + class_count t) + routes_of_types api ts

length-class_routes :
    (W : Type 0) (t : DeviceType) → length (class_routes {W = W} t) ≡ class_count t
unfolding class_routes cover_calibrator_routes dome_routes filter_wheel_routes focuser_routes
    observing_conditions_routes rotator_routes safety_monitor_routes switch_routes
length-class_routes W DeviceType.unknown = refl
length-class_routes W DeviceType.camera = refl
length-class_routes W DeviceType.telescope = refl
length-class_routes W DeviceType.cover_calibrator = refl
length-class_routes W DeviceType.dome = refl
length-class_routes W DeviceType.filter_wheel = refl
length-class_routes W DeviceType.focuser = refl
length-class_routes W DeviceType.observing_conditions = refl
length-class_routes W DeviceType.rotator = refl
length-class_routes W DeviceType.safety_monitor = refl
length-class_routes W DeviceType.switch = refl

length-device_routes :
    {W : Type 0} (d : Device W) → length (device_routes d) ≡ 12 + class_count (device_type d)
unfolding device_routes common_routes
length-device_routes {W} d = omega (arith, length-class_routes W (device_type d))

length-register_all :
    {W : Type 0} (i : ℕ) (rs : List (Route W)) → length (register_all i rs) ≡ length rs
unfolding register_all
length-register_all i [] = refl
length-register_all i (r ∷ rs) = omega (arith, length-register_all i rs)

length-register_devices :
    {W : Type 0} (t : DeviceType) (i : ℕ) (ds : List (Device W))
    → All (λ d. device_type d ≡ t) ds
    → length (register_devices i ds) ≡ length ds * (12 + class_count t)
unfolding register_devices
length-register_devices t i [] types = omega arith
length-register_devices t i (d ∷ ds) (type, types) = omega (
  arith,
  length-append (register_all i (device_routes d)) (register_devices (suc i) ds),
  length-register_all i (device_routes d),
  length-device_routes d,
  ap class_count type,
  length-register_devices t (suc i) ds types,
)

length-register_types :
    {W : Type 0} (api : Api W)
    → IsGrouped api.devices
    → (ts : List DeviceType) → length (register_types api ts) ≡ routes_of_types api ts
unfolding register_types
length-register_types api grouped [] = refl
length-register_types api grouped (t ∷ ts) = omega (
  arith,
  length-append (register_devices 0 (api.devices t)) (register_types api ts),
  length-register_devices t 0 (api.devices t) (grouped t),
  length-register_types api grouped ts,
)

routes_of_types-length :
    {W : Type 0} (a b : Api W)
    → ((t : DeviceType) → length (a.devices t) ≡ length (b.devices t))
    → (ts : List DeviceType) → routes_of_types a ts ≡ routes_of_types b ts
routes_of_types-length a b same [] = refl
routes_of_types-length a b same (t ∷ ts) = rw (same t, routes_of_types-length a b same ts)

-- If each list of devices holds devices of its own type only, then `register_routes` makes three
-- registrations for the management API and, for each device, twelve and those of its class: 9 for a
-- cover calibrator, 25 for a dome, 4 for a filter wheel, 12 for a focuser, 18 for observing
-- conditions, 13 for a rotator, 1 for a safety monitor, 12 for a switch, none for others.
pub length-register_routes :
    {W : Type 0} (p : Platform) (s : Server W)
    → IsGrouped s.api.devices
    → length (register_routes p s).0 ≡ 3 + routes_of_types s.api all_types
unfolding register_routes management_routes
length-register_routes p s grouped =
    let ready = initialize p s in
    omega (
      arith,
      length-register_types ready.api (initialize-IsGrouped p s grouped) all_types,
      routes_of_types-length ready.api s.api (length-initialize p s) all_types,
    )
