-- ===== src/Routes/Registered.antt =====
-- What `register_routes` registers: the management API and the routes of every device.
use esp32_idf_ascom_alpaca.Base.{
  ℕ, ◌≡◌, refl, some, List, [], ◌∷◌, get_elem?, All, All-append, suc, ◌+◌, ap, ◌∙◌, ◌++◌, arith,
  All-index,
}
use esp32_idf_ascom_alpaca.Device.{DeviceType, Device, device_type}
use esp32_idf_ascom_alpaca.Route.Tables.{
  rotator_routes, dome_routes, common_routes, observing_conditions_routes, filter_wheel_routes,
  focuser_routes, switch_routes, cover_calibrator_routes, safety_monitor_routes,
}
use esp32_idf_ascom_alpaca.Routes.{
  device_routes, class_routes, Registration, register_all, register_routes, register_devices,
  register_types, management_routes,
}
use esp32_idf_ascom_alpaca.Device.Names.{uri_device_type}
use esp32_idf_ascom_alpaca.Server.{Api, Server}
use esp32_idf_ascom_alpaca.Route.{Route, route_uri}
use esp32_idf_ascom_alpaca.Server.Devices.{IsGrouped}
use esp32_idf_ascom_alpaca.Routes.Session.{IsRouteOf}
use esp32_idf_ascom_alpaca.Base.Text.{Bytes}
use esp32_idf_ascom_alpaca.Handler.Management.{all_types}
use esp32_idf_ascom_alpaca.Platform.{Platform}
use esp32_idf_ascom_alpaca.UniqueId.{initialize}
use esp32_idf_ascom_alpaca.UniqueId.Frame.{initialize-IsGrouped}

-- A route is registered under its own device's type.
abbrev pub NamesType : {W : Type 0} → DeviceType → Route W → Type 0
NamesType t r = r.device_type ≡ uri_device_type t 32

common_routes-NamesType :
    (W : Type 0) (t : DeviceType) → All (NamesType t) (common_routes {W = W} (uri_device_type t 32))
unfolding common_routes
common_routes-NamesType W t = search

class_routes-NamesType : (W : Type 0) (t : DeviceType) → All (NamesType t) (class_routes {W = W} t)
unfolding class_routes uri_device_type cover_calibrator_routes dome_routes filter_wheel_routes
    focuser_routes observing_conditions_routes rotator_routes safety_monitor_routes switch_routes
class_routes-NamesType W DeviceType.unknown = tt
class_routes-NamesType W DeviceType.camera = tt
class_routes-NamesType W DeviceType.telescope = tt
class_routes-NamesType W DeviceType.cover_calibrator = search
class_routes-NamesType W DeviceType.dome = search
class_routes-NamesType W DeviceType.filter_wheel = search
class_routes-NamesType W DeviceType.focuser = search
class_routes-NamesType W DeviceType.observing_conditions = search
class_routes-NamesType W DeviceType.rotator = search
class_routes-NamesType W DeviceType.safety_monitor = search
class_routes-NamesType W DeviceType.switch = search

pub device_routes-NamesType :
    {W : Type 0} (d : Device W) → All (NamesType (device_type d)) (device_routes d)
unfolding device_routes
device_routes-NamesType {W} d =
    All-append (NamesType (device_type d)) (common_routes (uri_device_type (device_type d) 32))
      (class_routes (device_type d)) (common_routes-NamesType W (device_type d))
      (class_routes-NamesType W (device_type d))

-- A registration of a route of the device that stands at some index `i` of the list of type `t`, with
-- the URI of that type and index.
abbrev pub Registers : {W : Type 0} → Api W → Registration W → Type 0
Registers {W} api g =
    (t : DeviceType) × (i : ℕ) × (d : Device W) × (r : Route W) × (get_elem? (api.devices t) i
      ≡ some d)
    × IsRouteOf d r
    × (g.uri ≡ route_uri (uri_device_type t 32) i r.endpoint)
    × (g.method ≡ r.method)
    × (g.handler ≡ r.handler)

module _ {W : Type 0} (api : Api W) where
  register_all-Registers :
      (t : DeviceType) (i : ℕ) (d : Device W)
      → get_elem? (api.devices t) i ≡ some d
      → (rs : List (Route W)) → All (NamesType t) rs
      → All (IsRouteOf d) rs
      → All (Registers api) (register_all i rs)
  unfolding register_all
  register_all-Registers t i d there [] h k = tt
  register_all-Registers t i d there (r ∷ rs) (h, hs) (k, ks) = (
    (t, i, d, r, there, k, ap (λ (u : Bytes). route_uri u i r.endpoint) h, refl, refl),
    register_all-Registers t i d there rs hs ks,
  )

  register_devices-Registers :
      (t : DeviceType) (i : ℕ) (ds : List (Device W))
      → ((k : ℕ) → get_elem? (api.devices t) (i + k) ≡ get_elem? ds k)
      → All (λ d. device_type d ≡ t) ds
      → All (Registers api) (register_devices i ds)
  unfolding register_devices
  register_devices-Registers t i [] same types = tt
  register_devices-Registers t i (d ∷ ds) same (type, types) =
      let at = λ (j : ℕ). get_elem? (api.devices t) j in
      All-append (Registers api) (register_all i (device_routes d)) (register_devices (suc i) ds)
        (register_all-Registers t i d (ap at (omega arith) ∙ same 0) (device_routes d)
          (rw (← type) (device_routes-NamesType d)) (All-index (device_routes d)))
        (register_devices-Registers t (suc i) ds (λ k. ap at (omega arith) ∙ same (suc k)) types)

  register_types-Registers :
      IsGrouped api.devices → (ts : List DeviceType) → All (Registers api) (register_types api ts)
  unfolding register_types
  register_types-Registers grouped [] = tt
  register_types-Registers grouped (t ∷ ts) =
      All-append (Registers api) (register_devices 0 (api.devices t)) (register_types api ts)
        (register_devices-Registers t 0 (api.devices t)
          (λ k. ap (λ (j : ℕ). get_elem? (api.devices t) j) (omega arith)) (grouped t))
        (register_types-Registers grouped ts)

-- If each list of devices holds devices of its own type only, then whatever `register_routes`
-- registers is a route of the management API or a route of a device, with the handler and the method
-- of that route, under the URI of the device's type and of its index in its list, as the lists are
-- once the devices have their identifiers.
pub register_routes-Registers :
    {W : Type 0} (p : Platform) (s : Server W)
    → IsGrouped s.api.devices
    → (devices : List (Registration W)) × ((register_routes p s).0 ≡ management_routes ++ devices)
      × All (Registers (register_routes p s).1.api) devices
unfolding register_routes
register_routes-Registers p s grouped =
    let ready = initialize p s in
    (
      register_types ready.api all_types,
      refl,
      register_types-Registers ready.api (initialize-IsGrouped p s grouped) all_types,
    )
