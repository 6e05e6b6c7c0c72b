-- ===== src/Examples.antt =====
-- A server with a filter wheel and two safety monitors, whose drivers' state is the position of the
-- wheel, for the tests.
pub mod Routing
pub mod Forms
pub mod Parsing
pub mod Setup
pub mod Telescopes
pub mod Udp
pub mod Roofs
pub mod Buffers
use esp32_idf_ascom_alpaca.Handler.Written.{CommonFills}
use mathlib.Core.Option.{none-ne-some}
use esp32_idf_ascom_alpaca.Base.{
  sym, ℕ, ◌≡◌, refl, true, Option, none, some, [], ◌∷◌, if◌then◌else◌, pos, wrap, ap, ◌≢◌, List,
  arith, get_elem?, false,
}
use esp32_idf_ascom_alpaca.Routes.{device_routes, class_routes}
use esp32_idf_ascom_alpaca.Route.Tables.{common_routes, filter_wheel_routes}
use esp32_idf_ascom_alpaca.Handler.FilterWheel.{handle_put_filterwheel_position}
use esp32_idf_ascom_alpaca.Device.{
  Called, DeviceOps, FilterWheelOps, Device, device_type, Kind, kind_type, safety_monitor, unknown,
  filter_wheel, DeviceType, type_index,
}
use esp32_idf_ascom_alpaca.Platform.{Body, Platform}
use esp32_idf_ascom_alpaca.Server.{Api, Server, esp_ok}
use esp32_idf_ascom_alpaca.Request.{HttpdReq}
use esp32_idf_ascom_alpaca.Route.{Route, put, route_uri}
use esp32_idf_ascom_alpaca.Server.Devices.{IsGrouped}
use esp32_idf_ascom_alpaca.Base.Text.{Bytes, codes, str_eq, print_ℕ}
use esp32_idf_ascom_alpaca.Device.Names.{uri_device_type}
use esp32_idf_ascom_alpaca.Routes.Session.{IsRouteOf}
use esp32_idf_ascom_alpaca.Handler.Contract.{AllFill, FitsBuffer}
use esp32_idf_ascom_alpaca.Routes.Uri.{scan_uri_route}
use esp32_idf_ascom_alpaca.Double.{nan}

-- Finds the first item of a name.
unfoldable pub find_item : Body → Bytes → Option Bytes
find_item [] key = none
find_item ((k, value) ∷ b) key =
    let rest = find_item b key in if str_eq k key then some value else rest

abbrev pub platform : Platform
platform = record {
  print_preallocated = λ root size. [];
  get_item_case_sensitive = find_item;
  get_item = find_item;
  get_number = λ item. nan;
  is_bool = λ item. false;
  is_true = λ item. false;
  atof = λ s. 0;
  strtof = λ s. (0, s);
  strtod = λ s. (0, s);
  resp_send = λ resp. esp_ok;
  md5 = λ s. 1 ∷ 2 ∷ 3 ∷ 4 ∷ 5 ∷ 6 ∷ 7 ∷ 8 ∷ 9 ∷ 10 ∷ 11 ∷ 12 ∷ 13 ∷ 14 ∷ 15 ∷ 16 ∷ [];
}

-- A method that succeeds and gives a value.
abbrev pub gives : {A : Type 0} → A → ℕ → Called ℕ A
gives x w = record { err = esp_ok; out = x; world = w }

abbrev pub device_ops : DeviceOps ℕ
device_ops = record {
  action = λ a b c. gives (some []);
  commandblind = λ a b. gives tt;
  commandbool = λ a b c. gives true;
  commandstring = λ a b c. gives (some []);
  get_connected = λ a. gives true;
  set_connected = λ a. gives tt;
  get_description = λ a. gives (some []);
  get_driverinfo = λ a. gives (some []);
  get_driverversion = λ a. gives (some []);
  get_interfaceversion = λ a. gives 3;
  get_name = λ a. gives (codes "Wheel");
  get_supportedactions = λ a. gives [];
}

abbrev pub wheel_ops : FilterWheelOps ℕ
wheel_ops = record {
  get_focusoffsets = λ a. gives [];
  get_names = λ a. gives [];
  get_position = λ a w. gives (pos w) w;
  put_position = λ n w. record { err = esp_ok; out = tt; world = (wrap 256 n) };
}

abbrev pub wheel : Device ℕ
wheel = record { number = 0; unique_id = []; ops = device_ops; kind = Kind.filter_wheel wheel_ops }

abbrev pub monitor : Device ℕ
monitor = record {
  number = 1;
  unique_id = [];
  ops = device_ops;
  kind = Kind.safety_monitor (record { get_issafe = λ b. gives true });
}

unfoldable pub by_type : DeviceType → List (Device ℕ)
by_type filter_wheel = wheel ∷ []
by_type safety_monitor = monitor ∷ monitor ∷ []
by_type _ = []

abbrev pub observatory : Api ℕ
observatory = record {
  server_id = codes "id";
  server_name = codes "name";
  manufacturer = codes "maker";
  manufacturer_version = codes "1.0";
  location = codes "roof";
  server_transaction_id = 41;
  devices = by_type;
}

abbrev pub server : Server ℕ
server = record {
  api = observatory;
  err_msg_func = λ code size. (esp_ok, []);
  world = 2;
  live_json = 0;
}

-- `PUT /api/v1/filterwheel/0/position` with the form `Position=7`.
abbrev pub put_position : HttpdReq
put_position = record {
  uri = codes "/api/v1/filterwheel/0/position";
  query = [];
  content_len = 10;
  received = some (codes "Position=7");
  content_type = codes "application/x-www-form-urlencoded";
}

-- The position's route is the last of the class's four, behind the twelve of every device.
abbrev pub position_route : Route ℕ
position_route = put (codes "filterwheel") "position" handle_put_filterwheel_position

pub position_IsRouteOf : IsRouteOf wheel position_route
unfolding device_routes class_routes common_routes filter_wheel_routes device_type kind_type
    uri_device_type
position_IsRouteOf = (15, refl)

ops_fill : CommonFills device_ops
ops_fill = record {
  action = λ a b n w e h. absurd (none-ne-some _ (sym h));
  commandstring = λ a b n w e h. absurd (none-ne-some _ (sym h));
  description = λ n w e h. absurd (none-ne-some _ (sym h));
  driverinfo = λ n w e h. absurd (none-ne-some _ (sym h));
  driverversion = λ n w e h. absurd (none-ne-some _ (sym h));
}

pub grouped : IsGrouped observatory.devices
unfolding by_type device_type
grouped filter_wheel = (refl, tt)
grouped safety_monitor = (refl, (refl, tt))
grouped _ = tt

pub filling : AllFill observatory.devices
unfolding by_type
filling filter_wheel = ((ops_fill, tt), tt)
filling safety_monitor = ((ops_fill, tt), ((ops_fill, tt), tt))
filling _ = tt

abbrev pub wheel_uri :
    put_position.uri ≡ route_uri (uri_device_type filter_wheel 32) 0 (codes "position")
unfolding route_uri uri_device_type print_ℕ
wheel_uri = refl

pub wheel_there : get_elem? (observatory.devices filter_wheel) 0 ≡ some wheel
unfolding by_type
wheel_there = refl

pub position_FitsBuffer : FitsBuffer put_position.uri
position_FitsBuffer = rw (wheel_uri) (
    rw (scan_uri_route filter_wheel 0 (codes "position") (omega arith))
      (unfold uri_device_type in omega arith))

pub known_type : {t : DeviceType} → (type_index t ≢ 0) → t ≢ unknown
unfolding type_index
known_type {t} h e = h (ap type_index e)
