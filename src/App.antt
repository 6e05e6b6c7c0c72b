-- ===== src/App.antt =====
-- examples/main.cpp: the example program, a server whose only device is a roll-off roof.
--
-- `httpd_register_uri_handler` is a parameter: its result for a registration, from the size of the
-- table of handlers and the registrations that are in it. `Boot` is what the other calls that can
-- fail, and the memory that is not written, hold at this start.
pub mod Starts
use esp32_idf_ascom_alpaca.Base.{
  ℕ, ◌<◌, ◌≤◌, ◌≡◌, ◌≢◌, Bool, Option, none, some, List, [], ◌∷◌, ◌++◌, if◌then◌else◌, ℤ, eq_ℤ,
  length, All, true, false,
}
use esp32_idf_ascom_alpaca.Routes.{register_routes, Registration}
use esp32_idf_ascom_alpaca.Base.Text.{Bytes, codes}
use esp32_idf_ascom_alpaca.Server.{new_api, esp_ok, Server}
use esp32_idf_ascom_alpaca.UdpServer.{discovery_start, UdpSystem}
use esp32_idf_ascom_alpaca.Platform.{Platform}
use esp32_idf_ascom_alpaca.Device.{ShutterState}
use esp32_idf_ascom_alpaca.RollOffRoof.{RollOffRoof, roof_device, AzimuthUnits, new_roof}
use esp32_idf_ascom_alpaca.Routes.Once.{Differ}
use esp32_idf_ascom_alpaca.Server.Errors.{error_message}

-- `httpd_register_uri_handler`, with `config.max_uri_handlers`.
abbrev pub RegisterHandler : Type 0 → Type 0
RegisterHandler W = ℕ → List (Registration W) → Registration W → ℤ

-- What ESP-IDF documents of it: it fails if all slots are taken, and succeeds if there is a slot
-- and no handler of the same URI and method.
pub record HasSlots {W : Type 0} (register : RegisterHandler W) : Type 0 where
  pub full :
      (max : ℕ) (made : List (Registration W)) (g : Registration W)
      → max ≤ length made
      → register max made g ≢ esp_ok
  pub free :
      (max : ℕ) (made : List (Registration W)) (g : Registration W)
      → length made < max
      → All (λ h. Differ h g) made
      → register max made g ≡ esp_ok

-- The calls of `register_routes` in their order, each in `ESP_ERROR_CHECK`; none is `abort`.
unfoldable pub register_checked :
    {W : Type 0}
    → RegisterHandler W
    → ℕ
    → List (Registration W)
    → List (Registration W)
    → Option (List (Registration W))
register_checked register max made [] = some made
register_checked register max made (g ∷ gs) =
    let rest = register_checked register max (made ++ g ∷ []) gs in
    if eq_ℤ (register max made g) esp_ok then rest else none

pub record Boot : Type 0 where
  -- `desc.version`, or an error of `esp_ota_get_partition_description`.
  pub version : Option Bytes
  pub httpd_started : Bool
  -- Whether the three allocations of the discovery succeed.
  pub handle_made : Bool
  pub queue_made : Bool
  pub config_made : Bool
  -- What the members of the roof hold that no constructor writes.
  pub number : ℕ
  pub unique_id : Bytes
  pub azimuth : ℕ
  pub shutter : ShutterState

-- The program aborts, or serves with these handlers and this state; the discovery is none where
-- starting it is undefined behaviour.
pub data AppResult : Type 0 where
  aborted : AppResult
  serving :
      List (Registration RollOffRoof)
      → Server RollOffRoof
      → Option (UdpSystem (Unit {0}))
      → AppResult

-- The server before its routes are registered; the statics hold what they are initialised with.
unfoldable pub app_server : AzimuthUnits → Boot → Bytes → Server RollOffRoof
unfolding new_api roof_device new_roof error_message
app_server units boot version = record {
  api =
      new_api (roof_device units boot.number boot.unique_id ∷ []) (codes "MY_DEVICE_SERIAL_NUMBER")
        (codes "Dark Dragons Alpaca Server") (codes "Dark Dragons Astronomy LLC") version
        (codes "Home");
  err_msg_func = error_message;
  world = new_roof boot.azimuth boot.shutter;
  live_json = 0;
}

-- The discovery, once all routes are registered.
unfoldable pub start_discovery :
    Boot → Server RollOffRoof → Option (List (Registration RollOffRoof)) → AppResult
start_discovery boot ready none = aborted
start_discovery boot ready (some made) =
    serving made ready (discovery_start boot.handle_made boot.queue_made boot.config_made)

-- The registrations, and then the discovery.
unfoldable pub start_routes :
    Platform → RegisterHandler RollOffRoof → ℕ → Boot → Server RollOffRoof → AppResult
start_routes p register max boot s =
    let (routes, ready) = register_routes p s in
    start_discovery boot ready (register_checked register max [] routes)

-- The two `ESP_ERROR_CHECK`s before the server is made, and the rest.
unfoldable pub start_app :
    Platform
    → AzimuthUnits
    → RegisterHandler RollOffRoof
    → ℕ
    → Boot
    → Option Bytes
    → Bool
    → AppResult
start_app p units register max boot none started = aborted
start_app p units register max boot (some version) false = aborted
start_app p units register max boot (some version) true =
    start_routes p register max boot (app_server units boot version)

-- `app_main` for a number of slots, up to its endless loop.
unfoldable pub run_app :
    Platform → AzimuthUnits → RegisterHandler RollOffRoof → ℕ → Boot → AppResult
unfolding start_app
run_app p units register max boot =
    start_app p units register max boot boot.version boot.httpd_started

-- `config.max_uri_handlers = 32`
unfoldable pub app_main : Platform → AzimuthUnits → RegisterHandler RollOffRoof → Boot → AppResult
unfolding run_app
app_main p units register boot = run_app p units register 32 boot
