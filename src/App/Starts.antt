-- ===== src/App/Starts.antt =====
-- When the example program starts.
use esp32_idf_ascom_alpaca.Base.{
  ℕ, ◌+◌, ◌<◌, ◌≤◌, ◌≡◌, none, some, List, [], ◌∷◌, ◌++◌, arith, length, length-append, append-nil,
  Bool-cases, inl, inr, eq_ℤ, eq_ℤ_sound, sym, ap, ltb, tests, ◌∙◌, append_assoc, All, refl, true,
  Option, Bool, false,
}
use esp32_idf_ascom_alpaca.App.{
  serving, RegisterHandler, HasSlots, register_checked, start_routes, Boot, app_server, aborted,
  start_discovery, app_main, run_app, start_app,
}
use esp32_idf_ascom_alpaca.Routes.{Registration, register_routes}
use esp32_idf_ascom_alpaca.Server.{esp_ok, new_api, push_all, push_back}
use esp32_idf_ascom_alpaca.Routes.Once.{AreDistinct, Differ}
use esp32_idf_ascom_alpaca.Routes.Count.{length-register_routes}
use esp32_idf_ascom_alpaca.Platform.{Platform}
use esp32_idf_ascom_alpaca.RollOffRoof.{AzimuthUnits, RollOffRoof, roof_device}
use esp32_idf_ascom_alpaca.Base.Text.{Bytes, codes}
use esp32_idf_ascom_alpaca.Server.Devices.{IsGrouped, new_api-IsGrouped}
use esp32_idf_ascom_alpaca.Device.{device_type, kind_type, type_index}
use esp32_idf_ascom_alpaca.UdpServer.{discovery_start, udp_server_init, start}
use esp32_idf_ascom_alpaca.Routes.NoRepeats.{register_routes-AreDistinct}

All-middle :
    {A : Type 0} (P : A → Type 0) (xs : List A) (y : A) (ys : List A) → All P (xs ++ y ∷ ys) → P y
All-middle P [] y ys (h, hs) = h
All-middle P (x ∷ xs) y ys (h, hs) = All-middle P xs y ys hs

-- What stands before a registration differs from it.
apart_before :
    {W : Type 0} (made : List (Registration W)) (g : Registration W) (gs : List (Registration W))
    → AreDistinct (made ++ g ∷ gs)
    → All (λ h. Differ h g) made
apart_before [] g gs apart = tt
apart_before (m ∷ made) g gs (d, apart) =
    (All-middle (Differ m) made g gs d, apart_before made g gs apart)

module _ {W : Type 0} (register : RegisterHandler W) (h : HasSlots register) (max : ℕ) where
  -- With more registrations than slots, one of them fails.
  too_many :
      (made gs : List (Registration W))
      → length made ≤ max
      → max < length made + length gs
      → register_checked register max made gs ≡ none
  unfolding register_checked
  too_many made [] fit more = absurd (omega arith)
  too_many made (g ∷ gs) fit more = elim (Bool-cases (eq_ℤ (register max made g) esp_ok)) [
    | inl e ↦ elim (Bool-cases (ltb (length made) max)) [
      | inl room ↦ rw e (
          too_many (made ++ g ∷ []) gs (omega (tests, room, length-append made (g ∷ [])))
            (omega (arith, more, length-append made (g ∷ []))))
      | inr full ↦ absurd (h.full max made g (ground arith) (eq_ℤ_sound _ _ e))
    ]
    | inr e ↦ rw e
  ]

  -- With a slot for each, and no two alike, all succeed.
  enough :
      (made gs : List (Registration W))
      → length made + length gs ≤ max
      → AreDistinct (made ++ gs)
      → register_checked register max made gs ≡ some (made ++ gs)
  unfolding register_checked
  enough made [] fit apart = ap some (sym (append-nil made))
  enough made (g ∷ gs) fit apart =
      let e : register max made g ≡ esp_ok =
        h.free max made g (omega arith) (apart_before made g gs apart) in
      let joined : (made ++ g ∷ []) ++ gs ≡ made ++ g ∷ gs = append_assoc made (g ∷ []) gs in
      let done =
        enough (made ++ g ∷ []) gs (omega (arith, fit, length-append made (g ∷ [])))
          (rw joined apart) in
      rw e (done ∙ ap some joined)

module _ (p : Platform) (units : AzimuthUnits) (boot : Boot) where
  -- The devices of the example.
  app_server-IsGrouped : (version : Bytes) → IsGrouped (app_server units boot version).api.devices
  unfolding app_server
  app_server-IsGrouped version =
      new_api-IsGrouped (roof_device units boot.number boot.unique_id ∷ [])
        (codes "MY_DEVICE_SERIAL_NUMBER") (codes "Dark Dragons Alpaca Server")
        (codes "Dark Dragons Astronomy LLC") version (codes "Home")

  -- Three routes of the management API, twelve of a device and 25 of a dome.
  length-app_routes :
      (version : Bytes) → length (register_routes p (app_server units boot version)).0 ≡ 40
  unfolding app_server new_api push_all push_back device_type kind_type roof_device type_index
  length-app_routes version =
      length-register_routes p (app_server units boot version) (app_server-IsGrouped version)

  module _ (register : RegisterHandler RollOffRoof) (slots : HasSlots register) where
    start_routes_small :
        (max : ℕ) (version : Bytes)
        → max < 40
        → start_routes p register max boot (app_server units boot version) ≡ aborted
    unfolding start_routes start_discovery
    start_routes_small max version few =
        let s = app_server units boot version in
        ap (start_discovery boot (register_routes p s).1) (
          too_many register slots max [] (register_routes p s).0 (omega arith)
            (omega (arith, few, length-app_routes version)))

    start_routes_large :
        (max : ℕ) (version : Bytes)
        → 40 ≤ max
        → let (routes, ready) = register_routes p (app_server units boot version) in
          start_routes p register max boot (app_server units boot version)
          ≡ serving routes ready (discovery_start boot.handle_made boot.queue_made boot.config_made)
    unfolding start_routes start_discovery
    start_routes_large max version many =
        let s = app_server units boot version in
        ap (start_discovery boot (register_routes p s).1) (
          enough register slots max [] (register_routes p s).0
            (omega (arith, many, length-app_routes version))
            (register_routes-AreDistinct p s (app_server-IsGrouped version)))

    too_few :
        (v : Option Bytes) (started : Bool) → start_app p units register 32 boot v started ≡ aborted
    unfolding start_app
    too_few none started = refl
    too_few (some version) false = refl
    too_few (some version) true = start_routes_small 32 version (omega arith)

-- The example program aborts at every start, before the discovery is running, as long as
-- `httpd_register_uri_handler` fails once its slots are taken and succeeds while there is one and no
-- handler of the same URI and method: it asks for 32 slots and registers 40
-- handlers.
pub app_main-aborted :
    (p : Platform) (units : AzimuthUnits) (boot : Boot) (register : RegisterHandler RollOffRoof)
    → HasSlots register
    → app_main p units register boot ≡ aborted
unfolding app_main run_app
app_main-aborted p units boot register slots =
    too_few p units boot register slots boot.version boot.httpd_started

discovery_started :
    {A : Type 0} (handle_made queue_made config_made : Bool)
    → handle_made ≡ true
    → queue_made ≡ true
    → config_made ≡ true
    → discovery_start {A = A} handle_made queue_made config_made ≡ some start
unfolding discovery_start udp_server_init
discovery_started _ _ _ a b c = rw (a, b, c)

-- With 40 slots or more, if the description of the running image can be read, the HTTP server
-- starts, and the three allocations of the discovery succeed: the program serves, with every route
-- registered in the order of `register_routes`, and the discovery is started.
pub run_app-serving :
    (p : Platform) (units : AzimuthUnits) (boot : Boot) (register : RegisterHandler RollOffRoof)
    → HasSlots register
    → (max : ℕ) (version : Bytes) → 40 ≤ max
    → boot.version ≡ some version
    → boot.httpd_started ≡ true
    → boot.handle_made ≡ true
    → boot.queue_made ≡ true
    → boot.config_made ≡ true
    → let (routes, ready) = register_routes p (app_server units boot version) in
      run_app p units register max boot ≡ serving routes ready (some start)
unfolding run_app start_app
run_app-serving p units boot register slots max version many e h a b c =
    let (routes, ready) = register_routes p (app_server units boot version) in
    ap (λ v. start_app p units register max boot v boot.httpd_started) e
    ∙ ap (start_app p units register max boot (some version)) h
    ∙ start_routes_large p units boot register slots max version many
    ∙ ap (serving routes ready)
        (discovery_started boot.handle_made boot.queue_made boot.config_made a b c)
