-- ===== src/RollOffRoof/Session.antt =====
-- What the example driver remembers from one request to the next.
use esp32_idf_ascom_alpaca.Base.{
  ℕ, ◌<◌, ◌≤◌, ◌≡◌, refl, ap, ◌∙◌, some, [], ◌∷◌, length, get_elem?, ◌-◌, ◌≢◌, true, false, arith,
  pos,
}
use esp32_idf_ascom_alpaca.Platform.{Platform, Value, int, bool, Added, item}
use esp32_idf_ascom_alpaca.Server.{Server}
use esp32_idf_ascom_alpaca.RollOffRoof.{
  AzimuthUnits, RollOffRoof, roof_device, roof_dome_ops, becomes, returns,
}
use esp32_idf_ascom_alpaca.Base.Text.{Bytes, codes}
use esp32_idf_ascom_alpaca.Handler.Prologue.{rooted}
use esp32_idf_ascom_alpaca.Request.{HttpdReq, count_request}
use esp32_idf_ascom_alpaca.Device.{
  dome, DomeOps, Method, type_index, shutter_state_value, DeviceType, ShutterState,
}
use esp32_idf_ascom_alpaca.Route.{route_uri}
use esp32_idf_ascom_alpaca.Routes.Session.{after}
use esp32_idf_ascom_alpaca.Handler.{answer, call_method, device_handler, answer_not_implemented}
use esp32_idf_ascom_alpaca.Device.Names.{uri_device_type}
use esp32_idf_ascom_alpaca.Server.Errors.{check_return}
use esp32_idf_ascom_alpaca.Request.Answers.{send_json_response, Handler}
use esp32_idf_ascom_alpaca.Handler.Casts.{as_dome}
use esp32_idf_ascom_alpaca.Handler.Args.{no_args, no_value, uint_value, bool_value, if_written}
use esp32_idf_ascom_alpaca.Routes.Uri.{served}
use esp32_idf_ascom_alpaca.Routes.Serving.{device_handler_route}
use esp32_idf_ascom_alpaca.Handler.Dome.{
  handle_get_dome_athome, handle_put_dome_closeshutter, handle_put_dome_findhome,
  handle_put_dome_openshutter, handle_get_dome_shutterstatus,
}

known_dome : DeviceType.dome ≢ DeviceType.unknown
unfolding type_index
known_dome e = let q : 3 ≡ 0 = ap type_index e in absurd (omega (arith, q))

-- What a dome's handler with no parameter makes of a method that succeeds.
module _ {B : Type 0} (p : Platform) (units : AzimuthUnits) (number : ℕ) (id : Bytes) (i : ℕ)
    (fits : i < 256) (req : HttpdReq) (s : Server RollOffRoof)
    (there : get_elem? (s.api.devices dome) i ≡ some (roof_device units number id))
    (endpoint : Bytes) (uri : req.uri ≡ route_uri (uri_device_type dome 32) i endpoint)
    (short : length req.query ≤ 512) (call : DomeOps RollOffRoof → Unit {0} → Method RollOffRoof B)
    (value : B → Added) where
  dome_answers :
      device_handler dome as_dome answer_not_implemented no_args call value p req s
      ≡ answer p (served req s) value (call (roof_dome_ops units) tt s.world) (rooted s)
  unfolding roof_device as_dome call_method count_request
  dome_answers =
      device_handler_route req s dome i (roof_device units number id) endpoint known_dome fits there
        uri short as_dome (roof_dome_ops units) refl answer_not_implemented no_args call value p

-- The state behind an answered request.
abbrev pub settled : Server RollOffRoof → RollOffRoof → Server RollOffRoof
settled s roof = record (rooted s) { world = roof; live_json = (rooted s).live_json - 2 }

module _ (p : Platform) (units : AzimuthUnits) (number : ℕ) (id : Bytes) (i : ℕ) (fits : i < 256)
    (s : Server RollOffRoof)
    (there : get_elem? (s.api.devices dome) i ≡ some (roof_device units number id))
    (put get : HttpdReq) (short_put : length put.query ≤ 512)
    (short_get : length get.query ≤ 512) where
  -- A command that succeeds.
  commanded :
      (endpoint : Bytes)
      → put.uri ≡ route_uri (uri_device_type dome 32) i endpoint
      → (call : DomeOps RollOffRoof → Unit {0} → Method RollOffRoof (Unit {0})) (roof : RollOffRoof)
      → call (roof_dome_ops units) tt s.world ≡ becomes roof
      → after (device_handler dome as_dome answer_not_implemented no_args call no_value p put s)
        ≡ some (settled s roof)
  unfolding after answer check_return send_json_response count_request
  commanded endpoint uri call roof e =
      ap after
        (dome_answers p units number id i fits put s there endpoint uri short_put call no_value)
      ∙ ap (λ c. after (answer p (served put s) no_value c (rooted s))) e

  -- What a query gives after it.
  reported :
      {B : Type 0} (endpoint : Bytes)
      → get.uri ≡ route_uri (uri_device_type dome 32) i endpoint
      → (call : DomeOps RollOffRoof → Unit {0} → Method RollOffRoof B) (value : B → Added)
        (roof : RollOffRoof) (v : Value)
      → (b : B) → call (roof_dome_ops units) tt roof ≡ returns b roof
      → value b ≡ item v
      → device_handler dome as_dome answer_not_implemented no_args call value p get (settled s roof)
        ≡ send_json_response p
            (served get (settled s roof))
            ((codes "Value", v) ∷ [])
            200
            (rooted (settled s roof))
  unfolding answer check_return send_json_response count_request
  reported endpoint uri call value roof v b e f =
      dome_answers p units number id i fits get (settled s roof) there endpoint uri short_get call
        value
      ∙ ap (λ c. answer p (served get (settled s roof)) value c (rooted (settled s roof))) e
      ∙ rw f

  -- The handler `set` succeeds, and then the handler `query` answers with `v`.
  abbrev pub Remembers :
      (Platform → Handler RollOffRoof) → (Platform → Handler RollOffRoof) → Value → Type 0
  Remembers set query v =
      (s' : Server RollOffRoof) × (after (set p put s) ≡ some s')
      × (query p get s'
          ≡ send_json_response p (served get s') ((codes "Value", v) ∷ []) 200 (rooted s'))

  -- Two requests on the URIs of dome `i` (below 256, with queries of at most 512 bytes), where that
  -- dome is the example's roof, in whatever state it is: behind a PUT openshutter, GET shutterstatus
  -- answers 0 (open); behind closeshutter it answers 1 (closed); behind findhome, GET athome answers
  -- true.
  pub roof_session :
      (to from : Bytes)
      → put.uri ≡ route_uri (uri_device_type dome 32) i to
      → get.uri ≡ route_uri (uri_device_type dome 32) i from
      → Remembers handle_put_dome_openshutter handle_get_dome_shutterstatus (int (pos 0))
        × Remembers handle_put_dome_closeshutter handle_get_dome_shutterstatus (int (pos 1))
        × Remembers handle_put_dome_findhome handle_get_dome_athome (bool true)
  unfolding handle_put_dome_openshutter handle_put_dome_closeshutter handle_put_dome_findhome
      handle_get_dome_shutterstatus handle_get_dome_athome roof_dome_ops shutter_state_value
  roof_session to from uri_put uri_get =
      let opened = record (s.world) { shutterstatus = ShutterState.opened } in
      let closed = record (s.world) { shutterstatus = ShutterState.closed } in
      let home = record (s.world) { azimuth_centi_degrees = 0 } in
      (
        (
          settled s opened,
          commanded to uri_put (λ o a. o.put_openshutter) opened refl,
          reported from uri_get (λ o a. o.get_shutterstatus)
              (if_written (λ v. uint_value (shutter_state_value v))) opened _
              (some ShutterState.opened) refl refl,
        ),
        (
          settled s closed,
          commanded to uri_put (λ o a. o.put_closeshutter) closed refl,
          reported from uri_get (λ o a. o.get_shutterstatus)
              (if_written (λ v. uint_value (shutter_state_value v))) closed _
              (some ShutterState.closed) refl refl,
        ),
        (
          settled s home,
          commanded to uri_put (λ o a. o.put_findhome) home refl,
          reported from uri_get (λ o a. o.get_athome false) bool_value home _ true refl refl,
        ),
      )
