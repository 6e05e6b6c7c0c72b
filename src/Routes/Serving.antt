-- ===== src/Routes/Serving.antt =====
-- What a request on a registered URI does: which method of which device it calls, and with what.
use esp32_idf_ascom_alpaca.Base.{
  ℕ, ◌%◌, ◌≤◌, ◌<◌, ◌≡◌, ◌∙◌, ◌≢◌, Option, some, arith, length, get_elem?,
}
use esp32_idf_ascom_alpaca.Device.{unknown, DeviceType, Device, Kind, Method}
use esp32_idf_ascom_alpaca.Request.{HttpdReq, AlpacaRequest}
use esp32_idf_ascom_alpaca.Server.{Server}
use esp32_idf_ascom_alpaca.Base.Text.{Bytes}
use esp32_idf_ascom_alpaca.Route.{route_uri}
use esp32_idf_ascom_alpaca.Device.Names.{uri_device_type}
use esp32_idf_ascom_alpaca.Handler.{device_handler, call_downcast, call_method}
use esp32_idf_ascom_alpaca.Platform.{Added, Platform}
use esp32_idf_ascom_alpaca.Request.Answers.{Outcome}
use esp32_idf_ascom_alpaca.Routes.Uri.{served, with_device_route, served-target}
use esp32_idf_ascom_alpaca.Handler.Prologue.{rooted}
use esp32_idf_ascom_alpaca.Server.Devices.{type_eq_refl}

module _ {W : Type 0} (req : HttpdReq) (s : Server W) (t : DeviceType) (i : ℕ) (d : Device W)
    (endpoint : Bytes) (known : t ≢ unknown) (fits : i < 256)
    (there : get_elem? (s.api.devices t) i ≡ some d)
    (uri : req.uri ≡ route_uri (uri_device_type t 32) i endpoint)
    (short : length req.query ≤ 512) where
  same_number : get_elem? (s.api.devices t) (i % 256) ≡ some d
  same_number = let e : i % 256 ≡ i = omega arith in rw e there

  -- A handler of a class, on the URI of device `i` of the class's type `t` (other than unknown, `i`
  -- below 256, with a query of at most 512 bytes), if the device is of the class that the handler
  -- casts to, calls its method on that device with the parameters that it reads from the request,
  -- or answers 400 where it reads none.
  pub device_handler_route :
      {O A B : Type 0} (cast : Kind W → Option O) (ops : O)
      → cast d.kind ≡ some ops
      → (mismatch : Platform → AlpacaRequest → Server W → Outcome W)
        (read : Platform → AlpacaRequest → Option A) (call : O → A → Method W B) (value : B → Added)
        (p : Platform)
      → device_handler t cast mismatch read call value p req s
        ≡ call_method p (served req s) (rooted s) value (call ops) (read p (served req s))
  unfolding device_handler call_downcast
  device_handler_route cast ops e mismatch read call value p =
      with_device_route req s t i d endpoint known (omega arith) same_number uri short _
      ∙ (let (a, b) =
            served-target req s t i d endpoint known (omega arith) same_number uri short in
          rw a (rw (type_eq_refl t) (rw e)))
