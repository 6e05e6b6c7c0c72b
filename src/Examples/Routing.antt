-- ===== src/Examples/Routing.antt =====
-- The theorems on routes and sequences of requests, at concrete requests.
use esp32_idf_ascom_alpaca.Base.{
  some, ℕ, ◌≡◌, refl, [], ◌∷◌, List, arith, ◌++◌, length, All, ◌^◌, ◌≤◌, ◌<◌,
}
use esp32_idf_ascom_alpaca.Routes.{register_routes, Registration, management_routes}
use esp32_idf_ascom_alpaca.Device.{filter_wheel, type_index, DeviceType, safety_monitor}
use esp32_idf_ascom_alpaca.Request.{Fault}
use esp32_idf_ascom_alpaca.Base.Text.{codes}
use esp32_idf_ascom_alpaca.Routes.Session.{serve, route-IsAnswered, route-Keeps, serve_total}
use esp32_idf_ascom_alpaca.Handler.Contract.{IsAnswered, Accounts}
use esp32_idf_ascom_alpaca.Handler.{
  device_handler, answer_not_implemented, call_method, with_device,
}
use esp32_idf_ascom_alpaca.Routes.Uri.{served, with_device_route}
use esp32_idf_ascom_alpaca.Handler.Casts.{as_filter_wheel}
use esp32_idf_ascom_alpaca.Handler.Args.{int_arg, no_value}
use esp32_idf_ascom_alpaca.Handler.Prologue.{rooted}
use esp32_idf_ascom_alpaca.Routes.Serving.{device_handler_route}
use esp32_idf_ascom_alpaca.Request.Answers.{Outcome}
use esp32_idf_ascom_alpaca.Routes.Registered.{Registers, register_routes-Registers}
use esp32_idf_ascom_alpaca.Examples.{
  filling, platform, server, put_position, wheel_ops, position_route, wheel, grouped, known_type,
  position_IsRouteOf, wheel_there, position_FitsBuffer, wheel_uri, by_type, observatory,
}
use esp32_idf_ascom_alpaca.Routes.Once.{AreDistinct}
use esp32_idf_ascom_alpaca.Routes.NoRepeats.{register_routes-AreDistinct}
use esp32_idf_ascom_alpaca.Routes.Length.{length-registered_uri}
use esp32_idf_ascom_alpaca.Server.{Server}

device_handler_route_example :
    device_handler filter_wheel as_filter_wheel answer_not_implemented
      (int_arg "Position")
      (λ o v. o.put_position v)
      no_value
      platform
      put_position
      server
    ≡ call_method platform
        (served put_position server)
        (rooted server)
        no_value
        (λ v. wheel_ops.put_position v)
        (int_arg "Position" platform (served put_position server))
device_handler_route_example =
    device_handler_route put_position server filter_wheel 0 wheel (codes "position")
      (known_type (unfold type_index in omega arith)) (omega arith) wheel_there wheel_uri
      (omega arith) as_filter_wheel wheel_ops (unfold as_filter_wheel in refl)
      answer_not_implemented (int_arg "Position") (λ o v. o.put_position v) no_value platform

route-IsAnswered_example : IsAnswered (position_route.handler platform put_position server)
route-IsAnswered_example =
    route-IsAnswered wheel position_route position_IsRouteOf platform put_position server grouped
      filling position_FitsBuffer

route-Keeps_example : Accounts server (position_route.handler platform put_position server)
route-Keeps_example =
    route-Keeps wheel position_route position_IsRouteOf platform put_position server

serve_total_example :
    (s' : Server ℕ) × (serve platform
        ((position_route, put_position) ∷ (position_route, put_position) ∷ [])
        server
      ≡ some s')
    × (s'.api ≡ record observatory { server_transaction_id = 43 })
serve_total_example =
    serve_total platform ((position_route, put_position) ∷ (position_route, put_position) ∷ [])
      server grouped filling (omega arith)
      (
        ((wheel, position_IsRouteOf), position_FitsBuffer),
        (((wheel, position_IsRouteOf), position_FitsBuffer), tt),
      )

with_device_route_example :
    with_device (λ r d req s'. Outcome.fault Fault.null_device) put_position server
    ≡ Outcome.fault Fault.null_device
with_device_route_example =
    with_device_route put_position server filter_wheel 0 wheel (codes "position")
      (known_type (unfold type_index in omega arith)) (omega arith) wheel_there wheel_uri
      (omega arith) (λ r d req s'. Outcome.fault Fault.null_device)

register_routes-Registers_example :
    (rs : List (Registration ℕ)) × ((register_routes platform server).0 ≡ management_routes ++ rs)
    × All (Registers (register_routes platform server).1.api) rs
register_routes-Registers_example = register_routes-Registers platform server grouped

register_routes-AreDistinct_example : AreDistinct (register_routes platform server).0
register_routes-AreDistinct_example = register_routes-AreDistinct platform server grouped

few_devices : (t : DeviceType) → length (by_type t) ≤ 2 ^ 31
unfolding by_type
few_devices filter_wheel = omega arith
few_devices safety_monitor = omega arith
few_devices _ = omega arith

length-registered_uri_example : All (λ g. length g.uri < 128) (register_routes platform server).0
length-registered_uri_example = length-registered_uri platform server grouped few_devices
