-- ===== src/Routes/Session.antt =====
-- Single requests, and sequences of them, on the routes that are registered for devices.
use esp32_idf_ascom_alpaca.Base.{
  ℕ, ◌+◌, ◌%◌, ◌^◌, ◌<◌, ◌≡◌, refl, ap, Option, none, some, List, [], ◌∷◌, arith, length, get_elem?,
  All, All-get_elem?, ◌∙◌,
}
use esp32_idf_ascom_alpaca.Request.Answers.{done, fault, Outcome}
use esp32_idf_ascom_alpaca.Routes.{device_routes}
use esp32_idf_ascom_alpaca.Device.{Device}
use esp32_idf_ascom_alpaca.Platform.{Platform}
use esp32_idf_ascom_alpaca.Route.{Route}
use esp32_idf_ascom_alpaca.Request.{HttpdReq, next_id}
use esp32_idf_ascom_alpaca.Server.{Server, Api}
use esp32_idf_ascom_alpaca.Handler.Contract.{AllFill, IsAnswered, Accounts, FitsBuffer}
use esp32_idf_ascom_alpaca.Server.Devices.{IsGrouped}
use esp32_idf_ascom_alpaca.Routes.Contract.{KeepsContract, device_routes-KeepsContract}

-- The route is one of a device's, and the device type's text in the URI fits its buffer.
abbrev pub IsRouteOf : {W : Type 0} → Device W → Route W → Type 0
IsRouteOf d r = (j : ℕ) × (get_elem? (device_routes d) j ≡ some r)

-- A request to a handler that is registered for a device, whatever the request, the state and the
-- drivers, if it does not end in undefined behaviour: the API object keeps all but the transaction
-- counter, which goes up by one, and the message handler stays. Either the answer is 200, and both
-- documents are freed; or it is 400 or 404, no driver's state has changed, and the request's
-- document is left allocated.
pub route-Keeps :
    {W : Type 0} (d : Device W) (r : Route W)
    → IsRouteOf d r
    → (p : Platform) (req : HttpdReq) (s : Server W) → Accounts s (r.handler p req s)
route-Keeps d r (j, e) p req s =
    (All-get_elem? KeepsContract (device_routes d) j (device_routes-KeepsContract d) e p).accounts
      req s

-- A request to a handler that is registered for a device ends in no undefined behaviour, if each list
-- of devices holds devices of its own type only, every driver that reports success has written the
-- variable or the buffer that the handler leaves to it uninitialised, and the device type's text in
-- the URI has at most 31 bytes: there is a device at the index, it is cast to its own class, no buffer
-- overflows, and nothing is read that was never written. `get_name`, and a message handler that reports
-- success, are taken to write their buffers always.
pub route-IsAnswered :
    {W : Type 0} (d : Device W) (r : Route W)
    → IsRouteOf d r
    → (p : Platform) (req : HttpdReq) (s : Server W) → IsGrouped s.api.devices
    → AllFill s.api.devices
    → FitsBuffer req.uri
    → IsAnswered (r.handler p req s)
route-IsAnswered d r (j, e) p req s grouped fill fits =
    (All-get_elem? KeepsContract (device_routes d) j (device_routes-KeepsContract d) e p).safe req s
      grouped fill fits

-- The state behind a handler that returns.
unfoldable pub after : {W : Type 0} → Outcome W → Option (Server W)
after (fault f) = none
after (done err resp s) = some s

-- The requests are served one after the other.
unfoldable pub serve :
    {W : Type 0} → Platform → List (Route W × HttpdReq) → Server W → Option (Server W)
serve p [] s = some s
serve p ((r, req) ∷ es) s = elim (after (r.handler p req s)) [
  | none ↦ none
  | some s' ↦ serve p es s'
]

-- Each request is one to a route of some device, with a URI that fits.
abbrev pub AreRouted : {W : Type 0} → List (Route W × HttpdReq) → Type 0
AreRouted {W} = All (λ e. ((d : Device W) × IsRouteOf d e.0) × FitsBuffer e.1.uri)

-- One request, with its state.
after_route :
    {W : Type 0} (o : Outcome W) (s : Server W)
    → Accounts s o
    → IsAnswered o
    → (s' : Server W) × (after o ≡ some s')
      × (s'.api ≡ record (s.api) { server_transaction_id = next_id s.api.server_transaction_id })
unfolding after
after_route (fault f) s k a = absurd a
after_route (done err resp s') s k a = (s', refl, k.api)

-- From a state whose devices are grouped by type, whose drivers write what the handlers leave to them
-- uninitialised wherever they report success, and whose transaction counter is below 2^32, any number
-- of requests to routes of devices, with URIs whose device type fits its buffer, is served, one after
-- the other, with no undefined behaviour. Then the transaction counter has gone up by their number,
-- modulo 2^32, and the API object is otherwise the same. `get_name`, and a message handler that reports
-- success, are taken to write their buffers always.
pub serve_total :
    {W : Type 0} (p : Platform) (es : List (Route W × HttpdReq)) (s : Server W)
    → IsGrouped s.api.devices
    → AllFill s.api.devices
    → s.api.server_transaction_id < 2 ^ 32
    → AreRouted es
    → (s' : Server W) × (serve p es s ≡ some s')
      × (s'.api ≡ record (s.api) {
        server_transaction_id = (s.api.server_transaction_id + length es) % 2 ^ 32;
      })
unfolding serve
serve_total {W} p [] s grouped fill fits h =
    (s, refl, ap (λ (n : ℕ). record (s.api) { server_transaction_id = n }) (omega arith))
serve_total {W} p ((r, req) ∷ es) s grouped fill fits (((d, is_route), short), hs) =
    let (s', e, same) =
      after_route (r.handler p req s) s (route-Keeps d r is_route p req s)
        (route-IsAnswered d r is_route p req s grouped fill short) in
    let grouped' : IsGrouped s'.api.devices = rw same grouped in
    let fill' : AllFill s'.api.devices = rw same fill in
    let below : s'.api.server_transaction_id < 2 ^ 32 = rw same (omega arith) in
    let (s'', e', same') = serve_total p es s' grouped' fill' below hs in
    (
      s'',
      rw (e, serve) e',
      same'
          ∙ ap
              (λ (a : Api W). record a {
                server_transaction_id = (a.server_transaction_id + length es) % 2 ^ 32;
              })
              same
          ∙ ap (λ (n : ℕ). record (s.api) { server_transaction_id = n }) (omega arith),
    )
