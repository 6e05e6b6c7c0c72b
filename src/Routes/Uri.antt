-- ===== src/Routes/Uri.antt =====
-- From a registered URI back to the device: the request on a route of a device is served by
-- that device.
use esp32_idf_ascom_alpaca.Device.{
  dome, switch, filter_wheel, unknown, camera, rotator, safety_monitor, telescope, focuser,
  cover_calibrator, observing_conditions, DeviceType, type_eq, Device,
}
use mathlib.Core.List.{cons-ne-nil}
use esp32_idf_ascom_alpaca.Base.{
  ℕ, ◌%◌, ◌^◌, ◌≤◌, ◌<◌, ◌≡◌, ◌≢◌, [], arith, length, zero, suc, ap, ◌∙◌, inl, inr, false, some,
  List, ◌∷◌, ltb, leb, Bool-cases, get_elem?,
}
use esp32_idf_ascom_alpaca.Device.Names.{
  uri_device_type, parse_device_type, parse_device_type-uri_device_type,
}
use esp32_idf_ascom_alpaca.Base.Text.Laws.{Lacks}
use esp32_idf_ascom_alpaca.Base.Text.{Bytes}
use esp32_idf_ascom_alpaca.Request.{
  scan_uri, HttpdReq, AlpacaRequest, new_request, find_device, parse_request, read_parameters,
  parsed, count_request,
}
use esp32_idf_ascom_alpaca.Route.{route_uri}
use esp32_idf_ascom_alpaca.Request.Uri.{scan_uri-route_uri}
use esp32_idf_ascom_alpaca.Server.Devices.{type_eq_sound}
use esp32_idf_ascom_alpaca.Server.{Server, esp_ok}
use esp32_idf_ascom_alpaca.Handler.{with_device, with_parsed, with_element}
use esp32_idf_ascom_alpaca.Request.Answers.{Handler}
use esp32_idf_ascom_alpaca.Handler.Prologue.{rooted}
use esp32_idf_ascom_alpaca.Request.Parsing.{read_parameters-IsSameTarget}

-- The type's text in a URI has 1 to 19 bytes and no slash.
pub type_text :
    (t : DeviceType)
    → Lacks b'/' (uri_device_type t 32)
      × (uri_device_type t 32 ≢ [])
      × (length (uri_device_type t 32) ≤ 19)
unfolding uri_device_type
type_text unknown = (omega arith, cons-ne-nil _ _, omega arith)
type_text camera = (omega arith, cons-ne-nil _ _, omega arith)
type_text cover_calibrator = (omega arith, cons-ne-nil _ _, omega arith)
type_text dome = (omega arith, cons-ne-nil _ _, omega arith)
type_text filter_wheel = (omega arith, cons-ne-nil _ _, omega arith)
type_text focuser = (omega arith, cons-ne-nil _ _, omega arith)
type_text observing_conditions = (omega arith, cons-ne-nil _ _, omega arith)
type_text rotator = (omega arith, cons-ne-nil _ _, omega arith)
type_text safety_monitor = (omega arith, cons-ne-nil _ _, omega arith)
type_text switch = (omega arith, cons-ne-nil _ _, omega arith)
type_text telescope = (omega arith, cons-ne-nil _ _, omega arith)

-- What the URI of a route is read as, for the buffers of the source.
pub scan_uri_route :
    (t : DeviceType) (i : ℕ) (rest : Bytes)
    → i < 2 ^ 31
    → scan_uri (route_uri (uri_device_type t 32) i rest) ≡ (uri_device_type t 32, i % 256)
scan_uri_route t i rest fits =
    let (a, b, c) = type_text t in
    scan_uri-route_uri (uri_device_type t 32) i rest a b (omega arith) fits

in_range {ℓ} :
    {A : Type ℓ} (xs : List A) (i : ℕ) {x : A} → get_elem? xs i ≡ some x → leb (length xs) i ≡ false
in_range [] i e = cc
in_range (y ∷ xs) zero e = ground arith
in_range (y ∷ xs) (suc i) e = let h = in_range xs i e in ground arith

type_eq_ne : (a b : DeviceType) → a ≢ b → type_eq a b ≡ false
type_eq_ne a b h = elim (Bool-cases (type_eq a b)) [
  | inl e ↦ absurd (h (type_eq_sound a b e))
  | inr e ↦ e
]

-- A request with its parameters.
abbrev pub served : {W : Type 0} → HttpdReq → Server W → AlpacaRequest
served req s = read_parameters req (new_request req s)

module _ {W : Type 0} (req : HttpdReq) (s : Server W) (t : DeviceType) (i : ℕ) (d : Device W)
    (endpoint : Bytes) (known : t ≢ unknown) (fits : i < 2 ^ 31)
    (there : get_elem? (s.api.devices t) (i % 256) ≡ some d)
    (uri : req.uri ≡ route_uri (uri_device_type t 32) i endpoint)
    (short : length req.query ≤ 512) where
  scanned : scan_uri req.uri ≡ (uri_device_type t 32, i % 256)
  scanned = rw uri (scan_uri_route t i endpoint fits)

  pub served-target : ((served req s).device_type ≡ t) × ((served req s).device_number ≡ i % 256)
  unfolding new_request
  served-target =
      let (a, b, c) = read_parameters-IsSameTarget req (new_request req s) in
      (
        b
            ∙ ap (λ (p : Bytes × ℕ). parse_device_type p.0) scanned
            ∙ parse_device_type-uri_device_type t,
        a ∙ ap (λ (p : Bytes × ℕ). p.1) scanned,
      )

  served-found : find_device (served req s) s ≡ esp_ok
  unfolding find_device
  served-found =
      rw (served-target.0, served-target.1, type_eq_ne t unknown known, in_range _ _ there)

  parse_request_route : parse_request req s ≡ parsed esp_ok (served req s) (count_request s)
  unfolding parse_request
  parse_request_route =
      let (a, b, c) = type_text t in
      let small : ltb 31 (length (scan_uri req.uri).0) ≡ false = rw scanned (ground arith) in
      let brief : ltb 512 (length req.query) ≡ false = ground arith in
      rw (small, brief, served-found)

  -- A request on the URI that is registered for number `i`, below 2^31, of a type `t` other than
  -- unknown, with a query of at most 512 bytes, runs the rest of the handler on the device of that
  -- type with number `i % 256`, if there is one.
  pub with_device_route :
      (k : AlpacaRequest → Device W → Handler W)
      → with_device k req s ≡ k (served req s) d req (rooted s)
  unfolding with_device with_parsed with_element count_request
  with_device_route k = rw (parse_request_route) (rw (served-target.0, served-target.1) (rw there))
