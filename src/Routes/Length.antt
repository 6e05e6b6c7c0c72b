-- ===== src/Routes/Length.antt =====
-- The buffer of 128 bytes that `register_device_routes` writes its URIs into is long enough.
use esp32_idf_ascom_alpaca.Base.{
  ℕ, zero, suc, ◌+◌, ◌*◌, ◌/◌, ◌%◌, ◌^◌, ◌≤◌, ◌<◌, ◌≡◌, ap, inl, inr, true, some, List, [], ◌∷◌,
  ◌++◌, arith, ltb, leb, Bool-cases, length, get_elem?, All, All-append, length-append, tests,
  ltb→lt, All-get_elem?, All-map, leb→le,
}
use esp32_idf_ascom_alpaca.Route.Tables.{
  dome_routes, cover_calibrator_routes, filter_wheel_routes, focuser_routes,
  observing_conditions_routes, safety_monitor_routes, common_routes, rotator_routes, switch_routes,
}
use esp32_idf_ascom_alpaca.Device.{DeviceType, Device, device_type}
use esp32_idf_ascom_alpaca.Routes.{
  register_routes, device_routes, class_routes, management_routes, Registration,
}
use esp32_idf_ascom_alpaca.Base.Text.{print_ℕ, Bytes}
use esp32_idf_ascom_alpaca.Route.{Route, route_uri}
use esp32_idf_ascom_alpaca.Platform.{Platform}
use esp32_idf_ascom_alpaca.Base.Text.Decimal.{print_ℕ_digit, print_ℕ_snoc}
use esp32_idf_ascom_alpaca.Device.Names.{uri_device_type}
use esp32_idf_ascom_alpaca.Server.{Server}
use esp32_idf_ascom_alpaca.Routes.Uri.{type_text}
use esp32_idf_ascom_alpaca.Server.Devices.{IsGrouped}
use esp32_idf_ascom_alpaca.Routes.Registered.{Registers, register_routes-Registers}
use esp32_idf_ascom_alpaca.UniqueId.{initialize}
use esp32_idf_ascom_alpaca.UniqueId.Frame.{length-initialize}

-- A bound on the digits below `m` gives one for the numbers with a digit more.
one_more_digit :
    (m k : ℕ)
    → ((n : ℕ) → n < m → length (print_ℕ n) ≤ k)
    → (n : ℕ) → n < 10 * m
    → length (print_ℕ n) ≤ k + 1
one_more_digit m k bound n h = elim (Bool-cases (ltb n 10)) [
  | inl e ↦ omega (tests, e, ap (λ (s : Bytes). length s) (print_ℕ_digit n (ltb→lt n 10 e)))
  | inr e ↦
      let big : 10 ≤ n = ground arith in
      let front : 0 < n / 10 = omega arith in
      let whole : n / 10 * 10 + n % 10 ≡ n = omega arith in
      let printed = print_ℕ_snoc (n / 10) (n % 10) front (omega arith) in
      omega (
        arith,
        ap (λ (q : ℕ). length (print_ℕ q)) whole,
        ap (λ (s : Bytes). length s) printed,
        length-append (print_ℕ (n / 10)) ((b'0' + n % 10) ∷ []),
        bound (n / 10) (omega arith),
      )
]

one_digit : (n : ℕ) → n < 10 → length (print_ℕ n) ≤ 1
one_digit n h = omega (arith, ap (λ (s : Bytes). length s) (print_ℕ_digit n h))

length-print_ℕ : (n : ℕ) → n < 2 ^ 31 → length (print_ℕ n) ≤ 10
length-print_ℕ n h =
    one_more_digit 1000000000 9
      (one_more_digit 100000000 8 (
        one_more_digit 10000000 7 (
          one_more_digit 1000000 6 (
            one_more_digit 100000 5 (
              one_more_digit 10000 4
                (one_more_digit 1000 3 (one_more_digit 100 2 (one_more_digit 10 1 one_digit))))))))
      n (omega arith)

-- The endpoint of a route has at most 22 bytes.
abbrev pub IsShort : {W : Type 0} → Route W → Type 0
IsShort r = leb (length r.endpoint) 22 ≡ true

class_routes-IsShort : (W : Type 0) (t : DeviceType) → All IsShort (class_routes {W = W} t)
unfolding class_routes cover_calibrator_routes dome_routes filter_wheel_routes focuser_routes
    observing_conditions_routes rotator_routes safety_monitor_routes switch_routes
class_routes-IsShort W DeviceType.unknown = tt
class_routes-IsShort W DeviceType.camera = tt
class_routes-IsShort W DeviceType.telescope = tt
class_routes-IsShort W DeviceType.cover_calibrator = search
class_routes-IsShort W DeviceType.dome = search
class_routes-IsShort W DeviceType.filter_wheel = search
class_routes-IsShort W DeviceType.focuser = search
class_routes-IsShort W DeviceType.observing_conditions = search
class_routes-IsShort W DeviceType.rotator = search
class_routes-IsShort W DeviceType.safety_monitor = search
class_routes-IsShort W DeviceType.switch = search

common_routes-IsShort : (W : Type 0) (name : Bytes) → All IsShort (common_routes {W = W} name)
unfolding common_routes
common_routes-IsShort W name = search

device_routes-IsShort : {W : Type 0} (d : Device W) → All IsShort (device_routes d)
unfolding device_routes
device_routes-IsShort {W} d =
    All-append IsShort (common_routes (uri_device_type (device_type d) 32))
      (class_routes (device_type d)) (common_routes-IsShort W (uri_device_type (device_type d) 32))
      (class_routes-IsShort W (device_type d))

length-route_uri :
    (t : DeviceType) (i : ℕ) (e : Bytes)
    → i < 2 ^ 31
    → length e ≤ 22
    → length (route_uri (uri_device_type t 32) i e) < 128
unfolding route_uri
length-route_uri t i e fits short =
    let (_, _, name) = type_text t in
    omega (
      arith,
      name,
      length-append (uri_device_type t 32) (b'/' ∷ (print_ℕ i ++ b'/' ∷ e)),
      length-append (print_ℕ i) (b'/' ∷ e),
      length-print_ℕ i fits,
    )

in_list {ℓ} : {A : Type ℓ} (xs : List A) (i : ℕ) {x : A} → get_elem? xs i ≡ some x → i < length xs
in_list [] i e = cc
in_list (y ∷ xs) zero e = omega arith
in_list (y ∷ xs) (suc i) e = let h = in_list xs i e in omega arith

management_routes-fit : (W : Type 0) → All (λ g. length g.uri < 128) (management_routes {W = W})
unfolding management_routes
management_routes-fit W = omega arith

Registers-fit :
    {W : Type 0} (p : Platform) (s : Server W)
    → ((t : DeviceType) → length (s.api.devices t) ≤ 2 ^ 31)
    → (g : Registration W) → Registers (register_routes p s).1.api g
    → length g.uri < 128
unfolding register_routes
Registers-fit p s few g (t, i, d, r, there, (j, at_j), uri, _, _) =
    let below : i < length ((initialize p s).api.devices t) =
      in_list ((initialize p s).api.devices t) i there in
    let endpoint : leb (length r.endpoint) 22 ≡ true =
      All-get_elem? IsShort (device_routes d) j (device_routes-IsShort d) at_j in
    rw uri (
      length-route_uri t i r.endpoint (omega (arith, below, length-initialize p s t, few t))
        (leb→le (length r.endpoint) 22 endpoint))

-- If each list of devices holds devices of its own type only, and at most 2^31 of them, then every
-- URI that `register_routes` registers has less than 128 bytes, so it fits its buffer with its NUL.
pub length-registered_uri :
    {W : Type 0} (p : Platform) (s : Server W)
    → IsGrouped s.api.devices
    → ((t : DeviceType) → length (s.api.devices t) ≤ 2 ^ 31)
    → All (λ g. length g.uri < 128) (register_routes p s).0
length-registered_uri {W} p s grouped few =
    let fits = λ (g : Registration W). length g.uri < 128 in
    let (rs, all, each) = register_routes-Registers p s grouped in
    rw all (
      All-append fits management_routes rs (management_routes-fit W)
        (All-map (Registers (register_routes p s).1.api) fits (Registers-fit p s few) rs each))
