-- ===== src/Routes/Once.antt =====
-- No URI and method are registered twice, so no registration fails because its handler exists.
use esp32_idf_ascom_alpaca.Base.{
  ℕ, ◌≡◌, refl, ◌≢◌, Bool, true, false, not, ◌&&◌, List, [], ◌∷◌, ◌++◌, All, All-append, All-map,
  suc, ◌≤◌, sym, ap, ◌∙◌, arith,
}
use esp32_idf_ascom_alpaca.Route.Tables.{
  cover_calibrator_routes, safety_monitor_routes, rotator_routes, focuser_routes, dome_routes,
  switch_routes, observing_conditions_routes, common_routes, filter_wheel_routes,
}
use esp32_idf_ascom_alpaca.Device.{DeviceType, Device, device_type}
use esp32_idf_ascom_alpaca.Routes.{
  class_routes, Registration, register_all, device_routes, register_devices,
}
use esp32_idf_ascom_alpaca.Route.{HttpMethod, Route, route_uri}
use esp32_idf_ascom_alpaca.Base.Text.{str_eq, Bytes}
use esp32_idf_ascom_alpaca.Routes.Registered.{NamesType, device_routes-NamesType}
use esp32_idf_ascom_alpaca.Base.Text.Laws.{str_eq_refl}
use esp32_idf_ascom_alpaca.Routes.Distinct.{route_uri-injective}
use esp32_idf_ascom_alpaca.Device.Names.{uri_device_type}

abbrev pub method_eq : HttpMethod → HttpMethod → Bool
method_eq HttpMethod.http_get HttpMethod.http_get = true
method_eq HttpMethod.http_put HttpMethod.http_put = true
method_eq _ _ = false

abbrev pub same_route : {W : Type 0} → Route W → Route W → Bool
same_route r q = str_eq r.endpoint q.endpoint && method_eq r.method q.method

unfoldable apart_from : {W : Type 0} → Route W → List (Route W) → Bool
apart_from r [] = true
apart_from r (q ∷ rs) = not (same_route r q) && apart_from r rs

unfoldable all_apart : {W : Type 0} → List (Route W) → Bool
all_apart [] = true
all_apart (r ∷ rs) = apart_from r rs && all_apart rs

all_apart_class :
    (W : Type 0) (name : Bytes) (t : DeviceType)
    → all_apart (common_routes {W = W} name ++ class_routes t) ≡ true
unfolding all_apart apart_from str_eq common_routes class_routes cover_calibrator_routes dome_routes
    filter_wheel_routes focuser_routes observing_conditions_routes rotator_routes
    safety_monitor_routes switch_routes
all_apart_class W name DeviceType.unknown = refl
all_apart_class W name DeviceType.camera = refl
all_apart_class W name DeviceType.telescope = refl
all_apart_class W name DeviceType.cover_calibrator = refl
all_apart_class W name DeviceType.dome = refl
all_apart_class W name DeviceType.filter_wheel = refl
all_apart_class W name DeviceType.focuser = refl
all_apart_class W name DeviceType.observing_conditions = refl
all_apart_class W name DeviceType.rotator = refl
all_apart_class W name DeviceType.safety_monitor = refl
all_apart_class W name DeviceType.switch = refl

-- The two registrations are not for the same requests.
abbrev pub Differ : {W : Type 0} → Registration W → Registration W → Type 0
Differ g h = g.uri ≡ h.uri → g.method ≢ h.method

-- Each registration differs from all that come later.
abbrev pub AreDistinct : {W : Type 0} → List (Registration W) → Type 0
AreDistinct [] = Unit
AreDistinct (g ∷ gs) = All (Differ g) gs × AreDistinct gs

pub AreDistinct-append :
    {W : Type 0} (P Q : Registration W → Type 0)
    → ((g h : Registration W) → P g → Q h → Differ g h)
    → (gs hs : List (Registration W)) → All P gs
    → All Q hs
    → AreDistinct gs
    → AreDistinct hs
    → AreDistinct (gs ++ hs)
AreDistinct-append P Q apart [] hs p q d d' = d'
AreDistinct-append P Q apart (g ∷ gs) hs (p, ps) q (d, ds) d' = (
  All-append (Differ g) gs hs d (All-map Q (Differ g) (λ h q'. apart g h p q') hs q),
  AreDistinct-append P Q apart gs hs ps q ds d',
)

method_eq_refl : (m : HttpMethod) → method_eq m m ≡ true
method_eq_refl HttpMethod.http_get = refl
method_eq_refl HttpMethod.http_put = refl

both_true : (a b : Bool) → (a && b) ≡ true → (a ≡ true) × (b ≡ true)
both_true true b h = (refl, h)
both_true false b h = cc

same_route_lem :
    {W : Type 0} (r q : Route W)
    → not (same_route r q) ≡ true
    → r.endpoint ≡ q.endpoint
    → r.method ≢ q.method
same_route_lem r q apart e m =
    let as_text : str_eq r.endpoint q.endpoint ≡ true = rw e (str_eq_refl q.endpoint) in
    let as_method : method_eq r.method q.method ≡ true = rw m (method_eq_refl q.method) in
    let wrong : false ≡ true = rw (as_text, as_method) at apart in cc

module _ {W : Type 0} (t : DeviceType) where
  apart_from-Differ :
      (i : ℕ) (r : Route W) (rs : List (Route W))
      → NamesType t r
      → All (NamesType t) rs
      → apart_from r rs ≡ true
      → All
          (λ h. route_uri r.device_type i r.endpoint ≡ h.uri → r.method ≢ h.method)
          (register_all i rs)
  unfolding apart_from register_all
  apart_from-Differ i r [] n ns e = tt
  apart_from-Differ i r (q ∷ rs) n (n', ns) e =
      let (here, later) = both_true (not (same_route r q)) (apart_from r rs) e in
      (
        λ same. same_route_lem r q here (
            (route_uri-injective t t i i r.endpoint q.endpoint (
              sym (ap (λ (u : Bytes). route_uri u i r.endpoint) n)
              ∙ same
              ∙ ap (λ (u : Bytes). route_uri u i q.endpoint) n')).2),
        apart_from-Differ i r rs n ns later,
      )

  register_all-AreDistinct :
      (i : ℕ) (rs : List (Route W))
      → All (NamesType t) rs
      → all_apart rs ≡ true
      → AreDistinct (register_all i rs)
  unfolding all_apart register_all
  register_all-AreDistinct i [] ns e = tt
  register_all-AreDistinct i (r ∷ rs) (n, ns) e =
      let (here, later) = both_true (apart_from r rs) (all_apart rs) e in
      (apart_from-Differ i r rs n ns here, register_all-AreDistinct i rs ns later)

  -- A registration for number `i` of the type, and one for a number from `i` on.
  abbrev pub At : ℕ → Registration W → Type 0
  At i g = (e : Bytes) × (g.uri ≡ route_uri (uri_device_type t 32) i e)

  abbrev pub From : ℕ → Registration W → Type 0
  From i g = (j : ℕ) × (i ≤ j) × At j g

  register_all-At :
      (i : ℕ) (rs : List (Route W)) → All (NamesType t) rs → All (At i) (register_all i rs)
  unfolding register_all
  register_all-At i [] ns = tt
  register_all-At i (r ∷ rs) (n, ns) =
      ((r.endpoint, ap (λ (u : Bytes). route_uri u i r.endpoint) n), register_all-At i rs ns)

  named : (d : Device W) → device_type d ≡ t → All (NamesType t) (device_routes d)
  named d type = rw (← type) (device_routes-NamesType d)

  pub register_devices-From :
      (i : ℕ) (ds : List (Device W))
      → All (λ d. device_type d ≡ t) ds
      → All (From i) (register_devices i ds)
  unfolding register_devices
  register_devices-From i [] types = tt
  register_devices-From i (d ∷ ds) (type, types) =
      All-append (From i) (register_all i (device_routes d)) (register_devices (suc i) ds)
        (All-map (At i) (From i) (λ g there. (i, omega arith, there))
          (register_all i (device_routes d)) (register_all-At i (device_routes d) (named d type)))
        (All-map (From (suc i)) (From i) (λ g (j, le, there). (j, omega arith, there))
          (register_devices (suc i) ds) (register_devices-From (suc i) ds types))

  pub register_devices-AreDistinct :
      (i : ℕ) (ds : List (Device W))
      → All (λ d. device_type d ≡ t) ds
      → AreDistinct (register_devices i ds)
  unfolding register_devices device_routes
  register_devices-AreDistinct i [] types = tt
  register_devices-AreDistinct i (d ∷ ds) (type, types) =
      AreDistinct-append (At i) (From (suc i))
        (λ g h (e, is_g) (j, le, (f, is_h)) same.
          let (_, number, _) = route_uri-injective t t i j e f (sym is_g ∙ same ∙ is_h) in
          absurd (omega arith))
        (register_all i (device_routes d)) (register_devices (suc i) ds)
        (register_all-At i (device_routes d) (named d type))
        (register_devices-From (suc i) ds types)
        (register_all-AreDistinct i (device_routes d) (named d type)
          (all_apart_class W (uri_device_type (device_type d) 32) (device_type d)))
        (register_devices-AreDistinct (suc i) ds types)
