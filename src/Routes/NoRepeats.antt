-- ===== src/Routes/NoRepeats.antt =====
-- The whole list of registrations has no URI and method twice.
use esp32_idf_ascom_alpaca.Base.{
  ℕ, suc, ◌≡◌, refl, sym, ap, ◌∙◌, ◌≢◌, some, List, [], ◌∷◌, arith, get_elem?, All, All-append,
  All-get_elem?, All-map, false, length,
}
use esp32_idf_ascom_alpaca.Routes.{
  register_routes, management_routes, Registration, register_types, register_devices,
}
use esp32_idf_ascom_alpaca.Device.{DeviceType, type_index, type_eq}
use esp32_idf_ascom_alpaca.Server.{Api, Server}
use esp32_idf_ascom_alpaca.Base.Text.{Bytes}
use esp32_idf_ascom_alpaca.Route.{route_uri}
use esp32_idf_ascom_alpaca.Routes.Once.{
  AreDistinct, From, AreDistinct-append, register_devices-From, register_devices-AreDistinct,
}
use esp32_idf_ascom_alpaca.Platform.{Platform}
use esp32_idf_ascom_alpaca.Handler.Management.{all_types}
use esp32_idf_ascom_alpaca.Server.Devices.{IsGrouped, type_eq_refl}
use esp32_idf_ascom_alpaca.UniqueId.{initialize}
use esp32_idf_ascom_alpaca.UniqueId.Frame.{initialize-IsGrouped}
use esp32_idf_ascom_alpaca.Routes.Distinct.{route_uri-injective}
use esp32_idf_ascom_alpaca.Device.Names.{uri_device_type}

-- A registration for a device of one of the types.
abbrev pub Within : {W : Type 0} → List DeviceType → Registration W → Type 0
Within ts g = (k : ℕ) × (t : DeviceType) × (get_elem? ts k ≡ some t) × From t 0 g

-- No type stands twice in the list.
abbrev pub AreApart : List DeviceType → Type 0
AreApart [] = Unit
AreApart (t ∷ ts) = All (λ u. t ≢ u) ts × AreApart ts

apart_types : (t u : DeviceType) → type_eq t u ≡ false → t ≢ u
apart_types t u h e =
    let wrong : type_eq t t ≡ false = rw (← e) at h in absurd (let yes_same = type_eq_refl t in cc)

all_types-AreApart : AreApart all_types
unfolding type_index
all_types-AreApart = search (apart_types)

module _ {W : Type 0} (api : Api W) (grouped : IsGrouped api.devices) where
  register_types-Within : (ts : List DeviceType) → All (Within ts) (register_types api ts)
  unfolding register_types
  register_types-Within [] = tt
  register_types-Within (t ∷ ts) =
      All-append (Within (t ∷ ts)) (register_devices 0 (api.devices t)) (register_types api ts)
        (All-map (From t 0) (Within (t ∷ ts)) (λ g there. (0, t, refl, there))
          (register_devices 0 (api.devices t))
          (register_devices-From t 0 (api.devices t) (grouped t)))
        (All-map (Within ts) (Within (t ∷ ts)) (λ g (k, u, e, there). (suc k, u, e, there))
          (register_types api ts) (register_types-Within ts))

  register_types-AreDistinct :
      (ts : List DeviceType) → AreApart ts → AreDistinct (register_types api ts)
  unfolding register_types
  register_types-AreDistinct [] apart = tt
  register_types-AreDistinct (t ∷ ts) (here, later) =
      AreDistinct-append (From t 0) (Within ts)
        (λ g h (i, _, (e, is_g)) (k, u, at_k, (j, _, (f, is_h))) same. absurd (
          All-get_elem? (λ v. t ≢ v) ts k here at_k
            (route_uri-injective t u i j e f (sym is_g ∙ same ∙ is_h)).0))
        (register_devices 0 (api.devices t)) (register_types api ts)
        (register_devices-From t 0 (api.devices t) (grouped t)) (register_types-Within ts)
        (register_devices-AreDistinct t 0 (api.devices t) (grouped t))
        (register_types-AreDistinct ts later)

-- The URIs of the management API begin otherwise than those of devices.
second : Bytes → ℕ
second (c ∷ d ∷ s) = d
second _ = 0

abbrev IsManagement : {W : Type 0} → Registration W → Type 0
IsManagement g = second g.uri ≡ b'm'

management_routes-IsManagement : (W : Type 0) → All IsManagement (management_routes {W = W})
unfolding management_routes second
management_routes-IsManagement W = (refl, (refl, (refl, tt)))

route_uri-second : (name : Bytes) (i : ℕ) (e : Bytes) → second (route_uri name i e) ≡ b'a'
unfolding route_uri second
route_uri-second name i e = refl

ap_length : {s t : Bytes} → s ≡ t → length s ≡ length t
ap_length e = ap (λ (u : Bytes). length u) e

management_routes-AreDistinct : (W : Type 0) → AreDistinct (management_routes {W = W})
unfolding management_routes
management_routes-AreDistinct W = (
  (λ e. absurd (omega (arith, ap_length e)), (λ e. absurd (omega (arith, ap_length e)), tt)),
  ((λ e. absurd (omega (arith, ap_length e)), tt), (tt, tt)),
)

-- If each list of devices holds devices of its own type only, then `register_routes` never registers
-- the same URI and method twice.
pub register_routes-AreDistinct :
    {W : Type 0} (p : Platform) (s : Server W)
    → IsGrouped s.api.devices
    → AreDistinct (register_routes p s).0
unfolding register_routes
register_routes-AreDistinct {W} p s grouped =
    let ready = initialize p s in
    let still = initialize-IsGrouped p s grouped in
    AreDistinct-append IsManagement (Within all_types)
      (λ g h is_g (k, u, at_k, (j, _, (f, is_h))) same. absurd (
        omega (
          arith,
          is_g,
          ap second same,
          ap second is_h,
          route_uri-second (uri_device_type u 32) j f,
        )))
      management_routes (register_types ready.api all_types) (management_routes-IsManagement W)
      (register_types-Within ready.api still all_types) (management_routes-AreDistinct W)
      (register_types-AreDistinct ready.api still all_types all_types-AreApart)
