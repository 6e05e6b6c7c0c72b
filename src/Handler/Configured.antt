-- ===== src/Handler/Configured.antt =====
-- The list of configured devices.
use esp32_idf_ascom_alpaca.Base.{
  ℕ, suc, ◌+◌, ◌≡◌, refl, ap, ◌∙◌, some, List, [], ◌∷◌, arith, length, get_elem?, All, All-append,
  length-append,
}
use esp32_idf_ascom_alpaca.Server.{Api}
use esp32_idf_ascom_alpaca.Platform.{ConfiguredDevice}
use esp32_idf_ascom_alpaca.Device.{DeviceType, Device, device_type}
use esp32_idf_ascom_alpaca.Handler.Management.{list_devices, list_types, all_types}
use esp32_idf_ascom_alpaca.Server.Devices.{IsGrouped}
use esp32_idf_ascom_alpaca.Device.Names.{friendly_device_type}

-- The entry is that of the device at its number in the list of some type, under the name of that
-- type.
abbrev pub Lists : {W : Type 0} → Api W → ConfiguredDevice → Type 0
Lists {W} api e =
    (t : DeviceType) × (d : Device W) × (get_elem? (api.devices t) e.device_number ≡ some d)
    × (e.unique_id ≡ d.unique_id)
    × (e.device_type ≡ friendly_device_type t 33)

-- The number of devices of the types.
abbrev pub devices_of_types : {W : Type 0} → Api W → List DeviceType → ℕ
devices_of_types api [] = 0
devices_of_types api (t ∷ ts) = length (api.devices t) + devices_of_types api ts

module _ {W : Type 0} (api : Api W) where
  list_devices-Lists :
      (t : DeviceType) (i : ℕ) (ds : List (Device W)) (w : W)
      → ((k : ℕ) → get_elem? (api.devices t) (i + k) ≡ get_elem? ds k)
      → All (λ d. device_type d ≡ t) ds
      → All (Lists api) (list_devices i ds w).0
  unfolding list_devices
  list_devices-Lists t i [] w same types = tt
  list_devices-Lists t i (d ∷ ds) w same (type, types) =
      let at = λ (j : ℕ). get_elem? (api.devices t) j in
      (
        (
          t,
          d,
          ap at (omega arith) ∙ same 0,
          refl,
          ap (λ (u : DeviceType). friendly_device_type u 33) type,
        ),
        list_devices-Lists t (suc i) ds (d.ops.get_name 33 w).world
            (λ k. ap at (omega arith) ∙ same (suc k)) types,
      )

  length-list_devices :
      (i : ℕ) (ds : List (Device W)) (w : W) → length (list_devices i ds w).0 ≡ length ds
  unfolding list_devices
  length-list_devices i [] w = refl
  length-list_devices i (d ∷ ds) w =
      omega (arith, length-list_devices (suc i) ds (d.ops.get_name 33 w).world)

  list_types-All :
      IsGrouped api.devices
      → (ts : List DeviceType) (w : W)
      → All (Lists api) (list_types api ts w).0
        × (length (list_types api ts w).0 ≡ devices_of_types api ts)
  unfolding list_types
  list_types-All grouped [] w = (tt, refl)
  list_types-All grouped (t ∷ ts) w =
      let here = list_devices 0 (api.devices t) w in
      let (each, count) = list_types-All grouped ts here.1 in
      (
        All-append (Lists api) here.0 (list_types api ts here.1).0
            (list_devices-Lists t 0 (api.devices t) w
              (λ k. ap (λ (j : ℕ). get_elem? (api.devices t) j) (omega arith)) (grouped t))
            each,
        omega (
          arith,
          length-append here.0 (list_types api ts here.1).0,
          length-list_devices 0 (api.devices t) w,
          count,
        ),
      )

-- If each list of devices holds devices of its own type only, then the list of configured devices
-- has as many entries as there are devices, and each has the number, the identifier and the name of
-- the type of a device: the device stands at that number in the list of that type.
pub list_types-Lists :
    {W : Type 0} (api : Api W) (w : W)
    → IsGrouped api.devices
    → All (Lists api) (list_types api all_types w).0
      × (length (list_types api all_types w).0 ≡ devices_of_types api all_types)
list_types-Lists api w grouped = list_types-All api grouped all_types w
