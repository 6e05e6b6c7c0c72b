-- ===== src/UniqueId/Frame.antt =====
-- What `initialize` does to the devices.
use esp32_idf_ascom_alpaca.Base.{
  ◌≡◌, ◌⊎◌, inl, inr, Bool, true, false, ◌||◌, List, [], ◌∷◌, arith, length, All, Bool-cases, refl,
  ◌∙◌,
}
use esp32_idf_ascom_alpaca.Platform.{Platform}
use esp32_idf_ascom_alpaca.Base.Text.{Bytes}
use esp32_idf_ascom_alpaca.UniqueId.{
  initialize_devices, initialize_types, generate_unique_id, hash_input, initialize_type, initialize,
}
use esp32_idf_ascom_alpaca.Device.{DeviceType, type_eq, Device, device_type, type_index}
use esp32_idf_ascom_alpaca.Server.{Server}
use esp32_idf_ascom_alpaca.UniqueId.Hex.{length-hex}
use esp32_idf_ascom_alpaca.Server.Devices.{IsGrouped, type_eq_sound}
use esp32_idf_ascom_alpaca.Handler.Management.{all_types}

module _ (p : Platform) (sixteen : (s : Bytes) → length (p.md5 s) ≡ 16) where
  initialize_devices_ids :
      {W : Type 0} (server_id : Bytes) (ds : List (Device W)) (w : W)
      → All (λ d. length d.unique_id ≡ 32) (initialize_devices p server_id ds w).0
  unfolding initialize_devices generate_unique_id
  initialize_devices_ids server_id [] w = tt
  initialize_devices_ids server_id (d ∷ ds) w =
      let called = d.ops.get_name 33 w in
      let digest = p.md5 (hash_input server_id called.out (device_type d) d.number) in
      (
        omega (
          arith,
          length-hex digest,
          sixteen (hash_input server_id called.out (device_type d) d.number),
        ),
        initialize_devices_ids server_id ds called.world,
      )

  listed : DeviceType → List DeviceType → Bool
  listed u [] = false
  listed u (t ∷ ts) = type_eq t u || listed u ts

  initialize_type_ids :
      {W : Type 0} (t : DeviceType) (s : Server W) (u : DeviceType)
      → (type_eq t u ≡ true) ⊎ All (λ d. length d.unique_id ≡ 32) (s.api.devices u)
      → All (λ d. length d.unique_id ≡ 32) ((initialize_type p t s).api.devices u)
  unfolding initialize_type
  initialize_type_ids t s u h = elim (Bool-cases (type_eq t u)) [
    | inl e ↦ rw e (initialize_devices_ids s.api.server_id (s.api.devices t) s.world)
    | inr e ↦ elim h [ inl h' ↦ absurd (ground arith) | inr h' ↦ rw e h' ]
  ]

  initialize_types_ids :
      {W : Type 0} (ts : List DeviceType) (s : Server W) (u : DeviceType)
      → (listed u ts ≡ true) ⊎ All (λ d. length d.unique_id ≡ 32) (s.api.devices u)
      → All (λ d. length d.unique_id ≡ 32) ((initialize_types p ts s).api.devices u)
  unfolding initialize_types listed
  initialize_types_ids [] s u (inl h) = absurd (ground arith)
  initialize_types_ids [] s u (inr h) = h
  initialize_types_ids (t ∷ ts) s u (inr h) =
      initialize_types_ids ts (initialize_type p t s) u (inr (initialize_type_ids t s u (inr h)))
  initialize_types_ids (t ∷ ts) s u (inl h) = elim (Bool-cases (type_eq t u)) [
    | inl e ↦
        initialize_types_ids ts (initialize_type p t s) u (inr (initialize_type_ids t s u (inl e)))
    | inr e ↦ initialize_types_ids ts (initialize_type p t s) u (inl (ground arith))
  ]

  listed_all : (u : DeviceType) → listed u all_types ≡ true
  unfolding listed type_index
  listed_all u = ground arith

  -- With digests of 16 bytes, `initialize` leaves every device of every type with an identifier of
  -- 32 characters, which fits its buffer of 33 bytes.
  pub initialize_ids :
      {W : Type 0} (s : Server W) (t : DeviceType)
      → All (λ d. length d.unique_id ≡ 32) ((initialize p s).api.devices t)
  unfolding initialize
  initialize_ids s t = initialize_types_ids all_types s t (inl (listed_all t))

initialize_devices-All :
    {W : Type 0} (p : Platform) (server_id : Bytes) (t : DeviceType) (ds : List (Device W)) (w : W)
    → All (λ d. device_type d ≡ t) ds
    → All (λ d. device_type d ≡ t) (initialize_devices p server_id ds w).0
unfolding initialize_devices device_type
initialize_devices-All p server_id t [] w h = tt
initialize_devices-All p server_id t (d ∷ ds) w (h, hs) =
    (h, initialize_devices-All p server_id t ds (d.ops.get_name 33 w).world hs)

initialize_type-IsGrouped :
    {W : Type 0} (p : Platform) (t : DeviceType) (s : Server W)
    → IsGrouped s.api.devices
    → IsGrouped (initialize_type p t s).api.devices
unfolding initialize_type
initialize_type-IsGrouped p t s h u = elim (Bool-cases (type_eq t u)) [
  | inl e ↦
      rw (e, ← type_eq_sound t u e)
        (initialize_devices-All p s.api.server_id t (s.api.devices t) s.world (h t))
  | inr e ↦ rw e (h u)
]

initialize_types-IsGrouped :
    {W : Type 0} (p : Platform) (ts : List DeviceType) (s : Server W)
    → IsGrouped s.api.devices
    → IsGrouped (initialize_types p ts s).api.devices
unfolding initialize_types
initialize_types-IsGrouped p [] s h = h
initialize_types-IsGrouped p (t ∷ ts) s h =
    initialize_types-IsGrouped p ts (initialize_type p t s) (initialize_type-IsGrouped p t s h)

-- If each list of devices holds devices of its own type only, so it does behind `initialize`.
pub initialize-IsGrouped :
    {W : Type 0} (p : Platform) (s : Server W)
    → IsGrouped s.api.devices
    → IsGrouped (initialize p s).api.devices
unfolding initialize
initialize-IsGrouped p s h = initialize_types-IsGrouped p all_types s h

length-initialize_devices :
    {W : Type 0} (p : Platform) (server_id : Bytes) (ds : List (Device W)) (w : W)
    → length (initialize_devices p server_id ds w).0 ≡ length ds
unfolding initialize_devices
length-initialize_devices p server_id [] w = refl
length-initialize_devices p server_id (d ∷ ds) w =
    omega (arith, length-initialize_devices p server_id ds (d.ops.get_name 33 w).world)

length-initialize_type :
    {W : Type 0} (p : Platform) (t : DeviceType) (s : Server W) (u : DeviceType)
    → length ((initialize_type p t s).api.devices u) ≡ length (s.api.devices u)
unfolding initialize_type
length-initialize_type p t s u = elim (Bool-cases (type_eq t u)) [
  | inl e ↦
      rw (e, ← type_eq_sound t u e)
        (length-initialize_devices p s.api.server_id (s.api.devices t) s.world)
  | inr e ↦ rw e
]

length-initialize_types :
    {W : Type 0} (p : Platform) (ts : List DeviceType) (s : Server W) (u : DeviceType)
    → length ((initialize_types p ts s).api.devices u) ≡ length (s.api.devices u)
unfolding initialize_types
length-initialize_types p [] s u = refl
length-initialize_types p (t ∷ ts) s u =
    length-initialize_types p ts (initialize_type p t s) u ∙ length-initialize_type p t s u

-- `initialize` adds and removes no device.
pub length-initialize :
    {W : Type 0} (p : Platform) (s : Server W) (u : DeviceType)
    → length ((initialize p s).api.devices u) ≡ length (s.api.devices u)
unfolding initialize
length-initialize p s u = length-initialize_types p all_types s u
