-- ===== src/Server/Devices.antt =====
-- How the constructor groups the devices by their type.
use esp32_idf_ascom_alpaca.Base.{
  ◌≡◌, sym, ◌∙◌, inl, inr, true, List, [], ◌∷◌, ◌++◌, append_assoc, append-nil, arith,
  if◌then◌else◌, Bool-cases, All,
}
use esp32_idf_ascom_alpaca.Device.{DeviceType, type_eq, Device, device_type, type_index}
use esp32_idf_ascom_alpaca.Server.{push_back, push_all, new_api}
use esp32_idf_ascom_alpaca.Base.Text.{Bytes}

-- The devices of one type, in the order in which they are given.
unfoldable pub of_type : {W : Type 0} → DeviceType → List (Device W) → List (Device W)
of_type t [] = []
of_type t (d ∷ ds) = let rest = of_type t ds in if type_eq (device_type d) t then d ∷ rest else rest

-- Each list of devices holds devices of its own type only.
abbrev pub IsGrouped : {W : Type 0} → (DeviceType → List (Device W)) → Type 0
IsGrouped m = (t : DeviceType) → All (λ d. device_type d ≡ t) (m t)

pub type_eq_sound : (a b : DeviceType) → type_eq a b ≡ true → a ≡ b
unfolding type_index
type_eq_sound a b h = ground arith

pub type_eq_refl : (a : DeviceType) → type_eq a a ≡ true
unfolding type_index
type_eq_refl a = ground arith

push_all-of_type :
    {W : Type 0} (ds : List (Device W)) (m : DeviceType → List (Device W)) (t : DeviceType)
    → push_all ds m t ≡ m t ++ of_type t ds
unfolding push_all push_back of_type
push_all-of_type [] m t = sym (append-nil (m t))
push_all-of_type (d ∷ ds) m t = elim (Bool-cases (type_eq (device_type d) t)) [
  | inl h ↦ push_all-of_type ds (push_back d m) t ∙ rw h (append_assoc (m t) (d ∷ []) _)
  | inr h ↦ push_all-of_type ds (push_back d m) t ∙ rw h
]

-- The constructor files the devices of a type under that type, in the order in which they are given.
pub new_api-of_type :
    {W : Type 0} (ds : List (Device W)) (id name maker version place : Bytes) (t : DeviceType)
    → (new_api ds id name maker version place).devices t ≡ of_type t ds
unfolding new_api
new_api-of_type ds id name maker version place t = push_all-of_type ds (λ u. []) t

of_type-All :
    {W : Type 0} (t : DeviceType) (ds : List (Device W))
    → All (λ d. device_type d ≡ t) (of_type t ds)
unfolding of_type
of_type-All t [] = tt
of_type-All t (d ∷ ds) = elim (Bool-cases (type_eq (device_type d) t)) [
  | inl h ↦ rw h (type_eq_sound _ _ h, of_type-All t ds)
  | inr h ↦ rw h (of_type-All t ds)
]

-- The constructor makes lists of devices each of which holds devices of its own type only.
pub new_api-IsGrouped :
    {W : Type 0} (ds : List (Device W)) (id name maker version place : Bytes)
    → IsGrouped (new_api ds id name maker version place).devices
new_api-IsGrouped ds id name maker version place t =
    rw (new_api-of_type ds id name maker version place t) (of_type-All t ds)
