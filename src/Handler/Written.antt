-- ===== src/Handler/Written.antt =====
-- What the handlers rely on where they leave a variable or a buffer uninitialised: that a driver
-- which reports success has written it.
use esp32_idf_ascom_alpaca.Base.{
  ℕ, ◌≡◌, ◌≢◌, none, Option, ℤ, pos, Bool, true, Bool-cases, inl, inr, eq_ℤ, eq_ℤ_sound, sym, ◌∙◌,
}
use esp32_idf_ascom_alpaca.Base.Text.{Bytes}
use esp32_idf_ascom_alpaca.Device.{Called, Device, DeviceOps, Kind, Method}
use esp32_idf_ascom_alpaca.Platform.{Added, Document, unwritten, no_item, item}
use esp32_idf_ascom_alpaca.Server.{MessageHandler}
use esp32_idf_ascom_alpaca.Server.Errors.{check_return}

-- Where the method returns `ALPACA_OK`, it has written its out-parameter.
abbrev pub Fills : {W B : Type 0} → Method W (Option B) → Type 0
Fills {W} m = (w : W) → (m w).err ≡ pos 0 → (m w).out ≢ none

-- The methods of a class that fill something uninitialised do.
abbrev pub ClassFills : {W : Type 0} → Kind W → Type 0
ClassFills (Kind.dome o) = Fills o.get_shutterstatus
ClassFills (Kind.observing_conditions o) =
    (name : Bytes) (n : ℕ) → Fills (o.get_sensordescription name n)
ClassFills (Kind.switch o) =
    (id : ℤ) (n : ℕ) → Fills (o.get_getswitchdescription id n) × Fills (o.get_getswitchname id n)
ClassFills Kind.camera = Unit
ClassFills (Kind.cover_calibrator o) = Unit
ClassFills (Kind.filter_wheel o) = Unit
ClassFills (Kind.focuser o) = Unit
ClassFills (Kind.rotator o) = Unit
ClassFills (Kind.safety_monitor o) = Unit
ClassFills (Kind.telescope o) = Unit

-- And so do the methods that every device has.
pub record CommonFills {W : Type 0} (o : DeviceOps W) : Type 0 where
  pub action : (action parameters : Bytes) (n : ℕ) → Fills (o.action action parameters n)
  pub commandstring : (command : Bytes) (raw : Bool) (n : ℕ) → Fills (o.commandstring command raw n)
  pub description : (n : ℕ) → Fills (o.get_description n)
  pub driverinfo : (n : ℕ) → Fills (o.get_driverinfo n)
  pub driverversion : (n : ℕ) → Fills (o.get_driverversion n)

abbrev pub DriverFills : {W : Type 0} → Device W → Type 0
DriverFills d = CommonFills d.ops × ClassFills d.kind

-- What a handler adds is there.
abbrev pub IsWritten : Added → Type 0
IsWritten unwritten = ⊥
IsWritten no_item = Unit
IsWritten (item v) = Unit

-- It is, where the call succeeds.
abbrev pub AddsWritten : {W B : Type 0} → (B → Added) → Called W B → Type 0
AddsWritten value called = called.err ≡ pos 0 → IsWritten (value called.out)

-- Whether `check_return` finds no error.
pub check_return_fine :
    (h : MessageHandler) (err : ℤ) (root : Document)
    → (check_return h err root).0 ≡ eq_ℤ err (pos 0)
unfolding check_return
check_return_fine h err root = elim (Bool-cases (eq_ℤ err (pos 0))) [ inl e ↦ rw e | inr e ↦ rw e ]

pub check_return_ok :
    (h : MessageHandler) (err : ℤ) (root : Document)
    → (check_return h err root).0 ≡ true
    → err ≡ pos 0
check_return_ok h err root e = eq_ℤ_sound err (pos 0) (sym (check_return_fine h err root) ∙ e)
