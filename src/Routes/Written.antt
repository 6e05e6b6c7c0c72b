-- ===== src/Routes/Written.antt =====
-- The contract of the handlers that leave a variable or a buffer to the driver uninitialised.
use mathlib.Core.Path.{subst}
use mathlib.Core.Option.{some-injective, none-ne-some}
use esp32_idf_ascom_alpaca.Base.{none, some, Option, ◌≡◌, ◌≢◌, refl, ℤ}
use esp32_idf_ascom_alpaca.Handler.Contract.{
  Contract, common_handler-Contract, device_handler-Contract, answer_not_implemented-IsMismatch,
}
use esp32_idf_ascom_alpaca.Handler.Written.{Fills, ClassFills, CommonFills, IsWritten}
use esp32_idf_ascom_alpaca.Device.{
  dome, observing_conditions, switch, Kind, Device, DeviceOps, DomeOps, SwitchOps,
  ObservingConditionsOps, Method, shutter_state_value,
}
use esp32_idf_ascom_alpaca.Handler.{common_handler, device_handler, answer_not_implemented}
use esp32_idf_ascom_alpaca.Handler.Args.{no_args, text_of, text_value, uint_value, if_written}
use esp32_idf_ascom_alpaca.Handler.Casts.{
  as_dome, as_dome-IsDowncast, as_observing_conditions, as_observing_conditions-IsDowncast,
  as_switch, as_switch-IsDowncast,
}
use esp32_idf_ascom_alpaca.Handler.Common.{action_args, command_args}
use esp32_idf_ascom_alpaca.Handler.Switch.{id_arg}
use esp32_idf_ascom_alpaca.Platform.{Platform, Added}
use esp32_idf_ascom_alpaca.Request.{AlpacaRequest}
use esp32_idf_ascom_alpaca.Base.Text.{Bytes}

-- A value that was written.
if_written-IsWritten :
    {B : Type 0} (value : B → Added) (o : Option B)
    → ((b : B) → IsWritten (value b))
    → o ≢ none
    → IsWritten (if_written value o)
if_written-IsWritten value none there h = absurd (h refl)
if_written-IsWritten value (some b) there h = there b

-- The common handlers whose driver fills a buffer.
module _ {W : Type 0} (p : Platform) where
  common_text :
      {A : Type 0} (read : Platform → AlpacaRequest → Option A)
      (call : DeviceOps W → A → Method W (Option Bytes))
      → ((d : Device W) → CommonFills d.ops → (a : A) → Fills (call d.ops a))
      → Contract (common_handler read call (if_written text_value) p)
  common_text read call fills =
      common_handler-Contract read call (if_written text_value) p
        λ d f a w e. if_written-IsWritten text_value _ (λ b. tt) (fills d f.0 a w e)

  pub action_written : Contract (
      common_handler action_args
        (λ (o : DeviceOps W) a. o.action a.0 a.1 512)
        (if_written text_value)
        p)
  action_written =
      common_text action_args (λ o a. o.action a.0 a.1 512) λ d f a. f.action a.0 a.1 512

  pub commandstring_written : Contract (
      common_handler command_args
        (λ (o : DeviceOps W) a. o.commandstring a.0 a.1 512)
        (if_written text_value)
        p)
  commandstring_written =
      common_text command_args (λ o a. o.commandstring a.0 a.1 512)
        λ d f a. f.commandstring a.0 a.1 512

  pub description_written : Contract (
      common_handler no_args
        (λ (o : DeviceOps W) a. o.get_description 128)
        (if_written text_value)
        p)
  description_written =
      common_text no_args (λ o a. o.get_description 128) λ d f a. f.description 128

  pub driverinfo_written : Contract (
      common_handler no_args
        (λ (o : DeviceOps W) a. o.get_driverinfo 128)
        (if_written text_value)
        p)
  driverinfo_written = common_text no_args (λ o a. o.get_driverinfo 128) λ d f a. f.driverinfo 128

  pub driverversion_written : Contract (
      common_handler no_args
        (λ (o : DeviceOps W) a. o.get_driverversion 128)
        (if_written text_value)
        p)
  driverversion_written =
      common_text no_args (λ o a. o.get_driverversion 128) λ d f a. f.driverversion 128

shutterstatus_written-Fills :
    {W : Type 0} (k : Kind W) (ops : DomeOps W)
    → as_dome k ≡ some ops
    → ClassFills k
    → (a : Unit {0}) → Fills (ops.get_shutterstatus)
unfolding as_dome
shutterstatus_written-Fills {W} (Kind.dome o) ops q h a =
    let same : o ≡ ops = some-injective _ _ q in
    subst (λ (o : DomeOps W). Fills (o.get_shutterstatus)) (same) (h)
shutterstatus_written-Fills {W} _ ops q h a = absurd (none-ne-some _ q)

pub shutterstatus_written :
    {W : Type 0} (p : Platform)
    → Contract (
        device_handler dome as_dome answer_not_implemented no_args
          (λ (o : DomeOps W) a. o.get_shutterstatus)
          (if_written (λ v. uint_value (shutter_state_value v)))
          p)
shutterstatus_written {W} p =
    device_handler-Contract dome as_dome answer_not_implemented no_args
      (λ (o : DomeOps W) a. o.get_shutterstatus)
      (if_written (λ v. uint_value (shutter_state_value v))) p as_dome-IsDowncast
      answer_not_implemented-IsMismatch
      λ k ops q fills a w e.
        if_written-IsWritten (λ v. uint_value (shutter_state_value v)) _ (λ b. tt)
          (shutterstatus_written-Fills k ops q fills a w e)

sensordescription_written-Fills :
    {W : Type 0} (k : Kind W) (ops : ObservingConditionsOps W)
    → as_observing_conditions k ≡ some ops
    → ClassFills k
    → (a : Bytes) → Fills (ops.get_sensordescription a 512)
unfolding as_observing_conditions
sensordescription_written-Fills {W} (Kind.observing_conditions o) ops q h a =
    let same : o ≡ ops = some-injective _ _ q in
    subst (λ (o : ObservingConditionsOps W). Fills (o.get_sensordescription a 512)) (same) (h a 512)
sensordescription_written-Fills {W} _ ops q h a = absurd (none-ne-some _ q)

pub sensordescription_written :
    {W : Type 0} (p : Platform)
    → Contract (
        device_handler observing_conditions as_observing_conditions answer_not_implemented
          (text_of "SensorName")
          (λ (o : ObservingConditionsOps W) name. o.get_sensordescription name 512)
          (if_written text_value)
          p)
sensordescription_written {W} p =
    device_handler-Contract observing_conditions as_observing_conditions answer_not_implemented
      (text_of "SensorName")
      (λ (o : ObservingConditionsOps W) name. o.get_sensordescription name 512)
      (if_written text_value) p as_observing_conditions-IsDowncast answer_not_implemented-IsMismatch
      λ k ops q fills a w e.
        if_written-IsWritten text_value _ (λ b. tt)
          (sensordescription_written-Fills k ops q fills a w e)

switchdescription_written-Fills :
    {W : Type 0} (k : Kind W) (ops : SwitchOps W)
    → as_switch k ≡ some ops
    → ClassFills k
    → (a : ℤ) → Fills (ops.get_getswitchdescription a 512)
unfolding as_switch
switchdescription_written-Fills {W} (Kind.switch o) ops q h a =
    let same : o ≡ ops = some-injective _ _ q in
    subst (λ (o : SwitchOps W). Fills (o.get_getswitchdescription a 512)) (same) ((h a 512).0)
switchdescription_written-Fills {W} _ ops q h a = absurd (none-ne-some _ q)

pub switchdescription_written :
    {W : Type 0} (p : Platform)
    → Contract (
        device_handler switch as_switch answer_not_implemented id_arg
          (λ (o : SwitchOps W) id. o.get_getswitchdescription id 512)
          (if_written text_value)
          p)
switchdescription_written {W} p =
    device_handler-Contract switch as_switch answer_not_implemented id_arg
      (λ (o : SwitchOps W) id. o.get_getswitchdescription id 512) (if_written text_value) p
      as_switch-IsDowncast answer_not_implemented-IsMismatch
      λ k ops q fills a w e.
        if_written-IsWritten text_value _ (λ b. tt)
          (switchdescription_written-Fills k ops q fills a w e)

switchname_written-Fills :
    {W : Type 0} (k : Kind W) (ops : SwitchOps W)
    → as_switch k ≡ some ops
    → ClassFills k
    → (a : ℤ) → Fills (ops.get_getswitchname a 512)
unfolding as_switch
switchname_written-Fills {W} (Kind.switch o) ops q h a =
    let same : o ≡ ops = some-injective _ _ q in
    subst (λ (o : SwitchOps W). Fills (o.get_getswitchname a 512)) (same) ((h a 512).1)
switchname_written-Fills {W} _ ops q h a = absurd (none-ne-some _ q)

pub switchname_written :
    {W : Type 0} (p : Platform)
    → Contract (
        device_handler switch as_switch answer_not_implemented id_arg
          (λ (o : SwitchOps W) id. o.get_getswitchname id 512)
          (if_written text_value)
          p)
switchname_written {W} p =
    device_handler-Contract switch as_switch answer_not_implemented id_arg
      (λ (o : SwitchOps W) id. o.get_getswitchname id 512) (if_written text_value) p
      as_switch-IsDowncast answer_not_implemented-IsMismatch
      λ k ops q fills a w e.
        if_written-IsWritten text_value _ (λ b. tt) (switchname_written-Fills k ops q fills a w e)
