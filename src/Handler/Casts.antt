-- ===== src/Handler/Casts.antt =====
-- The casts of a device to its class, `(Dome *)device` and the like. A cast of an object of another
-- class gives no methods to call.
use esp32_idf_ascom_alpaca.Base.{refl, Option, none, some, arith}
use esp32_idf_ascom_alpaca.Device.{
  Kind, kind_type, CoverCalibratorOps, DomeOps, FilterWheelOps, FocuserOps, ObservingConditionsOps,
  RotatorOps, SafetyMonitorOps, SwitchOps, cover_calibrator, dome, filter_wheel, focuser,
  observing_conditions, rotator, safety_monitor, switch, telescope,
}
use esp32_idf_ascom_alpaca.Handler.Contract.{IsDowncast}
use esp32_idf_ascom_alpaca.Device.Telescope.{TelescopeOps}

unfoldable pub as_cover_calibrator : {W : Type 0} → Kind W → Option (CoverCalibratorOps W)
as_cover_calibrator (Kind.cover_calibrator o) = some o
as_cover_calibrator _ = none

pub as_cover_calibrator-IsDowncast :
    {W : Type 0} → IsDowncast {W = W} cover_calibrator as_cover_calibrator
unfolding as_cover_calibrator kind_type
as_cover_calibrator-IsDowncast (Kind.cover_calibrator o) e = (o, refl)
as_cover_calibrator-IsDowncast _ e = ground arith

unfoldable pub as_dome : {W : Type 0} → Kind W → Option (DomeOps W)
as_dome (Kind.dome o) = some o
as_dome _ = none

pub as_dome-IsDowncast : {W : Type 0} → IsDowncast {W = W} dome as_dome
unfolding as_dome kind_type
as_dome-IsDowncast (Kind.dome o) e = (o, refl)
as_dome-IsDowncast _ e = ground arith

unfoldable pub as_filter_wheel : {W : Type 0} → Kind W → Option (FilterWheelOps W)
as_filter_wheel (Kind.filter_wheel o) = some o
as_filter_wheel _ = none

pub as_filter_wheel-IsDowncast : {W : Type 0} → IsDowncast {W = W} filter_wheel as_filter_wheel
unfolding as_filter_wheel kind_type
as_filter_wheel-IsDowncast (Kind.filter_wheel o) e = (o, refl)
as_filter_wheel-IsDowncast _ e = ground arith

unfoldable pub as_focuser : {W : Type 0} → Kind W → Option (FocuserOps W)
as_focuser (Kind.focuser o) = some o
as_focuser _ = none

pub as_focuser-IsDowncast : {W : Type 0} → IsDowncast {W = W} focuser as_focuser
unfolding as_focuser kind_type
as_focuser-IsDowncast (Kind.focuser o) e = (o, refl)
as_focuser-IsDowncast _ e = ground arith

unfoldable pub as_observing_conditions : {W : Type 0} → Kind W → Option (ObservingConditionsOps W)
as_observing_conditions (Kind.observing_conditions o) = some o
as_observing_conditions _ = none

pub as_observing_conditions-IsDowncast :
    {W : Type 0} → IsDowncast {W = W} observing_conditions as_observing_conditions
unfolding as_observing_conditions kind_type
as_observing_conditions-IsDowncast (Kind.observing_conditions o) e = (o, refl)
as_observing_conditions-IsDowncast _ e = ground arith

unfoldable pub as_rotator : {W : Type 0} → Kind W → Option (RotatorOps W)
as_rotator (Kind.rotator o) = some o
as_rotator _ = none

pub as_rotator-IsDowncast : {W : Type 0} → IsDowncast {W = W} rotator as_rotator
unfolding as_rotator kind_type
as_rotator-IsDowncast (Kind.rotator o) e = (o, refl)
as_rotator-IsDowncast _ e = ground arith

unfoldable pub as_safety_monitor : {W : Type 0} → Kind W → Option (SafetyMonitorOps W)
as_safety_monitor (Kind.safety_monitor o) = some o
as_safety_monitor _ = none

pub as_safety_monitor-IsDowncast :
    {W : Type 0} → IsDowncast {W = W} safety_monitor as_safety_monitor
unfolding as_safety_monitor kind_type
as_safety_monitor-IsDowncast (Kind.safety_monitor o) e = (o, refl)
as_safety_monitor-IsDowncast _ e = ground arith

unfoldable pub as_switch : {W : Type 0} → Kind W → Option (SwitchOps W)
as_switch (Kind.switch o) = some o
as_switch _ = none

pub as_switch-IsDowncast : {W : Type 0} → IsDowncast {W = W} switch as_switch
unfolding as_switch kind_type
as_switch-IsDowncast (Kind.switch o) e = (o, refl)
as_switch-IsDowncast _ e = ground arith

unfoldable pub as_telescope : {W : Type 0} → Kind W → Option (TelescopeOps W)
as_telescope (Kind.telescope o) = some o
as_telescope _ = none

pub as_telescope-IsDowncast : {W : Type 0} → IsDowncast {W = W} telescope as_telescope
unfolding as_telescope kind_type
as_telescope-IsDowncast (Kind.telescope o) e = (o, refl)
as_telescope-IsDowncast _ e = ground arith
