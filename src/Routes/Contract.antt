-- ===== src/Routes/Contract.antt =====
-- The contract of the handlers, for every route that is registered.
use esp32_idf_ascom_alpaca.Routes.Written.{
  action_written, commandstring_written, description_written, driverinfo_written,
  driverversion_written, shutterstatus_written, sensordescription_written,
  switchdescription_written, switchname_written,
}
use esp32_idf_ascom_alpaca.Handler.Written.{IsWritten}
use esp32_idf_ascom_alpaca.Device.{
  dome, switch, Device, device_type, CoverCalibratorOps, DomeOps, FilterWheelOps, FocuserOps,
  ObservingConditionsOps, RotatorOps, SafetyMonitorOps, SwitchOps, Method, DeviceType, focuser,
  safety_monitor, unknown, filter_wheel, observing_conditions, telescope, camera, rotator,
  cover_calibrator, DeviceOps,
}
use esp32_idf_ascom_alpaca.Base.{Option, All, All-append, ℤ}
use esp32_idf_ascom_alpaca.Handler.Rotator.{
  handle_put_rotator_halt, handle_put_rotator_reverse, handle_put_rotator_move,
  handle_get_rotator_ismoving, handle_put_rotator_sync, handle_get_rotator_stepsize,
  handle_get_rotator_reverse, handle_get_rotator_canreverse, handle_get_rotator_mechanicalposition,
  handle_get_rotator_position, handle_get_rotator_targetposition, handle_put_rotator_moveabsolute,
  handle_put_rotator_movemechanical,
}
use esp32_idf_ascom_alpaca.Route.Tables.{
  common_routes, focuser_routes, filter_wheel_routes, rotator_routes, observing_conditions_routes,
  switch_routes, safety_monitor_routes, dome_routes, cover_calibrator_routes,
}
use esp32_idf_ascom_alpaca.Handler.ObservingConditions.{
  handle_get_observingconditions_skyquality, handle_get_observingconditions_windgust,
  handle_get_observingconditions_timesincelastupdate, handle_get_observingconditions_winddirection,
  handle_get_observingconditions_humidity, handle_get_observingconditions_pressure,
  handle_get_observingconditions_skytemperature, handle_get_observingconditions_sensordescription,
  handle_get_observingconditions_windspeed, handle_get_observingconditions_averageperiod,
  handle_get_observingconditions_temperature, handle_get_observingconditions_skybrightness,
  handle_get_observingconditions_dewpoint, handle_get_observingconditions_starfwhm,
  handle_put_observingconditions_refresh, handle_put_observingconditions_averageperiod,
  handle_get_observingconditions_rainrate, handle_get_observingconditions_cloudcover,
}
use esp32_idf_ascom_alpaca.Handler.Focuser.{
  handle_put_focuser_move, handle_get_focuser_position, handle_put_focuser_halt,
  handle_get_focuser_absolute, handle_get_focuser_temperature, handle_get_focuser_tempcompavailable,
  handle_get_focuser_tempcomp, handle_get_focuser_maxincrement, handle_get_focuser_stepsize,
  handle_get_focuser_maxstep, handle_get_focuser_ismoving, handle_put_focuser_tempcomp,
}
use esp32_idf_ascom_alpaca.Handler.Switch.{
  handle_get_switch_maxswitchvalue, handle_put_switch_setswitchname,
  handle_get_switch_getswitchname, handle_put_switch_setswitchvalue, handle_get_switch_maxswitch,
  handle_put_switch_setswitch, handle_get_switch_getswitch, handle_get_switch_switchstep,
  handle_get_switch_getswitchvalue, handle_get_switch_minswitchvalue,
  handle_get_switch_getswitchdescription, handle_get_switch_canwrite,
}
use esp32_idf_ascom_alpaca.Handler.FilterWheel.{
  handle_get_filterwheel_names, handle_get_filterwheel_position, handle_put_filterwheel_position,
  handle_get_filterwheel_focusoffsets,
}
use esp32_idf_ascom_alpaca.Handler.Dome.{
  handle_get_dome_cansetazimuth, handle_get_dome_altitude, handle_get_dome_cansetaltitude,
  handle_put_dome_findhome, handle_put_dome_slaved, handle_put_dome_setpark,
  handle_get_dome_cansyncazimuth, handle_get_dome_cansetshutter, handle_get_dome_slewing,
  handle_put_dome_slewtoaltitude, handle_get_dome_shutterstatus, handle_get_dome_azimuth,
  handle_put_dome_closeshutter, handle_get_dome_atpark, handle_put_dome_synctoazimuth,
  handle_get_dome_canpark, handle_put_dome_openshutter, handle_get_dome_canslave,
  handle_get_dome_athome, handle_get_dome_slaved, handle_put_dome_slewtoazimuth,
  handle_get_dome_canfindhome, handle_put_dome_abortslew, handle_put_dome_park,
  handle_get_dome_cansetpark,
}
use esp32_idf_ascom_alpaca.Handler.Common.{
  handle_get_interfaceversion, handle_get_name, handle_put_connected, handle_get_driverinfo,
  handle_put_commandblind, handle_get_connected, handle_get_supportedactions, handle_put_action,
  handle_get_description, handle_put_commandbool, handle_put_commandstring,
  handle_get_driverversion,
}
use esp32_idf_ascom_alpaca.Handler.CoverCalibrator.{
  handle_get_covercalibrator_coverstate, handle_get_covercalibrator_maxbrightness,
  handle_put_covercalibrator_opencover, handle_get_covercalibrator_brightness,
  handle_put_covercalibrator_calibratoroff, handle_get_covercalibrator_calibratorstate,
  handle_put_covercalibrator_haltcover, handle_put_covercalibrator_closecover,
  handle_put_covercalibrator_calibratoron,
}
use esp32_idf_ascom_alpaca.Routes.{class_routes, device_routes}
use esp32_idf_ascom_alpaca.Handler.SafetyMonitor.{handle_get_safetymonitor_issafe}
use esp32_idf_ascom_alpaca.Route.{Route}
use esp32_idf_ascom_alpaca.Base.Text.{Bytes}
use esp32_idf_ascom_alpaca.Platform.{Added, Platform}
use esp32_idf_ascom_alpaca.Handler.Contract.{
  device_handler-Contract, Contract, common_handler-Contract, reject_404-IsMismatch,
  answer_not_implemented-IsMismatch,
}
use esp32_idf_ascom_alpaca.Request.{AlpacaRequest}
use esp32_idf_ascom_alpaca.Handler.Casts.{
  as_cover_calibrator, as_cover_calibrator-IsDowncast, as_dome, as_filter_wheel, as_focuser,
  as_observing_conditions, as_rotator, as_safety_monitor, as_switch, as_dome-IsDowncast,
  as_filter_wheel-IsDowncast, as_focuser-IsDowncast, as_observing_conditions-IsDowncast,
  as_rotator-IsDowncast, as_safety_monitor-IsDowncast, as_switch-IsDowncast,
}
use esp32_idf_ascom_alpaca.Handler.{device_handler, answer_not_implemented, reject, common_handler}

-- The handler of a route keeps the contract.
abbrev pub KeepsContract : {W : Type 0} → Route W → Type 0
KeepsContract r = (p : Platform) → Contract (r.handler p)

common_plain :
    {W A B : Type 0} (read : Platform → AlpacaRequest → Option A)
    (call : DeviceOps W → A → Method W B) (value : B → Added) (p : Platform)
    → ((b : B) → IsWritten (value b))
    → Contract (common_handler read call value p)
common_plain read call value p there =
    common_handler-Contract read call value p λ d fills a w e. there _

common_routes-KeepsContract :
    (W : Type 0) (name : Bytes) → All KeepsContract (common_routes {W = W} name)
unfolding common_routes handle_put_action handle_put_commandblind handle_put_commandbool
    handle_put_commandstring handle_get_connected handle_put_connected handle_get_description
    handle_get_driverinfo handle_get_driverversion handle_get_interfaceversion handle_get_name
    handle_get_supportedactions
common_routes-KeepsContract W name = search (
  common_plain, action_written, commandstring_written, description_written, driverinfo_written,
  driverversion_written,
)

fits_cover_calibrator :
    {W A B : Type 0} (read : Platform → AlpacaRequest → Option A)
    (call : CoverCalibratorOps W → A → Method W B) (value : B → Added) (p : Platform)
    → ((b : B) → IsWritten (value b))
    → Contract (
        device_handler cover_calibrator as_cover_calibrator answer_not_implemented read call value
          p)
fits_cover_calibrator read call value p there =
    device_handler-Contract cover_calibrator as_cover_calibrator _ read call value p
      as_cover_calibrator-IsDowncast answer_not_implemented-IsMismatch
      λ k ops q fills a w e. there _

calibratoron :
    {W : Type 0} (read : Platform → AlpacaRequest → Option ℤ)
    (call : CoverCalibratorOps W → ℤ → Method W (Unit {0})) (value : Unit {0} → Added)
    (p : Platform)
    → ((b : Unit {0}) → IsWritten (value b))
    → Contract (
        device_handler cover_calibrator as_cover_calibrator
          (λ q r s. reject q 404 s)
          read
          call
          value
          p)
calibratoron read call value p there =
    device_handler-Contract cover_calibrator as_cover_calibrator _ read call value p
      as_cover_calibrator-IsDowncast reject_404-IsMismatch λ k ops q fills a w e. there _

cover_calibrator_routes-KeepsContract :
    (W : Type 0) → All KeepsContract (cover_calibrator_routes {W = W})
unfolding cover_calibrator_routes handle_get_covercalibrator_brightness
    handle_get_covercalibrator_calibratorstate handle_get_covercalibrator_coverstate
    handle_get_covercalibrator_maxbrightness handle_put_covercalibrator_calibratoroff
    handle_put_covercalibrator_calibratoron handle_put_covercalibrator_closecover
    handle_put_covercalibrator_haltcover handle_put_covercalibrator_opencover
cover_calibrator_routes-KeepsContract W = search (fits_cover_calibrator, calibratoron)

fits_dome :
    {W A B : Type 0} (read : Platform → AlpacaRequest → Option A)
    (call : DomeOps W → A → Method W B) (value : B → Added) (p : Platform)
    → ((b : B) → IsWritten (value b))
    → Contract (device_handler dome as_dome answer_not_implemented read call value p)
fits_dome read call value p there =
    device_handler-Contract dome as_dome _ read call value p as_dome-IsDowncast
      answer_not_implemented-IsMismatch λ k ops q fills a w e. there _

dome_routes-KeepsContract : (W : Type 0) → All KeepsContract (dome_routes {W = W})
unfolding dome_routes handle_get_dome_altitude handle_get_dome_athome handle_get_dome_atpark
    handle_get_dome_azimuth handle_get_dome_canfindhome handle_get_dome_canpark
    handle_get_dome_cansetaltitude handle_get_dome_cansetazimuth handle_get_dome_cansetpark
    handle_get_dome_cansetshutter handle_get_dome_canslave handle_get_dome_cansyncazimuth
    handle_get_dome_shutterstatus handle_get_dome_slaved handle_put_dome_slaved
    handle_get_dome_slewing handle_put_dome_abortslew handle_put_dome_closeshutter
    handle_put_dome_findhome handle_put_dome_openshutter handle_put_dome_park
    handle_put_dome_setpark handle_put_dome_slewtoaltitude handle_put_dome_slewtoazimuth
    handle_put_dome_synctoazimuth
dome_routes-KeepsContract W = search (fits_dome, shutterstatus_written)

fits_filter_wheel :
    {W A B : Type 0} (read : Platform → AlpacaRequest → Option A)
    (call : FilterWheelOps W → A → Method W B) (value : B → Added) (p : Platform)
    → ((b : B) → IsWritten (value b))
    → Contract
        (device_handler filter_wheel as_filter_wheel answer_not_implemented read call value p)
fits_filter_wheel read call value p there =
    device_handler-Contract filter_wheel as_filter_wheel _ read call value p
      as_filter_wheel-IsDowncast answer_not_implemented-IsMismatch λ k ops q fills a w e. there _

filter_wheel_routes-KeepsContract : (W : Type 0) → All KeepsContract (filter_wheel_routes {W = W})
unfolding filter_wheel_routes handle_get_filterwheel_focusoffsets handle_get_filterwheel_names
    handle_get_filterwheel_position handle_put_filterwheel_position
filter_wheel_routes-KeepsContract W = search (fits_filter_wheel)

fits_focuser :
    {W A B : Type 0} (read : Platform → AlpacaRequest → Option A)
    (call : FocuserOps W → A → Method W B) (value : B → Added) (p : Platform)
    → ((b : B) → IsWritten (value b))
    → Contract (device_handler focuser as_focuser answer_not_implemented read call value p)
fits_focuser read call value p there =
    device_handler-Contract focuser as_focuser _ read call value p as_focuser-IsDowncast
      answer_not_implemented-IsMismatch λ k ops q fills a w e. there _

focuser_routes-KeepsContract : (W : Type 0) → All KeepsContract (focuser_routes {W = W})
unfolding focuser_routes handle_get_focuser_absolute handle_get_focuser_ismoving
    handle_get_focuser_maxincrement handle_get_focuser_maxstep handle_get_focuser_position
    handle_get_focuser_stepsize handle_get_focuser_tempcomp handle_put_focuser_tempcomp
    handle_get_focuser_tempcompavailable handle_get_focuser_temperature handle_put_focuser_halt
    handle_put_focuser_move
focuser_routes-KeepsContract W = search (fits_focuser)

fits_observing_conditions :
    {W A B : Type 0} (read : Platform → AlpacaRequest → Option A)
    (call : ObservingConditionsOps W → A → Method W B) (value : B → Added) (p : Platform)
    → ((b : B) → IsWritten (value b))
    → Contract (
        device_handler observing_conditions as_observing_conditions answer_not_implemented read call
          value p)
fits_observing_conditions read call value p there =
    device_handler-Contract observing_conditions as_observing_conditions _ read call value p
      as_observing_conditions-IsDowncast answer_not_implemented-IsMismatch
      λ k ops q fills a w e. there _

observing_conditions_routes-KeepsContract :
    (W : Type 0) → All KeepsContract (observing_conditions_routes {W = W})
unfolding observing_conditions_routes handle_get_observingconditions_averageperiod
    handle_put_observingconditions_averageperiod handle_get_observingconditions_cloudcover
    handle_get_observingconditions_dewpoint handle_get_observingconditions_humidity
    handle_get_observingconditions_pressure handle_get_observingconditions_rainrate
    handle_get_observingconditions_skybrightness handle_get_observingconditions_skyquality
    handle_get_observingconditions_skytemperature handle_get_observingconditions_starfwhm
    handle_get_observingconditions_temperature handle_get_observingconditions_winddirection
    handle_get_observingconditions_windgust handle_get_observingconditions_windspeed
    handle_put_observingconditions_refresh handle_get_observingconditions_sensordescription
    handle_get_observingconditions_timesincelastupdate
observing_conditions_routes-KeepsContract W =
    search (fits_observing_conditions, sensordescription_written)

fits_rotator :
    {W A B : Type 0} (read : Platform → AlpacaRequest → Option A)
    (call : RotatorOps W → A → Method W B) (value : B → Added) (p : Platform)
    → ((b : B) → IsWritten (value b))
    → Contract (device_handler rotator as_rotator answer_not_implemented read call value p)
fits_rotator read call value p there =
    device_handler-Contract rotator as_rotator _ read call value p as_rotator-IsDowncast
      answer_not_implemented-IsMismatch λ k ops q fills a w e. there _

rotator_routes-KeepsContract : (W : Type 0) → All KeepsContract (rotator_routes {W = W})
unfolding rotator_routes handle_get_rotator_canreverse handle_get_rotator_ismoving
    handle_get_rotator_mechanicalposition handle_get_rotator_position handle_get_rotator_reverse
    handle_put_rotator_reverse handle_get_rotator_stepsize handle_get_rotator_targetposition
    handle_put_rotator_halt handle_put_rotator_move handle_put_rotator_moveabsolute
    handle_put_rotator_movemechanical handle_put_rotator_sync
rotator_routes-KeepsContract W = search (fits_rotator)

fits_safety_monitor :
    {W A B : Type 0} (read : Platform → AlpacaRequest → Option A)
    (call : SafetyMonitorOps W → A → Method W B) (value : B → Added) (p : Platform)
    → ((b : B) → IsWritten (value b))
    → Contract
        (device_handler safety_monitor as_safety_monitor answer_not_implemented read call value p)
fits_safety_monitor read call value p there =
    device_handler-Contract safety_monitor as_safety_monitor _ read call value p
      as_safety_monitor-IsDowncast answer_not_implemented-IsMismatch λ k ops q fills a w e. there _

safety_monitor_routes-KeepsContract :
    (W : Type 0) → All KeepsContract (safety_monitor_routes {W = W})
unfolding safety_monitor_routes handle_get_safetymonitor_issafe
safety_monitor_routes-KeepsContract W = search (fits_safety_monitor)

fits_switch :
    {W A B : Type 0} (read : Platform → AlpacaRequest → Option A)
    (call : SwitchOps W → A → Method W B) (value : B → Added) (p : Platform)
    → ((b : B) → IsWritten (value b))
    → Contract (device_handler switch as_switch answer_not_implemented read call value p)
fits_switch read call value p there =
    device_handler-Contract switch as_switch _ read call value p as_switch-IsDowncast
      answer_not_implemented-IsMismatch λ k ops q fills a w e. there _

switch_routes-KeepsContract : (W : Type 0) → All KeepsContract (switch_routes {W = W})
unfolding switch_routes handle_get_switch_maxswitch handle_get_switch_canwrite
    handle_get_switch_getswitch handle_get_switch_getswitchdescription
    handle_get_switch_getswitchname handle_get_switch_getswitchvalue
    handle_get_switch_minswitchvalue handle_get_switch_maxswitchvalue handle_put_switch_setswitch
    handle_put_switch_setswitchname handle_put_switch_setswitchvalue handle_get_switch_switchstep
switch_routes-KeepsContract W = search (fits_switch, switchdescription_written, switchname_written)

class_routes-KeepsContract :
    (W : Type 0) (t : DeviceType) → All KeepsContract (class_routes {W = W} t)
unfolding class_routes
class_routes-KeepsContract W camera = tt
class_routes-KeepsContract W unknown = tt
class_routes-KeepsContract W telescope = tt
class_routes-KeepsContract W cover_calibrator = cover_calibrator_routes-KeepsContract W
class_routes-KeepsContract W dome = dome_routes-KeepsContract W
class_routes-KeepsContract W filter_wheel = filter_wheel_routes-KeepsContract W
class_routes-KeepsContract W focuser = focuser_routes-KeepsContract W
class_routes-KeepsContract W observing_conditions = observing_conditions_routes-KeepsContract W
class_routes-KeepsContract W rotator = rotator_routes-KeepsContract W
class_routes-KeepsContract W safety_monitor = safety_monitor_routes-KeepsContract W
class_routes-KeepsContract W switch = switch_routes-KeepsContract W

-- Every route that is registered for a device keeps the contract: whatever the request and whatever
-- the drivers do, the transaction counter goes up by one and the rest of the API object stays as it
-- is; the answer is 200, 400 or 404; the drivers are touched only if it is 200; an answer of 400 or
-- 404 leaves the request's document allocated and one of 200 leaves none; and if each list of
-- devices holds devices of its own type, each driver fills what the handlers leave uninitialised and
-- the type's text in the URI fits its buffer, no null pointer is called, no device is cast to another
-- class, no buffer overflows, and nothing is read that was never written.
pub device_routes-KeepsContract : {W : Type 0} (d : Device W) → All KeepsContract (device_routes d)
unfolding device_routes
device_routes-KeepsContract {W} d =
    All-append KeepsContract (common_routes _) (class_routes (device_type d))
      (common_routes-KeepsContract W _) (class_routes-KeepsContract W (device_type d))
