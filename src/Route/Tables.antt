-- ===== src/Route/Tables.antt =====
-- The routes of each class: the first part of `register_device_routes`, and the functions
-- `register_covercalibrator_routes` to `register_switch_routes` of api.cpp.
use esp32_idf_ascom_alpaca.Base.{List, [], ◌∷◌}
use esp32_idf_ascom_alpaca.Handler.CoverCalibrator.{
  handle_get_covercalibrator_maxbrightness, handle_put_covercalibrator_calibratoron,
  handle_put_covercalibrator_calibratoroff, handle_put_covercalibrator_closecover,
  handle_get_covercalibrator_brightness, handle_get_covercalibrator_calibratorstate,
  handle_get_covercalibrator_coverstate, handle_put_covercalibrator_opencover,
  handle_put_covercalibrator_haltcover,
}
use esp32_idf_ascom_alpaca.Handler.Dome.{
  handle_get_dome_azimuth, handle_get_dome_cansetshutter, handle_get_dome_canfindhome,
  handle_get_dome_altitude, handle_put_dome_slewtoazimuth, handle_put_dome_findhome,
  handle_put_dome_abortslew, handle_get_dome_atpark, handle_get_dome_slewing,
  handle_get_dome_athome, handle_get_dome_cansetazimuth, handle_put_dome_slewtoaltitude,
  handle_get_dome_cansetaltitude, handle_put_dome_setpark, handle_get_dome_shutterstatus,
  handle_put_dome_closeshutter, handle_put_dome_park, handle_get_dome_cansetpark,
  handle_put_dome_slaved, handle_get_dome_cansyncazimuth, handle_put_dome_openshutter,
  handle_get_dome_canpark, handle_put_dome_synctoazimuth, handle_get_dome_canslave,
  handle_get_dome_slaved,
}
use esp32_idf_ascom_alpaca.Handler.Focuser.{
  handle_get_focuser_temperature, handle_get_focuser_ismoving, handle_get_focuser_maxincrement,
  handle_get_focuser_stepsize, handle_put_focuser_move, handle_get_focuser_tempcompavailable,
  handle_put_focuser_tempcomp, handle_get_focuser_maxstep, handle_put_focuser_halt,
  handle_get_focuser_absolute, handle_get_focuser_position, handle_get_focuser_tempcomp,
}
use esp32_idf_ascom_alpaca.Handler.Common.{
  handle_get_description, handle_put_commandbool, handle_put_commandblind, handle_put_connected,
  handle_get_name, handle_get_supportedactions, handle_get_interfaceversion, handle_get_driverinfo,
  handle_get_driverversion, handle_put_commandstring, handle_put_action, handle_get_connected,
}
use esp32_idf_ascom_alpaca.Handler.ObservingConditions.{
  handle_get_observingconditions_averageperiod, handle_get_observingconditions_rainrate,
  handle_get_observingconditions_skybrightness, handle_get_observingconditions_humidity,
  handle_get_observingconditions_timesincelastupdate, handle_get_observingconditions_windgust,
  handle_get_observingconditions_skyquality, handle_get_observingconditions_skytemperature,
  handle_get_observingconditions_temperature, handle_get_observingconditions_windspeed,
  handle_get_observingconditions_winddirection, handle_get_observingconditions_sensordescription,
  handle_put_observingconditions_averageperiod, handle_get_observingconditions_starfwhm,
  handle_get_observingconditions_pressure, handle_get_observingconditions_cloudcover,
  handle_get_observingconditions_dewpoint, handle_put_observingconditions_refresh,
}
use esp32_idf_ascom_alpaca.Handler.SafetyMonitor.{handle_get_safetymonitor_issafe}
use esp32_idf_ascom_alpaca.Handler.Switch.{
  handle_get_switch_switchstep, handle_get_switch_maxswitchvalue, handle_put_switch_setswitchname,
  handle_put_switch_setswitch, handle_get_switch_getswitch, handle_get_switch_getswitchvalue,
  handle_get_switch_canwrite, handle_get_switch_minswitchvalue, handle_get_switch_maxswitch,
  handle_get_switch_getswitchdescription, handle_get_switch_getswitchname,
  handle_put_switch_setswitchvalue,
}
use esp32_idf_ascom_alpaca.Handler.Rotator.{
  handle_get_rotator_reverse, handle_get_rotator_mechanicalposition, handle_put_rotator_sync,
  handle_put_rotator_halt, handle_put_rotator_move, handle_get_rotator_targetposition,
  handle_put_rotator_reverse, handle_put_rotator_movemechanical, handle_get_rotator_position,
  handle_get_rotator_canreverse, handle_get_rotator_ismoving, handle_put_rotator_moveabsolute,
  handle_get_rotator_stepsize,
}
use esp32_idf_ascom_alpaca.Handler.FilterWheel.{
  handle_get_filterwheel_names, handle_get_filterwheel_position,
  handle_get_filterwheel_focusoffsets, handle_put_filterwheel_position,
}
use esp32_idf_ascom_alpaca.Base.Text.{Bytes, codes}
use esp32_idf_ascom_alpaca.Route.{Route, put, get}

-- The routes that every device has; the type is written by `uri_device_type` into 32 bytes.
unfoldable pub common_routes : {W : Type 0} → Bytes → List (Route W)
common_routes device_type =
    put device_type "action" handle_put_action
    ∷ put device_type "commandblind" handle_put_commandblind
    ∷ put device_type "commandbool" handle_put_commandbool
    ∷ put device_type "commandstring" handle_put_commandstring
    ∷ get device_type "connected" handle_get_connected
    ∷ put device_type "connected" handle_put_connected
    ∷ get device_type "description" handle_get_description
    ∷ get device_type "driverinfo" handle_get_driverinfo
    ∷ get device_type "driverversion" handle_get_driverversion
    ∷ get device_type "interfaceversion" handle_get_interfaceversion
    ∷ get device_type "name" handle_get_name
    ∷ get device_type "supportedactions" handle_get_supportedactions
    ∷ []

unfoldable pub cover_calibrator_routes : {W : Type 0} → List (Route W)
cover_calibrator_routes =
    get (codes "covercalibrator") "brightness" handle_get_covercalibrator_brightness
    ∷ get (codes "covercalibrator") "calibratorstate" handle_get_covercalibrator_calibratorstate
    ∷ get (codes "covercalibrator") "coverstate" handle_get_covercalibrator_coverstate
    ∷ get (codes "covercalibrator") "maxbrightness" handle_get_covercalibrator_maxbrightness
    ∷ put (codes "covercalibrator") "calibratoroff" handle_put_covercalibrator_calibratoroff
    ∷ put (codes "covercalibrator") "calibratoron" handle_put_covercalibrator_calibratoron
    ∷ put (codes "covercalibrator") "closecover" handle_put_covercalibrator_closecover
    ∷ put (codes "covercalibrator") "haltcover" handle_put_covercalibrator_haltcover
    ∷ put (codes "covercalibrator") "opencover" handle_put_covercalibrator_opencover
    ∷ []

unfoldable pub dome_routes : {W : Type 0} → List (Route W)
dome_routes =
    get (codes "dome") "altitude" handle_get_dome_altitude
    ∷ get (codes "dome") "athome" handle_get_dome_athome
    ∷ get (codes "dome") "atpark" handle_get_dome_atpark
    ∷ get (codes "dome") "azimuth" handle_get_dome_azimuth
    ∷ get (codes "dome") "canfindhome" handle_get_dome_canfindhome
    ∷ get (codes "dome") "canpark" handle_get_dome_canpark
    ∷ get (codes "dome") "cansetaltitude" handle_get_dome_cansetaltitude
    ∷ get (codes "dome") "cansetazimuth" handle_get_dome_cansetazimuth
    ∷ get (codes "dome") "cansetpark" handle_get_dome_cansetpark
    ∷ get (codes "dome") "cansetshutter" handle_get_dome_cansetshutter
    ∷ get (codes "dome") "canslave" handle_get_dome_canslave
    ∷ get (codes "dome") "cansyncazimuth" handle_get_dome_cansyncazimuth
    ∷ get (codes "dome") "shutterstatus" handle_get_dome_shutterstatus
    ∷ get (codes "dome") "slaved" handle_get_dome_slaved
    ∷ put (codes "dome") "slaved" handle_put_dome_slaved
    ∷ get (codes "dome") "slewing" handle_get_dome_slewing
    ∷ put (codes "dome") "abortslew" handle_put_dome_abortslew
    ∷ put (codes "dome") "closeshutter" handle_put_dome_closeshutter
    ∷ put (codes "dome") "findhome" handle_put_dome_findhome
    ∷ put (codes "dome") "openshutter" handle_put_dome_openshutter
    ∷ put (codes "dome") "park" handle_put_dome_park
    ∷ put (codes "dome") "setpark" handle_put_dome_setpark
    ∷ put (codes "dome") "slewtoaltitude" handle_put_dome_slewtoaltitude
    ∷ put (codes "dome") "slewtoazimuth" handle_put_dome_slewtoazimuth
    ∷ put (codes "dome") "synctoazimuth" handle_put_dome_synctoazimuth
    ∷ []

unfoldable pub filter_wheel_routes : {W : Type 0} → List (Route W)
filter_wheel_routes =
    get (codes "filterwheel") "focusoffsets" handle_get_filterwheel_focusoffsets
    ∷ get (codes "filterwheel") "names" handle_get_filterwheel_names
    ∷ get (codes "filterwheel") "position" handle_get_filterwheel_position
    ∷ put (codes "filterwheel") "position" handle_put_filterwheel_position
    ∷ []

unfoldable pub focuser_routes : {W : Type 0} → List (Route W)
focuser_routes =
    get (codes "focuser") "absolute" handle_get_focuser_absolute
    ∷ get (codes "focuser") "ismoving" handle_get_focuser_ismoving
    ∷ get (codes "focuser") "maxincrement" handle_get_focuser_maxincrement
    ∷ get (codes "focuser") "maxstep" handle_get_focuser_maxstep
    ∷ get (codes "focuser") "position" handle_get_focuser_position
    ∷ get (codes "focuser") "stepsize" handle_get_focuser_stepsize
    ∷ get (codes "focuser") "tempcomp" handle_get_focuser_tempcomp
    ∷ put (codes "focuser") "tempcomp" handle_put_focuser_tempcomp
    ∷ get (codes "focuser") "tempcompavailable" handle_get_focuser_tempcompavailable
    ∷ get (codes "focuser") "temperature" handle_get_focuser_temperature
    ∷ put (codes "focuser") "halt" handle_put_focuser_halt
    ∷ put (codes "focuser") "move" handle_put_focuser_move
    ∷ []

unfoldable pub observing_conditions_routes : {W : Type 0} → List (Route W)
observing_conditions_routes =
    get (codes "observingconditions") "averageperiod" handle_get_observingconditions_averageperiod
    ∷ put (codes "observingconditions") "averageperiod" handle_put_observingconditions_averageperiod
    ∷ get (codes "observingconditions") "cloudcover" handle_get_observingconditions_cloudcover
    ∷ get (codes "observingconditions") "dewpoint" handle_get_observingconditions_dewpoint
    ∷ get (codes "observingconditions") "humidity" handle_get_observingconditions_humidity
    ∷ get (codes "observingconditions") "pressure" handle_get_observingconditions_pressure
    ∷ get (codes "observingconditions") "rainrate" handle_get_observingconditions_rainrate
    ∷ get (codes "observingconditions") "skybrightness" handle_get_observingconditions_skybrightness
    ∷ get (codes "observingconditions") "skyquality" handle_get_observingconditions_skyquality
    ∷ get (codes "observingconditions") "skytemperature"
        handle_get_observingconditions_skytemperature
    ∷ get (codes "observingconditions") "starfwhm" handle_get_observingconditions_starfwhm
    ∷ get (codes "observingconditions") "temperature" handle_get_observingconditions_temperature
    ∷ get (codes "observingconditions") "winddirection" handle_get_observingconditions_winddirection
    ∷ get (codes "observingconditions") "windgust" handle_get_observingconditions_windgust
    ∷ get (codes "observingconditions") "windspeed" handle_get_observingconditions_windspeed
    ∷ put (codes "observingconditions") "refresh" handle_put_observingconditions_refresh
    ∷ get (codes "observingconditions") "sensordescription"
        handle_get_observingconditions_sensordescription
    ∷ get (codes "observingconditions") "timesincelastupdate"
        handle_get_observingconditions_timesincelastupdate
    ∷ []

unfoldable pub rotator_routes : {W : Type 0} → List (Route W)
rotator_routes =
    get (codes "rotator") "canreverse" handle_get_rotator_canreverse
    ∷ get (codes "rotator") "ismoving" handle_get_rotator_ismoving
    ∷ get (codes "rotator") "mechanicalposition" handle_get_rotator_mechanicalposition
    ∷ get (codes "rotator") "position" handle_get_rotator_position
    ∷ get (codes "rotator") "reverse" handle_get_rotator_reverse
    ∷ put (codes "rotator") "reverse" handle_put_rotator_reverse
    ∷ get (codes "rotator") "stepsize" handle_get_rotator_stepsize
    ∷ get (codes "rotator") "targetposition" handle_get_rotator_targetposition
    ∷ put (codes "rotator") "halt" handle_put_rotator_halt
    ∷ put (codes "rotator") "move" handle_put_rotator_move
    ∷ put (codes "rotator") "moveabsolute" handle_put_rotator_moveabsolute
    ∷ put (codes "rotator") "movemechanical" handle_put_rotator_movemechanical
    ∷ put (codes "rotator") "sync" handle_put_rotator_sync
    ∷ []

unfoldable pub safety_monitor_routes : {W : Type 0} → List (Route W)
safety_monitor_routes = get (codes "safetymonitor") "issafe" handle_get_safetymonitor_issafe ∷ []

unfoldable pub switch_routes : {W : Type 0} → List (Route W)
switch_routes =
    get (codes "switch") "maxswitch" handle_get_switch_maxswitch
    ∷ get (codes "switch") "canwrite" handle_get_switch_canwrite
    ∷ get (codes "switch") "getswitch" handle_get_switch_getswitch
    ∷ get (codes "switch") "getswitchdescription" handle_get_switch_getswitchdescription
    ∷ get (codes "switch") "getswitchname" handle_get_switch_getswitchname
    ∷ get (codes "switch") "getswitchvalue" handle_get_switch_getswitchvalue
    ∷ get (codes "switch") "minswitchvalue" handle_get_switch_minswitchvalue
    ∷ get (codes "switch") "maxswitchvalue" handle_get_switch_maxswitchvalue
    ∷ put (codes "switch") "setswitch" handle_put_switch_setswitch
    ∷ put (codes "switch") "setswitchname" handle_put_switch_setswitchname
    ∷ put (codes "switch") "setswitchvalue" handle_put_switch_setswitchvalue
    ∷ get (codes "switch") "switchstep" handle_get_switch_switchstep
    ∷ []
