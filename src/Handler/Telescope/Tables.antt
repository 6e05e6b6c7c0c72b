-- ===== src/Handler/Telescope/Tables.antt =====
-- The handlers of the Telescope API, as api.h declares them: those that read, and those that write.
use esp32_idf_ascom_alpaca.Base.{◌++◌, List, [], ◌∷◌}
use esp32_idf_ascom_alpaca.Handler.Telescope.Readings.{
  handle_get_telescope_athome, handle_get_telescope_slewing, handle_get_telescope_azimuth,
  handle_get_telescope_atpark, handle_get_telescope_altitude, handle_get_telescope_ispulseguiding,
  handle_get_telescope_rightascension, handle_get_telescope_siderealtime,
  handle_get_telescope_declination,
}
use esp32_idf_ascom_alpaca.Handler.Telescope.Settings.{
  handle_put_telescope_sitelongitude, handle_get_telescope_slewsettletime,
  handle_get_telescope_doesrefraction, handle_put_telescope_utcdate,
  handle_put_telescope_declinationrate, handle_get_telescope_targetdeclination,
  handle_get_telescope_tracking, handle_get_telescope_guideraterightascension,
  handle_put_telescope_guideraterightascension, handle_get_telescope_declinationrate,
  handle_get_telescope_guideratedeclination, handle_get_telescope_siteelevation,
  handle_put_telescope_siteelevation, handle_get_telescope_trackingrate,
  handle_get_telescope_sideofpier, handle_put_telescope_doesrefraction,
  handle_get_telescope_sitelongitude, handle_put_telescope_sitelatitude,
  handle_get_telescope_utcdate, handle_put_telescope_tracking,
  handle_put_telescope_rightascensionrate, handle_put_telescope_slewsettletime,
  handle_get_telescope_rightascensionrate, handle_put_telescope_targetrightascension,
  handle_put_telescope_targetdeclination, handle_put_telescope_guideratedeclination,
  handle_put_telescope_sideofpier, handle_put_telescope_trackingrate,
  handle_get_telescope_sitelatitude, handle_get_telescope_targetrightascension,
}
use esp32_idf_ascom_alpaca.Handler.Telescope.Capabilities.{
  handle_get_telescope_trackingrates, handle_get_telescope_canslew,
  handle_get_telescope_aperturearea, handle_get_telescope_cansettracking,
  handle_get_telescope_canslewaltazasync, handle_get_telescope_canslewasync,
  handle_get_telescope_cansetpierside, handle_get_telescope_canpark,
  handle_get_telescope_canpulseguide, handle_get_telescope_cansync,
  handle_get_telescope_cansyncaltaz, handle_get_telescope_focallength,
  handle_get_telescope_canfindhome, handle_get_telescope_canunpark,
  handle_get_telescope_equatorialsystem, handle_get_telescope_alignmentmode,
  handle_get_telescope_cansetguiderates, handle_get_telescope_cansetpark,
  handle_get_telescope_aperturediameter, handle_get_telescope_cansetdeclinationrate,
  handle_get_telescope_canslewaltaz, handle_get_telescope_cansetrightascensionrate,
}
use esp32_idf_ascom_alpaca.Handler.Telescope.Motion.{
  handle_get_telescope_canmoveaxis, handle_put_telescope_slewtocoordinatesasync,
  handle_put_telescope_setpark, handle_put_telescope_slewtoaltazasync,
  handle_put_telescope_findhome, handle_put_telescope_abortslew, handle_get_telescope_axisrates,
  handle_get_telescope_destinationsideofpier, handle_put_telescope_unpark,
  handle_put_telescope_moveaxis, handle_put_telescope_slewtotargetasync,
  handle_put_telescope_synctoaltaz, handle_put_telescope_pulseguide,
  handle_put_telescope_synctotarget, handle_put_telescope_synctocoordinates,
  handle_put_telescope_park,
}
use esp32_idf_ascom_alpaca.Platform.{Platform}
use esp32_idf_ascom_alpaca.Request.Answers.{Handler}
use esp32_idf_ascom_alpaca.Device.Telescope.{TelescopeOps}
use esp32_idf_ascom_alpaca.Device.{Double, Method}

-- Those that read no axis from the request.
unfoldable pub telescope_reads : {W : Type 0} → List (Platform → Handler W)
telescope_reads =
    handle_get_telescope_alignmentmode ∷ handle_get_telescope_altitude
    ∷ handle_get_telescope_aperturearea ∷ handle_get_telescope_aperturediameter
    ∷ handle_get_telescope_athome ∷ handle_get_telescope_atpark ∷ handle_get_telescope_azimuth
    ∷ handle_get_telescope_canfindhome ∷ handle_get_telescope_canpark
    ∷ handle_get_telescope_canpulseguide ∷ handle_get_telescope_cansetdeclinationrate
    ∷ handle_get_telescope_cansetguiderates ∷ handle_get_telescope_cansetpark
    ∷ handle_get_telescope_cansetpierside ∷ handle_get_telescope_cansetrightascensionrate
    ∷ handle_get_telescope_cansettracking ∷ handle_get_telescope_canslew
    ∷ handle_get_telescope_canslewaltaz ∷ handle_get_telescope_canslewaltazasync
    ∷ handle_get_telescope_canslewasync ∷ handle_get_telescope_cansync
    ∷ handle_get_telescope_cansyncaltaz ∷ handle_get_telescope_canunpark
    ∷ handle_get_telescope_declination ∷ handle_get_telescope_declinationrate
    ∷ handle_get_telescope_doesrefraction ∷ handle_get_telescope_equatorialsystem
    ∷ handle_get_telescope_focallength ∷ handle_get_telescope_guideratedeclination
    ∷ handle_get_telescope_guideraterightascension ∷ handle_get_telescope_ispulseguiding
    ∷ handle_get_telescope_rightascension ∷ handle_get_telescope_rightascensionrate
    ∷ handle_get_telescope_sideofpier ∷ handle_get_telescope_siderealtime
    ∷ handle_get_telescope_siteelevation ∷ handle_get_telescope_sitelatitude
    ∷ handle_get_telescope_sitelongitude ∷ handle_get_telescope_slewing
    ∷ handle_get_telescope_slewsettletime ∷ handle_get_telescope_targetdeclination
    ∷ handle_get_telescope_targetrightascension ∷ handle_get_telescope_tracking
    ∷ handle_get_telescope_trackingrate ∷ handle_get_telescope_trackingrates
    ∷ handle_get_telescope_utcdate ∷ handle_get_telescope_destinationsideofpier ∷ []

-- Those that read one.
unfoldable pub axis_reads : {W : Type 0} → List (Platform → Handler W)
axis_reads = handle_get_telescope_axisrates ∷ handle_get_telescope_canmoveaxis ∷ []

-- All that read.
unfoldable pub telescope_gets : {W : Type 0} → List (Platform → Handler W)
unfolding telescope_reads axis_reads
telescope_gets = telescope_reads ++ axis_reads

unfoldable pub telescope_puts : {W : Type 0} → List (Platform → Handler W)
telescope_puts =
    handle_put_telescope_declinationrate ∷ handle_put_telescope_doesrefraction
    ∷ handle_put_telescope_guideratedeclination ∷ handle_put_telescope_guideraterightascension
    ∷ handle_put_telescope_rightascensionrate ∷ handle_put_telescope_sideofpier
    ∷ handle_put_telescope_siteelevation ∷ handle_put_telescope_sitelatitude
    ∷ handle_put_telescope_sitelongitude ∷ handle_put_telescope_slewsettletime
    ∷ handle_put_telescope_targetdeclination ∷ handle_put_telescope_targetrightascension
    ∷ handle_put_telescope_tracking ∷ handle_put_telescope_trackingrate
    ∷ handle_put_telescope_utcdate ∷ handle_put_telescope_abortslew ∷ handle_put_telescope_findhome
    ∷ handle_put_telescope_moveaxis ∷ handle_put_telescope_park ∷ handle_put_telescope_pulseguide
    ∷ handle_put_telescope_setpark ∷ handle_put_telescope_slewtoaltazasync
    ∷ handle_put_telescope_slewtocoordinatesasync ∷ handle_put_telescope_slewtotargetasync
    ∷ handle_put_telescope_synctoaltaz ∷ handle_put_telescope_synctocoordinates
    ∷ handle_put_telescope_synctotarget ∷ handle_put_telescope_unpark ∷ []

-- The handlers of a PUT with one number, each with the method that it calls.
abbrev pub number_puts :
    {W : Type 0} → List ((Platform → Handler W) × (TelescopeOps W → Double → Method W (Unit {0})))
number_puts =
    (handle_put_telescope_declinationrate, λ o x. o.put_declinationrate x)
    ∷ (handle_put_telescope_guideratedeclination, λ o x. o.put_guideratedeclination x)
    ∷ (handle_put_telescope_guideraterightascension, λ o x. o.put_guideraterightascension x)
    ∷ (handle_put_telescope_rightascensionrate, λ o x. o.put_rightascensionrate x)
    ∷ (handle_put_telescope_siteelevation, λ o x. o.put_siteelevation x)
    ∷ (handle_put_telescope_sitelatitude, λ o x. o.put_sitelatitude x)
    ∷ (handle_put_telescope_sitelongitude, λ o x. o.put_sitelongitude x)
    ∷ (handle_put_telescope_targetdeclination, λ o x. o.put_targetdeclination x)
    ∷ (handle_put_telescope_targetrightascension, λ o x. o.put_targetrightascension x)
    ∷ []

-- Those with two, in the order in which the method takes them.
abbrev pub pair_puts :
    {W : Type 0}
    → List ((Platform → Handler W) × (TelescopeOps W → Double → Double → Method W (Unit {0})))
pair_puts =
    (handle_put_telescope_slewtoaltazasync, λ o x y. o.put_slewtoaltazasync x y)
    ∷ (handle_put_telescope_synctoaltaz, λ o x y. o.put_synctoaltaz x y)
    ∷ (handle_put_telescope_slewtocoordinatesasync, λ o x y. o.put_slewtocoordinatesasync x y)
    ∷ (handle_put_telescope_synctocoordinates, λ o x y. o.put_synctocoordinates x y)
    ∷ []

-- Those that test for a Boolean, or for a range.
abbrev pub tested_puts : {W : Type 0} → List (Platform → Handler W)
tested_puts =
    handle_put_telescope_doesrefraction ∷ handle_put_telescope_tracking
    ∷ handle_put_telescope_trackingrate ∷ []

-- Those that store a number into an integer.
abbrev pub converted_puts : {W : Type 0} → List (Platform → Handler W)
converted_puts =
    handle_put_telescope_sideofpier ∷ handle_put_telescope_slewsettletime
    ∷ handle_put_telescope_moveaxis ∷ handle_put_telescope_pulseguide ∷ []
