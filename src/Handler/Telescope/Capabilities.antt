-- ===== src/Handler/Telescope/Capabilities.antt =====
-- The handlers of the Telescope API in api.cpp: what a telescope is and can do.
use esp32_idf_ascom_alpaca.Device.Telescope.{
  AlignmentMode, EquatorialSystem, tracking_rate_value, alignment_mode_value,
  equatorial_system_value,
}
use esp32_idf_ascom_alpaca.Base.{false, [], map}
use esp32_idf_ascom_alpaca.Platform.{item, Platform, ints}
use esp32_idf_ascom_alpaca.Request.Answers.{Handler}
use esp32_idf_ascom_alpaca.Handler.Telescope.{telescope_handler, nothing, answer_or_reject}
use esp32_idf_ascom_alpaca.Handler.Args.{num_value, bool_value, int_value}

unfoldable pub handle_get_telescope_alignmentmode : {W : Type 0} → Platform → Handler W
handle_get_telescope_alignmentmode =
    telescope_handler nothing (λ o a. o.get_alignmentmode AlignmentMode.alt_az)
      (answer_or_reject (λ v. int_value (alignment_mode_value v)))

unfoldable pub handle_get_telescope_aperturearea : {W : Type 0} → Platform → Handler W
handle_get_telescope_aperturearea =
    telescope_handler nothing (λ o a. o.get_aperturearea 0) (answer_or_reject num_value)

unfoldable pub handle_get_telescope_aperturediameter : {W : Type 0} → Platform → Handler W
handle_get_telescope_aperturediameter =
    telescope_handler nothing (λ o a. o.get_aperturediameter 0) (answer_or_reject num_value)

unfoldable pub handle_get_telescope_canfindhome : {W : Type 0} → Platform → Handler W
handle_get_telescope_canfindhome =
    telescope_handler nothing (λ o a. o.get_canfindhome false) (answer_or_reject bool_value)

unfoldable pub handle_get_telescope_canpark : {W : Type 0} → Platform → Handler W
handle_get_telescope_canpark =
    telescope_handler nothing (λ o a. o.get_canpark false) (answer_or_reject bool_value)

unfoldable pub handle_get_telescope_canpulseguide : {W : Type 0} → Platform → Handler W
handle_get_telescope_canpulseguide =
    telescope_handler nothing (λ o a. o.get_canpulseguide false) (answer_or_reject bool_value)

unfoldable pub handle_get_telescope_cansetdeclinationrate : {W : Type 0} → Platform → Handler W
handle_get_telescope_cansetdeclinationrate =
    telescope_handler nothing (λ o a. o.get_cansetdeclinationrate false)
      (answer_or_reject bool_value)

unfoldable pub handle_get_telescope_cansetguiderates : {W : Type 0} → Platform → Handler W
handle_get_telescope_cansetguiderates =
    telescope_handler nothing (λ o a. o.get_cansetguiderates false) (answer_or_reject bool_value)

unfoldable pub handle_get_telescope_cansetpark : {W : Type 0} → Platform → Handler W
handle_get_telescope_cansetpark =
    telescope_handler nothing (λ o a. o.get_cansetpark false) (answer_or_reject bool_value)

unfoldable pub handle_get_telescope_cansetpierside : {W : Type 0} → Platform → Handler W
handle_get_telescope_cansetpierside =
    telescope_handler nothing (λ o a. o.get_cansetpierside false) (answer_or_reject bool_value)

unfoldable pub handle_get_telescope_cansetrightascensionrate : {W : Type 0} → Platform → Handler W
handle_get_telescope_cansetrightascensionrate =
    telescope_handler nothing (λ o a. o.get_cansetrightascensionrate false)
      (answer_or_reject bool_value)

unfoldable pub handle_get_telescope_cansettracking : {W : Type 0} → Platform → Handler W
handle_get_telescope_cansettracking =
    telescope_handler nothing (λ o a. o.get_cansettracking false) (answer_or_reject bool_value)

unfoldable pub handle_get_telescope_canslew : {W : Type 0} → Platform → Handler W
handle_get_telescope_canslew =
    telescope_handler nothing (λ o a. o.get_canslew false) (answer_or_reject bool_value)

unfoldable pub handle_get_telescope_canslewaltaz : {W : Type 0} → Platform → Handler W
handle_get_telescope_canslewaltaz =
    telescope_handler nothing (λ o a. o.get_canslewaltaz false) (answer_or_reject bool_value)

unfoldable pub handle_get_telescope_canslewaltazasync : {W : Type 0} → Platform → Handler W
handle_get_telescope_canslewaltazasync =
    telescope_handler nothing (λ o a. o.get_canslewaltazasync false) (answer_or_reject bool_value)

unfoldable pub handle_get_telescope_canslewasync : {W : Type 0} → Platform → Handler W
handle_get_telescope_canslewasync =
    telescope_handler nothing (λ o a. o.get_canslewasync false) (answer_or_reject bool_value)

unfoldable pub handle_get_telescope_cansync : {W : Type 0} → Platform → Handler W
handle_get_telescope_cansync =
    telescope_handler nothing (λ o a. o.get_cansync false) (answer_or_reject bool_value)

unfoldable pub handle_get_telescope_cansyncaltaz : {W : Type 0} → Platform → Handler W
handle_get_telescope_cansyncaltaz =
    telescope_handler nothing (λ o a. o.get_cansyncaltaz false) (answer_or_reject bool_value)

unfoldable pub handle_get_telescope_canunpark : {W : Type 0} → Platform → Handler W
handle_get_telescope_canunpark =
    telescope_handler nothing (λ o a. o.get_canunpark false) (answer_or_reject bool_value)

unfoldable pub handle_get_telescope_equatorialsystem : {W : Type 0} → Platform → Handler W
handle_get_telescope_equatorialsystem =
    telescope_handler nothing (λ o a. o.get_equatorialsystem EquatorialSystem.other)
      (answer_or_reject (λ v. int_value (equatorial_system_value v)))

unfoldable pub handle_get_telescope_focallength : {W : Type 0} → Platform → Handler W
handle_get_telescope_focallength =
    telescope_handler nothing (λ o a. o.get_focallength 0) (answer_or_reject num_value)

unfoldable pub handle_get_telescope_trackingrates : {W : Type 0} → Platform → Handler W
handle_get_telescope_trackingrates =
    telescope_handler nothing (λ o a. o.get_trackingrates [])
      (answer_or_reject (λ v. item (ints (map tracking_rate_value v))))
