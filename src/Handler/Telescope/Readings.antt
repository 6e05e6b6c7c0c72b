-- ===== src/Handler/Telescope/Readings.antt =====
-- The handlers of the Telescope API in api.cpp: what a telescope measures.
use esp32_idf_ascom_alpaca.Base.{false}
use esp32_idf_ascom_alpaca.Platform.{Platform}
use esp32_idf_ascom_alpaca.Request.Answers.{Handler}
use esp32_idf_ascom_alpaca.Handler.Telescope.{telescope_handler, nothing, answer_or_reject}
use esp32_idf_ascom_alpaca.Handler.Args.{num_value, bool_value}

unfoldable pub handle_get_telescope_altitude : {W : Type 0} → Platform → Handler W
handle_get_telescope_altitude =
    telescope_handler nothing (λ o a. o.get_altitude 0) (answer_or_reject num_value)

unfoldable pub handle_get_telescope_athome : {W : Type 0} → Platform → Handler W
handle_get_telescope_athome =
    telescope_handler nothing (λ o a. o.get_athome false) (answer_or_reject bool_value)

unfoldable pub handle_get_telescope_atpark : {W : Type 0} → Platform → Handler W
handle_get_telescope_atpark =
    telescope_handler nothing (λ o a. o.get_atpark false) (answer_or_reject bool_value)

unfoldable pub handle_get_telescope_azimuth : {W : Type 0} → Platform → Handler W
handle_get_telescope_azimuth =
    telescope_handler nothing (λ o a. o.get_azimuth 0) (answer_or_reject num_value)

unfoldable pub handle_get_telescope_declination : {W : Type 0} → Platform → Handler W
handle_get_telescope_declination =
    telescope_handler nothing (λ o a. o.get_declination 0) (answer_or_reject num_value)

unfoldable pub handle_get_telescope_ispulseguiding : {W : Type 0} → Platform → Handler W
handle_get_telescope_ispulseguiding =
    telescope_handler nothing (λ o a. o.get_ispulseguiding false) (answer_or_reject bool_value)

unfoldable pub handle_get_telescope_rightascension : {W : Type 0} → Platform → Handler W
handle_get_telescope_rightascension =
    telescope_handler nothing (λ o a. o.get_rightascension 0) (answer_or_reject num_value)

unfoldable pub handle_get_telescope_siderealtime : {W : Type 0} → Platform → Handler W
handle_get_telescope_siderealtime =
    telescope_handler nothing (λ o a. o.get_siderealtime 0) (answer_or_reject num_value)

unfoldable pub handle_get_telescope_slewing : {W : Type 0} → Platform → Handler W
handle_get_telescope_slewing =
    telescope_handler nothing (λ o a. o.get_slewing false) (answer_or_reject bool_value)
