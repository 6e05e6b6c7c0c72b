-- ===== src/Handler/CoverCalibrator.antt =====
-- The handlers of the CoverCalibrator API in api.cpp, in the order of the source.
use esp32_idf_ascom_alpaca.Platform.{Platform}
use esp32_idf_ascom_alpaca.Request.Answers.{Handler}
use esp32_idf_ascom_alpaca.Handler.{device_handler, answer_not_implemented, reject}
use esp32_idf_ascom_alpaca.Device.{
  cover_calibrator, CalibratorState, CoverState, calibrator_state_value, cover_state_value,
}
use esp32_idf_ascom_alpaca.Handler.Casts.{as_cover_calibrator}
use esp32_idf_ascom_alpaca.Handler.Args.{no_args, canonical_arg, uint_value, no_value}

unfoldable pub handle_get_covercalibrator_brightness : {W : Type 0} → Platform → Handler W
handle_get_covercalibrator_brightness =
    device_handler cover_calibrator as_cover_calibrator answer_not_implemented no_args
      (λ o a. o.get_brightness 0) uint_value

unfoldable pub handle_get_covercalibrator_calibratorstate : {W : Type 0} → Platform → Handler W
handle_get_covercalibrator_calibratorstate =
    device_handler cover_calibrator as_cover_calibrator answer_not_implemented no_args
      (λ o a. o.get_calibratorstate CalibratorState.unknown)
      (λ v. uint_value (calibrator_state_value v))

unfoldable pub handle_get_covercalibrator_coverstate : {W : Type 0} → Platform → Handler W
handle_get_covercalibrator_coverstate =
    device_handler cover_calibrator as_cover_calibrator answer_not_implemented no_args
      (λ o a. o.get_coverstate CoverState.unknown) (λ v. uint_value (cover_state_value v))

unfoldable pub handle_get_covercalibrator_maxbrightness : {W : Type 0} → Platform → Handler W
handle_get_covercalibrator_maxbrightness =
    device_handler cover_calibrator as_cover_calibrator answer_not_implemented no_args
      (λ o a. o.get_maxbrightness 0) uint_value

unfoldable pub handle_put_covercalibrator_calibratoroff : {W : Type 0} → Platform → Handler W
handle_put_covercalibrator_calibratoroff =
    device_handler cover_calibrator as_cover_calibrator answer_not_implemented no_args
      (λ o a. o.turn_calibratoroff) no_value

unfoldable pub handle_put_covercalibrator_calibratoron : {W : Type 0} → Platform → Handler W
handle_put_covercalibrator_calibratoron =
    device_handler cover_calibrator as_cover_calibrator (λ p r s. reject p 404 s)
      (canonical_arg "Brightness") (λ o v. o.turn_calibratoron v) no_value

unfoldable pub handle_put_covercalibrator_closecover : {W : Type 0} → Platform → Handler W
handle_put_covercalibrator_closecover =
    device_handler cover_calibrator as_cover_calibrator answer_not_implemented no_args
      (λ o a. o.closecover) no_value

unfoldable pub handle_put_covercalibrator_haltcover : {W : Type 0} → Platform → Handler W
handle_put_covercalibrator_haltcover =
    device_handler cover_calibrator as_cover_calibrator answer_not_implemented no_args
      (λ o a. o.haltcover) no_value

unfoldable pub handle_put_covercalibrator_opencover : {W : Type 0} → Platform → Handler W
handle_put_covercalibrator_opencover =
    device_handler cover_calibrator as_cover_calibrator answer_not_implemented no_args
      (λ o a. o.opencover) no_value
