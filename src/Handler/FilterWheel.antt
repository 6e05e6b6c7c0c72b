-- ===== src/Handler/FilterWheel.antt =====
-- The handlers of the FilterWheel API in api.cpp, in the order of the source.
use esp32_idf_ascom_alpaca.Base.{[], pos}
use esp32_idf_ascom_alpaca.Platform.{item, Platform, ints, strs}
use esp32_idf_ascom_alpaca.Request.Answers.{Handler}
use esp32_idf_ascom_alpaca.Handler.{device_handler, answer_not_implemented}
use esp32_idf_ascom_alpaca.Device.{filter_wheel}
use esp32_idf_ascom_alpaca.Handler.Casts.{as_filter_wheel}
use esp32_idf_ascom_alpaca.Handler.Args.{no_args, int_arg, int_value, no_value}

unfoldable pub handle_get_filterwheel_focusoffsets : {W : Type 0} → Platform → Handler W
handle_get_filterwheel_focusoffsets =
    device_handler filter_wheel as_filter_wheel answer_not_implemented no_args
      (λ o a. o.get_focusoffsets []) (λ v. item (ints v))

unfoldable pub handle_get_filterwheel_names : {W : Type 0} → Platform → Handler W
handle_get_filterwheel_names =
    device_handler filter_wheel as_filter_wheel answer_not_implemented no_args
      (λ o a. o.get_names []) (λ v. item (strs v))

unfoldable pub handle_get_filterwheel_position : {W : Type 0} → Platform → Handler W
handle_get_filterwheel_position =
    device_handler filter_wheel as_filter_wheel answer_not_implemented no_args
      (λ o a. o.get_position (pos 0)) int_value

unfoldable pub handle_put_filterwheel_position : {W : Type 0} → Platform → Handler W
handle_put_filterwheel_position =
    device_handler filter_wheel as_filter_wheel answer_not_implemented (int_arg "Position")
      (λ o v. o.put_position v) no_value
