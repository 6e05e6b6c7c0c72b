-- ===== src/Handler/ObservingConditions.antt =====
-- The handlers of the ObservingConditions API in api.cpp, in the order of the source.
use esp32_idf_ascom_alpaca.Platform.{Platform}
use esp32_idf_ascom_alpaca.Request.Answers.{Handler}
use esp32_idf_ascom_alpaca.Handler.{device_handler, answer_not_implemented}
use esp32_idf_ascom_alpaca.Device.{observing_conditions}
use esp32_idf_ascom_alpaca.Handler.Casts.{as_observing_conditions}
use esp32_idf_ascom_alpaca.Handler.Args.{
  if_written, no_args, float_arg, text_of, num_value, no_value, text_value,
}

unfoldable pub handle_get_observingconditions_averageperiod : {W : Type 0} → Platform → Handler W
handle_get_observingconditions_averageperiod =
    device_handler observing_conditions as_observing_conditions answer_not_implemented no_args
      (λ o a. o.get_averageperiod 0) num_value

unfoldable pub handle_put_observingconditions_averageperiod : {W : Type 0} → Platform → Handler W
handle_put_observingconditions_averageperiod =
    device_handler observing_conditions as_observing_conditions answer_not_implemented
      (float_arg "AveragePeriod") (λ o v. o.put_averageperiod v) no_value

unfoldable pub handle_get_observingconditions_cloudcover : {W : Type 0} → Platform → Handler W
handle_get_observingconditions_cloudcover =
    device_handler observing_conditions as_observing_conditions answer_not_implemented no_args
      (λ o a. o.get_cloudcover 0) num_value

unfoldable pub handle_get_observingconditions_dewpoint : {W : Type 0} → Platform → Handler W
handle_get_observingconditions_dewpoint =
    device_handler observing_conditions as_observing_conditions answer_not_implemented no_args
      (λ o a. o.get_dewpoint 0) num_value

unfoldable pub handle_get_observingconditions_humidity : {W : Type 0} → Platform → Handler W
handle_get_observingconditions_humidity =
    device_handler observing_conditions as_observing_conditions answer_not_implemented no_args
      (λ o a. o.get_humidity 0) num_value

unfoldable pub handle_get_observingconditions_pressure : {W : Type 0} → Platform → Handler W
handle_get_observingconditions_pressure =
    device_handler observing_conditions as_observing_conditions answer_not_implemented no_args
      (λ o a. o.get_pressure 0) num_value

unfoldable pub handle_get_observingconditions_rainrate : {W : Type 0} → Platform → Handler W
handle_get_observingconditions_rainrate =
    device_handler observing_conditions as_observing_conditions answer_not_implemented no_args
      (λ o a. o.get_rainrate 0) num_value

unfoldable pub handle_get_observingconditions_skybrightness : {W : Type 0} → Platform → Handler W
handle_get_observingconditions_skybrightness =
    device_handler observing_conditions as_observing_conditions answer_not_implemented no_args
      (λ o a. o.get_skybrightness 0) num_value

unfoldable pub handle_get_observingconditions_skyquality : {W : Type 0} → Platform → Handler W
handle_get_observingconditions_skyquality =
    device_handler observing_conditions as_observing_conditions answer_not_implemented no_args
      (λ o a. o.get_skyquality 0) num_value

unfoldable pub handle_get_observingconditions_skytemperature : {W : Type 0} → Platform → Handler W
handle_get_observingconditions_skytemperature =
    device_handler observing_conditions as_observing_conditions answer_not_implemented no_args
      (λ o a. o.get_skytemperature 0) num_value

unfoldable pub handle_get_observingconditions_starfwhm : {W : Type 0} → Platform → Handler W
handle_get_observingconditions_starfwhm =
    device_handler observing_conditions as_observing_conditions answer_not_implemented no_args
      (λ o a. o.get_starfwhm 0) num_value

unfoldable pub handle_get_observingconditions_temperature : {W : Type 0} → Platform → Handler W
handle_get_observingconditions_temperature =
    device_handler observing_conditions as_observing_conditions answer_not_implemented no_args
      (λ o a. o.get_temperature 0) num_value

unfoldable pub handle_get_observingconditions_winddirection : {W : Type 0} → Platform → Handler W
handle_get_observingconditions_winddirection =
    device_handler observing_conditions as_observing_conditions answer_not_implemented no_args
      (λ o a. o.get_winddirection 0) num_value

unfoldable pub handle_get_observingconditions_windgust : {W : Type 0} → Platform → Handler W
handle_get_observingconditions_windgust =
    device_handler observing_conditions as_observing_conditions answer_not_implemented no_args
      (λ o a. o.get_windgust 0) num_value

unfoldable pub handle_get_observingconditions_windspeed : {W : Type 0} → Platform → Handler W
handle_get_observingconditions_windspeed =
    device_handler observing_conditions as_observing_conditions answer_not_implemented no_args
      (λ o a. o.get_windspeed 0) num_value

unfoldable pub handle_put_observingconditions_refresh : {W : Type 0} → Platform → Handler W
handle_put_observingconditions_refresh =
    device_handler observing_conditions as_observing_conditions answer_not_implemented no_args
      (λ o a. o.put_refresh) no_value

unfoldable pub handle_get_observingconditions_sensordescription :
    {W : Type 0} → Platform → Handler W
handle_get_observingconditions_sensordescription =
    device_handler observing_conditions as_observing_conditions answer_not_implemented
      (text_of "SensorName") (λ o name. o.get_sensordescription name 512) (if_written text_value)

unfoldable pub handle_get_observingconditions_timesincelastupdate :
    {W : Type 0} → Platform → Handler W
handle_get_observingconditions_timesincelastupdate =
    device_handler observing_conditions as_observing_conditions answer_not_implemented no_args
      (λ o a. o.get_timesincelastupdate 0) num_value
