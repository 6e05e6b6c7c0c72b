-- ===== src/Handler/Focuser.antt =====
-- The handlers of the Focuser API in api.cpp, in the order of the source.
use esp32_idf_ascom_alpaca.Base.{false, pos}
use esp32_idf_ascom_alpaca.Platform.{Platform}
use esp32_idf_ascom_alpaca.Request.Answers.{Handler}
use esp32_idf_ascom_alpaca.Handler.{device_handler, answer_not_implemented}
use esp32_idf_ascom_alpaca.Device.{focuser}
use esp32_idf_ascom_alpaca.Handler.Casts.{as_focuser}
use esp32_idf_ascom_alpaca.Handler.Args.{
  no_args, bool_arg, int_arg, bool_value, int_value, no_value, num_value,
}

unfoldable pub handle_get_focuser_absolute : {W : Type 0} → Platform → Handler W
handle_get_focuser_absolute =
    device_handler focuser as_focuser answer_not_implemented no_args (λ o a. o.get_absolute false)
      bool_value

unfoldable pub handle_get_focuser_ismoving : {W : Type 0} → Platform → Handler W
handle_get_focuser_ismoving =
    device_handler focuser as_focuser answer_not_implemented no_args (λ o a. o.get_ismoving false)
      bool_value

unfoldable pub handle_get_focuser_maxincrement : {W : Type 0} → Platform → Handler W
handle_get_focuser_maxincrement =
    device_handler focuser as_focuser answer_not_implemented no_args
      (λ o a. o.get_maxincrement (pos 0)) int_value

unfoldable pub handle_get_focuser_maxstep : {W : Type 0} → Platform → Handler W
handle_get_focuser_maxstep =
    device_handler focuser as_focuser answer_not_implemented no_args (λ o a. o.get_maxstep (pos 0))
      int_value

unfoldable pub handle_get_focuser_position : {W : Type 0} → Platform → Handler W
handle_get_focuser_position =
    device_handler focuser as_focuser answer_not_implemented no_args (λ o a. o.get_position (pos 0))
      int_value

unfoldable pub handle_get_focuser_stepsize : {W : Type 0} → Platform → Handler W
handle_get_focuser_stepsize =
    device_handler focuser as_focuser answer_not_implemented no_args (λ o a. o.get_stepsize (pos 0))
      int_value

unfoldable pub handle_get_focuser_tempcomp : {W : Type 0} → Platform → Handler W
handle_get_focuser_tempcomp =
    device_handler focuser as_focuser answer_not_implemented no_args (λ o a. o.get_tempcomp false)
      bool_value

unfoldable pub handle_put_focuser_tempcomp : {W : Type 0} → Platform → Handler W
handle_put_focuser_tempcomp =
    device_handler focuser as_focuser answer_not_implemented (bool_arg "TempComp")
      (λ o v. o.put_tempcomp v) no_value

unfoldable pub handle_get_focuser_tempcompavailable : {W : Type 0} → Platform → Handler W
handle_get_focuser_tempcompavailable =
    device_handler focuser as_focuser answer_not_implemented no_args
      (λ o a. o.get_tempcompavailable false) bool_value

unfoldable pub handle_get_focuser_temperature : {W : Type 0} → Platform → Handler W
handle_get_focuser_temperature =
    device_handler focuser as_focuser answer_not_implemented no_args (λ o a. o.get_temperature 0)
      num_value

unfoldable pub handle_put_focuser_halt : {W : Type 0} → Platform → Handler W
handle_put_focuser_halt =
    device_handler focuser as_focuser answer_not_implemented no_args (λ o a. o.put_halt) no_value

unfoldable pub handle_put_focuser_move : {W : Type 0} → Platform → Handler W
handle_put_focuser_move =
    device_handler focuser as_focuser answer_not_implemented (int_arg "Position")
      (λ o v. o.put_move v) no_value
