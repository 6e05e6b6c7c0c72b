-- ===== src/Handler/Dome.antt =====
-- The handlers of the Dome API in api.cpp, in the order of the source.
use esp32_idf_ascom_alpaca.Base.{false}
use esp32_idf_ascom_alpaca.Platform.{Platform}
use esp32_idf_ascom_alpaca.Request.Answers.{Handler}
use esp32_idf_ascom_alpaca.Handler.{device_handler, answer_not_implemented}
use esp32_idf_ascom_alpaca.Device.{dome, shutter_state_value}
use esp32_idf_ascom_alpaca.Handler.Casts.{as_dome}
use esp32_idf_ascom_alpaca.Handler.Args.{
  if_written, no_args, bool_arg, float_arg, num_value, bool_value, uint_value, no_value,
}

unfoldable pub handle_get_dome_altitude : {W : Type 0} → Platform → Handler W
handle_get_dome_altitude =
    device_handler dome as_dome answer_not_implemented no_args (λ o a. o.get_altitude 0) num_value

unfoldable pub handle_get_dome_athome : {W : Type 0} → Platform → Handler W
handle_get_dome_athome =
    device_handler dome as_dome answer_not_implemented no_args (λ o a. o.get_athome false)
      bool_value

unfoldable pub handle_get_dome_atpark : {W : Type 0} → Platform → Handler W
handle_get_dome_atpark =
    device_handler dome as_dome answer_not_implemented no_args (λ o a. o.get_atpark false)
      bool_value

unfoldable pub handle_get_dome_azimuth : {W : Type 0} → Platform → Handler W
handle_get_dome_azimuth =
    device_handler dome as_dome answer_not_implemented no_args (λ o a. o.get_azimuth 0) num_value

unfoldable pub handle_get_dome_canfindhome : {W : Type 0} → Platform → Handler W
handle_get_dome_canfindhome =
    device_handler dome as_dome answer_not_implemented no_args (λ o a. o.get_canfindhome false)
      bool_value

unfoldable pub handle_get_dome_canpark : {W : Type 0} → Platform → Handler W
handle_get_dome_canpark =
    device_handler dome as_dome answer_not_implemented no_args (λ o a. o.get_canpark false)
      bool_value

unfoldable pub handle_get_dome_cansetaltitude : {W : Type 0} → Platform → Handler W
handle_get_dome_cansetaltitude =
    device_handler dome as_dome answer_not_implemented no_args (λ o a. o.get_cansetaltitude false)
      bool_value

unfoldable pub handle_get_dome_cansetazimuth : {W : Type 0} → Platform → Handler W
handle_get_dome_cansetazimuth =
    device_handler dome as_dome answer_not_implemented no_args (λ o a. o.get_cansetazimuth false)
      bool_value

unfoldable pub handle_get_dome_cansetpark : {W : Type 0} → Platform → Handler W
handle_get_dome_cansetpark =
    device_handler dome as_dome answer_not_implemented no_args (λ o a. o.get_cansetpark false)
      bool_value

unfoldable pub handle_get_dome_cansetshutter : {W : Type 0} → Platform → Handler W
handle_get_dome_cansetshutter =
    device_handler dome as_dome answer_not_implemented no_args (λ o a. o.get_cansetshutter false)
      bool_value

unfoldable pub handle_get_dome_canslave : {W : Type 0} → Platform → Handler W
handle_get_dome_canslave =
    device_handler dome as_dome answer_not_implemented no_args (λ o a. o.get_canslave false)
      bool_value

unfoldable pub handle_get_dome_cansyncazimuth : {W : Type 0} → Platform → Handler W
handle_get_dome_cansyncazimuth =
    device_handler dome as_dome answer_not_implemented no_args (λ o a. o.get_cansyncazimuth false)
      bool_value

unfoldable pub handle_get_dome_shutterstatus : {W : Type 0} → Platform → Handler W
handle_get_dome_shutterstatus =
    device_handler dome as_dome answer_not_implemented no_args (λ o a. o.get_shutterstatus)
      (if_written (λ v. uint_value (shutter_state_value v)))

unfoldable pub handle_get_dome_slaved : {W : Type 0} → Platform → Handler W
handle_get_dome_slaved =
    device_handler dome as_dome answer_not_implemented no_args (λ o a. o.get_slaved false)
      bool_value

unfoldable pub handle_put_dome_slaved : {W : Type 0} → Platform → Handler W
handle_put_dome_slaved =
    device_handler dome as_dome answer_not_implemented (bool_arg "Slaved") (λ o v. o.put_slaved v)
      no_value

unfoldable pub handle_get_dome_slewing : {W : Type 0} → Platform → Handler W
handle_get_dome_slewing =
    device_handler dome as_dome answer_not_implemented no_args (λ o a. o.get_slewing false)
      bool_value

unfoldable pub handle_put_dome_abortslew : {W : Type 0} → Platform → Handler W
handle_put_dome_abortslew =
    device_handler dome as_dome answer_not_implemented no_args (λ o a. o.put_abortslew) no_value

unfoldable pub handle_put_dome_closeshutter : {W : Type 0} → Platform → Handler W
handle_put_dome_closeshutter =
    device_handler dome as_dome answer_not_implemented no_args (λ o a. o.put_closeshutter) no_value

unfoldable pub handle_put_dome_findhome : {W : Type 0} → Platform → Handler W
handle_put_dome_findhome =
    device_handler dome as_dome answer_not_implemented no_args (λ o a. o.put_findhome) no_value

unfoldable pub handle_put_dome_openshutter : {W : Type 0} → Platform → Handler W
handle_put_dome_openshutter =
    device_handler dome as_dome answer_not_implemented no_args (λ o a. o.put_openshutter) no_value

unfoldable pub handle_put_dome_park : {W : Type 0} → Platform → Handler W
handle_put_dome_park =
    device_handler dome as_dome answer_not_implemented no_args (λ o a. o.put_park) no_value

unfoldable pub handle_put_dome_setpark : {W : Type 0} → Platform → Handler W
handle_put_dome_setpark =
    device_handler dome as_dome answer_not_implemented no_args (λ o a. o.put_setpark) no_value

unfoldable pub handle_put_dome_slewtoaltitude : {W : Type 0} → Platform → Handler W
handle_put_dome_slewtoaltitude =
    device_handler dome as_dome answer_not_implemented (float_arg "Altitude")
      (λ o v. o.put_slewtoaltitude v) no_value

unfoldable pub handle_put_dome_slewtoazimuth : {W : Type 0} → Platform → Handler W
handle_put_dome_slewtoazimuth =
    device_handler dome as_dome answer_not_implemented (float_arg "Azimuth")
      (λ o v. o.put_slewtoazimuth v) no_value

unfoldable pub handle_put_dome_synctoazimuth : {W : Type 0} → Platform → Handler W
handle_put_dome_synctoazimuth =
    device_handler dome as_dome answer_not_implemented (float_arg "Azimuth")
      (λ o v. o.put_synctoazimuth v) no_value
