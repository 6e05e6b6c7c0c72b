-- ===== src/Handler/Rotator.antt =====
-- The handlers of the Rotator API in api.cpp, in the order of the source.
use esp32_idf_ascom_alpaca.Base.{false}
use esp32_idf_ascom_alpaca.Platform.{Platform}
use esp32_idf_ascom_alpaca.Request.Answers.{Handler}
use esp32_idf_ascom_alpaca.Handler.{device_handler, answer_not_implemented}
use esp32_idf_ascom_alpaca.Device.{rotator}
use esp32_idf_ascom_alpaca.Handler.Casts.{as_rotator}
use esp32_idf_ascom_alpaca.Handler.Args.{
  no_args, bool_arg, float_arg, bool_value, num_value, no_value,
}

unfoldable pub handle_get_rotator_canreverse : {W : Type 0} → Platform → Handler W
handle_get_rotator_canreverse =
    device_handler rotator as_rotator answer_not_implemented no_args (λ o a. o.get_canreverse false)
      bool_value

unfoldable pub handle_get_rotator_ismoving : {W : Type 0} → Platform → Handler W
handle_get_rotator_ismoving =
    device_handler rotator as_rotator answer_not_implemented no_args (λ o a. o.get_ismoving false)
      bool_value

unfoldable pub handle_get_rotator_mechanicalposition : {W : Type 0} → Platform → Handler W
handle_get_rotator_mechanicalposition =
    device_handler rotator as_rotator answer_not_implemented no_args
      (λ o a. o.get_mechanicalposition 0) num_value

unfoldable pub handle_get_rotator_position : {W : Type 0} → Platform → Handler W
handle_get_rotator_position =
    device_handler rotator as_rotator answer_not_implemented no_args (λ o a. o.get_position 0)
      num_value

unfoldable pub handle_get_rotator_reverse : {W : Type 0} → Platform → Handler W
handle_get_rotator_reverse =
    device_handler rotator as_rotator answer_not_implemented no_args (λ o a. o.get_reverse false)
      bool_value

unfoldable pub handle_put_rotator_reverse : {W : Type 0} → Platform → Handler W
handle_put_rotator_reverse =
    device_handler rotator as_rotator answer_not_implemented (bool_arg "Reverse")
      (λ o v. o.put_reverse v) no_value

unfoldable pub handle_get_rotator_stepsize : {W : Type 0} → Platform → Handler W
handle_get_rotator_stepsize =
    device_handler rotator as_rotator answer_not_implemented no_args (λ o a. o.get_stepsize 0)
      num_value

unfoldable pub handle_get_rotator_targetposition : {W : Type 0} → Platform → Handler W
handle_get_rotator_targetposition =
    device_handler rotator as_rotator answer_not_implemented no_args (λ o a. o.get_targetposition 0)
      num_value

unfoldable pub handle_put_rotator_halt : {W : Type 0} → Platform → Handler W
handle_put_rotator_halt =
    device_handler rotator as_rotator answer_not_implemented no_args (λ o a. o.put_halt) no_value

unfoldable pub handle_put_rotator_move : {W : Type 0} → Platform → Handler W
handle_put_rotator_move =
    device_handler rotator as_rotator answer_not_implemented (float_arg "Position")
      (λ o v. o.put_move v) no_value

unfoldable pub handle_put_rotator_moveabsolute : {W : Type 0} → Platform → Handler W
handle_put_rotator_moveabsolute =
    device_handler rotator as_rotator answer_not_implemented (float_arg "Position")
      (λ o v. o.put_moveabsolute v) no_value

unfoldable pub handle_put_rotator_movemechanical : {W : Type 0} → Platform → Handler W
handle_put_rotator_movemechanical =
    device_handler rotator as_rotator answer_not_implemented (float_arg "Position")
      (λ o v. o.put_movemechanical v) no_value

unfoldable pub handle_put_rotator_sync : {W : Type 0} → Platform → Handler W
handle_put_rotator_sync =
    device_handler rotator as_rotator answer_not_implemented (float_arg "Position")
      (λ o v. o.put_sync v) no_value
