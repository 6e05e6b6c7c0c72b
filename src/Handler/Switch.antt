-- ===== src/Handler/Switch.antt =====
-- The handlers of the Switch API in api.cpp, in the order of the source.
use esp32_idf_ascom_alpaca.Base.{Bool, false, Option, some, ℤ, pos}
use esp32_idf_ascom_alpaca.Handler.Args.{
  if_written, text_of_any_case, text_of, read_int, read_bool, read_double, no_args, bool_value,
  text_value, num_value, no_value, int_value, ◌>>=◌,
}
use esp32_idf_ascom_alpaca.Platform.{Platform}
use esp32_idf_ascom_alpaca.Request.Answers.{Handler}
use esp32_idf_ascom_alpaca.Request.{AlpacaRequest}
use esp32_idf_ascom_alpaca.Handler.{device_handler, answer_not_implemented}
use esp32_idf_ascom_alpaca.Base.Text.{Bytes}
use esp32_idf_ascom_alpaca.Device.{Double, switch}
use esp32_idf_ascom_alpaca.Handler.Casts.{as_switch}

-- The parameter of the GET requests.
unfoldable pub id_arg : Platform → AlpacaRequest → Option ℤ
unfolding text_of_any_case read_int
id_arg p r = text_of_any_case "Id" p r >>= read_int

unfoldable pub setswitch_args : Platform → AlpacaRequest → Option (ℤ × Bool)
unfolding text_of read_int read_bool
setswitch_args p r = do
  id ← text_of "Id" p r
  state ← text_of "State" p r
  state_value ← read_bool state
  id_value ← read_int id
  some (id_value, state_value)

unfoldable pub setswitchname_args : Platform → AlpacaRequest → Option (ℤ × Bytes)
unfolding text_of read_int
setswitchname_args p r = do
  id ← text_of "Id" p r
  name ← text_of "Name" p r
  id_value ← read_int id
  some (id_value, name)

unfoldable pub setswitchvalue_args : Platform → AlpacaRequest → Option (ℤ × Double)
unfolding text_of read_int read_double
setswitchvalue_args p r = do
  id ← text_of "Id" p r
  value ← text_of "Value" p r
  id_value ← read_int id
  value_value ← read_double p value
  some (id_value, value_value)

unfoldable pub handle_get_switch_maxswitch : {W : Type 0} → Platform → Handler W
handle_get_switch_maxswitch =
    device_handler switch as_switch answer_not_implemented no_args (λ o a. o.get_maxswitch (pos 0))
      int_value

unfoldable pub handle_get_switch_canwrite : {W : Type 0} → Platform → Handler W
handle_get_switch_canwrite =
    device_handler switch as_switch answer_not_implemented id_arg (λ o id. o.get_canwrite id false)
      bool_value

unfoldable pub handle_get_switch_getswitch : {W : Type 0} → Platform → Handler W
handle_get_switch_getswitch =
    device_handler switch as_switch answer_not_implemented id_arg (λ o id. o.get_getswitch id false)
      bool_value

unfoldable pub handle_get_switch_getswitchdescription : {W : Type 0} → Platform → Handler W
handle_get_switch_getswitchdescription =
    device_handler switch as_switch answer_not_implemented id_arg
      (λ o id. o.get_getswitchdescription id 512) (if_written text_value)

unfoldable pub handle_get_switch_getswitchname : {W : Type 0} → Platform → Handler W
handle_get_switch_getswitchname =
    device_handler switch as_switch answer_not_implemented id_arg
      (λ o id. o.get_getswitchname id 512) (if_written text_value)

unfoldable pub handle_get_switch_getswitchvalue : {W : Type 0} → Platform → Handler W
handle_get_switch_getswitchvalue =
    device_handler switch as_switch answer_not_implemented id_arg
      (λ o id. o.get_getswitchvalue id 0) num_value

unfoldable pub handle_get_switch_minswitchvalue : {W : Type 0} → Platform → Handler W
handle_get_switch_minswitchvalue =
    device_handler switch as_switch answer_not_implemented id_arg
      (λ o id. o.get_minswitchvalue id 0) num_value

unfoldable pub handle_get_switch_maxswitchvalue : {W : Type 0} → Platform → Handler W
handle_get_switch_maxswitchvalue =
    device_handler switch as_switch answer_not_implemented id_arg
      (λ o id. o.get_maxswitchvalue id 0) num_value

unfoldable pub handle_put_switch_setswitch : {W : Type 0} → Platform → Handler W
handle_put_switch_setswitch =
    device_handler switch as_switch answer_not_implemented setswitch_args
      (λ o a. o.put_setswitch a.0 a.1) no_value

unfoldable pub handle_put_switch_setswitchname : {W : Type 0} → Platform → Handler W
handle_put_switch_setswitchname =
    device_handler switch as_switch answer_not_implemented setswitchname_args
      (λ o a. o.put_setswitchname a.0 a.1) no_value

unfoldable pub handle_put_switch_setswitchvalue : {W : Type 0} → Platform → Handler W
handle_put_switch_setswitchvalue =
    device_handler switch as_switch answer_not_implemented setswitchvalue_args
      (λ o a. o.put_setswitchvalue a.0 a.1) no_value

unfoldable pub handle_get_switch_switchstep : {W : Type 0} → Platform → Handler W
handle_get_switch_switchstep =
    device_handler switch as_switch answer_not_implemented id_arg (λ o id. o.get_switchstep id 0)
      num_value
