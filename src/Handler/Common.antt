-- ===== src/Handler/Common.antt =====
-- The handlers of the methods that every device has, in the order of the source.
use esp32_idf_ascom_alpaca.Base.{Bool, false, Option, some, []}
use esp32_idf_ascom_alpaca.Handler.Args.{
  if_written, text_of, read_bool, text_value, no_value, bool_value, no_args, bool_arg, uint_value,
  ◌>>=◌,
}
use esp32_idf_ascom_alpaca.Platform.{item, Platform, strs}
use esp32_idf_ascom_alpaca.Request.{AlpacaRequest}
use esp32_idf_ascom_alpaca.Request.Answers.{Handler}
use esp32_idf_ascom_alpaca.Base.Text.{Bytes}
use esp32_idf_ascom_alpaca.Handler.{common_handler}

unfoldable pub action_args : Platform → AlpacaRequest → Option (Bytes × Bytes)
unfolding text_of
action_args p r = do
  action ← text_of "Action" p r
  parameters ← text_of "Parameters" p r
  some (action, parameters)

-- The parameters of the three commands.
unfoldable pub command_args : Platform → AlpacaRequest → Option (Bytes × Bool)
unfolding text_of read_bool
command_args p r = do
  command ← text_of "Command" p r
  raw ← text_of "Raw" p r
  raw_value ← read_bool raw
  some (command, raw_value)

unfoldable pub handle_put_action : {W : Type 0} → Platform → Handler W
handle_put_action = common_handler action_args (λ o a. o.action a.0 a.1 512) (if_written text_value)

unfoldable pub handle_put_commandblind : {W : Type 0} → Platform → Handler W
handle_put_commandblind = common_handler command_args (λ o a. o.commandblind a.0 a.1) no_value

unfoldable pub handle_put_commandbool : {W : Type 0} → Platform → Handler W
handle_put_commandbool = common_handler command_args (λ o a. o.commandbool a.0 a.1 false) bool_value

unfoldable pub handle_put_commandstring : {W : Type 0} → Platform → Handler W
handle_put_commandstring =
    common_handler command_args (λ o a. o.commandstring a.0 a.1 512) (if_written text_value)

unfoldable pub handle_get_connected : {W : Type 0} → Platform → Handler W
handle_get_connected = common_handler no_args (λ o a. o.get_connected false) bool_value

unfoldable pub handle_put_connected : {W : Type 0} → Platform → Handler W
handle_put_connected = common_handler (bool_arg "Connected") (λ o v. o.set_connected v) no_value

unfoldable pub handle_get_description : {W : Type 0} → Platform → Handler W
handle_get_description =
    common_handler no_args (λ o a. o.get_description 128) (if_written text_value)

unfoldable pub handle_get_driverinfo : {W : Type 0} → Platform → Handler W
handle_get_driverinfo = common_handler no_args (λ o a. o.get_driverinfo 128) (if_written text_value)

unfoldable pub handle_get_driverversion : {W : Type 0} → Platform → Handler W
handle_get_driverversion =
    common_handler no_args (λ o a. o.get_driverversion 128) (if_written text_value)

unfoldable pub handle_get_interfaceversion : {W : Type 0} → Platform → Handler W
handle_get_interfaceversion = common_handler no_args (λ o a. o.get_interfaceversion 0) uint_value

unfoldable pub handle_get_name : {W : Type 0} → Platform → Handler W
handle_get_name = common_handler no_args (λ o a. o.get_name 128) text_value

unfoldable pub handle_get_supportedactions : {W : Type 0} → Platform → Handler W
handle_get_supportedactions =
    common_handler no_args (λ o a. o.get_supportedactions []) (λ v. item (strs v))
