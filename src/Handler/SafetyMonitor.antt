-- ===== src/Handler/SafetyMonitor.antt =====
-- The handlers of the SafetyMonitor API in api.cpp, in the order of the source.
use esp32_idf_ascom_alpaca.Base.{false}
use esp32_idf_ascom_alpaca.Platform.{Platform}
use esp32_idf_ascom_alpaca.Request.Answers.{Handler}
use esp32_idf_ascom_alpaca.Handler.{device_handler, answer_not_implemented}
use esp32_idf_ascom_alpaca.Device.{safety_monitor}
use esp32_idf_ascom_alpaca.Handler.Casts.{as_safety_monitor}
use esp32_idf_ascom_alpaca.Handler.Args.{no_args, bool_value}

unfoldable pub handle_get_safetymonitor_issafe : {W : Type 0} → Platform → Handler W
handle_get_safetymonitor_issafe =
    device_handler safety_monitor as_safety_monitor answer_not_implemented no_args
      (λ o a. o.get_issafe false) bool_value
