-- ===== src/Server/Errors.antt =====
-- Error numbers and messages: the macros of api.h, `error_message`, `set_error` and `check_return`.
use esp32_idf_ascom_alpaca.Base.{
  ℕ, ◌^◌, Bool, true, false, Option, none, some, [], ◌∷◌, ◌++◌, ◌==◌, if◌then◌else◌, ℤ, pos, eq_ℤ,
  wrap,
}
use esp32_idf_ascom_alpaca.Base.Text.{Bytes, codes, strncpy}
use esp32_idf_ascom_alpaca.Platform.{Document, int, str}
use esp32_idf_ascom_alpaca.Server.{esp_ok, esp_err_not_found, MessageHandler}

abbrev pub not_implemented : ℕ
not_implemented = 0x400

abbrev pub invalid_value : ℕ
invalid_value = 0x401

abbrev pub value_not_set : ℕ
value_not_set = 0x402

abbrev pub not_connected : ℕ
not_connected = 0x407

abbrev pub invalid_while_parked : ℕ
invalid_while_parked = 0x408

abbrev pub invalid_while_slaved : ℕ
invalid_while_slaved = 0x409

abbrev pub invalid_operation : ℕ
invalid_operation = 0x40B

abbrev pub action_not_implemented : ℕ
action_not_implemented = 0x40C

-- The switch of `error_message`.
unfoldable pub message : ℕ → Option Bytes
message code =
    if code == not_implemented
    then some (codes "Not implemented")
    else if code == invalid_value
    then some (codes "Invalid value")
    else if code == value_not_set
    then some (codes "Value not set")
    else if code == not_connected
    then some (codes "Not connected")
    else if code == invalid_while_parked
    then some (codes "Invalid while parked")
    else if code == invalid_while_slaved
    then some (codes "Invalid while slaved")
    else if code == invalid_operation
    then some (codes "Invalid operation")
    else if code == action_not_implemented
    then some (codes "Action not implemented")
    else none

-- In the default case the buffer is not written.
unfoldable pub error_message : MessageHandler
unfolding message strncpy
error_message code len = elim (message code) [
  | none ↦ (esp_err_not_found, [])
  | some text ↦ (esp_ok, strncpy text len)
]

-- `err` is narrowed to the `uint16_t` that a message handler takes.
unfoldable pub set_error : MessageHandler → ℤ → Document → Document
set_error handler err root =
    let (result, text) = handler (wrap (2 ^ 16) err) 128 in
    let shown = if eq_ℤ result esp_ok then text else codes "Unknown error" in
    root ++ (codes "ErrorNumber", int err) ∷ (codes "ErrorMessage", str shown) ∷ []

unfoldable pub check_return : MessageHandler → ℤ → Document → Bool × Document
unfolding set_error
check_return handler err root =
    if eq_ℤ err (pos 0) then (true, root) else (false, set_error handler err root)
