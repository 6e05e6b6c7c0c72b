-- ===== src/Request.antt =====
-- `parse_string` and `parse_request` of api.cpp, and the answers `send_json_response` and
-- `send_error_response`. An HTTP request is what the server's functions return of it: the URI, the
-- query string, the content length, the bytes that `httpd_req_recv` delivers (none where it
-- delivers none) and the Content-Type header. The time stamps and the log are left out.
pub mod Query
pub mod Uri
pub mod Parsing
pub mod Answers
pub mod Parameters
pub mod Identifiers
pub mod Buffer
pub mod WellFormed
pub mod Automaton
use esp32_idf_ascom_alpaca.Base.{
  ℕ, zero, suc, ◌+◌, ◌%◌, ◌^◌, Bool, true, false, ◌&&◌, Option, none, some, [], ◌∷◌, ◌++◌, ltb, leb,
  ◌==◌, if◌then◌else◌, length, ℤ, pos, int32_of_uint32, wrap,
}
use esp32_idf_ascom_alpaca.Base.Text.{
  Bytes, split_at, strtol, skip_prefix, c_str, str_eq, codes, str_case_eq, atoi,
}
use esp32_idf_ascom_alpaca.Platform.{Body}
use esp32_idf_ascom_alpaca.Server.{Server, esp_err_invalid_size, esp_err_not_found, esp_ok}
use esp32_idf_ascom_alpaca.Device.Names.{parse_device_type}
use esp32_idf_ascom_alpaca.Device.{DeviceType, type_eq, unknown}

pub record HttpdReq : Type 0 where
  pub uri : Bytes
  pub query : Bytes
  pub content_len : ℕ
  pub received : Option Bytes
  pub content_type : Bytes

-- `alpaca_request_t`
pub record AlpacaRequest : Type 0 where
  pub body : Body
  pub client_id : ℤ
  pub client_transaction_id : ℤ
  pub server_transaction_id : ℤ
  pub device_number : ℕ
  pub device_type : DeviceType

-- One parameter. The names of the two identifiers are compared with case in a form and without case
-- in a query; any other parameter is added to the body.
unfoldable pub store : Bool → AlpacaRequest → Bytes → Bytes → AlpacaRequest
store case_sensitive req key value =
    let same = λ (name : Bytes). if case_sensitive then str_eq key name else str_case_eq key name in
    if same (codes "ClientTransactionID")
    then record req { client_transaction_id = atoi value }
    else if same (codes "ClientID")
    then record req { client_id = atoi value }
    else record req { body = req.body ++ (key, value) ∷ [] }

-- The loop of `parse_string`. Each round takes at least the byte '=' off the query.
unfoldable pub parse_loop : ℕ → Bool → AlpacaRequest → Bytes → AlpacaRequest
unfolding store split_at
parse_loop zero case_sensitive req query = req
parse_loop (suc fuel) case_sensitive req query = elim (split_at b'=' query) [
  | none ↦ req
  | some (key, value) ↦ elim (split_at b'&' value) [
    | none ↦ store case_sensitive req key value
    | some (first, next) ↦ parse_loop fuel case_sensitive (store case_sensitive req key first) next
  ]
]

unfoldable pub parse_string : Bool → AlpacaRequest → Bytes → AlpacaRequest
unfolding parse_loop
parse_string case_sensitive req query = parse_loop (suc (length query)) case_sensitive req query

-- `%<width>[^/]`: the bytes before the first slash, and what is left.
unfoldable pub scan_segment : ℕ → Bytes → Bytes × Bytes
scan_segment zero s = ([], s)
scan_segment (suc width) [] = ([], [])
scan_segment (suc width) (c ∷ s) =
    let rest = scan_segment width s in if c == b'/' then ([], c ∷ s) else (c ∷ rest.0, rest.1)

-- `%hhd` behind a slash; the variable holds 0 before and keeps it if nothing is converted.
unfoldable pub scan_number : Bytes → ℕ
unfolding strtol
scan_number [] = 0
scan_number (c ∷ s) = if c == b'/' then wrap 256 (strtol s).0 else 0

-- Behind the literal "/api/v1/"; an empty segment is a failure, and ends the scan.
unfoldable pub scan_fields : Option Bytes → Bytes × ℕ
scan_fields none = ([], 0)
scan_fields (some rest) =
    let (segment, behind) = scan_segment 32 rest in
    if str_eq segment [] then ([], 0) else (segment, scan_number behind)

-- `sscanf(uri, "/api/v1/%32[^/]/%hhd/", ...)`: the type's text and the number.
unfoldable pub scan_uri : Bytes → Bytes × ℕ
scan_uri uri = scan_fields (skip_prefix (codes "/api/v1/") uri)

-- `_server_transaction_id` is a `uint32_t`.
abbrev pub next_id : ℕ → ℕ
next_id n = (n + 1) % 2 ^ 32

-- Undefined behaviour: the last two are a `double` out of range of the integer that it is stored into,
-- and a `std::string` made of NULL.
pub data Fault : Type 0 where
  buffer_overflow null_device bad_cast bad_conversion null_string : Fault
  indeterminate bad_enumerator : Fault

pub data Parsed (W : Type 0) : Type 0 where
  overflow : Parsed W
  parsed : ℤ → AlpacaRequest → Server W → Parsed W

-- The parameters of the query and of a form in the body, where these are read.
unfoldable pub read_query : HttpdReq → AlpacaRequest → AlpacaRequest
unfolding parse_string c_str
read_query req r = if str_eq (c_str req.query) [] then r else parse_string false r (c_str req.query)

unfoldable pub read_form : HttpdReq → AlpacaRequest → AlpacaRequest
unfolding parse_string c_str str_case_eq
read_form req r = elim req.received [
  | none ↦ r
  | some buf ↦
      if str_case_eq req.content_type (codes "application/x-www-form-urlencoded")
      then parse_string true r (c_str buf)
      else r
]

-- A content length of 2^31 or more is negative as an `int`; such a body is skipped too.
unfoldable pub read_body : HttpdReq → AlpacaRequest → AlpacaRequest
unfolding read_form
read_body req r = if ltb 0 req.content_len && ltb req.content_len 4096 then read_form req r else r

-- The result of `parse_request` once its parameters are read.
unfoldable pub find_device : {W : Type 0} → AlpacaRequest → Server W → ℤ
find_device r s =
    if type_eq r.device_type unknown
    then esp_err_not_found
    else if leb (length (s.api.devices r.device_type)) r.device_number
    then esp_err_not_found
    else esp_ok

-- The counter, under the mutex, and the document that `parse_request` allocates first.
unfoldable pub count_request : {W : Type 0} → Server W → Server W
count_request s = record s {
  api = record (s.api) { server_transaction_id = next_id s.api.server_transaction_id };
  live_json = s.live_json + 1;
}

-- The request before its parameters are read.
unfoldable pub new_request : {W : Type 0} → HttpdReq → Server W → AlpacaRequest
new_request req s = record {
  body = [];
  client_id = pos 0;
  client_transaction_id = pos 0;
  server_transaction_id = int32_of_uint32 (next_id s.api.server_transaction_id);
  device_number = (scan_uri req.uri).1;
  device_type = parse_device_type (scan_uri req.uri).0;
}

unfoldable pub read_parameters : HttpdReq → AlpacaRequest → AlpacaRequest
unfolding read_query read_body
read_parameters req r = read_body req (read_query req r)

-- The buffer for the type's text has 32 bytes, and `sscanf` also writes a NUL.
unfoldable pub parse_request : {W : Type 0} → HttpdReq → Server W → Parsed W
parse_request req s =
    let r = read_parameters req (new_request req s) in
    if ltb 31 (length (scan_uri req.uri).0)
    then overflow
    else if ltb 512 (length req.query)
    then parsed esp_err_invalid_size (new_request req s) (count_request s)
    else parsed (find_device r s) r (count_request s)
