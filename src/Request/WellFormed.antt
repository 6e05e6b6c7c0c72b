-- ===== src/Request/WellFormed.antt =====
-- What `parse_request` hands to a handler.
use esp32_idf_ascom_alpaca.Base.{
  ℕ, zero, suc, ◌<◌, none, some, Bool, true, false, IsInt32, if◌then◌else◌, ◌^◌, ◌≡◌, inl, inr,
  ◌&&◌, Option, [], ◌∷◌, ◌++◌, arith, ltb, ◌==◌, Bool-cases, Option-cases, length, get_elem?, ℤ,
  pos, negsuc, int32_of_uint32, wrap, tests, ◌≤◌,
}
use esp32_idf_ascom_alpaca.Request.{
  AlpacaRequest, store, parse_loop, parsed, overflow, read_query, read_form, read_parameters,
  scan_number, scan_fields, new_request, HttpdReq, parse_string, read_body, scan_segment, scan_uri,
  Parsed, parse_request, next_id,
}
use esp32_idf_ascom_alpaca.Base.Text.{
  atoi, Bytes, split_at, str_eq, str_case_eq, strtol, codes, c_str, skip_prefix,
}
use esp32_idf_ascom_alpaca.Handler.Numbers.{strtol-IsInt32}
use esp32_idf_ascom_alpaca.Server.{Server, esp_ok}
use esp32_idf_ascom_alpaca.Handler.Prologue.{parse_request-cases, find_device_found}
use esp32_idf_ascom_alpaca.Device.{Device}

-- The identifiers are values of `int32_t`, and the number one of `uint8_t`.
pub record IsTyped (r : AlpacaRequest) : Type 0 where
  pub client : IsInt32 r.client_id
  pub client_transaction : IsInt32 r.client_transaction_id
  pub server_transaction : IsInt32 r.server_transaction_id
  pub number : r.device_number < 256

-- A branch on a test.
branch-IsTyped :
    (b : Bool) (x y : AlpacaRequest) → IsTyped x → IsTyped y → IsTyped (if b then x else y)
branch-IsTyped true x y h k = h
branch-IsTyped false x y h k = k

atoi-IsInt32 : (s : Bytes) → IsInt32 (atoi s)
unfolding atoi
atoi-IsInt32 s = strtol-IsInt32 s

store-IsTyped :
    (b : Bool) (r : AlpacaRequest) (key value : Bytes) → IsTyped r → IsTyped (store b r key value)
unfolding store
store-IsTyped b r key value h =
    let same = λ (name : Bytes). if b then str_eq key name else str_case_eq key name in
    let transaction = record r { client_transaction_id = atoi value } in
    let client = record r { client_id = atoi value } in
    let other = record r { body = r.body ++ (key, value) ∷ [] } in
    branch-IsTyped (same (codes "ClientTransactionID")) transaction
      (if same (codes "ClientID") then client else other)
      (record {
        client = h.client;
        client_transaction = atoi-IsInt32 value;
        server_transaction = h.server_transaction;
        number = h.number;
      })
      (branch-IsTyped (same (codes "ClientID")) client other
        (record {
          client = atoi-IsInt32 value;
          client_transaction = h.client_transaction;
          server_transaction = h.server_transaction;
          number = h.number;
        })
        (record {
          client = h.client;
          client_transaction = h.client_transaction;
          server_transaction = h.server_transaction;
          number = h.number;
        }))

parse_loop-IsTyped :
    (fuel : ℕ) (b : Bool) (r : AlpacaRequest) (q : Bytes)
    → IsTyped r
    → IsTyped (parse_loop fuel b r q)
unfolding parse_loop
parse_loop-IsTyped zero b r q h = h
parse_loop-IsTyped (suc fuel) b r q h = elim (Option-cases (split_at b'=' q)) [
  | inl e ↦ rw (e, parse_loop) h
  | inr ((key, value), e) ↦ elim (Option-cases (split_at b'&' value)) [
    | inl e' ↦ rw (e, parse_loop) (rw e' (store-IsTyped b r key value h))
    | inr ((first, next), e') ↦
        rw (e, parse_loop)
          (rw e'
            (parse_loop-IsTyped fuel b (store b r key first) next (store-IsTyped b r key first h)))
  ]
]

read_query-IsTyped : (req : HttpdReq) (r : AlpacaRequest) → IsTyped r → IsTyped (read_query req r)
unfolding read_query parse_string
read_query-IsTyped req r h =
    branch-IsTyped (str_eq (c_str req.query) []) r (parse_string false r (c_str req.query)) h
      (parse_loop-IsTyped (suc (length (c_str req.query))) false r (c_str req.query) h)

read_form-IsTyped : (req : HttpdReq) (r : AlpacaRequest) → IsTyped r → IsTyped (read_form req r)
unfolding read_form parse_string
read_form-IsTyped req r h = elim (Option-cases req.received) [
  | inl e ↦ rw (e, read_form) h
  | inr (buf, e) ↦
      rw (e, read_form)
        (branch-IsTyped (str_case_eq req.content_type (codes "application/x-www-form-urlencoded"))
          (parse_string true r (c_str buf)) r
          (parse_loop-IsTyped (suc (length (c_str buf))) true r (c_str buf) h) h)
]

read_parameters-IsTyped :
    (req : HttpdReq) (r : AlpacaRequest) → IsTyped r → IsTyped (read_parameters req r)
unfolding read_parameters read_body
read_parameters-IsTyped req r h =
    let k = read_query-IsTyped req r h in
    branch-IsTyped (ltb 0 req.content_len && ltb req.content_len 4096)
      (read_form req (read_query req r)) (read_query req r)
      (read_form-IsTyped req (read_query req r) k) k

wrap_small : (z : ℤ) → wrap 256 z < 256
wrap_small (pos n) = omega arith
wrap_small (negsuc n) = omega arith

scan_number_small : (s : Bytes) → scan_number s < 256
unfolding scan_number
scan_number_small [] = omega arith
scan_number_small (c ∷ s) = elim (Bool-cases (c == b'/')) [
  | inl e ↦ rw e (wrap_small (strtol s).0)
  | inr e ↦ rw e (omega arith)
]

scan_fields_small : (o : Option Bytes) → (scan_fields o).1 < 256
unfolding scan_fields
scan_fields_small none = omega arith
scan_fields_small (some rest) = elim (Bool-cases (str_eq (scan_segment 32 rest).0 [])) [
  | inl e ↦ rw e (omega arith)
  | inr e ↦ rw e (scan_number_small (scan_segment 32 rest).1)
]

int32_of_uint32-IsInt32 : (n : ℕ) → n < 2 ^ 32 → IsInt32 (int32_of_uint32 n)
int32_of_uint32-IsInt32 n h = elim (Bool-cases (ltb n (2 ^ 31))) [
  | inl e ↦ rw e (omega (tests, e))
  | inr e ↦ let large : 2 ^ 31 ≤ n = ground arith in rw e (omega (arith, h, large))
]

new_request-IsTyped : {W : Type 0} (req : HttpdReq) (s : Server W) → IsTyped (new_request req s)
unfolding new_request scan_uri
new_request-IsTyped req s = record {
  client = omega arith;
  client_transaction = omega arith;
  server_transaction = int32_of_uint32-IsInt32 (next_id s.api.server_transaction_id) (omega arith);
  number = scan_fields_small (skip_prefix (codes "/api/v1/") req.uri);
}

-- A result of `parse_request`: its request is typed, and if it is accepted it names a device.
abbrev pub IsParsed : {W : Type 0} → Server W → Parsed W → Type 0
IsParsed s overflow = Unit
IsParsed {W} s (parsed err r s') =
    IsTyped r
    × ((err ≡ esp_ok)
        → (d : Device W) × (get_elem? (s.api.devices r.device_type) r.device_number ≡ some d))

-- Whatever the URI, the query and the form hold, `parse_request`, unless it overflows its buffer,
-- gives a request whose two client identifiers and whose server identifier are values of `int32_t`
-- and whose device number is below 256; and if it returns ESP_OK, there is a device of the request's
-- type and number.
pub parse_request-IsParsed :
    {W : Type 0} (req : HttpdReq) (s : Server W) → IsParsed s (parse_request req s)
parse_request-IsParsed req s =
    let first = new_request-IsTyped req s in
    let r = read_parameters req (new_request req s) in
    elim (parse_request-cases req s) [
      | inl (long, e) ↦ rw e tt
      | inr (inl e) ↦ rw e (first, λ h. absurd (ground arith))
      | inr (inr e) ↦
          rw e (read_parameters-IsTyped req (new_request req s) first, find_device_found r s)
    ]
