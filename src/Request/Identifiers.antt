-- ===== src/Request/Identifiers.antt =====
-- The parameters of a query, and the identifiers that a request carries.
use esp32_idf_ascom_alpaca.Base.{
  ◌≡◌, refl, ◌∙◌, Bool, true, false, List, [], ◌∷◌, if◌then◌else◌, ℤ, ap, inl, inr, arith,
  Bool-cases, length, pos, int32_of_uint32, sym,
}
use esp32_idf_ascom_alpaca.Base.Text.{Bytes, atoi, str_eq, codes, str_case_eq, c_str, split_at}
use esp32_idf_ascom_alpaca.Request.{
  AlpacaRequest, store, HttpdReq, read_parameters, new_request, read_body, read_query, next_id,
  parse_string, parse_loop,
}
use esp32_idf_ascom_alpaca.Request.Query.{store_all, encode, IsPlain, parse_string-encode}
use esp32_idf_ascom_alpaca.Base.Text.Laws.{str_eq_sound, Lacks}
use esp32_idf_ascom_alpaca.Server.{Server}
use esp32_idf_ascom_alpaca.Request.Parameters.{IsForm, read_parameters-form, c_str-Lacks}
use esp32_idf_ascom_alpaca.Routes.Uri.{served}
use esp32_idf_ascom_alpaca.Request.Parsing.{read_parameters-IsSameTarget}

-- The number of the last parameter with a name that fits, or `n` without one.
unfoldable pub last_number : (Bytes → Bool) → ℤ → List (Bytes × Bytes) → ℤ
last_number fits n [] = n
last_number fits n (q ∷ ps) = last_number fits (if fits q.0 then atoi q.1 else n) ps

-- How the name of an identifier is compared.
abbrev pub is_named : Bool → Bytes → Bytes → Bool
is_named cs name key = if cs then str_eq key name else str_case_eq key name

str_case_eq-length : (s t : Bytes) → str_case_eq s t ≡ true → length s ≡ length t
unfolding str_case_eq
str_case_eq-length [] [] h = refl
str_case_eq-length [] (c ∷ t) h = cc
str_case_eq-length (c ∷ s) [] h = cc
str_case_eq-length (c ∷ s) (d ∷ t) h = ground (arith, str_case_eq-length s t)

is_named-length :
    (cs : Bool) (name key : Bytes) → is_named cs name key ≡ true → length key ≡ length name
is_named-length false name key h = str_case_eq-length key name h
is_named-length true name key h = ap (λ (s : Bytes). length s) (str_eq_sound key name h)

-- No key is the name of both identifiers: their lengths differ.
not_both :
    (cs : Bool) (key : Bytes)
    → is_named cs (codes "ClientTransactionID") key ≡ true
    → is_named cs (codes "ClientID") key ≡ false
not_both cs key h = elim (Bool-cases (is_named cs (codes "ClientID") key)) [
  | inl e ↦ absurd (omega (arith, is_named-length cs _ key h, is_named-length cs _ key e))
  | inr e ↦ e
]

store-client_transaction_id :
    (cs : Bool) (r : AlpacaRequest) (key value : Bytes)
    → (store cs r key value).client_transaction_id ≡ (
        if is_named cs (codes "ClientTransactionID") key
        then atoi value
        else r.client_transaction_id)
unfolding store
store-client_transaction_id false r key value = ground arith
store-client_transaction_id true r key value = ground arith

store-client_id :
    (cs : Bool) (r : AlpacaRequest) (key value : Bytes)
    → (store cs r key value).client_id
      ≡ (if is_named cs (codes "ClientID") key then atoi value else r.client_id)
unfolding store
store-client_id false r key value = ground (arith, not_both false key)
store-client_id true r key value = ground (arith, not_both true key)

store_all-client_transaction_id :
    (cs : Bool) (r : AlpacaRequest) (ps : List (Bytes × Bytes))
    → (store_all cs r ps).client_transaction_id
      ≡ last_number (is_named cs (codes "ClientTransactionID")) r.client_transaction_id ps
unfolding last_number
store_all-client_transaction_id cs r [] = refl
store_all-client_transaction_id cs r ((key, value) ∷ ps) =
    store_all-client_transaction_id cs (store cs r key value) ps
    ∙ rw (store-client_transaction_id cs r key value)

store_all-client_id :
    (cs : Bool) (r : AlpacaRequest) (ps : List (Bytes × Bytes))
    → (store_all cs r ps).client_id ≡ last_number (is_named cs (codes "ClientID")) r.client_id ps
unfolding last_number
store_all-client_id cs r [] = refl
store_all-client_id cs r ((key, value) ∷ ps) =
    store_all-client_id cs (store cs r key value) ps ∙ rw (store-client_id cs r key value)

-- A request whose query writes the parameters, and which has no body.
abbrev pub IsQuery : HttpdReq → List (Bytes × Bytes) → Type 0
IsQuery req ps = (req.query ≡ encode ps) × (req.content_len ≡ 0)

-- An empty query writes no parameters.
read_nothing :
    (r : AlpacaRequest) (ps : List (Bytes × Bytes))
    → IsPlain ps
    → encode ps ≡ []
    → r ≡ store_all false r ps
read_nothing r ps plain e =
    let none_read : parse_string false r [] ≡ r = unfold parse_string parse_loop split_at in refl in
    sym none_read ∙ (rw e at (parse_string-encode false r ps plain))

read_query-encode :
    (req : HttpdReq) (r : AlpacaRequest) (ps : List (Bytes × Bytes))
    → req.query ≡ encode ps
    → IsPlain ps
    → Lacks 0 (encode ps)
    → read_query req r ≡ store_all false r ps
unfolding read_query
read_query-encode req r ps q plain nul =
    let whole : c_str req.query ≡ encode ps = rw q (c_str-Lacks (encode ps) nul) in
    elim (Bool-cases (str_eq (encode ps) [])) [
      | inl e ↦ rw (whole, e) (read_nothing r ps plain (str_eq_sound (encode ps) [] e))
      | inr e ↦ rw (whole, e) (parse_string-encode false r ps plain)
    ]

pub read_parameters-query :
    (req : HttpdReq) (r : AlpacaRequest) (ps : List (Bytes × Bytes))
    → IsQuery req ps
    → IsPlain ps
    → Lacks 0 (encode ps)
    → read_parameters req r ≡ store_all false r ps
unfolding read_parameters read_body
read_parameters-query req r ps (q, none_sent) plain nul =
    rw none_sent (read_query-encode req r ps q plain nul)

-- The identifiers of a request with an empty query and a form of 1 to 4095 bytes that holds no NUL,
-- no '=' in a name and no '&' in a value: the client's are the numbers of the last parameters of
-- their names, compared with case, or 0, and the server's is the counter's next value as an
-- `int32_t`.
pub identifiers_of_form :
    {W : Type 0} (req : HttpdReq) (s : Server W) (ps : List (Bytes × Bytes))
    → IsForm req ps
    → IsPlain ps
    → Lacks 0 (encode ps)
    → ((served req s).client_transaction_id
        ≡ last_number (is_named true (codes "ClientTransactionID")) (pos 0) ps)
      × ((served req s).client_id ≡ last_number (is_named true (codes "ClientID")) (pos 0) ps)
      × ((served req s).server_transaction_id
          ≡ int32_of_uint32 (next_id s.api.server_transaction_id))
unfolding new_request
identifiers_of_form req s ps form plain nul =
    let r = new_request req s in
    let e = read_parameters-form req r ps form plain nul in
    let (a, b, c) = read_parameters-IsSameTarget req r in
    (
      ap (λ (q : AlpacaRequest). q.client_transaction_id) e
          ∙ store_all-client_transaction_id true r ps,
      ap (λ (q : AlpacaRequest). q.client_id) e ∙ store_all-client_id true r ps,
      c,
    )

-- The identifiers of a request with a query and no body, where no name of the query holds '=', no
-- value '&', and the query holds no NUL: the client's are the numbers of the last parameters of their
-- names, compared without case, or 0, and the server's is the counter's next value as an `int32_t`.
pub identifiers_of_query :
    {W : Type 0} (req : HttpdReq) (s : Server W) (ps : List (Bytes × Bytes))
    → IsQuery req ps
    → IsPlain ps
    → Lacks 0 (encode ps)
    → ((served req s).client_transaction_id
        ≡ last_number (is_named false (codes "ClientTransactionID")) (pos 0) ps)
      × ((served req s).client_id ≡ last_number (is_named false (codes "ClientID")) (pos 0) ps)
      × ((served req s).server_transaction_id
          ≡ int32_of_uint32 (next_id s.api.server_transaction_id))
unfolding new_request
identifiers_of_query req s ps query plain nul =
    let r = new_request req s in
    let e = read_parameters-query req r ps query plain nul in
    let (a, b, c) = read_parameters-IsSameTarget req r in
    (
      ap (λ (q : AlpacaRequest). q.client_transaction_id) e
          ∙ store_all-client_transaction_id false r ps,
      ap (λ (q : AlpacaRequest). q.client_id) e ∙ store_all-client_id false r ps,
      c,
    )
