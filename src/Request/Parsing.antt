-- ===== src/Request/Parsing.antt =====
-- What reading the parameters leaves alone, and what `parse_request` makes of the URI of a route.
use esp32_idf_ascom_alpaca.Base.{
  ℕ, zero, suc, ◌≡◌, refl, ◌∙◌, inl, inr, Bool, true, false, arith, Option-cases, length,
}
use esp32_idf_ascom_alpaca.Request.{
  AlpacaRequest, store, parse_loop, parse_string, read_query, read_form, read_parameters, HttpdReq,
  read_body,
}
use esp32_idf_ascom_alpaca.Base.Text.{Bytes, split_at, c_str}

-- The part of a request that comes from the URI and the counter.
abbrev pub IsSameTarget : AlpacaRequest → AlpacaRequest → Type 0
IsSameTarget r r' =
    (r'.device_number ≡ r.device_number)
    × (r'.device_type ≡ r.device_type)
    × (r'.server_transaction_id ≡ r.server_transaction_id)

store-IsSameTarget :
    (cs : Bool) (r : AlpacaRequest) (key value : Bytes) → IsSameTarget r (store cs r key value)
unfolding store
store-IsSameTarget cs r key value = ground arith

parse_loop-IsSameTarget :
    (f : ℕ) (cs : Bool) (r : AlpacaRequest) (q : Bytes) → IsSameTarget r (parse_loop f cs r q)
unfolding parse_loop
parse_loop-IsSameTarget zero cs r q = (refl, refl, refl)
parse_loop-IsSameTarget (suc f) cs r q = elim (Option-cases (split_at b'=' q)) [
  | inl e ↦ rw (e, parse_loop) (refl, refl, refl)
  | inr ((key, value), e) ↦ elim (Option-cases (split_at b'&' value)) [
    | inl e' ↦ rw (e, parse_loop) (rw e' (store-IsSameTarget cs r key value))
    | inr ((first, next), e') ↦
        let (a, b, c) = parse_loop-IsSameTarget f cs (store cs r key first) next in
        let (a', b', c') = store-IsSameTarget cs r key first in
        rw (e, parse_loop) (rw e' (a ∙ a', b ∙ b', c ∙ c'))
  ]
]

parse_string-IsSameTarget :
    (cs : Bool) (r : AlpacaRequest) (q : Bytes) → IsSameTarget r (parse_string cs r q)
unfolding parse_string
parse_string-IsSameTarget cs r q = parse_loop-IsSameTarget (suc (length q)) cs r q

read_query-IsSameTarget : (req : HttpdReq) (r : AlpacaRequest) → IsSameTarget r (read_query req r)
unfolding read_query
read_query-IsSameTarget req r = ground (arith, parse_string-IsSameTarget false r (c_str req.query))

read_form-IsSameTarget : (req : HttpdReq) (r : AlpacaRequest) → IsSameTarget r (read_form req r)
unfolding read_form
read_form-IsSameTarget req r = elim (Option-cases req.received) [
  | inl e ↦ rw e (refl, refl, refl)
  | inr (buf, e) ↦ ground (arith, e, parse_string-IsSameTarget true r (c_str buf))
]

pub read_parameters-IsSameTarget :
    (req : HttpdReq) (r : AlpacaRequest) → IsSameTarget r (read_parameters req r)
unfolding read_parameters read_body
read_parameters-IsSameTarget req r =
    ground (arith, read_query-IsSameTarget req r, read_form-IsSameTarget req (read_query req r))
