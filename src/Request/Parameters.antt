-- ===== src/Request/Parameters.antt =====
-- The parameters that a handler finds in the request's body.
use esp32_idf_ascom_alpaca.Base.{
  ◌<◌, ◌≡◌, refl, sym, ◌∙◌, inl, inr, Bool, true, ◌||◌, Option, none, some, List, [], ◌∷◌, ◌++◌,
  append-nil, arith, if◌then◌else◌, Bool-cases, lt→ltb, false, append_assoc,
}
use esp32_idf_ascom_alpaca.Base.Text.{Bytes, c_str, str_eq, codes, str_case_eq}
use esp32_idf_ascom_alpaca.Request.{
  AlpacaRequest, HttpdReq, read_parameters, read_body, store, read_form, read_query,
}
use esp32_idf_ascom_alpaca.Platform.{Platform, FindsItems}
use esp32_idf_ascom_alpaca.Request.Query.{store_all, encode, IsPlain, parse_string-encode}
use esp32_idf_ascom_alpaca.Base.Text.Laws.{Lacks, str_eq_sound, str_case_eq_refl}

-- The name of one of the two identifiers, which `parse_string` takes out.
abbrev pub is_identifier : Bool → Bytes → Bool
is_identifier cs key =
    if cs
    then str_eq key (codes "ClientTransactionID") || str_eq key (codes "ClientID")
    else str_case_eq key (codes "ClientTransactionID") || str_case_eq key (codes "ClientID")

-- The other parameters, in their order.
unfoldable pub parameters : Bool → List (Bytes × Bytes) → List (Bytes × Bytes)
parameters cs [] = []
parameters cs (p ∷ ps) =
    let rest = parameters cs ps in if is_identifier cs p.0 then rest else p ∷ rest

-- The first parameter of a name.
unfoldable pub lookup : List (Bytes × Bytes) → Bytes → Option Bytes
lookup [] key = none
lookup (p ∷ ps) key = let rest = lookup ps key in if str_eq p.0 key then some p.1 else rest

store-parameters :
    (cs : Bool) (r : AlpacaRequest) (key value : Bytes) (rest : List (Bytes × Bytes))
    → (store cs r key value).body ++ rest
      ≡ r.body ++ (if is_identifier cs key then rest else (key, value) ∷ rest)
unfolding store
store-parameters false r key value rest =
    elim (Bool-cases (str_case_eq key (codes "ClientTransactionID"))) [
      | inl e ↦ rw e
      | inr e ↦ elim (Bool-cases (str_case_eq key (codes "ClientID"))) [
        | inl e' ↦ rw (e, e')
        | inr e' ↦ rw (e, e') (append_assoc r.body ((key, value) ∷ []) rest)
      ]
    ]
store-parameters true r key value rest =
    elim (Bool-cases (str_eq key (codes "ClientTransactionID"))) [
      | inl e ↦ rw e
      | inr e ↦ elim (Bool-cases (str_eq key (codes "ClientID"))) [
        | inl e' ↦ rw (e, e')
        | inr e' ↦ rw (e, e') (append_assoc r.body ((key, value) ∷ []) rest)
      ]
    ]

pub store_all-parameters :
    (cs : Bool) (r : AlpacaRequest) (ps : List (Bytes × Bytes))
    → (store_all cs r ps).body ≡ r.body ++ parameters cs ps
unfolding parameters
store_all-parameters cs r [] = sym (append-nil r.body)
store_all-parameters cs r ((key, value) ∷ ps) =
    store_all-parameters cs (store cs r key value) ps
    ∙ store-parameters cs r key value (parameters cs ps)

-- cJSON finds the first item of a name.
pub get_item-lookup :
    (p : Platform)
    → FindsItems p
    → (ps : List (Bytes × Bytes)) (key : Bytes) → p.get_item_case_sensitive ps key ≡ lookup ps key
unfolding lookup
get_item-lookup p finds [] key = finds.empty key
get_item-lookup p finds ((k, value) ∷ ps) key = elim (Bool-cases (str_eq k key)) [
  | inl e ↦ rw e (rw (str_eq_sound k key e) (finds.found ps key value))
  | inr e ↦ rw e (finds.passed ps k key value e ∙ get_item-lookup p finds ps key)
]

pub c_str-Lacks : (s : Bytes) → Lacks 0 s → c_str s ≡ s
unfolding c_str
c_str-Lacks [] h = refl
c_str-Lacks (c ∷ s) (h, hs) = ground (arith, c_str-Lacks s hs)

-- A request with no query and a form of 1 to 4095 bytes that was received as a whole.
abbrev pub IsForm : HttpdReq → List (Bytes × Bytes) → Type 0
IsForm req ps =
    (req.query ≡ [])
    × (0 < req.content_len)
    × (req.content_len < 4096)
    × (req.received ≡ some (encode ps))
    × (req.content_type ≡ codes "application/x-www-form-urlencoded")

pub read_parameters-form :
    (req : HttpdReq) (r : AlpacaRequest) (ps : List (Bytes × Bytes))
    → IsForm req ps
    → IsPlain ps
    → Lacks 0 (encode ps)
    → read_parameters req r ≡ store_all true r ps
unfolding read_parameters read_body read_form read_query str_eq
read_parameters-form req r ps (q, lo, hi, got, form) plain nul =
    rw (q, c_str, str_eq, lt→ltb 0 req.content_len lo, lt→ltb req.content_len 4096 hi, got, form)
      (rw
        (str_case_eq_refl (codes "application/x-www-form-urlencoded"), c_str-Lacks (encode ps) nul)
        (parse_string-encode true r ps plain))
