-- ===== src/Request/Query.antt =====
-- `parse_string`: its loop ends by itself, and it reads every list of parameters that is written in
-- the usual way.
use esp32_idf_ascom_alpaca.Base.{
  ℕ, zero, suc, ◌<◌, ◌≡◌, refl, inl, inr, Bool, some, List, [], ◌∷◌, ◌++◌, arith, Option-cases,
  length, All, length-append,
}
use esp32_idf_ascom_alpaca.Base.Text.{Bytes, split_at}
use esp32_idf_ascom_alpaca.Request.{parse_loop, AlpacaRequest, parse_string, store}
use esp32_idf_ascom_alpaca.Base.Text.Laws.{Lacks, length-split_at, split_at-append, split_at-Lacks}

-- The rest of the query is shorter.
pub next_shorter :
    (query : Bytes) {key value first next : Bytes}
    → split_at b'=' query ≡ some (key, value)
    → split_at b'&' value ≡ some (first, next)
    → length next < length query
next_shorter query {value} e e' =
    omega (arith, length-split_at b'=' query e, length-split_at b'&' value e')

-- Any two amounts of fuel above the length of the query give the same result.
parse_loop_fuel :
    (f g : ℕ) (cs : Bool) (req : AlpacaRequest) (query : Bytes)
    → length query < f
    → length query < g
    → parse_loop f cs req query ≡ parse_loop g cs req query
unfolding parse_loop
parse_loop_fuel zero g cs req query h k = absurd (omega arith)
parse_loop_fuel (suc f) zero cs req query h k = absurd (omega arith)
parse_loop_fuel (suc f) (suc g) cs req query h k = elim (Option-cases (split_at b'=' query)) [
  | inl e ↦ rw (e, parse_loop)
  | inr ((key, value), e) ↦ elim (Option-cases (split_at b'&' value)) [
    | inl e' ↦ rw (e, parse_loop) (rw e')
    | inr ((first, next), e') ↦
        rw (e, parse_loop)
          (rw e' (
            parse_loop_fuel f g cs (store cs req key first) next
              (omega (arith, next_shorter query e e')) (omega (arith, next_shorter query e e'))))
  ]
]

-- The way in which parameters are written: `k1=v1&k2=v2`.
abbrev pub encode : List (Bytes × Bytes) → Bytes
encode [] = []
encode ((key, value) ∷ []) = key ++ b'=' ∷ value
encode ((key, value) ∷ more ∷ ps) = key ++ b'=' ∷ (value ++ b'&' ∷ encode (more ∷ ps))

-- No name holds '=', and no value '&'.
abbrev pub IsPlain : List (Bytes × Bytes) → Type 0
IsPlain = All (λ p. Lacks b'=' p.0 × Lacks b'&' p.1)

-- The parameters stored one by one.
abbrev pub store_all : Bool → AlpacaRequest → List (Bytes × Bytes) → AlpacaRequest
store_all cs req [] = req
store_all cs req ((key, value) ∷ ps) = store_all cs (store cs req key value) ps

parse_loop-encode :
    (f : ℕ) (cs : Bool) (req : AlpacaRequest) (ps : List (Bytes × Bytes))
    → IsPlain ps
    → length (encode ps) < f
    → parse_loop f cs req (encode ps) ≡ store_all cs req ps
unfolding parse_loop
parse_loop-encode zero cs req ps h lt = absurd (omega arith)
parse_loop-encode (suc f) cs req [] h lt = unfold split_at in refl
parse_loop-encode (suc f) cs req ((key, value) ∷ []) ((hk, hv), h) lt =
    rw (split_at-append b'=' key value hk, parse_loop) (rw (split_at-Lacks b'&' value hv))
parse_loop-encode (suc f) cs req ((key, value) ∷ more ∷ ps) ((hk, hv), h) lt =
    rw (split_at-append b'=' key (value ++ b'&' ∷ encode (more ∷ ps)) hk, parse_loop)
      (rw (split_at-append b'&' value (encode (more ∷ ps)) hv) (
        parse_loop-encode f cs (store cs req key value) (more ∷ ps) h (
          omega (
            arith,
            length-append key (b'=' ∷ (value ++ b'&' ∷ encode (more ∷ ps))),
            length-append value (b'&' ∷ encode (more ∷ ps)),
          ))))

-- A query or a form that writes a list of parameters, no name of which holds '=' and no value of
-- which holds '&', is read as that list: each parameter is stored, in its order.
pub parse_string-encode :
    (cs : Bool) (req : AlpacaRequest) (ps : List (Bytes × Bytes))
    → IsPlain ps
    → parse_string cs req (encode ps) ≡ store_all cs req ps
unfolding parse_string
parse_string-encode cs req ps h =
    parse_loop-encode (suc (length (encode ps))) cs req ps h (omega arith)

-- The loop ends by itself, for every text: more rounds than the text has bytes change nothing, so
-- `parse_string` is the loop without a bound.
pub parse_string_fuel :
    (f : ℕ) (cs : Bool) (req : AlpacaRequest) (query : Bytes)
    → length query < f
    → parse_loop f cs req query ≡ parse_string cs req query
unfolding parse_string
parse_string_fuel f cs req query h =
    parse_loop_fuel f (suc (length query)) cs req query h (omega arith)
