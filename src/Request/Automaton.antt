-- ===== src/Request/Automaton.antt =====
-- `parse_string`, which looks for '=' and '&' with `strstr`, against an automaton that reads a query once
-- from left to right.
use esp32_idf_ascom_alpaca.Base.{
  ◌≡◌, refl, true, false, none, some, Option, List, [], ◌∷◌, ◌++◌, ◌==◌, ℕ, zero, suc, ◌<◌, sym, ap,
  ◌∙◌, inl, inr, Bool, append_assoc, append-nil, arith, Bool-cases, Option-cases, length,
}
use esp32_idf_ascom_alpaca.Base.Text.{Bytes, split_at}
use esp32_idf_ascom_alpaca.Request.{parse_loop, parse_string, AlpacaRequest, store}
use esp32_idf_ascom_alpaca.Request.Query.{store_all, next_shorter}

-- Where the automaton stands: in a name, or in the value of the parameter `key`; with the bytes read
-- so far. A name that the query ends in is dropped.
unfoldable pub scan_parameters : Option Bytes → Bytes → Bytes → List (Bytes × Bytes)
scan_parameters none read [] = []
scan_parameters (some key) read [] = (key, read) ∷ []
scan_parameters none read (c ∷ s) = elim (c == b'=') [
  | true ↦ scan_parameters (some read) [] s
  | false ↦ scan_parameters none (read ++ c ∷ []) s
]
scan_parameters (some key) read (c ∷ s) = elim (c == b'&') [
  | true ↦ (key, read) ∷ scan_parameters none [] s
  | false ↦ scan_parameters (some key) (read ++ c ∷ []) s
]

-- The rest of a query, in a name: `found` is what `strstr` finds.
abbrev rest_of_name : Bytes → Option (Bytes × Bytes) → List (Bytes × Bytes)
rest_of_name read none = []
rest_of_name read (some (key, value)) = scan_parameters (some (read ++ key)) [] value

abbrev rest_of_value : Bytes → Bytes → Bytes → Option (Bytes × Bytes) → List (Bytes × Bytes)
rest_of_value key read s none = (key, read ++ s) ∷ []
rest_of_value key read s (some (first, next)) = (key, read ++ first) ∷ scan_parameters none [] next

joined : (read key : Bytes) (c : ℕ) → (read ++ c ∷ []) ++ key ≡ read ++ c ∷ key
joined read key c = append_assoc read (c ∷ []) key

longer_name :
    (c : ℕ) (read : Bytes) (o : Option (Bytes × Bytes))
    → rest_of_name (read ++ c ∷ []) o
      ≡ rest_of_name read
          (elim o [ none ↦ none | some (before, behind) ↦ some (c ∷ before, behind) ])
longer_name c read none = refl
longer_name c read (some (key, value)) =
    ap (λ k. scan_parameters (some k) [] value) (joined read key c)

scan_name : (s read : Bytes) → scan_parameters none read s ≡ rest_of_name read (split_at b'=' s)
unfolding scan_parameters split_at
scan_name [] read = refl
scan_name (c ∷ s) read = elim (Bool-cases (c == b'=')) [
  | inl e ↦
      rw (e, scan_parameters) (ap (λ k. scan_parameters (some k) [] s) (sym (append-nil read)))
  | inr e ↦
      rw (e, scan_parameters) (scan_name s (read ++ c ∷ []) ∙ longer_name c read (split_at b'=' s))
]

longer_value :
    (c : ℕ) (key read s : Bytes) (o : Option (Bytes × Bytes))
    → rest_of_value key (read ++ c ∷ []) s o
      ≡ rest_of_value key read
          (c ∷ s)
          (elim o [ none ↦ none | some (before, behind) ↦ some (c ∷ before, behind) ])
longer_value c key read s none = ap (λ v. (key, v) ∷ []) (joined read s c)
longer_value c key read s (some (first, next)) =
    ap (λ v. (key, v) ∷ scan_parameters none [] next) (joined read first c)

scan_value :
    (key s read : Bytes)
    → scan_parameters (some key) read s ≡ rest_of_value key read s (split_at b'&' s)
unfolding scan_parameters split_at
scan_value key [] read = ap (λ v. (key, v) ∷ []) (sym (append-nil read))
scan_value key (c ∷ s) read = elim (Bool-cases (c == b'&')) [
  | inl e ↦
      rw (e, scan_parameters)
        (ap (λ v. (key, v) ∷ scan_parameters none [] s) (sym (append-nil read)))
  | inr e ↦
      rw (e, scan_parameters)
        (scan_value key s (read ++ c ∷ []) ∙ longer_value c key read s (split_at b'&' s))
]

-- The loop stores what the automaton reads.
parse_loop-scan_parameters :
    (fuel : ℕ) (b : Bool) (req : AlpacaRequest) (q : Bytes)
    → length q < fuel
    → parse_loop fuel b req q ≡ store_all b req (scan_parameters none [] q)
unfolding parse_loop
parse_loop-scan_parameters zero b req q h = absurd (omega arith)
parse_loop-scan_parameters (suc fuel) b req q h = elim (Option-cases (split_at b'=' q)) [
  | inl e ↦ rw (e, parse_loop) (rw (scan_name q []) (rw e refl))
  | inr ((key, value), e) ↦ elim (Option-cases (split_at b'&' value)) [
    | inl e' ↦
        rw (e, parse_loop)
          (rw e' (rw (scan_name q []) (rw e (rw (scan_value key value []) (rw e' refl)))))
    | inr ((first, next), e') ↦
        rw (e, parse_loop)
          (rw e' (
            rw (scan_name q []) (
              rw e (
                rw (scan_value key value []) (
                  rw e' (
                    parse_loop-scan_parameters fuel b (store b req key first) next
                      (omega (arith, next_shorter q e e'))))))))
  ]
]

-- For every query or form, `parse_string` stores the parameters that an automaton reads from it in
-- one pass from left to right, in their order: a name goes up to the next '=', a value up to the next
-- '&' or the end, and a name without '=' at the end is dropped.
pub parse_string-scan_parameters :
    (b : Bool) (req : AlpacaRequest) (q : Bytes)
    → parse_string b req q ≡ store_all b req (scan_parameters none [] q)
unfolding parse_string
parse_string-scan_parameters b req q =
    parse_loop-scan_parameters (suc (length q)) b req q (omega arith)
