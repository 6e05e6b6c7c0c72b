-- ===== src/Handler/Prologue.antt =====
-- How a device handler begins: the three ways in which `parse_request` ends, and what the handler
-- does in each.
use esp32_idf_ascom_alpaca.Base.{
  ◌+◌, ◌≡◌, refl, ◌⊎◌, inl, inr, arith, length, get_elem?, ℤ, ℕ, zero, suc, ◌<◌, false, some, List,
  [], ◌∷◌, ltb, leb, Bool-cases, sym, ◌∙◌, if◌then◌else◌, eq_ℤ, eq_ℤ_sound,
}
use esp32_idf_ascom_alpaca.Server.{Server, esp_ok, esp_err_invalid_size, esp_err_not_found}
use esp32_idf_ascom_alpaca.Request.Answers.{Handler, fault, done, error_response}
use esp32_idf_ascom_alpaca.Request.{
  scan_uri, HttpdReq, AlpacaRequest, parse_request, find_device, parsed, overflow, count_request,
  read_parameters, new_request, buffer_overflow,
}
use esp32_idf_ascom_alpaca.Handler.{with_device, with_parsed, with_element}
use esp32_idf_ascom_alpaca.Device.{Device}

get_elem?_of_lt {ℓ} :
    {A : Type ℓ} (xs : List A) (i : ℕ)
    → leb (length xs) i ≡ false
    → (x : A) × (get_elem? xs i ≡ some x)
get_elem?_of_lt [] i h = ground arith
get_elem?_of_lt (x ∷ xs) zero h = (x, refl)
get_elem?_of_lt (x ∷ xs) (suc i) h = get_elem?_of_lt xs i (ground arith)

-- A request that is accepted names a device that is there.
pub find_device_found :
    {W : Type 0} (r : AlpacaRequest) (s : Server W)
    → find_device r s ≡ esp_ok
    → (d : Device W) × (get_elem? (s.api.devices r.device_type) r.device_number ≡ some d)
unfolding find_device
find_device_found r s e =
    get_elem?_of_lt (s.api.devices r.device_type) r.device_number (ground arith)

-- The three ways in which `parse_request` ends.
pub parse_request-cases :
    {W : Type 0} (req : HttpdReq) (s : Server W)
    → let r = read_parameters req (new_request req s) in
      ((31 < length (scan_uri req.uri).0) × (parse_request req s ≡ overflow))
      ⊎ (parse_request req s ≡ parsed esp_err_invalid_size (new_request req s) (count_request s))
      ⊎ (parse_request req s ≡ parsed (find_device r s) r (count_request s))
unfolding parse_request
parse_request-cases req s = elim (Bool-cases (ltb 31 (length (scan_uri req.uri).0))) [
  | inl long ↦ inl (ground arith, rw long)
  | inr short ↦ elim (Bool-cases (ltb 512 (length req.query))) [
    | inl big ↦ inr (inl (rw (short, big)))
    | inr small ↦ inr (inr (rw (short, small)))
  ]
]

-- The state once `root` is allocated.
abbrev pub rooted : {W : Type 0} → Server W → Server W
rooted s = record (count_request s) { live_json = (count_request s).live_json + 1 }

module _ {W : Type 0} (k : AlpacaRequest → Device W → Handler W) (req : HttpdReq)
    (s : Server W) where
  -- What `with_device` does once the request is parsed.
  with_parsed-cases :
      (err : ℤ) (r : AlpacaRequest)
      → ((err ≡ esp_ok) → err ≡ find_device r s)
      → ((d : Device W) × (get_elem? (s.api.devices r.device_type) r.device_number ≡ some d)
          × (with_parsed k req (parsed err r (count_request s)) ≡ k r d req (rooted s)))
        ⊎ (with_parsed k req (parsed err r (count_request s))
            ≡ done err
                (error_response (if eq_ℤ err esp_err_not_found then 404 else 400))
                (count_request s))
  unfolding with_parsed with_element
  with_parsed-cases err r found = elim (Bool-cases (eq_ℤ err esp_ok)) [
    | inl h ↦
        let fine = eq_ℤ_sound err esp_ok h in
        let (d, there) = find_device_found r s (sym (found fine) ∙ fine) in
        let same : get_elem? ((count_request s).api.devices r.device_type) r.device_number
            ≡ some d =
          unfold count_request in there in
        inl (d, there, rw (h, same))
    | inr h ↦ inr (rw h)
  ]

  -- The handler ends in an overflow, runs `k` on a device that is there, or refuses.
  pub with_device-cases :
      ((31 < length (scan_uri req.uri).0) × (with_device k req s ≡ fault buffer_overflow))
      ⊎ ((r : AlpacaRequest) × (d : Device W) × (get_elem?
              (s.api.devices r.device_type)
              r.device_number
            ≡ some d)
          × (with_device k req s ≡ k r d req (rooted s)))
      ⊎ ((err : ℤ) × (with_device k req s
            ≡ done err
                (error_response (if eq_ℤ err esp_err_not_found then 404 else 400))
                (count_request s)))
  unfolding with_device
  with_device-cases = elim (parse_request-cases req s) [
    | inl (long, e) ↦ inl (long, rw e)
    | inr (inl e) ↦
        elim (with_parsed-cases esp_err_invalid_size (new_request req s)
          (λ h. absurd (ground arith))) [
            | inl (d, there, q) ↦ inr (inl (new_request req s, d, there, rw e q))
            | inr q ↦ inr (inr (esp_err_invalid_size, rw e q))
          ]
    | inr (inr e) ↦
        let r = read_parameters req (new_request req s) in
        elim (with_parsed-cases (find_device r s) r (λ h. refl)) [
          | inl (d, there, q) ↦ inr (inl (r, d, there, rw e q))
          | inr q ↦ inr (inr (find_device r s, rw e q))
        ]
  ]
