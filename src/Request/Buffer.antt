-- ===== src/Request/Buffer.antt =====
-- What a client reads of the buffer of 512 bytes into which a response is printed.
use esp32_idf_ascom_alpaca.Base.{
  ℕ, ◌≤◌, ◌<◌, ◌≡◌, ◌≢◌, ap, [], ◌∷◌, length, arith, Bool-cases, inl, inr, ◌==◌,
}
use esp32_idf_ascom_alpaca.Base.Text.{c_str, Bytes}
use esp32_idf_ascom_alpaca.Request.Answers.{json_response, add_ids}
use esp32_idf_ascom_alpaca.Platform.{Platform, Document}
use esp32_idf_ascom_alpaca.Json.{PrintsJson}
use esp32_idf_ascom_alpaca.Request.{AlpacaRequest}

c_str-shorter : (s : Bytes) → length (c_str s) ≤ length s
unfolding c_str
c_str-shorter [] = omega arith
c_str-shorter (c ∷ s) = elim (Bool-cases (c == 0)) [
  | inl e ↦ rw e (omega arith)
  | inr e ↦ rw e (omega (arith, c_str-shorter s))
]

-- The text of a response, as long as cJSON prints a document whole if it leaves five bytes of the
-- buffer, and never past its end, and JSON text has no NUL and at least the document's names, braces
-- and texts: if the document's JSON text has at most 507 bytes, the response has
-- that text; if it has more than 512, the response has another.
pub json_response-text :
    (p : Platform) (prints : PrintsJson p) (r : AlpacaRequest) (root : Document) (code : ℕ)
    → ((length (prints.json (add_ids r root)) ≤ 507)
        → (json_response p r root code).text ≡ prints.json (add_ids r root))
      × ((512 < length (prints.json (add_ids r root)))
          → (json_response p r root code).text ≢ prints.json (add_ids r root))
unfolding json_response
json_response-text p prints r root code =
    let d = add_ids r root in
    (
      λ fits. rw (prints.whole d 512 (omega (arith, fits))) (prints.no_nul d),
      λ long same.
          let shorter = c_str-shorter (p.print_preallocated d 512) in
          let inside = prints.within d 512 in
          absurd (omega (arith, long, shorter, inside, ap (λ (s : Bytes). length s) same)),
    )
