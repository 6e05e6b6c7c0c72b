-- ===== src/Request/Uri.antt =====
-- The URI of a route is read back by the `sscanf` of `parse_request`.
use esp32_idf_ascom_alpaca.Base.{
  ℕ, zero, suc, ◌%◌, ◌^◌, ◌≤◌, ◌<◌, ◌≡◌, refl, ap, ◌≢◌, [], ◌∷◌, ◌++◌, arith, length, pos, false,
}
use esp32_idf_ascom_alpaca.Request.{scan_segment, scan_number, scan_uri, scan_fields}
use esp32_idf_ascom_alpaca.Base.Text.{Bytes, print_ℕ, itoa, codes, strtol, str_eq}
use esp32_idf_ascom_alpaca.Route.{route_uri}
use esp32_idf_ascom_alpaca.Base.Text.Laws.{Lacks, skip_prefix-append}
use esp32_idf_ascom_alpaca.Base.Text.Decimal.{strtol-itoa}

scan_segment-append :
    (width : ℕ) (name rest : Bytes)
    → Lacks b'/' name
    → length name ≤ width
    → scan_segment width (name ++ b'/' ∷ rest) ≡ (name, b'/' ∷ rest)
unfolding scan_segment
scan_segment-append zero [] rest h le = refl
scan_segment-append zero (c ∷ name) rest h le = absurd (omega arith)
scan_segment-append (suc width) [] rest h le = ground arith
scan_segment-append (suc width) (c ∷ name) rest (p, h) le =
    rw (scan_segment-append width name rest h (omega arith)) (ground arith)

scan_number-print_ℕ :
    (n : ℕ) (rest : Bytes) → n < 2 ^ 31 → scan_number (b'/' ∷ (print_ℕ n ++ b'/' ∷ rest)) ≡ n % 256
unfolding scan_number
scan_number-print_ℕ n rest fits =
    let e : strtol (print_ℕ n ++ b'/' ∷ rest) ≡ (pos n, b'/' ∷ rest) =
      unfold itoa in strtol-itoa (pos n) (b'/' ∷ rest) fits refl in
    rw e

str_eq-nil : (s : Bytes) → s ≢ [] → str_eq s [] ≡ false
unfolding str_eq
str_eq-nil [] h = absurd (h refl)
str_eq-nil (c ∷ s) h = refl

-- The `sscanf` of `parse_request` reads the URI that is registered for a type's text (not empty, no
-- slash, at most 32 bytes) and a number below 2^31 as that text and the number modulo 256.
pub scan_uri-route_uri :
    (name : Bytes) (n : ℕ) (rest : Bytes)
    → Lacks b'/' name
    → name ≢ []
    → length name ≤ 32
    → n < 2 ^ 31
    → scan_uri (route_uri name n rest) ≡ (name, n % 256)
unfolding scan_uri route_uri scan_fields
scan_uri-route_uri name n rest h full le fits =
    rw (skip_prefix-append (codes "/api/v1/") (name ++ b'/' ∷ (print_ℕ n ++ b'/' ∷ rest))) (
      rw (scan_segment-append 32 name (print_ℕ n ++ b'/' ∷ rest) h le)
        (rw (str_eq-nil name full) (ap (λ (m : ℕ). (name, m)) (scan_number-print_ℕ n rest fits))))
