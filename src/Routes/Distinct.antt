-- ===== src/Routes/Distinct.antt =====
-- Different devices and endpoints have different URIs.
use esp32_idf_ascom_alpaca.Base.{ℕ, ◌≡◌, refl, sym, ap, ◌∙◌, [], ◌∷◌, ◌++◌, append_cancel_left}
use esp32_idf_ascom_alpaca.Route.{route_uri}
use esp32_idf_ascom_alpaca.Device.{DeviceType}
use esp32_idf_ascom_alpaca.Base.Text.{Bytes, codes, print_ℕ, split_at}
use esp32_idf_ascom_alpaca.Device.Names.{
  uri_device_type, parse_device_type-uri_device_type, parse_device_type,
}
use esp32_idf_ascom_alpaca.Routes.Uri.{type_text}
use esp32_idf_ascom_alpaca.Base.Text.Laws.{split_at-append}
use mathlib.Core.Option.{some-injective}
use esp32_idf_ascom_alpaca.Base.Text.Decimal.{print_ℕ-injective}

-- The URI of a route tells the type, the number and the endpoint: two routes with one URI are the
-- same endpoint of the same number of the same type.
pub route_uri-injective :
    (t u : DeviceType) (i j : ℕ) (e f : Bytes)
    → route_uri (uri_device_type t 32) i e ≡ route_uri (uri_device_type u 32) j f
    → (t ≡ u) × (i ≡ j) × (e ≡ f)
unfolding route_uri
route_uri-injective t u i j e f same =
    let (slash_t, _, _) = type_text t in
    let (slash_u, _, _) = type_text u in
    let rest = append_cancel_left (codes "/api/v1/") same in
    let parts =
      sym (split_at-append b'/' (uri_device_type t 32) (print_ℕ i ++ b'/' ∷ e) slash_t)
      ∙ ap (split_at b'/') rest
      ∙ split_at-append b'/' (uri_device_type u 32) (print_ℕ j ++ b'/' ∷ f) slash_u in
    let both = some-injective _ _ parts in
    let names = ap (λ (q : Bytes × Bytes). q.0) both in
    let (number, behind) =
      print_ℕ-injective i j (b'/' ∷ e) (b'/' ∷ f) refl refl
        (ap (λ (q : Bytes × Bytes). q.1) both) in
    (
      sym (parse_device_type-uri_device_type t)
          ∙ ap parse_device_type names
          ∙ parse_device_type-uri_device_type u,
      number,
      append_cancel_left (b'/' ∷ []) behind,
    )
