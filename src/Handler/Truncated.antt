-- ===== src/Handler/Truncated.antt =====
-- When the list of configured devices does not fit the buffer of a response.
use esp32_idf_ascom_alpaca.Base.{
  ◌*◌, ◌≤◌, ◌<◌, ◌≡◌, ◌≢◌, refl, ap, ◌∙◌, [], ◌∷◌, length, arith, inl, inr, List, All,
  All-get_elem?,
}
use esp32_idf_ascom_alpaca.Handler.Management.{
  handle_get_configured_devices, list_types, all_types, with_request,
}
use esp32_idf_ascom_alpaca.Server.{Api, Server}
use esp32_idf_ascom_alpaca.Platform.{Platform, ConfiguredDevice, Document, devices}
use esp32_idf_ascom_alpaca.Device.{DeviceType}
use esp32_idf_ascom_alpaca.Json.{PrintsJson, least_entries}
use esp32_idf_ascom_alpaca.Handler.Configured.{Lists, devices_of_types, list_types-Lists}
use esp32_idf_ascom_alpaca.Base.Text.{codes, Bytes}
use esp32_idf_ascom_alpaca.Server.Devices.{IsGrouped}
use esp32_idf_ascom_alpaca.Request.Answers.{add_ids, send_json_response, json_response}
use esp32_idf_ascom_alpaca.Request.{AlpacaRequest, count_request, HttpdReq, new_request}
use esp32_idf_ascom_alpaca.Handler.Contract.{FitsBuffer}
use esp32_idf_ascom_alpaca.Request.Buffer.{json_response-text}
use esp32_idf_ascom_alpaca.Handler.Prologue.{parse_request-cases, rooted}
use esp32_idf_ascom_alpaca.Routes.Uri.{served}

-- Every device of the API object has an identifier of 32 characters, as `initialize` makes them.
abbrev pub HaveIds : {W : Type 0} → Api W → Type 0
HaveIds api = (t : DeviceType) → All (λ d. length d.unique_id ≡ 32) (api.devices t)

entries_least :
    {W : Type 0} (api : Api W)
    → HaveIds api
    → (es : List ConfiguredDevice) → All (Lists api) es
    → 96 * length es ≤ least_entries es
entries_least api ids [] tt = omega arith
entries_least api ids (e ∷ es) ((t, d, there, same, name), rest) =
    let id : length d.unique_id ≡ 32 =
      All-get_elem? (λ d'. length d'.unique_id ≡ 32) _ e.device_number (ids t) there in
    let whole : length e.unique_id ≡ 32 = ap (λ (s : Bytes). length s) same ∙ id in
    omega (arith, whole, entries_least api ids es rest)

-- The document of the list.
abbrev pub devices_document : {W : Type 0} → Server W → Document
devices_document s = (codes "Value", devices (list_types s.api all_types s.world).0) ∷ []

module _ {W : Type 0} (p : Platform) (prints : PrintsJson p) (s : Server W)
    (grouped : IsGrouped s.api.devices) (ids : HaveIds s.api)
    (many : 5 ≤ devices_of_types s.api all_types) where
  document_long : (r : AlpacaRequest) → 512 < length (prints.json (add_ids r (devices_document s)))
  unfolding add_ids
  document_long r =
      let (each, count) = list_types-Lists s.api s.world grouped in
      omega (
        arith,
        many,
        count,
        entries_least s.api ids (list_types s.api all_types s.world).0 each,
        prints.least (add_ids r (devices_document s)),
      )

  -- With five devices or more, each with an identifier of 32 characters and in the list of its own
  -- type, a request for the configured devices, on a URI whose device type has at most 31 bytes, is
  -- answered with 200 and a text that is not the JSON text of the list, as long as cJSON prints whole
  -- what leaves five bytes of a buffer, never prints past its end, and JSON text has no NUL and at
  -- least the document's names, braces and texts.
  pub configured_devices_truncated :
      (req : HttpdReq)
      → FitsBuffer req.uri
      → (r : AlpacaRequest) × (s' : Server W) × (handle_get_configured_devices p req s
          ≡ send_json_response p r (devices_document s) 200 s')
        × ((json_response p r (devices_document s) 200).text
            ≢ prints.json (add_ids r (devices_document s)))
  unfolding handle_get_configured_devices with_request count_request
  configured_devices_truncated req fits =
      let long = λ (r : AlpacaRequest).
        (json_response-text p prints r (devices_document s) 200).1 (document_long r) in
      let listed = record (rooted s) { world = (list_types s.api all_types s.world).1 } in
      elim (parse_request-cases req s) [
        | inl (over, e) ↦ absurd (omega arith)
        | inr (inl e) ↦ (new_request req s, listed, rw e refl, long (new_request req s))
        | inr (inr e) ↦ (served req s, listed, rw e refl, long (served req s))
      ]
