-- ===== src/Request/Answers.antt =====
-- `send_json_response` and `send_error_response` of api.cpp. Each gives the handler's result.
use esp32_idf_ascom_alpaca.Base.{ℕ, ◌-◌, ◌||◌, List, [], ◌∷◌, ◌++◌, ◌==◌, if◌then◌else◌, ℤ}
use esp32_idf_ascom_alpaca.Base.Text.{Bytes, codes, c_str}
use esp32_idf_ascom_alpaca.Request.{Fault, HttpdReq, AlpacaRequest}
use esp32_idf_ascom_alpaca.Platform.{Platform, Response, Document, int}
use esp32_idf_ascom_alpaca.Server.{Server, esp_ok}

abbrev pub keep_alive : List (Bytes × Bytes)
keep_alive =
    (codes "Access-Control-Allow-Origin", codes "*")
    ∷ (codes "Connection", codes "Keep-Alive")
    ∷ (codes "Keep-Alive", codes "timeout=2, max=100")
    ∷ []

-- A handler ends in undefined behaviour, or returns with a response sent.
pub data Outcome (W : Type 0) : Type 0 where
  fault : Fault → Outcome W
  done : ℤ → Response → Server W → Outcome W

abbrev pub Handler : Type 0 → Type 0
Handler W = HttpdReq → Server W → Outcome W

-- A status that the switch does not list leaves the server's default.
unfoldable pub json_status : ℕ → ℕ
json_status code =
    if code == 204
      || (code == 207
          || (code == 400 || (code == 401 || (code == 404 || (code == 408 || code == 500)))))
    then code
    else 200

unfoldable pub error_status : ℕ → ℕ
error_status code =
    if code == 204
      || (code == 207 || (code == 400 || (code == 404 || (code == 408 || code == 500))))
    then code
    else 200

-- The document with the two transaction identifiers that end it.
unfoldable pub add_ids : AlpacaRequest → Document → Document
add_ids r root =
    root
    ++ (codes "ClientTransactionID", int r.client_transaction_id)
      ∷ (codes "ServerTransactionID", int r.server_transaction_id)
      ∷ []

unfoldable pub json_response : Platform → AlpacaRequest → Document → ℕ → Response
unfolding add_ids json_status
json_response p r root code = record {
  status = json_status code;
  content_type = codes "application/json";
  headers = keep_alive;
  text = c_str (p.print_preallocated (add_ids r root) 512);
}

-- Both documents are deleted, that of the response and that of the request.
unfoldable pub send_json_response :
    {W : Type 0} → Platform → AlpacaRequest → Document → ℕ → Server W → Outcome W
unfolding json_response
send_json_response p r root code s =
    done esp_ok (json_response p r root code) (record s { live_json = s.live_json - 2 })

unfoldable pub error_response : ℕ → Response
unfolding error_status
error_response code = record {
  status = error_status code;
  content_type = [];
  headers = keep_alive;
  text = [];
}
