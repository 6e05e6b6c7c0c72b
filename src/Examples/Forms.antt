-- ===== src/Examples/Forms.antt =====
-- The theorems on requests with a form, at concrete forms.
use esp32_idf_ascom_alpaca.Base.{
  ℕ, ◌≡◌, refl, true, some, [], ◌∷◌, pos, wrap, ◌≢◌, List, arith, get_elem?, ℤ, IsInt32, false,
  none, int32_of_uint32,
}
use esp32_idf_ascom_alpaca.Handler.FilterWheel.{handle_put_filterwheel_position}
use esp32_idf_ascom_alpaca.Device.{
  Device, Kind, DeviceType, cover_calibrator, CoverCalibratorOps, CalibratorState, CoverState,
}
use esp32_idf_ascom_alpaca.Platform.{FindsItems}
use esp32_idf_ascom_alpaca.Server.{Server, esp_ok}
use esp32_idf_ascom_alpaca.Request.{HttpdReq, next_id}
use esp32_idf_ascom_alpaca.Route.{route_uri}
use esp32_idf_ascom_alpaca.Base.Text.{Bytes, codes, str_eq, print_ℕ, itoa}
use esp32_idf_ascom_alpaca.Device.Names.{uri_device_type}
use esp32_idf_ascom_alpaca.Handler.{answer, reject}
use esp32_idf_ascom_alpaca.Routes.Uri.{served}
use esp32_idf_ascom_alpaca.Handler.Args.{no_value, text_of, read_canonical}
use esp32_idf_ascom_alpaca.Handler.Prologue.{rooted}
use esp32_idf_ascom_alpaca.Request.Query.{encode}
use esp32_idf_ascom_alpaca.Handler.CoverCalibrator.{handle_put_covercalibrator_calibratoron}
use esp32_idf_ascom_alpaca.Base.Text.Laws.{str_eq_refl}
use esp32_idf_ascom_alpaca.Request.Parameters.{lookup, parameters}
use esp32_idf_ascom_alpaca.Handler.Numbers.{read_canonical_iff}
use esp32_idf_ascom_alpaca.Routes.Forms.{
  text_of_form, put_filterwheel_position_form, put_calibratoron_form, put_calibratoron_refused,
  text_of_query,
}
use mathlib.Core.Option.{none-ne-some}
use esp32_idf_ascom_alpaca.Examples.{
  find_item, platform, gives, device_ops, server, put_position, observatory, wheel_ops, wheel,
  wheel_there, wheel_uri,
}
use esp32_idf_ascom_alpaca.Request.Identifiers.{
  last_number, is_named, identifiers_of_query, identifiers_of_form,
}

platform-FindsItems : FindsItems platform
unfolding find_item
platform-FindsItems = record {
  empty = λ key. refl;
  found = λ b key value. rw (str_eq_refl key);
  passed = λ b k key value e. rw e;
}

abbrev position_7 : List (Bytes × Bytes)
position_7 = (codes "Position", codes "7") ∷ []

text_of_form_example :
    text_of "Position" platform (served put_position server)
    ≡ lookup (parameters true position_7) (codes "Position")
text_of_form_example =
    text_of_form platform platform-FindsItems put_position server position_7
      (refl, omega arith, omega arith, refl, refl) (omega arith) (omega arith) "Position"

put_filterwheel_position_form_example :
    handle_put_filterwheel_position platform put_position server
    ≡ answer platform
        (served put_position server)
        no_value
        (wheel_ops.put_position (pos 7) 2)
        (rooted server)
put_filterwheel_position_form_example =
    put_filterwheel_position_form platform platform-FindsItems put_position server position_7
      (refl, omega arith, omega arith, refl, refl) (omega arith) (omega arith) 0 wheel
      (codes "position") (omega arith) wheel_ops (pos 7) refl wheel_there wheel_uri (omega arith)
      (unfold lookup parameters itoa str_eq in refl)

abbrev lamp_ops : CoverCalibratorOps ℕ
lamp_ops = record {
  get_brightness = λ a w. gives w w;
  get_calibratorstate = λ a. gives CalibratorState.ready;
  get_coverstate = λ a. gives CoverState.opened;
  get_maxbrightness = λ a. gives 255;
  turn_calibratoroff = gives tt;
  turn_calibratoron = λ v w. record { err = esp_ok; out = tt; world = (wrap 256 v) };
  closecover = gives tt;
  opencover = gives tt;
  haltcover = gives tt;
}

abbrev lamp : Device ℕ
lamp = record {
  number = 0;
  unique_id = [];
  ops = device_ops;
  kind = Kind.cover_calibrator lamp_ops;
}

-- A server whose only device is the lamp.
unfoldable lamps : DeviceType → List (Device ℕ)
lamps cover_calibrator = lamp ∷ []
lamps _ = []

abbrev lit : Server ℕ
lit = record server { api = record observatory { devices = lamps } }

lamp_there : get_elem? (lit.api.devices cover_calibrator) 0 ≡ some lamp
unfolding lamps
lamp_there = refl

-- `PUT /api/v1/covercalibrator/0/calibratoron` with the form `Brightness=<text>`.
abbrev put_brightness : Bytes → HttpdReq
put_brightness text = record {
  uri = codes "/api/v1/covercalibrator/0/calibratoron";
  query = [];
  content_len = 13;
  received = some (encode ((codes "Brightness", text) ∷ []));
  content_type = codes "application/x-www-form-urlencoded";
}

lamp_uri :
    codes "/api/v1/covercalibrator/0/calibratoron"
    ≡ route_uri (uri_device_type cover_calibrator 32) 0 (codes "calibratoron")
unfolding route_uri uri_device_type print_ℕ
lamp_uri = refl

put_calibratoron_form_example :
    handle_put_covercalibrator_calibratoron platform (put_brightness (codes "99")) lit
    ≡ answer platform
        (served (put_brightness (codes "99")) lit)
        no_value
        (lamp_ops.turn_calibratoron (pos 99) 2)
        (rooted lit)
put_calibratoron_form_example =
    put_calibratoron_form platform platform-FindsItems (put_brightness (codes "99")) lit
      ((codes "Brightness", codes "99") ∷ []) (refl, omega arith, omega arith, refl, refl)
      (omega arith) (omega arith) 0 lamp (codes "calibratoron") (omega arith) lamp_ops (pos 99) refl
      lamp_there lamp_uri (omega arith) (unfold lookup parameters itoa str_eq in refl)

-- "+5" is not what `itoa` prints.
plus_5 : (v : ℤ) → IsInt32 v → codes "+5" ≢ itoa v
plus_5 v small e =
    let q : read_canonical (codes "+5") ≡ some v =
      (read_canonical_iff (codes "+5") v).1 (small, e) in
    none-ne-some v (unfold read_canonical str_eq in q)

put_calibratoron_refused_example :
    handle_put_covercalibrator_calibratoron platform (put_brightness (codes "+5")) lit
    ≡ reject platform 400 (rooted lit)
put_calibratoron_refused_example =
    put_calibratoron_refused platform platform-FindsItems (put_brightness (codes "+5")) lit
      ((codes "Brightness", codes "+5") ∷ []) (refl, omega arith, omega arith, refl, refl)
      (omega arith) (omega arith) 0 lamp (codes "calibratoron") (omega arith) lamp_ops (codes "+5")
      refl lamp_there lamp_uri (unfold lookup parameters str_eq in refl) plus_5

-- `GET ...?clientid=5&Id=2&ClientTransactionID=77`
abbrev query_of_three : List (Bytes × Bytes)
query_of_three =
    (codes "clientid", codes "5")
    ∷ (codes "Id", codes "2")
    ∷ (codes "ClientTransactionID", codes "77")
    ∷ []

abbrev get_with_query : HttpdReq
get_with_query = record {
  uri = codes "/api/v1/switch/0/getswitch";
  query = encode query_of_three;
  content_len = 0;
  received = none;
  content_type = [];
}

text_of_query_example :
    text_of "Id" platform (served get_with_query server)
    ≡ lookup (parameters false query_of_three) (codes "Id")
text_of_query_example =
    text_of_query platform platform-FindsItems get_with_query server query_of_three (refl, refl)
      (omega arith) (omega arith) "Id"

identifiers_of_query_example :
    ((served get_with_query server).client_transaction_id
      ≡ last_number (is_named false (codes "ClientTransactionID")) (pos 0) query_of_three)
    × ((served get_with_query server).client_id
        ≡ last_number (is_named false (codes "ClientID")) (pos 0) query_of_three)
    × ((served get_with_query server).server_transaction_id ≡ int32_of_uint32 (next_id 41))
identifiers_of_query_example =
    identifiers_of_query get_with_query server query_of_three (refl, refl) (omega arith)
      (omega arith)

identifiers_of_form_example :
    ((served put_position server).client_transaction_id
      ≡ last_number (is_named true (codes "ClientTransactionID")) (pos 0) position_7)
    × ((served put_position server).client_id
        ≡ last_number (is_named true (codes "ClientID")) (pos 0) position_7)
    × ((served put_position server).server_transaction_id ≡ int32_of_uint32 (next_id 41))
identifiers_of_form_example =
    identifiers_of_form put_position server position_7 (refl, omega arith, omega arith, refl, refl)
      (omega arith) (omega arith)
