-- ===== src/Examples/Setup.antt =====
-- The theorems on the server, its identifiers, its messages and discovery, at concrete inputs.
use esp32_idf_ascom_alpaca.Base.{
  ℕ, ◌≡◌, refl, none, some, [], ◌∷◌, arith, ◌+◌, ◌*◌, ◌++◌, length, All,
}
use esp32_idf_ascom_alpaca.Device.{safety_monitor, type_index, dome}
use esp32_idf_ascom_alpaca.Base.Text.{codes, print_ℕ}
use esp32_idf_ascom_alpaca.UniqueId.{generate_unique_id, initialize}
use esp32_idf_ascom_alpaca.Discovery.{UdpMessage, discovery_task}
use esp32_idf_ascom_alpaca.Discovery.Laws.{IsText, Answers, discovery_task-Answers}
use esp32_idf_ascom_alpaca.UniqueId.Text.{generate_unique_id_collision}
use esp32_idf_ascom_alpaca.UniqueId.Frame.{initialize_ids}
use esp32_idf_ascom_alpaca.Handler.Configured.{Lists, devices_of_types, list_types-Lists}
use esp32_idf_ascom_alpaca.Handler.Management.{list_types, all_types}
use esp32_idf_ascom_alpaca.Examples.{
  platform, observatory, known_type, server, grouped, put_position,
}
use esp32_idf_ascom_alpaca.Request.WellFormed.{IsParsed, parse_request-IsParsed}
use esp32_idf_ascom_alpaca.Request.{parse_request}

generate_unique_id_collision_example :
    generate_unique_id platform (codes "id") (codes "Roof") dome (type_index dome * 10 + 4)
    ≡ generate_unique_id platform (codes "id") (codes "Roof" ++ print_ℕ (type_index dome)) dome 4
generate_unique_id_collision_example =
    generate_unique_id_collision platform (codes "id") (codes "Roof") dome 4
      (known_type (unfold type_index in omega arith)) (omega arith)

initialize_ids_example :
    All (λ d. length d.unique_id ≡ 32) ((initialize platform server).api.devices safety_monitor)
initialize_ids_example = initialize_ids platform (λ s. refl) server safety_monitor

-- A datagram of one byte.
abbrev datagram : UdpMessage ℕ
datagram = record { bytes = b'a' ∷ []; length = 1; source = 9 }

datagram-IsText : IsText datagram
datagram-IsText = (refl, omega arith)

discovery_task-Answers_example :
    Answers 80 (none ∷ some datagram ∷ []) (discovery_task 80 (none ∷ some datagram ∷ []))
discovery_task-Answers_example =
    discovery_task-Answers 80 (none ∷ some datagram ∷ []) (datagram-IsText, tt)

list_types-Lists_example :
    All (Lists observatory) (list_types observatory all_types 2).0
    × (length (list_types observatory all_types 2).0 ≡ devices_of_types observatory all_types)
list_types-Lists_example = list_types-Lists observatory 2 grouped

parse_request-IsParsed_example : IsParsed server (parse_request put_position server)
parse_request-IsParsed_example = parse_request-IsParsed put_position server
