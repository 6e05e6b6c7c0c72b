-- ===== src/Examples/Parsing.antt =====
-- The theorems on parsing and printing, at concrete texts.
use esp32_idf_ascom_alpaca.Base.{
  ◌≡◌, true, some, [], ◌∷◌, List, arith, ◌↔◌, false, negsuc, IsInt32, none,
}
use esp32_idf_ascom_alpaca.Request.{AlpacaRequest, parse_string, parse_loop, new_request}
use esp32_idf_ascom_alpaca.Base.Text.{Bytes, codes, itoa}
use esp32_idf_ascom_alpaca.Handler.Args.{read_canonical}
use esp32_idf_ascom_alpaca.Request.Query.{
  IsPlain, store_all, parse_string_fuel, parse_string-encode,
}
use esp32_idf_ascom_alpaca.Handler.Numbers.{read_canonical_iff}
use esp32_idf_ascom_alpaca.Examples.{put_position, server}
use esp32_idf_ascom_alpaca.Request.Automaton.{scan_parameters, parse_string-scan_parameters}

abbrev two_parameters : List (Bytes × Bytes)
two_parameters = (codes "ClientID", codes "12") ∷ (codes "Position", codes "7") ∷ []

two_parameters-IsPlain : IsPlain two_parameters
two_parameters-IsPlain = (omega arith, omega arith)

abbrev empty_request : AlpacaRequest
empty_request = new_request put_position server

parse_string-encode_example :
    parse_string true empty_request (codes "ClientID=12&Position=7")
    ≡ store_all true empty_request two_parameters
parse_string-encode_example =
    parse_string-encode true empty_request two_parameters two_parameters-IsPlain

parse_string_fuel_example :
    parse_loop 90 false empty_request (codes "a=1&b")
    ≡ parse_string false empty_request (codes "a=1&b")
parse_string_fuel_example = parse_string_fuel 90 false empty_request (codes "a=1&b") (omega arith)

read_canonical_iff_example :
    (read_canonical (codes "-120") ≡ some (negsuc 119))
    ↔ (IsInt32 (negsuc 119) × (codes "-120" ≡ itoa (negsuc 119)))
read_canonical_iff_example = read_canonical_iff (codes "-120") (negsuc 119)

parse_string-scan_parameters_example :
    parse_string false empty_request (codes "a&b=1&c")
    ≡ store_all false empty_request (scan_parameters none [] (codes "a&b=1&c"))
parse_string-scan_parameters_example =
    parse_string-scan_parameters false empty_request (codes "a&b=1&c")
