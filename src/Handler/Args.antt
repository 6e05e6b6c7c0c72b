-- ===== src/Handler/Args.antt =====
-- How the handlers read their parameters, and the values that they add to a response. A parameter
-- that is missing or that a handler refuses gives none.
use esp32_idf_ascom_alpaca.Base.{
  ℕ, Bool, true, false, Option, none, some, [], if◌then◌else◌, ℤ, pos,
}
use Prim.Native.String.{String}
use esp32_idf_ascom_alpaca.Base.Text.{str_case_eq, strtol, atoi, Bytes, codes, str_eq, itoa}
use esp32_idf_ascom_alpaca.Platform.{Platform, bool, num, int, str, Added, no_item, unwritten, item}
use esp32_idf_ascom_alpaca.Device.{Double}
use esp32_idf_ascom_alpaca.Request.{AlpacaRequest}

-- `cJSON_GetStringValue(cJSON_GetObjectItemCaseSensitive(body, name))`
unfoldable pub text_of : String → Platform → AlpacaRequest → Option Bytes
text_of name p r = p.get_item_case_sensitive r.body (codes name)

-- The same with `cJSON_GetObjectItem`.
unfoldable pub text_of_any_case : String → Platform → AlpacaRequest → Option Bytes
text_of_any_case name p r = p.get_item r.body (codes name)

infixl 5 ◌>>=◌
abbrev pub ◌>>=◌ {ℓ κ} : {A : Type ℓ} {B : Type κ} → Option A → (A → Option B) → Option B
none >>= f = none
some a >>= f = f a

-- `strcasecmp(s, "true") == 0 || strcasecmp(s, "false") == 0`, and the first of these.
unfoldable pub read_bool : Bytes → Option Bool
unfolding str_case_eq
read_bool s =
    if str_case_eq s (codes "true")
    then some true
    else if str_case_eq s (codes "false")
    then some false
    else none

-- `strtol(s, &endptr, 10)`, refused unless `*endptr` is NUL.
unfoldable pub read_int : Bytes → Option ℤ
unfolding strtol
read_int s = let (v, rest) = strtol s in if str_eq rest [] then some v else none

unfoldable pub read_float : Platform → Bytes → Option Double
read_float p s = let (v, rest) = p.strtof s in if str_eq rest [] then some v else none

unfoldable pub read_double : Platform → Bytes → Option Double
read_double p s = let (v, rest) = p.strtod s in if str_eq rest [] then some v else none

-- A handler with no parameter.
abbrev pub no_args : Platform → AlpacaRequest → Option (Unit {0})
no_args p r = some tt

-- A method with no result.
abbrev pub no_value : {B : Type 0} → B → Added
no_value b = no_item

-- `atoi`, refused unless `itoa` prints the same text again.
unfoldable pub read_canonical : Bytes → Option ℤ
unfolding atoi itoa
read_canonical s = let v = atoi s in if str_eq s (itoa v) then some v else none

unfoldable pub bool_arg : String → Platform → AlpacaRequest → Option Bool
unfolding text_of read_bool
bool_arg name p r = text_of name p r >>= read_bool

unfoldable pub int_arg : String → Platform → AlpacaRequest → Option ℤ
unfolding text_of read_int
int_arg name p r = text_of name p r >>= read_int

unfoldable pub float_arg : String → Platform → AlpacaRequest → Option Double
unfolding text_of read_float
float_arg name p r = text_of name p r >>= read_float p

unfoldable pub canonical_arg : String → Platform → AlpacaRequest → Option ℤ
unfolding text_of read_canonical
canonical_arg name p r = text_of name p r >>= read_canonical

-- The value of an out-parameter that the handler does not initialise, if the driver has written it.
abbrev pub if_written : {A : Type 0} → (A → Added) → Option A → Added
if_written value none = unwritten
if_written value (some a) = value a

abbrev pub bool_value : Bool → Added
bool_value b = item (bool b)

abbrev pub num_value : Double → Added
num_value x = item (num x)

abbrev pub int_value : ℤ → Added
int_value n = item (int n)

abbrev pub uint_value : ℕ → Added
uint_value n = item (int (pos n))

abbrev pub text_value : Bytes → Added
text_value s = item (str s)
