-- ===== src/Handler/Telescope.antt =====
-- What the handlers of the Telescope API in api.cpp have in common. The program registers none of
-- them. They differ from those of the other classes: a parameter is read as a number of cJSON, a
-- conversion can be undefined, and most answer 400 to an error of the driver.
pub mod Capabilities
pub mod Readings
pub mod Settings
pub mod Motion
pub mod Tables
pub mod Arguments
pub mod Contract
pub mod Keeps
use esp32_idf_ascom_alpaca.Base.{
  none, Option, ◌&&◌, Bool, some, [], if◌then◌else◌, ℤ, leb, pos, negsuc,
}
use Prim.Native.String.{String}
use esp32_idf_ascom_alpaca.Platform.{Platform, Added}
use esp32_idf_ascom_alpaca.Request.{AlpacaRequest, Fault, bad_cast, bad_conversion, bad_enumerator}
use esp32_idf_ascom_alpaca.Device.{telescope, Method, Double, type_eq, Called}
use esp32_idf_ascom_alpaca.Request.Answers.{fault, Outcome, Handler}
use esp32_idf_ascom_alpaca.Server.Errors.{check_return}
use esp32_idf_ascom_alpaca.Handler.{reject, answer, with_device, answer_not_implemented}
use esp32_idf_ascom_alpaca.Server.{Server}
use esp32_idf_ascom_alpaca.Device.Telescope.{TelescopeOps}
use esp32_idf_ascom_alpaca.Handler.Args.{text_of_any_case}
use esp32_idf_ascom_alpaca.Double.{double_ne, to_int32, nan}
use esp32_idf_ascom_alpaca.Base.Text.{atoi, Bytes}
use esp32_idf_ascom_alpaca.Handler.Casts.{as_telescope}

-- What a handler reads of its parameters: it answers 400, its behaviour is undefined, or it has the
-- method's arguments.
pub data Argument (A : Type 0) : Type 0 where
  refused : Argument A
  undefined : Fault → Argument A
  given : A → Argument A

infixl 5 ◌>>=◌
abbrev pub ◌>>=◌ : {A B : Type 0} → Argument A → (A → Argument B) → Argument B
refused >>= f = refused
undefined e >>= f = undefined e
given a >>= f = f a

-- `check_return` on a method's result; an error is answered with 400, and the document with the
-- error's number and message is deleted.
unfoldable pub answer_or_reject :
    {W B : Type 0} → (B → Added) → Platform → AlpacaRequest → Called W B → Server W → Outcome W
unfolding check_return answer reject
answer_or_reject value p r called s =
    if (check_return s.err_msg_func called.err []).0
    then answer p r value called s
    else reject p 400 (record s { world = called.world })

-- An error is answered as by the handlers of the other classes.
unfoldable pub answer_call :
    {W B : Type 0} → (B → Added) → Platform → AlpacaRequest → Called W B → Server W → Outcome W
unfolding answer
answer_call value p r called s = answer p r value called s

-- The call of the driver, once the device is cast to a telescope.
unfoldable pub call_given :
    {W A B : Type 0}
    → Platform
    → AlpacaRequest
    → Server W
    → (Platform → AlpacaRequest → Called W B → Server W → Outcome W)
    → (A → Method W B)
    → Argument A
    → Outcome W
unfolding reject
call_given p r s finish call refused = reject p 400 s
call_given p r s finish call (undefined f) = fault f
call_given p r s finish call (given a) = finish p r (call a s.world) s

unfoldable pub call_telescope :
    {W A B : Type 0}
    → Platform
    → AlpacaRequest
    → Server W
    → (Platform → AlpacaRequest → Called W B → Server W → Outcome W)
    → (TelescopeOps W → A → Method W B)
    → Argument A
    → Option (TelescopeOps W)
    → Outcome W
unfolding call_given
call_telescope p r s finish call args none = fault bad_cast
call_telescope p r s finish call args (some ops) = call_given p r s finish (call ops) args

-- A handler of the class; `finish` is what follows the call of the driver.
unfoldable pub telescope_handler :
    {W A B : Type 0}
    → (Platform → AlpacaRequest → Argument A)
    → (TelescopeOps W → A → Method W B)
    → (Platform → AlpacaRequest → Called W B → Server W → Outcome W)
    → Platform
    → Handler W
telescope_handler read call finish p = with_device λ r d req s.
    if type_eq r.device_type telescope
    then call_telescope p r s finish call (read p r) (as_telescope d.kind)
    else answer_not_implemented p r s

-- A handler with no parameter.
abbrev pub nothing : Platform → AlpacaRequest → Argument (Unit {0})
nothing p r = given tt

-- `cJSON_GetNumberValue(cJSON_GetObjectItem(body, name))`
unfoldable pub number_of : String → Platform → AlpacaRequest → Double
unfolding text_of_any_case
number_of name p r = p.get_number (text_of_any_case name p r)

-- A number, refused unless it is `!= NAN`.
unfoldable pub number_arg : String → Platform → AlpacaRequest → Argument Double
unfolding number_of double_ne
number_arg name p r = let x = number_of name p r in if double_ne x nan then given x else refused

-- Two numbers.
unfoldable pub pair_arg : String → String → Platform → AlpacaRequest → Argument (Double × Double)
unfolding number_of double_ne
pair_arg first second p r =
    let x = number_of first p r in
    let y = number_of second p r in
    if double_ne x nan && double_ne y nan then given (x, y) else refused

-- A conversion, where it is defined.
abbrev pub converted : Option ℤ → Argument ℤ
converted none = undefined bad_conversion
converted (some v) = given v

-- A number stored into an `int32_t`.
unfoldable pub convert : Double → Argument ℤ
unfolding to_int32
convert x = converted (to_int32 x)

unfoldable pub bool_item_arg : String → Platform → AlpacaRequest → Argument Bool
unfolding text_of_any_case
bool_item_arg name p r =
    let item = text_of_any_case name p r in
    if p.is_bool item then given (p.is_true item) else refused

-- A text that is not NULL.
abbrev pub present : {A : Type 0} → Option Bytes → (Bytes → Argument A) → Argument A
present none f = refused
present (some s) f = f s

-- A cast to an enumeration with no fixed type and enumerators from 0 to 2 or to 3, `TelescopeAxis` or
-- `GuideDirection`: its values are those of two bits.
unfoldable pub two_bits : ℤ → Argument ℤ
two_bits (pos n) = if leb n 3 then given (pos n) else undefined bad_enumerator
two_bits (negsuc n) = undefined bad_enumerator

-- `(Telescope::TelescopeAxis)atoi(axisStr)`
unfoldable pub axis_arg : Platform → AlpacaRequest → Argument ℤ
unfolding text_of_any_case atoi two_bits
axis_arg p r = present (text_of_any_case "Axis" p r) (λ s. two_bits (atoi s))
