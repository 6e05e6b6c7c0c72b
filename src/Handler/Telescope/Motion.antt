-- ===== src/Handler/Telescope/Motion.antt =====
-- The handlers of the Telescope API in api.cpp: the motion of a telescope.
use esp32_idf_ascom_alpaca.Device.Telescope.{SideOfPier, side_of_pier_value}
use esp32_idf_ascom_alpaca.Base.{◌&&◌, Bool, true, false, [], if◌then◌else◌, ℤ}
use esp32_idf_ascom_alpaca.Handler.Telescope.{
  ◌>>=◌, number_of, number_arg, convert, Argument, telescope_handler, given, nothing, axis_arg,
  answer_call, pair_arg, refused, answer_or_reject, present, two_bits,
}
use esp32_idf_ascom_alpaca.Device.{Double}
use esp32_idf_ascom_alpaca.Handler.Args.{text_of_any_case, bool_value, no_value, int_value}
use esp32_idf_ascom_alpaca.Platform.{Platform, rates, item}
use esp32_idf_ascom_alpaca.Request.{AlpacaRequest}
use esp32_idf_ascom_alpaca.Request.Answers.{Handler}

-- `n != NAN` for a number that was stored into an `int32_t`.
abbrev pub int_ne_nan : ℤ → Bool
int_ne_nan n = true

unfoldable pub move_axis_arg : Platform → AlpacaRequest → Argument (ℤ × Double)
unfolding number_of number_arg convert two_bits
move_axis_arg p r = convert (number_of "Axis" p r) >>= λ axis.
    number_arg "Rate" p r >>= λ rate. two_bits axis >>= λ value. given (value, rate)

unfoldable pub pulse_guide_arg : Platform → AlpacaRequest → Argument (ℤ × ℤ)
unfolding number_of convert two_bits
pulse_guide_arg p r = convert (number_of "Direction" p r) >>= λ direction.
    convert (number_of "Duration" p r) >>= λ duration.
    if int_ne_nan direction && int_ne_nan duration
    then two_bits direction >>= (λ value. given (value, duration))
    else refused

unfoldable pub destination_arg : Platform → AlpacaRequest → Argument (Double × Double)
unfolding text_of_any_case
destination_arg p r =
    present (text_of_any_case "RightAscension" p r)
      λ x. present (text_of_any_case "Declination" p r) λ y. given (p.atof x, p.atof y)

unfoldable pub handle_put_telescope_abortslew : {W : Type 0} → Platform → Handler W
handle_put_telescope_abortslew =
    telescope_handler nothing (λ o a. o.put_abortslew) (answer_or_reject no_value)

unfoldable pub handle_get_telescope_axisrates : {W : Type 0} → Platform → Handler W
handle_get_telescope_axisrates =
    telescope_handler axis_arg (λ o a. o.get_axisrates a []) (answer_call (λ v. item (rates v)))

unfoldable pub handle_get_telescope_canmoveaxis : {W : Type 0} → Platform → Handler W
handle_get_telescope_canmoveaxis =
    telescope_handler axis_arg (λ o a. o.get_canmoveaxis a false) (answer_call bool_value)

unfoldable pub handle_get_telescope_destinationsideofpier : {W : Type 0} → Platform → Handler W
handle_get_telescope_destinationsideofpier =
    telescope_handler destination_arg
      (λ o a. o.get_destinationsideofpier a.0 a.1 SideOfPier.unknown)
      (answer_call (λ v. int_value (side_of_pier_value v)))

unfoldable pub handle_put_telescope_findhome : {W : Type 0} → Platform → Handler W
handle_put_telescope_findhome =
    telescope_handler nothing (λ o a. o.put_findhome) (answer_or_reject no_value)

unfoldable pub handle_put_telescope_moveaxis : {W : Type 0} → Platform → Handler W
handle_put_telescope_moveaxis =
    telescope_handler move_axis_arg (λ o a. o.put_moveaxis a.0 a.1) (answer_call no_value)

unfoldable pub handle_put_telescope_park : {W : Type 0} → Platform → Handler W
handle_put_telescope_park =
    telescope_handler nothing (λ o a. o.put_park) (answer_or_reject no_value)

unfoldable pub handle_put_telescope_pulseguide : {W : Type 0} → Platform → Handler W
handle_put_telescope_pulseguide =
    telescope_handler pulse_guide_arg (λ o a. o.put_pulseguide a.0 a.1) (answer_call no_value)

unfoldable pub handle_put_telescope_setpark : {W : Type 0} → Platform → Handler W
handle_put_telescope_setpark =
    telescope_handler nothing (λ o a. o.put_setpark) (answer_or_reject no_value)

unfoldable pub handle_put_telescope_slewtoaltazasync : {W : Type 0} → Platform → Handler W
handle_put_telescope_slewtoaltazasync =
    telescope_handler (pair_arg "Altitude" "Azimuth") (λ o a. o.put_slewtoaltazasync a.0 a.1)
      (answer_call no_value)

unfoldable pub handle_put_telescope_slewtocoordinatesasync : {W : Type 0} → Platform → Handler W
handle_put_telescope_slewtocoordinatesasync =
    telescope_handler (pair_arg "RightAscension" "Declination")
      (λ o a. o.put_slewtocoordinatesasync a.0 a.1) (answer_call no_value)

unfoldable pub handle_put_telescope_slewtotargetasync : {W : Type 0} → Platform → Handler W
handle_put_telescope_slewtotargetasync =
    telescope_handler nothing (λ o a. o.put_slewtotargetasync) (answer_or_reject no_value)

unfoldable pub handle_put_telescope_synctoaltaz : {W : Type 0} → Platform → Handler W
handle_put_telescope_synctoaltaz =
    telescope_handler (pair_arg "Altitude" "Azimuth") (λ o a. o.put_synctoaltaz a.0 a.1)
      (answer_call no_value)

unfoldable pub handle_put_telescope_synctocoordinates : {W : Type 0} → Platform → Handler W
handle_put_telescope_synctocoordinates =
    telescope_handler (pair_arg "RightAscension" "Declination")
      (λ o a. o.put_synctocoordinates a.0 a.1) (answer_call no_value)

unfoldable pub handle_put_telescope_synctotarget : {W : Type 0} → Platform → Handler W
handle_put_telescope_synctotarget =
    telescope_handler nothing (λ o a. o.put_synctotarget) (answer_or_reject no_value)

unfoldable pub handle_put_telescope_unpark : {W : Type 0} → Platform → Handler W
handle_put_telescope_unpark =
    telescope_handler nothing (λ o a. o.put_unpark) (answer_or_reject no_value)
