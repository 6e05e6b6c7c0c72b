-- ===== src/Handler/Telescope/Settings.antt =====
-- The handlers of the Telescope API in api.cpp: the settings of a telescope, read and written.
use esp32_idf_ascom_alpaca.Device.Telescope.{
  SideOfPier, TrackingRate, side_of_pier_value, tracking_rate_value,
}
use esp32_idf_ascom_alpaca.Base.{
  ◌&&◌, false, none, some, [], if◌then◌else◌, ℤ, pos, negsuc, eq_ℤ, leb,
}
use esp32_idf_ascom_alpaca.Handler.Telescope.{
  ◌>>=◌, number_of, number_arg, convert, telescope_handler, Argument, nothing, answer_call,
  bool_item_arg, refused, answer_or_reject, given, undefined,
}
use esp32_idf_ascom_alpaca.Handler.Args.{
  text_of_any_case, no_value, num_value, bool_value, int_value, text_value,
}
use esp32_idf_ascom_alpaca.Platform.{Platform}
use esp32_idf_ascom_alpaca.Double.{double_ne, double_le, nan}
use esp32_idf_ascom_alpaca.Base.Text.{str_eq, Bytes, c_str}
use esp32_idf_ascom_alpaca.Request.Answers.{Handler}
use esp32_idf_ascom_alpaca.Request.{AlpacaRequest, null_string, bad_enumerator}

-- A cast to `SideOfPier`, an enumeration with no fixed type and enumerators from -1 to 1.
unfoldable pub side_of_pier_cast : ℤ → Argument ℤ
side_of_pier_cast (pos n) = if leb n 1 then given (pos n) else undefined bad_enumerator
side_of_pier_cast (negsuc n) = if leb n 1 then given (negsuc n) else undefined bad_enumerator

-- `(SideOfPier)` of the number, refused if it is `Unknown`.
unfoldable pub side_of_pier_arg : Platform → AlpacaRequest → Argument ℤ
unfolding number_of convert side_of_pier_cast
side_of_pier_arg p r =
    convert (number_of "SideOfPier" p r)
    >>= side_of_pier_cast
    >>= (λ v. if eq_ℤ v (negsuc 0) then refused else given v)

-- The method takes an `int32_t`.
unfoldable pub settle_time_arg : Platform → AlpacaRequest → Argument ℤ
unfolding number_arg convert
settle_time_arg p r = number_arg "SlewSettleTime" p r >>= convert

-- `value != NAN && value >= 0 && value <= 3`
unfoldable pub tracking_rate_arg : Platform → AlpacaRequest → Argument ℤ
unfolding number_of double_ne double_le convert
tracking_rate_arg p r =
    let x = number_of "TrackingRate" p r in
    if double_ne x nan && (double_le 0 x && double_le x 0x4008000000000000)
    then convert x
    else refused

-- A `std::string` of the item's text, refused if it is empty.
unfoldable pub utc_date_arg : Platform → AlpacaRequest → Argument Bytes
unfolding text_of_any_case str_eq
utc_date_arg p r = elim (text_of_any_case "UTCDate" p r) [
  | none ↦ undefined null_string
  | some s ↦ if str_eq s [] then refused else given s
]

unfoldable pub handle_get_telescope_declinationrate : {W : Type 0} → Platform → Handler W
handle_get_telescope_declinationrate =
    telescope_handler nothing (λ o a. o.get_declinationrate 0) (answer_or_reject num_value)

unfoldable pub handle_put_telescope_declinationrate : {W : Type 0} → Platform → Handler W
handle_put_telescope_declinationrate =
    telescope_handler (number_arg "DeclinationRate") (λ o v. o.put_declinationrate v)
      (answer_call no_value)

unfoldable pub handle_get_telescope_doesrefraction : {W : Type 0} → Platform → Handler W
handle_get_telescope_doesrefraction =
    telescope_handler nothing (λ o a. o.get_doesrefraction false) (answer_or_reject bool_value)

unfoldable pub handle_put_telescope_doesrefraction : {W : Type 0} → Platform → Handler W
handle_put_telescope_doesrefraction =
    telescope_handler (bool_item_arg "DoesRefraction") (λ o v. o.put_doesrefraction v)
      (answer_call no_value)

unfoldable pub handle_get_telescope_guideratedeclination : {W : Type 0} → Platform → Handler W
handle_get_telescope_guideratedeclination =
    telescope_handler nothing (λ o a. o.get_guideratedeclination 0) (answer_or_reject num_value)

unfoldable pub handle_put_telescope_guideratedeclination : {W : Type 0} → Platform → Handler W
handle_put_telescope_guideratedeclination =
    telescope_handler (number_arg "GuideRateDeclination") (λ o v. o.put_guideratedeclination v)
      (answer_call no_value)

unfoldable pub handle_get_telescope_guideraterightascension : {W : Type 0} → Platform → Handler W
handle_get_telescope_guideraterightascension =
    telescope_handler nothing (λ o a. o.get_guideraterightascension 0) (answer_or_reject num_value)

unfoldable pub handle_put_telescope_guideraterightascension : {W : Type 0} → Platform → Handler W
handle_put_telescope_guideraterightascension =
    telescope_handler (number_arg "GuideRateRightAscension")
      (λ o v. o.put_guideraterightascension v) (answer_call no_value)

unfoldable pub handle_get_telescope_rightascensionrate : {W : Type 0} → Platform → Handler W
handle_get_telescope_rightascensionrate =
    telescope_handler nothing (λ o a. o.get_rightascensionrate 0) (answer_or_reject num_value)

unfoldable pub handle_put_telescope_rightascensionrate : {W : Type 0} → Platform → Handler W
handle_put_telescope_rightascensionrate =
    telescope_handler (number_arg "RightAscensionRate") (λ o v. o.put_rightascensionrate v)
      (answer_call no_value)

unfoldable pub handle_get_telescope_sideofpier : {W : Type 0} → Platform → Handler W
handle_get_telescope_sideofpier =
    telescope_handler nothing (λ o a. o.get_sideofpier SideOfPier.unknown)
      (answer_or_reject (λ v. int_value (side_of_pier_value v)))

unfoldable pub handle_put_telescope_sideofpier : {W : Type 0} → Platform → Handler W
handle_put_telescope_sideofpier =
    telescope_handler side_of_pier_arg (λ o v. o.put_sideofpier v) (answer_call no_value)

unfoldable pub handle_get_telescope_siteelevation : {W : Type 0} → Platform → Handler W
handle_get_telescope_siteelevation =
    telescope_handler nothing (λ o a. o.get_siteelevation 0) (answer_or_reject num_value)

unfoldable pub handle_put_telescope_siteelevation : {W : Type 0} → Platform → Handler W
handle_put_telescope_siteelevation =
    telescope_handler (number_arg "SiteElevation") (λ o v. o.put_siteelevation v)
      (answer_call no_value)

unfoldable pub handle_get_telescope_sitelatitude : {W : Type 0} → Platform → Handler W
handle_get_telescope_sitelatitude =
    telescope_handler nothing (λ o a. o.get_sitelatitude 0) (answer_or_reject num_value)

unfoldable pub handle_put_telescope_sitelatitude : {W : Type 0} → Platform → Handler W
handle_put_telescope_sitelatitude =
    telescope_handler (number_arg "SiteLatitude") (λ o v. o.put_sitelatitude v)
      (answer_call no_value)

unfoldable pub handle_get_telescope_sitelongitude : {W : Type 0} → Platform → Handler W
handle_get_telescope_sitelongitude =
    telescope_handler nothing (λ o a. o.get_sitelongitude 0) (answer_or_reject num_value)

unfoldable pub handle_put_telescope_sitelongitude : {W : Type 0} → Platform → Handler W
handle_put_telescope_sitelongitude =
    telescope_handler (number_arg "SiteLongitude") (λ o v. o.put_sitelongitude v)
      (answer_call no_value)

unfoldable pub handle_get_telescope_slewsettletime : {W : Type 0} → Platform → Handler W
handle_get_telescope_slewsettletime =
    telescope_handler nothing (λ o a. o.get_slewsettletime (pos 0)) (answer_or_reject int_value)

unfoldable pub handle_put_telescope_slewsettletime : {W : Type 0} → Platform → Handler W
handle_put_telescope_slewsettletime =
    telescope_handler settle_time_arg (λ o v. o.put_slewsettletime v) (answer_call no_value)

unfoldable pub handle_get_telescope_targetdeclination : {W : Type 0} → Platform → Handler W
handle_get_telescope_targetdeclination =
    telescope_handler nothing (λ o a. o.get_targetdeclination 0) (answer_or_reject num_value)

unfoldable pub handle_put_telescope_targetdeclination : {W : Type 0} → Platform → Handler W
handle_put_telescope_targetdeclination =
    telescope_handler (number_arg "TargetDeclination") (λ o v. o.put_targetdeclination v)
      (answer_call no_value)

unfoldable pub handle_get_telescope_targetrightascension : {W : Type 0} → Platform → Handler W
handle_get_telescope_targetrightascension =
    telescope_handler nothing (λ o a. o.get_targetrightascension 0) (answer_or_reject num_value)

unfoldable pub handle_put_telescope_targetrightascension : {W : Type 0} → Platform → Handler W
handle_put_telescope_targetrightascension =
    telescope_handler (number_arg "TargetRightAscension") (λ o v. o.put_targetrightascension v)
      (answer_call no_value)

unfoldable pub handle_get_telescope_tracking : {W : Type 0} → Platform → Handler W
handle_get_telescope_tracking =
    telescope_handler nothing (λ o a. o.get_tracking false) (answer_or_reject bool_value)

unfoldable pub handle_put_telescope_tracking : {W : Type 0} → Platform → Handler W
handle_put_telescope_tracking =
    telescope_handler (bool_item_arg "Tracking") (λ o v. o.put_tracking v) (answer_call no_value)

unfoldable pub handle_get_telescope_trackingrate : {W : Type 0} → Platform → Handler W
handle_get_telescope_trackingrate =
    telescope_handler nothing (λ o a. o.get_trackingrate TrackingRate.sidereal)
      (answer_or_reject (λ v. int_value (tracking_rate_value v)))

unfoldable pub handle_put_telescope_trackingrate : {W : Type 0} → Platform → Handler W
handle_put_telescope_trackingrate =
    telescope_handler tracking_rate_arg (λ o v. o.put_trackingrate v) (answer_call no_value)

unfoldable pub handle_get_telescope_utcdate : {W : Type 0} → Platform → Handler W
handle_get_telescope_utcdate =
    telescope_handler nothing (λ o a. o.get_utcdate [])
      (answer_or_reject (λ v. text_value (c_str v)))

unfoldable pub handle_put_telescope_utcdate : {W : Type 0} → Platform → Handler W
handle_put_telescope_utcdate =
    telescope_handler utc_date_arg (λ o v. o.put_utcdate v) (answer_call no_value)
