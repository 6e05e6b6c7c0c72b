-- ===== src/Handler/Telescope/Arguments.antt =====
-- What the handlers of the Telescope API read where the items of a request's body are strings, and how
-- they treat an error of the driver.
use esp32_idf_ascom_alpaca.Handler.Written.{check_return_fine}
use esp32_idf_ascom_alpaca.Base.{
  ◌≡◌, ◌≢◌, ap, [], true, Bool-cases, inl, inr, refl, pos, eq_ℤ, eq_ℤ_refl, eq_ℤ_sound,
}
use esp32_idf_ascom_alpaca.Handler.Telescope.{
  refused, undefined, given, number_of, number_arg, pair_arg, convert, bool_item_arg, converted,
  answer_or_reject,
}
use esp32_idf_ascom_alpaca.Platform.{Added, Platform, ReadsStrings}
use esp32_idf_ascom_alpaca.Server.{Server}
use esp32_idf_ascom_alpaca.Request.{AlpacaRequest, bad_conversion}
use esp32_idf_ascom_alpaca.Device.{Double, Called}
use esp32_idf_ascom_alpaca.Handler.Telescope.Settings.{
  side_of_pier_arg, settle_time_arg, tracking_rate_arg,
}
use esp32_idf_ascom_alpaca.Handler.Telescope.Motion.{move_axis_arg, pulse_guide_arg}
use Prim.Native.String.{String}
use esp32_idf_ascom_alpaca.Double.{
  double_ne, double_le_nan, is_nan, nan, double_ne_nan, to_int32_nan,
}
use esp32_idf_ascom_alpaca.Handler.Args.{text_of_any_case}
use esp32_idf_ascom_alpaca.Handler.{answer, reject}

module _ (p : Platform) (strings : ReadsStrings p) (r : AlpacaRequest) where
  -- Every number that is read is a NaN, and passes the guard `!= NAN`.
  pub number_of_nan : (name : String) → is_nan (number_of name p r) ≡ true
  unfolding number_of
  number_of_nan name = strings.no_number (text_of_any_case name p r)

  pub passes : (x : Double) → double_ne x nan ≡ true
  passes x = double_ne_nan x nan (unfold is_nan in refl)

  pub number_arg_given : (name : String) → number_arg name p r ≡ given (number_of name p r)
  unfolding number_arg
  number_arg_given name = rw (passes (number_of name p r))

  pub pair_arg_given : (a b : String) → pair_arg a b p r ≡ given (number_of a p r, number_of b p r)
  unfolding pair_arg
  pair_arg_given a b = rw (passes (number_of a p r), passes (number_of b p r))

  pub convert_undefined : (name : String) → convert (number_of name p r) ≡ undefined bad_conversion
  unfolding convert
  convert_undefined name = ap converted (to_int32_nan (number_of name p r) (number_of_nan name))

  pub bool_item_refused : (name : String) → bool_item_arg name p r ≡ refused
  unfolding bool_item_arg
  bool_item_refused name = rw (strings.no_bool (text_of_any_case name p r))

  pub side_of_pier_undefined : side_of_pier_arg p r ≡ undefined bad_conversion
  unfolding side_of_pier_arg
  side_of_pier_undefined = rw (convert_undefined "SideOfPier")

  pub settle_time_undefined : settle_time_arg p r ≡ undefined bad_conversion
  unfolding settle_time_arg
  settle_time_undefined =
      rw (number_arg_given "SlewSettleTime") (convert_undefined "SlewSettleTime")

  pub move_axis_undefined : move_axis_arg p r ≡ undefined bad_conversion
  unfolding move_axis_arg
  move_axis_undefined = rw (convert_undefined "Axis")

  pub pulse_guide_undefined : pulse_guide_arg p r ≡ undefined bad_conversion
  unfolding pulse_guide_arg
  pulse_guide_undefined = rw (convert_undefined "Direction")

  pub tracking_rate_refused : tracking_rate_arg p r ≡ refused
  unfolding tracking_rate_arg
  tracking_rate_refused =
      let x = number_of "TrackingRate" p r in
      rw (passes x, double_le_nan 0 x (number_of_nan "TrackingRate"))

module _ {W B : Type 0} (value : B → Added) (p : Platform) (r : AlpacaRequest) (called : Called W B)
    (s : Server W) where
  pub succeeded :
      (called.err ≡ pos 0) → answer_or_reject value p r called s ≡ answer p r value called s
  unfolding answer_or_reject
  succeeded e =
      let fine : eq_ℤ called.err (pos 0) ≡ true = rw e (eq_ℤ_refl (pos 0)) in
      rw (check_return_fine s.err_msg_func called.err [], fine)

  pub failed :
      (called.err ≢ pos 0)
      → answer_or_reject value p r called s ≡ reject p 400 (record s { world = called.world })
  unfolding answer_or_reject
  failed h = elim (Bool-cases (eq_ℤ called.err (pos 0))) [
    | inl e ↦ absurd (h (eq_ℤ_sound called.err (pos 0) e))
    | inr e ↦ rw (check_return_fine s.err_msg_func called.err [], e)
  ]
