-- ===== src/Routes/Telescope.antt =====
-- What a request on the URI of a telescope does, as `REGISTER_DEVICE_ROUTE` would spell the URI, and
-- what becomes of the parameters of a PUT: the items of a request's body are strings, of which cJSON
-- gives no number and no Boolean.
use esp32_idf_ascom_alpaca.Base.{
  ◌≡◌, true, ℕ, ◌%◌, ◌≤◌, ◌<◌, ap, ◌∙◌, ◌≢◌, some, arith, length, get_elem?, pos, All,
}
use esp32_idf_ascom_alpaca.Handler.Telescope.{
  refused, undefined, number_of, number_arg, pair_arg, telescope_handler, call_given,
  call_telescope, nothing, answer_call, Argument, answer_or_reject,
}
use esp32_idf_ascom_alpaca.Handler.Telescope.Motion.{
  handle_put_telescope_pulseguide, handle_put_telescope_slewtocoordinatesasync,
  handle_put_telescope_slewtoaltazasync, handle_put_telescope_moveaxis,
  handle_put_telescope_synctocoordinates, handle_put_telescope_synctoaltaz,
}
use esp32_idf_ascom_alpaca.Handler.Telescope.Settings.{
  handle_put_telescope_sitelatitude, handle_put_telescope_declinationrate,
  handle_put_telescope_targetrightascension, handle_put_telescope_sideofpier,
  handle_put_telescope_rightascensionrate, handle_put_telescope_trackingrate,
  handle_put_telescope_siteelevation, handle_put_telescope_guideratedeclination,
  handle_put_telescope_sitelongitude, handle_put_telescope_slewsettletime,
  handle_put_telescope_guideraterightascension, handle_put_telescope_targetdeclination,
  handle_put_telescope_doesrefraction, handle_put_telescope_tracking,
}
use esp32_idf_ascom_alpaca.Platform.{Added, Platform, ReadsStrings}
use esp32_idf_ascom_alpaca.Request.Answers.{Outcome, fault}
use esp32_idf_ascom_alpaca.Device.Telescope.{TelescopeOps}
use esp32_idf_ascom_alpaca.Request.{AlpacaRequest, bad_conversion, HttpdReq, count_request}
use esp32_idf_ascom_alpaca.Device.{
  Double, Method, Device, telescope, Called, type_index, DeviceType,
}
use Prim.Native.String.{String}
use esp32_idf_ascom_alpaca.Double.{is_nan}
use esp32_idf_ascom_alpaca.Handler.Args.{no_value}
use esp32_idf_ascom_alpaca.Server.{Server}
use esp32_idf_ascom_alpaca.Base.Text.{Bytes}
use esp32_idf_ascom_alpaca.Handler.Casts.{as_telescope}
use esp32_idf_ascom_alpaca.Route.{route_uri}
use esp32_idf_ascom_alpaca.Device.Names.{uri_device_type}
use esp32_idf_ascom_alpaca.Handler.{answer, reject}
use esp32_idf_ascom_alpaca.Routes.Uri.{served, with_device_route, served-target}
use esp32_idf_ascom_alpaca.Handler.Prologue.{rooted}
use esp32_idf_ascom_alpaca.Server.Devices.{type_eq_refl}
use esp32_idf_ascom_alpaca.Handler.Telescope.Arguments.{
  succeeded, number_of_nan, bool_item_refused, failed, number_arg_given, pair_arg_given,
  tracking_rate_refused, side_of_pier_undefined, settle_time_undefined, move_axis_undefined,
  pulse_guide_undefined,
}
use esp32_idf_ascom_alpaca.Handler.Telescope.Tables.{
  number_puts, tested_puts, pair_puts, converted_puts,
}

known_telescope : DeviceType.telescope ≢ DeviceType.unknown
unfolding type_index
known_telescope e = let q : 10 ≡ 0 = ap type_index e in absurd (omega (arith, q))

module _ {W : Type 0} (req : HttpdReq) (s : Server W) (i : ℕ) (d : Device W) (endpoint : Bytes)
    (fits : i < 256) (there : get_elem? (s.api.devices telescope) i ≡ some d) (ops : TelescopeOps W)
    (cast : as_telescope d.kind ≡ some ops)
    (uri : req.uri ≡ route_uri (uri_device_type telescope 32) i endpoint)
    (short : length req.query ≤ 512) (p : Platform) where
  telescope_handler_route :
      {A B : Type 0} (read : Platform → AlpacaRequest → Argument A)
      (call : TelescopeOps W → A → Method W B)
      (finish : Platform → AlpacaRequest → Called W B → Server W → Outcome W)
      → telescope_handler read call finish p req s
        ≡ call_given p (served req s) (rooted s) finish (call ops) (read p (served req s))
  unfolding telescope_handler call_telescope
  telescope_handler_route read call finish =
      let known = known_telescope in
      let same : get_elem? (s.api.devices telescope) (i % 256) ≡ some d =
        let e : i % 256 ≡ i = omega arith in rw e there in
      with_device_route req s telescope i d endpoint known (omega arith) same uri short _
      ∙ (let (a, b) =
            served-target req s telescope i d endpoint known (omega arith) same uri short in
          rw a (rw (type_eq_refl telescope) (rw cast)))

  -- A handler of the Telescope API with no parameter that answers an error of the driver with 400,
  -- on the URI of telescope `i` (below 256, with a query of at most 512 bytes): if the driver
  -- succeeds, its value is the answer; if it fails, with whatever number, the response is the same
  -- 400 with no text, and the driver's new state is kept.
  pub plain_route :
      {B : Type 0} (call : TelescopeOps W → Unit {0} → Method W B) (value : B → Added)
      → let called = call ops tt s.world in
        let h = telescope_handler nothing call (answer_or_reject value) p req s in
        ((called.err ≡ pos 0) → h ≡ answer p (served req s) value called (rooted s))
        × ((called.err ≢ pos 0) → h ≡ reject p 400 (record (rooted s) { world = called.world }))
  unfolding call_given count_request
  plain_route call value = (
    λ e.
        telescope_handler_route nothing call (answer_or_reject value)
        ∙ succeeded value p (served req s) (call ops tt s.world) (rooted s) e,
    λ h.
        telescope_handler_route nothing call (answer_or_reject value)
        ∙ failed value p (served req s) (call ops tt s.world) (rooted s) h,
  )

  module _ (strings : ReadsStrings p) where
    number_put :
        (name : String) (call : TelescopeOps W → Double → Method W (Unit {0}))
        → (x : Double) × (is_nan x ≡ true)
          × (telescope_handler (number_arg name) call (answer_call no_value) p req s
              ≡ answer p (served req s) no_value (call ops x s.world) (rooted s))
    unfolding call_given answer_call count_request
    number_put name call = (
      number_of name p (served req s),
      number_of_nan p strings (served req s) name,
      telescope_handler_route (number_arg name) call (answer_call no_value)
          ∙ rw (number_arg_given p strings (served req s) name),
    )

    pair_put :
        (a b : String) (call : TelescopeOps W → Double × Double → Method W (Unit {0}))
        → (x y : Double) × (is_nan x ≡ true)
          × (is_nan y ≡ true)
          × (telescope_handler (pair_arg a b) call (answer_call no_value) p req s
              ≡ answer p (served req s) no_value (call ops (x, y) s.world) (rooted s))
    unfolding call_given answer_call count_request
    pair_put a b call = (
      number_of a p (served req s),
      number_of b p (served req s),
      number_of_nan p strings (served req s) a,
      number_of_nan p strings (served req s) b,
      telescope_handler_route (pair_arg a b) call (answer_call no_value)
          ∙ rw (pair_arg_given p strings (served req s) a b),
    )

    never_calls :
        {A B : Type 0} (read : Platform → AlpacaRequest → Argument A)
        (call : TelescopeOps W → A → Method W B)
        (finish : Platform → AlpacaRequest → Called W B → Server W → Outcome W)
        → read p (served req s) ≡ refused
        → telescope_handler read call finish p req s ≡ reject p 400 (rooted s)
    unfolding call_given
    never_calls read call finish e = telescope_handler_route read call finish ∙ rw e

    never_defined :
        {A B : Type 0} (read : Platform → AlpacaRequest → Argument A)
        (call : TelescopeOps W → A → Method W B)
        (finish : Platform → AlpacaRequest → Called W B → Server W → Outcome W)
        → read p (served req s) ≡ undefined bad_conversion
        → telescope_handler read call finish p req s ≡ fault bad_conversion
    unfolding call_given
    never_defined read call finish e = telescope_handler_route read call finish ∙ rw e

    -- A PUT of one or two numbers, on the URI of telescope `i` (below 256, with a query of at most 512
    -- bytes), whatever parameters the request has or lacks: cJSON gives no number of them, so the
    -- guard never refuses, and the driver is called with a NaN for each number, as long as cJSON
    -- reads NaN, and no Boolean, from items that are strings or absent.
    pub number_puts_route :
        All
          (λ e.
            (x : Double) × (is_nan x ≡ true)
            × (e.0 p req s ≡ answer p (served req s) no_value (e.1 ops x s.world) (rooted s)))
          number_puts
        × All
            (λ e.
              (x : Double) × (y : Double) × (is_nan x ≡ true)
              × (is_nan y ≡ true)
              × (e.0 p req s ≡ answer p (served req s) no_value (e.1 ops x y s.world) (rooted s)))
            pair_puts
    unfolding handle_put_telescope_declinationrate handle_put_telescope_guideratedeclination
        handle_put_telescope_guideraterightascension handle_put_telescope_rightascensionrate
        handle_put_telescope_siteelevation handle_put_telescope_sitelatitude
        handle_put_telescope_sitelongitude handle_put_telescope_targetdeclination
        handle_put_telescope_targetrightascension handle_put_telescope_slewtoaltazasync
        handle_put_telescope_synctoaltaz handle_put_telescope_slewtocoordinatesasync
        handle_put_telescope_synctocoordinates
    number_puts_route = (
      (
        number_put "DeclinationRate" _,
        (
          number_put "GuideRateDeclination" _,
          (
            number_put "GuideRateRightAscension" _,
            (
              number_put "RightAscensionRate" _,
              (
                number_put "SiteElevation" _,
                (
                  number_put "SiteLatitude" _,
                  (
                    number_put "SiteLongitude" _,
                    (number_put "TargetDeclination" _, (number_put "TargetRightAscension" _, tt)),
                  ),
                ),
              ),
            ),
          ),
        ),
      ),
      (
        pair_put "Altitude" "Azimuth" _,
        (
          pair_put "Altitude" "Azimuth" _,
          (
            pair_put "RightAscension" "Declination" _,
            (pair_put "RightAscension" "Declination" _, tt),
          ),
        ),
      ),
    )

    -- A PUT of a Boolean, or of the tracking rate, on the URI of telescope `i` (below 256, with a
    -- query of at most 512 bytes) is answered 400 whatever its parameters are, and calls no driver; a
    -- PUT that stores a number into an integer (the side of the pier, the settle time, a move of an
    -- axis, a pulse) is undefined behaviour whatever its parameters are; as long as cJSON reads no Boolean
    -- and NaN from items that are strings or absent.
    pub other_puts_route :
        All (λ h. h p req s ≡ reject p 400 (rooted s)) tested_puts
        × All (λ h. h p req s ≡ fault bad_conversion) converted_puts
    unfolding handle_put_telescope_doesrefraction handle_put_telescope_tracking
        handle_put_telescope_trackingrate handle_put_telescope_sideofpier
        handle_put_telescope_slewsettletime handle_put_telescope_moveaxis
        handle_put_telescope_pulseguide
    other_puts_route = (
      (
        never_calls _ _ _ (bool_item_refused p strings (served req s) "DoesRefraction"),
        (
          never_calls _ _ _ (bool_item_refused p strings (served req s) "Tracking"),
          (never_calls _ _ _ (tracking_rate_refused p strings (served req s)), tt),
        ),
      ),
      (
        never_defined _ _ _ (side_of_pier_undefined p strings (served req s)),
        (
          never_defined _ _ _ (settle_time_undefined p strings (served req s)),
          (
            never_defined _ _ _ (move_axis_undefined p strings (served req s)),
            (never_defined _ _ _ (pulse_guide_undefined p strings (served req s)), tt),
          ),
        ),
      ),
    )
