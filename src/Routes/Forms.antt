-- ===== src/Routes/Forms.antt =====
-- Requests with a form, from the form's parameters to the call of the driver.
use esp32_idf_ascom_alpaca.Base.{
  ℕ, ◌≤◌, ◌<◌, ◌≡◌, ap, ◌∙◌, inl, inr, true, some, List, arith, Option-cases, length, get_elem?, ℤ,
  IsInt32, refl, ◌≢◌, false,
}
use esp32_idf_ascom_alpaca.Device.{
  cover_calibrator, filter_wheel, Device, type_index, FilterWheelOps, CoverCalibratorOps, Kind,
}
use esp32_idf_ascom_alpaca.Handler.FilterWheel.{handle_put_filterwheel_position}
use esp32_idf_ascom_alpaca.Handler.CoverCalibrator.{handle_put_covercalibrator_calibratoron}
use esp32_idf_ascom_alpaca.Platform.{Platform, FindsItems}
use esp32_idf_ascom_alpaca.Request.{HttpdReq, new_request, count_request, AlpacaRequest}
use esp32_idf_ascom_alpaca.Server.{Server}
use esp32_idf_ascom_alpaca.Base.Text.{Bytes, codes, itoa}
use esp32_idf_ascom_alpaca.Request.Parameters.{
  IsForm, lookup, parameters, read_parameters-form, store_all-parameters, get_item-lookup,
}
use esp32_idf_ascom_alpaca.Request.Query.{IsPlain, encode}
use esp32_idf_ascom_alpaca.Base.Text.Laws.{Lacks}
use esp32_idf_ascom_alpaca.Handler.Args.{text_of, int_arg, canonical_arg, no_value, read_canonical}
use Prim.Native.String.{String}
use esp32_idf_ascom_alpaca.Handler.{call_method, answer, reject, answer_not_implemented}
use esp32_idf_ascom_alpaca.Routes.Uri.{served}
use esp32_idf_ascom_alpaca.Handler.Casts.{as_filter_wheel, as_cover_calibrator}
use esp32_idf_ascom_alpaca.Handler.Numbers.{read_int-itoa, read_canonical_iff}
use esp32_idf_ascom_alpaca.Route.{route_uri}
use esp32_idf_ascom_alpaca.Device.Names.{uri_device_type}
use esp32_idf_ascom_alpaca.Handler.Prologue.{rooted}
use esp32_idf_ascom_alpaca.Routes.Serving.{device_handler_route}
use esp32_idf_ascom_alpaca.Request.Identifiers.{IsQuery, read_parameters-query}

module _ {W : Type 0} (p : Platform) (finds : FindsItems p) (req : HttpdReq) (s : Server W)
    (ps : List (Bytes × Bytes)) (form : IsForm req ps) (plain : IsPlain ps)
    (nul : Lacks 0 (encode ps)) where
  -- In a request with a form, a handler finds under a name the first parameter of that name that
  -- the form has, the two identifiers taken out. The query is empty, the form has 1 to 4095 bytes
  -- and no NUL, its names hold no '=' and its values no '&', and cJSON finds the first item of a
  -- name.
  pub text_of_form :
      (name : String) → text_of name p (served req s) ≡ lookup (parameters true ps) (codes name)
  unfolding text_of new_request
  text_of_form name =
      let e : (served req s).body ≡ parameters true ps =
        ap (λ (r : AlpacaRequest). r.body)
          (read_parameters-form req (new_request req s) ps form plain nul)
        ∙ store_all-parameters true (new_request req s) ps in
      rw e (get_item-lookup p finds (parameters true ps) (codes name))

  int_arg-form :
      (name : String) (v : ℤ)
      → IsInt32 v
      → lookup (parameters true ps) (codes name) ≡ some (itoa v)
      → int_arg name p (served req s) ≡ some v
  unfolding int_arg
  int_arg-form name v fits there = rw (text_of_form name, there) (read_int-itoa v fits)

  module _ (i : ℕ) (d : Device W) (endpoint : Bytes) (fits : i < 256) where
    query_fits : length req.query ≤ 512
    query_fits = rw form.0 (omega arith)

    -- `PUT .../filterwheel/<i>/position` with a form whose first `Position` is the decimal text of
    -- an `int32_t`: the driver of filter wheel `i`, for `i` below 256, is called with that
    -- position, and the answer is made from its error code. The query is empty, the form has 1 to
    -- 4095 bytes and no NUL, its names hold no '=' and its values no '&', and cJSON finds the first
    -- item of a name.
    pub put_filterwheel_position_form :
        (ops : FilterWheelOps W) (v : ℤ)
        → d.kind ≡ Kind.filter_wheel ops
        → get_elem? (s.api.devices filter_wheel) i ≡ some d
        → req.uri ≡ route_uri (uri_device_type filter_wheel 32) i endpoint
        → IsInt32 v
        → lookup (parameters true ps) (codes "Position") ≡ some (itoa v)
        → handle_put_filterwheel_position p req s
          ≡ answer p (served req s) no_value (ops.put_position v s.world) (rooted s)
    unfolding handle_put_filterwheel_position call_method as_filter_wheel type_index count_request
    put_filterwheel_position_form ops v kind there uri small given =
        device_handler_route req s filter_wheel i d endpoint (λ e. absurd (ground (arith, e))) fits
          there uri query_fits as_filter_wheel ops (rw kind) answer_not_implemented
          (int_arg "Position") (λ o w. o.put_position w) no_value p
        ∙ rw (int_arg-form "Position" v small given)

    calibratoron_form :
        (ops : CoverCalibratorOps W) (text : Bytes)
        → d.kind ≡ Kind.cover_calibrator ops
        → get_elem? (s.api.devices cover_calibrator) i ≡ some d
        → req.uri ≡ route_uri (uri_device_type cover_calibrator 32) i endpoint
        → lookup (parameters true ps) (codes "Brightness") ≡ some text
        → handle_put_covercalibrator_calibratoron p req s
          ≡ call_method p
              (served req s)
              (rooted s)
              no_value
              ops.turn_calibratoron
              (read_canonical text)
    unfolding handle_put_covercalibrator_calibratoron as_cover_calibrator type_index canonical_arg
    calibratoron_form ops text kind there uri given =
        device_handler_route req s cover_calibrator i d endpoint (λ e. absurd (ground (arith, e)))
          fits there uri query_fits as_cover_calibrator ops (rw kind) (λ p r s. reject p 404 s)
          (canonical_arg "Brightness") (λ o w. o.turn_calibratoron w) no_value p
        ∙ rw (text_of_form "Brightness", given)

    -- `PUT .../covercalibrator/<i>/calibratoron` with a form whose first `Brightness` is the
    -- decimal text of an `int32_t`: the driver of cover calibrator `i`, for `i` below 256, is
    -- called with that brightness, and the answer is made from its error code. The query is empty,
    -- the form has 1 to 4095 bytes and no NUL, its names hold no '=' and its values no '&', and
    -- cJSON finds the first item of a name.
    pub put_calibratoron_form :
        (ops : CoverCalibratorOps W) (v : ℤ)
        → d.kind ≡ Kind.cover_calibrator ops
        → get_elem? (s.api.devices cover_calibrator) i ≡ some d
        → req.uri ≡ route_uri (uri_device_type cover_calibrator 32) i endpoint
        → IsInt32 v
        → lookup (parameters true ps) (codes "Brightness") ≡ some (itoa v)
        → handle_put_covercalibrator_calibratoron p req s
          ≡ answer p (served req s) no_value (ops.turn_calibratoron v s.world) (rooted s)
    unfolding call_method count_request
    put_calibratoron_form ops v kind there uri small given =
        calibratoron_form ops (itoa v) kind there uri given
        ∙ rw ((read_canonical_iff (itoa v) v).1 (small, refl))

    -- `PUT .../covercalibrator/<i>/calibratoron` to cover calibrator `i`, for `i` below 256, with a
    -- form whose first `Brightness` is not the decimal text of any `int32_t`: the answer is 400,
    -- and no driver is called. The query is empty, the form has 1 to 4095 bytes and no NUL, its
    -- names hold no '=' and its values no '&', and cJSON finds the first item of a name.
    pub put_calibratoron_refused :
        (ops : CoverCalibratorOps W) (text : Bytes)
        → d.kind ≡ Kind.cover_calibrator ops
        → get_elem? (s.api.devices cover_calibrator) i ≡ some d
        → req.uri ≡ route_uri (uri_device_type cover_calibrator 32) i endpoint
        → lookup (parameters true ps) (codes "Brightness") ≡ some text
        → ((v : ℤ) → IsInt32 v → text ≢ itoa v)
        → handle_put_covercalibrator_calibratoron p req s ≡ reject p 400 (rooted s)
    unfolding call_method
    put_calibratoron_refused ops text kind there uri given none_fits =
        calibratoron_form ops text kind there uri given
        ∙ elim (Option-cases (read_canonical text)) [
          | inl e ↦ rw e
          | inr (v, e) ↦
              let (small, same) = (read_canonical_iff text v).0 e in absurd (none_fits v small same)
        ]

-- In a request with a query and no body, a handler finds under a name the first parameter of that
-- name that the query has, the two identifiers taken out, whose names are compared without case.
-- The query holds no NUL, its names no '=' and its values no '&', and cJSON finds the first item of
-- a name.
pub text_of_query :
    {W : Type 0} (p : Platform)
    → FindsItems p
    → (req : HttpdReq) (s : Server W) (ps : List (Bytes × Bytes)) → IsQuery req ps
    → IsPlain ps
    → Lacks 0 (encode ps)
    → (name : String) → text_of name p (served req s) ≡ lookup (parameters false ps) (codes name)
unfolding text_of new_request
text_of_query p finds req s ps query plain nul name =
    let e : (served req s).body ≡ parameters false ps =
      ap (λ (r : AlpacaRequest). r.body)
        (read_parameters-query req (new_request req s) ps query plain nul)
      ∙ store_all-parameters false (new_request req s) ps in
    rw e (get_item-lookup p finds (parameters false ps) (codes name))
