-- ===== src/Handler/Telescope/Keeps.antt =====
-- The contract of the handlers of the Telescope API, for all that api.h declares.
use esp32_idf_ascom_alpaca.Handler.Written.{IsWritten}
use esp32_idf_ascom_alpaca.Base.{
  pos, negsuc, leb, Bool-cases, inl, inr, ◌⊎◌, refl, ◌≡◌, All, Option, none, some, ℤ, Option-cases,
}
use esp32_idf_ascom_alpaca.Handler.Telescope.Settings.{
  handle_get_telescope_doesrefraction, handle_put_telescope_targetrightascension,
  handle_put_telescope_sitelatitude, handle_put_telescope_declinationrate,
  handle_put_telescope_trackingrate, handle_get_telescope_targetrightascension,
  handle_get_telescope_tracking, handle_get_telescope_sideofpier,
  handle_put_telescope_slewsettletime, handle_get_telescope_sitelatitude,
  handle_get_telescope_rightascensionrate, handle_put_telescope_guideraterightascension,
  handle_get_telescope_targetdeclination, handle_put_telescope_utcdate,
  handle_put_telescope_targetdeclination, handle_get_telescope_sitelongitude,
  handle_put_telescope_rightascensionrate, handle_get_telescope_guideraterightascension,
  handle_get_telescope_utcdate, handle_put_telescope_doesrefraction,
  handle_get_telescope_slewsettletime, handle_get_telescope_guideratedeclination,
  handle_get_telescope_siteelevation, handle_put_telescope_guideratedeclination,
  handle_put_telescope_siteelevation, handle_put_telescope_sitelongitude,
  handle_put_telescope_sideofpier, handle_get_telescope_trackingrate,
  handle_get_telescope_declinationrate, handle_put_telescope_tracking,
}
use esp32_idf_ascom_alpaca.Handler.Telescope.Capabilities.{
  handle_get_telescope_cansetpark, handle_get_telescope_canslewasync,
  handle_get_telescope_cansetpierside, handle_get_telescope_cansync, handle_get_telescope_canslew,
  handle_get_telescope_aperturediameter, handle_get_telescope_trackingrates,
  handle_get_telescope_alignmentmode, handle_get_telescope_canfindhome,
  handle_get_telescope_canunpark, handle_get_telescope_cansetdeclinationrate,
  handle_get_telescope_canslewaltazasync, handle_get_telescope_cansettracking,
  handle_get_telescope_canslewaltaz, handle_get_telescope_canpulseguide,
  handle_get_telescope_focallength, handle_get_telescope_canpark,
  handle_get_telescope_equatorialsystem, handle_get_telescope_cansetrightascensionrate,
  handle_get_telescope_cansetguiderates, handle_get_telescope_cansyncaltaz,
  handle_get_telescope_aperturearea,
}
use esp32_idf_ascom_alpaca.Handler.Telescope.Readings.{
  handle_get_telescope_ispulseguiding, handle_get_telescope_azimuth,
  handle_get_telescope_rightascension, handle_get_telescope_altitude, handle_get_telescope_atpark,
  handle_get_telescope_siderealtime, handle_get_telescope_slewing, handle_get_telescope_athome,
  handle_get_telescope_declination,
}
use esp32_idf_ascom_alpaca.Handler.Telescope.Motion.{
  handle_put_telescope_abortslew, handle_put_telescope_synctoaltaz, handle_put_telescope_findhome,
  handle_get_telescope_axisrates, handle_put_telescope_synctocoordinates,
  handle_put_telescope_moveaxis, handle_get_telescope_destinationsideofpier,
  handle_put_telescope_pulseguide, handle_put_telescope_setpark, handle_put_telescope_park,
  handle_put_telescope_slewtotargetasync, handle_put_telescope_unpark,
  handle_put_telescope_slewtoaltazasync, handle_put_telescope_slewtocoordinatesasync,
  handle_put_telescope_synctotarget, handle_get_telescope_canmoveaxis, destination_arg,
}
use esp32_idf_ascom_alpaca.Handler.Telescope.{
  two_bits, undefined, axis_arg, Argument, telescope_handler, answer_call, answer_or_reject,
  nothing, present,
}
use esp32_idf_ascom_alpaca.Platform.{Added, Platform}
use esp32_idf_ascom_alpaca.Handler.Telescope.Tables.{telescope_reads, axis_reads, telescope_puts}
use esp32_idf_ascom_alpaca.Request.{bad_enumerator, AlpacaRequest}
use esp32_idf_ascom_alpaca.Device.Telescope.{TelescopeOps}
use esp32_idf_ascom_alpaca.Handler.Telescope.Contract.{
  AllAnsweredUnless, telescope_handler-AnsweredUnless, AllSettled, IsDefined, AllAnswered,
  telescope_handler-Settled, telescope_handler-Answered, answer_call-IsFinish,
  answer_or_reject-IsFinish,
}
use esp32_idf_ascom_alpaca.Device.{Method, Double}
use esp32_idf_ascom_alpaca.Handler.Args.{text_of_any_case}
use esp32_idf_ascom_alpaca.Base.Text.{atoi, Bytes}

present-IsDefined :
    {A : Type 0} (item : Option Bytes) (f : Bytes → Argument A)
    → ((s : Bytes) → IsDefined (f s))
    → IsDefined (present item f)
present-IsDefined none f h = tt
present-IsDefined (some s) f h = h s

two_bits-cases : (v : ℤ) → IsDefined (two_bits v) ⊎ (two_bits v ≡ undefined bad_enumerator)
unfolding two_bits
two_bits-cases (pos n) = elim (Bool-cases (leb n 3)) [ inl e ↦ inl (rw e tt) | inr e ↦ inr (rw e) ]
two_bits-cases (negsuc n) = inr refl

axis_arg-cases :
    (p : Platform) (r : AlpacaRequest)
    → IsDefined (axis_arg p r) ⊎ (axis_arg p r ≡ undefined bad_enumerator)
unfolding axis_arg
axis_arg-cases p r = elim (Option-cases (text_of_any_case "Axis" p r)) [
  | inl e ↦ inl (rw e tt)
  | inr (s, e) ↦ rw e (two_bits-cases (atoi s))
]

destination_arg-IsDefined : (p : Platform) (r : AlpacaRequest) → IsDefined (destination_arg p r)
unfolding destination_arg
destination_arg-IsDefined p r =
    present-IsDefined (text_of_any_case "RightAscension" p r) _
      λ x. present-IsDefined (text_of_any_case "Declination" p r) _ λ y. tt

module _ {W A B : Type 0} (read : Platform → AlpacaRequest → Argument A)
    (call : TelescopeOps W → A → Method W B) (value : B → Added) (p : Platform)
    (there : (b : B) → IsWritten (value b)) where
  settled : AllSettled (telescope_handler read call (answer_call value) p)
  settled =
      telescope_handler-Settled (answer_call value) (answer_call-IsFinish value there) read call p

  settled_or_rejected : AllSettled (telescope_handler read call (answer_or_reject value) p)
  settled_or_rejected =
      telescope_handler-Settled (answer_or_reject value) (answer_or_reject-IsFinish value there)
        read call p

module _ {W B : Type 0} (value : B → Added) (p : Platform)
    (there : (b : B) → IsWritten (value b)) where
  plain :
      (call : TelescopeOps W → Unit {0} → Method W B)
      → AllAnswered (telescope_handler nothing call (answer_or_reject value) p)
  plain call =
      telescope_handler-Answered (answer_or_reject value) (answer_or_reject-IsFinish value there)
        nothing call p (λ r. tt)

  of_axis :
      (call : TelescopeOps W → ℤ → Method W B)
      → AllAnsweredUnless bad_enumerator (telescope_handler axis_arg call (answer_call value) p)
  of_axis call =
      telescope_handler-AnsweredUnless (answer_call value) (answer_call-IsFinish value there)
        axis_arg call p bad_enumerator (axis_arg-cases p)

  of_destination :
      (call : TelescopeOps W → Double × Double → Method W B)
      → AllAnswered (telescope_handler destination_arg call (answer_call value) p)
  of_destination call =
      telescope_handler-Answered (answer_call value) (answer_call-IsFinish value there)
        destination_arg call p (destination_arg-IsDefined p)

-- Every handler of the Telescope API that reads, and reads no axis, is settled, and its requests are
-- answered.
telescope_reads-Contract :
    (W : Type 0) (p : Platform)
    → All (λ h. AllSettled (h p) × AllAnswered (h p)) (telescope_reads {W = W})
unfolding telescope_reads handle_get_telescope_alignmentmode handle_get_telescope_altitude
    handle_get_telescope_aperturearea handle_get_telescope_aperturediameter
    handle_get_telescope_athome handle_get_telescope_atpark handle_get_telescope_azimuth
    handle_get_telescope_canfindhome handle_get_telescope_canpark handle_get_telescope_canpulseguide
    handle_get_telescope_cansetdeclinationrate handle_get_telescope_cansetguiderates
    handle_get_telescope_cansetpark handle_get_telescope_cansetpierside
    handle_get_telescope_cansetrightascensionrate handle_get_telescope_cansettracking
    handle_get_telescope_canslew handle_get_telescope_canslewaltaz
    handle_get_telescope_canslewaltazasync handle_get_telescope_canslewasync
    handle_get_telescope_cansync handle_get_telescope_cansyncaltaz handle_get_telescope_canunpark
    handle_get_telescope_declination handle_get_telescope_declinationrate
    handle_get_telescope_doesrefraction handle_get_telescope_equatorialsystem
    handle_get_telescope_focallength handle_get_telescope_guideratedeclination
    handle_get_telescope_guideraterightascension handle_get_telescope_ispulseguiding
    handle_get_telescope_rightascension handle_get_telescope_rightascensionrate
    handle_get_telescope_sideofpier handle_get_telescope_siderealtime
    handle_get_telescope_siteelevation handle_get_telescope_sitelatitude
    handle_get_telescope_sitelongitude handle_get_telescope_slewing
    handle_get_telescope_slewsettletime handle_get_telescope_targetdeclination
    handle_get_telescope_targetrightascension handle_get_telescope_tracking
    handle_get_telescope_trackingrate handle_get_telescope_trackingrates
    handle_get_telescope_utcdate handle_get_telescope_destinationsideofpier
telescope_reads-Contract W p = search (settled, settled_or_rejected, plain, of_destination)

axis_reads-Contract :
    (W : Type 0) (p : Platform)
    → All (λ h. AllSettled (h p) × AllAnsweredUnless bad_enumerator (h p)) (axis_reads {W = W})
unfolding axis_reads handle_get_telescope_axisrates handle_get_telescope_canmoveaxis
axis_reads-Contract W p = search (settled, of_axis)

telescope_puts-Settled :
    (W : Type 0) (p : Platform) → All (λ h. AllSettled (h p)) (telescope_puts {W = W})
unfolding telescope_puts handle_put_telescope_declinationrate handle_put_telescope_doesrefraction
    handle_put_telescope_guideratedeclination handle_put_telescope_guideraterightascension
    handle_put_telescope_rightascensionrate handle_put_telescope_sideofpier
    handle_put_telescope_siteelevation handle_put_telescope_sitelatitude
    handle_put_telescope_sitelongitude handle_put_telescope_slewsettletime
    handle_put_telescope_targetdeclination handle_put_telescope_targetrightascension
    handle_put_telescope_tracking handle_put_telescope_trackingrate handle_put_telescope_utcdate
    handle_put_telescope_abortslew handle_put_telescope_findhome handle_put_telescope_moveaxis
    handle_put_telescope_park handle_put_telescope_pulseguide handle_put_telescope_setpark
    handle_put_telescope_slewtoaltazasync handle_put_telescope_slewtocoordinatesasync
    handle_put_telescope_slewtotargetasync handle_put_telescope_synctoaltaz
    handle_put_telescope_synctocoordinates handle_put_telescope_synctotarget
    handle_put_telescope_unpark
telescope_puts-Settled W p = search (settled, settled_or_rejected)

-- Every request to a handler of the Telescope API, if it does not end in undefined behaviour: the
-- transaction counter goes up by one and the API object is otherwise the same; the answer is 200, and
-- all documents are freed, or it is 400 or 404, and one is left allocated. A request to one that reads
-- ends in no undefined behaviour of the model, if each list of devices holds devices of its own type
-- only and the device type's text in the URI has at most 31 bytes; but for the two that read an axis,
-- whose cast to the enumeration of the axes is undefined for a number that it does not hold.
pub telescope_handlers-Settled :
    (W : Type 0) (p : Platform)
    → All (λ h. AllSettled (h p) × AllAnswered (h p)) (telescope_reads {W = W})
      × All (λ h. AllSettled (h p) × AllAnsweredUnless bad_enumerator (h p)) (axis_reads {W = W})
      × All (λ h. AllSettled (h p)) (telescope_puts {W = W})
telescope_handlers-Settled W p =
    (telescope_reads-Contract W p, axis_reads-Contract W p, telescope_puts-Settled W p)
