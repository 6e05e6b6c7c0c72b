-- ===== src/Examples/Telescopes.antt =====
-- A telescope, and the theorems on its handlers at concrete requests.
use esp32_idf_ascom_alpaca.Base.{
  ℕ, suc, ◌≡◌, refl, true, [], ◌∷◌, none, pos, List, get_elem?, some, ◌++◌, ◌≢◌, arith, All,
}
use esp32_idf_ascom_alpaca.Device.Telescope.{
  AlignmentMode, SideOfPier, EquatorialSystem, TrackingRate, TelescopeOps,
}
use esp32_idf_ascom_alpaca.Device.{telescope, Device, DeviceType, Kind, Double}
use esp32_idf_ascom_alpaca.Server.{Server, esp_ok}
use esp32_idf_ascom_alpaca.Base.Text.{Bytes, codes, print_ℕ}
use esp32_idf_ascom_alpaca.Double.{is_nan}
use esp32_idf_ascom_alpaca.Route.{route_uri}
use esp32_idf_ascom_alpaca.Examples.{gives, device_ops, server, observatory, platform}
use esp32_idf_ascom_alpaca.Request.{bad_enumerator, HttpdReq, bad_conversion}
use esp32_idf_ascom_alpaca.Platform.{ReadsStrings}
use esp32_idf_ascom_alpaca.Device.Names.{uri_device_type}
use esp32_idf_ascom_alpaca.Handler.Telescope.Readings.{handle_get_telescope_altitude}
use esp32_idf_ascom_alpaca.Request.Answers.{fault}
use esp32_idf_ascom_alpaca.Handler.Telescope.Contract.{AllAnsweredUnless, AllSettled, AllAnswered}
use esp32_idf_ascom_alpaca.Handler.{answer, reject}
use esp32_idf_ascom_alpaca.Routes.Uri.{served}
use esp32_idf_ascom_alpaca.Handler.Prologue.{rooted}
use esp32_idf_ascom_alpaca.Handler.Telescope.Tables.{
  telescope_reads, axis_reads, telescope_puts, number_puts, pair_puts, tested_puts, converted_puts,
}
use esp32_idf_ascom_alpaca.Handler.Args.{num_value, no_value}
use esp32_idf_ascom_alpaca.Routes.Telescope.{number_puts_route, other_puts_route, plain_route}
use esp32_idf_ascom_alpaca.Handler.Telescope.Keeps.{telescope_handlers-Settled}
use esp32_idf_ascom_alpaca.Handler.Casts.{as_telescope}

-- The altitude is never known.
abbrev mount_ops : TelescopeOps ℕ
mount_ops = record {
  get_alignmentmode = λ a. gives AlignmentMode.german_polar;
  get_altitude = λ x w. record { err = pos 0x407; out = x; world = suc w };
  get_aperturearea = λ a. gives 0;
  get_aperturediameter = λ a. gives 0;
  get_athome = λ a. gives true;
  get_atpark = λ a. gives true;
  get_azimuth = λ a. gives 0;
  get_canfindhome = λ a. gives true;
  get_canpark = λ a. gives true;
  get_canpulseguide = λ a. gives true;
  get_cansetdeclinationrate = λ a. gives true;
  get_cansetguiderates = λ a. gives true;
  get_cansetpark = λ a. gives true;
  get_cansetpierside = λ a. gives true;
  get_cansetrightascensionrate = λ a. gives true;
  get_cansettracking = λ a. gives true;
  get_canslew = λ a. gives true;
  get_canslewaltaz = λ a. gives true;
  get_canslewaltazasync = λ a. gives true;
  get_canslewasync = λ a. gives true;
  get_cansync = λ a. gives true;
  get_cansyncaltaz = λ a. gives true;
  get_canunpark = λ a. gives true;
  get_declination = λ a. gives 0;
  get_declinationrate = λ a. gives 0;
  put_declinationrate = λ x w. record { err = esp_ok; out = tt; world = x };
  get_doesrefraction = λ a. gives true;
  put_doesrefraction = λ a. gives tt;
  get_equatorialsystem = λ a. gives EquatorialSystem.j2000;
  get_focallength = λ a. gives 0;
  get_guideratedeclination = λ a. gives 0;
  put_guideratedeclination = λ a. gives tt;
  get_guideraterightascension = λ a. gives 0;
  put_guideraterightascension = λ a. gives tt;
  get_ispulseguiding = λ a. gives true;
  get_rightascension = λ a. gives 0;
  get_rightascensionrate = λ a. gives 0;
  put_rightascensionrate = λ a. gives tt;
  get_sideofpier = λ a. gives SideOfPier.west;
  put_sideofpier = λ a. gives tt;
  get_siderealtime = λ a. gives 0;
  get_siteelevation = λ a. gives 0;
  put_siteelevation = λ a. gives tt;
  get_sitelatitude = λ a. gives 0;
  put_sitelatitude = λ a. gives tt;
  get_sitelongitude = λ a. gives 0;
  put_sitelongitude = λ a. gives tt;
  get_slewing = λ a. gives true;
  get_slewsettletime = λ a. gives (pos 0);
  put_slewsettletime = λ a. gives tt;
  get_targetdeclination = λ a. gives 0;
  put_targetdeclination = λ a. gives tt;
  get_targetrightascension = λ a. gives 0;
  put_targetrightascension = λ a. gives tt;
  get_tracking = λ a. gives true;
  put_tracking = λ a. gives tt;
  get_trackingrate = λ a. gives TrackingRate.sidereal;
  put_trackingrate = λ a. gives tt;
  get_trackingrates = λ a. gives [];
  get_utcdate = λ a. gives [];
  put_utcdate = λ a. gives tt;
  put_abortslew = gives tt;
  get_axisrates = λ a b. gives [];
  get_canmoveaxis = λ a b. gives true;
  get_destinationsideofpier = λ a b c. gives SideOfPier.west;
  put_findhome = gives tt;
  put_moveaxis = λ a b. gives tt;
  put_park = gives tt;
  put_pulseguide = λ a b. gives tt;
  put_setpark = gives tt;
  put_slewtoaltazasync = λ a b. gives tt;
  put_slewtocoordinatesasync = λ a b. gives tt;
  put_slewtotargetasync = gives tt;
  put_synctoaltaz = λ a b. gives tt;
  put_synctocoordinates = λ a b. gives tt;
  put_synctotarget = gives tt;
  put_unpark = gives tt;
}

abbrev mount : Device ℕ
mount = record { number = 0; unique_id = []; ops = device_ops; kind = Kind.telescope mount_ops }

unfoldable mounts : DeviceType → List (Device ℕ)
mounts telescope = mount ∷ []
mounts _ = []

abbrev dark_site : Server ℕ
dark_site = record server { api = record observatory { devices = mounts } }

mount_there : get_elem? (dark_site.api.devices telescope) 0 ≡ some mount
unfolding mounts
mount_there = refl

-- `/api/v1/telescope/0/<endpoint>` with no parameter.
abbrev ask : Bytes → HttpdReq
ask endpoint = record {
  uri = codes "/api/v1/telescope/0/" ++ endpoint;
  query = [];
  content_len = 0;
  received = none;
  content_type = [];
}

platform-ReadsStrings : ReadsStrings platform
unfolding is_nan
platform-ReadsStrings = record { no_number = λ item. refl; no_bool = λ item. refl }

altitude_uri :
    (ask (codes "altitude")).uri ≡ route_uri (uri_device_type telescope 32) 0 (codes "altitude")
unfolding route_uri uri_device_type print_ℕ
altitude_uri = refl

mount_cast : as_telescope mount.kind ≡ some mount_ops
unfolding as_telescope
mount_cast = refl

rate_uri :
    (ask (codes "declinationrate")).uri
    ≡ route_uri (uri_device_type telescope 32) 0 (codes "declinationrate")
unfolding route_uri uri_device_type print_ℕ
rate_uri = refl

telescope_handlers-Settled_example :
    All (λ h. AllSettled (h platform) × AllAnswered (h platform)) (telescope_reads {W = ℕ})
    × All
        (λ h. AllSettled (h platform) × AllAnsweredUnless bad_enumerator (h platform))
        (axis_reads {W = ℕ})
    × All (λ h. AllSettled (h platform)) (telescope_puts {W = ℕ})
telescope_handlers-Settled_example = telescope_handlers-Settled ℕ platform

plain_route_example :
    (((mount_ops.get_altitude 0 2).err ≡ pos 0)
      → handle_get_telescope_altitude platform (ask (codes "altitude")) dark_site
        ≡ answer platform
            (served (ask (codes "altitude")) dark_site)
            num_value
            (mount_ops.get_altitude 0 2)
            (rooted dark_site))
    × (((mount_ops.get_altitude 0 2).err ≢ pos 0)
        → handle_get_telescope_altitude platform (ask (codes "altitude")) dark_site
          ≡ reject platform 400 (record (rooted dark_site) { world = 3 }))
unfolding handle_get_telescope_altitude as_telescope
plain_route_example =
    plain_route (ask (codes "altitude")) dark_site 0 mount (codes "altitude") (omega arith)
      mount_there mount_ops refl altitude_uri (omega arith) platform (λ o a. o.get_altitude 0)
      num_value

number_puts_route_example :
    All
      (λ e.
        (x : Double) × (is_nan x ≡ true)
        × (e.0 platform (ask (codes "declinationrate")) dark_site
            ≡ answer platform
                (served (ask (codes "declinationrate")) dark_site)
                no_value
                (e.1 mount_ops x 2)
                (rooted dark_site)))
      number_puts
    × All
        (λ e.
          (x : Double) × (y : Double) × (is_nan x ≡ true)
          × (is_nan y ≡ true)
          × (e.0 platform (ask (codes "declinationrate")) dark_site
              ≡ answer platform
                  (served (ask (codes "declinationrate")) dark_site)
                  no_value
                  (e.1 mount_ops x y 2)
                  (rooted dark_site)))
        pair_puts
number_puts_route_example =
    number_puts_route (ask (codes "declinationrate")) dark_site 0 mount (codes "declinationrate")
      (omega arith) mount_there mount_ops mount_cast rate_uri (omega arith) platform
      platform-ReadsStrings

other_puts_route_example :
    All
      (λ h.
        h platform (ask (codes "declinationrate")) dark_site
        ≡ reject platform 400 (rooted dark_site))
      tested_puts
    × All
        (λ h. h platform (ask (codes "declinationrate")) dark_site ≡ fault bad_conversion)
        converted_puts
other_puts_route_example =
    other_puts_route (ask (codes "declinationrate")) dark_site 0 mount (codes "declinationrate")
      (omega arith) mount_there mount_ops mount_cast rate_uri (omega arith) platform
      platform-ReadsStrings
