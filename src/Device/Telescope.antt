-- ===== src/Device/Telescope.antt =====
-- device.h: the class `Telescope`. A value of an enumeration that comes from a request is an int here,
-- since it need not be one of the enumerators; one that a driver gives is one of the enumerators.
use esp32_idf_ascom_alpaca.Base.{Bool, List, ℤ, pos, negsuc}
use esp32_idf_ascom_alpaca.Base.Text.{Bytes}
use esp32_idf_ascom_alpaca.Device.Call.{Double, Method}

pub data AlignmentMode : Type 0 where
  alt_az polar german_polar : AlignmentMode

pub data SideOfPier : Type 0 where
  east west unknown : SideOfPier

pub data EquatorialSystem : Type 0 where
  other topocentric j2000 j2050 b1950 : EquatorialSystem

pub data TrackingRate : Type 0 where
  sidereal lunar solar king : TrackingRate

-- `(int)value`
unfoldable pub alignment_mode_value : AlignmentMode → ℤ
alignment_mode_value AlignmentMode.alt_az = pos 0
alignment_mode_value AlignmentMode.polar = pos 1
alignment_mode_value AlignmentMode.german_polar = pos 2

unfoldable pub side_of_pier_value : SideOfPier → ℤ
side_of_pier_value SideOfPier.east = pos 0
side_of_pier_value SideOfPier.west = pos 1
side_of_pier_value SideOfPier.unknown = negsuc 0

unfoldable pub equatorial_system_value : EquatorialSystem → ℤ
equatorial_system_value EquatorialSystem.other = pos 0
equatorial_system_value EquatorialSystem.topocentric = pos 1
equatorial_system_value EquatorialSystem.j2000 = pos 2
equatorial_system_value EquatorialSystem.j2050 = pos 3
equatorial_system_value EquatorialSystem.b1950 = pos 4

unfoldable pub tracking_rate_value : TrackingRate → ℤ
tracking_rate_value TrackingRate.sidereal = pos 0
tracking_rate_value TrackingRate.lunar = pos 1
tracking_rate_value TrackingRate.solar = pos 2
tracking_rate_value TrackingRate.king = pos 3

pub record TelescopeOps (W : Type 0) : Type 0 where
  pub get_alignmentmode : AlignmentMode → Method W AlignmentMode
  pub get_altitude : Double → Method W Double
  pub get_aperturearea : Double → Method W Double
  pub get_aperturediameter : Double → Method W Double
  pub get_athome : Bool → Method W Bool
  pub get_atpark : Bool → Method W Bool
  pub get_azimuth : Double → Method W Double
  pub get_canfindhome : Bool → Method W Bool
  pub get_canpark : Bool → Method W Bool
  pub get_canpulseguide : Bool → Method W Bool
  pub get_cansetdeclinationrate : Bool → Method W Bool
  pub get_cansetguiderates : Bool → Method W Bool
  pub get_cansetpark : Bool → Method W Bool
  pub get_cansetpierside : Bool → Method W Bool
  pub get_cansetrightascensionrate : Bool → Method W Bool
  pub get_cansettracking : Bool → Method W Bool
  pub get_canslew : Bool → Method W Bool
  pub get_canslewaltaz : Bool → Method W Bool
  pub get_canslewaltazasync : Bool → Method W Bool
  pub get_canslewasync : Bool → Method W Bool
  pub get_cansync : Bool → Method W Bool
  pub get_cansyncaltaz : Bool → Method W Bool
  pub get_canunpark : Bool → Method W Bool
  pub get_declination : Double → Method W Double
  pub get_declinationrate : Double → Method W Double
  pub put_declinationrate : Double → Method W (Unit {0})
  pub get_doesrefraction : Bool → Method W Bool
  pub put_doesrefraction : Bool → Method W (Unit {0})
  pub get_equatorialsystem : EquatorialSystem → Method W EquatorialSystem
  pub get_focallength : Double → Method W Double
  pub get_guideratedeclination : Double → Method W Double
  pub put_guideratedeclination : Double → Method W (Unit {0})
  pub get_guideraterightascension : Double → Method W Double
  pub put_guideraterightascension : Double → Method W (Unit {0})
  pub get_ispulseguiding : Bool → Method W Bool
  pub get_rightascension : Double → Method W Double
  pub get_rightascensionrate : Double → Method W Double
  pub put_rightascensionrate : Double → Method W (Unit {0})
  pub get_sideofpier : SideOfPier → Method W SideOfPier
  pub put_sideofpier : ℤ → Method W (Unit {0})
  pub get_siderealtime : Double → Method W Double
  pub get_siteelevation : Double → Method W Double
  pub put_siteelevation : Double → Method W (Unit {0})
  pub get_sitelatitude : Double → Method W Double
  pub put_sitelatitude : Double → Method W (Unit {0})
  pub get_sitelongitude : Double → Method W Double
  pub put_sitelongitude : Double → Method W (Unit {0})
  pub get_slewing : Bool → Method W Bool
  pub get_slewsettletime : ℤ → Method W ℤ
  pub put_slewsettletime : ℤ → Method W (Unit {0})
  pub get_targetdeclination : Double → Method W Double
  pub put_targetdeclination : Double → Method W (Unit {0})
  pub get_targetrightascension : Double → Method W Double
  pub put_targetrightascension : Double → Method W (Unit {0})
  pub get_tracking : Bool → Method W Bool
  pub put_tracking : Bool → Method W (Unit {0})
  pub get_trackingrate : TrackingRate → Method W TrackingRate
  pub put_trackingrate : ℤ → Method W (Unit {0})
  pub get_trackingrates : List TrackingRate → Method W (List TrackingRate)
  pub get_utcdate : Bytes → Method W Bytes
  pub put_utcdate : Bytes → Method W (Unit {0})
  pub put_abortslew : Method W (Unit {0})
  pub get_axisrates : ℤ → List (Double × Double) → Method W (List (Double × Double))
  pub get_canmoveaxis : ℤ → Bool → Method W Bool
  pub get_destinationsideofpier : Double → Double → SideOfPier → Method W SideOfPier
  pub put_findhome : Method W (Unit {0})
  pub put_moveaxis : ℤ → Double → Method W (Unit {0})
  pub put_park : Method W (Unit {0})
  pub put_pulseguide : ℤ → ℤ → Method W (Unit {0})
  pub put_setpark : Method W (Unit {0})
  pub put_slewtoaltazasync : Double → Double → Method W (Unit {0})
  pub put_slewtocoordinatesasync : Double → Double → Method W (Unit {0})
  pub put_slewtotargetasync : Method W (Unit {0})
  pub put_synctoaltaz : Double → Double → Method W (Unit {0})
  pub put_synctocoordinates : Double → Double → Method W (Unit {0})
  pub put_synctotarget : Method W (Unit {0})
  pub put_unpark : Method W (Unit {0})
