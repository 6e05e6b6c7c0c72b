-- ===== src/Device.antt =====
-- device.h: the device types, the virtual methods of each class, and device objects.
--
-- A driver is a class that implements the virtual methods. What its methods do is not in the
-- library, so a device object holds them as functions over a state `W` of all drivers together. A
-- method takes the value that its out-parameter holds before the call (or the size of the buffer
-- that it fills) and returns its error code, the out-parameter and the new state. A variable or a
-- buffer that the library leaves uninitialised is none unless the method writes it;
-- `get_name`, whose error two callers ignore, is taken to write its buffer always. A `double` is the
-- bit pattern of its 64 bits; the text that a buffer holds is taken up to its NUL.
mod Call
pub use Call.*
pub mod Telescope
pub mod Names
use Telescope.{TelescopeOps}
use esp32_idf_ascom_alpaca.Base.{ℕ, Bool, List, ◌==◌, ℤ, Option}
use esp32_idf_ascom_alpaca.Base.Text.{Bytes}

pub data DeviceType : Type 0 where
  unknown camera cover_calibrator dome filter_wheel : DeviceType
  focuser observing_conditions rotator safety_monitor switch telescope : DeviceType

-- The value of the enumerator.
unfoldable pub type_index : DeviceType → ℕ
type_index unknown = 0
type_index camera = 1
type_index cover_calibrator = 2
type_index dome = 3
type_index filter_wheel = 4
type_index focuser = 5
type_index observing_conditions = 6
type_index rotator = 7
type_index safety_monitor = 8
type_index switch = 9
type_index telescope = 10

abbrev pub type_eq : DeviceType → DeviceType → Bool
unfolding type_index
type_eq a b = type_index a == type_index b

pub data CoverState : Type 0 where
  not_present closed moving opened unknown error : CoverState

pub data CalibratorState : Type 0 where
  not_present off not_ready ready unknown error : CalibratorState

pub data ShutterState : Type 0 where
  opened closed opening closing error : ShutterState

-- `(int)state`
unfoldable pub cover_state_value : CoverState → ℕ
cover_state_value CoverState.not_present = 0
cover_state_value CoverState.closed = 1
cover_state_value CoverState.moving = 2
cover_state_value CoverState.opened = 3
cover_state_value CoverState.unknown = 4
cover_state_value CoverState.error = 5

unfoldable pub calibrator_state_value : CalibratorState → ℕ
calibrator_state_value CalibratorState.not_present = 0
calibrator_state_value CalibratorState.off = 1
calibrator_state_value CalibratorState.not_ready = 2
calibrator_state_value CalibratorState.ready = 3
calibrator_state_value CalibratorState.unknown = 4
calibrator_state_value CalibratorState.error = 5

unfoldable pub shutter_state_value : ShutterState → ℕ
shutter_state_value ShutterState.opened = 0
shutter_state_value ShutterState.closed = 1
shutter_state_value ShutterState.opening = 2
shutter_state_value ShutterState.closing = 3
shutter_state_value ShutterState.error = 4

pub record DeviceOps (W : Type 0) : Type 0 where
  pub action : Bytes → Bytes → ℕ → Method W (Option Bytes)
  pub commandblind : Bytes → Bool → Method W (Unit {0})
  pub commandbool : Bytes → Bool → Bool → Method W Bool
  pub commandstring : Bytes → Bool → ℕ → Method W (Option Bytes)
  pub get_connected : Bool → Method W Bool
  pub set_connected : Bool → Method W (Unit {0})
  pub get_description : ℕ → Method W (Option Bytes)
  pub get_driverinfo : ℕ → Method W (Option Bytes)
  pub get_driverversion : ℕ → Method W (Option Bytes)
  pub get_interfaceversion : ℕ → Method W ℕ
  pub get_name : ℕ → Method W Bytes
  pub get_supportedactions : List Bytes → Method W (List Bytes)

pub record CoverCalibratorOps (W : Type 0) : Type 0 where
  pub get_brightness : ℕ → Method W ℕ
  pub get_calibratorstate : CalibratorState → Method W CalibratorState
  pub get_coverstate : CoverState → Method W CoverState
  pub get_maxbrightness : ℕ → Method W ℕ
  pub turn_calibratoroff : Method W (Unit {0})
  pub turn_calibratoron : ℤ → Method W (Unit {0})
  pub closecover : Method W (Unit {0})
  pub opencover : Method W (Unit {0})
  pub haltcover : Method W (Unit {0})

pub record DomeOps (W : Type 0) : Type 0 where
  pub get_altitude : Double → Method W Double
  pub get_athome : Bool → Method W Bool
  pub get_atpark : Bool → Method W Bool
  pub get_azimuth : Double → Method W Double
  pub get_canfindhome : Bool → Method W Bool
  pub get_canpark : Bool → Method W Bool
  pub get_cansetaltitude : Bool → Method W Bool
  pub get_cansetazimuth : Bool → Method W Bool
  pub get_cansetpark : Bool → Method W Bool
  pub get_cansetshutter : Bool → Method W Bool
  pub get_canslave : Bool → Method W Bool
  pub get_cansyncazimuth : Bool → Method W Bool
  pub get_shutterstatus : Method W (Option ShutterState)
  pub get_slaved : Bool → Method W Bool
  pub put_slaved : Bool → Method W (Unit {0})
  pub get_slewing : Bool → Method W Bool
  pub put_abortslew : Method W (Unit {0})
  pub put_closeshutter : Method W (Unit {0})
  pub put_findhome : Method W (Unit {0})
  pub put_openshutter : Method W (Unit {0})
  pub put_park : Method W (Unit {0})
  pub put_setpark : Method W (Unit {0})
  pub put_slewtoaltitude : Double → Method W (Unit {0})
  pub put_slewtoazimuth : Double → Method W (Unit {0})
  pub put_synctoazimuth : Double → Method W (Unit {0})

pub record FilterWheelOps (W : Type 0) : Type 0 where
  pub get_focusoffsets : List ℤ → Method W (List ℤ)
  pub get_names : List Bytes → Method W (List Bytes)
  pub get_position : ℤ → Method W ℤ
  pub put_position : ℤ → Method W (Unit {0})

pub record FocuserOps (W : Type 0) : Type 0 where
  pub get_absolute : Bool → Method W Bool
  pub get_ismoving : Bool → Method W Bool
  pub get_maxincrement : ℤ → Method W ℤ
  pub get_maxstep : ℤ → Method W ℤ
  pub get_position : ℤ → Method W ℤ
  pub get_stepsize : ℤ → Method W ℤ
  pub get_tempcomp : Bool → Method W Bool
  pub put_tempcomp : Bool → Method W (Unit {0})
  pub get_tempcompavailable : Bool → Method W Bool
  pub get_temperature : Double → Method W Double
  pub put_halt : Method W (Unit {0})
  pub put_move : ℤ → Method W (Unit {0})

pub record ObservingConditionsOps (W : Type 0) : Type 0 where
  pub get_averageperiod : Double → Method W Double
  pub put_averageperiod : Double → Method W (Unit {0})
  pub get_cloudcover : Double → Method W Double
  pub get_dewpoint : Double → Method W Double
  pub get_humidity : Double → Method W Double
  pub get_pressure : Double → Method W Double
  pub get_rainrate : Double → Method W Double
  pub get_skybrightness : Double → Method W Double
  pub get_skyquality : Double → Method W Double
  pub get_skytemperature : Double → Method W Double
  pub get_starfwhm : Double → Method W Double
  pub get_temperature : Double → Method W Double
  pub get_winddirection : Double → Method W Double
  pub get_windgust : Double → Method W Double
  pub get_windspeed : Double → Method W Double
  pub put_refresh : Method W (Unit {0})
  pub get_sensordescription : Bytes → ℕ → Method W (Option Bytes)
  pub get_timesincelastupdate : Double → Method W Double

pub record RotatorOps (W : Type 0) : Type 0 where
  pub get_canreverse : Bool → Method W Bool
  pub get_ismoving : Bool → Method W Bool
  pub get_mechanicalposition : Double → Method W Double
  pub get_position : Double → Method W Double
  pub get_reverse : Bool → Method W Bool
  pub put_reverse : Bool → Method W (Unit {0})
  pub get_stepsize : Double → Method W Double
  pub get_targetposition : Double → Method W Double
  pub put_halt : Method W (Unit {0})
  pub put_move : Double → Method W (Unit {0})
  pub put_moveabsolute : Double → Method W (Unit {0})
  pub put_movemechanical : Double → Method W (Unit {0})
  pub put_sync : Double → Method W (Unit {0})

pub record SafetyMonitorOps (W : Type 0) : Type 0 where
  pub get_issafe : Bool → Method W Bool

pub record SwitchOps (W : Type 0) : Type 0 where
  pub get_maxswitch : ℤ → Method W ℤ
  pub get_canwrite : ℤ → Bool → Method W Bool
  pub get_getswitch : ℤ → Bool → Method W Bool
  pub get_getswitchdescription : ℤ → ℕ → Method W (Option Bytes)
  pub get_getswitchname : ℤ → ℕ → Method W (Option Bytes)
  pub get_getswitchvalue : ℤ → Double → Method W Double
  pub get_minswitchvalue : ℤ → Double → Method W Double
  pub get_maxswitchvalue : ℤ → Double → Method W Double
  pub put_setswitch : ℤ → Bool → Method W (Unit {0})
  pub put_setswitchname : ℤ → Bytes → Method W (Unit {0})
  pub put_setswitchvalue : ℤ → Double → Method W (Unit {0})
  pub get_switchstep : ℤ → Double → Method W Double

-- The class of a device with its own methods. `Camera` declares none.
pub data Kind (W : Type 0) : Type 0 where
  camera : Kind W
  cover_calibrator : CoverCalibratorOps W → Kind W
  dome : DomeOps W → Kind W
  filter_wheel : FilterWheelOps W → Kind W
  focuser : FocuserOps W → Kind W
  observing_conditions : ObservingConditionsOps W → Kind W
  rotator : RotatorOps W → Kind W
  safety_monitor : SafetyMonitorOps W → Kind W
  switch : SwitchOps W → Kind W
  telescope : TelescopeOps W → Kind W

pub record Device (W : Type 0) : Type 0 where
  pub number : ℕ
  pub unique_id : Bytes
  pub ops : DeviceOps W
  pub kind : Kind W

unfoldable pub kind_type : {W : Type 0} → Kind W → DeviceType
kind_type Kind.camera = camera
kind_type (Kind.cover_calibrator o) = cover_calibrator
kind_type (Kind.dome o) = dome
kind_type (Kind.filter_wheel o) = filter_wheel
kind_type (Kind.focuser o) = focuser
kind_type (Kind.observing_conditions o) = observing_conditions
kind_type (Kind.rotator o) = rotator
kind_type (Kind.safety_monitor o) = safety_monitor
kind_type (Kind.switch o) = switch
kind_type (Kind.telescope o) = telescope

-- The virtual method `device_type`, which each class overrides.
unfoldable pub device_type : {W : Type 0} → Device W → DeviceType
unfolding kind_type
device_type d = kind_type d.kind
