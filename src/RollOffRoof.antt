-- ===== src/RollOffRoof.antt =====
-- examples/roll_off_roof.cpp: the driver of the example program, a dome.
--
-- Its methods take a `float *` or a `float` where the class `Dome` of device.h has a `double`. Here they
-- stand for the methods of `Dome` all the same, with the numbers as that class has them. `W` is the
-- object itself.
pub mod Session
use esp32_idf_ascom_alpaca.Base.{ℕ, Bool, true, false, [], ◌==◌, pos, none, some}
use esp32_idf_ascom_alpaca.Device.{
  ShutterState, Double, Method, Called, DomeOps, DeviceOps, Device, Kind,
}
use esp32_idf_ascom_alpaca.Base.Text.{strncpy, Bytes, codes}
use esp32_idf_ascom_alpaca.Server.Errors.{not_implemented, action_not_implemented}

pub record RollOffRoof : Type 0 where
  pub connected : Bool
  pub azimuth_centi_degrees : ℕ
  pub shutterstatus : ShutterState

-- The conversions between the azimuth in hundredths of a degree, a `uint32_t`, and in degrees.
pub record AzimuthUnits : Type 0 where
  -- `n / 100.0`
  pub of_centi_degrees : ℕ → Double
  -- `x * 100`, stored into a `uint32_t`
  pub to_centi_degrees : Double → ℕ

-- The constructor leaves two members as they are in memory.
unfoldable pub new_roof : ℕ → ShutterState → RollOffRoof
new_roof azimuth shutter = record {
  connected = false;
  azimuth_centi_degrees = azimuth;
  shutterstatus = shutter;
}

-- A method that returns `ALPACA_OK` and writes its out-parameter, or has none.
abbrev pub returns : {A : Type 0} → A → Method RollOffRoof A
returns a roof = record { err = pos 0; out = a; world = roof }

-- A method that changes the object.
abbrev pub becomes : RollOffRoof → Called RollOffRoof (Unit {0})
becomes roof = record { err = pos 0; out = tt; world = roof }

-- A method that returns an error and leaves its out-parameter as it was.
abbrev pub fails : {A : Type 0} → ℕ → A → Method RollOffRoof A
fails code before roof = record { err = pos code; out = before; world = roof }

unfoldable pub roof_ops : DeviceOps RollOffRoof
unfolding strncpy
roof_ops = record {
  action = λ action parameters len. fails action_not_implemented none;
  commandblind = λ command raw. fails action_not_implemented tt;
  commandbool = λ command raw before. fails action_not_implemented before;
  commandstring = λ command raw len. fails action_not_implemented none;
  get_connected = λ before roof. returns roof.connected roof;
  set_connected = λ value roof. becomes (record roof { connected = value });
  get_description = λ len. returns (some (strncpy (codes "RollOffRoof Dome Controller") len));
  get_driverinfo = λ len. returns (some (strncpy (codes "Dark Dragons Astronomy LLC") len));
  get_driverversion = λ len. returns (some (strncpy (codes "1.0.0") len));
  get_interfaceversion = λ before. returns 2;
  get_name = λ len. returns (strncpy (codes "My Roof") len);
  get_supportedactions = λ before. returns [];
}

unfoldable pub roof_dome_ops : AzimuthUnits → DomeOps RollOffRoof
roof_dome_ops units = record {
  get_altitude = λ before. fails not_implemented before;
  get_athome = λ before roof. returns (roof.azimuth_centi_degrees == 0) roof;
  get_atpark = λ before. fails not_implemented before;
  get_azimuth = λ before roof. returns (units.of_centi_degrees roof.azimuth_centi_degrees) roof;
  get_canfindhome = λ before. returns true;
  get_canpark = λ before. returns false;
  get_cansetaltitude = λ before. returns false;
  get_cansetazimuth = λ before. returns true;
  get_cansetpark = λ before. returns false;
  get_cansetshutter = λ before. returns true;
  get_canslave = λ before. returns false;
  get_cansyncazimuth = λ before. returns true;
  get_shutterstatus = λ roof. returns (some roof.shutterstatus) roof;
  get_slaved = λ before. fails not_implemented before;
  put_slaved = λ value. fails not_implemented tt;
  get_slewing = λ before. returns false;
  put_abortslew = returns tt;
  put_closeshutter = λ roof. becomes (record roof { shutterstatus = ShutterState.closed });
  put_findhome = λ roof. becomes (record roof { azimuth_centi_degrees = 0 });
  put_openshutter = λ roof. becomes (record roof { shutterstatus = ShutterState.opened });
  put_park = fails not_implemented tt;
  put_setpark = fails action_not_implemented tt;
  put_slewtoaltitude = λ altitude. fails action_not_implemented tt;
  put_slewtoazimuth = λ azimuth roof.
      becomes (record roof { azimuth_centi_degrees = units.to_centi_degrees azimuth });
  put_synctoazimuth = λ azimuth roof.
      becomes (record roof { azimuth_centi_degrees = units.to_centi_degrees azimuth });
}

-- The device object, with the members of `Device`, which nothing has written yet.
unfoldable pub roof_device : AzimuthUnits → ℕ → Bytes → Device RollOffRoof
roof_device units number unique_id = record {
  number = number;
  unique_id = unique_id;
  ops = roof_ops;
  kind = Kind.dome (roof_dome_ops units);
}
