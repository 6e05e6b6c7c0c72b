-- ===== src/Device/Call.antt =====
-- How the virtual methods of a device are called.
use esp32_idf_ascom_alpaca.Base.{ℕ, ℤ}

-- The bit pattern of a `double`.
abbrev pub Double : Type 0
Double = ℕ

-- What a call gives.
pub record Called (W A : Type 0) : Type 0 where
  pub err : ℤ
  pub out : A
  pub world : W

abbrev pub Method : Type 0 → Type 0 → Type 0
Method W A = W → Called W A
