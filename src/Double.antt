-- ===== src/Double.antt =====
-- The operators that the code applies to a `double`, on the bit pattern of its 64 bits: one sign
-- bit, 11 of the exponent and 52 of the fraction.
use esp32_idf_ascom_alpaca.Base.{
  ℕ, zero, suc, ◌+◌, ◌-◌, ◌/◌, ◌%◌, ◌^◌, ◌≡◌, refl, Bool, true, false, ◌&&◌, ◌||◌, not, Option,
  none, some, ltb, leb, ◌==◌, if◌then◌else◌, ℤ, pos, negsuc, Bool-cases, inl, inr, arith,
}
use esp32_idf_ascom_alpaca.Device.{Double}

abbrev pub sign_bit : Double → Bool
sign_bit x = x / 2 ^ 63 % 2 == 1

abbrev pub exponent : Double → ℕ
exponent x = x / 2 ^ 52 % 2 ^ 11

abbrev pub fraction : Double → ℕ
fraction x = x % 2 ^ 52

-- The pattern without its sign; its order is that of the absolute values.
abbrev pub magnitude : Double → ℕ
magnitude x = x % 2 ^ 63

unfoldable pub is_nan : Double → Bool
is_nan x = exponent x == 2047 && not (fraction x == 0)

-- The macro `NAN` as a `double`.
abbrev pub nan : Double
nan = 0x7ff8000000000000

-- `a != b`: a NaN differs from every number, and the two zeros are equal.
unfoldable pub double_ne : Double → Double → Bool
unfolding is_nan
double_ne a b =
    is_nan a || (is_nan b || not (a % 2 ^ 64 == b % 2 ^ 64 || magnitude a == 0 && magnitude b == 0))

-- `a <= b`
unfoldable pub double_le : Double → Double → Bool
unfolding is_nan
double_le a b =
    if is_nan a || is_nan b
    then false
    else if sign_bit a
    then (if sign_bit b then leb (magnitude b) (magnitude a) else true)
    else if sign_bit b
    then magnitude a == 0 && magnitude b == 0
    else leb (magnitude a) (magnitude b)

-- A magnitude with its sign as an `int32_t`, if it is one.
unfoldable pub fit_int32 : Bool → ℕ → Option ℤ
fit_int32 false n = if ltb n (2 ^ 31) then some (pos n) else none
fit_int32 true zero = some (pos 0)
fit_int32 true (suc n) = if ltb n (2 ^ 31) then some (negsuc n) else none

-- The integer part of the absolute value of a number below 2^32.
unfoldable pub truncate : Double → ℕ
truncate x = if ltb (exponent x) 1023 then 0 else (2 ^ 52 + fraction x) / 2 ^ (1075 - exponent x)

-- `(int32_t)x`. With none the behaviour is undefined: the integer part does not fit.
unfoldable pub to_int32 : Double → Option ℤ
unfolding fit_int32 truncate
to_int32 x = if ltb 1054 (exponent x) then none else fit_int32 (sign_bit x) (truncate x)

double_tests :
    (double_ne 0 (2 ^ 63) ≡ false)
    × (double_le 0x4008000000000000 0x4008000000000000 ≡ true)
    × (to_int32 0xC004000000000000 ≡ some (negsuc 1))
    × (to_int32 0xC1E0000000000000 ≡ some (negsuc (2 ^ 31 - 1)))
    × (to_int32 0x41E0000000000000 ≡ none)
unfolding double_ne double_le to_int32
double_tests = (refl, refl, refl, refl, refl)

-- A NaN differs from everything, itself too.
pub double_ne_nan : (a b : Double) → is_nan b ≡ true → double_ne a b ≡ true
unfolding double_ne
double_ne_nan a b h = elim (Bool-cases (is_nan a)) [ inl e ↦ rw e | inr e ↦ rw (e, h) ]

pub double_le_nan : (a b : Double) → is_nan b ≡ true → double_le a b ≡ false
unfolding double_le
double_le_nan a b h = elim (Bool-cases (is_nan a)) [ inl e ↦ rw e | inr e ↦ rw (e, h) ]

pub to_int32_nan : (a : Double) → is_nan a ≡ true → to_int32 a ≡ none
unfolding to_int32 is_nan
to_int32_nan a h = let e : exponent a ≡ 2047 = ground arith in rw e
