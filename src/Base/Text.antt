-- ===== src/Base/Text.antt =====
-- C strings as lists of bytes without the closing NUL, and the functions of <string.h>,
-- <strings.h> and <stdlib.h> that the program calls.
pub mod Laws
pub mod Decimal
use Prim.Native.Char.{code}
use Prim.Native.String.{String}
use mathlib.Core.Logic.{dite}
use mathlib.Core.WellFounded.{Acc}
use esp32_idf_ascom_alpaca.Base.{
  ℕ, zero, suc, ◌+◌, ◌-◌, ◌*◌, ◌/◌, ◌%◌, ◌^◌, ◌<◌, ◌≡◌, refl, Bool, true, false, ◌&&◌, ◌||◌, Option,
  none, some, List, [], ◌∷◌, arith, ltb, leb, ◌==◌, if◌then◌else◌, take, ℤ, pos, negsuc, lt_wf,
  dec_lt,
}

abbrev pub Bytes : Type 0
Bytes = List ℕ

-- The bytes of an ASCII literal.
abbrev pub codes : String → Bytes
codes String.[] = []
codes (String.◌∷◌ c s) = code c ∷ codes s

-- The C string that starts a buffer: what stands before the first NUL.
unfoldable pub c_str : Bytes → Bytes
c_str [] = []
c_str (c ∷ s) = if c == 0 then [] else c ∷ c_str s

-- `strcmp(a, b) == 0`
unfoldable pub str_eq : Bytes → Bytes → Bool
str_eq [] [] = true
str_eq (a ∷ s) (b ∷ t) = a == b && str_eq s t
str_eq _ _ = false

abbrev pub lower : ℕ → ℕ
lower c = if leb b'A' c && leb c b'Z' then c + 32 else c

-- `strcasecmp(a, b) == 0`
unfoldable pub str_case_eq : Bytes → Bytes → Bool
str_case_eq [] [] = true
str_case_eq (a ∷ s) (b ∷ t) = lower a == lower b && str_case_eq s t
str_case_eq _ _ = false

-- `strstr(s, c)` for a needle of one byte: what stands before it and what stands behind it.
unfoldable pub split_at : ℕ → Bytes → Option (Bytes × Bytes)
split_at c [] = none
split_at c (d ∷ s) =
    if d == c
    then some ([], s)
    else (elim (split_at c s) [ none ↦ none | some (before, behind) ↦ some (d ∷ before, behind) ])

-- What stands behind a literal prefix of a format string.
unfoldable pub skip_prefix : Bytes → Bytes → Option Bytes
skip_prefix [] s = some s
skip_prefix (p ∷ ps) [] = none
skip_prefix (p ∷ ps) (c ∷ s) = if p == c then skip_prefix ps s else none

abbrev pub is_digit : ℕ → Bool
is_digit c = leb b'0' c && leb c b'9'

-- `isspace` in the C locale.
abbrev pub is_space : ℕ → Bool
is_space c = c == 32 || (leb 9 c && leb c 13)

unfoldable pub skip_space : Bytes → Bytes
skip_space [] = []
skip_space (c ∷ s) = let rest = skip_space s in if is_space c then rest else c ∷ s

-- The number that the leading digits spell behind `n`, and what stands behind them.
unfoldable pub scan_digits : ℕ → Bytes → ℕ × Bytes
scan_digits n [] = (n, [])
scan_digits n (c ∷ s) =
    let rest = scan_digits (n * 10 + (c - b'0')) s in if is_digit c then rest else (n, c ∷ s)

-- A magnitude with its sign, kept within a 32-bit `long` as `strtol` keeps it.
unfoldable pub clamp_long : Bool → ℕ → ℤ
clamp_long false n = if ltb n (2 ^ 31) then pos n else pos (2 ^ 31 - 1)
clamp_long true zero = pos 0
clamp_long true (suc n) = if ltb n (2 ^ 31) then negsuc n else negsuc (2 ^ 31 - 1)

-- `strtol` behind the sign: with no digit nothing is converted, and the end is the start.
unfoldable pub strtol_digits : Bytes → Bool → Bytes → ℤ × Bytes
unfolding scan_digits clamp_long
strtol_digits whole minus [] = (pos 0, whole)
strtol_digits whole minus (c ∷ s) =
    if is_digit c
    then (let (n, rest) = scan_digits 0 (c ∷ s) in (clamp_long minus n, rest))
    else (pos 0, whole)

unfoldable pub strtol_sign : Bytes → Bytes → ℤ × Bytes
unfolding strtol_digits
strtol_sign whole [] = (pos 0, whole)
strtol_sign whole (c ∷ s) =
    if c == b'-'
    then strtol_digits whole true s
    else if c == b'+'
    then strtol_digits whole false s
    else strtol_digits whole false (c ∷ s)

-- `strtol(s, &end, 10)`: the value, and the bytes from `end` on.
unfoldable pub strtol : Bytes → ℤ × Bytes
unfolding strtol_sign skip_space
strtol s = strtol_sign s (skip_space s)

-- `atoi(s)`, which is `(int)strtol(s, NULL, 10)` on this platform.
unfoldable pub atoi : Bytes → ℤ
unfolding strtol
atoi s = (strtol s).0

digits_acc : (n : ℕ) → Bytes → Acc ◌<◌ n → Bytes
digits_acc n behind (Acc.intro _ below) =
    dite (dec_lt 0 n)
      (λ some_left. digits_acc (n / 10) ((b'0' + n % 10) ∷ behind) (below (n / 10) (omega arith)))
      (λ none_left. behind)

-- The decimal digits of a positive number in front of `out`.
unfoldable pub digits : ℕ → Bytes → Bytes
unfolding digits_acc lt_wf dec_lt
digits n out = digits_acc n out (lt_wf.apply n)

-- `%d` and `%u` of a number that is not negative.
unfoldable pub print_ℕ : ℕ → Bytes
unfolding digits
print_ℕ n = if n == 0 then b'0' ∷ [] else digits n []

-- `itoa(n, buf, 10)` and `%d`.
unfoldable pub itoa : ℤ → Bytes
unfolding print_ℕ
itoa (pos n) = print_ℕ n
itoa (negsuc n) = b'-' ∷ print_ℕ (suc n)

-- `strncpy(buf, s, len)`: what it writes, without the NULs that fill up the rest.
unfoldable pub strncpy : Bytes → ℕ → Bytes
strncpy s len = take len s

strtol_tests :
    (strtol (codes " -12x") ≡ (negsuc 11, codes "x"))
    × (strtol (codes "-") ≡ (pos 0, codes "-"))
    × (atoi (codes "99999999999") ≡ pos 2147483647)
    × (itoa (negsuc 119) ≡ codes "-120")
unfolding strtol atoi itoa
strtol_tests = (refl, refl, refl, refl)
