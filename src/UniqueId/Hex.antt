-- ===== src/UniqueId/Hex.antt =====
-- The hexadecimal digits of a digest.
use esp32_idf_ascom_alpaca.Base.{ℕ, ◌*◌, ◌/◌, ◌%◌, ◌<◌, ◌≡◌, refl, [], ◌∷◌, arith, length, All}
use esp32_idf_ascom_alpaca.UniqueId.{hex_digit, hex}
use esp32_idf_ascom_alpaca.Base.Text.{Bytes}
use mathlib.Core.Path.{ap₂}

hex_digit-injective : (a b : ℕ) → a < 16 → b < 16 → hex_digit a ≡ hex_digit b → a ≡ b
unfolding hex_digit
hex_digit-injective a b h k e = ground arith

-- Every byte is below 256.
abbrev pub AreBytes : Bytes → Type 0
AreBytes = All (λ b. b < 256)

-- The text of a digest has two digits for each byte.
pub length-hex : (bs : Bytes) → length (hex bs) ≡ 2 * length bs
unfolding hex
length-hex [] = refl
length-hex (b ∷ bs) = omega (arith, length-hex bs)

-- Two digests, lists of bytes below 256, with the same hexadecimal text are equal.
pub hex-injective : (xs bs : Bytes) → AreBytes xs → AreBytes bs → hex xs ≡ hex bs → xs ≡ bs
unfolding hex
hex-injective [] [] h k e = refl
hex-injective [] (b ∷ bs) h k e = cc
hex-injective (a ∷ xs) [] h k e = cc
hex-injective (a ∷ xs) (b ∷ bs) (h, hs) (k, ks) e =
    let high : hex_digit (a / 16) ≡ hex_digit (b / 16) = cc in
    let low : hex_digit (a % 16) ≡ hex_digit (b % 16) = cc in
    let rest : hex xs ≡ hex bs = cc in
    ap₂ (λ (c : ℕ) (cs : Bytes). c ∷ cs)
      (omega (
        arith,
        hex_digit-injective (a / 16) (b / 16) (omega arith) (omega arith) high,
        hex_digit-injective (a % 16) (b % 16) (omega arith) (omega arith) low,
      ))
      (hex-injective xs bs hs ks rest)
