-- ===== src/Handler/Numbers.antt =====
-- Which texts the handlers accept as an integer parameter.
use esp32_idf_ascom_alpaca.Base.{
  ℕ, zero, suc, ◌^◌, ◌≡◌, refl, ap, ◌∙◌, ◌↔◌, inl, inr, Bool, true, false, some, [], ◌∷◌,
  append-nil, arith, ltb, ◌==◌, Bool-cases, ℤ, IsInt32, tests,
}
use esp32_idf_ascom_alpaca.Base.Text.{
  clamp_long, strtol_digits, strtol_sign, strtol, Bytes, itoa, is_digit, skip_space, str_eq, atoi,
}
use esp32_idf_ascom_alpaca.Handler.Args.{read_int, read_canonical}
use esp32_idf_ascom_alpaca.Base.Text.Decimal.{strtol-itoa, atoi-itoa}
use mathlib.Core.Option.{some-injective, none-ne-some}
use esp32_idf_ascom_alpaca.Base.Text.Laws.{str_eq_sound, str_eq_refl}

clamp_long-IsInt32 : (minus : Bool) (n : ℕ) → IsInt32 (clamp_long minus n)
unfolding clamp_long
clamp_long-IsInt32 false n = elim (Bool-cases (ltb n (2 ^ 31))) [
  | inl e ↦ rw e (omega (tests, e))
  | inr e ↦ rw e (omega arith)
]
clamp_long-IsInt32 true zero = omega arith
clamp_long-IsInt32 true (suc n) = elim (Bool-cases (ltb n (2 ^ 31))) [
  | inl e ↦ rw e (omega (tests, e))
  | inr e ↦ rw e (omega arith)
]

strtol_digits-IsInt32 :
    (whole : Bytes) (minus : Bool) (s : Bytes) → IsInt32 (strtol_digits whole minus s).0
unfolding strtol_digits
strtol_digits-IsInt32 whole minus [] = omega arith
strtol_digits-IsInt32 whole minus (c ∷ s) = elim (Bool-cases (is_digit c)) [
  | inl e ↦ rw e (clamp_long-IsInt32 minus _)
  | inr e ↦ rw e (omega arith)
]

strtol_sign-IsInt32 : (whole s : Bytes) → IsInt32 (strtol_sign whole s).0
unfolding strtol_sign
strtol_sign-IsInt32 whole [] = omega arith
strtol_sign-IsInt32 whole (c ∷ s) = elim (Bool-cases (c == b'-')) [
  | inl e ↦ rw e (strtol_digits-IsInt32 whole true s)
  | inr e ↦ elim (Bool-cases (c == b'+')) [
    | inl e' ↦ rw (e, e') (strtol_digits-IsInt32 whole false s)
    | inr e' ↦ rw (e, e') (strtol_digits-IsInt32 whole false (c ∷ s))
  ]
]

-- What `strtol` converts fits an `int32_t`, for every text.
pub strtol-IsInt32 : (s : Bytes) → IsInt32 (strtol s).0
unfolding strtol
strtol-IsInt32 s = strtol_sign-IsInt32 s (skip_space s)

-- The decimal text of an `int32_t` is accepted by the `strtol` check of the handlers as that
-- number.
pub read_int-itoa : (v : ℤ) → IsInt32 v → read_int (itoa v) ≡ some v
unfolding read_int
read_int-itoa v fits =
    let e : strtol (itoa v) ≡ (v, []) = rw (append-nil (itoa v)) at (strtol-itoa v [] fits tt) in
    rw e (unfold str_eq in refl)

-- The brightness of a calibrator is accepted exactly if it is the decimal text, without spaces, plus
-- sign or leading zeros, of an `int32_t`, and then as that number.
pub read_canonical_iff :
    (s : Bytes) (v : ℤ) → (read_canonical s ≡ some v) ↔ (IsInt32 v × (s ≡ itoa v))
unfolding read_canonical
read_canonical_iff s v = (
  λ h. elim (Bool-cases (str_eq s (itoa (atoi s)))) [
    | inl e ↦
        let same : atoi s ≡ v = some-injective _ _ (rw e at h) in
        (
          rw (← same) (unfold atoi in strtol-IsInt32 s),
          str_eq_sound s (itoa (atoi s)) e ∙ ap itoa same,
        )
    | inr e ↦ absurd (none-ne-some v (rw e at h))
  ],
  λ (fits, e). rw e (rw (atoi-itoa v fits) (rw (str_eq_refl (itoa v)))),
)
