-- ===== src/Base/Text/Decimal.antt =====
-- Decimal numbers: what `strtol` reads back of what `itoa` and `%d` print.
use mathlib.Core.Logic.{ite, dite, if_pos, if_neg}
use mathlib.Core.Path.{fun_ext}
use mathlib.Core.WellFounded
use mathlib.Core.WellFounded.{Acc, Acc-prop}
use esp32_idf_ascom_alpaca.Base.{
  ℕ, zero, suc, ◌+◌, ◌/◌, ◌%◌, ◌≤◌, ◌<◌, ◌≡◌, refl, sym, ap, ◌∙◌, Bool, true, false, [], ◌∷◌, ◌++◌,
  append-nil, arith, ℤ, pos, negsuc, IsInt32, lt_wf, dec_lt, ◌*◌,
}
use esp32_idf_ascom_alpaca.Base.Text.{
  Bytes, is_digit, skip_space, scan_digits, clamp_long, strtol_digits, strtol_sign, strtol, atoi,
  digits_acc, digits, print_ℕ, itoa,
}

-- The next byte, if there is one, is no digit.
abbrev pub EndsNumber : Bytes → Type 0
EndsNumber [] = Unit
EndsNumber (c ∷ s) = is_digit c ≡ false

-- Whichever proof of accessibility the loop runs on, a round takes the last digit off.
digits_acc_step :
    (behind : Bytes) (n : ℕ) (here : Acc ◌<◌ n) (later : Acc ◌<◌ (n / 10))
    → digits_acc n behind here
      ≡ ite (dec_lt 0 n) (digits_acc (n / 10) ((b'0' + n % 10) ∷ behind) later) behind
unfolding digits_acc
digits_acc_step behind n (Acc.intro _ below) later =
    let last : ℕ = b'0' + n % 10 in
    ap
      (λ (ways : (0 < n) → Acc ◌<◌ (n / 10)).
        dite (dec_lt 0 n) (λ left. digits_acc (n / 10) (last ∷ behind) (ways left))
          (λ none_left. behind))
      (fun_ext (λ left. Acc-prop (below (n / 10) (omega arith)) later))

digits_step :
    (behind : Bytes) (n : ℕ)
    → digits n behind ≡ ite (dec_lt 0 n) (digits (n / 10) ((b'0' + n % 10) ∷ behind)) behind
unfolding digits
digits_step behind n = digits_acc_step behind n (lt_wf.apply n) (lt_wf.apply (n / 10))

scan_last : (n : ℕ) (out : Bytes) → scan_digits (n / 10) ((b'0' + n % 10) ∷ out) ≡ scan_digits n out
unfolding scan_digits
scan_last n out = ground arith

scan-digits : (n : ℕ) (out : Bytes) → scan_digits 0 (digits n out) ≡ scan_digits n out
scan-digits n =
    WellFounded.induction lt_wf
      {C = λ m. (out : Bytes) → scan_digits 0 (digits m out) ≡ scan_digits m out} n
      λ m ih out. grind (arith, digits_step out m, scan_last m out, ih (m / 10))

-- A positive number starts with a digit from 1 to 9.
abbrev pub Starts : Bytes → Type 0
Starts [] = ⊥
Starts (c ∷ s) = (b'1' ≤ c) × (c ≤ b'9')

digits-Starts : (n : ℕ) (out : Bytes) → 0 < n → Starts (digits n out)
digits-Starts n =
    WellFounded.induction lt_wf {C = λ m. (out : Bytes) → 0 < m → Starts (digits m out)} n
      λ m ih out h. elim (dec_lt 0 (m / 10)) [
        | yes p ↦
            rw (digits_step out m, if_pos _ h) (ih (m / 10) (omega arith) ((b'0' + m % 10) ∷ out) p)
        | no p ↦
            rw (digits_step out m, if_pos _ h, digits_step _ (m / 10), if_neg _ p) (omega arith)
      ]

digits-append : (n : ℕ) (out rest : Bytes) → digits n out ++ rest ≡ digits n (out ++ rest)
digits-append n =
    WellFounded.induction lt_wf
      {C = λ m. (out rest : Bytes) → digits m out ++ rest ≡ digits m (out ++ rest)} n
      λ m ih out rest. elim (dec_lt 0 m) [
        | yes p ↦
            rw (digits_step out m, digits_step (out ++ rest) m, if_pos _ p, if_pos _ p)
              (ih (m / 10) (omega arith) ((b'0' + m % 10) ∷ out) rest)
        | no p ↦ rw (digits_step out m, digits_step (out ++ rest) m, if_neg _ p, if_neg _ p)
      ]

scan_stop : (n : ℕ) (rest : Bytes) → EndsNumber rest → scan_digits n rest ≡ (n, rest)
unfolding scan_digits
scan_stop n [] h = refl
scan_stop n (c ∷ s) h = rw h

scan_print : (n : ℕ) (rest : Bytes) → EndsNumber rest → scan_digits 0 (digits n rest) ≡ (n, rest)
scan_print n rest h = scan-digits n rest ∙ scan_stop n rest h

-- The text starts with a digit.
abbrev pub StartsNumber : Bytes → Type 0
StartsNumber [] = ⊥
StartsNumber (c ∷ s) = is_digit c ≡ true

StartsNumber-of_Starts : (s : Bytes) → Starts s → StartsNumber s
StartsNumber-of_Starts [] h = absurd h
StartsNumber-of_Starts (c ∷ s) h = ground arith

strtol_digits_lem :
    (whole s : Bytes) (minus : Bool)
    → StartsNumber s
    → strtol_digits whole minus s ≡ (clamp_long minus (scan_digits 0 s).0, (scan_digits 0 s).1)
unfolding strtol_digits
strtol_digits_lem whole [] minus h = absurd h
strtol_digits_lem whole (c ∷ s) minus h = rw h

-- With no blank and no sign in front, `strtol` reads digits.
strtol_unsigned : (s : Bytes) → StartsNumber s → strtol s ≡ strtol_digits s false s
unfolding strtol skip_space strtol_sign
strtol_unsigned [] h = absurd h
strtol_unsigned (c ∷ s) h = ground arith

strtol_minus : (s : Bytes) → strtol (b'-' ∷ s) ≡ strtol_digits (b'-' ∷ s) true s
unfolding strtol strtol_sign
strtol_minus s = refl

print_ℕ-digits : (n : ℕ) (rest : Bytes) → 0 < n → print_ℕ n ++ rest ≡ digits n rest
unfolding print_ℕ
print_ℕ-digits n rest h = ground (arith, digits-append n [] rest)

pub print_ℕ-StartsNumber : (n : ℕ) (rest : Bytes) → StartsNumber (print_ℕ n ++ rest)
print_ℕ-StartsNumber zero rest = unfold print_ℕ in refl
print_ℕ-StartsNumber (suc n) rest =
    rw (print_ℕ-digits (suc n) rest (omega arith))
      (StartsNumber-of_Starts _ (digits-Starts (suc n) rest (omega arith)))

pub scan_digits-print_ℕ :
    (n : ℕ) (rest : Bytes) → EndsNumber rest → scan_digits 0 (print_ℕ n ++ rest) ≡ (n, rest)
scan_digits-print_ℕ zero rest h = unfold print_ℕ scan_digits in scan_stop 0 rest h
scan_digits-print_ℕ (suc n) rest h =
    rw (print_ℕ-digits (suc n) rest (omega arith)) (scan_print (suc n) rest h)

-- `strtol` reads a printed `long` back, and stops where its digits end.
pub strtol-itoa :
    (v : ℤ) (rest : Bytes) → IsInt32 v → EndsNumber rest → strtol (itoa v ++ rest) ≡ (v, rest)
unfolding itoa
strtol-itoa (pos n) rest fits ends =
    rw
      (
        strtol_unsigned _ (print_ℕ-StartsNumber n rest),
        strtol_digits_lem _ _ false (print_ℕ-StartsNumber n rest),
        scan_digits-print_ℕ n rest ends,
      )
      (unfold clamp_long in ground arith)
strtol-itoa (negsuc n) rest fits ends =
    rw
      (
        strtol_minus (print_ℕ (suc n) ++ rest),
        strtol_digits_lem _ _ true (print_ℕ-StartsNumber (suc n) rest),
        scan_digits-print_ℕ (suc n) rest ends,
      )
      (unfold clamp_long in ground arith)

pub atoi-itoa : (v : ℤ) → IsInt32 v → atoi (itoa v) ≡ v
unfolding atoi
atoi-itoa v fits =
    ap (λ (p : ℤ × Bytes). p.0) (rw (append-nil (itoa v)) at (strtol-itoa v [] fits tt))

-- Different numbers are printed differently, also with text behind them.
pub print_ℕ-injective :
    (m n : ℕ) (s t : Bytes)
    → EndsNumber s
    → EndsNumber t
    → print_ℕ m ++ s ≡ print_ℕ n ++ t
    → (m ≡ n) × (s ≡ t)
print_ℕ-injective m n s t hs ht e =
    let p : (m, s) ≡ (n, t) =
      sym (scan_digits-print_ℕ m s hs) ∙ ap (scan_digits 0) e ∙ scan_digits-print_ℕ n t ht in
    (ap (λ (q : ℕ × Bytes). q.0) p, ap (λ (q : ℕ × Bytes). q.1) p)

-- A number with one more digit.
pub print_ℕ_snoc : (n d : ℕ) → 0 < n → d < 10 → print_ℕ (n * 10 + d) ≡ print_ℕ n ++ (b'0' + d) ∷ []
print_ℕ_snoc n d h k =
    let more : 0 < n * 10 + d = omega arith in
    let q : (n * 10 + d) / 10 ≡ n = omega arith in
    let r : (n * 10 + d) % 10 ≡ d = omega arith in
    rw (
      print_ℕ-digits n ((b'0' + d) ∷ []) h,
      ← append-nil (print_ℕ (n * 10 + d)),
      print_ℕ-digits (n * 10 + d) [] more,
      digits_step [] (n * 10 + d),
      if_pos _ more,
      q,
      r,
    )

pub print_ℕ_digit : (d : ℕ) → d < 10 → print_ℕ d ≡ (b'0' + d) ∷ []
print_ℕ_digit zero k = unfold print_ℕ in refl
print_ℕ_digit (suc d) k =
    let some_digit : 0 < suc d = omega arith in
    let q : suc d / 10 ≡ 0 = omega arith in
    let r : suc d % 10 ≡ suc d = omega arith in
    let none_left : ¬ (0 < 0) = omega arith in
    rw (
      ← append-nil (print_ℕ (suc d)),
      print_ℕ-digits (suc d) [] some_digit,
      digits_step [] (suc d),
      if_pos _ some_digit,
      q,
      r,
      digits_step _ 0,
      if_neg _ none_left,
    )
