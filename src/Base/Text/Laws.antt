-- ===== src/Base/Text/Laws.antt =====
-- Comparison and splitting of C strings.
use esp32_idf_ascom_alpaca.Base.{
  ℕ, ◌+◌, ◌≡◌, refl, ◌≢◌, ◌↔◌, inl, inr, true, none, some, [], ◌∷◌, ◌++◌, arith, Option-cases,
  length, All,
}
use esp32_idf_ascom_alpaca.Base.Text.{Bytes, str_eq, str_case_eq, split_at, skip_prefix}

-- No byte of the text is `b`.
abbrev pub Lacks : ℕ → Bytes → Type 0
Lacks b = All (λ c. c ≢ b)

pub str_eq_refl : (s : Bytes) → str_eq s s ≡ true
unfolding str_eq
str_eq_refl [] = refl
str_eq_refl (c ∷ s) = ground (arith, str_eq_refl s)

pub str_eq_sound : (s t : Bytes) → str_eq s t ≡ true → s ≡ t
unfolding str_eq
str_eq_sound [] [] h = refl
str_eq_sound (a ∷ s) (b ∷ t) h = ground (arith, str_eq_sound s t)
str_eq_sound [] (b ∷ t) h = cc
str_eq_sound (a ∷ s) [] h = cc

pub str_eq_iff : (s t : Bytes) → (str_eq s t ≡ true) ↔ (s ≡ t)
str_eq_iff s t = (str_eq_sound s t, λ e. rw e (str_eq_refl t))

pub str_case_eq_refl : (s : Bytes) → str_case_eq s s ≡ true
unfolding str_case_eq
str_case_eq_refl [] = refl
str_case_eq_refl (c ∷ s) = ground (arith, str_case_eq_refl s)

pub split_at-append : (c : ℕ) (s t : Bytes) → Lacks c s → split_at c (s ++ c ∷ t) ≡ some (s, t)
unfolding split_at
split_at-append c [] t h = ground arith
split_at-append c (d ∷ s) t (p, h) = ground (arith, split_at-append c s t h)

pub split_at-Lacks : (c : ℕ) (s : Bytes) → Lacks c s → split_at c s ≡ none
unfolding split_at
split_at-Lacks c [] h = refl
split_at-Lacks c (d ∷ s) (p, h) = ground (arith, split_at-Lacks c s h)

-- What `split_at` finds is shorter than the text.
pub length-split_at :
    (c : ℕ) (s : Bytes) {before behind : Bytes}
    → split_at c s ≡ some (before, behind)
    → length before + length behind + 1 ≡ length s
unfolding split_at
length-split_at c [] e = cc
length-split_at c (d ∷ s) {before} {behind} e = elim (Option-cases (split_at c s)) [
  | inl h ↦ ground arith
  | inr ((b, r), h) ↦ ground (arith, length-split_at c s h)
]

pub skip_prefix-append : (p s : Bytes) → skip_prefix p (p ++ s) ≡ some s
unfolding skip_prefix
skip_prefix-append [] s = refl
skip_prefix-append (c ∷ p) s = ground (arith, skip_prefix-append p s)
