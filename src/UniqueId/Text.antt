-- ===== src/UniqueId/Text.antt =====
-- The text that is hashed: what it tells apart, and what it does not.
use esp32_idf_ascom_alpaca.Base.{
  ℕ, ◌<◌, ◌≡◌, sym, ap, ◌∙◌, ◌≢◌, ◌⊎◌, [], ◌∷◌, append-nil, arith, length, ◌+◌, ◌++◌, ◌*◌, refl,
  inl, inr, append_assoc, append_cancel_left,
}
use esp32_idf_ascom_alpaca.Device.{telescope, type_index, DeviceType, unknown}
use esp32_idf_ascom_alpaca.Base.Text.{print_ℕ, scan_digits, Bytes}
use esp32_idf_ascom_alpaca.Base.Text.Decimal.{scan_digits-print_ℕ, print_ℕ_digit, print_ℕ_snoc}
use esp32_idf_ascom_alpaca.UniqueId.{hash_input, generate_unique_id, hex}
use esp32_idf_ascom_alpaca.Platform.{Platform}

small_index : (t : DeviceType) → (type_index t < 10) ⊎ (t ≡ telescope)
unfolding type_index
small_index t = ground arith

scan_print : (k : ℕ) → scan_digits 0 (print_ℕ k) ≡ (k, [])
scan_print k = rw (append-nil (print_ℕ k)) at (scan_digits-print_ℕ k [] tt)

scan_zero : (k : ℕ) → scan_digits 0 (b'0' ∷ print_ℕ k) ≡ (k, [])
unfolding scan_digits
scan_zero k = scan_print k

-- A number is not printed with a zero in front.
no_leading_zero : (m n : ℕ) → print_ℕ n ≢ b'0' ∷ print_ℕ m
no_leading_zero m n e =
    let same : n ≡ m =
      ap (λ (q : ℕ × Bytes). q.0) (sym (scan_print n) ∙ ap (scan_digits 0) e ∙ scan_zero m) in
    omega (arith, ap length e, ap (λ (k : ℕ). length (print_ℕ k)) same)

print_ℕ_eq : (m n : ℕ) → print_ℕ m ≡ print_ℕ n → m ≡ n
print_ℕ_eq m n e =
    ap (λ (q : ℕ × Bytes). q.0) (sym (scan_print m) ∙ ap (scan_digits 0) e ∙ scan_print n)

-- A type of one digit and `telescope`, whose index is 10, are never confused.
not_telescope : (k m n : ℕ) → k < 10 → print_ℕ k ++ print_ℕ m ≢ print_ℕ 10 ++ print_ℕ n
not_telescope k m n h e =
    let ten : print_ℕ 10 ≡ b'1' ∷ b'0' ∷ [] = unfold print_ℕ in refl in
    let e' : (b'0' + k) ∷ print_ℕ m ≡ b'1' ∷ b'0' ∷ print_ℕ n = rw (print_ℕ_digit k h, ten) at e in
    no_leading_zero n m (cc)

type_index-injective : (a b : DeviceType) → type_index a ≡ type_index b → a ≡ b
unfolding type_index
type_index-injective a b e = ground arith

same_digit :
    (j k m n : ℕ)
    → j < 10
    → k < 10
    → print_ℕ j ++ print_ℕ m ≡ print_ℕ k ++ print_ℕ n
    → (j ≡ k) × (m ≡ n)
same_digit j k m n h h' e =
    let e' : (b'0' + j) ∷ print_ℕ m ≡ (b'0' + k) ∷ print_ℕ n =
      rw (print_ℕ_digit j h, print_ℕ_digit k h') at e in
    let first : b'0' + j ≡ b'0' + k = cc in (omega arith, print_ℕ_eq m n (cc))

-- The text for the type and the number tells both apart.
suffix-injective :
    (a b : DeviceType) (m n : ℕ)
    → print_ℕ (type_index a) ++ print_ℕ m ≡ print_ℕ (type_index b) ++ print_ℕ n
    → (a ≡ b) × (m ≡ n)
unfolding type_index
suffix-injective a b m n e = elim (small_index a) [
  | inl h ↦ elim (small_index b) [
    | inl h' ↦
        let (same, number) = same_digit (type_index a) (type_index b) m n h h' e in
        (type_index-injective a b same, number)
    | inr q ↦
        absurd
          (not_telescope (type_index a) m n h (e ∙ ap (λ u. print_ℕ (type_index u) ++ print_ℕ n) q))
  ]
  | inr p ↦ elim (small_index b) [
    | inl h' ↦ absurd (
        not_telescope (type_index b) n m h'
          (sym e ∙ ap (λ u. print_ℕ (type_index u) ++ print_ℕ m) p))
    | inr q ↦ (p ∙ sym q, print_ℕ_eq m n (append_cancel_left (print_ℕ 10) (rw (p, q) at e)))
  ]
]

-- For one server and one device name, the hashed text tells the device types and the numbers apart,
-- although nothing stands between the two.
pub hash_input-injective :
    (server_id name : Bytes) (a b : DeviceType) (m n : ℕ)
    → hash_input server_id name a m ≡ hash_input server_id name b n
    → (a ≡ b) × (m ≡ n)
unfolding hash_input
hash_input-injective server_id name a b m n e =
    suffix-injective a b m n (append_cancel_left name (append_cancel_left server_id e))

index_pos : (t : DeviceType) → t ≢ unknown → 0 < type_index t
unfolding type_index
index_pos t h = ground arith

-- The name is not told apart from the number: whatever the digest, a device of a known type `t`
-- with number `10 * i + d`, where `i` is the index of `t` and `d` a digit, has the same identifier
-- as a device of type `t` with number `d` whose name has the decimal of `i` behind it.
pub generate_unique_id_collision :
    (p : Platform) (server_id name : Bytes) (t : DeviceType) (d : ℕ)
    → t ≢ unknown
    → d < 10
    → generate_unique_id p server_id name t (type_index t * 10 + d)
      ≡ generate_unique_id p server_id (name ++ print_ℕ (type_index t)) t d
unfolding generate_unique_id hash_input
generate_unique_id_collision p server_id name t d known small =
    let i = type_index t in
    let pos_index : 0 < type_index t = index_pos t known in
    ap (λ s. hex (p.md5 (server_id ++ s)))
      (rw (print_ℕ_snoc (type_index t) d pos_index small, print_ℕ_digit d small)
        (simp append_assoc))
