-- ===== src/Tar/Names/Fuel.antt =====
-- Quoted names are read with enough fuel.
use oracle_free_arch_vps.Base.{
  Bool-cases, Option-cases, Result-cases, Text, [], arith, inl, inr, length, ok, refl, suc, zero, ℕ,
  ◌*◌, ◌++◌, ◌+◌, ◌-◌, ◌<◌, ◌==◌, ◌∷◌, ◌≡◌, ◌≤◌,
}
use oracle_free_arch_vps.Inventory.{Bytes}
use oracle_free_arch_vps.Tar.Numbers.{is_octal}
use oracle_free_arch_vps.Tar.Names.{decode_from, escaped, escapes, octal_digits}

octal_digits-le : (more n : ℕ) (s : Text) → length (octal_digits more n s).1 ≤ length s
unfolding octal_digits
octal_digits-le zero n s = omega arith
octal_digits-le (suc more) n [] = omega arith
octal_digits-le (suc more) n (c ∷ s) = elim (Bool-cases (is_octal c)) [
  | inl e ↦ rw (e, octal_digits) (omega (arith, octal_digits-le more (n * 8 + (c - b'0')) s))
  | inr e ↦ rw (e, octal_digits) (omega arith)
]

escaped-shorter : (s : Text) (r : ℕ × Text) → escaped s ≡ ok r → length r.1 < length s
unfolding escaped
escaped-shorter [] r h = absurd (ground arith)
escaped-shorter (c ∷ s) r h = elim (Option-cases (escapes c)) [
  | inr (b, e) ↦ let same : r.1 ≡ s = ground arith in rw same (omega arith)
  | inl e ↦
      let same : r.1 ≡ (octal_digits 2 (c - b'0') s).1 = ground arith in
      rw same (omega (arith, octal_digits-le 2 (c - b'0') s))
]

-- Any two amounts of fuel that cover the text give the same result.
pub decode_from_enough :
    (f g : ℕ) (s : Text) (front : Bytes)
    → length s ≤ f
    → length s ≤ g
    → decode_from f s front ≡ decode_from g s front
unfolding decode_from
decode_from_enough zero zero s front a b = refl
decode_from_enough zero (suc g) [] front a b = refl
decode_from_enough (suc f) zero [] front a b = refl
decode_from_enough (suc f) (suc g) [] front a b = refl
decode_from_enough zero (suc g) (c ∷ s) front a b = absurd (omega arith)
decode_from_enough (suc f) zero (c ∷ s) front a b = absurd (omega arith)
decode_from_enough (suc f) (suc g) (c ∷ s) front a b =
    let plain = decode_from_enough f g s (front ++ c ∷ []) (omega arith) (omega arith) in
    elim (Bool-cases (c == 34)) [
      | inl e ↦ ground arith
      | inr e34 ↦ elim (Bool-cases (c == 92)) [
        | inr e ↦ ground (arith, plain)
        | inl e92 ↦ elim (Result-cases (escaped s)) [
          | inr (m, e) ↦ ground arith
          | inl (r, e) ↦
              let less = escaped-shorter s r e in
              let later =
                decode_from_enough f g r.1 (front ++ r.0 ∷ []) (omega arith) (omega arith) in
              ground (arith, later)
        ]
      ]
    ]
