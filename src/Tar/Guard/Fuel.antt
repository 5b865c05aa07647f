-- ===== src/Tar/Guard/Fuel.antt =====
-- The records of extended headers are read with enough fuel.
use oracle_free_arch_vps.Base.{
  Option-cases, Result, Result-cases, Text, [], arith, drop, inl, inr, length, length-drop, ok,
  refl, suc, take, true, zero, ℕ, ◌+◌, ◌<◌, ◌∷◌, ◌≡◌, ◌≤◌,
}
use oracle_free_arch_vps.Inventory.{Bytes}
use oracle_free_arch_vps.Tar.Numbers.{index_of, number_in}
use oracle_free_arch_vps.Tar.Guard.{Found, pax_records, pax_turn, record_ends}

module _ (decode_utf8 : Bytes → Result Text) where
  -- A record takes two bytes at least.
  pax_turn-shorter :
      (bytes : Bytes) (found : Found) (r : Bytes × Found)
      → pax_turn decode_utf8 bytes found ≡ ok r
      → length r.0 < length bytes
  unfolding pax_turn
  pax_turn-shorter bytes found r h = elim (Option-cases (index_of 32 bytes)) [
    | inl e ↦ absurd (ground arith)
    | inr (space, e) ↦ elim (Result-cases (decode_utf8 (take space bytes))) [
      | inr (m, d) ↦ absurd (ground arith)
      | inl (digits, d) ↦
          let n = number_in 10 0 digits in
          let ends : record_ends n space bytes ≡ true = ground arith in
          let left : r.0 ≡ drop n bytes = ground arith in
          let size : (space + 1 < n) × (n ≤ length bytes) = ground (arith, ends) in
          rw left (omega (arith, length-drop n bytes, size))
    ]
  ]

  -- Any two amounts of fuel that cover the bytes give the same result.
  pub pax_records_enough :
      (f g : ℕ) (bytes : Bytes) (found : Found)
      → length bytes ≤ f
      → length bytes ≤ g
      → pax_records decode_utf8 f bytes found ≡ pax_records decode_utf8 g bytes found
  unfolding pax_records
  pax_records_enough zero zero bytes found a b = refl
  pax_records_enough zero (suc g) [] found a b = refl
  pax_records_enough (suc f) zero [] found a b = refl
  pax_records_enough (suc f) (suc g) [] found a b = refl
  pax_records_enough zero (suc g) (c ∷ s) found a b = absurd (omega arith)
  pax_records_enough (suc f) zero (c ∷ s) found a b = absurd (omega arith)
  pax_records_enough (suc f) (suc g) (c ∷ s) found a b =
      elim (Result-cases (pax_turn decode_utf8 (c ∷ s) found)) [
        | inr (m, e) ↦ rw e refl
        | inl (r, e) ↦
            let less = pax_turn-shorter (c ∷ s) found r e in
            rw e (pax_records_enough f g r.0 r.1 (omega arith) (omega arith))
      ]
