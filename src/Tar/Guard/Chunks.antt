-- ===== src/Tar/Guard/Chunks.antt =====
-- The guard does not depend on how the stream is cut into chunks.
use oracle_free_arch_vps.Base.{
  Bool-cases, List, Result, Result-cases, Text, [], ap, arith, inl, inr, leb, length, length-append,
  ok, refl, subst, ℕ, ◌++◌, ◌+◌, ◌<◌, ◌↔◌, ◌∷◌, ◌≡◌, ◌≤◌,
}
use oracle_free_arch_vps.Profile.{assert_budget, limit, logical_source_bytes}
use oracle_free_arch_vps.Inventory.{Bytes}
use oracle_free_arch_vps.Tar.Guard.{Framing, Guard, new_guard, write, write_all}
use oracle_free_arch_vps.Tar.Guard.Bytewise.{
  absorb-header, room_open, run, run-append, step, write_loop-run,
}

unfoldable pub concat : List Bytes → Bytes
concat [] = []
concat (c ∷ cs) = c ++ concat cs

module _ (decode_utf8 : Bytes → Result Text) where
  step-header :
      (s t : Framing) (b : ℕ)
      → length s.header < 512
      → step decode_utf8 s b ≡ ok t
      → length t.header < 512
  unfolding step
  step-header s t b h e = elim (Bool-cases (leb 2 s.zeros)) [
    | inl z ↦ ground arith
    | inr z ↦ absorb-header decode_utf8 s t (b ∷ []) h (room_open decode_utf8 s h) (ground arith)
  ]

  run-header :
      (s t : Framing) (bytes : Bytes)
      → length s.header < 512
      → run decode_utf8 s bytes ≡ ok t
      → length t.header < 512
  unfolding run
  run-header s t [] h e = ground arith
  run-header s t (b ∷ bytes) h e = elim (Result-cases (step decode_utf8 s b)) [
    | inr (m, f) ↦ absurd (ground arith)
    | inl (u, f) ↦ run-header u t bytes (step-header s u b h f) (ground arith)
  ]

  -- A write, byte by byte.
  write-run :
      (s t : Guard) (bytes : Bytes)
      → length s.framing.header < 512
      → write decode_utf8 s bytes ≡ ok t ↔ (
          (run decode_utf8 s.framing bytes ≡ ok t.framing)
          × (t.total ≡ s.total + length bytes)
          × (t.total ≤ limit logical_source_bytes))
  unfolding write assert_budget
  write-run s t bytes h =
      let same = write_loop-run decode_utf8 (length bytes) s.framing bytes (omega arith) h in
      (λ e. ground (arith, same), λ e. ground (arith, same))

  -- What a stream of these bytes leaves behind, byte by byte.
  abbrev Reaches : Guard → Bytes → Guard → Type 0
  Reaches s bytes t =
      (run decode_utf8 s.framing bytes ≡ ok t.framing)
      × (t.total ≡ s.total + length bytes)
      × (t.total ≤ limit logical_source_bytes)

  guard_eq : (s t : Guard) → s.total ≡ t.total → s.framing ≡ t.framing → s ≡ t
  guard_eq s t a b = cc

  write_all-Reaches :
      (s t : Guard) (cs : List Bytes)
      → length s.framing.header < 512
      → s.total ≤ limit logical_source_bytes
      → write_all decode_utf8 s cs ≡ ok t
      → Reaches s (concat cs) t
  unfolding write_all concat
  write_all-Reaches s t [] h l e =
      let same : s ≡ t = ground arith in
      subst (Reaches s []) same (unfold run in refl, omega arith, l)
  write_all-Reaches s t (c ∷ cs) h l e = elim (Result-cases (write decode_utf8 s c)) [
    | inr (m, w) ↦ absurd (ground arith)
    | inl (u, w) ↦
        let (r, a, b) = (write-run s u c h).0 w in
        let (q, d, f) =
          write_all-Reaches u t cs (run-header s.framing u.framing c h r) b (ground arith) in
        (
          rw (run-append decode_utf8 s.framing c (concat cs), r) q,
          omega (arith, length-append c (concat cs)),
          f,
        )
  ]

  Reaches-write_all :
      (s t : Guard) (cs : List Bytes)
      → length s.framing.header < 512
      → Reaches s (concat cs) t
      → write_all decode_utf8 s cs ≡ ok t
  unfolding write_all concat
  Reaches-write_all s t [] h (r, a, b) =
      let same : s.framing ≡ t.framing = unfold run in ground arith in
      ap ok (guard_eq s t (omega arith) same)
  Reaches-write_all s t (c ∷ cs) h (r, a, b) =
      let both = run-append decode_utf8 s.framing c (concat cs) in
      let long = length-append c (concat cs) in
      elim (Result-cases (run decode_utf8 s.framing c)) [
        | inr (m, e) ↦ absurd (ground (arith, both))
        | inl (f, e) ↦
            let u : Guard = record { total = s.total + length c; framing = f } in
            let w : write decode_utf8 s c ≡ ok u = (write-run s u c h).1 (e, refl, omega arith) in
            rw w (
              Reaches-write_all u t cs (run-header s.framing f c h e)
                (ground (arith, both), omega arith, b))
      ]

  -- The guard accepts a stream that is cut into chunks, empty ones too, exactly when it accepts it as
  -- one chunk, with the same state after it.
  pub write_all-write :
      (cs : List Bytes) (t : Guard)
      → (write_all decode_utf8 new_guard cs ≡ ok t)
        ↔ (write decode_utf8 new_guard (concat cs) ≡ ok t)
  write_all-write cs t = (
    λ e.
        (write-run new_guard t (concat cs) (omega arith)).1
          (write_all-Reaches new_guard t cs (omega arith) (omega arith) e),
    λ e.
        Reaches-write_all new_guard t cs (omega arith)
          ((write-run new_guard t (concat cs) (omega arith)).0 e),
  )
