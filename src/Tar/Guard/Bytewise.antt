-- ===== src/Tar/Guard/Bytewise.antt =====
-- The guard takes its bytes in turns of up to a block; what it does is what it does byte by byte.
use oracle_free_arch_vps.Base.{
  Bool-cases, Option, Option-cases, Result, Result-cases, Text, [], ap, append_assoc, arith, drop,
  false, inl, inr, leb, length, length-append, length-drop, length-take-le, ltb, none, ok, refl,
  require, some, subst, suc, sym, take, take-append-drop, true, zero, ℕ, ◌%◌, ◌++◌, ◌+◌, ◌-◌, ◌<◌,
  ◌==◌, ◌>>=◌, ◌>>◌, ◌||◌, ◌∙◌, ◌∷◌, ◌≡◌, ◌≤◌,
}
use oracle_free_arch_vps.Profile.{assert_budget}
use oracle_free_arch_vps.Inventory.{Bytes}
use oracle_free_arch_vps.Tar.Numbers.{all_zero}
use oracle_free_arch_vps.Tar.Guard.{
  Framing, absorb, announce, extended, finish_metadata, member_size, pax_size, read_header,
  read_member, room, tar_number, type_of, write_loop,
}

take_head : (n k b : ℕ) (bytes : Bytes) → n ≡ suc k → take n (b ∷ bytes) ≡ b ∷ take k bytes
take_head n k b bytes e = rw e refl

module _ (decode_utf8 : Bytes → Result Text) where
  -- One byte at a time, the reference.
  unfoldable pub step : Framing → ℕ → Result Framing
  step s b = elim (leb 2 s.zeros) [
    | true ↦ require (b == 0) "Stream tar rejected: nonzero data after tar terminator" >> ok s
    | false ↦ absorb decode_utf8 s (b ∷ [])
  ]

  unfoldable pub run : Framing → Bytes → Result Framing
  run s [] = ok s
  run s (b ∷ bytes) = step s b >>= λ next. run next bytes

  pub run-append : (s : Framing) (xs ys : Bytes) → run s (xs ++ ys) ≡ (run s xs >>= λ t. run t ys)
  unfolding run
  run-append s [] ys = refl
  run-append s (x ∷ xs) ys = elim (Result-cases (step s x)) [
    | inl (t, e) ↦ rw e (run-append t xs ys)
    | inr (m, e) ↦ rw e
  ]

  extended_one :
      (m : Option Bytes) (b : ℕ) (bytes : Bytes)
      → extended m (b ∷ bytes) ≡ extended (extended m (b ∷ [])) bytes
  extended_one none b bytes = refl
  extended_one (some m) b bytes = ap some (sym (append_assoc m (b ∷ []) bytes))

  absorb_remaining :
      (s : Framing) (b : ℕ) (bytes : Bytes)
      → ltb 0 s.remaining ≡ true
      → 1 < s.remaining
      → absorb decode_utf8 s (b ∷ bytes)
        ≡ absorb decode_utf8
            (record s { remaining = s.remaining - 1; metadata = extended s.metadata (b ∷ []) })
            bytes
  unfolding absorb
  absorb_remaining s b bytes e r =
      let less : s.remaining - suc (length bytes) ≡ (s.remaining - 1) - length bytes =
        omega arith in
      let more : ltb 0 (s.remaining - 1) ≡ true = ground arith in
      rw (e, more, less, extended_one s.metadata b bytes) refl

  -- A byte that leaves room changes only how much is read.
  absorb_one :
      (s : Framing) (b : ℕ)
      → length s.header < 512
      → 1 < room s
      → (t : Framing) × (absorb decode_utf8 s (b ∷ []) ≡ ok t)
        × (room t + 1 ≡ room s)
        × (t.zeros ≡ s.zeros)
        × (length t.header < 512)
        × ((bytes : Bytes) → absorb decode_utf8 s (b ∷ bytes) ≡ absorb decode_utf8 t bytes)
  unfolding absorb room
  absorb_one s b h r = elim (Bool-cases (ltb 0 s.remaining)) [
    | inl e ↦ (
      record s { remaining = s.remaining - 1; metadata = extended s.metadata (b ∷ []) },
      ground arith,
      ground arith,
      refl,
      h,
      λ bytes. absorb_remaining s b bytes e (ground arith),
    )
    | inr e ↦ elim (Bool-cases (ltb 0 s.padding)) [
      | inl f ↦ (
        record s { padding = s.padding - 1 },
        rw (e, f) refl,
        ground arith,
        refl,
        h,
        λ bytes. ground arith,
      )
      | inr f ↦
          let longer = length-append s.header (b ∷ []) in
          (
            record s { header = s.header ++ b ∷ [] },
            ground (arith, longer),
            ground (arith, longer),
            refl,
            ground (arith, longer),
            λ bytes. rw (e, f, append_assoc s.header (b ∷ []) bytes) refl,
          )
    ]
  ]

  step_open :
      (s : Framing) (b : ℕ) → leb 2 s.zeros ≡ false → step s b ≡ absorb decode_utf8 s (b ∷ [])
  unfolding step
  step_open s b z = rw (z, step) refl

  absorb-run :
      (s : Framing) (b : ℕ) (bytes : Bytes)
      → length s.header < 512
      → leb 2 s.zeros ≡ false
      → suc (length bytes) ≤ room s
      → absorb decode_utf8 s (b ∷ bytes) ≡ run s (b ∷ bytes)
  unfolding run
  absorb-run s b [] h z r = elim (Result-cases (absorb decode_utf8 s (b ∷ []))) [
    | inl (t, e) ↦ rw (step_open s b z, e) refl
    | inr (m, e) ↦ rw (step_open s b z, e) refl
  ]
  absorb-run s b (c ∷ bytes) h z r =
      let (t, e, less, same, short, rest) = absorb_one s b h (omega arith) in
      let later : absorb decode_utf8 t (c ∷ bytes) ≡ run t (c ∷ bytes) =
        absorb-run t c bytes short (rw same z) (omega arith) in
      let first : step s b ≡ ok t = step_open s b z ∙ e in rest (c ∷ bytes) ∙ later ∙ rw first refl

  finish_metadata-header :
      (s t : Framing) → finish_metadata decode_utf8 s ≡ ok t → t.header ≡ s.header
  unfolding finish_metadata
  finish_metadata-header s t h = elim (Option-cases s.metadata) [
    | inl e ↦ ground arith
    | inr (m, e) ↦ elim (Result-cases (pax_size decode_utf8 m)) [
      | inr (x, f) ↦ absurd (ground arith)
      | inl ((given, size), f) ↦ ground arith
    ]
  ]

  announce-header :
      (s t : Framing) (size : ℕ) → announce decode_utf8 s size ≡ ok t → t.header ≡ s.header
  unfolding announce assert_budget
  announce-header s t size h = ground (
    arith,
    finish_metadata-header (record s { remaining = size; padding = (512 - size % 512) % 512 }) t,
  )

  read_member-header :
      (s t : Framing) (kind size : ℕ)
      → read_member decode_utf8 s kind size ≡ ok t
      → t.header ≡ s.header
  unfolding read_member assert_budget
  read_member-header s t kind size h = elim (Bool-cases (kind == b'x' || kind == b'g')) [
    | inl e ↦
        announce-header (record s { metadata = some []; is_global = kind == b'g' }) t size
          (ground arith)
    | inr e ↦ elim (Bool-cases (kind == b'L' || kind == b'K')) [
      | inl f ↦ announce-header s t size (ground arith)
      | inr f ↦
          announce-header (record s { count = s.count + 1; local_size = none }) t
            (member_size s kind size) (ground arith)
    ]
  ]

  read_header-header :
      (s t : Framing) (header : Bytes)
      → read_header decode_utf8 s header ≡ ok t
      → t.header ≡ s.header
  unfolding read_header
  read_header-header s t header h =
      elim (Result-cases (tar_number decode_utf8 (take 12 (drop 124 header)))) [
        | inl (size, e) ↦ ground (arith, read_member-header s t (type_of header) size)
        | inr (m, e) ↦ ground arith
      ]

  pub absorb-header :
      (s t : Framing) (taken : Bytes)
      → length s.header < 512
      → length taken ≤ room s
      → absorb decode_utf8 s taken ≡ ok t
      → length t.header < 512
  unfolding absorb room
  absorb-header s t taken h r e = elim (Bool-cases (ltb 0 s.remaining)) [
    | inl p ↦
        let next = record s {
          remaining = s.remaining - length taken;
          metadata = extended s.metadata taken;
        } in
        ground (arith, finish_metadata-header next t)
    | inr p ↦ elim (Bool-cases (ltb 0 s.padding)) [
      | inl q ↦ ground arith
      | inr q ↦
          let longer = length-append s.header taken in
          ground
            (arith, longer, read_header-header (record s { header = [] }) t (s.header ++ taken))
    ]
  ]

  run_ended :
      (s : Framing) (bytes : Bytes)
      → leb 2 s.zeros ≡ true
      → run s bytes ≡ (
          require (all_zero bytes) "Stream tar rejected: nonzero data after tar terminator" >> ok s)
  unfolding run step all_zero
  run_ended s [] z = refl
  run_ended s (b ∷ bytes) z = elim (Bool-cases (b == 0)) [
    | inl e ↦ rw (z, step, run, e) (run_ended s bytes z)
    | inr e ↦ rw (z, step, run, e) refl
  ]

  pub room_open : (s : Framing) → length s.header < 512 → 1 ≤ room s
  unfolding room
  room_open s h = ground arith

  turn_left :
      (s : Framing) (b : ℕ) (bytes : Bytes) (fuel : ℕ)
      → suc (length bytes) ≤ suc fuel
      → length s.header < 512
      → length (drop (room s) (b ∷ bytes)) ≤ fuel
  turn_left s b bytes fuel f h = omega (arith, length-drop (room s) (b ∷ bytes), room_open s h)

  -- One turn of the loop, where the loop after it is run byte by byte.
  write_turn :
      (fuel : ℕ) (s : Framing) (b : ℕ) (bytes : Bytes)
      → length bytes ≤ fuel
      → length s.header < 512
      → leb 2 s.zeros ≡ false
      → ((next : Framing)
          → length next.header < 512
          → write_loop decode_utf8 fuel next (drop (room s) (b ∷ bytes))
            ≡ run next (drop (room s) (b ∷ bytes)))
      → write_loop decode_utf8 (suc fuel) s (b ∷ bytes) ≡ run s (b ∷ bytes)
  unfolding write_loop
  write_turn fuel s b bytes f h z rest =
      let k = room s - 1 in
      let size : room s ≡ suc k = omega (arith, room_open s h) in
      let head : take (room s) (b ∷ bytes) ≡ b ∷ take k bytes = take_head (room s) k b bytes size in
      let short : length (take (room s) (b ∷ bytes)) ≤ room s =
        length-take-le (room s) (b ∷ bytes) in
      let once : absorb decode_utf8 s (take (room s) (b ∷ bytes))
          ≡ run s (take (room s) (b ∷ bytes)) =
        rw head (absorb-run s b (take k bytes) h z (omega (arith, length-take-le k bytes))) in
      let whole : run s (b ∷ bytes)
          ≡ (run s (take (room s) (b ∷ bytes)) >>= λ t. run t (drop (room s) (b ∷ bytes))) =
        subst
          (λ xs.
            run s xs
            ≡ (run s (take (room s) (b ∷ bytes)) >>= λ t. run t (drop (room s) (b ∷ bytes))))
          (take-append-drop (room s) (b ∷ bytes)) (run-append s _ _) in
      elim (Result-cases (absorb decode_utf8 s (take (room s) (b ∷ bytes)))) [
        | inr (m, e) ↦ rw (z, whole, sym once, e, write_loop) refl
        | inl (t, e) ↦
            rw (z, whole, sym once, e, write_loop) (rest t (absorb-header s t _ h short e))
      ]

  pub write_loop-run :
      (fuel : ℕ) (s : Framing) (bytes : Bytes)
      → length bytes ≤ fuel
      → length s.header < 512
      → write_loop decode_utf8 fuel s bytes ≡ run s bytes
  unfolding write_loop
  write_loop-run fuel s [] f h = unfold run in refl
  write_loop-run zero s (b ∷ bytes) f h = absurd (omega arith)
  write_loop-run (suc fuel) s (b ∷ bytes) f h = elim (Bool-cases (leb 2 s.zeros)) [
    | inl z ↦ rw (z, write_loop) (sym (run_ended s (b ∷ bytes) z))
    | inr z ↦ write_turn fuel s b bytes (omega arith) h z (λ next short.
        write_loop-run fuel next (drop (room s) (b ∷ bytes)) (turn_left s b bytes fuel f h) short)
  ]
