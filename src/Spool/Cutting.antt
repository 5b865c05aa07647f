-- ===== src/Spool/Cutting.antt =====
-- The generator of the spool cuts the stream without loss: what the slots are sealed with is what
-- the source has given, and every slot but the last is full.
use oracle_free_arch_vps.Base.{
  List, Option, Result, [], ap, append-nil, append_assoc, arith, drop, err, false, inl, inr, length,
  length-append, length-take-le, none, ok, refl, some, subst, suc, sym, take, take-append-drop,
  true, zero, ℕ, ◌++◌, ◌+◌, ◌-◌, ◌∙◌, ◌∷◌, ◌≡◌, ◌≤◌, ◌⊎◌,
}
use oracle_free_arch_vps.Actions.{Action}
use oracle_free_arch_vps.Actions.Triples.{
  After, After-continue, After-err, After-lift, After-mono, After-next, After-ok,
}
use oracle_free_arch_vps.Spool.{
  Bytes, Sealing, Spool, Storage, call, check_failure, consume, moved, no_failure, refill,
  take_part, write_rest,
}

-- The bytes of the sealed slots, in their order.
abbrev pub sealed_bytes : List Sealing → Bytes
sealed_bytes [] = []
sealed_bytes (x ∷ rest) = x.content ++ sealed_bytes rest

pub sealed_bytes-append :
    (xs : List Sealing) (x : Sealing) → sealed_bytes (xs ++ x ∷ []) ≡ sealed_bytes xs ++ x.content
sealed_bytes-append [] x = append-nil x.content
sealed_bytes-append (y ∷ xs) x =
    ap (λ t. y.content ++ t) (sealed_bytes-append xs x)
    ∙ sym (append_assoc y.content (sealed_bytes xs) x.content)

module _ {W : Type 0} (storage : Storage W) where
  -- Only the world and the file have changed, the file by these bytes.
  abbrev pub Writes : Spool W → Bytes → Spool W → Type 0
  Writes s bytes t =
      (t.received ≡ s.received)
      × (t.sealed ≡ s.sealed)
      × (t.pending ≡ s.pending)
      × (t.hashed ≡ s.hashed)
      × (t.done ≡ s.done)
      × (t.file ≡ s.file ++ bytes)

  moved-Writes :
      {A : Type 0} (p : Result A × W) (s : Spool W)
      → After (λ a t. Writes s [] t) (λ t. Unit) (moved s p)
  moved-Writes (ok a, w) s =
      After-ok _ _ _ _ (refl, refl, refl, refl, refl, sym (append-nil s.file))
  moved-Writes (err e, w) s = After-err _ _ _ _ tt

  call-Writes :
      {A : Type 0} (m : Action W A) (s : Spool W)
      → After (λ a t. Writes s [] t) (λ t. Unit) (call m s)
  call-Writes m s = moved-Writes (m s.world) s

  Writes-trans :
      (s t u : Spool W) (a b c : Bytes) → Writes s a t → Writes t b u → a ++ b ≡ c → Writes s c u
  Writes-trans s t u a b c (p, q, r, x, y, z) (p', q', r', x', y', z') e = (
    p' ∙ p,
    q' ∙ q,
    r' ∙ r,
    x' ∙ x,
    y' ∙ y,
    z' ∙ ap (λ f. f ++ b) z ∙ append_assoc s.file a b ∙ ap (λ f. s.file ++ f) e,
  )

  pub write_rest-Writes :
      (fuel : ℕ) (bytes : Bytes) (s : Spool W)
      → After (λ u t. Writes s bytes t) (λ t. Unit) (write_rest storage fuel bytes s)
  unfolding write_rest
  write_rest-Writes fuel [] s =
      After-ok _ _ _ _ (refl, refl, refl, refl, refl, sym (append-nil s.file))
  write_rest-Writes zero (b ∷ bytes) s = After-err _ _ _ _ tt
  write_rest-Writes (suc fuel) (b ∷ bytes) s =
      After-continue _ _ _ _ _ (call-Writes (storage.write (b ∷ bytes)) s) λ n t p.
        After-continue _ _ _ _ _ (After-lift (λ v. v ≡ t) (λ v. Unit) _ t refl tt) λ u v q.
          After-next _ _ _ _ _ (
            let part = take n (b ∷ bytes) in
            let here : Writes s part (record v { file = v.file ++ part }) =
              rw q.1 (p.0, p.1, p.2, p.3, p.4, ap (λ f. f ++ part) (p.5 ∙ append-nil s.file)) in
            After-mono _ _ _ _
              (write_rest-Writes fuel (drop n (b ∷ bytes)) (record v { file = v.file ++ part }))
              λ u w r.
                Writes-trans s (record v { file = v.file ++ part }) w part (drop n (b ∷ bytes))
                  (b ∷ bytes) here r (take-append-drop n (b ∷ bytes)))

  module _ (chunk_bytes : ℕ) where
    -- A sealed slot is not empty and within the chunk size; a full one has that size.
    abbrev pub IsShort : Sealing → Type 0
    IsShort x = (1 ≤ length x.content) × (length x.content ≤ chunk_bytes)

    abbrev pub IsFull : Sealing → Type 0
    IsFull x = length x.content ≡ chunk_bytes

    -- While the slot is being filled.
    abbrev pub Filling : ℕ → Spool W → Type 0
    Filling room s =
        (s.received ≡ sealed_bytes s.sealed ++ (s.hashed ++ s.pending))
        × (s.file ≡ s.hashed)
        × (length s.hashed + room ≡ chunk_bytes)
        × (s.done ≡ false)

    abbrev pub Filled : List Sealing → Spool W → Type 0
    Filled sealed s =
        (s.sealed ≡ sealed)
        × (s.received ≡ sealed_bytes s.sealed ++ (s.hashed ++ s.pending))
        × (s.file ≡ s.hashed)
        × (length s.hashed ≤ chunk_bytes)
        × (((s.done ≡ true) × (s.pending ≡ []))
            ⊎ ((s.done ≡ false) × (length s.hashed ≡ chunk_bytes)))

    -- After a read: there is something pending, or the source has ended.
    abbrev pub Refilled : List Sealing → ℕ → Spool W → Type 0
    Refilled sealed room s =
        (s.sealed ≡ sealed)
        × (s.received ≡ sealed_bytes s.sealed ++ (s.hashed ++ s.pending))
        × (s.file ≡ s.hashed)
        × (length s.hashed + room ≡ chunk_bytes)
        × (((s.done ≡ true) × (s.pending ≡ [])) ⊎ ((s.done ≡ false) × (1 ≤ length s.pending)))

    pub check-Refilled :
        (P : Spool W → Type 0) (s : Spool W)
        → P s
        → After (λ a t. P t) (λ t. Unit) (check_failure s)
    check-Refilled P s p =
        After-mono _ _ _ _ (After-lift P (λ v. Unit) (no_failure s.failure) s p tt) λ u t q. q.1

    received_more :
        (s : Spool W) (part : Bytes)
        → s.received ≡ sealed_bytes s.sealed ++ (s.hashed ++ s.pending)
        → s.pending ≡ []
        → s.received ++ part ≡ sealed_bytes s.sealed ++ (s.hashed ++ part)
    received_more s part p e =
        let before = ap (λ t. sealed_bytes s.sealed ++ (s.hashed ++ t)) e in
        let trimmed = ap (λ t. sealed_bytes s.sealed ++ t) (append-nil s.hashed) in
        ap (λ t. t ++ part) (p ∙ before ∙ trimmed)
        ∙ append_assoc (sealed_bytes s.sealed) s.hashed part

    part-Refilled :
        (room : ℕ) (part : Option Bytes) (s : Spool W)
        → Filling room s
        → s.pending ≡ []
        → After (λ u t. Refilled s.sealed room t) (λ t. Unit) (take_part storage part s)
    unfolding take_part
    part-Refilled room none s (p, q, r, d) e = After-ok _ _ _ _ (refl, p, q, r, inl (refl, e))
    part-Refilled room (some []) s p e = After-err _ _ _ _ tt
    part-Refilled room (some (b ∷ part)) s (p, q, r, d) e =
        After-ok _ _ _ _ (refl, received_more s (b ∷ part) p e, q, r, inr (d, ground arith))

    moved-Same :
        {A : Type 0} (P : Spool W → Type 0) (p : Result A × W) (s : Spool W)
        → ((w : W) → P (record s { world = w }))
        → After (λ a t. P t) (λ t. Unit) (moved s p)
    moved-Same P (ok a, w) s p = After-ok _ _ _ _ (p w)
    moved-Same P (err e, w) s p = After-err _ _ _ _ tt

    pub call-Same :
        {A : Type 0} (P : Spool W → Type 0) (m : Action W A) (s : Spool W)
        → ((w : W) → P (record s { world = w }))
        → After (λ a t. P t) (λ t. Unit) (call m s)
    call-Same P m s p = moved-Same P (m s.world) s p

    pub refill-Refilled :
        (room : ℕ) (pending : Bytes) (s : Spool W)
        → Filling room s
        → s.pending ≡ pending
        → After (λ u t. Refilled s.sealed room t) (λ t. Unit) (refill storage pending s)
    unfolding refill
    refill-Refilled room (b ∷ pending) s (p, q, r, d) e =
        After-ok _ _ _ _ (refl, p, q, r, inr (d, rw e (ground arith)))
    refill-Refilled room [] s p e =
        let Kept = λ (t : Spool W). Filling room t × (t.pending ≡ []) × (t.sealed ≡ s.sealed) in
        After-continue _ _ _ _ _ (call-Same Kept storage.read_source s (λ w. (p, e, refl)))
          λ part t q. After-continue _ _ _ _ _ (check-Refilled Kept t q) λ u v q.
            subst (λ x. After (λ u t. Refilled x room t) (λ t. Unit) (take_part storage part v)) q.2
              (part-Refilled room part v q.0 q.1)

    pub length-take-pos : (n : ℕ) (xs : Bytes) → 1 ≤ length xs → 1 ≤ length (take (suc n) xs)
    length-take-pos n [] h = h
    length-take-pos n (x ∷ xs) h = omega arith

    -- After the write: the bytes are hashed and no longer pending.
    pub consumed-Filling :
        (room : ℕ) (sealed : List Sealing) (t v : Spool W)
        → Refilled sealed (suc room) t
        → t.done ≡ false
        → Writes t (take (suc room) t.pending) v
        → Filling
            (suc room - length (take (suc room) t.pending))
            (consume storage (take (suc room) t.pending) (drop (suc room) t.pending) v)
    consumed-Filling room sealed t v (a, p, q, r, c) d (x, y, z, h, o, f) =
        let bytes = take (suc room) t.pending in
        let rest = drop (suc room) t.pending in
        let split : t.hashed ++ t.pending ≡ (t.hashed ++ bytes) ++ rest =
          ap (λ u. t.hashed ++ u) (sym (take-append-drop (suc room) t.pending))
          ∙ sym (append_assoc t.hashed bytes rest) in
        let few = length-take-le (suc room) t.pending in
        let long = length-append t.hashed bytes in
        (
          x ∙ p ∙ ap (λ u. sealed_bytes t.sealed ++ u) split ∙ rw (y, h) refl,
          f ∙ ap (λ u. u ++ bytes) (q ∙ sym h),
          rw h (omega arith),
          o ∙ d,
        )
