-- ===== src/Spool/Places.antt =====
-- The slots of a spool: what a slot holds stays there until it is released.
use oracle_free_arch_vps.Base.{
  Bool, Bool-cases, Option, Result, Text, [], ap, arith, drop, err, false, inl, inr, leb, length,
  ltb, none, ok, refl, require, some, subst, suc, sym, take, true, zero, ℕ, ◌&&◌, ◌++◌, ◌-◌, ◌==◌,
  ◌∙◌, ◌∷◌, ◌≡◌,
}
use oracle_free_arch_vps.Contract.Slots.{SealedSlot, sealed_slot_value, validate_sealed_slot}
use oracle_free_arch_vps.Upload.Records.{slot_eq}
use oracle_free_arch_vps.Actions.{Action, lift}
use oracle_free_arch_vps.Actions.Triples.{
  After, After-both, After-caught, After-continue, After-err, After-if, After-lift, After-mono,
  After-next, After-ok, Caught,
}
use oracle_free_arch_vps.Spool.{
  Bytes, Operation, Place, Spool, Storage, Turn, acquire, call, fill, free, give_up, held, holds,
  is_free, moved, next_slot, next_turn, no_failure, operate, or_abort, place_at, produce,
  produce_in, read_back, read_slot, reclaim, refill, release, require_same, seal_slot, set_place,
  spool_error, take_part, write_all, write_rest, writing,
}
use oracle_free_arch_vps.Contract.Slots.Same.{validate_sealed_slot_same}

-- The operation releases this very slot, at this place.
abbrev pub frees : ℕ → SealedSlot → Operation → Bool
frees k x (release slot) = slot.index == k && slot_eq x slot
frees k x _ = false

module _ {W : Type 0} (storage : Storage W) (sha1 sha256 : Bytes → Text) (chunk_bytes : ℕ) (k : ℕ)
    (x : SealedSlot) where
  abbrev pub Holds : Spool W → Type 0
  Holds s = place_at k s ≡ some (holds x)

  -- Nothing that is put at this place changes the slot.
  abbrev IsApart : ℕ → Type 0
  IsApart j = (p : Place) (s : Spool W) → Holds s → Holds (set_place j p s)

  abbrev Stands : {A : Type 0} → Action (Spool W) A → Type 0
  Stands m = (s : Spool W) → Holds s → After (λ a t. Holds t) (λ t. Holds t) (m s)

  moved-Stands :
      {A : Type 0} (p : Result A × W) (s : Spool W)
      → Holds s
      → After (λ a t. Holds t) (λ t. Holds t) (moved s p)
  moved-Stands (ok a, w) s q = After-ok _ _ _ _ q
  moved-Stands (err e, w) s q = After-err _ _ _ _ q

  call-Stands : {A : Type 0} (m : Action W A) → Stands (call m)
  call-Stands m s q = moved-Stands (m s.world) s q

  lift-Stands : {A : Type 0} (r : Result A) → Stands (lift {S = Spool W} r)
  lift-Stands (ok a) s q = After-ok _ _ _ _ q
  lift-Stands (err e) s q = After-err _ _ _ _ q

  write-Stands : (fuel : ℕ) (bytes : Bytes) → Stands (write_rest storage fuel bytes)
  unfolding write_rest
  write-Stands fuel [] s q = After-ok _ _ _ _ q
  write-Stands zero (b ∷ bytes) s q = After-err _ _ _ _ q
  write-Stands (suc fuel) (b ∷ bytes) s q =
      After-continue _ _ _ _ _ (call-Stands (storage.write (b ∷ bytes)) s q) λ n t q.
        After-continue _ _ _ _ _
          (lift-Stands (require (ltb 0 n && leb n (length (b ∷ bytes))) spool_error) t q)
          λ u t q. After-next _ _ _ _ _ (
            write-Stands fuel (drop n (b ∷ bytes))
              (record t { file = t.file ++ take n (b ∷ bytes) }) q)

  write_all-Stands : (bytes : Bytes) → Stands (write_all storage bytes)
  unfolding write_all
  write_all-Stands bytes s q = write-Stands (length bytes) bytes s q

  part-Stands : (part : Option Bytes) → Stands (take_part storage part)
  unfolding take_part
  part-Stands none s q = After-ok _ _ _ _ q
  part-Stands (some []) s q = After-err _ _ _ _ q
  part-Stands (some (b ∷ part)) s q = After-ok _ _ _ _ q

  refill-Stands : (pending : Bytes) → Stands (refill storage pending)
  unfolding refill
  refill-Stands (b ∷ pending) s q = After-ok _ _ _ _ q
  refill-Stands [] s q = After-continue _ _ _ _ _ (call-Stands storage.read_source s q) λ part t q.
      After-continue _ _ _ _ _ (lift-Stands (no_failure t.failure) t q)
        λ u t q. part-Stands part t q

  fill-Stands : (fuel room : ℕ) → Stands (fill storage fuel room)
  unfolding fill
  fill-Stands zero room s q = After-ok _ _ _ _ q
  fill-Stands (suc fuel) zero s q = After-ok _ _ _ _ q
  fill-Stands (suc fuel) (suc room) s q =
      After-continue _ _ _ _ _ (lift-Stands (no_failure s.failure) s q) λ u t q.
        After-next _ _ _ _ _ (
          After-continue _ _ _ _ _ (refill-Stands t.pending t q) λ u v q. After-next _ _ _ _ _ (
            let bytes = take (suc room) v.pending in
            After-if _ _ v.done _ _ v (λ over. After-ok _ _ _ _ q)
              λ going.
                After-continue (λ u w. Holds w) _ _ _ _
                  (After-continue _ _ _ _ _ (write_all-Stands bytes v q)
                    λ u w q. After-ok (λ u w. Holds w) _ _ _ q)
                  λ u w q. fill-Stands fuel (suc room - length bytes) w q))

  holds_used : (p : Place) → p ≡ holds x → is_free p ≡ true → ⊥
  holds_used free e h = ground arith
  holds_used writing e h = ground arith
  holds_used (holds y) e h = ground arith

  zeroth-IsApart : (s : Spool W) → Holds s → is_free s.zeroth ≡ true → IsApart 0
  zeroth-IsApart s q free_there p t h = ground (arith, holds_used s.zeroth)

  first-IsApart : (s : Spool W) → Holds s → is_free s.first ≡ true → IsApart 1
  first-IsApart s q free_there p t h = ground (arith, holds_used s.first)

  abbrev Gives : Option ℕ → Type 0
  Gives none = Unit
  Gives (some j) = IsApart j

  acquire-Stands :
      (s : Spool W) → Holds s → After (λ o t. Holds t × Gives o) (λ t. Holds t) (acquire s)
  unfolding acquire
  acquire-Stands s q = After-continue _ _ _ _ _ (lift-Stands (no_failure s.failure) s q) λ u t q.
      After-next _ _ _ _ _ (
        After-if _ _ (is_free t.zeroth) _ _ t
          (λ e.
            let apart = zeroth-IsApart t q e in
            After-next _ _ _ _ _ (After-ok _ _ _ _ (apart writing t q, apart)))
          λ e.
            After-if _ _ (is_free t.first) _ _ t
              (λ e.
                let apart = first-IsApart t q e in
                After-next _ _ _ _ _ (After-ok _ _ _ _ (apart writing t q, apart)))
              λ e. After-ok _ _ _ _ (q, tt))

  seal-Stands :
      (j : ℕ) (bytes : Bytes)
      → IsApart j
      → Stands (seal_slot storage sha1 sha256 chunk_bytes j bytes)
  unfolding seal_slot
  seal-Stands j [] apart s q =
      After-continue _ _ _ _ _ (call-Stands (storage.remove_empty j) s q)
        λ u t q. After-next _ _ _ _ _ (After-ok _ _ _ _ (apart free t q))
  seal-Stands j (b ∷ bytes) apart s q =
      After-continue _ _ _ _ _ (call-Stands (storage.seal j _ _ _) s q) λ y t q.
        After-next _ _ _ _ _ (After-next _ _ _ _ _ (After-ok _ _ _ _ (apart (holds y) t q)))

  in-Stands : (o : Option ℕ) → Gives o → Stands (produce_in storage sha1 sha256 chunk_bytes o)
  unfolding produce_in
  in-Stands none apart s q = After-ok _ _ _ _ q
  in-Stands (some j) apart s q =
      After-continue _ _ _ _ _ (call-Stands (storage.create j) s q) λ u t q. After-next _ _ _ _ _ (
        After-continue _ _ _ _ _
          (fill-Stands chunk_bytes chunk_bytes (record t { file = []; hashed = [] }) q)
          λ u t q.
            After-continue _ _ _ _ _ (call-Stands storage.sync t q)
              λ u t q. After-next _ _ _ _ _ (seal-Stands j t.hashed apart t q))

  produce-Stands : Stands (produce storage sha1 sha256 chunk_bytes)
  unfolding produce
  produce-Stands s q = After-next _ _ _ _ _ (
      After-if _ _ s.done _ _ s (λ e. After-ok _ _ _ _ q)
        λ e. After-continue _ _ _ _ _ (acquire-Stands s q) λ o t q. in-Stands o q.1 t q.0)

  same-Stands :
      (slot : SealedSlot) (s : Spool W)
      → Holds s
      → After
          (λ u t.
            Holds t
            × ((y : SealedSlot) × (held (place_at slot.index t) ≡ ok y) × (slot_eq y slot ≡ true)))
          (λ t. Holds t)
          (require_same slot s)
  unfolding require_same
  same-Stands slot s q =
      let Kept = λ (t : Spool W). (t ≡ s) × Holds t in
      After-next _ _ _ _ _ (
        After-continue _ _ _ _ _
          (After-lift Kept Holds (held (place_at slot.index s)) s (refl, q) q)
          λ y t a.
            let found : held (place_at slot.index t) ≡ ok y =
              ap (λ v. held (place_at slot.index v)) a.1.0 ∙ a.0 in
            let There = λ (v : Spool W). Holds v × (held (place_at slot.index v) ≡ ok y) in
            After-continue _ _ _ _ _
              (After-lift There Holds (validate_sealed_slot (sealed_slot_value slot)) t
                (a.1.1, found) a.1.1)
              λ z t b.
                After-mono _ _ _ _
                  (After-lift There Holds (require (slot_eq y z) spool_error) t b.1 b.1.0)
                  λ u t c.
                    let equal : slot_eq y z ≡ true = ground arith in
                    let same : z ≡ slot = (validate_sealed_slot_same slot z b.0).0 in
                    (c.1.0, (y, c.1.1, subst (λ v. slot_eq y v ≡ true) same equal)))

  stays-IsApart :
      (j : ℕ) (y : SealedSlot) (s : Spool W)
      → (j == k) ≡ false
      → held (place_at j s) ≡ ok y
      → IsApart j
  stays-IsApart j y s apart e p t h = ground arith

  other-IsApart :
      (slot : SealedSlot) (s : Spool W)
      → frees k x (release slot) ≡ false
      → Holds s
      → (y : SealedSlot) → held (place_at slot.index s) ≡ ok y
      → slot_eq y slot ≡ true
      → IsApart slot.index
  other-IsApart slot s stays q y e equal = elim (Bool-cases (slot.index == k)) [
    | inr apart ↦ stays-IsApart slot.index y s apart e
    | inl here ↦
        let there : slot.index ≡ k = ground arith in
        let read : held (some (holds x)) ≡ ok y =
          sym (ap held (ap (λ j. place_at j s) there ∙ q)) ∙ e in
        let same : y ≡ x = (validate_sealed_slot_same x y read).0 in
        let freed : slot_eq x slot ≡ true = subst (λ v. slot_eq v slot ≡ true) same equal in
        absurd (ground arith)
  ]

  handled-Stands :
      (o : Result Turn) (s : Spool W)
      → Caught (λ u t. Holds t) (λ t. Holds t) o s
      → After (λ u t. Holds t) (λ t. Holds t) (or_abort storage sha1 sha256 chunk_bytes o s)
  handled-Stands (ok turn) s q = After-ok _ _ _ _ q
  handled-Stands (err e) s q = After-next _ _ _ _ _ (After-next _ _ _ _ _ (After-err _ _ _ _ q))

  next_turn-Stands : Stands (next_turn storage sha1 sha256 chunk_bytes)
  unfolding next_turn
  next_turn-Stands s q =
      After-continue _ _ _ _ _ (After-caught _ _ _ _ (produce-Stands s q))
        λ o t q. handled-Stands o t q

  operate-Stands :
      (o : Operation) (s : Spool W)
      → frees k x o ≡ false
      → Holds s
      → After (λ a t. Holds t) (λ t. Holds t) (operate storage sha1 sha256 chunk_bytes o s)
  unfolding operate read_slot reclaim
  operate-Stands next_slot s stays q = next_turn-Stands s q
  operate-Stands (read_back slot) s stays q =
      After-continue (λ u t. Holds t) _ _ _ _
        (After-continue _ _ _ _ _ (same-Stands slot s q)
          λ u t q. call-Stands (storage.read slot) t q.0)
        λ u t q. After-ok _ _ _ _ q
  operate-Stands (release slot) s stays q =
      After-continue (λ u t. Holds t) _ _ _ _
        (After-continue _ _ _ _ _ (same-Stands slot s q) λ u t q.
          let apart = other-IsApart slot t stays q.0 q.1.0 q.1.1 q.1.2 in
          After-continue _ _ _ _ _ (call-Stands (storage.remove slot) t q.0)
            λ u t q. After-ok (λ u t. Holds t) _ _ _ (apart free t q))
        λ u t q. After-ok _ _ _ _ q
  operate-Stands (give_up e) s stays q = After-next _ _ _ _ _ (After-ok _ _ _ _ q)

  -- Whatever is done with a spool, and however it ends, a sealed slot stays at its place unless this
  -- very slot is released: the release of any other slot, also one that names the same place, leaves
  -- it there.
  pub spool_keeps :
      (o : Operation) (s : Spool W)
      → frees k x o ≡ false
      → place_at k s ≡ some (holds x)
      → place_at k (operate storage sha1 sha256 chunk_bytes o s).1 ≡ some (holds x)
  spool_keeps o s stays q = After-both _ _ _ (operate-Stands o s stays q) (λ a t q. q)
