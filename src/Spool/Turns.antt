-- ===== src/Spool/Turns.antt =====
-- A turn of the spool's generator, and what holds between the turns.
use oracle_free_arch_vps.Base.{
  All, All-append, Bool, List, Option, Text, [], ap, append-nil, append_assoc, arith, drop, false,
  inl, inr, length, none, refl, some, subst, suc, sym, take, true, zero, ℕ, ◌++◌, ◌-◌, ◌∙◌, ◌∷◌,
  ◌≡◌, ◌≤◌,
}
use oracle_free_arch_vps.Actions.Triples.{
  After, After-continue, After-if, After-mono, After-next, After-ok,
}
use oracle_free_arch_vps.Spool.{
  Bytes, Sealing, Spool, Storage, acquire, fill, is_free, produce, produce_in, seal_slot,
  sealing_of, write_all,
}
use oracle_free_arch_vps.Spool.Cutting.{
  Filled, Filling, IsFull, IsShort, Refilled, Writes, call-Same, check-Refilled, consumed-Filling,
  length-take-pos, refill-Refilled, sealed_bytes, sealed_bytes-append, write_rest-Writes,
}

module _ {W : Type 0} (storage : Storage W) (chunk_bytes : ℕ) where
  write_all-Writes :
      (bytes : Bytes) (s : Spool W)
      → After (λ u t. Writes storage s bytes t) (λ t. Unit) (write_all storage bytes s)
  unfolding write_all
  write_all-Writes bytes s = write_rest-Writes storage (length bytes) bytes s

  less_room :
      (fuel room : ℕ) (pending : Bytes)
      → suc room ≤ suc fuel
      → 1 ≤ length pending
      → suc room - length (take (suc room) pending) ≤ fuel
  less_room fuel room pending few some_left =
      let one = length-take-pos storage chunk_bytes room pending some_left in omega arith

  pending_left :
      (room : ℕ) (t v : Spool W)
      → Refilled storage chunk_bytes t.sealed room v
      → v.done ≡ false
      → 1 ≤ length v.pending
  pending_left room t v (a, p, q, r, inl (d, e)) going = absurd (ground arith)
  pending_left room t v (a, p, q, r, inr (d, e)) going = e

  ended-Filled :
      (room : ℕ) (s t v : Spool W)
      → t.sealed ≡ s.sealed
      → Refilled storage chunk_bytes t.sealed room v
      → v.done ≡ true
      → Filled storage chunk_bytes s.sealed v
  ended-Filled room s t v same (a, p, q, r, inl (d, e)) over =
      (a ∙ same, p, q, omega arith, inl (d, e))
  ended-Filled room s t v same (a, p, q, r, inr (d, e)) over = absurd (ground arith)

  fill-Filled :
      (fuel room : ℕ) (s : Spool W)
      → room ≤ fuel
      → Filling storage chunk_bytes room s
      → After (λ u t. Filled storage chunk_bytes s.sealed t) (λ t. Unit) (fill storage fuel room s)
  unfolding fill
  fill-Filled zero room s few (p, q, r, d) =
      After-ok _ _ _ _ (refl, p, q, omega arith, inr (d, omega arith))
  fill-Filled (suc fuel) zero s few (p, q, r, d) =
      After-ok _ _ _ _ (refl, p, q, omega arith, inr (d, omega arith))
  fill-Filled (suc fuel) (suc room) s few p =
      After-continue _ _ _ _ _ (check-Refilled storage chunk_bytes (λ t. t ≡ s) s refl) λ u t q.
        After-next _ _ _ _ _ (
          let kept : Filling storage chunk_bytes (suc room) t =
            subst (Filling storage chunk_bytes (suc room)) (sym q) p in
          After-continue _ _ _ _ _
            (refill-Refilled storage chunk_bytes (suc room) t.pending t kept refl)
            λ u v r. After-next _ _ _ _ _ (
              After-if _ _ v.done _ _ v
                (λ over.
                  After-ok _ _ _ _ (ended-Filled (suc room) s t v (ap (λ x. x.sealed) q) r over))
                (λ going.
                  let bytes = take (suc room) v.pending in
                  let rest = drop (suc room) v.pending in
                  After-continue
                    (λ u w.
                      Filling storage chunk_bytes (suc room - length bytes) w
                      × (w.sealed ≡ s.sealed))
                    _ _ _ _
                    (After-continue _ _ _ _ _ (write_all-Writes bytes v) λ u w x. After-ok _ _ _ _ (
                      consumed-Filling storage chunk_bytes room t.sealed v w r going x,
                      x.1 ∙ r.0 ∙ ap (λ y. y.sealed) q,
                    ))
                    λ u w x.
                      After-mono _ _ _ _
                        (fill-Filled fuel (suc room - length bytes) w
                          (less_room fuel room v.pending few (pending_left (suc room) t v r going))
                          x.0)
                        λ u y z. subst (λ l. Filled storage chunk_bytes l y) x.1 z)))

  module _ (sha1 sha256 : Bytes → Text) where
    -- Between the turns: the slots and what is pending are what the source has given, in order; all
    -- slots are full while the source has more, and all but the last when it has ended.
    abbrev pub IsCut : Bool → List Sealing → Type 0
    IsCut false xs = All (IsFull storage chunk_bytes) xs
    IsCut true xs =
        (ys : List Sealing) × (zs : List Sealing) × (xs ≡ ys ++ zs)
        × All (IsFull storage chunk_bytes) ys
        × (length zs ≤ 1)
        × All (IsShort storage chunk_bytes) zs

    -- `seal` was told the size and the digests of what is in the file.
    abbrev pub IsTold : Sealing → Type 0
    IsTold x =
        (x.size ≡ length x.content) × (x.sha1 ≡ sha1 x.content) × (x.sha256 ≡ sha256 x.content)

    abbrev pub Lossless : Spool W → Type 0
    Lossless s =
        (s.received ≡ sealed_bytes s.sealed ++ s.pending)
        × IsCut s.done s.sealed
        × All IsTold s.sealed
        × (s.done ≡ true → s.pending ≡ [])

    -- What one more slot of these bytes makes of a filled spool.
    pieces :
        (s : Spool W) (x : Sealing)
        → s.received ≡ sealed_bytes s.sealed ++ (s.hashed ++ s.pending)
        → s.hashed ≡ x.content
        → s.received ≡ sealed_bytes (s.sealed ++ x ∷ []) ++ s.pending
    pieces s x p e = rw (sealed_bytes-append s.sealed x) (
        p
        ∙ ap (λ t. sealed_bytes s.sealed ++ (t ++ s.pending)) e
        ∙ sym (append_assoc (sealed_bytes s.sealed) x.content s.pending))

    one_more-IsCut :
        (xs : List Sealing) (x : Sealing) (over : Bool) (s : Spool W)
        → All (IsFull storage chunk_bytes) xs
        → 1 ≤ length x.content
        → Filled storage chunk_bytes xs s
        → s.hashed ≡ x.content
        → s.done ≡ over
        → IsCut over (xs ++ x ∷ [])
    one_more-IsCut xs x true s full pos (a, p, q, r, c) e d =
        let few : length x.content ≤ chunk_bytes = subst (λ t. length t ≤ chunk_bytes) e r in
        (xs, x ∷ [], refl, full, omega arith, ((pos, few), tt))
    one_more-IsCut xs x false s full pos (a, p, q, r, inl (over, z)) e d = absurd (ground arith)
    one_more-IsCut xs x false s full pos (a, p, q, r, inr (going, all)) e d =
        All-append (IsFull storage chunk_bytes) xs (x ∷ []) full
          (subst (λ t. length t ≡ chunk_bytes) e all, tt)

    still_pending :
        (xs : List Sealing) (s : Spool W)
        → Filled storage chunk_bytes xs s
        → s.done ≡ true
        → s.pending ≡ []
    still_pending xs s (a, p, q, r, inl (over, z)) d = z
    still_pending xs s (a, p, q, r, inr (going, all)) d = absurd (ground arith)

    ended-Lossless :
        (xs : List Sealing) (s : Spool W)
        → All (IsFull storage chunk_bytes) xs
        → All IsTold xs
        → 1 ≤ chunk_bytes
        → Filled storage chunk_bytes xs s
        → s.hashed ≡ []
        → Lossless s
    ended-Lossless xs s full told pos (a, p, q, r, inr (going, all)) e =
        let none_left : 0 ≡ chunk_bytes = subst (λ t. length t ≡ chunk_bytes) e all in
        absurd (omega arith)
    ended-Lossless xs s full told pos (a, p, q, r, inl (over, z)) e =
        let cut : IsCut true s.sealed = (
          s.sealed,
          [],
          sym (append-nil s.sealed),
          subst (All (IsFull storage chunk_bytes)) (sym a) full,
          omega arith,
          tt,
        ) in
        (
          p ∙ ap (λ t. sealed_bytes s.sealed ++ (t ++ s.pending)) e,
          subst (λ t. IsCut t s.sealed) (sym over) cut,
          subst (All IsTold) (sym a) told,
          λ d. z,
        )

    seal-Lossless :
        (k : ℕ) (bytes : Bytes) (xs : List Sealing) (s : Spool W)
        → All (IsFull storage chunk_bytes) xs
        → All IsTold xs
        → 1 ≤ chunk_bytes
        → Filled storage chunk_bytes xs s
        → s.hashed ≡ bytes
        → After
            (λ u t. Lossless t)
            (λ t. Unit)
            (seal_slot storage sha1 sha256 chunk_bytes k bytes s)
    unfolding seal_slot
    seal-Lossless k [] xs s full told pos p e =
        After-continue _ _ _ _ _
          (call-Same storage chunk_bytes Lossless (storage.remove_empty k) s
            (λ w. ended-Lossless xs s full told pos p e))
          λ u t q. After-next _ _ _ _ _ (After-ok _ _ _ _ q)
    seal-Lossless k (b ∷ bytes) xs s full told pos p e =
        let Kept = λ (t : Spool W). Filled storage chunk_bytes xs t × (t.hashed ≡ b ∷ bytes) in
        After-continue _ _ _ _ _
          (call-Same storage chunk_bytes Kept (storage.seal k _ _ _) s (λ w. (p, e)))
          λ x t q. After-next _ _ _ _ _ (
            After-next _ _ _ _ _ (
              let more = sealing_of storage sha1 sha256 chunk_bytes x t.file (b ∷ bytes) in
              let written : t.file ≡ b ∷ bytes = q.0.2 ∙ q.1 in
              let some_bytes : 1 ≤ length t.file =
                subst (λ c. 1 ≤ length c) (sym written) (omega arith) in
              After-ok _ _ _ _ (
                pieces t more q.0.1 (sym q.0.2),
                rw q.0.0 (one_more-IsCut xs more t.done t full some_bytes q.0 (sym q.0.2) refl),
                rw q.0.0 (
                    All-append IsTold xs (more ∷ []) told (
                      (sym (ap length written), sym (ap sha1 written), sym (ap sha256 written)),
                      tt,
                    )),
                still_pending xs t q.0,
              )))

    abbrev Going : Spool W → Type 0
    Going s = Lossless s × (s.done ≡ false)

    acquire-Going : (s : Spool W) → Going s → After (λ o t. Going t) (λ t. Unit) (acquire s)
    unfolding acquire
    acquire-Going s p =
        After-continue _ _ _ _ _ (check-Refilled storage chunk_bytes Going s p) λ u t q.
          After-next _ _ _ _ _ (
            After-if _ _ (is_free t.zeroth) _ _ t (λ e. After-next _ _ _ _ _ (After-ok _ _ _ _ q))
              λ e.
                After-if _ _ (is_free t.first) _ _ t
                  (λ e. After-next _ _ _ _ _ (After-ok _ _ _ _ q)) λ e. After-ok _ _ _ _ q)

    in-Lossless :
        (k : Option ℕ) (s : Spool W)
        → 1 ≤ chunk_bytes
        → Going s
        → After (λ u t. Lossless t) (λ t. Unit) (produce_in storage sha1 sha256 chunk_bytes k s)
    unfolding produce_in
    in-Lossless none s pos p = After-ok _ _ _ _ p.0
    in-Lossless (some k) s pos p =
        After-continue _ _ _ _ _ (call-Same storage chunk_bytes Going (storage.create k) s (λ w. p))
          λ u t q. After-next _ _ _ _ _ (
            let fresh = record t { file = []; hashed = [] } in
            let full : All (IsFull storage chunk_bytes) t.sealed =
              subst (λ d. IsCut d t.sealed) q.1 q.0.1 in
            After-continue _ _ _ _ _
              (fill-Filled chunk_bytes chunk_bytes fresh (omega arith)
                (q.0.0, refl, omega arith, q.1))
              λ u v r.
                After-continue _ _ _ _ _
                  (call-Same storage chunk_bytes (Filled storage chunk_bytes t.sealed) storage.sync
                    v (λ w. r))
                  λ u w x.
                    After-next _ _ _ _ _
                      (seal-Lossless k w.hashed t.sealed w full q.0.2 pos x refl))

    pub produce-Lossless :
        (s : Spool W)
        → 1 ≤ chunk_bytes
        → Lossless s
        → After (λ u t. Lossless t) (λ t. Unit) (produce storage sha1 sha256 chunk_bytes s)
    unfolding produce
    produce-Lossless s pos p = After-next _ _ _ _ _ (
        After-if _ _ s.done _ _ s (λ e. After-ok _ _ _ _ p)
          λ e. After-continue _ _ _ _ _ (acquire-Going s (p, e)) λ k t q. in-Lossless k t pos q)
