-- ===== src/Upload/Journal/Selection.antt =====
-- A selected object is final, what is reclaimed was proved, and an end of file covers the archive.
use oracle_free_arch_vps.Base.{
  Bool, Bool-cases, List, Result-cases, Text, [], arith, false, inl, inr, insert, lookup,
  lookup-insert, ok, some, subst, text_eq, text_eq→eq, true, ◌∷◌, ◌≡◌, ◌⊎◌,
}
use oracle_free_arch_vps.Contract.Refs.{ObjectRef}
use oracle_free_arch_vps.Contract.Slots.{PutIntent}
use oracle_free_arch_vps.Upload.Records.{Entry, encoded_bytes, intent_key}
use oracle_free_arch_vps.Upload.Operations.{Journal, Logical}
use oracle_free_arch_vps.Upload.Journal.{apply, pushed, replay, replay_entry}
use oracle_free_arch_vps.Upload.Journal.Invariant.{Inv}
use oracle_free_arch_vps.Upload.Journal.Changes.{Change, first, later, quiet, update}
use oracle_free_arch_vps.Upload.Journal.Steps.{apply-Change}
use oracle_free_arch_vps.Upload.Journal.Replay.{replay_entry-Inv}

-- The logical object under `key` is committed to `r`, for these bytes.
abbrev pub Committed : Journal → Text → PutIntent → ObjectRef → Type 0
Committed s key i r =
    (item : Logical) × (lookup key s.logical ≡ some item)
    × (item.intent ≡ i)
    × (item.selected ≡ some r)

abbrev SameKey : Text → Text → Type 0
SameKey j key = (text_eq j key ≡ true) ⊎ (text_eq j key ≡ false)

-- Another key keeps its item.
insert_other :
    (j key : Text) (new item : Logical) (m : List (Text × Logical))
    → text_eq j key ≡ false
    → lookup key m ≡ some item
    → lookup key (insert j new m) ≡ some item
insert_other j key new item m miss e = rw (lookup-insert j key new m, miss) e

Change-Committed :
    {s t : Journal} (key : Text) (i : PutIntent) (r : ObjectRef)
    → Change s t
    → Committed s key i r
    → Committed t key i r
Change-Committed key i r (quiet b e n m within same) (item, found, bytes, chosen) =
    (item, cc (same, found), bytes, chosen)
Change-Committed {s} {t} key i r (update j old new had grows keeps same)
      (item, found, bytes, chosen) =
    go (Bool-cases (text_eq j key))
  where
    go : SameKey j key → Committed t key i r
    go (inl hit) =
        let k : j ≡ key = text_eq→eq j key hit in
        let e : old ≡ item = cc (had, found, k) in
        (
          new,
          rw same (rw (lookup-insert j key new s.logical, hit)),
          cc (grows.same_intent, e, bytes),
          grows.same_selection r (cc (e, chosen)),
        )
    go (inr miss) =
        (item, rw same (insert_other j key new item s.logical miss found), bytes, chosen)
Change-Committed {s} {t} key i r (first j a missing room same) (item, found, bytes, chosen) =
    go (Bool-cases (text_eq (intent_key j) key))
  where
    go : SameKey (intent_key j) key → Committed t key i r
    go (inl hit) = absurd (cc (missing, found, text_eq→eq (intent_key j) key hit))
    go (inr miss) =
        (item, rw same (insert_other (intent_key j) key _ item s.logical miss found), bytes, chosen)
Change-Committed {s} {t} key i r (later j old a had unsold same) (item, found, bytes, chosen) =
    go (Bool-cases (text_eq (intent_key j) key))
  where
    go : SameKey (intent_key j) key → Committed t key i r
    go (inl hit) =
        let k : intent_key j ≡ key = text_eq→eq (intent_key j) key hit in
        let e : old ≡ item = cc (had, found, k) in absurd (cc (unsold.2, e, chosen))
    go (inr miss) =
        (item, rw same (insert_other (intent_key j) key _ item s.logical miss found), bytes, chosen)

module _ (is_instant : Text → Bool) where
  apply-Committed :
      (s t : Journal) (e : Entry) (key : Text) (i : PutIntent) (r : ObjectRef)
      → Inv s
      → apply is_instant s e ≡ ok t
      → Committed s key i r
      → Committed t key i r
  apply-Committed s t e key i r v h c =
      Change-Committed key i r (apply-Change is_instant s t e v h) c

  replay_entry-Committed :
      (s t : Journal) (e : Entry) (key : Text) (i : PutIntent) (r : ObjectRef)
      → Inv s
      → replay_entry is_instant s e ≡ ok t
      → Committed s key i r
      → Committed t key i r
  unfolding replay_entry
  replay_entry-Committed s t e key i r v h c = elim (Result-cases (encoded_bytes e)) [
    | inr (m, p) ↦ absurd (ground arith)
    | inl (size, p) ↦ elim (Result-cases (apply is_instant s e)) [
      | inr (m, q) ↦ absurd (ground arith)
      | inl (u, q) ↦
          let same : pushed u e size ≡ t = ground arith in
          subst (λ x. Committed x key i r) same (apply-Committed s u e key i r v q c)
    ]
  ]

  -- Once an object is selected for a logical object, every longer journal that is accepted still
  -- has that logical object, with the same intent and the same selected object.
  pub replay-Committed :
      (s t : Journal) (es : List Entry) (key : Text) (i : PutIntent) (r : ObjectRef)
      → Inv s
      → replay is_instant s es ≡ ok t
      → Committed s key i r
      → Committed t key i r
  unfolding replay
  replay-Committed s t [] key i r v h c =
      let same : s ≡ t = ground arith in subst (λ x. Committed x key i r) same c
  replay-Committed s t (e ∷ es) key i r v h c = elim (Result-cases (replay_entry is_instant s e)) [
    | inr (m, p) ↦ absurd (ground arith)
    | inl (u, p) ↦
        replay-Committed u t es key i r (replay_entry-Inv is_instant s u e v p) (ground arith)
          (replay_entry-Committed s u e key i r v p c)
  ]
