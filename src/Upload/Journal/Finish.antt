-- ===== src/Upload/Journal/Finish.antt =====
-- Reclaimed slots, refused PUTs, and the end of a producer's stream.
use oracle_free_arch_vps.Base.{
  All-lookup, AllBelow, List, Member, Option-cases, Result-cases, Text, [], all_below, arith, inl,
  inr, is_some, length, lookup, ok, refl, some, subst, suc, sum_by, true, zero, ℕ, ◌+◌, ◌<◌, ◌∷◌,
  ◌≡◌, ◌≢◌, ◌⊎◌,
}
use oracle_free_arch_vps.Contract.Refs.{ObjectRef}
use oracle_free_arch_vps.Contract.Slots.{PutIntent, put_intent_value, validate_put_intent}
use oracle_free_arch_vps.Contract.Slots.Same.{validate_put_intent_same}
use oracle_free_arch_vps.Upload.Records.{Identity, check_identity, identity_key, intent_key}
use oracle_free_arch_vps.Upload.Operations.{
  Journal, Logical, apply_eof, apply_intent, apply_reclaimed, insert_sorted, is_complete,
  item_bytes, items_of, next_put, put_for, sort_items,
}
use oracle_free_arch_vps.Upload.Journal.Invariant.{Inv, IsCopy, IsItem, IsLinked}
use oracle_free_arch_vps.Upload.Journal.Selection.{Committed}

-- No further physical PUT is accepted for a logical object that is committed.
pub intent_refused :
    (s t : Journal) (raw i : PutIntent) (r : ObjectRef)
    → Committed s (intent_key raw) i r
    → apply_intent s raw ≢ ok t
unfolding apply_intent put_for next_put
intent_refused s t raw i r (old, found, bytes, chosen) h =
    elim (Result-cases (validate_put_intent (put_intent_value raw))) [
      | inr (x, e) ↦ ground arith
      | inl (j, e) ↦
          let same : j ≡ raw = (validate_put_intent_same raw j e).0 in
          let had : lookup (intent_key j) s.logical ≡ some old = rw same found in ground arith
    ]

-- When a reclaim is accepted in a state with the invariant, the name has a durable intent, whose
-- logical object was verified at least once and is committed to a copy of exactly the slot's bytes.
pub reclaimed_proved :
    (s t : Journal) (name : Text)
    → Inv s
    → apply_reclaimed s name ≡ ok t
    → (i : PutIntent) × (old : Logical) × (r : ObjectRef) × (lookup name s.intents ≡ some i)
      × (lookup (intent_key i) s.logical ≡ some old)
      × (old.selected ≡ some r)
      × (0 < old.verifies)
      × IsCopy r i.slot
unfolding apply_reclaimed
reclaimed_proved s t name v h = elim (Option-cases (lookup name s.intents)) [
  | inl e ↦ absurd (ground arith)
  | inr (i, e) ↦ elim (Option-cases (lookup (intent_key i) s.logical)) [
    | inl f ↦ absurd (ground arith)
    | inr (old, f) ↦ elim (Option-cases old.selected) [
      | inl g ↦ absurd (ground arith)
      | inr (r, g) ↦
          let good = All-lookup IsItem (intent_key i) old s.logical v.items f in
          let link = All-lookup (IsLinked s.logical) name i s.intents v.linked e in
          let same : link.0 ≡ old = cc (link.2, f) in
          let slots : old.intent.slot ≡ i.slot = cc (same, link.3) in
          (i, old, r, e, f, g, good.proved r g, subst (IsCopy r) slots (good.copied r g))
    ]
  ]
]

-- Sorting loses, repeats and adds nothing.
length-insert_sorted :
    (y : Logical) (ys : List Logical) → length (insert_sorted y ys) ≡ suc (length ys)
unfolding insert_sorted
length-insert_sorted y [] = refl
length-insert_sorted y (z ∷ ys) = ground (arith, length-insert_sorted y ys)

sum-insert_sorted :
    (y : Logical) (ys : List Logical)
    → sum_by item_bytes (insert_sorted y ys) ≡ item_bytes y + sum_by item_bytes ys
unfolding insert_sorted
sum-insert_sorted y [] = refl
sum-insert_sorted y (z ∷ ys) = ground (arith, sum-insert_sorted y ys)

mem-insert_sorted :
    (x y : Logical) (ys : List Logical) → Member x (insert_sorted y ys) → (x ≡ y) ⊎ Member x ys
unfolding insert_sorted
mem-insert_sorted x y [] m = m
mem-insert_sorted x y (z ∷ ys) m = ground (arith, mem-insert_sorted x y ys)

length-sort_items : (xs : List Logical) → length (sort_items xs) ≡ length xs
unfolding sort_items
length-sort_items [] = refl
length-sort_items (x ∷ xs) =
    omega (arith, length-insert_sorted x (sort_items xs), length-sort_items xs)

sum-sort_items : (xs : List Logical) → sum_by item_bytes (sort_items xs) ≡ sum_by item_bytes xs
unfolding sort_items
sum-sort_items [] = refl
sum-sort_items (x ∷ xs) = omega (arith, sum-insert_sorted x (sort_items xs), sum-sort_items xs)

mem-sort_items : (x : Logical) (xs : List Logical) → Member x (sort_items xs) → Member x xs
unfolding sort_items
mem-sort_items x [] m = m
mem-sort_items x (y ∷ xs) m =
    ground (arith, mem-insert_sorted x y (sort_items xs) m, mem-sort_items x xs)

-- A complete list has an item for each ordinal from the first on.
is_complete_lem :
    (o : ℕ) (xs : List Logical) (k : ℕ)
    → is_complete o xs ≡ true
    → k < length xs
    → (x : Logical) × Member x xs × (x.intent.ordinal ≡ o + k) × (is_some x.selected ≡ true)
unfolding is_complete
is_complete_lem o [] k h lt = absurd (omega arith)
is_complete_lem o (x ∷ xs) zero h lt = (x, inl refl, ground arith, ground arith)
is_complete_lem o (x ∷ xs) (suc k) h lt =
    let (y, m, e, chosen) = is_complete_lem (o + 1) xs k (ground arith) (omega arith) in
    (y, inr m, omega arith, chosen)

check_identity_same : (i j : Identity) → check_identity i ≡ ok j → i ≡ j
unfolding check_identity
check_identity_same i j h = ground arith

-- The three tests of an end of file, on the sorted items.
eof_tests :
    (s t : Journal) (i j : Identity) (bytes : ℕ) (sha256 : Text) (chunks : ℕ)
    → apply_eof s i bytes sha256 chunks ≡ ok t
    → check_identity i ≡ ok j
    → let items = sort_items (items_of (identity_key j) s.logical) in
      (length items ≡ chunks) × (is_complete 0 items ≡ true) × (sum_by item_bytes items ≡ bytes)
unfolding apply_eof
eof_tests s t i j bytes sha256 chunks h e = ground arith

-- Some item of the list has this ordinal and a selected object.
abbrev pub Chosen : List Logical → ℕ → Type 0
Chosen items k =
    (x : Logical) × Member x items × (x.intent.ordinal ≡ k) × (is_some x.selected ≡ true)

-- When an end of file is accepted, the producer's logical objects are as many as it names, their
-- slots add up to its byte count, and each ordinal below that number has a selected object. So an
-- end of file of no chunks is accepted only for a producer without any logical object.
pub eof_complete :
    (s t : Journal) (i : Identity) (bytes : ℕ) (sha256 : Text) (chunks : ℕ)
    → apply_eof s i bytes sha256 chunks ≡ ok t
    → let items = items_of (identity_key i) s.logical in
      (length items ≡ chunks) × (sum_by item_bytes items ≡ bytes) × AllBelow (Chosen items) chunks
eof_complete s t i bytes sha256 chunks h = elim (Result-cases (check_identity i)) [
  | inr (m, e) ↦ absurd (unfold apply_eof in ground arith)
  | inl (j, e) ↦
      let tests = eof_tests s t i i bytes sha256 chunks h (cc (e, check_identity_same i j e)) in
      let xs = items_of (identity_key i) s.logical in
      (
        omega (arith, tests.0, length-sort_items xs),
        omega (arith, tests.2, sum-sort_items xs),
        all_below (Chosen xs) chunks chunks (omega arith)
            (λ k lt. chunk_at xs k tests.0 tests.1 lt),
      )
]
  where
    chunk_at :
        (xs : List Logical) (k : ℕ)
        → length (sort_items xs) ≡ chunks
        → is_complete 0 (sort_items xs) ≡ true
        → k < chunks
        → Chosen xs k
    chunk_at xs k e c lt =
        let (x, m, o, chosen) = is_complete_lem 0 (sort_items xs) k c (omega arith) in
        (x, mem-sort_items x xs m, omega arith, chosen)
