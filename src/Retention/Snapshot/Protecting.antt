-- ===== src/Retention/Snapshot/Protecting.antt =====
-- The state of protection keeps what the collection covers: sorting loses no object.
use oracle_free_arch_vps.Base.{
  All, All-append_left, Bool-cases, List, Member, Result, Result-cases, Text, [], arith, drop, inl,
  inr, length, length-take, map, ok, subst, sym, take, ◌++◌, ◌↔◌, ◌∷◌, ◌≡◌, ◌≤◌,
}
use oracle_free_arch_vps.Json.{Value}
use oracle_free_arch_vps.Contract.Refs.{ManifestRef, ObjectRef}
use oracle_free_arch_vps.Retention.Protection.{DryRun, collect, no_references}
use oracle_free_arch_vps.Retention.Protection.Collecting.{IsProtected, IsReached, collect_covers}
use oracle_free_arch_vps.Retention.Snapshot.{
  Snapshot, State, entry_capture, insert_ref, protection_state, receipts_of, ref_lt, roots_of,
  sort_catalog, sort_refs, with_roots,
}
use oracle_free_arch_vps.Retention.Snapshot.Ordering.{
  Parted, length-sort_catalog, sort_catalog-Parted,
}

Member-insert_ref :
    (r x : ObjectRef) (xs : List ObjectRef) → Member r (insert_ref x xs) ↔ Member r (x ∷ xs)
unfolding insert_ref
Member-insert_ref r x [] = (λ m. m, λ m. m)
Member-insert_ref r x (y ∷ ys) =
    let rest = Member-insert_ref r x ys in
    elim (Bool-cases (ref_lt y x)) [
      | inl e ↦ rw e (ground (arith, rest))
      | inr e ↦ rw e (λ m. m, λ m. m)
    ]

pub Member-sort_refs : (r : ObjectRef) (xs : List ObjectRef) → Member r (sort_refs xs) ↔ Member r xs
unfolding sort_refs
Member-sort_refs r [] = (λ m. m, λ m. m)
Member-sort_refs r (x ∷ xs) =
    let rest = Member-sort_refs r xs in
    let here = Member-insert_ref r x (sort_refs xs) in ground (arith, rest, here)

abbrev sorted_objects : DryRun → DryRun
sorted_objects d = record d { objects = sort_refs d.objects }

All-sorted :
    (d : DryRun) (rs : List ObjectRef)
    → All (IsProtected d) rs
    → All (IsProtected (sorted_objects d)) rs
All-sorted d [] a = tt
All-sorted d (r ∷ rs) a = ((Member-sort_refs r d.objects).1 a.0, All-sorted d rs a.1)

IsReached-sorted :
    (references : ManifestRef → Result (List ObjectRef)) (d : DryRun) (ms : List ManifestRef)
    → All (IsReached references d) ms
    → All (IsReached references (sorted_objects d)) ms
IsReached-sorted references d [] a = tt
IsReached-sorted references d (m ∷ ms) ((o, (rs, e, found)), a) = (
  ((Member-sort_refs m.object d.objects).1 o, (rs, e, All-sorted d rs found)),
  IsReached-sorted references d ms a,
)

module _ (sha : Value → Text)
    (references role_references : ManifestRef → Result (List ObjectRef)) where
  state_parts :
      (snapshot : Snapshot) (s : State)
      → protection_state sha references role_references snapshot ≡ ok s
      → let retained = take 4 (sort_catalog snapshot.catalog) in
        (d : DryRun) × (collect references role_references
            (with_roots snapshot.protection (roots_of retained))
            (receipts_of retained ++ snapshot.receipts)
          ≡ ok d)
        × (s.protected_set ≡ sorted_objects d)
        × (s.retained_capture_ids ≡ map entry_capture retained)
        × (s.obsolete ≡ drop 4 (sort_catalog snapshot.catalog))
  unfolding protection_state
  state_parts snapshot s h =
      let retained = take 4 (sort_catalog snapshot.catalog) in
      elim (Result-cases (
        collect references role_references (with_roots snapshot.protection (roots_of retained))
          (receipts_of retained ++ snapshot.receipts))) [
            | inr (e, q) ↦ absurd (ground arith)
            | inl (d, q) ↦ (d, q, ground arith, ground arith, ground arith)
          ]

  enough_catalog :
      (snapshot : Snapshot) (s : State)
      → protection_state sha references role_references snapshot ≡ ok s
      → 4 ≤ length snapshot.catalog
  unfolding protection_state
  enough_catalog snapshot s h = ground arith

  -- When the state of protection is made, it retains four captures of the catalog and holds all
  -- others to be obsolete: the two lists together are the catalog in another order, and no obsolete
  -- capture was accepted later than a retained one. It protects the root and the receipt of
  -- each retained capture and everything that the reader finds in its root.
  pub state_protects_retained :
      (snapshot : Snapshot) (s : State)
      → protection_state sha references role_references snapshot ≡ ok s
      → let retained = take 4 (sort_catalog snapshot.catalog) in
        (s.retained_capture_ids ≡ map entry_capture retained)
        × (s.obsolete ≡ drop 4 (sort_catalog snapshot.catalog))
        × (length retained ≡ 4)
        × Parted snapshot.catalog retained s.obsolete
        × All (IsReached references s.protected_set) (roots_of retained)
        × All (IsReached no_references s.protected_set) (receipts_of retained)
        × All (IsProtected s.protected_set) snapshot.protection.active_objects
  state_protects_retained snapshot s h =
      let retained = take 4 (sort_catalog snapshot.catalog) in
      let (d, q, same, ids, rest) = state_parts snapshot s h in
      let (roots, manifests, receipts, active, names) =
        collect_covers references role_references _ _ d q in
      (
        ids,
        rest,
        length-take 4 (sort_catalog snapshot.catalog)
            (omega (arith, length-sort_catalog snapshot.catalog, enough_catalog snapshot s h)),
        subst (Parted snapshot.catalog retained) (sym rest)
            (sort_catalog-Parted 4 snapshot.catalog),
        subst (λ x. All (IsReached references x) (roots_of retained)) (sym same)
            (IsReached-sorted references d _
              (All-append_left (IsReached references d) (roots_of retained) _ roots)),
        subst (λ x. All (IsReached no_references x) (receipts_of retained)) (sym same)
            (IsReached-sorted no_references d _
              (All-append_left (IsReached no_references d) (receipts_of retained) _ receipts)),
        subst (λ x. All (IsProtected x) snapshot.protection.active_objects) (sym same)
            (All-sorted d _ active),
      )
