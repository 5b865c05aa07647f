-- ===== src/Retention/Protection/Collecting.antt =====
-- The whole collection: every input of it is covered by its result.
use oracle_free_arch_vps.Base.{
  All, Bool-cases, List, Member, Result, Result-cases, Text, [], arith, inl, inr, lookup, map,
  member, ok, some, subst, text_eq, true, ◌∷◌, ◌≡◌,
}
use oracle_free_arch_vps.Contract.Names.{manifest, receipt}
use oracle_free_arch_vps.Contract.Refs.{ManifestRef, ObjectRef}
use oracle_free_arch_vps.Contract.Slots.{PutIntent}
use oracle_free_arch_vps.Retention.Protection.{
  DryRun, Protected, References, collect, insert_name, no_references, none_protected, protect_all,
  protect_documents, protect_graph, sort_names,
}
use oracle_free_arch_vps.Retention.Protection.Covering.{Extends-trans, Holds, protect_all-Extends}
use oracle_free_arch_vps.Retention.Protection.Reaching.{
  Holds-later, Reached, Reached-later, Reserved, protect_documents-Reached, reserve_all-Extends,
}

member-insert_name :
    (n x : Text) (xs : List Text) → member n (x ∷ xs) ≡ true → member n (insert_name x xs) ≡ true
unfolding insert_name
member-insert_name n x [] h = h
member-insert_name n x (y ∷ ys) h = ground (arith, member-insert_name n x ys)

member-sort_names :
    (n : Text) (xs : List Text) → member n xs ≡ true → member n (sort_names xs) ≡ true
unfolding sort_names
member-sort_names n [] h = h
member-sort_names n (x ∷ xs) h =
    member-insert_name n x (sort_names xs) (ground (arith, member-sort_names n xs))

lookup-Member :
    (k : Text) (r : ObjectRef) (m : List (Text × ObjectRef))
    → lookup k m ≡ some r
    → Member r (map (λ e. e.1) m)
unfolding lookup
lookup-Member k r [] h = absurd (ground arith)
lookup-Member k r ((j, v) ∷ m) h = elim (Bool-cases (text_eq j k)) [
  | inl e ↦ inl (ground arith)
  | inr e ↦ inr (lookup-Member k r m (ground arith))
]

-- The result protects the object.
abbrev pub IsProtected : DryRun → ObjectRef → Type 0
IsProtected d r = Member r d.objects

-- The result protects a document's object; the reader reads the document, and all that it finds
-- is protected.
abbrev pub IsReached : (ManifestRef → Result (List ObjectRef)) → DryRun → ManifestRef → Type 0
IsReached references d m =
    IsProtected d m.object
    × ((rs : List ObjectRef) × (references m ≡ ok rs) × All (IsProtected d) rs)

abbrev listed : Protected → DryRun
listed s = record { objects = map (λ e. e.1) s.objects; unresolved_names = sort_names s.unresolved }

All-listed :
    (s : Protected) (rs : List ObjectRef) → All (Holds s) rs → All (IsProtected (listed s)) rs
All-listed s [] a = tt
All-listed s (r ∷ rs) a = (lookup-Member r.file_id r s.objects a.0, All-listed s rs a.1)

All-IsReached :
    (s : Protected) (references : ManifestRef → Result (List ObjectRef)) (ds : List ManifestRef)
    → All (Reached references s) ds
    → All (IsReached references (listed s)) ds
All-IsReached s references [] a = tt
All-IsReached s references (d ∷ ds) ((o, (rs, e, found)), a) = (
  (lookup-Member _ _ s.objects o, (rs, e, All-listed s rs found)),
  All-IsReached s references ds a,
)

All-named :
    (s : Protected) (is : List PutIntent)
    → All (Reserved s) is
    → All (λ i. member i.name (sort_names s.unresolved) ≡ true) is
All-named s [] a = tt
All-named s (i ∷ is) a = (member-sort_names i.name s.unresolved a.0, All-named s is a.1)

module _ (references role_references : ManifestRef → Result (List ObjectRef)) where
  graph-Reached :
      (value : References) (receipts : List ManifestRef) (s : Protected)
      → protect_graph references role_references value receipts ≡ ok s
      → All (Reached references s) value.accepted_roots
        × All (Reached role_references s) value.sealed_role_manifests
        × All (Reached no_references s) receipts
        × All (Holds s) value.active_objects
        × All (Reserved s) value.unresolved_puts
  unfolding protect_graph
  graph-Reached value receipts s h = elim (Result-cases (roots_of none_protected)) [
    | inr (e, q) ↦ absurd (ground arith)
    | inl (a, q) ↦ elim (Result-cases (roles_of a)) [
      | inr (e, p) ↦ absurd (ground arith)
      | inl (b, p) ↦ elim (Result-cases (receipts_of b)) [
        | inr (e, r) ↦ absurd (ground arith)
        | inl (c, r) ↦ elim (Result-cases (protect_all c value.active_objects)) [
          | inr (e, o) ↦ absurd (ground arith)
          | inl (d, o) ↦
              let (x1, y1) = protect_documents-Reached _ _ references _ a _ q in
              let (x2, y2) = protect_documents-Reached _ _ role_references a b _ p in
              let (x3, y3) = protect_documents-Reached _ _ no_references b c _ r in
              let (x4, y4) = protect_all-Extends c d _ o in
              let (x5, y5) = reserve_all-Extends d s value.unresolved_puts (ground arith) in
              let x45 = Extends-trans x4 x5 in
              let x345 = Extends-trans x3 x45 in
              (
                Reached-later references _ (Extends-trans x2 x345) y1,
                Reached-later role_references _ x345 y2,
                Reached-later no_references _ x45 y3,
                Holds-later x5 _ y4,
                y5,
              )
        ]
      ]
    ]
  ]
    where
      roots_of : Protected → Result Protected
      roots_of t =
          protect_documents manifest "Protected root kind invalid" references t value.accepted_roots

      roles_of : Protected → Result Protected
      roles_of t =
          protect_documents manifest "Protected role kind invalid" role_references t
            value.sealed_role_manifests

      receipts_of : Protected → Result Protected
      receipts_of t =
          protect_documents receipt "Protected receipt kind invalid" no_references t receipts

  -- All inputs of the collection are covered by the result.
  abbrev pub Covers : References → List ManifestRef → DryRun → Type 0
  Covers value receipts d =
      All (IsReached references d) value.accepted_roots
      × All (IsReached role_references d) value.sealed_role_manifests
      × All (IsReached no_references d) receipts
      × All (IsProtected d) value.active_objects
      × All (λ i. member i.name d.unresolved_names ≡ true) value.unresolved_puts

  -- When the collection succeeds, it protects the object of every accepted root, every sealed role
  -- manifest and every receipt, all objects that the reader finds in those roots and manifests, and
  -- every active object; and it names every PUT that is unresolved.
  pub collect_covers :
      (value : References) (receipts : List ManifestRef) (d : DryRun)
      → collect references role_references value receipts ≡ ok d
      → All (IsReached references d) value.accepted_roots
        × All (IsReached role_references d) value.sealed_role_manifests
        × All (IsReached no_references d) receipts
        × All (IsProtected d) value.active_objects
        × All (λ i. member i.name d.unresolved_names ≡ true) value.unresolved_puts
  unfolding collect
  collect_covers value receipts d h =
      elim (Result-cases (protect_graph references role_references value receipts)) [
        | inr (e, q) ↦ absurd (ground arith)
        | inl (s, q) ↦
            let same : listed s ≡ d = ground arith in
            let (a, b, c, o, n) = graph-Reached value receipts s q in
            subst (Covers value receipts) same (
              All-IsReached s references _ a,
              All-IsReached s role_references _ b,
              All-IsReached s no_references _ c,
              All-listed s _ o,
              All-named s _ n,
            )
      ]
