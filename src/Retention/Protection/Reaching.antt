-- ===== src/Retention/Protection/Reaching.antt =====
-- Documents and names of PUTs: all that is read from them is protected, all names are reserved.
use oracle_free_arch_vps.Base.{
  All, Bool-cases, List, Result, Result-cases, String, Text, [], arith, inl, inr, member, ok, subst,
  true, ◌++◌, ◌∷◌, ◌≡◌,
}
use oracle_free_arch_vps.Contract.Fields.{object}
use oracle_free_arch_vps.Contract.Fields.Plain.{hash_same}
use oracle_free_arch_vps.Contract.Names.{Kind}
use oracle_free_arch_vps.Contract.Refs.{
  ManifestRef, ObjectRef, manifest_ref_value, validate_manifest_ref,
}
use oracle_free_arch_vps.Contract.Slots.{PutIntent, put_intent_value, validate_put_intent}
use oracle_free_arch_vps.Contract.Refs.Same.{validate_object_ref_same}
use oracle_free_arch_vps.Contract.Slots.Same.{validate_put_intent_same}
use oracle_free_arch_vps.Retention.Protection.{
  Protected, admit, protect, protect_document, protect_documents, reserve, reserve_all, reserve_new,
}
use oracle_free_arch_vps.Retention.Protection.Covering.{
  Extends, Extends-refl, Extends-trans, Holds, member-append, member-append_last, protect-Extends,
  protect_all-Extends,
}

validate_manifest_ref_object :
    (d e : ManifestRef) → validate_manifest_ref (manifest_ref_value d) ≡ ok e → e ≡ d
unfolding validate_manifest_ref object
validate_manifest_ref_object d e h = ground (
  arith,
  validate_object_ref_same d.object e.object,
  hash_same d.plaintext_sha256 e.plaintext_sha256 64,
)

-- The document's object is protected, and the reader reads it: all that it finds is protected.
abbrev pub Reached : (ManifestRef → Result (List ObjectRef)) → Protected → ManifestRef → Type 0
Reached references t d =
    Holds t d.object × ((rs : List ObjectRef) × (references d ≡ ok rs) × All (Holds t) rs)

pub Holds-later :
    {s t : Protected} → Extends s t → (rs : List ObjectRef) → All (Holds s) rs → All (Holds t) rs
Holds-later x [] a = tt
Holds-later x (r ∷ rs) a = (x.objects_kept r.file_id r a.0, Holds-later x rs a.1)

pub Reached-later :
    {s t : Protected} (references : ManifestRef → Result (List ObjectRef)) (ds : List ManifestRef)
    → Extends s t
    → All (Reached references s) ds
    → All (Reached references t) ds
Reached-later references [] x a = tt
Reached-later references (d ∷ ds) x ((o, (rs, e, found)), a) = (
  (x.objects_kept d.object.file_id d.object o, (rs, e, Holds-later x rs found)),
  Reached-later references ds x a,
)

protect_document-Reached :
    (kind : Kind) (message : String) (references : ManifestRef → Result (List ObjectRef))
    (s t : Protected) (d : ManifestRef)
    → protect_document kind message references s d ≡ ok t
    → Extends s t × Reached references t d
unfolding protect_document
protect_document-Reached kind message references s t d h =
    elim (Result-cases (validate_manifest_ref (manifest_ref_value d))) [
      | inr (e, q) ↦ absurd (ground arith)
      | inl (document, q) ↦ elim (Result-cases (protect s document.object)) [
        | inr (e, p) ↦ absurd (ground arith)
        | inl (u, p) ↦ elim (Result-cases (references document)) [
          | inr (e, f) ↦ absurd (ground arith)
          | inl (rs, f) ↦
              let same : document ≡ d = validate_manifest_ref_object d document q in
              let (a, b) = protect-Extends s u document.object p in
              let (c, found) = protect_all-Extends u t rs (ground arith) in
              (
                Extends-trans a c,
                subst (Reached references t) same (c.objects_kept _ _ b, (rs, f, found)),
              )
        ]
      ]
    ]

pub protect_documents-Reached :
    (kind : Kind) (message : String) (references : ManifestRef → Result (List ObjectRef))
    (s t : Protected) (ds : List ManifestRef)
    → protect_documents kind message references s ds ≡ ok t
    → Extends s t × All (Reached references t) ds
unfolding protect_documents
protect_documents-Reached kind message references s t [] h =
    let same : s ≡ t = ground arith in (subst (λ x. Extends s x) same (Extends-refl s), tt)
protect_documents-Reached kind message references s t (d ∷ ds) h =
    elim (Result-cases (protect_document kind message references s d)) [
      | inr (e, q) ↦ absurd (ground arith)
      | inl (u, q) ↦
          let (a, (o, (rs, e, found))) = protect_document-Reached kind message references s u d q in
          let (c, rest) = protect_documents-Reached kind message references u t ds (ground arith) in
          (Extends-trans a c, ((c.objects_kept _ _ o, (rs, e, Holds-later c rs found)), rest))
    ]

reserve_new-Extends :
    (s t : Protected) (name : Text)
    → reserve_new s name (member name s.unresolved) ≡ ok t
    → Extends s t × (member name t.unresolved ≡ true)
unfolding reserve_new admit
reserve_new-Extends s t name h = elim (Bool-cases (member name s.unresolved)) [
  | inl e ↦
      let same : s ≡ t = ground arith in
      (subst (λ x. Extends s x) same (Extends-refl s), cc (same, e))
  | inr e ↦
      let objects : t.objects ≡ s.objects = ground arith in
      let names : t.unresolved ≡ s.unresolved ++ name ∷ [] = ground arith in
      (
        record {
          objects_kept = λ k r f. rw objects f;
          names_kept = λ n f. rw names (member-append n name s.unresolved f);
        },
        rw names (member-append_last name s.unresolved),
      )
]

abbrev pub Reserved : Protected → PutIntent → Type 0
Reserved t i = member i.name t.unresolved ≡ true

reserve-Extends :
    (s t : Protected) (i : PutIntent) → reserve s i ≡ ok t → Extends s t × Reserved t i
unfolding reserve
reserve-Extends s t i h = elim (Result-cases (validate_put_intent (put_intent_value i))) [
  | inr (e, q) ↦ absurd (ground arith)
  | inl (j, q) ↦
      let same : j ≡ i = (validate_put_intent_same i j q).0 in
      let (a, b) = reserve_new-Extends s t j.name (ground arith) in (a, subst (Reserved t) same b)
]

pub reserve_all-Extends :
    (s t : Protected) (is : List PutIntent)
    → reserve_all s is ≡ ok t
    → Extends s t × All (Reserved t) is
unfolding reserve_all
reserve_all-Extends s t [] h =
    let same : s ≡ t = ground arith in (subst (λ x. Extends s x) same (Extends-refl s), tt)
reserve_all-Extends s t (i ∷ is) h = elim (Result-cases (reserve s i)) [
  | inr (e, q) ↦ absurd (ground arith)
  | inl (u, q) ↦
      let (a, b) = reserve-Extends s u i q in
      let (c, d) = reserve_all-Extends u t is (ground arith) in
      (Extends-trans a c, (c.names_kept i.name b, d))
]
