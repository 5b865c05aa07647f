-- ===== src/Retention/Plan/Sparing.antt =====
-- The plan's candidates: none is protected, each is listed as it is expected.
use oracle_free_arch_vps.Base.{
  All, Bool-cases, List, Member, Member-All, Option, Option-cases, Result, Result-cases, Text, [],
  arith, false, inl, inr, is_some, lookup, map, member, ok, some, subst, sym, text_eq, text_eq_refl,
  text_eq→eq, true, ◌∷◌, ◌≡◌, ◌≢◌,
}
use oracle_free_arch_vps.Json.{Value}
use oracle_free_arch_vps.Contract.Refs.{Cursor, ListedVersion, ManifestRef, ObjectRef}
use oracle_free_arch_vps.Retention.Protection.{DryRun}
use oracle_free_arch_vps.Retention.Inventory.{Listing, list_all, version_value}
use oracle_free_arch_vps.Retention.Snapshot.{Snapshot, State, protection_state, sort_refs}
use oracle_free_arch_vps.Retention.Plan.{
  RetentionPlan, find_ref, is_candidate, keep_candidates, obsolete_entries, plan_retention,
  require_all, require_present, version_of,
}
use oracle_free_arch_vps.Retention.Snapshot.Protecting.{Member-sort_refs}

find_ref_missed :
    (id : Text) (rs : List ObjectRef)
    → is_some (find_ref id rs) ≡ false
    → All (λ x. x.file_id ≢ id) rs
unfolding find_ref
find_ref_missed id [] h = tt
find_ref_missed id (r ∷ rs) h = elim (Bool-cases (text_eq r.file_id id)) [
  | inl hit ↦ absurd (ground arith)
  | inr miss ↦ (λ e. absurd (cc (e, miss, text_eq_refl id)), find_ref_missed id rs (ground arith))
]

Member-keep_candidates :
    (d : DryRun) (r : ObjectRef) (rs : List ObjectRef)
    → Member r (keep_candidates d rs)
    → (is_candidate d r ≡ true) × Member r rs
unfolding keep_candidates
Member-keep_candidates d r [] m = absurd m
Member-keep_candidates d r (x ∷ xs) m = elim (Bool-cases (is_candidate d x)) [
  | inl e ↦ elim (rw e at m) [
    | inl here ↦ (subst (λ y. is_candidate d y ≡ true) (sym here) e, inl here)
    | inr there ↦ let (a, b) = Member-keep_candidates d r xs there in (a, inr b)
  ]
  | inr e ↦ let (a, b) = Member-keep_candidates d r xs (rw e at m) in (a, inr b)
]

-- The listing shows the object, with the same name, size, hash and time, up to the digest.
abbrev pub IsListed : (Value → Text) → Listing → ObjectRef → Type 0
IsListed sha versions r =
    (v : ListedVersion) × (lookup r.file_id versions.objects ≡ some v)
    × (sha (version_value v) ≡ sha (version_value (version_of r)))

module _ (sha : Value → Text) where
  require_present-IsListed :
      (versions : Listing) (r : ObjectRef)
      → require_present sha versions.objects r ≡ ok tt
      → IsListed sha versions r
  unfolding require_present
  require_present-IsListed versions r h = elim (Option-cases (lookup r.file_id versions.objects)) [
    | inl e ↦ absurd (ground arith)
    | inr (v, e) ↦ (v, e, text_eq→eq _ _ (ground arith))
  ]

  require_all-IsListed :
      (versions : Listing) (rs : List ObjectRef)
      → require_all sha versions.objects rs ≡ ok tt
      → All (IsListed sha versions) rs
  unfolding require_all
  require_all-IsListed versions [] h = tt
  require_all-IsListed versions (r ∷ rs) h = (
    require_present-IsListed versions r (ground arith),
    require_all-IsListed versions rs (ground arith),
  )

  module _ (references role_references : ManifestRef → Result (List ObjectRef))
      (versions_page : Option Cursor → Result Value) where
    -- What a plan rests on: the state, the listing, and the references of obsolete captures.
    plan_parts :
        (snapshot : Snapshot) (p : RetentionPlan)
        → plan_retention sha references role_references versions_page snapshot ≡ ok p
        → (s : State) × (versions : Listing) × (obsolete : List (Text × ObjectRef))
          × (protection_state sha references role_references snapshot ≡ ok s)
          × (list_all versions_page ≡ ok versions)
          × (require_all sha versions.objects (map (λ e. e.1) obsolete) ≡ ok tt)
          × (p.candidates ≡ sort_refs (keep_candidates s.protected_set (map (λ e. e.1) obsolete)))
          × (p.retained_capture_ids ≡ s.retained_capture_ids)
    unfolding plan_retention
    plan_parts snapshot p h =
        elim (Result-cases (protection_state sha references role_references snapshot)) [
          | inr (e, q) ↦ absurd (ground arith)
          | inl (s, q) ↦ elim (Result-cases (list_all versions_page)) [
            | inr (e, l) ↦ absurd (ground arith)
            | inl (versions, l) ↦
                elim (Result-cases
                  (obsolete_entries sha references role_references s.protected_set [] s.obsolete)) [
                    | inr (e, o) ↦ absurd (ground arith)
                    | inl (obsolete, o) ↦
                        (s, versions, obsolete, q, l, ground arith, ground arith, ground arith)
                  ]
          ]
        ]

    -- When a plan is made, each of its candidates has another identity than every protected
    -- object, is not the name of a PUT that is unresolved, and the listing shows it as it is
    -- expected, up to the digest; the plan retains the captures that the state retains.
    pub plan_spares :
        (snapshot : Snapshot) (p : RetentionPlan) (r : ObjectRef)
        → plan_retention sha references role_references versions_page snapshot ≡ ok p
        → Member r p.candidates
        → (s : State) × (versions : Listing) × (protection_state sha references role_references
              snapshot
            ≡ ok s)
          × (list_all versions_page ≡ ok versions)
          × All (λ x. x.file_id ≢ r.file_id) s.protected_set.objects
          × (member r.file_name s.protected_set.unresolved_names ≡ false)
          × IsListed sha versions r
          × (p.retained_capture_ids ≡ s.retained_capture_ids)
    plan_spares snapshot p r h m =
        let (s, versions, obsolete, q, l, listed, made, retained) = plan_parts snapshot p h in
        let sorted = (Member-sort_refs r _).0 (subst (Member r) made m) in
        let (free, among) = Member-keep_candidates s.protected_set r _ sorted in
        (
          s,
          versions,
          q,
          l,
          find_ref_missed r.file_id s.protected_set.objects (ground arith),
          ground arith,
          Member-All (IsListed sha versions) r _ (require_all-IsListed versions _ listed) among,
          retained,
        )
