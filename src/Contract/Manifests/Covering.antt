-- ===== src/Contract/Manifests/Covering.antt =====
-- The role manifest: its pages cover the archive.
use oracle_free_arch_vps.Base.{
  Each, List, Result-cases, arith, get_elem?, inl, inr, ok, some, sum_by, take, true, ℕ, ◌*◌, ◌≡◌,
  ◌≤◌,
}
use oracle_free_arch_vps.Profile.{limit, logical_objects, slot_bytes}
use oracle_free_arch_vps.Json.{Fields, Value, get, num}
use oracle_free_arch_vps.Contract.Fields.{bounded_array, object}
use oracle_free_arch_vps.Contract.Roles.{is_num}
use oracle_free_arch_vps.Contract.Pages.{PageRef, read_page_refs}
use oracle_free_arch_vps.Contract.Pages.Linking.{
  Linked, Linked-last, Linked-position, ManifestFor, StatesPage, page_bytes, page_count,
  read_page_refs-Linked, read_page_refs-StatesPage,
}
use oracle_free_arch_vps.Contract.Manifests.{
  RoleManifest, role_manifest_keys, validate_role_manifest,
}
use oracle_free_arch_vps.Contract.Pages.Tiling.{is_num→eq}

manifest_pages :
    (v : Value) (m : RoleManifest) (vs : List Value) (r : Fields)
    → validate_role_manifest v ≡ ok m
    → object v role_manifest_keys ≡ ok r
    → bounded_array (get r "pages") (limit logical_objects) ≡ ok vs
    → read_page_refs m.capture_id m.attempt_id 0 0 vs ≡ ok (m.pages, m.ciphertext_bytes)
unfolding validate_role_manifest
manifest_pages v m vs r h e b = ground arith

role_manifest-Linked :
    (v : Value) (m : RoleManifest)
    → validate_role_manifest v ≡ ok m
    → Linked m.capture_id m.attempt_id 0 0 m.pages m.ciphertext_bytes
role_manifest-Linked v m h = elim (Result-cases (object v role_manifest_keys)) [
  | inr (e, q) ↦ absurd (unfold validate_role_manifest in ground arith)
  | inl (r, q) ↦ elim (Result-cases (bounded_array (get r "pages") (limit logical_objects))) [
    | inr (e, b) ↦ absurd (unfold validate_role_manifest in ground arith)
    | inl (vs, b) ↦ read_page_refs-Linked _ _ _ _ vs m.pages _ (manifest_pages v m vs r h q b)
  ]
]

-- The document itself states each page reference, in this order, and the archive's bytes.
abbrev pub ManifestStates : Value → RoleManifest → Type 0
ManifestStates v m =
    (r : Fields) × (vs : List Value) × (object v role_manifest_keys ≡ ok r)
    × (bounded_array (get r "pages") (limit logical_objects) ≡ ok vs)
    × Each StatesPage vs m.pages
    × (get r "ciphertextBytes" ≡ num m.ciphertext_bytes)

manifest_bytes :
    (v : Value) (m : RoleManifest) (r : Fields)
    → validate_role_manifest v ≡ ok m
    → object v role_manifest_keys ≡ ok r
    → is_num (get r "ciphertextBytes") m.ciphertext_bytes ≡ true
unfolding validate_role_manifest
manifest_bytes v m r h e = ground arith

role_manifest-ManifestStates :
    (v : Value) (m : RoleManifest) → validate_role_manifest v ≡ ok m → ManifestStates v m
role_manifest-ManifestStates v m h = elim (Result-cases (object v role_manifest_keys)) [
  | inr (e, q) ↦ absurd (unfold validate_role_manifest in ground arith)
  | inl (r, q) ↦ elim (Result-cases (bounded_array (get r "pages") (limit logical_objects))) [
    | inr (e, b) ↦ absurd (unfold validate_role_manifest in ground arith)
    | inl (vs, b) ↦ (
      r,
      vs,
      q,
      b,
      read_page_refs-StatesPage _ _ _ _ vs m.pages _ (manifest_pages v m vs r h q b),
      is_num→eq (get r "ciphertextBytes") m.ciphertext_bytes (manifest_bytes v m r h q),
    )
  ]
]

-- In an accepted role manifest each page reference starts at the ordinal and the offset where the
-- pages before it end, its bytes fit the slots of its chunks, its object is a manifest of the same
-- capture and attempt, and the pages' bytes add up to the archive's ciphertext bytes. The
-- document itself states these references, in their order, and these ciphertext bytes.
pub role_manifest_covers :
    (v : Value) (m : RoleManifest) (i : ℕ) (p : PageRef)
    → validate_role_manifest v ≡ ok m
    → get_elem? m.pages i ≡ some p
    → (p.first_ordinal ≡ sum_by page_count (take i m.pages))
      × (p.first_offset ≡ sum_by page_bytes (take i m.pages))
      × (p.bytes ≤ p.chunk_count * limit slot_bytes)
      × ManifestFor m.capture_id m.attempt_id p
      × (m.ciphertext_bytes ≡ sum_by page_bytes m.pages)
      × ManifestStates v m
role_manifest_covers v m i p h e =
    let l = role_manifest-Linked v m h in
    let (a, b, c, d, g, n) = Linked-position l i p e in
    (
      omega arith,
      omega arith,
      g,
      n,
      omega (arith, Linked-last l),
      role_manifest-ManifestStates v m h,
    )
