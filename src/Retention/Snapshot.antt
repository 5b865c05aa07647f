-- ===== src/Retention/Snapshot.antt =====
-- scripts/backup-v2-retention.ts: `protectionState`. The catalog is the one that its validator has
-- returned; `sha` is the digest of a value's canonical text, a parameter.
pub mod Protecting
pub mod Ordering
use oracle_free_arch_vps.Base.{
  Bool, List, Option, Result, Text, [], drop, false, if◌then◌else◌, leb, length, ltb, map,
  map_result, member, none, not, ok, require, some, take, text_eq, true, ℕ, ◌&&◌, ◌++◌, ◌>>=◌, ◌>>◌,
  ◌||◌, ◌∷◌,
}
use oracle_free_arch_vps.Profile.{assert_budget, prune_candidates, retention_bytes}
use oracle_free_arch_vps.Json.{Value, bool, end, field, obj, str}
use oracle_free_arch_vps.Contract.Fields.{matches, uuid_shape}
use oracle_free_arch_vps.Contract.Roles.{text_lt}
use oracle_free_arch_vps.Contract.Refs.{
  ManifestRef, ObjectRef, manifest_ref_value, object_ref_value, validate_manifest_ref,
}
use oracle_free_arch_vps.Contract.Pages.{items_value}
use oracle_free_arch_vps.Retention.Protection.{DryRun, References, collect}
use oracle_free_arch_vps.Retention.Inventory.{retention_error}

-- A catalog entry: what the function reads of it, and the whole document.
pub record CatalogEntry : Type 0 where
  pub capture : Text
  pub accepted_at_utc : Text
  pub references : Option (ManifestRef × ManifestRef)
  pub document : Value

pub record Custody : Type 0 where
  pub lock_id : Text
  pub source_boot_id : Text
  pub source_settled : Bool

-- BackupV2RetentionSnapshot; `size` is the length of its JSON text.
pub record Snapshot : Type 0 where
  pub custody : Custody
  pub catalog : List CatalogEntry
  pub protection : References
  pub receipts : List ManifestRef
  pub size : ℕ

unfoldable pub is_visible : Text → Bool
is_visible [] = true
is_visible (c ∷ s) = leb 0x21 c && leb c 0x7e && is_visible s

abbrev pub custody_ok : Custody → Bool
custody_ok c =
    c.source_settled
    && ltb 0 (length c.lock_id)
    && leb (length c.lock_id) 256
    && is_visible c.lock_id
    && matches uuid_shape c.source_boot_id

-- Whether the first entry sorts before the second: newest first, then by capture.
abbrev pub newer : CatalogEntry → CatalogEntry → Bool
newer a b =
    text_lt b.accepted_at_utc a.accepted_at_utc
    || (text_eq a.accepted_at_utc b.accepted_at_utc && text_lt a.capture b.capture)

unfoldable pub insert_entry : CatalogEntry → List CatalogEntry → List CatalogEntry
insert_entry x [] = x ∷ []
insert_entry x (y ∷ ys) = if newer y x then y ∷ insert_entry x ys else x ∷ y ∷ ys

unfoldable pub sort_catalog : List CatalogEntry → List CatalogEntry
sort_catalog [] = []
sort_catalog (x ∷ xs) = insert_entry x (sort_catalog xs)

unfoldable pub distinct : List Text → Bool
distinct [] = true
distinct (t ∷ ts) = not (member t ts) && distinct ts

abbrev pub entry_capture : CatalogEntry → Text
entry_capture e = e.capture

unfoldable pub roots_of : List CatalogEntry → List ManifestRef
roots_of [] = []
roots_of (e ∷ es) = elim e.references [ none ↦ roots_of es | some r ↦ r.0 ∷ roots_of es ]

unfoldable pub receipts_of : List CatalogEntry → List ManifestRef
receipts_of [] = []
receipts_of (e ∷ es) = elim e.references [ none ↦ receipts_of es | some r ↦ r.1 ∷ receipts_of es ]

-- `compare`: by file name, then by identity.
abbrev pub ref_lt : ObjectRef → ObjectRef → Bool
ref_lt a b =
    text_lt a.file_name b.file_name
    || (text_eq a.file_name b.file_name && text_lt a.file_id b.file_id)

unfoldable pub insert_ref : ObjectRef → List ObjectRef → List ObjectRef
insert_ref x [] = x ∷ []
insert_ref x (y ∷ ys) = if ref_lt y x then y ∷ insert_ref x ys else x ∷ y ∷ ys

unfoldable pub sort_refs : List ObjectRef → List ObjectRef
sort_refs [] = []
sort_refs (x ∷ xs) = insert_ref x (sort_refs xs)

unfoldable pub insert_manifest : ManifestRef → List ManifestRef → List ManifestRef
insert_manifest x [] = x ∷ []
insert_manifest x (y ∷ ys) =
    if ref_lt y.object x.object then y ∷ insert_manifest x ys else x ∷ y ∷ ys

unfoldable pub sort_manifests : List ManifestRef → List ManifestRef
sort_manifests [] = []
sort_manifests (x ∷ xs) = insert_manifest x (sort_manifests xs)

abbrev pub dry_run_value : DryRun → Value
dry_run_value d = obj (
    field "pruneEnabled" (bool false) (
      field "objects" (items_value (map object_ref_value d.objects))
        (field "unresolvedNames" (items_value (map str d.unresolved_names)) end)))

abbrev pub precondition_value : Custody → List CatalogEntry → List ManifestRef → DryRun → Value
precondition_value c catalog manifests protected = obj (
    field "custody"
      (obj (
        field "lockId" (str c.lock_id) (
          field "sourceBootId" (str c.source_boot_id)
            (field "sourceSettled" (bool c.source_settled) end))))
      (field "catalog" (items_value (map (λ e. e.document) catalog)) (
        field "manifests" (items_value (map manifest_ref_value (sort_manifests manifests)))
          (field "protectedSet" (dry_run_value protected) end))))

-- What `protectionState` returns.
pub record State : Type 0 where
  pub retained_capture_ids : List Text
  pub obsolete : List CatalogEntry
  pub protected_set : DryRun
  pub precondition_sha256 : Text

abbrev pub with_roots : References → List ManifestRef → References
with_roots p roots = record p { accepted_roots = roots ++ p.accepted_roots }

module _ (sha : Value → Text)
    (references role_references : ManifestRef → Result (List ObjectRef)) where
  unfoldable pub protection_state : Snapshot → Result State
  protection_state snapshot = do
    require (custody_ok snapshot.custody && leb 4 (length snapshot.catalog)) retention_error
    assert_budget prune_candidates (length snapshot.catalog)
    require (leb snapshot.size retention_bytes) retention_error
    require (distinct (map entry_capture snapshot.catalog)) retention_error
    let catalog = sort_catalog snapshot.catalog
    let retained = take 4 catalog
    collected ←
        collect references role_references (with_roots snapshot.protection (roots_of retained))
          (receipts_of retained ++ snapshot.receipts)
    let sorted : DryRun = record collected { objects = sort_refs collected.objects }
    manifests ←
        map_result (λ m. validate_manifest_ref (manifest_ref_value m))
          (snapshot.protection.accepted_roots
            ++ (snapshot.protection.sealed_role_manifests ++ snapshot.receipts))
    ok (record {
      retained_capture_ids = map entry_capture retained;
      obsolete = drop 4 catalog;
      protected_set = sorted;
      precondition_sha256 = sha (precondition_value snapshot.custody catalog manifests sorted);
    })
