-- ===== src/Retention/Protection.antt =====
-- scripts/backup-v2-retention.ts: `collectBackupV2ProtectedReferences`. The reader's two functions
-- are parameters that return the references of a document, or throw.
pub mod Covering
pub mod Reaching
pub mod Collecting
use oracle_free_arch_vps.Base.{
  Bool, List, Option, Result, String, Text, [], false, if◌then◌else◌, insert, leb, length, lookup,
  map, member, none, ok, require, some, true, ℕ, ◌++◌, ◌+◌, ◌>>=◌, ◌>>◌, ◌∷◌,
}
use oracle_free_arch_vps.Profile.{assert_budget, prune_candidates, retention_bytes}
use oracle_free_arch_vps.Json.{json_bytes, str, utf8_length}
use oracle_free_arch_vps.Contract.Names.{Kind, kind_eq, manifest, parse_object_name, receipt}
use oracle_free_arch_vps.Contract.Roles.{text_lt}
use oracle_free_arch_vps.Contract.Refs.{
  ManifestRef, ObjectRef, manifest_ref_value, object_ref_value, validate_manifest_ref,
  validate_object_ref,
}
use oracle_free_arch_vps.Contract.Slots.{PutIntent, put_intent_value, validate_put_intent}
use oracle_free_arch_vps.Upload.Records.{ref_eq}

-- BackupV2ProtectedReferences
pub record References : Type 0 where
  pub accepted_roots : List ManifestRef
  pub active_objects : List ObjectRef
  pub sealed_role_manifests : List ManifestRef
  pub unresolved_puts : List PutIntent

-- The local state of the function: the map `objects`, the set `unresolved` and `bytes`.
pub record Protected : Type 0 where
  pub objects : List (Text × ObjectRef)
  pub unresolved : List Text
  pub bytes : ℕ

abbrev pub none_protected : Protected
none_protected = record { objects = []; unresolved = []; bytes = 0 }

-- The budgets of one more entry of so many bytes.
unfoldable pub admit : Protected → ℕ → Result ℕ
admit s size = do
  assert_budget prune_candidates (length s.objects + length s.unresolved + 1)
  require (leb (s.bytes + size) retention_bytes) "Protection workspace exceeded"
  ok (s.bytes + size)

unfoldable pub protect_new : Protected → ObjectRef → Option ObjectRef → Result Protected
protect_new s ref (some old) =
    require (ref_eq old ref) "Protected object identity conflicts" >> ok s
protect_new s ref none = admit s (json_bytes (object_ref_value ref)) >>= λ size.
    ok (record s { objects = insert ref.file_id ref s.objects; bytes = size })

-- `add`
unfoldable pub protect : Protected → ObjectRef → Result Protected
protect s input = do
  ref ← validate_object_ref (object_ref_value input)
  protect_new s ref (lookup ref.file_id s.objects)

unfoldable pub protect_all : Protected → List ObjectRef → Result Protected
protect_all s [] = ok s
protect_all s (r ∷ rs) = protect s r >>= λ t. protect_all t rs

-- One document of this kind, with what the reader finds in it.
unfoldable pub protect_document :
    Kind
    → String
    → (ManifestRef → Result (List ObjectRef))
    → Protected
    → ManifestRef
    → Result Protected
protect_document kind message references s input = do
  document ← validate_manifest_ref (manifest_ref_value input)
  name ← parse_object_name (str document.object.file_name)
  require (kind_eq name.kind kind) message
  t ← protect s document.object
  refs ← references document
  protect_all t refs

unfoldable pub protect_documents :
    Kind
    → String
    → (ManifestRef → Result (List ObjectRef))
    → Protected
    → List ManifestRef
    → Result Protected
protect_documents kind message references s [] = ok s
protect_documents kind message references s (d ∷ ds) =
    protect_document kind message references s d >>= λ t.
    protect_documents kind message references t ds

unfoldable pub reserve_new : Protected → Text → Bool → Result Protected
reserve_new s name true = ok s
reserve_new s name false = admit s (utf8_length name) >>= λ size.
    ok (record s { unresolved = s.unresolved ++ name ∷ []; bytes = size })

-- One name of a PUT that may still commit.
unfoldable pub reserve : Protected → PutIntent → Result Protected
reserve s input = do
  i ← validate_put_intent (put_intent_value input)
  reserve_new s i.name (member i.name s.unresolved)

unfoldable pub reserve_all : Protected → List PutIntent → Result Protected
reserve_all s [] = ok s
reserve_all s (i ∷ is) = reserve s i >>= λ t. reserve_all t is

-- `[...names].sort()`
unfoldable pub insert_name : Text → List Text → List Text
insert_name x [] = x ∷ []
insert_name x (y ∷ ys) = if text_lt y x then y ∷ insert_name x ys else x ∷ y ∷ ys

unfoldable pub sort_names : List Text → List Text
sort_names [] = []
sort_names (x ∷ xs) = insert_name x (sort_names xs)

-- BackupV2ProtectionDryRun; `pruneEnabled` is false.
pub record DryRun : Type 0 where
  pub objects : List ObjectRef
  pub unresolved_names : List Text

abbrev pub no_references : ManifestRef → Result (List ObjectRef)
no_references d = ok []

module _ (references role_references : ManifestRef → Result (List ObjectRef)) where
  -- The loops of the function, one after another.
  unfoldable pub protect_graph : References → List ManifestRef → Result Protected
  protect_graph value receipts = do
    a ←
        protect_documents manifest "Protected root kind invalid" references none_protected
          value.accepted_roots
    b ←
        protect_documents manifest "Protected role kind invalid" role_references a
          value.sealed_role_manifests
    c ← protect_documents receipt "Protected receipt kind invalid" no_references b receipts
    d ← protect_all c value.active_objects
    reserve_all d value.unresolved_puts

  unfoldable pub collect : References → List ManifestRef → Result DryRun
  collect value receipts = do
    assert_budget prune_candidates (
        length value.accepted_roots
        + length value.sealed_role_manifests
        + length value.active_objects
        + length value.unresolved_puts
        + length receipts)
    s ← protect_graph value receipts
    ok (record { objects = map (λ e. e.1) s.objects; unresolved_names = sort_names s.unresolved })
