-- ===== src/Retention/Plan.antt =====
-- scripts/backup-v2-retention.ts: `planBackupV2Retention`, with the reader's functions and the
-- digest of a value's canonical text as parameters.
pub mod Sparing
use oracle_free_arch_vps.Base.{
  Bool, List, Option, Result, Text, [], codes, if◌then◌else◌, insert, is_some, leb, length, lookup,
  map, member, none, not, ok, or_fail, require, some, text_eq, true, ◌&&◌, ◌>>=◌, ◌>>◌, ◌∷◌,
}
use oracle_free_arch_vps.Profile.{
  assert_budget, journal_bytes, limit, prune_candidates, retention_bytes,
}
use oracle_free_arch_vps.Json.{Value, bool, end, field, json_bytes, num, obj, str}
use oracle_free_arch_vps.Contract.Refs.{
  Cursor, ListedVersion, ManifestRef, ObjectRef, object_ref_value, upload, validate_object_ref,
}
use oracle_free_arch_vps.Contract.Pages.{items_value}
use oracle_free_arch_vps.Retention.Protection.{DryRun}
use oracle_free_arch_vps.Retention.Inventory.{list_all, retention_error, version_value}
use oracle_free_arch_vps.Retention.Snapshot.{
  CatalogEntry, Snapshot, dry_run_value, protection_state, sort_refs,
}

-- BackupV2RetentionPlan; its version, format and `dryRun` are fixed.
pub record RetentionPlan : Type 0 where
  pub precondition_sha256 : Text
  pub retained_capture_ids : List Text
  pub obsolete_legacy_capture_ids : List Text
  pub candidates : List ObjectRef
  pub digest : Text

-- The version that the listing of a stored object must show.
abbrev pub version_of : ObjectRef → ListedVersion
version_of r = record {
  file_id = r.file_id;
  file_name = r.file_name;
  content_length = r.content_length;
  content_sha1 = r.content_sha1;
  upload_timestamp = r.upload_timestamp;
  action = upload;
}

unfoldable pub find_ref : Text → List ObjectRef → Option ObjectRef
find_ref id [] = none
find_ref id (r ∷ rs) = if text_eq r.file_id id then some r else find_ref id rs

unfoldable pub legacy_ids : List CatalogEntry → List Text
legacy_ids [] = []
legacy_ids (e ∷ es) = elim e.references [
  | none ↦ e.capture ∷ legacy_ids es
  | some r ↦ legacy_ids es
]

-- Not protected, and not the name of a PUT that may still commit.
abbrev pub is_candidate : DryRun → ObjectRef → Bool
is_candidate d r =
    not (is_some (find_ref r.file_id d.objects)) && not (member r.file_name d.unresolved_names)

unfoldable pub keep_candidates : DryRun → List ObjectRef → List ObjectRef
keep_candidates d [] = []
keep_candidates d (r ∷ rs) =
    if is_candidate d r then r ∷ keep_candidates d rs else keep_candidates d rs

abbrev pub plan_value : RetentionPlan → Value
plan_value p = obj (
    field "schemaVersion" (num 2) (
      field "format" (str (codes "backup-v2-retention")) (
        field "dryRun" (bool true) (
          field "preconditionSha256" (str p.precondition_sha256) (
            field "retainedCaptureIds" (items_value (map str p.retained_capture_ids)) (
              field "obsoleteLegacyCaptureIds" (items_value (map str p.obsolete_legacy_capture_ids))
                (field "candidates" (items_value (map object_ref_value p.candidates)) end)))))))

module _ (sha : Value → Text) where
  abbrev pub same : Value → Value → Bool
  same a b = text_eq (sha a) (sha b)

  unfoldable pub require_present : List (Text × ListedVersion) → ObjectRef → Result (Unit {0})
  require_present versions r = do
    found ← or_fail (lookup r.file_id versions) retention_error
    require (same (version_value found) (version_value (version_of r))) retention_error

  unfoldable pub require_all : List (Text × ListedVersion) → List ObjectRef → Result (Unit {0})
  require_all versions [] = ok tt
  require_all versions (r ∷ rs) = require_present versions r >> require_all versions rs

  abbrev pub agrees_with : Option ObjectRef → ObjectRef → Bool
  agrees_with none r = true
  agrees_with (some old) r = same (object_ref_value old) (object_ref_value r)

  -- One reference of an obsolete root: no conflict with a protected object, then `addReference`.
  unfoldable pub add_obsolete :
      DryRun → List (Text × ObjectRef) → ObjectRef → Result (List (Text × ObjectRef))
  add_obsolete d obsolete input = do
    ref ← validate_object_ref (object_ref_value input)
    require (agrees_with (find_ref input.file_id d.objects) ref) retention_error
    require (agrees_with (lookup ref.file_id obsolete) ref) retention_error
    assert_budget prune_candidates (length (insert ref.file_id ref obsolete))
    ok (insert ref.file_id ref obsolete)

  unfoldable pub add_all_obsolete :
      DryRun → List (Text × ObjectRef) → List ObjectRef → Result (List (Text × ObjectRef))
  add_all_obsolete d obsolete [] = ok obsolete
  add_all_obsolete d obsolete (r ∷ rs) =
      add_obsolete d obsolete r >>= λ next. add_all_obsolete d next rs

  module _ (references role_references : ManifestRef → Result (List ObjectRef)) where
    -- One turn of the loop over the obsolete entries; a legacy entry is skipped.
    unfoldable pub obsolete_entry :
        DryRun → List (Text × ObjectRef) → CatalogEntry → Result (List (Text × ObjectRef))
    obsolete_entry d obsolete e = elim e.references [
      | none ↦ ok obsolete
      | some r ↦
          references r.0 >>= λ refs. add_all_obsolete d obsolete (r.0.object ∷ r.1.object ∷ refs)
    ]

    unfoldable pub obsolete_entries :
        DryRun → List (Text × ObjectRef) → List CatalogEntry → Result (List (Text × ObjectRef))
    obsolete_entries d obsolete [] = ok obsolete
    obsolete_entries d obsolete (e ∷ es) =
        obsolete_entry d obsolete e >>= λ next. obsolete_entries d next es

    module _ (versions_page : Option Cursor → Result Value) where
      unfoldable pub plan_retention : Snapshot → Result RetentionPlan
      plan_retention snapshot = do
        state ← protection_state sha references role_references snapshot
        versions ← list_all versions_page
        require_all versions.objects state.protected_set.objects
        obsolete ← obsolete_entries state.protected_set [] state.obsolete
        let refs = map (λ e. e.1) obsolete
        require_all versions.objects refs
        let body : RetentionPlan = record {
          precondition_sha256 = state.precondition_sha256;
          retained_capture_ids = state.retained_capture_ids;
          obsolete_legacy_capture_ids = legacy_ids state.obsolete;
          candidates = sort_refs (keep_candidates state.protected_set refs);
          digest = [];
        }
        let listed = map (λ e. version_value e.1) versions.objects
        let parts = dry_run_value state.protected_set ∷ items_value listed ∷ plan_value body ∷ []
        require (leb (json_bytes (items_value parts)) retention_bytes) retention_error
        require (leb (json_bytes (plan_value body)) (limit journal_bytes)) retention_error
        ok (record body { digest = sha (plan_value body) })
