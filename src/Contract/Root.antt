-- ===== src/Contract/Root.antt =====
-- scripts/backup-v2-contract.ts: the root document of a capture, which names one manifest per role.
pub mod Roster
use oracle_free_arch_vps.Base.{
  List, Result, String, Text, [], codes, map, map_result, ok, text_eq, ◌&&◌, ◌>>=◌, ◌>>◌, ◌∷◌,
}
use oracle_free_arch_vps.Profile.{limit, logical_objects}
use oracle_free_arch_vps.Json.{Value, end, field, get, num, obj, str}
use oracle_free_arch_vps.Contract.Fields.{
  bounded_array, capture, demand, fail, fingerprint, hash, object, page_size, uuid,
}
use oracle_free_arch_vps.Contract.Names.{kind_eq, manifest, parse_object_name}
use oracle_free_arch_vps.Contract.Roles.{
  Role, is_num, is_text, period_key, read_role, role_eq, role_text, roles, text_lt, utc,
}
use oracle_free_arch_vps.Contract.Refs.{
  ManifestRef, ObjectRef, manifest_ref_value, object_ref_value, validate_manifest_ref,
  validate_object_ref,
}
use oracle_free_arch_vps.Contract.Pages.{items_value}

-- The entry of one role in the root.
pub record RootRole : Type 0 where
  pub role : Role
  pub attempt_id : Text
  pub manifest : ManifestRef
  pub capture_started_at_utc : Text
  pub capture_finished_at_utc : Text

-- BackupV2Root; its version, format and profile are fixed.
pub record Root : Type 0 where
  pub capture_id : Text
  pub period_key : Text
  pub source_revision : Text
  pub source_config_sha256 : Text
  pub recipient_sha256 : Text
  pub recipient_fingerprint : Text
  pub roles : List RootRole
  pub metadata : List ObjectRef

abbrev pub profile_id : Text
profile_id = codes "backup-v2-20261018"

abbrev pub root_role_value : RootRole → Value
root_role_value r = obj (
    field "role" (str (role_text r.role)) (
      field "attemptId" (str r.attempt_id) (
        field "manifest" (manifest_ref_value r.manifest) (
          field "captureStartedAtUtc" (str r.capture_started_at_utc)
            (field "captureFinishedAtUtc" (str r.capture_finished_at_utc) end)))))

abbrev pub root_value : Root → Value
root_value r = obj (
    field "schemaVersion" (num 2) (
      field "format" (str (codes "backup-v2")) (
        field "profile" (str profile_id) (
          field "captureId" (str r.capture_id) (
            field "periodKey" (str r.period_key) (
              field "sourceRevision" (str r.source_revision) (
                field "sourceConfigSha256" (str r.source_config_sha256) (
                  field "recipientSha256" (str r.recipient_sha256) (
                    field "recipientFingerprint" (str r.recipient_fingerprint) (
                      field "roles" (items_value (map root_role_value r.roles)) (
                        field "metadata" (items_value (map object_ref_value r.metadata))
                          end)))))))))))

-- One turn of the `map` over `r.roles`, where this role is expected.
unfoldable pub read_root_role : Role → Value → Result RootRole
read_root_role expected value = do
  r ←
      object value
        ("role" ∷ "attemptId" ∷ "manifest" ∷ "captureStartedAtUtc" ∷ "captureFinishedAtUtc" ∷ [])
  role ← read_role (get r "role")
  attempt_id ← uuid (get r "attemptId")
  ref ← validate_manifest_ref (get r "manifest")
  name ← parse_object_name (str ref.object.file_name)
  started ← utc (get r "captureStartedAtUtc")
  finished ← utc (get r "captureFinishedAtUtc")
  demand (
      role_eq role expected
      && text_eq name.attempt_id attempt_id
      && kind_eq name.kind manifest
      && text_lt started finished)
  ok (record {
    role = role;
    attempt_id = attempt_id;
    manifest = ref;
    capture_started_at_utc = started;
    capture_finished_at_utc = finished;
  })

-- The roles of the document beside BACKUP_V2_ROLES: as many, and each where it is expected.
unfoldable pub read_root_roles : List Role → List Value → Result (List RootRole)
read_root_roles [] [] = ok []
read_root_roles [] (v ∷ vs) = fail
read_root_roles (r ∷ rs) [] = fail
read_root_roles (r ∷ rs) (v ∷ vs) =
    read_root_role r v >>= λ x. read_root_roles rs vs >>= λ xs. ok (x ∷ xs)

abbrev pub root_keys : List String
root_keys =
    "schemaVersion" ∷ "format" ∷ "profile" ∷ "captureId" ∷ "periodKey" ∷ "sourceRevision"
    ∷ "sourceConfigSha256" ∷ "recipientSha256" ∷ "recipientFingerprint" ∷ "roles" ∷ "metadata" ∷ []

unfoldable pub validate_root : Value → Result Root
validate_root value = do
  r ← object value root_keys
  demand (
      is_num (get r "schemaVersion") 2
      && is_text (get r "format") (codes "backup-v2")
      && is_text (get r "profile") profile_id)
  period ← period_key (get r "periodKey")
  values ← bounded_array (get r "roles") 7
  read ← read_root_roles roles values
  capture_id ← capture (get r "captureId")
  source_revision ← hash (get r "sourceRevision") 40
  source_config_sha256 ← hash (get r "sourceConfigSha256") 64
  recipient_sha256 ← hash (get r "recipientSha256") 64
  recipient_fingerprint ← fingerprint (get r "recipientFingerprint")
  metadata_values ← bounded_array (get r "metadata") (limit logical_objects)
  described ← map_result validate_object_ref metadata_values
  let result : Root = record {
    capture_id = capture_id;
    period_key = period;
    source_revision = source_revision;
    source_config_sha256 = source_config_sha256;
    recipient_sha256 = recipient_sha256;
    recipient_fingerprint = recipient_fingerprint;
    roles = read;
    metadata = described;
  }
  page_size (root_value result)
  ok result
