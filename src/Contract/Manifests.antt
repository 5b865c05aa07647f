-- ===== src/Contract/Manifests.antt =====
-- scripts/backup-v2-contract.ts: the manifest of one role's archive.
pub mod Covering
use oracle_free_arch_vps.Base.{
  Bool, List, Option, Result, String, Text, [], length, ltb, map, map_result, none, not, ok, some,
  ℕ, ◌&&◌, ◌>>=◌, ◌>>◌, ◌∷◌,
}
use oracle_free_arch_vps.Profile.{limit, logical_objects}
use oracle_free_arch_vps.Json.{Value, end, field, get, null, num, obj, str}
use oracle_free_arch_vps.Contract.Fields.{
  bounded_array, capture, demand, fingerprint, hash, object, page_size, uuid,
}
use oracle_free_arch_vps.Contract.Roles.{
  Role, is_num, read_format, read_role, role_text, text_lt, utc,
}
use oracle_free_arch_vps.Contract.Refs.{
  ObjectRef, manifest_ref_value, object_ref_value, validate_object_ref,
}
use oracle_free_arch_vps.Contract.Pages.{
  PageRef, Producer, items_value, read_inventory, read_page_refs, read_producer,
}
use oracle_free_arch_vps.Inventory.{Summary, summary_value}

-- BackupV2RoleManifest
pub record RoleManifest : Type 0 where
  pub capture_id : Text
  pub attempt_id : Text
  pub role : Role
  pub archive_format : Text
  pub ciphertext_bytes : ℕ
  pub ciphertext_sha256 : Text
  pub source_config_sha256 : Text
  pub compatibility_sha256 : Text
  pub recipient_sha256 : Text
  pub recipient_fingerprint : Text
  pub capture_started_at_utc : Text
  pub capture_finished_at_utc : Text
  pub upload_started_at_utc : Text
  pub upload_finished_at_utc : Text
  pub pages : List PageRef
  pub inventory : Option Summary
  pub producer : Producer
  pub metadata : List ObjectRef

abbrev page_ref_value : PageRef → Value
page_ref_value p = obj (
    field "manifest" (manifest_ref_value p.manifest) (
      field "firstOrdinal" (num p.first_ordinal) (
        field "firstOffset" (num p.first_offset)
          (field "chunkCount" (num p.chunk_count) (field "bytes" (num p.bytes) end)))))

abbrev pub inventory_value : Option Summary → Value
inventory_value none = null
inventory_value (some s) = summary_value s

abbrev producer_value : Producer → Value
producer_value p = obj (
    field "tarExitCode" (num p.tar_exit_code) (
      field "zstdExitCode" (num 0) (
        field "gpgExitCode" (num 0) (
          field "driftRecords" (num p.drift_records)
            (field "driftSha256" (str p.drift_sha256) end)))))

abbrev pub role_manifest_value : RoleManifest → Value
role_manifest_value m = obj (
    field "schemaVersion" (num 2) (
      field "captureId" (str m.capture_id) (
        field "attemptId" (str m.attempt_id) (
          field "role" (str (role_text m.role)) (
            field "format" (str m.archive_format) (
              field "ciphertextBytes" (num m.ciphertext_bytes) (
                field "ciphertextSha256" (str m.ciphertext_sha256) (
                  field "sourceConfigSha256" (str m.source_config_sha256) (
                    field "compatibilitySha256" (str m.compatibility_sha256) (
                      field "recipientSha256" (str m.recipient_sha256) (
                        field "recipientFingerprint" (str m.recipient_fingerprint) (
                          field "captureStartedAtUtc" (str m.capture_started_at_utc) (
                            field "captureFinishedAtUtc" (str m.capture_finished_at_utc) (
                              field "uploadStartedAtUtc" (str m.upload_started_at_utc) (
                                field "uploadFinishedAtUtc" (str m.upload_finished_at_utc) (
                                  field "pages" (items_value (map page_ref_value m.pages)) (
                                    field "inventory" (inventory_value m.inventory) (
                                      field "producer" (producer_value m.producer) (
                                        field "metadata"
                                          (items_value (map object_ref_value m.metadata))
                                          end)))))))))))))))))))

-- Captured strictly forward in time, uploaded no earlier than captured, and finished in that order.
abbrev pub times_ordered : Text → Text → Text → Text → Bool
times_ordered started finished upload_started uploaded =
    text_lt started finished
    && not (text_lt upload_started started)
    && not (text_lt uploaded finished)
    && not (text_lt uploaded upload_started)

abbrev pub role_manifest_keys : List String
role_manifest_keys =
    "schemaVersion" ∷ "captureId" ∷ "attemptId" ∷ "role" ∷ "format" ∷ "ciphertextBytes"
    ∷ "ciphertextSha256" ∷ "sourceConfigSha256" ∷ "compatibilitySha256" ∷ "recipientSha256"
    ∷ "recipientFingerprint" ∷ "captureStartedAtUtc" ∷ "captureFinishedAtUtc" ∷ "uploadStartedAtUtc"
    ∷ "uploadFinishedAtUtc" ∷ "pages" ∷ "inventory" ∷ "producer" ∷ "metadata" ∷ []

unfoldable pub validate_role_manifest : Value → Result RoleManifest
validate_role_manifest value = do
  r ← object value role_manifest_keys
  demand (is_num (get r "schemaVersion") 2)
  capture_id ← capture (get r "captureId")
  attempt_id ← uuid (get r "attemptId")
  role ← read_role (get r "role")
  started ← utc (get r "captureStartedAtUtc")
  finished ← utc (get r "captureFinishedAtUtc")
  upload_started ← utc (get r "uploadStartedAtUtc")
  uploaded ← utc (get r "uploadFinishedAtUtc")
  demand (times_ordered started finished upload_started uploaded)
  values ← bounded_array (get r "pages") (limit logical_objects)
  read ← read_page_refs capture_id attempt_id 0 0 values
  demand (ltb 0 (length read.0) && is_num (get r "ciphertextBytes") read.1)
  producer ← read_producer (get r "producer") role
  summary ← read_inventory (get r "inventory") role
  archive_format ← read_format (get r "format") role
  ciphertext_sha256 ← hash (get r "ciphertextSha256") 64
  source_config_sha256 ← hash (get r "sourceConfigSha256") 64
  compatibility_sha256 ← hash (get r "compatibilitySha256") 64
  recipient_sha256 ← hash (get r "recipientSha256") 64
  recipient_fingerprint ← fingerprint (get r "recipientFingerprint")
  metadata_values ← bounded_array (get r "metadata") (limit logical_objects)
  described ← map_result validate_object_ref metadata_values
  let result : RoleManifest = record {
    capture_id = capture_id;
    attempt_id = attempt_id;
    role = role;
    archive_format = archive_format;
    ciphertext_bytes = read.1;
    ciphertext_sha256 = ciphertext_sha256;
    source_config_sha256 = source_config_sha256;
    compatibility_sha256 = compatibility_sha256;
    recipient_sha256 = recipient_sha256;
    recipient_fingerprint = recipient_fingerprint;
    capture_started_at_utc = started;
    capture_finished_at_utc = finished;
    upload_started_at_utc = upload_started;
    upload_finished_at_utc = uploaded;
    pages = read.0;
    inventory = summary;
    producer = producer;
    metadata = described;
  }
  page_size (role_manifest_value result)
  ok result
