-- ===== src/Contract/Receipts.antt =====
-- scripts/backup-v2-contract.ts: the proof of one decoded archive, and the receipt of a capture
-- that was verified from the object store alone.
pub mod Roster
use oracle_free_arch_vps.Base.{
  Bool, List, Option, Result, String, Text, [], codes, false, map, map_result, ok, sum_by, text_eq,
  true, ℕ, ◌&&◌, ◌>>=◌, ◌>>◌, ◌∷◌,
}
use oracle_free_arch_vps.Profile.{assert_budget, ciphertext_bytes, limit, logical_source_bytes}
use oracle_free_arch_vps.Json.{Value, bool, end, field, get, num, obj, str}
use oracle_free_arch_vps.Inventory.{Summary}
use oracle_free_arch_vps.Contract.Fields.{
  bounded_array, capture, demand, fail, fingerprint, hash, integer, object, page_size, text,
}
use oracle_free_arch_vps.Contract.Names.{kind_eq, manifest, parse_object_name}
use oracle_free_arch_vps.Contract.Roles.{
  Role, is_false, is_num, is_text, is_true, read_format, read_role, role_eq, role_text, roles, root,
  staging_boot, utc,
}
use oracle_free_arch_vps.Contract.Refs.{ManifestRef, manifest_ref_value, validate_manifest_ref}
use oracle_free_arch_vps.Contract.Pages.{items_value, read_inventory}
use oracle_free_arch_vps.Contract.Manifests.{inventory_value}

-- BackupV2ArchiveProof; its flags are true and its exit codes 0.
pub record ArchiveProof : Type 0 where
  pub role : Role
  pub archive_format : Text
  pub ciphertext_bytes : ℕ
  pub ciphertext_sha256 : Text
  pub compressed_bytes : ℕ
  pub compressed_sha256 : Text
  pub inventory : Option Summary

abbrev is_zero : Value → Bool
is_zero v = is_num v 0

abbrev pub archive_bytes : ArchiveProof → ℕ
archive_bytes a = a.ciphertext_bytes

abbrev pub archive_proof_keys : List String
archive_proof_keys =
    "role" ∷ "format" ∷ "ciphertextBytes" ∷ "ciphertextSha256" ∷ "compressedBytes"
    ∷ "compressedSha256" ∷ "inventory" ∷ "inputComplete" ∷ "integrityChecked"
    ∷ "decompressionComplete" ∷ "gpgExitCode" ∷ "zstdExitCode" ∷ "tarExitCode" ∷ []

unfoldable pub validate_archive_proof : Value → Result ArchiveProof
validate_archive_proof value = do
  r ← object value archive_proof_keys
  role ← read_role (get r "role")
  summary ← read_inventory (get r "inventory") role
  demand (
      is_true (get r "inputComplete")
      && is_true (get r "integrityChecked")
      && is_true (get r "decompressionComplete")
      && is_zero (get r "gpgExitCode")
      && is_zero (get r "zstdExitCode")
      && is_zero (get r "tarExitCode"))
  archive_format ← read_format (get r "format") role
  encrypted ← integer (get r "ciphertextBytes") (limit ciphertext_bytes) 1
  ciphertext_sha256 ← hash (get r "ciphertextSha256") 64
  compressed ← integer (get r "compressedBytes") (limit ciphertext_bytes) 1
  compressed_sha256 ← hash (get r "compressedSha256") 64
  ok (record {
    role = role;
    archive_format = archive_format;
    ciphertext_bytes = encrypted;
    ciphertext_sha256 = ciphertext_sha256;
    compressed_bytes = compressed;
    compressed_sha256 = compressed_sha256;
    inventory = summary;
  })

-- Whether the archives are those of these roles, in this order.
unfoldable pub roles_match : List Role → List ArchiveProof → Bool
roles_match [] [] = true
roles_match [] (a ∷ rest) = false
roles_match (r ∷ rs) [] = false
roles_match (r ∷ rs) (a ∷ rest) = role_eq a.role r && roles_match rs rest

pub record BootSample : Type 0 where
  pub role : Role
  pub member : Text
  pub bytes : ℕ
  pub sha256 : Text

-- BACKUP_V2_BOOT_SAMPLES
abbrev pub boot_samples : List (Role × Text)
boot_samples =
    (root, codes "./boot/Image")
    ∷ (root, codes "./boot/initramfs-linux.img")
    ∷ (staging_boot, codes "./arch-vmlinuz")
    ∷ (staging_boot, codes "./arch-initrd.img")
    ∷ []

unfoldable pub read_boot_sample : Role × Text → Value → Result BootSample
read_boot_sample expected value = do
  s ← object value ("role" ∷ "member" ∷ "bytes" ∷ "sha256" ∷ [])
  demand (is_text (get s "role") (role_text expected.0) && is_text (get s "member") expected.1)
  bytes ← integer (get s "bytes") (limit logical_source_bytes) 1
  sha256 ← hash (get s "sha256") 64
  ok (record { role = expected.0; member = expected.1; bytes = bytes; sha256 = sha256 })

-- The samples of the document beside those that are expected: as many, each in its place.
unfoldable pub read_boot_samples : List (Role × Text) → List Value → Result (List BootSample)
read_boot_samples [] [] = ok []
read_boot_samples [] (v ∷ vs) = fail
read_boot_samples (x ∷ xs) [] = fail
read_boot_samples (x ∷ xs) (v ∷ vs) =
    read_boot_sample x v >>= λ s. read_boot_samples xs vs >>= λ ss. ok (s ∷ ss)

-- BackupV2Receipt; its version, format and the three claims are fixed.
pub record Receipt : Type 0 where
  pub capture_id : Text
  pub root : ManifestRef
  pub verified_at_utc : Text
  pub recipient_sha256 : Text
  pub recipient_fingerprint : Text
  pub verifier_revision : Text
  pub configuration_sha256 : Text
  pub tar : Text
  pub zstd : Text
  pub gpg : Text
  pub archives : List ArchiveProof
  pub samples : List BootSample
  pub metadata_sha256 : Text

abbrev pub archive_proof_value : ArchiveProof → Value
archive_proof_value a = obj (
    field "role" (str (role_text a.role)) (
      field "format" (str a.archive_format) (
        field "ciphertextBytes" (num a.ciphertext_bytes) (
          field "ciphertextSha256" (str a.ciphertext_sha256) (
            field "compressedBytes" (num a.compressed_bytes) (
              field "compressedSha256" (str a.compressed_sha256) (
                field "inventory" (inventory_value a.inventory) (
                  field "inputComplete" (bool true) (
                    field "integrityChecked" (bool true) (
                      field "decompressionComplete" (bool true) (
                        field "gpgExitCode" (num 0) (
                          field "zstdExitCode" (num 0) (field "tarExitCode" (num 0) end)))))))))))))

abbrev pub boot_sample_value : BootSample → Value
boot_sample_value s = obj (
    field "role" (str (role_text s.role)) (
      field "member" (str s.member)
        (field "bytes" (num s.bytes) (field "sha256" (str s.sha256) end))))

abbrev pub receipt_value : Receipt → Value
receipt_value r = obj (
    field "schemaVersion" (num 2) (
      field "format" (str (codes "backup-v2")) (
        field "captureId" (str r.capture_id) (
          field "root" (manifest_ref_value r.root) (
            field "verifiedAtUtc" (str r.verified_at_utc) (
              field "recipientSha256" (str r.recipient_sha256) (
                field "recipientFingerprint" (str r.recipient_fingerprint) (
                  field "verifierRevision" (str r.verifier_revision) (
                    field "configurationSha256" (str r.configuration_sha256) (
                      field "tools"
                        (obj (
                          field "tar" (str r.tar)
                            (field "zstd" (str r.zstd) (field "gpg" (str r.gpg) end))))
                        (field "archives" (items_value (map archive_proof_value r.archives)) (
                          field "bootSamples" (items_value (map boot_sample_value r.samples)) (
                            field "metadataSha256" (str r.metadata_sha256) (
                              field "sourceIndependent" (bool true) (
                                field "decryptedRestoreProved" (bool true)
                                  (field "machineBootRestoreProved" (bool false) end))))))))))))))))

abbrev pub receipt_keys : List String
receipt_keys =
    "schemaVersion" ∷ "format" ∷ "captureId" ∷ "root" ∷ "verifiedAtUtc" ∷ "recipientSha256"
    ∷ "recipientFingerprint" ∷ "verifierRevision" ∷ "configurationSha256" ∷ "tools" ∷ "archives"
    ∷ "bootSamples" ∷ "metadataSha256" ∷ "sourceIndependent" ∷ "decryptedRestoreProved"
    ∷ "machineBootRestoreProved" ∷ []

unfoldable pub validate_receipt : Value → Result Receipt
validate_receipt value = do
  r ← object value receipt_keys
  demand (
      is_num (get r "schemaVersion") 2
      && is_text (get r "format") (codes "backup-v2")
      && is_true (get r "sourceIndependent")
      && is_true (get r "decryptedRestoreProved")
      && is_false (get r "machineBootRestoreProved"))
  capture_id ← capture (get r "captureId")
  ref ← validate_manifest_ref (get r "root")
  name ← parse_object_name (str ref.object.file_name)
  demand (text_eq name.capture_id capture_id && kind_eq name.kind manifest)
  values ← bounded_array (get r "archives") 7
  archives ← map_result validate_archive_proof values
  demand (roles_match roles archives)
  assert_budget ciphertext_bytes (sum_by archive_bytes archives)
  sample_values ← bounded_array (get r "bootSamples") 4
  samples ← read_boot_samples boot_samples sample_values
  programs ← object (get r "tools") ("tar" ∷ "zstd" ∷ "gpg" ∷ [])
  verified_at_utc ← utc (get r "verifiedAtUtc")
  recipient_sha256 ← hash (get r "recipientSha256") 64
  recipient_fingerprint ← fingerprint (get r "recipientFingerprint")
  verifier_revision ← hash (get r "verifierRevision") 40
  configuration_sha256 ← hash (get r "configurationSha256") 64
  tar ← text (get programs "tar") 512
  zstd ← text (get programs "zstd") 512
  gpg ← text (get programs "gpg") 512
  metadata_sha256 ← hash (get r "metadataSha256") 64
  let result : Receipt = record {
    capture_id = capture_id;
    root = ref;
    verified_at_utc = verified_at_utc;
    recipient_sha256 = recipient_sha256;
    recipient_fingerprint = recipient_fingerprint;
    verifier_revision = verifier_revision;
    configuration_sha256 = configuration_sha256;
    tar = tar;
    zstd = zstd;
    gpg = gpg;
    archives = archives;
    samples = samples;
    metadata_sha256 = metadata_sha256;
  }
  page_size (receipt_value result)
  ok result
