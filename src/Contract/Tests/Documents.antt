-- ===== src/Contract/Tests/Documents.antt =====
-- A role manifest, a root, a receipt and a lease window at concrete values.
use oracle_free_arch_vps.Base.{
  All, IfSome, Option, Text, [], codes, map, none, ok, refl, some, sum_by, take, ℕ, ◌*◌, ◌∷◌, ◌≡◌,
  ◌≤◌,
}
use oracle_free_arch_vps.Profile.{assert_budget, ciphertext_bytes, limit, slot_bytes}
use oracle_free_arch_vps.Json.{
  Value, decimal, end, field, json_bytes, num, obj, pad_digits, quote, str, stringify, utf8_length,
}
use oracle_free_arch_vps.Inventory.{
  Summary, add, add_all, budgeted, encode_record, finish, summarize, summary_value, traverses,
  uint32, validate_summary,
}
use oracle_free_arch_vps.Inventory.Counts.{record_path_bytes, summarize_valid}
use oracle_free_arch_vps.Contract.Fields.{
  bounded_array, capture, fingerprint, has_control_character, hash, integer, matches, monotonic,
  object, page_size, text, uuid,
}
use oracle_free_arch_vps.Contract.Names.{
  consume, consume_kind, exec_name, manifest, number_onto, object_name, parse_object_name,
  print_name,
}
use oracle_free_arch_vps.Contract.Roles.{
  Role, format_text, period_key, read_format, read_role, recovery, roles, root, text_lt, utc,
}
use oracle_free_arch_vps.Contract.Refs.{ManifestRef, validate_manifest_ref, validate_object_ref}
use oracle_free_arch_vps.Contract.Pages.{
  PageRef, read_inventory, read_page_ref, read_page_refs, read_producer,
}
use oracle_free_arch_vps.Contract.Manifests.{
  RoleManifest, role_manifest_value, validate_role_manifest,
}
use oracle_free_arch_vps.Contract.Manifests.Covering.{ManifestStates, role_manifest_covers}
use oracle_free_arch_vps.Contract.Pages.Linking.{ManifestFor, page_bytes, page_count}
use oracle_free_arch_vps.Contract.Root.{
  Root, RootRole, read_root_role, read_root_roles, root_value, validate_root,
}
use oracle_free_arch_vps.Contract.Root.Roster.{IsRoleEntry, entry_role, root_roster}
use oracle_free_arch_vps.Contract.Receipts.{
  ArchiveProof, BootSample, Receipt, archive_bytes, boot_samples, read_boot_sample,
  read_boot_samples, receipt_value, roles_match, validate_archive_proof, validate_receipt,
}
use oracle_free_arch_vps.Contract.Receipts.Roster.{FitsRole, ReceiptStates, receipt_roster}
use oracle_free_arch_vps.Contract.Leases.{
  LeaseWindow, TransferEpisode, phase_text, put, read_retry, read_transfer, transfer_window_ms,
  validate_lease_window, validate_transfer_episode,
}
use oracle_free_arch_vps.Contract.Leases.Windows.{RetryFits, TransferFits, lease_window_bounds}
use oracle_free_arch_vps.Contract.Tests.{chunk_name, stored_at}

all_code : Unit {0}
unfolding object_name capture uuid text integer matches utf8_length parse_object_name exec_name
    consume consume_kind number_onto pad_digits object hash read_role assert_budget
    validate_object_ref json_bytes stringify quote decimal bounded_array page_size
    validate_manifest_ref read_page_ref read_page_refs read_producer read_inventory validate_summary
    budgeted fingerprint utc read_format text_lt validate_role_manifest period_key read_root_role
    read_root_roles validate_root validate_archive_proof roles_match read_boot_sample
    read_boot_samples validate_receipt monotonic transfer_window_ms validate_transfer_episode
    read_retry read_transfer validate_lease_window has_control_character summarize add_all add
    finish encode_record uint32 traverses
all_code = tt

abbrev hash_64 : Text
hash_64 = codes "0123456789abcdef0123456789abcdef0123456789abcdef0123456789abcdef"

abbrev hash_40 : Text
hash_40 = codes "0123456789abcdef0123456789abcdef01234567"

abbrev started : Text
started = codes "2026-09-20T04:00:00.000Z"

abbrev finished : Text
finished = codes "2026-09-20T05:00:00.000Z"

abbrev manifest_at : ℕ → ManifestRef
manifest_at ordinal = record {
  object = record (stored_at 0 900) {
    file_name = print_name (record chunk_name { kind = manifest; ordinal = ordinal });
  };
  plaintext_sha256 = hash_64;
}

abbrev second_page : PageRef
second_page = record {
  manifest = manifest_at 1;
  first_ordinal = 2;
  first_offset = 150;
  chunk_count = 1;
  bytes = 70;
}

abbrev root_inventory : Summary
root_inventory = record { members = 2; path_bytes = 9; encoded_bytes = 40; sha256 = hash_64 }

abbrev root_manifest : RoleManifest
root_manifest = record {
  capture_id = chunk_name.capture_id;
  attempt_id = chunk_name.attempt_id;
  role = root;
  archive_format = codes "tar.zst.gpg";
  ciphertext_bytes = 220;
  ciphertext_sha256 = hash_64;
  source_config_sha256 = hash_64;
  compatibility_sha256 = hash_64;
  recipient_sha256 = hash_64;
  recipient_fingerprint = codes "0123456789ABCDEF0123456789ABCDEF01234567";
  capture_started_at_utc = started;
  capture_finished_at_utc = finished;
  upload_started_at_utc = started;
  upload_finished_at_utc = finished;
  pages =
      record {
        manifest = manifest_at 0;
        first_ordinal = 0;
        first_offset = 0;
        chunk_count = 2;
        bytes = 150;
      }
      ∷ second_page
      ∷ [];
  inventory = some root_inventory;
  producer = record { tar_exit_code = 0; drift_records = 0; drift_sha256 = hash_64 };
  metadata = [];
}

role_manifest_covers_example :
    (second_page.first_ordinal ≡ sum_by page_count (take 1 root_manifest.pages))
    × (second_page.first_offset ≡ sum_by page_bytes (take 1 root_manifest.pages))
    × (second_page.bytes ≤ second_page.chunk_count * limit slot_bytes)
    × ManifestFor root_manifest.capture_id root_manifest.attempt_id second_page
    × (root_manifest.ciphertext_bytes ≡ sum_by page_bytes root_manifest.pages)
    × ManifestStates (role_manifest_value root_manifest) root_manifest
role_manifest_covers_example =
    role_manifest_covers (role_manifest_value root_manifest) root_manifest 1 second_page
      (unfold all_code in refl) refl

abbrev entry_for : Role → RootRole
entry_for r = record {
  role = r;
  attempt_id = chunk_name.attempt_id;
  manifest = manifest_at 0;
  capture_started_at_utc = started;
  capture_finished_at_utc = finished;
}

abbrev sunday_root : Root
sunday_root = record {
  capture_id = chunk_name.capture_id;
  period_key = codes "2026-09-20";
  source_revision = hash_40;
  source_config_sha256 = hash_64;
  recipient_sha256 = hash_64;
  recipient_fingerprint = root_manifest.recipient_fingerprint;
  roles = map entry_for roles;
  metadata = [];
}

root_roster_example : (map entry_role sunday_root.roles ≡ roles) × All IsRoleEntry sunday_root.roles
root_roster_example = root_roster (root_value sunday_root) sunday_root (unfold all_code in refl)

abbrev inventory_for : Role → Option Summary
inventory_for recovery = none
inventory_for _ = some root_inventory

abbrev proof_for : Role → ArchiveProof
proof_for r = record {
  role = r;
  archive_format = format_text r;
  ciphertext_bytes = 220;
  ciphertext_sha256 = hash_64;
  compressed_bytes = 200;
  compressed_sha256 = hash_64;
  inventory = inventory_for r;
}

abbrev sample_of : Role × Text → BootSample
sample_of x = record { role = x.0; member = x.1; bytes = 5; sha256 = hash_64 }

abbrev proved : Receipt
proved = record {
  capture_id = chunk_name.capture_id;
  root = manifest_at 0;
  verified_at_utc = finished;
  recipient_sha256 = hash_64;
  recipient_fingerprint = root_manifest.recipient_fingerprint;
  verifier_revision = hash_40;
  configuration_sha256 = hash_64;
  tar = codes "tar 1.35";
  zstd = codes "zstd 1.5";
  gpg = codes "gpg 2.4";
  archives = map proof_for roles;
  samples = map sample_of boot_samples;
  metadata_sha256 = hash_64;
}

receipt_roster_example :
    (map (λ a. a.role) proved.archives ≡ roles)
    × All FitsRole proved.archives
    × (sum_by archive_bytes proved.archives ≤ limit ciphertext_bytes)
    × (map (λ s. (s.role, s.member)) proved.samples ≡ boot_samples)
    × ReceiptStates (receipt_value proved) proved
receipt_roster_example = receipt_roster (receipt_value proved) proved (unfold all_code in refl)

abbrev uploading : TransferEpisode
uploading = record {
  operation_id = codes "put-1";
  phase = put;
  sealed_object_identity = codes "slot-0";
  retained_bytes = 4096;
  started_at_ms = 100;
  expires_at_ms = 1_000_000;
}

abbrev window : LeaseWindow
window = record {
  observed_monotonic_ms = 500;
  useful_progress_at_ms = 400;
  useful_progress_expires_at_ms = 900;
  retry_episode = some (record { started_at_ms = 450; expires_at_ms = 20_000 });
  transfer_episode = some uploading;
}

abbrev transfer_episode_value : TransferEpisode → Value
transfer_episode_value e = obj (
    field "kind" (str (codes "SEALED_TRANSFER")) (
      field "operationId" (str e.operation_id) (
        field "phase" (str (phase_text e.phase)) (
          field "sealedObjectIdentity" (str e.sealed_object_identity) (
            field "retainedBytes" (num e.retained_bytes) (
              field "startedAtMs" (num e.started_at_ms)
                (field "expiresAtMs" (num e.expires_at_ms) end)))))))

abbrev window_document : Value
window_document = obj (
    field "observedMonotonicMs" (num 500) (
      field "usefulProgressAtMs" (num 400) (
        field "usefulProgressExpiresAtMs" (num 900) (
          field "retryEpisode"
            (obj (field "startedAtMs" (num 450) (field "expiresAtMs" (num 20_000) end)))
            (field "transferEpisode" (transfer_episode_value uploading) end)))))

lease_window_bounds_example :
    (window.useful_progress_at_ms ≤ window.observed_monotonic_ms)
    × (window.useful_progress_at_ms ≤ window.useful_progress_expires_at_ms)
    × IfSome (RetryFits 500) window.retry_episode
    × IfSome (TransferFits 500) window.transfer_episode
lease_window_bounds_example = lease_window_bounds window_document window (unfold all_code in refl)

summarize_valid_example :
    let s : Summary = record {
      members = 2;
      path_bytes = 4;
      encoded_bytes = 22;
      sha256 = hash_64;
    } in
    (validate_summary (summary_value s) ≡ ok s)
    × (s.members ≡ 2)
    × (s.path_bytes ≡ sum_by record_path_bytes ((codes "a", []) ∷ (codes "a/b", codes "xy") ∷ []))
summarize_valid_example =
    summarize_valid (λ b. hash_64) (λ b. unfold all_code in refl)
      ((codes "a", []) ∷ (codes "a/b", codes "xy") ∷ []) _ (unfold all_code in refl)
