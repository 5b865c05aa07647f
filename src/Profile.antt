-- ===== src/Profile.antt =====
-- scripts/backup-v2-profile.ts: the admission ceilings of the v2 backup. Byte counts and counters
-- are natural numbers, so the tests for a negative or a fractional value have no counterpart.
use oracle_free_arch_vps.Base.{
  Result, String, arith, err, if◌then◌else◌, leb, ok, require, ℕ, ◌&&◌, ◌*◌, ◌+◌, ◌-◌, ◌>>=◌, ◌>>◌,
  ◌≡◌, ◌≤◌,
}

abbrev pub mib : ℕ
mib = 1024 * 1024

abbrev pub gib : ℕ
gib = 1024 * 1024 * 1024

-- Number.MAX_SAFE_INTEGER
abbrev pub max_safe_integer : ℕ
max_safe_integer = 9007199254740991

pub data Budget : Type 0 where
  slot_bytes workspace_bytes journal_bytes manifest_bytes descriptor_bytes list_entries : Budget
  list_response_bytes control_response_bytes response_header_bytes logical_objects : Budget
  physical_puts puts_per_object ciphertext_bytes physically_put_bytes members path_bytes : Budget
  hardlinked_names directory_listing_bytes sparse_extents metadata_record_bytes depth : Budget
  logical_source_bytes decoder_work_bytes decryption_work_bytes inventory_bytes : Budget
  prune_candidates decoder_memory_bytes blocked_transport_ms : Budget

-- BACKUP_V2_LIMITS
abbrev pub limit : Budget → ℕ
limit slot_bytes = 64 * mib
limit workspace_bytes = 768 * mib
limit journal_bytes = 64 * mib
limit manifest_bytes = mib
limit descriptor_bytes = 1024
limit list_entries = 100
limit list_response_bytes = 2 * mib
limit control_response_bytes = 2 * mib
limit response_header_bytes = 64 * 1024
limit logical_objects = 5000
limit physical_puts = 16384
limit puts_per_object = 16
limit ciphertext_bytes = 256 * gib
limit physically_put_bytes = 512 * gib
limit members = 2_000_000
limit path_bytes = 128 * mib
limit hardlinked_names = 100_000
limit directory_listing_bytes = 32 * mib
limit sparse_extents = 100_000
limit metadata_record_bytes = mib
limit depth = 256
limit logical_source_bytes = 1024 * gib
limit decoder_work_bytes = 3 * (1024 * gib)
limit decryption_work_bytes = 3 * (256 * gib)
limit inventory_bytes = 512 * mib
limit prune_candidates = 100_000
limit decoder_memory_bytes = 128 * mib
limit blocked_transport_ms = 6 * 3_600_000

-- The message names the budget.
unfoldable pub budget_error : Budget → String
budget_error slot_bytes = "Backup v2 slotBytes budget exceeded or invalid"
budget_error workspace_bytes = "Backup v2 workspaceBytes budget exceeded or invalid"
budget_error journal_bytes = "Backup v2 journalBytes budget exceeded or invalid"
budget_error manifest_bytes = "Backup v2 manifestBytes budget exceeded or invalid"
budget_error descriptor_bytes = "Backup v2 descriptorBytes budget exceeded or invalid"
budget_error list_entries = "Backup v2 listEntries budget exceeded or invalid"
budget_error list_response_bytes = "Backup v2 listResponseBytes budget exceeded or invalid"
budget_error control_response_bytes = "Backup v2 controlResponseBytes budget exceeded or invalid"
budget_error response_header_bytes = "Backup v2 responseHeaderBytes budget exceeded or invalid"
budget_error logical_objects = "Backup v2 logicalObjects budget exceeded or invalid"
budget_error physical_puts = "Backup v2 physicalPuts budget exceeded or invalid"
budget_error puts_per_object = "Backup v2 putsPerObject budget exceeded or invalid"
budget_error ciphertext_bytes = "Backup v2 ciphertextBytes budget exceeded or invalid"
budget_error physically_put_bytes = "Backup v2 physicallyPutBytes budget exceeded or invalid"
budget_error members = "Backup v2 members budget exceeded or invalid"
budget_error path_bytes = "Backup v2 pathBytes budget exceeded or invalid"
budget_error hardlinked_names = "Backup v2 hardlinkedNames budget exceeded or invalid"
budget_error directory_listing_bytes = "Backup v2 directoryListingBytes budget exceeded or invalid"
budget_error sparse_extents = "Backup v2 sparseExtents budget exceeded or invalid"
budget_error metadata_record_bytes = "Backup v2 metadataRecordBytes budget exceeded or invalid"
budget_error depth = "Backup v2 depth budget exceeded or invalid"
budget_error logical_source_bytes = "Backup v2 logicalSourceBytes budget exceeded or invalid"
budget_error decoder_work_bytes = "Backup v2 decoderWorkBytes budget exceeded or invalid"
budget_error decryption_work_bytes = "Backup v2 decryptionWorkBytes budget exceeded or invalid"
budget_error inventory_bytes = "Backup v2 inventoryBytes budget exceeded or invalid"
budget_error prune_candidates = "Backup v2 pruneCandidates budget exceeded or invalid"
budget_error decoder_memory_bytes = "Backup v2 decoderMemoryBytes budget exceeded or invalid"
budget_error blocked_transport_ms = "Backup v2 blockedTransportMs budget exceeded or invalid"

unfoldable pub assert_budget : Budget → ℕ → Result ℕ
assert_budget budget value =
    if leb value max_safe_integer && leb value (limit budget)
    then ok value
    else err (budget_error budget)

-- Additional workspace only: what is already allocated is not counted twice.
unfoldable pub required_free_bytes : ℕ → ℕ → Result ℕ
unfolding assert_budget
required_free_bytes allocated margin = do
  held ← assert_budget workspace_bytes allocated
  require (leb margin max_safe_integer) "Backup v2 production writer margin is invalid"
  let required = limit workspace_bytes - held + margin
  require (leb required max_safe_integer) "Backup v2 free-space total overflows"
  ok required

pub assert_budget-eq-ok :
    (budget : Budget) (value : ℕ) {r : ℕ}
    → assert_budget budget value ≡ ok r
    → (r ≡ value) × (value ≤ limit budget)
unfolding assert_budget
assert_budget-eq-ok budget value h = ground arith

-- BACKUP_V2_WORKSPACE.retention
abbrev pub retention_bytes : ℕ
retention_bytes = 256 * mib
