-- ===== src/Contract/Progress.antt =====
-- scripts/backup-v2-contract.ts: the progress document of a running capture or verification.
use oracle_free_arch_vps.Base.{
  List, Option, Result, Text, [], codes, if◌then◌else◌, lookup, none, ok, or_fail, some, ℕ, ◌>>=◌,
  ◌∷◌,
}
use oracle_free_arch_vps.Profile.{
  decoder_work_bytes, decryption_work_bytes, limit, logical_objects, logical_source_bytes, members,
}
use oracle_free_arch_vps.Json.{Fields, Value, get, has_own, str}
use oracle_free_arch_vps.Contract.Fields.{contract_error, fail, integer, monotonic, object}
use oracle_free_arch_vps.Contract.Leases.{own_field}

pub data Phase : Type 0 where
  preflight capturing_and_uploading cloud_complete verifying accepted pruning cleaned failed
        cancellation_blocked :
      Phase

abbrev pub phases : List (Text × Phase)
phases =
    (codes "PREFLIGHT", preflight)
    ∷ (codes "CAPTURING_AND_UPLOADING", capturing_and_uploading)
    ∷ (codes "CLOUD_COMPLETE", cloud_complete)
    ∷ (codes "VERIFYING", verifying)
    ∷ (codes "ACCEPTED", accepted)
    ∷ (codes "PRUNING", pruning)
    ∷ (codes "CLEANED", cleaned)
    ∷ (codes "FAILED", failed)
    ∷ (codes "CANCELLATION_BLOCKED", cancellation_blocked)
    ∷ []

abbrev read_progress_phase : Value → Result Phase
read_progress_phase (str t) = or_fail (lookup t phases) contract_error
read_progress_phase _ = fail

-- BackupV2Progress
pub record Progress : Type 0 where
  pub phase : Phase
  pub observed_monotonic_ms : ℕ
  pub source_bytes : ℕ
  pub compression_input_bytes : ℕ
  pub verified_chunks : ℕ
  pub decrypted_bytes : ℕ
  pub decoded_bytes : Option ℕ
  pub inventory_members : ℕ

-- The optional key is read only where the object has it.
abbrev read_decoded : Fields → Result (Option ℕ)
read_decoded r =
    if has_own r "decodedBytes"
    then (integer (get r "decodedBytes") (limit decoder_work_bytes) 0 >>= λ n. ok (some n))
    else ok none

unfoldable pub validate_progress : Value → Result Progress
validate_progress value = do
  r ← object value (
      "phase"
      ∷ "observedMonotonicMs"
      ∷ "sourceBytes"
      ∷ "compressionInputBytes"
      ∷ "verifiedChunks"
      ∷ "decryptedBytes"
      ∷ "inventoryMembers"
      ∷ own_field value "decodedBytes")
  phase ← read_progress_phase (get r "phase")
  observed ← monotonic (get r "observedMonotonicMs")
  source_bytes ← integer (get r "sourceBytes") (limit logical_source_bytes) 0
  compression_input_bytes ← integer (get r "compressionInputBytes") (limit logical_source_bytes) 0
  verified_chunks ← integer (get r "verifiedChunks") (limit logical_objects) 0
  decrypted_bytes ← integer (get r "decryptedBytes") (limit decryption_work_bytes) 0
  decoded ← read_decoded r
  inventory_members ← integer (get r "inventoryMembers") (limit members) 0
  ok (record {
    phase = phase;
    observed_monotonic_ms = observed;
    source_bytes = source_bytes;
    compression_input_bytes = compression_input_bytes;
    verified_chunks = verified_chunks;
    decrypted_bytes = decrypted_bytes;
    decoded_bytes = decoded;
    inventory_members = inventory_members;
  })
