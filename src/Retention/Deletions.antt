-- ===== src/Retention/Deletions.antt =====
-- scripts/backup-v2-retention.ts: the journal of `executeBackupV2Retention`, its local `apply`.
pub mod Attempts
pub mod Sizes
use oracle_free_arch_vps.Base.{
  Bool, List, Option, Result, Text, [], codes, false, get_elem?, if◌then◌else◌, leb, map, none, ok,
  or_fail, require, some, text_eq, true, ℕ, ◌&&◌, ◌+◌, ◌==◌, ◌>>=◌, ◌>>◌, ◌∷◌,
}
use oracle_free_arch_vps.Profile.{assert_budget, journal_bytes, limit}
use oracle_free_arch_vps.Json.{Value, end, field, json_bytes, num, obj, str}
use oracle_free_arch_vps.Contract.Refs.{ObjectRef}
use oracle_free_arch_vps.Retention.Inventory.{retention_error}
use oracle_free_arch_vps.Contract.Pages.{items_value}

pub data Outcome : Type 0 where
  intended deleted absent present ambiguous : Outcome

abbrev pub outcome_text : Outcome → Text
outcome_text intended = codes "INTENT"
outcome_text deleted = codes "DELETED"
outcome_text absent = codes "ABSENT"
outcome_text present = codes "PRESENT"
outcome_text ambiguous = codes "AMBIGUOUS"

-- BackupV2RetentionJournalEntry
pub record Deletion : Type 0 where
  pub plan_sha256 : Text
  pub ordinal : ℕ
  pub file_id : Text
  pub file_name : Text
  pub attempt : ℕ
  pub outcome : Outcome

abbrev pub deletion_value : Deletion → Value
deletion_value e = obj (
    field "planSha256" (str e.plan_sha256) (
      field "ordinal" (num e.ordinal) (
        field "fileId" (str e.file_id) (
          field "fileName" (str e.file_name)
            (field "attempt" (num e.attempt) (field "state" (str (outcome_text e.outcome)) end))))))

-- The map `states`, by ordinal, and `journalBytes`.
pub record Deletions : Type 0 where
  pub states : ℕ → Option Deletion
  pub journal_bytes : ℕ

abbrev pub no_deletions : Deletions
no_deletions = record { states = λ k. none; journal_bytes = 0 }

abbrev pub set_state : (ℕ → Option Deletion) → ℕ → Deletion → ℕ → Option Deletion
set_state states k e j = if j == k then some e else states j

abbrev pub is_open : Outcome → Bool
is_open intended = true
is_open ambiguous = true
is_open _ = false

abbrev pub is_present : Outcome → Bool
is_present present = true
is_present _ = false

-- Whether a record may follow the last one of its object: a first intent, or one after the object
-- was found present again; any other outcome settles the attempt that is open.
unfoldable pub follows : Option Deletion → Outcome → ℕ → Bool
follows none intended attempt = attempt == 1
follows (some p) intended attempt = is_present p.outcome && attempt == p.attempt + 1
follows none _ attempt = false
follows (some p) _ attempt = is_open p.outcome && attempt == p.attempt

abbrev pub names_candidate : Text → Deletion → ObjectRef → Bool
names_candidate digest e r =
    text_eq e.plan_sha256 digest
    && text_eq e.file_id r.file_id
    && text_eq e.file_name r.file_name
    && leb 1 e.attempt
    && leb e.attempt 16

abbrev pub journal_document : List Deletion → Value
journal_document es = items_value (map deletion_value es)

unfoldable pub apply_deletion : Text → List ObjectRef → Deletions → Deletion → Result Deletions
apply_deletion digest candidates s e = do
  r ← or_fail (get_elem? candidates e.ordinal) retention_error
  require (names_candidate digest e r) retention_error
  require (follows (s.states e.ordinal) e.outcome e.attempt) retention_error
  size ← assert_budget journal_bytes (s.journal_bytes + (json_bytes (deletion_value e) + 1))
  ok (record { states = set_state s.states e.ordinal e; journal_bytes = size })

-- The journal that was loaded, record by record.
unfoldable pub load_deletions : Text → List ObjectRef → Deletions → List Deletion → Result Deletions
load_deletions digest candidates s [] = ok s
load_deletions digest candidates s (e ∷ es) =
    apply_deletion digest candidates s e >>= λ t. load_deletions digest candidates t es

-- The journal that is loaded: its size as a whole, then each of its entries.
unfoldable pub open_deletions : Text → List ObjectRef → List Deletion → Result Deletions
open_deletions digest candidates journal = do
  require (leb (json_bytes (journal_document journal)) (limit journal_bytes)) retention_error
  load_deletions digest candidates no_deletions journal
