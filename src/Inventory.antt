-- ===== src/Inventory.antt =====
-- scripts/backup-v2-inventory.ts: frames of archive members and the running summary of them. The
-- SHA-256 that is kept over the frames is a function of the bytes, given as a parameter where read.
pub mod Counts
use oracle_free_arch_vps.Base.{
  Bool, List, Option, Result, String, Text, [], codes, err, false, if◌then◌else◌, leb, length, none,
  not, ok, or_fail, require, some, text_eq, true, ℕ, ◌%◌, ◌&&◌, ◌*◌, ◌++◌, ◌+◌, ◌/◌, ◌==◌, ◌>>=◌,
  ◌>>◌, ◌||◌, ◌∷◌,
}
use oracle_free_arch_vps.Profile.{
  Budget, assert_budget, budget_error, inventory_bytes, members, metadata_record_bytes, path_bytes,
}
use oracle_free_arch_vps.Json.{Fields, Value, end, field, get, num, obj, str}
use oracle_free_arch_vps.Contract.Fields.{hex, matches, object, times}

abbrev pub Bytes : Type 0
Bytes = List ℕ

abbrev pub inventory_error : String
inventory_error = "Backup v2 inventory path is invalid"

-- BackupV2InventorySummary; its `encoding` is fixed.
pub record Summary : Type 0 where
  pub members : ℕ
  pub path_bytes : ℕ
  pub encoded_bytes : ℕ
  pub sha256 : Text

abbrev pub summary_value : Summary → Value
summary_value s = obj (
    field "encoding" (str (codes "backup-v2-inventory-1")) (
      field "members" (num s.members) (
        field "pathBytes" (num s.path_bytes)
          (field "encodedBytes" (num s.encoded_bytes) (field "sha256" (str s.sha256) end)))))

-- `assertBackupV2Budget` of a value that may be no number.
unfoldable pub budgeted : Budget → Value → Result ℕ
budgeted b (num n) = assert_budget b n
budgeted b _ = err (budget_error b)

abbrev plain_hash : Value → Option Text
plain_hash (str t) = if matches (times 64 hex) t then some t else none
plain_hash _ = none

abbrev is_encoding : Value → Bool
is_encoding (str t) = text_eq t (codes "backup-v2-inventory-1")
is_encoding _ = false

-- The record of a summary: an object of exactly these keys.
abbrev summary_fields : Value → Result Fields
summary_fields value =
    elim (object value ("encoding" ∷ "members" ∷ "pathBytes" ∷ "encodedBytes" ∷ "sha256" ∷ [])) [
      | ok r ↦ ok r
      | err e ↦ err "Backup v2 inventory summary is invalid"
    ]

unfoldable pub validate_summary : Value → Result Summary
validate_summary value = do
  r ← summary_fields value
  require (is_encoding (get r "encoding")) "Backup v2 inventory summary is invalid"
  sha256 ← or_fail (plain_hash (get r "sha256")) "Backup v2 inventory summary is invalid"
  count ← budgeted members (get r "members")
  paths ← budgeted path_bytes (get r "pathBytes")
  encoded_bytes ← budgeted inventory_bytes (get r "encodedBytes")
  require (leb count paths && leb (8 * count + paths) encoded_bytes)
      "Backup v2 inventory counts are inconsistent"
  ok (record {
    members = count;
    path_bytes = paths;
    encoded_bytes = encoded_bytes;
    sha256 = sha256;
  })

-- The scan for a component `..`: `start` is what the current component holds so far.
unfoldable pub traverses : Bytes → Bytes → Bool
traverses part [] = text_eq part (codes "..")
traverses part (c ∷ path) = elim (c == b'/') [
  | true ↦ text_eq part (codes "..") || traverses [] path
  | false ↦ traverses (part ++ c ∷ []) path
]

contains_zero : Bytes → Bool
contains_zero [] = false
contains_zero (c ∷ s) = c == 0 || contains_zero s

abbrev is_rooted : Bytes → Bool
is_rooted [] = true
is_rooted (c ∷ s) = c == b'/'

-- `DataView.setUint32`, big-endian.
unfoldable pub uint32 : ℕ → Bytes
uint32 n = n / 16777216 % 256 ∷ n / 65536 % 256 ∷ n / 256 % 256 ∷ n % 256 ∷ []

unfoldable pub encode_record : Bytes → Bytes → Result Bytes
unfolding contains_zero uint32
encode_record path metadata = do
  require (not (is_rooted path) && not (contains_zero path)) inventory_error
  require (not (traverses [] path)) "Backup v2 inventory path traverses its root"
  assert_budget metadata_record_bytes (8 + length path + length metadata)
  ok (uint32 (length path) ++ (uint32 (length metadata) ++ (path ++ metadata)))

-- The closure of `createBackupV2InventorySummary`: what was hashed stands for the hash's state.
pub record Running : Type 0 where
  pub hashed : Bytes
  pub members : ℕ
  pub path_bytes : ℕ
  pub encoded_bytes : ℕ
  pub finished : Bool

abbrev pub new_summary : Running
new_summary = record {
  hashed = [];
  members = 0;
  path_bytes = 0;
  encoded_bytes = 0;
  finished = false;
}

unfoldable pub add : Running → Bytes → Bytes → Result Running
add s path metadata = do
  require (not s.finished) "Backup v2 inventory summary is already final"
  frame ← encode_record path metadata
  next_members ← assert_budget members (s.members + 1)
  next_paths ← assert_budget path_bytes (s.path_bytes + length path)
  next_bytes ← assert_budget inventory_bytes (s.encoded_bytes + length frame)
  ok (record s {
    hashed = s.hashed ++ frame;
    members = next_members;
    path_bytes = next_paths;
    encoded_bytes = next_bytes;
  })

unfoldable pub finish : (Bytes → Text) → Running → Result (Running × Summary)
finish digest s = do
  require (not s.finished) "Backup v2 inventory summary is already final"
  ok (
    record s { finished = true },
    record {
      members = s.members;
      path_bytes = s.path_bytes;
      encoded_bytes = s.encoded_bytes;
      sha256 = digest s.hashed;
    },
  )

-- `summarizeBackupV2Inventory`
unfoldable pub add_all : Running → List (Bytes × Bytes) → Result Running
add_all s [] = ok s
add_all s ((path, metadata) ∷ rest) = add s path metadata >>= λ t. add_all t rest

unfoldable pub summarize : (Bytes → Text) → List (Bytes × Bytes) → Result Summary
summarize digest records = do s ← add_all new_summary records; r ← finish digest s; ok r.1
