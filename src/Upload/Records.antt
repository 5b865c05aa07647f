-- ===== src/Upload/Records.antt =====
-- scripts/backup-v2-upload.ts: journal records, the keys of logical objects, and the check that
-- binds an object to its intent.
use oracle_free_arch_vps.Base.{
  Bool, Result, Text, arith, codes, leb, ok, require, text_eq, text_eq→eq, true, ℕ, ◌&&◌, ◌++◌, ◌+◌,
  ◌==◌, ◌>>=◌, ◌>>◌, ◌∷◌, ◌≡◌,
}
use oracle_free_arch_vps.Json.{Value, decimal, end, field, json_bytes, num, obj, str}
use oracle_free_arch_vps.Contract.Fields.{object}
use oracle_free_arch_vps.Contract.Names.{Kind, kind_text, object_name}
use oracle_free_arch_vps.Contract.Roles.{Role, role_text}
use oracle_free_arch_vps.Contract.Refs.{ObjectRef, object_ref_value, validate_object_ref}
use oracle_free_arch_vps.Contract.Slots.{PutIntent, SealedSlot, put_intent_value}
use oracle_free_arch_vps.Contract.Leases.{TransferPhase, phase_text}

-- BackupV2UploadIdentity
pub record Identity : Type 0 where
  pub capture_id : Text
  pub attempt_id : Text
  pub role : Role
  pub kind : Kind

-- RecordEntry. A record of an unknown type cannot be written here.
pub data Entry : Type 0 where
  begin : Identity → Entry
  intent : PutIntent → Entry
  candidate selected : (name : Text) → ObjectRef → Entry
  verify reclaimed : (name : Text) → Entry
  episode : (key started_at_utc : Text) → Entry
  transfer : (key : Text) → TransferPhase → (started_at_utc : Text) → Entry
  scan : Entry
  eof : Identity → (bytes : ℕ) (sha256 : Text) (chunks : ℕ) → Entry

-- `keyFor`
unfoldable pub key_for : Identity → ℕ → Text
key_for i ordinal =
    i.capture_id
    ++ (b'/'
        ∷ (i.attempt_id
            ++ (b'/'
                ∷ (role_text i.role ++ (b'/' ∷ (kind_text i.kind ++ (b'/' ∷ decimal ordinal)))))))

abbrev pub identity_key : Identity → Text
identity_key i = key_for i 0

abbrev pub identity_of : PutIntent → Identity
identity_of i = record {
  capture_id = i.capture_id;
  attempt_id = i.attempt_id;
  role = i.role;
  kind = i.kind;
}

abbrev pub intent_key : PutIntent → Text
intent_key i = key_for (identity_of i) i.ordinal

abbrev pub zero_id : Text
zero_id = codes "00000000-0000-0000-0000-000000000000"

-- `identity`: the checks of a name's components; a role of the type is always one of the seven.
unfoldable pub check_identity : Identity → Result Identity
check_identity i = object_name i.capture_id i.attempt_id i.kind 0 zero_id >>= λ _. ok i

-- `match`
unfoldable pub match : ObjectRef → PutIntent → Result ObjectRef
match object i = do
  result ← validate_object_ref (object_ref_value object)
  require
      (text_eq result.file_name i.name
        && result.content_length == i.slot.bytes
        && text_eq result.content_sha1 i.slot.sha1
        && text_eq result.sha256 i.slot.sha256)
      "Backup v2 upload object binding is invalid"
  ok result

-- Records compare as their JSON texts do: field by field.
abbrev pub slot_eq : SealedSlot → SealedSlot → Bool
slot_eq a b =
    a.index == b.index
    && text_eq a.path b.path
    && a.device == b.device
    && a.inode == b.inode
    && a.bytes == b.bytes
    && text_eq a.sha1 b.sha1
    && text_eq a.sha256 b.sha256

abbrev pub ref_eq : ObjectRef → ObjectRef → Bool
ref_eq a b =
    text_eq a.file_id b.file_id
    && text_eq a.file_name b.file_name
    && a.content_length == b.content_length
    && text_eq a.content_sha1 b.content_sha1
    && a.upload_timestamp == b.upload_timestamp
    && text_eq a.sha256 b.sha256

abbrev identity_value : Identity → Value
identity_value i = obj (
    field "captureId" (str i.capture_id) (
      field "attemptId" (str i.attempt_id)
        (field "role" (str (role_text i.role)) (field "kind" (str (kind_text i.kind)) end))))

abbrev entry_value : Entry → Value
entry_value (begin i) =
    obj (field "type" (str (codes "begin")) (field "identity" (identity_value i) end))
entry_value (intent i) =
    obj (field "type" (str (codes "intent")) (field "intent" (put_intent_value i) end))
entry_value (candidate name r) = obj (
    field "type" (str (codes "candidate"))
      (field "name" (str name) (field "object" (object_ref_value r) end)))
entry_value (selected name r) = obj (
    field "type" (str (codes "selected"))
      (field "name" (str name) (field "object" (object_ref_value r) end)))
entry_value (verify name) = obj (field "type" (str (codes "verify")) (field "name" (str name) end))
entry_value (reclaimed name) =
    obj (field "type" (str (codes "reclaimed")) (field "name" (str name) end))
entry_value (episode key at) = obj (
    field "type" (str (codes "episode"))
      (field "key" (str key) (field "startedAtUtc" (str at) end)))
entry_value (transfer key phase at) = obj (
    field "type" (str (codes "transfer")) (
      field "key" (str key)
        (field "phase" (str (phase_text phase)) (field "startedAtUtc" (str at) end))))
entry_value scan = obj (field "type" (str (codes "scan")) end)
entry_value (eof i bytes sha256 chunks) = obj (
    field "type" (str (codes "eof")) (
      field "identity" (identity_value i) (
        field "bytes" (num bytes) (field "sha256" (str sha256) (field "chunks" (num chunks) end)))))

-- `encode`: the length of the record's line, or the error of a line that is too long.
unfoldable pub encoded_bytes : Entry → Result ℕ
encoded_bytes e = do
  let size = json_bytes (entry_value e) + 1
  require (leb size 8192) "Backup v2 upload journal record limit exceeded"
  ok size

pub slot_eq→eq : (a b : SealedSlot) → slot_eq a b ≡ true → a ≡ b
slot_eq→eq a b h =
    ground (arith, text_eq→eq a.path b.path, text_eq→eq a.sha1 b.sha1, text_eq→eq a.sha256 b.sha256)

pub ref_eq→eq : (a b : ObjectRef) → ref_eq a b ≡ true → a ≡ b
ref_eq→eq a b h = ground (
  arith,
  text_eq→eq a.file_id b.file_id,
  text_eq→eq a.file_name b.file_name,
  text_eq→eq a.content_sha1 b.content_sha1,
  text_eq→eq a.sha256 b.sha256,
)
