-- ===== src/Contract/Refs.antt =====
-- scripts/backup-v2-contract.ts: references to objects and manifests, cursors, pages of versions.
pub mod Same
use oracle_free_arch_vps.Base.{
  List, Option, Result, Text, [], codes, if◌then◌else◌, leb, length, map_result, none, not, ok,
  some, ℕ, ◌&&◌, ◌>>=◌, ◌>>◌, ◌∷◌,
}
use oracle_free_arch_vps.Profile.{
  descriptor_bytes, limit, list_entries, manifest_bytes, max_safe_integer, slot_bytes,
}
use oracle_free_arch_vps.Json.{Value, end, field, get, json_bytes, null, num, obj, str}
use oracle_free_arch_vps.Contract.Fields.{
  bounded_array, demand, fail, has_control_character, hash, integer, object, text,
}
use oracle_free_arch_vps.Contract.Names.{parse_object_name}
use oracle_free_arch_vps.Contract.Roles.{is_text}

-- BackupV2ObjectRef; its `action` is always "upload".
pub record ObjectRef : Type 0 where
  pub file_id : Text
  pub file_name : Text
  pub content_length : ℕ
  pub content_sha1 : Text
  pub upload_timestamp : ℕ
  pub sha256 : Text

abbrev pub object_ref_value : ObjectRef → Value
object_ref_value r = obj (
    field "fileId" (str r.file_id) (
      field "fileName" (str r.file_name) (
        field "contentLength" (num r.content_length) (
          field "contentSha1" (str r.content_sha1) (
            field "uploadTimestamp" (num r.upload_timestamp)
              (field "action" (str (codes "upload")) (field "sha256" (str r.sha256) end)))))))

unfoldable pub validate_object_ref : Value → Result ObjectRef
validate_object_ref value = do
  r ← object value (
      "fileId" ∷ "fileName" ∷ "contentLength" ∷ "contentSha1" ∷ "uploadTimestamp" ∷ "action"
      ∷ "sha256" ∷ [])
  parse_object_name (get r "fileName")
  demand (is_text (get r "action") (codes "upload"))
  file_id ← text (get r "fileId") 512
  file_name ← text (get r "fileName") 1000
  content_length ← integer (get r "contentLength") (limit slot_bytes) 1
  content_sha1 ← hash (get r "contentSha1") 40
  upload_timestamp ← integer (get r "uploadTimestamp") max_safe_integer 0
  sha256 ← hash (get r "sha256") 64
  let result : ObjectRef = record {
    file_id = file_id;
    file_name = file_name;
    content_length = content_length;
    content_sha1 = content_sha1;
    upload_timestamp = upload_timestamp;
    sha256 = sha256;
  }
  demand (leb (json_bytes (object_ref_value result)) (limit descriptor_bytes))
  ok result

-- BackupV2ManifestRef
pub record ManifestRef : Type 0 where
  pub object : ObjectRef
  pub plaintext_sha256 : Text

abbrev pub manifest_ref_value : ManifestRef → Value
manifest_ref_value r = obj (
    field "object" (object_ref_value r.object)
      (field "plaintextSha256" (str r.plaintext_sha256) end))

unfoldable pub validate_manifest_ref : Value → Result ManifestRef
validate_manifest_ref value = do
  r ← object value ("object" ∷ "plaintextSha256" ∷ [])
  ref ← validate_object_ref (get r "object")
  demand (leb ref.content_length (limit manifest_bytes))
  plaintext_sha256 ← hash (get r "plaintextSha256") 64
  ok (record { object = ref; plaintext_sha256 = plaintext_sha256 })

-- BackupV2Cursor
pub record Cursor : Type 0 where
  pub file_name : Text
  pub file_id : Text

unfoldable pub validate_cursor : Value → Result Cursor
validate_cursor value = do
  r ← object value ("fileName" ∷ "fileId" ∷ [])
  parse_object_name (get r "fileName")
  file_name ← text (get r "fileName") 1000
  file_id ← text (get r "fileId") 512
  ok (record { file_name = file_name; file_id = file_id })

pub data Action : Type 0 where
  upload hide start : Action

abbrev pub read_action : Value → Result Action
read_action v =
    if is_text v (codes "upload")
    then ok upload
    else if is_text v (codes "hide")
    then ok hide
    else if is_text v (codes "start")
    then ok start
    else fail

-- BackupV2ListedVersion
pub record ListedVersion : Type 0 where
  pub file_id : Text
  pub file_name : Text
  pub content_length : ℕ
  pub content_sha1 : Text
  pub upload_timestamp : ℕ
  pub action : Action

-- A SHA1 of a version that is no upload may be any short text, also the empty one.
read_sha1 : Action → Value → Result Text
unfolding has_control_character
read_sha1 action (str t) = do
  demand (leb (length t) 40 && not (has_control_character t))
  elim action [ upload ↦ hash (str t) 40 | _ ↦ ok t ]
read_sha1 action _ = fail

unfoldable pub validate_version : Value → Result ListedVersion
unfolding read_sha1
validate_version value = do
  r ←
      object value (
        "fileId" ∷ "fileName" ∷ "contentLength" ∷ "contentSha1" ∷ "uploadTimestamp" ∷ "action" ∷ [])
  parse_object_name (get r "fileName")
  action ← read_action (get r "action")
  content_sha1 ← read_sha1 action (get r "contentSha1")
  file_id ← text (get r "fileId") 512
  file_name ← text (get r "fileName") 1000
  content_length ← integer (get r "contentLength") (limit slot_bytes) 0
  upload_timestamp ← integer (get r "uploadTimestamp") max_safe_integer 0
  ok (record {
    file_id = file_id;
    file_name = file_name;
    content_length = content_length;
    content_sha1 = content_sha1;
    upload_timestamp = upload_timestamp;
    action = action;
  })

-- BackupV2VersionPage
pub record VersionPage : Type 0 where
  pub items : List ListedVersion
  pub next : Option Cursor

read_next : Value → Result (Option Cursor)
read_next null = ok none
read_next v = validate_cursor v >>= λ c. ok (some c)

unfoldable pub validate_version_page : Value → Result VersionPage
unfolding read_next
validate_version_page value = do
  r ← object value ("items" ∷ "next" ∷ [])
  values ← bounded_array (get r "items") (limit list_entries)
  items ← map_result validate_version values
  next ← read_next (get r "next")
  ok (record { items = items; next = next })
