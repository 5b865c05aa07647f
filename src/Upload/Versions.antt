-- ===== src/Upload/Versions.antt =====
-- scripts/backup-v2-upload.ts: what `reconcile` checks of a page of listed versions and of its cursor.
use oracle_free_arch_vps.Base.{
  Bool, List, Option, Result, Text, [], length, ltb, none, not, ok, require, some, text_eq, ◌&&◌,
  ◌==◌, ◌>>=◌, ◌>>◌, ◌∷◌,
}
use oracle_free_arch_vps.Contract.Refs.{Cursor, ListedVersion, ObjectRef}
use oracle_free_arch_vps.Contract.Slots.{PutIntent}
use oracle_free_arch_vps.Retention.Inventory.{is_upload, seen_cursor}
use oracle_free_arch_vps.Upload.Records.{match}

-- A listed version as the object of this intent.
abbrev pub object_of : ListedVersion → PutIntent → ObjectRef
object_of v i = record {
  file_id = v.file_id;
  file_name = v.file_name;
  content_length = v.content_length;
  content_sha1 = v.content_sha1;
  upload_timestamp = v.upload_timestamp;
  sha256 = i.slot.sha256;
}

abbrev pub is_physical : ListedVersion → Text → PutIntent → Bool
is_physical v name i =
    text_eq v.file_name name
    && is_upload v.action
    && v.content_length == i.slot.bytes
    && text_eq v.content_sha1 i.slot.sha1

-- The first version of a page decides: it is the object, or the inventory conflicts.
unfoldable pub first_version : Text → PutIntent → List ListedVersion → Result (Option ObjectRef)
first_version name i [] = ok none
first_version name i (v ∷ vs) =
    require (is_physical v name i) "Backup v2 upload physical object inventory conflicts"
    >> match (object_of v i) (record i { name = name })
    >>= λ found. ok (some found)

-- The check of a cursor before the next page.
unfoldable pub next_cursor : List Cursor → Cursor → Result (List Cursor)
next_cursor seen c =
    require (not (seen_cursor c seen) && ltb (length seen) 32)
      "Backup v2 upload pagination did not terminate"
    >> ok (c ∷ seen)
