-- ===== src/Contract/Slots.antt =====
-- scripts/backup-v2-contract.ts: sealed spool slots and the intents of physical PUTs.
pub mod Same
use oracle_free_arch_vps.Base.{
  Bool, List, Result, Text, [], codes, false, length, ltb, not, ok, text_eq, true, ℕ, ◌&&◌, ◌++◌,
  ◌+◌, ◌==◌, ◌>>=◌, ◌>>◌, ◌||◌, ◌∷◌,
}
use oracle_free_arch_vps.Profile.{
  assert_budget, ciphertext_bytes, limit, max_safe_integer, slot_bytes,
}
use oracle_free_arch_vps.Json.{Value, end, field, get, num, obj, str}
use oracle_free_arch_vps.Contract.Fields.{demand, hash, integer, object, text}
use oracle_free_arch_vps.Contract.Names.{Kind, kind_text, parse_object_name}
use oracle_free_arch_vps.Contract.Roles.{Role, is_num, is_text, read_role, role_text, utc}

-- BackupV2SealedSlot; uid 0, mode 384 and one link are fixed by the validator.
pub record SealedSlot : Type 0 where
  pub index : ℕ
  pub path : Text
  pub device : ℕ
  pub inode : ℕ
  pub bytes : ℕ
  pub sha1 : Text
  pub sha256 : Text

abbrev pub sealed_slot_value : SealedSlot → Value
sealed_slot_value s = obj (
    field "index" (num s.index) (
      field "path" (str s.path) (
        field "device" (num s.device) (
          field "inode" (num s.inode) (
            field "bytes" (num s.bytes) (
              field "sha1" (str s.sha1) (
                field "sha256" (str s.sha256)
                  (field "uid" (num 0) (field "mode" (num 384) (field "links" (num 1) end))))))))))

-- The parts of `path.split("/")`.
split_slash : Text → Text → List Text
split_slash part [] = part ∷ []
split_slash part (c ∷ s) = elim (c == b'/') [
  | true ↦ part ∷ split_slash [] s
  | false ↦ split_slash (part ++ c ∷ []) s
]

abbrev is_dots : Text → Bool
is_dots part = text_eq part (codes ".") || text_eq part (codes "..")

no_dots : List Text → Bool
no_dots [] = true
no_dots (part ∷ rest) = not (is_dots part) && no_dots rest

-- Between the first and the last slash no part is empty.
inner_full : List Text → Bool
inner_full [] = true
inner_full (part ∷ []) = ltb 0 (length part)
inner_full (part ∷ rest) = ltb 0 (length part) && inner_full rest

starts_root : List Text → Bool
unfolding inner_full
starts_root ([] ∷ rest) = inner_full rest
starts_root _ = false

-- `startsWith("/")`, no `/` at the end, no `//`, and no `.` or `..` among the parts.
unfoldable pub is_clean_path : Text → Bool
unfolding split_slash no_dots starts_root
is_clean_path path = let parts = split_slash [] path in starts_root parts && no_dots parts

unfoldable pub validate_sealed_slot : Value → Result SealedSlot
validate_sealed_slot value = do
  r ← object value (
      "index" ∷ "path" ∷ "device" ∷ "inode" ∷ "bytes" ∷ "sha1" ∷ "sha256" ∷ "uid" ∷ "mode" ∷ "links"
      ∷ [])
  path ← text (get r "path") 1000
  demand (
      is_clean_path path
      && is_num (get r "uid") 0
      && is_num (get r "mode") 384
      && is_num (get r "links") 1)
  index ← integer (get r "index") 1 0
  device ← integer (get r "device") max_safe_integer 0
  inode ← integer (get r "inode") max_safe_integer 1
  bytes ← integer (get r "bytes") (limit slot_bytes) 1
  sha1 ← hash (get r "sha1") 40
  sha256 ← hash (get r "sha256") 64
  ok (record {
    index = index;
    path = path;
    device = device;
    inode = inode;
    bytes = bytes;
    sha1 = sha1;
    sha256 = sha256;
  })

-- BackupV2PutIntent
pub record PutIntent : Type 0 where
  pub capture_id : Text
  pub role : Role
  pub attempt_id : Text
  pub kind : Kind
  pub ordinal : ℕ
  pub offset : ℕ
  pub put_id : Text
  pub created_at_utc : Text
  pub slot : SealedSlot
  pub name : Text

abbrev pub put_intent_value : PutIntent → Value
put_intent_value i = obj (
    field "captureId" (str i.capture_id) (
      field "role" (str (role_text i.role)) (
        field "attemptId" (str i.attempt_id) (
          field "kind" (str (kind_text i.kind)) (
            field "ordinal" (num i.ordinal) (
              field "offset" (num i.offset) (
                field "putId" (str i.put_id) (
                  field "createdAtUtc" (str i.created_at_utc) (
                    field "slot" (sealed_slot_value i.slot) (field "name" (str i.name) end))))))))))

unfoldable pub validate_put_intent : Value → Result PutIntent
validate_put_intent value = do
  r ← object value (
      "captureId" ∷ "role" ∷ "attemptId" ∷ "kind" ∷ "ordinal" ∷ "offset" ∷ "putId" ∷ "createdAtUtc"
      ∷ "slot" ∷ "name" ∷ [])
  parsed ← parse_object_name (get r "name")
  name ← text (get r "name") 1000
  demand (
      is_text (get r "captureId") parsed.capture_id
      && is_text (get r "attemptId") parsed.attempt_id
      && is_text (get r "kind") (kind_text parsed.kind)
      && is_num (get r "ordinal") parsed.ordinal
      && is_text (get r "putId") parsed.put_id)
  slot ← validate_sealed_slot (get r "slot")
  offset ← integer (get r "offset") (limit ciphertext_bytes) 0
  assert_budget ciphertext_bytes (offset + slot.bytes)
  role ← read_role (get r "role")
  created_at_utc ← utc (get r "createdAtUtc")
  ok (record {
    capture_id = parsed.capture_id;
    role = role;
    attempt_id = parsed.attempt_id;
    kind = parsed.kind;
    ordinal = parsed.ordinal;
    offset = offset;
    put_id = parsed.put_id;
    created_at_utc = created_at_utc;
    slot = slot;
    name = name;
  })
