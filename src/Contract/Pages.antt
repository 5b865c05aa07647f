-- ===== src/Contract/Pages.antt =====
-- scripts/backup-v2-contract.ts: pages of chunks, and the references and proofs of a role manifest.
pub mod Tiling
pub mod Linking
use oracle_free_arch_vps.Base.{
  Bool, List, Option, Result, String, Text, [], if◌then◌else◌, leb, length, ltb, map, none, not, ok,
  some, text_eq, ℕ, ◌&&◌, ◌*◌, ◌+◌, ◌-◌, ◌==◌, ◌>>=◌, ◌>>◌, ◌||◌, ◌∷◌,
}
use oracle_free_arch_vps.Profile.{
  assert_budget, ciphertext_bytes, limit, logical_objects, members, slot_bytes,
}
use oracle_free_arch_vps.Json.{Value, arr, end, field, get, null, num, obj, of_elements, str}
use oracle_free_arch_vps.Contract.Fields.{
  bounded_array, capture, demand, hash, integer, object, page_size, uuid,
}
use oracle_free_arch_vps.Contract.Names.{data_object, kind_eq, manifest, parse_object_name}
use oracle_free_arch_vps.Contract.Roles.{
  Role, is_num, read_role, recovery, role_eq, role_text, root,
}
use oracle_free_arch_vps.Contract.Refs.{
  ManifestRef, ObjectRef, object_ref_value, validate_manifest_ref, validate_object_ref,
}
use oracle_free_arch_vps.Inventory.{Summary, validate_summary}

-- BackupV2Chunk
pub record Chunk : Type 0 where
  pub ordinal : ℕ
  pub offset : ℕ
  pub object : ObjectRef

-- BackupV2ChunkPage
pub record ChunkPage : Type 0 where
  pub capture_id : Text
  pub attempt_id : Text
  pub role : Role
  pub page_index : ℕ
  pub start_ordinal : ℕ
  pub start_offset : ℕ
  pub chunks : List Chunk

abbrev pub items_value : List Value → Value
items_value vs = arr (of_elements vs)

abbrev pub chunk_value : Chunk → Value
chunk_value c = obj (
    field "ordinal" (num c.ordinal)
      (field "offset" (num c.offset) (field "object" (object_ref_value c.object) end)))

abbrev pub chunk_page_value : ChunkPage → Value
chunk_page_value p = obj (
    field "schemaVersion" (num 2) (
      field "captureId" (str p.capture_id) (
        field "attemptId" (str p.attempt_id) (
          field "role" (str (role_text p.role)) (
            field "pageIndex" (num p.page_index) (
              field "startOrdinal" (num p.start_ordinal) (
                field "startOffset" (num p.start_offset)
                  (field "chunks" (items_value (map chunk_value p.chunks)) end))))))))

-- One turn of the loop over `r.chunks`, at the counters `ordinal` and `offset`.
unfoldable pub read_chunk : Text → Text → ℕ → ℕ → Value → Result Chunk
read_chunk capture_id attempt_id ordinal offset value = do
  chunk ← object value ("ordinal" ∷ "offset" ∷ "object" ∷ [])
  ref ← validate_object_ref (get chunk "object")
  name ← parse_object_name (str ref.file_name)
  demand (
      is_num (get chunk "ordinal") ordinal
      && is_num (get chunk "offset") offset
      && text_eq name.capture_id capture_id
      && text_eq name.attempt_id attempt_id
      && kind_eq name.kind data_object
      && name.ordinal == ordinal)
  assert_budget ciphertext_bytes (offset + ref.content_length)
  ok (record { ordinal = ordinal; offset = offset; object = ref })

unfoldable pub read_chunks : Text → Text → ℕ → ℕ → List Value → Result (List Chunk)
read_chunks capture_id attempt_id ordinal offset [] = ok []
read_chunks capture_id attempt_id ordinal offset (v ∷ vs) =
    read_chunk capture_id attempt_id ordinal offset v >>= λ c.
    read_chunks capture_id attempt_id (ordinal + 1) (offset + c.object.content_length) vs >>= λ cs.
    ok (c ∷ cs)

abbrev pub chunk_page_keys : List String
chunk_page_keys =
    "schemaVersion" ∷ "captureId" ∷ "attemptId" ∷ "role" ∷ "pageIndex" ∷ "startOrdinal"
    ∷ "startOffset" ∷ "chunks" ∷ []

unfoldable pub validate_chunk_page : Value → Result ChunkPage
validate_chunk_page value = do
  r ← object value chunk_page_keys
  demand (is_num (get r "schemaVersion") 2)
  capture_id ← capture (get r "captureId")
  attempt_id ← uuid (get r "attemptId")
  role ← read_role (get r "role")
  start_ordinal ← integer (get r "startOrdinal") (limit logical_objects - 1) 0
  start_offset ← integer (get r "startOffset") (limit ciphertext_bytes) 0
  values ← bounded_array (get r "chunks") (limit logical_objects)
  chunks ← read_chunks capture_id attempt_id start_ordinal start_offset values
  demand (ltb 0 (length chunks))
  page_index ← integer (get r "pageIndex") (limit logical_objects - 1) 0
  let result : ChunkPage = record {
    capture_id = capture_id;
    attempt_id = attempt_id;
    role = role;
    page_index = page_index;
    start_ordinal = start_ordinal;
    start_offset = start_offset;
    chunks = chunks;
  }
  page_size (chunk_page_value result)
  ok result

-- BackupV2PageRef
pub record PageRef : Type 0 where
  pub manifest : ManifestRef
  pub first_ordinal : ℕ
  pub first_offset : ℕ
  pub chunk_count : ℕ
  pub bytes : ℕ

-- One turn of the loop over `r.pages`.
unfoldable pub read_page_ref : Text → Text → ℕ → ℕ → Value → Result PageRef
read_page_ref capture_id attempt_id ordinal offset value = do
  p ← object value ("manifest" ∷ "firstOrdinal" ∷ "firstOffset" ∷ "chunkCount" ∷ "bytes" ∷ [])
  ref ← validate_manifest_ref (get p "manifest")
  name ← parse_object_name (str ref.object.file_name)
  demand (
      text_eq name.capture_id capture_id
      && text_eq name.attempt_id attempt_id
      && kind_eq name.kind manifest
      && is_num (get p "firstOrdinal") ordinal
      && is_num (get p "firstOffset") offset)
  chunk_count ← integer (get p "chunkCount") (limit logical_objects) 1
  bytes ← integer (get p "bytes") (limit ciphertext_bytes) 1
  demand (leb bytes (chunk_count * limit slot_bytes) && leb chunk_count bytes)
  assert_budget logical_objects (ordinal + chunk_count)
  assert_budget ciphertext_bytes (offset + bytes)
  ok (record {
    manifest = ref;
    first_ordinal = ordinal;
    first_offset = offset;
    chunk_count = chunk_count;
    bytes = bytes;
  })

-- The pages, and the counters after the last of them.
unfoldable pub read_page_refs : Text → Text → ℕ → ℕ → List Value → Result (List PageRef × ℕ)
read_page_refs capture_id attempt_id ordinal offset [] = ok ([], offset)
read_page_refs capture_id attempt_id ordinal offset (v ∷ vs) =
    read_page_ref capture_id attempt_id ordinal offset v >>= λ p.
    read_page_refs capture_id attempt_id (ordinal + p.chunk_count) (offset + p.bytes) vs >>= λ r.
    ok (p ∷ r.0, r.1)

-- BackupV2ProducerProof
pub record Producer : Type 0 where
  pub tar_exit_code : ℕ
  pub drift_records : ℕ
  pub drift_sha256 : Text

-- Only the live root archive may be read while files change, and the changes are recorded.
abbrev pub tar_exit_ok : Value → Role → ℕ → Bool
tar_exit_ok code role drift_records =
    is_num code 0 || (is_num code 1 && role_eq role root && not (drift_records == 0))

unfoldable pub read_producer : Value → Role → Result Producer
read_producer value role = do
  p ←
      object value
        ("tarExitCode" ∷ "zstdExitCode" ∷ "gpgExitCode" ∷ "driftRecords" ∷ "driftSha256" ∷ [])
  drift_records ← integer (get p "driftRecords") (limit members) 0
  demand (
      is_num (get p "zstdExitCode") 0
      && is_num (get p "gpgExitCode") 0
      && tar_exit_ok (get p "tarExitCode") role drift_records)
  drift_sha256 ← hash (get p "driftSha256") 64
  ok (record {
    tar_exit_code = if is_num (get p "tarExitCode") 0 then 0 else 1;
    drift_records = drift_records;
    drift_sha256 = drift_sha256;
  })

-- A recovery archive has no inventory, any other has one that is not empty.
abbrev pub inventory_fits : Role → Option Summary → Bool
inventory_fits role none = role_eq role recovery
inventory_fits role (some s) = not (role_eq role recovery) && not (s.members == 0)

unfoldable pub read_inventory : Value → Role → Result (Option Summary)
read_inventory null role = demand (role_eq role recovery) >>= λ _. ok none
read_inventory v role = do
  s ← validate_summary v
  demand (inventory_fits role (some s))
  ok (some s)
