-- ===== src/Contract/Refs/Same.antt =====
-- A validator of references returns the typed record that it was given.
use oracle_free_arch_vps.Base.{arith, ok, ◌≡◌}
use oracle_free_arch_vps.Profile.{limit, max_safe_integer, slot_bytes}
use oracle_free_arch_vps.Contract.Fields.{object}
use oracle_free_arch_vps.Contract.Fields.Plain.{hash_same, integer_same, text_same}
use oracle_free_arch_vps.Contract.Refs.{ObjectRef, object_ref_value, validate_object_ref}

pub validate_object_ref_same :
    (r s : ObjectRef) → validate_object_ref (object_ref_value r) ≡ ok s → s ≡ r
unfolding validate_object_ref object
validate_object_ref_same r s h = ground (
  arith,
  text_same r.file_id s.file_id 512,
  text_same r.file_name s.file_name 1000,
  integer_same r.content_length s.content_length (limit slot_bytes) 1,
  hash_same r.content_sha1 s.content_sha1 40,
  integer_same r.upload_timestamp s.upload_timestamp max_safe_integer 0,
  hash_same r.sha256 s.sha256 64,
)
