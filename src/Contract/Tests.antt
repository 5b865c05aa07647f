-- ===== src/Contract/Tests.antt =====
-- Names and a page of chunks at concrete values.
pub mod Documents
use oracle_free_arch_vps.Base.{[], arith, codes, ok, refl, sum_by, take, ℕ, ◌+◌, ◌∷◌, ◌≡◌, ◌≤◌}
use oracle_free_arch_vps.Profile.{assert_budget, ciphertext_bytes, limit}
use oracle_free_arch_vps.Json.{decimal, json_bytes, pad_digits, quote, str, stringify, utf8_length}
use oracle_free_arch_vps.Contract.Fields.{
  bounded_array, capture, hash, integer, matches, object, page_size, text, uuid,
}
use oracle_free_arch_vps.Contract.Names.{
  Name, consume, consume_kind, data_object, exec_name, number_onto, object_name, parse_object_name,
  print_name,
}
use oracle_free_arch_vps.Contract.Names.RoundTrip.{
  IsName, object_name_total, parse_object_name-print_name,
}
use oracle_free_arch_vps.Contract.Roles.{read_role, root}
use oracle_free_arch_vps.Contract.Refs.{ObjectRef, validate_object_ref}
use oracle_free_arch_vps.Contract.Pages.{
  Chunk, ChunkPage, chunk_page_value, read_chunk, read_chunks, validate_chunk_page,
}
use oracle_free_arch_vps.Contract.Pages.Tiling.{NamedFor, PageStates, chunk_page_tiles, chunk_size}

all_code : Unit {0}
unfolding object_name capture uuid text integer matches utf8_length parse_object_name exec_name
    consume consume_kind number_onto pad_digits object hash read_role assert_budget
    validate_object_ref json_bytes stringify quote decimal bounded_array read_chunk read_chunks
    page_size validate_chunk_page
all_code = tt

abbrev pub chunk_name : Name
chunk_name = record {
  capture_id = codes "generation-11111111-1111-4111-8111-111111111111";
  attempt_id = codes "22222222-2222-4222-8222-222222222222";
  kind = data_object;
  ordinal = 7;
  put_id = codes "33333333-3333-4333-8333-333333333333";
}

chunk_name-IsName : IsName chunk_name
unfolding all_code
chunk_name-IsName = record {
  capture_ok = refl;
  attempt_ok = refl;
  ordinal_ok = omega arith;
  put_ok = refl;
}

object_name_total_example :
    object_name chunk_name.capture_id chunk_name.attempt_id data_object 7 chunk_name.put_id
    ≡ ok (print_name chunk_name)
object_name_total_example = object_name_total chunk_name chunk_name-IsName

parse_object_name-print_name_example :
    parse_object_name (str (print_name chunk_name)) ≡ ok chunk_name
parse_object_name-print_name_example = parse_object_name-print_name chunk_name chunk_name-IsName

abbrev pub stored_at : ℕ → ℕ → ObjectRef
stored_at ordinal size = record {
  file_id = codes "4_z1";
  file_name = print_name (record chunk_name { ordinal = ordinal });
  content_length = size;
  content_sha1 = codes "0123456789abcdef0123456789abcdef01234567";
  upload_timestamp = 1;
  sha256 = codes "0123456789abcdef0123456789abcdef0123456789abcdef0123456789abcdef";
}

abbrev second_chunk : Chunk
second_chunk = record { ordinal = 8; offset = 600; object = stored_at 8 50 }

abbrev page : ChunkPage
page = record {
  capture_id = chunk_name.capture_id;
  attempt_id = chunk_name.attempt_id;
  role = root;
  page_index = 0;
  start_ordinal = 7;
  start_offset = 500;
  chunks = record { ordinal = 7; offset = 500; object = stored_at 7 100 } ∷ second_chunk ∷ [];
}

chunk_page_tiles_example :
    (second_chunk.ordinal ≡ page.start_ordinal + 1)
    × (second_chunk.offset ≡ page.start_offset + sum_by chunk_size (take 1 page.chunks))
    × (second_chunk.offset + chunk_size second_chunk ≤ limit ciphertext_bytes)
    × NamedFor page.capture_id page.attempt_id second_chunk
    × PageStates (chunk_page_value page) 1 second_chunk
chunk_page_tiles_example =
    chunk_page_tiles (chunk_page_value page) page 1 second_chunk (unfold all_code in refl) refl
