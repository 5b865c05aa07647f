-- ===== src/Tar/Guard.antt =====
-- scripts/backup-tar-consumers.ts: `createTarTerminationGuard`, which follows the physical blocks of
-- a tar stream. The decoding of UTF-8, which fails on other bytes, is a parameter.
pub mod Bytewise
pub mod Chunks
pub mod Fuel
use oracle_free_arch_vps.Base.{
  Bool, List, Option, Result, Text, [], codes, drop, err, false, if◌then◌else◌, leb, length, ltb,
  none, not, ok, or_fail, require, some, suc, take, text_eq, true, zero, ℕ, ◌%◌, ◌&&◌, ◌++◌, ◌+◌,
  ◌-◌, ◌==◌, ◌>>=◌, ◌>>◌, ◌||◌, ◌∷◌,
}
use oracle_free_arch_vps.Profile.{
  assert_budget, logical_source_bytes, max_safe_integer, members, metadata_record_bytes,
}
use oracle_free_arch_vps.Inventory.{Bytes}
use oracle_free_arch_vps.Tar.Numbers.{
  all_of, all_zero, before_zero, byte_at, bytes_onto, index_of, is_decimal, is_length, is_octal,
  not_empty, number_in, trim_end, trim_start,
}

-- The guard's variables but `total`; `header` is the part of the header that is read, of `used`
-- bytes, and `metadata` the part that is read of a record that describes other members.
pub record Framing : Type 0 where
  pub header : Bytes
  pub remaining : ℕ
  pub padding : ℕ
  pub zeros : ℕ
  pub count : ℕ
  pub metadata : Option Bytes
  pub is_global : Bool
  pub local_size : Option ℕ
  pub global_size : Option ℕ

pub record Guard : Type 0 where
  pub total : ℕ
  pub framing : Framing

abbrev pub new_framing : Framing
new_framing = record {
  header = [];
  remaining = 0;
  padding = 0;
  zeros = 0;
  count = 0;
  metadata = none;
  is_global = false;
  local_size = none;
  global_size = none;
}

abbrev pub new_guard : Guard
new_guard = record { total = 0; framing = new_framing }

abbrev pub first_some : Option ℕ → Option ℕ → ℕ → ℕ
first_some (some a) b c = a
first_some none (some b) c = b
first_some none none c = c

-- Whether a record of this length, with its length before this space, ends in a line feed.
abbrev pub record_ends : ℕ → ℕ → Bytes → Bool
record_ends size space s = ltb (space + 1) size && leb size (length s) && byte_at (size - 1) s == 10

abbrev pub type_of : Bytes → ℕ
type_of header = byte_at 156 header

abbrev pub extended : Option Bytes → Bytes → Option Bytes
extended none taken = none
extended (some m) taken = some (m ++ taken)

-- How many bytes follow a member's header: those of a file may be given before it.
abbrev pub member_size : Framing → ℕ → ℕ → ℕ
member_size s kind size =
    if kind == b'0' || kind == 0 || kind == b'7'
    then first_some s.local_size s.global_size size
    else size

-- Whether a size was given, and the last one.
abbrev pub Found : Type 0
Found = Bool × Option ℕ

-- The metadata is read: what it found is kept for the next member, or for all.
abbrev pub with_size : Framing → Found → Framing
with_size s (false, size) = record s { metadata = none }
with_size s (true, size) =
    if s.is_global
    then record s { metadata = none; global_size = size }
    else record s { metadata = none; local_size = size }

-- The bytes that one turn of the loop may take.
unfoldable pub room : Framing → ℕ
room s =
    if ltb 0 s.remaining
    then s.remaining
    else if ltb 0 s.padding
    then s.padding
    else 512 - length s.header

module _ (decode_utf8 : Bytes → Result Text) where
  unfoldable pub octal_number : Text → Result ℕ
  octal_number t = do
    require (not_empty t && all_of is_octal t) "Stream tar rejected: invalid tar size"
    require (leb (number_in 8 0 t) max_safe_integer) "Stream tar rejected: tar size overflow"
    ok (number_in 8 0 t)

  -- `tarNumber`: base 256 behind a leading bit, or octal text.
  unfoldable pub tar_number : Bytes → Result ℕ
  tar_number [] = decode_utf8 [] >>= λ t. octal_number (trim_end (trim_start (before_zero t)))
  tar_number (b ∷ s) = elim (leb 128 b) [
    | true ↦
        require (ltb (b % 128) 64) "Stream tar rejected: negative tar size"
        >> require (leb (bytes_onto (b % 128) s) max_safe_integer)
            "Stream tar rejected: tar size overflow"
        >> ok (bytes_onto (b % 128) s)
    | false ↦ decode_utf8 (b ∷ s) >>= λ t. octal_number (trim_end (trim_start (before_zero t)))
  ]

  -- `paxSize`: whether a record gives a size, and the last one given; a record is dropped in each
  -- turn, with fuel for the bytes that are left.
  unfoldable pub pax_value : Bytes → Found → Result Found
  pax_value item found = elim (text_eq (take 5 item) (codes "size=")) [
    | false ↦ ok found
    | true ↦ decode_utf8 (drop 5 item) >>= λ value.
        require (all_of is_decimal value) "Stream tar rejected: pax size"
        >> elim (not_empty value) [
          | false ↦ ok (true, none)
          | true ↦
              assert_budget logical_source_bytes (number_in 10 0 value) >>= λ n. ok (true, some n)
        ]
  ]

  -- One turn: what is left behind a record, and what is found so far.
  unfoldable pub pax_turn : Bytes → Found → Result (Bytes × Found)
  pax_turn bytes found = do
    space ← or_fail (index_of 32 bytes) "Stream tar rejected: pax record length"
    require (leb space 10) "Stream tar rejected: pax record length"
    digits ← decode_utf8 (take space bytes)
    require (is_length digits) "Stream tar rejected: pax record length"
    require (record_ends (number_in 10 0 digits) space bytes)
        "Stream tar rejected: pax record boundary"
    next ← pax_value (take (number_in 10 0 digits - (space + 2)) (drop (space + 1) bytes)) found
    ok (drop (number_in 10 0 digits) bytes, next)

  unfoldable pub pax_records : ℕ → Bytes → Found → Result Found
  pax_records fuel [] found = ok found
  pax_records zero (b ∷ s) found = err "out of fuel"
  pax_records (suc fuel) (b ∷ s) found = pax_turn (b ∷ s) found >>= λ r. pax_records fuel r.0 r.1

  unfoldable pub pax_size : Bytes → Result Found
  pax_size bytes = pax_records (length bytes) bytes (false, none)

  -- `finishMetadata`
  unfoldable pub finish_metadata : Framing → Result Framing
  finish_metadata s = elim s.metadata [
    | none ↦ ok s
    | some m ↦ pax_size m >>= λ found. ok (with_size s found)
  ]

  -- What follows a header that is not zero: how much it announces, and its padding.
  unfoldable pub announce : Framing → ℕ → Result Framing
  announce s size = do
    remaining ← assert_budget logical_source_bytes size
    let next : Framing = record s { remaining = remaining; padding = (512 - size % 512) % 512 }
    if remaining == 0 then finish_metadata next else ok next

  unfoldable pub read_member : Framing → ℕ → ℕ → Result Framing
  read_member s kind size =
      if kind == b'x' || kind == b'g'
      then (assert_budget metadata_record_bytes size >>= λ n.
          announce (record s { metadata = some []; is_global = kind == b'g' }) size)
      else if kind == b'L' || kind == b'K'
      then announce s size
      else (assert_budget members (s.count + 1) >>= λ n.
          announce (record s { count = n; local_size = none }) (member_size s kind size))

  -- A whole header.
  unfoldable pub read_header : Framing → Bytes → Result Framing
  read_header s header =
      if all_zero header
      then ok (record s { zeros = s.zeros + 1 })
      else (require (s.zeros == 0) "Stream tar rejected: single zero block within archive"
          >> require (not (type_of header == b'S'))
              "Stream tar rejected: old GNU sparse framing is not admitted"
          >> tar_number (take 12 (drop 124 header))
          >>= λ size. read_member s (type_of header) size)

  -- What one turn of the loop does with the bytes that it takes.
  unfoldable pub absorb : Framing → Bytes → Result Framing
  absorb s taken =
      if ltb 0 s.remaining
      then (let next = record s {
        remaining = s.remaining - length taken;
        metadata = extended s.metadata taken;
      } in
          if next.remaining == 0 then finish_metadata next else ok next)
      else if ltb 0 s.padding
      then ok (record s { padding = s.padding - length taken })
      else (let header = s.header ++ taken in
          if length header == 512
          then read_header (record s { header = [] }) header
          else ok (record s { header = header }))

  -- The loop of `write`, with fuel for the bytes that are left: each turn takes some.
  unfoldable pub write_loop : ℕ → Framing → Bytes → Result Framing
  write_loop fuel s [] = ok s
  write_loop zero s (b ∷ bytes) = err "out of fuel"
  write_loop (suc fuel) s (b ∷ bytes) = elim (leb 2 s.zeros) [
    | true ↦
        require (all_zero (b ∷ bytes)) "Stream tar rejected: nonzero data after tar terminator"
        >> ok s
    | false ↦ absorb s (take (room s) (b ∷ bytes)) >>= λ next.
        write_loop fuel next (drop (room s) (b ∷ bytes))
  ]

  unfoldable pub write : Guard → Bytes → Result Guard
  write s bytes = do
    total ← assert_budget logical_source_bytes (s.total + length bytes)
    framing ← write_loop (length bytes) s.framing bytes
    ok (record { total = total; framing = framing })

  unfoldable pub write_all : Guard → List Bytes → Result Guard
  write_all s [] = ok s
  write_all s (c ∷ cs) = write s c >>= λ t. write_all t cs

-- What `finish` returns: the bytes and the members of the archive.
unfoldable pub finish_guard : Guard → Result (ℕ × ℕ)
finish_guard s = do
  require
      (s.framing.remaining == 0
        && s.framing.padding == 0
        && length s.framing.header == 0
        && leb 2 s.framing.zeros
        && s.total % 512 == 0)
      "Stream tar rejected: incomplete tar termination"
  ok (s.total, s.framing.count)
