-- ===== src/Spool/Tests.antt =====
-- A source of two parts, cut into slots of four bytes.
use oracle_free_arch_vps.Base.{
  List, Option, Result, Text, [], arith, codes, length, map, min, none, ok, refl, some, ℕ, ◌+◌, ◌∷◌,
  ◌≡◌,
}
use oracle_free_arch_vps.Profile.{assert_budget}
use oracle_free_arch_vps.Json.{utf8_length}
use oracle_free_arch_vps.Contract.Fields.{
  has_control_character, hash, integer, matches, object, text,
}
use oracle_free_arch_vps.Contract.Slots.{SealedSlot, is_clean_path, validate_sealed_slot}
use oracle_free_arch_vps.Actions.{continue}
use oracle_free_arch_vps.Spool.{
  Bytes, Operation, Spool, Storage, acquire, fill, holds, next_slot, next_turn, open_spool, operate,
  operate_all, place_at, produce, produce_in, read_slot, reclaim, refill, release, require_same,
  seal_slot, start_spool, take_part, write_all, write_rest,
}
use oracle_free_arch_vps.Spool.Writing.{write_all_terminates}
use oracle_free_arch_vps.Spool.Places.{spool_keeps}

all_code : Unit {0}
unfolding continue acquire require_same write_rest write_all read_slot reclaim take_part refill fill
    seal_slot produce_in produce next_turn operate operate_all open_spool validate_sealed_slot
    is_clean_path object hash text integer matches utf8_length has_control_character assert_budget
all_code = tt

abbrev no_digest : Bytes → Text
no_digest bytes = codes "0123456789abcdef0123456789abcdef01234567"

abbrev two_parts : List Bytes
two_parts = (1 ∷ 2 ∷ 3 ∷ 4 ∷ 5 ∷ []) ∷ (6 ∷ []) ∷ []

abbrev next_part : List Bytes → Result (Option Bytes) × List Bytes
next_part [] = (ok none, [])
next_part (part ∷ parts) = (ok (some part), parts)

abbrev slot_of : ℕ → ℕ → SealedSlot
slot_of k n = record {
  index = k;
  path = codes "/var/tmp/slot.cipher";
  device = 1;
  inode = 2 + k;
  bytes = n;
  sha1 = codes "0123456789abcdef0123456789abcdef01234567";
  sha256 = codes "0123456789abcdef0123456789abcdef0123456789abcdef0123456789abcdef";
}

-- A world is what is left of the source; the writer accepts three bytes at most.
abbrev in_memory : Storage (List Bytes)
in_memory = record {
  create = λ k w. (ok tt, w);
  write = λ bytes w. (ok (min 3 (length bytes)), w);
  sync = λ w. (ok tt, w);
  seal = λ k n a b w. (ok (slot_of k n), w);
  read = λ x w. (ok tt, w);
  remove = λ x w. (ok tt, w);
  remove_empty = λ k w. (ok tt, w);
  read_source = next_part;
}

abbrev three_calls : List Operation
three_calls = next_slot ∷ next_slot ∷ next_slot ∷ []

abbrev after_calls : Spool (List Bytes)
unfolding all_code
after_calls = (operate_all in_memory no_digest no_digest 4 three_calls (start_spool two_parts)).1

both_sealed : map (λ x. x.content) after_calls.sealed ≡ (1 ∷ 2 ∷ 3 ∷ 4 ∷ []) ∷ (5 ∷ 6 ∷ []) ∷ []
unfolding all_code after_calls
both_sealed = refl

write_all_terminates_example :
    write_rest in_memory 9 (1 ∷ 2 ∷ 3 ∷ 4 ∷ 5 ∷ []) (start_spool two_parts)
    ≡ write_all in_memory (1 ∷ 2 ∷ 3 ∷ 4 ∷ 5 ∷ []) (start_spool two_parts)
write_all_terminates_example =
    write_all_terminates in_memory 9 (1 ∷ 2 ∷ 3 ∷ 4 ∷ 5 ∷ []) (start_spool two_parts) (omega arith)

-- The first slot is sealed; the release names a slot of another size at its place.
abbrev one_sealed : Spool (List Bytes)
one_sealed = record (start_spool two_parts) { zeroth = holds (slot_of 0 4) }

spool_keeps_example :
    place_at 0 (operate in_memory no_digest no_digest 4 (release (slot_of 0 3)) one_sealed).1
    ≡ some (holds (slot_of 0 4))
spool_keeps_example =
    spool_keeps in_memory no_digest no_digest 4 0 (slot_of 0 4) (release (slot_of 0 3)) one_sealed
      refl refl
