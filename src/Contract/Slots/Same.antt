-- ===== src/Contract/Slots/Same.antt =====
-- A validator of slots and intents returns the typed record that it was given.
use oracle_free_arch_vps.Base.{
  Result-cases, Text, arith, inl, inr, ok, refl, text_eq, text_eq→eq, true, ◌≡◌, ◌≤◌,
}
use oracle_free_arch_vps.Profile.{ciphertext_bytes, limit, max_safe_integer, slot_bytes}
use oracle_free_arch_vps.Json.{str}
use oracle_free_arch_vps.Contract.Fields.{object, text}
use oracle_free_arch_vps.Contract.Fields.Plain.{hash_same, integer_same, text_same}
use oracle_free_arch_vps.Contract.Names.{Kind, kind_text, parse_object_name}
use oracle_free_arch_vps.Contract.Roles.{Role, read_role, role_text, root, utc}
use oracle_free_arch_vps.Contract.Slots.{
  PutIntent, SealedSlot, put_intent_value, sealed_slot_value, validate_put_intent,
  validate_sealed_slot,
}

pub validate_sealed_slot_same :
    (a b : SealedSlot)
    → validate_sealed_slot (sealed_slot_value a) ≡ ok b
    → (b ≡ a) × (1 ≤ b.bytes) × (b.bytes ≤ limit slot_bytes)
unfolding validate_sealed_slot object
validate_sealed_slot_same a b h = ground (
  arith,
  text_same a.path b.path 1000,
  integer_same a.index b.index 1 0,
  integer_same a.device b.device max_safe_integer 0,
  integer_same a.inode b.inode max_safe_integer 1,
  integer_same a.bytes b.bytes (limit slot_bytes) 1,
  hash_same a.sha1 b.sha1 40,
  hash_same a.sha256 b.sha256 64,
)

read_role_self : (r : Role) → read_role (str (role_text r)) ≡ ok r
unfolding read_role
read_role_self root = refl
read_role_self _ = refl

kind_text_injective : (a b : Kind) → text_eq (kind_text a) (kind_text b) ≡ true → a ≡ b
kind_text_injective a b h = ground arith

utc_same : (s t : Text) → utc (str s) ≡ ok t → t ≡ s
unfolding utc
utc_same s t h = elim (Result-cases (text (str s) 24)) [
  | inl (u, e) ↦ ground (arith, text_same s u 24 e)
  | inr (x, e) ↦ absurd (ground arith)
]

pub validate_put_intent_same :
    (a b : PutIntent)
    → validate_put_intent (put_intent_value a) ≡ ok b
    → (b ≡ a)
      × (parse_object_name (str a.name)
          ≡ ok (record {
            capture_id = a.capture_id;
            attempt_id = a.attempt_id;
            kind = a.kind;
            ordinal = a.ordinal;
            put_id = a.put_id;
          }))
unfolding validate_put_intent object
validate_put_intent_same a b h = elim (Result-cases (parse_object_name (str a.name))) [
  | inr (e, p) ↦ absurd (ground arith)
  | inl (n, p) ↦ ground (
    arith,
    text_eq→eq a.capture_id n.capture_id,
    text_eq→eq a.attempt_id n.attempt_id,
    text_eq→eq a.put_id n.put_id,
    kind_text_injective a.kind n.kind,
    text_same a.name b.name 1000,
    validate_sealed_slot_same a.slot b.slot,
    integer_same a.offset b.offset (limit ciphertext_bytes) 0,
    read_role_self a.role,
    utc_same a.created_at_utc b.created_at_utc,
  )
]
