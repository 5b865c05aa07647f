-- ===== src/Upload/Journal/Bound.antt =====
-- What the journal has established when it accepts an object for a name.
use oracle_free_arch_vps.Base.{Text, arith, lookup, ok, some, text_eq→eq, ◌≡◌}
use oracle_free_arch_vps.Contract.Refs.{ObjectRef}
use oracle_free_arch_vps.Contract.Refs.Same.{validate_object_ref_same}
use oracle_free_arch_vps.Contract.Slots.{PutIntent}
use oracle_free_arch_vps.Upload.Records.{intent_key, match}
use oracle_free_arch_vps.Upload.Operations.{Journal, Logical, bound}
use oracle_free_arch_vps.Upload.Journal.Invariant.{IsCopy}

pub match_lem :
    (o r : ObjectRef) (i : PutIntent)
    → match o i ≡ ok r
    → (r ≡ o) × (r.file_name ≡ i.name) × IsCopy r i.slot
unfolding match
match_lem o r i h = ground (
  arith,
  validate_object_ref_same o r,
  text_eq→eq r.file_name i.name,
  text_eq→eq r.content_sha1 i.slot.sha1,
  text_eq→eq r.sha256 i.slot.sha256,
)

pub bound_lem :
    (s : Journal) (name : Text) (o : ObjectRef) (b : PutIntent × ObjectRef × Logical)
    → bound s name o ≡ ok b
    → (lookup name s.intents ≡ some b.0)
      × (match o b.0 ≡ ok b.1)
      × (lookup (intent_key b.0) s.logical ≡ some b.2)
unfolding bound
bound_lem s name o b h = (ground arith, ground arith, ground arith)
