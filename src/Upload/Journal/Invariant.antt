-- ===== src/Upload/Journal/Invariant.antt =====
-- What every record that the journal accepts keeps true of its state.
use oracle_free_arch_vps.Base.{
  All, All-insert, Bool-cases, List, Text, [], ap, arith, false, inl, inr, insert, length,
  length-insert_old, lookup, lookup-insert, refl, some, sum_by, sum_by-insert_old, sym, text_eq,
  text_eq→eq, true, ◌<◌, ◌∙◌, ◌∷◌, ◌≡◌, ◌≤◌, ◌⊎◌,
}
use oracle_free_arch_vps.Profile.{
  ciphertext_bytes, limit, logical_objects, physical_puts, physically_put_bytes, prune_candidates,
  puts_per_object,
}
use oracle_free_arch_vps.Contract.Refs.{ObjectRef}
use oracle_free_arch_vps.Contract.Slots.{PutIntent, SealedSlot}
use oracle_free_arch_vps.Upload.Records.{intent_key}
use oracle_free_arch_vps.Upload.Operations.{Journal, Logical, empty_journal, item_bytes, set_item}

-- The object has the length and the hashes of the sealed slot.
pub record IsCopy (r : ObjectRef) (slot : SealedSlot) : Type 0 where
  pub size : r.content_length ≡ slot.bytes
  pub sha1 : r.content_sha1 ≡ slot.sha1
  pub sha256 : r.sha256 ≡ slot.sha256

-- A logical item is filed under its own key, within the attempt limits, and its selection was
-- verified and is a copy of its slot.
pub record IsItem (key : Text) (item : Logical) : Type 0 where
  pub keyed : key ≡ intent_key item.intent
  pub named : length item.names ≤ limit puts_per_object
  pub verified : item.verifies ≤ limit puts_per_object
  pub proved : (r : ObjectRef) → item.selected ≡ some r → 0 < item.verifies
  pub copied : (r : ObjectRef) → item.selected ≡ some r → IsCopy r item.intent.slot

-- An intent belongs to a logical item with the same bytes.
abbrev pub IsLinked : List (Text × Logical) → Text → PutIntent → Type 0
IsLinked logical name i =
    (item : Logical) × (name ≡ i.name)
    × (lookup (intent_key i) logical ≡ some item)
    × (item.intent.slot ≡ i.slot)
    × (item.intent.offset ≡ i.offset)

pub record Inv (s : Journal) : Type 0 where
  pub counted : s.puts ≡ length s.intents
  pub put_sum : s.put_bytes ≡ sum_by (λ e. e.1.slot.bytes) s.intents
  pub logical_sum : s.logical_bytes ≡ sum_by (λ e. item_bytes e.1) s.logical
  pub puts_bounded : s.puts ≤ limit physical_puts
  pub put_bytes_bounded : s.put_bytes ≤ limit physically_put_bytes
  pub logical_bounded : s.logical_bytes ≤ limit ciphertext_bytes
  pub objects_bounded : length s.logical ≤ limit logical_objects
  pub scans_bounded : s.scans ≤ limit prune_candidates
  pub items : All (λ e. IsItem e.0 e.1) s.logical
  pub linked : All (λ e. IsLinked s.logical e.0 e.1) s.intents

pub empty-Inv : (capture_id : Text) → Inv (empty_journal capture_id)
empty-Inv capture_id = record {
  counted = refl;
  put_sum = refl;
  logical_sum = refl;
  puts_bounded = omega arith;
  put_bytes_bounded = omega arith;
  logical_bounded = omega arith;
  objects_bounded = omega arith;
  scans_bounded = omega arith;
  items = tt;
  linked = tt;
}

-- Links survive a change of the items that keeps each intent where it is.
pub relink :
    (m : List (Text × Logical)) (key : Text) (old new : Logical) (is : List (Text × PutIntent))
    → lookup key m ≡ some old
    → new.intent ≡ old.intent
    → All (λ e. IsLinked m e.0 e.1) is
    → All (λ e. IsLinked (insert key new m) e.0 e.1) is
relink m key old new [] found same a = tt
relink m key old new ((n, i) ∷ is) found same a =
    (relinked (Bool-cases (text_eq key (intent_key i))), relink m key old new is found same a.1)
  where
    relinked :
        (text_eq key (intent_key i) ≡ true) ⊎ (text_eq key (intent_key i) ≡ false)
        → IsLinked (insert key new m) n i
    relinked (inl hit) =
        let k : key ≡ intent_key i = text_eq→eq key (intent_key i) hit in
        let e : old ≡ a.0.0 = cc (found, a.0.2, k) in
        (
          new,
          a.0.1,
          rw (lookup-insert key (intent_key i) new m, hit) refl,
          cc (same, e, a.0.3),
          cc (same, e, a.0.4),
        )
    relinked (inr miss) =
        (a.0.0, a.0.1, rw (lookup-insert key (intent_key i) new m, miss) a.0.2, a.0.3, a.0.4)

pub set_item-Inv :
    (s : Journal) (key : Text) (old new : Logical)
    → Inv s
    → lookup key s.logical ≡ some old
    → new.intent ≡ old.intent
    → IsItem key new
    → Inv (set_item s key new)
set_item-Inv s key old new v found same valid = record {
  counted = v.counted;
  put_sum = v.put_sum;
  logical_sum =
      v.logical_sum
      ∙ sym
          (sum_by-insert_old item_bytes key new old s.logical found (ap (λ i. i.slot.bytes) same));
  puts_bounded = v.puts_bounded;
  put_bytes_bounded = v.put_bytes_bounded;
  logical_bounded = v.logical_bounded;
  objects_bounded = omega (arith, length-insert_old key new old s.logical found, v.objects_bounded);
  scans_bounded = v.scans_bounded;
  items = All-insert IsItem key new s.logical v.items valid;
  linked = relink s.logical key old new s.intents found same v.linked;
}
