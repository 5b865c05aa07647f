-- ===== src/Upload/Journal/Kept.antt =====
-- The invariant across the changes, and so across every record and every replay.
use oracle_free_arch_vps.Base.{
  All, All-insert, All-lookup, Bool, Bool-cases, List, Text, [], arith, false, inl, inr, insert,
  length, length-append, length-insert_new, length-insert_old, lookup, lookup-insert,
  lookup-insert_self, none, ok, refl, some, subst, sum_by-insert_new, sum_by-insert_old, sym,
  text_eq, text_eq→eq, true, ℕ, ◌++◌, ◌+◌, ◌∷◌, ◌≡◌, ◌≤◌, ◌⊎◌,
}
use oracle_free_arch_vps.Profile.{
  ciphertext_bytes, limit, logical_objects, prune_candidates, puts_per_object,
}
use oracle_free_arch_vps.Contract.Slots.{PutIntent}
use oracle_free_arch_vps.Upload.Records.{Entry, intent_key}
use oracle_free_arch_vps.Upload.Operations.{Journal, Logical, item_bytes, put_recorded}
use oracle_free_arch_vps.Upload.Journal.{apply}
use oracle_free_arch_vps.Upload.Journal.Invariant.{Inv, IsItem, IsLinked, relink, set_item-Inv}
use oracle_free_arch_vps.Upload.Journal.Changes.{
  Admitted, Change, first, fresh_item, later, quiet, update,
}
use oracle_free_arch_vps.Upload.Journal.Steps.{apply-Change}

-- Links survive an item under a new key.
relink_new :
    (m : List (Text × Logical)) (key : Text) (new : Logical) (is : List (Text × PutIntent))
    → lookup key m ≡ none
    → All (λ e. IsLinked m e.0 e.1) is
    → All (λ e. IsLinked (insert key new m) e.0 e.1) is
relink_new m key new [] missing a = tt
relink_new m key new ((n, i) ∷ is) missing a = (
  (a.0.0, a.0.1, kept (Bool-cases (text_eq key (intent_key i))), a.0.3, a.0.4),
  relink_new m key new is missing a.1,
)
  where
    kept :
        (text_eq key (intent_key i) ≡ true) ⊎ (text_eq key (intent_key i) ≡ false)
        → lookup (intent_key i) (insert key new m) ≡ some a.0.0
    kept (inl hit) = absurd (cc (missing, a.0.2, text_eq→eq key (intent_key i) hit))
    kept (inr miss) = rw (lookup-insert key (intent_key i) new m, miss) a.0.2

-- The item of a PUT, with the new name.
abbrev named_item : Logical → PutIntent → Logical
named_item item i = record item { names = item.names ++ i.name ∷ [] }

named-IsItem :
    (key : Text) (item : Logical) (i : PutIntent)
    → length item.names + 1 ≤ limit puts_per_object
    → IsItem key item
    → IsItem key (named_item item i)
named-IsItem key item i room v = record {
  keyed = v.keyed;
  named = omega (arith, length-append item.names (i.name ∷ []));
  verified = v.verified;
  proved = v.proved;
  copied = v.copied;
}

fresh-IsItem : (i : PutIntent) → IsItem (intent_key i) (fresh_item i)
fresh-IsItem i = record {
  keyed = refl;
  named = omega arith;
  verified = omega arith;
  proved = λ r e. absurd (cc e);
  copied = λ r e. absurd (cc e);
}

first-Inv :
    (s : Journal) (i : PutIntent)
    → Inv s
    → Admitted s i 0
    → lookup (intent_key i) s.logical ≡ none
    → (length s.logical + 1 ≤ limit logical_objects)
      × (s.logical_bytes + i.slot.bytes ≤ limit ciphertext_bytes)
    → Inv (
        put_recorded (record s { logical_bytes = s.logical_bytes + i.slot.bytes }) i (fresh_item i))
first-Inv s i v a missing room = record {
  counted = omega (arith, length-insert_new i.name i s.intents a.fresh, v.counted);
  put_sum =
      omega (arith, sum_by-insert_new (λ j. j.slot.bytes) i.name i s.intents a.fresh, v.put_sum);
  logical_sum =
      omega
        (arith, sum_by-insert_new item_bytes (intent_key i) new s.logical missing, v.logical_sum);
  puts_bounded = a.puts_left;
  put_bytes_bounded = a.bytes_left;
  logical_bounded = room.1;
  objects_bounded = omega (arith, length-insert_new (intent_key i) new s.logical missing, room.0);
  scans_bounded = v.scans_bounded;
  items =
      All-insert IsItem (intent_key i) new s.logical v.items
        (named-IsItem (intent_key i) (fresh_item i) i a.attempts_left (fresh-IsItem i));
  linked =
      All-insert (IsLinked (insert (intent_key i) new s.logical)) i.name i s.intents
        (relink_new s.logical (intent_key i) new s.intents missing v.linked)
        (new, refl, lookup-insert_self (intent_key i) new s.logical, refl, refl);
}
  where
    new : Logical
    new = named_item (fresh_item i) i

later-Inv :
    (s : Journal) (i : PutIntent) (old : Logical)
    → Inv s
    → Admitted s i (length old.names)
    → lookup (intent_key i) s.logical ≡ some old
    → (old.intent.slot ≡ i.slot) × (old.intent.offset ≡ i.offset) × (old.selected ≡ none)
    → Inv (put_recorded s i old)
later-Inv s i old v a found same = record {
  counted = omega (arith, length-insert_new i.name i s.intents a.fresh, v.counted);
  put_sum =
      omega (arith, sum_by-insert_new (λ j. j.slot.bytes) i.name i s.intents a.fresh, v.put_sum);
  logical_sum = omega (
    arith,
    sum_by-insert_old item_bytes (intent_key i) new old s.logical found refl,
    v.logical_sum,
  );
  puts_bounded = a.puts_left;
  put_bytes_bounded = a.bytes_left;
  logical_bounded = v.logical_bounded;
  objects_bounded =
      omega (arith, length-insert_old (intent_key i) new old s.logical found, v.objects_bounded);
  scans_bounded = v.scans_bounded;
  items = All-insert IsItem (intent_key i) new s.logical v.items (
      named-IsItem (intent_key i) old i a.attempts_left
        (All-lookup IsItem (intent_key i) old s.logical v.items found));
  linked =
      All-insert (IsLinked (insert (intent_key i) new s.logical)) i.name i s.intents
        (relink s.logical (intent_key i) old new s.intents found refl v.linked)
        (new, refl, lookup-insert_self (intent_key i) new s.logical, same.0, same.1);
}
  where
    new : Logical
    new = named_item old i

quiet-Inv :
    (s : Journal) (begun : List Text) (episodes transfers : List (Text × Text)) (scans : ℕ)
    → scans ≤ limit prune_candidates
    → Inv s
    → Inv (record s { begun = begun; episodes = episodes; transfers = transfers; scans = scans })
quiet-Inv s begun episodes transfers scans within v = record {
  counted = v.counted;
  put_sum = v.put_sum;
  logical_sum = v.logical_sum;
  puts_bounded = v.puts_bounded;
  put_bytes_bounded = v.put_bytes_bounded;
  logical_bounded = v.logical_bounded;
  objects_bounded = v.objects_bounded;
  scans_bounded = within;
  items = v.items;
  linked = v.linked;
}

pub Change-Inv : {s t : Journal} → Change s t → Inv s → Inv t
Change-Inv {s} (quiet b e r n within same) v =
    subst Inv (sym same) (quiet-Inv s b e r n (within v.scans_bounded) v)
Change-Inv {s} (update key old new found grows keeps same) v = subst Inv (sym same) (
    set_item-Inv s key old new v found grows.same_intent
      (keeps (All-lookup IsItem key old s.logical v.items found)))
Change-Inv {s} (first i a missing room same) v =
    subst Inv (sym same) (first-Inv s i v a missing room)
Change-Inv {s} (later i old a found bytes same) v =
    subst Inv (sym same) (later-Inv s i old v a found bytes)

module _ (is_instant : Text → Bool) where
  -- Any record that the journal accepts keeps the invariant: counters that match the recorded
  -- intents and their bytes, the budgets of PUTs, bytes, objects, attempts for one object and scans
  -- for pruning, items filed under their own keys, every intent tied to an
  -- item of the same bytes, and selections only of verified copies of those bytes.
  pub apply-Inv : (s t : Journal) (e : Entry) → Inv s → apply is_instant s e ≡ ok t → Inv t
  apply-Inv s t e v h = Change-Inv (apply-Change is_instant s t e v h) v
