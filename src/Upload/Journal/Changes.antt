-- ===== src/Upload/Journal/Changes.antt =====
-- The four ways in which an accepted record changes the journal.
use oracle_free_arch_vps.Base.{
  All-lookup, Bool-cases, List, Option-cases, Result-cases, Text, [], arith, inl, inr, length,
  lookup, none, ok, refl, some, subst, true, ℕ, ◌++◌, ◌+◌, ◌<◌, ◌∷◌, ◌≡◌, ◌≤◌,
}
use oracle_free_arch_vps.Profile.{
  assert_budget, ciphertext_bytes, limit, logical_objects, physical_puts, physically_put_bytes,
  prune_candidates, puts_per_object,
}
use oracle_free_arch_vps.Contract.Refs.{ObjectRef}
use oracle_free_arch_vps.Contract.Slots.{PutIntent}
use oracle_free_arch_vps.Upload.Records.{intent_key, ref_eq→eq}
use oracle_free_arch_vps.Upload.Operations.{
  Journal, Logical, agrees, apply_candidate, apply_selected, apply_verify, bound, has_id,
  put_recorded, set_item,
}
use oracle_free_arch_vps.Upload.Journal.Invariant.{Inv, IsCopy, IsItem, IsLinked}
use oracle_free_arch_vps.Upload.Journal.Bound.{bound_lem, match_lem}

-- A logical item keeps its bytes and its names; its verifications and its selection are kept too.
pub record Grows (old new : Logical) : Type 0 where
  pub same_intent : new.intent ≡ old.intent
  pub same_names : new.names ≡ old.names
  pub more_verifies : old.verifies ≤ new.verifies
  pub same_selection : (r : ObjectRef) → old.selected ≡ some r → new.selected ≡ some r

-- What a physical PUT is admitted under: the budgets of the journal, and a name that is new.
pub record Admitted (s : Journal) (i : PutIntent) (names : ℕ) : Type 0 where
  pub capture : i.capture_id ≡ s.capture_id
  pub fresh : lookup i.name s.intents ≡ none
  pub puts_left : s.puts + 1 ≤ limit physical_puts
  pub bytes_left : s.put_bytes + i.slot.bytes ≤ limit physically_put_bytes
  pub attempts_left : names + 1 ≤ limit puts_per_object

abbrev pub fresh_item : PutIntent → Logical
fresh_item i = record { intent = i; names = []; candidates = []; selected = none; verifies = 0 }

pub data Change (s t : Journal) : Type 0 where
  quiet :
      (begun : List Text) (episodes transfers : List (Text × Text)) (scans : ℕ)
      → (s.scans ≤ limit prune_candidates → scans ≤ limit prune_candidates)
      → t ≡ record s { begun = begun; episodes = episodes; transfers = transfers; scans = scans }
      → Change s t
  update :
      (key : Text) (old new : Logical)
      → lookup key s.logical ≡ some old
      → Grows old new
      → (IsItem key old → IsItem key new)
      → t ≡ set_item s key new
      → Change s t
  first :
      (i : PutIntent)
      → Admitted s i 0
      → lookup (intent_key i) s.logical ≡ none
      → (length s.logical + 1 ≤ limit logical_objects)
        × (s.logical_bytes + i.slot.bytes ≤ limit ciphertext_bytes)
      → t
        ≡ put_recorded
            (record s { logical_bytes = s.logical_bytes + i.slot.bytes })
            i
            (fresh_item i)
      → Change s t
  later :
      (i : PutIntent) (old : Logical)
      → Admitted s i (length old.names)
      → lookup (intent_key i) s.logical ≡ some old
      → (old.intent.slot ≡ i.slot) × (old.intent.offset ≡ i.offset) × (old.selected ≡ none)
      → t ≡ put_recorded s i old
      → Change s t

-- A record that changes no item: all that may differ is the bookkeeping beside the items.
pub unchanged : (s : Journal) → Change s s
unchanged s = quiet s.begun s.episodes s.transfers s.scans (λ b. b) refl

-- An item that only gains a candidate, a verification or the selection `r` stays valid.
with_candidate : Logical → ObjectRef → Logical
with_candidate old r = record old { candidates = old.candidates ++ r ∷ [] }

add_candidate : (old : Logical) (r : ObjectRef) → Grows old (with_candidate old r)
unfolding with_candidate
add_candidate old r = record {
  same_intent = refl;
  same_names = refl;
  more_verifies = omega arith;
  same_selection = λ q e. e;
}

candidate-IsItem :
    (key : Text) (old : Logical) (r : ObjectRef)
    → IsItem key old
    → IsItem key (with_candidate old r)
unfolding with_candidate
candidate-IsItem key old r v = record {
  keyed = v.keyed;
  named = v.named;
  verified = v.verified;
  proved = v.proved;
  copied = v.copied;
}

pub candidate-Change :
    (s t : Journal) (name : Text) (o : ObjectRef) → apply_candidate s name o ≡ ok t → Change s t
unfolding apply_candidate with_candidate
candidate-Change s t name o h = elim (Result-cases (bound s name o)) [
  | inr (x, e) ↦ absurd (ground arith)
  | inl (b, e) ↦ elim (Bool-cases (has_id b.1.file_id b.2.candidates)) [
    | inl old ↦ let same : s ≡ t = ground arith in subst (Change s) same (unchanged s)
    | inr new ↦
        update (intent_key b.0) b.2 (with_candidate b.2 b.1) (bound_lem s name o b e).2
          (add_candidate b.2 b.1) (candidate-IsItem (intent_key b.0) b.2 b.1) (ground arith)
  ]
]

with_selection : Logical → ObjectRef → Logical
with_selection old r = record old { selected = some r }

select :
    (old : Logical) (r : ObjectRef)
    → agrees old.selected r ≡ true
    → Grows old (with_selection old r)
unfolding with_selection
select old r h = record {
  same_intent = refl;
  same_names = refl;
  more_verifies = omega arith;
  same_selection = λ q e. ground (arith, ref_eq→eq q r);
}

selection-IsItem :
    (key : Text) (old : Logical) (r : ObjectRef)
    → 0 < old.verifies
    → IsCopy r old.intent.slot
    → IsItem key old
    → IsItem key (with_selection old r)
unfolding with_selection
selection-IsItem key old r some_verify copy v = record {
  keyed = v.keyed;
  named = v.named;
  verified = v.verified;
  proved = λ q e. some_verify;
  copied = λ q e. let same : r ≡ q = cc e in subst (λ x. IsCopy x old.intent.slot) same copy;
}

pub selected-Change :
    (s t : Journal) (name : Text) (o : ObjectRef)
    → Inv s
    → apply_selected s name o ≡ ok t
    → Change s t
unfolding apply_selected with_selection
selected-Change s t name o v h = elim (Result-cases (bound s name o)) [
  | inr (x, e) ↦ absurd (ground arith)
  | inl (b, e) ↦
      let (named, matched, found) = bound_lem s name o b e in
      let link = All-lookup (IsLinked s.logical) name b.0 s.intents v.linked named in
      let same : link.0 ≡ b.2 = cc (link.2, found) in
      let copy : IsCopy b.1 b.2.intent.slot =
        subst (IsCopy b.1) (cc (same, link.3)) (match_lem o b.1 b.0 matched).2 in
      update (intent_key b.0) b.2 (with_selection b.2 b.1) found (select b.2 b.1 (ground arith))
        (selection-IsItem (intent_key b.0) b.2 b.1 (ground arith) copy) (ground arith)
]

verified_again : Logical → Logical
verified_again old = record old { verifies = old.verifies + 1 }

count_verify : (old : Logical) → Grows old (verified_again old)
unfolding verified_again
count_verify old = record {
  same_intent = refl;
  same_names = refl;
  more_verifies = omega arith;
  same_selection = λ q e. e;
}

verified-IsItem :
    (key : Text) (old : Logical)
    → old.verifies + 1 ≤ limit puts_per_object
    → IsItem key old
    → IsItem key (verified_again old)
unfolding verified_again
verified-IsItem key old room v = record {
  keyed = v.keyed;
  named = v.named;
  verified = room;
  proved = λ q e. omega arith;
  copied = v.copied;
}

pub verify-Change : (s t : Journal) (name : Text) → apply_verify s name ≡ ok t → Change s t
unfolding apply_verify verified_again
verify-Change s t name h = elim (Option-cases (lookup name s.intents)) [
  | inl e ↦ absurd (ground arith)
  | inr (i, e) ↦ elim (Option-cases (lookup (intent_key i) s.logical)) [
    | inl f ↦ absurd (ground arith)
    | inr (old, f) ↦
        let room : old.verifies + 1 ≤ limit puts_per_object =
          unfold assert_budget in ground arith in
        update (intent_key i) old (verified_again old) f (count_verify old)
          (verified-IsItem (intent_key i) old room) (unfold assert_budget in ground arith)
  ]
]

-- No accepted record touches the identity of the journal or its file.
pub Change-same :
    {s t : Journal}
    → Change s t
    → (t.capture_id ≡ s.capture_id)
      × (t.entries ≡ s.entries)
      × (t.bytes ≡ s.bytes)
      × (t.poisoned ≡ s.poisoned)
Change-same (quiet b e r n within same) = (cc same, cc same, cc same, cc same)
Change-same (update key old new found grows keeps same) = (cc same, cc same, cc same, cc same)
Change-same (first i a missing room same) = (cc same, cc same, cc same, cc same)
Change-same (later i old a found bytes same) = (cc same, cc same, cc same, cc same)
