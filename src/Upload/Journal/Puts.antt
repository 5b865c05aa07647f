-- ===== src/Upload/Journal/Puts.antt =====
-- The changes that an accepted intent makes, and that any accepted record makes.
use oracle_free_arch_vps.Base.{
  Option, Result-cases, arith, inl, inr, lookup, none, ok, refl, some, text_eq→eq, ◌≡◌,
}
use oracle_free_arch_vps.Profile.{assert_budget}
use oracle_free_arch_vps.Contract.Slots.{PutIntent, put_intent_value, validate_put_intent}
use oracle_free_arch_vps.Upload.Records.{intent_key, slot_eq→eq}
use oracle_free_arch_vps.Upload.Operations.{
  Journal, Logical, apply_intent, first_put, next_put, put_budgets, put_for,
}
use oracle_free_arch_vps.Upload.Journal.Changes.{Change, first, later}

-- A PUT's own checks: that it is of this capture, under a new name.
abbrev IsNew : Journal → PutIntent → Type 0
IsNew s i = (i.capture_id ≡ s.capture_id) × (lookup i.name s.intents ≡ none)

first_put-Change :
    (s t : Journal) (i : PutIntent)
    → IsNew s i
    → lookup (intent_key i) s.logical ≡ none
    → first_put s i ≡ ok t
    → Change s t
unfolding first_put put_budgets assert_budget
first_put-Change s t i new missing h =
    first i
      (record {
        capture = new.0;
        fresh = new.1;
        puts_left = ground arith;
        bytes_left = ground arith;
        attempts_left = omega arith;
      })
      missing (ground arith, ground arith) (ground arith)

next_put-Change :
    (s t : Journal) (i : PutIntent) (old : Logical)
    → IsNew s i
    → lookup (intent_key i) s.logical ≡ some old
    → next_put s i old ≡ ok t
    → Change s t
unfolding next_put put_budgets assert_budget
next_put-Change s t i old new found h =
    later i old
      (record {
        capture = new.0;
        fresh = new.1;
        puts_left = ground arith;
        bytes_left = ground arith;
        attempts_left = ground arith;
      })
      found (ground (arith, slot_eq→eq old.intent.slot i.slot), ground arith, ground arith)
      (ground arith)

put_for-Change :
    (s t : Journal) (i : PutIntent) (o : Option Logical)
    → IsNew s i
    → lookup (intent_key i) s.logical ≡ o
    → put_for s i o ≡ ok t
    → Change s t
unfolding put_for
put_for-Change s t i none new e h = first_put-Change s t i new e h
put_for-Change s t i (some old) new e h = next_put-Change s t i old new e h

intent_parts :
    (s t : Journal) (raw i : PutIntent)
    → apply_intent s raw ≡ ok t
    → validate_put_intent (put_intent_value raw) ≡ ok i
    → IsNew s i × (put_for s i (lookup (intent_key i) s.logical) ≡ ok t)
unfolding apply_intent
intent_parts s t raw i h e =
    ((ground (arith, text_eq→eq i.capture_id s.capture_id), ground arith), ground arith)

pub intent-Change : (s t : Journal) (raw : PutIntent) → apply_intent s raw ≡ ok t → Change s t
intent-Change s t raw h = elim (Result-cases (validate_put_intent (put_intent_value raw))) [
  | inr (x, e) ↦ absurd (unfold apply_intent in ground arith)
  | inl (i, e) ↦
      let (new, rest) = intent_parts s t raw i h e in put_for-Change s t i _ new refl rest
]
