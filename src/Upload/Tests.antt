-- ===== src/Upload/Tests.antt =====
-- One upload, run through the journal: an intent, a verification, a selection, the reclaimed slot
-- and the end of the stream.
use oracle_free_arch_vps.Base.{
  AllBelow, Bool, List, Result, Text, [], codes, err, false, insert, length, lookup, ok, refl, some,
  sum_by, true, ◌<◌, ◌∷◌, ◌≡◌, ◌≢◌, ◌⊎◌,
}
use oracle_free_arch_vps.Profile.{assert_budget}
use oracle_free_arch_vps.Json.{decimal, json_bytes, pad_digits, quote, stringify, utf8_length}
use oracle_free_arch_vps.Contract.Fields.{
  capture, has_control_character, hash, integer, matches, object, text, uuid,
}
use oracle_free_arch_vps.Contract.Names.{
  Name, consume, consume_kind, data_object, exec_name, number_onto, object_name, parse_object_name,
  print_name,
}
use oracle_free_arch_vps.Contract.Roles.{read_role, root, utc}
use oracle_free_arch_vps.Contract.Refs.{ObjectRef, validate_object_ref}
use oracle_free_arch_vps.Contract.Slots.{
  PutIntent, SealedSlot, is_clean_path, validate_put_intent, validate_sealed_slot,
}
use oracle_free_arch_vps.Upload.Records.{
  Entry, Identity, begin, candidate, check_identity, encoded_bytes, identity_key, intent,
  intent_key, key_for, match, reclaimed, scan, selected, verify,
}
use oracle_free_arch_vps.Upload.Operations.{
  Journal, Logical, apply_begin, apply_candidate, apply_eof, apply_intent, apply_reclaimed,
  apply_scan, apply_selected, apply_verify, bound, empty_journal, is_complete, item_bytes, items_of,
  sort_items,
}
use oracle_free_arch_vps.Upload.Journal.{apply, open_journal, replay, replay_entry}
use oracle_free_arch_vps.Upload.Journal.Invariant.{Inv, IsCopy, empty-Inv}
use oracle_free_arch_vps.Upload.Journal.Kept.{apply-Inv}
use oracle_free_arch_vps.Upload.Journal.Replay.{appends, reopen-appends, replay-Inv}
use oracle_free_arch_vps.Upload.Journal.Selection.{Committed, replay-Committed}
use oracle_free_arch_vps.Upload.Journal.Finish.{
  Chosen, eof_complete, intent_refused, reclaimed_proved,
}

-- What a run of the journal computes with.
all_code : Unit {0}
unfolding replay replay_entry encoded_bytes apply apply_begin apply_intent apply_candidate
    apply_selected apply_verify apply_reclaimed apply_eof check_identity bound match object_name
    capture uuid text integer matches utf8_length parse_object_name exec_name consume consume_kind
    number_onto pad_digits has_control_character validate_put_intent object validate_sealed_slot
    is_clean_path hash utc read_role assert_budget validate_object_ref json_bytes stringify quote
    decimal key_for lookup insert items_of sort_items is_complete
all_code = tt

abbrev pub any_instant : Text → Bool
any_instant t = true

abbrev pub first_name : Name
first_name = record {
  capture_id = codes "generation-11111111-1111-4111-8111-111111111111";
  attempt_id = codes "22222222-2222-4222-8222-222222222222";
  kind = data_object;
  ordinal = 0;
  put_id = codes "33333333-3333-4333-8333-333333333333";
}

abbrev pub producer : Identity
producer = record {
  capture_id = first_name.capture_id;
  attempt_id = first_name.attempt_id;
  role = root;
  kind = data_object;
}

abbrev hash_40 : Text
hash_40 = codes "0123456789abcdef0123456789abcdef01234567"

abbrev hash_64 : Text
hash_64 = codes "0123456789abcdef0123456789abcdef0123456789abcdef0123456789abcdef"

abbrev pub first_slot : SealedSlot
first_slot = record {
  index = 0;
  path = codes "/var/tmp/slot-0.cipher";
  device = 1;
  inode = 2;
  bytes = 4096;
  sha1 = hash_40;
  sha256 = hash_64;
}

abbrev pub first_intent : PutIntent
first_intent = record {
  capture_id = first_name.capture_id;
  role = root;
  attempt_id = first_name.attempt_id;
  kind = data_object;
  ordinal = 0;
  offset = 0;
  put_id = first_name.put_id;
  created_at_utc = codes "2026-09-20T04:00:00.000Z";
  slot = first_slot;
  name = print_name first_name;
}

abbrev pub stored : ObjectRef
stored = record {
  file_id = codes "4_z1";
  file_name = first_intent.name;
  content_length = 4096;
  content_sha1 = hash_40;
  upload_timestamp = 1;
  sha256 = hash_64;
}

abbrev state_of : Result Journal → Journal
state_of (ok s) = s
state_of (err e) = empty_journal []

abbrev uploaded : List Entry
uploaded =
    begin producer
    ∷ intent first_intent
    ∷ candidate first_intent.name stored
    ∷ verify first_intent.name
    ∷ selected first_intent.name stored
    ∷ []

abbrev committed_state : Journal
committed_state = state_of (replay any_instant (empty_journal first_name.capture_id) uploaded)

uploaded_runs :
    replay any_instant (empty_journal first_name.capture_id) uploaded ≡ ok committed_state
unfolding all_code
uploaded_runs = refl

committed-Inv : Inv committed_state
committed-Inv =
    replay-Inv any_instant (empty_journal first_name.capture_id) committed_state uploaded
      (empty-Inv first_name.capture_id) uploaded_runs

apply-Inv_example : Inv committed_state
apply-Inv_example =
    apply-Inv any_instant committed_state committed_state (reclaimed first_intent.name)
      committed-Inv (unfold all_code in refl)

-- The write of the reclaim record fails, and the journal is poisoned.
reopen-appends_example :
    let s = appends any_instant (empty_journal first_name.capture_id) (
      (true, begin producer)
      ∷ (true, intent first_intent)
      ∷ (false, verify first_intent.name)
      ∷ []) in
    (s.poisoned ≡ true) ⊎ (Inv s × (open_journal any_instant s.capture_id s.entries ≡ ok s))
reopen-appends_example =
    reopen-appends any_instant first_name.capture_id (
      (true, begin producer) ∷ (true, intent first_intent) ∷ (false, verify first_intent.name) ∷ [])

committed_state-Committed : Committed committed_state (intent_key first_intent) first_intent stored
unfolding all_code
committed_state-Committed = (
  record {
    intent = first_intent;
    names = first_intent.name ∷ [];
    candidates = stored ∷ [];
    selected = some stored;
    verifies = 1;
  },
  refl,
  refl,
  refl,
)

abbrev later_state : Journal
later_state =
    state_of (replay any_instant committed_state (reclaimed first_intent.name ∷ scan ∷ []))

replay-Committed_example : Committed later_state (intent_key first_intent) first_intent stored
replay-Committed_example =
    replay-Committed any_instant committed_state later_state
      (reclaimed first_intent.name ∷ scan ∷ []) (intent_key first_intent) first_intent stored
      committed-Inv (unfold all_code apply_scan in refl) committed_state-Committed

-- A second PUT of the same object, under another identity.
abbrev second_intent : PutIntent
second_intent = record first_intent {
  put_id = codes "44444444-4444-4444-8444-444444444444";
  name = print_name (record first_name { put_id = codes "44444444-4444-4444-8444-444444444444" });
}

intent_refused_example : apply_intent committed_state second_intent ≢ ok committed_state
intent_refused_example =
    intent_refused committed_state committed_state second_intent first_intent stored
      committed_state-Committed

reclaimed_proved_example :
    (i : PutIntent) × (old : Logical) × (r : ObjectRef) × (lookup first_intent.name
        committed_state.intents
      ≡ some i)
    × (lookup (intent_key i) committed_state.logical ≡ some old)
    × (old.selected ≡ some r)
    × (0 < old.verifies)
    × IsCopy r i.slot
reclaimed_proved_example =
    reclaimed_proved committed_state committed_state first_intent.name committed-Inv
      (unfold all_code in refl)

eof_complete_example :
    let items = items_of (identity_key producer) committed_state.logical in
    (length items ≡ 1) × (sum_by item_bytes items ≡ 4096) × AllBelow (Chosen items) 1
eof_complete_example =
    eof_complete committed_state committed_state producer 4096 hash_64 1 (unfold all_code in refl)
