-- ===== src/Upload/Operations.antt =====
-- scripts/backup-v2-upload.ts: the state of BackupV2UploadJournal, and each case of its `apply`
-- that needs no clock. A `Map` keeps the order of insertion. A record that fails leaves the state
-- as it was, but for `scans`, which nothing can observe after the failure has poisoned the journal.
use oracle_free_arch_vps.Base.{
  Bool, List, Option, Result, Text, [], false, if◌then◌else◌, insert, is_some, leb, length, lookup,
  member, none, not, ok, or_fail, require, some, sum_by, text_eq, true, ℕ, ◌&&◌, ◌++◌, ◌+◌, ◌==◌,
  ◌>>=◌, ◌>>◌, ◌||◌, ◌∷◌,
}
use oracle_free_arch_vps.Profile.{
  assert_budget, ciphertext_bytes, limit, logical_objects, physical_puts, physically_put_bytes,
  prune_candidates, puts_per_object,
}
use oracle_free_arch_vps.Contract.Fields.{hex, matches, times}
use oracle_free_arch_vps.Contract.Refs.{ObjectRef}
use oracle_free_arch_vps.Contract.Slots.{PutIntent, put_intent_value, validate_put_intent}
use oracle_free_arch_vps.Contract.Leases.{TransferPhase, phase_text, put, readback}
use oracle_free_arch_vps.Upload.Records.{
  Entry, Identity, check_identity, identity_key, identity_of, intent_key, match, ref_eq, slot_eq,
}

-- Logical
pub record Logical : Type 0 where
  pub intent : PutIntent
  pub names : List Text
  pub candidates : List ObjectRef
  pub selected : Option ObjectRef
  pub verifies : ℕ

pub record Journal : Type 0 where
  pub capture_id : Text
  pub entries : List Entry
  pub logical : List (Text × Logical)
  pub intents : List (Text × PutIntent)
  pub begun : List Text
  pub episodes : List (Text × Text)
  pub transfers : List (Text × Text)
  pub bytes : ℕ
  pub puts : ℕ
  pub put_bytes : ℕ
  pub logical_bytes : ℕ
  pub scans : ℕ
  pub poisoned : Bool

abbrev pub empty_journal : Text → Journal
empty_journal capture_id = record {
  capture_id = capture_id;
  entries = [];
  logical = [];
  intents = [];
  begun = [];
  episodes = [];
  transfers = [];
  bytes = 0;
  puts = 0;
  put_bytes = 0;
  logical_bytes = 0;
  scans = 0;
  poisoned = false;
}

-- `this.logical.get(key)!`: a missing item would be a TypeError at its first use.
abbrev pub item_at : Journal → Text → Result Logical
item_at s key = or_fail (lookup key s.logical) "TypeError"

abbrev pub set_item : Journal → Text → Logical → Journal
set_item s key item = record s { logical = insert key item s.logical }

unfoldable pub apply_begin : Journal → Identity → Result Journal
apply_begin s identity = do
  i ← check_identity identity
  require (text_eq i.capture_id s.capture_id && not (member (identity_key i) s.begun))
      "Backup v2 upload producer attempt cannot restart"
  ok (record s { begun = s.begun ++ identity_key i ∷ [] })

abbrev pub same_bytes : Logical → PutIntent → Bool
same_bytes old i =
    old.intent.offset == i.offset && slot_eq old.intent.slot i.slot && not (is_some old.selected)

-- The counters and the intent that each accepted PUT adds, with the item it belongs to.
abbrev pub put_recorded : Journal → PutIntent → Logical → Journal
put_recorded s i item = record s {
  puts = s.puts + 1;
  put_bytes = s.put_bytes + i.slot.bytes;
  intents = insert i.name i s.intents;
  logical = insert (intent_key i) (record item { names = item.names ++ i.name ∷ [] }) s.logical;
}

unfoldable pub put_budgets : Journal → PutIntent → ℕ → Result ℕ
put_budgets s i names = do
  assert_budget physical_puts (s.puts + 1)
  assert_budget physically_put_bytes (s.put_bytes + i.slot.bytes)
  assert_budget puts_per_object (names + 1)

unfoldable pub first_put : Journal → PutIntent → Result Journal
unfolding put_budgets
first_put s i = do
  put_budgets s i 0
  assert_budget logical_objects (length s.logical + 1)
  assert_budget ciphertext_bytes (s.logical_bytes + i.slot.bytes)
  ok (
      put_recorded (record s { logical_bytes = s.logical_bytes + i.slot.bytes }) i
        (record { intent = i; names = []; candidates = []; selected = none; verifies = 0 }))

unfoldable pub next_put : Journal → PutIntent → Logical → Result Journal
unfolding put_budgets
next_put s i old = do
  require (same_bytes old i) "Backup v2 upload logical bytes changed or already committed"
  put_budgets s i (length old.names)
  ok (put_recorded s i old)

unfoldable pub put_for : Journal → PutIntent → Option Logical → Result Journal
unfolding first_put next_put
put_for s i none = first_put s i
put_for s i (some old) = next_put s i old

unfoldable pub apply_intent : Journal → PutIntent → Result Journal
unfolding put_for
apply_intent s raw = do
  i ← validate_put_intent (put_intent_value raw)
  require (text_eq i.capture_id s.capture_id && not (is_some (lookup i.name s.intents)))
      "Backup v2 upload physical PUT identity was reused"
  put_for s i (lookup (intent_key i) s.logical)

-- The intent behind a name, the object bound to it, and the logical item of both.
unfoldable pub bound : Journal → Text → ObjectRef → Result (PutIntent × ObjectRef × Logical)
bound s name object = do
  i ← or_fail (lookup name s.intents) "Backup v2 upload journal intent is missing"
  ref ← match object i
  item ← item_at s (intent_key i)
  ok (i, ref, item)

abbrev pub has_id : Text → List ObjectRef → Bool
has_id file_id [] = false
has_id file_id (r ∷ rs) = text_eq r.file_id file_id || has_id file_id rs

unfoldable pub apply_candidate : Journal → Text → ObjectRef → Result Journal
apply_candidate s name object = do
  b ← bound s name object
  let item = b.2
  ok (
      if has_id b.1.file_id item.candidates
      then s
      else set_item s (intent_key b.0) (record item { candidates = item.candidates ++ b.1 ∷ [] }))

abbrev pub agrees : Option ObjectRef → ObjectRef → Bool
agrees none ref = true
agrees (some old) ref = ref_eq old ref

unfoldable pub apply_selected : Journal → Text → ObjectRef → Result Journal
apply_selected s name object = do
  b ← bound s name object
  let item = b.2
  require (not (item.verifies == 0) && agrees item.selected b.1)
      "Backup v2 upload selected proof is inconsistent"
  ok (set_item s (intent_key b.0) (record item { selected = some b.1 }))

unfoldable pub apply_verify : Journal → Text → Result Journal
apply_verify s name = do
  i ← or_fail (lookup name s.intents) "Backup v2 upload verify intent is missing"
  item ← item_at s (intent_key i)
  assert_budget puts_per_object (item.verifies + 1)
  ok (set_item s (intent_key i) (record item { verifies = item.verifies + 1 }))

abbrev pub selected_at : Journal → PutIntent → Bool
selected_at s i = elim (lookup (intent_key i) s.logical) [
  | none ↦ false
  | some item ↦ is_some item.selected
]

unfoldable pub apply_reclaimed : Journal → Text → Result Journal
apply_reclaimed s name = do
  i ← or_fail (lookup name s.intents) "Backup v2 upload reclaim lacks durable selection"
  require (selected_at s i) "Backup v2 upload reclaim lacks durable selection"
  ok s

abbrev pub transfer_key : Text → TransferPhase → Text
transfer_key key phase = key ++ (b'/' ∷ phase_text phase)

-- A readback is timed only once a verification was journaled.
abbrev pub transfer_ready : Option Logical → TransferPhase → Bool
transfer_ready none phase = false
transfer_ready (some item) put = true
transfer_ready (some item) readback = leb 1 item.verifies

unfoldable pub apply_scan : Journal → Result Journal
apply_scan s = do
  require (leb (s.scans + 1) (limit prune_candidates))
      "Backup v2 upload reconciliation page budget exceeded"
  ok (record s { scans = s.scans + 1 })

-- The items of one producer, in the order of insertion.
unfoldable pub items_of : Text → List (Text × Logical) → List Logical
items_of key [] = []
items_of key ((k, item) ∷ m) =
    if text_eq (identity_key (identity_of item.intent)) key
    then item ∷ items_of key m
    else items_of key m

-- `sort` by ordinal, which is stable.
unfoldable pub insert_sorted : Logical → List Logical → List Logical
insert_sorted x [] = x ∷ []
insert_sorted x (y ∷ ys) =
    if leb x.intent.ordinal y.intent.ordinal then x ∷ y ∷ ys else y ∷ insert_sorted x ys

unfoldable pub sort_items : List Logical → List Logical
unfolding insert_sorted
sort_items [] = []
sort_items (x ∷ xs) = insert_sorted x (sort_items xs)

-- Every item from this ordinal on is selected, and the ordinals run without a gap.
unfoldable pub is_complete : ℕ → List Logical → Bool
is_complete ordinal [] = true
is_complete ordinal (x ∷ xs) =
    is_some x.selected && x.intent.ordinal == ordinal && is_complete (ordinal + 1) xs

abbrev pub item_bytes : Logical → ℕ
item_bytes item = item.intent.slot.bytes

unfoldable pub apply_eof : Journal → Identity → ℕ → Text → ℕ → Result Journal
apply_eof s identity bytes sha256 chunks = do
  i ← check_identity identity
  require (member (identity_key i) s.begun && matches (times 64 hex) sha256)
      "Backup v2 upload EOF lacks producer attempt"
  let items = sort_items (items_of (identity_key i) s.logical)
  require (length items == chunks && is_complete 0 items && sum_by item_bytes items == bytes)
      "Backup v2 upload EOF lacks complete selected chunks"
  ok s
