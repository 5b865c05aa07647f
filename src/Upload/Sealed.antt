-- ===== src/Upload/Sealed.antt =====
-- scripts/backup-v2-upload.ts: `uploadSealedBackupV2Object`, the loop over the attempts to store one
-- sealed slot, to read it back, to select it, and then to release the slot.
pub mod Keeping
pub mod Barrier
pub mod Selecting
pub mod Storing
use oracle_free_arch_vps.Base.{
  Bool, List, Option, Result, String, Text, [], err, if◌then◌else◌, leb, lookup, ltb, none, ok,
  or_fail, require, some, suc, text_eq, zero, ℕ, ◌&&◌, ◌*◌, ◌+◌, ◌-◌, ◌∷◌,
}
use oracle_free_arch_vps.Profile.{blocked_transport_ms, limit, puts_per_object}
use oracle_free_arch_vps.Contract.Fields.{object}
use oracle_free_arch_vps.Contract.Names.{object_name}
use oracle_free_arch_vps.Contract.Refs.{ObjectRef}
use oracle_free_arch_vps.Contract.Slots.{
  PutIntent, SealedSlot, put_intent_value, validate_put_intent,
}
use oracle_free_arch_vps.Contract.Leases.{put, readback}
use oracle_free_arch_vps.Upload.Records.{
  Identity, candidate, check_identity, episode, intent, key_for, match, reclaimed, selected, verify,
}
use oracle_free_arch_vps.Upload.Operations.{Logical}
use oracle_free_arch_vps.Actions.{Action, gets, lift, modify, pure, try, ◌>>=◌, ◌>>◌}
use oracle_free_arch_vps.Upload.Session.{
  Context, Session, Transfer, append_record, begin_transfer, call, note, notify_deadline,
  notify_transfer, read_back, released, sent, state_of,
}
use oracle_free_arch_vps.Upload.Reconcile.{reconcile}

-- `names.find((name) => name === fileName)`
unfoldable pub find_name : Text → List Text → Option Text
find_name key [] = none
find_name key (name ∷ names) = if text_eq name key then some name else find_name key names

abbrev pub selected_of : Option Logical → Option ObjectRef
selected_of none = none
selected_of (some item) = item.selected

module _ {S : Type 0} where
  abbrev pub or_else : Option ObjectRef → Action S ObjectRef → Action S ObjectRef
  or_else (some r) next = pure r
  or_else none next = next

  -- `catch`
  abbrev pub or_handle : Result ObjectRef → (String → Action S ObjectRef) → Action S ObjectRef
  or_handle (ok r) handler = pure r
  or_handle (err e) handler = handler e

module _ (is_instant : Text → Bool) (instant_ms : Text → ℕ) (iso : ℕ → Text) {W : Type 0}
    (context : Context W) (i : Identity) (slot : SealedSlot) (ordinal offset : ℕ) where
  abbrev pub key : Text
  key = key_for i ordinal

  -- The intent of one PUT.
  unfoldable pub new_intent : Action (Session W) PutIntent
  new_intent = do
    put_id ← call context.new_put_id
    time ← call context.now
    name ← lift (object_name i.capture_id i.attempt_id i.kind ordinal put_id)
    lift (
        validate_put_intent (
          put_intent_value (record {
            capture_id = i.capture_id;
            attempt_id = i.attempt_id;
            role = i.role;
            kind = i.kind;
            ordinal = ordinal;
            offset = offset;
            put_id = put_id;
            created_at_utc = iso time;
            slot = slot;
            name = name;
          })))

  -- The PUT, whose answer must be the object of the intent.
  unfoldable pub put_once : PutIntent → Action (Session W) ObjectRef
  put_once put_intent = do
    note (sent put_intent)
    object ← call (context.put_file_once put_intent)
    lift (match object put_intent)

  -- After an error on the wire the object may exist nevertheless.
  unfoldable pub answered : Result ObjectRef → Action (Session W) ObjectRef
  answered (ok r) = pure r
  answered (err wire) = do found ← reconcile is_instant context key; lift (or_fail found wire)

  unfoldable pub put_object : Action (Session W) ObjectRef
  put_object = do
    put_intent ← new_intent
    append_record is_instant context (intent put_intent)
    begin_transfer is_instant context instant_ms iso key slot.bytes put
    call (context.pace slot.bytes)
    answer ← try (put_once put_intent)
    found ← answered answer
    append_record is_instant context (candidate found.file_name found)
    pure found

  unfoldable pub find_or_put : Option ObjectRef → Action (Session W) ObjectRef
  find_or_put (some r) = pure r
  find_or_put none = do found ← reconcile is_instant context key; or_else found put_object

  -- The name under which the object has a durable intent.
  unfoldable pub bind_name : ObjectRef → Action (Session W) Text
  bind_name r = do
    state ← state_of key
    item ← lift (or_fail state "TypeError")
    name ← lift (
        or_fail (find_name r.file_name item.names)
          "Backup v2 upload candidate has no durable intent")
    lift (match r (record item.intent { name = name }))
    pure name

  unfoldable pub notify_verified : Option ObjectRef → ObjectRef → Action (Session W) (Unit {0})
  notify_verified none r = call (context.on_verified ordinal offset r)
  notify_verified (some old) r = pure tt

  abbrev pub complete_transfer : Option Transfer → Action (Session W) (Unit {0})
  complete_transfer none = lift (err "TypeError")
  complete_transfer (some x) = call (context.on_transfer_complete x.operation_id)

  -- The barrier: an exact readback, then the durable selection, then the release of the slot.
  unfoldable pub select_and_release :
      Text → Option ObjectRef → ObjectRef → Action (Session W) (Unit {0})
  select_and_release name old r = do
    call (context.verify_exact_readback r)
    note (read_back r)
    append_record is_instant context (selected name r)
    notify_verified old r
    call (context.spool_reclaim slot)
    note (released slot)

  -- The body of the loop's `try`.
  unfoldable pub attempt_upload : Action (Session W) ObjectRef
  attempt_upload = do
    state ← state_of key
    r ← find_or_put (selected_of state)
    name ← bind_name r
    append_record is_instant context (verify name)
    begin_transfer is_instant context instant_ms iso key slot.bytes readback
    call (context.pace r.content_length)
    select_and_release name (selected_of state) r
    append_record is_instant context (reclaimed name)
    current ← gets (λ s. s.current)
    complete_transfer current
    pure r

  -- The retry episode, which begins with the first failure and is journaled then.
  unfoldable pub open_episode : Option ℕ → Action (Session W) ℕ
  open_episode (some at) = pure at
  open_episode none = do
    started ← call context.monotonic_now
    time ← call context.now
    append_record is_instant context (episode key (iso time))
    modify (λ s. record s { deadline = some (started + limit blocked_transport_ms) })
    pure (started + limit blocked_transport_ms)

  abbrev pub delay_of : ℕ → ℕ
  delay_of iteration = if ltb iteration 2 then 1000 * (iteration + 1) else 30 * 60_000

  -- The handler: whether the error ends the upload, or the next attempt follows a delay.
  unfoldable pub wait_for_retry : ℕ → String → Action (Session W) (Unit {0})
  wait_for_retry iteration error = do
    lift (require (context.is_retryable error) error)
    known ← gets (λ s. s.deadline)
    at ← open_episode known
    call (context.on_retry_episode key slot.bytes at)
    lift (require (ltb (iteration + 1) (limit puts_per_object)) error)
    time ← call context.monotonic_now
    lift (require (ltb (time + delay_of iteration) at) error)
    call (context.sleep (delay_of iteration))

  unfoldable pub check_deadline : Option ℕ → Action (Session W) (Unit {0})
  check_deadline none = pure tt
  check_deadline (some at) = do
    time ← call context.monotonic_now
    lift (require (ltb time at) "Backup v2 upload retry episode expired")

  unfoldable pub begin_iteration : Action (Session W) (Unit {0})
  begin_iteration = do
    call context.throw_if_aborted
    known ← gets (λ s. s.deadline)
    check_deadline known
    notify_deadline context key slot.bytes known
    current ← gets (λ s. s.current)
    notify_transfer context current

  -- The loop, with the attempts that are left.
  unfoldable pub upload_from : ℕ → ℕ → Action (Session W) ObjectRef
  upload_from zero iteration = lift (err "Backup v2 upload retry attempt budget exhausted")
  upload_from (suc left) iteration = do
    begin_iteration
    answer ← try attempt_upload
    or_handle answer (λ e. wait_for_retry iteration e >>= λ u. upload_from left (suc iteration))

  -- The deadline of an episode that an earlier process has journaled.
  unfoldable pub resume_episode : Option Text → Action (Session W) (Unit {0})
  resume_episode none = pure tt
  resume_episode (some old) = do
    time ← call context.now
    let left = instant_ms old + limit blocked_transport_ms - time
    lift (
        require (ltb 0 left && leb left (limit blocked_transport_ms))
          "Backup v2 upload retry episode expired or clock regressed")
    started ← call context.monotonic_now
    modify (λ s. record s { deadline = some (started + left) })

  unfoldable pub upload_sealed_object : Action (Session W) ObjectRef
  upload_sealed_object = do
    lift (check_identity i)
    call (context.spool_read slot)
    old ← gets (λ s. lookup key s.journal.episodes)
    resume_episode old
    upload_from (limit puts_per_object) 0
