-- ===== src/Upload/Session.antt =====
-- scripts/backup-v2-upload.ts: what `uploadSealedBackupV2Object` works on: the capabilities of
-- `BackupV2UploadContext`, the journal with its durable file, and the transfer windows. Times are
-- whole milliseconds. The log lists the effects of a session, the newest first.
use oracle_free_arch_vps.Base.{
  Bool, List, Option, Result, String, Text, [], err, if◌then◌else◌, leb, lookup, ltb, none, ok,
  require, some, true, ℕ, ◌&&◌, ◌+◌, ◌-◌, ◌∷◌,
}
use oracle_free_arch_vps.Json.{Value}
use oracle_free_arch_vps.Contract.Refs.{Cursor, ObjectRef}
use oracle_free_arch_vps.Contract.Slots.{PutIntent, SealedSlot}
use oracle_free_arch_vps.Contract.Leases.{TransferPhase, put, readback, transfer_window_ms}
use oracle_free_arch_vps.Upload.Records.{Entry, transfer}
use oracle_free_arch_vps.Upload.Operations.{Journal, Logical, transfer_key}
use oracle_free_arch_vps.Upload.Journal.{append}
use oracle_free_arch_vps.Actions.{Action, gets, lift, modify, pure, ◌>>=◌, ◌>>◌}

-- A transfer window; its start is `expires_at` less the window of its phase.
pub record Transfer : Type 0 where
  pub operation_id : Text
  pub phase : TransferPhase
  pub sealed_object : Text
  pub retained_bytes : ℕ
  pub expires_at : ℕ

-- BackupV2UploadContext. `persist` is the journal's own, and says whether the line was written and
-- synced; `throw_if_aborted` is the one of the signal; an absent callback does nothing.
pub record Context (W : Type 0) : Type 0 where
  pub persist : Entry → W → Bool × W
  pub spool_read : SealedSlot → Action W (Unit {0})
  pub spool_reclaim : SealedSlot → Action W (Unit {0})
  pub put_file_once : PutIntent → Action W ObjectRef
  pub verify_exact_readback : ObjectRef → Action W (Unit {0})
  pub versions_page : Text → Option Cursor → Action W Value
  pub throw_if_aborted : Action W (Unit {0})
  pub pace : ℕ → Action W (Unit {0})
  pub sleep : ℕ → Action W (Unit {0})
  pub now : Action W ℕ
  pub monotonic_now : Action W ℕ
  pub new_put_id : Action W Text
  pub is_retryable : String → Bool
  pub on_verified : ℕ → ℕ → ObjectRef → Action W (Unit {0})
  pub on_retry_episode : Text → ℕ → ℕ → Action W (Unit {0})
  pub on_transfer_episode : Transfer → Action W (Unit {0})
  pub on_transfer_complete : Text → Action W (Unit {0})

-- A durable record, a PUT that is sent, an exact readback that went well, and the release of a slot.
pub data Event : Type 0 where
  appended : Entry → Event
  sent : PutIntent → Event
  read_back : ObjectRef → Event
  released : SealedSlot → Event

-- The local variables of the function, with the journal and the world.
pub record Session (W : Type 0) : Type 0 where
  pub world : W
  pub journal : Journal
  pub deadline : Option ℕ
  pub put_window : Option Transfer
  pub readback_window : Option Transfer
  pub current : Option Transfer
  pub log : List Event

abbrev pub start_session : {W : Type 0} → W → Journal → Session W
start_session w j = record {
  world = w;
  journal = j;
  deadline = none;
  put_window = none;
  readback_window = none;
  current = none;
  log = [];
}

module _ {W : Type 0} where
  abbrev pub moved : {A : Type 0} → Session W → Result A × W → Result A × Session W
  moved s (r, w) = (r, record s { world = w })

  abbrev pub call : {A : Type 0} → Action W A → Action (Session W) A
  call m s = moved s (m s.world)

  abbrev pub note : Event → Action (Session W) (Unit {0})
  note e = modify (λ s. record s { log = e ∷ s.log })

  -- `journal.state`
  abbrev pub state_of : Text → Action (Session W) (Option Logical)
  state_of key s = (
    if s.journal.poisoned then err "journal is poisoned" else ok (lookup key s.journal.logical),
    s,
  )

  abbrev pub window : TransferPhase → Session W → Option Transfer
  window put s = s.put_window
  window readback s = s.readback_window

  abbrev pub set_window : TransferPhase → Transfer → Session W → Session W
  set_window put x s = record s { put_window = some x }
  set_window readback x s = record s { readback_window = some x }

module _ {W : Type 0} (context : Context W) where
  -- `notifyEpisode`
  abbrev pub notify_deadline : Text → ℕ → Option ℕ → Action (Session W) (Unit {0})
  notify_deadline key bytes none = pure tt
  notify_deadline key bytes (some at) = call (context.on_retry_episode key bytes at)

  abbrev pub notify_transfer : Option Transfer → Action (Session W) (Unit {0})
  notify_transfer none = pure tt
  notify_transfer (some x) = call (context.on_transfer_episode x)

module _ (is_instant : Text → Bool) {W : Type 0} (context : Context W) where
  abbrev pub settle_append : Entry → Session W → Journal × Result ℕ → Result (Unit {0}) × Session W
  settle_append e s (j, err m) = (err m, record s { journal = j })
  settle_append e s (j, ok size) = (ok tt, record s { journal = j; log = appended e ∷ s.log })

  -- The line is handed to the file only when the record was encoded and applied.
  abbrev pub append_checked : Entry → Session W → Journal × Result ℕ → Result (Unit {0}) × Session W
  append_checked e s (j, err m) = (err m, record s { journal = j })
  append_checked e s (j, ok size) =
      let (written, w) = context.persist e s.world in
      settle_append e (record s { world = w }) (append is_instant written s.journal e)

  -- `journal.append`
  unfoldable pub append_record : Entry → Action (Session W) (Unit {0})
  append_record e s = append_checked e s (append is_instant true s.journal e)

  module _ (instant_ms : Text → ℕ) (iso : ℕ → Text) where
    -- The start of a window that the journal knows, or one that begins now and is journaled.
    unfoldable pub open_window : Text → TransferPhase → ℕ → Option Text → Action (Session W) ℕ
    open_window key phase started none = do
      time ← call context.now
      append_record (transfer key phase (iso time))
      pure (started + transfer_window_ms phase)
    open_window key phase started (some old) = do
      time ← call context.now
      let elapsed = time - instant_ms old
      lift (
          require (leb (instant_ms old) time && ltb elapsed (transfer_window_ms phase))
            "Backup v2 upload sealed transfer wait expired or clock regressed")
      pure (started + transfer_window_ms phase - elapsed)

    unfoldable pub find_window :
        Text → ℕ → TransferPhase → Option Transfer → Action (Session W) Transfer
    find_window key bytes phase (some x) = pure x
    find_window key bytes phase none = do
      old ← gets (λ s. lookup (transfer_key key phase) s.journal.transfers)
      started ← call context.monotonic_now
      expires ← open_window key phase started old
      let x : Transfer = record {
        operation_id = transfer_key key phase;
        phase = phase;
        sealed_object = key;
        retained_bytes = bytes;
        expires_at = expires;
      }
      modify (set_window phase x)
      pure x

    -- `beginTransfer`
    unfoldable pub begin_transfer : Text → ℕ → TransferPhase → Action (Session W) (Unit {0})
    begin_transfer key bytes phase = do
      known ← gets (window phase)
      x ← find_window key bytes phase known
      time ← call context.monotonic_now
      lift (require (ltb time x.expires_at) "Backup v2 upload sealed transfer wait expired")
      modify (λ s. record s { current = some x })
      call (context.on_transfer_episode x)
