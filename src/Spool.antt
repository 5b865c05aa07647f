-- ===== src/Spool.antt =====
-- scripts/backup-v2-spool.ts: `writeBackupV2All` and the class `BackupV2Spool`, which cuts a stream
-- into sealed slots and holds two of them at most. The storage and the source are parameters; the
-- digests are functions of the bytes. A producer that finds no free slot waits until one is freed.
pub mod Writing
pub mod Cutting
pub mod Turns
pub mod Lives
pub mod Places
mod Tests
use oracle_free_arch_vps.Base.{
  Bool, List, Option, Result, String, Text, [], drop, err, false, if◌then◌else◌, leb, length, ltb,
  none, ok, require, some, suc, take, true, zero, ℕ, ◌&&◌, ◌++◌, ◌-◌, ◌==◌, ◌∷◌,
}
use oracle_free_arch_vps.Profile.{limit, slot_bytes}
use oracle_free_arch_vps.Contract.Fields.{contract_error}
use oracle_free_arch_vps.Contract.Slots.{SealedSlot, sealed_slot_value, validate_sealed_slot}
use oracle_free_arch_vps.Upload.Records.{slot_eq}
use oracle_free_arch_vps.Actions.{Action, gets, lift, modify, pure, try, ◌>>=◌, ◌>>◌}

abbrev pub Bytes : Type 0
Bytes = List ℕ

abbrev pub spool_error : String
spool_error = "Backup v2 spool identity or progress is invalid"

pub data Place : Type 0 where
  free writing : Place
  holds : SealedSlot → Place

abbrev pub is_free : Place → Bool
is_free free = true
is_free _ = false

abbrev pub held : Option Place → Result SealedSlot
held none = err contract_error
held (some free) = err contract_error
held (some writing) = err contract_error
held (some (holds x)) = validate_sealed_slot (sealed_slot_value x)

abbrev pub no_failure : Option String → Result (Unit {0})
no_failure none = ok tt
no_failure (some e) = err e

-- BackupV2SpoolStorage with the writer of the open file, and the reader of the source: `none` is its
-- end.
pub record Storage (W : Type 0) : Type 0 where
  pub create : ℕ → Action W (Unit {0})
  pub write : Bytes → Action W ℕ
  pub sync : Action W (Unit {0})
  pub seal : ℕ → ℕ → Text → Text → Action W SealedSlot
  pub read : SealedSlot → Action W (Unit {0})
  pub remove : SealedSlot → Action W (Unit {0})
  pub remove_empty : ℕ → Action W (Unit {0})
  pub read_source : Action W (Option Bytes)

-- A slot that was sealed, what the writer of its file has accepted, and the size and the digests that
-- `seal` was told.
pub record Sealing : Type 0 where
  pub slot : SealedSlot
  pub content : Bytes
  pub size : ℕ
  pub sha1 : Text
  pub sha256 : Text

-- The state of the class and of the running generator; `hashed` is what its digests have read, and
-- its length is `total`. `file` is what the writer of the open file has accepted, `received` what the
-- source has given and `sealed` the slots so far: these are part of the model only.
pub record Spool (W : Type 0) : Type 0 where
  pub world : W
  pub zeroth : Place
  pub first : Place
  pub failure : Option String
  pub pending : Bytes
  pub done : Bool
  pub hashed : Bytes
  pub file : Bytes
  pub received : Bytes
  pub sealed : List Sealing

abbrev pub start_spool : {W : Type 0} → W → Spool W
start_spool w = record {
  world = w;
  zeroth = free;
  first = free;
  failure = none;
  pending = [];
  done = false;
  hashed = [];
  file = [];
  received = [];
  sealed = [];
}

-- What a turn of the generator ends with.
pub data Turn : Type 0 where
  waiting ended : Turn
  yielded : SealedSlot → Turn

pub data Operation : Type 0 where
  next_slot : Operation
  read_back release : SealedSlot → Operation
  give_up : String → Operation

module _ {W : Type 0} where
  abbrev pub moved : {A : Type 0} → Spool W → Result A × W → Result A × Spool W
  moved s (r, w) = (r, record s { world = w })

  abbrev pub call : {A : Type 0} → Action W A → Action (Spool W) A
  call m s = moved s (m s.world)

  -- `check`
  abbrev pub check_failure : Action (Spool W) (Unit {0})
  check_failure s = (no_failure s.failure, s)

  -- `slots[index]`; there is none but at 0 and 1.
  abbrev pub place_at : ℕ → Spool W → Option Place
  place_at k s = if k == 0 then some s.zeroth else if k == 1 then some s.first else none

  abbrev pub set_place : ℕ → Place → Spool W → Spool W
  set_place k p s = record s {
    zeroth = if k == 0 then p else s.zeroth;
    first = if k == 0 then s.first else p;
  }

  -- `acquire`, once; `none` is to wait.
  unfoldable pub acquire : Action (Spool W) (Option ℕ)
  acquire = do
    check_failure
    s ← gets (λ s. s)
    (if is_free s.zeroth
        then modify (set_place 0 writing) >> pure (some 0)
        else if is_free s.first
        then modify (set_place 1 writing) >> pure (some 1)
        else pure none)

  -- `sameSlot`, which throws on what is not a slot.
  unfoldable pub require_same : SealedSlot → Action (Spool W) (Unit {0})
  require_same slot = do
    place ← gets (place_at slot.index)
    left ← lift (held place)
    right ← lift (validate_sealed_slot (sealed_slot_value slot))
    lift (require (slot_eq left right) spool_error)

module _ {W : Type 0} (storage : Storage W) where
  abbrev pub accept : ℕ → Bytes → Action (Spool W) (Unit {0})
  accept n bytes = modify (λ s. record s { file = s.file ++ take n bytes })

  -- `writeBackupV2All`, with fuel for the bytes that are left.
  unfoldable pub write_rest : ℕ → Bytes → Action (Spool W) (Unit {0})
  write_rest fuel [] = pure tt
  write_rest zero (b ∷ bytes) = lift (err spool_error)
  write_rest (suc fuel) (b ∷ bytes) = do
    n ← call (storage.write (b ∷ bytes))
    lift (require (ltb 0 n && leb n (length (b ∷ bytes))) spool_error)
    accept n (b ∷ bytes)
    write_rest fuel (drop n (b ∷ bytes))

  unfoldable pub write_all : Bytes → Action (Spool W) (Unit {0})
  write_all bytes = write_rest (length bytes) bytes

  -- `read`
  unfoldable pub read_slot : SealedSlot → Action (Spool W) (Unit {0})
  read_slot slot = do require_same slot; call (storage.read slot)

  -- `reclaim`
  unfoldable pub reclaim : SealedSlot → Action (Spool W) (Unit {0})
  reclaim slot = do
    require_same slot
    call (storage.remove slot)
    modify (set_place slot.index free)

  -- One read of the source.
  unfoldable pub take_part : Option Bytes → Action (Spool W) (Unit {0})
  take_part none = modify (λ s. record s { done = true })
  take_part (some []) = lift (err spool_error)
  take_part (some (b ∷ part)) =
      modify (λ s. record s { pending = b ∷ part; received = s.received ++ b ∷ part })

  unfoldable pub refill : Bytes → Action (Spool W) (Unit {0})
  refill [] = do next ← call storage.read_source; check_failure; take_part next
  refill (b ∷ pending) = pure tt

  abbrev pub consume : Bytes → Bytes → Spool W → Spool W
  consume bytes rest s = record s { hashed = s.hashed ++ bytes; pending = rest }

  -- The inner loop: the bytes of one slot. Each turn but the last adds a byte at least.
  unfoldable pub fill : ℕ → ℕ → Action (Spool W) (Unit {0})
  fill zero room = pure tt
  fill (suc fuel) zero = pure tt
  fill (suc fuel) (suc room) = do
    check_failure
    s ← gets (λ s. s)
    refill s.pending
    t ← gets (λ s. s)
    let bytes = take (suc room) t.pending
    (if t.done
        then pure tt
        else write_all bytes
          >> modify (consume bytes (drop (suc room) t.pending))
          >> fill fuel (suc room - length bytes))

  module _ (sha1 sha256 : Bytes → Text) (chunk_bytes : ℕ) where
    -- What the file has, beside what the digests have read.
    abbrev pub sealing_of : SealedSlot → Bytes → Bytes → Sealing
    sealing_of slot content bytes = record {
      slot = slot;
      content = content;
      size = length bytes;
      sha1 = sha1 bytes;
      sha256 = sha256 bytes;
    }

    -- The slot is sealed, or the empty file of the last turn is removed.
    unfoldable pub seal_slot : ℕ → Bytes → Action (Spool W) Turn
    seal_slot k [] = do call (storage.remove_empty k); modify (set_place k free); pure ended
    seal_slot k (b ∷ bytes) = do
      slot ← call (storage.seal k (length (b ∷ bytes)) (sha1 (b ∷ bytes)) (sha256 (b ∷ bytes)))
      modify (set_place k (holds slot))
      modify (λ s. record s { sealed = s.sealed ++ sealing_of slot s.file (b ∷ bytes) ∷ [] })
      pure (yielded slot)

    unfoldable pub produce_in : Option ℕ → Action (Spool W) Turn
    produce_in none = pure waiting
    produce_in (some k) = do
      call (storage.create k)
      modify (λ s. record s { file = []; hashed = [] })
      fill chunk_bytes chunk_bytes
      call storage.sync
      bytes ← gets (λ s. s.hashed)
      seal_slot k bytes

    -- A turn of `sealed`, without its handler.
    unfoldable pub produce : Action (Spool W) Turn
    produce = do s ← gets (λ s. s); if s.done then pure ended else (acquire >>= λ k. produce_in k)

    -- `abort`, called with an error; the cancellation of the reader is not waited for here.
    abbrev pub first_failure : Option String → String → Option String
    first_failure none e = some e
    first_failure (some old) e = some old

    abbrev pub abort : String → Spool W → Spool W
    abort e s = record s { failure = first_failure s.failure e }

    -- The handler of `sealed`: the spool fails with the error, which goes on, and the generator is
    -- finished: it ends when it is asked again.
    abbrev pub or_abort : Result Turn → Action (Spool W) Turn
    or_abort (ok turn) = pure turn
    or_abort (err e) = do modify (abort e); modify (λ s. record s { done = true }); lift (err e)

    unfoldable pub next_turn : Action (Spool W) Turn
    next_turn = do turn ← try produce; or_abort turn

    -- What callers may do with a spool, one call after another.
    unfoldable pub operate : Operation → Action (Spool W) Turn
    operate next_slot = next_turn
    operate (read_back slot) = read_slot slot >> pure waiting
    operate (release slot) = reclaim slot >> pure waiting
    operate (give_up e) = modify (abort e) >> pure waiting

    unfoldable pub operate_all : List Operation → Action (Spool W) (List Turn)
    operate_all [] = pure []
    operate_all (o ∷ os) = do turn ← operate o; turns ← operate_all os; pure (turn ∷ turns)

    -- `constructor`
    unfoldable pub open_spool : W → Result (Spool W)
    open_spool w =
        if ltb 0 chunk_bytes && leb chunk_bytes (limit slot_bytes)
        then ok (start_spool w)
        else err spool_error
