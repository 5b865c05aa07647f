-- ===== src/Upload/Journal.antt =====
-- scripts/backup-v2-upload.ts: BackupV2UploadJournal: `apply`, its constructor and `append`. Whether
-- a text is an instant that `Date.parse` reads is a parameter, since the language leaves all formats
-- but one to the implementation.
pub mod Invariant
pub mod Bound
pub mod Changes
pub mod Puts
pub mod Steps
pub mod Kept
pub mod Replay
pub mod Selection
pub mod Finish
use oracle_free_arch_vps.Base.{
  Bool, List, Result, Text, [], err, false, if◌then◌else◌, insert, is_some, lookup, not, ok,
  require, true, ℕ, ◌&&◌, ◌++◌, ◌+◌, ◌>>=◌, ◌>>◌, ◌∷◌,
}
use oracle_free_arch_vps.Profile.{assert_budget, journal_bytes}
use oracle_free_arch_vps.Contract.Leases.{TransferPhase}
use oracle_free_arch_vps.Upload.Records.{
  Entry, begin, candidate, encoded_bytes, eof, episode, intent, reclaimed, scan, selected, transfer,
  verify,
}
use oracle_free_arch_vps.Upload.Operations.{
  Journal, apply_begin, apply_candidate, apply_eof, apply_intent, apply_reclaimed, apply_scan,
  apply_selected, apply_verify, empty_journal, transfer_key, transfer_ready,
}

-- `this.entries.push(record); this.bytes += bytes.length`
abbrev pub pushed : Journal → Entry → ℕ → Journal
pushed s e size = record s { entries = s.entries ++ e ∷ []; bytes = s.bytes + size }

abbrev poison : Journal → Journal
poison s = record s { poisoned = true }

module _ (is_instant : Text → Bool) where
  unfoldable pub apply_episode : Journal → Text → Text → Result Journal
  apply_episode s key at = do
    require
        (is_some (lookup key s.logical) && not (is_some (lookup key s.episodes)) && is_instant at)
        "Backup v2 upload retry episode is invalid"
    ok (record s { episodes = insert key at s.episodes })

  unfoldable pub apply_transfer : Journal → Text → TransferPhase → Text → Result Journal
  apply_transfer s key phase at = do
    require
        (transfer_ready (lookup key s.logical) phase
          && not (is_some (lookup (transfer_key key phase) s.transfers))
          && is_instant at)
        "Backup v2 upload transfer episode is invalid"
    ok (record s { transfers = insert (transfer_key key phase) at s.transfers })

  -- `apply`
  unfoldable pub apply : Journal → Entry → Result Journal
  apply s (begin i) = apply_begin s i
  apply s (intent i) = apply_intent s i
  apply s (candidate name object) = apply_candidate s name object
  apply s (selected name object) = apply_selected s name object
  apply s (verify name) = apply_verify s name
  apply s (reclaimed name) = apply_reclaimed s name
  apply s (episode key at) = apply_episode s key at
  apply s (transfer key phase at) = apply_transfer s key phase at
  apply s scan = apply_scan s
  apply s (eof i bytes sha256 chunks) = apply_eof s i bytes sha256 chunks

  -- One turn of the constructor's loop over the records that were read.
  unfoldable pub replay_entry : Journal → Entry → Result Journal
  replay_entry s e = do size ← encoded_bytes e; t ← apply s e; ok (pushed t e size)

  unfoldable pub replay : Journal → List Entry → Result Journal
  replay s [] = ok s
  replay s (e ∷ es) = replay_entry s e >>= λ t. replay t es

  -- `constructor`
  unfoldable pub open_journal : Text → List Entry → Result Journal
  open_journal capture_id previous = do
    s ← replay (empty_journal capture_id) previous
    assert_budget journal_bytes s.bytes
    ok s

  persist_applied : Bool → Journal → Result Journal → Entry → ℕ → Journal × Result ℕ
  persist_applied written s (err m) e size = (poison s, err m)
  persist_applied true s (ok t) e size = (pushed t e size, ok size)
  persist_applied false s (ok t) e size = (poison t, err "persist failed")

  append_encoded : Bool → Journal → Entry → Result ℕ → Journal × Result ℕ
  unfolding persist_applied
  append_encoded written s e (err m) = (s, err m)
  append_encoded written s e (ok size) = persist_applied written s (apply s e) e size

  -- `append`: `written` is whether the caller's append and fsync of the line succeed.
  unfoldable pub append : Bool → Journal → Entry → Journal × Result ℕ
  unfolding append_encoded
  append written s e =
      if s.poisoned
      then (s, err "journal is poisoned")
      else append_encoded written s e (
          encoded_bytes e >>= λ size. assert_budget journal_bytes (s.bytes + size) >>= λ _. ok size)
