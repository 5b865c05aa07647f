-- ===== src/Contract/Leases.antt =====
-- scripts/backup-v2-contract.ts: transfer windows, transfer episodes and lease windows.
-- Times of the monotonic clock are whole milliseconds.
pub mod Windows
use oracle_free_arch_vps.Base.{
  List, Option, Result, String, Text, [], codes, if◌then◌else◌, leb, none, ok, some, ℕ, ◌&&◌, ◌*◌,
  ◌+◌, ◌-◌, ◌>>=◌, ◌>>◌, ◌∷◌,
}
use oracle_free_arch_vps.Profile.{blocked_transport_ms, limit, slot_bytes}
use oracle_free_arch_vps.Json.{Value, get, has_own, null, num, obj}
use oracle_free_arch_vps.Contract.Fields.{demand, fail, monotonic, object, text}
use oracle_free_arch_vps.Contract.Roles.{is_text}
use oracle_free_arch_vps.Inventory.{budgeted}

pub data TransferPhase : Type 0 where
  put readback : TransferPhase

abbrev pub phase_text : TransferPhase → Text
phase_text put = codes "PUT"
phase_text readback = codes "READBACK"

-- BACKUP_V2_CONTROL_REQUEST_MS and BACKUP_V2_TRANSFER_SETTLEMENT_MS
abbrev pub control_request_ms : ℕ
control_request_ms = 120_000

abbrev pub transfer_settlement_ms : ℕ
transfer_settlement_ms = 30_000

-- Control requests before the transfer: an authorization, and the upload target of a PUT.
abbrev control_requests : TransferPhase → ℕ
control_requests put = 2
control_requests readback = 1

unfoldable pub transfer_window_ms : TransferPhase → ℕ
transfer_window_ms phase =
    control_requests phase * control_request_ms
    + limit blocked_transport_ms
    + transfer_settlement_ms

abbrev read_phase : Value → Result TransferPhase
read_phase v =
    if is_text v (phase_text put)
    then ok put
    else if is_text v (phase_text readback)
    then ok readback
    else fail

-- BackupV2TransferEpisode; its `kind` is fixed.
pub record TransferEpisode : Type 0 where
  pub operation_id : Text
  pub phase : TransferPhase
  pub sealed_object_identity : Text
  pub retained_bytes : ℕ
  pub started_at_ms : ℕ
  pub expires_at_ms : ℕ

unfoldable pub validate_transfer_episode : Value → ℕ → Result TransferEpisode
validate_transfer_episode value observed = do
  r ← object value (
      "kind" ∷ "operationId" ∷ "phase" ∷ "sealedObjectIdentity" ∷ "retainedBytes" ∷ "startedAtMs"
      ∷ "expiresAtMs" ∷ [])
  demand (is_text (get r "kind") (codes "SEALED_TRANSFER"))
  phase ← read_phase (get r "phase")
  operation_id ← text (get r "operationId") 1024
  sealed_object_identity ← text (get r "sealedObjectIdentity") 1024
  retained_bytes ← budgeted slot_bytes (get r "retainedBytes")
  started ← monotonic (get r "startedAtMs")
  expires ← monotonic (get r "expiresAtMs")
  now ← monotonic (num observed)
  demand (
      leb 1 retained_bytes
      && leb started now
      && leb started expires
      && leb (expires - started) (transfer_window_ms phase))
  ok (record {
    operation_id = operation_id;
    phase = phase;
    sealed_object_identity = sealed_object_identity;
    retained_bytes = retained_bytes;
    started_at_ms = started;
    expires_at_ms = expires;
  })

pub record RetryEpisode : Type 0 where
  pub started_at_ms : ℕ
  pub expires_at_ms : ℕ

-- BackupV2LeaseWindow; an absent `transferEpisode` and a null one both read as none.
pub record LeaseWindow : Type 0 where
  pub observed_monotonic_ms : ℕ
  pub useful_progress_at_ms : ℕ
  pub useful_progress_expires_at_ms : ℕ
  pub retry_episode : Option RetryEpisode
  pub transfer_episode : Option TransferEpisode

abbrev pub own_field : Value → String → List String
own_field (obj fs) key = if has_own fs key then key ∷ [] else []
own_field _ key = []

abbrev episode_of : Value → ℕ → Result (Option RetryEpisode)
episode_of value observed = do
  e ← object value ("startedAtMs" ∷ "expiresAtMs" ∷ [])
  started ← monotonic (get e "startedAtMs")
  expires ← monotonic (get e "expiresAtMs")
  demand (
      leb started observed
      && leb started expires
      && leb (expires - started) (limit blocked_transport_ms))
  ok (some (record { started_at_ms = started; expires_at_ms = expires }))

unfoldable pub read_retry : Value → ℕ → Result (Option RetryEpisode)
read_retry null observed = ok none
read_retry value observed = episode_of value observed

unfoldable pub read_transfer : Value → ℕ → Result (Option TransferEpisode)
read_transfer null observed = ok none
read_transfer value observed = validate_transfer_episode value observed >>= λ e. ok (some e)

unfoldable pub validate_lease_window : Value → Result LeaseWindow
validate_lease_window value = do
  r ← object value (
      "observedMonotonicMs"
      ∷ "usefulProgressAtMs"
      ∷ "usefulProgressExpiresAtMs"
      ∷ "retryEpisode"
      ∷ own_field value "transferEpisode")
  observed ← monotonic (get r "observedMonotonicMs")
  progress ← monotonic (get r "usefulProgressAtMs")
  expires ← monotonic (get r "usefulProgressExpiresAtMs")
  demand (leb progress observed && leb progress expires)
  retry ← read_retry (get r "retryEpisode") observed
  transfer ←
      if has_own r "transferEpisode"
      then read_transfer (get r "transferEpisode") observed
      else ok none
  ok (record {
    observed_monotonic_ms = observed;
    useful_progress_at_ms = progress;
    useful_progress_expires_at_ms = expires;
    retry_episode = retry;
    transfer_episode = transfer;
  })
