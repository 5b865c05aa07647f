-- ===== src/Upload/Journal/Steps.antt =====
-- Every record that the journal accepts is one of the changes, and keeps the invariant.
use oracle_free_arch_vps.Base.{Bool, Text, arith, ok, ℕ, ◌+◌, ◌≡◌}
use oracle_free_arch_vps.Profile.{assert_budget}
use oracle_free_arch_vps.Contract.Leases.{TransferPhase}
use oracle_free_arch_vps.Upload.Records.{
  Entry, Identity, begin, candidate, eof, episode, intent, reclaimed, scan, selected, transfer,
  verify,
}
use oracle_free_arch_vps.Upload.Operations.{
  Journal, apply_begin, apply_eof, apply_reclaimed, apply_scan,
}
use oracle_free_arch_vps.Upload.Journal.{apply, apply_episode, apply_transfer}
use oracle_free_arch_vps.Upload.Journal.Invariant.{Inv}
use oracle_free_arch_vps.Upload.Journal.Changes.{
  Change, candidate-Change, quiet, selected-Change, verify-Change,
}
use oracle_free_arch_vps.Upload.Journal.Puts.{intent-Change}

begin-Change : (s t : Journal) (i : Identity) → apply_begin s i ≡ ok t → Change s t
unfolding apply_begin
begin-Change s t i h = quiet t.begun s.episodes s.transfers s.scans (λ b. b) (ground arith)

reclaimed-Change : (s t : Journal) (name : Text) → apply_reclaimed s name ≡ ok t → Change s t
unfolding apply_reclaimed
reclaimed-Change s t name h = quiet s.begun s.episodes s.transfers s.scans (λ b. b) (ground arith)

scan-Change : (s t : Journal) → apply_scan s ≡ ok t → Change s t
unfolding apply_scan assert_budget
scan-Change s t h =
    quiet s.begun s.episodes s.transfers (s.scans + 1) (λ b. ground arith) (ground arith)

eof-Change :
    (s t : Journal) (i : Identity) (bytes : ℕ) (sha256 : Text) (chunks : ℕ)
    → apply_eof s i bytes sha256 chunks ≡ ok t
    → Change s t
unfolding apply_eof
eof-Change s t i bytes sha256 chunks h =
    quiet s.begun s.episodes s.transfers s.scans (λ b. b) (ground arith)

module _ (is_instant : Text → Bool) where
  episode-Change :
      (s t : Journal) (key at : Text) → apply_episode is_instant s key at ≡ ok t → Change s t
  unfolding apply_episode
  episode-Change s t key at h = quiet s.begun t.episodes s.transfers s.scans (λ b. b) (ground arith)

  transfer-Change :
      (s t : Journal) (key : Text) (phase : TransferPhase) (at : Text)
      → apply_transfer is_instant s key phase at ≡ ok t
      → Change s t
  unfolding apply_transfer
  transfer-Change s t key phase at h =
      quiet s.begun s.episodes t.transfers s.scans (λ b. b) (ground arith)

  pub apply-Change : (s t : Journal) (e : Entry) → Inv s → apply is_instant s e ≡ ok t → Change s t
  unfolding apply
  apply-Change s t (begin i) v h = begin-Change s t i h
  apply-Change s t (intent i) v h = intent-Change s t i h
  apply-Change s t (candidate name o) v h = candidate-Change s t name o h
  apply-Change s t (selected name o) v h = selected-Change s t name o v h
  apply-Change s t (verify name) v h = verify-Change s t name h
  apply-Change s t (reclaimed name) v h = reclaimed-Change s t name h
  apply-Change s t (episode key at) v h = episode-Change s t key at h
  apply-Change s t (transfer key phase at) v h = transfer-Change s t key phase at h
  apply-Change s t scan v h = scan-Change s t h
  apply-Change s t (eof i bytes sha256 chunks) v h = eof-Change s t i bytes sha256 chunks h
