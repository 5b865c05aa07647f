-- ===== src/Upload/Sealed/Storing.antt =====
-- `uploadSealedBackupV2Object` as a whole, however it ends.
use oracle_free_arch_vps.Base.{Bool, List, Result, Text, ℕ}
use oracle_free_arch_vps.Contract.Refs.{ObjectRef}
use oracle_free_arch_vps.Contract.Slots.{SealedSlot}
use oracle_free_arch_vps.Upload.Records.{Identity}
use oracle_free_arch_vps.Upload.Operations.{Journal}
use oracle_free_arch_vps.Upload.Session.{Context, Event, Session, start_session}
use oracle_free_arch_vps.Upload.Sealed.{upload_sealed_object}
use oracle_free_arch_vps.Upload.Sealed.Selecting.{Ended, IsWithin}

module _ (is_instant : Text → Bool) (instant_ms : Text → ℕ) (iso : ℕ → Text) {W : Type 0}
    (context : Context W) (i : Identity) (slot : SealedSlot) (ordinal offset : ℕ) where
  abbrev Total : ℕ → List Event → Type 0
  Total = IsWithin is_instant instant_ms iso context i slot ordinal offset

  abbrev Stored : ℕ → ObjectRef → List Event → Type 0
  Stored = Ended is_instant instant_ms iso context i slot ordinal offset

  module _ (w : W) (journal : Journal) where
    abbrev outcome : Result ObjectRef × Session W
    outcome =
        upload_sealed_object is_instant instant_ms iso context i slot ordinal offset
          (start_session w journal)
