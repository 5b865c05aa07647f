-- ===== src/Spool/Lives.antt =====
-- A spool over all its calls.
use oracle_free_arch_vps.Base.{Text, ℕ}
use oracle_free_arch_vps.Spool.{Bytes, Spool, Storage}
use oracle_free_arch_vps.Spool.Turns.{Lossless}

module _ {W : Type 0} (storage : Storage W) (sha1 sha256 : Bytes → Text) (chunk_bytes : ℕ) where
  abbrev IsLossless : Spool W → Type 0
  IsLossless = Lossless storage chunk_bytes sha1 sha256
