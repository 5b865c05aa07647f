-- ===== src/Tar/Samples.antt =====
-- scripts/backup-tar-consumers.ts: `resolveTarSample`, from a sample's path along the links. The key
-- of a path is its normal form, which the code writes in hexadecimal.
pub mod Tracing
use oracle_free_arch_vps.Base.{
  Bool, List, Option, Result, [], err, false, if◌then◌else◌, length, lookup, member, none, not, ok,
  or_fail, require, some, suc, zero, ℕ, ◌++◌, ◌+◌, ◌==◌, ◌>>=◌, ◌>>◌, ◌||◌, ◌∷◌,
}
use oracle_free_arch_vps.Profile.{assert_budget, depth, limit}
use oracle_free_arch_vps.Inventory.{Bytes}
use oracle_free_arch_vps.Tar.Paths.{normalize}

-- NativeTarMember; `kind` is the code of its `type`.
pub record TarMember : Type 0 where
  pub path : Bytes
  pub kind : ℕ
  pub size : ℕ
  pub target : Option Bytes
  pub metadata : Bytes

abbrev pub Links : Type 0
Links = List (Bytes × TarMember)

unfoldable pub has_slash : Bytes → Bool
has_slash [] = false
has_slash (c ∷ s) = c == b'/' || has_slash s

-- What stands before the last slash.
unfoldable pub parent_of : Bytes → Bytes
parent_of [] = []
parent_of (c ∷ s) = if has_slash s then c ∷ parent_of s else []

-- Where a link leads from this path: a symbolic link from its directory, a hard link from the root.
unfoldable pub link_target : Bytes → TarMember → Result Bytes
link_target current link = do
  target ← or_fail link.target "TypeError"
  normalize target (if link.kind == b'l' then some (parent_of current) else none)

-- The loop, with fuel for the paths that are left.
unfoldable pub follow : ℕ → Links → List Bytes → List Bytes → Bytes → Result (Bytes × List Bytes)
follow zero links seen chain current = err "out of fuel"
follow (suc fuel) links seen chain current = normalize current none >>= λ key.
    require (not (member key seen)) "Stream tar rejected: sample link cycle"
    >> assert_budget depth (length (chain ++ current ∷ []))
    >> elim (lookup key links) [
      | none ↦ ok (current, chain ++ current ∷ [])
      | some link ↦ link_target current link >>= λ next.
          follow fuel links (key ∷ seen) (chain ++ current ∷ []) next
    ]

-- The content's path, and the paths on the way to it.
unfoldable pub resolve_sample : Bytes → Links → Result (Bytes × List Bytes)
resolve_sample path links =
    normalize path none >>= λ current. follow (limit depth + 1) links [] [] current
