-- ===== src/Tar/Paths/Clean.antt =====
-- Normal paths: what `normalizeTarPath` returns, and that it leaves such a path alone.
use oracle_free_arch_vps.Base.{
  All, Bool, Bool-cases, IfSome, List, Option, Result-cases, [], arith, false, inl, inr, is_some,
  none, ok, refl, some, subst, true, ℕ, ◌++◌, ◌==◌, ◌∷◌, ◌≡◌,
}
use oracle_free_arch_vps.Inventory.{Bytes}
use oracle_free_arch_vps.Tar.Paths.{
  Part, add_part, add_parts, down, has_zero, is_absolute, join, normalize, part_kind, parts,
  reversed, skip, start_at, up,
}

-- No byte of the part is a slash or a zero.
abbrev pub NoSlash : Bytes → Type 0
NoSlash [] = Unit
NoSlash (c ∷ s) = (c == b'/' ≡ false) × (c == 0 ≡ false) × NoSlash s

-- A component of a normal path: not empty, not `.`, not `..`, with no slash in it.
abbrev pub IsComponent : Bytes → Type 0
IsComponent p = (part_kind p ≡ down) × NoSlash p

NoSlash-append :
    (p : Bytes) (d : ℕ) → NoSlash p → (d == b'/' ≡ false) → (d == 0 ≡ false) → NoSlash (p ++ d ∷ [])
NoSlash-append [] d a b z = (b, z, tt)
NoSlash-append (x ∷ xs) d a b z = (a.0, a.1, NoSlash-append xs d a.2 b z)

pub parts-NoSlash :
    (part path : Bytes) → NoSlash part → has_zero path ≡ false → All NoSlash (parts part path)
unfolding parts has_zero
parts-NoSlash part [] h z = (h, tt)
parts-NoSlash part (c ∷ s) h z = elim (Bool-cases (c == b'/')) [
  | inl e ↦ rw (e, parts) (h, parts-NoSlash [] s tt (ground arith))
  | inr e ↦
      rw (e, parts)
        (parts-NoSlash (part ++ c ∷ []) s (NoSlash-append part c h e (ground arith)) (ground arith))
]

add_part-IsComponent :
    (targets : Bool) (k : Part) (p : Bytes) (stack next : List Bytes)
    → part_kind p ≡ k
    → NoSlash p
    → All IsComponent stack
    → add_part targets k p stack ≡ ok next
    → All IsComponent next
unfolding add_part
add_part-IsComponent targets skip p stack next k n a h = subst (All IsComponent) (ground arith) a
add_part-IsComponent targets down p stack next k n a h =
    let same : p ∷ stack ≡ next = ground arith in subst (All IsComponent) same ((k, n), a)
add_part-IsComponent false up p stack next k n a h = absurd (ground arith)
add_part-IsComponent true up p [] next k n a h = absurd (ground arith)
add_part-IsComponent true up p (top ∷ stack) next k n a h =
    subst (All IsComponent) (ground arith) a.1

pub add_parts-IsComponent :
    (targets : Bool) (ps stack next : List Bytes)
    → All NoSlash ps
    → All IsComponent stack
    → add_parts targets ps stack ≡ ok next
    → All IsComponent next
unfolding add_parts
add_parts-IsComponent targets [] stack next n a h = subst (All IsComponent) (ground arith) a
add_parts-IsComponent targets (p ∷ ps) stack next n a h =
    elim (Result-cases (add_part targets (part_kind p) p stack)) [
      | inr (e, q) ↦ absurd (ground arith)
      | inl (u, q) ↦
          add_parts-IsComponent targets ps u next n.1
            (add_part-IsComponent targets (part_kind p) p stack u refl n.0 a q) (ground arith)
    ]

reversed-IsComponent :
    (ps out : List Bytes)
    → All IsComponent ps
    → All IsComponent out
    → All IsComponent (reversed ps out)
unfolding reversed
reversed-IsComponent [] out a b = b
reversed-IsComponent (p ∷ ps) out a b = reversed-IsComponent ps (p ∷ out) a.1 (a.0, b)

-- The components of a normal path, between slashes.
abbrev pub IsNormal : Bytes → Type 0
IsNormal q = (cs : List Bytes) × All IsComponent cs × (q ≡ join cs)

start_at-IsComponent :
    (path : Bytes) (parent : Option Bytes) (first : List Bytes)
    → IfSome (λ p. has_zero p ≡ false) parent
    → start_at path parent ≡ ok first
    → All IsComponent first
unfolding start_at
start_at-IsComponent path none first z h =
    let same : [] ≡ first = ground arith in subst (All IsComponent) same tt
start_at-IsComponent path (some p) first z h = elim (Bool-cases (is_absolute path)) [
  | inl e ↦ let same : [] ≡ first = ground arith in subst (All IsComponent) same tt
  | inr e ↦
      add_parts-IsComponent false (parts [] p) [] first (parts-NoSlash [] p tt z) tt (ground arith)
]

pub normalize-IsNormal :
    (path : Bytes) (parent : Option Bytes) (q : Bytes)
    → IfSome (λ p. has_zero p ≡ false) parent
    → normalize path parent ≡ ok q
    → IsNormal q
unfolding normalize
normalize-IsNormal path parent q z h = elim (Result-cases (start_at path parent)) [
  | inr (e, f) ↦ absurd (ground arith)
  | inl (first, f) ↦ elim (Result-cases (add_parts (is_some parent) (parts [] path) first)) [
    | inr (e, g) ↦ absurd (ground arith)
    | inl (stack, g) ↦
        let clean = parts-NoSlash [] path tt (ground arith) in
        let from = start_at-IsComponent path parent first z f in
        (
          reversed stack [],
          reversed-IsComponent stack []
              (add_parts-IsComponent (is_some parent) _ first stack clean from g) tt,
          ground arith,
        )
  ]
]
