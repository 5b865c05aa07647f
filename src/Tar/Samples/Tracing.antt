-- ===== src/Tar/Samples/Tracing.antt =====
-- The way to a sample: it follows the links, ends at a path with no link, and is found with the fuel
-- that is given.
use oracle_free_arch_vps.Base.{
  List, Option-cases, Result-cases, [], append_assoc, arith, inl, inr, length, length-append,
  lookup, none, ok, some, subst, suc, sym, zero, ℕ, ◌++◌, ◌+◌, ◌<◌, ◌∙◌, ◌∷◌, ◌≡◌, ◌≤◌,
}
use oracle_free_arch_vps.Profile.{assert_budget, depth, limit}
use oracle_free_arch_vps.Inventory.{Bytes}
use oracle_free_arch_vps.Tar.Paths.{normalize}
use oracle_free_arch_vps.Tar.Samples.{Links, TarMember, follow, link_target, resolve_sample}

-- The way from a path to its content.
pub data Trace (links : Links) : Bytes → List Bytes → Bytes → Type 0 where
  arrived :
      {p key : Bytes}
      → normalize p none ≡ ok key
      → lookup key links ≡ none
      → Trace links p (p ∷ []) p
  linked :
      {p key q c : Bytes} {link : TarMember} {ps : List Bytes}
      → normalize p none ≡ ok key
      → lookup key links ≡ some link
      → link_target p link ≡ ok q
      → Trace links q ps c
      → Trace links p (p ∷ ps) c

follow-Trace :
    (fuel : ℕ) (links : Links) (seen chain : List Bytes) (p c : Bytes) (out : List Bytes)
    → follow fuel links seen chain p ≡ ok (c, out)
    → (ps : List Bytes) × (out ≡ chain ++ ps) × Trace links p ps c × (length out ≤ limit depth)
unfolding follow assert_budget
follow-Trace zero links seen chain p c out h = absurd (ground arith)
follow-Trace (suc fuel) links seen chain p c out h = elim (Result-cases (normalize p none)) [
  | inr (e, k) ↦ absurd (ground arith)
  | inl (key, k) ↦ elim (Option-cases (lookup key links)) [
    | inl l ↦
        let same : p ≡ c = ground arith in
        (
          p ∷ [],
          ground arith,
          subst (λ x. Trace links p (p ∷ []) x) same (arrived k l),
          ground arith,
        )
    | inr (link, l) ↦ elim (Result-cases (link_target p link)) [
      | inr (e, t) ↦ absurd (ground arith)
      | inl (q, t) ↦
          let (ps, e, trace, short) =
            follow-Trace fuel links (key ∷ seen) (chain ++ p ∷ []) q c out (ground arith) in
          (p ∷ ps, e ∙ append_assoc chain (p ∷ []) ps, linked k l t trace, short)
    ]
  ]
]

-- Any two amounts of fuel beyond the depth give the same result.
follow_enough :
    (f g : ℕ) (links : Links) (seen chain : List Bytes) (p : Bytes)
    → length chain ≤ limit depth
    → limit depth < length chain + f
    → limit depth < length chain + g
    → follow f links seen chain p ≡ follow g links seen chain p
unfolding follow assert_budget
follow_enough zero g links seen chain p l h k = absurd (omega arith)
follow_enough (suc f) zero links seen chain p l h k = absurd (omega arith)
follow_enough (suc f) (suc g) links seen chain p l h k = elim (Result-cases (normalize p none)) [
  | inr (e, n) ↦ ground arith
  | inl (key, n) ↦ elim (Option-cases (lookup key links)) [
    | inl e ↦ ground arith
    | inr (link, e) ↦ elim (Result-cases (link_target p link)) [
      | inr (m, t) ↦ ground arith
      | inl (q, t) ↦
          let longer = length-append chain (p ∷ []) in
          ground (arith, longer, follow_enough f g links (key ∷ seen) (chain ++ p ∷ []) q)
    ]
  ]
]

-- `resolveTarSample` ends within 257 turns: any fuel beyond the depth of 256 gives its result,
-- which is a content or one of its own errors.
pub resolve_sample_terminates :
    (path current : Bytes) (links : Links) (fuel : ℕ)
    → 256 < fuel
    → normalize path none ≡ ok current
    → resolve_sample path links ≡ follow fuel links [] [] current
unfolding resolve_sample
resolve_sample_terminates path current links fuel enough n =
    rw n (follow_enough 257 fuel links [] [] current (omega arith) (omega arith) (omega arith))

-- When `resolveTarSample` gives a content, the way to it starts at the sample's normal path, follows
-- the links, ends at a path that has no link, and has at most 256 paths.
pub resolve_sample-Trace :
    (path content : Bytes) (links : Links) (chain : List Bytes)
    → resolve_sample path links ≡ ok (content, chain)
    → (current : Bytes) × (normalize path none ≡ ok current)
      × Trace links current chain content
      × (length chain ≤ 256)
unfolding resolve_sample
resolve_sample-Trace path content links chain h = elim (Result-cases (normalize path none)) [
  | inr (e, n) ↦ absurd (ground arith)
  | inl (current, n) ↦
      let (ps, e, trace, short) =
        follow-Trace 257 links [] [] current content chain (ground arith) in
      (current, n, subst (λ c. Trace links current c content) (sym e) trace, short)
]
