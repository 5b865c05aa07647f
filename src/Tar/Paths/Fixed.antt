-- ===== src/Tar/Paths/Fixed.antt =====
-- A normal path is left as it is by `normalizeTarPath`.
use oracle_free_arch_vps.Base.{
  All, Bool, IfSome, List, Option, [], append-nil, append_assoc, arith, false, none, ok, refl,
  subst, sym, ◌++◌, ◌∷◌, ◌≡◌,
}
use oracle_free_arch_vps.Inventory.{Bytes}
use oracle_free_arch_vps.Tar.Paths.{
  add_part, add_parts, has_zero, is_absolute, join, normalize, parts, reversed, start_at,
}
use oracle_free_arch_vps.Tar.Paths.Clean.{IsComponent, IsNormal, NoSlash, normalize-IsNormal}

-- A component goes whole before the next slash.
parts-append : (part p rest : Bytes) → NoSlash p → parts part (p ++ rest) ≡ parts (part ++ p) rest
unfolding parts
parts-append part [] rest h = rw (append-nil part)
parts-append part (c ∷ p) rest h =
    rw (h.0, parts) (rw (parts-append (part ++ c ∷ []) p rest h.2, append_assoc part (c ∷ []) p))

parts-join :
    (c : Bytes) (cs : List Bytes)
    → NoSlash c
    → All IsComponent cs
    → parts [] (join (c ∷ cs)) ≡ c ∷ cs
unfolding parts join
parts-join c [] k a =
    let whole : parts [] (c ++ []) ≡ parts c [] = parts-append [] c [] k in
    subst (λ t. parts [] t ≡ c ∷ []) (append-nil c) whole
parts-join c (d ∷ cs) k a =
    rw (parts-append [] c (b'/' ∷ join (d ∷ cs)) k) (rw (parts-join d cs a.0.1 a.1))

has_zero-append : (p q : Bytes) → NoSlash p → has_zero (p ++ q) ≡ has_zero q
unfolding has_zero
has_zero-append [] q h = refl
has_zero-append (c ∷ p) q h = rw (h.1, has_zero-append p q h.2)

has_zero-join : (cs : List Bytes) → All IsComponent cs → has_zero (join cs) ≡ false
unfolding has_zero join
has_zero-join [] a = refl
has_zero-join (c ∷ []) a =
    subst (λ t. has_zero t ≡ false) (append-nil c) (has_zero-append c [] a.0.1)
has_zero-join (c ∷ d ∷ cs) a =
    rw (has_zero-append c (b'/' ∷ join (d ∷ cs)) a.0.1) (has_zero-join (d ∷ cs) a.1)

add_parts-down :
    (targets : Bool) (cs stack : List Bytes)
    → All IsComponent cs
    → add_parts targets cs stack ≡ ok (reversed cs stack)
unfolding add_parts add_part reversed
add_parts-down targets [] stack a = refl
add_parts-down targets (c ∷ cs) stack a = rw a.0.0 (add_parts-down targets cs (c ∷ stack) a.1)

reversed-reversed : (xs ys zs : List Bytes) → reversed (reversed xs ys) zs ≡ reversed ys (xs ++ zs)
unfolding reversed
reversed-reversed [] ys zs = refl
reversed-reversed (x ∷ xs) ys zs = reversed-reversed xs (x ∷ ys) zs

first-not-slash :
    (c : Bytes) (cs : List Bytes) → IsComponent c → is_absolute (join (c ∷ cs)) ≡ false
unfolding join
first-not-slash [] cs k = absurd (ground (arith, k.0))
first-not-slash (x ∷ c) [] k = k.1.0
first-not-slash (x ∷ c) (d ∷ cs) k = k.1.0

join-fixed : (cs : List Bytes) → All IsComponent cs → normalize (join cs) none ≡ ok (join cs)
unfolding normalize start_at
join-fixed [] a = unfold join parts add_parts add_part reversed has_zero in refl
join-fixed (c ∷ cs) a =
    rw
      (
        has_zero-join (c ∷ cs) a,
        first-not-slash c cs a.0,
        parts-join c cs a.0.1 a.1,
        add_parts-down false (c ∷ cs) [] a,
        reversed-reversed (c ∷ cs) [] [],
        append-nil cs,
      )
      (unfold reversed in refl)

-- What `normalizeTarPath` returns, of a member's path or of a link's target below a parent without
-- zero bytes, is components between slashes, none of them empty, `.` or `..`; and it is a path that
-- `normalizeTarPath` leaves as it is.
pub normalize-normalize :
    (path : Bytes) (parent : Option Bytes) (q : Bytes)
    → IfSome (λ p. has_zero p ≡ false) parent
    → normalize path parent ≡ ok q
    → IsNormal q × (normalize q none ≡ ok q)
normalize-normalize path parent q z h =
    let (cs, a, e) = normalize-IsNormal path parent q z h in
    ((cs, a, e), subst (λ t. normalize t none ≡ ok t) (sym e) (join-fixed cs a))
