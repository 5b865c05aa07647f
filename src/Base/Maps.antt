-- ===== src/Base/Maps.antt =====
-- A `Map` with string keys, in the order of insertion; a `Set` is a list of its members.
use Prim.Native.Nat.{ℕ, ◌+◌}
use mathlib.Core.Path.{◌≡◌, refl, sym, subst}
use mathlib.Core.Logic.{inl, inr}
use mathlib.Core.Bool.{Bool, true, false, ◌||◌}
use mathlib.Core.Option.{Option, none, some}
use mathlib.Core.List.{List, [], ◌∷◌}
use native.Mathlib.Omega.{arith}
use oracle_free_arch_vps.Base.Lists.{All, length, sum_by}
use oracle_free_arch_vps.Base.Tests.{Bool-cases, if◌then◌else◌}
use oracle_free_arch_vps.Base.Texts.{Text, text_eq, text_eq_refl, text_eq→eq}

abbrev pub is_some {ℓ} : {A : Type ℓ} → Option A → Bool
is_some none = false
is_some (some a) = true

-- A property of what an option holds.
abbrev pub IfSome {ℓ κ} : {A : Type ℓ} → (A → Type κ) → Option A → Type κ
IfSome P none = Unit
IfSome P (some a) = P a

abbrev pub member : Text → List Text → Bool
member k [] = false
member k (j ∷ ks) = text_eq j k || member k ks

module _ {ℓ} {V : Type ℓ} where
  unfoldable pub lookup : Text → List (Text × V) → Option V
  lookup k [] = none
  lookup k ((j, v) ∷ m) = if text_eq j k then some v else lookup k m

  -- `map.set(k, v)`: a new key goes to the end, an old one keeps its place.
  unfoldable pub insert : Text → V → List (Text × V) → List (Text × V)
  insert k v [] = (k, v) ∷ []
  insert k v ((j, w) ∷ m) = if text_eq j k then (j, v) ∷ m else (j, w) ∷ insert k v m

  pub lookup-insert :
      (k j : Text) (v : V) (m : List (Text × V))
      → lookup j (insert k v m) ≡ (if text_eq k j then some v else lookup j m)
  unfolding lookup insert
  lookup-insert k j v [] = refl
  lookup-insert k j v ((i, w) ∷ m) = elim (Bool-cases (text_eq i k)) [
    | inl same ↦ rw (same, insert, lookup) (rw (text_eq→eq i k same) (ground arith))
    | inr other ↦
        rw (other, insert, lookup)
          (rw (lookup-insert k j v m)
            (ground (arith, text_eq→eq i j, text_eq→eq k j, text_eq_refl j)))
  ]

  pub lookup-insert_self :
      (k : Text) (v : V) (m : List (Text × V)) → lookup k (insert k v m) ≡ some v
  lookup-insert_self k v m = rw (lookup-insert k k v m, text_eq_refl k)

  -- What holds of every entry holds of the one that is found.
  pub All-lookup {κ} :
      (P : Text → V → Type κ) (k : Text) (v : V) (m : List (Text × V))
      → All (λ e. P e.0 e.1) m
      → lookup k m ≡ some v
      → P k v
  unfolding lookup
  All-lookup P k v [] a h = absurd (ground arith)
  All-lookup P k v ((j, w) ∷ m) a h = elim (Bool-cases (text_eq j k)) [
    | inl same ↦
        let e : w ≡ v = ground arith in
        subst (λ x. P x v) (text_eq→eq j k same) (subst (λ x. P j x) e a.0)
    | inr other ↦ All-lookup P k v m a.1 (ground arith)
  ]

  pub All-insert {κ} :
      (P : Text → V → Type κ) (k : Text) (v : V) (m : List (Text × V))
      → All (λ e. P e.0 e.1) m
      → P k v
      → All (λ e. P e.0 e.1) (insert k v m)
  unfolding insert
  All-insert P k v [] a p = (p, tt)
  All-insert P k v ((j, w) ∷ m) a p = elim (Bool-cases (text_eq j k)) [
    | inl same ↦ rw (same, insert) (subst (λ x. P x v) (sym (text_eq→eq j k same)) p, a.1)
    | inr other ↦ rw (other, insert) (a.0, All-insert P k v m a.1 p)
  ]

  -- A new key adds its measure; a new value of the same measure changes nothing.
  pub sum_by-insert_new :
      (f : V → ℕ) (k : Text) (v : V) (m : List (Text × V))
      → lookup k m ≡ none
      → sum_by (λ e. f e.1) (insert k v m) ≡ sum_by (λ e. f e.1) m + f v
  unfolding lookup insert
  sum_by-insert_new f k v [] h = omega arith
  sum_by-insert_new f k v ((j, w) ∷ m) h = ground (arith, sum_by-insert_new f k v m)

  pub sum_by-insert_old :
      (f : V → ℕ) (k : Text) (v w : V) (m : List (Text × V))
      → lookup k m ≡ some w
      → f v ≡ f w
      → sum_by (λ e. f e.1) (insert k v m) ≡ sum_by (λ e. f e.1) m
  unfolding lookup insert
  sum_by-insert_old f k v w [] h e = absurd (ground arith)
  sum_by-insert_old f k v w ((j, u) ∷ m) h e = ground (arith, sum_by-insert_old f k v w m)

  pub length-insert_new :
      (k : Text) (v : V) (m : List (Text × V))
      → lookup k m ≡ none
      → length (insert k v m) ≡ length m + 1
  unfolding lookup insert
  length-insert_new k v [] h = omega arith
  length-insert_new k v ((j, w) ∷ m) h = ground (arith, length-insert_new k v m)

  pub length-insert_old :
      (k : Text) (v w : V) (m : List (Text × V))
      → lookup k m ≡ some w
      → length (insert k v m) ≡ length m
  unfolding lookup insert
  length-insert_old k v w [] h = absurd (ground arith)
  length-insert_old k v w ((j, u) ∷ m) h = ground (arith, length-insert_old k v w m)
