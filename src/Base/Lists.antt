-- ===== src/Base/Lists.antt =====
-- Lists measured by native numbers, under the names of the library.
use Prim.Native.Nat.{ℕ, ◌-◌, ◌<◌, ◌≤◌, zero, suc, ◌+◌}
use mathlib.Core.Path.{ap, refl, ◌≡◌, sym, subst}
use mathlib.Core.Logic.{◌⊎◌, inl, inr}
use mathlib.Core.List.{List, [], ◌∷◌, ◌++◌}
use mathlib.Core.Option.{Option, none, some}
use native.Mathlib.Omega.{arith}

module _ {ℓ} {A : Type ℓ} where
  abbrev pub length : List A → ℕ
  length [] = 0
  length (x ∷ xs) = suc (length xs)

  abbrev pub get_elem? : List A → ℕ → Option A
  get_elem? [] i = none
  get_elem? (x ∷ xs) zero = some x
  get_elem? (x ∷ xs) (suc i) = get_elem? xs i

  abbrev pub take : ℕ → List A → List A
  take zero xs = []
  take (suc n) [] = []
  take (suc n) (x ∷ xs) = x ∷ take n xs

  abbrev pub drop : ℕ → List A → List A
  drop zero xs = xs
  drop (suc n) [] = []
  drop (suc n) (x ∷ xs) = drop n xs

  pub length-append : (xs ys : List A) → length (xs ++ ys) ≡ length xs + length ys
  length-append [] ys = omega arith
  length-append (x ∷ xs) ys = omega (arith, length-append xs ys)

pub take-append-drop {ℓ} : {A : Type ℓ} (n : ℕ) (xs : List A) → take n xs ++ drop n xs ≡ xs
take-append-drop zero xs = refl
take-append-drop (suc n) [] = refl
take-append-drop (suc n) (x ∷ xs) = ap (λ t. x ∷ t) (take-append-drop n xs)

pub length-take-le {ℓ} : {A : Type ℓ} (n : ℕ) (xs : List A) → length (take n xs) ≤ n
length-take-le zero xs = omega arith
length-take-le (suc n) [] = omega arith
length-take-le (suc n) (x ∷ xs) = omega (arith, length-take-le n xs)

pub length-take {ℓ} : {A : Type ℓ} (n : ℕ) (xs : List A) → n ≤ length xs → length (take n xs) ≡ n
length-take zero xs le = omega arith
length-take (suc n) [] le = omega arith
length-take (suc n) (x ∷ xs) le = omega (arith, length-take n xs (omega arith))

pub length-drop {ℓ} : {A : Type ℓ} (n : ℕ) (xs : List A) → length (drop n xs) ≡ length xs - n
length-drop zero xs = omega arith
length-drop (suc n) [] = omega arith
length-drop (suc n) (x ∷ xs) = omega (arith, length-drop n xs)

-- Two lists of one length whose elements are related, each to the one at its position.
pub data Each {A B : Type 0} (R : A → B → Type 0) : List A → List B → Type 0 where
  each_none : Each R [] []
  each_next :
      {x : A} {y : B} {xs : List A} {ys : List B} → R x y → Each R xs ys → Each R (x ∷ xs) (y ∷ ys)

-- The sum of a measure over a list.
abbrev pub sum_by {ℓ} : {A : Type ℓ} → (A → ℕ) → List A → ℕ
sum_by f [] = 0
sum_by f (x ∷ xs) = f x + sum_by f xs

-- A predicate of every number below a bound.
abbrev pub AllBelow {κ} : (ℕ → Type κ) → ℕ → Type κ
AllBelow P zero = Unit
AllBelow P (suc n) = AllBelow P n × P n

pub all_below {κ} : (P : ℕ → Type κ) (m n : ℕ) → n ≤ m → ((k : ℕ) → k < m → P k) → AllBelow P n
all_below P m zero le h = tt
all_below P m (suc n) le h = (all_below P m n (omega arith) h, h n (omega arith))

-- A predicate of every element, by recursion, so that it computes to a tuple.
abbrev pub All {ℓ κ} : {A : Type ℓ} → (A → Type κ) → List A → Type κ
All P [] = Unit
All P (x ∷ xs) = P x × All P xs

pub All-append {ℓ κ} :
    {A : Type ℓ} (P : A → Type κ) (xs ys : List A) → All P xs → All P ys → All P (xs ++ ys)
All-append P [] ys hx hy = hy
All-append P (x ∷ xs) ys hx hy = (hx.0, All-append P xs ys hx.1 hy)

pub All-append_right {ℓ κ} :
    {A : Type ℓ} (P : A → Type κ) (xs ys : List A) → All P (xs ++ ys) → All P ys
All-append_right P [] ys a = a
All-append_right P (x ∷ xs) ys a = All-append_right P xs ys a.1

pub All-append_left {ℓ κ} :
    {A : Type ℓ} (P : A → Type κ) (xs ys : List A) → All P (xs ++ ys) → All P xs
All-append_left P [] ys a = tt
All-append_left P (x ∷ xs) ys a = (a.0, All-append_left P xs ys a.1)

-- Membership, by recursion.
abbrev pub Member : {A : Type 0} → A → List A → Type 0
Member a [] = ⊥
Member a (x ∷ xs) = (a ≡ x) ⊎ Member a xs

pub Member-All : {A : Type 0} (P : A → Type 0) (a : A) (xs : List A) → All P xs → Member a xs → P a
Member-All P a [] h m = elim m [ ]
Member-All P a (x ∷ xs) h (inl e) = subst P (sym e) h.0
Member-All P a (x ∷ xs) h (inr m) = Member-All P a xs h.1 m
