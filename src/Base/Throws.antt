-- ===== src/Base/Throws.antt =====
-- Code that may throw: a value, or the message of the error.
use Prim.Native.String.{String}
use mathlib.Core.Path.{◌≡◌, refl}
use mathlib.Core.Bool.{Bool, true, false}
use mathlib.Core.Logic.{◌⊎◌, inl, inr}
use mathlib.Core.Option.{Option, none, some}
use mathlib.Core.List.{List, [], ◌∷◌}

pub data Result {ℓ} (A : Type ℓ) : Type ℓ where
  ok : A → Result A
  err : String → Result A

infixl 5 ◌>>=◌ ◌>>◌
-- Statements after one that may throw: its error ends the function.
abbrev pub ◌>>=◌ {κ μ} : {X : Type κ} {Y : Type μ} → Result X → (X → Result Y) → Result Y
err message >>= next = err message
ok value >>= next = next value

abbrev pub ◌>>◌ {κ μ} : {X : Type κ} {Y : Type μ} → Result X → Result Y → Result Y
err message >> next = err message
ok value >> next = next

-- `if (!b) fail(e)`.
abbrev pub require : Bool → String → Result (Unit {0})
require true e = ok tt
require false e = err e

abbrev pub or_fail {ℓ} : {A : Type ℓ} → Option A → String → Result A
or_fail none e = err e
or_fail (some a) e = ok a

-- An array's `map` with a callback that may throw.
abbrev pub map_result {κ μ} : {A : Type κ} {B : Type μ} → (A → Result B) → List A → Result (List B)
map_result f [] = ok []
map_result f (x ∷ xs) = f x >>= λ y. map_result f xs >>= λ ys. ok (y ∷ ys)

pub Result-cases {ℓ} :
    {A : Type ℓ} (r : Result A) → ((a : A) × (r ≡ ok a)) ⊎ ((e : String) × (r ≡ err e))
Result-cases (ok a) = inl (a, refl)
Result-cases (err e) = inr (e, refl)
