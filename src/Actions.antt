-- ===== src/Actions.antt =====
-- Asynchronous code that may throw, on an explicit state: the state comes back after an error too,
-- since what was written stays written. Triples state what a run from a precondition gives.
pub mod Triples
use oracle_free_arch_vps.Base.{Result, err, ok}

abbrev pub Action {ℓ κ} : Type ℓ → Type κ → Type (ℓ ⊔ κ)
Action S A = S → Result A × S

module _ {ℓ κ} {S : Type ℓ} {A : Type κ} where
  abbrev pub pure : A → Action S A
  pure a s = (ok a, s)

  -- Code that does not touch the state.
  abbrev pub lift : Result A → Action S A
  lift r s = (r, s)

  abbrev pub gets : (S → A) → Action S A
  gets f s = (ok (f s), s)

abbrev pub modify {ℓ} : {S : Type ℓ} → (S → S) → Action S (Unit {0})
modify f s = (ok tt, f s)

module _ {ℓ κ μ} {S : Type ℓ} {A : Type κ} {B : Type μ} where
  unfoldable pub continue : (A → Action S B) → Result A × S → Result B × S
  continue f (ok a, s) = f a s
  continue f (err e, s) = (err e, s)

infixl 5 ◌>>=◌ ◌>>◌
abbrev pub ◌>>=◌ {ℓ κ μ} :
    {S : Type ℓ} {A : Type κ} {B : Type μ} → Action S A → (A → Action S B) → Action S B
◌>>=◌ m f s = continue f (m s)

abbrev pub ◌>>◌ {ℓ κ μ} :
    {S : Type ℓ} {A : Type κ} {B : Type μ} → Action S A → Action S B → Action S B
m >> k = m >>= λ a. k

abbrev pub caught {ℓ κ} : {S : Type ℓ} {A : Type κ} → Result A × S → Result (Result A) × S
caught (r, s) = (ok r, s)

-- `try`: the error of the action as a value.
abbrev pub try {ℓ κ} : {S : Type ℓ} {A : Type κ} → Action S A → Action S (Result A)
try m s = caught (m s)
