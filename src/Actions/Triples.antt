-- ===== src/Actions/Triples.antt =====
-- What holds of the state when an action returns and when it throws: `After`, and its rules.
use oracle_free_arch_vps.Base.{
  Bool, Result, String, arith, err, false, if◌then◌else◌, ok, refl, subst, true, ◌≡◌,
}
use oracle_free_arch_vps.Actions.{Action, caught, continue, lift}

module _ {ℓ κ μ} {S : Type ℓ} {A : Type κ} where
  unfoldable pub After : (A → S → Type μ) → (S → Type μ) → Result A × S → Type μ
  After Q E (ok a, s) = Q a s
  After Q E (err e, s) = E s

  pub After-ok : (Q : A → S → Type μ) (E : S → Type μ) (a : A) (s : S) → Q a s → After Q E (ok a, s)
  unfolding After
  After-ok Q E a s q = q

  pub After-err :
      (Q : A → S → Type μ) (E : S → Type μ) (e : String) (s : S) → E s → After Q E (err e, s)
  unfolding After
  After-err Q E e s q = q

  pub After-mono :
      (Q R : A → S → Type μ) (E : S → Type μ) (x : Result A × S)
      → After Q E x
      → ((a : A) (s : S) → Q a s → R a s)
      → After R E x
  unfolding After
  After-mono Q R E (ok a, s) q weaken = weaken a s q
  After-mono Q R E (err e, s) q weaken = q

  pub After-map :
      (Q R : A → S → Type μ) (E F : S → Type μ) (x : Result A × S)
      → After Q E x
      → ((a : A) (s : S) → Q a s → R a s)
      → ((s : S) → E s → F s)
      → After R F x
  unfolding After
  After-map Q R E F (ok a, s) q f g = f a s q
  After-map Q R E F (err m, s) q f g = g s q

  -- What holds in either case.
  pub After-both :
      (Q : A → S → Type μ) (E : S → Type μ) (x : Result A × S)
      → After Q E x
      → ((a : A) (s : S) → Q a s → E s)
      → E x.1
  unfolding After
  After-both Q E (ok a, s) q weaken = weaken a s q
  After-both Q E (err m, s) q weaken = q

  -- What a run that is known to return gives.
  pub After-returned :
      (Q : A → S → Type μ) (E : S → Type μ) (x : Result A × S) (a : A)
      → After Q E x
      → x.0 ≡ ok a
      → Q a x.1
  unfolding After
  After-returned Q E (ok b, s) a q e = let same : b ≡ a = ground arith in subst (λ y. Q y s) same q
  After-returned Q E (err m, s) a q e = absurd (ground arith)

  pub After-if :
      (Q : A → S → Type μ) (E : S → Type μ) (b : Bool) (m n : Action S A) (s : S)
      → (b ≡ true → After Q E (m s))
      → (b ≡ false → After Q E (n s))
      → After Q E ((if b then m else n) s)
  After-if Q E true m n s yes_case no_case = yes_case refl
  After-if Q E false m n s yes_case no_case = no_case refl

module _ {ℓ μ} {S : Type ℓ} {A : Type μ} where
  pub After-lift :
      (Q : S → Type μ) (E : S → Type μ) (r : Result A) (s : S)
      → Q s
      → E s
      → After (λ a t. (r ≡ ok a) × Q t) E (lift r s)
  unfolding After
  After-lift Q E (ok a) s q e = (refl, q)
  After-lift Q E (err m) s q e = e

module _ {ℓ κ ν μ} {S : Type ℓ} {A : Type κ} {B : Type ν} where
  -- The rule of `;`: what the first action gives is what the second needs.
  pub After-continue :
      (Q : A → S → Type μ) (R : B → S → Type μ) (E : S → Type μ) (f : A → Action S B)
      (x : Result A × S)
      → After Q E x
      → ((a : A) (s : S) → Q a s → After R E (f a s))
      → After R E (continue f x)
  unfolding After continue
  After-continue Q R E f (ok a, s) q next = next a s q
  After-continue Q R E f (err e, s) q next = q

  -- An action that is known to have returned.
  pub After-next :
      (R : B → S → Type μ) (E : S → Type μ) (f : A → Action S B) (a : A) (s : S)
      → After R E (f a s)
      → After R E (continue f (ok a, s))
  unfolding continue
  After-next R E f a s q = q

  pub After-thrown :
      (R : B → S → Type μ) (E : S → Type μ) (f : A → Action S B) (e : String) (s : S)
      → E s
      → After R E (continue f (err e, s))
  unfolding After continue
  After-thrown R E f e s q = q

module _ {ℓ κ μ} {S : Type ℓ} {A : Type κ} where
  abbrev pub Caught : (A → S → Type μ) → (S → Type μ) → Result A → S → Type μ
  Caught Q E (ok a) = Q a
  Caught Q E (err e) = E

  -- The rule of `try`.
  pub After-caught :
      (Q : A → S → Type μ) (E F : S → Type μ) (x : Result A × S)
      → After Q E x
      → After (Caught Q E) F (caught x)
  unfolding After
  After-caught Q E F (ok a, s) q = q
  After-caught Q E F (err e, s) q = q
