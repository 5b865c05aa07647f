-- ===== src/Spool/Writing.antt =====
-- `writeBackupV2All`: it ends, and it hands every byte to the writer once, in order.
use oracle_free_arch_vps.Base.{
  Bool, Result, [], arith, drop, err, false, leb, length, length-drop, ltb, ok, refl, require, suc,
  true, zero, ℕ, ◌&&◌, ◌∷◌, ◌≡◌, ◌≤◌,
}
use oracle_free_arch_vps.Actions.{Action, continue, lift, ◌>>◌}
use oracle_free_arch_vps.Spool.{
  Bytes, Spool, Storage, accept, call, spool_error, write_all, write_rest,
}

continue-cong :
    {S A B : Type 0} (f g : A → Action S B) (x : Result A × S)
    → ((a : A) (s : S) → f a s ≡ g a s)
    → continue f x ≡ continue g x
unfolding continue
continue-cong f g (ok a, s) same = same a s
continue-cong f g (err e, s) same = refl

module _ {W : Type 0} (storage : Storage W) where
  -- The rest of a turn, when the writer has answered.
  answered_same :
      (f g : Action (Spool W) (Unit {0})) (test : Bool) (s : Spool W)
      → (test ≡ true → (t : Spool W) → f t ≡ g t)
      → (lift (require test spool_error) >> f) s ≡ (lift (require test spool_error) >> g) s
  unfolding continue
  answered_same f g true s same = same refl s
  answered_same f g false s same = refl

  write_rest_enough :
      (fuel more : ℕ) (bytes : Bytes) (s : Spool W)
      → length bytes ≤ fuel
      → length bytes ≤ more
      → write_rest storage fuel bytes s ≡ write_rest storage more bytes s
  unfolding write_rest
  write_rest_enough fuel more [] s a b = refl
  write_rest_enough zero more (x ∷ bytes) s a b = absurd (omega arith)
  write_rest_enough (suc fuel) zero (x ∷ bytes) s a b = absurd (omega arith)
  write_rest_enough (suc fuel) (suc more) (x ∷ bytes) s a b =
      continue-cong _ _ (call (storage.write (x ∷ bytes)) s) λ n t.
        answered_same _ _ (ltb 0 n && leb n (length (x ∷ bytes))) t λ valid u.
          let shorter = length-drop n (x ∷ bytes) in
          let some_bytes : 1 ≤ n = ground arith in
          continue-cong _ _ (accept storage n (x ∷ bytes) u)
            λ v w. write_rest_enough fuel more (drop n (x ∷ bytes)) w (omega arith) (omega arith)

  -- `writeBackupV2All` ends within as many turns as there are bytes, whatever the writer answers:
  -- any fuel from there on gives its result.
  pub write_all_terminates :
      (fuel : ℕ) (bytes : Bytes) (s : Spool W)
      → length bytes ≤ fuel
      → write_rest storage fuel bytes s ≡ write_all storage bytes s
  unfolding write_all
  write_all_terminates fuel bytes s enough =
      write_rest_enough fuel (length bytes) bytes s enough (omega arith)
