-- ===== src/Retention/Protection/Covering.antt =====
-- The collected protection covers everything that it was given and everything read from it.
use oracle_free_arch_vps.Base.{
  All, Bool-cases, List, Option-cases, Result-cases, Text, [], arith, inl, inr, insert, lookup,
  lookup-insert, lookup-insert_self, member, none, ok, some, subst, text_eq, text_eq_refl,
  text_eq→eq, true, ◌++◌, ◌∷◌, ◌≡◌,
}
use oracle_free_arch_vps.Contract.Refs.{ObjectRef, object_ref_value, validate_object_ref}
use oracle_free_arch_vps.Upload.Records.{ref_eq, ref_eq→eq}
use oracle_free_arch_vps.Contract.Refs.Same.{validate_object_ref_same}
use oracle_free_arch_vps.Retention.Protection.{Protected, admit, protect, protect_all, protect_new}

-- The object is protected under its identity.
abbrev pub Holds : Protected → ObjectRef → Type 0
Holds s r = lookup r.file_id s.objects ≡ some r

-- What is protected or reserved stays so.
pub record Extends (s t : Protected) : Type 0 where
  pub objects_kept :
      (k : Text) (r : ObjectRef) → lookup k s.objects ≡ some r → lookup k t.objects ≡ some r
  pub names_kept : (n : Text) → member n s.unresolved ≡ true → member n t.unresolved ≡ true

pub Extends-refl : (s : Protected) → Extends s s
Extends-refl s = record { objects_kept = λ k r h. h; names_kept = λ n h. h }

pub Extends-trans : {s t u : Protected} → Extends s t → Extends t u → Extends s u
Extends-trans a b = record {
  objects_kept = λ k r h. b.objects_kept k r (a.objects_kept k r h);
  names_kept = λ n h. b.names_kept n (a.names_kept n h);
}

pub member-append :
    (n x : Text) (xs : List Text) → member n xs ≡ true → member n (xs ++ x ∷ []) ≡ true
member-append n x [] h = absurd (ground arith)
member-append n x (y ∷ ys) h = elim (Bool-cases (text_eq y n)) [
  | inl e ↦ rw e
  | inr e ↦ rw (e, member-append n x ys (ground arith))
]

pub member-append_last : (n : Text) (xs : List Text) → member n (xs ++ n ∷ []) ≡ true
member-append_last n [] = rw (text_eq_refl n)
member-append_last n (y ∷ ys) = elim (Bool-cases (text_eq y n)) [
  | inl e ↦ rw e
  | inr e ↦ rw (e, member-append_last n ys)
]

insert_keeps :
    (k j : Text) (r v : ObjectRef) (m : List (Text × ObjectRef))
    → lookup j m ≡ none
    → lookup k m ≡ some r
    → lookup k (insert j v m) ≡ some r
insert_keeps k j r v m missing h = elim (Bool-cases (text_eq j k)) [
  | inl e ↦ absurd (cc (missing, h, text_eq→eq j k e))
  | inr e ↦ rw (lookup-insert j k v m, e) h
]

protect_new-Extends :
    (s t : Protected) (r : ObjectRef)
    → protect_new s r (lookup r.file_id s.objects) ≡ ok t
    → Extends s t × Holds t r
unfolding protect_new admit
protect_new-Extends s t r h = elim (Option-cases (lookup r.file_id s.objects)) [
  | inl e ↦
      let after : t.objects ≡ insert r.file_id r s.objects = ground arith in
      let names : t.unresolved ≡ s.unresolved = ground arith in
      (
        record {
          objects_kept = λ k q f. rw after (insert_keeps k r.file_id q r s.objects e f);
          names_kept = λ n f. rw names f;
        },
        rw after (lookup-insert_self r.file_id r s.objects),
      )
  | inr (old, e) ↦
      let same : s ≡ t = ground arith in
      let matched : ref_eq old r ≡ true = ground arith in
      (subst (λ x. Extends s x) same (Extends-refl s), cc (same, e, ref_eq→eq old r matched))
]

pub protect-Extends :
    (s t : Protected) (r : ObjectRef) → protect s r ≡ ok t → Extends s t × Holds t r
unfolding protect
protect-Extends s t r h = elim (Result-cases (validate_object_ref (object_ref_value r))) [
  | inr (e, q) ↦ absurd (ground arith)
  | inl (u, q) ↦
      let same : u ≡ r = validate_object_ref_same r u q in
      let (a, b) = protect_new-Extends s t u (ground arith) in (a, subst (λ x. Holds t x) same b)
]

pub protect_all-Extends :
    (s t : Protected) (rs : List ObjectRef)
    → protect_all s rs ≡ ok t
    → Extends s t × All (Holds t) rs
unfolding protect_all
protect_all-Extends s t [] h =
    let same : s ≡ t = ground arith in (subst (λ x. Extends s x) same (Extends-refl s), tt)
protect_all-Extends s t (r ∷ rs) h = elim (Result-cases (protect s r)) [
  | inr (e, q) ↦ absurd (ground arith)
  | inl (u, q) ↦
      let (a, b) = protect-Extends s u r q in
      let (c, d) = protect_all-Extends u t rs (ground arith) in
      (Extends-trans a c, (c.objects_kept r.file_id r b, d))
]
