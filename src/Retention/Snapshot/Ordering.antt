-- ===== src/Retention/Snapshot/Ordering.antt =====
-- The catalog in order: newest first, with the same entries as before.
use oracle_free_arch_vps.Base.{
  All, All-append_right, Bool-cases, List, Text, [], arith, drop, false, inl, inr, length, refl,
  subst, sym, take, take-append-drop, text_eq, text_eq→eq, true, ℕ, ◌++◌, ◌∷◌, ◌≡◌,
}
use oracle_free_arch_vps.Contract.Roles.{text_lt}
use oracle_free_arch_vps.Retention.Snapshot.{CatalogEntry, insert_entry, newer, sort_catalog}
use mathlib.Core.List.{Perm}
use mathlib.Core.List.Perm

text_lt_asym : (x y : Text) → text_lt x y ≡ true → text_lt y x ≡ false
unfolding text_lt
text_lt_asym [] [] h = absurd (ground arith)
text_lt_asym [] (b ∷ t) h = refl
text_lt_asym (a ∷ s) [] h = absurd (ground arith)
text_lt_asym (a ∷ s) (b ∷ t) h = let rest = text_lt_asym s t in ground (arith, rest)

text_lt_irrefl : (x : Text) → text_lt x x ≡ false
unfolding text_lt
text_lt_irrefl [] = refl
text_lt_irrefl (a ∷ s) = ground (arith, text_lt_irrefl s)

-- What is not below a text that is not below another is not below that other.
not_lt_trans : (x y z : Text) → text_lt x y ≡ false → text_lt y z ≡ false → text_lt x z ≡ false
unfolding text_lt
not_lt_trans [] [] z h k = k
not_lt_trans [] (b ∷ t) z h k = absurd (ground arith)
not_lt_trans (a ∷ s) [] [] h k = refl
not_lt_trans (a ∷ s) [] (c ∷ u) h k = absurd (ground arith)
not_lt_trans (a ∷ s) (b ∷ t) [] h k = refl
not_lt_trans (a ∷ s) (b ∷ t) (c ∷ u) h k = let rest = not_lt_trans s t u in ground (arith, rest)

-- The first capture was not accepted before the second.
abbrev pub NotOlder : CatalogEntry → CatalogEntry → Type 0
NotOlder a b = text_lt a.accepted_at_utc b.accepted_at_utc ≡ false

NewestFirst : List CatalogEntry → Type 0
NewestFirst [] = Unit
NewestFirst (x ∷ xs) = All (NotOlder x) xs × NewestFirst xs

newer-NotOlder : (a b : CatalogEntry) → newer a b ≡ true → NotOlder a b
newer-NotOlder a b h = elim (Bool-cases (text_lt b.accepted_at_utc a.accepted_at_utc)) [
  | inl e ↦ text_lt_asym b.accepted_at_utc a.accepted_at_utc e
  | inr e ↦
      let matched : text_eq a.accepted_at_utc b.accepted_at_utc ≡ true = ground arith in
      let same : a.accepted_at_utc ≡ b.accepted_at_utc =
        text_eq→eq a.accepted_at_utc b.accepted_at_utc matched in
      subst (λ t. text_lt a.accepted_at_utc t ≡ false) same (text_lt_irrefl a.accepted_at_utc)
]

NotOlder-All :
    (x y : CatalogEntry) (ys : List CatalogEntry)
    → NotOlder x y
    → All (NotOlder y) ys
    → All (NotOlder x) ys
NotOlder-All x y [] h a = tt
NotOlder-All x y (z ∷ zs) h a = (
  not_lt_trans x.accepted_at_utc y.accepted_at_utc z.accepted_at_utc h a.0,
  NotOlder-All x y zs h a.1,
)

All-insert_entry :
    (P : CatalogEntry → Type 0) (x : CatalogEntry) (ys : List CatalogEntry)
    → P x
    → All P ys
    → All P (insert_entry x ys)
unfolding insert_entry
All-insert_entry P x [] h a = (h, tt)
All-insert_entry P x (y ∷ ys) h a = elim (Bool-cases (newer y x)) [
  | inl e ↦ rw e (a.0, All-insert_entry P x ys h a.1)
  | inr e ↦ rw e (h, a)
]

insert_entry-NewestFirst :
    (x : CatalogEntry) (ys : List CatalogEntry) → NewestFirst ys → NewestFirst (insert_entry x ys)
unfolding insert_entry NewestFirst
insert_entry-NewestFirst x [] a = (tt, tt)
insert_entry-NewestFirst x (y ∷ ys) a = elim (Bool-cases (newer y x)) [
  | inl e ↦ rw e (
    All-insert_entry (NotOlder y) x ys (newer-NotOlder y x e) a.0,
    insert_entry-NewestFirst x ys a.1,
  )
  | inr e ↦
      let first : NotOlder x y = ground arith in rw e ((first, NotOlder-All x y ys first a.0), a)
]

sort_catalog-NewestFirst : (xs : List CatalogEntry) → NewestFirst (sort_catalog xs)
unfolding sort_catalog NewestFirst
sort_catalog-NewestFirst [] = tt
sort_catalog-NewestFirst (x ∷ xs) =
    insert_entry-NewestFirst x (sort_catalog xs) (sort_catalog-NewestFirst xs)

NewestFirst-append :
    (xs ys : List CatalogEntry) → NewestFirst (xs ++ ys) → All (λ a. All (NotOlder a) ys) xs
unfolding NewestFirst
NewestFirst-append [] ys a = tt
NewestFirst-append (x ∷ xs) ys a =
    (All-append_right (NotOlder x) xs ys a.0, NewestFirst-append xs ys a.1)

Perm-insert_entry : (x : CatalogEntry) (ys : List CatalogEntry) → Perm (insert_entry x ys) (x ∷ ys)
unfolding insert_entry
Perm-insert_entry x [] = Perm.refl (x ∷ [])
Perm-insert_entry x (y ∷ ys) = elim (Bool-cases (newer y x)) [
  | inl e ↦ rw e (Perm.trans (Perm.cons y (Perm-insert_entry x ys)) (Perm.swap x y ys))
  | inr e ↦ rw e (Perm.refl (x ∷ y ∷ ys))
]

Perm-sort_catalog : (xs : List CatalogEntry) → Perm (sort_catalog xs) xs
unfolding sort_catalog
Perm-sort_catalog [] = Perm.refl []
Perm-sort_catalog (x ∷ xs) =
    Perm.trans (Perm-insert_entry x (sort_catalog xs)) (Perm.cons x (Perm-sort_catalog xs))

length-insert_entry :
    (x : CatalogEntry) (ys : List CatalogEntry) → length (insert_entry x ys) ≡ length (x ∷ ys)
unfolding insert_entry
length-insert_entry x [] = refl
length-insert_entry x (y ∷ ys) = ground (arith, length-insert_entry x ys)

pub length-sort_catalog : (xs : List CatalogEntry) → length (sort_catalog xs) ≡ length xs
unfolding sort_catalog
length-sort_catalog [] = refl
length-sort_catalog (x ∷ xs) =
    omega (arith, length-insert_entry x (sort_catalog xs), length-sort_catalog xs)

-- The catalog is parted into these two lists: no entry of the second is newer than one of the first.
abbrev pub Parted : List CatalogEntry → List CatalogEntry → List CatalogEntry → Type 0
Parted catalog kept others = Perm (kept ++ others) catalog × All (λ a. All (NotOlder a) others) kept

pub sort_catalog-Parted :
    (n : ℕ) (catalog : List CatalogEntry)
    → Parted catalog (take n (sort_catalog catalog)) (drop n (sort_catalog catalog))
sort_catalog-Parted n catalog =
    let sorted = sort_catalog catalog in
    let whole = sym (take-append-drop n sorted) in
    (
      subst (λ xs. Perm xs catalog) whole (Perm-sort_catalog catalog),
      NewestFirst-append (take n sorted) (drop n sorted)
          (subst NewestFirst whole (sort_catalog-NewestFirst catalog)),
    )
