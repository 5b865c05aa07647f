-- ===== src/Retention/Deletions/Sizes.antt =====
-- The size of the journal of deletions: what is counted while it is written, and what is measured
-- when it is loaded.
use oracle_free_arch_vps.Base.{
  List, Result-cases, Text, [], arith, inl, inr, map, ok, refl, subst, sum_by, ℕ, ◌++◌, ◌+◌, ◌∷◌,
  ◌≡◌, ◌≤◌,
}
use oracle_free_arch_vps.Profile.{assert_budget, journal_bytes, limit}
use oracle_free_arch_vps.Json.{
  Value, arr, json_bytes, nil, of_elements, stringify, stringify_items, utf8_length,
  utf8_length-split,
}
use oracle_free_arch_vps.Contract.Refs.{ObjectRef}
use oracle_free_arch_vps.Retention.Deletions.{
  Deletion, Deletions, apply_deletion, deletion_value, journal_document, load_deletions,
  no_deletions,
}

abbrev pub element_bytes : Value → ℕ
element_bytes v = json_bytes v + 1

items_bytes :
    (v : Value) (vs : List Value)
    → utf8_length (stringify_items (of_elements (v ∷ vs))) + 1 ≡ sum_by element_bytes (v ∷ vs)
unfolding stringify json_bytes
items_bytes v [] = omega arith
items_bytes v (w ∷ vs) =
    let rest = items_bytes w vs in
    let cut = utf8_length-split 44 (stringify v) (stringify_items (of_elements (w ∷ vs))) refl in
    omega arith

-- An array that is not empty takes a byte for each element and its comma, and one byte more.
array_bytes :
    (v : Value) (vs : List Value)
    → json_bytes (arr (of_elements (v ∷ vs))) ≡ sum_by element_bytes (v ∷ vs) + 1
unfolding stringify json_bytes utf8_length
array_bytes v vs =
    let body = stringify_items (of_elements (v ∷ vs)) in
    let inside = items_bytes v vs in
    let front = utf8_length-split 91 [] (body ++ 93 ∷ []) refl in
    let back = utf8_length-split 93 body [] refl in omega arith

empty_bytes : json_bytes (arr nil) ≡ 2
unfolding stringify json_bytes utf8_length
empty_bytes = refl

module _ (digest : Text) (candidates : List ObjectRef) where
  deletion_bytes :
      (s t : Deletions) (e : Deletion)
      → apply_deletion digest candidates s e ≡ ok t
      → (t.journal_bytes ≡ s.journal_bytes + element_bytes (deletion_value e))
        × (t.journal_bytes ≤ limit journal_bytes)
  unfolding apply_deletion assert_budget
  deletion_bytes s t e h = ground arith

  load_bytes :
      (s t : Deletions) (es : List Deletion)
      → s.journal_bytes ≤ limit journal_bytes
      → load_deletions digest candidates s es ≡ ok t
      → (t.journal_bytes ≡ s.journal_bytes + sum_by element_bytes (map deletion_value es))
        × (t.journal_bytes ≤ limit journal_bytes)
  unfolding load_deletions
  load_bytes s t [] few h =
      let same : s ≡ t = ground arith in
      subst (λ u. (u.journal_bytes ≡ s.journal_bytes + 0) × (u.journal_bytes ≤ limit journal_bytes))
        same (omega arith, few)
  load_bytes s t (e ∷ es) few h = elim (Result-cases (apply_deletion digest candidates s e)) [
    | inr (m, q) ↦ absurd (ground arith)
    | inl (u, q) ↦
        let (one, within) = deletion_bytes s u e q in
        let (more, bound) = load_bytes u t es within (ground arith) in (omega arith, bound)
  ]

  -- What the writer accepts is at most one byte over what the loader does.
  pub journal_document_bound :
      (t : Deletions) (es : List Deletion)
      → load_deletions digest candidates no_deletions es ≡ ok t
      → json_bytes (journal_document es) ≤ limit journal_bytes + 1
  journal_document_bound t [] h = rw empty_bytes (omega arith)
  journal_document_bound t (e ∷ es) h =
      let (counted, bound) = load_bytes no_deletions t (e ∷ es) (omega arith) h in
      let measured = array_bytes (deletion_value e) (map deletion_value es) in omega arith
