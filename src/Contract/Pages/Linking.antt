-- ===== src/Contract/Pages/Linking.antt =====
-- References to chunk pages: the accepted ones follow one another without gap or overlap.
use oracle_free_arch_vps.Base.{
  Each, List, Result-cases, String, Text, [], arith, each_next, each_none, get_elem?, inl, inr, ok,
  some, subst, suc, sum_by, take, text_eq→eq, zero, ℕ, ◌*◌, ◌+◌, ◌∷◌, ◌≡◌, ◌≤◌,
}
use oracle_free_arch_vps.Profile.{
  assert_budget, ciphertext_bytes, limit, logical_objects, slot_bytes,
}
use oracle_free_arch_vps.Json.{Fields, Value, arr, bool, get, null, num, obj, other, str}
use oracle_free_arch_vps.Contract.Fields.{integer, object}
use oracle_free_arch_vps.Contract.Names.{Name, manifest, parse_object_name}
use oracle_free_arch_vps.Contract.Refs.{validate_manifest_ref}
use oracle_free_arch_vps.Contract.Pages.{PageRef, read_page_ref, read_page_refs}
use oracle_free_arch_vps.Contract.Pages.Tiling.{is_num→eq, kind_eq→eq}

-- A reference's object is a manifest of this capture and attempt.
abbrev pub ManifestFor : Text → Text → PageRef → Type 0
ManifestFor capture_id attempt_id p =
    (n : Name) × (parse_object_name (str p.manifest.object.file_name) ≡ ok n)
    × (n.capture_id ≡ capture_id)
    × (n.attempt_id ≡ attempt_id)
    × (n.kind ≡ manifest)

read_page_ref-eq-ok :
    (capture_id attempt_id : Text) (ordinal offset : ℕ) (v : Value) {p : PageRef}
    → read_page_ref capture_id attempt_id ordinal offset v ≡ ok p
    → (p.first_ordinal ≡ ordinal)
      × (p.first_offset ≡ offset)
      × (1 ≤ p.chunk_count)
      × (ordinal + p.chunk_count ≤ limit logical_objects)
      × (offset + p.bytes ≤ limit ciphertext_bytes)
      × (p.chunk_count ≤ p.bytes)
      × (p.bytes ≤ p.chunk_count * limit slot_bytes)
unfolding read_page_ref assert_budget integer
read_page_ref-eq-ok capture_id attempt_id ordinal offset v h = ground arith

read_page_ref-ManifestFor :
    (capture_id attempt_id : Text) (ordinal offset : ℕ) (v : Value) {p : PageRef}
    → read_page_ref capture_id attempt_id ordinal offset v ≡ ok p
    → ManifestFor capture_id attempt_id p
unfolding read_page_ref
read_page_ref-ManifestFor capture_id attempt_id ordinal offset v {p} h =
    elim (Result-cases (parse_object_name (str p.manifest.object.file_name))) [
      | inr (e, q) ↦ absurd (ground arith)
      | inl (n, q) ↦ (
        n,
        q,
        ground (arith, text_eq→eq n.capture_id capture_id),
        ground (arith, text_eq→eq n.attempt_id attempt_id),
        ground (arith, kind_eq→eq n.kind manifest),
      )
    ]

integer→eq : (v : Value) (m n k : ℕ) → integer v m n ≡ ok k → v ≡ num k
unfolding integer
integer→eq null m n k h = absurd (ground arith)
integer→eq other m n k h = absurd (ground arith)
integer→eq (bool b) m n k h = absurd (ground arith)
integer→eq (num j) m n k h = let same : j ≡ k = ground arith in cc same
integer→eq (str t) m n k h = absurd (ground arith)
integer→eq (arr vs) m n k h = absurd (ground arith)
integer→eq (obj fs) m n k h = absurd (ground arith)

abbrev pub page_keys : List String
page_keys = "manifest" ∷ "firstOrdinal" ∷ "firstOffset" ∷ "chunkCount" ∷ "bytes" ∷ []

-- The value is an object that itself states all that the reference does.
abbrev pub StatesPage : Value → PageRef → Type 0
StatesPage w p =
    (g : Fields) × (object w page_keys ≡ ok g)
    × (validate_manifest_ref (get g "manifest") ≡ ok p.manifest)
    × (get g "firstOrdinal" ≡ num p.first_ordinal)
    × (get g "firstOffset" ≡ num p.first_offset)
    × (get g "chunkCount" ≡ num p.chunk_count)
    × (get g "bytes" ≡ num p.bytes)

module _ (capture_id attempt_id : Text) (ordinal offset : ℕ) (v : Value) (p : PageRef) (g : Fields)
    (accepted : read_page_ref capture_id attempt_id ordinal offset v ≡ ok p)
    (opened : object v page_keys ≡ ok g) where
  page_manifest : validate_manifest_ref (get g "manifest") ≡ ok p.manifest
  unfolding read_page_ref
  page_manifest = ground arith

  page_ordinal : get g "firstOrdinal" ≡ num p.first_ordinal
  unfolding read_page_ref
  page_ordinal = is_num→eq (get g "firstOrdinal") p.first_ordinal (ground arith)

  page_offset : get g "firstOffset" ≡ num p.first_offset
  unfolding read_page_ref
  page_offset = is_num→eq (get g "firstOffset") p.first_offset (ground arith)

  page_counted : integer (get g "chunkCount") (limit logical_objects) 1 ≡ ok p.chunk_count
  unfolding read_page_ref
  page_counted = ground arith

  page_measured : integer (get g "bytes") (limit ciphertext_bytes) 1 ≡ ok p.bytes
  unfolding read_page_ref
  page_measured = ground arith

read_page_ref-object :
    (capture_id attempt_id : Text) (ordinal offset : ℕ) (v : Value) (p : PageRef)
    → read_page_ref capture_id attempt_id ordinal offset v ≡ ok p
    → (g : Fields) × (object v page_keys ≡ ok g)
unfolding read_page_ref
read_page_ref-object capture_id attempt_id ordinal offset v p h =
    elim (Result-cases (object v page_keys)) [
      | inr (e, q) ↦ absurd (ground arith)
      | inl found ↦ found
    ]

read_page_ref-StatesPage :
    (capture_id attempt_id : Text) (ordinal offset : ℕ) (v : Value) (p : PageRef)
    → read_page_ref capture_id attempt_id ordinal offset v ≡ ok p
    → StatesPage v p
read_page_ref-StatesPage c a o f v p h =
    let (g, q) = read_page_ref-object c a o f v p h in
    (
      g,
      q,
      page_manifest c a o f v p g h q,
      page_ordinal c a o f v p g h q,
      page_offset c a o f v p g h q,
      integer→eq (get g "chunkCount") (limit logical_objects) 1 p.chunk_count
          (page_counted c a o f v p g h q),
      integer→eq (get g "bytes") (limit ciphertext_bytes) 1 p.bytes
          (page_measured c a o f v p g h q),
    )

pub read_page_refs-StatesPage :
    (capture_id attempt_id : Text) (o f : ℕ) (vs : List Value) (ps : List PageRef) (last : ℕ)
    → read_page_refs capture_id attempt_id o f vs ≡ ok (ps, last)
    → Each StatesPage vs ps
unfolding read_page_refs
read_page_refs-StatesPage capture_id attempt_id o f [] [] last h = each_none
read_page_refs-StatesPage capture_id attempt_id o f [] (p ∷ ps) last h = absurd (ground arith)
read_page_refs-StatesPage capture_id attempt_id o f (v ∷ vs) [] last h = absurd (ground arith)
read_page_refs-StatesPage capture_id attempt_id o f (v ∷ vs) (p ∷ ps) last h =
    each_next (read_page_ref-StatesPage capture_id attempt_id o f v p first) (
      read_page_refs-StatesPage capture_id attempt_id (o + p.chunk_count) (f + p.bytes) vs ps last
        later)
  where
    first : read_page_ref capture_id attempt_id o f v ≡ ok p
    first = ground arith

    later :
        read_page_refs capture_id attempt_id (o + p.chunk_count) (f + p.bytes) vs ≡ ok (ps, last)
    later = ground arith

-- The references that are accepted from these counters on, up to this end offset.
pub data Linked (capture_id attempt_id : Text) : ℕ → ℕ → List PageRef → ℕ → Type 0 where
  done : {o f : ℕ} → Linked capture_id attempt_id o f [] f
  next :
      {o f last : ℕ} {p : PageRef} {ps : List PageRef}
      → (p.first_ordinal ≡ o)
        × (p.first_offset ≡ f)
        × (1 ≤ p.chunk_count)
        × (o + p.chunk_count ≤ limit logical_objects)
        × (f + p.bytes ≤ limit ciphertext_bytes)
        × (p.chunk_count ≤ p.bytes)
        × (p.bytes ≤ p.chunk_count * limit slot_bytes)
      → ManifestFor capture_id attempt_id p
      → Linked capture_id attempt_id (o + p.chunk_count) (f + p.bytes) ps last
      → Linked capture_id attempt_id o f (p ∷ ps) last

pub read_page_refs-Linked :
    (capture_id attempt_id : Text) (o f : ℕ) (vs : List Value) (ps : List PageRef) (last : ℕ)
    → read_page_refs capture_id attempt_id o f vs ≡ ok (ps, last)
    → Linked capture_id attempt_id o f ps last
unfolding read_page_refs
read_page_refs-Linked capture_id attempt_id o f [] [] last h =
    subst (λ x. Linked capture_id attempt_id o f [] x) (ground arith) done
read_page_refs-Linked capture_id attempt_id o f [] (p ∷ ps) last h = absurd (ground arith)
read_page_refs-Linked capture_id attempt_id o f (v ∷ vs) [] last h = absurd (ground arith)
read_page_refs-Linked capture_id attempt_id o f (v ∷ vs) (p ∷ ps) last h =
    next (read_page_ref-eq-ok capture_id attempt_id o f v first)
      (read_page_ref-ManifestFor capture_id attempt_id o f v first)
      (read_page_refs-Linked capture_id attempt_id (o + p.chunk_count) (f + p.bytes) vs ps last
        later)
  where
    first : read_page_ref capture_id attempt_id o f v ≡ ok p
    first = ground arith

    later :
        read_page_refs capture_id attempt_id (o + p.chunk_count) (f + p.bytes) vs ≡ ok (ps, last)
    later = ground arith

abbrev pub page_count : PageRef → ℕ
page_count p = p.chunk_count

abbrev pub page_bytes : PageRef → ℕ
page_bytes p = p.bytes

pub Linked-last :
    {capture_id attempt_id : Text} {o f last : ℕ} {ps : List PageRef}
    → Linked capture_id attempt_id o f ps last
    → last ≡ f + sum_by page_bytes ps
Linked-last done = omega arith
Linked-last (next e m l) = let rest = Linked-last l in omega arith

pub Linked-position :
    {capture_id attempt_id : Text} {o f last : ℕ} {ps : List PageRef}
    → Linked capture_id attempt_id o f ps last
    → (i : ℕ) (p : PageRef) → get_elem? ps i ≡ some p
    → (p.first_ordinal ≡ o + sum_by page_count (take i ps))
      × (p.first_offset ≡ f + sum_by page_bytes (take i ps))
      × (p.first_ordinal + p.chunk_count ≤ limit logical_objects)
      × (p.first_offset + p.bytes ≤ limit ciphertext_bytes)
      × (p.bytes ≤ p.chunk_count * limit slot_bytes)
      × ManifestFor capture_id attempt_id p
Linked-position done i p h = absurd (ground arith)
Linked-position (next e m l) zero p h = ground (arith, m)
Linked-position (next e m l) (suc i) p h =
    let (a, b, c, d, g, n) = Linked-position l i p h in (omega arith, omega arith, c, d, g, n)
