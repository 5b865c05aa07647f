-- ===== src/Contract/Pages/Tiling.antt =====
-- Pages of chunks: the accepted chunks follow one another without gap or overlap.
use oracle_free_arch_vps.Base.{
  List, Result-cases, Text, [], arith, get_elem?, inl, inr, ok, refl, some, subst, suc, sum_by, sym,
  take, text_eq→eq, true, zero, ℕ, ◌+◌, ◌∷◌, ◌≡◌, ◌≤◌,
}
use oracle_free_arch_vps.Profile.{assert_budget, ciphertext_bytes, limit, logical_objects}
use oracle_free_arch_vps.Json.{Fields, Value, arr, bool, get, null, num, obj, other, str}
use oracle_free_arch_vps.Contract.Fields.{bounded_array, object}
use oracle_free_arch_vps.Contract.Names.{Kind, Name, data_object, kind_eq, parse_object_name}
use oracle_free_arch_vps.Contract.Roles.{is_num}
use oracle_free_arch_vps.Contract.Refs.{validate_object_ref}
use oracle_free_arch_vps.Contract.Pages.{
  Chunk, ChunkPage, chunk_page_keys, read_chunk, read_chunks, validate_chunk_page,
}

abbrev pub chunk_size : Chunk → ℕ
chunk_size c = c.object.content_length

pub is_num→eq : (v : Value) (n : ℕ) → is_num v n ≡ true → v ≡ num n
is_num→eq null n h = absurd (ground arith)
is_num→eq other n h = absurd (ground arith)
is_num→eq (bool b) n h = absurd (ground arith)
is_num→eq (num m) n h = let same : m ≡ n = ground arith in cc same
is_num→eq (str t) n h = absurd (ground arith)
is_num→eq (arr vs) n h = absurd (ground arith)
is_num→eq (obj fs) n h = absurd (ground arith)

-- The value is an object that itself states the chunk's ordinal, its offset and its stored object.
abbrev pub StatesChunk : Value → Chunk → Type 0
StatesChunk w c =
    (g : Fields) × (object w ("ordinal" ∷ "offset" ∷ "object" ∷ []) ≡ ok g)
    × (get g "ordinal" ≡ num c.ordinal)
    × (get g "offset" ≡ num c.offset)
    × (validate_object_ref (get g "object") ≡ ok c.object)

-- The facts that one turn of the loop establishes.
read_chunk-eq-ok :
    (capture_id attempt_id : Text) (ordinal offset : ℕ) (v : Value) {c : Chunk}
    → read_chunk capture_id attempt_id ordinal offset v ≡ ok c
    → (c.ordinal ≡ ordinal) × (c.offset ≡ offset) × (offset + chunk_size c ≤ limit ciphertext_bytes)
unfolding read_chunk assert_budget
read_chunk-eq-ok capture_id attempt_id ordinal offset v h = ground arith

read_chunk-StatesChunk :
    (capture_id attempt_id : Text) (ordinal offset : ℕ) (v : Value) (c : Chunk)
    → read_chunk capture_id attempt_id ordinal offset v ≡ ok c
    → StatesChunk v c
unfolding read_chunk
read_chunk-StatesChunk capture_id attempt_id ordinal offset v c h =
    elim (Result-cases (object v ("ordinal" ∷ "offset" ∷ "object" ∷ []))) [
      | inr (e, q) ↦ absurd (ground arith)
      | inl (g, q) ↦
          let (here, there, _) =
            read_chunk-eq-ok capture_id attempt_id ordinal offset v {c = c} h in
          let first : is_num (get g "ordinal") ordinal ≡ true = ground arith in
          let second : is_num (get g "offset") offset ≡ true = ground arith in
          (
            g,
            q,
            subst (λ n. get g "ordinal" ≡ num n) (sym here)
                (is_num→eq (get g "ordinal") ordinal first),
            subst (λ n. get g "offset" ≡ num n) (sym there)
                (is_num→eq (get g "offset") offset second),
            ground arith,
          )
    ]

-- A chunk's object has the name of this capture, this attempt, and this ordinal.
abbrev pub NamedFor : Text → Text → Chunk → Type 0
NamedFor capture_id attempt_id c =
    (n : Name) × (parse_object_name (str c.object.file_name) ≡ ok n)
    × (n.capture_id ≡ capture_id)
    × (n.attempt_id ≡ attempt_id)
    × (n.kind ≡ data_object)
    × (n.ordinal ≡ c.ordinal)

pub kind_eq→eq : (a b : Kind) → kind_eq a b ≡ true → a ≡ b
kind_eq→eq a b h = ground arith

read_chunk_name :
    (capture_id attempt_id : Text) (ordinal offset : ℕ) (v : Value) {c : Chunk}
    → read_chunk capture_id attempt_id ordinal offset v ≡ ok c
    → NamedFor capture_id attempt_id c
unfolding read_chunk
read_chunk_name capture_id attempt_id ordinal offset v {c} h =
    elim (Result-cases (parse_object_name (str c.object.file_name))) [
      | inr (e, p) ↦ absurd (ground arith)
      | inl (n, p) ↦ (
        n,
        p,
        ground (arith, text_eq→eq n.capture_id capture_id),
        ground (arith, text_eq→eq n.attempt_id attempt_id),
        ground (arith, kind_eq→eq n.kind data_object),
        ground arith,
      )
    ]

-- The chunks that are accepted from these counters on.
data Tiles (capture_id attempt_id : Text) : ℕ → ℕ → List Chunk → Type 0 where
  done : {o f : ℕ} → Tiles capture_id attempt_id o f []
  next :
      {o f : ℕ} {c : Chunk} {cs : List Chunk}
      → (c.ordinal ≡ o) × (c.offset ≡ f) × (f + chunk_size c ≤ limit ciphertext_bytes)
      → NamedFor capture_id attempt_id c
      → Tiles capture_id attempt_id (o + 1) (f + chunk_size c) cs
      → Tiles capture_id attempt_id o f (c ∷ cs)

read_chunks-Tiles :
    (capture_id attempt_id : Text) (o f : ℕ) (vs : List Value) (cs : List Chunk)
    → read_chunks capture_id attempt_id o f vs ≡ ok cs
    → Tiles capture_id attempt_id o f cs
unfolding read_chunks
read_chunks-Tiles capture_id attempt_id o f [] [] h = done
read_chunks-Tiles capture_id attempt_id o f [] (c ∷ cs) h = absurd (ground arith)
read_chunks-Tiles capture_id attempt_id o f (v ∷ vs) [] h = absurd (ground arith)
read_chunks-Tiles capture_id attempt_id o f (v ∷ vs) (c ∷ cs) h =
    next (read_chunk-eq-ok capture_id attempt_id o f v first)
      (read_chunk_name capture_id attempt_id o f v first)
      (read_chunks-Tiles capture_id attempt_id (o + 1) (f + chunk_size c) vs cs later)
  where
    first : read_chunk capture_id attempt_id o f v ≡ ok c
    first = ground arith

    later : read_chunks capture_id attempt_id (o + 1) (f + chunk_size c) vs ≡ ok cs
    later = ground arith

Tiles-position :
    {capture_id attempt_id : Text} {o f : ℕ} {cs : List Chunk}
    → Tiles capture_id attempt_id o f cs
    → (i : ℕ) (c : Chunk) → get_elem? cs i ≡ some c
    → (c.ordinal ≡ o + i)
      × (c.offset ≡ f + sum_by chunk_size (take i cs))
      × (c.offset + chunk_size c ≤ limit ciphertext_bytes)
      × NamedFor capture_id attempt_id c
Tiles-position done i c h = absurd (ground arith)
Tiles-position (next {c = d} e n t) zero c h = ground (arith, n)
Tiles-position (next e n t) (suc i) c h =
    let (a, b, l, m) = Tiles-position t i c h in (omega arith, omega arith, l, m)

page_chunks :
    (v : Value) (p : ChunkPage) (vs : List Value) (f : Fields)
    → validate_chunk_page v ≡ ok p
    → object v chunk_page_keys ≡ ok f
    → bounded_array (get f "chunks") (limit logical_objects) ≡ ok vs
    → read_chunks p.capture_id p.attempt_id p.start_ordinal p.start_offset vs ≡ ok p.chunks
unfolding validate_chunk_page
page_chunks v p vs f h e b = ground arith

validate_chunk_page-Tiles :
    (v : Value) (p : ChunkPage)
    → validate_chunk_page v ≡ ok p
    → Tiles p.capture_id p.attempt_id p.start_ordinal p.start_offset p.chunks
validate_chunk_page-Tiles v p h = elim (Result-cases (object v chunk_page_keys)) [
  | inr (e, q) ↦ absurd (unfold validate_chunk_page in ground arith)
  | inl (f, q) ↦ elim (Result-cases (bounded_array (get f "chunks") (limit logical_objects))) [
    | inr (e, b) ↦ absurd (unfold validate_chunk_page in ground arith)
    | inl (vs, b) ↦ read_chunks-Tiles _ _ _ _ vs p.chunks (page_chunks v p vs f h q b)
  ]
]

read_chunks-StatesChunk :
    (capture_id attempt_id : Text) (o f : ℕ) (vs : List Value) (cs : List Chunk)
    → read_chunks capture_id attempt_id o f vs ≡ ok cs
    → (i : ℕ) (c : Chunk) → get_elem? cs i ≡ some c
    → (w : Value) × (get_elem? vs i ≡ some w) × StatesChunk w c
unfolding read_chunks
read_chunks-StatesChunk capture_id attempt_id o f [] [] h i c e = absurd (ground arith)
read_chunks-StatesChunk capture_id attempt_id o f [] (d ∷ cs) h i c e = absurd (ground arith)
read_chunks-StatesChunk capture_id attempt_id o f (v ∷ vs) [] h i c e = absurd (ground arith)
read_chunks-StatesChunk capture_id attempt_id o f (v ∷ vs) (d ∷ cs) h zero c e =
    let same : d ≡ c = ground arith in
    let first : read_chunk capture_id attempt_id o f v ≡ ok d = ground arith in
    (
      v,
      refl,
      subst (StatesChunk v) same (read_chunk-StatesChunk capture_id attempt_id o f v d first),
    )
read_chunks-StatesChunk capture_id attempt_id o f (v ∷ vs) (d ∷ cs) h (suc i) c e =
    read_chunks-StatesChunk capture_id attempt_id (o + 1) (f + chunk_size d) vs cs later i c e
  where
    later : read_chunks capture_id attempt_id (o + 1) (f + chunk_size d) vs ≡ ok cs
    later = ground arith

-- The document's own entry at this position states this chunk.
abbrev pub PageStates : Value → ℕ → Chunk → Type 0
PageStates v i c =
    (f : Fields) × (vs : List Value) × (w : Value) × (object v chunk_page_keys ≡ ok f)
    × (bounded_array (get f "chunks") (limit logical_objects) ≡ ok vs)
    × (get_elem? vs i ≡ some w)
    × StatesChunk w c

chunk_page-PageStates :
    (v : Value) (p : ChunkPage) (i : ℕ) (c : Chunk)
    → validate_chunk_page v ≡ ok p
    → get_elem? p.chunks i ≡ some c
    → PageStates v i c
chunk_page-PageStates v p i c h here = elim (Result-cases (object v chunk_page_keys)) [
  | inr (e, q) ↦ absurd (unfold validate_chunk_page in ground arith)
  | inl (f, q) ↦ elim (Result-cases (bounded_array (get f "chunks") (limit logical_objects))) [
    | inr (e, b) ↦ absurd (unfold validate_chunk_page in ground arith)
    | inl (vs, b) ↦
        let (w, at, states) =
          read_chunks-StatesChunk _ _ _ _ vs p.chunks (page_chunks v p vs f h q b) i c here in
        (f, vs, w, q, b, at, states)
  ]
]

-- In an accepted chunk page the chunk at each position has the next ordinal, starts where the
-- chunks before it end, stays within the ciphertext budget, and is an object named for the page's
-- capture and attempt and for that ordinal. The ordinal, the offset and the object are those that
-- the document itself states at that position.
pub chunk_page_tiles :
    (v : Value) (p : ChunkPage) (i : ℕ) (c : Chunk)
    → validate_chunk_page v ≡ ok p
    → get_elem? p.chunks i ≡ some c
    → (c.ordinal ≡ p.start_ordinal + i)
      × (c.offset ≡ p.start_offset + sum_by chunk_size (take i p.chunks))
      × (c.offset + chunk_size c ≤ limit ciphertext_bytes)
      × NamedFor p.capture_id p.attempt_id c
      × PageStates v i c
chunk_page_tiles v p i c h e =
    let (a, b, l, m) = Tiles-position (validate_chunk_page-Tiles v p h) i c e in
    (a, b, l, m, chunk_page-PageStates v p i c h e)
