-- ===== src/Retention/Deletions/Attempts.antt =====
-- The journal of deletions: each object has as many intents as attempts, and at most sixteen.
use oracle_free_arch_vps.Base.{
  Bool, Bool-cases, List, Option, Result-cases, Text, [], arith, false, if◌then◌else◌, inl, inr,
  none, ok, some, true, ℕ, ◌&&◌, ◌+◌, ◌==◌, ◌∷◌, ◌≡◌, ◌≤◌,
}
use oracle_free_arch_vps.Contract.Refs.{ObjectRef}
use oracle_free_arch_vps.Retention.Deletions.{
  Deletion, Deletions, Outcome, absent, apply_deletion, deleted, follows, intended, load_deletions,
  no_deletions, set_state,
}

abbrev pub is_intended : Outcome → Bool
is_intended intended = true
is_intended _ = false

abbrev is_settled : Outcome → Bool
is_settled deleted = true
is_settled absent = true
is_settled _ = false

-- The records of an object that meet a test.
unfoldable pub count : (Outcome → Bool) → ℕ → List Deletion → ℕ
count test k [] = 0
count test k (e ∷ es) = (if e.ordinal == k && test e.outcome then 1 else 0) + count test k es

abbrev pub intents : ℕ → List Deletion → ℕ
intents = count is_intended

abbrev pub settlements : ℕ → List Deletion → ℕ
settlements = count is_settled

abbrev pub attempts_of : Option Deletion → ℕ
attempts_of none = 0
attempts_of (some e) = e.attempt

abbrev settled_of : Option Deletion → ℕ
settled_of none = 0
settled_of (some e) = if is_settled e.outcome then 1 else 0

follows_counts :
    (o : Option Deletion) (e : Deletion)
    → follows o e.outcome e.attempt ≡ true
    → (e.attempt ≡ attempts_of o + (if is_intended e.outcome then 1 else 0)) × (settled_of o ≡ 0)
unfolding follows
follows_counts none e h = ground arith
follows_counts (some p) e h = ground arith

module _ (digest : Text) (candidates : List ObjectRef) where
  deletion_follows :
      (s t : Deletions) (e : Deletion)
      → apply_deletion digest candidates s e ≡ ok t
      → (t.states ≡ set_state s.states e.ordinal e)
        × (follows (s.states e.ordinal) e.outcome e.attempt ≡ true)
        × (e.attempt ≤ 16)
  unfolding apply_deletion
  deletion_follows s t e h = ground arith

  -- The bounds of one object's last record.
  abbrev IsBounded : Option Deletion → Type 0
  IsBounded o = attempts_of o ≤ 16

  pub state_at :
      (s t : Deletions) (e : Deletion) (k : ℕ)
      → apply_deletion digest candidates s e ≡ ok t
      → t.states k ≡ (if k == e.ordinal then some e else s.states k)
  state_at s t e k h = rw (deletion_follows s t e h).0

  apply_deletion_counts :
      (s t : Deletions) (e : Deletion) (k : ℕ)
      → apply_deletion digest candidates s e ≡ ok t
      → (attempts_of (t.states k) ≡ attempts_of (s.states k) + intents k (e ∷ []))
        × (settled_of (t.states k) ≡ settled_of (s.states k) + settlements k (e ∷ []))
        × (IsBounded (s.states k) → IsBounded (t.states k))
  unfolding count
  apply_deletion_counts s t e k h =
      let (changed, next, few) = deletion_follows s t e h in
      let (a, b) = follows_counts (s.states e.ordinal) e next in
      let now = state_at s t e k h in
      elim (Bool-cases (k == e.ordinal)) [
        | inl hit ↦
            let same : k ≡ e.ordinal = ground arith in
            let here : t.states k ≡ some e = rw (now, hit) in rw (here, same) (ground arith)
        | inr miss ↦ let there : t.states k ≡ s.states k = rw (now, miss) in rw there (ground arith)
      ]

  load_deletions_counts :
      (s t : Deletions) (es : List Deletion) (k : ℕ)
      → load_deletions digest candidates s es ≡ ok t
      → (attempts_of (t.states k) ≡ attempts_of (s.states k) + intents k es)
        × (settled_of (t.states k) ≡ settled_of (s.states k) + settlements k es)
        × (IsBounded (s.states k) → IsBounded (t.states k))
  unfolding load_deletions count
  load_deletions_counts s t [] k h = let same : s ≡ t = ground arith in rw same (ground arith)
  load_deletions_counts s t (e ∷ es) k h =
      elim (Result-cases (apply_deletion digest candidates s e)) [
        | inr (m, q) ↦ absurd (ground arith)
        | inl (u, q) ↦
            let (a, b, c) = apply_deletion_counts s u e k q in
            let (d, f, g) = load_deletions_counts u t es k (ground arith) in
            (omega arith, omega arith, λ x. g (c x))
      ]

  settled_bound : (o : Option Deletion) → settled_of o ≤ 1
  settled_bound none = omega arith
  settled_bound (some e) = ground arith

  -- In a journal of deletions that is accepted from its start, each object has at most sixteen
  -- intents, the number of its last attempt, and is settled as deleted or absent at most once.
  pub deletion_attempts :
      (t : Deletions) (es : List Deletion) (k : ℕ)
      → load_deletions digest candidates no_deletions es ≡ ok t
      → (intents k es ≡ attempts_of (t.states k)) × (intents k es ≤ 16) × (settlements k es ≤ 1)
  deletion_attempts t es k h =
      let (a, b, c) = load_deletions_counts no_deletions t es k h in
      let few : attempts_of (t.states k) ≤ 16 = c (omega arith) in
      let once = settled_bound (t.states k) in (omega arith, omega arith, omega arith)
