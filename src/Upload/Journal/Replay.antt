-- ===== src/Upload/Journal/Replay.antt =====
-- The journal against its own file: opening it again rebuilds the state, and a failure ends it.
use oracle_free_arch_vps.Base.{
  Bool, Bool-cases, List, Result-cases, Text, [], arith, inl, inr, leb, ok, refl, subst, sym, true,
  ℕ, ◌&&◌, ◌++◌, ◌+◌, ◌>>=◌, ◌∷◌, ◌≡◌, ◌≤◌, ◌⊎◌,
}
use oracle_free_arch_vps.Profile.{assert_budget, journal_bytes, limit, max_safe_integer}
use oracle_free_arch_vps.Upload.Records.{Entry, encoded_bytes}
use oracle_free_arch_vps.Upload.Operations.{Journal, empty_journal}
use oracle_free_arch_vps.Upload.Journal.{append, apply, open_journal, pushed, replay, replay_entry}
use oracle_free_arch_vps.Upload.Journal.Invariant.{Inv, empty-Inv}
use oracle_free_arch_vps.Upload.Journal.Kept.{apply-Inv}
use oracle_free_arch_vps.Upload.Journal.Changes.{Change-same}
use oracle_free_arch_vps.Upload.Journal.Steps.{apply-Change}

-- The bookkeeping of the lines does not touch what the invariant speaks of.
pushed-Inv : (s : Journal) (e : Entry) (size : ℕ) → Inv s → Inv (pushed s e size)
pushed-Inv s e size v = record {
  counted = v.counted;
  put_sum = v.put_sum;
  logical_sum = v.logical_sum;
  puts_bounded = v.puts_bounded;
  put_bytes_bounded = v.put_bytes_bounded;
  logical_bounded = v.logical_bounded;
  objects_bounded = v.objects_bounded;
  scans_bounded = v.scans_bounded;
  items = v.items;
  linked = v.linked;
}

module _ (is_instant : Text → Bool) where
  replay-append :
      (s : Journal) (xs ys : List Entry)
      → replay is_instant s (xs ++ ys) ≡ (replay is_instant s xs >>= λ t. replay is_instant t ys)
  unfolding replay
  replay-append s [] ys = refl
  replay-append s (e ∷ xs) ys = elim (Result-cases (replay_entry is_instant s e)) [
    | inl (t, h) ↦ rw h (replay-append t xs ys)
    | inr (m, h) ↦ rw h
  ]

  pub replay_entry-Inv :
      (s t : Journal) (e : Entry) → Inv s → replay_entry is_instant s e ≡ ok t → Inv t
  unfolding replay_entry
  replay_entry-Inv s t e v h = elim (Result-cases (encoded_bytes e)) [
    | inr (m, p) ↦ absurd (ground arith)
    | inl (size, p) ↦ elim (Result-cases (apply is_instant s e)) [
      | inr (m, q) ↦ absurd (ground arith)
      | inl (u, q) ↦
          let same : pushed u e size ≡ t = ground arith in
          subst Inv same (pushed-Inv u e size (apply-Inv is_instant s u e v q))
    ]
  ]

  pub replay-Inv : (s t : Journal) (es : List Entry) → Inv s → replay is_instant s es ≡ ok t → Inv t
  unfolding replay
  replay-Inv s t [] v h = let same : s ≡ t = ground arith in subst Inv same v
  replay-Inv s t (e ∷ es) v h = elim (Result-cases (replay_entry is_instant s e)) [
    | inr (m, p) ↦ absurd (ground arith)
    | inl (u, p) ↦ replay-Inv u t es (replay_entry-Inv s u e v p) (ground arith)
  ]

  -- A journal that is opened over any file satisfies the invariant, and its file is within budget.
  pub open_journal-Inv :
      (capture_id : Text) (es : List Entry) (s : Journal)
      → open_journal is_instant capture_id es ≡ ok s
      → Inv s × (s.bytes ≤ limit journal_bytes)
  unfolding open_journal assert_budget
  open_journal-Inv capture_id es s h = (
    replay-Inv (empty_journal capture_id) s es (empty-Inv capture_id) (ground arith),
    ground arith,
  )

  -- A history of appends, each with the outcome of its write and fsync.
  unfoldable pub appends : Journal → List (Bool × Entry) → Journal
  appends s [] = s
  appends s ((written, e) ∷ rest) = appends (append is_instant written s e).0 rest

  -- What one append can do to the state.
  data Appended (s t : Journal) (e : Entry) : Type 0 where
    kept : t ≡ s → Appended s t e
    failed : t.poisoned ≡ true → Appended s t e
    written :
        (u : Journal) (size : ℕ)
        → apply is_instant s e ≡ ok u
        → encoded_bytes e ≡ ok size
        → s.bytes + size ≤ limit journal_bytes
        → t ≡ pushed u e size
        → Appended s t e

  append-Appended :
      (durable : Bool) (s : Journal) (e : Entry) → Appended s (append is_instant durable s e).0 e
  unfolding append assert_budget
  append-Appended durable s e = elim (Bool-cases s.poisoned) [
    | inl p ↦ kept (ground arith)
    | inr p ↦ elim (Result-cases (encoded_bytes e)) [
      | inr (m, q) ↦ kept (ground arith)
      | inl (size, q) ↦
          elim (Bool-cases
            (leb (s.bytes + size) max_safe_integer && leb (s.bytes + size) (limit journal_bytes))) [
              | inr b ↦ kept (ground arith)
              | inl b ↦ elim (Result-cases (apply is_instant s e)) [
                | inr (m, r) ↦ failed (ground arith)
                | inl (u, r) ↦ elim (Bool-cases durable) [
                  | inr d ↦ failed (ground arith)
                  | inl d ↦ written u size r q (ground arith) (ground arith)
                ]
              ]
            ]
    ]
  ]

  -- The file holds exactly the records that made the state, unless the journal is poisoned.
  record Recorded (s : Journal) : Type 0 where
    sound : Inv s
    replayed : replay is_instant (empty_journal s.capture_id) s.entries ≡ ok s
    within : s.bytes ≤ limit journal_bytes

  replay_one_more :
      (c : Text) (xs : List Entry) (s u : Journal) (e : Entry) (size : ℕ)
      → replay is_instant (empty_journal c) xs ≡ ok s
      → apply is_instant s e ≡ ok u
      → encoded_bytes e ≡ ok size
      → replay is_instant (empty_journal c) (xs ++ e ∷ []) ≡ ok (pushed u e size)
  replay_one_more c xs s u e size h r q =
      rw (replay-append (empty_journal c) xs (e ∷ []), h) (unfold replay replay_entry in rw (q, r))

  written-Recorded :
      (s u : Journal) (e : Entry) (size : ℕ)
      → Recorded s
      → apply is_instant s e ≡ ok u
      → encoded_bytes e ≡ ok size
      → s.bytes + size ≤ limit journal_bytes
      → Recorded (pushed u e size)
  written-Recorded s u e size v r q room =
      let same = Change-same (apply-Change is_instant s u e v.sound r) in
      record {
        sound = pushed-Inv u e size (apply-Inv is_instant s u e v.sound r);
        replayed =
            subst
              (λ c.
                replay is_instant (empty_journal c) (u.entries ++ e ∷ []) ≡ ok (pushed u e size))
              (sym same.0)
              (subst
                (λ xs.
                  replay is_instant (empty_journal s.capture_id) (xs ++ e ∷ [])
                  ≡ ok (pushed u e size))
                (sym same.1) (replay_one_more s.capture_id s.entries s u e size v.replayed r q));
        within = omega (arith, same.2);
      }

  empty-Recorded : (capture_id : Text) → Recorded (empty_journal capture_id)
  unfolding replay
  empty-Recorded capture_id = record {
    sound = empty-Inv capture_id;
    replayed = refl;
    within = omega arith;
  }

  -- A poisoned journal is never written again.
  poisoned_append :
      (durable : Bool) (s : Journal) (e : Entry)
      → s.poisoned ≡ true
      → (append is_instant durable s e).0 ≡ s
  unfolding append
  poisoned_append durable s e h = ground arith

  appends_poisoned : (s : Journal) (es : List (Bool × Entry)) → s.poisoned ≡ true → appends s es ≡ s
  unfolding appends
  appends_poisoned s [] h = refl
  appends_poisoned s ((d, e) ∷ es) h = rw (poisoned_append d s e h) (appends_poisoned s es h)

  appends-Recorded :
      (s : Journal) (es : List (Bool × Entry))
      → (s.poisoned ≡ true) ⊎ Recorded s
      → ((appends s es).poisoned ≡ true) ⊎ Recorded (appends s es)
  unfolding appends
  appends-Recorded s [] v = v
  appends-Recorded s ((d, e) ∷ es) (inl p) =
      appends-Recorded (append is_instant d s e).0 es (inl (rw (poisoned_append d s e p) p))
  appends-Recorded s ((d, e) ∷ es) (inr v) =
      appends-Recorded (append is_instant d s e).0 es (step (append-Appended d s e))
    where
      step :
          Appended s (append is_instant d s e).0 e
          → ((append is_instant d s e).0.poisoned ≡ true) ⊎ Recorded (append is_instant d s e).0
      step (kept same) = inr (rw same v)
      step (failed p) = inl p
      step (written u size r q room same) = inr (rw same (written-Recorded s u e size v r q room))

  Recorded-open : (s : Journal) → Recorded s → open_journal is_instant s.capture_id s.entries ≡ ok s
  unfolding open_journal assert_budget
  Recorded-open s v = ground (arith, v.replayed, v.within)

  -- After any history of appends from a new journal, with any of the writes failing, either the
  -- journal is poisoned, or opening a journal over the recorded lines gives exactly the state
  -- that is held in memory, which satisfies the invariant.
  pub reopen-appends :
      (capture_id : Text) (es : List (Bool × Entry))
      → let s = appends (empty_journal capture_id) es in
        (s.poisoned ≡ true) ⊎ (Inv s × (open_journal is_instant s.capture_id s.entries ≡ ok s))
  reopen-appends capture_id es =
      elim (appends-Recorded (empty_journal capture_id) es (inr (empty-Recorded capture_id))) [
        | inl p ↦ inl p
        | inr v ↦ inr (v.sound, Recorded-open _ v)
      ]
