-- ===== src/Retention/Execution/Guarded.antt =====
-- The order of the effects of `executeBackupV2Retention`, read from the log of a run.
use oracle_free_arch_vps.Base.{
  List, Result, Result-cases, Text, [], ap, append_assoc, arith, err, get_elem?, inl, inr, ok, refl,
  some, subst, sym, text_eq, true, ℕ, ◌++◌, ◌∙◌, ◌∷◌, ◌≡◌,
}
use oracle_free_arch_vps.Json.{Value}
use oracle_free_arch_vps.Contract.Refs.{ManifestRef, ObjectRef}
use oracle_free_arch_vps.Retention.Snapshot.{Snapshot, State, protection_state}
use oracle_free_arch_vps.Retention.Plan.{RetentionPlan}
use oracle_free_arch_vps.Retention.Deletions.{
  Deletion, Deletions, apply_deletion, intended, load_deletions, no_deletions,
}
use oracle_free_arch_vps.Retention.Checks.{all_free}
use oracle_free_arch_vps.Actions.{Action, lift}
use oracle_free_arch_vps.Actions.Triples.{
  After, After-continue, After-err, After-lift, After-next, After-ok,
}
use oracle_free_arch_vps.Retention.Execution.{
  Capabilities, Event, Run, append_entry, apply_entry, call, found, moved, recorded, refresh,
  refreshed, removed,
}

-- The records that a run has made durable, the oldest first.
abbrev pub entries : {W : Type 0} → List (Event W) → List Deletion
entries [] = []
entries (recorded e w ∷ log) = entries log ++ e ∷ []
entries (refreshed s ∷ log) = entries log
entries (found k p ∷ log) = entries log
entries (removed k r w ∷ log) = entries log

load-append :
    (digest : Text) (candidates : List ObjectRef) (s d n : Deletions) (es : List Deletion)
    (e : Deletion)
    → load_deletions digest candidates s es ≡ ok d
    → apply_deletion digest candidates d e ≡ ok n
    → load_deletions digest candidates s (es ++ e ∷ []) ≡ ok n
unfolding load_deletions
load-append digest candidates s d n [] e h a = let same : s ≡ d = ground arith in rw (same, a) refl
load-append digest candidates s d n (x ∷ es) e h a =
    elim (Result-cases (apply_deletion digest candidates s x)) [
      | inr (m, q) ↦ absurd (ground arith)
      | inl (u, q) ↦ rw q (load-append digest candidates u d n es e (ground arith) a)
    ]

module _ (sha : Value → Text) (references role_references : ManifestRef → Result (List ObjectRef))
    {W : Type 0} (caps : Capabilities W) (plan : RetentionPlan) where
  -- The world after the signal was asked, and then the snapshot was observed.
  abbrev pub observed : W → W
  observed w = (caps.observe_fresh (caps.throw_if_aborted w).1).1

  -- The state of protection of the very snapshot that `observe_fresh` gives from this world on, with
  -- the plan's precondition, and in which no candidate of the plan is protected.
  abbrev pub IsFresh : W → State → Type 0
  IsFresh w s =
      ((x : Snapshot) × ((caps.observe_fresh (caps.throw_if_aborted w).1).0 ≡ ok x)
        × (protection_state sha references role_references x ≡ ok s))
      × (text_eq s.precondition_sha256 plan.precondition_sha256 ≡ true)
      × (all_free s.protected_set plan.candidates ≡ true)

  -- The record was appended, and this is the world it was durable in.
  abbrev pub IsDurable : Deletion → W → Type 0
  IsDurable e w = (v : W) × (caps.append_durable e v ≡ (ok tt, w))

  -- A request in the world `now` follows the durable intent and then a snapshot that is observed in
  -- the world of that intent; nothing but the question whether to abort comes in between.
  abbrev pub IsCleared : ℕ → ObjectRef → W → List (Event W) → Type 0
  IsCleared k r now (refreshed s ∷ recorded e w ∷ log) =
      IsFresh w s
      × (e.ordinal ≡ k)
      × (e.file_id ≡ r.file_id)
      × (e.file_name ≡ r.file_name)
      × (e.outcome ≡ intended)
      × IsDurable e w
      × (now ≡ (caps.throw_if_aborted (observed w)).1)
  IsCleared k r now _ = ⊥

  -- Each removal is of the candidate of its ordinal, and the two effects right before it are the
  -- durable intent and then a fresh state of protection.
  abbrev pub IsGuarded : List (Event W) → Type 0
  IsGuarded [] = Unit
  IsGuarded (removed k r w ∷ log) =
      (get_elem? plan.candidates k ≡ some r) × IsCleared k r w log × IsGuarded log
  IsGuarded (recorded e w ∷ log) = IsGuarded log
  IsGuarded (refreshed s ∷ log) = IsGuarded log
  IsGuarded (found k p ∷ log) = IsGuarded log

module _ (sha : Value → Text) (references role_references : ManifestRef → Result (List ObjectRef))
    {W : Type 0} (caps : Capabilities W) (plan : RetentionPlan) (digest : Text)
    (journal : List Deletion) where
  abbrev pub replayed : List (Event W) → Result Deletions
  replayed log = load_deletions digest plan.candidates no_deletions (journal ++ entries log)

  abbrev pub Sound : Deletions → List (Event W) → Type 0
  Sound d l = IsGuarded sha references role_references caps plan l × (replayed l ≡ ok d)

  abbrev pub At : Deletions → List (Event W) → Run W → Type 0
  At d l s = (s.deletions ≡ d) × (s.log ≡ l)

  -- What holds when the code throws: the memory may be ahead of what is durable.
  abbrev pub Failed : Run W → Type 0
  Failed s =
      IsGuarded sha references role_references caps plan s.log
      × (d : Deletions) × (replayed s.log ≡ ok d)

  pub fails : (d : Deletions) (l : List (Event W)) (s : Run W) → Sound d l → s.log ≡ l → Failed s
  fails d l s (g, h) e = rw e (g, d, h)

  pub moved-At :
      {A : Type 0} (p : Result A × W) (d n : Deletions) (l : List (Event W)) (s : Run W)
      → Sound d l
      → At n l s
      → After (λ a. At n l) Failed (moved s p)
  moved-At (ok a, w) d n l s sound p = After-ok _ _ a (record s { world = w }) p
  moved-At (err e, w) d n l s sound p =
      After-err _ _ e (record s { world = w }) (fails d l (record s { world = w }) sound p.1)

  moved-answer :
      {A : Type 0} (p : Result A × W) (d n : Deletions) (l : List (Event W)) (s : Run W)
      → Sound d l
      → At n l s
      → After (λ a t. (p ≡ (ok a, t.world)) × At n l t) Failed (moved s p)
  moved-answer (ok a, w) d n l s sound p = After-ok _ _ a (record s { world = w }) (refl, p)
  moved-answer (err e, w) d n l s sound p =
      After-err _ _ e (record s { world = w }) (fails d l (record s { world = w }) sound p.1)

  pub call-At :
      {A : Type 0} (m : Action W A) (d n : Deletions) (l : List (Event W)) (s : Run W)
      → Sound d l
      → At n l s
      → After (λ a. At n l) Failed (call m s)
  call-At m d n l s sound p = moved-At (m s.world) d n l s sound p

  -- The same, with the answer of the capability and the world it leaves.
  pub answer-At :
      {A : Type 0} (m : Action W A) (d n : Deletions) (l : List (Event W)) (s : Run W)
      → Sound d l
      → At n l s
      → After (λ a t. (m s.world ≡ (ok a, t.world)) × At n l t) Failed (call m s)
  answer-At m d n l s sound p = moved-answer (m s.world) d n l s sound p

  abbrev Stays : W → Deletions → List (Event W) → Run W → Type 0
  Stays w d l t = (t.world ≡ w) × At d l t

  -- What the code computes between two capabilities leaves the world alone.
  stay-At :
      {A : Type 0} (r : Result A) (w : W) (d : Deletions) (l : List (Event W)) (s : Run W)
      → Sound d l
      → Stays w d l s
      → After (λ a t. (r ≡ ok a) × Stays w d l t) Failed (lift r s)
  stay-At r w d l s sound p = After-lift (Stays w d l) _ r s p (fails d l s sound p.1.1)

  pub lift-At :
      {A : Type 0} (r : Result A) (d : Deletions) (l : List (Event W)) (s : Run W)
      → Sound d l
      → At d l s
      → After (λ a t. (r ≡ ok a) × At d l t) Failed (lift r s)
  lift-At r d l s sound p = After-lift _ _ r s p (fails d l s sound p.1)

  pub refresh-At :
      (d : Deletions) (l : List (Event W)) (s : Run W)
      → Sound d l
      → At d l s
      → After
          (λ x t.
            IsFresh sha references role_references caps plan s.world x
            × (t.world ≡ observed sha references role_references caps plan s.world)
            × At d (refreshed x ∷ l) t)
          Failed
          (refresh sha references role_references caps plan digest s)
  unfolding refresh
  refresh-At d l s sound p =
      After-continue _ _ _ _ _ (answer-At caps.throw_if_aborted d d l s sound p) λ u t p.
        After-continue _ _ _ _ _ (answer-At caps.observe_fresh d d l t sound p.1) λ x v q.
          let from : (caps.throw_if_aborted s.world).1 ≡ t.world = ap (λ y. y.1) p.0 in
          let seen : caps.observe_fresh (caps.throw_if_aborted s.world).1 ≡ (ok x, v.world) =
            subst (λ y. caps.observe_fresh y ≡ (ok x, v.world)) (sym from) q.0 in
          After-continue _ _ _ _ _ (stay-At _ v.world d l v sound (refl, q.1)) λ a s p.
            After-continue _ _ _ _ _ (stay-At _ v.world d l s sound p.1) λ _ s q.
              After-continue _ _ _ _ _ (stay-At _ v.world d l s sound q.1) λ _ s r.
                After-next _ _ _ _ _ (
                  After-ok _ _ a _ (
                    ((x, ap (λ y. y.0) seen, p.0), ground arith, ground arith),
                    r.1.0 ∙ sym (ap (λ y. y.1) seen),
                    (r.1.1.0, ap (λ y. refreshed a ∷ y) r.1.1.1),
                  ))

  replayed-recorded :
      (d n : Deletions) (l : List (Event W)) (e : Deletion) (w : W)
      → replayed l ≡ ok d
      → apply_deletion digest plan.candidates d e ≡ ok n
      → replayed (recorded e w ∷ l) ≡ ok n
  replayed-recorded d n l e w h a =
      rw (sym (append_assoc journal (entries l) (e ∷ [])))
        (load-append digest plan.candidates no_deletions d n (journal ++ entries l) e h a)

  apply_entry-At :
      (e : Deletion) (d : Deletions) (l : List (Event W)) (s : Run W)
      → Sound d l
      → At d l s
      → After
          (λ u t. (n : Deletions) × (apply_deletion digest plan.candidates d e ≡ ok n) × At n l t)
          Failed
          (apply_entry sha references role_references caps plan digest e s)
  apply_entry-At e d l s sound p = After-next _ _ _ _ _ (
      After-continue _ _ _ _ _ (lift-At _ d l s sound p) λ n s q.
        After-ok _ _ _ _
          (n, subst (λ x. apply_deletion digest plan.candidates x e ≡ ok n) p.0 q.0, (refl, q.1.1)))

  -- The record is applied, then made durable: what is durable is never ahead.
  pub append-At :
      (e : Deletion) (d : Deletions) (l : List (Event W)) (s : Run W)
      → Sound d l
      → At d l s
      → After
          (λ u t.
            (n : Deletions) × (apply_deletion digest plan.candidates d e ≡ ok n)
            × IsDurable sha references role_references caps plan e t.world
            × Sound n (recorded e t.world ∷ l)
            × At n (recorded e t.world ∷ l) t)
          Failed
          (append_entry sha references role_references caps plan digest e s)
  unfolding append_entry
  append-At e d l s sound p = After-continue _ _ _ _ _ (apply_entry-At e d l s sound p) λ u s q.
      After-continue _ _ _ _ _ (answer-At (caps.append_durable e) d q.0 l s sound q.2) λ v t r.
        After-ok _ _ _ _ (
          q.0,
          q.1,
          (s.world, r.0),
          (sound.0, replayed-recorded d q.0 l e t.world sound.1 q.1),
          (r.1.0, ap (λ m. recorded e t.world ∷ m) r.1.1),
        )
