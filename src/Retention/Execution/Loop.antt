-- ===== src/Retention/Execution/Loop.antt =====
-- The loops of `executeBackupV2Retention`: what holds when they end, and when they throw.
use oracle_free_arch_vps.Base.{
  Bool-cases, List, Option, Result, Text, [], ap, append-nil, arith, inl, inr, length, none, ok,
  refl, some, subst, suc, true, zero, ℕ, ◌+◌, ◌<◌, ◌==◌, ◌≡◌,
}
use oracle_free_arch_vps.Json.{Value}
use oracle_free_arch_vps.Contract.Refs.{Cursor, ManifestRef, ObjectRef}
use oracle_free_arch_vps.Retention.Plan.{RetentionPlan}
use oracle_free_arch_vps.Retention.Deletions.{
  Deletion, Deletions, load_deletions, no_deletions, open_deletions,
}
use oracle_free_arch_vps.Retention.Checks.{done}
use oracle_free_arch_vps.Actions.{Action, pure}
use oracle_free_arch_vps.Actions.Triples.{After, After-continue, After-lift, After-next, After-ok}
use oracle_free_arch_vps.Retention.Execution.{
  Capabilities, Event, Run, Status, completed, execute_from, execute_loaded, execute_plan,
  start_run, undecided,
}
use oracle_free_arch_vps.Retention.Execution.Guarded.{
  At, Failed, Sound, fails, lift-At, refresh-At, replayed,
}
use oracle_free_arch_vps.Retention.Execution.Turns.{IsStopped, KeepsOthers, Moves, turn-At}

module _ (sha : Value → Text) (references role_references : ManifestRef → Result (List ObjectRef))
    {W : Type 0} (caps : Capabilities W) (plan : RetentionPlan) (digest : Text)
    (journal : List Deletion) where
  abbrev pub DoneBelow : ℕ → Deletions → Type 0
  DoneBelow k d = (j : ℕ) → j < k → done (d.states j) ≡ true

  abbrev pub Concludes : ℕ → Status → Deletions → List (Event W) → Type 0
  Concludes k (completed c) d m = (c ≡ length plan.candidates) × DoneBelow k d
  Concludes k (undecided j) d m = IsStopped caps j m

  abbrev pub Concluded : ℕ → Status → Run W → Type 0
  Concluded k status t =
      (d : Deletions) × (m : List (Event W)) × Sound sha references role_references caps plan digest
        journal d m
      × At sha references role_references caps plan digest journal d m t
      × Concludes k status d m

  more_done :
      (k : ℕ) (d n : Deletions)
      → DoneBelow k d
      → KeepsOthers k d n
      → done (n.states k) ≡ true
      → DoneBelow (suc k) n
  more_done k d n below keep now j less = elim (Bool-cases (j == k)) [
    | inl e ↦ let same : j ≡ k = ground arith in rw same now
    | inr e ↦ rw (keep j e) (below j (ground arith))
  ]

  -- The loop after a turn.
  rest-At :
      (k total : ℕ) (d : Deletions) (s : Run W) (stop : Option ℕ) (next : Action (Run W) Status)
      → DoneBelow k d
      → Moves sha references role_references caps plan digest journal k d stop s
      → ((u : Deletions) (m : List (Event W)) (t : Run W)
          → Sound sha references role_references caps plan digest journal u m
          → At sha references role_references caps plan digest journal u m t
          → DoneBelow (suc k) u
          → After
              (Concluded total)
              (Failed sha references role_references caps plan digest journal)
              (next t))
      → After (Concluded total) (Failed sha references role_references caps plan digest journal) (
          (elim stop as (λ x. Action (Run W) Status) [ none ↦ next | some j ↦ pure (undecided j) ])
            s)
  rest-At k total d s none next below (u, m, sound, p, keep, now) go =
      go u m s sound p (more_done k d u below keep now)
  rest-At k total d s (some j) next below (u, m, sound, p, keep, ends) go =
      After-ok _ _ _ _ (u, m, sound, p, rw ends.0 ends.1)

  loop-At :
      (n k total : ℕ) (d : Deletions) (l : List (Event W)) (s : Run W)
      → n + k ≡ total
      → Sound sha references role_references caps plan digest journal d l
      → At sha references role_references caps plan digest journal d l s
      → DoneBelow k d
      → After
          (Concluded total)
          (Failed sha references role_references caps plan digest journal)
          (execute_from sha references role_references caps plan digest n k s)
  unfolding execute_from
  loop-At zero k total d l s e sound p below =
      let same : k ≡ total = omega arith in
      After-ok _ _ _ _ (d, l, sound, p, (refl, subst (λ x. DoneBelow x d) same below))
  loop-At (suc n) k total d l s e sound p below =
      After-continue _ _ _ _ _
        (turn-At sha references role_references caps plan digest journal k d l s sound p)
        λ stop s q.
          rest-At k total d s stop
            (execute_from sha references role_references caps plan digest n (suc k)) below q
            λ u m t sound p below. loop-At n (suc k) total u m t (omega arith) sound p below

  module _ (versions_page : Option Cursor → Result Value) where
    plan-At :
        (d : Deletions) (l : List (Event W)) (s : Run W)
        → Sound sha references role_references caps plan digest journal d l
        → At sha references role_references caps plan digest journal d l s
        → After
            (Concluded (length plan.candidates))
            (Failed sha references role_references caps plan digest journal)
            (execute_plan sha references role_references caps plan digest versions_page s)
    unfolding execute_plan
    plan-At d l s sound p =
        After-continue _ _ _ _ _
          (refresh-At sha references role_references caps plan digest journal d l s sound p)
          λ x s p.
            After-continue _ _ _ _ _
              (lift-At sha references role_references caps plan digest journal _ d _ s sound p.2)
              λ v s q.
                After-continue _ _ _ _ _
                  (lift-At sha references role_references caps plan digest journal _ d _ s sound
                    q.1)
                  λ u s r. After-next _ _ _ _ _ (
                    After-continue _ _ _ _ _
                      (lift-At sha references role_references caps plan digest journal _ d _ s sound
                        r.1)
                      λ u s q.
                        loop-At (length plan.candidates) 0 (length plan.candidates) d _ s
                          (omega arith) sound q.1 (λ j less. absurd (omega arith)))

    pub loaded-At :
        (d : Deletions) (w : W)
        → load_deletions digest plan.candidates no_deletions journal ≡ ok d
        → open_deletions digest plan.candidates journal ≡ ok d
        → After
            (Concluded (length plan.candidates))
            (Failed sha references role_references caps plan digest journal)
            (execute_loaded sha references role_references caps plan digest versions_page journal
              (start_run w))
    unfolding execute_loaded
    loaded-At d w h opened =
        let whole : replayed sha references role_references caps plan digest journal [] ≡ ok d =
          rw (append-nil journal) h in
        let unmoved =
          fails sha references role_references caps plan digest journal d [] (start_run w)
            (tt, whole) refl in
        After-continue _ _ _ _ _ (After-lift (λ s. s ≡ start_run w) _ _ _ refl unmoved) λ held s r.
          let same : held ≡ d = ground arith in
          After-next _ _ _ _ _ (plan-At d [] _ (tt, whole) (same, ap (λ x. x.log) r.1))
