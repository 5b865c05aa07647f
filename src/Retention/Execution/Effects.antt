-- ===== src/Retention/Execution/Effects.antt =====
-- What `executeBackupV2Retention` has done when it ends, in any way.
use oracle_free_arch_vps.Base.{
  AllBelow, Bool-cases, List, Option, Result, Result-cases, String, Text, [], all_below, ap,
  append-nil, arith, err, if◌then◌else◌, inl, inr, leb, length, ok, refl, subst, sym, true, ℕ, ◌++◌,
  ◌+◌, ◌==◌, ◌∙◌, ◌∷◌, ◌≡◌, ◌≤◌, ◌⊎◌,
}
use oracle_free_arch_vps.Profile.{journal_bytes, limit}
use oracle_free_arch_vps.Json.{Value, json_bytes}
use oracle_free_arch_vps.Contract.Refs.{Cursor, ManifestRef, ObjectRef}
use oracle_free_arch_vps.Retention.Plan.{RetentionPlan}
use oracle_free_arch_vps.Retention.Deletions.{
  Deletion, Deletions, intended, journal_document, load_deletions, no_deletions, open_deletions,
}
use oracle_free_arch_vps.Retention.Deletions.Attempts.{count, deletion_attempts, intents}
use oracle_free_arch_vps.Retention.Checks.{checked_plan, done}
use oracle_free_arch_vps.Actions.{continue}
use oracle_free_arch_vps.Actions.Triples.{After-both, After-returned}
use oracle_free_arch_vps.Retention.Execution.{
  Capabilities, Event, Run, Status, completed, execute, execute_loaded, found, recorded, refreshed,
  removed, start_run, undecided,
}
use oracle_free_arch_vps.Retention.Execution.Guarded.{Failed, IsGuarded, entries}
use oracle_free_arch_vps.Retention.Execution.Turns.{IsStopped}
use oracle_free_arch_vps.Retention.Execution.Loop.{Concluded, loaded-At}
use oracle_free_arch_vps.Retention.Deletions.Sizes.{journal_document_bound}

-- How often a run has asked for the removal of this candidate.
abbrev pub removals : {W : Type 0} → ℕ → List (Event W) → ℕ
removals k [] = 0
removals k (removed j r w ∷ log) = (if j == k then 1 else 0) + removals k log
removals k (refreshed s ∷ log) = removals k log
removals k (recorded e w ∷ log) = removals k log
removals k (found j p ∷ log) = removals k log

intents-append :
    (k : ℕ) (es fs : List Deletion) → intents k (es ++ fs) ≡ intents k es + intents k fs
unfolding count
intents-append k [] fs = omega arith
intents-append k (e ∷ es) fs = ground (arith, intents-append k es fs)

last_intent :
    (k j : ℕ) (e : Deletion)
    → e.ordinal ≡ j
    → e.outcome ≡ intended
    → intents k (e ∷ []) ≡ (if j == k then 1 else 0)
unfolding count
last_intent k j e a b = rw (a, b) (ground arith)

module _ (sha : Value → Text) (references role_references : ManifestRef → Result (List ObjectRef))
    (plan : RetentionPlan) {W : Type 0} (caps : Capabilities W) where
  removals-intents :
      (k : ℕ) (log : List (Event W))
      → IsGuarded sha references role_references caps plan log
      → removals k log ≤ intents k (entries log)
  removals-intents k [] g = omega arith
  removals-intents k (refreshed s ∷ log) g = removals-intents k log g
  removals-intents k (found j p ∷ log) g = removals-intents k log g
  removals-intents k (recorded e w ∷ log) g =
      let rest = removals-intents k log g in
      rw (intents-append k (entries log) (e ∷ [])) (omega arith)
  removals-intents k (removed j r now ∷ refreshed s ∷ recorded e w ∷ log) (here, c, g) =
      let rest = removals-intents k log g in
      let one : intents k (e ∷ []) ≡ (if j == k then 1 else 0) = last_intent k j e c.1 c.4 in
      rw (intents-append k (entries log) (e ∷ [])) (omega arith)
  removals-intents k (removed j r now ∷ []) g = absurd g.1
  removals-intents k (removed j r now ∷ refreshed s ∷ []) g = absurd g.1
  removals-intents k (removed j r now ∷ refreshed s ∷ refreshed u ∷ log) g = absurd g.1
  removals-intents k (removed j r now ∷ refreshed s ∷ found i p ∷ log) g = absurd g.1
  removals-intents k (removed j r now ∷ refreshed s ∷ removed i p w ∷ log) g = absurd g.1
  removals-intents k (removed j r now ∷ found i p ∷ log) g = absurd g.1
  removals-intents k (removed j r now ∷ recorded e w ∷ log) g = absurd g.1
  removals-intents k (removed j r now ∷ removed i p w ∷ log) g = absurd g.1

  attempts_bound :
      (digest : Text) (journal : List Deletion) (log : List (Event W)) (k : ℕ) (t : Deletions)
      → IsGuarded sha references role_references caps plan log
      → load_deletions digest plan.candidates no_deletions (journal ++ entries log) ≡ ok t
      → intents k journal + removals k log ≤ 16
  attempts_bound digest journal log k t g e =
      let few = (deletion_attempts digest plan.candidates t (journal ++ entries log) k e).1 in
      let both = intents-append k journal (entries log) in
      let asked = removals-intents k log g in omega arith

  module _ (versions_page : Option Cursor → Result Value) where
    execute_opens :
        (input : RetentionPlan) (digest : Text) (journal : List Deletion) (w : W)
        → checked_plan sha input digest ≡ ok plan
        → (caps.load_journal w).0 ≡ ok journal
        → execute sha references role_references versions_page caps input digest (start_run w)
          ≡ execute_loaded sha references role_references caps plan digest versions_page journal
              (start_run (caps.load_journal w).1)
    unfolding execute continue
    execute_opens input digest journal w checked opened = rw (checked, opened) refl

    loaded_refused :
        (digest : Text) (journal : List Deletion) (m : String) (w : W)
        → open_deletions digest plan.candidates journal ≡ err m
        → (execute_loaded sha references role_references caps plan digest versions_page journal
            (start_run w)).1.log
          ≡ []
    unfolding execute_loaded continue
    loaded_refused digest journal m w h = rw h refl

    opened-loaded :
        (digest : Text) (journal : List Deletion) (d : Deletions)
        → open_deletions digest plan.candidates journal ≡ ok d
        → load_deletions digest plan.candidates no_deletions journal ≡ ok d
    unfolding open_deletions
    opened-loaded digest journal d h = ground arith

    loaded_thrown :
        (digest : Text) (journal : List Deletion) (m : String) (w : W)
        → open_deletions digest plan.candidates journal ≡ err m
        → (execute_loaded sha references role_references caps plan digest versions_page journal
            (start_run w)).0
          ≡ err m
    unfolding execute_loaded continue
    loaded_thrown digest journal m w h = rw h refl

    -- However the loaded part ends, it fails or concludes.
    loaded-ends :
        (digest : Text) (journal : List Deletion) (d : Deletions) (w : W)
        → load_deletions digest plan.candidates no_deletions journal ≡ ok d
        → Failed sha references role_references caps plan digest journal
            (execute_loaded sha references role_references caps plan digest versions_page journal
              (start_run w)).1
    loaded-ends digest journal d w h =
        elim (Result-cases (open_deletions digest plan.candidates journal)) [
          | inl (x, e) ↦
              After-both _ _ _
                (loaded-At sha references role_references caps plan digest journal versions_page x w
                  (opened-loaded digest journal x e) e)
                (λ status t q. rw q.3.1 (q.2.0, q.0, q.2.1))
          | inr (m, e) ↦
              let unchanged : load_deletions digest plan.candidates no_deletions (journal ++ [])
                  ≡ ok d =
                rw (append-nil journal) h in
              rw (loaded_refused digest journal m w e) (tt, d, unchanged)
        ]

    -- A journal that is accepted entry by entry is opened again, or is one byte too long.
    abbrev pub Reopens : Text → List Deletion → Type 0
    Reopens digest es =
        (t : Deletions) × (load_deletions digest plan.candidates no_deletions es ≡ ok t)
        × ((open_deletions digest plan.candidates es ≡ ok t)
            ⊎ (json_bytes (journal_document es) ≡ limit journal_bytes + 1))

    loaded-Reopens :
        (digest : Text) (es : List Deletion) (t : Deletions)
        → load_deletions digest plan.candidates no_deletions es ≡ ok t
        → Reopens digest es
    unfolding open_deletions
    loaded-Reopens digest es t h =
        let bound = journal_document_bound digest plan.candidates t es h in
        elim (Bool-cases (leb (json_bytes (journal_document es)) (limit journal_bytes))) [
          | inl fits ↦ (t, h, inl (rw (fits, h) refl))
          | inr over ↦ (t, h, inr (ground arith))
        ]

    module _ (input : RetentionPlan) (digest : Text) (journal : List Deletion) (w : W) where
      abbrev ended : Result Status × Run W
      ended = execute sha references role_references versions_page caps input digest (start_run w)

      opens :
          checked_plan sha input digest ≡ ok plan
          → (caps.load_journal w).0 ≡ ok journal
          → ended
            ≡ execute_loaded sha references role_references caps plan digest versions_page journal
                (start_run (caps.load_journal w).1)
      opens checked opened = execute_opens input digest journal w checked opened

      -- However the execution of a checked plan ends, on any world, each removal it has asked for
      -- is of the candidate of its ordinal, and what comes right before the request is the durable
      -- intent to remove this candidate, and then the state of protection of the snapshot that
      -- `observeFresh` gives in the world of that intent, with the plan's precondition and with no
      -- candidate protected; the request is made in the world which that observation leaves, once
      -- the signal was asked again.
      pub execute_guards :
          checked_plan sha input digest ≡ ok plan
          → (caps.load_journal w).0 ≡ ok journal
          → IsGuarded sha references role_references caps plan ended.1.log
      execute_guards checked opened =
          rw (opens checked opened)
            (elim (Result-cases (open_deletions digest plan.candidates journal)) [
              | inl (d, h) ↦
                  (loaded-ends digest journal d (caps.load_journal w).1
                    (opened-loaded digest journal d h)).0
              | inr (m, h) ↦ rw (loaded_refused digest journal m (caps.load_journal w).1 h) tt
            ])

      -- However the execution ends after a journal that replays entry by entry, the journal with the
      -- records that were made durable replays too; the next execution opens it, but for a journal
      -- whose document is exactly one byte over the limit; and each candidate has been asked to be
      -- removed at most sixteen times: the intents of the old journal and this run's requests.
      pub execute_attempts :
          (k : ℕ) (d : Deletions)
          → checked_plan sha input digest ≡ ok plan
          → (caps.load_journal w).0 ≡ ok journal
          → load_deletions digest plan.candidates no_deletions journal ≡ ok d
          → Reopens digest (journal ++ entries ended.1.log)
            × (intents k journal + removals k ended.1.log ≤ 16)
      execute_attempts k d checked opened h = rw (opens checked opened) (
          let (g, t, e) = loaded-ends digest journal d (caps.load_journal w).1 h in
          (
            loaded-Reopens digest _ t e,
            attempts_bound digest journal
                (execute_loaded sha references role_references caps plan digest versions_page
                  journal (start_run (caps.load_journal w).1)).1.log
                k t g e,
          ))

      concludes :
          (status : Status)
          → checked_plan sha input digest ≡ ok plan
          → (caps.load_journal w).0 ≡ ok journal
          → ended.0 ≡ ok status
          → Concluded sha references role_references caps plan digest journal
              (length plan.candidates)
              status
              ended.1
      concludes status checked opened returned =
          let same = opens checked opened in
          let loaded = ap (λ x. x.0) (sym same) ∙ returned in
          elim (Result-cases (open_deletions digest plan.candidates journal)) [
            | inl (d, h) ↦
                subst
                  (λ x.
                    Concluded sha references role_references caps plan digest journal
                      (length plan.candidates) status x.1)
                  (sym same)
                  (After-returned _ _ _ status
                    (loaded-At sha references role_references caps plan digest journal versions_page
                      d (caps.load_journal w).1 (opened-loaded digest journal d h) h)
                    loaded)
            | inr (m, h) ↦
                let thrown = loaded_thrown digest journal m (caps.load_journal w).1 h in
                absurd (cc (thrown, loaded))
          ]

      -- When the execution returns COMPLETE, its count is the number of candidates, and the journal
      -- with the records that were made durable settles every candidate as deleted or absent.
      pub execute_completes :
          (c : ℕ)
          → checked_plan sha input digest ≡ ok plan
          → (caps.load_journal w).0 ≡ ok journal
          → ended.0 ≡ ok (completed c)
          → (c ≡ length plan.candidates)
            × (t : Deletions) × (load_deletions digest plan.candidates no_deletions
                  (journal ++ entries ended.1.log)
                ≡ ok t)
            × AllBelow (λ k. done (t.states k) ≡ true) (length plan.candidates)
      execute_completes c checked opened returned =
          let (t, m, sound, at, (total, below)) = concludes (completed c) checked opened returned in
          let n = length plan.candidates in
          (
            total,
            t,
            rw at.1 sound.1,
            all_below (λ k. done (t.states k) ≡ true) n n (omega arith) below,
          )

      -- When the execution returns AMBIGUOUS at an ordinal, its last effect there is an answer that
      -- the object's presence is unknown, or a request to remove it that threw and that the durable
      -- journal then records as ambiguous.
      pub execute_stops :
          (k : ℕ)
          → checked_plan sha input digest ≡ ok plan
          → (caps.load_journal w).0 ≡ ok journal
          → ended.0 ≡ ok (undecided k)
          → IsStopped caps k ended.1.log
      execute_stops k checked opened returned =
          let (t, m, sound, at, stopped) = concludes (undecided k) checked opened returned in
          rw at.1 stopped
