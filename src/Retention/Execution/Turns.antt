-- ===== src/Retention/Execution/Turns.antt =====
-- One turn of `executeBackupV2Retention`: what it leaves of the journal and of the log.
use oracle_free_arch_vps.Base.{
  Bool-cases, List, Option, Result, String, Text, ap, arith, err, false, get_elem?, inl, inr, none,
  ok, or_fail, refl, some, sym, true, ℕ, ◌==◌, ◌∙◌, ◌∷◌, ◌≡◌,
}
use oracle_free_arch_vps.Json.{Value}
use oracle_free_arch_vps.Contract.Refs.{ManifestRef, ObjectRef}
use oracle_free_arch_vps.Retention.Inventory.{retention_error}
use oracle_free_arch_vps.Retention.Plan.{RetentionPlan}
use oracle_free_arch_vps.Retention.Deletions.{Deletion, Deletions, ambiguous, apply_deletion}
use oracle_free_arch_vps.Retention.Deletions.Attempts.{state_at}
use oracle_free_arch_vps.Retention.Checks.{done}
use oracle_free_arch_vps.Actions.{caught, lift, ◌>>=◌}
use oracle_free_arch_vps.Actions.Triples.{
  After, After-continue, After-err, After-mono, After-next, After-ok, After-thrown,
}
use oracle_free_arch_vps.Retention.Execution.{
  Capabilities, Event, Presence, Run, absent, conclude, found, moved, present, pursue, recorded,
  remove_candidate, removed, request, settle, turn, unknown,
}
use oracle_free_arch_vps.Retention.Execution.Guarded.{
  At, Failed, IsCleared, Sound, answer-At, append-At, call-At, fails, lift-At, refresh-At,
}

-- The run stopped at this ordinal because an answer was not known: to the question whether the
-- object is there, or to the request to remove it, which threw and is then recorded as ambiguous.
abbrev pub IsStopped : {W : Type 0} → Capabilities W → ℕ → List (Event W) → Type 0
IsStopped caps k (found j p ∷ log) = (j ≡ k) × (p ≡ some unknown)
IsStopped caps k (recorded e v ∷ removed j r w ∷ log) =
    (j ≡ k)
    × (e.ordinal ≡ k)
    × (e.outcome ≡ ambiguous)
    × (m : String) × ((caps.remove_exact r w).0 ≡ err m)
IsStopped caps k _ = ⊥

abbrev pub Ends : {W : Type 0} → Capabilities W → ℕ → Option ℕ → Deletions → List (Event W) → Type 0
Ends caps k none n m = done (n.states k) ≡ true
Ends caps k (some j) n m = (j ≡ k) × IsStopped caps k m

abbrev pub KeepsOthers : ℕ → Deletions → Deletions → Type 0
KeepsOthers k d n = (j : ℕ) → (j == k) ≡ false → n.states j ≡ d.states j

module _ (sha : Value → Text) (references role_references : ManifestRef → Result (List ObjectRef))
    {W : Type 0} (caps : Capabilities W) (plan : RetentionPlan) (digest : Text)
    (journal : List Deletion) where
  abbrev IsSound : Deletions → List (Event W) → Type 0
  IsSound = Sound sha references role_references caps plan digest journal

  abbrev HasFailed : Run W → Type 0
  HasFailed = Failed sha references role_references caps plan digest journal

  abbrev IsAt : Deletions → List (Event W) → Run W → Type 0
  IsAt = At sha references role_references caps plan digest journal

  -- The run is at a sound state that differs from the first one in this ordinal only.
  abbrev pub Moves : ℕ → Deletions → Option ℕ → Run W → Type 0
  Moves k d stop t =
      (n : Deletions) × (m : List (Event W)) × IsSound n m
      × IsAt n m t
      × KeepsOthers k d n
      × Ends caps k stop n m

  keeps :
      (d n : Deletions) (e : Deletion)
      → apply_deletion digest plan.candidates d e ≡ ok n
      → KeepsOthers e.ordinal d n
  keeps d n e h j apart = rw (state_at digest plan.candidates d n e j h, apart) refl

  settled :
      (d n : Deletions) (e : Deletion)
      → apply_deletion digest plan.candidates d e ≡ ok n
      → n.states e.ordinal ≡ some e
  settled d n e h =
      let same : (e.ordinal == e.ordinal) ≡ true = ground arith in
      rw (state_at digest plan.candidates d n e e.ordinal h, same) refl

  Moves-trans :
      (k : ℕ) (d n : Deletions) (stop : Option ℕ) (t : Run W)
      → KeepsOthers k d n
      → Moves k n stop t
      → Moves k d stop t
  Moves-trans k d n stop t keep (u, m, sound, at, keep', ends) =
      (u, m, sound, at, (λ j apart. keep' j apart ∙ keep j apart), ends)

  caught-At :
      {A : Type 0} (p : Result A × W) (n : Deletions) (l : List (Event W)) (s : Run W)
      → IsAt n l s
      → After (λ a t. (p.0 ≡ a) × IsAt n l t) HasFailed (caught (moved s p))
  caught-At (ok a, w) n l s p = After-ok _ _ _ _ (refl, p)
  caught-At (err e, w) n l s p = After-ok _ _ _ _ (refl, p)

  conclude-At :
      (k : ℕ) (r : ObjectRef) (attempt : ℕ) (answer : Result (Unit {0})) (d : Deletions)
      (l : List (Event W)) (w : W) (s : Run W)
      → (caps.remove_exact r w).0 ≡ answer
      → IsSound d (removed k r w ∷ l)
      → IsAt d (removed k r w ∷ l) s
      → After
          (Moves k d)
          HasFailed
          (conclude sha references role_references caps plan digest k r attempt answer s)
  unfolding conclude
  conclude-At k r attempt (ok u) d l w s why sound p =
      After-continue _ _ _ _ _
        (append-At sha references role_references caps plan digest journal _ d _ s sound p)
        λ v t q.
          After-ok _ _ _ _ (q.0, _, q.3, q.4, keeps d q.0 _ q.1, rw (settled d q.0 _ q.1) refl)
  conclude-At k r attempt (err e) d l w s why sound p =
      After-continue _ _ _ _ _
        (append-At sha references role_references caps plan digest journal _ d _ s sound p)
        λ v t q.
          After-ok _ _ _ _ (q.0, _, q.3, q.4, keeps d q.0 _ q.1, (refl, (refl, refl, refl, e, why)))

  request-At :
      (k : ℕ) (r : ObjectRef) (attempt : ℕ) (n : Deletions) (l : List (Event W)) (s : Run W)
      → get_elem? plan.candidates k ≡ some r
      → IsCleared sha references role_references caps plan k r s.world l
      → IsSound n l
      → IsAt n l s
      → After
          (Moves k n)
          HasFailed
          (request sha references role_references caps plan digest k r attempt s)
  unfolding request
  request-At k r attempt n l s here cleared sound p = After-next _ _ _ _ _ (
      After-continue _ _ _ _ _
        (caught-At (caps.remove_exact r s.world) n (removed k r s.world ∷ l)
          (record s { log = removed k r s.world ∷ s.log })
          (p.0, ap (λ t. removed k r s.world ∷ t) p.1))
        λ answer t b.
          conclude-At k r attempt answer n l s.world t b.0 ((here, cleared, sound.0), sound.1) b.1)

  remove-At :
      (k : ℕ) (r : ObjectRef) (d : Deletions) (l : List (Event W)) (s : Run W)
      → get_elem? plan.candidates k ≡ some r
      → IsSound d l
      → IsAt d l s
      → After
          (Moves k d)
          HasFailed
          (remove_candidate sha references role_references caps plan digest k r s)
  unfolding remove_candidate
  remove-At k r d l s here sound p = After-next _ _ _ _ _ (
      After-continue _ _ _ _ _
        (refresh-At sha references role_references caps plan digest journal d l s sound p)
        λ x s p.
          After-continue _ _ _ _ _
            (append-At sha references role_references caps plan digest journal _ d _ s sound p.2)
            λ u s q.
              After-continue _ _ _ _ _
                (refresh-At sha references role_references caps plan digest journal q.0 _ s q.3 q.4)
                λ y t p.
                  After-continue _ _ _ _ _
                    (answer-At sha references role_references caps plan digest journal
                      caps.throw_if_aborted q.0 q.0 _ t q.3 p.2)
                    λ v z a.
                      let now : z.world ≡ (caps.throw_if_aborted t.world).1 =
                        sym (ap (λ f. f.1) a.0) in
                      After-mono _ _ _ _
                        (request-At k r _ q.0 _ z here
                          (
                            p.0,
                            refl,
                            refl,
                            refl,
                            refl,
                            q.2,
                            now ∙ ap (λ w. (caps.throw_if_aborted w).1) p.1,
                          )
                          q.3 a.1)
                        λ stop t b. Moves-trans k d q.0 stop t (keeps d q.0 _ q.1) b)

  settle-At :
      (k : ℕ) (r : ObjectRef) (o : Option ℕ) (answer : Presence) (d : Deletions)
      (l : List (Event W)) (s : Run W)
      → get_elem? plan.candidates k ≡ some r
      → IsSound d (found k (some answer) ∷ l)
      → IsAt d (found k (some answer) ∷ l) s
      → After
          (Moves k d)
          HasFailed
          (settle sha references role_references caps plan digest k r o answer s)
  unfolding settle
  settle-At k r o unknown d l s here sound p =
      After-ok _ _ _ _ (d, _, sound, p, (λ j apart. refl), (refl, (refl, refl)))
  settle-At k r none absent d l s here sound p =
      After-err _ _ _ _
        (fails sha references role_references caps plan digest journal d _ s sound p.1)
  settle-At k r none present d l s here sound p = remove-At k r d _ s here sound p
  settle-At k r (some attempt) absent d l s here sound p =
      After-continue _ _ _ _ _
        (append-At sha references role_references caps plan digest journal _ d _ s sound p)
        λ v t q.
          After-ok _ _ _ _ (q.0, _, q.3, q.4, keeps d q.0 _ q.1, rw (settled d q.0 _ q.1) refl)
  settle-At k r (some attempt) present d l s here sound p =
      After-continue _ _ _ _ _
        (append-At sha references role_references caps plan digest journal _ d _ s sound p)
        λ v t q.
          After-mono _ _ _ _ (remove-At k r q.0 _ t here q.3 q.4)
            λ stop u b. Moves-trans k d q.0 stop u (keeps d q.0 _ q.1) b

  known-At :
      (k : ℕ) (r : ObjectRef) (o : Option ℕ) (answer : Option Presence) (d : Deletions)
      (l : List (Event W)) (s : Run W)
      → get_elem? plan.candidates k ≡ some r
      → IsSound d (found k answer ∷ l)
      → IsAt d (found k answer ∷ l) s
      → After (Moves k d) HasFailed (
          (lift (or_fail answer retention_error) >>= λ actual.
          settle sha references role_references caps plan digest k r o actual)
            s)
  known-At k r o none d l s here sound p =
      After-thrown _ _ _ _ _
        (fails sha references role_references caps plan digest journal d _ s sound p.1)
  known-At k r o (some answer) d l s here sound p =
      After-next _ _ _ _ _ (settle-At k r o answer d l s here sound p)

  pursue-At :
      (k : ℕ) (r : ObjectRef) (o : Option ℕ) (d : Deletions) (l : List (Event W)) (s : Run W)
      → get_elem? plan.candidates k ≡ some r
      → IsSound d l
      → IsAt d l s
      → After (Moves k d) HasFailed (pursue sha references role_references caps plan digest k r o s)
  unfolding pursue
  pursue-At k r o d l s here sound p =
      After-continue _ _ _ _ _
        (refresh-At sha references role_references caps plan digest journal d l s sound p)
        λ x s p.
          After-continue _ _ _ _ _
            (call-At sha references role_references caps plan digest journal
              (caps.reconcile_exact r) d d _ s sound p.2)
            λ answer s q.
              After-next _ _ _ _ _
                (known-At k r o answer d _ _ here sound (q.0, ap (λ t. found k answer ∷ t) q.1))

  pub turn-At :
      (k : ℕ) (d : Deletions) (l : List (Event W)) (s : Run W)
      → IsSound d l
      → IsAt d l s
      → After (Moves k d) HasFailed (turn sha references role_references caps plan digest k s)
  unfolding turn
  turn-At k d l s sound p =
      After-continue _ _ _ _ _
        (lift-At sha references role_references caps plan digest journal
          (or_fail (get_elem? plan.candidates k) retention_error) d l s sound p)
        λ r s q.
          let here : get_elem? plan.candidates k ≡ some r = ground arith in
          After-next _ _ _ _ _ (elim (Bool-cases (done (s.deletions.states k))) [
            | inl e ↦ rw e (
                After-ok _ _ _ _ (
                  d,
                  l,
                  sound,
                  q.1,
                  (λ j apart. refl),
                  ap (λ x. done (x.states k)) (sym q.1.0) ∙ e,
                ))
            | inr e ↦ rw e (pursue-At k r _ d l s here sound q.1)
          ])
