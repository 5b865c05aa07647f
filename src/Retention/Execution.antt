-- ===== src/Retention/Execution.antt =====
-- scripts/backup-v2-retention.ts: `checkedPlan` and `executeBackupV2Retention`. The world behind the
-- capabilities is a parameter with one function for each of them; the log of a run is the list of
-- its effects, the newest first, which the code does not keep.
pub mod Guarded
pub mod Turns
pub mod Loop
pub mod Effects
use oracle_free_arch_vps.Base.{
  List, Option, Result, Text, [], err, get_elem?, if◌then◌else◌, length, map, none, ok, or_fail,
  require, some, suc, text_eq, zero, ℕ, ◌&&◌, ◌+◌, ◌∷◌,
}
use oracle_free_arch_vps.Json.{Value, str}
use oracle_free_arch_vps.Contract.Refs.{Cursor, ManifestRef, ObjectRef}
use oracle_free_arch_vps.Contract.Pages.{items_value}
use oracle_free_arch_vps.Retention.Inventory.{list_all, retention_error}
use oracle_free_arch_vps.Retention.Snapshot.{Snapshot, State, protection_state}
use oracle_free_arch_vps.Retention.Plan.{RetentionPlan, require_all, same}
use oracle_free_arch_vps.Retention.Deletions.{
  Deletion, Deletions, Outcome, ambiguous, apply_deletion, intended, no_deletions, open_deletions,
}
use oracle_free_arch_vps.Retention.Checks.{
  all_agree, all_free, attempts_so_far, checked_plan, done, open_attempt,
}
use oracle_free_arch_vps.Actions.{Action, gets, lift, modify, pure, try, ◌>>=◌, ◌>>◌}

pub data Presence : Type 0 where
  absent present unknown : Presence

-- BackupV2RetentionExecution; an answer of `reconcileExact` outside its type is `none`, and
-- `throw_if_aborted` is the one of the signal.
pub record Capabilities (W : Type 0) : Type 0 where
  pub observe_fresh : Action W Snapshot
  pub load_journal : Action W (List Deletion)
  pub append_durable : Deletion → Action W (Unit {0})
  pub remove_exact : ObjectRef → Action W (Unit {0})
  pub reconcile_exact : ObjectRef → Action W (Option Presence)
  pub throw_if_aborted : Action W (Unit {0})

-- An effect: a refresh that went well, an answer about an object, a durable record, and a request
-- to remove an object, in the turn of an ordinal. A record is kept with the world right after it was
-- made durable, and a request with the world that it was made in.
pub data Event (W : Type 0) : Type 0 where
  refreshed : State → Event W
  found : ℕ → Option Presence → Event W
  recorded : Deletion → W → Event W
  removed : ℕ → ObjectRef → W → Event W

pub record Run (W : Type 0) : Type 0 where
  pub world : W
  pub deletions : Deletions
  pub log : List (Event W)

abbrev pub start_run : {W : Type 0} → W → Run W
start_run w = record { world = w; deletions = no_deletions; log = [] }

-- What the code returns: `completed` counts the candidates, `undecided` names one.
pub data Status : Type 0 where
  completed : ℕ → Status
  undecided : ℕ → Status

module _ {W : Type 0} where
  abbrev pub moved : {A : Type 0} → Run W → Result A × W → Result A × Run W
  moved s (r, w) = (r, record s { world = w })

  -- A capability, on the world of the run.
  abbrev pub call : {A : Type 0} → Action W A → Action (Run W) A
  call m s = moved s (m s.world)

  abbrev pub note : (W → Event W) → Action (Run W) (Unit {0})
  note event = modify (λ s. record s { log = event s.world ∷ s.log })

module _ (sha : Value → Text) (references role_references : ManifestRef → Result (List ObjectRef))
    {W : Type 0} (caps : Capabilities W) (plan : RetentionPlan) (digest : Text) where
  abbrev pub last_of : ℕ → Action (Run W) (Option Deletion)
  last_of k = gets (λ s. s.deletions.states k)

  -- `append`: the entry of this ordinal; it is applied before it is made durable.
  abbrev pub entry_for : ℕ → ObjectRef → ℕ → Outcome → Deletion
  entry_for k r attempt outcome = record {
    plan_sha256 = digest;
    ordinal = k;
    file_id = r.file_id;
    file_name = r.file_name;
    attempt = attempt;
    outcome = outcome;
  }

  abbrev pub apply_entry : Deletion → Action (Run W) (Unit {0})
  apply_entry e = do
    held ← gets (λ s. s.deletions)
    next ← lift (apply_deletion digest plan.candidates held e)
    modify (λ s. record s { deletions = next })

  unfoldable pub append_entry : Deletion → Action (Run W) (Unit {0})
  append_entry e = do apply_entry e; call (caps.append_durable e); note (recorded e)

  unfoldable pub refresh : Action (Run W) State
  refresh = do
    call caps.throw_if_aborted
    snapshot ← call caps.observe_fresh
    state ← lift (protection_state sha references role_references snapshot)
    lift (
        require
          (text_eq state.precondition_sha256 plan.precondition_sha256
            && same sha (items_value (map str state.retained_capture_ids))
                (items_value (map str plan.retained_capture_ids)))
          retention_error)
    lift (require (all_free state.protected_set plan.candidates) retention_error)
    note (λ w. refreshed state)
    pure state

  -- The end of a turn: what became of the request. `some k` ends the loop at k, undecided.
  unfoldable pub conclude : ℕ → ObjectRef → ℕ → Result (Unit {0}) → Action (Run W) (Option ℕ)
  conclude k r attempt (ok u) = do append_entry (entry_for k r attempt Outcome.deleted); pure none
  conclude k r attempt (err e) = do append_entry (entry_for k r attempt ambiguous); pure (some k)

  unfoldable pub request : ℕ → ObjectRef → ℕ → Action (Run W) (Option ℕ)
  request k r attempt = do
    note (removed k r)
    answer ← try (call (caps.remove_exact r))
    conclude k r attempt answer

  -- An attempt: a refresh, the intent of the next attempt, another refresh, then the request.
  unfoldable pub remove_candidate : ℕ → ObjectRef → Action (Run W) (Option ℕ)
  remove_candidate k r = do
    prior ← last_of k
    refresh
    let attempt = attempts_so_far prior + 1
    append_entry (entry_for k r attempt intended)
    refresh
    call caps.throw_if_aborted
    request k r attempt

  -- What follows an answer about the object, with the attempt that is open.
  unfoldable pub settle : ℕ → ObjectRef → Option ℕ → Presence → Action (Run W) (Option ℕ)
  settle k r o unknown = pure (some k)
  settle k r none absent = lift (err retention_error)
  settle k r none present = remove_candidate k r
  settle k r (some attempt) absent = do
    append_entry (entry_for k r attempt Outcome.absent)
    pure none
  settle k r (some attempt) present = do
    append_entry (entry_for k r attempt Outcome.present)
    remove_candidate k r

  unfoldable pub pursue : ℕ → ObjectRef → Option ℕ → Action (Run W) (Option ℕ)
  pursue k r o = do
    refresh
    answer ← call (caps.reconcile_exact r)
    note (λ w. found k answer)
    actual ← lift (or_fail answer retention_error)
    settle k r o actual

  -- A turn of the second loop.
  unfoldable pub turn : ℕ → Action (Run W) (Option ℕ)
  turn k = do
    r ← lift (or_fail (get_elem? plan.candidates k) retention_error)
    prior ← last_of k
    if done prior then pure none else pursue k r (open_attempt prior)

  unfoldable pub execute_from : ℕ → ℕ → Action (Run W) Status
  execute_from zero k = pure (completed (length plan.candidates))
  execute_from (suc n) k =
      turn k >>= λ stop. elim stop [ none ↦ execute_from n (suc k) | some j ↦ pure (undecided j) ]

  module _ (versions_page : Option Cursor → Result Value) where
    -- After the journal: the first refresh, the listing, and the two loops.
    unfoldable pub execute_plan : Action (Run W) Status
    execute_plan = do
      state ← refresh
      versions ← lift (list_all versions_page)
      lift (require_all sha versions.objects state.protected_set.objects)
      held ← gets (λ s. s.deletions)
      lift (all_agree sha versions.objects held.states 0 plan.candidates)
      execute_from (length plan.candidates) 0

    unfoldable pub execute_loaded : List Deletion → Action (Run W) Status
    execute_loaded journal = do
      held ← lift (open_deletions digest plan.candidates journal)
      modify (λ s. record s { deletions = held })
      execute_plan

module _ (sha : Value → Text) (references role_references : ManifestRef → Result (List ObjectRef))
    (versions_page : Option Cursor → Result Value) {W : Type 0} (caps : Capabilities W) where
  unfoldable pub execute : RetentionPlan → Text → Action (Run W) Status
  execute input digest = do
    plan ← lift (checked_plan sha input digest)
    journal ← call caps.load_journal
    execute_loaded sha references role_references caps plan digest versions_page journal
