-- ===== src/Retention/Runs.antt =====
-- Runs of a plan that retains four legacy captures: one that removes both candidates, and one in which the first
-- request throws.
use oracle_free_arch_vps.Base.{
  AllBelow, List, Option, Result, Text, [], codes, err, insert, length, lookup, map, none, ok, refl,
  some, suc, true, zero, ℕ, ◌++◌, ◌+◌, ◌-◌, ◌∷◌, ◌≡◌, ◌≤◌,
}
use oracle_free_arch_vps.Profile.{assert_budget}
use oracle_free_arch_vps.Json.{
  Value, decimal, end, field, json_bytes, null, num, obj, pad_digits, quote, stringify, utf8_length,
}
use oracle_free_arch_vps.Contract.Fields.{
  bounded_array, capture, has_control_character, hash, integer, matches, object, text, uuid,
}
use oracle_free_arch_vps.Contract.Names.{
  consume, consume_kind, exec_name, manifest, number_onto, object_name, parse_object_name, receipt,
}
use oracle_free_arch_vps.Contract.Roles.{text_lt}
use oracle_free_arch_vps.Contract.Refs.{
  Cursor, ObjectRef, validate_manifest_ref, validate_object_ref, validate_version,
  validate_version_page,
}
use oracle_free_arch_vps.Contract.Pages.{items_value}
use oracle_free_arch_vps.Retention.Protection.{
  admit, collect, insert_name, protect, protect_all, protect_document, protect_documents,
  protect_graph, protect_new, reserve, reserve_all, reserve_new, sort_names,
}
use oracle_free_arch_vps.Retention.Inventory.{
  list_all, list_pages, list_version, list_versions, version_value,
}
use oracle_free_arch_vps.Retention.Snapshot.{
  CatalogEntry, Snapshot, distinct, insert_entry, insert_manifest, insert_ref, is_visible,
  protection_state, receipts_of, roots_of, sort_catalog, sort_manifests, sort_refs,
}
use oracle_free_arch_vps.Retention.Plan.{
  RetentionPlan, add_all_obsolete, add_obsolete, find_ref, keep_candidates, legacy_ids,
  obsolete_entries, obsolete_entry, plan_retention, require_all, require_present, version_of,
}
use oracle_free_arch_vps.Retention.Deletions.{
  Deletion, Deletions, Outcome, ambiguous, apply_deletion, follows, intended, load_deletions,
  no_deletions, open_deletions,
}
use oracle_free_arch_vps.Retention.Deletions.Attempts.{intents}
use oracle_free_arch_vps.Retention.Checks.{
  agrees_with_listing, all_agree, all_captures, all_free, checked_plan, done,
}
use oracle_free_arch_vps.Actions.{continue}
use oracle_free_arch_vps.Retention.Execution.{
  Capabilities, Presence, Run, Status, append_entry, conclude, execute, execute_from,
  execute_loaded, execute_plan, pursue, refresh, remove_candidate, request, settle, start_run, turn,
}
use oracle_free_arch_vps.Retention.Execution.Guarded.{IsGuarded, entries}
use oracle_free_arch_vps.Retention.Execution.Turns.{IsStopped}
use oracle_free_arch_vps.Retention.Execution.Effects.{
  Reopens, execute_attempts, execute_completes, execute_guards, execute_stops, removals,
}
use oracle_free_arch_vps.Retention.Tests.{chunk_of, document_at, loaded, plan_of, put_id, stored_as}

all_steps : Unit {0}
unfolding object_name capture uuid text integer matches utf8_length parse_object_name exec_name
    consume consume_kind number_onto pad_digits object hash assert_budget has_control_character
    validate_object_ref json_bytes stringify quote decimal bounded_array validate_manifest_ref
    validate_version validate_version_page text_lt protect protect_all protect_document
    protect_documents reserve reserve_all insert_name sort_names protect_graph collect lookup insert
    list_version list_versions list_pages list_all is_visible insert_entry sort_catalog distinct
    roots_of receipts_of insert_ref sort_refs insert_manifest sort_manifests protection_state
    find_ref legacy_ids keep_candidates require_present require_all add_obsolete add_all_obsolete
    obsolete_entry obsolete_entries plan_retention protect_new admit reserve_new apply_deletion
    load_deletions follows continue all_captures all_free checked_plan agrees_with_listing all_agree
    append_entry refresh conclude request remove_candidate settle pursue turn execute_from
    execute_plan open_deletions execute_loaded execute
all_steps = tt

abbrev zeros : ℕ → Text
zeros zero = []
zeros (suc n) = b'0' ∷ zeros n

-- A checksum of the right shape.
abbrev length_hash : Value → Text
length_hash v = let digits = decimal (json_bytes v) in zeros (64 - length digits) ++ digits

abbrev capture_at : ℕ → Text
capture_at n = codes "generation-1111111" ++ (48 + n) ∷ codes "-1111-4111-8111-111111111111"

abbrev legacy_on : ℕ → CatalogEntry
legacy_on n = record {
  capture = capture_at n;
  accepted_at_utc = codes "2026-09-2" ++ (48 + n) ∷ [];
  references = none;
  document = num n;
}

abbrev five_captures : Snapshot
five_captures = record {
  custody = record { lock_id = codes "lock"; source_boot_id = put_id; source_settled = true };
  catalog =
      record (legacy_on 0) { references = some (document_at manifest 0, document_at receipt 1) }
      ∷ map legacy_on (1 ∷ 2 ∷ 3 ∷ 4 ∷ []);
  protection = record {
    accepted_roots = [];
    active_objects = [];
    sealed_role_manifests = [];
    unresolved_puts = [];
  };
  receipts = [];
  size = 100;
}

abbrev two_objects : List ObjectRef
two_objects = stored_as manifest 0 ∷ stored_as receipt 1 ∷ []

abbrev one_page : Option Cursor → Result Value
one_page cursor = ok (
    obj (
      field "items" (items_value (map (λ r. version_value (version_of r)) two_objects))
        (field "next" null end)))

abbrev willing : Capabilities ℕ
willing = record {
  observe_fresh = λ w. (ok five_captures, w);
  load_journal = λ w. (ok [], w);
  append_durable = λ e w. (ok tt, w);
  remove_exact = λ r w. (ok tt, w + 1);
  reconcile_exact = λ r w. (ok (some Presence.present), w);
  throw_if_aborted = λ w. (ok tt, w);
}

abbrev unwilling : Capabilities ℕ
unwilling = record willing { remove_exact = λ r w. (err "socket hang up", w) }

abbrev valid_plan : RetentionPlan
unfolding all_steps
valid_plan = plan_of (plan_retention length_hash chunk_of chunk_of one_page five_captures)

abbrev first_try : Outcome → Deletion
first_try outcome = record {
  plan_sha256 = valid_plan.digest;
  ordinal = 0;
  file_id = (stored_as manifest 0).file_id;
  file_name = (stored_as manifest 0).file_name;
  attempt = 1;
  outcome = outcome;
}

-- A process that ended after its first request threw.
abbrev old_journal : List Deletion
old_journal = first_try intended ∷ first_try ambiguous ∷ []

abbrev resuming : Capabilities ℕ
resuming = record willing { load_journal = λ w. (ok old_journal, w) }

abbrev old_state : Deletions
old_state = loaded (load_deletions valid_plan.digest valid_plan.candidates no_deletions old_journal)

abbrev run_on : Capabilities ℕ → Result Status × Run ℕ
run_on caps =
    execute length_hash chunk_of chunk_of one_page caps valid_plan valid_plan.digest (start_run 0)

execute_guards_example :
    IsGuarded length_hash chunk_of chunk_of resuming valid_plan (run_on resuming).1.log
execute_guards_example =
    execute_guards length_hash chunk_of chunk_of valid_plan resuming one_page valid_plan
      valid_plan.digest old_journal 0 (unfold all_steps in refl) (unfold all_steps in refl)

execute_attempts_example :
    Reopens length_hash chunk_of chunk_of valid_plan resuming one_page valid_plan.digest
      (old_journal ++ entries (run_on resuming).1.log)
    × (intents 0 old_journal + removals 0 (run_on resuming).1.log ≤ 16)
execute_attempts_example =
    execute_attempts length_hash chunk_of chunk_of valid_plan resuming one_page valid_plan
      valid_plan.digest old_journal 0 0 old_state (unfold all_steps in refl)
      (unfold all_steps in refl) (unfold all_steps in refl)

execute_completes_example :
    (2 ≡ length valid_plan.candidates)
    × (t : Deletions) × (load_deletions valid_plan.digest valid_plan.candidates no_deletions
          (old_journal ++ entries (run_on resuming).1.log)
        ≡ ok t)
    × AllBelow (λ k. done (t.states k) ≡ true) (length valid_plan.candidates)
unfolding valid_plan
execute_completes_example =
    execute_completes length_hash chunk_of chunk_of valid_plan resuming one_page valid_plan
      valid_plan.digest old_journal 0 2 (unfold all_steps in refl) (unfold all_steps in refl)
      (unfold all_steps in refl)

execute_stops_example : IsStopped unwilling 0 (run_on unwilling).1.log
execute_stops_example =
    execute_stops length_hash chunk_of chunk_of valid_plan unwilling one_page valid_plan
      valid_plan.digest [] 0 0 (unfold all_steps in refl) (unfold all_steps in refl)
      (unfold all_steps in refl)
