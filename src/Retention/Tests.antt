-- ===== src/Retention/Tests.antt =====
-- Five accepted captures: the plan retains four and offers the documents of the oldest.
use oracle_free_arch_vps.Base.{
  All, List, Option, Result, Text, [], codes, drop, err, false, inl, insert, length, lookup, map,
  member, ok, refl, some, take, true, ℕ, ◌*◌, ◌++◌, ◌+◌, ◌∷◌, ◌≡◌, ◌≢◌, ◌≤◌,
}
use oracle_free_arch_vps.Profile.{assert_budget}
use oracle_free_arch_vps.Json.{
  Value, decimal, end, field, json_bytes, null, num, obj, pad_digits, quote, stringify, utf8_length,
}
use oracle_free_arch_vps.Contract.Fields.{
  bounded_array, capture, has_control_character, hash, integer, matches, object, text, uuid,
}
use oracle_free_arch_vps.Contract.Names.{
  Kind, Name, consume, consume_kind, data_object, exec_name, manifest, number_onto, object_name,
  parse_object_name, print_name, receipt,
}
use oracle_free_arch_vps.Contract.Roles.{text_lt}
use oracle_free_arch_vps.Contract.Refs.{
  Cursor, ManifestRef, ObjectRef, validate_manifest_ref, validate_object_ref, validate_version,
  validate_version_page,
}
use oracle_free_arch_vps.Contract.Pages.{items_value}
use oracle_free_arch_vps.Retention.Protection.{
  DryRun, References, admit, collect, insert_name, no_references, protect, protect_all,
  protect_document, protect_documents, protect_graph, protect_new, reserve, reserve_all,
  reserve_new, sort_names,
}
use oracle_free_arch_vps.Retention.Protection.Collecting.{
  Covers, IsProtected, IsReached, collect_covers,
}
use oracle_free_arch_vps.Retention.Inventory.{
  Listing, list_all, list_pages, list_version, list_versions, version_value,
}
use oracle_free_arch_vps.Retention.Snapshot.{
  CatalogEntry, Snapshot, State, distinct, entry_capture, insert_entry, insert_manifest, insert_ref,
  is_visible, protection_state, receipts_of, roots_of, sort_catalog, sort_manifests, sort_refs,
}
use oracle_free_arch_vps.Retention.Plan.{
  RetentionPlan, add_all_obsolete, add_obsolete, find_ref, keep_candidates, legacy_ids,
  obsolete_entries, obsolete_entry, plan_retention, require_all, require_present, version_of,
}
use oracle_free_arch_vps.Retention.Snapshot.Protecting.{state_protects_retained}
use oracle_free_arch_vps.Retention.Plan.Sparing.{IsListed, plan_spares}
use oracle_free_arch_vps.Retention.Deletions.{
  Deletion, Deletions, Outcome, ambiguous, apply_deletion, deleted, follows, intended,
  load_deletions, no_deletions, present,
}
use oracle_free_arch_vps.Retention.Deletions.Attempts.{
  attempts_of, deletion_attempts, intents, settlements,
}
use oracle_free_arch_vps.Retention.Snapshot.Ordering.{Parted}

all_code : Unit {0}
unfolding object_name capture uuid text integer matches utf8_length parse_object_name exec_name
    consume consume_kind number_onto pad_digits object hash assert_budget has_control_character
    validate_object_ref json_bytes stringify quote decimal bounded_array validate_manifest_ref
    validate_version validate_version_page text_lt protect protect_all protect_document
    protect_documents reserve reserve_all insert_name sort_names protect_graph collect lookup insert
    list_version list_versions list_pages list_all is_visible insert_entry sort_catalog distinct
    roots_of receipts_of insert_ref sort_refs insert_manifest sort_manifests protection_state
    find_ref legacy_ids keep_candidates require_present require_all add_obsolete add_all_obsolete
    obsolete_entry obsolete_entries plan_retention protect_new admit reserve_new apply_deletion
    load_deletions follows
all_code = tt

abbrev pub put_id : Text
put_id = codes "33333333-3333-4333-8333-333333333333"

abbrev name_of : Kind → ℕ → Name
name_of kind n = record {
  capture_id = codes "generation-11111111-1111-4111-8111-111111111111";
  attempt_id = put_id;
  kind = kind;
  ordinal = n;
  put_id = put_id;
}

abbrev pub stored_as : Kind → ℕ → ObjectRef
stored_as kind n = record {
  file_id = codes "4_z" ++ (48 + n) ∷ [];
  file_name = print_name (name_of kind n);
  content_length = 900;
  content_sha1 = codes "0123456789abcdef0123456789abcdef01234567";
  upload_timestamp = 1;
  sha256 = codes "0123456789abcdef0123456789abcdef0123456789abcdef0123456789abcdef";
}

abbrev pub document_at : Kind → ℕ → ManifestRef
document_at kind n = record {
  object = stored_as kind n;
  plaintext_sha256 = (stored_as kind n).sha256;
}

abbrev accepted_on : ℕ → CatalogEntry
accepted_on n = record {
  capture = codes "generation-" ++ (48 + n) ∷ [];
  accepted_at_utc = codes "2026-09-2" ++ (48 + n) ∷ [];
  references = some (document_at manifest (2 * n), document_at receipt (2 * n + 1));
  document = num n;
}

abbrev pub chunk_of : ManifestRef → Result (List ObjectRef)
chunk_of m = ok []

abbrev five_captures : Snapshot
five_captures = record {
  custody = record { lock_id = codes "lock"; source_boot_id = put_id; source_settled = true };
  catalog = map accepted_on (3 ∷ 0 ∷ 4 ∷ 1 ∷ 2 ∷ []);
  protection = record {
    accepted_roots = [];
    active_objects = [];
    sealed_role_manifests = [];
    unresolved_puts = [];
  };
  receipts = [];
  size = 100;
}

abbrev everything : List ObjectRef
everything =
    map (stored_as manifest) (0 ∷ 2 ∷ 4 ∷ 6 ∷ 8 ∷ [])
    ++ map (stored_as receipt) (1 ∷ 3 ∷ 5 ∷ 7 ∷ 9 ∷ [])

abbrev one_page : Option Cursor → Result Value
one_page cursor = ok (
    obj (
      field "items" (items_value (map (λ r. version_value (version_of r)) everything))
        (field "next" null end)))

abbrev state_of : Result State → State
state_of (ok s) = s
state_of (err e) = record {
  retained_capture_ids = [];
  obsolete = [];
  protected_set = record { objects = []; unresolved_names = [] };
  precondition_sha256 = [];
}

abbrev pub plan_of : Result RetentionPlan → RetentionPlan
plan_of (ok p) = p
plan_of (err e) = record {
  precondition_sha256 = [];
  retained_capture_ids = [];
  obsolete_legacy_capture_ids = [];
  candidates = [];
  digest = [];
}

abbrev all_protected : References
all_protected = record {
  accepted_roots = document_at manifest 2 ∷ [];
  active_objects = stored_as data_object 5 ∷ [];
  sealed_role_manifests = document_at manifest 4 ∷ [];
  unresolved_puts = [];
}

abbrev five_of : ManifestRef → Result (List ObjectRef)
five_of m = ok (stored_as data_object 6 ∷ [])

abbrev collected : DryRun
collected = record {
  objects =
      stored_as manifest 2
      ∷ stored_as data_object 6
      ∷ stored_as manifest 4
      ∷ stored_as receipt 3
      ∷ stored_as data_object 5
      ∷ [];
  unresolved_names = [];
}

collect_covers_example : Covers five_of five_of all_protected (document_at receipt 3 ∷ []) collected
collect_covers_example =
    collect_covers five_of five_of all_protected (document_at receipt 3 ∷ []) collected
      (unfold all_code in refl)

abbrev kept_state : State
unfolding all_code
kept_state = state_of (protection_state stringify chunk_of chunk_of five_captures)

state_protects_retained_example :
    let retained = take 4 (sort_catalog five_captures.catalog) in
    (kept_state.retained_capture_ids ≡ map entry_capture retained)
    × (kept_state.obsolete ≡ drop 4 (sort_catalog five_captures.catalog))
    × (length retained ≡ 4)
    × Parted five_captures.catalog retained kept_state.obsolete
    × All (IsReached chunk_of kept_state.protected_set) (roots_of retained)
    × All (IsReached no_references kept_state.protected_set) (receipts_of retained)
    × All (IsProtected kept_state.protected_set) five_captures.protection.active_objects
state_protects_retained_example =
    state_protects_retained stringify chunk_of chunk_of five_captures kept_state
      (unfold all_code in refl)

abbrev five_plan : RetentionPlan
unfolding all_code
five_plan = plan_of (plan_retention stringify chunk_of chunk_of one_page five_captures)

plan_spares_example :
    (s : State) × (versions : Listing) × (protection_state stringify chunk_of chunk_of five_captures
      ≡ ok s)
    × (list_all one_page ≡ ok versions)
    × All (λ x. x.file_id ≢ (stored_as manifest 0).file_id) s.protected_set.objects
    × (member (stored_as manifest 0).file_name s.protected_set.unresolved_names ≡ false)
    × IsListed stringify versions (stored_as manifest 0)
    × (five_plan.retained_capture_ids ≡ s.retained_capture_ids)
plan_spares_example =
    plan_spares stringify chunk_of chunk_of one_page five_captures five_plan (stored_as manifest 0)
      (unfold all_code in refl) (unfold all_code in inl refl)

abbrev plan_digest : Text
plan_digest = (stored_as manifest 0).sha256

abbrev recorded : ℕ → Outcome → Deletion
recorded n outcome = record {
  plan_sha256 = plan_digest;
  ordinal = 0;
  file_id = (stored_as manifest 0).file_id;
  file_name = (stored_as manifest 0).file_name;
  attempt = n;
  outcome = outcome;
}

abbrev two_attempts : List Deletion
two_attempts =
    recorded 1 intended
    ∷ recorded 1 ambiguous
    ∷ recorded 1 present
    ∷ recorded 2 intended
    ∷ recorded 2 deleted
    ∷ []

abbrev pub loaded : Result Deletions → Deletions
loaded (ok s) = s
loaded (err e) = no_deletions

abbrev final_deletions : Deletions
final_deletions =
    loaded (load_deletions plan_digest (stored_as manifest 0 ∷ []) no_deletions two_attempts)

deletion_attempts_example :
    (intents 0 two_attempts ≡ attempts_of (final_deletions.states 0))
    × (intents 0 two_attempts ≤ 16)
    × (settlements 0 two_attempts ≤ 1)
deletion_attempts_example =
    deletion_attempts plan_digest (stored_as manifest 0 ∷ []) final_deletions two_attempts 0
      (unfold all_code in refl)
