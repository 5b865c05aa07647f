-- ===== src/Retention/Checks.antt =====
-- scripts/backup-v2-retention.ts: `checkedPlan`, and what `executeBackupV2Retention` checks of the
-- journal and of the listing before its first effect.
use oracle_free_arch_vps.Base.{
  Bool, List, Option, Result, Text, [], codes, false, if◌then◌else◌, is_some, leb, length, lookup,
  map, map_result, none, not, ok, require, some, suc, text_eq, true, ℕ, ◌&&◌, ◌++◌, ◌==◌, ◌>>=◌,
  ◌>>◌, ◌∷◌,
}
use oracle_free_arch_vps.Profile.{assert_budget, journal_bytes, limit, prune_candidates}
use oracle_free_arch_vps.Json.{Value, bool, end, field, json_bytes, num, obj, str}
use oracle_free_arch_vps.Contract.Fields.{capture_shape, hex, matches, times}
use oracle_free_arch_vps.Contract.Refs.{
  ListedVersion, ObjectRef, object_ref_value, validate_object_ref,
}
use oracle_free_arch_vps.Contract.Pages.{items_value}
use oracle_free_arch_vps.Retention.Protection.{DryRun}
use oracle_free_arch_vps.Retention.Inventory.{retention_error}
use oracle_free_arch_vps.Retention.Snapshot.{distinct, sort_refs}
use oracle_free_arch_vps.Retention.Plan.{
  RetentionPlan, is_candidate, plan_value, require_present, same,
}
use oracle_free_arch_vps.Retention.Deletions.{Deletion, Outcome, absent, deleted, is_open}

abbrev pub plan_document : RetentionPlan → Value
plan_document p = obj (
    field "schemaVersion" (num 2) (
      field "format" (str (codes "backup-v2-retention")) (
        field "dryRun" (bool true) (
          field "preconditionSha256" (str p.precondition_sha256) (
            field "retainedCaptureIds" (items_value (map str p.retained_capture_ids)) (
              field "obsoleteLegacyCaptureIds" (items_value (map str p.obsolete_legacy_capture_ids))
                (field "candidates" (items_value (map object_ref_value p.candidates))
                  (field "digest" (str p.digest) end))))))))

abbrev pub is_hash : Text → Bool
is_hash t = matches (times 64 hex) t

unfoldable pub all_captures : List Text → Bool
all_captures [] = true
all_captures (t ∷ ts) = matches capture_shape t && all_captures ts

abbrev pub identity_of : ObjectRef → Text
identity_of r = r.file_id

abbrev pub attempts_so_far : Option Deletion → ℕ
attempts_so_far none = 0
attempts_so_far (some e) = e.attempt

abbrev pub is_done : Outcome → Bool
is_done deleted = true
is_done absent = true
is_done _ = false

abbrev pub done : Option Deletion → Bool
done none = false
done (some e) = is_done e.outcome

-- The attempt whose outcome is not known.
abbrev pub open_attempt : Option Deletion → Option ℕ
open_attempt none = none
open_attempt (some e) = if is_open e.outcome then some e.attempt else none

-- Every candidate is free: neither protected nor the name of a PUT that may still commit.
unfoldable pub all_free : DryRun → List ObjectRef → Bool
all_free d [] = true
all_free d (r ∷ rs) = is_candidate d r && all_free d rs

module _ (sha : Value → Text) where
  unfoldable pub checked_plan : RetentionPlan → Text → Result RetentionPlan
  checked_plan plan digest = do
    require
        (is_hash digest
          && text_eq plan.digest digest
          && text_eq (sha (plan_value plan)) digest
          && is_hash plan.precondition_sha256
          && length plan.retained_capture_ids == 4
          && distinct plan.retained_capture_ids)
        retention_error
    let captures = plan.retained_capture_ids ++ plan.obsolete_legacy_capture_ids
    require (distinct captures && all_captures captures) retention_error
    assert_budget prune_candidates (length plan.candidates)
    candidates ← map_result (λ r. validate_object_ref (object_ref_value r)) plan.candidates
    let value = record plan { candidates = candidates }
    require
        (distinct (map identity_of candidates)
          && same sha (items_value (map object_ref_value candidates))
              (items_value (map object_ref_value (sort_refs candidates))))
        retention_error
    require (leb (json_bytes (plan_document value)) (limit journal_bytes)) retention_error
    ok value

  -- A turn of the first loop: what the listing shows agrees with the journal.
  unfoldable pub agrees_with_listing :
      List (Text × ListedVersion) → Option Deletion → ObjectRef → Result (Unit {0})
  agrees_with_listing versions prior r =
      if done prior
      then require (not (is_some (lookup r.file_id versions))) retention_error
      else if is_some (lookup r.file_id versions)
      then require_present sha versions r
      else require (is_some (open_attempt prior)) retention_error

  unfoldable pub all_agree :
      List (Text × ListedVersion) → (ℕ → Option Deletion) → ℕ → List ObjectRef → Result (Unit {0})
  all_agree versions states k [] = ok tt
  all_agree versions states k (r ∷ rs) =
      agrees_with_listing versions (states k) r >> all_agree versions states (suc k) rs
