-- ===== src/Retention/Inventory.antt =====
-- scripts/backup-v2-retention.ts: `inventory`, the complete listing of the namespace, page by page.
-- The reader's `versionsPage` is a parameter, a function of the cursor: no cursor is used twice.
use oracle_free_arch_vps.Base.{
  Bool, List, Option, Result, String, Text, [], codes, err, false, insert, is_some, leb, length,
  lookup, none, not, ok, require, some, suc, text_eq, true, zero, ℕ, ◌&&◌, ◌*◌, ◌+◌, ◌>>=◌, ◌>>◌,
  ◌||◌, ◌∷◌,
}
use oracle_free_arch_vps.Profile.{
  assert_budget, budget_error, limit, list_entries, prune_candidates, retention_bytes,
}
use oracle_free_arch_vps.Json.{Value, end, field, json_bytes, num, obj, str}
use oracle_free_arch_vps.Contract.Refs.{
  Action, Cursor, ListedVersion, upload, validate_version_page,
}

abbrev pub retention_error : String
retention_error = "Retention identity, protection or precondition invalid"

abbrev pub version_value : ListedVersion → Value
version_value v = obj (
    field "fileId" (str v.file_id) (
      field "fileName" (str v.file_name) (
        field "contentLength" (num v.content_length) (
          field "contentSha1" (str v.content_sha1) (
            field "uploadTimestamp" (num v.upload_timestamp)
              (field "action" (str (codes "upload")) end))))))

-- The local state: the map `objects` and the counter `bytes`.
pub record Listing : Type 0 where
  pub objects : List (Text × ListedVersion)
  pub bytes : ℕ

abbrev pub is_upload : Action → Bool
is_upload upload = true
is_upload _ = false

unfoldable pub list_version : Listing → ListedVersion → Result Listing
list_version s v = do
  require (is_upload v.action && not (is_some (lookup v.file_id s.objects))) retention_error
  assert_budget prune_candidates (length s.objects + 1)
  require (leb (s.bytes + json_bytes (version_value v)) retention_bytes) retention_error
  ok (record {
    objects = insert v.file_id v s.objects;
    bytes = s.bytes + json_bytes (version_value v);
  })

unfoldable pub list_versions : Listing → List ListedVersion → Result Listing
list_versions s [] = ok s
list_versions s (v ∷ vs) = list_version s v >>= λ t. list_versions t vs

abbrev pub cursor_eq : Cursor → Cursor → Bool
cursor_eq a b = text_eq a.file_name b.file_name && text_eq a.file_id b.file_id

abbrev pub seen_cursor : Cursor → List Cursor → Bool
seen_cursor c [] = false
seen_cursor c (d ∷ ds) = cursor_eq d c || seen_cursor c ds

module _ (versions_page : Option Cursor → Result Value) where
  -- The loop, with fuel for the pages that are left: the page after the last is over the budget.
  unfoldable pub list_pages : ℕ → ℕ → Listing → List Cursor → Option Cursor → Result Listing
  list_pages zero pages s seen cursor = err (budget_error prune_candidates)
  list_pages (suc fuel) pages s seen cursor = do
    assert_budget prune_candidates ((pages + 1) * limit list_entries)
    raw ← versions_page cursor
    page ← validate_version_page raw
    t ← list_versions s page.items
    elim page.next [
      | none ↦ ok t
      | some c ↦
          require (not (seen_cursor c seen)) retention_error
          >> list_pages fuel (pages + 1) t (c ∷ seen) (some c)
    ]

  unfoldable pub list_all : Result Listing
  list_all = list_pages 1001 0 (record { objects = []; bytes = 0 }) [] none
