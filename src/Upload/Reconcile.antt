-- ===== src/Upload/Reconcile.antt =====
-- scripts/backup-v2-upload.ts: `reconcile`, the search for an object that an earlier PUT has left.
use oracle_free_arch_vps.Base.{Bool, List, Option, Text, [], err, none, some, suc, zero, ℕ, ◌∷◌}
use oracle_free_arch_vps.Profile.{limit, list_response_bytes}
use oracle_free_arch_vps.Contract.Refs.{Cursor, ObjectRef, VersionPage, validate_version_page}
use oracle_free_arch_vps.Contract.Slots.{PutIntent}
use oracle_free_arch_vps.Upload.Records.{scan}
use oracle_free_arch_vps.Upload.Operations.{Logical}
use oracle_free_arch_vps.Actions.{Action, lift, pure, ◌>>=◌, ◌>>◌}
use oracle_free_arch_vps.Upload.Session.{Context, Session, append_record, call, state_of}
use oracle_free_arch_vps.Upload.Versions.{first_version, next_cursor}

abbrev pub first : List ObjectRef → Option ObjectRef
first [] = none
first (r ∷ rs) = some r

module _ (is_instant : Text → Bool) {W : Type 0} (context : Context W) where
  unfoldable pub read_page : Text → Option Cursor → Action (Session W) VersionPage
  read_page name cursor = do
    append_record is_instant context scan
    call (context.pace (limit list_response_bytes))
    raw ← call (context.versions_page name cursor)
    lift (validate_version_page raw)

  -- `return` in a loop: what was found ends it.
  abbrev pub unless_found :
      Option ObjectRef
      → Action (Session W) (Option ObjectRef)
      → Action (Session W) (Option ObjectRef)
  unless_found (some r) next = pure (some r)
  unless_found none next = next

  abbrev pub for_cursor :
      Option Cursor
      → (Cursor → Action (Session W) (Option ObjectRef))
      → Action (Session W) (Option ObjectRef)
  for_cursor none next = pure none
  for_cursor (some c) next = next c

  -- The pages of one name, with fuel for those that are left: the check of the cursor refuses the
  -- one behind the thirty-third.
  unfoldable pub search_pages :
      PutIntent → Text → ℕ → List Cursor → Option Cursor → Action (Session W) (Option ObjectRef)
  search_pages i name zero seen cursor = lift (err "Backup v2 upload pagination did not terminate")
  search_pages i name (suc fuel) seen cursor = do
    page ← read_page name cursor
    found ← lift (first_version name i page.items)
    unless_found found (
        for_cursor page.next
          (λ c. lift (next_cursor seen c) >>= λ more. search_pages i name fuel more (some c)))

  unfoldable pub search_names : PutIntent → List Text → Action (Session W) (Option ObjectRef)
  search_names i [] = pure none
  search_names i (name ∷ names) = do
    found ← search_pages i name 33 [] none
    unless_found found (search_names i names)

  unfoldable pub reconcile_item : Option Logical → Action (Session W) (Option ObjectRef)
  reconcile_item none = pure none
  reconcile_item (some item) =
      unless_found (first item.candidates) (search_names item.intent item.names)

  -- `reconcile`
  unfoldable pub reconcile : Text → Action (Session W) (Option ObjectRef)
  reconcile key = do item ← state_of key; reconcile_item item
