-- ===== src/Upload/Sealed/Keeping.antt =====
-- The steps of an upload that neither send a PUT nor release a slot: they keep what holds of the
-- log, as long as one more durable record keeps it.
use oracle_free_arch_vps.Base.{
  Bool, List, Option, Result, Text, [], err, if◌then◌else◌, lookup, none, ok, some, suc, true, zero,
  ℕ, ◌∷◌,
}
use oracle_free_arch_vps.Profile.{limit, list_response_bytes}
use oracle_free_arch_vps.Contract.Refs.{Cursor, ObjectRef}
use oracle_free_arch_vps.Contract.Slots.{PutIntent}
use oracle_free_arch_vps.Contract.Leases.{TransferPhase, put, readback}
use oracle_free_arch_vps.Upload.Records.{Entry, scan}
use oracle_free_arch_vps.Upload.Operations.{Journal, Logical}
use oracle_free_arch_vps.Upload.Journal.{append}
use oracle_free_arch_vps.Actions.{Action, caught, lift}
use oracle_free_arch_vps.Actions.Triples.{After, After-continue, After-err, After-next, After-ok}
use oracle_free_arch_vps.Upload.Session.{
  Context, Event, Session, Transfer, append_checked, append_record, appended, begin_transfer, call,
  find_window, moved, open_window, set_window, settle_append, state_of,
}
use oracle_free_arch_vps.Upload.Reconcile.{
  first, for_cursor, read_page, reconcile, reconcile_item, search_names, search_pages, unless_found,
}

module _ (is_instant : Text → Bool) {W : Type 0} (context : Context W)
    (Q E : List Event → Type 0) where
  settle-After :
      (e : Entry) (s : Session W) (p : Journal × Result ℕ)
      → Q (appended e ∷ s.log)
      → E s.log
      → After (λ a t. Q t.log) (λ t. E t.log) (settle_append is_instant context e s p)
  settle-After e s (j, err m) q x = After-err _ _ _ _ x
  settle-After e s (j, ok size) q x = After-ok _ _ _ _ q

  checked-After :
      (e : Entry) (s : Session W) (p : Journal × Result ℕ)
      → Q (appended e ∷ s.log)
      → E s.log
      → After (λ a t. Q t.log) (λ t. E t.log) (append_checked is_instant context e s p)
  checked-After e s (j, err m) q x = After-err _ _ _ _ x
  checked-After e s (j, ok size) q x =
      let (written, w) = context.persist e s.world in
      settle-After e (record s { world = w }) (append is_instant written s.journal e) q x

  -- A record is in the log exactly when it was appended.
  pub append-After :
      (e : Entry) (s : Session W)
      → Q (appended e ∷ s.log)
      → E s.log
      → After (λ a t. Q t.log) (λ t. E t.log) (append_record is_instant context e s)
  unfolding append_record
  append-After e s q x = checked-After e s (append is_instant true s.journal e) q x

module _ {W : Type 0} (P : List Event → Type 0) where
  abbrev pub Keeps : {A : Type 0} → Action (Session W) A → Type 0
  Keeps m = (s : Session W) → P s.log → After (λ a t. P t.log) (λ t. P t.log) (m s)

  moved-Keeps :
      {A : Type 0} (p : Result A × W) (s : Session W)
      → P s.log
      → After (λ a t. P t.log) (λ t. P t.log) (moved s p)
  moved-Keeps (ok a, w) s q = After-ok _ _ _ _ q
  moved-Keeps (err e, w) s q = After-err _ _ _ _ q

  pub call-Keeps : {A : Type 0} (m : Action W A) → Keeps (call m)
  call-Keeps m s q = moved-Keeps (m s.world) s q

  pub lift-Keeps : {A : Type 0} (r : Result A) → Keeps (lift r)
  lift-Keeps (ok a) s q = After-ok _ _ _ _ q
  lift-Keeps (err e) s q = After-err _ _ _ _ q

  pub state-Keeps : (k : Text) → Keeps (state_of {W = W} k)
  state-Keeps k s q =
      lift-Keeps
        (if s.journal.poisoned then err "journal is poisoned" else ok (lookup k s.journal.logical))
        s q

  pub caught-Keeps :
      {A : Type 0} (p : Result A × Session W)
      → After (λ a t. P t.log) (λ t. P t.log) p
      → After (λ a t. P t.log) (λ t. P t.log) (caught p)
  unfolding After
  caught-Keeps (ok a, s) q = q
  caught-Keeps (err e, s) q = q

module _ (is_instant : Text → Bool) {W : Type 0} (context : Context W) (P : List Event → Type 0)
    (closed : (e : Entry) (l : List Event) → P l → P (appended e ∷ l)) where
  pub append-Keeps : (e : Entry) → Keeps P (append_record is_instant context e)
  append-Keeps e s q = append-After is_instant context P P e s (closed e s.log q) q

  module _ (instant_ms : Text → ℕ) (iso : ℕ → Text) where
    open_window-Keeps :
        (k : Text) (phase : TransferPhase) (started : ℕ) (old : Option Text)
        → Keeps P (open_window is_instant context instant_ms iso k phase started old)
    unfolding open_window
    open_window-Keeps k phase started none s q =
        After-continue _ _ _ _ _ (call-Keeps P context.now s q)
          λ time t q. After-continue _ _ _ _ _ (append-Keeps _ t q) λ u t q. After-ok _ _ _ _ q
    open_window-Keeps k phase started (some old) s q =
        After-continue _ _ _ _ _ (call-Keeps P context.now s q)
          λ time t q. After-continue _ _ _ _ _ (lift-Keeps P _ t q) λ u t q. After-ok _ _ _ _ q

    set-Keeps :
        (phase : TransferPhase) (x : Transfer) (s : Session W)
        → P s.log
        → After (λ a t. P t.log) (λ t. P t.log) (ok x, set_window phase x s)
    set-Keeps put x s q = After-ok _ _ _ _ q
    set-Keeps readback x s q = After-ok _ _ _ _ q

    find_window-Keeps :
        (k : Text) (n : ℕ) (phase : TransferPhase) (known : Option Transfer)
        → Keeps P (find_window is_instant context instant_ms iso k n phase known)
    unfolding find_window
    find_window-Keeps k n phase (some x) s q = After-ok _ _ _ _ q
    find_window-Keeps k n phase none s q = After-next _ _ _ _ _ (
        After-continue _ _ _ _ _ (call-Keeps P context.monotonic_now s q) λ time t q.
          After-continue _ _ _ _ _ (open_window-Keeps k phase time _ t q)
            λ expires t q. After-next _ _ _ _ _ (set-Keeps phase _ t q))

    pub begin_transfer-Keeps :
        (k : Text) (n : ℕ) (phase : TransferPhase)
        → Keeps P (begin_transfer is_instant context instant_ms iso k n phase)
    unfolding begin_transfer
    begin_transfer-Keeps k n phase s q = After-next _ _ _ _ _ (
        After-continue _ _ _ _ _ (find_window-Keeps k n phase _ s q) λ x t q.
          After-continue _ _ _ _ _ (call-Keeps P context.monotonic_now t q) λ time t q.
            After-continue _ _ _ _ _ (lift-Keeps P _ t q)
              λ u t q. After-next _ _ _ _ _ (call-Keeps P (context.on_transfer_episode x) _ q))

  -- `reconcile` only reads.
  read_page-Keeps :
      (name : Text) (c : Option Cursor) → Keeps P (read_page is_instant context name c)
  unfolding read_page
  read_page-Keeps name c s q = After-continue _ _ _ _ _ (append-Keeps scan s q) λ u t q.
      After-continue _ _ _ _ _ (call-Keeps P (context.pace (limit list_response_bytes)) t q)
        λ u t q.
          After-continue _ _ _ _ _ (call-Keeps P (context.versions_page name c) t q)
            λ raw t q. lift-Keeps P _ t q

  unless-Keeps :
      (m : Action (Session W) (Option ObjectRef)) (o : Option ObjectRef)
      → Keeps P m
      → Keeps P (unless_found is_instant context o m)
  unless-Keeps m (some r) keeps s q = After-ok _ _ _ _ q
  unless-Keeps m none keeps s q = keeps s q

  for-Keeps :
      (f : Cursor → Action (Session W) (Option ObjectRef)) (o : Option Cursor)
      → ((c : Cursor) → Keeps P (f c))
      → Keeps P (for_cursor is_instant context o f)
  for-Keeps f none keeps s q = After-ok _ _ _ _ q
  for-Keeps f (some c) keeps s q = keeps c s q

  search_pages-Keeps :
      (i : PutIntent) (name : Text) (fuel : ℕ) (seen : List Cursor) (c : Option Cursor)
      → Keeps P (search_pages is_instant context i name fuel seen c)
  unfolding search_pages
  search_pages-Keeps i name zero seen c s q = lift-Keeps P _ s q
  search_pages-Keeps i name (suc fuel) seen c s q =
      After-continue _ _ _ _ _ (read_page-Keeps name c s q) λ page t q.
        After-continue _ _ _ _ _ (lift-Keeps P _ t q) λ found t q.
          unless-Keeps _ found
            (λ t q.
              for-Keeps _ page.next
                (λ c t q.
                  After-continue _ _ _ _ _ (lift-Keeps P _ t q)
                    λ more t q. search_pages-Keeps i name fuel more (some c) t q)
                t q)
            t q

  search_names-Keeps :
      (i : PutIntent) (names : List Text) → Keeps P (search_names is_instant context i names)
  unfolding search_names
  search_names-Keeps i [] s q = After-ok _ _ _ _ q
  search_names-Keeps i (name ∷ names) s q =
      After-continue _ _ _ _ _ (search_pages-Keeps i name 33 [] none s q)
        λ found t q. unless-Keeps _ found (search_names-Keeps i names) t q

  item-Keeps : (o : Option Logical) → Keeps P (reconcile_item is_instant context o)
  unfolding reconcile_item
  item-Keeps none s q = After-ok _ _ _ _ q
  item-Keeps (some x) s q =
      unless-Keeps _ (first x.candidates) (search_names-Keeps x.intent x.names) s q

  pub reconcile-Keeps : (k : Text) → Keeps P (reconcile is_instant context k)
  unfolding reconcile
  reconcile-Keeps k s q = After-continue _ _ _ _ _ (state-Keeps P k s q) λ x t q. item-Keeps x t q
