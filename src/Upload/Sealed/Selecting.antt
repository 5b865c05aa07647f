-- ===== src/Upload/Sealed/Selecting.antt =====
-- The steps of `uploadSealedBackupV2Object`: a slot is released only behind the barrier.
use oracle_free_arch_vps.Base.{Bool, List, Option, String, Text, none, refl, some, ℕ, ◌+◌, ◌∷◌, ◌≡◌}
use oracle_free_arch_vps.Contract.Refs.{ObjectRef}
use oracle_free_arch_vps.Contract.Slots.{SealedSlot}
use oracle_free_arch_vps.Contract.Leases.{readback}
use oracle_free_arch_vps.Upload.Records.{Identity, key_for, reclaimed, selected, verify}
use oracle_free_arch_vps.Actions.{Action}
use oracle_free_arch_vps.Actions.Triples.{After, After-continue, After-map, After-next, After-ok}
use oracle_free_arch_vps.Upload.Session.{
  Context, Event, Session, Transfer, appended, notify_deadline, notify_transfer, read_back,
  released,
}
use oracle_free_arch_vps.Upload.Sealed.{
  attempt_upload, begin_iteration, bind_name, check_deadline, complete_transfer, notify_verified,
  open_episode, select_and_release, selected_of, wait_for_retry,
}
use oracle_free_arch_vps.Upload.Sealed.Keeping.{
  Keeps, append-After, append-Keeps, begin_transfer-Keeps, call-Keeps, lift-Keeps, state-Keeps,
}
use oracle_free_arch_vps.Upload.Sealed.Barrier.{IsStored, Stays, Within, find_or_put-Within, more}

module _ (is_instant : Text → Bool) (instant_ms : Text → ℕ) (iso : ℕ → Text) {W : Type 0}
    (context : Context W) (i : Identity) (slot : SealedSlot) (ordinal offset : ℕ) where
  abbrev pub IsWithin : ℕ → List Event → Type 0
  IsWithin = Within is_instant instant_ms iso context i slot ordinal offset

  abbrev IsStaying : ℕ → {A : Type 0} → Action (Session W) A → Type 0
  IsStaying = Stays is_instant instant_ms iso context i slot ordinal offset

  bind_name-Keeps :
      (P : List Event → Type 0) (r : ObjectRef)
      → Keeps P (bind_name is_instant instant_ms iso context i slot ordinal offset r)
  unfolding bind_name
  bind_name-Keeps P r s q =
      After-continue _ _ _ _ _ (state-Keeps P (key_for i ordinal) s q) λ x t q.
        After-continue _ _ _ _ _ (lift-Keeps P _ t q) λ y t q.
          After-continue _ _ _ _ _ (lift-Keeps P _ t q)
            λ name t q. After-continue _ _ _ _ _ (lift-Keeps P _ t q) λ z t q. After-ok _ _ _ _ q

  notify_verified-Keeps :
      (P : List Event → Type 0) (o : Option ObjectRef) (r : ObjectRef)
      → Keeps P (notify_verified is_instant instant_ms iso context i slot ordinal offset o r)
  unfolding notify_verified
  notify_verified-Keeps P none r s q = call-Keeps P (context.on_verified ordinal offset r) s q
  notify_verified-Keeps P (some old) r s q = After-ok _ _ _ _ q

  -- The log when the slot was released.
  abbrev Released : Text → ObjectRef → List Event → Type 0
  Released name r l =
      (m : List Event) × (l ≡ released slot ∷ appended (selected name r) ∷ read_back r ∷ m)

  abbrev Chosen : ℕ → Text → ObjectRef → List Event → Type 0
  Chosen n name r l =
      (m : List Event) × IsWithin n m × (l ≡ appended (selected name r) ∷ read_back r ∷ m)

  Chosen-Within :
      (n : ℕ) (name : Text) (r : ObjectRef) (l : List Event) → Chosen n name r l → IsWithin n l
  Chosen-Within n name r l (m, within, e) = rw e within

  select-Released :
      (n : ℕ) (name : Text) (old : Option ObjectRef) (r : ObjectRef) (s : Session W)
      → IsWithin n s.log
      → After
          (λ u t. IsWithin n t.log × Released name r t.log)
          (λ t. IsWithin n t.log)
          (select_and_release is_instant instant_ms iso context i slot ordinal offset name old r s)
  unfolding select_and_release
  select-Released n name old r s q =
      After-continue _ _ _ _ _ (call-Keeps (IsWithin n) (context.verify_exact_readback r) s q)
        λ u t q. After-next _ _ _ _ _ (
          After-continue _ _ _ _ _
            (append-After is_instant context (Chosen n name r) (IsWithin n) (selected name r)
              (record t { log = read_back r ∷ t.log }) (t.log, q, refl) q)
            λ u t q.
              After-continue _ _ _ _ _
                (After-map _ _ _ _ _ (notify_verified-Keeps (Chosen n name r) old r t q)
                  (λ u t q. q) (λ t q. Chosen-Within n name r t.log q))
                λ u t q.
                  After-continue _ _ _ _ _
                    (After-map _ _ _ _ _
                      (call-Keeps (Chosen n name r) (context.spool_reclaim slot) t q) (λ u t q. q)
                      (λ t q. Chosen-Within n name r t.log q))
                    λ u t q. After-ok _ _ _ _ (rw q.2 (((refl, refl, q.1.0), q.1.1), (q.0, refl))))

  abbrev pub Ended : ℕ → ObjectRef → List Event → Type 0
  Ended n r l = IsWithin n l × IsStored slot r l

  complete-Keeps :
      (P : List Event → Type 0) (o : Option Transfer)
      → Keeps P (complete_transfer is_instant instant_ms iso context i slot ordinal offset o)
  complete-Keeps P none s q = lift-Keeps P _ s q
  complete-Keeps P (some x) s q = call-Keeps P (context.on_transfer_complete x.operation_id) s q

  Released-Ended :
      (n : ℕ) (name : Text) (r : ObjectRef) (l : List Event)
      → IsWithin n l
      → Released name r l
      → Ended n r (appended (reclaimed name) ∷ l)
  Released-Ended n name r l within (m, e) = (within, rw e (refl, refl, refl, refl))

  pub attempt-Ended :
      (n : ℕ) (s : Session W)
      → IsWithin n s.log
      → After
          (λ r t. Ended (n + 1) r t.log)
          (λ t. IsWithin (n + 1) t.log)
          (attempt_upload is_instant instant_ms iso context i slot ordinal offset s)
  unfolding attempt_upload
  attempt-Ended n s q =
      let raise = more is_instant instant_ms iso context i slot ordinal offset n in
      let up = IsWithin (n + 1) in
      After-continue _ _ _ _ _
        (After-map _ _ _ _ _ (state-Keeps (IsWithin n) (key_for i ordinal) s q) (λ x t q. q)
          (λ t q. raise t.log q))
        λ x t q.
          After-continue _ _ _ _ _
            (find_or_put-Within is_instant instant_ms iso context i slot ordinal offset n
              (selected_of x) t q)
            λ r t q. After-continue _ _ _ _ _ (bind_name-Keeps up r t q) λ name t q.
              After-continue _ _ _ _ _
                (append-Keeps is_instant context up (λ e l x. x) (verify name) t q)
                λ u t q.
                  After-continue _ _ _ _ _
                    (begin_transfer-Keeps is_instant context up (λ e l x. x) instant_ms iso
                      (key_for i ordinal) slot.bytes readback t q)
                    λ u t q.
                      After-continue _ _ _ _ _ (call-Keeps up (context.pace r.content_length) t q)
                        λ u t q.
                          After-continue _ _ _ _ _
                            (select-Released (n + 1) name (selected_of x) r t q)
                            λ u t q.
                              After-continue _ _ _ _ _
                                (append-After is_instant context (Ended (n + 1) r) up
                                  (reclaimed name) t (Released-Ended (n + 1) name r t.log q.0 q.1)
                                  q.0)
                                λ u t q. After-next _ _ _ _ _ (
                                  After-continue _ _ _ _ _
                                    (After-map _ _ _ _ _
                                      (complete-Keeps (Ended (n + 1) r) t.current t q) (λ u t q. q)
                                      (λ t q. q.0))
                                    λ u t q. After-ok _ _ _ _ q)

  open_episode-Stays :
      (n : ℕ) (o : Option ℕ)
      → IsStaying n (open_episode is_instant instant_ms iso context i slot ordinal offset o)
  unfolding open_episode
  open_episode-Stays n (some at) s q = After-ok _ _ _ _ q
  open_episode-Stays n none s q =
      After-continue _ _ _ _ _ (call-Keeps (IsWithin n) context.monotonic_now s q) λ started t q.
        After-continue _ _ _ _ _ (call-Keeps (IsWithin n) context.now t q) λ time t q.
          After-continue _ _ _ _ _ (append-Keeps is_instant context (IsWithin n) (λ e l x. x) _ t q)
            λ u t q. After-next _ _ _ _ _ (After-ok _ _ _ _ q)

  pub wait_for_retry-Stays :
      (n iteration : ℕ) (e : String)
      → IsStaying n
          (wait_for_retry is_instant instant_ms iso context i slot ordinal offset iteration e)
  unfolding wait_for_retry
  wait_for_retry-Stays n iteration e s q =
      After-continue _ _ _ _ _ (lift-Keeps (IsWithin n) _ s q) λ u t q. After-next _ _ _ _ _ (
        After-continue _ _ _ _ _ (open_episode-Stays n _ t q) λ at t q.
          After-continue _ _ _ _ _
            (call-Keeps (IsWithin n) (context.on_retry_episode (key_for i ordinal) slot.bytes at) t
              q)
            λ u t q. After-continue _ _ _ _ _ (lift-Keeps (IsWithin n) _ t q) λ u t q.
              After-continue _ _ _ _ _ (call-Keeps (IsWithin n) context.monotonic_now t q)
                λ time t q.
                  After-continue _ _ _ _ _ (lift-Keeps (IsWithin n) _ t q)
                    λ u t q. call-Keeps (IsWithin n) (context.sleep _) t q)

  check_deadline-Stays :
      (n : ℕ) (o : Option ℕ)
      → IsStaying n (check_deadline is_instant instant_ms iso context i slot ordinal offset o)
  unfolding check_deadline
  check_deadline-Stays n none s q = After-ok _ _ _ _ q
  check_deadline-Stays n (some at) s q =
      After-continue _ _ _ _ _ (call-Keeps (IsWithin n) context.monotonic_now s q)
        λ time t q. lift-Keeps (IsWithin n) _ t q

  notify_deadline-Keeps :
      (P : List Event → Type 0) (o : Option ℕ)
      → Keeps P (notify_deadline context (key_for i ordinal) slot.bytes o)
  notify_deadline-Keeps P none s q = After-ok _ _ _ _ q
  notify_deadline-Keeps P (some at) s q =
      call-Keeps P (context.on_retry_episode (key_for i ordinal) slot.bytes at) s q

  notify_transfer-Keeps :
      (P : List Event → Type 0) (o : Option Transfer) → Keeps P (notify_transfer context o)
  notify_transfer-Keeps P none s q = After-ok _ _ _ _ q
  notify_transfer-Keeps P (some x) s q = call-Keeps P (context.on_transfer_episode x) s q

  pub begin_iteration-Stays :
      (n : ℕ)
      → IsStaying n (begin_iteration is_instant instant_ms iso context i slot ordinal offset)
  unfolding begin_iteration
  begin_iteration-Stays n s q =
      After-continue _ _ _ _ _ (call-Keeps (IsWithin n) context.throw_if_aborted s q) λ u t q.
        After-next _ _ _ _ _ (
          After-continue _ _ _ _ _ (check_deadline-Stays n t.deadline t q) λ u v q.
            After-continue _ _ _ _ _ (notify_deadline-Keeps (IsWithin n) t.deadline v q)
              λ u t q. After-next _ _ _ _ _ (notify_transfer-Keeps (IsWithin n) t.current t q))
