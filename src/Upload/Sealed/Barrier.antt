-- ===== src/Upload/Sealed/Barrier.antt =====
-- The order of the effects of `uploadSealedBackupV2Object`, read from the log of a session.
use oracle_free_arch_vps.Base.{
  Bool, List, Member, Option, Result, Text, [], arith, err, inl, inr, none, ok, refl, some, ℕ, ◌+◌,
  ◌∷◌, ◌≡◌, ◌≤◌,
}
use oracle_free_arch_vps.Contract.Refs.{ObjectRef}
use oracle_free_arch_vps.Contract.Slots.{PutIntent, SealedSlot}
use oracle_free_arch_vps.Contract.Leases.{put}
use oracle_free_arch_vps.Upload.Records.{
  Entry, Identity, candidate, intent, key_for, reclaimed, selected,
}
use oracle_free_arch_vps.Actions.{Action}
use oracle_free_arch_vps.Actions.Triples.{After, After-continue, After-map, After-next, After-ok}
use oracle_free_arch_vps.Upload.Session.{
  Context, Event, Session, appended, read_back, released, sent,
}
use oracle_free_arch_vps.Upload.Sealed.{
  answered, find_or_put, new_intent, or_else, put_object, put_once,
}
use oracle_free_arch_vps.Upload.Sealed.Keeping.{
  append-After, append-Keeps, begin_transfer-Keeps, call-Keeps, caught-Keeps, lift-Keeps,
  reconcile-Keeps,
}

-- The two effects right before: an exact readback, then the durable selection of the same object.
abbrev pub IsCleared : List Event → Type 0
IsCleared (appended (selected name r) ∷ read_back q ∷ log) = q ≡ r
IsCleared _ = ⊥

abbrev pub IsSafe : SealedSlot → List Event → Type 0
IsSafe slot [] = Unit
IsSafe slot (appended e ∷ log) = IsSafe slot log
IsSafe slot (read_back r ∷ log) = IsSafe slot log
IsSafe slot (sent i ∷ log) = Member (appended (intent i)) log × IsSafe slot log
IsSafe slot (released x ∷ log) = (x ≡ slot) × IsCleared log × IsSafe slot log

-- How many PUTs were sent.
abbrev pub puts_sent : List Event → ℕ
puts_sent [] = 0
puts_sent (sent i ∷ log) = 1 + puts_sent log
puts_sent (appended e ∷ log) = puts_sent log
puts_sent (read_back r ∷ log) = puts_sent log
puts_sent (released x ∷ log) = puts_sent log

-- The log of an upload that ended well.
abbrev pub IsStored : SealedSlot → ObjectRef → List Event → Type 0
IsStored slot r
      (appended (reclaimed m) ∷ released x ∷ appended (selected n q) ∷ read_back p ∷ log) =
    (m ≡ n) × (x ≡ slot) × (q ≡ r) × (p ≡ r)
IsStored slot r _ = ⊥

module _ (is_instant : Text → Bool) (instant_ms : Text → ℕ) (iso : ℕ → Text) {W : Type 0}
    (context : Context W) (i : Identity) (slot : SealedSlot) (ordinal offset : ℕ) where
  abbrev pub Within : ℕ → List Event → Type 0
  Within n l = IsSafe slot l × (puts_sent l ≤ n)

  abbrev pub Stays : ℕ → {A : Type 0} → Action (Session W) A → Type 0
  Stays n m =
      (s : Session W) → Within n s.log → After (λ a t. Within n t.log) (λ t. Within n t.log) (m s)

  -- The intent of a PUT is durable.
  abbrev Announced : ℕ → PutIntent → List Event → Type 0
  Announced n p l = IsSafe slot l × (puts_sent l ≤ n) × Member (appended (intent p)) l

  Announced-closed :
      (n : ℕ) (p : PutIntent) (e : Entry) (l : List Event)
      → Announced n p l
      → Announced n p (appended e ∷ l)
  Announced-closed n p e l (safe, few, known) = (safe, few, inr known)

  new_intent-Stays :
      (n : ℕ) → Stays n (new_intent is_instant instant_ms iso context i slot ordinal offset)
  unfolding new_intent
  new_intent-Stays n s q =
      After-continue _ _ _ _ _ (call-Keeps (Within n) context.new_put_id s q) λ id t q.
        After-continue _ _ _ _ _ (call-Keeps (Within n) context.now t q) λ time t q.
          After-continue _ _ _ _ _ (lift-Keeps (Within n) _ t q)
            λ name t q. lift-Keeps (Within n) _ t q

  put_once-Within :
      (n : ℕ) (p : PutIntent) (s : Session W)
      → Announced n p s.log
      → After
          (λ r t. Within (n + 1) t.log)
          (λ t. Within (n + 1) t.log)
          (put_once is_instant instant_ms iso context i slot ordinal offset p s)
  unfolding put_once
  put_once-Within n p s (safe, few, known) = After-next _ _ _ _ _ (
      After-continue _ _ _ _ _
        (call-Keeps (Within (n + 1)) (context.put_file_once p) (record s { log = sent p ∷ s.log })
          ((known, safe), omega arith))
        λ r t q. lift-Keeps (Within (n + 1)) _ t q)

  answered-Stays :
      (n : ℕ) (answer : Result ObjectRef)
      → Stays n (answered is_instant instant_ms iso context i slot ordinal offset answer)
  unfolding answered
  answered-Stays n (ok r) s q = After-ok _ _ _ _ q
  answered-Stays n (err wire) s q =
      After-continue _ _ _ _ _
        (reconcile-Keeps is_instant context (Within n) (λ e l x. x) (key_for i ordinal) s q)
        λ found t q. lift-Keeps (Within n) _ t q

  pub more : (n : ℕ) (l : List Event) → Within n l → Within (n + 1) l
  more n l (safe, few) = (safe, omega arith)

  -- One PUT is sent at most, after its intent.
  put_object-Within :
      (n : ℕ) (s : Session W)
      → Within n s.log
      → After
          (λ r t. Within (n + 1) t.log)
          (λ t. Within (n + 1) t.log)
          (put_object is_instant instant_ms iso context i slot ordinal offset s)
  unfolding put_object
  put_object-Within n s q =
      After-continue _ _ _ _ _
        (After-map _ _ _ _ _ (new_intent-Stays n s q) (λ p t q. q) (λ t q. more n t.log q))
        λ p t q.
          After-continue _ _ _ _ _
            (append-After is_instant context (Announced n p) (Within (n + 1)) (intent p) t
              (q.0, q.1, inl refl) (more n t.log q))
            λ u t q.
              After-continue _ _ _ _ _
                (After-map _ _ _ _ _
                  (begin_transfer-Keeps is_instant context (Announced n p) (Announced-closed n p)
                    instant_ms iso (key_for i ordinal) slot.bytes put t q)
                  (λ u t q. q) (λ t q. more n t.log (q.0, q.1)))
                λ u t q.
                  After-continue _ _ _ _ _
                    (After-map _ _ _ _ _ (call-Keeps (Announced n p) (context.pace slot.bytes) t q)
                      (λ u t q. q) (λ t q. more n t.log (q.0, q.1)))
                    λ u t q.
                      After-continue _ _ _ _ _
                        (caught-Keeps (Within (n + 1)) _ (put_once-Within n p t q))
                        λ answer t q.
                          After-continue _ _ _ _ _ (answered-Stays (n + 1) answer t q) λ r t q.
                            After-continue _ _ _ _ _
                              (append-Keeps is_instant context (Within (n + 1)) (λ e l x. x)
                                (candidate r.file_name r) t q)
                              λ u t q. After-ok _ _ _ _ q

  or_else-Within :
      (n : ℕ) (o : Option ObjectRef) (s : Session W)
      → Within n s.log
      → After
          (λ r t. Within (n + 1) t.log)
          (λ t. Within (n + 1) t.log)
          (or_else o (put_object is_instant instant_ms iso context i slot ordinal offset) s)
  or_else-Within n (some r) s q = After-ok _ _ _ _ (more n s.log q)
  or_else-Within n none s q = put_object-Within n s q

  pub find_or_put-Within :
      (n : ℕ) (o : Option ObjectRef) (s : Session W)
      → Within n s.log
      → After
          (λ r t. Within (n + 1) t.log)
          (λ t. Within (n + 1) t.log)
          (find_or_put is_instant instant_ms iso context i slot ordinal offset o s)
  unfolding find_or_put
  find_or_put-Within n (some r) s q = After-ok _ _ _ _ (more n s.log q)
  find_or_put-Within n none s q =
      After-continue _ _ _ _ _
        (After-map _ _ _ _ _
          (reconcile-Keeps is_instant context (Within n) (λ e l x. x) (key_for i ordinal) s q)
          (λ o t q. q) (λ t q. more n t.log q))
        λ found t q. or_else-Within n found t q
