-- ===== src/Inventory/Counts.antt =====
-- The running summary: what it reports is consistent, so that its validator accepts it.
use oracle_free_arch_vps.Base.{
  List, Result-cases, Text, [], arith, inl, inr, length, length-append, ok, refl, subst, sum_by,
  true, ℕ, ◌*◌, ◌+◌, ◌∷◌, ◌≡◌, ◌≤◌,
}
use oracle_free_arch_vps.Profile.{assert_budget, inventory_bytes, limit, members, path_bytes}
use oracle_free_arch_vps.Contract.Fields.{hex, matches, object, times}
use oracle_free_arch_vps.Inventory.{
  Bytes, Running, Summary, add, add_all, budgeted, encode_record, finish, new_summary, summarize,
  summary_value, uint32, validate_summary,
}

-- The counters, with the bytes that were hashed: each member has a path and a frame of 8 bytes
-- around its path and metadata.
pub record IsRunning (s : Running) : Type 0 where
  pub members_fit : s.members ≤ limit members
  pub paths_fit : s.path_bytes ≤ limit path_bytes
  pub bytes_fit : s.encoded_bytes ≤ limit inventory_bytes
  pub paths_full : s.members ≤ s.path_bytes
  pub frames_full : 8 * s.members + s.path_bytes ≤ s.encoded_bytes
  pub hashed_all : length s.hashed ≡ s.encoded_bytes

new_summary-IsRunning : IsRunning new_summary
new_summary-IsRunning = record {
  members_fit = omega arith;
  paths_fit = omega arith;
  bytes_fit = omega arith;
  paths_full = omega arith;
  frames_full = omega arith;
  hashed_all = refl;
}

length-encode_record :
    (path metadata frame : Bytes)
    → encode_record path metadata ≡ ok frame
    → (length frame ≡ 8 + (length path + length metadata)) × (1 ≤ length path)
unfolding encode_record uint32
length-encode_record [] metadata frame h = absurd (ground arith)
length-encode_record (c ∷ path) metadata frame h = ground (arith, length-append (c ∷ path) metadata)

add-IsRunning :
    (s t : Running) (path metadata : Bytes) → IsRunning s → add s path metadata ≡ ok t → IsRunning t
unfolding add assert_budget
add-IsRunning s t path metadata v h = elim (Result-cases (encode_record path metadata)) [
  | inr (e, q) ↦ absurd (ground arith)
  | inl (frame, q) ↦
      let (long, full) = length-encode_record path metadata frame q in
      record {
        members_fit = ground arith;
        paths_fit = ground arith;
        bytes_fit = ground arith;
        paths_full = ground arith;
        frames_full = ground arith;
        hashed_all = ground (arith, length-append s.hashed frame);
      }
]

add_all-IsRunning :
    (s t : Running) (records : List (Bytes × Bytes))
    → IsRunning s
    → add_all s records ≡ ok t
    → IsRunning t
unfolding add_all
add_all-IsRunning s t [] v h = let same : s ≡ t = ground arith in subst IsRunning same v
add_all-IsRunning s t (r ∷ rest) v h = elim (Result-cases (add s r.0 r.1)) [
  | inr (e, q) ↦ absurd (ground arith)
  | inl (u, q) ↦ add_all-IsRunning u t rest (add-IsRunning s u r.0 r.1 v q) (ground arith)
]

abbrev pub record_path_bytes : Bytes × Bytes → ℕ
record_path_bytes r = length r.0

add_counts :
    (s t : Running) (path metadata : Bytes)
    → add s path metadata ≡ ok t
    → (t.members ≡ s.members + 1) × (t.path_bytes ≡ s.path_bytes + length path)
unfolding add assert_budget
add_counts s t path metadata h = ground arith

add_all_counts :
    (s t : Running) (records : List (Bytes × Bytes))
    → add_all s records ≡ ok t
    → (t.members ≡ s.members + length records)
      × (t.path_bytes ≡ s.path_bytes + sum_by record_path_bytes records)
unfolding add_all
add_all_counts s t [] h = ground arith
add_all_counts s t (r ∷ rest) h = elim (Result-cases (add s r.0 r.1)) [
  | inr (e, q) ↦ absurd (ground arith)
  | inl (u, q) ↦
      let (m, p) = add_counts s u r.0 r.1 q in
      let (n, o) = add_all_counts u t rest (ground arith) in (omega arith, omega arith)
]

-- A summary that meets the counters' bounds is read back as it is.
validate_summary-summary_value :
    (s : Summary)
    → s.members ≤ limit members
    → s.path_bytes ≤ limit path_bytes
    → s.encoded_bytes ≤ limit inventory_bytes
    → s.members ≤ s.path_bytes
    → 8 * s.members + s.path_bytes ≤ s.encoded_bytes
    → matches (times 64 hex) s.sha256 ≡ true
    → validate_summary (summary_value s) ≡ ok s
unfolding validate_summary object budgeted assert_budget
validate_summary-summary_value s a b c d e f = ground arith

module _ (digest : Bytes → Text)
    (digest_hex : (b : Bytes) → matches (times 64 hex) (digest b) ≡ true) where
  -- With a digest of 64 hexadecimal digits, the summary of any records that are accepted is one
  -- that the validator accepts as it is; it counts the records and the bytes of their paths.
  pub summarize_valid :
      (records : List (Bytes × Bytes)) (s : Summary)
      → summarize digest records ≡ ok s
      → (validate_summary (summary_value s) ≡ ok s)
        × (s.members ≡ length records)
        × (s.path_bytes ≡ sum_by record_path_bytes records)
  unfolding summarize finish
  summarize_valid records s h = elim (Result-cases (add_all new_summary records)) [
    | inr (e, q) ↦ absurd (ground arith)
    | inl (t, q) ↦
        let v = add_all-IsRunning new_summary t records new_summary-IsRunning q in
        let (n, p) = add_all_counts new_summary t records q in
        let hashed : s.sha256 ≡ digest t.hashed = ground arith in
        (
          validate_summary-summary_value s (ground (arith, v.members_fit))
              (ground (arith, v.paths_fit)) (ground (arith, v.bytes_fit))
              (ground (arith, v.paths_full)) (ground (arith, v.frames_full))
              (rw hashed (digest_hex t.hashed)),
          ground (arith, n),
          ground (arith, p),
        )
  ]
