-- ===== src/Contract/Receipts/Roster.antt =====
-- The receipt: a proof for each of the seven archives, and the four boot samples.
use oracle_free_arch_vps.Base.{
  All, Each, List, Option, Result-cases, Text, [], ap, arith, each_next, each_none, inl, inr, map,
  map_result, ok, refl, subst, sum_by, text_eq→eq, true, ◌∷◌, ◌≡◌, ◌≤◌,
}
use oracle_free_arch_vps.Profile.{assert_budget, ciphertext_bytes, limit}
use oracle_free_arch_vps.Json.{Fields, Value, arr, bool, get, null, num, obj, other, str}
use oracle_free_arch_vps.Contract.Fields.{bounded_array, object}
use oracle_free_arch_vps.Contract.Roles.{
  Role, format_text, is_text, read_format, read_role, role_text, roles,
}
use oracle_free_arch_vps.Contract.Pages.{inventory_fits, read_inventory}
use oracle_free_arch_vps.Contract.Receipts.{
  ArchiveProof, BootSample, Receipt, archive_bytes, archive_proof_keys, boot_samples,
  read_boot_sample, read_boot_samples, receipt_keys, roles_match, validate_archive_proof,
  validate_receipt,
}
use oracle_free_arch_vps.Contract.Root.Roster.{role_eq→eq}
use oracle_free_arch_vps.Inventory.{Summary}

roles_match-eq :
    (rs : List Role) (xs : List ArchiveProof) → roles_match rs xs ≡ true → map (λ x. x.role) xs ≡ rs
unfolding roles_match
roles_match-eq [] [] h = refl
roles_match-eq [] (x ∷ xs) h = absurd (ground arith)
roles_match-eq (r ∷ rs) [] h = absurd (ground arith)
roles_match-eq (r ∷ rs) (x ∷ xs) h =
    let first : x.role ≡ r = ground (arith, role_eq→eq x.role r) in
    let rest : map (λ y. y.role) xs ≡ rs = roles_match-eq rs xs (ground arith) in cc

read_boot_sample-eq-ok :
    (expected : Role × Text) (v : Value) (s : BootSample)
    → read_boot_sample expected v ≡ ok s
    → (s.role, s.member) ≡ expected
unfolding read_boot_sample
read_boot_sample-eq-ok expected v s h = ground arith

read_boot_samples-eq-ok :
    (xs : List (Role × Text)) (vs : List Value) (ss : List BootSample)
    → read_boot_samples xs vs ≡ ok ss
    → map (λ s. (s.role, s.member)) ss ≡ xs
unfolding read_boot_samples
read_boot_samples-eq-ok [] [] [] h = refl
read_boot_samples-eq-ok [] [] (s ∷ ss) h = absurd (ground arith)
read_boot_samples-eq-ok [] (v ∷ vs) ss h = absurd (ground arith)
read_boot_samples-eq-ok (x ∷ xs) [] ss h = absurd (ground arith)
read_boot_samples-eq-ok (x ∷ xs) (v ∷ vs) [] h = absurd (ground arith)
read_boot_samples-eq-ok (x ∷ xs) (v ∷ vs) (s ∷ ss) h =
    let first : read_boot_sample x v ≡ ok s = ground arith in
    let later : read_boot_samples xs vs ≡ ok ss = ground arith in
    let same = read_boot_sample-eq-ok x v s first in
    let rest = read_boot_samples-eq-ok xs vs ss later in cc

archive_parts :
    (v : Value) (a : ArchiveProof)
    → validate_archive_proof v ≡ ok a
    → (w u : Value) × (read_inventory w a.role ≡ ok a.inventory)
      × (read_format u a.role ≡ ok a.archive_format)
unfolding validate_archive_proof
archive_parts v a h = elim (Result-cases (object v archive_proof_keys)) [
  | inr (e, q) ↦ absurd (ground arith)
  | inl (r, q) ↦ (get r "inventory", get r "format", ground arith, ground arith)
]

read_inventory_fits :
    (v : Value) (role : Role) (s : Option Summary)
    → read_inventory v role ≡ ok s
    → inventory_fits role s ≡ true
unfolding read_inventory
read_inventory_fits null role s h = ground arith
read_inventory_fits other role s h = ground arith
read_inventory_fits (bool b) role s h = ground arith
read_inventory_fits (num n) role s h = ground arith
read_inventory_fits (str t) role s h = ground arith
read_inventory_fits (arr vs) role s h = ground arith
read_inventory_fits (obj fs) role s h = ground arith

read_format-eq :
    (v : Value) (role : Role) (t : Text) → read_format v role ≡ ok t → t ≡ format_text role
unfolding read_format
read_format-eq v role t h = ground arith

-- The proof's inventory and format are those of an archive of its role.
abbrev pub FitsRole : ArchiveProof → Type 0
FitsRole a = (inventory_fits a.role a.inventory ≡ true) × (a.archive_format ≡ format_text a.role)

archive_proof-FitsRole :
    (v : Value) (a : ArchiveProof) → validate_archive_proof v ≡ ok a → FitsRole a
archive_proof-FitsRole v a h =
    let (w, u, i, f) = archive_parts v a h in
    (read_inventory_fits w a.role a.inventory i, read_format-eq u a.role a.archive_format f)

archives-FitsRole :
    (vs : List Value) (xs : List ArchiveProof)
    → map_result validate_archive_proof vs ≡ ok xs
    → All FitsRole xs
archives-FitsRole [] [] h = tt
archives-FitsRole [] (x ∷ xs) h = absurd (ground arith)
archives-FitsRole (v ∷ vs) [] h = absurd (ground arith)
archives-FitsRole (v ∷ vs) (x ∷ xs) h =
    (archive_proof-FitsRole v x (ground arith), archives-FitsRole vs xs (ground arith))

receipt_parts :
    (v : Value) (r : Receipt)
    → validate_receipt v ≡ ok r
    → (vs ss : List Value) × (map_result validate_archive_proof vs ≡ ok r.archives)
      × (roles_match roles r.archives ≡ true)
      × (sum_by archive_bytes r.archives ≤ limit ciphertext_bytes)
      × (read_boot_samples boot_samples ss ≡ ok r.samples)
unfolding validate_receipt assert_budget
receipt_parts v r h = elim (Result-cases (object v receipt_keys)) [
  | inr (e, q) ↦ absurd (ground arith)
  | inl (f, q) ↦ elim (Result-cases (bounded_array (get f "archives") 7)) [
    | inr (e, b) ↦ absurd (ground arith)
    | inl (vs, b) ↦ elim (Result-cases (bounded_array (get f "bootSamples") 4)) [
      | inr (e, c) ↦ absurd (ground arith)
      | inl (ss, c) ↦ (vs, ss, ground arith, ground arith, ground arith, ground arith)
    ]
  ]
]

pub is_text→eq : (v : Value) (t : Text) → is_text v t ≡ true → v ≡ str t
is_text→eq null t h = absurd (ground arith)
is_text→eq other t h = absurd (ground arith)
is_text→eq (bool b) t h = absurd (ground arith)
is_text→eq (num n) t h = absurd (ground arith)
is_text→eq (str s) t h = ap str (text_eq→eq s t h)
is_text→eq (arr vs) t h = absurd (ground arith)
is_text→eq (obj fs) t h = absurd (ground arith)

-- The value is an object that itself states the sample's role and its member.
abbrev pub StatesSample : Value → BootSample → Type 0
StatesSample w s =
    (g : Fields) × (object w ("role" ∷ "member" ∷ "bytes" ∷ "sha256" ∷ []) ≡ ok g)
    × (get g "role" ≡ str (role_text s.role))
    × (get g "member" ≡ str s.member)

read_boot_sample-StatesSample :
    (expected : Role × Text) (v : Value) (s : BootSample)
    → read_boot_sample expected v ≡ ok s
    → StatesSample v s
unfolding read_boot_sample
read_boot_sample-StatesSample expected v s h =
    elim (Result-cases (object v ("role" ∷ "member" ∷ "bytes" ∷ "sha256" ∷ []))) [
      | inr (e, q) ↦ absurd (ground arith)
      | inl (g, q) ↦
          let first : is_text (get g "role") (role_text s.role) ≡ true = ground arith in
          let second : is_text (get g "member") s.member ≡ true = ground arith in
          (
            g,
            q,
            is_text→eq (get g "role") (role_text s.role) first,
            is_text→eq (get g "member") s.member second,
          )
    ]

read_boot_samples-StatesSample :
    (xs : List (Role × Text)) (vs : List Value) (ss : List BootSample)
    → read_boot_samples xs vs ≡ ok ss
    → Each StatesSample vs ss
unfolding read_boot_samples
read_boot_samples-StatesSample [] [] [] h = each_none
read_boot_samples-StatesSample [] [] (s ∷ ss) h = absurd (ground arith)
read_boot_samples-StatesSample [] (v ∷ vs) ss h = absurd (ground arith)
read_boot_samples-StatesSample (x ∷ xs) [] ss h = absurd (ground arith)
read_boot_samples-StatesSample (x ∷ xs) (v ∷ vs) [] h = absurd (ground arith)
read_boot_samples-StatesSample (x ∷ xs) (v ∷ vs) (s ∷ ss) h =
    each_next (read_boot_sample-StatesSample x v s (ground arith))
      (read_boot_samples-StatesSample xs vs ss (ground arith))

-- The value is an object that itself states the archive's role and its format.
abbrev pub StatesArchive : Value → ArchiveProof → Type 0
StatesArchive w a =
    (g : Fields) × (object w archive_proof_keys ≡ ok g)
    × (read_role (get g "role") ≡ ok a.role)
    × (get g "format" ≡ str a.archive_format)

read_format→eq : (v : Value) (role : Role) (t : Text) → read_format v role ≡ ok t → v ≡ str t
unfolding read_format
read_format→eq v role t h =
    let same : format_text role ≡ t = ground arith in
    let matched : is_text v (format_text role) ≡ true = ground arith in
    subst (λ x. v ≡ str x) same (is_text→eq v (format_text role) matched)

archive_proof-StatesArchive :
    (v : Value) (a : ArchiveProof) → validate_archive_proof v ≡ ok a → StatesArchive v a
unfolding validate_archive_proof
archive_proof-StatesArchive v a h = elim (Result-cases (object v archive_proof_keys)) [
  | inr (e, q) ↦ absurd (ground arith)
  | inl (g, q) ↦
      let read : read_format (get g "format") a.role ≡ ok a.archive_format = ground arith in
      (g, q, ground arith, read_format→eq (get g "format") a.role a.archive_format read)
]

archives-StatesArchive :
    (vs : List Value) (xs : List ArchiveProof)
    → map_result validate_archive_proof vs ≡ ok xs
    → Each StatesArchive vs xs
archives-StatesArchive [] [] h = each_none
archives-StatesArchive [] (x ∷ xs) h = absurd (ground arith)
archives-StatesArchive (v ∷ vs) [] h = absurd (ground arith)
archives-StatesArchive (v ∷ vs) (x ∷ xs) h =
    each_next (archive_proof-StatesArchive v x (ground arith))
      (archives-StatesArchive vs xs (ground arith))

-- The document itself states each archive's role and format, and each sample's role and member.
abbrev pub ReceiptStates : Value → Receipt → Type 0
ReceiptStates v r =
    (f : Fields) × (vs ss : List Value) × (object v receipt_keys ≡ ok f)
    × (bounded_array (get f "archives") 7 ≡ ok vs)
    × (bounded_array (get f "bootSamples") 4 ≡ ok ss)
    × Each StatesArchive vs r.archives
    × Each StatesSample ss r.samples

receipt-ReceiptStates : (v : Value) (r : Receipt) → validate_receipt v ≡ ok r → ReceiptStates v r
unfolding validate_receipt
receipt-ReceiptStates v r h = elim (Result-cases (object v receipt_keys)) [
  | inr (e, q) ↦ absurd (ground arith)
  | inl (f, q) ↦ elim (Result-cases (bounded_array (get f "archives") 7)) [
    | inr (e, b) ↦ absurd (ground arith)
    | inl (vs, b) ↦ elim (Result-cases (bounded_array (get f "bootSamples") 4)) [
      | inr (e, c) ↦ absurd (ground arith)
      | inl (ss, c) ↦
          let read : map_result validate_archive_proof vs ≡ ok r.archives = ground arith in
          let sampled : read_boot_samples boot_samples ss ≡ ok r.samples = ground arith in
          (
            f,
            vs,
            ss,
            q,
            b,
            c,
            archives-StatesArchive vs r.archives read,
            read_boot_samples-StatesSample boot_samples ss r.samples sampled,
          )
    ]
  ]
]

-- An accepted receipt proves exactly the seven archives in their fixed order, each with the format
-- of its role and with an inventory that is present and not empty just when the role has one, the
-- ciphertexts stay within the budget together, and its samples are the four fixed boot files. The
-- document itself states these roles, formats and members, each at its place.
pub receipt_roster :
    (v : Value) (r : Receipt)
    → validate_receipt v ≡ ok r
    → (map (λ a. a.role) r.archives ≡ roles)
      × All FitsRole r.archives
      × (sum_by archive_bytes r.archives ≤ limit ciphertext_bytes)
      × (map (λ s. (s.role, s.member)) r.samples ≡ boot_samples)
      × ReceiptStates v r
receipt_roster v r h =
    let (vs, ss, read, matched, fits, sampled) = receipt_parts v r h in
    (
      roles_match-eq roles r.archives matched,
      archives-FitsRole vs r.archives read,
      fits,
      read_boot_samples-eq-ok boot_samples ss r.samples sampled,
      receipt-ReceiptStates v r h,
    )
