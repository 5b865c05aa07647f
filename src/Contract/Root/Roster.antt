-- ===== src/Contract/Root/Roster.antt =====
-- The root: one manifest for each of the seven roles.
use oracle_free_arch_vps.Base.{
  All, List, Result-cases, [], arith, inl, inr, map, ok, refl, text_eq→eq, true, ◌∷◌, ◌≡◌,
}
use oracle_free_arch_vps.Json.{Value, get, str}
use oracle_free_arch_vps.Contract.Fields.{bounded_array, object}
use oracle_free_arch_vps.Contract.Names.{Name, manifest, parse_object_name}
use oracle_free_arch_vps.Contract.Roles.{Role, role_eq, roles, text_lt}
use oracle_free_arch_vps.Contract.Root.{
  Root, RootRole, read_root_role, read_root_roles, root_keys, validate_root,
}
use oracle_free_arch_vps.Contract.Pages.Tiling.{kind_eq→eq}

-- The manifest of a role's entry is named for the entry's attempt, and its capture took time.
abbrev pub IsRoleEntry : RootRole → Type 0
IsRoleEntry r =
    ((n : Name) × (parse_object_name (str r.manifest.object.file_name) ≡ ok n)
      × (n.attempt_id ≡ r.attempt_id)
      × (n.kind ≡ manifest))
    × (text_lt r.capture_started_at_utc r.capture_finished_at_utc ≡ true)

pub role_eq→eq : (a b : Role) → role_eq a b ≡ true → a ≡ b
role_eq→eq a b h = ground arith

read_root_role-IsRoleEntry :
    (expected : Role) (v : Value) (r : RootRole)
    → read_root_role expected v ≡ ok r
    → (r.role ≡ expected) × IsRoleEntry r
unfolding read_root_role
read_root_role-IsRoleEntry expected v r h =
    elim (Result-cases (parse_object_name (str r.manifest.object.file_name))) [
      | inr (e, q) ↦ absurd (ground arith)
      | inl (n, q) ↦ (
        ground (arith, role_eq→eq r.role expected),
        (
          (
            n,
            q,
            ground (arith, text_eq→eq n.attempt_id r.attempt_id),
            ground (arith, kind_eq→eq n.kind manifest),
          ),
          ground arith,
        ),
      )
    ]

abbrev pub entry_role : RootRole → Role
entry_role r = r.role

read_root_roles-IsRoleEntry :
    (rs : List Role) (vs : List Value) (xs : List RootRole)
    → read_root_roles rs vs ≡ ok xs
    → (map entry_role xs ≡ rs) × All IsRoleEntry xs
unfolding read_root_roles
read_root_roles-IsRoleEntry [] [] [] h = (refl, tt)
read_root_roles-IsRoleEntry [] [] (x ∷ xs) h = absurd (ground arith)
read_root_roles-IsRoleEntry [] (v ∷ vs) xs h = absurd (ground arith)
read_root_roles-IsRoleEntry (r ∷ rs) [] xs h = absurd (ground arith)
read_root_roles-IsRoleEntry (r ∷ rs) (v ∷ vs) [] h = absurd (ground arith)
read_root_roles-IsRoleEntry (r ∷ rs) (v ∷ vs) (x ∷ xs) h =
    let first : read_root_role r v ≡ ok x = ground arith in
    let later : read_root_roles rs vs ≡ ok xs = ground arith in
    let (same, entry) = read_root_role-IsRoleEntry r v x first in
    let (rest, entries) = read_root_roles-IsRoleEntry rs vs xs later in (cc, (entry, entries))

root_read :
    (v : Value) (t : Root)
    → validate_root v ≡ ok t
    → (vs : List Value) × (read_root_roles roles vs ≡ ok t.roles)
unfolding validate_root
root_read v t h = elim (Result-cases (object v root_keys)) [
  | inr (e, q) ↦ absurd (ground arith)
  | inl (r, q) ↦ elim (Result-cases (bounded_array (get r "roles") 7)) [
    | inr (e, b) ↦ absurd (ground arith)
    | inl (vs, b) ↦ (vs, ground arith)
  ]
]

-- An accepted root has an entry for each of the seven roles and no other, in their fixed order;
-- each entry's manifest is named as a manifest of the entry's attempt, and its capture finished
-- after it started.
pub root_roster :
    (v : Value) (t : Root)
    → validate_root v ≡ ok t
    → (map entry_role t.roles ≡ roles) × All IsRoleEntry t.roles
root_roster v t h = let (vs, e) = root_read v t h in read_root_roles-IsRoleEntry roles vs t.roles e
