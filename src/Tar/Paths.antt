-- ===== src/Tar/Paths.antt =====
-- scripts/backup-tar-consumers.ts: `normalizeTarPath`. A path is a list of bytes.
pub mod Clean
pub mod Fixed
use oracle_free_arch_vps.Base.{
  Bool, List, Option, Result, String, [], codes, err, false, if◌then◌else◌, is_some, none, not, ok,
  require, some, text_eq, true, ◌++◌, ◌==◌, ◌>>=◌, ◌>>◌, ◌||◌, ◌∷◌,
}
use oracle_free_arch_vps.Inventory.{Bytes}

abbrev pub nul_error : String
nul_error = "Stream tar rejected: NUL path"

abbrev pub escape_error : String
escape_error = "Stream tar rejected: path escapes archive root"

unfoldable pub has_zero : Bytes → Bool
has_zero [] = false
has_zero (c ∷ s) = c == 0 || has_zero s

-- The parts between the slashes of a path, the last one included.
unfoldable pub parts : Bytes → Bytes → List Bytes
parts part [] = part ∷ []
parts part (c ∷ s) = elim (c == b'/') [
  | true ↦ part ∷ parts [] s
  | false ↦ parts (part ++ c ∷ []) s
]

abbrev pub is_dot : Bytes → Bool
is_dot part = text_eq part (codes ".")

abbrev pub is_dot_dot : Bytes → Bool
is_dot_dot part = text_eq part (codes "..")

abbrev pub is_empty : Bytes → Bool
is_empty [] = true
is_empty (c ∷ s) = false

-- `components.pop()` of components that are kept with the last one first.
pub data Part : Type 0 where
  skip up down : Part

abbrev pub part_kind : Bytes → Part
part_kind part = if is_empty part || is_dot part then skip else if is_dot_dot part then up else down

unfoldable pub add_part : Bool → Part → Bytes → List Bytes → Result (List Bytes)
add_part targets skip part stack = ok stack
add_part targets down part stack = ok (part ∷ stack)
add_part false up part stack = err escape_error
add_part true up part [] = err escape_error
add_part true up part (top ∷ stack) = ok stack

-- The loop of `add`, over the parts of one path.
unfoldable pub add_parts : Bool → List Bytes → List Bytes → Result (List Bytes)
add_parts targets [] stack = ok stack
add_parts targets (p ∷ ps) stack =
    add_part targets (part_kind p) p stack >>= λ next. add_parts targets ps next

unfoldable pub join : List Bytes → Bytes
join [] = []
join (p ∷ []) = p
join (p ∷ q ∷ ps) = p ++ b'/' ∷ join (q ∷ ps)

unfoldable pub reversed : List Bytes → List Bytes → List Bytes
reversed [] out = out
reversed (p ∷ ps) out = reversed ps (p ∷ out)

abbrev pub is_absolute : Bytes → Bool
is_absolute [] = false
is_absolute (c ∷ s) = c == b'/'

-- What `parent` puts on the stack before the path: nothing for an absolute target.
unfoldable pub start_at : Bytes → Option Bytes → Result (List Bytes)
start_at path none =
    require (not (is_absolute path)) "Stream tar rejected: absolute member path" >> ok []
start_at path (some parent) =
    if is_absolute path then ok [] else add_parts false (parts [] parent) []

unfoldable pub normalize : Bytes → Option Bytes → Result Bytes
normalize path parent = do
  require (not (has_zero path)) nul_error
  first ← start_at path parent
  stack ← add_parts (is_some parent) (parts [] path) first
  ok (join (reversed stack []))
