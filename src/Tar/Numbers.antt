-- ===== src/Tar/Numbers.antt =====
-- scripts/backup-tar-consumers.ts: the texts and numbers in the header of a tar member.
use oracle_free_arch_vps.Base.{
  Bool, Option, Text, [], false, get_elem?, if◌then◌else◌, leb, none, not, some, suc, true, ℕ, ◌&&◌,
  ◌*◌, ◌+◌, ◌-◌, ◌==◌, ◌||◌, ◌∷◌,
}
use oracle_free_arch_vps.Inventory.{Bytes}

-- `String.prototype.trim` and the text before a zero that no line break follows.
abbrev pub is_space : ℕ → Bool
is_space c =
    (leb 9 c && leb c 13)
    || c == 32
    || c == 160
    || c == 5760
    || (leb 8192 c && leb c 8202)
    || c == 8232
    || c == 8233
    || c == 8239
    || c == 8287
    || c == 12288
    || c == 65279

unfoldable pub trim_start : Text → Text
trim_start [] = []
trim_start (c ∷ s) = elim (is_space c) [ true ↦ trim_start s | false ↦ c ∷ s ]

unfoldable pub all_space : Text → Bool
all_space [] = true
all_space (c ∷ s) = is_space c && all_space s

unfoldable pub trim_end : Text → Text
trim_end [] = []
trim_end (c ∷ s) = if all_space (c ∷ s) then [] else c ∷ trim_end s

-- Whether `.*` reaches the end: no line terminator is left.
unfoldable pub one_line : Text → Bool
one_line [] = true
one_line (c ∷ s) = not (c == 10 || c == 13 || c == 8232 || c == 8233) && one_line s

-- `replace(/\0.*$/, "")`
unfoldable pub before_zero : Text → Text
before_zero [] = []
before_zero (c ∷ s) = if c == 0 && one_line s then [] else c ∷ before_zero s

abbrev pub is_octal : ℕ → Bool
is_octal c = leb b'0' c && leb c b'7'

abbrev pub is_decimal : ℕ → Bool
is_decimal c = leb b'0' c && leb c b'9'

unfoldable pub all_of : (ℕ → Bool) → Text → Bool
all_of test [] = true
all_of test (c ∷ s) = test c && all_of test s

unfoldable pub number_in : ℕ → ℕ → Text → ℕ
number_in base n [] = n
number_in base n (c ∷ s) = number_in base (n * base + (c - b'0')) s

unfoldable pub bytes_onto : ℕ → Bytes → ℕ
bytes_onto n [] = n
bytes_onto n (c ∷ s) = bytes_onto (n * 256 + c) s

abbrev pub not_empty : Text → Bool
not_empty [] = false
not_empty (c ∷ s) = true

unfoldable pub all_zero : Bytes → Bool
all_zero [] = true
all_zero (c ∷ s) = c == 0 && all_zero s

-- `bytes.indexOf`
unfoldable pub index_of : ℕ → Bytes → Option ℕ
index_of x [] = none
index_of x (c ∷ s) = elim (c == x) [
  | true ↦ some 0
  | false ↦ elim (index_of x s) [ none ↦ none | some i ↦ some (suc i) ]
]

-- `/^[1-9]\d*$/`
unfoldable pub is_length : Text → Bool
is_length [] = false
is_length (c ∷ s) = leb b'1' c && leb c b'9' && all_of is_decimal s

unfoldable pub byte_at : ℕ → Bytes → ℕ
byte_at i s = elim (get_elem? s i) [ none ↦ 0 | some c ↦ c ]
