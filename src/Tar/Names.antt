-- ===== src/Tar/Names.antt =====
-- scripts/backup-tar-consumers.ts: `decodeTarCString`, a quoted name of the native listing. The text
-- is read from its start; what is returned beside the bytes is the text behind the closing quote.
pub mod Quoting
pub mod Fuel
use oracle_free_arch_vps.Base.{
  Option, Result, Text, [], err, false, if◌then◌else◌, leb, length, none, ok, require, some, suc,
  true, zero, ℕ, ◌&&◌, ◌*◌, ◌++◌, ◌+◌, ◌-◌, ◌==◌, ◌>>=◌, ◌>>◌, ◌∷◌,
}
use oracle_free_arch_vps.Inventory.{Bytes}
use oracle_free_arch_vps.Tar.Numbers.{is_octal}

-- The byte of an escape of one letter.
abbrev pub escapes : ℕ → Option ℕ
escapes c =
    if c == b'a'
    then some 7
    else if c == b'b'
    then some 8
    else if c == b'f'
    then some 12
    else if c == b'n'
    then some 10
    else if c == b'r'
    then some 13
    else if c == b't'
    then some 9
    else if c == b'v'
    then some 11
    else if c == 92
    then some 92
    else if c == 34
    then some 34
    else none

-- The digits that may follow the first one of an octal escape, at most this many.
unfoldable pub octal_digits : ℕ → ℕ → Text → ℕ × Text
octal_digits zero n s = (n, s)
octal_digits (suc more) n [] = (n, [])
octal_digits (suc more) n (c ∷ s) = elim (is_octal c) [
  | true ↦ octal_digits more (n * 8 + (c - b'0')) s
  | false ↦ (n, c ∷ s)
]

-- An escape, behind its backslash: the byte and what is left.
unfoldable pub escaped : Text → Result (ℕ × Text)
escaped [] = err "Stream tar rejected: unknown native name escape"
escaped (c ∷ s) = elim (escapes c) [
  | some b ↦ ok (b, s)
  | none ↦ elim (is_octal c) [
    | false ↦ err "Stream tar rejected: unknown native name escape"
    | true ↦
        require (leb (octal_digits 2 (c - b'0') s).0 255)
          "Stream tar rejected: native octal overflow"
        >> ok (octal_digits 2 (c - b'0') s)
  ]
]

-- The loop, with fuel for the characters that are left.
unfoldable pub decode_from : ℕ → Text → Bytes → Result (Bytes × Text)
decode_from fuel [] bytes = err "Stream tar rejected: unterminated native name"
decode_from zero (c ∷ s) bytes = err "out of fuel"
decode_from (suc fuel) (c ∷ s) bytes = elim (c == 34) [
  | true ↦ ok (bytes, s)
  | false ↦ elim (c == 92) [
    | true ↦ escaped s >>= λ r. decode_from fuel r.1 (bytes ++ r.0 ∷ [])
    | false ↦
        require (leb 32 c && leb c 126) "Stream tar rejected: unescaped native name byte"
        >> decode_from fuel s (bytes ++ c ∷ [])
  ]
]

unfoldable pub decode_name : Text → Result (Bytes × Text)
decode_name [] = err "Stream tar rejected: unquoted native name"
decode_name (c ∷ s) =
    require (c == 34) "Stream tar rejected: unquoted native name" >> decode_from (length s) s []
