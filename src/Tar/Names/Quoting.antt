-- ===== src/Tar/Names/Quoting.antt =====
-- Quoted names are read back: the quoting of a C string by the native tool, as it documents it.
use oracle_free_arch_vps.Base.{
  Bool-cases, Text, [], append-nil, append_assoc, arith, if◌then◌else◌, inl, inr, leb, length,
  length-append, ok, refl, suc, sym, zero, ℕ, ◌%◌, ◌&&◌, ◌++◌, ◌+◌, ◌/◌, ◌<◌, ◌==◌, ◌∙◌, ◌∷◌, ◌≡◌,
  ◌≤◌,
}
use oracle_free_arch_vps.Inventory.{Bytes}
use oracle_free_arch_vps.Tar.Names.{decode_from, decode_name, escaped, octal_digits}

abbrev octal_of : ℕ → Text
octal_of b = 92 ∷ (48 + b / 64) ∷ (48 + b / 8 % 8) ∷ (48 + b % 8) ∷ []

-- One byte: printable characters stand for themselves, but for the quote and the backslash; some
-- controls have a letter; three octal digits are given for the others.
abbrev quote_byte : ℕ → Text
quote_byte b =
    if b == 34
    then 92 ∷ 34 ∷ []
    else if b == 92
    then 92 ∷ 92 ∷ []
    else if leb 32 b && leb b 126
    then b ∷ []
    else if b == 7
    then 92 ∷ b'a' ∷ []
    else if b == 8
    then 92 ∷ b'b' ∷ []
    else if b == 9
    then 92 ∷ b't' ∷ []
    else if b == 10
    then 92 ∷ b'n' ∷ []
    else if b == 11
    then 92 ∷ b'v' ∷ []
    else if b == 12
    then 92 ∷ b'f' ∷ []
    else if b == 13
    then 92 ∷ b'r' ∷ []
    else octal_of b

unfoldable pub quote_bytes : Bytes → Text
quote_bytes [] = 34 ∷ []
quote_bytes (b ∷ bytes) = quote_byte b ++ quote_bytes bytes

abbrev pub IsBytes : Bytes → Type 0
IsBytes [] = Unit
IsBytes (b ∷ bytes) = (b < 256) × IsBytes bytes

escaped-octal_of :
    (b : ℕ) (rest : Text)
    → b < 256
    → escaped ((48 + b / 64) ∷ (48 + b / 8 % 8) ∷ (48 + b % 8) ∷ rest) ≡ ok (b, rest)
unfolding escaped octal_digits
escaped-octal_of b rest h = ground arith

decode_from-quote_byte :
    (fuel b : ℕ) (rest : Text) (bytes : Bytes)
    → b < 256
    → decode_from (suc fuel) (quote_byte b ++ rest) bytes ≡ decode_from fuel rest (bytes ++ b ∷ [])
unfolding decode_from escaped
decode_from-quote_byte fuel b rest bytes h = elim (Bool-cases (b == 34)) [
  | inl e ↦ let same : b ≡ 34 = ground arith in rw same refl
  | inr e34 ↦ elim (Bool-cases (b == 92)) [
    | inl e ↦ let same : b ≡ 92 = ground arith in rw same refl
    | inr e92 ↦ elim (Bool-cases (leb 32 b && leb b 126)) [
      | inl e ↦ rw (e34, e92, e, decode_from) (rw (e34, e92, e, decode_from) refl)
      | inr plain ↦ elim (Bool-cases (b == 7)) [
        | inl e ↦ let same : b ≡ 7 = ground arith in rw same refl
        | inr e7 ↦ elim (Bool-cases (b == 8)) [
          | inl e ↦ let same : b ≡ 8 = ground arith in rw same refl
          | inr e8 ↦ elim (Bool-cases (b == 9)) [
            | inl e ↦ let same : b ≡ 9 = ground arith in rw same refl
            | inr e9 ↦ elim (Bool-cases (b == 10)) [
              | inl e ↦ let same : b ≡ 10 = ground arith in rw same refl
              | inr e10 ↦ elim (Bool-cases (b == 11)) [
                | inl e ↦ let same : b ≡ 11 = ground arith in rw same refl
                | inr e11 ↦ elim (Bool-cases (b == 12)) [
                  | inl e ↦ let same : b ≡ 12 = ground arith in rw same refl
                  | inr e12 ↦ elim (Bool-cases (b == 13)) [
                    | inl e ↦ let same : b ≡ 13 = ground arith in rw same refl
                    | inr e13 ↦
                        let value = escaped-octal_of b rest h in
                        rw (e34, e92, plain, e7, e8, e9, e10, e11, e12, e13, decode_from, value)
                          refl
                  ]
                ]
              ]
            ]
          ]
        ]
      ]
    ]
  ]
]

length-quote_byte : (b : ℕ) → 1 ≤ length (quote_byte b)
length-quote_byte b = ground arith

length-quote_bytes : (bytes : Bytes) → length bytes < length (quote_bytes bytes)
unfolding quote_bytes
length-quote_bytes [] = omega arith
length-quote_bytes (b ∷ bytes) = omega (
  arith,
  length-quote_byte b,
  length-append (quote_byte b) (quote_bytes bytes),
  length-quote_bytes bytes,
)

decode_from-quote_bytes :
    (fuel : ℕ) (bytes : Bytes) (rest : Text) (front : Bytes)
    → IsBytes bytes
    → length bytes < fuel
    → decode_from fuel (quote_bytes bytes ++ rest) front ≡ ok (front ++ bytes, rest)
unfolding quote_bytes
decode_from-quote_bytes zero bytes rest front v h = absurd (omega arith)
decode_from-quote_bytes (suc fuel) [] rest front v h = unfold decode_from in rw (append-nil front)
decode_from-quote_bytes (suc fuel) (b ∷ bytes) rest front v h =
    rw (append_assoc (quote_byte b) (quote_bytes bytes) rest) (
      decode_from-quote_byte fuel b (quote_bytes bytes ++ rest) front v.0
      ∙ rw (sym (append_assoc front (b ∷ []) bytes))
          (decode_from-quote_bytes fuel bytes rest (front ++ b ∷ []) v.1 (omega arith)))

-- `decodeTarCString` reads the quoted form of any bytes back exactly, and stops behind its quote.
pub decode_name-quote_bytes :
    (bytes : Bytes) (rest : Text)
    → IsBytes bytes
    → decode_name (34 ∷ quote_bytes bytes ++ rest) ≡ ok (bytes, rest)
unfolding decode_name
decode_name-quote_bytes bytes rest v =
    decode_from-quote_bytes (length (quote_bytes bytes ++ rest)) bytes rest [] v
      (omega (arith, length-append (quote_bytes bytes) rest, length-quote_bytes bytes))
