-- ===== src/Json/Sizes.antt =====
-- Decimal printing, the quoting of a string and the length in UTF-8, of UTF-16 code units.
use oracle_free_arch_vps.Base.{
  Bool, Text, [], arith, false, if◌then◌else◌, leb, length, ltb, refl, suc, true, zero, ℕ, ◌%◌,
  ◌&&◌, ◌++◌, ◌+◌, ◌/◌, ◌==◌, ◌||◌, ◌∷◌, ◌≡◌, ◌≤◌,
}

-- The digits of a number below 10 ^ fuel, most significant first, before what is printed already.
digits_onto : ℕ → ℕ → Text → Text
digits_onto zero n acc = acc
digits_onto (suc fuel) n acc =
    let rest = digits_onto fuel (n / 10) ((48 + n % 10) ∷ acc) in
    if ltb n 10 then (48 + n % 10) ∷ acc else rest

-- `Number.toString()` of a natural number: it has fewer than n + 1 digits.
unfoldable pub decimal : ℕ → Text
unfolding digits_onto
decimal n = digits_onto (suc n) n []

-- `padStart(8, "0")` of a number's digits: exactly so many digits, the last ones.
unfoldable pub pad_digits : ℕ → ℕ → Text
pad_digits zero n = []
pad_digits (suc width) n = pad_digits width (n / 10) ++ (48 + n % 10) ∷ []

abbrev pub is_high : ℕ → Bool
is_high c = leb 0xD800 c && leb c 0xDBFF

abbrev pub is_low : ℕ → Bool
is_low c = leb 0xDC00 c && leb c 0xDFFF

-- An unpaired surrogate is encoded as U+FFFD.
abbrev unit_bytes : ℕ → ℕ
unit_bytes c = if ltb c 0x80 then 1 else if ltb c 0x800 then 2 else 3

unfoldable pub utf8_length : Text → ℕ
utf8_length [] = 0
utf8_length (c ∷ []) = unit_bytes c
utf8_length (c ∷ d ∷ s) = elim (is_high c && is_low d) [
  | true ↦ 4 + utf8_length s
  | false ↦ unit_bytes c + utf8_length (d ∷ s)
]

hex_digit : ℕ → ℕ
hex_digit d = if ltb d 10 then 48 + d else 87 + d

-- A backslash, a `u` and four hexadecimal digits.
unicode_escape : ℕ → Text
unfolding hex_digit
unicode_escape c =
    92
    ∷ b'u'
    ∷ hex_digit (c / 4096 % 16)
    ∷ hex_digit (c / 256 % 16)
    ∷ hex_digit (c / 16 % 16)
    ∷ hex_digit (c % 16)
    ∷ []

-- How `JSON.stringify` writes one code unit that is no half of a pair.
escape : ℕ → Text
unfolding unicode_escape
escape c =
    if c == 34
    then 92 ∷ 34 ∷ []
    else if c == 92
    then 92 ∷ 92 ∷ []
    else if c == 8
    then 92 ∷ b'b' ∷ []
    else if c == 9
    then 92 ∷ b't' ∷ []
    else if c == 10
    then 92 ∷ b'n' ∷ []
    else if c == 12
    then 92 ∷ b'f' ∷ []
    else if c == 13
    then 92 ∷ b'r' ∷ []
    else if ltb c 32
    then unicode_escape c
    else if is_high c || is_low c
    then unicode_escape c
    else c ∷ []

escape_all : Text → Text
unfolding escape
escape_all [] = []
escape_all (c ∷ []) = escape c
escape_all (c ∷ d ∷ s) = elim (is_high c && is_low d) [
  | true ↦ c ∷ d ∷ escape_all s
  | false ↦ escape c ++ escape_all (d ∷ s)
]

unfoldable pub quote : Text → Text
unfolding escape_all
quote s = 34 ∷ escape_all s ++ 34 ∷ []

-- A string takes at least as many bytes as code units.
pub length-le-utf8_length : (s : Text) → length s ≤ utf8_length s
unfolding utf8_length
length-le-utf8_length [] = omega arith
length-le-utf8_length (c ∷ []) = ground arith
length-le-utf8_length (c ∷ d ∷ s) =
    ground (arith, length-le-utf8_length s, length-le-utf8_length (d ∷ s))

utf8_length-ascii : (c : ℕ) (t : Text) → ltb c 0x80 ≡ true → utf8_length (c ∷ t) ≡ 1 + utf8_length t
unfolding utf8_length
utf8_length-ascii c [] h = ground arith
utf8_length-ascii c (d ∷ t) h =
    let low : leb 0xD800 c ≡ false = ground arith in
    let one : unit_bytes c ≡ 1 = rw h refl in ground (arith, low, one)

-- A text is measured in two parts at an ASCII character.
pub utf8_length-split :
    (c : ℕ) (s t : Text)
    → ltb c 0x80 ≡ true
    → utf8_length (s ++ c ∷ t) ≡ utf8_length s + (1 + utf8_length t)
unfolding utf8_length
utf8_length-split c [] t h = omega (arith, utf8_length-ascii c t h)
utf8_length-split c (a ∷ []) t h = let rest = utf8_length-ascii c t h in ground arith
utf8_length-split c (a ∷ b ∷ s) t h =
    ground (arith, utf8_length-split c s t h, utf8_length-split c (b ∷ s) t h)
