-- ===== src/Contract/Roles.antt =====
-- scripts/backup-v2-contract.ts: the seven archive roles, their formats, and UTC time stamps.
use oracle_free_arch_vps.Base.{
  Bool, List, Result, Text, [], codes, drop, err, false, if◌then◌else◌, leb, length, ltb, not, ok,
  refl, take, text_eq, true, ℕ, ◌%◌, ◌&&◌, ◌*◌, ◌++◌, ◌+◌, ◌-◌, ◌/◌, ◌==◌, ◌>>=◌, ◌^◌, ◌||◌, ◌∷◌,
  ◌≡◌,
}
use oracle_free_arch_vps.Json.{Value, bool, num, str, utf8_length}
use oracle_free_arch_vps.Contract.Fields.{
  Class, contract_error, digit, fail, matches, only, text, times,
}

pub data Role : Type 0 where
  root efi staging_boot staging_efi oracle_root oracle_oled recovery : Role

abbrev pub role_text : Role → Text
role_text root = codes "root"
role_text efi = codes "efi"
role_text staging_boot = codes "staging-boot"
role_text staging_efi = codes "staging-efi"
role_text oracle_root = codes "oracle-root"
role_text oracle_oled = codes "oracle-oled"
role_text recovery = codes "recovery"

abbrev pub role_index : Role → ℕ
role_index root = 0
role_index efi = 1
role_index staging_boot = 2
role_index staging_efi = 3
role_index oracle_root = 4
role_index oracle_oled = 5
role_index recovery = 6

abbrev pub role_eq : Role → Role → Bool
role_eq a b = role_index a == role_index b

-- BACKUP_V2_ROLES
abbrev pub roles : List Role
roles = root ∷ efi ∷ staging_boot ∷ staging_efi ∷ oracle_root ∷ oracle_oled ∷ recovery ∷ []

find_role : Text → List Role → Result Role
find_role t [] = fail
find_role t (r ∷ rs) = if text_eq t (role_text r) then ok r else find_role t rs

unfoldable pub read_role : Value → Result Role
unfolding find_role
read_role (str t) = find_role t roles
read_role _ = fail

-- Whether the value is this very string.
abbrev pub is_text : Value → Text → Bool
is_text (str t) s = text_eq t s
is_text _ s = false

abbrev pub is_num : Value → ℕ → Bool
is_num (num n) m = n == m
is_num _ m = false

abbrev pub is_true : Value → Bool
is_true (bool b) = b
is_true _ = false

abbrev pub is_false : Value → Bool
is_false (bool b) = not b
is_false _ = false

abbrev pub format_text : Role → Text
format_text recovery = codes "json.zst.gpg"
format_text _ = codes "tar.zst.gpg"

unfoldable pub read_format : Value → Role → Result Text
read_format v role = if is_text v (format_text role) then ok (format_text role) else fail

abbrev is_leap : ℕ → Bool
is_leap y = y % 4 == 0 && (not (y % 100 == 0) || y % 400 == 0)

abbrev pub days_in_month : ℕ → ℕ → ℕ
days_in_month y m =
    if m == 2
    then (if is_leap y then 29 else 28)
    else if m == 4 || m == 6 || m == 9 || m == 11
    then 30
    else 31

abbrev date_shape : List Class
date_shape = times 4 digit ++ only b'-' ∷ times 2 digit ++ only b'-' ∷ times 2 digit

abbrev utc_shape : List Class
utc_shape =
    date_shape
    ++ only b'T' ∷ times 2 digit
    ++ only b':' ∷ times 2 digit
    ++ only b':' ∷ times 2 digit
    ++ only b'.' ∷ times 3 digit
    ++ only b'Z' ∷ []

-- The number that is written at a position of fixed width.
abbrev number_at : ℕ → ℕ → Text → ℕ
number_at from width t = number (take width (drop from t))
  where
    number : Text → ℕ
    number [] = 0
    number (c ∷ s) = (c - 48) * 10 ^ length s + number s

-- `new Date(t).toISOString() === t` for text of the right shape: the fields are in range.
is_date : Text → Bool
is_date t =
    let year = number_at 0 4 t in
    let month = number_at 5 2 t in
    let day = number_at 8 2 t in
    leb 1 month && leb month 12 && leb 1 day && leb day (days_in_month year month)

is_time : Text → Bool
is_time t = ltb (number_at 11 2 t) 24 && ltb (number_at 14 2 t) 60 && ltb (number_at 17 2 t) 60

unfoldable pub utc : Value → Result Text
unfolding is_date is_time
utc v = text v 24 >>= λ t. if matches utc_shape t && is_date t && is_time t then ok t else fail

-- `<` of strings, by code units.
unfoldable pub text_lt : Text → Text → Bool
text_lt [] [] = false
text_lt [] (b ∷ t) = true
text_lt (a ∷ s) [] = false
text_lt (a ∷ s) (b ∷ t) = ltb a b || (a == b && text_lt s t)

-- A `YYYY-MM-DD` period key that is a Sunday, by Sakamoto's rule for the day of the week.
weekday : ℕ → ℕ → ℕ → ℕ
weekday y m d =
    let y' = if ltb m 3 then y + 399 else y + 400 in
    (y' + y' / 4 - y' / 100 + y' / 400 + shift m + d) % 7
  where
    shift : ℕ → ℕ
    shift n =
        if n == 1
        then 0
        else if n == 2
        then 3
        else if n == 3
        then 2
        else if n == 4
        then 5
        else if n == 5
        then 0
        else if n == 6
        then 3
        else if n == 7
        then 5
        else if n == 8
        then 1
        else if n == 9
        then 4
        else if n == 10
        then 6
        else if n == 11
        then 2
        else 4

unfoldable pub period_key : Value → Result Text
unfolding is_date weekday
period_key v = text v 10 >>= λ t.
    if matches date_shape t
      && is_date t
      && weekday (number_at 0 4 t) (number_at 5 2 t) (number_at 8 2 t) == 0
    then ok t
    else fail

a_sunday : period_key (str (codes "2026-09-20")) ≡ ok (codes "2026-09-20")
unfolding period_key text utf8_length matches
a_sunday = refl

a_leap_day : utc (str (codes "2024-02-29T23:59:59.999Z")) ≡ ok (codes "2024-02-29T23:59:59.999Z")
unfolding utc text utf8_length matches
a_leap_day = refl

no_leap_day : utc (str (codes "2026-02-29T23:59:59.999Z")) ≡ err contract_error
unfolding utc text utf8_length matches
no_leap_day = refl
