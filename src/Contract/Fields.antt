-- ===== src/Contract/Fields.antt =====
-- scripts/backup-v2-contract.ts: the checks of single fields (object, text, hash, integer, ...).
pub mod Plain
use oracle_free_arch_vps.Base.{
  Bool, List, Result, String, Text, [], codes, err, false, if◌then◌else◌, leb, length, ltb, map,
  not, ok, require, suc, true, zero, ℕ, ◌&&◌, ◌++◌, ◌==◌, ◌>>=◌, ◌||◌, ◌∷◌,
}
use oracle_free_arch_vps.Profile.{limit, manifest_bytes, max_safe_integer}
use oracle_free_arch_vps.Json.{
  Fields, Value, arr, elements, field_count, has_own, json_bytes, num, obj, str, utf8_length,
}

abbrev pub contract_error : String
contract_error = "Backup v2 contract is invalid"

abbrev pub fail {ℓ} : {A : Type ℓ} → Result A
fail = err contract_error

abbrev pub demand : Bool → Result (Unit {0})
demand b = require b contract_error

unfoldable pub has_control_character : Text → Bool
has_control_character [] = false
has_control_character (c ∷ s) = ltb c 32 || c == 127 || has_control_character s

has_all : List String → Fields → Bool
has_all [] fs = true
has_all (k ∷ ks) fs = has_own fs k && has_all ks fs

unfoldable pub object : Value → List String → Result Fields
unfolding has_all
object (obj fs) keys = if field_count fs == length keys && has_all keys fs then ok fs else fail
object _ keys = fail

unfoldable pub text : Value → ℕ → Result Text
unfolding has_control_character
text (str t) maximum =
    if ltb 0 (length t)
      && leb (length t) maximum
      && not (has_control_character t)
      && leb (utf8_length t) maximum
    then ok t
    else fail
text _ maximum = fail

-- The regular expressions of the contract are sequences of character classes.
pub data Class : Type 0 where
  only : ℕ → Class
  hex upper_hex digit : Class

abbrev is_digit : ℕ → Bool
is_digit c = leb b'0' c && leb c b'9'

abbrev pub in_class : Class → ℕ → Bool
in_class (only a) c = c == a
in_class hex c = is_digit c || (leb b'a' c && leb c b'f')
in_class upper_hex c = is_digit c || (leb b'A' c && leb c b'F')
in_class digit c = is_digit c

-- `^...$` on the whole string.
unfoldable pub matches : List Class → Text → Bool
matches [] [] = true
matches (k ∷ ks) (c ∷ s) = in_class k c && matches ks s
matches _ _ = false

abbrev pub times : ℕ → Class → List Class
times zero k = []
times (suc n) k = k ∷ times n k

abbrev pub literal : Text → List Class
literal = map only

abbrev pub uuid_shape : List Class
uuid_shape =
    times 8 hex
    ++ only b'-' ∷ times 4 hex
    ++ only b'-' ∷ times 4 hex
    ++ only b'-' ∷ times 4 hex
    ++ only b'-' ∷ times 12 hex

abbrev pub capture_shape : List Class
capture_shape = literal (codes "generation-") ++ uuid_shape

abbrev pub shaped : Result Text → List Class → Result Text
shaped r shape = r >>= λ t. if matches shape t then ok t else fail

unfoldable pub hash : Value → ℕ → Result Text
hash v size = shaped (text v size) (times size hex)

unfoldable pub uuid : Value → Result Text
uuid v = shaped (text v 36) uuid_shape

unfoldable pub capture : Value → Result Text
capture v = shaped (text v 47) capture_shape

unfoldable pub fingerprint : Value → Result Text
fingerprint v = text v 64 >>= λ t.
    if matches (times 40 upper_hex) t || matches (times 64 upper_hex) t then ok t else fail

unfoldable pub integer : Value → ℕ → ℕ → Result ℕ
integer (num n) maximum minimum =
    if leb n max_safe_integer && leb minimum n && leb n maximum then ok n else fail
integer _ maximum minimum = fail

unfoldable pub monotonic : Value → Result ℕ
monotonic (num n) = if leb n max_safe_integer then ok n else fail
monotonic _ = fail

unfoldable pub bounded_array : Value → ℕ → Result (List Value)
bounded_array (arr vs) maximum =
    if leb (length (elements vs)) maximum then ok (elements vs) else fail
bounded_array _ maximum = fail

unfoldable pub page_size : Value → Result (Unit {0})
page_size v = demand (leb (json_bytes v) (limit manifest_bytes))
