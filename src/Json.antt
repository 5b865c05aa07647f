-- ===== src/Json.antt =====
-- The values that the validators of scripts/backup-v2-*.ts receive as `unknown`, and what those
-- files use of `JSON.stringify` and `TextEncoder`. `other` stands for undefined, a function, a
-- bigint, and a number that is negative, fractional or not finite: no validator accepts those.
mod Sizes
unfoldable pub use Sizes.*
use text.Mathlib.Text.{◌==◌ as str_eq}
use oracle_free_arch_vps.Base.{
  Bool, List, String, Text, [], codes, false, if◌then◌else◌, refl, suc, true, ℕ, ◌++◌, ◌||◌, ◌∷◌,
  ◌≡◌,
}

mutual
  pub data Value : Type 0 where
    null other : Value
    bool : Bool → Value
    num : ℕ → Value
    str : Text → Value
    arr : Values → Value
    obj : Fields → Value

  pub data Values : Type 0 where
    nil : Values
    item : Value → Values → Values

  pub data Fields : Type 0 where
    end : Fields
    field : String → Value → Fields → Fields

abbrev pub elements : Values → List Value
elements nil = []
elements (item v vs) = v ∷ elements vs

abbrev pub of_elements : List Value → Values
of_elements [] = nil
of_elements (v ∷ vs) = item v (of_elements vs)

abbrev pub field_count : Fields → ℕ
field_count end = 0
field_count (field k v fs) = suc (field_count fs)

-- `record[key]`, which is undefined for a missing key.
abbrev pub get : Fields → String → Value
get end key = other
get (field k v fs) key = if str_eq k key then v else get fs key

-- `Object.hasOwn(record, key)`
abbrev pub has_own : Fields → String → Bool
has_own end key = false
has_own (field k v fs) key = str_eq k key || has_own fs key

-- `JSON.stringify`; a member whose value is undefined does not occur in what is printed here.
unfoldable mutual
  pub stringify : Value → Text
  stringify null = codes "null"
  stringify other = codes "null"
  stringify (bool true) = codes "true"
  stringify (bool false) = codes "false"
  stringify (num n) = decimal n
  stringify (str t) = quote t
  stringify (arr vs) = b'[' ∷ stringify_items vs ++ b']' ∷ []
  stringify (obj fs) = b'{' ∷ stringify_fields fs ++ b'}' ∷ []

  pub stringify_items : Values → Text
  stringify_items nil = []
  stringify_items (item v nil) = stringify v
  stringify_items (item v (item w vs)) = stringify v ++ b',' ∷ stringify_items (item w vs)

  pub stringify_fields : Fields → Text
  stringify_fields end = []
  stringify_fields (field k v end) = quote (codes k) ++ b':' ∷ stringify v
  stringify_fields (field k v (field l w fs)) =
      quote (codes k) ++ b':' ∷ stringify v ++ b',' ∷ stringify_fields (field l w fs)

-- `new TextEncoder().encode(JSON.stringify(value)).length`
unfoldable pub json_bytes : Value → ℕ
unfolding stringify
json_bytes v = utf8_length (stringify v)

json_bytes_example :
    json_bytes
      (obj (field "a" (num 10) (field "b" (arr (item null (item (str (codes "x")) nil))) end)))
    ≡ 23
unfolding json_bytes utf8_length decimal quote
json_bytes_example = refl
