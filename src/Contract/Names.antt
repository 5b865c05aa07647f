-- ===== src/Contract/Names.antt =====
-- scripts/backup-v2-contract.ts: object kinds, and the names of objects in the bucket:
-- `restic/backup-v2/<capture>/<attempt>/<kind>/<ordinal>/<put>`.
mod Parse
pub mod RoundTrip
use mathlib.Core.Option
use oracle_free_arch_vps.Base.{
  Bool, List, Option, Result, Text, [], codes, if◌then◌else◌, length, ltb, none, ok, or_fail, some,
  ℕ, ◌*◌, ◌++◌, ◌+◌, ◌-◌, ◌==◌, ◌>>=◌, ◌>>◌, ◌∷◌,
}
use oracle_free_arch_vps.Profile.{limit, logical_objects}
use oracle_free_arch_vps.Json.{Value, num, pad_digits, str}
use oracle_free_arch_vps.Contract.Fields.{
  Class, capture, capture_shape, contract_error, demand, digit, in_class, integer, literal, only,
  text, times, uuid, uuid_shape,
}

pub data Kind : Type 0 where
  data_object metadata manifest receipt tools inventory : Kind

abbrev pub kind_text : Kind → Text
kind_text data_object = codes "data"
kind_text metadata = codes "metadata"
kind_text manifest = codes "manifest"
kind_text receipt = codes "receipt"
kind_text tools = codes "tools"
kind_text inventory = codes "inventory"

abbrev pub kinds : List Kind
kinds = data_object ∷ metadata ∷ manifest ∷ receipt ∷ tools ∷ inventory ∷ []

abbrev pub kind_index : Kind → ℕ
kind_index data_object = 0
kind_index metadata = 1
kind_index manifest = 2
kind_index receipt = 3
kind_index tools = 4
kind_index inventory = 5

abbrev pub kind_eq : Kind → Kind → Bool
kind_eq a b = kind_index a == kind_index b

-- BACKUP_V2_NAMESPACE
abbrev pub namespace : Text
namespace = codes "restic/backup-v2/"

-- What a name is made of.
pub record Name : Type 0 where
  pub capture_id : Text
  pub attempt_id : Text
  pub kind : Kind
  pub ordinal : ℕ
  pub put_id : Text

-- One group of the pattern: the text that fits the classes, and what is left.
unfoldable pub consume : List Class → Text → Option (Text × Text)
consume [] s = some ([], s)
consume (k ∷ ks) [] = none
consume (k ∷ ks) (c ∷ s) =
    let rest = consume ks s in if in_class k c then Option.map (λ r. (c ∷ r.0, r.1)) rest else none

-- The alternatives `(data|metadata|...)` and the `/` behind them.
unfoldable pub consume_kind : List Kind → Text → Option (Kind × Text)
unfolding consume
consume_kind [] s = none
consume_kind (k ∷ ks) s = elim (consume (literal (kind_text k ++ b'/' ∷ [])) s) [
  | none ↦ consume_kind ks s
  | some (t, rest) ↦ some (k, rest)
]

-- `Number(...)` of a string of digits.
unfoldable pub number_onto : ℕ → Text → ℕ
number_onto n [] = n
number_onto n (c ∷ s) = number_onto (n * 10 + (c - 48)) s

abbrev pub slash : List Class
slash = only b'/' ∷ []

infixl 5 ◌>>=?◌
abbrev pub ◌>>=?◌ {ℓ κ} : {A : Type ℓ} {B : Type κ} → Option A → (A → Option B) → Option B
none >>=? f = none
some a >>=? f = f a

-- `NAME.exec(name)`, with the groups read.
unfoldable pub exec_name : Text → Option Name
exec_name s = consume (literal namespace) s >>=? λ p. consume capture_shape p.1 >>=? λ c.
    consume slash c.1 >>=? λ s1. consume uuid_shape s1.1 >>=? λ a. consume slash a.1 >>=? λ s2.
    consume_kind kinds s2.1 >>=? λ k. consume (times 8 digit) k.1 >>=? λ o.
    consume slash o.1 >>=? λ s3. consume uuid_shape s3.1 >>=? λ u.
    if length u.1 == 0
    then some (record {
      capture_id = c.0;
      attempt_id = a.0;
      kind = k.0;
      ordinal = number_onto 0 o.0;
      put_id = u.0;
    })
    else none

unfoldable pub parse_object_name : Value → Result Name
parse_object_name v = do
  name ← text v 1000
  parts ← or_fail (exec_name name) contract_error
  demand (ltb parts.ordinal (limit logical_objects))
  ok parts

abbrev pub print_name : Name → Text
print_name n =
    namespace
    ++ (n.capture_id
        ++ (b'/'
            ∷ (n.attempt_id
                ++ (b'/'
                    ∷ (kind_text n.kind
                        ++ (b'/' ∷ (pad_digits 8 n.ordinal ++ (b'/' ∷ n.put_id))))))))

unfoldable pub object_name : Text → Text → Kind → ℕ → Text → Result Text
object_name capture_id attempt_id kind ordinal put_id = do
  c ← capture (str capture_id)
  a ← uuid (str attempt_id)
  o ← integer (num ordinal) (limit logical_objects - 1) 0
  p ← uuid (str put_id)
  let name =
      print_name (record { capture_id = c; attempt_id = a; kind = kind; ordinal = o; put_id = p })
  parse_object_name (str name)
  ok name
