-- ===== src/Contract/Names/RoundTrip.antt =====
-- The names that `backupV2ObjectName` builds, and `parseBackupV2ObjectName` on them.
use oracle_free_arch_vps.Base.{
  All, All-append, List, Text, arith, length, length-append, ok, true, ℕ, ◌++◌, ◌+◌, ◌-◌, ◌<◌, ◌∷◌,
  ◌≡◌, ◌≤◌,
}
use oracle_free_arch_vps.Profile.{limit, logical_objects}
use oracle_free_arch_vps.Json.{pad_digits, str}
use oracle_free_arch_vps.Contract.Fields.{Class, capture_shape, digit, matches, times, uuid_shape}
use oracle_free_arch_vps.Contract.Fields.Plain.{
  IsPlain, PlainClass, capture_lem, integer_lem, matches-IsPlain, text-plain, uuid_lem,
}
use oracle_free_arch_vps.Contract.Names.{
  Kind, Name, data_object, kind_text, namespace, object_name, parse_object_name, print_name,
}
use oracle_free_arch_vps.Contract.Names.Parse.{exec_name-print_name, pad_digits-matches}

-- The components of a name that the program can build.
pub record IsName (n : Name) : Type 0 where
  pub capture_ok : matches capture_shape n.capture_id ≡ true
  pub attempt_ok : matches uuid_shape n.attempt_id ≡ true
  pub ordinal_ok : n.ordinal < limit logical_objects
  pub put_ok : matches uuid_shape n.put_id ≡ true

-- Printable text of at most `n` code units.
abbrev Fits : ℕ → Text → Type 0
Fits n t = IsPlain t × (length t ≤ n)

kind-Fits : (k : Kind) → Fits 9 (kind_text k)
kind-Fits data_object = omega arith
kind-Fits _ = omega arith

append-Fits : (s t : Text) {m n : ℕ} → Fits m s → Fits n t → Fits (m + n) (s ++ t)
append-Fits s t p q = (All-append _ s t p.0 q.0, omega (arith, length-append s t))

slash-Fits : (t : Text) {n : ℕ} → Fits n t → Fits (1 + n) (b'/' ∷ t)
slash-Fits t q = ((omega arith, q.0), omega arith)

shape-Fits :
    (ks : List Class) (t : Text) → All PlainClass ks → matches ks t ≡ true → Fits (length ks) t
shape-Fits ks t p h = let (q, e) = matches-IsPlain ks t p h in (q, omega arith)

print_name-Fits : (n : Name) → IsName n → Fits 1000 (print_name n)
print_name-Fits n v = (whole.0, omega (arith, whole.1))
  where
    put : Fits (1 + 36) (b'/' ∷ n.put_id)
    put = slash-Fits n.put_id (shape-Fits uuid_shape n.put_id (omega arith) v.put_ok)

    ordinal : Fits (1 + (8 + (1 + 36))) (b'/' ∷ (pad_digits 8 n.ordinal ++ (b'/' ∷ n.put_id)))
    ordinal = slash-Fits _ (
        append-Fits _ _ (shape-Fits (times 8 digit) _ (omega arith) (pad_digits-matches n.ordinal))
          put)

    kind :
        Fits
          (1 + (9 + (1 + (8 + (1 + 36)))))
          (b'/' ∷ (kind_text n.kind ++ (b'/' ∷ (pad_digits 8 n.ordinal ++ (b'/' ∷ n.put_id)))))
    kind = slash-Fits _ (append-Fits _ _ (kind-Fits n.kind) ordinal)

    whole : Fits (17 + (47 + (1 + (36 + (1 + (9 + (1 + (8 + (1 + 36))))))))) (print_name n)
    whole = append-Fits namespace _ {m = 17} (omega arith) (
        append-Fits _ _ (shape-Fits capture_shape n.capture_id (omega arith) v.capture_ok) (
          slash-Fits _
            (append-Fits _ _ (shape-Fits uuid_shape n.attempt_id (omega arith) v.attempt_ok) kind)))

-- `parseBackupV2ObjectName` reads the printed name of any valid components back exactly.
pub parse_object_name-print_name :
    (n : Name) → IsName n → parse_object_name (str (print_name n)) ≡ ok n
unfolding parse_object_name
parse_object_name-print_name n v =
    let (p, short) = print_name-Fits n v in
    rw
      (
        text-plain (print_name n) 1000 p (omega arith) short,
        exec_name-print_name n v.capture_ok v.attempt_ok v.put_ok (omega (arith, v.ordinal_ok)),
      )
      (ground (arith, v.ordinal_ok))

-- `backupV2ObjectName` succeeds on valid components, with the printed name.
pub object_name_total :
    (n : Name)
    → IsName n
    → object_name n.capture_id n.attempt_id n.kind n.ordinal n.put_id ≡ ok (print_name n)
unfolding object_name
object_name_total n v = simp (
  capture_lem n.capture_id v.capture_ok,
  uuid_lem n.attempt_id v.attempt_ok,
  uuid_lem n.put_id v.put_ok,
  integer_lem n.ordinal (limit logical_objects - 1) 0 (omega (arith, v.ordinal_ok)) (omega arith)
      (omega arith),
  parse_object_name-print_name n v,
)
