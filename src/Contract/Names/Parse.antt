-- ===== src/Contract/Names/Parse.antt =====
-- Names of objects: what is printed is read back.
use oracle_free_arch_vps.Base.{
  List, Text, [], arith, refl, some, true, ℕ, ◌++◌, ◌+◌, ◌-◌, ◌<◌, ◌∷◌, ◌≡◌,
}
use oracle_free_arch_vps.Json.{pad_digits}
use oracle_free_arch_vps.Contract.Fields.{
  Class, capture_shape, digit, literal, matches, times, uuid_shape,
}
use oracle_free_arch_vps.Contract.Names.{
  Kind, Name, consume, consume_kind, data_object, exec_name, kind_text, kinds, namespace,
  number_onto, print_name, slash,
}

consume-append :
    (ks : List Class) (t s : Text) → matches ks t ≡ true → consume ks (t ++ s) ≡ some (t, s)
unfolding matches consume
consume-append [] [] s h = refl
consume-append (k ∷ ks) (c ∷ t) s h = ground (arith, consume-append ks t s)
consume-append [] (c ∷ t) s h = cc
consume-append (k ∷ ks) [] s h = cc

consume_whole : (ks : List Class) (t : Text) → matches ks t ≡ true → consume ks t ≡ some (t, [])
unfolding matches consume
consume_whole [] [] h = refl
consume_whole (k ∷ ks) (c ∷ t) h = ground (arith, consume_whole ks t)
consume_whole [] (c ∷ t) h = cc
consume_whole (k ∷ ks) [] h = cc

consume-slash : (s : Text) → consume slash (b'/' ∷ s) ≡ some (b'/' ∷ [], s)
unfolding consume
consume-slash s = refl

consume-namespace : (s : Text) → consume (literal namespace) (namespace ++ s) ≡ some (namespace, s)
unfolding consume
consume-namespace s = refl

consume_kind_lem :
    (k : Kind) (s : Text) → consume_kind kinds (kind_text k ++ (b'/' ∷ s)) ≡ some (k, s)
unfolding consume_kind
consume_kind_lem data_object s = refl
consume_kind_lem _ s = refl

pub pad_digits-matches : (n : ℕ) → matches (times 8 digit) (pad_digits 8 n) ≡ true
unfolding matches pad_digits
pad_digits-matches n = ground arith

digit_back : (d : ℕ) → 48 + d - 48 ≡ d
digit_back d = omega arith

pad_digits_number : (n : ℕ) → n < 100_000_000 → number_onto 0 (pad_digits 8 n) ≡ n
unfolding number_onto pad_digits
pad_digits_number n h = simp digit_back (omega arith)

-- Whatever fits the pattern of `NAME` is read as its parts, before any text of the right shape.
pub exec_name-print_name :
    (n : Name)
    → matches capture_shape n.capture_id ≡ true
    → matches uuid_shape n.attempt_id ≡ true
    → matches uuid_shape n.put_id ≡ true
    → n.ordinal < 100_000_000
    → exec_name (print_name n) ≡ some n
unfolding exec_name
exec_name-print_name n hc ha hp ho = simp (
  consume-namespace,
  consume-append _ _ _ hc,
  consume-append _ _ _ ha,
  consume-slash,
  consume_kind_lem,
  consume-append _ _ _ (pad_digits-matches n.ordinal),
  consume_whole _ _ hp,
  pad_digits_number n.ordinal ho,
)
