-- ===== src/Contract/Fields/Plain.antt =====
-- Printable ASCII text passes the check of `text`, and each pattern of the contract is such text.
use oracle_free_arch_vps.Base.{
  All, List, Result-cases, String, Text, [], arith, false, inl, inr, length, ok, refl, true, ℕ, ◌<◌,
  ◌∷◌, ◌≡◌, ◌≤◌,
}
use oracle_free_arch_vps.Profile.{max_safe_integer}
use oracle_free_arch_vps.Json.{Fields, Value, is_high, num, obj, str, utf8_length}
use oracle_free_arch_vps.Contract.Fields.{
  Class, capture, capture_shape, has_control_character, hash, in_class, integer, matches, object,
  only, text, uuid, uuid_shape,
}

abbrev pub IsPlain : Text → Type 0
IsPlain = All (λ c. (32 ≤ c) × (c < 127))

plain_no_control : (t : Text) → IsPlain t → has_control_character t ≡ false
unfolding has_control_character
plain_no_control [] p = refl
plain_no_control (c ∷ t) p = ground (arith, plain_no_control t p.1)

plain_not_high : (c : ℕ) → c < 127 → is_high c ≡ false
plain_not_high c h = ground arith

plain_bytes : (t : Text) → IsPlain t → utf8_length t ≡ length t
unfolding utf8_length
plain_bytes [] p = refl
plain_bytes (c ∷ []) p = ground arith
plain_bytes (c ∷ d ∷ t) p =
    rw (plain_not_high c p.0.1, utf8_length) (rw (plain_bytes (d ∷ t) p.1) (ground arith))

pub text-plain :
    (t : Text) (maximum : ℕ)
    → IsPlain t
    → 0 < length t
    → length t ≤ maximum
    → text (str t) maximum ≡ ok t
unfolding text
text-plain t maximum p low high = ground (arith, plain_no_control t p, plain_bytes t p)

-- The classes that the patterns use are printable.
abbrev pub PlainClass : Class → Type 0
PlainClass (only a) = (32 ≤ a) × (a < 127)
PlainClass _ = Unit

in_class-plain : (k : Class) (c : ℕ) → PlainClass k → in_class k c ≡ true → (32 ≤ c) × (c < 127)
in_class-plain (only a) c p h = ground arith
in_class-plain _ c p h = ground arith

pub matches-IsPlain :
    (ks : List Class) (t : Text)
    → All PlainClass ks
    → matches ks t ≡ true
    → IsPlain t × (length t ≡ length ks)
unfolding matches
matches-IsPlain [] [] p h = (tt, refl)
matches-IsPlain (k ∷ ks) (c ∷ t) p h =
    ground (arith, in_class-plain k c p.0, matches-IsPlain ks t p.1)
matches-IsPlain [] (c ∷ t) p h = cc
matches-IsPlain (k ∷ ks) [] p h = cc

-- The fields of fixed shape, read from a string of that shape and from no other value.
pub capture_lem : (t : Text) → matches capture_shape t ≡ true → capture (str t) ≡ ok t
unfolding capture
capture_lem t h =
    let (p, e) = matches-IsPlain capture_shape t (omega arith) h in
    rw (text-plain t 47 p (omega arith) (omega arith), h)

pub uuid_lem : (t : Text) → matches uuid_shape t ≡ true → uuid (str t) ≡ ok t
unfolding uuid
uuid_lem t h =
    let (p, e) = matches-IsPlain uuid_shape t (omega arith) h in
    rw (text-plain t 36 p (omega arith) (omega arith), h)

text-eq-ok : (v : Value) (m : ℕ) {t : Text} → text v m ≡ ok t → v ≡ str t
unfolding text
text-eq-ok (str s) m h = ground arith
text-eq-ok _ m h = cc

pub integer_lem :
    (n maximum minimum : ℕ)
    → minimum ≤ n
    → n ≤ maximum
    → maximum ≤ max_safe_integer
    → integer (num n) maximum minimum ≡ ok n
unfolding integer
integer_lem n maximum minimum low high safe = ground arith

-- Each check of one field returns what it was given.
pub object-eq-ok : (fs f : Fields) (ks : List String) → object (obj fs) ks ≡ ok f → f ≡ fs
unfolding object
object-eq-ok fs f ks h = ground arith

pub text_same : (s t : Text) (m : ℕ) → text (str s) m ≡ ok t → t ≡ s
unfolding text
text_same s t m h = ground arith

pub hash_same : (s t : Text) (m : ℕ) → hash (str s) m ≡ ok t → t ≡ s
unfolding hash
hash_same s t m h = elim (Result-cases (text (str s) m)) [
  | inl (u, e) ↦ ground (arith, text_same s u m e)
  | inr (x, e) ↦ absurd (ground arith)
]

pub integer_same :
    (n m high low : ℕ) → integer (num n) high low ≡ ok m → (m ≡ n) × (low ≤ n) × (n ≤ high)
unfolding integer
integer_same n m high low h = ground arith
