-- ===== src/Authority/Values.antt =====
-- JSON objects as src/jvc/policy/authority.py reads them: the claims of a capability, and a proposal.
use jvc_core.Base.{
  ℕ, zero, suc, ◌+◌, ◌*◌, ◌-◌, ◌/◌, ◌%◌, ◌≡◌, refl, Bool, true, false, ◌&&◌, Option, none, some, [],
  ◌∷◌, Text, Dict, get, codes, ◌==◌, eq_iff, nat_eq, leb, strip, is_empty, if◌then◌else◌, arith,
}

-- A number stands for an integer that is not negative. Any other value is `other`, by its text and
-- by what `int` makes of it.
pub data Value : Type 0 where
  null : Value
  text : Text → Value
  number : ℕ → Value
  other : Text → Option ℕ → Value

abbrev pub same_int : Option ℕ → Option ℕ → Bool
same_int none none = true
same_int (some a) (some b) = nat_eq a b
same_int _ _ = false

unfoldable pub value_eq : Value → Value → Bool
value_eq null null = true
value_eq (text s) (text t) = s == t
value_eq (number m) (number n) = nat_eq m n
value_eq (other s a) (other t b) = s == t && same_int a b
value_eq _ _ = false

pub value_eq_sound : (a b : Value) → value_eq a b ≡ true → a ≡ b
unfolding value_eq
value_eq_sound null null h = refl
value_eq_sound null (text t) h = cc
value_eq_sound null (number t) h = cc
value_eq_sound null (other t b) h = cc
value_eq_sound (text s) null h = cc
value_eq_sound (text s) (text t) h = ground (arith, eq_iff s t)
value_eq_sound (text s) (number n) h = cc
value_eq_sound (text s) (other t b) h = cc
value_eq_sound (number m) null h = cc
value_eq_sound (number m) (text t) h = cc
value_eq_sound (number m) (number n) h = ground arith
value_eq_sound (number m) (other t b) h = cc
value_eq_sound (other s a) null h = cc
value_eq_sound (other s a) (text t) h = cc
value_eq_sound (other s a) (number n) h = cc
value_eq_sound (other s none) (other t none) h = ground (arith, eq_iff s t)
value_eq_sound (other s none) (other t (some b)) h = ground arith
value_eq_sound (other s (some a)) (other t none) h = ground arith
value_eq_sound (other s (some a)) (other t (some b)) h = ground (arith, eq_iff s t)

pub value_eq_refl : (a : Value) → value_eq a a ≡ true
unfolding value_eq
value_eq_refl null = refl
value_eq_refl (text s) = (eq_iff s s).1 refl
value_eq_refl (number n) = ground arith
value_eq_refl (other s none) = ground (arith, eq_iff s s)
value_eq_refl (other s (some a)) = ground (arith, eq_iff s s)

abbrev pub or_null : Option Value → Value
or_null none = null
or_null (some v) = v

-- `d.get(k)`
unfoldable pub get_value : Text → Dict Value → Value
get_value k d = or_null (get k d)

-- What `json.loads` makes of bytes; `undecodable` are those that are no UTF-8.
pub data Document : Type 0 where
  undecodable unparseable not_object : Document
  object : Dict Value → Document

abbrev pub is_digit : ℕ → Bool
is_digit c = leb b'0' c && leb c b'9'

abbrev pub read_digits : ℕ → Text → Option ℕ
read_digits acc [] = some acc
read_digits acc (c ∷ s) =
    let rest = read_digits (acc * 10 + (c - b'0')) s in if is_digit c then rest else none

-- `int(s)` of ASCII digits with white space around; a sign or an underscore is taken for an error.
unfoldable pub int_of_text : Text → Option ℕ
int_of_text s = if is_empty (strip s) then none else read_digits 0 (strip s)

-- `int(v)`; none where it raises.
unfoldable pub int_of : Value → Option ℕ
unfolding int_of_text
int_of null = none
int_of (text s) = int_of_text s
int_of (number n) = some n
int_of (other s i) = i

abbrev pub digits : ℕ → ℕ → Text → Text
digits zero n acc = acc
digits (suc fuel) n acc =
    let rest = digits fuel (n / 10) ((b'0' + n % 10) ∷ acc) in
    if nat_eq (n / 10) 0 then (b'0' + n % 10) ∷ acc else rest

-- `str(n)`: n has fewer than n + 1 digits.
unfoldable pub decimal : ℕ → Text
decimal n = digits (suc n) n []

-- `str(v)`
unfoldable pub str_of : Value → Text
unfolding decimal
str_of null = codes "None"
str_of (text s) = s
str_of (number n) = decimal n
str_of (other s i) = s
