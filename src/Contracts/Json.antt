-- ===== src/Contracts/Json.antt =====
-- JSON values, and what Python does with them: membership, iteration, tests of a type.
use jvc_core.Base.{
  ℕ, Bool, true, false, not, ◌&&◌, Option, none, some, List, [], ◌∷◌, Text, ◌==◌, contains,
  is_empty, is_some, if◌then◌else◌,
}
use jvc_core.Exec.{Result, ok, err}

-- `negsuc n` is -(n + 1).
pub data ℤ : Type 0 where
  pos : ℕ → ℤ
  negsuc : ℕ → ℤ

-- A real number is kept by its text.
mutual
  pub data Json : Type 0 where
    null : Json
    bool : Bool → Json
    int : ℤ → Json
    real : Text → Json
    str : Text → Json
    arr : Items → Json
    obj : Fields → Json

  pub data Items : Type 0 where
    nil : Items
    cons : Json → Items → Items

  pub data Fields : Type 0 where
    end : Fields
    field : Text → Json → Fields → Fields

-- What Python raises on a value of another shape.
pub data Fault : Type 0 where
  type_error key_error attribute_error index_error value_error unicode_decode_error : Fault

infixl 10 ◌>>=◌
abbrev pub ◌>>=◌ : {E A B : Type 0} → Result E A → (A → Result E B) → Result E B
ok a >>= f = f a
err e >>= f = err e

unfoldable pub lookup : Text → Fields → Option Json
lookup k end = none
lookup k (field j v fs) = if j == k then some v else lookup k fs

abbrev pub or_null : Option Json → Json
or_null none = null
or_null (some v) = v

-- `d.get(k)`
abbrev pub value : Text → Fields → Json
value k fs = or_null (lookup k fs)

abbrev pub found : Option Json → Result Fault Json
found none = err key_error
found (some v) = ok v

-- `d[k]`
abbrev pub item : Text → Fields → Result Fault Json
item k fs = found (lookup k fs)

-- `v[k]` of any value
abbrev pub subscript : Text → Json → Result Fault Json
subscript k (obj fs) = item k fs
subscript k _ = err type_error

abbrev pub test {ℓ} : {A : Type ℓ} → (A → Bool) → Option A → Bool
test p none = false
test p (some a) = p a

-- `isinstance`, with what is inside.
unfoldable pub text_of : Json → Option Text
text_of (str s) = some s
text_of _ = none

unfoldable pub items_in : Json → Option Items
items_in (arr vs) = some vs
items_in _ = none

-- `type(v) is int`
unfoldable pub int_in : Json → Option ℤ
int_in (int i) = some i
int_in _ = none

-- `v == t`
abbrev pub is_text : Json → Text → Bool
is_text v t = test (λ s. s == t) (text_of v)

-- `v is True`, `v is False`
abbrev pub is_true : Json → Bool
is_true (bool b) = b
is_true _ = false

abbrev pub is_false : Json → Bool
is_false (bool b) = not b
is_false _ = false

-- `isinstance(v, str) and v`
abbrev pub is_nonempty : Json → Bool
is_nonempty v = test (λ s. not (is_empty s)) (text_of v)

abbrev pub is_str : Json → Bool
is_str v = is_some (text_of v)

-- `v in {"a", "b"}`: lists and dicts have no hash.
abbrev pub member : Json → List Text → Result Fault Bool
member (str s) xs = ok (contains s xs)
member (arr items) xs = err type_error
member (obj fs) xs = err type_error
member _ xs = ok false

unfoldable pub all_items : (Json → Bool) → Items → Bool
all_items p nil = true
all_items p (cons v vs) = p v && all_items p vs

abbrev pub has_items : Items → Bool
has_items nil = false
has_items (cons v vs) = true

-- A list that is not empty, all of whose items pass the test.
abbrev pub is_array_of : (Json → Bool) → Json → Bool
is_array_of p v = test (λ vs. has_items vs && all_items p vs) (items_in v)

abbrev pub items_of : Items → List Json
items_of nil = []
items_of (cons v vs) = v ∷ items_of vs

abbrev pub keys_of : Fields → List Json
keys_of end = []
keys_of (field k v fs) = str k ∷ keys_of fs

abbrev pub chars_of : Text → List Json
chars_of [] = []
chars_of (c ∷ s) = str (c ∷ []) ∷ chars_of s

-- `for x in v`
abbrev pub iterate : Json → Result Fault (List Json)
iterate (arr vs) = ok (items_of vs)
iterate (obj fs) = ok (keys_of fs)
iterate (str s) = ok (chars_of s)
iterate _ = err type_error
