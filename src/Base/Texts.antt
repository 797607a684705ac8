-- ===== src/Base/Texts.antt =====
-- Python's `str` as a list of code points and `bytes` as a list of byte values, with the methods
-- that the source calls on them. `upper` and `casefold` map ASCII letters only.
use Prim.Native.Nat.{ℕ, suc, ◌+◌, ◌-◌, ◌/◌, ◌%◌}
use Prim.Native.Char.{code}
use Prim.Native.String.{String}
use mathlib.Core.Path.{◌≡◌, refl}
use mathlib.Core.Logic.{◌↔◌}
use mathlib.Core.Bool.{Bool, true, false, not, ◌&&◌, ◌||◌}
use mathlib.Core.Option.{Option, none, some}
use mathlib.Core.List.{List, [], ◌∷◌, ◌++◌, map, reverse}
use native.Mathlib.Omega.{arith}
use jvc_core.Base.Tests.{ltb, leb, nat_eq, nat_eq_iff, if◌then◌else◌}

abbrev pub Text : Type 0
Text = List ℕ

abbrev pub Bytes : Type 0
Bytes = List ℕ

-- The code points of a literal.
abbrev pub codes : String → Text
codes String.[] = []
codes (String.◌∷◌ c s) = code c ∷ codes s

abbrev pub length {ℓ} : {A : Type ℓ} → List A → ℕ
length [] = 0
length (x ∷ xs) = suc (length xs)

infix 50 ◌==◌
unfoldable pub ◌==◌ : Text → Text → Bool
[] == [] = true
[] == (d ∷ t) = false
(c ∷ s) == [] = false
(c ∷ s) == (d ∷ t) = nat_eq c d && s == t

pub eq_iff : (s t : Text) → ((s == t) ≡ true) ↔ (s ≡ t)
unfolding ◌==◌
eq_iff [] [] = (λ h. refl, λ h. refl)
eq_iff [] (d ∷ t) = (λ h. cc, λ h. cc)
eq_iff (c ∷ s) [] = (λ h. cc, λ h. cc)
eq_iff (c ∷ s) (d ∷ t) = ground (arith, eq_iff s t, nat_eq_iff c d)

pub eq_refl : (s : Text) → (s == s) ≡ true
eq_refl s = (eq_iff s s).1 refl

-- `==` where a side may be `None`.
unfoldable pub opt_eq : Option Text → Option Text → Bool
opt_eq none none = true
opt_eq none (some t) = false
opt_eq (some s) none = false
opt_eq (some s) (some t) = s == t

pub opt_eq_iff : (a b : Option Text) → (opt_eq a b ≡ true) ↔ (a ≡ b)
unfolding opt_eq
opt_eq_iff none none = (λ h. refl, λ h. refl)
opt_eq_iff none (some t) = (λ h. cc, λ h. cc)
opt_eq_iff (some s) none = (λ h. cc, λ h. cc)
opt_eq_iff (some s) (some t) = ground (arith, eq_iff s t)

-- `x in xs`
unfoldable pub contains : Text → List Text → Bool
contains x [] = false
contains x (y ∷ ys) = y == x || contains x ys

unfoldable pub is_space : ℕ → Bool
is_space c =
    (leb 9 c && leb c 13)
    || (leb 28 c && leb c 32)
    || nat_eq c 0x85
    || nat_eq c 0xa0
    || nat_eq c 0x1680
    || (leb 0x2000 c && leb c 0x200a)
    || (leb 0x2028 c && leb c 0x2029)
    || nat_eq c 0x202f
    || nat_eq c 0x205f
    || nat_eq c 0x3000

unfoldable pub lstrip : Text → Text
lstrip [] = []
lstrip (c ∷ s) = if is_space c then lstrip s else c ∷ s

-- `s.strip()`
unfoldable pub strip : Text → Text
unfolding lstrip is_space
strip s = reverse (lstrip (reverse (lstrip s)))

unfoldable pub upper_code : ℕ → ℕ
upper_code c = if leb b'a' c && leb c b'z' then c - 32 else c

-- `s.upper()`
unfoldable pub upper : Text → Text
unfolding upper_code
upper s = map upper_code s

unfoldable pub lower_code : ℕ → ℕ
lower_code c = if leb b'A' c && leb c b'Z' then c + 32 else c

-- `s.casefold()` and `s.lower()`
unfoldable pub casefold : Text → Text
unfolding lower_code
casefold s = map lower_code s

-- `s.startswith(prefix)`, with what follows the prefix.
unfoldable pub strip_prefix : Text → Text → Option Text
strip_prefix [] s = some s
strip_prefix (c ∷ p) [] = none
strip_prefix (c ∷ p) (d ∷ s) = if nat_eq c d then strip_prefix p s else none

unfoldable pub starts_with : Text → Text → Bool
unfolding strip_prefix
starts_with p s = elim (strip_prefix p s) [ none ↦ false | some rest ↦ true ]

-- `s.endswith(suffix)`
unfoldable pub ends_with : Text → Text → Bool
unfolding starts_with
ends_with p s = starts_with (reverse p) (reverse s)

abbrev pub cons_head : ℕ → List Text → List Text
cons_head c [] = (c ∷ []) ∷ []
cons_head c (p ∷ ps) = (c ∷ p) ∷ ps

-- `s.split(d)` for a separator of one character
unfoldable pub split : ℕ → Text → List Text
split d [] = [] ∷ []
split d (c ∷ s) = let rest = split d s in if nat_eq c d then [] ∷ rest else cons_head c rest

abbrev pub is_empty : Text → Bool
is_empty [] = true
is_empty (c ∷ s) = false

abbrev pub select {ℓ} : {A : Type ℓ} → (A → Bool) → List A → List A
select p [] = []
select p (x ∷ xs) = let rest = select p xs in if p x then x ∷ rest else rest

-- The components of a POSIX path, as `Path` has them.
unfoldable pub path_parts : Text → List Text
unfolding split ◌==◌
path_parts s = select (λ p. not (is_empty p || p == codes ".")) (split b'/' s)

abbrev pub last_or : Text → List Text → Text
last_or d [] = d
last_or d (x ∷ xs) = last_or x xs

-- `Path(s).name`
unfoldable pub base_name : Text → Text
unfolding path_parts
base_name s = last_or [] (path_parts s)

abbrev encode_code : ℕ → Bytes
encode_code c =
    if ltb c 0x80
    then c ∷ []
    else if ltb c 0x800
    then (0xc0 + c / 0x40) ∷ (0x80 + c % 0x40) ∷ []
    else if ltb c 0x10000
    then (0xe0 + c / 0x1000) ∷ (0x80 + c / 0x40 % 0x40) ∷ (0x80 + c % 0x40) ∷ []
    else (0xf0 + c / 0x40000)
      ∷ (0x80 + c / 0x1000 % 0x40)
      ∷ (0x80 + c / 0x40 % 0x40)
      ∷ (0x80 + c % 0x40)
      ∷ []

-- `s.encode("utf-8")`, of a text with no surrogates.
unfoldable pub encode : Text → Bytes
encode [] = []
encode (c ∷ s) = encode_code c ++ encode s

upper_code_idem : (c : ℕ) → upper_code (upper_code c) ≡ upper_code c
unfolding upper_code
upper_code_idem c = ground arith

pub upper_idem : (s : Text) → upper (upper s) ≡ upper s
unfolding upper
upper_idem [] = refl
upper_idem (c ∷ s) = cc (upper_code_idem c, upper_idem s)

-- `c in s` for one character
unfoldable pub has_code : ℕ → Text → Bool
has_code c [] = false
has_code c (d ∷ s) = nat_eq d c || has_code c s

-- `s.replace(a, b)` for single characters
unfoldable pub replace_code : ℕ → ℕ → Text → Text
replace_code a b s = map (λ c. if nat_eq c a then b else c) s

unfoldable pub drop_code : ℕ → Text → Text
drop_code d [] = []
drop_code d (c ∷ s) = if nat_eq c d then drop_code d s else c ∷ s

-- `s.strip(d)` for one character
unfoldable pub strip_code : ℕ → Text → Text
unfolding drop_code
strip_code d s = reverse (drop_code d (reverse (drop_code d s)))

abbrev pub any {ℓ} : {A : Type ℓ} → (A → Bool) → List A → Bool
any p [] = false
any p (x ∷ xs) = p x || any p xs

-- `t in s`
unfoldable pub has_infix : Text → Text → Bool
unfolding starts_with
has_infix t [] = starts_with t []
has_infix t (c ∷ s) = starts_with t (c ∷ s) || has_infix t s

abbrev split_at : Text → Text → Option (Text × Text)
split_at ext [] = none
split_at ext (c ∷ s) = if nat_eq c b'.' then some (ext, s) else split_at (c ∷ ext) s

abbrev suffix_of : Option (Text × Text) → Text
suffix_of none = []
suffix_of (some (ext, stem)) = if is_empty ext || is_empty stem then [] else b'.' ∷ ext

-- `Path(name).suffix` of one component: from the last dot, if it is neither first nor last.
unfoldable pub suffix : Text → Text
suffix name = suffix_of (split_at [] (reverse name))

abbrev pub join : List Text → Text
join [] = []
join (p ∷ []) = p
join (p ∷ q ∷ ps) = p ++ b'/' ∷ join (q ∷ ps)

-- What is left of the components of a path below those of another.
unfoldable pub strip_parts : List Text → List Text → Option (List Text)
strip_parts [] ps = some ps
strip_parts (r ∷ rs) [] = none
strip_parts (r ∷ rs) (p ∷ ps) = if r == p then strip_parts rs ps else none
