-- ===== src/Authority/Base64.antt =====
-- src/jvc/policy/authority.py: `_b64` and `_unb64`, with the parts of Python's base64 that they call.
use jvc_core.Base.{
  ℕ, ◌+◌, ◌-◌, ◌*◌, ◌/◌, ◌%◌, Bool, true, ◌&&◌, ◌||◌, Option, none, some, [], ◌∷◌, ◌++◌, Text,
  Bytes, length, ltb, leb, nat_eq, if◌then◌else◌,
}

-- The URL-safe alphabet.
unfoldable pub char_of : ℕ → ℕ
char_of v =
    if ltb v 26
    then b'A' + v
    else if ltb v 52
    then v + 71
    else if ltb v 62
    then v - 4
    else if nat_eq v 62
    then b'-'
    else b'_'

-- `-` and `_` stand for `+` and `/`, which are read too.
unfoldable pub value_of : ℕ → Option ℕ
value_of c =
    if leb b'A' c && leb c b'Z'
    then some (c - 65)
    else if leb b'a' c && leb c b'z'
    then some (c - 71)
    else if leb b'0' c && leb c b'9'
    then some (c + 4)
    else if nat_eq c b'-' || nat_eq c b'+'
    then some 62
    else if nat_eq c b'_' || nat_eq c b'/'
    then some 63
    else none

-- `base64.urlsafe_b64encode`: four characters for three bytes, the last group padded.
unfoldable pub encode_padded : Bytes → Text
unfolding char_of
encode_padded [] = []
encode_padded (a ∷ []) = char_of (a / 4) ∷ char_of (a % 4 * 16) ∷ b'=' ∷ b'=' ∷ []
encode_padded (a ∷ b ∷ []) =
    char_of (a / 4) ∷ char_of (a % 4 * 16 + b / 16) ∷ char_of (b % 16 * 4) ∷ b'=' ∷ []
encode_padded (a ∷ b ∷ c ∷ rest) =
    char_of (a / 4)
    ∷ char_of (a % 4 * 16 + b / 16)
    ∷ char_of (b % 16 * 4 + c / 64)
    ∷ char_of (c % 64)
    ∷ encode_padded rest

abbrev pub drop_end : ℕ → ℕ → Text → Text
drop_end d c [] = if nat_eq c d then [] else c ∷ []
drop_end d c (e ∷ s) = c ∷ e ∷ s

-- `s.rstrip(d)` for one character
unfoldable pub rstrip_code : ℕ → Text → Text
rstrip_code d [] = []
rstrip_code d (c ∷ s) = drop_end d c (rstrip_code d s)

unfoldable pub b64 : Bytes → Text
unfolding encode_padded rstrip_code
b64 b = rstrip_code b'=' (encode_padded b)

-- Where a reading stands: the place in the group of four, the pads met, and the bits left over.
pub record Place : Type 0 where
  pub quad : ℕ
  pub pads : ℕ
  pub left : ℕ

abbrev pub start : Place
start = record { quad = 0; pads = 0; left = 0 }

abbrev pub push_byte : ℕ → Option Bytes → Option Bytes
push_byte b none = none
push_byte b (some bs) = some (b ∷ bs)

-- One character of the alphabet, and the rest.
abbrev pub step_place : ℕ → Place → Place
step_place v p =
    if nat_eq p.quad 0
    then record { quad = 1; pads = 0; left = v }
    else if nat_eq p.quad 1
    then record { quad = 2; pads = 0; left = v % 16 }
    else if nat_eq p.quad 2
    then record { quad = 3; pads = 0; left = v % 4 }
    else record { quad = 0; pads = 0; left = 0 }

abbrev pub emit : ℕ → Place → Option Bytes → Option Bytes
emit v p rest =
    if nat_eq p.quad 0
    then rest
    else if nat_eq p.quad 1
    then push_byte (p.left * 4 + v / 16) rest
    else if nat_eq p.quad 2
    then push_byte (p.left * 16 + v / 4) rest
    else push_byte (p.left * 64 + v) rest

abbrev pub pad_place : Place → Place
pad_place p = if leb 2 p.quad then record p { pads = p.pads + 1 } else p

-- A complete group ends the text; a pad elsewhere is skipped.
abbrev pub is_last_pad : Place → Bool
is_last_pad p = leb 2 p.quad && leb 4 (p.quad + p.pads + 1)

-- `base64.b64decode`, which skips characters outside the alphabet.
unfoldable pub decode_from : Place → Text → Option Bytes
unfolding value_of
decode_from p [] = if nat_eq p.quad 0 then some [] else none
decode_from p (c ∷ s) =
    let padded = decode_from (pad_place p) s in
    let skipped = decode_from p s in
    if nat_eq c b'='
    then (if is_last_pad p then some [] else padded)
    else elim (value_of c) [ none ↦ skipped | some v ↦ emit v p (decode_from (step_place v p) s) ]

abbrev pub padding : ℕ → Text
padding n =
    if nat_eq (n % 4) 1
    then b'=' ∷ b'=' ∷ b'=' ∷ []
    else if nat_eq (n % 4) 2
    then b'=' ∷ b'=' ∷ []
    else if nat_eq (n % 4) 3
    then b'=' ∷ []
    else []

-- A character that is not ASCII is refused.
abbrev pub is_ascii : Text → Bool
is_ascii [] = true
is_ascii (c ∷ s) = ltb c 128 && is_ascii s

unfoldable pub unb64 : Text → Option Bytes
unfolding decode_from
unb64 s = if is_ascii s then decode_from start (s ++ padding (length s)) else none
