-- ===== src/Authority/Encoding.antt =====
-- What `_b64` writes, `_unb64` reads back.
use jvc_core.Base.{
  ℕ, suc, ◌+◌, ◌*◌, ◌/◌, ◌%◌, ◌<◌, ◌≡◌, refl, true, false, some, [], ◌∷◌, ◌++◌, Text, Bytes, length,
  ltb, nat_eq, arith,
}
use jvc_core.Authority.Base64.{
  char_of, value_of, drop_end, b64, Place, start, push_byte, step_place, emit, decode_from, padding,
  is_ascii, unb64,
}

abbrev pub AllBytes : Bytes → Type 0
AllBytes [] = Unit
AllBytes (b ∷ bs) = (b < 256) × AllBytes bs

value_of-char_of : (v : ℕ) → v < 64 → value_of (char_of v) ≡ some v
unfolding value_of char_of
value_of-char_of v h = ground arith

char_of-ne-pad : (v : ℕ) → v < 64 → nat_eq (char_of v) b'=' ≡ false
unfolding char_of
char_of-ne-pad v h = ground arith

-- The characters of the groups without the pads.
unfoldable pub plain : Bytes → Text
plain [] = []
plain (a ∷ []) = char_of (a / 4) ∷ char_of (a % 4 * 16) ∷ []
plain (a ∷ b ∷ []) = char_of (a / 4) ∷ char_of (a % 4 * 16 + b / 16) ∷ char_of (b % 16 * 4) ∷ []
plain (a ∷ b ∷ c ∷ rest) =
    char_of (a / 4)
    ∷ char_of (a % 4 * 16 + b / 16)
    ∷ char_of (b % 16 * 4 + c / 64)
    ∷ char_of (c % 64)
    ∷ plain rest

drop_end-char_of : (v : ℕ) (s : Text) → v < 64 → drop_end b'=' (char_of v) s ≡ char_of v ∷ s
drop_end-char_of v [] h = rw (char_of-ne-pad v h) refl
drop_end-char_of v (c ∷ s) h = refl

pub b64-plain : (b : Bytes) → AllBytes b → b64 b ≡ plain b
unfolding b64 plain
b64-plain [] h = refl
b64-plain (a ∷ []) (ha, _) = rw (char_of-ne-pad (a % 4 * 16) (omega arith)) refl
b64-plain (a ∷ b ∷ []) (ha, (hb, _)) = rw (char_of-ne-pad (b % 16 * 4) (omega arith)) refl
b64-plain (a ∷ b ∷ c ∷ rest) (ha, (hb, (hc, hr))) =
    rw (b64-plain rest hr) (rw (drop_end-char_of (c % 64) (plain rest) (omega arith)) refl)

-- One character of the alphabet.
decode_char :
    (v : ℕ) (p : Place) (s : Text)
    → v < 64
    → decode_from p (char_of v ∷ s) ≡ emit v p (decode_from (step_place v p) s)
unfolding decode_from
decode_char v p s h = rw (char_of-ne-pad v h) (rw (value_of-char_of v h) refl)

first_byte : (a b : ℕ) → a < 256 → b < 256 → a / 4 * 4 + (a % 4 * 16 + b / 16) / 16 ≡ a
first_byte a b ha hb = omega arith

second_byte :
    (a b c : ℕ)
    → b < 256
    → c < 256
    → (a % 4 * 16 + b / 16) % 16 * 16 + (b % 16 * 4 + c / 64) / 4 ≡ b
second_byte a b c hb hc = omega arith

third_byte : (b c : ℕ) → c < 256 → (b % 16 * 4 + c / 64) % 4 * 64 + c % 64 ≡ c
third_byte b c hc = omega arith

-- A group of four characters.
decode_group :
    (a b c : ℕ) (s : Text)
    → a < 256
    → b < 256
    → c < 256
    → decode_from start (
        char_of (a / 4)
        ∷ char_of (a % 4 * 16 + b / 16)
        ∷ char_of (b % 16 * 4 + c / 64)
        ∷ char_of (c % 64)
        ∷ s)
      ≡ push_byte a (push_byte b (push_byte c (decode_from start s)))
decode_group a b c s ha hb hc = rw (decode_char (a / 4) start _ (omega arith)) (
    rw (decode_char (a % 4 * 16 + b / 16) _ _ (omega arith)) (
      rw (decode_char (b % 16 * 4 + c / 64) _ _ (omega arith)) (
        rw (decode_char (c % 64) _ _ (omega arith)) (
          rw (first_byte a b ha hb) (rw (second_byte a b c hb hc) (rw (third_byte b c hc) refl))))))

is_ascii-char_of : (v : ℕ) → v < 64 → ltb (char_of v) 128 ≡ true
unfolding char_of
is_ascii-char_of v h = ground arith

is_ascii-plain : (b : Bytes) → AllBytes b → is_ascii (plain b) ≡ true
unfolding plain
is_ascii-plain [] h = refl
is_ascii-plain (a ∷ []) (ha, _) =
    rw (is_ascii-char_of (a / 4) (omega arith))
      (rw (is_ascii-char_of (a % 4 * 16) (omega arith)) refl)
is_ascii-plain (a ∷ b ∷ []) (ha, (hb, _)) = simp (
  is_ascii-char_of (a / 4) (omega arith),
  is_ascii-char_of (a % 4 * 16 + b / 16) (omega arith),
  is_ascii-char_of (b % 16 * 4) (omega arith),
)
is_ascii-plain (a ∷ b ∷ c ∷ rest) (ha, (hb, (hc, hr))) = simp (
  is_ascii-char_of (a / 4) (omega arith),
  is_ascii-char_of (a % 4 * 16 + b / 16) (omega arith),
  is_ascii-char_of (b % 16 * 4 + c / 64) (omega arith),
  is_ascii-char_of (c % 64) (omega arith),
  is_ascii-plain rest hr,
)

padding_period : (n : ℕ) → padding (suc (suc (suc (suc n)))) ≡ padding n
padding_period n = ground arith

decode_from-plain :
    (b : Bytes) → AllBytes b → decode_from start (plain b ++ padding (length (plain b))) ≡ some b
unfolding plain
decode_from-plain [] h = unfold decode_from in refl
decode_from-plain (a ∷ []) (ha, _) =
    rw (decode_char (a / 4) start _ (omega arith))
      (rw (decode_char (a % 4 * 16) _ _ (omega arith)) (unfold decode_from in ground arith))
decode_from-plain (a ∷ b ∷ []) (ha, (hb, _)) = rw (decode_char (a / 4) start _ (omega arith)) (
    rw (decode_char (a % 4 * 16 + b / 16) _ _ (omega arith))
      (rw (decode_char (b % 16 * 4) _ _ (omega arith)) (unfold decode_from in ground arith)))
decode_from-plain (a ∷ b ∷ c ∷ rest) (ha, (hb, (hc, hr))) =
    rw (decode_group a b c _ ha hb hc)
      (rw (padding_period (length (plain rest))) (rw (decode_from-plain rest hr) refl))

-- Bytes come back from their URL-safe text.
pub unb64-b64 : (b : Bytes) → AllBytes b → unb64 (b64 b) ≡ some b
unfolding unb64
unb64-b64 b h = rw (b64-plain b h) (rw (is_ascii-plain b h) (decode_from-plain b h))
