-- ===== src/Authority/Keys.antt =====
-- src/jvc/policy/authority.py: operator keys, their files, and the checks on host-owned paths.
use jvc_core.Base.{
  ℕ, zero, suc, ◌+◌, ◌*◌, ◌-◌, Bool, true, not, ◌&&◌, Option, none, some, List, [], ◌∷◌, Text,
  Bytes, Dict, get, put, codes, ◌==◌, nat_eq, leb, strip, length, any, casefold, ends_with, upper,
  is_some, if◌then◌else◌,
}
use jvc_core.Exec.{Result, ok, err}
use jvc_core.Boundaries.Targets.{Resolve, relative_to, is_some_path}

-- ValueError, FileExistsError, FileNotFoundError, PermissionError and PersistenceError.
pub data Error : Type 0 where
  weak_key key_length not_hex : Error
  unsafe_placement : Error
  key_exists key_missing : Error
  untrusted_executable executable_missing invalid_pin integrity_mismatch : Error
  malformed_token invalid_signature invalid_encoding invalid_structure : Error
  not_persisted : Error
  type_error attribute_error value_error : Error

abbrev pub operator_key_bytes : ℕ
operator_key_bytes = 32

abbrev pub all_zero : Bytes → Bool
all_zero [] = true
all_zero (b ∷ bs) = nat_eq b 0 && all_zero bs

-- The secret is `bytes`.
unfoldable pub validate_operator_key : Bytes → Result Error Bytes
validate_operator_key secret =
    if not (nat_eq (length secret) operator_key_bytes)
    then err key_length
    else if all_zero secret
    then err weak_key
    else ok secret

abbrev pub hex_digit : ℕ → Option ℕ
hex_digit c =
    if leb b'0' c && leb c b'9'
    then some (c - b'0')
    else if leb b'a' c && leb c b'f'
    then some (c - 87)
    else if leb b'A' c && leb c b'F'
    then some (c - 55)
    else none

abbrev pub hex_byte : Option ℕ → Option ℕ → Option Bytes → Option Bytes
hex_byte (some h) (some l) (some bs) = some ((h * 16 + l) ∷ bs)
hex_byte _ _ _ = none

-- `bytes.fromhex(s)` of digits with no white space between them.
unfoldable pub from_hex : Text → Option Bytes
from_hex [] = some []
from_hex (c ∷ []) = none
from_hex (c ∷ d ∷ s) = hex_byte (hex_digit c) (hex_digit d) (from_hex s)

abbrev pub text_or_empty : Option Text → Text
text_or_empty none = []
text_or_empty (some t) = t

abbrev pub validate_decoded : Option Bytes → Result Error Bytes
validate_decoded none = err not_hex
validate_decoded (some b) = validate_operator_key b

-- The value of the variable in the environment, if it is set.
unfoldable pub load_operator_secret_from_env : Option Text → Result Error Bytes
unfolding from_hex validate_operator_key
load_operator_secret_from_env variable =
    let value = strip (text_or_empty variable) in
    if not (nat_eq (length value) 64) then err not_hex else validate_decoded (from_hex value)

-- The path and the hash that the configuration gives an executable; empty where they are missing.
pub record Pin : Type 0 where
  pub path : Text
  pub sha256 : Text

abbrev pub take : ℕ → Text → Text
take zero s = []
take (suc n) [] = []
take (suc n) (c ∷ s) = c ∷ take n s

-- `name.strip().lower().removesuffix(".exe")`
unfoldable pub executable_key : Text → Text
unfolding casefold ends_with
executable_key name =
    let s = casefold (strip name) in if ends_with (codes ".exe") s then take (length s - 4) s else s

module _ (resolve : Resolve) where
  -- Whether the resolved path lies in a root.
  unfoldable pub is_inside : Text → List Text → Bool
  unfolding relative_to
  is_inside path roots = any (λ root. is_some_path (relative_to path (resolve root))) roots

  unfoldable pub assert_trust_store_outside_roots : Text → List Text → Result Error Text
  assert_trust_store_outside_roots store roots =
      if is_inside (resolve store) roots then err unsafe_placement else ok (resolve store)

  unfoldable pub is_within_store : Text → Text → Bool
  unfolding relative_to
  is_within_store candidate store = is_some_path (relative_to (resolve candidate) (resolve store))

  -- With a new key and whether its file is made durable; the files of the host come back.
  unfoldable pub generate_operator_key :
      Text → List Text → Bool → Bytes → Bool → Dict Bytes → Result Error Bytes × Dict Bytes
  generate_operator_key path forbidden overwrite key persists files =
      if is_inside (resolve path) forbidden
      then (err unsafe_placement, files)
      else if is_some (get (resolve path) files) && not overwrite
      then (err key_exists, files)
      else if not persists
      then (err not_persisted, put (resolve path) key files)
      else (ok key, put (resolve path) key files)

  unfoldable pub rotate_operator_key :
      Text → List Text → Bytes → Bool → Dict Bytes → Result Error Bytes × Dict Bytes
  rotate_operator_key path forbidden key persists files =
      if not (is_some (get (resolve path) files))
      then (err key_missing, files)
      else if is_inside (resolve path) forbidden
      then (err unsafe_placement, files)
      else if not persists
      then (err not_persisted, files)
      else (ok key, put (resolve path) key files)

  abbrev pub check_content : (Bytes → Text) → Text → Text → Option Bytes → Result Error Text
  check_content hexdigest path expected none = err executable_missing
  check_content hexdigest path expected (some content) =
      if not (nat_eq (length expected) 64)
      then err invalid_pin
      else if not (upper (hexdigest content) == expected)
      then err integrity_mismatch
      else ok path

  abbrev pub check_pin : (Bytes → Text) → Dict Bytes → Option Pin → Result Error Text
  check_pin hexdigest files none = err untrusted_executable
  check_pin hexdigest files (some pin) =
      check_content hexdigest (resolve pin.path) (upper pin.sha256) (get (resolve pin.path) files)

  -- The path of an executable whose content has the pinned hash.
  unfoldable pub resolve_trusted_executable :
      (Bytes → Text) → Dict Bytes → Text → Dict Pin → Result Error Text
  resolve_trusted_executable hexdigest files name trusted =
      check_pin hexdigest files (get (executable_key name) trusted)
