-- ===== src/Authority/Tokens.antt =====
-- src/jvc/policy/authority.py: `sign_capability` and `decode_and_verify_capability`.
use jvc_core.Base.{
  ℕ, not, ◌&&◌, Option, none, some, [], ◌∷◌, ◌++◌, Text, Bytes, Dict, ◌==◌, encode, nat_eq,
  if◌then◌else◌,
}
use jvc_core.Exec.{Result, ok, err}
use jvc_core.Authority.Base64.{b64, unb64, is_ascii}
use jvc_core.Authority.Values.{Value, Document, undecodable, unparseable, not_object, object}
use jvc_core.Authority.Keys.{
  Error, validate_operator_key, malformed_token, invalid_signature, invalid_encoding,
  invalid_structure, type_error,
}

-- What is outside: hashlib's and hmac's hex digests, and the json library. `loads` reads UTF-8.
pub record Host : Type 0 where
  pub hexdigest : Bytes → Text
  pub hmac_sha256 : Bytes → Bytes → Text
  pub canonical_json : Dict Value → Bytes
  pub loads : Bytes → Document

abbrev pub push_first : ℕ → Option (Text × Text) → Option (Text × Text)
push_first c none = none
push_first c (some (a, b)) = some (c ∷ a, b)

-- `token.split(".", 1)`
unfoldable pub split_once : Text → Option (Text × Text)
split_once [] = none
split_once (c ∷ s) =
    let rest = push_first c (split_once s) in if nat_eq c b'.' then some ([], s) else rest

module _ (h : Host) where
  abbrev pub signature : Bytes → Text → Text
  signature secret body = h.hmac_sha256 secret (encode body)

  abbrev pub sign_with : Dict Value → Result Error Bytes → Result Error Text
  sign_with claims (err e) = err e
  sign_with claims (ok secret) =
      let body = b64 (h.canonical_json claims) in ok (body ++ b'.' ∷ signature secret body)

  unfoldable pub sign_capability : Dict Value → Bytes → Result Error Text
  unfolding b64 encode validate_operator_key
  sign_capability claims secret = sign_with claims (validate_operator_key secret)

  abbrev pub read_document : Document → Result Error (Dict Value)
  read_document undecodable = err invalid_encoding
  read_document unparseable = err invalid_encoding
  read_document not_object = err invalid_structure
  read_document (object claims) = ok claims

  abbrev pub read_claims : Option Bytes → Result Error (Dict Value)
  read_claims none = err invalid_encoding
  read_claims (some b) = read_document (h.loads b)

  -- `compare_digest` raises TypeError on text that is not ASCII.
  abbrev pub check_signature : Bytes → Option (Text × Text) → Result Error (Dict Value)
  check_signature secret none = err malformed_token
  check_signature secret (some (body, sig)) =
      if not (is_ascii sig && is_ascii (signature secret body))
      then err type_error
      else if not (signature secret body == sig)
      then err invalid_signature
      else read_claims (unb64 body)

  abbrev pub decode_with : Text → Result Error Bytes → Result Error (Dict Value)
  decode_with token (err e) = err e
  decode_with token (ok secret) = check_signature secret (split_once token)

  unfoldable pub decode_and_verify_capability : Text → Bytes → Result Error (Dict Value)
  unfolding split_once unb64 encode ◌==◌ validate_operator_key
  decode_and_verify_capability token secret = decode_with token (validate_operator_key secret)
