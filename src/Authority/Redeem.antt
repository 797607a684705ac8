-- ===== src/Authority/Redeem.antt =====
-- src/jvc/policy/authority.py: `create_confirmation_request` and `validate_and_consume_capability`.
use jvc_core.Base.{
  ℕ, suc, ◌+◌, Bool, true, false, not, ◌&&◌, ◌||◌, Option, none, some, [], ◌++◌, Text, Bytes, Dict,
  get, put, remove, codes, upper, encode, is_some, is_empty, ltb, if◌then◌else◌,
}
use jvc_core.Exec.{Result, ok, err}
use jvc_core.Authority.Values.{
  Value, text, number, value_eq, get_value, int_of, str_of, Document, undecodable, unparseable,
  object,
}
use jvc_core.Authority.Keys.{
  text_or_empty, Error, validate_operator_key, not_persisted, attribute_error, value_error,
  type_error,
}
use jvc_core.Authority.Tokens.{Host, decode_and_verify_capability}

-- The files below pending/ by confirmation ID, those below consumed/ by the hash of the nonce, and
-- the number of random values taken.
pub record Store : Type 0 where
  pub pending : Dict Document
  pub consumed : Dict Text
  pub drawn : ℕ

-- What may fail: the sync of a file, and a removal.
pub record Faults : Type 0 where
  pub sync_fails : Bool
  pub unlink_fails : Bool

-- `secrets.token_hex` and `secrets.token_urlsafe`
pub record Random : Type 0 where
  pub token_hex : ℕ → Text
  pub token_urlsafe : ℕ → Text

-- What a confirmation is asked for.
pub record Proposal : Type 0 where
  pub project_id : Text
  pub operation : Text
  pub target : Text
  pub payload : Dict Value
  pub preimage : Option Text

-- A step of the validation: deny by False, raise, or go on.
pub data Answer {ℓ} (A : Type ℓ) : Type ℓ where
  deny : Answer A
  crash : Error → Answer A
  admit : A → Answer A

infixl 10 ◌>>=◌ ◌>>◌
abbrev pub ◌>>=◌ : {A B : Type 0} → Answer A → (A → Answer B) → Answer B
deny >>= f = deny
crash e >>= f = crash e
admit a >>= f = f a

abbrev pub ◌>>◌ : {B : Type 0} → Answer (Unit {0}) → Answer B → Answer B
m >> n = m >>= λ _. n

abbrev pub require : Bool → Answer (Unit {0})
require true = admit tt
require false = deny

abbrev pub found_proposal : Option Document → Answer Document
found_proposal none = deny
found_proposal (some undecodable) = crash value_error
found_proposal (some unparseable) = deny
found_proposal (some d) = admit d

-- PermissionError denies; TypeError is not caught.
abbrev pub refused : Error → Answer (Dict Value)
refused type_error = crash type_error
refused _ = deny

abbrev pub decoded : Result Error (Dict Value) → Answer (Dict Value)
decoded (ok claims) = admit claims
decoded (err e) = refused e

abbrev pub valid_key : Result Error Bytes → Answer Bytes
valid_key (ok secret) = admit secret
valid_key (err e) = deny

abbrev pub as_object : Document → Answer (Dict Value)
as_object (object d) = admit d
as_object _ = crash attribute_error

-- The claim and the proposal both have the value.
unfoldable pub agrees : Dict Value → Dict Value → Text → Value → Bool
unfolding value_eq get_value
agrees claims proposal key v =
    value_eq (get_value key claims) v && value_eq (get_value key proposal) v

-- `int(claims.get("expires_at", 0))`
abbrev pub as_expiry : Option ℕ → Answer ℕ
as_expiry none = crash value_error
as_expiry (some n) = admit n

abbrev pub expiry : Option Value → Answer ℕ
expiry none = admit 0
expiry (some v) = as_expiry (int_of v)

-- `str(claims.get("nonce", ""))`
abbrev pub nonce_of : Option Value → Text
nonce_of none = []
nonce_of (some v) = str_of v

-- The exclusive creation of the nonce's file, and its durability.
unfoldable pub consume_nonce : Text → Text → Faults → Store → Bool × Store
consume_nonce confirmation_id hash faults s =
    if is_some (get hash s.consumed)
    then (false, s)
    else (let created = record s { consumed = put hash confirmation_id s.consumed } in
        if faults.sync_fails
        then (
          false,
          if faults.unlink_fails
              then created
              else record s { consumed = remove hash created.consumed },
        )
        else (
          true,
          if faults.unlink_fails
              then created
              else record created { pending = remove confirmation_id s.pending },
        ))

abbrev pub consume_admitted : Text → Faults → Answer Text → Store → Result Error Bool × Store
consume_admitted confirmation_id faults deny s = (ok false, s)
consume_admitted confirmation_id faults (crash e) s = (err e, s)
consume_admitted confirmation_id faults (admit hash) s =
    let (granted, s') = consume_nonce confirmation_id hash faults s in (ok granted, s')

module _ (h : Host) where
  unfoldable pub sha256_bytes : Bytes → Text
  sha256_bytes b = upper (h.hexdigest b)

  abbrev pub new_record : Random → ℕ → Proposal → Text → Text → ℕ → ℕ → Dict Value
  new_record random n p confirmation_class reason now ttl =
      put (codes "confirmation_id") (text (codes "conf_" ++ random.token_hex n)) (
        put (codes "project_id") (text p.project_id) (
          put (codes "operation") (text p.operation) (
            put (codes "target") (text p.target) (
              put (codes "payload_sha256") (text (sha256_bytes (h.canonical_json p.payload))) (
                put (codes "expected_preimage_sha256") (text (upper (text_or_empty p.preimage))) (
                  put (codes "nonce") (text (random.token_urlsafe n)) (
                    put (codes "created_at") (number now) (
                      put (codes "expires_at") (number (now + ttl)) (
                        put (codes "confirmation_class") (text confirmation_class)
                          (put (codes "reason") (text reason) []))))))))))

  -- The new ID, once the proposal is durable.
  unfoldable pub create_confirmation_request :
      Random → Proposal → Text → Text → ℕ → ℕ → Faults → Store → Result Error Text × Store
  create_confirmation_request random p confirmation_class reason ttl now faults s =
      let cid = codes "conf_" ++ random.token_hex s.drawn in
      let drawn = record s { drawn = suc s.drawn } in
      if faults.sync_fails then (err not_persisted, drawn) else (
        ok cid,
        record drawn {
          pending =
              put cid (object (new_record random s.drawn p confirmation_class reason now ttl))
                s.pending;
        },
      )

  unfoldable pub matches : Dict Value → Dict Value → Text → Proposal → Bool
  unfolding agrees sha256_bytes
  matches claims proposal confirmation_id p =
      agrees claims proposal (codes "confirmation_id") (text confirmation_id)
      && agrees claims proposal (codes "project_id") (text p.project_id)
      && agrees claims proposal (codes "operation") (text p.operation)
      && agrees claims proposal (codes "target") (text p.target)
      && agrees claims proposal (codes "payload_sha256")
          (text (sha256_bytes (h.canonical_json p.payload)))
      && agrees claims proposal (codes "expected_preimage_sha256")
          (text (upper (text_or_empty p.preimage)))
      && agrees claims proposal (codes "nonce") (get_value (codes "nonce") proposal)
      && agrees claims proposal (codes "expires_at") (get_value (codes "expires_at") proposal)

  unfoldable pub nonce_hash : Dict Value → Text
  unfolding str_of sha256_bytes encode
  nonce_hash claims = sha256_bytes (encode (nonce_of (get (codes "nonce") claims)))

  -- The claims against the proposal, the request and the time; the hash of the nonce.
  unfoldable pub check_claims : Text → Proposal → ℕ → Dict Value → Dict Value → Answer Text
  unfolding matches int_of str_of nonce_hash get
  check_claims confirmation_id p now claims proposal = do
    require (matches claims proposal confirmation_id p)
    expires ← expiry (get (codes "expires_at") claims)
    require (not (ltb expires now))
    require (not (is_empty (nonce_of (get (codes "nonce") claims))))
    admit (nonce_hash claims)

  -- Everything before the nonce is consumed.
  unfoldable pub validate_capability : Text → Text → Proposal → Bytes → ℕ → Store → Answer Text
  unfolding validate_operator_key decode_and_verify_capability check_claims get
  validate_capability confirmation_id token p secret now s = do
    require (not (is_empty confirmation_id || is_empty token))
    key ← valid_key (validate_operator_key secret)
    document ← found_proposal (get confirmation_id s.pending)
    claims ← decoded (decode_and_verify_capability h token key)
    proposal ← as_object document
    check_claims confirmation_id p now claims proposal

  unfoldable pub validate_and_consume_capability :
      Text → Text → Proposal → Bytes → ℕ → Faults → Store → Result Error Bool × Store
  unfolding validate_capability consume_nonce
  validate_and_consume_capability confirmation_id token p secret now faults s =
      consume_admitted confirmation_id faults
        (validate_capability confirmation_id token p secret now s) s
