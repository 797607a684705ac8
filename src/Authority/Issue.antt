-- ===== src/Authority/Issue.antt =====
-- From a request over the operator's signature to the grant.
use jvc_core.Base.{
  ℕ, ◌+◌, ◌*◌, ◌/◌, ◌%◌, ◌≤◌, ◌≡◌, refl, ap, inl, inr, true, false, not, ◌||◌, none, some, [], ◌∷◌,
  ◌++◌, Text, Bytes, Dict, get, put, upper, get-put, before, codes, ◌==◌, eq_refl, has_code,
  is_empty, nat_eq, ltb, arith, Bool-cases,
}
use jvc_core.Exec.{Result, ok, err}
use jvc_core.Authority.Base64.{b64, is_ascii, char_of}
use jvc_core.Authority.Encoding.{AllBytes, b64-plain, plain, unb64-b64}
use jvc_core.Authority.Values.{Value, text, value_eq_refl, get_value, int_of, str_of, object}
use jvc_core.Authority.Keys.{text_or_empty, Error, validate_operator_key}
use jvc_core.Authority.Tokens.{
  Host, split_once, signature, sign_with, decode_with, sign_capability, check_signature,
  decode_and_verify_capability,
}
use jvc_core.Authority.Once.{ok-injective}
use jvc_core.Authority.Signed.{validate_operator_key-same}
use jvc_core.Authority.Redeem.{
  Store, Faults, Random, Proposal, Answer, admit, require, valid_key, found_proposal, decoded,
  ◌>>=◌, create_confirmation_request, new_record, agrees, sha256_bytes, matches, nonce_hash,
  check_claims, nonce_of, expiry, validate_capability, consume_nonce, consume_admitted,
  validate_and_consume_capability,
}

split_once-append :
    (a b : Text) → has_code b'.' a ≡ false → split_once (a ++ b'.' ∷ b) ≡ some (a, b)
unfolding split_once has_code
split_once-append [] b k = refl
split_once-append (c ∷ a) b k = ground (arith, split_once-append a b)

char_of-ne-dot : (v : ℕ) → nat_eq (char_of v) b'.' ≡ false
unfolding char_of
char_of-ne-dot v = ground arith

has_code-plain : (b : Bytes) → AllBytes b → has_code b'.' (plain b) ≡ false
unfolding plain has_code
has_code-plain [] h = refl
has_code-plain (a ∷ []) (ha, _) = simp (char_of-ne-dot (a / 4), char_of-ne-dot (a % 4 * 16))
has_code-plain (a ∷ b ∷ []) (ha, (hb, _)) =
    simp (char_of-ne-dot (a / 4), char_of-ne-dot (a % 4 * 16 + b / 16), char_of-ne-dot (b % 16 * 4))
has_code-plain (a ∷ b ∷ c ∷ rest) (ha, (hb, (hc, hr))) = simp (
  char_of-ne-dot (a / 4),
  char_of-ne-dot (a % 4 * 16 + b / 16),
  char_of-ne-dot (b % 16 * 4 + c / 64),
  char_of-ne-dot (c % 64),
  has_code-plain rest hr,
)

admit-bind :
    {A B : Type 0} (m : Answer A) (f : A → Answer B) (a : A) (b : Answer B)
    → m ≡ admit a
    → f a ≡ b
    → (m >>= f) ≡ b
admit-bind m f a b e k = rw e k

leb_not : (a b : ℕ) → a ≤ b → ltb b a ≡ false
leb_not a b h = ground arith

module _ (h : Host) where
  split_once-b64 :
      (b : Bytes) (sig : Text) → AllBytes b → split_once (b64 b ++ b'.' ∷ sig) ≡ some (b64 b, sig)
  split_once-b64 b sig k = split_once-append (b64 b) sig (rw (b64-plain b k) (has_code-plain b k))

  check_signature-signed :
      (claims : Dict Value) (secret : Bytes)
      → AllBytes (h.canonical_json claims)
      → h.loads (h.canonical_json claims) ≡ object claims
      → is_ascii (signature h secret (b64 (h.canonical_json claims))) ≡ true
      → check_signature h secret (
          split_once (
            b64 (h.canonical_json claims)
            ++ b'.' ∷ signature h secret (b64 (h.canonical_json claims))))
        ≡ ok claims
  check_signature-signed claims secret bytes reads ascii =
      rw
        (split_once-b64 (h.canonical_json claims)
          (signature h secret (b64 (h.canonical_json claims))) bytes)
        (rw ascii (rw eq_refl (rw (unb64-b64 (h.canonical_json claims) bytes) (rw reads refl))))

  signed_with :
      (claims : Dict Value) (secret : Bytes) (token : Text) (r : Result Error Bytes)
      → ((key : Bytes) → r ≡ ok key → key ≡ secret)
      → AllBytes (h.canonical_json claims)
      → h.loads (h.canonical_json claims) ≡ object claims
      → is_ascii (signature h secret (b64 (h.canonical_json claims))) ≡ true
      → sign_with h claims r ≡ ok token
      → decode_with h token r ≡ ok claims
  signed_with claims secret token (err e) same bytes reads ascii signed = cc
  signed_with claims secret token (ok key) same bytes reads ascii signed = rw (same key refl) (
      rw (← ok-injective signed)
        (rw (same key refl) (check_signature-signed claims secret bytes reads ascii)))

  -- The claims that the operator signs come back, if the JSON library reads what it wrote and the
  -- signature is ASCII.
  pub decode-sign :
      (claims : Dict Value) (secret : Bytes) (token : Text)
      → AllBytes (h.canonical_json claims)
      → h.loads (h.canonical_json claims) ≡ object claims
      → is_ascii (signature h secret (b64 (h.canonical_json claims))) ≡ true
      → sign_capability h claims secret ≡ ok token
      → decode_and_verify_capability h token secret ≡ ok claims
  unfolding sign_capability decode_and_verify_capability
  decode-sign claims secret token bytes reads ascii signed =
      signed_with claims secret token (validate_operator_key secret)
        (validate_operator_key-same secret) bytes reads ascii signed

  check_claims-admit :
      (id : Text) (p : Proposal) (now expires : ℕ) (d : Dict Value)
      → matches h d d id p ≡ true
      → expiry (get (codes "expires_at") d) ≡ admit expires
      → ltb expires now ≡ false
      → is_empty (nonce_of (get (codes "nonce") d)) ≡ false
      → check_claims h id p now d d ≡ admit (nonce_hash h d)
  unfolding check_claims
  check_claims-admit id p now expires d m x l n = rw m (rw x (rw l (rw n refl)))

  validate_capability-admit :
      (id token : Text) (p : Proposal) (secret : Bytes) (now : ℕ) (s : Store) (d : Dict Value)
      (hash : Text)
      → is_empty id ≡ false
      → is_empty token ≡ false
      → validate_operator_key secret ≡ ok secret
      → decode_and_verify_capability h token secret ≡ ok d
      → get id s.pending ≡ some (object d)
      → check_claims h id p now d d ≡ admit hash
      → validate_capability h id token p secret now s ≡ admit hash
  unfolding validate_capability
  validate_capability-admit id token p secret now s d hash i t k c g e =
      admit-bind (require (not (is_empty id || is_empty token))) _ tt _ (rw i (rw t refl)) (
        admit-bind (valid_key (validate_operator_key secret)) _ secret _ (ap valid_key k) (
          admit-bind (found_proposal (get id s.pending)) _ (object d) _ (ap found_proposal g) (
            admit-bind (decoded (decode_and_verify_capability h token secret)) _ d _ (ap decoded c)
              e)))

  agrees_self :
      (d : Dict Value) (key : Text) (v : Value) → get_value key d ≡ v → agrees d d key v ≡ true
  unfolding agrees
  agrees_self d key v e = rw e (rw value_eq_refl refl)

  matches_self :
      (d : Dict Value) (id : Text) (p : Proposal)
      → get_value (codes "confirmation_id") d ≡ text id
      → get_value (codes "project_id") d ≡ text p.project_id
      → get_value (codes "operation") d ≡ text p.operation
      → get_value (codes "target") d ≡ text p.target
      → get_value (codes "payload_sha256") d ≡ text (sha256_bytes h (h.canonical_json p.payload))
      → get_value (codes "expected_preimage_sha256") d ≡ text (upper (text_or_empty p.preimage))
      → matches h d d id p ≡ true
  unfolding matches
  matches_self d id p a b c e f g = rw (agrees_self d (codes "confirmation_id") (text id) a) (
      rw (agrees_self d (codes "project_id") (text p.project_id) b) (
        rw (agrees_self d (codes "operation") (text p.operation) c) (
          rw (agrees_self d (codes "target") (text p.target) e) (
            rw
              (agrees_self d (codes "payload_sha256")
                (text (sha256_bytes h (h.canonical_json p.payload))) f)
              (rw
                (agrees_self d (codes "expected_preimage_sha256")
                  (text (upper (text_or_empty p.preimage))) g)
                (rw (agrees_self d (codes "nonce") (get_value (codes "nonce") d) refl) (
                  rw (agrees_self d (codes "expires_at") (get_value (codes "expires_at") d) refl)
                    refl)))))))

  module _ (random : Random) (n : ℕ) (p : Proposal) (confirmation_class reason : Text)
      (now ttl : ℕ) where
    abbrev record_of : Dict Value
    record_of = new_record h random n p confirmation_class reason now ttl

    new_record-matches :
        matches h record_of record_of (codes "conf_" ++ random.token_hex n) p ≡ true
    unfolding get_value get put before ◌==◌
    new_record-matches =
        matches_self record_of (codes "conf_" ++ random.token_hex n) p refl refl refl refl refl refl

    new_record-expiry : expiry (get (codes "expires_at") record_of) ≡ admit (now + ttl)
    unfolding get put before ◌==◌ int_of
    new_record-expiry = refl

    new_record-nonce : nonce_of (get (codes "nonce") record_of) ≡ random.token_urlsafe n
    unfolding get put before ◌==◌ str_of
    new_record-nonce = refl

  consume_nonce-fresh :
      (id hash : Text) (faults : Faults) (s : Store)
      → get hash s.consumed ≡ none
      → faults.sync_fails ≡ false
      → (consume_nonce id hash faults s).0 ≡ true
  unfolding consume_nonce
  consume_nonce-fresh id hash faults s k f = rw k (rw f refl)

  nonempty-append : (a : Text) (c : ℕ) (b : Text) → is_empty (a ++ c ∷ b) ≡ false
  nonempty-append [] c b = refl
  nonempty-append (x ∷ a) c b = refl

  sign_with-key :
      (claims : Dict Value) (secret : Bytes) (token : Text) (r : Result Error Bytes)
      → ((key : Bytes) → r ≡ ok key → key ≡ secret)
      → sign_with h claims r ≡ ok token
      → (r ≡ ok secret) × (is_empty token ≡ false)
  sign_with-key claims secret token (err e) same signed = cc
  sign_with-key claims secret token (ok key) same signed = (
    ap (λ x. ok x) (same key refl),
    rw (← ok-injective signed) (
        nonempty-append (b64 (h.canonical_json claims)) b'.'
          (signature h key (b64 (h.canonical_json claims)))),
  )

  sign-key :
      (claims : Dict Value) (secret : Bytes) (token : Text)
      → sign_capability h claims secret ≡ ok token
      → (validate_operator_key secret ≡ ok secret) × (is_empty token ≡ false)
  unfolding sign_capability
  sign-key claims secret token signed =
      sign_with-key claims secret token (validate_operator_key secret)
        (validate_operator_key-same secret) signed

  consume_admitted-true :
      (id hash : Text) (faults : Faults) (s : Store) (a : Answer Text)
      → a ≡ admit hash
      → (consume_nonce id hash faults s).0 ≡ true
      → (consume_admitted id faults a s).0 ≡ ok true
  consume_admitted-true id hash faults s a e k = rw e (ap (λ x. ok x) k)

  -- What a request leaves behind.
  asked-pending :
      (random : Random) (p : Proposal) (confirmation_class reason : Text) (ttl now : ℕ)
      (faults : Faults) (s s' : Store) (id : Text)
      → create_confirmation_request h random p confirmation_class reason ttl now faults s
        ≡ (ok id, s')
      → (codes "conf_" ++ random.token_hex s.drawn ≡ id)
        × (get id s'.pending
            ≡ some (object (new_record h random s.drawn p confirmation_class reason now ttl)))
        × (s'.consumed ≡ s.consumed)
  unfolding create_confirmation_request
  asked-pending random p confirmation_class reason ttl now faults s s' id e =
      elim (Bool-cases faults.sync_fails) [
        | inl f ↦ let e' = rw f at e in cc
        | inr f ↦
            let e' = rw f at e in
            let named = ok-injective (ap (λ q. q.0) e') in
            let left = ap (λ q. q.1) e' in
            (named, rw (← left) (rw (← named) (rw get-put (rw eq_refl refl))), rw (← left) refl)
      ]

  -- A request that the operator signs as it stands is granted: until it expires, with its nonce not
  -- yet used and its record durable, the request with the same project, operation, target, payload
  -- and preimage is accepted.
  pub request-granted :
      (random : Random) (p : Proposal) (confirmation_class reason : Text) (ttl now now' : ℕ)
      (faults faults' : Faults) (s s' : Store) (id token : Text) (secret : Bytes)
      → let claims = new_record h random s.drawn p confirmation_class reason now ttl in
        AllBytes (h.canonical_json claims)
        → h.loads (h.canonical_json claims) ≡ object claims
        → is_ascii (signature h secret (b64 (h.canonical_json claims))) ≡ true
        → create_confirmation_request h random p confirmation_class reason ttl now faults s
          ≡ (ok id, s')
        → sign_capability h claims secret ≡ ok token
        → now' ≤ now + ttl
        → is_empty (random.token_urlsafe s.drawn) ≡ false
        → get (nonce_hash h claims) s.consumed ≡ none
        → faults'.sync_fails ≡ false
        → (validate_and_consume_capability h id token p secret now' faults' s').0 ≡ ok true
  unfolding validate_and_consume_capability
  request-granted random p confirmation_class reason ttl now now' faults faults' s s' id token
        secret bytes reads ascii asked signed l e unused durable =
      let claims = new_record h random s.drawn p confirmation_class reason now ttl in
      let (named, waiting, same) =
        asked-pending random p confirmation_class reason ttl now faults s s' id asked in
      let (key, nonempty) = sign-key claims secret token signed in
      consume_admitted-true id (nonce_hash h claims) faults' s' _
        (validate_capability-admit id token p secret now' s' claims (nonce_hash h claims)
          (rw (← named) refl) nonempty key
          (decode-sign claims secret token bytes reads ascii signed) waiting
          (check_claims-admit id p now' (now + ttl) claims
            (rw (← named) (new_record-matches random s.drawn p confirmation_class reason now ttl))
            (new_record-expiry random s.drawn p confirmation_class reason now ttl)
            (leb_not now' (now + ttl) l)
            (rw (new_record-nonce random s.drawn p confirmation_class reason now ttl) e)))
        (consume_nonce-fresh id (nonce_hash h claims) faults' s' (rw same unused) durable)
