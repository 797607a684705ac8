-- ===== src/Authority/Signed.antt =====
-- What a token is that decodes, and what claims are that agree with a proposal and a request.
use jvc_core.Base.{
  ℕ, inl, inr, ◌≡◌, refl, sym, ap, ◌∙◌, Bool, true, false, not, ◌&&◌, Option, none, some, [], ◌∷◌,
  ◌++◌, Text, Bytes, Dict, codes, encode, ◌==◌, eq_iff, has_code, nat_eq, nat_eq_iff, upper, arith,
  Bool-cases,
}
use jvc_core.Exec.{Result, ok, err}
use jvc_core.Authority.Base64.{unb64, is_ascii}
use jvc_core.Authority.Values.{
  Value, text, Document, undecodable, unparseable, not_object, object, value_eq_sound, get_value,
}
use jvc_core.Authority.Keys.{Error, validate_operator_key, text_or_empty}
use jvc_core.Authority.Tokens.{
  Host, push_first, split_once, signature, read_document, read_claims, check_signature, decode_with,
  decode_and_verify_capability,
}
use jvc_core.Authority.Redeem.{Proposal, agrees, matches, sha256_bytes}

-- The token is a body, a dot and the HMAC of the body under the secret; the body encodes the claims.
pub record IsSigned (h : Host) (token : Text) (secret : Bytes) (claims : Dict Value) : Type 0 where
  pub body : Text
  pub content : Bytes
  pub joined : token ≡ body ++ b'.' ∷ h.hmac_sha256 secret (encode body)
  pub undotted : has_code b'.' body ≡ false
  pub in_body : unb64 body ≡ some content
  pub loaded : h.loads content ≡ object claims

-- The claim and the field of the proposal under the key are both the value.
abbrev pub AreBoth : Dict Value → Dict Value → Text → Value → Type 0
AreBoth claims proposal k v = (get_value k claims ≡ v) × (get_value k proposal ≡ v)

-- The claims and the proposal agree with the request, and with each other.
pub record Agreed (h : Host) (claims proposal : Dict Value) (id : Text) (p : Proposal)
    : Type 0 where
  pub confirmation_id : AreBoth claims proposal (codes "confirmation_id") (text id)
  pub project_id : AreBoth claims proposal (codes "project_id") (text p.project_id)
  pub operation : AreBoth claims proposal (codes "operation") (text p.operation)
  pub target : AreBoth claims proposal (codes "target") (text p.target)
  pub payload :
      AreBoth claims proposal
        (codes "payload_sha256")
        (text (upper (h.hexdigest (h.canonical_json p.payload))))
  pub preimage :
      AreBoth claims proposal
        (codes "expected_preimage_sha256")
        (text (upper (text_or_empty p.preimage)))
  pub nonce : get_value (codes "nonce") claims ≡ get_value (codes "nonce") proposal
  pub expires_at : get_value (codes "expires_at") claims ≡ get_value (codes "expires_at") proposal

pub and-true : (a b : Bool) → (a && b) ≡ true → (a ≡ true) × (b ≡ true)
and-true true b k = (refl, k)
and-true false b k = cc

agrees-AreBoth :
    (claims proposal : Dict Value) (k : Text) (v : Value)
    → agrees claims proposal k v ≡ true
    → AreBoth claims proposal k v
unfolding agrees
agrees-AreBoth claims proposal k v e =
    let (a, b) = and-true _ _ e in
    (value_eq_sound (get_value k claims) v a, value_eq_sound (get_value k proposal) v b)

abbrev first_of : Option (Text × Text) → Text
first_of none = []
first_of (some (x, y)) = x

abbrev second_of : Option (Text × Text) → Text
second_of none = []
second_of (some (x, y)) = y

push_first-some :
    (c : ℕ) (o : Option (Text × Text)) (body sig : Text)
    → push_first c o ≡ some (body, sig)
    → (rest : Text) × (o ≡ some (rest, sig)) × (body ≡ c ∷ rest)
push_first-some c none body sig k = cc
push_first-some c (some (a, b)) body sig k =
    (a, ap (λ z. some (a, z)) (ap second_of k), sym (ap first_of k))

-- A token that is split at its first dot.
split_once-some :
    (token body sig : Text)
    → split_once token ≡ some (body, sig)
    → (token ≡ body ++ b'.' ∷ sig) × (has_code b'.' body ≡ false)
unfolding split_once has_code
split_once-some [] body sig k = cc
split_once-some (c ∷ s) body sig k = elim (Bool-cases (nat_eq c b'.')) [
  | inl y ↦
      let k₁ : (◌≡◌ {A = Option (Text × Text)} (some ([], s)) (some (body, sig))) = rw y at k in
      rw (← ap first_of k₁, (nat_eq_iff c b'.').0 y) (ap (λ z. b'.' ∷ z) (ap second_of k₁), refl)
  | inr n ↦
      let (rest, at, is) = push_first-some c (split_once s) body sig (rw n at k) in
      let (joined, undotted) = split_once-some s rest sig at in
      rw is (ap (λ z. c ∷ z) joined, rw n undotted)
]

pub validate_operator_key-same :
    (secret key : Bytes) → validate_operator_key secret ≡ ok key → key ≡ secret
unfolding validate_operator_key
validate_operator_key-same secret key e = ground arith

module _ (h : Host) where
  pub matches-Agreed :
      (claims proposal : Dict Value) (id : Text) (p : Proposal)
      → matches h claims proposal id p ≡ true
      → Agreed h claims proposal id p
  unfolding matches sha256_bytes
  matches-Agreed claims proposal id p e =
      let (e₇, a₈) = and-true _ (agrees claims proposal (codes "expires_at") _) e in
      let (e₆, a₇) = and-true _ (agrees claims proposal (codes "nonce") _) e₇ in
      let (e₅, a₆) = and-true _ (agrees claims proposal (codes "expected_preimage_sha256") _) e₆ in
      let (e₄, a₅) = and-true _ (agrees claims proposal (codes "payload_sha256") _) e₅ in
      let (e₃, a₄) = and-true _ (agrees claims proposal (codes "target") _) e₄ in
      let (e₂, a₃) = and-true _ (agrees claims proposal (codes "operation") _) e₃ in
      let (a₁, a₂) = and-true _ (agrees claims proposal (codes "project_id") _) e₂ in
      record {
        confirmation_id = agrees-AreBoth claims proposal _ _ a₁;
        project_id = agrees-AreBoth claims proposal _ _ a₂;
        operation = agrees-AreBoth claims proposal _ _ a₃;
        target = agrees-AreBoth claims proposal _ _ a₄;
        payload = agrees-AreBoth claims proposal _ _ a₅;
        preimage = agrees-AreBoth claims proposal _ _ a₆;
        nonce = (agrees-AreBoth claims proposal _ _ a₇).0;
        expires_at = (agrees-AreBoth claims proposal _ _ a₈).0;
      }

  read_document-object : (d : Document) (c : Dict Value) → read_document h d ≡ ok c → d ≡ object c
  read_document-object undecodable c k = cc
  read_document-object unparseable c k = cc
  read_document-object not_object c k = cc
  read_document-object (object d) c k = let same : (d ≡ c) = cc in ap object same

  read_claims-object :
      (o : Option Bytes) (c : Dict Value)
      → read_claims h o ≡ ok c
      → (content : Bytes) × (o ≡ some content) × (h.loads content ≡ object c)
  read_claims-object none c k = cc
  read_claims-object (some b) c k = (b, refl, read_document-object (h.loads b) c k)

  check_signature-IsSigned :
      (token : Text) (secret : Bytes) (o : Option (Text × Text)) (c : Dict Value)
      → split_once token ≡ o
      → check_signature h secret o ≡ ok c
      → IsSigned h token secret c
  check_signature-IsSigned token secret none c at k = cc
  check_signature-IsSigned token secret (some (body, sig)) c at k =
      elim (Bool-cases (not (is_ascii sig && is_ascii (signature h secret body)))) [
        | inl y ↦ let k₁ = rw y at k in cc
        | inr y ↦
            let k₁ = rw y at k in
            elim (Bool-cases (signature h secret body == sig)) [
              | inr n ↦ let k₂ = rw n at k₁ in cc
              | inl n ↦
                  let (content, in_body, loaded) = read_claims-object (unb64 body) c (rw n at k₁) in
                  let (joined, undotted) = split_once-some token body sig at in
                  record {
                    body = body;
                    content = content;
                    joined = joined ∙ ap (λ z. body ++ b'.' ∷ z) (sym ((eq_iff _ sig).0 n));
                    undotted = undotted;
                    in_body = in_body;
                    loaded = loaded;
                  }
            ]
      ]

  decode_with-IsSigned :
      (token : Text) (secret : Bytes) (r : Result Error Bytes) (c : Dict Value)
      → validate_operator_key secret ≡ r
      → decode_with h token r ≡ ok c
      → IsSigned h token secret c
  decode_with-IsSigned token secret (err e) c at k = cc
  decode_with-IsSigned token secret (ok key) c at k =
      let same = validate_operator_key-same secret key at in
      check_signature-IsSigned token secret (split_once token) c refl (rw same at k)

  -- A token that decodes is signed.
  pub decode_and_verify_capability-IsSigned :
      (token : Text) (secret : Bytes) (c : Dict Value)
      → decode_and_verify_capability h token secret ≡ ok c
      → IsSigned h token secret c
  unfolding decode_and_verify_capability
  decode_and_verify_capability-IsSigned token secret c k =
      decode_with-IsSigned token secret _ c refl k
