-- ===== src/Authority/Once.antt =====
-- A capability is granted once.
use jvc_core.Base.{
  ℕ, ◌≡◌, ◌≢◌, refl, sym, ◌∙◌, ap, inl, inr, Bool, true, false, not, ◌||◌, Option, none, some, List,
  [], ◌∷◌, Text, Bytes, Dict, get, put, get-put, get-remove, codes, eq_iff, eq_refl, is_some,
  is_empty, ltb, arith, Option-cases,
}
use jvc_core.Exec.{Result, ok, err}
use jvc_core.Authority.Values.{Value, Document, undecodable, unparseable, not_object, object}
use jvc_core.Authority.Keys.{Error, validate_operator_key, type_error}
use jvc_core.Authority.Tokens.{Host, decode_and_verify_capability}
use jvc_core.Authority.Redeem.{
  Store, Faults, Random, Proposal, Answer, deny, crash, admit, ◌>>=◌, require,
  create_confirmation_request, found_proposal, decoded, refused, valid_key, as_object, matches,
  expiry, nonce_of, nonce_hash, validate_capability, consume_nonce, consume_admitted,
  validate_and_consume_capability,
}
use jvc_core.Authority.Signed.{
  IsSigned, Agreed, validate_operator_key-same, matches-Agreed,
  decode_and_verify_capability-IsSigned,
}

-- What passes the validation: the proposal that is pending and the claims that the operator signed
-- agree with the request, have not expired, and carry a nonce of the given hash.
pub record Granted (h : Host) (confirmation_id token : Text) (p : Proposal) (secret : Bytes)
    (now : ℕ) (s : Store) (hash : Text) : Type 0 where
  pub claims : Dict Value
  pub proposal : Dict Value
  pub expires : ℕ
  pub signed : decode_and_verify_capability h token secret ≡ ok claims
  pub waiting : get confirmation_id s.pending ≡ some (object proposal)
  pub verified : IsSigned h token secret claims
  pub agreed : Agreed h claims proposal confirmation_id p
  pub dated : expiry (get (codes "expires_at") claims) ≡ admit expires
  pub current : ltb expires now ≡ false
  pub hashed : nonce_hash h claims ≡ hash

-- Inversion of a step of the validation.
bind-admit :
    {A B : Type 0} (m : Answer A) (f : A → Answer B) (b : B)
    → (m >>= f) ≡ admit b
    → (a : A) × (m ≡ admit a) × (f a ≡ admit b)
bind-admit deny f b e = cc
bind-admit (crash x) f b e = cc
bind-admit (admit a) f b e = (a, refl, e)

require-admit : (t : Bool) (u : Unit {0}) → require t ≡ admit u → t ≡ true
require-admit true u e = refl
require-admit false u e = cc

refused-fails : (e : Error) (c : Dict Value) → refused e ≢ admit c
refused-fails type_error c = λ k. cc
refused-fails _ c = λ k. cc

decoded-admit : (r : Result Error (Dict Value)) (c : Dict Value) → decoded r ≡ admit c → r ≡ ok c
decoded-admit (ok d) c e = cc
decoded-admit (err x) c e = absurd (refused-fails x c e)

valid_key-admit : (r : Result Error Bytes) (k : Bytes) → valid_key r ≡ admit k → r ≡ ok k
valid_key-admit (ok d) k e = cc
valid_key-admit (err x) k e = cc

as_object-admit : (d : Document) (o : Dict Value) → as_object d ≡ admit o → d ≡ object o
as_object-admit (object d) o e = cc
as_object-admit undecodable o e = cc
as_object-admit unparseable o e = cc
as_object-admit not_object o e = cc

found_proposal-admit :
    (d : Option Document) (o : Document) → found_proposal d ≡ admit o → d ≡ some o
found_proposal-admit none o e = cc
found_proposal-admit (some (object d)) o e = cc
found_proposal-admit (some undecodable) o e = cc
found_proposal-admit (some unparseable) o e = cc
found_proposal-admit (some not_object) o e = cc

not-true : (b : Bool) → not b ≡ true → b ≡ false
not-true true e = cc
not-true false e = refl

pub ok-injective : {A : Type 0} {x y : A} → ◌≡◌ {A = Result Error A} (ok x) (ok y) → x ≡ y
ok-injective e = cc

some-none : {A : Type 0} {o : Option A} → is_some o ≡ true → o ≢ none
some-none k e = let k' = rw e at k in cc

admit-injective : {A : Type 0} {x y : A} → admit x ≡ admit y → x ≡ y
admit-injective e = cc

module _ (h : Host) where
  validate_capability-Granted :
      (id token : Text) (p : Proposal) (secret : Bytes) (now : ℕ) (s : Store) (hash : Text)
      → validate_capability h id token p secret now s ≡ admit hash
      → Granted h id token p secret now s hash
  unfolding validate_capability
  validate_capability-Granted id token p secret now s hash e =
      let (_, _, e₁) = bind-admit (require (not (is_empty id || is_empty token))) _ hash e in
      let (key, k, e₂) = bind-admit (valid_key (validate_operator_key secret)) _ hash e₁ in
      let (document, d, e₃) = bind-admit (found_proposal (get id s.pending)) _ hash e₂ in
      let (claims, c, e₄) =
        bind-admit (decoded (decode_and_verify_capability h token key)) _ hash e₃ in
      let (proposal, o, e₅) = bind-admit (as_object document) _ hash e₄ in
      let (u, m, e₆) = bind-admit (require (matches h claims proposal id p)) _ hash e₅ in
      let (expires, x, e₇) = bind-admit (expiry (get (codes "expires_at") claims)) _ hash e₆ in
      let (v, n, e₈) = bind-admit (require (not (ltb expires now))) _ hash e₇ in
      let (w, _, e₉) =
        bind-admit (require (not (is_empty (nonce_of (get (codes "nonce") claims))))) _ hash e₈ in
      record {
        claims = claims;
        proposal = proposal;
        expires = expires;
        signed =
            rw (validate_operator_key-same secret key (valid_key-admit _ key k)) at
              (decoded-admit _ claims c);
        waiting =
            found_proposal-admit _ document d
            ∙ ap (λ (x : Document). some x) (as_object-admit document proposal o);
        verified = decode_and_verify_capability-IsSigned h token secret claims (
            rw (validate_operator_key-same secret key (valid_key-admit _ key k)) at
              (decoded-admit _ claims c));
        agreed = matches-Agreed h claims proposal id p (require-admit _ u m);
        dated = x;
        current = not-true _ (require-admit _ v n);
        hashed = admit-injective e₉;
      }

  -- A successful redemption found the nonce unused, and has used it.
  pub record Redeemed (id token : Text) (p : Proposal) (secret : Bytes) (now : ℕ) (s s' : Store)
      : Type 0 where
    pub hash : Text
    pub granted : Granted h id token p secret now s hash
    pub unused : get hash s.consumed ≡ none
    pub used : is_some (get hash s'.consumed) ≡ true

  consume_nonce-used :
      (id hash : Text) (faults : Faults) (s s' : Store)
      → consume_nonce id hash faults s ≡ (true, s')
      → (get hash s.consumed ≡ none) × (is_some (get hash s'.consumed) ≡ true)
  unfolding consume_nonce
  consume_nonce-used id hash faults s s' e = elim (Option-cases (get hash s.consumed)) [
    | inl free ↦ (free, ground (arith, free, get-put hash hash id s.consumed, eq_refl hash))
    | inr (y, taken) ↦ absurd (ground (arith, taken))
  ]

  consume_admitted-Redeemed :
      (id token : Text) (p : Proposal) (secret : Bytes) (now : ℕ) (faults : Faults)
      (a : Answer Text) (s s' : Store)
      → validate_capability h id token p secret now s ≡ a
      → consume_admitted id faults a s ≡ (ok true, s')
      → Redeemed id token p secret now s s'
  consume_admitted-Redeemed id token p secret now faults deny s s' v e = cc
  consume_admitted-Redeemed id token p secret now faults (crash x) s s' v e = cc
  consume_admitted-Redeemed id token p secret now faults (admit hash) s s' v e =
      let (n, y) = consume_nonce-used id hash faults s s' (cc) in
      record {
        hash = hash;
        granted = validate_capability-Granted id token p secret now s hash v;
        unused = n;
        used = y;
      }

  -- A capability that is accepted is a body, a dot and the HMAC of the body under the secret. The
  -- claims in the body and the pending proposal both have the ID, the project, the operation, the
  -- target, the hash of the payload and the preimage of the request, and the same nonce and expiry;
  -- the capability has not expired, and its nonce was unused and is now used.
  pub validate_and_consume_capability-Redeemed :
      (id token : Text) (p : Proposal) (secret : Bytes) (now : ℕ) (faults : Faults) (s s' : Store)
      → validate_and_consume_capability h id token p secret now faults s ≡ (ok true, s')
      → Redeemed id token p secret now s s'
  unfolding validate_and_consume_capability
  validate_and_consume_capability-Redeemed id token p secret now faults s s' e =
      consume_admitted-Redeemed id token p secret now faults _ s s' refl e

  -- The operations of any callers on the store.
  pub data Command : Type 0 where
    ask : Random → Proposal → Text → Text → ℕ → ℕ → Faults → Command
    redeem : Text → Text → Proposal → Bytes → ℕ → Faults → Command

  abbrev pub run : Command → Store → Store
  run (ask random p confirmation_class reason ttl now faults) s =
      (create_confirmation_request h random p confirmation_class reason ttl now faults s).1
  run (redeem id token p secret now faults) s =
      (validate_and_consume_capability h id token p secret now faults s).1

  unfoldable pub run_all : List Command → Store → Store
  run_all [] s = s
  run_all (c ∷ cs) s = run_all cs (run c s)

  consume_admitted-keeps :
      (id : Text) (faults : Faults) (a : Answer Text) (s : Store) (x : Text)
      → is_some (get x s.consumed) ≡ true
      → is_some (get x (consume_admitted id faults a s).1.consumed) ≡ true
  unfolding consume_nonce
  consume_admitted-keeps id faults deny s x k = k
  consume_admitted-keeps id faults (crash e) s x k = k
  consume_admitted-keeps id faults (admit hash) s x k = ground (
    arith,
    get-put hash x id s.consumed,
    get-remove hash x (put hash id s.consumed),
    eq_iff hash x,
  )

  run-keeps :
      (c : Command) (s : Store) (x : Text)
      → is_some (get x s.consumed) ≡ true
      → is_some (get x (run c s).consumed) ≡ true
  unfolding create_confirmation_request validate_and_consume_capability
  run-keeps (ask random p confirmation_class reason ttl now faults) s x k = ground arith
  run-keeps (redeem id token p secret now faults) s x k = consume_admitted-keeps id faults _ s x k

  run_all-keeps :
      (cs : List Command) (s : Store) (x : Text)
      → is_some (get x s.consumed) ≡ true
      → is_some (get x (run_all cs s).consumed) ≡ true
  unfolding run_all
  run_all-keeps [] s x k = k
  run_all-keeps (c ∷ cs) s x k = run_all-keeps cs (run c s) x (run-keeps c s x k)

  -- Once a token has been accepted it is never accepted again with the same secret, whatever the
  -- request, the time and the faults are and whatever operations come between.
  pub redeem_once :
      (id token : Text) (p : Proposal) (secret : Bytes) (now : ℕ) (faults : Faults) (s s' : Store)
      (cs : List Command) (id' : Text) (p' : Proposal) (now' : ℕ) (faults' : Faults) (s'' : Store)
      → validate_and_consume_capability h id token p secret now faults s ≡ (ok true, s')
      → validate_and_consume_capability h id' token p' secret now' faults' (run_all cs s')
        ≢ (ok true, s'')
  redeem_once id token p secret now faults s s' cs id' p' now' faults' s'' first again =
      let a = validate_and_consume_capability-Redeemed id token p secret now faults s s' first in
      let b =
        validate_and_consume_capability-Redeemed id' token p' secret now' faults' (run_all cs s')
          s'' again in
      let same : (b.hash ≡ a.hash) =
        sym b.granted.hashed
        ∙ ap (nonce_hash h) (ok-injective (sym b.granted.signed ∙ a.granted.signed))
        ∙ a.granted.hashed in
      some-none (run_all-keeps cs s' a.hash a.used) (rw same at b.unused)
