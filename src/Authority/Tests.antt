-- ===== src/Authority/Tests.antt =====
-- The theorems of the authority for one request. The digest is the same for all bytes, and the JSON
-- library knows the one record.
use jvc_core.Base.{
  ℕ, zero, suc, ◌≡◌, ◌≢◌, refl, true, false, none, some, [], ◌∷◌, ◌++◌, Text, Bytes, Dict, get, put,
  before, codes, ◌==◌, upper, strip, casefold, ends_with, starts_with, strip_prefix, arith, lstrip,
  is_space,
}
use jvc_core.Exec.{ok}
use jvc_core.Authority.Base64.{b64, unb64, encode_padded, char_of, rstrip_code}
use jvc_core.Authority.Values.{Value, not_object, object}
use jvc_core.Authority.Keys.{Pin, resolve_trusted_executable, executable_key}
use jvc_core.Authority.Tokens.{Host, sign_capability}
use jvc_core.Authority.Redeem.{
  Store, Faults, Random, Proposal, new_record, create_confirmation_request,
  validate_and_consume_capability, sha256_bytes,
}
use jvc_core.Authority.Encoding.{unb64-b64}
use jvc_core.Authority.Once.{
  Redeemed, redeem, run_all, redeem_once, validate_and_consume_capability-Redeemed,
}
use jvc_core.Authority.Issue.{request-granted}

abbrev bytes : Bytes
bytes = 0 ∷ 255 ∷ 16 ∷ 77 ∷ []

unb64-b64_example : unb64 (b64 bytes) ≡ some bytes
unb64-b64_example = unb64-b64 bytes (omega arith)

abbrev blank : Host
blank = record {
  hexdigest = λ b. codes "d";
  hmac_sha256 = λ k b. codes "f";
  canonical_json = λ d. 1 ∷ 2 ∷ [];
  loads = λ b. not_object;
}

abbrev random : Random
random = record { token_hex = λ n. codes "c"; token_urlsafe = λ n. codes "n" }

abbrev proposal : Proposal
proposal = record {
  project_id = codes "demo";
  operation = codes "FS_WRITE";
  target = codes "a";
  payload = [];
  preimage = none;
}

abbrev claims : Dict Value
claims = new_record blank random 0 proposal (codes "K") (codes "R") 100 300

abbrev host : Host
host = record blank { loads = λ b. object claims }

abbrev secret : Bytes
secret = repeated 32
  where
    repeated : ℕ → Bytes
    repeated zero = []
    repeated (suc n) = 1 ∷ repeated n

abbrev token : Text
token = codes "AQI.f"

abbrev id : Text
id = codes "conf_c"

abbrev faultless : Faults
faultless = record { sync_fails = false; unlink_fails = false }

abbrev empty : Store
empty = record { pending = []; consumed = []; drawn = 0 }

abbrev waiting : Store
waiting =
    (create_confirmation_request host random proposal (codes "K") (codes "R") 300 100 faultless
      empty).1

asked :
    create_confirmation_request host random proposal (codes "K") (codes "R") 300 100 faultless empty
    ≡ (ok id, waiting)
unfolding create_confirmation_request
asked = refl

signed : sign_capability host claims secret ≡ ok token
unfolding sign_capability b64 encode_padded char_of rstrip_code
signed = refl

request-granted_example :
    (validate_and_consume_capability host id token proposal secret 400 faultless waiting).0
    ≡ ok true
unfolding sha256_bytes
request-granted_example =
    request-granted host random proposal (codes "K") (codes "R") 300 100 400 faultless faultless
      empty waiting id token secret (omega arith) refl refl asked signed (omega arith) refl
      (unfold get in refl) refl

abbrev spent : Store
spent = (validate_and_consume_capability host id token proposal secret 400 faultless waiting).1

granted :
    validate_and_consume_capability host id token proposal secret 400 faultless waiting
    ≡ (ok true, spent)
unfolding validate_and_consume_capability create_confirmation_request put before upper
granted = refl

validate_and_consume_capability-Redeemed_example :
    Redeemed host id token proposal secret 400 waiting spent
validate_and_consume_capability-Redeemed_example =
    validate_and_consume_capability-Redeemed host id token proposal secret 400 faultless waiting
      spent granted

redeem_once_example :
    validate_and_consume_capability host id token proposal secret 401 faultless
      (run_all host (redeem id token proposal secret 400 faultless ∷ []) spent)
    ≢ (ok true, spent)
redeem_once_example =
    redeem_once host id token proposal secret 400 faultless waiting spent
      (redeem id token proposal secret 400 faultless ∷ []) id proposal 401 faultless spent granted

abbrev digest_64 : Bytes → Text
digest_64 b = secret ++ secret

abbrev trusted : Dict Pin
trusted = (codes "git", record { path = codes "/git"; sha256 = secret ++ secret }) ∷ []

resolved :
    resolve_trusted_executable
      (λ p. p)
      digest_64
      ((codes "/git", []) ∷ [])
      (codes "GIT.exe")
      trusted
    ≡ ok (codes "/git")
unfolding resolve_trusted_executable executable_key casefold strip lstrip is_space ends_with
    starts_with strip_prefix get ◌==◌ upper
resolved = refl
