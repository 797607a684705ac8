-- ===== src/Guard/Manifest.antt =====
-- src/jvc/policy/guard.py: a manifest and the states of its life. A manifest is what `json.loads`
-- makes of its file: any field may be missing, null or of a type that the guard does not accept.
-- Times of day are left out.
use jvc_core.Base.{
  ℕ, Bool, true, false, Option, List, [], ◌∷◌, Text, Bytes, codes, ◌==◌, contains, nat_eq,
  if◌then◌else◌,
}
use jvc_core.Boundaries.Targets.{PathError, Resolve}

-- The value of a key of a JSON object. `value` holds the accepted type.
pub data Field {ℓ} (A : Type ℓ) : Type ℓ where
  missing null other : Field A
  value : A → Field A

pub record Entry : Type 0 where
  pub path : Field Text
  pub expected_state : Field Text
  pub sha256 : Field Text
  pub byte_length : Field ℕ
  pub expected_sha256 : Field Text

-- An entry that is no object is `none`.
pub record Manifest : Type 0 where
  pub schema_version : Field ℕ
  pub manifest_id : Field Text
  pub lifecycle_state : Field Text
  pub guard_mode : Field Text
  pub intent_state : Field Text
  pub entries : Field (List (Option Entry))

-- `{**record}` of a receipt, and its observations of the files.
pub record Observation : Type 0 where
  pub path : Text
  pub post_sha256 : Text
  pub post_byte_length : ℕ
  pub changed : Bool

pub record Receipt : Type 0 where
  pub manifest_id : Field Text
  pub changed_paths : List Text
  pub observations : List Observation

-- GuardError by its cause, with what the paths raise and the errors of the operating system.
pub data Error : Type 0 where
  unreadable_manifest existing_artifact changed_manifest failed_verification : Error
  protected_output protected_target not_a_file : Error
  unsupported_schema empty_entries entry_not_object path_required duplicate_path : Error
  secret_entry control_plane_entry unsupported_expected_state : Error
  missing_hash missing_length unexpected_preimage invalid_postimage : Error
  unbound_intent missing_postimages : Error
  not_proposed intent_mismatch unsupported_state invalid_transition not_applied : Error
  bad_path : PathError → Error
  os_error encoding_error : Error

-- What is outside: path resolution, hashlib's hex digest, uuid4, and the json library. A document
-- with a lone surrogate is not UTF-8, so its indented form is `none`.
pub record Host : Type 0 where
  pub resolve : Resolve
  pub hexdigest : Bytes → Text
  pub uuid4 : ℕ → Text
  pub json_loads : Bytes → Option Manifest
  pub canonical_json : Manifest → Bytes
  pub indented_json : Manifest → Option Bytes
  pub indented_receipt : Receipt → Option Bytes

abbrev pub proposed : Text
proposed = codes "proposed"

abbrev pub approved : Text
approved = codes "approved"

abbrev pub applied : Text
applied = codes "applied"

abbrev pub verified : Text
verified = codes "verified"

abbrev pub lifecycle_states : List Text
lifecycle_states = proposed ∷ approved ∷ applied ∷ verified ∷ []

-- `VALID_TRANSITIONS.get(state, set())`
unfoldable pub valid_transitions : Text → List Text
unfolding ◌==◌
valid_transitions state =
    if state == proposed
    then approved ∷ []
    else if state == approved
    then applied ∷ []
    else if state == applied
    then verified ∷ []
    else []

-- `m.get(key) == text`
unfoldable pub is_text : Text → Field Text → Bool
is_text t (value s) = s == t
is_text t _ = false

unfoldable pub is_number : ℕ → Field ℕ → Bool
is_number n (value k) = nat_eq k n
is_number n _ = false

-- `m.get(key) in texts`
unfoldable pub is_among : List Text → Field Text → Bool
is_among ts (value s) = contains s ts
is_among ts _ = false

-- `key in m`
abbrev pub has_field {ℓ} : {A : Type ℓ} → Field A → Bool
has_field missing = false
has_field _ = true

-- A string field after the validator has accepted it.
abbrev pub text_of : Field Text → Text
text_of (value s) = s
text_of _ = []
