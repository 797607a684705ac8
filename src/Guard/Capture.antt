-- ===== src/Guard/Capture.antt =====
-- src/jvc/policy/guard.py: `capture`, `bind_intent` and `verify`.
use jvc_core.Base.{
  ℕ, ◌+◌, Bool, true, false, not, ◌&&◌, ◌||◌, Option, none, some, List, [], ◌∷◌, Text, codes,
  contains, any, Dict, get, put, keys, upper, length, map, if◌then◌else◌,
}
use jvc_core.Exec.{Result, ok, err, pure, gets, modify, lift, guard, ◌>>=◌, ◌>>◌}
use jvc_core.Boundaries.Paths.{is_secret_path, is_control_plane_path}
use jvc_core.Guard.Manifest.{
  Field, missing, value, Entry, Manifest, Error, protected_target, not_a_file, not_proposed,
  intent_mismatch, Host, proposed, is_text, is_number, text_of,
}
use jvc_core.Guard.Validate.{schema, present, absent, validate_entries}
use jvc_core.Guard.Files.{
  Node, file, directory, Store, M, sha256_bytes, node, exists, read_bytes, read_json,
  write_new_json, rewrite_manifest, check_output_path, target_of,
}

-- `not failures` is PASS.
pub data Observed : Type 0 where
  unread : Text → Bool → Observed
  read : Text → Text → ℕ → Observed

pub record Verification : Type 0 where
  pub failures : List Text
  pub observations : List Observed

abbrev pub no_failures : Verification
no_failures = record { failures = []; observations = [] }

abbrev pub observe : Bool → Text → Observed → Result Error Verification → Result Error Verification
observe failed path seen (err e) = err e
observe failed path seen (ok v) = ok (record {
  failures = if failed then path ∷ v.failures else v.failures;
  observations = seen ∷ v.observations;
})

-- `all(x in ys for x in xs)` both ways
abbrev pub same_set : List Text → List Text → Bool
same_set xs ys = not (any (λ x. not (contains x ys)) xs) && not (any (λ y. not (contains y xs)) ys)

abbrev pub hash_for : Dict Text → Entry → Field Text
hash_for intents e = elim (get (text_of e.path) intents) [ none ↦ missing | some t ↦ value t ]

abbrev pub bind_entry : Dict Text → Option Entry → Option Entry
bind_entry intents none = none
bind_entry intents (some e) = some (record e { expected_sha256 = hash_for intents e })

abbrev pub bind_entries : Dict Text → Field (List (Option Entry)) → Field (List (Option Entry))
bind_entries intents (value es) = value (map (bind_entry intents) es)
bind_entries intents f = f

module _ (h : Host) (root : Text) where
  -- An entry of what is at a target.
  abbrev pub captured : Text → Option Node → Result Error Entry
  captured path none = ok (record {
    path = value path;
    expected_state = value absent;
    sha256 = missing;
    byte_length = missing;
    expected_sha256 = missing;
  })
  captured path (some directory) = err not_a_file
  captured path (some (file b)) = ok (record {
    path = value path;
    expected_state = value present;
    sha256 = value (sha256_bytes h b);
    byte_length = value (length b);
    expected_sha256 = missing;
  })

  unfoldable pub capture_path : Store → Text → Result Error Entry
  unfolding sha256_bytes
  capture_path s p = elim (target_of h root p) [
    | err e ↦ err e
    | ok (target, canonical) ↦
        if is_secret_path canonical || is_control_plane_path [] [] canonical
        then err protected_target
        else captured canonical (node h s target)
  ]

  abbrev pub add_entry : Result Error Entry → Result Error (List Entry) → Result Error (List Entry)
  add_entry (err e) rest = err e
  add_entry (ok x) (err e) = err e
  add_entry (ok x) (ok es) = ok (x ∷ es)

  unfoldable pub capture_paths : Store → List Text → Result Error (List Entry)
  unfolding capture_path
  capture_paths s [] = ok []
  capture_paths s (p ∷ ps) = add_entry (capture_path s p) (capture_paths s ps)

  abbrev pub new_manifest : ℕ → List Entry → Manifest
  new_manifest n entries = record {
    schema_version = value schema;
    manifest_id = value (h.uuid4 n);
    lifecycle_state = value proposed;
    guard_mode = value (codes "strict-write");
    intent_state = value (codes "unbound");
    entries = value (map (λ e. some e) entries);
  }

  unfoldable pub capture : List Text → Text → M Manifest
  unfolding capture_paths check_output_path write_new_json
  capture paths output = do
    check_output_path h root output
    entries ← λ s. (capture_paths s paths, s)
    n ← gets (λ s. s.ids)
    let m = new_manifest n entries
    modify (λ s. record s { ids = s.ids + 1 })
    write_new_json h output (h.indented_json m)
    pure m

  -- The loop over the given hashes, by canonical path.
  unfoldable pub normalize_intents : Dict Text → Dict Text → Result Error (Dict Text)
  normalize_intents done [] = ok done
  normalize_intents done ((k, v) ∷ given) = elim (target_of h root k) [
    | err e ↦ err e
    | ok (target, canonical) ↦ normalize_intents (put canonical (upper v) done) given
  ]

  unfoldable pub bind_intent : Text → Dict Text → M Manifest
  unfolding read_bytes read_json validate_entries normalize_intents is_text rewrite_manifest
  bind_intent path expected_hashes = do
    before ← read_bytes h path
    m ← read_json h path
    entries ← lift (
        validate_entries h root
          (record m { intent_state = value (codes "bound"); lifecycle_state = value proposed }))
    guard (is_text proposed m.lifecycle_state) not_proposed
    intents ← lift (normalize_intents [] expected_hashes)
    guard (same_set (keys intents) (map (λ e. text_of e.path) entries)) intent_mismatch
    let bound = record m {
      entries = bind_entries intents m.entries;
      intent_state = value (codes "bound");
    }
    rewrite_manifest h path before bound
    pure bound

  abbrev pub compare_preimage :
      Entry → Option Node → Result Error Verification → Result Error Verification
  compare_preimage e (some (file b)) rest =
      observe
        (not (is_text (sha256_bytes h b) e.sha256) || not (is_number (length b) e.byte_length))
        (text_of e.path) (read (text_of e.path) (sha256_bytes h b) (length b)) rest
  compare_preimage e _ rest = observe true (text_of e.path) (unread (text_of e.path) false) rest

  unfoldable pub verify_entry :
      Store → Entry → Result Error Verification → Result Error Verification
  unfolding is_text is_number sha256_bytes
  verify_entry s e rest = elim (target_of h root (text_of e.path)) [
    | err x ↦ err x
    | ok (target, canonical) ↦
        if is_text absent e.expected_state
        then observe (exists h s target) (text_of e.path)
            (unread (text_of e.path) (exists h s target)) rest
        else compare_preimage e (node h s target) rest
  ]

  unfoldable pub verify_entries : Store → List Entry → Result Error Verification
  unfolding verify_entry
  verify_entries s [] = ok no_failures
  verify_entries s (e ∷ es) = verify_entry s e (verify_entries s es)

  unfoldable pub verify : Text → M Verification
  unfolding read_json validate_entries verify_entries
  verify path = do
    m ← read_json h path
    entries ← lift (validate_entries h root m)
    λ s. (verify_entries s entries, s)
