-- ===== src/Guard/Apply.antt =====
-- src/jvc/policy/guard.py: `transition` and `receipt`.
use jvc_core.Base.{
  Bool, true, false, not, ◌&&◌, ◌||◌, Option, none, some, List, [], ◌∷◌, Text, Bytes, ◌==◌,
  contains, Dict, put, keys, length, is_empty, if◌then◌else◌,
}
use jvc_core.Exec.{Result, ok, err, pure, gets, lift, guard, ◌>>=◌, ◌>>◌}
use jvc_core.Guard.Manifest.{
  Field, value, Entry, Manifest, Observation, Receipt, Error, existing_artifact, unsupported_state,
  invalid_transition, unbound_intent, not_applied, os_error, Host, applied, verified,
  lifecycle_states, valid_transitions, is_text, is_number, text_of,
}
use jvc_core.Guard.Validate.{absent, is_strict, is_bound, validate_entries}
use jvc_core.Guard.Files.{
  Node, file, directory, Store, M, sha256_bytes, node, exists, read_bytes, read_json,
  write_new_json, rewrite_manifest, check_output_path, target_of,
}

-- Why an entry has not become what it was to be.
pub data Failure : Type 0 where
  differs not_created missing_file unchanged : Text → Failure

pub record Findings : Type 0 where
  pub failures : List Failure
  pub changed_paths : List Text
  pub observations : List Observation

-- What `receipt` returns: FAIL, or PASS with the record.
pub data Verdict : Type 0 where
  failed : List Failure → List Text → Verdict
  passed : Receipt → Verdict

abbrev pub nothing_found : Findings
nothing_found = record { failures = []; changed_paths = []; observations = [] }

-- `m.get("lifecycle_state")` has this successor.
unfoldable pub may_become : Field Text → Text → Bool
unfolding valid_transitions
may_become (value s) target = contains target (valid_transitions s)
may_become _ target = false

unfoldable pub insert_all : List Text → Dict Text → Dict Text
unfolding put
insert_all [] d = d
insert_all (y ∷ ys) d = insert_all ys (put y y d)

-- `sorted(set(xs))`
unfoldable pub sorted_set : List Text → List Text
unfolding insert_all keys
sorted_set xs = keys (insert_all xs [])

-- `expected_hash and post_hash != expected_hash`
unfoldable pub is_unintended : Text → Field Text → Bool
is_unintended post (value expected) = not (is_empty expected || post == expected)
is_unintended post _ = false

abbrev pub fails : Bool → Failure → List Failure → List Failure
fails true f fs = f ∷ fs
fails false f fs = fs

abbrev pub first_error : Result Error Findings → Error → Result Error Findings
first_error (err y) x = err y
first_error (ok f) x = err x

abbrev pub adds : Bool → Text → List Text → List Text
adds true p ps = p ∷ ps
adds false p ps = ps

module _ (h : Host) (root : Text) where
  -- `transition` once the manifest is read
  unfoldable pub transition_of : Text → Text → Bytes → Manifest → M Manifest
  unfolding validate_entries is_text rewrite_manifest may_become
  transition_of path target before m = do
    entries ← lift (validate_entries h root m)
    guard (may_become m.lifecycle_state target) invalid_transition
    guard (not (target == applied && is_strict m) || is_bound m) unbound_intent
    let moved = record m { lifecycle_state = value target }
    rewrite_manifest h path before moved
    pure moved

  unfoldable pub transition : Text → Text → M Manifest
  unfolding read_bytes read_json transition_of
  transition path target = do
    guard (contains target lifecycle_states) unsupported_state
    before ← read_bytes h path
    m ← read_json h path
    transition_of path target before m

  abbrev pub saw : Text → Bytes → Bool → Observation
  saw path b changed = record {
    path = path;
    post_sha256 = sha256_bytes h b;
    post_byte_length = length b;
    changed = changed;
  }

  -- An entry that had no file
  abbrev pub check_new : Entry → Option Node → Findings → Result Error Findings
  check_new e none rest =
      ok (record rest { failures = not_created (text_of e.path) ∷ rest.failures })
  check_new e (some directory) rest = err os_error
  check_new e (some (file b)) rest = ok (record {
    failures =
        fails (is_unintended (sha256_bytes h b) e.expected_sha256) (differs (text_of e.path))
          rest.failures;
    changed_paths = text_of e.path ∷ rest.changed_paths;
    observations = saw (text_of e.path) b true ∷ rest.observations;
  })

  abbrev pub has_changed : Entry → Bytes → Bool
  has_changed e b =
      not (is_text (sha256_bytes h b) e.sha256) || not (is_number (length b) e.byte_length)

  -- An entry that had a file
  abbrev pub check_old : Bool → Entry → Option Node → Findings → Result Error Findings
  check_old strict e (some (file b)) rest = ok (record {
    failures =
        fails (is_unintended (sha256_bytes h b) e.expected_sha256) (differs (text_of e.path))
          (fails (strict && not (has_changed e b)) (unchanged (text_of e.path)) rest.failures);
    changed_paths = adds (has_changed e b) (text_of e.path) rest.changed_paths;
    observations = saw (text_of e.path) b (has_changed e b) ∷ rest.observations;
  })
  check_old strict e _ rest =
      ok (record rest { failures = missing_file (text_of e.path) ∷ rest.failures })

  unfoldable pub check_node : Store → Bool → Entry → Text → Findings → Result Error Findings
  unfolding is_text is_number is_unintended sha256_bytes
  check_node s strict e target rest =
      if is_text absent e.expected_state
      then check_new e (node h s target) rest
      else check_old strict e (node h s target) rest

  -- The case of the entry, when its path still resolves.
  abbrev pub check_target :
      Store
      → Bool
      → Entry
      → Result Error (Text × Text)
      → Result Error Findings
      → Result Error Findings
  check_target s strict e (err x) rest = err x
  check_target s strict e (ok (target, canonical)) (err x) =
      first_error (check_node s strict e target nothing_found) x
  check_target s strict e (ok (target, canonical)) (ok rest) = check_node s strict e target rest

  unfoldable pub check_postimages : Store → Bool → List Entry → Result Error Findings
  unfolding check_node
  check_postimages s strict [] = ok nothing_found
  check_postimages s strict (e ∷ es) =
      check_target s strict e (target_of h root (text_of e.path)) (check_postimages s strict es)

  abbrev pub new_receipt : Manifest → Findings → Receipt
  new_receipt m found = record {
    manifest_id = m.manifest_id;
    changed_paths = sorted_set found.changed_paths;
    observations = found.observations;
  }

  -- The receipt of a write without failures, and the last step of the manifest.
  abbrev pub complete : Text → Text → Bytes → Manifest → Findings → M Verdict
  complete path output before m found = do
    write_new_json h output (h.indented_receipt (new_receipt m found))
    rewrite_manifest h path before (record m { lifecycle_state = value verified })
    pure (passed (new_receipt m found))

  abbrev pub decide : Text → Text → Bytes → Manifest → Findings → List Failure → M Verdict
  decide path output before m found [] = complete path output before m found
  decide path output before m found (f ∷ fs) = pure (failed (f ∷ fs) found.changed_paths)

  -- `receipt` once the manifest is read
  unfoldable pub receipt_of : Text → Text → Bytes → Manifest → M Verdict
  unfolding validate_entries check_postimages sorted_set write_new_json rewrite_manifest
  receipt_of path output before m = do
    entries ← lift (validate_entries h root m)
    guard (is_text applied m.lifecycle_state) not_applied
    found ← λ s. (check_postimages s (is_strict m) entries, s)
    decide path output before m found found.failures

  unfoldable pub receipt : Text → Text → M Verdict
  unfolding check_output_path read_bytes read_json receipt_of
  receipt path output = do
    check_output_path h root output
    taken ← gets (λ s. exists h s output)
    guard (not taken) existing_artifact
    before ← read_bytes h path
    m ← read_json h path
    receipt_of path output before m
